-- ===== src/Init/Fresh.antt =====
-- What a connection looks like behind `Chabu_Init`: c/org.chabu/src/ChabuInit.c.
use mathlib.Core.Path.{subst}
use native.Mathlib.Decide.{ℕ_discrete}
use chabu.Prelude.{
  ℕ, zero, suc, ◌+◌, ◌<◌, ◌≤◌, ◌≡◌, refl, sym, ◌∙◌, ap, false, none, List, ◌++◌, ◌∷◌, leb, arith,
  length, length-replicate, take, eq→==, ne→==,
}
use chabu.Prelude.Int.{pos, negsuc}
use chabu.Run.{Returns}
use chabu.Buffer
use chabu.Buffer.{ByteBuffer, flip, align_up4}
use chabu.Buffer.Write.{Writes}
use chabu.Buffer.Text.{NoZero, strnlen_lem}
use chabu.State.{Chabu, Channel, Priority, XmitState, RecvState, init_channels, apn_max_length}
use chabu.World.{World, Callbacks, with_chabu, report_error_if}
use chabu.Priority.{Kind, ctrl, seq_data, entry_of, list_of}
use chabu.Init.{
  Arguments, count, for_each, reset, reset_channel, reset_priority, unlink_channel, start,
  check_channels, unconfigured, activate,
}
use chabu.Errors.{init_channels_not_configured}
use chabu.Init.Setup.{setup_bytes, put_setup-setup_bytes}

module _ {A : Type 0} (f : ℕ → A → A) (arr : ℕ → A) where
  for_each_beyond : (n i : ℕ) → n ≤ i → for_each n f arr i ≡ arr i
  unfolding for_each
  for_each_beyond zero i h = refl
  for_each_beyond (suc n) i h = rw (ne→== n i (omega arith)) (for_each_beyond n i (omega arith))

  -- An element is visited once.
  for_each_below : (n i : ℕ) → i < n → for_each n f arr i ≡ f i (arr i)
  unfolding for_each
  for_each_below zero i h = absurd (omega arith)
  for_each_below (suc n) i h = elim (ℕ_discrete n i) [
    | yes e ↦
        rw (eq→== n i e) (ap (f n) (for_each_beyond n n (omega arith)) ∙ ap (λ j. f j (arr j)) e)
    | no ne ↦ rw (ne→== n i ne) (for_each_below n i (omega arith))
  ]

-- The application configures the channels: it gives each one a priority that exists, and changes
-- nothing else.
pub record Configures {U : Type 0} (n q : ℕ) (w w' : World U) : Type 0 where
  pub rest : w'.chabu ≡ record (w.chabu) { channels = w'.chabu.channels }
  pub channel :
      (i : ℕ)
      → w'.chabu.channels i ≡ record (w.chabu.channels i) {
        priority = (w'.chabu.channels i).priority;
        user = (w'.chabu.channels i).user;
      }
  pub priority : (i : ℕ) → i < n → (p : ℕ) × ((w'.chabu.channels i).priority ≡ pos p) × p < q

-- A channel that has neither sent nor received, and asks for nothing: no ARM, DAVAIL or reset packet is
-- to be sent, nothing is requested of it, and it stands in no list. Its field `recv.limit` is not among
-- those that are set.
pub record IsFresh (i : ℕ) (ch : Channel) : Type 0 where
  pub number : ch.channel_id ≡ i
  pub entry : (k : Kind) → entry_of k ch ≡ record { next = none; ch = i }
  pub sent : ch.xmit_seq ≡ 0
  pub armed : ch.xmit_arm ≡ 0
  pub released : ch.xmit_limit ≡ 0
  pub received : ch.recv_seq ≡ 0
  pub to_arm : ch.recv_arm ≡ 0
  pub no_arm : ch.xmit_request_ctrl_arm ≡ false
  pub no_davail : ch.xmit_request_ctrl_davail ≡ false
  pub no_reset : ch.xmit_request_ctrl_reset ≡ false
  pub no_request : ch.recv_request ≡ false

-- The connection waits for the SETUP packet of the peer, with its own one ready to be sent; it has no
-- ping and no payload of a SEQ packet under way.
pub record Activated {U : Type 0} (n q : ℕ) (packet : List ℕ) (w' : World U) : Type 0 where
  pub xmit : w'.chabu.xmit_state ≡ XmitState.setup
  pub recv : w'.chabu.recv_state ≡ RecvState.setup
  pub unknown : w'.chabu.connection_info_remote.has_content ≡ false
  pub no_ping :
      (w'.chabu.xmit_ping_in_progress ≡ false)
      × (w'.chabu.xmit_ping_request ≡ false)
      × (w'.chabu.recv_ping_request ≡ false)
      × (w'.chabu.xmit_ping_ping_data ≡ none)
      × (w'.chabu.xmit_ping_pong_data ≡ none)
  pub no_seq :
      (w'.chabu.recv_seq_channel ≡ none)
      × (w'.chabu.recv_seq_remaining_payload ≡ 0)
      × (w'.chabu.recv_seq_remaining_padding ≡ pos 0)
  pub head : (w'.chabu.recv_buffer.position ≡ 0) × (w'.chabu.recv_buffer.limit ≡ 8)
  pub counts : (w'.chabu.channel_count ≡ n) × (w'.chabu.priority_count ≡ q)
  pub ready : w'.chabu.xmit_buffer.position ≡ 0
  pub laid : take w'.chabu.xmit_buffer.limit w'.chabu.xmit_buffer.memory ≡ packet
  pub levels :
      (k : Kind) (level : ℕ)
      → level < q
      → list_of k (w'.chabu.priorities level)
        ≡ record { request = none; last_selected_channel_id = negsuc 0 }
  pub channels : (i : ℕ) → i < n → IsFresh i (w'.chabu.channels i)

unfolded_channel :
    (arr : ℕ → Channel) (c : ℕ → Channel) (n i : ℕ)
    → i < n
    → c i ≡ record (for_each n reset_channel arr i) { priority = (c i).priority; user = (c i).user }
    → IsFresh i (for_each n unlink_channel c i)
unfolding for_each
unfolded_channel arr c n i h e =
    let was : for_each n reset_channel arr i ≡ reset_channel i (arr i) =
      for_each_below reset_channel arr n i h in
    let now : for_each n unlink_channel c i ≡ unlink_channel i (c i) =
      for_each_below unlink_channel c n i h in
    let set : c i
        ≡ record (reset_channel i (arr i)) { priority = (c i).priority; user = (c i).user } =
      e ∙ ap (λ (ch : Channel). record ch { priority = (c i).priority; user = (c i).user }) was in
    subst (IsFresh i) (sym (now ∙ ap (unlink_channel i) set)) (record {
      number = refl;
      entry = λ k.
          elim k
            as (λ k.
              entry_of k (
                unlink_channel i (record (reset_channel i (arr i)) {
                  priority = (c i).priority;
                  user = (c i).user;
                }))
              ≡ record { next = none; ch = i }) [ ctrl ↦ refl | seq_data ↦ refl ];
      sent = refl;
      armed = refl;
      released = refl;
      received = refl;
      to_arm = refl;
      no_arm = refl;
      no_davail = refl;
      no_reset = refl;
      no_request = refl;
    })

level_at :
    (arr : ℕ → Priority) (q : ℕ) (k : Kind) (level : ℕ)
    → level < q
    → list_of k (for_each q reset_priority arr level)
      ≡ record { request = none; last_selected_channel_id = negsuc 0 }
level_at arr q ctrl level h = ap (list_of ctrl) (for_each_below reset_priority arr q level h)
level_at arr q seq_data level h =
    ap (list_of seq_data) (for_each_below reset_priority arr q level h)

below : (q p : ℕ) → p < q → leb q p ≡ false
below q p h = ground (arith, h)

module _ {U : Type 0} (cb : Callbacks U) where
  check_channels_pass :
      (q n : ℕ) (w : World U)
      → ((i : ℕ) → i < n → (p : ℕ) × ((w.chabu.channels i).priority ≡ pos p) × p < q)
      → check_channels cb q n w ≡ w
  unfolding check_channels report_error_if
  check_channels_pass q zero w h = refl
  check_channels_pass q (suc n) w h =
      let (p, e, lt) = h n (omega arith) in
      let known : unconfigured q (w.chabu.channels n).priority ≡ false =
        ap (unconfigured q) e ∙ below q p lt in
      ap
        (λ (v : World U).
          report_error_if cb (unconfigured q (v.chabu.channels n).priority)
            init_channels_not_configured v)
        (check_channels_pass q n w (λ i g. h i (omega (arith, g))))
      ∙ ap (λ t. report_error_if cb t init_channels_not_configured w) known

  module _ (a : Arguments) (w w1 : World U)
      (d : Configures
        (count a.channel_count)
        (count a.priority_count)
        (with_chabu w (reset cb a w.chabu))
        w1) where
    -- The transmit buffer is empty, and has room for the packet.
    empty : (w1.chabu.xmit_buffer.position ≡ 0) × (length w1.chabu.xmit_buffer.memory ≡ 0x100)
    unfolding reset Buffer.init
    empty = (
      ap (λ (c : Chabu). c.xmit_buffer.position) d.rest,
      ap (λ (c : Chabu). length c.xmit_buffer.memory) d.rest ∙ length-replicate 0x100 (zero),
    )

    started :
        (packet : List ℕ) (b : ByteBuffer)
        → Writes w1.chabu.xmit_buffer packet b
        → Activated
            (count a.channel_count)
            (count a.priority_count)
            packet
            (with_chabu w1 (start cb (flip b) w1.chabu))
    unfolding start reset flip
    started packet b laid = record {
      xmit = refl;
      recv = refl;
      unknown = refl;
      no_ping = (refl, refl, refl, refl, refl);
      no_seq = (refl, refl, refl);
      head = (ap (λ (c : Chabu). c.recv_buffer.position) d.rest, refl);
      counts =
          (ap (λ (c : Chabu). c.channel_count) d.rest, ap (λ (c : Chabu). c.priority_count) d.rest);
      ready = refl;
      laid = laid.content ∙ ap (λ k. take k w1.chabu.xmit_buffer.memory ++ packet) empty.0;
      levels = λ k level lt.
          ap (λ (c : Chabu). list_of k (c.priorities level)) d.rest
          ∙ level_at a.priorities (count a.priority_count) k level lt;
      channels = λ i lt.
          subst (λ m. IsFresh i (for_each m unlink_channel w1.chabu.channels i))
            (sym (ap (λ (c : Chabu). c.channel_count) d.rest))
            (unfolded_channel a.channels w1.chabu.channels (count a.channel_count) i lt
              (d.channel i));
    }

  -- Behind its checks, with a name of at most 56 characters and an application that configures every
  -- channel, Chabu_Init ends without a fault and without an error report: the connection waits for the
  -- SETUP packet of the peer, its own one is in the transmit buffer, no ping and no SEQ packet is under
  -- way, no level has a request of either kind, and every channel has its number, positions and limits of
  -- 0 in all that the code sets, no pending ARM, DAVAIL, reset or other request, and entries in no list.
  pub activate-Activated :
      (a : Arguments) (cs rest : List ℕ) (w : World U)
      → NoZero cs
      → length cs ≤ apn_max_length
      → Configures
          (count a.channel_count)
          (count a.priority_count)
          (with_chabu w (reset cb a w.chabu))
          (cb.event_notification init_channels (with_chabu w (reset cb a w.chabu)))
      → Returns
          (Activated
            (count a.channel_count)
            (count a.priority_count)
            (setup_bytes (0x24 + align_up4 (length cs)) a cs))
          (activate cb a (cs ++ (0 ∷ rest)) w)
  unfolding activate align_up4
  activate-Activated a cs rest w nz short d =
      let n = count a.channel_count in
      let q = count a.priority_count in
      let w1 : World U = cb.event_notification init_channels (with_chabu w (reset cb a w.chabu)) in
      let (at_start, room) = empty a w w1 d in
      let (b, e, laid) =
        put_setup-setup_bytes w1.chabu.xmit_buffer (0x24 + align_up4 (length cs)) a cs rest nz
          (omega (arith, short)) (omega (arith, short, at_start, room)) in
      (
        with_chabu w1 (start cb (flip b) w1.chabu),
        simp (
          check_channels_pass q n w1 d.priority,
          strnlen_lem cs rest (apn_max_length + 1) nz (omega (arith, short)),
          e,
          activate,
        ),
        started a w w1 d (setup_bytes (0x24 + align_up4 (length cs)) a cs) b laid,
      )
