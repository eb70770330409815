-- ===== src/Handshake/Write.antt =====
-- The transmit half of c/org.chabu/src/Chabu.c and the order of the handshake: that the SETUP packet of
-- the peer is in is not forgotten.
use chabu.Prelude.{
  ℕ, zero, suc, ◌+◌, ◌-◌, ◌≡◌, refl, Bool, true, Option, none, some, ltb, ◌==◌, ◌&&◌, if◌then◌else◌,
  replicate,
}
use chabu.Prelude.Int.{ℤ, pos, negsuc, ◌-ℤ◌, ltb_ℤ}
use chabu.Run.{ok, ◌>>=◌, OnOk, bind-OnOk, then-OnOk, if-OnOk, option-OnOk, int-OnOk, bool-OnOk}
use chabu.Buffer
use chabu.Buffer.{
  ByteBuffer, has_remaining, remaining, flip, clear, put_int_be, put_string_from_buffer, align_up4,
}
use chabu.Errors.{ErrorCode, assert, code, xmit_user_buffer_zero_length, xmit_user_buffer_too_long}
use chabu.State.{
  Chabu, XmitState, PacketType, packet_id, abort_msg_size_max, ping_payload_max, pong_payload_max,
  xmit_completed,
}
use chabu.World.{World, Callbacks, with_chabu, report_error, is_ok}
use chabu.Priority.{
  Kind, ctrl, seq_data, pop_levels, pop_next_request, pop_next_request_ctrl, pop_next_request_data,
  pop_next_request_for_level, store, ids_of, rounds_of, entries_of, list_of,
}
use chabu.Xmit.Build.{
  accept_packet, echo_packet, send_seq, send_ctrl, no_payload, seq_packet, arm_packet, xmit_size,
}
use chabu.Xmit.Prepare.{prepare_data, prepare_idle, create_abort_packet, answer_setup}
use chabu.Xmit.Pending.{
  xmit_own, xmit_get_user_data, after_xmit, xmit_payload, xmit_padding, write_seq_payload, is_zero,
}
use chabu.Handshake.{Holds, Keeps-Holds, IsMindful, if_holds}
use chabu.Handshake.Read.{report_error-H}

-- The SETUP packet of the peer is in.
abbrev pub Known : XmitState → Bool → Type 0
Known s b = b ≡ true

abbrev pub KnownIn : Chabu → Type 0
KnownIn = Holds Known

-- The same of a result with an answer.
abbrev pub AnsweredKnown : Bool × Chabu → Type 0
AnsweredKnown (more, c) = KnownIn c

pop_levels-Known :
    (k : Kind) (c : Chabu) (left level : ℕ)
    → KnownIn c
    → OnOk (λ (r, c). KnownIn c) (pop_levels k c left level)
unfolding pop_levels store
pop_levels-Known k c zero level h = h
pop_levels-Known k c (suc left) level h =
    option-OnOk (λ (r, c). KnownIn c) (list_of k (c.priorities level)).request _ _
      (pop_levels-Known k c left (suc level) h)
      (λ _.
        then-OnOk (λ (r, c). KnownIn c)
          (pop_next_request_for_level (ids_of c) (rounds_of c) (entries_of k c)
            (list_of k (c.priorities level)))
          _
          (λ (r, es, l).
            option-OnOk (λ (r, c). KnownIn c) r _ _
              (pop_levels-Known k (store k level es l c) left (suc level) h) (λ ch. h)))

send_seq-Known : (c : Chabu) (i : ℕ) → KnownIn c → OnOk KnownIn (send_seq c i)
unfolding send_seq
send_seq-Known c i h =
    then-OnOk KnownIn
      (seq_packet c.xmit_buffer (c.channels i).channel_id (c.channels i).xmit_seq
        (xmit_size c (c.channels i)))
      _ (λ b. h)

send_ctrl-Known : (c : Chabu) (i : ℕ) → KnownIn c → OnOk KnownIn (send_ctrl c i)
unfolding send_ctrl
send_ctrl-Known c i h = if-OnOk KnownIn (c.channels i).xmit_request_ctrl_reset _ _ tt (
    if-OnOk KnownIn (c.channels i).xmit_request_ctrl_davail _ _ tt (
      if-OnOk KnownIn (c.channels i).xmit_request_ctrl_arm _ _
        (then-OnOk KnownIn
          (arm_packet c.xmit_buffer (c.channels i).channel_id (c.channels i).recv_arm) _ (λ b. h))
        tt))

prepare_data-Known : (c : Chabu) → KnownIn c → OnOk AnsweredKnown (prepare_data c)
unfolding prepare_data pop_next_request_data pop_next_request
prepare_data-Known c h =
    bind-OnOk (λ (r, c). KnownIn c) AnsweredKnown (pop_next_request_data c) _
      (pop_levels-Known seq_data c c.priority_count 0 h)
      (λ (r, c1) h1. option-OnOk AnsweredKnown r _ _ h1 λ i.
        bind-OnOk KnownIn AnsweredKnown (send_seq c1 i) _ (send_seq-Known c1 i h1) (λ c2 h2. h2))

pub prepare_idle-Known : (c : Chabu) → KnownIn c → OnOk AnsweredKnown (prepare_idle c)
unfolding prepare_idle pop_next_request_ctrl pop_next_request
prepare_idle-Known c h =
    let Q = AnsweredKnown in
    if-OnOk Q c.recv_ping_request _ _
      (then-OnOk Q
        (echo_packet PacketType.pong c.xmit_buffer c.recv_ping_pong_data pong_payload_max) _
        (λ x. h))
      (if-OnOk Q c.xmit_ping_request _ _
        (then-OnOk {A = ByteBuffer × Option ByteBuffer} Q
          (elim c.xmit_ping_ping_data [
            | none ↦
                echo_packet PacketType.ping c.xmit_buffer no_payload ping_payload_max >>= λ (b, _).
                ok (b, none)
            | some d ↦ echo_packet PacketType.ping c.xmit_buffer d ping_payload_max >>= λ (b, d).
                ok (b, some d)
          ])
          _ (λ x. h))
        (bind-OnOk (λ (r, c). KnownIn c) Q (pop_next_request_ctrl c) _
          (pop_levels-Known ctrl c c.priority_count 0 h)
          (λ (r, c1) h1.
            option-OnOk Q r _ _ (prepare_data-Known c1 h1)
              λ i. bind-OnOk KnownIn Q (send_ctrl c1 i) _ (send_ctrl-Known c1 i h1) (λ c2 h2. h2))))

module _ {U : Type 0} (cb : Callbacks U) (m : IsMindful cb) where
  abbrev pub IsKnown : World U → Type 0
  IsKnown w = KnownIn w.chabu

  report-K : (e : ErrorCode) (w : World U) → IsKnown w → IsKnown (report_error cb e w)
  report-K = report_error-H cb m Known (λ s b h. refl)

  create_abort_packet-Known :
      (w : World U) (e : ErrorCode) (msg : ByteBuffer)
      → IsKnown w
      → OnOk IsKnown (create_abort_packet cb w e msg)
  unfolding create_abort_packet
  create_abort_packet-Known w e msg h =
      int-OnOk IsKnown (remaining msg) _ _ (λ n f. tt)
        λ n f.
          let long = ltb abort_msg_size_max n in
          let w1 : World U = if long then report_error cb assert w else w in
          let h1 : IsKnown w1 =
            if_holds IsKnown long (report_error cb assert w) w (report-K assert w h) h in
          let msg1 : ByteBuffer =
            if long then record msg { limit = msg.limit - (n - abort_msg_size_max) } else msg in
          if-OnOk IsKnown (ltb_ℤ (remaining w1.chabu.xmit_buffer) (pos (16 + align_up4 n))) _ _
            (report-K assert w1 h1)
            (then-OnOk IsKnown (put_int_be w1.chabu.xmit_buffer (16 + align_up4 n)) _ λ b.
              then-OnOk IsKnown (put_int_be b (packet_id PacketType.abort)) _ λ b.
                then-OnOk IsKnown (put_int_be b (code e)) _
                  λ b. then-OnOk IsKnown (put_string_from_buffer b msg1) _ λ x. h1)

  pub answer_setup-Known : (w : World U) → IsKnown w → OnOk IsKnown (answer_setup cb w)
  unfolding answer_setup
  answer_setup-Known w h =
      let c = w.chabu in
      let r =
        cb.accept_connection c.connection_info_local c.connection_info_remote
          (Buffer.init (replicate abort_msg_size_max 0) abort_msg_size_max) w.app in
      let w1 : World U = record {
        chabu = record c { xmit_buffer = clear c.xmit_buffer };
        app = r.2;
      } in
      if-OnOk IsKnown (is_ok r.0) _ _ (then-OnOk IsKnown (accept_packet c.xmit_buffer) _ (λ b. h)) (
        bind-OnOk IsKnown IsKnown (create_abort_packet cb w1 r.0 (flip r.1)) _
          (create_abort_packet-Known w1 r.0 (flip r.1) h) (λ w2 h2. h2))

  xmit_get_user_data-Known : (w : World U) → IsKnown w → OnOk IsKnown (xmit_get_user_data cb w)
  unfolding xmit_get_user_data
  xmit_get_user_data-Known w h =
      option-OnOk IsKnown w.chabu.xmit_seq_buffer_user _ _
        (option-OnOk IsKnown w.chabu.xmit_seq_channel _ _ tt λ i.
          let c = w.chabu in
          let r =
            cb.channel_get_xmit_buffer (c.channels i).channel_id c.xmit_seq_remaining_payload
              w.app in
          let w' : World U = record {
            chabu = record c { xmit_seq_buffer_user = r.0 };
            app = r.1;
          } in
          option-OnOk IsKnown r.0 _ _ (report-K xmit_user_buffer_zero_length w' h) λ b.
            int-OnOk IsKnown (remaining b) _ _ (λ n e. h)
              λ n e. if-OnOk IsKnown (n == 0) _ _ (report-K xmit_user_buffer_zero_length w' h) (
                if-OnOk IsKnown (ltb c.xmit_seq_remaining_payload n) _ _
                  (report-K xmit_user_buffer_too_long w' h) h))
        (λ b. h)

  -- Of a result with an answer.
  abbrev pub KnownWith : Bool × World U → Type 0
  KnownWith (more, w) = IsKnown w

  after_xmit-Known :
      (w : World U) (i : ℕ) (b : ByteBuffer) (z : ℤ)
      → IsKnown w
      → OnOk KnownWith (after_xmit cb w i b z)
  unfolding after_xmit
  after_xmit-Known w i b (negsuc n) h = h
  after_xmit-Known w i b (pos n) h = if-OnOk KnownWith (n == 0) _ _ h (
      if-OnOk KnownWith (ltb w.chabu.xmit_seq_remaining_payload n) _ _ tt (
        if-OnOk KnownWith (has_remaining b) _ _ h (
          Keeps-Holds Known _ _
            (m.on_channel_event (w.chabu.channels i).channel_id xmit_completed _) h)))

  xmit_payload-Known :
      (rounds i : ℕ) (w : World U) → IsKnown w → OnOk IsKnown (xmit_payload cb rounds i w)
  unfolding xmit_payload
  xmit_payload-Known zero i w h = tt
  xmit_payload-Known (suc rounds) i w h =
      bool-OnOk IsKnown (w.chabu.xmit_seq_remaining_payload == 0) _ _ h (
        bind-OnOk IsKnown IsKnown (xmit_get_user_data cb w) _ (xmit_get_user_data-Known w h)
          λ w1 h1. option-OnOk IsKnown w1.chabu.xmit_seq_buffer_user _ _ tt λ b.
            let r = cb.network_xmit_buffer b w1.app in
            let w2 : World U = record w1 { app = r.1 } in
            bind-OnOk KnownWith IsKnown (after_xmit cb w2 i r.0 (remaining b -ℤ remaining r.0)) _
              (after_xmit-Known w2 i r.0 (remaining b -ℤ remaining r.0) h1)
              (λ (more, w3) h3. bool-OnOk IsKnown more _ _ (xmit_payload-Known rounds i w3 h3) h3))

  xmit_padding-Known : (w : World U) → IsKnown w → IsKnown (xmit_padding cb w)
  unfolding xmit_padding xmit_own
  xmit_padding-Known w h =
      if_holds IsKnown
        (w.chabu.xmit_seq_remaining_payload == 0
          && ltb_ℤ (pos 0) w.chabu.xmit_seq_remaining_padding)
        _ w h h

  pub write_seq_payload-Known : (w : World U) → IsKnown w → OnOk KnownWith (write_seq_payload cb w)
  unfolding write_seq_payload
  write_seq_payload-Known w h = option-OnOk KnownWith w.chabu.xmit_seq_channel _ _ tt λ i.
      bind-OnOk IsKnown KnownWith (xmit_payload cb (w.chabu.xmit_seq_remaining_payload + 1) i w) _
        (xmit_payload-Known (w.chabu.xmit_seq_remaining_payload + 1) i w h)
        (λ w1 h1.
          let w2 = xmit_padding cb w1 in
          let c = w2.chabu in
          let idle : World U = with_chabu w2 (record c { xmit_state = XmitState.idle }) in
          let h2 = xmit_padding-Known w1 h1 in
          if_holds IsKnown
            (c.xmit_seq_remaining_payload == 0 && is_zero cb c.xmit_seq_remaining_padding) idle w2
            h2 h2)
