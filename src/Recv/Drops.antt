-- ===== src/Recv/Drops.antt =====
-- What a pass over the payload of a SEQ packet consumes, in `handleReads` (c/org.chabu/src/Chabu.c).
use mathlib.Core.Path.{subst}
use native.Mathlib.Decide.{ℕ_discrete}
use chabu.Prelude.{
  ℕ, zero, suc, ◌+◌, ◌-◌, ◌<◌, ◌≤◌, ◌≡◌, ◌⊎◌, inl, inr, refl, sym, ◌∙◌, ap, Bool, true, false,
  arith, ltb, ◌==◌, not, ◌&&◌, if◌then◌else◌,
}
use chabu.Prelude.Int.{pos, pos_part, ◌-ℤ◌, ltb_ℤ}
use chabu.Run.{ok, OnOk, bind-OnOk, OnOk-mono, if-OnOk, test-OnOk, option-OnOk, int-OnOk}
use chabu.Buffer.{ByteBuffer, has_remaining, remaining}
use chabu.State.{recv_completed}
use chabu.World.{World, Callbacks}
use chabu.Recv.Packet.{Step, again, stop}
use chabu.Recv.Payload.{
  is_zero, cut, filled, recv_get_buffer, recv_into_buffer, recv_payload, recv_padding,
}
use chabu.Recv.Stream.{HasPadding, Reads, IsStream}
use chabu.Recv.Follow.{Going}

-- The difference that the code takes for the number of bytes that came in.
size_read :
    (b b' : ByteBuffer) (n : ℕ)
    → n ≤ b.limit - b.position
    → b'.position ≡ b.position + n
    → b'.limit ≡ b.limit
    → remaining b -ℤ remaining b' ≡ pos n
unfolding remaining ◌-ℤ◌
size_read b b' n bound place same = ground (arith, bound, place, same)

pos_sub : (a b : ℕ) → b ≤ a → pos a -ℤ pos b ≡ pos (a - b)
unfolding ◌-ℤ◌
pos_sub a b h = ground (arith, h)

nonzero : (n : ℕ) → (n == 0) ≡ false → 0 < n
nonzero n h = ground arith

none_due : (payload p : ℕ) → payload ≡ 0 → (payload == 0 && ltb_ℤ (pos 0) (pos p)) ≡ false → p ≡ 0
none_due payload zero e h = refl
none_due payload (suc p) e h = absurd (ground arith)

module _ {U : Type 0} (cb : Callbacks U) (pending : U → ℕ) where
  -- Nothing but buffers has changed.
  pub record Fetches (w w' : World U) : Type 0 where
    pub no_more : pending w'.app ≤ pending w.app
    pub state : w'.chabu.recv_state ≡ w.chabu.recv_state
    pub padding : w'.chabu.recv_seq_remaining_padding ≡ w.chabu.recv_seq_remaining_padding

  -- At least one byte has come in.
  pub record Drops (w w' : World U) : Type 0 where
    pub less : pending w'.app < pending w.app
    pub state : w'.chabu.recv_state ≡ w.chabu.recv_state
    pub padding : HasPadding w'.chabu

  Going-if :
      (P : World U → Type 0) (t : Bool) (a b : World U)
      → P a
      → P b
      → Going P (if t then again a else again b)
  Going-if P true a b h g = h
  Going-if P false a b h g = g

  Going-test :
      (P : World U → Type 0) (t : Bool) (a b : Step (World U))
      → (t ≡ true → Going P a)
      → (t ≡ false → Going P b)
      → Going P (if t then a else b)
  Going-test P true a b h g = h refl
  Going-test P false a b h g = g refl

  recv_get_buffer-Fetches :
      IsStream cb pending
      → (w : World U) (i : ℕ) → OnOk (Going (Fetches w)) (recv_get_buffer cb w i)
  unfolding recv_get_buffer
  recv_get_buffer-Fetches k w i =
      let P = Going (Fetches w) in
      let payload = w.chabu.recv_seq_remaining_payload in
      option-OnOk P w.chabu.recv_seq_buffer_user _ _
        (option-OnOk P (cb.channel_get_recv_buffer (w.chabu.channels i).channel_id payload w.app).0
          _ _ tt
          λ b. if-OnOk P (not (has_remaining b)) _ _ tt (
            if-OnOk P (not (has_remaining (cut b payload))) _ _ tt
              (record { no_more = k.offers _ _ w.app; state = refl; padding = refl })))
        (λ b. record { no_more = omega arith; state = refl; padding = refl })

  recv_into_buffer-Drops :
      IsStream cb pending
      → (w : World U) (i : ℕ) → HasPadding w.chabu
      → OnOk (Going (Drops w)) (recv_into_buffer cb w i)
  unfolding recv_into_buffer
  recv_into_buffer-Drops k w i (p, e) =
      let P = Going (Drops w) in
      let b = w.chabu.recv_seq_buffer in
      let (b', app) = cb.network_recv_buffer b w.app in
      let r : Reads cb pending b w.app b' app = k.reads b w.app in
      let size = size_read b b' r.amount r.bound r.place r.same_limit in
      let told : World U → World U =
        cb.channel_event_notification (w.chabu.channels i).channel_id recv_completed in
      int-OnOk P (remaining b -ℤ remaining b') _ _ (λ n neg. absurd (cc (size, neg)))
        (λ n is_n.
          let amount : r.amount ≡ n = ap pos_part (sym size ∙ is_n) in
          test-OnOk P (n == 0) _ _ (λ none_read. tt)
            λ some_read.
              let some_bytes : 0 < n = ground arith in
              let less : pending app < pending w.app = omega (arith, amount, some_bytes, r.less) in
              if-OnOk P (ltb w.chabu.recv_seq_remaining_payload n) _ _ tt (
                Going-if (Drops w) (is_zero (remaining b')) _ _
                  (let w1 : World U = record {
                    chabu = record (w.chabu) {
                      recv_seq_buffer = b';
                      recv_seq_remaining_payload = w.chabu.recv_seq_remaining_payload - n;
                      recv_seq_buffer_user = filled w.chabu.recv_seq_buffer_user b';
                    };
                    app = app;
                  } in
                    let heard = k.channel_notes (w.chabu.channels i).channel_id recv_completed w1 in
                    record {
                      less = omega (arith, less, heard.no_more);
                      state = heard.state;
                      padding = (p, heard.padding ∙ e);
                    })
                  (record { less = less; state = refl; padding = (p, e) })))

  since :
      (w w1 : World U)
      → Fetches w w1
      → (s : Step (World U)) → Going (Drops w1) s
      → Going (Drops w) s
  since w w1 d (stop w2) g = tt
  since w w1 d (again w2) g = record {
    less = omega (arith, d.no_more, g.less);
    state = g.state ∙ d.state;
    padding = g.padding;
  }

  recv_payload-Drops :
      IsStream cb pending
      → (w : World U) → HasPadding w.chabu
      → 0 < w.chabu.recv_seq_remaining_payload
      → OnOk (Going (Drops w)) (recv_payload cb w)
  unfolding recv_payload
  recv_payload-Drops k w h left =
      let P = Going (Drops w) in
      test-OnOk P (w.chabu.recv_seq_remaining_payload == 0) _ _ (λ e. absurd (ground (arith, left)))
        (λ e. option-OnOk P w.chabu.recv_seq_channel _ _ tt λ i.
          bind-OnOk (Going (Fetches w)) P (recv_get_buffer cb w i) _ (recv_get_buffer-Fetches k w i)
            (into i))
    where
      into :
          (i : ℕ) (r : Step (World U))
          → Going (Fetches w) r
          → OnOk
              (Going (Drops w))
              (elim r [ stop w ↦ ok (stop w) | again w ↦ recv_into_buffer cb w i ])
      into i (stop w1) d = tt
      into i (again w1) d =
          OnOk-mono (Going (Drops w1)) (Going (Drops w)) (recv_into_buffer cb w1 i) (since w w1 d)
            (recv_into_buffer-Drops k w1 i (h.0, d.padding ∙ h.1))

  -- Bytes have come in, or nothing was done, since nothing was due.
  abbrev pub Dropped : Type 0 → World U → World U → Type 0
  Dropped Idle w w' = Drops w w' ⊎ ((w' ≡ w) × Idle)

  unfoldable pub NoPadding : World U → Type 0
  NoPadding w = w.chabu.recv_seq_remaining_payload ≡ 0 → w.chabu.recv_seq_remaining_padding ≡ pos 0

  pub Dropped-padding :
      {Idle : Type 0} (w w1 : World U)
      → HasPadding w.chabu
      → Dropped Idle w w1
      → HasPadding w1.chabu
  Dropped-padding w w1 h (inl d) = d.padding
  Dropped-padding w w1 h (inr (e, n)) = subst (λ x. HasPadding x.chabu) (sym e) h

  pub recv_padding-Drops :
      IsStream cb pending
      → (w : World U) → HasPadding w.chabu
      → Going (Dropped (NoPadding w) w) (recv_padding cb w)
  unfolding recv_padding NoPadding
  recv_padding-Drops k w (p, e) =
      let c = w.chabu in
      let left = c.recv_seq_remaining_padding in
      let rb : ByteBuffer = record (c.recv_buffer) { position = 0; limit = pos_part left } in
      let (b, app) = cb.network_recv_buffer rb w.app in
      let r : Reads cb pending rb w.app b app = k.reads rb w.app in
      Going-test (Dropped (NoPadding w) w) (c.recv_seq_remaining_payload == 0 && ltb_ℤ (pos 0) left)
        _ _
        (λ due.
          Going-test (Dropped (NoPadding w) w) (b.position == 0) _ _ (λ none_read. tt)
            λ some_read. inl (record {
              less = omega (arith, nonzero b.position some_read, r.place, r.less);
              state = refl;
              padding = (
                p - b.position,
                ap (λ z. z -ℤ pos b.position) e
                    ∙ pos_sub p b.position (omega (arith, ap pos_part e, r.place, r.bound)),
              );
            }))
        (λ not_due. inr (
          refl,
          λ none_left.
              e
              ∙ ap pos (
                  none_due c.recv_seq_remaining_payload p none_left (
                    subst (λ z. (c.recv_seq_remaining_payload == 0 && ltb_ℤ (pos 0) z) ≡ false) e
                      not_due)),
        ))

  pub recv_payload-Dropped :
      IsStream cb pending
      → (w : World U) → HasPadding w.chabu
      → OnOk (Going (Dropped (w.chabu.recv_seq_remaining_payload ≡ 0) w)) (recv_payload cb w)
  unfolding recv_payload
  recv_payload-Dropped k w h = elim (ℕ_discrete w.chabu.recv_seq_remaining_payload 0) [
    | yes none_left ↦
        test-OnOk (Going (Dropped (w.chabu.recv_seq_remaining_payload ≡ 0) w))
          (w.chabu.recv_seq_remaining_payload == 0) _ _ (λ e. inr (refl, none_left))
          (λ e. absurd (ground (arith, none_left)))
    | no some_left ↦
        OnOk-mono (Going (Drops w)) (Going (Dropped (w.chabu.recv_seq_remaining_payload ≡ 0) w))
          (recv_payload cb w)
          (λ s.
            elim s
              as (λ s.
                Going (Drops w) s → Going (Dropped (w.chabu.recv_seq_remaining_payload ≡ 0) w) s) [
                  | stop w' ↦ λ g. tt
                  | again w' ↦ inl
                ])
          (recv_payload-Drops k w h (omega (arith, some_left)))
  ]
