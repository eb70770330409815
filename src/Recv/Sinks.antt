-- ===== src/Recv/Sinks.antt =====
-- The end of a pass over the payload of a SEQ packet, in `handleReads` (c/org.chabu/src/Chabu.c).
use mathlib.Core.Path.{subst}
use chabu.Prelude.{
  ℕ, suc, ◌<◌, ◌≡◌, ◌⊎◌, inl, inr, sym, ◌∙◌, ap, true, arith, ◌==◌, ◌&&◌, if◌then◌else◌,
}
use chabu.Prelude.Int.{pos}
use chabu.Run.{Run, ok, OnOk, bind-OnOk, test-OnOk}
use chabu.State.{Chabu, RecvState}
use chabu.World.{World, Callbacks, with_chabu}
use chabu.Recv.Packet.{Step, again, stop}
use chabu.Recv.Payload.{is_zero, recv_payload, recv_padding, recv_seq_payload}
use chabu.Recv.Loop.{is_seq_payload}
use chabu.Recv.Stream.{HasPadding, IsStream, bytes_left}
use chabu.Recv.Follow.{Going}
use chabu.Recv.Drops.{
  Drops, Dropped, NoPadding, Dropped-padding, recv_padding-Drops, recv_payload-Dropped,
}

module _ {U : Type 0} (cb : Callbacks U) (pending : U → ℕ) where
  -- What a pass in the state seqPayload leads to: less is to come, or the packet is done.
  pub record Sinks (w w' : World U) : Type 0 where
    pub less : bytes_left cb pending w' < suc (pending w.app)
    pub padding : HasPadding w'.chabu

  -- Bytes have come in, or the packet is done and nothing has changed.
  both :
      (w w1 w2 : World U)
      → Dropped cb pending (w.chabu.recv_seq_remaining_payload ≡ 0) w w1
      → Dropped cb pending (NoPadding cb pending w1) w1 w2
      → Drops cb pending w w2
        ⊎ ((w2 ≡ w)
            × (w2.chabu.recv_seq_remaining_payload ≡ 0)
            × (w2.chabu.recv_seq_remaining_padding ≡ pos 0))
  unfolding NoPadding
  both w w1 w2 (inl d) (inl g) = inl (record {
    less = omega (arith, d.less, g.less);
    state = g.state ∙ d.state;
    padding = g.padding;
  })
  both w w1 w2 (inl d) (inr (e, n)) = inl (subst (λ x. Drops cb pending w x) (sym e) d)
  both w w1 w2 (inr (e, n)) (inl g) = inl (subst (λ x. Drops cb pending x w2) e g)
  both w w1 w2 (inr (e, n)) (inr (f, m)) =
      let none_left : w1.chabu.recv_seq_remaining_payload ≡ 0 =
        ap (λ x. x.chabu.recv_seq_remaining_payload) e ∙ n in
      inr (
        f ∙ e,
        ap (λ x. x.chabu.recv_seq_remaining_payload) f ∙ none_left,
        ap (λ x. x.chabu.recv_seq_remaining_padding) f ∙ m none_left,
      )

  -- The end of a pass in the state seqPayload.
  abbrev finish : World U → Run (Step (World U))
  finish w =
      let c = w.chabu in
      let done : Chabu = record c {
        recv_state = RecvState.ready;
        recv_buffer = record (c.recv_buffer) { position = 0 };
      } in
      if c.recv_seq_remaining_payload == 0 && is_zero c.recv_seq_remaining_padding
      then ok (again (with_chabu w done))
      else ok (again w)

  finish-Sinks :
      (w w2 : World U)
      → is_seq_payload w.chabu.recv_state ≡ true
      → HasPadding w.chabu
      → Drops cb pending w w2
        ⊎ ((w2 ≡ w)
            × (w2.chabu.recv_seq_remaining_payload ≡ 0)
            × (w2.chabu.recv_seq_remaining_padding ≡ pos 0))
      → OnOk (Going (Sinks w)) (finish w2)
  finish-Sinks w w2 seq h (inl d) =
      test-OnOk (Going (Sinks w))
        (w2.chabu.recv_seq_remaining_payload == 0 && is_zero w2.chabu.recv_seq_remaining_padding) _
        _ (λ e. record { less = omega (arith, d.less); padding = d.padding })
        (λ e. record {
          less = rw (ap is_seq_payload d.state ∙ seq) (omega (arith, d.less));
          padding = d.padding;
        })
  finish-Sinks w w2 seq h (inr (e, n, m)) =
      test-OnOk (Going (Sinks w))
        (w2.chabu.recv_seq_remaining_payload == 0 && is_zero w2.chabu.recv_seq_remaining_padding) _
        _ (λ t. record { less = omega (arith, ap (λ x. pending x.app) e); padding = (0, m) })
        (λ t. absurd (ground (arith, t, n, m)))

  finish_padding :
      (w w1 : World U)
      → is_seq_payload w.chabu.recv_state ≡ true
      → HasPadding w.chabu
      → Dropped cb pending (w.chabu.recv_seq_remaining_payload ≡ 0) w w1
      → (s : Step (World U)) → Going (Dropped cb pending (NoPadding cb pending w1) w1) s
      → OnOk (Going (Sinks w)) (elim s [ stop w ↦ ok (stop w) | again w ↦ finish w ])
  finish_padding w w1 seq h d (stop w2) g = tt
  finish_padding w w1 seq h d (again w2) g = finish-Sinks w w2 seq h (both w w1 w2 d g)

  behind :
      IsStream cb pending
      → (w : World U) → is_seq_payload w.chabu.recv_state ≡ true
      → HasPadding w.chabu
      → (s : Step (World U))
      → Going (Dropped cb pending (w.chabu.recv_seq_remaining_payload ≡ 0) w) s
      → OnOk (Going (Sinks w)) (elim s [
        | stop w ↦ ok (stop w)
        | again w ↦ elim (recv_padding cb w) [ stop w ↦ ok (stop w) | again w ↦ finish w ]
      ])
  behind k w seq h (stop w1) d = tt
  behind k w seq h (again w1) d =
      finish_padding w w1 seq h d (recv_padding cb w1)
        (recv_padding-Drops cb pending k w1 (Dropped-padding cb pending w w1 h d))

  pub recv_seq_payload-Sinks :
      IsStream cb pending
      → (w : World U) → is_seq_payload w.chabu.recv_state ≡ true
      → HasPadding w.chabu
      → OnOk (Going (Sinks w)) (recv_seq_payload cb w)
  unfolding recv_seq_payload
  recv_seq_payload-Sinks k w seq h =
      bind-OnOk (Going (Dropped cb pending (w.chabu.recv_seq_remaining_payload ≡ 0) w))
        (Going (Sinks w)) (recv_payload cb w) _ (recv_payload-Dropped cb pending k w h)
        (behind k w seq h)
