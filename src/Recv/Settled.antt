-- ===== src/Recv/Settled.antt =====
-- c/org.chabu/src/Chabu.c: the end of a pass in the state seqPayload of `handleReads`.
use mathlib.Core.Path.{subst}
use chabu.Prelude.{
  ℕ, ◌≡◌, refl, sym, ◌∙◌, ap, ◌≢◌, ◌⊎◌, inl, inr, Bool, true, false, Bool-cases, ◌==◌, ◌&&◌, eq→==,
  arith, length, if◌then◌else◌,
}
use chabu.Prelude.Int.{ℤ, pos}
use chabu.Run.{ok}
use chabu.State.{RecvState}
use chabu.World.{World, with_chabu}
use chabu.Xmit.Written.{left_over, is_zero}
use chabu.Recv.Packet.{again}

pub push :
    {U : Type 0} (t : Bool) (a b : World U)
    → (if t then ok (again a) else ok (again b)) ≡ ok (again (if t then a else b))
push true a b = refl
push false a b = refl

all_over : (n : ℕ) (z : ℤ) → n ≡ 0 → z ≡ pos 0 → (n == 0 && is_zero z) ≡ true
all_over n z h g = rw (eq→== n 0 h) (ap is_zero g)

false-ne-true : ¬ (false ≡ true)
false-ne-true h = ground arith

module _ {U : Type 0} where
  -- The end of a pass: the packet is done with where nothing is left.
  abbrev pub settled : World U → World U
  settled w =
      if w.chabu.recv_seq_remaining_payload == 0 && is_zero w.chabu.recv_seq_remaining_padding
      then with_chabu w (record (w.chabu) {
        recv_state = RecvState.ready;
        recv_buffer = record (w.chabu.recv_buffer) { position = 0 };
      })
      else w

  pub record Settled (w w' : World U) : Type 0 where
    pub payload : w'.chabu.recv_seq_remaining_payload ≡ w.chabu.recv_seq_remaining_payload
    pub padding : w'.chabu.recv_seq_remaining_padding ≡ w.chabu.recv_seq_remaining_padding
    pub app : w'.app ≡ w.app
    pub room : length w'.chabu.recv_buffer.memory ≡ length w.chabu.recv_buffer.memory
    pub rest :
        w'.chabu
        ≡ record (w.chabu) { recv_buffer = w'.chabu.recv_buffer; recv_state = w'.chabu.recv_state }
    pub ready :
        w.chabu.recv_seq_remaining_payload ≡ 0
        → w.chabu.recv_seq_remaining_padding ≡ pos 0
        → w'.chabu.recv_state ≡ RecvState.ready
    pub stays :
        (w.chabu.recv_seq_remaining_payload ≢ 0) ⊎ (w.chabu.recv_seq_remaining_padding ≢ pos 0)
        → w'.chabu.recv_state ≡ w.chabu.recv_state

  pub Settled-not_yet :
      (w : World U)
      → ¬ (
          (w.chabu.recv_seq_remaining_payload == 0 && is_zero w.chabu.recv_seq_remaining_padding)
          ≡ true)
      → Settled w w
  Settled-not_yet w h = record {
    payload = refl;
    padding = refl;
    app = refl;
    room = refl;
    rest = refl;
    ready = λ a b.
        absurd
          (h (all_over w.chabu.recv_seq_remaining_payload w.chabu.recv_seq_remaining_padding a b));
    stays = λ a. refl;
  }

  pub settled-Settled : (w : World U) → Settled w (settled w)
  settled-Settled w =
      let done : World U = with_chabu w (record (w.chabu) {
        recv_state = RecvState.ready;
        recv_buffer = record (w.chabu.recv_buffer) { position = 0 };
      }) in
      elim (Bool-cases
        (w.chabu.recv_seq_remaining_payload == 0 && is_zero w.chabu.recv_seq_remaining_padding)) [
          | inl all ↦ subst (Settled w) (sym (ap (λ t. if t then done else w) all)) (record {
            payload = refl;
            padding = refl;
            app = refl;
            room = refl;
            rest = refl;
            ready = λ h g. refl;
            stays = λ h. absurd (
                left_over w.chabu.recv_seq_remaining_payload w.chabu.recv_seq_remaining_padding h
                  all);
          })
          | inr some_left ↦
              subst (Settled w) (sym (ap (λ t. if t then done else w) some_left))
                (Settled-not_yet w (λ h. false-ne-true (sym some_left ∙ h)))
        ]
