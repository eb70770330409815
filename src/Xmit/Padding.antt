-- ===== src/Xmit/Padding.antt =====
-- c/org.chabu/src/Chabu.c: the padding behind the payload of a SEQ packet, in `writePendingXmitData`.
use native.Mathlib.Decide.{ℕ_discrete}
use mathlib.Core.Path.{subst}
use chabu.Prelude.{
  ℕ, ◌-◌, ◌≤◌, ◌≡◌, refl, sym, ◌∙◌, ap, ◌≢◌, Bool, true, false, ◌&&◌, ◌==◌, eq→==, ne→==, List,
  ◌++◌, append-nil, arith, length, take, if◌then◌else◌,
}
use chabu.Prelude.Int.{pos, ltb_ℤ, ◌-ℤ◌}
use chabu.Buffer.{ByteBuffer}
use chabu.World.{World, Callbacks}
use chabu.Xmit.Carrier.{Taken, IsCarrier}
use chabu.Xmit.Pending.{xmit_own, xmit_padding}

pub pos_minus : (p n : ℕ) → n ≤ p → pos p -ℤ pos n ≡ pos (p - n)
unfolding ◌-ℤ◌
pos_minus p n h = ground arith

pub no_padding : (b : Bool) (p : ℕ) → p ≡ 0 → (b && ltb_ℤ (pos 0) (pos p)) ≡ false
no_padding true p h = ground arith
no_padding false p h = refl

pub has_padding : (n p : ℕ) → n ≡ 0 → p ≢ 0 → (n == 0 && ltb_ℤ (pos 0) (pos p)) ≡ true
has_padding n p h g = rw (eq→== n 0 h) (ground arith)

module _ {U : Type 0} (cb : Callbacks U) (sent given : U → List ℕ) where
  -- The padding of `p` bytes, once the payload is out: its first bytes have left, all, some or none.
  pub record Padded (w : World U) (p : ℕ) (w' : World U) : Type 0 where
    pub amount : ℕ
    pub bound : amount ≤ p
    pub counted : w'.chabu.xmit_seq_remaining_padding ≡ pos (p - amount)
    pub went : sent w'.app ≡ sent w.app ++ take amount (take p w.chabu.xmit_buffer.memory)
    pub same : given w'.app ≡ given w.app
    pub waits : w.chabu.xmit_seq_remaining_payload ≢ 0 → amount ≡ 0
    pub room : length w'.chabu.xmit_buffer.memory ≡ length w.chabu.xmit_buffer.memory
    pub rest : w'.chabu ≡ record (w.chabu) {
      xmit_buffer = w'.chabu.xmit_buffer;
      xmit_seq_remaining_padding = w'.chabu.xmit_seq_remaining_padding;
    }

  Padded-nothing : (w : World U) (p : ℕ) → w.chabu.xmit_seq_remaining_padding ≡ pos p → Padded w p w
  Padded-nothing w p e = record {
    amount = 0;
    bound = omega arith;
    counted = e ∙ ap pos (omega arith);
    went = sym (append-nil _);
    same = refl;
    waits = λ h. refl;
    room = refl;
    rest = refl;
  }

  -- The padding as a buffer, and what is left of the connection when the network has seen it.
  abbrev padding_of : World U → ℕ → ByteBuffer
  padding_of w p = record (w.chabu.xmit_buffer) { position = 0; limit = p }

  abbrev padded : World U → ℕ → World U
  padded w p = record {
    chabu = record (w.chabu) {
      xmit_buffer = (cb.network_xmit_buffer (padding_of w p) w.app).0;
      xmit_seq_remaining_padding =
          pos p -ℤ pos (cb.network_xmit_buffer (padding_of w p) w.app).0.position;
    };
    app = (cb.network_xmit_buffer (padding_of w p) w.app).1;
  }

  padded-Padded :
      (w : World U) (p : ℕ)
      → w.chabu.xmit_seq_remaining_payload ≡ 0
      → Taken cb sent given
          (padding_of w p)
          w.app
          (cb.network_xmit_buffer (padding_of w p) w.app).0
          (cb.network_xmit_buffer (padding_of w p) w.app).1
      → Padded w p (padded w p)
  padded-Padded w p none_left t =
      let at : (cb.network_xmit_buffer (padding_of w p) w.app).0.position ≡ t.amount =
        ap (λ (b : ByteBuffer). b.position) t.buffer ∙ omega arith in
      record {
        amount = t.amount;
        bound = omega (arith, t.bound);
        counted = ap (λ n. pos p -ℤ pos n) at ∙ pos_minus p t.amount (omega (arith, t.bound));
        went =
            t.out
            ∙ ap (λ n. sent w.app ++ take t.amount (take n w.chabu.xmit_buffer.memory))
                (omega arith);
        same = t.same;
        waits = λ h. absurd (h none_left);
        room = ap (λ (b : ByteBuffer). length b.memory) t.buffer;
        rest = refl;
      }

  sends_padding :
      (w : World U) (p : ℕ)
      → w.chabu.xmit_seq_remaining_padding ≡ pos p
      → (w.chabu.xmit_seq_remaining_payload ≢ 0 → xmit_padding cb w ≡ w)
        × (p ≡ 0 → xmit_padding cb w ≡ w)
        × (w.chabu.xmit_seq_remaining_payload ≡ 0 → p ≢ 0 → xmit_padding cb w ≡ padded w p)
  unfolding xmit_padding xmit_own
  sends_padding w p e = (
    λ left. simp (ne→== _ 0 left, xmit_padding),
    λ nothing. simp (
      ap (λ z. w.chabu.xmit_seq_remaining_payload == 0 && ltb_ℤ (pos 0) z) e
          ∙ no_padding (w.chabu.xmit_seq_remaining_payload == 0) p nothing,
      xmit_padding,
    ),
    λ none_left some_bytes.
        simp (e, xmit_padding)
          (ap (λ t. if t then padded w p else w)
            (has_padding w.chabu.xmit_seq_remaining_payload p none_left some_bytes)),
  )

  pub padding_lem :
      IsCarrier cb sent given
      → (w : World U) (p : ℕ) → w.chabu.xmit_seq_remaining_padding ≡ pos p
      → p ≤ length w.chabu.xmit_buffer.memory
      → Padded w p (xmit_padding cb w)
  padding_lem k w p e room = elim (ℕ_discrete w.chabu.xmit_seq_remaining_payload 0) [
    | no left ↦ subst (Padded w p) (sym ((sends_padding w p e).0 left)) (Padded-nothing w p e)
    | yes none_left ↦ elim (ℕ_discrete p 0) [
      | yes nothing ↦
          subst (Padded w p) (sym ((sends_padding w p e).1 nothing)) (Padded-nothing w p e)
      | no some_bytes ↦ subst (Padded w p) (sym ((sends_padding w p e).2 none_left some_bytes)) (
          padded-Padded w p none_left
            (k.takes (padding_of w p) w.app (record { ordered = omega arith; inside = room })))
    ]
  ]
