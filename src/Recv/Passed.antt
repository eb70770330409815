-- ===== src/Recv/Passed.antt =====
-- c/org.chabu/src/Chabu.c: the padding behind the payload of a SEQ packet, in `handleReads`.
use native.Mathlib.Decide.{ℕ_discrete}
use mathlib.Core.Path.{subst}
use chabu.Prelude.{
  ℕ, ◌-◌, ◌≤◌, ◌≡◌, refl, sym, ◌∙◌, ap, ◌≢◌, Bool, ◌==◌, ◌&&◌, eq→==, ne→==, List, [], ◌++◌,
  append-nil, arith, length, if◌then◌else◌,
}
use chabu.Prelude.Int.{pos, ltb_ℤ, ◌-ℤ◌}
use chabu.Buffer.{ByteBuffer}
use chabu.World.{World, Callbacks}
use chabu.Xmit.Padding.{pos_minus, has_padding, no_padding}
use chabu.Recv.Packet.{Step, again, stop}
use chabu.Recv.Payload.{recv_padding}
use chabu.Recv.Received.{no_bytes}
use chabu.Recv.Source.{Filled, IsSource}

module _ {U : Type 0} (cb : Callbacks U) (arrived : U → List ℕ) where
  -- Of a padding of `p` bytes, `pad` has come in; the receive buffer takes it.
  pub record Passed (w : World U) (p : ℕ) (pad : List ℕ) (w' : World U) : Type 0 where
    pub bound : length pad ≤ p
    pub counted : w'.chabu.recv_seq_remaining_padding ≡ pos (p - length pad)
    pub came : arrived w'.app ≡ arrived w.app ++ pad
    pub waits : w.chabu.recv_seq_remaining_payload ≢ 0 → pad ≡ []
    pub room : length w'.chabu.recv_buffer.memory ≡ length w.chabu.recv_buffer.memory
    pub rest : w'.chabu ≡ record (w.chabu) {
      recv_buffer = w'.chabu.recv_buffer;
      recv_seq_remaining_padding = w'.chabu.recv_seq_remaining_padding;
    }

  -- The loop stops where padding is due and none came in.
  abbrev pub Passing : World U → ℕ → Step (World U) → Type 0
  Passing w p (stop w') = (p ≢ 0) × Passed w p [] w'
  Passing w p (again w') = (pad : List ℕ) × Passed w p pad w'

  pub Passed-nothing :
      (w : World U) (p : ℕ) → w.chabu.recv_seq_remaining_padding ≡ pos p → Passed w p [] w
  Passed-nothing w p e = record {
    bound = omega arith;
    counted = e ∙ ap pos (omega arith);
    came = sym (append-nil _);
    waits = λ h. refl;
    room = refl;
    rest = refl;
  }

  -- The receive buffer as the place for the padding, and the state when the network has filled it.
  abbrev place_for : World U → ℕ → ByteBuffer
  place_for w p = record (w.chabu.recv_buffer) { position = 0; limit = p }

  abbrev passed : World U → ℕ → World U
  passed w p = record {
    chabu = record (w.chabu) {
      recv_buffer = (cb.network_recv_buffer (place_for w p) w.app).0;
      recv_seq_remaining_padding =
          pos p -ℤ pos (cb.network_recv_buffer (place_for w p) w.app).0.position;
    };
    app = (cb.network_recv_buffer (place_for w p) w.app).1;
  }

  passed-Passed :
      (w : World U) (p : ℕ)
      → w.chabu.recv_seq_remaining_payload ≡ 0
      → (f : Filled cb arrived
          (place_for w p)
          w.app
          (cb.network_recv_buffer (place_for w p) w.app).0
          (cb.network_recv_buffer (place_for w p) w.app).1)
      → Passed w p f.bytes (passed w p)
  passed-Passed w p none_left f =
      let at : (cb.network_recv_buffer (place_for w p) w.app).0.position ≡ length f.bytes =
        omega (arith, f.writes.place) in
      record {
        bound = omega (arith, f.bound);
        counted =
            ap (λ n. pos p -ℤ pos n) at ∙ pos_minus p (length f.bytes) (omega (arith, f.bound));
        came = f.came;
        waits = λ h. absurd (h none_left);
        room = f.writes.room;
        rest = refl;
      }

  recv_padding_cases :
      (w : World U) (p : ℕ)
      → w.chabu.recv_seq_remaining_padding ≡ pos p
      → (w.chabu.recv_seq_remaining_payload ≢ 0 → recv_padding cb w ≡ again w)
        × (p ≡ 0 → recv_padding cb w ≡ again w)
        × (w.chabu.recv_seq_remaining_payload ≡ 0
            → p ≢ 0
            → recv_padding cb w ≡ (
                if (passed w p).chabu.recv_buffer.position == 0
                then stop (passed w p)
                else again (passed w p)))
  unfolding recv_padding
  recv_padding_cases w p e = (
    λ left. simp (ne→== _ 0 left, recv_padding),
    λ nothing. simp (
      ap (λ z. w.chabu.recv_seq_remaining_payload == 0 && ltb_ℤ (pos 0) z) e
          ∙ no_padding (w.chabu.recv_seq_remaining_payload == 0) p nothing,
      recv_padding,
    ),
    λ none_left some_bytes.
        let out : Step (World U) =
          (if (passed w p).chabu.recv_buffer.position == 0
            then stop (passed w p)
            else again (passed w p)) in
        simp (e, recv_padding)
          (ap (λ t. if t then out else again w)
            (has_padding w.chabu.recv_seq_remaining_payload p none_left some_bytes)),
  )

  pub padding_lem :
      IsSource cb arrived
      → (w : World U) (p : ℕ) → w.chabu.recv_seq_remaining_padding ≡ pos p
      → p ≤ length w.chabu.recv_buffer.memory
      → Passing w p (recv_padding cb w)
  padding_lem k w p e room =
      let cases = recv_padding_cases w p e in
      elim (ℕ_discrete w.chabu.recv_seq_remaining_payload 0) [
        | no left ↦ subst (Passing w p) (sym (cases.0 left)) ([], Passed-nothing w p e)
        | yes none_left ↦ elim (ℕ_discrete p 0) [
          | yes nothing ↦ subst (Passing w p) (sym (cases.1 nothing)) ([], Passed-nothing w p e)
          | no some_bytes ↦
              let f =
                k.fills (place_for w p) w.app (record { ordered = omega arith; inside = room }) in
              let d = passed-Passed w p none_left f in
              let came_in = passed w p in
              let out : Bool → Step (World U) = λ t. if t then stop came_in else again came_in in
              subst (Passing w p) (sym (cases.2 none_left some_bytes))
                (elim (ℕ_discrete came_in.chabu.recv_buffer.position 0) [
                  | yes none_came ↦
                      subst (λ t. Passing w p (out t)) (sym (eq→== _ 0 none_came))
                        (
                          some_bytes,
                          subst (λ l. Passed w p l came_in)
                              (no_bytes f.bytes (omega (arith, none_came, f.writes.place))) d,
                        )
                  | no some_came ↦
                      subst (λ t. Passing w p (out t)) (sym (ne→== _ 0 some_came)) (f.bytes, d)
                ])
        ]
      ]
