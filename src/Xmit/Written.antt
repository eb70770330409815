-- ===== src/Xmit/Written.antt =====
-- c/org.chabu/src/Chabu.c: the payload and the padding of a SEQ packet, in `writePendingXmitData`.
use mathlib.Core.Path.{subst}
use chabu.Prelude.{
  ℕ, suc, ◌+◌, ◌-◌, ◌≤◌, ◌≡◌, refl, sym, ◌∙◌, ap, ◌≢◌, ◌⊎◌, inl, inr, Bool, true, false, Bool-cases,
  ◌&&◌, ◌==◌, some, List, ◌++◌, append_assoc, arith, length, take, if◌then◌else◌,
}
use chabu.Prelude.Int.{ℤ, pos, negsuc, pos_part, neg_part}
use chabu.Run.{Returns}
use chabu.Buffer.{ByteBuffer}
use chabu.State.{Chabu, XmitState}
use chabu.World.{World, Callbacks, with_chabu}
use chabu.Xmit.Carrier.{held, IsCarrier}
use chabu.Xmit.Deliver.{Ready, Ready_at, Delivered, same_channel}
use chabu.Xmit.Rounds.{Ended, xmit_payload-Ended}
use chabu.Xmit.Pending.{xmit_padding, xmit_payload, write_seq_payload}
use chabu.Xmit.Padding.{Padded, padding_lem}

-- `seqRemainingPadding == 0`
abbrev pub is_zero : ℤ → Bool
is_zero (pos n) = n == 0
is_zero (negsuc _) = false

pub left_over : (n : ℕ) (z : ℤ) → (n ≢ 0) ⊎ (z ≢ pos 0) → ¬ ((n == 0 && is_zero z) ≡ true)
left_over n (pos m) h g = elim h [
  | inl ne ↦ ne (ground arith)
  | inr ne ↦ ne (ap pos (ground arith))
]
left_over n (negsuc m) h g = ground arith

none_over : (n : ℕ) (z : ℤ) → n ≡ 0 → z ≡ pos 0 → ¬ ((n == 0 && is_zero z) ≡ false)
none_over n (pos m) h g k = let z : m ≡ 0 = ap pos_part g in ground arith
none_over n (negsuc m) h g k = let z : suc m ≡ 0 = ap neg_part g in ground arith

pub pos_injective : (m n : ℕ) → pos m ≡ pos n → m ≡ n
pos_injective m n e = ap pos_part e

module _ {U : Type 0} (cb : Callbacks U) (sent given : U → List ℕ) where
  -- What one call for the state seqPayload leaves. `out` is what the network took of the payload,
  -- behind it `gap` bytes of padding; the first bytes of the transmit buffer serve as padding.
  pub record Written (w : World U) (p : ℕ) (done : Bool) (w' : World U) : Type 0 where
    pub out : List ℕ
    pub fresh : List ℕ
    pub gap : ℕ
    pub counted :
        length out + w'.chabu.xmit_seq_remaining_payload ≡ w.chabu.xmit_seq_remaining_payload
    pub padding_counted : w'.chabu.xmit_seq_remaining_padding ≡ pos (p - gap)
    pub bound : gap ≤ p
    pub waits : w'.chabu.xmit_seq_remaining_payload ≢ 0 → gap ≡ 0
    pub went : sent w'.app ≡ sent w.app ++ (out ++ take gap (take p w.chabu.xmit_buffer.memory))
    pub came : given w'.app ≡ given w.app ++ fresh
    pub in_order :
        held w.chabu.xmit_seq_buffer_user ++ fresh ≡ out ++ held w'.chabu.xmit_seq_buffer_user
    pub finished : done ≡ (w'.chabu.xmit_seq_remaining_payload == 0)
    pub idle :
        w'.chabu.xmit_seq_remaining_payload ≡ 0 → p ≡ gap → w'.chabu.xmit_state ≡ XmitState.idle
    pub stays :
        (w'.chabu.xmit_seq_remaining_payload ≢ 0) ⊎ (p ≢ gap)
        → w'.chabu.xmit_state ≡ w.chabu.xmit_state
    pub channel : w'.chabu.xmit_seq_channel ≡ w.chabu.xmit_seq_channel
    pub room : length w'.chabu.xmit_buffer.memory ≡ length w.chabu.xmit_buffer.memory
    pub ready : Ready w'.chabu.xmit_seq_buffer_user w'.chabu.xmit_seq_remaining_payload

  -- The end of the call: the connection is idle where nothing is left.
  abbrev settled : World U → World U
  settled w =
      if w.chabu.xmit_seq_remaining_payload == 0 && is_zero w.chabu.xmit_seq_remaining_padding
      then with_chabu w (record (w.chabu) { xmit_state = XmitState.idle })
      else w

  record Settled (w w' : World U) : Type 0 where
    payload : w'.chabu.xmit_seq_remaining_payload ≡ w.chabu.xmit_seq_remaining_payload
    padding : w'.chabu.xmit_seq_remaining_padding ≡ w.chabu.xmit_seq_remaining_padding
    user : w'.chabu.xmit_seq_buffer_user ≡ w.chabu.xmit_seq_buffer_user
    app : w'.app ≡ w.app
    rest : w'.chabu ≡ record (w.chabu) { xmit_state = w'.chabu.xmit_state }
    idle :
        w.chabu.xmit_seq_remaining_payload ≡ 0
        → w.chabu.xmit_seq_remaining_padding ≡ pos 0
        → w'.chabu.xmit_state ≡ XmitState.idle
    stays :
        (w.chabu.xmit_seq_remaining_payload ≢ 0) ⊎ (w.chabu.xmit_seq_remaining_padding ≢ pos 0)
        → w'.chabu.xmit_state ≡ w.chabu.xmit_state

  settled-Settled : (w : World U) → Settled w (settled w)
  settled-Settled w =
      elim (Bool-cases
        (w.chabu.xmit_seq_remaining_payload == 0 && is_zero w.chabu.xmit_seq_remaining_padding)) [
          | inl all ↦
              let idle_now : World U =
                with_chabu w (record (w.chabu) { xmit_state = XmitState.idle }) in
              subst (Settled w) (sym (ap (λ t. if t then idle_now else w) all)) (record {
                payload = refl;
                padding = refl;
                user = refl;
                app = refl;
                rest = refl;
                idle = λ h g. refl;
                stays = λ h. absurd (
                    left_over w.chabu.xmit_seq_remaining_payload w.chabu.xmit_seq_remaining_padding
                      h all);
              })
          | inr some_left ↦
              let idle_now : World U =
                with_chabu w (record (w.chabu) { xmit_state = XmitState.idle }) in
              subst (Settled w) (sym (ap (λ t. if t then idle_now else w) some_left)) (record {
                payload = refl;
                padding = refl;
                user = refl;
                app = refl;
                rest = refl;
                idle = λ h g. absurd (
                    none_over w.chabu.xmit_seq_remaining_payload w.chabu.xmit_seq_remaining_padding
                      h g some_left);
                stays = λ h. refl;
              })
        ]

  Delivered-Written :
      (w w1 w2 w3 : World U) (p : ℕ) (out : List ℕ)
      → w.chabu.xmit_seq_remaining_padding ≡ pos p
      → Delivered cb sent given w out w1
      → Padded cb sent given w1 p w2
      → Settled w2 w3
      → Written w p (w2.chabu.xmit_seq_remaining_payload == 0) w3
  Delivered-Written w w1 w2 w3 p out e d t s =
      let buffer : w1.chabu.xmit_buffer ≡ w.chabu.xmit_buffer =
        ap (λ (c : Chabu). c.xmit_buffer) d.rest in
      let state1 : w1.chabu.xmit_state ≡ w.chabu.xmit_state =
        ap (λ (c : Chabu). c.xmit_state) d.rest in
      let state2 : w2.chabu.xmit_state ≡ w1.chabu.xmit_state =
        ap (λ (c : Chabu). c.xmit_state) t.rest in
      let left2 : w2.chabu.xmit_seq_remaining_payload ≡ w1.chabu.xmit_seq_remaining_payload =
        ap (λ (c : Chabu). c.xmit_seq_remaining_payload) t.rest in
      let user2 : w2.chabu.xmit_seq_buffer_user ≡ w1.chabu.xmit_seq_buffer_user =
        ap (λ (c : Chabu). c.xmit_seq_buffer_user) t.rest in
      let none_over : p ≡ t.amount → w2.chabu.xmit_seq_remaining_padding ≡ pos 0 =
        λ h. t.counted ∙ ap pos (omega (arith, h)) in
      let some_over : p ≢ t.amount → w2.chabu.xmit_seq_remaining_padding ≢ pos 0 =
        λ h g. h (omega (arith, t.bound, pos_injective (p - t.amount) 0 (sym t.counted ∙ g))) in
      let left_or_some : (w3.chabu.xmit_seq_remaining_payload ≢ 0) ⊎ (p ≢ t.amount)
          → (w2.chabu.xmit_seq_remaining_payload ≢ 0)
            ⊎ (w2.chabu.xmit_seq_remaining_padding ≢ pos 0) =
        λ h. elim h [ inl a ↦ inl (λ g. a (s.payload ∙ g)) | inr b ↦ inr (some_over b) ] in
      record {
        out = out;
        fresh = d.fresh;
        gap = t.amount;
        counted = omega (arith, d.counted, left2, s.payload);
        padding_counted = s.padding ∙ t.counted;
        bound = t.bound;
        waits = λ h. t.waits (λ g. h (s.payload ∙ left2 ∙ g));
        went =
            ap sent s.app
            ∙ t.went
            ∙ ap (λ l. l ++ take t.amount (take p w1.chabu.xmit_buffer.memory)) d.went
            ∙ append_assoc (sent w.app) out _
            ∙ ap (λ (b : ByteBuffer). sent w.app ++ (out ++ take t.amount (take p b.memory)))
                buffer;
        came = ap given s.app ∙ t.same ∙ d.came;
        in_order = d.in_order ∙ ap (λ o. out ++ held o) (sym (s.user ∙ user2));
        finished = ap (λ n. n == 0) (sym s.payload);
        idle = λ h g. s.idle (sym s.payload ∙ h) (none_over g);
        stays = λ h. s.stays (left_or_some h) ∙ state2 ∙ state1;
        channel =
            ap (λ (c : Chabu). c.xmit_seq_channel) s.rest
            ∙ ap (λ (c : Chabu). c.xmit_seq_channel) t.rest
            ∙ same_channel cb sent given w out w1 d;
        room =
            ap (λ (c : Chabu). length c.xmit_buffer.memory) s.rest
            ∙ t.room
            ∙ ap (λ (b : ByteBuffer). length b.memory) buffer;
        ready =
            Ready_at _ _ w1.chabu.xmit_seq_buffer_user w1.chabu.xmit_seq_remaining_payload
              (s.user ∙ user2) (s.payload ∙ left2) d.ready;
      }

  after_payload_lem :
      IsCarrier cb sent given
      → (w : World U) (i p : ℕ) → w.chabu.xmit_seq_channel ≡ some i
      → w.chabu.xmit_seq_remaining_padding ≡ pos p
      → p ≤ length w.chabu.xmit_buffer.memory
      → Returns
          (Ended cb sent given w)
          (xmit_payload cb (w.chabu.xmit_seq_remaining_payload + 1) i w)
      → Returns (λ (done, w'). Written w p done w') (write_seq_payload cb w)
  unfolding write_seq_payload
  after_payload_lem k w i p ch e room (w1, e1, ((out, d), end)) =
      let w2 = xmit_padding cb w1 in
      let buffer : length w1.chabu.xmit_buffer.memory ≡ length w.chabu.xmit_buffer.memory =
        ap (λ (c : Chabu). length c.xmit_buffer.memory) d.rest in
      let padding : w1.chabu.xmit_seq_remaining_padding ≡ w.chabu.xmit_seq_remaining_padding =
        ap (λ (c : Chabu). c.xmit_seq_remaining_padding) d.rest in
      (
        (w2.chabu.xmit_seq_remaining_payload == 0, settled w2),
        simp (ch, e1, write_seq_payload),
        Delivered-Written w w1 w2 (settled w2) p out e d
            (padding_lem cb sent given k w1 p (padding ∙ e) (omega (arith, room, buffer)))
            (settled-Settled w2),
      )

  -- The state seqPayload of `writePendingXmitData` ends without a fault, where the registered
  -- functions do as documented, the buffer that is held is usable and the padding fits in the
  -- transmit buffer. The network got the next bytes of what the application handed out, in order, and
  -- behind a payload that is complete at most the padding. The answer is whether the payload is out.
  -- The connection is idle where the padding is out as well; it keeps its state elsewhere, also where
  -- the answer is `true` and padding is left.
  pub write_seq_payload-Written :
      IsCarrier cb sent given
      → (w : World U) (i p : ℕ) → w.chabu.xmit_seq_channel ≡ some i
      → w.chabu.xmit_seq_remaining_padding ≡ pos p
      → p ≤ length w.chabu.xmit_buffer.memory
      → Ready w.chabu.xmit_seq_buffer_user w.chabu.xmit_seq_remaining_payload
      → Returns (λ (done, w'). Written w p done w') (write_seq_payload cb w)
  unfolding write_seq_payload
  write_seq_payload-Written k w i p ch e room r = after_payload_lem k w i p ch e room (
      xmit_payload-Ended cb sent given k (w.chabu.xmit_seq_remaining_payload + 1) i w ch
        (omega arith) r)
