-- ===== src/Recv/Whole.antt =====
-- c/org.chabu/src/Chabu.c: the state seqPayload of `handleReads`, with the padding behind the payload.
use mathlib.Core.Path.{subst}
use native.Mathlib.Decide.{ℕ_discrete}
use chabu.Prelude.{
  ℕ, ◌+◌, ◌-◌, ◌<◌, ◌≤◌, ◌≡◌, refl, sym, ◌∙◌, ap, ◌≢◌, ◌⊎◌, inl, inr, ◌==◌, ◌&&◌, Option, some,
  List, [], ◌++◌, append-nil, append_assoc, arith, length, if◌then◌else◌,
}
use chabu.Prelude.Int.{pos}
use chabu.Run.{Run, ok, Returns}
use chabu.Buffer.{ByteBuffer}
use chabu.State.{Chabu, RecvState}
use chabu.World.{World, Callbacks, with_chabu}
use chabu.Xmit.Written.{left_over, pos_injective, is_zero}
use chabu.Recv.Packet.{Step, again, stop}
use chabu.Recv.Payload.{recv_payload, recv_padding, recv_seq_payload}
use chabu.Recv.Received.{Received, Outcome}
use chabu.Recv.Fill.{Filling}
use chabu.Recv.Arrive.{recv_payload-Outcome}
use chabu.Recv.Source.{IsSource}
use chabu.Recv.Passed.{Passed, Passing, padding_lem, Passed-nothing}
use chabu.Recv.Settled.{push, settled, Settled, Settled-not_yet, settled-Settled}

-- The buffers of the application, and what is left of the payload.
abbrev at_buffers : Chabu → Option ByteBuffer × ByteBuffer × ℕ
at_buffers c = (c.recv_seq_buffer_user, c.recv_seq_buffer, c.recv_seq_remaining_payload)

abbrev FillingOf : Option ByteBuffer × ByteBuffer × ℕ → Type 0
FillingOf (o, b, n) = Filling o b n

module _ {U : Type 0} (cb : Callbacks U) (arrived : U → List ℕ) where
  -- What one pass in the state seqPayload leaves: `bytes` of the payload and behind it `pad` of a padding
  -- of `p` bytes have come in.
  pub record Whole (w : World U) (p : ℕ) (w' : World U) : Type 0 where
    pub bytes : List ℕ
    pub pad : List ℕ
    pub counted :
        length bytes + w'.chabu.recv_seq_remaining_payload ≡ w.chabu.recv_seq_remaining_payload
    pub padding_counted : w'.chabu.recv_seq_remaining_padding ≡ pos (p - length pad)
    pub bound : length pad ≤ p
    pub waits : w'.chabu.recv_seq_remaining_payload ≢ 0 → pad ≡ []
    pub came : arrived w'.app ≡ arrived w.app ++ (bytes ++ pad)
    pub ready :
        w'.chabu.recv_seq_remaining_payload ≡ 0
        → p ≡ length pad
        → w'.chabu.recv_state ≡ RecvState.ready
    pub stays :
        (w'.chabu.recv_seq_remaining_payload ≢ 0) ⊎ (p ≢ length pad)
        → w'.chabu.recv_state ≡ w.chabu.recv_state
    pub channel : w'.chabu.recv_seq_channel ≡ w.chabu.recv_seq_channel
    pub room : length w'.chabu.recv_buffer.memory ≡ length w.chabu.recv_buffer.memory
    pub filling :
        Filling w'.chabu.recv_seq_buffer_user w'.chabu.recv_seq_buffer
          w'.chabu.recv_seq_remaining_payload

  -- What a pass over the payload alone leaves.
  record Came (w : World U) (bytes : List ℕ) (w' : World U) : Type 0 where
    counted :
        length bytes + w'.chabu.recv_seq_remaining_payload ≡ w.chabu.recv_seq_remaining_payload
    came : arrived w'.app ≡ arrived w.app ++ bytes
    padding : w'.chabu.recv_seq_remaining_padding ≡ w.chabu.recv_seq_remaining_padding
    buffer : w'.chabu.recv_buffer ≡ w.chabu.recv_buffer
    state : w'.chabu.recv_state ≡ w.chabu.recv_state
    channel : w'.chabu.recv_seq_channel ≡ w.chabu.recv_seq_channel
    filling :
        Filling w'.chabu.recv_seq_buffer_user w'.chabu.recv_seq_buffer
          w'.chabu.recv_seq_remaining_payload

  Received-Came :
      (w : World U) (u b : ByteBuffer) (bytes : List ℕ) (w' : World U)
      → Received cb arrived w u b bytes w'
      → Came w bytes w'
  Received-Came w u b bytes w' d = record {
    counted = d.counted;
    came = d.came;
    padding = ap (λ (c : Chabu). c.recv_seq_remaining_padding) d.rest;
    buffer = ap (λ (c : Chabu). c.recv_buffer) d.rest;
    state = ap (λ (c : Chabu). c.recv_state) d.rest;
    channel = ap (λ (c : Chabu). c.recv_seq_channel) d.rest;
    filling = d.ready;
  }

  Came-Whole :
      (w w1 w2 w3 : World U) (p : ℕ) (bytes pad : List ℕ)
      → Came w bytes w1
      → Passed cb arrived w1 p pad w2
      → Settled w2 w3
      → Whole w p w3
  Came-Whole w w1 w2 w3 p bytes pad d t s =
      let left2 : w2.chabu.recv_seq_remaining_payload ≡ w1.chabu.recv_seq_remaining_payload =
        ap (λ (c : Chabu). c.recv_seq_remaining_payload) t.rest in
      let state2 : w2.chabu.recv_state ≡ w1.chabu.recv_state =
        ap (λ (c : Chabu). c.recv_state) t.rest in
      let none_over : p ≡ length pad → w2.chabu.recv_seq_remaining_padding ≡ pos 0 =
        λ h. t.counted ∙ ap pos (omega (arith, h)) in
      let some_over : p ≢ length pad → w2.chabu.recv_seq_remaining_padding ≢ pos 0 =
        λ h g. h (omega (arith, t.bound, pos_injective (p - length pad) 0 (sym t.counted ∙ g))) in
      let left_or_some : (w3.chabu.recv_seq_remaining_payload ≢ 0) ⊎ (p ≢ length pad)
          → (w2.chabu.recv_seq_remaining_payload ≢ 0)
            ⊎ (w2.chabu.recv_seq_remaining_padding ≢ pos 0) =
        λ h. elim h [ inl a ↦ inl (λ g. a (s.payload ∙ g)) | inr b ↦ inr (some_over b) ] in
      record {
        bytes = bytes;
        pad = pad;
        counted = omega (arith, d.counted, left2, s.payload);
        padding_counted = s.padding ∙ t.counted;
        bound = t.bound;
        waits = λ h. t.waits (λ g. h (s.payload ∙ left2 ∙ g));
        came =
            ap arrived s.app
            ∙ t.came
            ∙ ap (λ l. l ++ pad) d.came
            ∙ append_assoc (arrived w.app) bytes pad;
        ready = λ h g. s.ready (sym s.payload ∙ h) (none_over g);
        stays = λ h. s.stays (left_or_some h) ∙ state2 ∙ d.state;
        channel =
            ap (λ (c : Chabu). c.recv_seq_channel) s.rest
            ∙ ap (λ (c : Chabu). c.recv_seq_channel) t.rest
            ∙ d.channel;
        room = s.room ∙ t.room ∙ ap (λ (b : ByteBuffer). length b.memory) d.buffer;
        filling = subst FillingOf (sym (ap at_buffers s.rest ∙ ap at_buffers t.rest)) d.filling;
      }

  -- The connection behind a step, whether the loop goes on or not.
  abbrev pub state_of : Step (World U) → World U
  state_of (stop w) = w
  state_of (again w) = w

  Came-nothing :
      (w : World U)
      → Filling w.chabu.recv_seq_buffer_user w.chabu.recv_seq_buffer
          w.chabu.recv_seq_remaining_payload
      → Came w [] w
  Came-nothing w fill = record {
    counted = omega arith;
    came = sym (append-nil _);
    padding = refl;
    buffer = refl;
    state = refl;
    channel = refl;
    filling = fill;
  }

  -- What the code makes of the step that the padding ends in.
  abbrev after_padding : Step (World U) → Run (Step (World U))
  after_padding (stop w) = ok (stop w)
  after_padding (again w) =
      if w.chabu.recv_seq_remaining_payload == 0 && is_zero w.chabu.recv_seq_remaining_padding
      then ok (
          again (
            with_chabu w (record (w.chabu) {
              recv_state = RecvState.ready;
              recv_buffer = record (w.chabu.recv_buffer) { position = 0 };
            })))
      else ok (again w)

  at_padding :
      (w w1 : World U)
      → recv_payload cb w ≡ ok (again w1)
      → recv_seq_payload cb w ≡ after_padding (recv_padding cb w1)
  unfolding recv_seq_payload
  at_padding w w1 e = rw (e, recv_seq_payload)

  pass_lem :
      (w w1 : World U) (p : ℕ) (bytes : List ℕ)
      → Came w bytes w1
      → recv_payload cb w ≡ ok (again w1)
      → (r : Step (World U)) → recv_padding cb w1 ≡ r
      → Passing cb arrived w1 p r
      → Returns (λ s. Whole w p (state_of s)) (recv_seq_payload cb w)
  unfolding recv_seq_payload
  pass_lem w w1 p bytes c e (stop w2) f (some_bytes, d) = (
    stop w2,
    at_padding w w1 e ∙ ap after_padding f,
    Came-Whole w w1 w2 w2 p bytes [] c d (
        Settled-not_yet w2 (
          left_over w2.chabu.recv_seq_remaining_payload w2.chabu.recv_seq_remaining_padding
            (inr (λ g. some_bytes (omega (arith, pos_injective (p - 0) 0 (sym d.counted ∙ g))))))),
  )
  pass_lem w w1 p bytes c e (again w2) f (pad, d) = (
    again (settled w2),
    at_padding w w1 e
        ∙ ap after_padding f
        ∙ (push
            (w2.chabu.recv_seq_remaining_payload == 0
              && is_zero w2.chabu.recv_seq_remaining_padding)
            _ _),
    Came-Whole w w1 w2 (settled w2) p bytes pad c d (settled-Settled w2),
  )

  payload_pass :
      IsSource cb arrived
      → (w : World U) (p : ℕ) (u b : ByteBuffer) (r : Step (World U))
      → 0 < w.chabu.recv_seq_remaining_payload
      → recv_payload cb w ≡ ok r
      → Outcome cb arrived w u b r
      → w.chabu.recv_seq_remaining_padding ≡ pos p
      → p ≤ length w.chabu.recv_buffer.memory
      → Returns (λ s. Whole w p (state_of s)) (recv_seq_payload cb w)
  unfolding recv_seq_payload
  payload_pass k w p u b (stop w1) left e d padding room =
      let c = Received-Came w u b [] w1 d in
      (
        stop w1,
        rw (e, recv_seq_payload),
        Came-Whole w w1 w1 w1 p [] [] c (Passed-nothing cb arrived w1 p (c.padding ∙ padding)) (
            Settled-not_yet w1 (
              left_over w1.chabu.recv_seq_remaining_payload w1.chabu.recv_seq_remaining_padding
                (inl (λ h. omega (arith, h, left, c.counted))))),
      )
  payload_pass k w p u b (again w1) left e (bytes, some_bytes, d) padding room =
      let c = Received-Came w u b bytes w1 d in
      pass_lem w w1 p bytes c e (recv_padding cb w1) refl (
        padding_lem cb arrived k w1 p (c.padding ∙ padding)
          (omega (arith, room, ap (λ (x : ByteBuffer). length x.memory) c.buffer)))

  -- A pass in the state seqPayload ends without a fault and without an error report, where the registered
  -- functions do as documented, the buffer in use has room for no more than the payload that is left and
  -- the padding fits in the receive buffer. What the network delivered is the next part of the payload
  -- and, behind a payload that is complete, of the padding; both are counted. The connection is ready for
  -- the next packet exactly where payload and padding are complete, and keeps its state elsewhere.
  pub recv_seq_payload-Whole :
      IsSource cb arrived
      → (w : World U) (i p : ℕ) → w.chabu.recv_seq_channel ≡ some i
      → Filling w.chabu.recv_seq_buffer_user w.chabu.recv_seq_buffer
          w.chabu.recv_seq_remaining_payload
      → w.chabu.recv_seq_remaining_padding ≡ pos p
      → p ≤ length w.chabu.recv_buffer.memory
      → Returns (λ s. Whole w p (state_of s)) (recv_seq_payload cb w)
  recv_seq_payload-Whole k w i p ch fill e room =
      let passes = recv_payload-Outcome cb arrived k w i ch fill in
      elim (ℕ_discrete w.chabu.recv_seq_remaining_payload 0) [
        | yes none_left ↦
            pass_lem w w p [] (Came-nothing w fill) (passes.0 none_left) (recv_padding cb w) refl
              (padding_lem cb arrived k w p e room)
        | no left ↦
            let (u, b, target, (s, r, out)) = passes.1 (omega (arith, left)) in
            payload_pass k w p u b s (omega (arith, left)) r out e room
      ]
