-- ===== src/Xmit/Echo.antt =====
-- PING and PONG packets: the header, the payload up to the maximum, and the padding.
use mathlib.Core.Path.{subst}
use chabu.Prelude.{
  append-nil, sym, ℕ, ◌+◌, ◌-◌, ◌*◌, ◌/◌, ◌≤◌, ◌≡◌, refl, ap, ◌∙◌, inl, inr, List, [], ◌++◌, ◌==◌,
  arith, length, take, drop, replicate, min, Bool-cases, ==_iff, length-take, length-drop,
  length-append, length-replicate,
}
use chabu.Run.{ok, Returns}
use chabu.Buffer.{ByteBuffer, clear, flip, align_up4}
use chabu.Buffer.Bytes.{be32}
use chabu.Buffer.Write.{Writes, Writes-trans}
use chabu.Buffer.Chain.{Writes-refl, put_int_step, put_padding_step, position-clear, memory-clear}
use chabu.Buffer.Xfer.{IsValid, remaining_lem, xfer_with_max_lem, moved}
use chabu.State.{PacketType, packet_id}
use chabu.Xmit.Build.{echo_packet, put_echo}
use chabu.Xmit.Packets.{Sends, Sends-flip, fits}

pub align_up4_bounds :
    (n : ℕ) → (n ≤ align_up4 n) × (align_up4 n ≤ n + 3) × (align_up4 n / 4 * 4 ≡ align_up4 n)
unfolding align_up4
align_up4_bounds n = omega arith

abbrev pub echo_size : ByteBuffer → ℕ → ℕ
echo_size payload max_size = min (payload.limit - payload.position) max_size

abbrev pub echo_bytes : PacketType → ByteBuffer → ℕ → List ℕ
echo_bytes type payload max_size =
    let size = echo_size payload max_size in
    (((be32 (12 + align_up4 size) ++ be32 (packet_id type)) ++ be32 size)
      ++ take size (drop payload.position payload.memory))
    ++ replicate (align_up4 size - size) 0

-- Both the transmit buffer and what is left of the payload.
abbrev pub Echoes : PacketType → ByteBuffer → ByteBuffer → ℕ → ByteBuffer × ByteBuffer → Type 0
Echoes type b payload max_size (b', payload') =
    Sends b (echo_bytes type payload max_size) b'
    × (payload' ≡ record payload { position = payload.position + echo_size payload max_size })

-- The payload behind a header `xs` that was written into the cleared buffer.
module _ (b payload : ByteBuffer) (max_size : ℕ) (v : IsValid payload)
    (full : b.capacity ≡ length b.memory) {xs : List ℕ} {b3 : ByteBuffer}
    (w : Writes (clear b) xs b3) where
  abbrev size : ℕ
  size = echo_size payload max_size

  abbrev body : List ℕ
  body = take (echo_size payload max_size) (drop payload.position payload.memory)

  limit_b3 : b3.limit ≡ length b.memory
  unfolding clear
  limit_b3 = w.same_limit ∙ full

  room_b3 : length b3.memory ≡ length b.memory
  room_b3 = w.room ∙ ap length (memory-clear b)

  place_b3 : b3.position ≡ length xs
  place_b3 = omega (arith, w.place, position-clear b)

  module _ (room : length xs + align_up4 max_size ≤ length b.memory) where
    mono : size ≤ max_size
    mono = omega arith

    padded : align_up4 size ≤ align_up4 max_size
    unfolding align_up4
    padded = omega arith

    b3-IsValid : IsValid b3
    b3-IsValid = record {
      ordered = omega (arith, limit_b3, place_b3, room);
      inside = omega (arith, limit_b3, room_b3);
    }

    moved-size : moved b3 payload max_size ≡ size
    moved-size = omega (arith, limit_b3, place_b3, room, (align_up4_bounds max_size).0)

    length-body : length body ≡ size
    length-body = omega (
      arith,
      v.ordered,
      v.inside,
      length-take (echo_size payload max_size) (drop payload.position payload.memory),
      length-drop payload.position payload.memory,
    )

    abbrev Echoed : ByteBuffer × ByteBuffer → Type 0
    Echoed (b', payload') =
        Sends b ((xs ++ body) ++ replicate (align_up4 size - size) 0) b'
        × (payload' ≡ record payload { position = payload.position + size })

    put_echo_none : size ≡ 0 → Returns Echoed (ok (flip b3, payload))
    unfolding align_up4
    put_echo_none e =
        let no_body : body ≡ [] = ap (λ k. take k (drop payload.position payload.memory)) e in
        let z : ℕ = 0 in
        let no_padding : replicate (align_up4 size - size) z ≡ [] =
          ap (λ (k : ℕ). replicate (align_up4 k - k) z) e in
        let all : (xs ++ body) ++ replicate (align_up4 size - size) 0 ≡ xs =
          rw (no_padding, no_body, append-nil, append-nil) in
        (
          (flip b3, payload),
          refl,
          (
            subst (λ l. Sends b l (flip b3)) (sym all) (Sends-flip b xs (omega arith) w),
            ap (λ p. record payload { position = p }) (omega (arith, e)),
          ),
        )

    put_echo_lem : Returns Echoed (put_echo b3 payload size max_size)
    unfolding put_echo
    put_echo_lem = elim (Bool-cases (size == 0)) [
      | inl z ↦ rw (z, put_echo) (put_echo_none ((==_iff size 0).0 z))
      | inr nz ↦
          let ((n, b4, payload'), e, (en, w4, ep)) =
            xfer_with_max_lem b3 payload max_size b3-IsValid v in
          let w4' : Writes b3 body b4 =
            subst (λ k. Writes b3 (take k (drop payload.position payload.memory)) b4) moved-size
              w4 in
          let z : ℕ = 0 in
          let long : length (xs ++ body) + (align_up4 size - size) ≤ length b.memory =
            omega (
              arith,
              length-append xs body,
              length-body,
              padded,
              room,
              (align_up4_bounds size).0,
            ) in
          rw (nz, put_echo, e)
            (put_padding_step (Writes-trans xs body w w4') (align_up4 size - size)
              (omega (arith, long, position-clear b, ap length (memory-clear b)))
              λ b5 w5. (
                (flip b5, payload'),
                refl,
                (
                  Sends-flip b ((xs ++ body) ++ replicate (align_up4 size - size) 0)
                      (omega (
                        arith,
                        long,
                        length-append (xs ++ body) (replicate (align_up4 size - size) 0),
                        length-replicate (align_up4 size - size) z,
                      ))
                      w5,
                  ep ∙ ap (λ k. record payload { position = payload.position + k }) moved-size,
                ),
              ))
    ]

-- With a valid payload, and a transmit buffer with room for the header and the largest payload, the
-- packet is laid out without a fault: its length, type and payload size, the first bytes of the
-- payload up to the maximum, and zeros up to a multiple of four. The payload moves on by the bytes
-- that were taken.
pub echo_packet-bytes :
    (type : PacketType) (b payload : ByteBuffer) (max_size : ℕ)
    → IsValid payload
    → b.capacity ≡ length b.memory
    → 12 + align_up4 max_size ≤ length b.memory
    → Returns (Echoes type b payload max_size) (echo_packet type b payload max_size)
unfolding echo_packet
echo_packet-bytes type b payload max_size v full room =
    let size = echo_size payload max_size in
    rw (remaining_lem payload v, echo_packet)
      (put_int_step (Writes-refl (clear b)) (12 + align_up4 size) (fits b 0 (omega arith)) λ _ w1.
        put_int_step w1 (packet_id type) (fits b 4 (omega arith)) λ _ w2.
          put_int_step w2 size (fits b 8 (omega arith))
            λ b3 w3. put_echo_lem b payload max_size v full w3 room)
