-- ===== src/Xmit/Packets.antt =====
-- The bytes of the packets, and that they fit.
use chabu.Prelude.{ℕ, ◌+◌, ◌%◌, ◌^◌, ◌≤◌, ◌≡◌, refl, ap, ◌∙◌, List, ◌++◌, arith, length}
use chabu.Run.{ok, Returns}
use chabu.Buffer.{ByteBuffer, clear, flip, align_up4}
use chabu.Buffer.Bytes.{be32}
use chabu.Buffer.Write.{Writes}
use chabu.Buffer.Chain.{Writes-refl, put_int_step, Holds, Holds-flip, position-clear, memory-clear}
use chabu.State.{PacketType, packet_id, seq_header_sz}
use chabu.Xmit.Build.{accept_packet, arm_packet, seq_packet}

-- The transmit buffer holds `bytes`, in a memory that is as large as before.
abbrev pub Sends : ByteBuffer → List ℕ → ByteBuffer → Type 0
Sends b bytes b' = Holds b' bytes × (length b'.memory ≡ length b.memory)

pub Sends-flip :
    (b : ByteBuffer) (bytes : List ℕ) {b' : ByteBuffer}
    → length bytes ≤ length b.memory
    → Writes (clear b) bytes b'
    → Sends b bytes (flip b')
Sends-flip b bytes {b'} room w =
    let (h, r) = Holds-flip (position-clear b) (omega (arith, ap length (memory-clear b))) w in
    (h, r ∙ ap length (memory-clear b))

pub flipped :
    (b : ByteBuffer) (bytes : List ℕ) {b' : ByteBuffer}
    → length bytes ≤ length b.memory
    → Writes (clear b) bytes b'
    → Returns (Sends b bytes) (ok (flip b'))
flipped b bytes {b'} room w = (flip b', refl, Sends-flip b bytes room w)

-- Room behind `n` bytes of a cleared buffer.
pub fits :
    (b : ByteBuffer) (n : ℕ)
    → n + 4 ≤ length b.memory
    → (clear b).position + n + 4 ≤ length (clear b).memory
fits b n h = omega (arith, position-clear b, ap length (memory-clear b))

abbrev pub accept_bytes : List ℕ
accept_bytes = be32 8 ++ be32 (packet_id PacketType.accept)

abbrev pub arm_bytes : ℕ → ℕ → List ℕ
arm_bytes channel_id arm =
    ((be32 16 ++ be32 (packet_id PacketType.arm)) ++ be32 channel_id) ++ be32 arm

abbrev pub seq_bytes : ℕ → ℕ → ℕ → List ℕ
seq_bytes channel_id seq size =
    (((be32 (seq_header_sz + align_up4 size) ++ be32 (packet_id PacketType.seq)) ++ be32 channel_id)
      ++ be32 (seq % 2 ^ 32))
    ++ be32 size

-- In a buffer with room for eight bytes the ACCEPT packet is laid out without a fault, as exactly
-- the length 8 and the type.
pub accept_packet-bytes :
    (b : ByteBuffer) → 8 ≤ length b.memory → Returns (Sends b accept_bytes) (accept_packet b)
unfolding accept_packet
accept_packet-bytes b room = put_int_step (Writes-refl (clear b)) 8 (fits b 0 (omega arith)) λ _ w1.
    put_int_step w1 (packet_id PacketType.accept) (fits b 4 (omega arith))
      λ _ w2. flipped b _ room w2

-- In a buffer with room for 16 bytes the ARM packet is laid out without a fault, as exactly its
-- length, type, channel and position.
pub arm_packet-bytes :
    (b : ByteBuffer) (channel_id arm : ℕ)
    → 16 ≤ length b.memory
    → Returns (Sends b (arm_bytes channel_id arm)) (arm_packet b channel_id arm)
unfolding arm_packet
arm_packet-bytes b channel_id arm room =
    put_int_step (Writes-refl (clear b)) 16 (fits b 0 (omega arith)) λ _ w1.
      put_int_step w1 (packet_id PacketType.arm) (fits b 4 (omega arith)) λ _ w2.
        put_int_step w2 channel_id (fits b 8 (omega arith))
          λ _ w3. put_int_step w3 arm (fits b 12 (omega arith)) λ _ w4. flipped b _ room w4

-- In a buffer with room for 20 bytes the header of a SEQ packet is laid out without a fault, as
-- exactly its fields; the length counts the payload that follows, with its padding.
pub seq_packet-bytes :
    (b : ByteBuffer) (channel_id seq size : ℕ)
    → 20 ≤ length b.memory
    → Returns (Sends b (seq_bytes channel_id seq size)) (seq_packet b channel_id seq size)
unfolding seq_packet
seq_packet-bytes b channel_id seq size room =
    put_int_step (Writes-refl (clear b)) (seq_header_sz + align_up4 size) (fits b 0 (omega arith))
      λ _ w1. put_int_step w1 (packet_id PacketType.seq) (fits b 4 (omega arith)) λ _ w2.
        put_int_step w2 channel_id (fits b 8 (omega arith)) λ _ w3.
          put_int_step w3 (seq % 2 ^ 32) (fits b 12 (omega arith))
            λ _ w4. put_int_step w4 size (fits b 16 (omega arith)) λ _ w5. flipped b _ room w5
