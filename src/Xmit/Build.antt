-- ===== src/Xmit/Build.antt =====
-- c/org.chabu/src/Chabu.c: the packets that `prepareNextXmitState` lays out in the transmit buffer.
use chabu.Prelude.{ℕ, ◌+◌, ◌-◌, ◌%◌, ◌^◌, false, none, some, ◌==◌, min, if◌then◌else◌, []}
use chabu.Prelude.Int.{pos, negsuc}
use chabu.Run.{Run, ok, fault, assert_failed, out_of_bounds, ◌>>=◌}
use chabu.Buffer.{
  ByteBuffer, align_up4, clear, flip, remaining, put_int_be, put_padding, xfer_with_max,
}
use chabu.State.{Chabu, Channel, XmitState, PacketType, packet_id, seq_header_sz}

-- The packets of `prepareNextXmitState`, laid out in the transmit buffer.
unfoldable pub accept_packet : ByteBuffer → Run ByteBuffer
unfolding clear put_int_be packet_id flip
accept_packet b = do
  b ← put_int_be (clear b) 8
  b ← put_int_be b (packet_id PacketType.accept)
  ok (flip b)

unfoldable pub arm_packet : ByteBuffer → (channel_id arm : ℕ) → Run ByteBuffer
unfolding clear put_int_be packet_id flip
arm_packet b channel_id arm = do
  b ← put_int_be (clear b) 16
  b ← put_int_be b (packet_id PacketType.arm)
  b ← put_int_be b channel_id
  b ← put_int_be b arm
  ok (flip b)

unfoldable pub seq_packet : ByteBuffer → (channel_id seq size : ℕ) → Run ByteBuffer
unfolding clear put_int_be packet_id flip align_up4
seq_packet b channel_id seq size = do
  b ← put_int_be (clear b) (seq_header_sz + align_up4 size)
  b ← put_int_be b (packet_id PacketType.seq)
  b ← put_int_be b channel_id
  b ← put_int_be b (seq % 2 ^ 32)
  b ← put_int_be b size
  ok (flip b)

-- The payload of a PING or PONG packet, with its padding, if there is any.
unfoldable pub put_echo :
    ByteBuffer → ByteBuffer → (size max_size : ℕ) → Run (ByteBuffer × ByteBuffer)
unfolding flip align_up4 xfer_with_max put_padding
put_echo b payload size max_size = if size == 0 then ok (flip b, payload) else do
  (_, b, payload) ← xfer_with_max b payload (pos max_size)
  b ← put_padding b (align_up4 size - size)
  ok (flip b, payload)

-- PING and PONG: the header, and at most `max_size` bytes of the payload. The result is the
-- transmit buffer and the payload's buffer. With a negative remainder the transfer fails.
unfoldable pub echo_packet :
    PacketType → ByteBuffer → ByteBuffer → ℕ → Run (ByteBuffer × ByteBuffer)
unfolding clear put_int_be packet_id align_up4 remaining put_echo
echo_packet type b payload max_size = elim (remaining payload) [
  | negsuc _ ↦ fault out_of_bounds
  | pos n ↦
      let size = min n max_size in
      do
        b ← put_int_be (clear b) (12 + align_up4 size)
        b ← put_int_be b (packet_id type)
        b ← put_int_be b size
        put_echo b payload size max_size
]

-- A ping without a buffer has no payload.
abbrev pub no_payload : ByteBuffer
no_payload = record { position = 0; limit = 0; capacity = 0; memory = [] }

-- `xmitSize`: the most that a packet takes, what the application released and what the peer armed.
unfoldable pub xmit_size : Chabu → Channel → ℕ
xmit_size c ch =
    let most = (c.receive_packet_size + 2 ^ 64 - seq_header_sz) % 2 ^ 64 in
    let available = (ch.xmit_limit + 2 ^ 64 - ch.xmit_seq) % 2 ^ 64 in
    let armed = (ch.xmit_arm + 2 ^ 64 - ch.xmit_seq) % 2 ^ 64 in min (min most available) armed

-- The state after the SEQ packet of `size` bytes for channel `i` is laid out in the buffer `b`.
abbrev pub sent_seq : Chabu → (i size : ℕ) → ByteBuffer → Chabu
sent_seq c i size b =
    let ch = c.channels i in
    let ch' : Channel = record ch { xmit_seq = (ch.xmit_seq + size) % 2 ^ 64 } in
    record c {
      xmit_buffer = b;
      channels = λ j. if i == j then ch' else c.channels j;
      xmit_seq_channel = some i;
      xmit_seq_remaining_payload = size;
      xmit_seq_remaining_padding = pos (align_up4 size - size);
      xmit_seq_buffer_user = none;
      xmit_state = XmitState.seq;
    }

-- The SEQ packet for channel `i`, whose data follows.
unfoldable pub send_seq : Chabu → ℕ → Run Chabu
unfolding xmit_size seq_packet align_up4
send_seq c i =
    let ch = c.channels i in
    let size = xmit_size c ch in
    do b ← seq_packet c.xmit_buffer ch.channel_id ch.xmit_seq size; ok (sent_seq c i size b)

-- The packet that a control request of channel `i` asks for: an ARM packet. A reset, an announcement
-- of data, and a channel that asks for nothing fail an `assert`.
unfoldable pub send_ctrl : Chabu → ℕ → Run Chabu
unfolding arm_packet
send_ctrl c i =
    let ch = c.channels i in
    if ch.xmit_request_ctrl_reset
    then fault assert_failed
    else if ch.xmit_request_ctrl_davail
    then fault assert_failed
    else if ch.xmit_request_ctrl_arm
    then (do
      b ← arm_packet c.xmit_buffer ch.channel_id ch.recv_arm
      ok (record c {
        xmit_buffer = b;
        channels =
            λ j. if i == j then record ch { xmit_request_ctrl_arm = false } else c.channels j;
        xmit_state = XmitState.arm;
      }))
    else fault assert_failed
