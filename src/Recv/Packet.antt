-- ===== src/Recv/Packet.antt =====
-- c/org.chabu/src/Chabu.c: the packets of `handleReads`, once all bytes of the header are in.
use chabu.Prelude.{
  ℕ, ◌+◌, ◌-◌, ◌%◌, ◌^◌, true, Option, none, some, [], ltb, ◌==◌, not, if◌then◌else◌,
}
use chabu.Prelude.Int.{pos, negsuc, pos_part}
use chabu.Run.{Run, ok, fault, assert_failed, ◌>>=◌}
use chabu.Buffer.{ByteBuffer, align_up4, to_int, get_int_be, get_string, xfer_with_max}
use chabu.Errors.{protocol_channel_not_existing, protocol_seq_value, protocol_pck_type}
use chabu.State.{
  Chabu, RecvState, network_register_write_request, remote_ping, ping_completed, PacketType,
  packet_type_code, application_name_size_max,
}
use chabu.Priority.{set_request_data}
use chabu.Buffer.Read.{unread}
use chabu.World.{put_channel, World, Callbacks, report_error, with_chabu}

-- How a part of a pass ends: go on, or leave the loop by `break` or `return`.
pub data Step (A : Type 0) : Type 0 where
  again : A → Step A
  stop : A → Step A

-- The state with the read position of the receive buffer moved on.
abbrev pub with_recv : Chabu → ByteBuffer → Chabu
with_recv c b = record c { recv_buffer = b }

abbrev pub ready : Chabu → Chabu
ready c = record c { recv_state = RecvState.ready }

-- SETUP
unfoldable pub recv_setup : Chabu → Run Chabu
unfolding get_string get_int_be
recv_setup c = do
  (_, b) ← get_string c.recv_buffer 10
  (version, b) ← get_int_be b
  (packet_size, b) ← get_int_be b
  (app_version, b) ← get_int_be b
  (name, b) ← get_string b application_name_size_max
  ok (record c {
    recv_buffer = b;
    connection_info_remote = record {
      has_content = true;
      protocol_version = version;
      receive_packet_size = packet_size;
      application_version = app_version;
      application_name = name;
    };
    recv_state = RecvState.accept;
  })

-- `channelId < 0 || channelId >= chabu->channelCount`, of a pattern read from the buffer.
abbrev pub channel_number : Chabu → ℕ → Option ℕ
channel_number c w = elim (to_int w) [
  | negsuc _ ↦ none
  | pos i ↦ if ltb i c.channel_count then some i else none
]

module _ {U : Type 0} (cb : Callbacks U) where
  -- The effect of an ARM packet on the existing channel `i`.
  unfoldable pub take_arm : World U → (i arm : ℕ) → Run (Step (World U))
  unfolding set_request_data
  take_arm w i arm =
      let ch = w.chabu.channels i in
      let w' = put_channel w i (record ch { xmit_arm = arm }) in
      if ch.xmit_arm == arm
      then ok (again w)
      else if ch.xmit_limit == ch.xmit_seq
      then ok (again w')
      else (do
        c ← set_request_data w'.chabu i
        ok (again (cb.event_notification network_register_write_request (with_chabu w' c))))

  -- ARM
  unfoldable pub recv_arm : World U → Run (Step (World U))
  unfolding get_int_be to_int report_error take_arm
  recv_arm w = do
    (id, b) ← get_int_be w.chabu.recv_buffer
    (arm, b) ← get_int_be b
    let w' = with_chabu w (with_recv (ready w.chabu) b)
    elim (channel_number w.chabu id) [
      | none ↦ ok (stop (report_error cb protocol_channel_not_existing w'))
      | some i ↦ take_arm w' i arm
    ]

  -- PING: the application sees the payload where it stands in the receive buffer. The `int` limit of the
  -- source is negative for a size from 2 ^ 31 on, and 0 here; a buffer with either has no room.
  unfoldable pub recv_ping : World U → Run (Step (World U))
  unfolding get_int_be to_int
  recv_ping w = do
    (size, b) ← get_int_be w.chabu.recv_buffer
    let n = pos_part (to_int size)
    let seen : ByteBuffer = record { position = 0; limit = n; capacity = n; memory = unread b }
    let gone : ByteBuffer = record { position = 0; limit = 0; capacity = 0; memory = [] }
    let c = record (with_recv w.chabu b) { recv_ping_ping_data = seen }
    let w = cb.event_notification remote_ping (with_chabu w c)
    ok (
        again (
          with_chabu w
            (record (ready w.chabu) { recv_ping_ping_data = gone; recv_ping_request = true })))

  -- PONG: the code gives the two buffers of the transfer in this order, target first.
  unfoldable pub recv_pong : World U → Run (Step (World U))
  unfolding get_int_be to_int xfer_with_max
  recv_pong w = do
    (size, b) ← get_int_be w.chabu.recv_buffer
    c ← elim w.chabu.xmit_ping_pong_data [
      | none ↦ ok (with_recv w.chabu b)
      | some d ↦ xfer_with_max b d (to_int size) >>= λ (_, b, d).
          ok (record (with_recv w.chabu b) { xmit_ping_pong_data = some d })
    ]
    let w = cb.event_notification ping_completed (with_chabu w c)
    ok (again (with_chabu w (ready w.chabu)))

  -- The effect of the header of a SEQ packet on the existing channel `i`.
  unfoldable pub take_seq : World U → (i seq size : ℕ) → Run (Step (World U))
  unfolding to_int report_error align_up4
  take_seq w i seq size =
      let ch = w.chabu.channels i in
      if not (seq == ch.recv_seq)
      then ok (stop (report_error cb protocol_seq_value w))
      else elim (to_int size) [
        | negsuc _ ↦ fault assert_failed
        | pos n ↦
            let w' = put_channel w i (record ch { recv_seq = (ch.recv_seq + n) % 2 ^ 32 }) in
            ok (
              again (
                with_chabu w' (record (w'.chabu) {
                  recv_seq_channel = some i;
                  recv_state = RecvState.seq_payload;
                  recv_seq_remaining_payload = n;
                  recv_seq_remaining_padding = pos (align_up4 n - n);
                })))
      ]

  -- SEQ
  unfoldable pub recv_seq : World U → Run (Step (World U))
  unfolding get_int_be to_int report_error take_seq
  recv_seq w = do
    (id, b) ← get_int_be w.chabu.recv_buffer
    (seq, b) ← get_int_be b
    (size, b) ← get_int_be b
    let w' = with_chabu w (with_recv w.chabu b)
    elim (channel_number w.chabu id) [
      | none ↦ ok (stop (report_error cb protocol_channel_not_existing w'))
      | some i ↦ take_seq w' i seq size
    ]

  -- The chain of tests on the packet's type.
  unfoldable pub recv_packet : ℕ → World U → Run (Step (World U))
  unfolding packet_type_code recv_setup recv_arm recv_ping recv_pong recv_seq report_error
  recv_packet type w =
      if type == packet_type_code PacketType.setup
      then (recv_setup w.chabu >>= λ c. ok (again (with_chabu w c)))
      else if type == packet_type_code PacketType.accept
      then ok (again (with_chabu w (ready w.chabu)))
      else if type == packet_type_code PacketType.arm
      then recv_arm w
      else if type == packet_type_code PacketType.ping
      then recv_ping w
      else if type == packet_type_code PacketType.pong
      then recv_pong w
      else if type == packet_type_code PacketType.seq
      then recv_seq w
      else ok (stop (report_error cb protocol_pck_type w))
