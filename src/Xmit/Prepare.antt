-- ===== src/Xmit/Prepare.antt =====
-- c/org.chabu/src/Chabu.c: `prepareNextXmitState`, and the answer to the SETUP packet.
use chabu.Prelude.{◌+◌, ◌-◌, Bool, true, false, none, some, ltb, if◌then◌else◌, replicate}
use chabu.Prelude.Int.{pos, negsuc, ltb_ℤ}
use chabu.Run.{Run, ok, fault, out_of_bounds, ◌>>=◌}
use chabu.Buffer
use chabu.Buffer.{
  ByteBuffer, align_up4, clear, flip, has_remaining, remaining, put_int_be, put_padding,
  put_string_from_buffer, xfer_with_max,
}
use chabu.Errors.{ErrorCode, assert, code}
use chabu.State.{
  Chabu, XmitState, PacketType, packet_id, abort_msg_size_max, ping_payload_max, pong_payload_max,
}
use chabu.Priority.{pop_next_request_ctrl, pop_next_request_data}
use chabu.World.{with_chabu, World, Callbacks, report_error, is_ok}
use chabu.Xmit.Build.{accept_packet, echo_packet, send_seq, send_ctrl, no_payload}

-- The last part of `prepareNextXmitState`: a data request, once no control request is left.
unfoldable pub prepare_data : Chabu → Run (Bool × Chabu)
unfolding pop_next_request_data send_seq
prepare_data c = do
  (r, c) ← pop_next_request_data c
  elim r [ none ↦ ok (false, c) | some i ↦ send_seq c i >>= λ c. ok (true, c) ]

-- What is sent in the state idle: a pong, a ping, a control packet, or data, in this order.
unfoldable pub prepare_idle : Chabu → Run (Bool × Chabu)
unfolding echo_packet pop_next_request_ctrl send_ctrl prepare_data
prepare_idle c =
    if c.recv_ping_request
    then (do
      (b, d) ← echo_packet PacketType.pong c.xmit_buffer c.recv_ping_pong_data pong_payload_max
      ok (
        true,
        record c {
          recv_ping_request = false;
          xmit_buffer = b;
          recv_ping_pong_data = d;
          xmit_state = XmitState.pong;
        },
      ))
    else if c.xmit_ping_request
    then (do
      (b, d) ← elim c.xmit_ping_ping_data [
        | none ↦ echo_packet PacketType.ping c.xmit_buffer no_payload ping_payload_max >>= λ (b, _).
            ok (b, none)
        | some d ↦ echo_packet PacketType.ping c.xmit_buffer d ping_payload_max >>= λ (b, d).
            ok (b, some d)
      ]
      ok (
        true,
        record c {
          xmit_ping_request = false;
          xmit_buffer = b;
          xmit_ping_ping_data = d;
          xmit_state = XmitState.ping;
        },
      ))
    else (do
      (r, c) ← pop_next_request_ctrl c
      elim r [ none ↦ prepare_data c | some i ↦ send_ctrl c i >>= λ c. ok (true, c) ])

module _ {U : Type 0} (cb : Callbacks U) where
  -- `createAbortPacket`
  unfoldable pub create_abort_packet : World U → ErrorCode → ByteBuffer → Run (World U)
  unfolding report_error remaining align_up4 put_int_be packet_id put_string_from_buffer flip
  create_abort_packet w error msg = elim (remaining msg) [
    | negsuc _ ↦ fault out_of_bounds
    | pos n ↦
        let long = ltb abort_msg_size_max n in
        let w = if long then report_error cb assert w else w in
        let msg : ByteBuffer =
          if long then record msg { limit = msg.limit - (n - abort_msg_size_max) } else msg in
        let b = w.chabu.xmit_buffer in
        let packet_length = 16 + align_up4 n in
        if ltb_ℤ (remaining b) (pos packet_length) then ok (report_error cb assert w) else do
          b ← put_int_be b packet_length
          b ← put_int_be b (packet_id PacketType.abort)
          b ← put_int_be b (code error)
          (b, _) ← put_string_from_buffer b msg
          ok (with_chabu w (record (w.chabu) { xmit_buffer = flip b }))
  ]

  -- The state setup, once the peer's SETUP packet is in: accept it, or abort.
  unfoldable pub answer_setup : World U → Run (World U)
  unfolding accept_packet create_abort_packet flip clear Buffer.init
  answer_setup w =
      let c = w.chabu in
      let (error, msg, app) =
        cb.accept_connection c.connection_info_local c.connection_info_remote
          (Buffer.init (replicate abort_msg_size_max 0) abort_msg_size_max) w.app in
      if is_ok error
      then (do
        b ← accept_packet c.xmit_buffer
        ok (record {
          chabu = record c { xmit_buffer = b; xmit_state = XmitState.accept };
          app = app;
        }))
      else (do
        w ←
            create_abort_packet
              (record { chabu = record c { xmit_buffer = clear c.xmit_buffer }; app = app }) error
              (flip msg)
        ok (with_chabu w (record (w.chabu) { xmit_state = XmitState.abort })))

  unfoldable pub idle_next : World U → Run (Bool × World U)
  unfolding prepare_idle
  idle_next w = prepare_idle (record (w.chabu) { xmit_state = XmitState.idle }) >>= λ (more, c).
      ok (more, with_chabu w c)

  -- `prepareNextXmitState`
  unfoldable pub prepare_next_xmit_state : World U → Run (Bool × World U)
  unfolding answer_setup idle_next
  prepare_next_xmit_state w = elim w.chabu.xmit_state [
    | XmitState.setup ↦
        if w.chabu.connection_info_remote.has_content
        then (answer_setup w >>= λ w. ok (true, w))
        else ok (false, w)
    | XmitState.accept ↦ idle_next w
    | XmitState.seq_payload ↦ idle_next w
    | XmitState.ping ↦ idle_next w
    | XmitState.pong ↦ idle_next w
    | XmitState.arm ↦ idle_next w
    | XmitState.idle ↦ idle_next w
    | XmitState.seq ↦
        ok (true, with_chabu w (record (w.chabu) { xmit_state = XmitState.seq_payload }))
    | XmitState.abort ↦ ok (false, w)
  ]
