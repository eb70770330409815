-- ===== src/Recv/Loop.antt =====
-- c/org.chabu/src/Chabu.c: the loop of `handleReads`, and `Chabu_HandleNetwork`.
use chabu.Prelude.{ℕ, zero, suc, ◌%◌, Bool, true, false, ltb, ◌==◌, if◌then◌else◌}
use chabu.Prelude.Int.{pos_part}
use chabu.Run.{Run, ok, fault, no_rounds_left, ◌>>=◌}
use chabu.Buffer.{ByteBuffer, to_int, flip, has_remaining, get_int_at_be}
use chabu.State.{RecvState, PacketType, packet_type_code}
use chabu.World.{World, Callbacks, with_chabu}
use chabu.Xmit.Pending.{handle_writes}
use chabu.Recv.Packet.{Step, again, stop, recv_packet}
use chabu.Recv.Payload.{recv_seq_payload}

abbrev pub is_seq_payload : RecvState → Bool
is_seq_payload RecvState.seq_payload = true
is_seq_payload _ = false

module _ {U : Type 0} (cb : Callbacks U) where
  -- `networkRecvBuffer`, on the receive buffer.
  unfoldable pub recv_own : World U → World U
  recv_own w =
      let (b, app) = cb.network_recv_buffer w.chabu.recv_buffer w.app in
      record { chabu = record (w.chabu) { recv_buffer = b }; app = app }

  abbrev pub with_rb : World U → ByteBuffer → World U
  with_rb w b = with_chabu w (record (w.chabu) { recv_buffer = b })

  -- The first eight bytes of a packet: its length and its type.
  unfoldable pub recv_head : World U → World U
  unfolding recv_own
  recv_head w =
      if ltb w.chabu.recv_buffer.position 8
      then recv_own (with_rb w (record (w.chabu.recv_buffer) { limit = 8 }))
      else w

  -- The limit for the rest of the packet. A negative length leaves nothing to wait for, as 0 does;
  -- the limit is set anew before it is read again.
  unfoldable pub recv_rest : (type packet_length : ℕ) → World U → World U
  unfolding to_int has_remaining recv_own packet_type_code
  recv_rest type packet_length w =
      let rb = w.chabu.recv_buffer in
      let limit =
        if type == packet_type_code PacketType.seq then 20 else pos_part (to_int packet_length) in
      let w = if rb.position == 8 then with_rb w (record rb { limit = limit }) else w in
      if has_remaining w.chabu.recv_buffer then recv_own w else w

  -- One packet, in any state but seqPayload.
  unfoldable pub recv_one : World U → Run (Step (World U))
  unfolding recv_head recv_rest recv_packet flip has_remaining get_int_at_be
  recv_one w =
      let w = recv_head w in
      if ltb w.chabu.recv_buffer.position 8 then ok (stop w) else do
        packet_length ← get_int_at_be w.chabu.recv_buffer 0
        packet_id ← get_int_at_be w.chabu.recv_buffer 4
        let type = packet_id % 256
        let w = recv_rest type packet_length w
        if has_remaining w.chabu.recv_buffer then ok (stop w) else do
          r ← recv_packet cb type (with_rb w (record (flip w.chabu.recv_buffer) { position = 8 }))
          elim r [
            | stop w ↦ ok (stop w)
            | again w ↦
                ok (again (with_rb w (record (w.chabu.recv_buffer) { position = 0; limit = 8 })))
          ]

  -- One pass of the loop.
  unfoldable pub read_pass : World U → Run (Step (World U))
  unfolding recv_one recv_seq_payload
  read_pass w = (if is_seq_payload w.chabu.recv_state then ok (again w) else recv_one w) >>= λ r.
      elim r [
        | stop w ↦ ok (stop w)
        | again w ↦
            if is_seq_payload w.chabu.recv_state then recv_seq_payload cb w else ok (again w)
      ]

  -- `handleReads`
  unfoldable pub handle_reads : ℕ → World U → Run (World U)
  unfolding read_pass
  handle_reads zero w = fault no_rounds_left
  handle_reads (suc rounds) w =
      read_pass w >>= λ r. elim r [ stop w ↦ ok w | again w ↦ handle_reads rounds w ]

  -- `Chabu_HandleNetwork`
  unfoldable pub handle_network : ℕ → World U → Run (World U)
  unfolding handle_reads handle_writes
  handle_network rounds w = handle_reads rounds w >>= λ w. handle_writes cb rounds w
