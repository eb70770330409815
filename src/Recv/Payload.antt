-- ===== src/Recv/Payload.antt =====
-- c/org.chabu/src/Chabu.c: the payload of a SEQ packet in `handleReads`, which goes from the network
-- into a buffer of the application, and the padding behind it.
use chabu.Prelude.{
  Option, ℕ, suc, ◌+◌, ◌-◌, Bool, false, none, some, ltb, ◌==◌, ◌&&◌, not, if◌then◌else◌,
}
use chabu.Prelude.Int.{ℤ, pos, negsuc, pos_part, ◌-ℤ◌, ltb_ℤ}
use chabu.Run.{Run, ok, fault, null_pointer, assert_failed, ◌>>=◌}
use chabu.Buffer.{ByteBuffer, has_remaining, remaining}
use chabu.Errors.{recv_user_buffer_zero_length}
use chabu.State.{Chabu, RecvState, recv_completed}
use chabu.World.{World, Callbacks, report_error, with_chabu}
use chabu.Recv.Packet.{Step, again, stop}

abbrev pub is_zero : ℤ → Bool
is_zero (pos n) = n == 0
is_zero (negsuc _) = false

-- `chabu->recv.seqBuffer`: the application's buffer, cut to the payload that is left.
abbrev pub cut : ByteBuffer → ℕ → ByteBuffer
cut b payload =
    let space = pos_part (remaining b) in
    if ltb payload space then record b { limit = b.limit - (space - payload) } else b

-- `seqBufferUser->position = seqBuffer.position`; both buffers have the same array.
abbrev pub filled : Option ByteBuffer → ByteBuffer → Option ByteBuffer
filled none b = none
filled (some u) b = some (record u { position = b.position; memory = b.memory })

module _ {U : Type 0} (cb : Callbacks U) where
  -- The application is asked for a buffer, where there is none.
  unfoldable pub recv_get_buffer : World U → ℕ → Run (Step (World U))
  unfolding has_remaining remaining report_error
  recv_get_buffer w i = elim w.chabu.recv_seq_buffer_user [
    | some _ ↦ ok (again w)
    | none ↦
        let c = w.chabu in
        let payload = c.recv_seq_remaining_payload in
        let (r, app) = cb.channel_get_recv_buffer (c.channels i).channel_id payload w.app in
        elim r [
          | none ↦ fault assert_failed
          | some b ↦
              let w' : World U = record {
                chabu = record c { recv_seq_buffer_user = some b };
                app = app;
              } in
              if not (has_remaining b)
              then ok (stop (report_error cb recv_user_buffer_zero_length w'))
              else if not (has_remaining (cut b payload))
              then fault assert_failed
              else ok
                  (again (with_chabu w' (record (w'.chabu) { recv_seq_buffer = cut b payload })))
        ]
  ]

  -- `networkRecvBuffer`, on the application's buffer: the bytes read are counted, and a buffer that
  -- is full is handed back.
  unfoldable pub recv_into_buffer : World U → ℕ → Run (Step (World U))
  unfolding remaining
  recv_into_buffer w i =
      let (b, app) = cb.network_recv_buffer w.chabu.recv_seq_buffer w.app in
      let c : Chabu = record (w.chabu) { recv_seq_buffer = b } in
      let left = c.recv_seq_remaining_payload in
      let finish : ℕ → Step (World U) = λ n.
        let c' : Chabu = record c { recv_seq_remaining_payload = n } in
        let full : Chabu = record c' { recv_seq_buffer_user = filled c.recv_seq_buffer_user b } in
        let w' =
          cb.channel_event_notification (c.channels i).channel_id recv_completed
            (record { chabu = full; app = app }) in
        if is_zero (remaining b)
        then again (with_chabu w' (record (w'.chabu) { recv_seq_buffer_user = none }))
        else again (record { chabu = c'; app = app }) in
      elim (remaining w.chabu.recv_seq_buffer -ℤ remaining b) [
        | negsuc n ↦ ok (finish (left + suc n))
        | pos n ↦
            if n == 0
            then ok (stop (record { chabu = c; app = app }))
            else if ltb left n
            then fault assert_failed
            else ok (finish (left - n))
      ]

  unfoldable pub recv_payload : World U → Run (Step (World U))
  unfolding recv_get_buffer recv_into_buffer
  recv_payload w =
      if w.chabu.recv_seq_remaining_payload == 0
      then ok (again w)
      else elim w.chabu.recv_seq_channel [
        | none ↦ fault null_pointer
        | some i ↦ recv_get_buffer w i >>= λ r. elim r [
          | stop w ↦ ok (stop w)
          | again w ↦ recv_into_buffer w i
        ]
      ]

  -- The padding goes into the receive buffer, and is dropped.
  unfoldable pub recv_padding : World U → Step (World U)
  recv_padding w =
      let c = w.chabu in
      let left = c.recv_seq_remaining_padding in
      if c.recv_seq_remaining_payload == 0 && ltb_ℤ (pos 0) left
      then (let rb : ByteBuffer = record (c.recv_buffer) { position = 0; limit = pos_part left } in
          let (b, app) = cb.network_recv_buffer rb w.app in
          let c' : Chabu = record c {
            recv_buffer = b;
            recv_seq_remaining_padding = left -ℤ pos b.position;
          } in
          let w' : World U = record { chabu = c'; app = app } in
          if b.position == 0 then stop w' else again w')
      else again w

  -- The whole of the state seqPayload.
  unfoldable pub recv_seq_payload : World U → Run (Step (World U))
  unfolding recv_payload recv_padding
  recv_seq_payload w = recv_payload w >>= λ r. elim r [
    | stop w ↦ ok (stop w)
    | again w ↦ elim (recv_padding w) [
      | stop w ↦ ok (stop w)
      | again w ↦
          let c = w.chabu in
          let done : Chabu = record c {
            recv_state = RecvState.ready;
            recv_buffer = record (c.recv_buffer) { position = 0 };
          } in
          if c.recv_seq_remaining_payload == 0 && is_zero c.recv_seq_remaining_padding
          then ok (again (with_chabu w done))
          else ok (again w)
    ]
  ]
