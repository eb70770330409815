-- ===== src/Xmit/Pending.antt =====
-- c/org.chabu/src/Chabu.c: `writePendingXmitData`, `handleWrites` and the calls for a ping.
use chabu.Prelude.{
  ℕ, zero, suc, ◌+◌, ◌-◌, Bool, true, false, Option, none, some, ltb, ◌==◌, ◌&&◌, if◌then◌else◌,
}
use chabu.Prelude.Int.{ℤ, pos, negsuc, pos_part, ◌-ℤ◌, ltb_ℤ}
use chabu.Run.{Run, ok, fault, null_pointer, assert_failed, no_rounds_left, ◌>>=◌}
use chabu.Buffer.{ByteBuffer, has_remaining, remaining}
use chabu.Errors.{xmit_user_buffer_zero_length, xmit_user_buffer_too_long, ping_in_progress}
use chabu.State.{Chabu, XmitState, network_register_write_request, xmit_completed}
use chabu.World.{with_chabu, World, Callbacks, report_error}
use chabu.Xmit.Prepare.{prepare_next_xmit_state}

module _ {U : Type 0} (cb : Callbacks U) where
  -- `networkXmitBuffer`, on the transmit buffer.
  unfoldable pub xmit_own : World U → World U
  xmit_own w =
      let (b, app) = cb.network_xmit_buffer w.chabu.xmit_buffer w.app in
      record { chabu = record (w.chabu) { xmit_buffer = b }; app = app }

  -- `xmitGetUserData`
  unfoldable pub xmit_get_user_data : World U → Run (World U)
  unfolding report_error remaining
  xmit_get_user_data w = elim w.chabu.xmit_seq_buffer_user [
    | some _ ↦ ok w
    | none ↦ elim w.chabu.xmit_seq_channel [
      | none ↦ fault null_pointer
      | some i ↦
          let c = w.chabu in
          let (r, app) =
            cb.channel_get_xmit_buffer (c.channels i).channel_id c.xmit_seq_remaining_payload
              w.app in
          let w' : World U = record { chabu = record c { xmit_seq_buffer_user = r }; app = app } in
          elim r [
            | none ↦ ok (report_error cb xmit_user_buffer_zero_length w')
            | some b ↦ elim (remaining b) [
              | negsuc _ ↦ ok w'
              | pos n ↦
                  if n == 0
                  then ok (report_error cb xmit_user_buffer_zero_length w')
                  else if ltb c.xmit_seq_remaining_payload n
                  then ok (report_error cb xmit_user_buffer_too_long w')
                  else ok w'
            ]
          ]
    ]
  ]

  -- What the loop does with the number of bytes that went out: stop at 0, or count them, and hand
  -- back a buffer that is empty now. `none` stops the loop.
  unfoldable pub after_xmit : World U → ℕ → ByteBuffer → ℤ → Run (Bool × World U)
  unfolding has_remaining
  after_xmit w i b (negsuc n) =
      let c = w.chabu in
      ok (
        true,
        with_chabu w (record c {
          xmit_seq_remaining_payload = c.xmit_seq_remaining_payload + suc n;
          xmit_seq_buffer_user = some b;
        }),
      )
  after_xmit w i b (pos n) =
      let c = w.chabu in
      let left = c.xmit_seq_remaining_payload - n in
      let done : Chabu = record c {
        xmit_seq_remaining_payload = left;
        xmit_seq_buffer_user = none;
      } in
      if n == 0
      then ok (false, with_chabu w (record c { xmit_seq_buffer_user = some b }))
      else if ltb c.xmit_seq_remaining_payload n
      then fault assert_failed
      else if has_remaining b
      then ok (
        true,
        with_chabu w
            (record c { xmit_seq_remaining_payload = left; xmit_seq_buffer_user = some b }),
      )
      else ok (
        true,
        cb.channel_event_notification (c.channels i).channel_id xmit_completed (with_chabu w done),
      )

  -- `while( chabu->xmit.seqRemainingPayload ) …`
  unfoldable pub xmit_payload : ℕ → ℕ → World U → Run (World U)
  unfolding xmit_get_user_data after_xmit remaining
  xmit_payload zero i w = fault no_rounds_left
  xmit_payload (suc rounds) i w = elim (w.chabu.xmit_seq_remaining_payload == 0) [
    | true ↦ ok w
    | false ↦ xmit_get_user_data w >>= λ w. elim w.chabu.xmit_seq_buffer_user [
      | none ↦ fault null_pointer
      | some b ↦
          let (b', app) = cb.network_xmit_buffer b w.app in
          after_xmit (record w { app = app }) i b' (remaining b -ℤ remaining b') >>= λ (more, w).
          elim more [ true ↦ xmit_payload rounds i w | false ↦ ok w ]
    ]
  ]

  -- The padding is sent out of the transmit buffer; its bytes are what stood there before.
  unfoldable pub xmit_padding : World U → World U
  unfolding xmit_own
  xmit_padding w =
      let c = w.chabu in
      if c.xmit_seq_remaining_payload == 0 && ltb_ℤ (pos 0) c.xmit_seq_remaining_padding
      then (let w = xmit_own (
            with_chabu w (record c {
              xmit_buffer = record (c.xmit_buffer) {
                position = 0;
                limit = pos_part c.xmit_seq_remaining_padding;
              };
            })) in
          with_chabu w (record (w.chabu) {
            xmit_seq_remaining_padding =
                w.chabu.xmit_seq_remaining_padding -ℤ pos w.chabu.xmit_buffer.position;
          }))
      else w

  abbrev pub is_zero : ℤ → Bool
  is_zero (pos n) = n == 0
  is_zero (negsuc _) = false

  -- The state seqPayload of `writePendingXmitData`.
  unfoldable pub write_seq_payload : World U → Run (Bool × World U)
  unfolding xmit_payload xmit_padding
  write_seq_payload w = elim w.chabu.xmit_seq_channel [
    | none ↦ fault assert_failed
    | some i ↦ do
      w ← xmit_payload (w.chabu.xmit_seq_remaining_payload + 1) i w
      let w = xmit_padding w
      let c = w.chabu
      let idle : Chabu = record c { xmit_state = XmitState.idle }
      let none_left = c.xmit_seq_remaining_payload == 0
      ok (
        none_left,
        (if none_left && is_zero c.xmit_seq_remaining_padding then with_chabu w idle else w),
      )
  ]

  -- `writePendingXmitData`
  unfoldable pub write_pending_xmit_data : World U → Run (Bool × World U)
  unfolding has_remaining xmit_own write_seq_payload
  write_pending_xmit_data w =
      let pending = has_remaining w.chabu.xmit_buffer in
      let w' = if pending then xmit_own w else w in
      if pending && has_remaining w'.chabu.xmit_buffer
      then ok (false, w')
      else elim w'.chabu.xmit_state [
        | XmitState.seq_payload ↦ write_seq_payload w'
        | _ ↦ ok (true, w')
      ]

  -- `handleWrites`
  unfoldable pub handle_writes : ℕ → World U → Run (World U)
  unfolding write_pending_xmit_data prepare_next_xmit_state
  handle_writes zero w = fault no_rounds_left
  handle_writes (suc rounds) w = write_pending_xmit_data w >>= λ (all, w). elim all [
    | false ↦ ok (cb.event_notification network_register_write_request w)
    | true ↦ prepare_next_xmit_state cb w >>= λ (more, w). elim more [
      | true ↦ handle_writes rounds w
      | false ↦ ok w
    ]
  ]

  -- `Chabu_StartPing`; a buffer may be NULL.
  unfoldable pub start_ping : World U → (ping_data pong_data : Option ByteBuffer) → World U
  unfolding report_error
  start_ping w ping_data pong_data =
      if w.chabu.xmit_ping_in_progress
      then report_error cb ping_in_progress w
      else (let c = w.chabu in
          cb.event_notification network_register_write_request (
            with_chabu w (record c {
              xmit_ping_ping_data = ping_data;
              xmit_ping_pong_data = pong_data;
              xmit_ping_request = true;
              xmit_ping_in_progress = true;
            })))

  -- `Chabu_SetPongData`
  unfoldable pub set_pong_data : World U → ByteBuffer → World U
  set_pong_data w pong_data = with_chabu w (record (w.chabu) { recv_ping_pong_data = pong_data })
