-- ===== src/Channel.antt =====
-- c/org.chabu/src/ChabuChannel.c: what the application calls to move the limits of a channel, and
-- to read them. Limits and positions are `uint64`, the received ones `uint32`; sums wrap.
pub mod Laws
pub mod Limits
pub mod Receive
pub mod Remaining
use chabu.Prelude.{
  ℕ, zero, suc, ◌+◌, ◌-◌, ◌%◌, ◌^◌, Bool, true, false, Option, none, some, ltb, ◌==◌, if◌then◌else◌,
}
use chabu.Prelude.Int.{ℤ, pos, negsuc}
use chabu.Run.{Run, ok, ◌>>=◌}
use chabu.Errors.{ErrorCode, parameter}
use chabu.State.{Chabu, Channel, Event, network_register_write_request, set_channel}
use chabu.Priority.{set_request_data, set_request_ctrl_arm}
use chabu.World.{put_channel, World, Callbacks, report_error}

-- `int64` to `uint64`, and back.
unfoldable pub of_int64 : ℤ → ℕ
of_int64 (pos n) = n % 2 ^ 64
of_int64 (negsuc n) = 2 ^ 64 - 1 - n % 2 ^ 64

unfoldable pub to_int64 : ℕ → ℤ
to_int64 w = if ltb w (2 ^ 63) then pos w else negsuc (2 ^ 64 - 1 - w)

module _ {U : Type 0} (cb : Callbacks U) where
  -- `getCheckedChannelId`
  unfoldable pub get_checked_channel_id : World U → ℤ → Option ℕ × World U
  unfolding report_error
  get_checked_channel_id w (negsuc _) = (none, report_error cb parameter w)
  get_checked_channel_id w (pos i) =
      if ltb i w.chabu.channel_count then (some i, w) else (none, report_error cb parameter w)

  -- What a getter gives behind `getCheckedChannelId`: 0 where the channel does not exist.
  pub read_channel_of : (Channel → ℕ) → Option ℕ × World U → ℤ × World U
  unfolding to_int64
  read_channel_of field (none, w) = (pos 0, w)
  read_channel_of field (some i, w) = (to_int64 (field (w.chabu.channels i)), w)

  pub read_channel : (Channel → ℕ) → World U → ℤ → ℤ × World U
  unfolding get_checked_channel_id read_channel_of
  read_channel field w channel_id = read_channel_of field (get_checked_channel_id w channel_id)

  -- `Chabu_Priority_SetRequestData` and the call for a write, after a limit has moved.
  unfoldable pub request_data_if_armed : World U → ℕ → Run (World U)
  unfolding set_request_data
  request_data_if_armed w i =
      let ch = w.chabu.channels i in
      if ch.xmit_arm == ch.xmit_seq then ok w else (do
        c ← set_request_data w.chabu i
        ok (cb.event_notification network_register_write_request (record w { chabu = c })))

  -- `Chabu_Channel_SetXmitLimit`, behind `getCheckedChannelId`.
  unfoldable pub set_xmit_limit_of : Option ℕ × World U → ℤ → Run (World U)
  unfolding request_data_if_armed of_int64 report_error
  set_xmit_limit_of (none, w) limit = ok w
  set_xmit_limit_of (some i, w) limit =
      let ch = w.chabu.channels i in
      if ltb (of_int64 limit) ch.xmit_limit
      then ok (report_error cb parameter w)
      else request_data_if_armed (put_channel w i (record ch { xmit_limit = of_int64 limit })) i

  -- `Chabu_Channel_SetXmitLimit`
  unfoldable pub set_xmit_limit : World U → ℤ → ℤ → Run (World U)
  unfolding get_checked_channel_id set_xmit_limit_of
  set_xmit_limit w channel_id limit = set_xmit_limit_of (get_checked_channel_id w channel_id) limit

  -- `Chabu_Channel_AddXmitLimit`, behind `getCheckedChannelId`.
  unfoldable pub add_xmit_limit_of : Option ℕ × World U → ℤ → Run (World U)
  unfolding request_data_if_armed report_error
  add_xmit_limit_of (none, w) added = ok w
  add_xmit_limit_of (some i, w) (negsuc _) = ok (report_error cb parameter w)
  add_xmit_limit_of (some i, w) (pos n) =
      let ch = w.chabu.channels i in
      let limit = (ch.xmit_limit + n) % 2 ^ 64 in
      if n == 0
      then ok w
      else request_data_if_armed (put_channel w i (record ch { xmit_limit = limit })) i

  -- `Chabu_Channel_AddXmitLimit`
  unfoldable pub add_xmit_limit : World U → ℤ → ℤ → Run (World U)
  unfolding get_checked_channel_id add_xmit_limit_of
  add_xmit_limit w channel_id added = add_xmit_limit_of (get_checked_channel_id w channel_id) added

  -- `Chabu_Channel_GetXmitLimit`
  unfoldable pub get_xmit_limit : World U → ℤ → ℤ × World U
  unfolding read_channel
  get_xmit_limit = read_channel (λ ch. ch.xmit_limit)

  -- `Chabu_Channel_GetXmitPosition`
  unfoldable pub get_xmit_position : World U → ℤ → ℤ × World U
  unfolding read_channel
  get_xmit_position = read_channel (λ ch. ch.xmit_seq)

  -- `Chabu_Channel_GetXmitRemaining`
  unfoldable pub get_xmit_remaining : World U → ℤ → ℤ × World U
  unfolding read_channel
  get_xmit_remaining = read_channel (λ ch. (ch.xmit_limit + 2 ^ 64 - ch.xmit_seq) % 2 ^ 64)

  -- `Chabu_Channel_SetRecvLimit`, behind `getCheckedChannelId`: it is the field `xmit.limit` that
  -- the code sets.
  unfoldable pub set_recv_limit_of : Option ℕ × World U → ℤ → Run (World U)
  unfolding of_int64
  set_recv_limit_of (none, w) limit = ok w
  set_recv_limit_of (some i, w) limit =
      ok (put_channel w i (record (w.chabu.channels i) { xmit_limit = of_int64 limit }))

  -- `Chabu_Channel_SetRecvLimit`
  unfoldable pub set_recv_limit : World U → ℤ → ℤ → Run (World U)
  unfolding get_checked_channel_id set_recv_limit_of
  set_recv_limit w channel_id limit = set_recv_limit_of (get_checked_channel_id w channel_id) limit

  -- `Chabu_Channel_AddRecvLimit`, behind `getCheckedChannelId`.
  unfoldable pub add_recv_limit_of : Option ℕ × World U → ℤ → Run (World U)
  unfolding set_request_ctrl_arm report_error
  add_recv_limit_of (none, w) added = ok w
  add_recv_limit_of (some i, w) (negsuc _) = ok (report_error cb parameter w)
  add_recv_limit_of (some i, w) (pos n) =
      let ch = w.chabu.channels i in
      let ch' : Channel = record ch {
        recv_arm = (ch.recv_arm + n) % 2 ^ 32;
        recv_limit = (ch.recv_limit + n) % 2 ^ 64;
      } in
      let w' = put_channel w i ch' in
      if n == 0 then ok w else (do
        c ← set_request_ctrl_arm w'.chabu i
        ok (cb.event_notification network_register_write_request (record w' { chabu = c })))

  -- `Chabu_Channel_AddRecvLimit`
  unfoldable pub add_recv_limit : World U → ℤ → ℤ → Run (World U)
  unfolding get_checked_channel_id add_recv_limit_of
  add_recv_limit w channel_id added = add_recv_limit_of (get_checked_channel_id w channel_id) added

  -- `Chabu_Channel_GetRecvLimit`
  unfoldable pub get_recv_limit : World U → ℤ → ℤ × World U
  unfolding read_channel
  get_recv_limit = read_channel (λ ch. ch.recv_limit)

  -- `Chabu_Channel_GetRecvPosition`
  unfoldable pub get_recv_position : World U → ℤ → ℤ × World U
  unfolding read_channel
  get_recv_position = read_channel (λ ch. ch.recv_seq)

  -- `Chabu_Channel_GetRecvRemaining`
  unfoldable pub get_recv_remaining : World U → ℤ → ℤ × World U
  unfolding read_channel
  get_recv_remaining = read_channel (λ ch. (ch.recv_limit + 2 ^ 64 - ch.recv_seq) % 2 ^ 64)
