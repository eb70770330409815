-- ===== src/Init.antt =====
-- c/org.chabu/src/ChabuInit.c: the start of a connection. The arguments are checked in order and
-- the first fault is reported; then the channels and priorities are reset, the application
-- configures the channels, and the SETUP packet is laid out in the transmit buffer.
pub mod Setup
pub mod Check
pub mod Fresh
use chabu.Prelude.{
  ℕ, zero, suc, ◌+◌, Bool, true, false, Option, none, some, List, [], ◌∷◌, ltb, leb, ◌||◌, not,
  if◌then◌else◌, replicate,
}
use chabu.Prelude.Int.{ℤ, pos, negsuc}
use chabu.Common.{strnlen}
use chabu.Run.{Run, ok, ◌>>=◌}
use chabu.Buffer
use chabu.Buffer.{ByteBuffer, align_up4, put_int_be, put_string, flip}
use chabu.Errors.{
  ok_noerror, init_error_func_null, init_param_apname_null, init_param_apname_too_long,
  init_param_rps_range, init_param_channels_null, init_param_channels_range,
  init_param_priorities_null, init_param_priorities_range, init_event_func_null,
  init_accept_func_null, init_nw_read_func_null, init_nw_write_func_null,
  init_channels_not_configured, init_configure_invalid_channel, init_channel_funcs_null,
}
use chabu.State.{
  Chabu, Channel, Priority, PriorityEntry, PriorityList, ConnectionInfo, XmitState, RecvState,
  init_channels, PacketType, packet_id, apn_max_length, rps_min, rps_max, channel_count_max,
  priority_count_max, protocol_version_value, update,
}
use chabu.World.{World, Callbacks, report_error_if, is_ok}

abbrev pub no_info : ConnectionInfo
no_info = record {
  has_content = false;
  protocol_version = 0;
  receive_packet_size = 0;
  application_version = 0;
  application_name = [];
}

-- A zeroed buffer, whose `data` is NULL.
abbrev pub no_buffer : ByteBuffer
no_buffer = record { position = 0; limit = 0; capacity = 0; memory = [] }

-- `memset( chabu, 0, … )`: the enumerations are 0 too. `channels` and `priorities` are NULL, so no
-- element of them is read while the counts are 0.
abbrev pub zeroed : (ℕ → Channel) → (ℕ → Priority) → Chabu
zeroed channels priorities = record {
  info = false;
  connection_info_local = no_info;
  connection_info_remote = no_info;
  receive_packet_size = 0;
  last_error = ok_noerror;
  channels = channels;
  channel_count = 0;
  priorities = priorities;
  priority_count = 0;
  xmit_ping_ping_data = none;
  xmit_ping_pong_data = none;
  xmit_ping_request = false;
  xmit_ping_in_progress = false;
  recv_ping_ping_data = no_buffer;
  recv_ping_pong_data = no_buffer;
  recv_ping_request = false;
  xmit_state = XmitState.setup;
  xmit_buffer = no_buffer;
  xmit_seq_channel = none;
  xmit_seq_remaining_payload = 0;
  xmit_seq_remaining_padding = pos 0;
  xmit_seq_buffer_user = none;
  recv_state = RecvState.setup;
  recv_buffer = no_buffer;
  recv_seq_channel = none;
  recv_seq_remaining_payload = 0;
  recv_seq_remaining_padding = pos 0;
  recv_seq_buffer_user = none;
  recv_seq_buffer = no_buffer;
}

-- The arguments of `Chabu_Init`. A pointer that is only tested is a Boolean, true where it is not
-- NULL; the arrays hold what the caller's memory holds before the call.
pub record Arguments : Type 0 where
  pub application_version : ℕ
  pub application_name : Option (List ℕ)
  pub receive_packet_size : ℤ
  pub has_channels : Bool
  pub channels : ℕ → Channel
  pub channel_count : ℤ
  pub has_priorities : Bool
  pub priorities : ℕ → Priority
  pub priority_count : ℤ
  pub has_error_function : Bool
  pub has_accept_connection : Bool
  pub has_event_notification : Bool
  pub has_network_recv_buffer : Bool
  pub has_network_xmit_buffer : Bool

-- `for( i = 0; i < n; i++ ) arr[i] = f( i, arr[i] );`
unfoldable pub for_each {ℓ} : {A : Type ℓ} → ℕ → (ℕ → A → A) → (ℕ → A) → ℕ → A
for_each zero f arr = arr
for_each (suc n) f arr = let arr' = for_each n f arr in update arr' n (f n (arr' n))

-- The bodies of the two loops that reset the arrays.
abbrev pub reset_priority : ℕ → Priority → Priority
reset_priority i p =
    let l : PriorityList = record { request = none; last_selected_channel_id = negsuc 0 } in
    record p { ctrl = l; seq_data = l }

abbrev pub reset_channel : ℕ → Channel → Channel
reset_channel i ch = record ch {
  channel_id = i;
  priority = negsuc 0;
  recv_arm = 0;
  recv_seq = 0;
  recv_request = false;
  xmit_arm = 0;
  xmit_seq = 0;
  xmit_limit = 0;
  xmit_request_ctrl_arm = false;
  xmit_request_ctrl_davail = false;
  xmit_request_ctrl_reset = false;
}

-- The body of the loop of `buildPriorityChannelList`.
abbrev pub unlink_channel : ℕ → Channel → Channel
unlink_channel i ch =
    let e : PriorityEntry = record { next = none; ch = i } in
    record ch { xmit_request_ctrl = e; xmit_request_data = e }

-- `n < low || n > high` and `n <= 0 || n > high` of an `int`.
abbrev pub outside : ℕ → ℕ → ℤ → Bool
outside low high (negsuc _) = true
outside low high (pos n) = ltb n low || ltb high n

abbrev pub count : ℤ → ℕ
count (pos n) = n
count (negsuc _) = 0

abbrev pub is_null : Option (List ℕ) → Bool
is_null none = true
is_null (some _) = false

-- `ch->priority < 0 || ch->priority >= priorityCount`
abbrev pub unconfigured : ℕ → ℤ → Bool
unconfigured n (negsuc _) = true
unconfigured n (pos p) = leb n p

-- The SETUP packet, put behind what the buffer holds.
unfoldable pub put_setup : ByteBuffer → (length : ℕ) → Arguments → List ℕ → Run ByteBuffer
unfolding put_int_be put_string packet_id
put_setup b len a name = do
  b ← put_int_be b len
  b ← put_int_be b (packet_id PacketType.setup)
  b ← put_string b (b'C' ∷ b'H' ∷ b'A' ∷ b'B' ∷ b'U' ∷ 0 ∷ [])
  b ← put_int_be b protocol_version_value
  b ← put_int_be b (count a.receive_packet_size)
  b ← put_int_be b a.application_version
  put_string b name

module _ {U : Type 0} (cb : Callbacks U) where
  -- The checks of the arguments, in their order; `name_length` is what `Common_strnlen` gives.
  unfoldable pub check_arguments : Arguments → ℕ → World U → World U
  unfolding report_error_if
  check_arguments a name_length w =
      let report = report_error_if cb in
      let w = report (is_null a.application_name) init_param_apname_null w in
      let w = report (ltb apn_max_length name_length) init_param_apname_too_long w in
      let w = report (outside rps_min rps_max a.receive_packet_size) init_param_rps_range w in
      let w = report (not a.has_channels) init_param_channels_null w in
      let w = report (outside 1 channel_count_max a.channel_count) init_param_channels_range w in
      let w = report (not a.has_priorities) init_param_priorities_null w in
      let w =
        report (outside 1 priority_count_max a.priority_count) init_param_priorities_range w in
      let w = report (not a.has_event_notification) init_event_func_null w in
      let w = report (not a.has_accept_connection) init_accept_func_null w in
      let w = report (not a.has_network_recv_buffer) init_nw_read_func_null w in
      report (not a.has_network_xmit_buffer) init_nw_write_func_null w

  -- The loop that looks for a channel that was not configured, over the first `n` channels.
  unfoldable pub check_channels : ℕ → ℕ → World U → World U
  unfolding report_error_if
  check_channels priority_count zero w = w
  check_channels priority_count (suc n) w =
      let w = check_channels priority_count n w in
      report_error_if cb (unconfigured priority_count (w.chabu.channels n).priority)
        init_channels_not_configured w

  -- The state in which the application is asked to configure the channels.
  unfoldable pub reset : Arguments → Chabu → Chabu
  unfolding for_each Buffer.init
  reset a c = record c {
    channels = for_each (count a.channel_count) reset_channel a.channels;
    channel_count = count a.channel_count;
    priorities = for_each (count a.priority_count) reset_priority a.priorities;
    priority_count = count a.priority_count;
    receive_packet_size = count a.receive_packet_size;
    xmit_buffer = Buffer.init (replicate 0x100 0) 0x100;
    recv_buffer = Buffer.init (replicate 0x100 0) 0x100;
  }

  -- The assignments at the end of `Chabu_Init`, with `buildPriorityChannelList`.
  unfoldable pub start : ByteBuffer → Chabu → Chabu
  unfolding for_each
  start xmit_buffer c = record c {
    xmit_buffer = xmit_buffer;
    xmit_state = XmitState.setup;
    connection_info_remote = record (c.connection_info_remote) { has_content = false };
    connection_info_local = record (c.connection_info_local) { has_content = false };
    recv_state = RecvState.setup;
    recv_buffer = record (c.recv_buffer) { limit = 8 };
    recv_seq_channel = none;
    recv_seq_remaining_payload = 0;
    recv_seq_remaining_padding = pos 0;
    xmit_ping_in_progress = false;
    xmit_ping_request = false;
    xmit_ping_ping_data = none;
    xmit_ping_pong_data = none;
    recv_ping_request = false;
    channels = for_each c.channel_count unlink_channel c.channels;
  }

  -- `Chabu_Init` behind its checks.
  unfoldable pub activate : Arguments → List ℕ → World U → Run (World U)
  unfolding reset check_channels strnlen put_setup start flip align_up4
  activate a name w =
      let w = cb.event_notification init_channels (record w { chabu = reset a w.chabu }) in
      let w = check_channels (count a.priority_count) (count a.channel_count) w in
      do
        n ← strnlen (some name) (apn_max_length + 1)
        b ← put_setup w.chabu.xmit_buffer (0x24 + align_up4 n) a name
        ok (record w { chabu = start (flip b) w.chabu })

  -- `Chabu_Init`, for a `chabu` that is not NULL.
  unfoldable pub chabu_init : Arguments → U → Run (World U)
  unfolding check_arguments activate strnlen
  chabu_init a app =
      let c = record (zeroed a.channels a.priorities) { info = true } in
      if not a.has_error_function
      then ok (record { chabu = record c { last_error = init_error_func_null }; app = app })
      else (do
        n ← strnlen a.application_name (apn_max_length + 1)
        let w = check_arguments a n (record { chabu = c; app = app })
        if not (is_ok w.chabu.last_error)
            then ok w
            else elim a.application_name [ none ↦ ok w | some name ↦ activate a name w ])

  -- `Chabu_ConfigureChannel`; the callbacks are given or NULL.
  unfoldable pub configure_channel : World U → ℤ → ℤ → (event get_xmit get_recv : Bool) → World U
  unfolding report_error_if
  configure_channel w channel_id priority event get_xmit get_recv =
      let report = report_error_if cb in
      let w =
        report (unconfigured w.chabu.channel_count channel_id) init_configure_invalid_channel w in
      let w = report (not event) init_channel_funcs_null w in
      let w = report (not get_xmit) init_channel_funcs_null w in
      let w = report (not get_recv) init_channel_funcs_null w in
      let i = count channel_id in
      let c = w.chabu in
      let ch = record (c.channels i) { priority = priority; user = true } in
      if not (is_ok c.last_error)
      then w
      else record w { chabu = record c { channels = update c.channels i ch } }
