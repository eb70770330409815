-- ===== src/Errors.antt =====
-- c/org.chabu/src/ChabuErrors.c and `enum Chabu_ErrorCode` of c/org.chabu/include/Chabu.h.
use Prim.Native.String.{String}
use chabu.Prelude.{ℕ}

-- `enum Chabu_ErrorCode`
pub data ErrorCode : Type 0 where
  ok_noerror : ErrorCode
  unknown : ErrorCode
  assert : ErrorCode
  not_activated : ErrorCode
  is_activated : ErrorCode
  illegal_argument : ErrorCode
  chabu_is_null : ErrorCode
  chabu_is_not_initialized : ErrorCode
  init_error_func_null : ErrorCode
  init_param_apname_null : ErrorCode
  init_param_apname_too_long : ErrorCode
  init_param_rps_range : ErrorCode
  init_accept_func_null : ErrorCode
  init_configure_invalid_channel : ErrorCode
  init_event_func_null : ErrorCode
  init_nw_read_func_null : ErrorCode
  init_nw_write_func_null : ErrorCode
  init_param_channels_null : ErrorCode
  init_param_channels_range : ErrorCode
  init_param_priorities_null : ErrorCode
  init_param_priorities_range : ErrorCode
  init_channel_funcs_null : ErrorCode
  init_channels_not_configured : ErrorCode
  configuration_priocount : ErrorCode
  configuration_network : ErrorCode
  configuration_ch_id : ErrorCode
  configuration_ch_prio : ErrorCode
  configuration_ch_user : ErrorCode
  configuration_ch_recvsz : ErrorCode
  configuration_no_channels : ErrorCode
  configuration_validator : ErrorCode
  setup_local_maxrecvsize : ErrorCode
  setup_local_applicationname : ErrorCode
  setup_remote_chabu_version : ErrorCode
  setup_remote_chabu_name : ErrorCode
  setup_remote_maxrecvsize : ErrorCode
  recv_user_buffer_zero_length : ErrorCode
  xmit_user_buffer_zero_length : ErrorCode
  xmit_user_buffer_too_long : ErrorCode
  protocol_length : ErrorCode
  protocol_pck_type : ErrorCode
  protocol_abort_msg_length : ErrorCode
  protocol_setup_twice : ErrorCode
  protocol_accept_twice : ErrorCode
  protocol_expected_setup : ErrorCode
  protocol_channel_recv_overflow : ErrorCode
  protocol_data_overflow : ErrorCode
  protocol_seq_value : ErrorCode
  protocol_channel_not_existing : ErrorCode
  ping_in_progress : ErrorCode
  parameter : ErrorCode
  remote_abort : ErrorCode
  application_validator : ErrorCode

-- The numbers that C gives to the constants.
unfoldable pub code : ErrorCode → ℕ
code ok_noerror = 0
code unknown = 1
code assert = 2
code not_activated = 3
code is_activated = 4
code illegal_argument = 5
code chabu_is_null = 6
code chabu_is_not_initialized = 7
code init_error_func_null = 8
code init_param_apname_null = 9
code init_param_apname_too_long = 10
code init_param_rps_range = 11
code init_accept_func_null = 12
code init_configure_invalid_channel = 13
code init_event_func_null = 14
code init_nw_read_func_null = 15
code init_nw_write_func_null = 16
code init_param_channels_null = 17
code init_param_channels_range = 18
code init_param_priorities_null = 19
code init_param_priorities_range = 20
code init_channel_funcs_null = 21
code init_channels_not_configured = 22
code configuration_priocount = 23
code configuration_network = 24
code configuration_ch_id = 25
code configuration_ch_prio = 26
code configuration_ch_user = 27
code configuration_ch_recvsz = 28
code configuration_no_channels = 29
code configuration_validator = 30
code setup_local_maxrecvsize = 31
code setup_local_applicationname = 32
code setup_remote_chabu_version = 33
code setup_remote_chabu_name = 34
code setup_remote_maxrecvsize = 35
code recv_user_buffer_zero_length = 36
code xmit_user_buffer_zero_length = 37
code xmit_user_buffer_too_long = 38
code protocol_length = 39
code protocol_pck_type = 40
code protocol_abort_msg_length = 41
code protocol_setup_twice = 42
code protocol_accept_twice = 43
code protocol_expected_setup = 44
code protocol_channel_recv_overflow = 45
code protocol_data_overflow = 46
code protocol_seq_value = 47
code protocol_channel_not_existing = 48
code ping_in_progress = 49
code parameter = 50
code remote_abort = 51
code application_validator = 256

-- `Chabu_ErrorCodeStr`; the cases that its `switch` lacks fall to the default.
unfoldable pub error_code_str : ErrorCode → String
error_code_str ok_noerror = "Chabu_ErrorCode_OK_NOERROR"
error_code_str unknown = "Chabu_ErrorCode_UNKNOWN"
error_code_str assert = "Chabu_ErrorCode_ASSERT"
error_code_str not_activated = "Chabu_ErrorCode_NOT_ACTIVATED"
error_code_str is_activated = "Chabu_ErrorCode_IS_ACTIVATED"
error_code_str illegal_argument = "Chabu_ErrorCode_ILLEGAL_ARGUMENT"
error_code_str chabu_is_null = "Chabu_ErrorCode_CHABU_IS_NULL"
error_code_str chabu_is_not_initialized = "Chabu_ErrorCode_CHABU_IS_NOT_INITIALIZED"
error_code_str init_error_func_null = "Chabu_ErrorCode_INIT_ERROR_FUNC_NULL"
error_code_str init_param_apname_null = "Chabu_ErrorCode_INIT_PARAM_APNAME_NULL"
error_code_str init_param_apname_too_long = "Chabu_ErrorCode_INIT_PARAM_APNAME_TOO_LONG"
error_code_str init_param_rps_range = "Chabu_ErrorCode_INIT_PARAM_RPS_RANGE"
error_code_str init_accept_func_null = "<unknown>"
error_code_str init_configure_invalid_channel = "Chabu_ErrorCode_INIT_CONFIGURE_INVALID_CHANNEL"
error_code_str init_event_func_null = "Chabu_ErrorCode_INIT_EVENT_FUNC_NULL"
error_code_str init_nw_read_func_null = "Chabu_ErrorCode_INIT_NW_READ_FUNC_NULL"
error_code_str init_nw_write_func_null = "Chabu_ErrorCode_INIT_NW_WRITE_FUNC_NULL"
error_code_str init_param_channels_null = "Chabu_ErrorCode_INIT_PARAM_CHANNELS_NULL"
error_code_str init_param_channels_range = "Chabu_ErrorCode_INIT_PARAM_CHANNELS_RANGE"
error_code_str init_param_priorities_null = "Chabu_ErrorCode_INIT_PARAM_PRIORITIES_NULL"
error_code_str init_param_priorities_range = "Chabu_ErrorCode_INIT_PARAM_PRIORITIES_RANGE"
error_code_str init_channel_funcs_null = "Chabu_ErrorCode_INIT_CHANNEL_FUNCS_NULL"
error_code_str init_channels_not_configured = "Chabu_ErrorCode_INIT_CHANNELS_NOT_CONFIGURED"
error_code_str configuration_priocount = "Chabu_ErrorCode_CONFIGURATION_PRIOCOUNT"
error_code_str configuration_network = "Chabu_ErrorCode_CONFIGURATION_NETWORK"
error_code_str configuration_ch_id = "Chabu_ErrorCode_CONFIGURATION_CH_ID"
error_code_str configuration_ch_prio = "Chabu_ErrorCode_CONFIGURATION_CH_PRIO"
error_code_str configuration_ch_user = "Chabu_ErrorCode_CONFIGURATION_CH_USER"
error_code_str configuration_ch_recvsz = "Chabu_ErrorCode_CONFIGURATION_CH_RECVSZ"
error_code_str configuration_no_channels = "Chabu_ErrorCode_CONFIGURATION_NO_CHANNELS"
error_code_str configuration_validator = "Chabu_ErrorCode_CONFIGURATION_VALIDATOR"
error_code_str setup_local_maxrecvsize = "Chabu_ErrorCode_SETUP_LOCAL_MAXRECVSIZE"
error_code_str setup_local_applicationname = "Chabu_ErrorCode_SETUP_LOCAL_APPLICATIONNAME"
error_code_str setup_remote_chabu_version = "Chabu_ErrorCode_SETUP_REMOTE_CHABU_VERSION"
error_code_str setup_remote_chabu_name = "Chabu_ErrorCode_SETUP_REMOTE_CHABU_NAME"
error_code_str setup_remote_maxrecvsize = "Chabu_ErrorCode_SETUP_REMOTE_MAXRECVSIZE"
error_code_str recv_user_buffer_zero_length = "Chabu_ErrorCode_RECV_USER_BUFFER_ZERO_LENGTH"
error_code_str xmit_user_buffer_zero_length = "Chabu_ErrorCode_XMIT_USER_BUFFER_ZERO_LENGTH"
error_code_str xmit_user_buffer_too_long = "Chabu_ErrorCode_XMIT_USER_BUFFER_TOO_LONG"
error_code_str protocol_length = "Chabu_ErrorCode_PROTOCOL_LENGTH"
error_code_str protocol_pck_type = "Chabu_ErrorCode_PROTOCOL_PCK_TYPE"
error_code_str protocol_abort_msg_length = "Chabu_ErrorCode_PROTOCOL_ABORT_MSG_LENGTH"
error_code_str protocol_setup_twice = "Chabu_ErrorCode_PROTOCOL_SETUP_TWICE"
error_code_str protocol_accept_twice = "Chabu_ErrorCode_PROTOCOL_ACCEPT_TWICE"
error_code_str protocol_expected_setup = "Chabu_ErrorCode_PROTOCOL_EXPECTED_SETUP"
error_code_str protocol_channel_recv_overflow = "Chabu_ErrorCode_PROTOCOL_CHANNEL_RECV_OVERFLOW"
error_code_str protocol_data_overflow = "Chabu_ErrorCode_PROTOCOL_DATA_OVERFLOW"
error_code_str protocol_seq_value = "Chabu_ErrorCode_PROTOCOL_SEQ_VALUE"
error_code_str protocol_channel_not_existing = "Chabu_ErrorCode_PROTOCOL_CHANNEL_NOT_EXISTING"
error_code_str ping_in_progress = "Chabu_ErrorCode_PING_IN_PROGRESS"
error_code_str parameter = "Chabu_ErrorCode_PARAMETER"
error_code_str remote_abort = "Chabu_ErrorCode_REMOTE_ABORT"
error_code_str application_validator = "Chabu_ErrorCode_APPLICATION_VALIDATOR"
