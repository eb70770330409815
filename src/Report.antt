-- ===== src/Report.antt =====
-- c/org.chabu/src/ChabuErrors.c: the last error, and the names of the states and events. The cases
-- that a `switch` of the source lacks fall to its default.
use Prim.Native.String.{String}
use chabu.Prelude.{Option, none, some, if◌then◌else◌}
use chabu.Errors.{ErrorCode, chabu_is_null, chabu_is_not_initialized, error_code_str}
use chabu.State.{Chabu, XmitState, RecvState, ChannelEvent}

-- `Chabu_LastError`; `none` is NULL.
unfoldable pub last_error : Option Chabu → ErrorCode
last_error none = chabu_is_null
last_error (some c) = if c.info then c.last_error else chabu_is_not_initialized

-- `Chabu_LastErrorStr`
unfoldable pub last_error_str : Option Chabu → String
unfolding last_error error_code_str
last_error_str c = error_code_str (last_error c)

-- `Chabu_XmitStateStr`
unfoldable pub xmit_state_str : XmitState → String
xmit_state_str XmitState.setup = "Chabu_XmitState_Setup"
xmit_state_str XmitState.accept = "Chabu_XmitState_Accept"
xmit_state_str XmitState.abort = "Chabu_XmitState_Abort"
xmit_state_str XmitState.seq = "Chabu_XmitState_Seq"
xmit_state_str XmitState.seq_payload = "<unknown>"
xmit_state_str XmitState.arm = "Chabu_XmitState_Arm"
xmit_state_str XmitState.ping = "Chabu_XmitState_Ping"
xmit_state_str XmitState.pong = "<unknown>"
xmit_state_str XmitState.idle = "Chabu_XmitState_Idle"

-- `Chabu_RecvStateStr`
unfoldable pub recv_state_str : RecvState → String
recv_state_str RecvState.setup = "Chabu_RecvState_Setup"
recv_state_str RecvState.accept = "Chabu_RecvState_Accept"
recv_state_str RecvState.ready = "Chabu_RecvState_Ready"
recv_state_str RecvState.seq_payload = "<unknown>"

-- `Chabu_Channel_EventStr`
unfoldable pub channel_event_str : ChannelEvent → String
channel_event_str ChannelEvent.xmit_completed = "Chabu_Channel_Event_XmitCompleted"
channel_event_str ChannelEvent.recv_completed = "Chabu_Channel_Event_RecvCompleted"
channel_event_str ChannelEvent.remote_arm = "Chabu_Channel_Event_RemoteArm"
channel_event_str ChannelEvent.remote_davail = "Chabu_Channel_Event_RemoteDavail"
channel_event_str ChannelEvent.remote_reset = "Chabu_Channel_Event_RemoteReset"
channel_event_str ChannelEvent.reset_completed = "Chabu_Channel_Event_ResetCompleted"
