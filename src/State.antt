-- ===== src/State.antt =====
-- The data of c/org.chabu/include/Chabu.h and c/org.chabu/src/ChabuInternal.h: the connection, its
-- channels and priorities, and the constants of the protocol. A nested `struct` is written out as
-- fields with its name in front. `uint32` and `uint64` are numbers below 2 ^ 32 and 2 ^ 64.
use chabu.Prelude.{ℕ, ◌+◌, Bool, Option, List, ltb, ◌==◌, if◌then◌else◌}
use chabu.Prelude.Int.{ℤ}
use chabu.Run.{Run, ok, fault, out_of_bounds}
use chabu.Buffer.{ByteBuffer}
use chabu.Errors.{ErrorCode}

-- `struct Chabu_ConnectionInfo_Data`, with the name as its characters.
pub record ConnectionInfo : Type 0 where
  pub has_content : Bool
  pub protocol_version : ℕ
  pub receive_packet_size : ℕ
  pub application_version : ℕ
  pub application_name : List ℕ

-- `struct Chabu_PriorityEntry_Data`. A pointer to an entry is the number of the channel that the
-- entry is part of, and `none` is NULL: a list holds entries of one kind only.
pub record PriorityEntry : Type 0 where
  pub next : Option ℕ
  pub ch : ℕ

-- `struct Chabu_PriorityList_Data`
pub record PriorityList : Type 0 where
  pub request : Option ℕ
  pub last_selected_channel_id : ℤ

-- `struct Chabu_Priority_Data`; `seq_data` is the field `data`.
pub record Priority : Type 0 where
  pub ctrl : PriorityList
  pub seq_data : PriorityList

-- `struct Chabu_Channel_Data`. `user` tells whether the callbacks are set. The field `recv.limit`
-- is used by ChabuChannel.c and missing from the header; it is taken to be a `uint64` as
-- `xmit.limit` is.
pub record Channel : Type 0 where
  pub channel_id : ℕ
  pub priority : ℤ
  pub user : Bool
  pub xmit_seq : ℕ
  pub xmit_arm : ℕ
  pub xmit_limit : ℕ
  pub xmit_request_ctrl_arm : Bool
  pub xmit_request_ctrl_reset : Bool
  pub xmit_request_ctrl_davail : Bool
  pub xmit_request_ctrl : PriorityEntry
  pub xmit_request_data : PriorityEntry
  pub recv_seq : ℕ
  pub recv_arm : ℕ
  pub recv_limit : ℕ
  pub recv_request : Bool

-- `enum Chabu_XmitState`
pub data XmitState : Type 0 where
  setup accept abort seq seq_payload arm ping pong idle : XmitState

-- `enum Chabu_RecvState`
pub data RecvState : Type 0 where
  setup accept ready seq_payload : RecvState

-- `enum Chabu_Event`
pub data Event : Type 0 where
  init_channels network_register_write_request ping_completed remote_ping : Event
  remote_ping_dispose_pong_data : Event

-- `enum Chabu_Channel_Event`
pub data ChannelEvent : Type 0 where
  xmit_completed recv_completed remote_arm remote_davail remote_reset : ChannelEvent
  reset_completed : ChannelEvent

-- `struct Chabu_Data`. The arrays `channels` and `priorities` are functions, read and written below
-- their counts only. A buffer that is held by pointer is held by value here.
pub record Chabu : Type 0 where
  pub info : Bool
  pub connection_info_local : ConnectionInfo
  pub connection_info_remote : ConnectionInfo
  pub receive_packet_size : ℕ
  pub last_error : ErrorCode
  pub channels : ℕ → Channel
  pub channel_count : ℕ
  pub priorities : ℕ → Priority
  pub priority_count : ℕ
  pub xmit_ping_ping_data : Option ByteBuffer
  pub xmit_ping_pong_data : Option ByteBuffer
  pub xmit_ping_request : Bool
  pub xmit_ping_in_progress : Bool
  pub recv_ping_ping_data : ByteBuffer
  pub recv_ping_pong_data : ByteBuffer
  pub recv_ping_request : Bool
  pub xmit_state : XmitState
  pub xmit_buffer : ByteBuffer
  pub xmit_seq_channel : Option ℕ
  pub xmit_seq_remaining_payload : ℕ
  pub xmit_seq_remaining_padding : ℤ
  pub xmit_seq_buffer_user : Option ByteBuffer
  pub recv_state : RecvState
  pub recv_buffer : ByteBuffer
  pub recv_seq_channel : Option ℕ
  pub recv_seq_remaining_payload : ℕ
  pub recv_seq_remaining_padding : ℤ
  pub recv_seq_buffer_user : Option ByteBuffer
  pub recv_seq_buffer : ByteBuffer

-- The constants of ChabuInternal.h and Chabu.h.
abbrev pub channel_count_max : ℕ
channel_count_max = 100

abbrev pub priority_count_max : ℕ
priority_count_max = 100

abbrev pub apn_max_length : ℕ
apn_max_length = 56

abbrev pub rps_min : ℕ
rps_min = 0x100

abbrev pub rps_max : ℕ
rps_max = 0x1000_0000

abbrev pub packet_magic : ℕ
packet_magic = 0x7777_0000

abbrev pub seq_header_sz : ℕ
seq_header_sz = 20

abbrev pub abort_msg_size_max : ℕ
abort_msg_size_max = 56

abbrev pub application_name_size_max : ℕ
application_name_size_max = 56

abbrev pub protocol_version_value : ℕ
protocol_version_value = 0x0001_0001

abbrev pub ping_payload_max : ℕ
ping_payload_max = 64

abbrev pub pong_payload_max : ℕ
pong_payload_max = 64

-- `enum PacketType`
pub data PacketType : Type 0 where
  setup accept abort arm seq rst_req rst_ack davail ping pong : PacketType

unfoldable pub packet_type_code : PacketType → ℕ
packet_type_code PacketType.setup = 0xf0
packet_type_code PacketType.accept = 0xe1
packet_type_code PacketType.abort = 0xd2
packet_type_code PacketType.arm = 0xc3
packet_type_code PacketType.seq = 0xb4
packet_type_code PacketType.rst_req = 0xa5
packet_type_code PacketType.rst_ack = 0x96
packet_type_code PacketType.davail = 0x87
packet_type_code PacketType.ping = 0x78
packet_type_code PacketType.pong = 0x69

-- `PACKET_MAGIC | PacketType_…`: the two have no bit in common.
unfoldable pub packet_id : PacketType → ℕ
unfolding packet_type_code
packet_id t = packet_magic + packet_type_code t

-- An array element is given a new value.
abbrev pub update {ℓ} : {A : Type ℓ} → (ℕ → A) → ℕ → A → ℕ → A
update f i v j = if i == j then v else f j

-- `&chabu->channels[ i ]` and its update, a fault outside of the array.
unfoldable pub channel_at : Chabu → ℕ → Run Channel
channel_at c i = if ltb i c.channel_count then ok (c.channels i) else fault out_of_bounds

unfoldable pub set_channel : Chabu → ℕ → Channel → Chabu
set_channel c i ch = record c { channels = update c.channels i ch }
