-- ===== src/World.antt =====
-- The connection together with the application, and the functions that the application registers
-- (`typedef`s of c/org.chabu/include/Chabu.h). A callback may call back into the library, so a
-- notification is a function of the whole world. The network functions move the position of the
-- buffer that they are given. `Chabu_ReportError` of c/org.chabu/src/ChabuInit.c stands here too:
-- only the first error is kept and reported.
pub mod First
use chabu.Prelude.{◌==◌, ℕ, ◌≡◌, Bool, true, false, Option, if◌then◌else◌}
use chabu.Buffer.{ByteBuffer}
use chabu.Errors.{ErrorCode, ok_noerror}
use chabu.State.{Chabu, Channel, ConnectionInfo, Event, ChannelEvent}

pub record World (U : Type 0) : Type 0 where
  pub chabu : Chabu
  pub app : U

pub record Callbacks (U : Type 0) : Type 0 where
  pub error_function : ErrorCode → World U → World U
  pub accept_connection :
      ConnectionInfo → ConnectionInfo → ByteBuffer → U → ErrorCode × ByteBuffer × U
  pub event_notification : Event → World U → World U
  pub network_recv_buffer : ByteBuffer → U → ByteBuffer × U
  pub network_xmit_buffer : ByteBuffer → U → ByteBuffer × U
  pub channel_event_notification : ℕ → ChannelEvent → World U → World U
  pub channel_get_xmit_buffer : ℕ → ℕ → U → Option ByteBuffer × U
  pub channel_get_recv_buffer : ℕ → ℕ → U → Option ByteBuffer × U

abbrev pub with_chabu : {U : Type 0} → World U → Chabu → World U
with_chabu w c = record w { chabu = c }

-- `chabu->channels[ i ] = ch;`
abbrev pub put_channel : {U : Type 0} → World U → ℕ → Channel → World U
put_channel w i ch =
    with_chabu w (record (w.chabu) { channels = λ j. if i == j then ch else w.chabu.channels j })

abbrev pub is_ok : ErrorCode → Bool
is_ok ok_noerror = true
is_ok _ = false

module _ {U : Type 0} (cb : Callbacks U) where
  -- `Chabu_ReportError`
  unfoldable pub report_error : ErrorCode → World U → World U
  report_error e w =
      if is_ok w.chabu.last_error
      then cb.error_function e (record w { chabu = record (w.chabu) { last_error = e } })
      else w

  -- `REPORT_ERROR_IF`
  unfoldable pub report_error_if : Bool → ErrorCode → World U → World U
  unfolding report_error
  report_error_if cond e w = if cond then report_error e w else w

  -- The application takes note of an event or an error without calling back into the library.
  pub record IsPassive : Type 0 where
    pub on_error : (e : ErrorCode) (w : World U) → (cb.error_function e w).chabu ≡ w.chabu
    pub on_event : (e : Event) (w : World U) → (cb.event_notification e w).chabu ≡ w.chabu
