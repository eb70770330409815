-- ===== src/Handshake.antt =====
-- The order of the handshake: what the calls of the library do to the state of the transmit half and
-- to what is known of the peer (c/org.chabu/src/Chabu.c, ChabuChannel.c).
pub mod Read
pub mod Reads
pub mod Write
pub mod Order
pub mod Calls
pub mod Silence
use mathlib.Core.Path.{subst₂}
use chabu.Prelude.{ℕ, ◌≡◌, sym, Bool, true, false, if◌then◌else◌}
use chabu.Run.{OnOk, then-OnOk}
use chabu.Errors.{ErrorCode}
use chabu.State.{Chabu, XmitState, Event, ChannelEvent}
use chabu.World.{World, Callbacks}
use chabu.Priority.{
  Kind, set_request_of, set_request, priority_at, store, ids_of, rounds_of, entries_of, list_of,
}

-- A predicate of the state of the transmit half, and of whether the SETUP packet of the peer is in.
abbrev pub Holds : (XmitState → Bool → Type 0) → Chabu → Type 0
Holds P c = P c.xmit_state c.connection_info_remote.has_content

-- Neither of the two has changed.
pub record Keeps {U : Type 0} (w w' : World U) : Type 0 where
  pub state : w'.chabu.xmit_state ≡ w.chabu.xmit_state
  pub remote :
      w'.chabu.connection_info_remote.has_content ≡ w.chabu.connection_info_remote.has_content

pub Keeps-Holds :
    {U : Type 0} (P : XmitState → Bool → Type 0) (w w' : World U)
    → Keeps w w'
    → Holds P w.chabu
    → Holds P w'.chabu
Keeps-Holds P w w' k h = subst₂ P (sym k.state) (sym k.remote) h

-- The notifications of the application may change the connection, as the calls for channels do, but
-- neither of the two.
pub record IsMindful {U : Type 0} (cb : Callbacks U) : Type 0 where
  pub on_error : (e : ErrorCode) (w : World U) → Keeps w (cb.error_function e w)
  pub on_event : (e : Event) (w : World U) → Keeps w (cb.event_notification e w)
  pub on_channel_event :
      (i : ℕ) (e : ChannelEvent) (w : World U) → Keeps w (cb.channel_event_notification i e w)

pub set_request_of-Holds :
    (P : XmitState → Bool → Type 0) (k : Kind) (c : Chabu) (i : ℕ)
    → Holds P c
    → OnOk (Holds P) (set_request_of k c i)
unfolding set_request_of store
set_request_of-Holds P k c i h =
    then-OnOk (Holds P) (priority_at c (c.channels i).priority) _ λ level.
      then-OnOk (Holds P)
        (set_request (ids_of c) (rounds_of c) (entries_of k c) i (list_of k (c.priorities level))) _
        (λ x. h)

pub if_holds :
    {A : Type 0} (Q : A → Type 0) (t : Bool) (a b : A) → Q a → Q b → Q (if t then a else b)
if_holds Q true a b h g = h
if_holds Q false a b h g = g
