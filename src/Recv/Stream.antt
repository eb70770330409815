-- ===== src/Recv/Stream.antt =====
-- The network and the application as the loop of `handleReads` meets them (c/org.chabu/src/Chabu.c):
-- how many bytes the network can still deliver, and what the callbacks leave as it is.
use chabu.Prelude.{ℕ, suc, ◌+◌, ◌-◌, ◌≤◌, ◌≡◌, if◌then◌else◌}
use chabu.Prelude.Int.{pos}
use chabu.Buffer.{ByteBuffer}
use chabu.State.{Chabu, Event, ChannelEvent}
use chabu.World.{World, Callbacks}
use chabu.Recv.Loop.{is_seq_payload}

-- The padding that is left is not negative.
abbrev pub HasPadding : Chabu → Type 0
HasPadding c = (p : ℕ) × (c.recv_seq_remaining_padding ≡ pos p)

module _ {U : Type 0} (cb : Callbacks U) (pending : U → ℕ) where
  -- The network appends bytes to a buffer, at most as many as there is room for.
  pub record Reads (b : ByteBuffer) (u : U) (b' : ByteBuffer) (u' : U) : Type 0 where
    pub amount : ℕ
    pub bound : amount ≤ b.limit - b.position
    pub place : b'.position ≡ b.position + amount
    pub same_limit : b'.limit ≡ b.limit
    pub less : pending u' + amount ≤ pending u

  -- A call of the application brings no bytes, and does not touch what the loop reads of the state.
  pub record Heeds (w w' : World U) : Type 0 where
    pub no_more : pending w'.app ≤ pending w.app
    pub state : w'.chabu.recv_state ≡ w.chabu.recv_state
    pub padding : w'.chabu.recv_seq_remaining_padding ≡ w.chabu.recv_seq_remaining_padding

  pub record IsStream : Type 0 where
    pub reads :
        (b : ByteBuffer) (u : U)
        → Reads b u (cb.network_recv_buffer b u).0 (cb.network_recv_buffer b u).1
    pub offers :
        (i wanted : ℕ) (u : U) → pending (cb.channel_get_recv_buffer i wanted u).1 ≤ pending u
    pub notes : (e : Event) (w : World U) → Heeds w (cb.event_notification e w)
    pub channel_notes :
        (i : ℕ) (e : ChannelEvent) (w : World U) → Heeds w (cb.channel_event_notification i e w)

  -- The bytes that a pass can consume: those of the network, and those in the receive buffer while it
  -- is filled with a packet.
  abbrev pub bytes_left : World U → ℕ
  bytes_left w =
      if is_seq_payload w.chabu.recv_state
      then suc (pending w.app)
      else pending w.app + w.chabu.recv_buffer.position
