-- ===== src/Recv/Source.antt =====
-- The network and the application as the receive half of c/org.chabu/src/Chabu.c meets them: what a
-- callback for data does with the buffer it is given, and a record of the bytes that arrived.
use chabu.Prelude.{ℕ, ◌-◌, ◌<◌, ◌≤◌, ◌≡◌, Option, some, List, ◌++◌, length}
use chabu.Buffer.{ByteBuffer}
use chabu.Buffer.Write.{Writes}
use chabu.Buffer.Xfer.{IsValid}
use chabu.State.{ChannelEvent}
use chabu.World.{World, Callbacks}

module _ {U : Type 0} (cb : Callbacks U) (arrived : U → List ℕ) where
  -- The network appends bytes to a buffer, as many as there is room for, fewer or none.
  pub record Filled (b : ByteBuffer) (u : U) (b' : ByteBuffer) (u' : U) : Type 0 where
    pub bytes : List ℕ
    pub bound : length bytes ≤ b.limit - b.position
    pub writes : Writes b bytes b'
    pub came : arrived u' ≡ arrived u ++ bytes

  -- The application hands out a buffer with room.
  pub record Offered (u : U) (r : Option ByteBuffer) (u' : U) : Type 0 where
    pub buffer : ByteBuffer
    pub offered : r ≡ some buffer
    pub valid : IsValid buffer
    pub room : buffer.position < buffer.limit
    pub same : arrived u' ≡ arrived u

  -- What the functions that are registered for the reception of data do. `arrived` is what the
  -- network has delivered so far.
  pub record IsSource : Type 0 where
    pub fills :
        (b : ByteBuffer) (u : U)
        → IsValid b
        → Filled b u (cb.network_recv_buffer b u).0 (cb.network_recv_buffer b u).1
    pub offers :
        (i wanted : ℕ) (u : U)
        → 0 < wanted
        → Offered u
            (cb.channel_get_recv_buffer i wanted u).0
            (cb.channel_get_recv_buffer i wanted u).1
    pub notes :
        (i : ℕ) (e : ChannelEvent) (w : World U)
        → ((cb.channel_event_notification i e w).chabu ≡ w.chabu)
          × (arrived (cb.channel_event_notification i e w).app ≡ arrived w.app)
