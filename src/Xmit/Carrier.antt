-- ===== src/Xmit/Carrier.antt =====
-- The network and the application as the transmit half of c/org.chabu/src/Chabu.c meets them: what a
-- callback for data does with the buffer it is given, and a record of the bytes that passed through.
use chabu.Prelude.{ℕ, ◌+◌, ◌-◌, ◌<◌, ◌≤◌, ◌≡◌, Option, none, some, List, [], ◌++◌, take, drop}
use chabu.Buffer.{ByteBuffer}
use chabu.Buffer.Xfer.{IsValid}
use chabu.State.{ChannelEvent}
use chabu.World.{World, Callbacks}

-- The bytes of a buffer that are still to be read.
abbrev pub unread : ByteBuffer → List ℕ
unread b = take (b.limit - b.position) (drop b.position b.memory)

-- The bytes of a buffer of the application that the library holds.
abbrev pub held : Option ByteBuffer → List ℕ
held none = []
held (some b) = unread b

-- A buffer of the application, for a payload of at most `most` bytes.
pub record Usable (b : ByteBuffer) (most : ℕ) : Type 0 where
  pub valid : IsValid b
  pub some_bytes : b.position < b.limit
  pub short : b.limit - b.position ≤ most

module _ {U : Type 0} (cb : Callbacks U) (sent given : U → List ℕ) where
  -- The network takes the first bytes of a buffer, all, some or none, and moves its position.
  pub record Taken (b : ByteBuffer) (u : U) (b' : ByteBuffer) (u' : U) : Type 0 where
    pub amount : ℕ
    pub bound : amount ≤ b.limit - b.position
    pub buffer : b' ≡ record b { position = b.position + amount }
    pub out : sent u' ≡ sent u ++ take amount (unread b)
    pub same : given u' ≡ given u

  -- The application hands out a buffer for the payload.
  pub record Handed (most : ℕ) (u : U) (r : Option ByteBuffer) (u' : U) : Type 0 where
    pub buffer : ByteBuffer
    pub handed : r ≡ some buffer
    pub usable : Usable buffer most
    pub out : given u' ≡ given u ++ unread buffer
    pub same : sent u' ≡ sent u

  -- What the functions that are registered for the transmission of data do. `sent` is what the
  -- network has taken so far, `given` what the application has handed out.
  pub record IsCarrier : Type 0 where
    pub takes :
        (b : ByteBuffer) (u : U)
        → IsValid b
        → Taken b u (cb.network_xmit_buffer b u).0 (cb.network_xmit_buffer b u).1
    pub hands :
        (i most : ℕ) (u : U)
        → 0 < most
        → Handed most u
            (cb.channel_get_xmit_buffer i most u).0
            (cb.channel_get_xmit_buffer i most u).1
    pub notes :
        (i : ℕ) (e : ChannelEvent) (w : World U)
        → ((cb.channel_event_notification i e w).chabu ≡ w.chabu)
          × (sent (cb.channel_event_notification i e w).app ≡ sent w.app)
          × (given (cb.channel_event_notification i e w).app ≡ given w.app)
