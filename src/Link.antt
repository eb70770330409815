-- ===== src/Link.antt =====
-- Two ends of a connection during the payload of one SEQ packet (c/org.chabu/src/Chabu.c): one end
-- sends it by `writePendingXmitData`, the other one takes it in by passes of `handleReads`. The two
-- ends take turns in any order, and the network delivers bytes late but in order.
pub mod Carried
pub mod Ends
pub mod Delivery
use chabu.Prelude.{ℕ, Bool, false, true, List, ◌++◌, ◌≡◌}
use chabu.Run.{ok}
use chabu.Buffer.{has_remaining}
use chabu.State.{XmitState}
use chabu.World.{World, Callbacks}
use chabu.Xmit.Pending.{write_pending_xmit_data}
use chabu.Recv.Packet.{Step}
use chabu.Recv.Loop.{is_seq_payload, read_pass}
use chabu.Recv.Whole.{state_of}

module _ {U V : Type 0} (cs : Callbacks U) (cr : Callbacks V) (sent : U → List ℕ)
    (arrived : V → List ℕ) where
  -- One end sends, while its transmit buffer has no bytes of another packet or of a padding, or the
  -- other one reads what has come; no more has come than was sent.
  pub data Move : World U → World V → World U → World V → Type 0 where
    send :
        {w w' : World U} {v : World V} {done : Bool}
        → w.chabu.xmit_state ≡ XmitState.seq_payload
        → has_remaining w.chabu.xmit_buffer ≡ false
        → write_pending_xmit_data cs w ≡ ok (done, w')
        → Move w v w' v
    receive :
        {w : World U} {v : World V} {s : Step (World V)} (rest : List ℕ)
        → is_seq_payload v.chabu.recv_state ≡ true
        → read_pass cr v ≡ ok s
        → arrived (state_of cr arrived s).app ++ rest ≡ sent w.app
        → Move w v w (state_of cr arrived s)

  pub data Reach (w0 : World U) (v0 : World V) : World U → World V → Type 0 where
    start : Reach w0 v0 w0 v0
    later : {w w' : World U} {v v' : World V} → Reach w0 v0 w v → Move w v w' v' → Reach w0 v0 w' v'
