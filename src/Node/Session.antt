-- ===== src/Node/Session.antt =====
-- c/org.chabu.node/src/network/SessionCtrl.cpp: how a session takes a request from its socket and lays
-- out the answer. A request is an XML text behind its length. The XML library is a parameter: how it reads a
-- text as a request and writes an answer as a text. An exception that leaves a part leaves the whole.
use chabu.Prelude.{
  ℕ, ◌+◌, ◌%◌, ◌^◌, Option, none, some, List, ltb, leb, if◌then◌else◌, length, take, drop,
}
use chabu.Run.{Run, ok, fault, out_of_bounds, ◌>>=◌}
use chabu.State.{Channel, Priority}
use chabu.Node.Item.{Boost, XferItem}
use chabu.Node.Commands.{NodeState, process}
use chabu.Nio.{ByteBuffer, flip, remaining, set_position, compact, put_bytes}
use chabu.Nio.Word.{to_signed}
use chabu.Nio.Number.{get_u_int_at, put_int}

-- The members that the frames need, and those that the commands change.
pub record SessionCtrl : Type 0 where
  pub rx : ByteBuffer
  pub tx : ByteBuffer
  pub state : NodeState

-- What the session takes from its libraries: those of boost; `doc.load_string` with the reading of the
-- item, which gives nothing where the text is not XML and may throw; `encodeInto` with `save`; and the
-- memory that `new` gives for the arrays of a connection.
pub record Libraries : Type 0 where
  pub boost : Boost
  pub load : List ℕ → Run (Option XferItem)
  pub encode : XferItem → Run (List ℕ)
  pub channels : ℕ → Channel
  pub priorities : ℕ → Priority

-- `std::string xml( rx.arrayPtrAtPosition(), packetSize )`
unfoldable pub read_text : ByteBuffer → ℕ → Run (List ℕ)
read_text b size =
    if leb (b.position + size) (length b.memory)
    then ok (take size (drop b.position b.memory))
    else fault out_of_bounds

module _ (lib : Libraries) where
  -- The answer to a text, if the text can be parsed.
  unfoldable pub serve : NodeState → List ℕ → Run (NodeState × Option (List ℕ))
  unfolding process
  serve state xml = lib.load xml >>= λ request. elim request [
    | none ↦ ok (state, none)
    | some item ↦ do
      (state, res) ← process lib.boost lib.channels lib.priorities state item
      str ← lib.encode res
      ok (state, some str)
  ]

  -- The answer, laid out behind what is left in `tx`. The length of a string becomes an `int32_t`.
  unfoldable pub respond : ByteBuffer → NodeState → List ℕ → Run (ByteBuffer × NodeState)
  unfolding serve compact put_int put_bytes flip
  respond tx state xml = serve state xml >>= λ (state', answer). elim answer [
    | none ↦ ok (tx, state')
    | some str ↦ do
      tx ← compact tx
      tx ← put_int tx (to_signed 4 (length str % 2 ^ 32))
      tx ← put_bytes tx str 0 (length str)
      ok (flip tx, state')
  ]

  -- `rx.compact()` at the end of `handleReceived`.
  unfoldable pub finish : ByteBuffer → ByteBuffer → NodeState → Run SessionCtrl
  unfolding compact
  finish rx tx state = do rx ← compact rx; ok (record { rx = rx; tx = tx; state = state })

  -- `handleReceived`, without the write to the socket. The sum `4u + packetSize` has 32 bits.
  unfoldable pub handle_received : SessionCtrl → Run SessionCtrl
  unfolding flip remaining set_position get_u_int_at read_text respond finish
  handle_received s =
      let rx = flip s.rx in
      if ltb (remaining rx) 4 then finish rx s.tx s.state else (do
        packet_size ← get_u_int_at rx 0
        if ltb (remaining rx) ((4 + packet_size) % 2 ^ 32) then finish rx s.tx s.state else (do
          let rx = set_position rx 4
          xml ← read_text rx packet_size
          (tx, state) ← respond s.tx s.state xml
          finish rx tx state))
