-- ===== src/Recv/Progress.antt =====
-- What a packet that is read costs the network, in `handleReads` (c/org.chabu/src/Chabu.c).
use chabu.Prelude.{
  ℕ, ◌+◌, ◌%◌, ◌≤◌, ◌≡◌, refl, ap, Bool, true, false, arith, ltb, ◌==◌, if◌then◌else◌,
}
use chabu.Prelude.Int.{pos_part}
use chabu.Run.{ok, OnOk, bind-OnOk, then-OnOk, test-OnOk}
use chabu.Buffer.{ByteBuffer, to_int, flip, has_remaining, get_int_at_be}
use chabu.State.{PacketType, packet_type_code}
use chabu.World.{World, Callbacks}
use chabu.Recv.Packet.{Step, again, stop, recv_packet}
use chabu.Recv.Loop.{recv_own, with_rb, recv_head, recv_rest, recv_one}
use chabu.Recv.Stream.{HasPadding, IsStream}
use chabu.Recv.Follow.{Going, Follows, recv_packet-Follows}

module _ {U : Type 0} (cb : Callbacks U) (pending : U → ℕ) where
  -- Bytes have come from the network into the receive buffer, or none.
  pub record Nears (w w' : World U) : Type 0 where
    pub no_more : pending w'.app ≤ pending w.app
    pub total :
        pending w'.app + w'.chabu.recv_buffer.position
        ≤ pending w.app + w.chabu.recv_buffer.position
    pub padding : HasPadding w.chabu → HasPadding w'.chabu

  Nears-refl : (w : World U) → Nears w w
  Nears-refl w = record { no_more = omega arith; total = omega arith; padding = λ h. h }

  recv_own-Nears :
      IsStream cb pending
      → (w : World U) (b : ByteBuffer) → b.position ≡ w.chabu.recv_buffer.position
      → Nears w (recv_own cb (with_rb cb w b))
  unfolding recv_own
  recv_own-Nears k w b e =
      let r = k.reads b w.app in
      record {
        no_more = omega (arith, r.less);
        total = omega (arith, r.less, r.place, e);
        padding = λ h. h;
      }

  Nears-if :
      (w : World U) (t : Bool) (a b : World U)
      → Nears w a
      → Nears w b
      → Nears w (if t then a else b)
  Nears-if w true a b h g = h
  Nears-if w false a b h g = g

  Nears-trans : (w a b : World U) → Nears w a → Nears a b → Nears w b
  Nears-trans w a b h g = record {
    no_more = omega (arith, h.no_more, g.no_more);
    total = omega (arith, h.total, g.total);
    padding = λ p. g.padding (h.padding p);
  }

  recv_head-Nears : IsStream cb pending → (w : World U) → Nears w (recv_head cb w)
  unfolding recv_head
  recv_head-Nears k w =
      Nears-if w (ltb w.chabu.recv_buffer.position 8)
        (recv_own cb (with_rb cb w (record (w.chabu.recv_buffer) { limit = 8 }))) w
        (recv_own-Nears k w (record (w.chabu.recv_buffer) { limit = 8 }) refl) (Nears-refl w)

  recv_rest-Nears :
      IsStream cb pending
      → (type packet_length : ℕ) (w : World U) → Nears w (recv_rest cb type packet_length w)
  unfolding recv_rest
  recv_rest-Nears k type packet_length w =
      let rb = w.chabu.recv_buffer in
      let limit =
        if type == packet_type_code PacketType.seq then 20 else pos_part (to_int packet_length) in
      let w' : World U =
        if rb.position == 8 then with_rb cb w (record rb { limit = limit }) else w in
      let set : Nears w w' =
        Nears-if w (rb.position == 8) (with_rb cb w (record rb { limit = limit })) w
          (record { no_more = omega arith; total = omega arith; padding = λ h. h })
          (Nears-refl w) in
      Nears-trans w w' _ set (
        Nears-if w' (has_remaining w'.chabu.recv_buffer) (recv_own cb w') w'
          (recv_own-Nears k w' w'.chabu.recv_buffer refl) (Nears-refl w'))

  -- A packet that was read has cost its header at least, and the receive buffer is empty again.
  pub record Read (w w' : World U) : Type 0 where
    pub cost : pending w'.app + 8 ≤ pending w.app + w.chabu.recv_buffer.position
    pub empty : w'.chabu.recv_buffer.position ≡ 0
    pub padding : HasPadding w'.chabu

  -- The receive buffer is emptied behind the packet.
  closed :
      (w w1 w2 w3 : World U)
      → Nears w w1
      → Nears w1 w2
      → w3.app ≡ w2.app
      → ltb w1.chabu.recv_buffer.position 8 ≡ false
      → (s : Step (World U)) → Going (Follows cb pending w3) s
      → OnOk (Going (Read w)) (elim s [
        | stop w ↦ ok (stop w)
        | again w ↦
            ok (again (with_rb cb w (record (w.chabu.recv_buffer) { position = 0; limit = 8 })))
      ])
  closed w w1 w2 w3 near1 near2 same long (stop w4) d = tt
  closed w w1 w2 w3 near1 near2 same long (again w4) d =
      let eight : 8 ≤ w1.chabu.recv_buffer.position = ground arith in
      let app : pending w3.app ≡ pending w2.app = ap pending same in
      record {
        cost = omega (arith, eight, app, d.no_more, near1.total, near2.no_more);
        empty = refl;
        padding = d.padding;
      }

  pub recv_one-Read :
      IsStream cb pending
      → (w : World U) → HasPadding w.chabu
      → OnOk (Going (Read w)) (recv_one cb w)
  unfolding recv_one
  recv_one-Read k w h =
      let P = Going (Read w) in
      let w1 = recv_head cb w in
      let near1 = recv_head-Nears k w in
      test-OnOk P (ltb w1.chabu.recv_buffer.position 8) _ _ (λ e. tt)
        λ long. then-OnOk P (get_int_at_be w1.chabu.recv_buffer 0) _ λ packet_length.
          then-OnOk P (get_int_at_be w1.chabu.recv_buffer 4) _ λ packet_id.
            let w2 = recv_rest cb (packet_id % 256) packet_length w1 in
            let near2 = recv_rest-Nears k (packet_id % 256) packet_length w1 in
            let w3 = with_rb cb w2 (record (flip w2.chabu.recv_buffer) { position = 8 }) in
            test-OnOk P (has_remaining w2.chabu.recv_buffer) _ _ (λ e. tt)
              λ e.
                bind-OnOk (Going (Follows cb pending w3)) P (recv_packet cb (packet_id % 256) w3) _
                  (recv_packet-Follows cb pending k (packet_id % 256) w3
                    (near2.padding (near1.padding h)))
                  (closed w w1 w2 w3 near1 near2 refl long)
