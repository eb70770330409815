-- ===== src/Recv/Pong.antt =====
-- A PONG packet: what becomes of the application's buffer, and of the next ping.
use chabu.Prelude.{ℕ, ◌+◌, ◌^◌, ◌<◌, ◌≤◌, ◌≡◌, refl, ◌∙◌, ap, true, Option, some, List, ◌++◌, arith}
use chabu.Run.{ok, Returns}
use chabu.Buffer.{ByteBuffer}
use chabu.Buffer.Bytes.{be32}
use chabu.Buffer.Read.{unread, get_int_be_lem, to_int_small}
use chabu.Buffer.Xfer.{IsValid, xfer_with_max_lem}
use chabu.Errors.{ping_in_progress}
use chabu.State.{Chabu, ping_completed}
use chabu.World.{World, Callbacks, IsPassive, with_chabu, report_error}
use chabu.Xmit.Pending.{start_ping}
use chabu.Recv.Packet.{Step, again, with_recv, ready, recv_pong}

module _ {U : Type 0} (cb : Callbacks U) where
  -- After a PONG packet the application's buffer `d` has its old bytes.
  pub record Ponged (w : World U) (d : ByteBuffer) (s : Step (World U)) : Type 0 where
    pub after : World U
    pub buffer : ByteBuffer
    pub goes_on : s ≡ again after
    pub held : after.chabu.xmit_ping_pong_data ≡ some buffer
    pub old_bytes : buffer.memory ≡ d.memory
    pub refused :
        (p q : Option ByteBuffer) → start_ping cb after p q ≡ report_error cb ping_in_progress after

  -- The answer to a ping is lost. Where a PONG packet of `n` bytes comes in
  -- for a ping with a buffer for the answer, and the application does not call back, the packet is
  -- taken in without a fault, but the bytes of the application's buffer stay what they were, and the
  -- next ping is refused because one is in progress.
  pub recv_pong-Ponged :
      (w : World U) (d : ByteBuffer) (n : ℕ) (rest : List ℕ)
      → IsPassive cb
      → w.chabu.xmit_ping_pong_data ≡ some d
      → w.chabu.xmit_ping_in_progress ≡ true
      → IsValid d
      → w.chabu.recv_buffer.position + 4 ≤ w.chabu.recv_buffer.limit
      → IsValid w.chabu.recv_buffer
      → n < 2 ^ 31
      → unread w.chabu.recv_buffer ≡ be32 n ++ rest
      → Returns (Ponged w d) (recv_pong cb w)
  unfolding recv_pong start_ping
  recv_pong-Ponged w d n rest passive held progress vd room vb small bytes =
      let rb = w.chabu.recv_buffer in
      let b4 : ByteBuffer = record rb { position = rb.position + 4 } in
      let r = (get_int_be_lem rb n rest (omega arith) bytes).0 in
      let ((m, b', d'), e, (_, _, ed)) =
        xfer_with_max_lem b4 d n (record { ordered = room; inside = vb.inside }) vd in
      simp (r, held, to_int_small n small, e) (finish b' d' (ap (λ (x : ByteBuffer). x.memory) ed))
    where
      finish :
          (b' d' : ByteBuffer)
          → d'.memory ≡ d.memory
          → Returns (Ponged w d) (
              ok (
                again (
                  let w' = cb.event_notification ping_completed (
                    with_chabu w
                      (record (with_recv w.chabu b') { xmit_ping_pong_data = some d' })) in
                  with_chabu w' (ready w'.chabu))))
      finish b' d' ed =
          let c : Chabu = record (with_recv w.chabu b') { xmit_ping_pong_data = some d' } in
          let v = cb.event_notification ping_completed (with_chabu w c) in
          let quiet : v.chabu ≡ c = passive.on_event ping_completed (with_chabu w c) in
          let busy : v.chabu.xmit_ping_in_progress ≡ true =
            ap (λ (x : Chabu). x.xmit_ping_in_progress) quiet ∙ progress in
          (
            again (with_chabu v (ready v.chabu)),
            refl,
            record {
              after = with_chabu v (ready v.chabu);
              buffer = d';
              goes_on = refl;
              held = ap (λ (x : Chabu). x.xmit_ping_pong_data) quiet;
              old_bytes = ed;
              refused = λ p q. rw busy;
            },
          )
