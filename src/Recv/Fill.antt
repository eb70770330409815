-- ===== src/Recv/Fill.antt =====
-- c/org.chabu/src/Chabu.c: the buffer of the application that the payload of a SEQ packet goes to, in
-- `handleReads`.
use mathlib.Core.Path.{subst}
use chabu.Prelude.{
  ℕ, ◌-◌, ◌<◌, ◌≡◌, refl, sym, ◌∙◌, ap, ◌⊎◌, inl, inr, Bool, Bool-cases, ltb, ltb→lt, lt→ltb,
  Option, none, some, List, arith, if◌then◌else◌,
}
use chabu.Prelude.Int.{pos_part}
use chabu.Run.{ok}
use chabu.Buffer.{ByteBuffer, has_remaining}
use chabu.Buffer.Xfer.{IsValid, remaining_lem}
use chabu.World.{World, Callbacks}
use chabu.Xmit.Carrier.{Usable}
use chabu.Recv.Packet.{again}
use chabu.Recv.Payload.{cut, recv_get_buffer}
use chabu.Recv.Source.{IsSource}

-- The application's buffer has room, and no more than the payload that is left.
abbrev pub Filling : Option ByteBuffer → ByteBuffer → ℕ → Type 0
Filling none b most = Unit {0}
Filling (some u) b most = Usable b most

-- What is left of the limit is what the payload needs at most.
pub Usable-cut :
    (b : ByteBuffer) (payload : ℕ)
    → IsValid b
    → b.position < b.limit
    → 0 < payload
    → Usable (cut b payload) payload
Usable-cut b payload v room some_left =
    let r = b.limit - b.position in
    let cut_by : Bool → ℕ → ByteBuffer =
      λ t s. if t then record b { limit = b.limit - (s - payload) } else b in
    let known : cut b payload ≡ cut_by (ltb payload r) r =
      ap (λ s. cut_by (ltb payload s) s) (ap pos_part (remaining_lem b v)) in
    elim (Bool-cases (ltb payload r)) [
      | inl more ↦
          let over = ltb→lt payload r more in
          subst (λ x. Usable x payload) (sym (known ∙ ap (λ t. cut_by t r) more))
            (record {
              valid = record { ordered = omega (arith, over); inside = omega (arith, v.inside) };
              some_bytes = omega (arith, over);
              short = omega arith;
            })
      | inr fits ↦
          subst (λ x. Usable x payload) (sym (known ∙ ap (λ t. cut_by t r) fits))
            (record { valid = v; some_bytes = room; short = ground arith })
    ]

module _ {U : Type 0} (cb : Callbacks U) (arrived : U → List ℕ) where
  -- The buffer `u` of the application that is filled next, and the copy `b` that the network gets: the
  -- buffers in use, or one that the application hands out for the channel, and that cut to the payload
  -- that is left.
  abbrev pub Target : World U → ByteBuffer → ByteBuffer → Type 0
  Target w u b =
      ((w.chabu.recv_seq_buffer_user ≡ some u) × (b ≡ w.chabu.recv_seq_buffer))
      ⊎ ((i : ℕ) × (w.chabu.recv_seq_channel ≡ some i)
          × ((cb.channel_get_recv_buffer (w.chabu.channels i).channel_id
                w.chabu.recv_seq_remaining_payload w.app).0
              ≡ some u)
          × (b ≡ cut u w.chabu.recv_seq_remaining_payload))

  -- The state with a buffer of the application and the copy of it that is filled.
  abbrev pub world : World U → ByteBuffer → U → Option ByteBuffer → World U
  world w b app o = record {
    chabu = record (w.chabu) { recv_seq_buffer_user = o; recv_seq_buffer = b };
    app = app;
  }

  -- A buffer is there, or the application hands one out.
  pub recv_get_buffer_lem :
      IsSource cb arrived
      → (w : World U) (i : ℕ) (o : Option ByteBuffer) → w.chabu.recv_seq_channel ≡ some i
      → w.chabu.recv_seq_buffer_user ≡ o
      → 0 < w.chabu.recv_seq_remaining_payload
      → Filling o w.chabu.recv_seq_buffer w.chabu.recv_seq_remaining_payload
      → (u : ByteBuffer) × (b : ByteBuffer) × (app : U) × Target w u b
        × Usable b w.chabu.recv_seq_remaining_payload
        × (arrived app ≡ arrived w.app)
        × (recv_get_buffer cb w i ≡ ok (again (world w b app (some u))))
  unfolding recv_get_buffer has_remaining
  recv_get_buffer_lem k w i (some u) ch has left r = (
    u,
    w.chabu.recv_seq_buffer,
    w.app,
    inl (has, refl),
    r,
    refl,
    simp (has, recv_get_buffer)
        (ap (λ o. ok (again (world w w.chabu.recv_seq_buffer w.app o))) has),
  )
  recv_get_buffer_lem k w i none ch has left r =
      let c = w.chabu in
      let most = c.recv_seq_remaining_payload in
      let res = cb.channel_get_recv_buffer (c.channels i).channel_id most w.app in
      let H = k.offers (c.channels i).channel_id most w.app left in
      let b = H.buffer in
      let usable = Usable-cut b most H.valid H.room left in
      (
        b,
        cut b most,
        res.1,
        inr (i, ch, H.offered, refl),
        usable,
        H.same,
        rw (
          has,
          H.offered,
          lt→ltb b.position b.limit H.room,
          lt→ltb (cut b most).position (cut b most).limit usable.some_bytes,
          recv_get_buffer,
        ),
      )
