-- ===== src/Xmit/Count.antt =====
-- c/org.chabu/src/Chabu.c: `xmitGetUserData`, and what the loop of `writePendingXmitData` does with the
-- number of bytes that went out.
use native.Mathlib.Decide.{ℕ_discrete}
use mathlib.Core.Path.{subst}
use chabu.Prelude.{
  ℕ, ◌+◌, ◌-◌, ◌<◌, ◌≤◌, ◌≡◌, refl, sym, ◌∙◌, ap, ◌⊎◌, inl, inr, Bool, true, false, Bool-cases, ltb,
  ltb→lt, not_lt→ltb, eq→==, ne→==, Option, none, some, List, [], ◌++◌, append-nil, arith, take,
}
use chabu.Prelude.Int.{pos}
use chabu.Run.{ok, Returns}
use chabu.Buffer.{ByteBuffer, has_remaining}
use chabu.Buffer.Xfer.{remaining_lem}
use chabu.State.{Chabu, xmit_completed}
use chabu.World.{World, Callbacks}
use chabu.Xmit.Carrier.{unread, held, Usable, IsCarrier}
use chabu.Xmit.Pending.{xmit_get_user_data, after_xmit}
use chabu.Xmit.Unread.{at_position, moved_on, Usable-moved_on, nothing_left}
use chabu.Xmit.Deliver.{Ready, Delivered, Delivered-nothing, deliver_lem}

module _ {U : Type 0} (cb : Callbacks U) (sent given : U → List ℕ) where
  -- A buffer is there, or the application hands one out.
  pub get_user_data_lem :
      IsCarrier cb sent given
      → (w : World U) (i : ℕ) (o : Option ByteBuffer) → w.chabu.xmit_seq_buffer_user ≡ o
      → w.chabu.xmit_seq_channel ≡ some i
      → 0 < w.chabu.xmit_seq_remaining_payload
      → Ready o w.chabu.xmit_seq_remaining_payload
      → Returns
          (λ w1.
            Delivered cb sent given w [] w1
            × ((b : ByteBuffer) × (w1.chabu.xmit_seq_buffer_user ≡ some b)
                × Usable b w1.chabu.xmit_seq_remaining_payload))
          (xmit_get_user_data cb w)
  unfolding xmit_get_user_data
  get_user_data_lem k w i (some b) held_one ch left r = (
    w,
    simp (held_one, xmit_get_user_data),
    (
      Delivered-nothing cb sent given w
          (subst (λ o. Ready o w.chabu.xmit_seq_remaining_payload) (sym held_one) r),
      (b, held_one, r),
    ),
  )
  get_user_data_lem k w i none held_none ch left r =
      let c = w.chabu in
      let most = c.xmit_seq_remaining_payload in
      let res = cb.channel_get_xmit_buffer (c.channels i).channel_id most w.app in
      let H = k.hands (c.channels i).channel_id most w.app left in
      let b = H.buffer in
      let world : Option ℕ → Option ByteBuffer → World U = λ j o. record {
        chabu = record c { xmit_seq_channel = j; xmit_seq_buffer_user = o };
        app = res.1;
      } in
      (
        world w.chabu.xmit_seq_channel (some b),
        rw
            (
              held_none,
              ch,
              H.handed,
              remaining_lem b H.usable.valid,
              ne→== (b.limit - b.position) 0 (omega (arith, H.usable.some_bytes)),
              not_lt→ltb most (b.limit - b.position) (omega (arith, H.usable.short)),
              xmit_get_user_data,
            )
            (ap (λ o. ok (world w.chabu.xmit_seq_channel o)) H.handed
              ∙ ap (λ j. ok (world j (some b))) ch),
        (
          record {
            fresh = unread b;
            counted = omega arith;
            went = H.same ∙ sym (append-nil _);
            came = H.out;
            in_order = ap (λ o. held o ++ unread b) held_none;
            ready = H.usable;
            rest = refl;
          },
          (b, refl, H.usable),
        ),
      )

  -- What the network took is counted, and a buffer that is empty goes back.
  abbrev pub Counted : World U → ByteBuffer → ℕ → U → Bool × World U → Type 0
  Counted w b n app (more, w') =
      Delivered cb sent given w (take n (unread b)) w'
      × (((more ≡ true) × (0 < n))
          ⊎ ((more ≡ false) × (n ≡ 0) × (w'.chabu.xmit_seq_buffer_user ≡ some b) × (w'.app ≡ app)))

  pub count_lem :
      IsCarrier cb sent given
      → (w : World U) (i : ℕ) (b : ByteBuffer) (n : ℕ) (app : U)
      → w.chabu.xmit_seq_buffer_user ≡ some b
      → Usable b w.chabu.xmit_seq_remaining_payload
      → n ≤ b.limit - b.position
      → sent app ≡ sent w.app ++ take n (unread b)
      → given app ≡ given w.app
      → Returns
          (Counted w b n app)
          (after_xmit cb (record w { app = app }) i (moved_on b n) (pos n))
  unfolding after_xmit has_remaining
  count_lem k w i b n app held_one u bound went same = elim (ℕ_discrete n 0) [
    | yes none_taken ↦
        let c : Chabu = record (w.chabu) { xmit_seq_buffer_user = some (moved_on b n) } in
        let w' : World U = record { chabu = c; app = app } in
        let back : moved_on b n ≡ b = ap (at_position b) (omega (arith, none_taken)) in
        let kept_count : ℕ → Chabu = λ r. record c { xmit_seq_remaining_payload = r } in
        (
          (false, w'),
          rw (eq→== n 0 none_taken, after_xmit),
          (
            deliver_lem cb sent given w b n (some (moved_on b n)) w' held_one u bound refl
                (Usable-moved_on b n w.chabu.xmit_seq_remaining_payload u
                  (omega (arith, none_taken, u.some_bytes)))
                (ap kept_count (omega (arith, none_taken))) went same,
            inr (refl, none_taken, ap some back, refl),
          ),
        )
    | no some_taken ↦
        let left = w.chabu.xmit_seq_remaining_payload - n in
        let fits : ltb w.chabu.xmit_seq_remaining_payload n ≡ false =
          not_lt→ltb w.chabu.xmit_seq_remaining_payload n (omega (arith, bound, u.short)) in
        elim (Bool-cases (ltb (b.position + n) b.limit)) [
          | inl more ↦
              let c : Chabu = record (w.chabu) {
                xmit_seq_remaining_payload = left;
                xmit_seq_buffer_user = some (moved_on b n);
              } in
              let w' : World U = record { chabu = c; app = app } in
              (
                (true, w'),
                rw (ne→== n 0 some_taken, fits, more, after_xmit),
                (
                  deliver_lem cb sent given w b n (some (moved_on b n)) w' held_one u bound refl
                      (Usable-moved_on b n w.chabu.xmit_seq_remaining_payload u (ltb→lt _ _ more))
                      refl went same,
                  inl (refl, omega arith),
                ),
              )
          | inr all ↦
              let c : Chabu = record (w.chabu) {
                xmit_seq_remaining_payload = left;
                xmit_seq_buffer_user = none;
              } in
              let at_end : World U = record { chabu = c; app = app } in
              let w' =
                cb.channel_event_notification (w.chabu.channels i).channel_id xmit_completed
                  at_end in
              let (nc, ns, ng) = k.notes (w.chabu.channels i).channel_id xmit_completed at_end in
              (
                (true, w'),
                rw (ne→== n 0 some_taken, fits, all, after_xmit),
                (
                  deliver_lem cb sent given w b n none w' held_one u bound (nothing_left b n all) tt
                      nc (ns ∙ went) (ng ∙ same),
                  inl (refl, omega arith),
                ),
              )
        ]
  ]
