-- ===== src/Xmit/Rounds.antt =====
-- c/org.chabu/src/Chabu.c: the loop over the payload in `writePendingXmitData`, round by round.
use native.Mathlib.Decide.{ℕ_discrete}
use chabu.Prelude.{
  ℕ, zero, suc, ◌<◌, ◌≡◌, refl, sym, ◌∙◌, ap, ◌≢◌, ◌⊎◌, inl, inr, Bool, true, false, eq→==, ne→==,
  some, List, [], arith, if◌then◌else◌,
}
use chabu.Prelude.Int.{pos, ◌-ℤ◌}
use chabu.Run.{ok, Returns}
use chabu.Buffer.{ByteBuffer, remaining}
use chabu.World.{World, Callbacks}
use chabu.Xmit.Carrier.{Usable, Taken, IsCarrier}
use chabu.Xmit.Pending.{xmit_get_user_data, after_xmit, xmit_payload}
use chabu.Xmit.Unread.{length-take-unread, taken_lem, at_position, moved_on}
use chabu.Xmit.Deliver.{Ready, Delivered, Stalled, Delivered-nothing, Delivered-trans, same_channel}
use chabu.Xmit.Count.{get_user_data_lem, Counted, count_lem}

module _ {U : Type 0} (cb : Callbacks U) (sent given : U → List ℕ) where
  -- One round of the loop, from what its calls give.
  round_lem :
      (rounds i : ℕ) (w w1 w2 : World U) (b b' : ByteBuffer) (app : U) (n : ℕ) (more : Bool)
      → w.chabu.xmit_seq_remaining_payload ≢ 0
      → xmit_get_user_data cb w ≡ ok w1
      → w1.chabu.xmit_seq_buffer_user ≡ some b
      → (cb.network_xmit_buffer b w1.app ≡ (b', app))
      → remaining b -ℤ remaining b' ≡ pos n
      → after_xmit cb (record w1 { app = app }) i b' (pos n) ≡ ok (more, w2)
      → xmit_payload cb (suc rounds) i w ≡ (if more then xmit_payload cb rounds i w2 else ok w2)
  unfolding xmit_payload
  round_lem rounds i w w1 w2 b b' app n true left e1 hb sends diff e2 =
      simp (ne→== _ 0 left, e1, hb, sends, diff, e2, xmit_payload)
  round_lem rounds i w w1 w2 b b' app n false left e1 hb sends diff e2 =
      simp (ne→== _ 0 left, e1, hb, sends, diff, e2, xmit_payload)

  at_round :
      (rounds i : ℕ) (w w1 : World U) (b : ByteBuffer)
      → w.chabu.xmit_seq_remaining_payload ≢ 0
      → xmit_get_user_data cb w ≡ ok w1
      → w1.chabu.xmit_seq_buffer_user ≡ some b
      → Usable b w1.chabu.xmit_seq_remaining_payload
      → (b' : ByteBuffer) (app : U) → (cb.network_xmit_buffer b w1.app ≡ (b', app))
      → (t : Taken cb sent given b w1.app b' app) → (more : Bool) (w2 : World U)
      → after_xmit cb (record w1 { app = app }) i (moved_on b t.amount) (pos t.amount)
        ≡ ok (more, w2)
      → xmit_payload cb (suc rounds) i w ≡ (if more then xmit_payload cb rounds i w2 else ok w2)
  at_round rounds i w w1 b left e1 hb u b' app sends t more w2 e2 =
      round_lem rounds i w w1 w2 b b' app t.amount more left e1 hb sends
        (ap (λ x. remaining b -ℤ remaining x) t.buffer ∙ taken_lem b t.amount u.valid t.bound)
        (ap (λ x. after_xmit cb (record w1 { app = app }) i x (pos t.amount)) t.buffer ∙ e2)

  -- The loop has ended: the payload is out, or the network takes no more of it.
  abbrev pub Ended : World U → World U → Type 0
  Ended w w' =
      ((out : List ℕ) × Delivered cb sent given w out w')
      × ((w'.chabu.xmit_seq_remaining_payload ≡ 0) ⊎ Stalled cb sent given w')

  -- What the loop does in `rounds` rounds from any state that is ready.
  abbrev Ends : ℕ → ℕ → Type 0
  Ends rounds i =
      (w : World U)
      → w.chabu.xmit_seq_channel ≡ some i
      → w.chabu.xmit_seq_remaining_payload < rounds
      → Ready w.chabu.xmit_seq_buffer_user w.chabu.xmit_seq_remaining_payload
      → Returns (Ended w) (xmit_payload cb rounds i w)

  after_count :
      (rounds i : ℕ) (w w1 : World U) (b : ByteBuffer)
      → Ends rounds i
      → w1.chabu.xmit_seq_channel ≡ some i
      → w.chabu.xmit_seq_remaining_payload ≢ 0
      → w.chabu.xmit_seq_remaining_payload < suc rounds
      → xmit_get_user_data cb w ≡ ok w1
      → Delivered cb sent given w [] w1
      → w1.chabu.xmit_seq_buffer_user ≡ some b
      → Usable b w1.chabu.xmit_seq_remaining_payload
      → (b' : ByteBuffer) (app : U) → (cb.network_xmit_buffer b w1.app ≡ (b', app))
      → (t : Taken cb sent given b w1.app b' app)
      → Returns
          (Counted cb sent given w1 b t.amount app)
          (after_xmit cb (record w1 { app = app }) i (moved_on b t.amount) (pos t.amount))
      → Returns (Ended w) (xmit_payload cb (suc rounds) i w)
  after_count rounds i w w1 b ih ch left enough e1 d1 hb u b' app sends t
        ((more, w2), e2, (d2, inl (go_on, progress))) =
      let gone = length-take-unread b t.amount u.valid t.bound in
      let (w3, e3, ((out, d3), end)) =
        ih w2 (same_channel cb sent given w1 _ w2 d2 ∙ ch)
          (omega (arith, gone, progress, enough, d1.counted, d2.counted)) d2.ready in
      (
        w3,
        at_round rounds i w w1 b left e1 hb u b' app sends t more w2 e2
            ∙ ap (λ m. if m then xmit_payload cb rounds i w2 else ok w2) go_on
            ∙ e3,
        (
          (
            _,
            Delivered-trans cb sent given w [] w1 _ w3 d1
                (Delivered-trans cb sent given w1 _ w2 out w3 d2 d3),
          ),
          end,
        ),
      )
  after_count rounds i w w1 b ih ch left enough e1 d1 hb u b' app sends t
        ((more, w2), e2, (d2, inr (stop_here, none_taken, same, at_app))) =
      (
        w2,
        at_round rounds i w w1 b left e1 hb u b' app sends t more w2 e2
            ∙ ap (λ m. if m then xmit_payload cb rounds i w2 else ok w2) stop_here,
        (
          (_, Delivered-trans cb sent given w [] w1 _ w2 d1 d2),
          inr (
            b,
            w1.app,
            same,
            sends
                ∙ ap (λ x. (x, app)) (t.buffer ∙ ap (at_position b) (omega (arith, none_taken)))
                ∙ ap (λ x. (b, x)) (sym at_app),
          ),
        ),
      )

  after_data :
      IsCarrier cb sent given
      → (rounds i : ℕ) (w : World U) → Ends rounds i
      → w.chabu.xmit_seq_channel ≡ some i
      → w.chabu.xmit_seq_remaining_payload ≢ 0
      → w.chabu.xmit_seq_remaining_payload < suc rounds
      → Returns
          (λ w1.
            Delivered cb sent given w [] w1
            × ((b : ByteBuffer) × (w1.chabu.xmit_seq_buffer_user ≡ some b)
                × Usable b w1.chabu.xmit_seq_remaining_payload))
          (xmit_get_user_data cb w)
      → Returns (Ended w) (xmit_payload cb (suc rounds) i w)
  after_data k rounds i w ih ch left enough (w1, e1, (d1, (b, hb, u))) =
      let t = k.takes b w1.app u.valid in
      after_count rounds i w w1 b ih (same_channel cb sent given w [] w1 d1 ∙ ch) left enough e1 d1
        hb u (cb.network_xmit_buffer b w1.app).0 (cb.network_xmit_buffer b w1.app).1 refl t
        (count_lem cb sent given k w1 i b t.amount (cb.network_xmit_buffer b w1.app).1 hb u t.bound
          t.out t.same)

  -- The loop for the payload of a SEQ packet ends: one round more than there are bytes left is
  -- enough, no `assert` fails and no NULL pointer is met, where the registered functions do as
  -- documented and the buffer that is held is usable. The bytes that went to the network are the next
  -- ones of what the application handed out, in order and without a gap; they are counted; nothing but
  -- the count and the held buffer changes. The payload is out then, or the network has taken nothing
  -- of the held buffer.
  pub xmit_payload-Ended :
      IsCarrier cb sent given
      → (rounds i : ℕ) (w : World U) → w.chabu.xmit_seq_channel ≡ some i
      → w.chabu.xmit_seq_remaining_payload < rounds
      → Ready w.chabu.xmit_seq_buffer_user w.chabu.xmit_seq_remaining_payload
      → Returns (Ended w) (xmit_payload cb rounds i w)
  unfolding xmit_payload
  xmit_payload-Ended k zero i w ch enough r = elim enough [ ]
  xmit_payload-Ended k (suc rounds) i w ch enough r =
      elim (ℕ_discrete w.chabu.xmit_seq_remaining_payload 0) [
        | yes finished ↦ (
          w,
          rw (eq→== _ 0 finished, xmit_payload),
          (([], Delivered-nothing cb sent given w r), inl finished),
        )
        | no some_left ↦
            after_data k rounds i w (xmit_payload-Ended k rounds i) ch some_left enough (
              get_user_data_lem cb sent given k w i w.chabu.xmit_seq_buffer_user refl ch
                (omega arith) r)
      ]
