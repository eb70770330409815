-- ===== src/Xmit/Deliver.antt =====
-- c/org.chabu/src/Chabu.c: the payload of a SEQ packet on its way out, in `writePendingXmitData`.
use mathlib.Core.Path.{subst}
use chabu.Prelude.{
  ℕ, ◌+◌, ◌-◌, ◌≤◌, ◌≡◌, refl, sym, ◌∙◌, ap, Option, none, some, List, [], ◌++◌, append_assoc,
  append-nil, arith, length, take, length-append,
}
use chabu.Buffer.{ByteBuffer}
use chabu.State.{Chabu}
use chabu.World.{World, Callbacks}
use chabu.Xmit.Carrier.{unread, held, Usable}
use chabu.Xmit.Unread.{length-take-unread, unread-position, moved_on}

-- The buffer of the application that the library holds, if there is one, is usable.
abbrev pub Ready : Option ByteBuffer → ℕ → Type 0
Ready none most = Unit {0}
Ready (some b) most = Usable b most

pub Ready_at :
    (o' : Option ByteBuffer) (n' : ℕ) (o : Option ByteBuffer) (n : ℕ)
    → o' ≡ o
    → n' ≡ n
    → Ready o n
    → Ready o' n'
Ready_at o' n' o n e f r = subst (λ x. Ready x n') (sym e) (subst (Ready o) (sym f) r)

module _ {U : Type 0} (cb : Callbacks U) (sent given : U → List ℕ) where
  -- The bytes `out` of a payload have left: they are counted, they are the first of those that the
  -- library held and was handed since, and nothing but the count and the held buffer has changed.
  pub record Delivered (w : World U) (out : List ℕ) (w' : World U) : Type 0 where
    pub fresh : List ℕ
    pub counted :
        length out + w'.chabu.xmit_seq_remaining_payload ≡ w.chabu.xmit_seq_remaining_payload
    pub went : sent w'.app ≡ sent w.app ++ out
    pub came : given w'.app ≡ given w.app ++ fresh
    pub in_order :
        held w.chabu.xmit_seq_buffer_user ++ fresh ≡ out ++ held w'.chabu.xmit_seq_buffer_user
    pub ready : Ready w'.chabu.xmit_seq_buffer_user w'.chabu.xmit_seq_remaining_payload
    pub rest : w'.chabu ≡ record (w.chabu) {
      xmit_seq_remaining_payload = w'.chabu.xmit_seq_remaining_payload;
      xmit_seq_buffer_user = w'.chabu.xmit_seq_buffer_user;
    }

  -- The network has taken nothing of the buffer that the library holds.
  abbrev pub Stalled : World U → Type 0
  Stalled w' =
      (b : ByteBuffer) × (u : U) × (w'.chabu.xmit_seq_buffer_user ≡ some b)
      × (cb.network_xmit_buffer b u ≡ (b, w'.app))

  pub Delivered-nothing :
      (w : World U)
      → Ready w.chabu.xmit_seq_buffer_user w.chabu.xmit_seq_remaining_payload
      → Delivered w [] w
  Delivered-nothing w r = record {
    fresh = [];
    counted = omega arith;
    went = sym (append-nil _);
    came = sym (append-nil _);
    in_order = append-nil _;
    ready = r;
    rest = refl;
  }

  pub Delivered-trans :
      (w : World U) (out : List ℕ) (w1 : World U) (out1 : List ℕ) (w2 : World U)
      → Delivered w out w1
      → Delivered w1 out1 w2
      → Delivered w (out ++ out1) w2
  Delivered-trans w out w1 out1 w2 d e =
      let set_last : Chabu → Chabu = λ c. record c {
        xmit_seq_remaining_payload = w2.chabu.xmit_seq_remaining_payload;
        xmit_seq_buffer_user = w2.chabu.xmit_seq_buffer_user;
      } in
      record {
        fresh = d.fresh ++ e.fresh;
        counted = omega (arith, length-append out out1, d.counted, e.counted);
        went = e.went ∙ ap (λ l. l ++ out1) d.went ∙ append_assoc (sent w.app) out out1;
        came = e.came ∙ ap (λ l. l ++ e.fresh) d.came ∙ append_assoc (given w.app) d.fresh e.fresh;
        in_order =
            sym (append_assoc (held w.chabu.xmit_seq_buffer_user) d.fresh e.fresh)
            ∙ ap (λ l. l ++ e.fresh) d.in_order
            ∙ append_assoc out (held w1.chabu.xmit_seq_buffer_user) e.fresh
            ∙ ap (λ l. out ++ l) e.in_order
            ∙ sym (append_assoc out out1 (held w2.chabu.xmit_seq_buffer_user));
        ready = e.ready;
        rest = e.rest ∙ ap set_last d.rest;
      }

  pub deliver_lem :
      (w : World U) (b : ByteBuffer) (n : ℕ) (o : Option ByteBuffer) (w' : World U)
      → w.chabu.xmit_seq_buffer_user ≡ some b
      → Usable b w.chabu.xmit_seq_remaining_payload
      → n ≤ b.limit - b.position
      → held o ≡ unread (moved_on b n)
      → Ready o (w.chabu.xmit_seq_remaining_payload - n)
      → w'.chabu ≡ record (w.chabu) {
        xmit_seq_remaining_payload = w.chabu.xmit_seq_remaining_payload - n;
        xmit_seq_buffer_user = o;
      }
      → sent w'.app ≡ sent w.app ++ take n (unread b)
      → given w'.app ≡ given w.app
      → Delivered w (take n (unread b)) w'
  deliver_lem w b n o w' held_one u bound rest ready e went same =
      let left : w'.chabu.xmit_seq_remaining_payload ≡ w.chabu.xmit_seq_remaining_payload - n =
        ap (λ (c : Chabu). c.xmit_seq_remaining_payload) e in
      let user : w'.chabu.xmit_seq_buffer_user ≡ o = ap (λ (c : Chabu). c.xmit_seq_buffer_user) e in
      let last_of : Chabu → Chabu = λ c. record (w.chabu) {
        xmit_seq_remaining_payload = c.xmit_seq_remaining_payload;
        xmit_seq_buffer_user = c.xmit_seq_buffer_user;
      } in
      record {
        fresh = [];
        counted = omega (arith, length-take-unread b n u.valid bound, left, u.short);
        went = went;
        came = same ∙ sym (append-nil _);
        in_order =
            append-nil _
            ∙ ap held held_one
            ∙ sym (unread-position b n bound)
            ∙ ap (λ l. take n (unread b) ++ l) (sym rest ∙ ap held (sym user));
        ready = Ready_at _ _ o (w.chabu.xmit_seq_remaining_payload - n) user left ready;
        rest = e ∙ ap last_of (sym e);
      }

  -- The channel that sends stays the same.
  pub same_channel :
      (w : World U) (out : List ℕ) (w' : World U)
      → Delivered w out w'
      → w'.chabu.xmit_seq_channel ≡ w.chabu.xmit_seq_channel
  same_channel w out w' d = ap (λ (c : Chabu). c.xmit_seq_channel) d.rest
