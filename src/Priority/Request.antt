-- ===== src/Priority/Request.antt =====
-- `setRequest` against the list that it stands for.
use mathlib.Core.Path.{subst}
use native.Mathlib.Decide.{dec_lt, ℕ_discrete}
use chabu.Prelude.{
  ℕ, zero, suc, ◌<◌, ◌≡◌, refl, sym, ◌∙◌, ap, ◌≢◌, Bool, true, false, none, some, List, [], ◌∷◌,
  ltb, ◌==◌, length, arith, lt→ltb, not_lt→ltb, eq→==, ne→==,
}
use native.Mathlib.Nat.{le_refl}
use chabu.State.{PriorityEntry, PriorityList}
use chabu.Run.{ok, Returns}
use chabu.Priority.{Entries, set_next, walk, link, insert_behind, set_request}
use chabu.Priority.Walk.{IsLinked, id-ch, walk_end, walk_on, walk_stop}
use chabu.Priority.Chain.{
  request_head, request_other, insert_nil, insert_lt, insert_eq, insert_gt, Seg, NotIn,
  IsRequestList, Ascends, insert, request, Seg-frame, NotIn-of_lt, length-Ascends, request-IsQueue,
}

-- The entries after an insertion of `c` somewhere behind `it`.
record Inserted (es es' : Entries) (c it : ℕ) (ys zs : List ℕ) : Type 0 where
  chain : Seg es' (es' it).next zs
  same : (j : ℕ) → j ≢ c → NotIn j (it ∷ ys) → es' j ≡ es j
  own : (j : ℕ) → (es' j).ch ≡ (es j).ch

link-Inserted :
    (es : Entries) (c it : ℕ) (ys : List ℕ)
    → it ≢ c
    → NotIn it ys
    → NotIn c ys
    → Seg es (es it).next ys
    → Inserted es (link es c it) c it ys (c ∷ ys)
unfolding link
link-Inserted es c it ys ne out out' s = record {
  chain = (
    ground arith,
    subst (λ q. Seg (link es c it) q ys) (sym next)
        (Seg-frame (set_next es c (es it).next) it _ (es it).next ys out
          (Seg-frame es c _ (es it).next ys out' s)),
  );
  same = λ j h (h', _). ground arith;
  own = λ j. ground arith;
}
  where
    next : (link es c it c).next ≡ (es it).next
    next = ground arith

module _ {ids : ℕ → ℕ} {es : Entries} (linked : IsLinked ids es) (c n : ℕ) where
  -- Where the next entry is there already, or comes later, the walk ends.
  insert_here :
      (it low : ℕ) (ys : List ℕ)
      → it ≢ c
      → NotIn it ys
      → c < low
      → Ascends low n ys
      → Seg es (es it).next ys
      → Inserted es (insert_behind es c it) c it ys (c ∷ ys)
  unfolding insert_behind
  insert_here it low [] ne out lt a s = rw (s, insert_behind) (link-Inserted es c it [] ne out tt s)
  insert_here it low (y ∷ ys) ne out lt (le, below, a) (e, s) =
      let other : ((es y).ch == (es c).ch) ≡ false =
        ne→== _ _ (omega (arith, linked.own y, linked.own c)) in
      rw (e, insert_behind, other)
        (link-Inserted es c it (y ∷ ys) ne out
          (omega arith, NotIn-of_lt c (suc y) n ys (omega arith) a) (e, s))

  -- The entry is there already: nothing changes.
  insert_known :
      (it y : ℕ) (ys : List ℕ)
      → y ≡ c
      → (es it).next ≡ some y
      → Seg es (es y).next ys
      → Inserted es (insert_behind es c it) c it (y ∷ ys) (y ∷ ys)
  unfolding insert_behind
  insert_known it y ys q e s =
      let same : ((es y).ch == (es c).ch) ≡ true =
        eq→== _ _ (omega (arith, linked.own y, linked.own c, q)) in
      rw (e, insert_behind, same)
        (record { chain = (e, s); same = λ j h out. refl; own = λ j. refl })

  -- The entry comes somewhere behind the next one.
  insert_later :
      (it it' y : ℕ) (ys : List ℕ)
      → it ≢ c
      → it ≢ y
      → NotIn it ys
      → (es it).next ≡ some y
      → Inserted es (insert_behind es c it') c y ys (insert c ys)
      → Inserted es (insert_behind es c it') c it (y ∷ ys) (y ∷ insert c ys)
  insert_later it it' y ys ne ne' out e i = record {
    chain = (ap (λ (q : PriorityEntry). q.next) (i.same it ne (ne', out)) ∙ e, i.chain);
    same = λ j h (_, o). i.same j h o;
    own = i.own;
  }

  below : ℕ → Bool
  below id = ltb id c

  insert-walk :
      (rounds it low : ℕ) (ys : List ℕ)
      → it ≢ c
      → NotIn it ys
      → Ascends low n ys
      → length ys < rounds
      → Seg es (es it).next ys
      → Returns
          (λ it'. Inserted es (insert_behind es c it') c it ys (insert c ys))
          (walk ids (λ id. ltb id c) rounds es it)
  unfolding below
  insert-walk zero it low ys ne out a h s = absurd (omega arith)
  insert-walk (suc rounds) it low [] ne out a h s = (
    it,
    walk_end linked below rounds it s,
    rw (insert_nil c) (insert_here it (suc c) [] ne out (omega arith) tt s),
  )
  insert-walk (suc rounds) it low (y ∷ ys) ne (ne', out) (le, lt, a) h (e, s) = elim (dec_lt y c) [
    | yes p ↦
        let (it', w, i) =
          insert-walk rounds y (suc y) ys (omega arith) (NotIn-of_lt y (suc y) n ys (omega arith) a)
            a (omega arith) s in
        (
          it',
          walk_on linked below rounds it y e (lt→ltb y c p) ∙ w,
          rw (insert_lt c y ys p) (insert_later it it' y ys ne ne' out e i),
        )
    | no p ↦ (
      it,
      walk_stop linked below rounds it y e (not_lt→ltb y c p),
      elim (ℕ_discrete y c) [
        | yes q ↦ rw (insert_eq c y ys q) (insert_known it y ys q e s)
        | no q ↦
            rw (insert_gt c y ys (omega arith))
              (insert_here it y (y ∷ ys) ne (ne', out) (omega arith) (le_refl y, lt, a) (e, s))
      ],
    )
  ]

-- What `setRequest` does to a list: the abstract request, and nothing to other entries.
abbrev pub Requested :
    ℕ → (ℕ → ℕ) → Entries → PriorityList → List ℕ → ℕ → Entries × PriorityList → Type 0
Requested n ids es l xs c (es', l') =
    IsRequestList n ids es' l' (request c xs)
    × (l'.last_selected_channel_id ≡ l.last_selected_channel_id)
    × ((j : ℕ) → j ≢ c → NotIn j xs → es' j ≡ es j)

set_request_nil :
    {n : ℕ} {ids : ℕ → ℕ} {es : Entries} {l : PriorityList} (rounds c : ℕ)
    → c < n
    → (es c).next ≡ none
    → IsRequestList n ids es l []
    → Returns (Requested n ids es l [] c) (set_request ids rounds es c l)
unfolding set_request request
set_request_nil {es} {l} rounds c lt idle is = (
  (es, record l { request = some c }),
  rw (is.chain, set_request),
  (record { linked = is.linked; queue = (lt, tt, tt); chain = (refl, idle) }, refl, λ j h o. refl),
)

set_request_cons :
    {n : ℕ} {ids : ℕ → ℕ} {es : Entries} {l : PriorityList} {x : ℕ} {xs : List ℕ} (rounds c : ℕ)
    → c < n
    → n < rounds
    → IsRequestList n ids es l (x ∷ xs)
    → Returns (Requested n ids es l (x ∷ xs) c) (set_request ids rounds es c l)
unfolding set_request
set_request_cons {n} {ids} {es} {l} {x} {xs} rounds c lt enough is = elim (ℕ_discrete x c) [
  | yes e ↦ ((es, l), head (eq→== x c e), rw (request_head c x xs e) (is, refl, λ j h o. refl))
  | no ne ↦
      let (it, w, i) =
        insert-walk is.linked c n rounds x 0 xs ne is.queue.1 is.queue.2 short is.chain.1 in
      (
        (insert_behind es c it, l),
        tail (ne→== x c ne) it w,
        (
          record {
            linked = record { own = λ j. i.own j ∙ is.linked.own j; numbered = is.linked.numbered };
            queue = request-IsQueue c n (x ∷ xs) lt is.queue;
            chain = rw (request_other c x xs ne) (is.chain.0, i.chain);
          },
          refl,
          i.same,
        ),
      )
]
  where
    short : length xs < rounds
    short = omega (arith, length-Ascends 0 n xs is.queue.2 (omega arith))

    tail :
        (x == c) ≡ false
        → (it : ℕ) → walk ids (λ id. ltb id c) rounds es x ≡ ok it
        → set_request ids rounds es c l ≡ ok (insert_behind es c it, l)
    tail e it w = simp (is.chain.0, set_request, e, id-ch is.linked c, w)

    head : (x == c) ≡ true → set_request ids rounds es c l ≡ ok (es, l)
    head e = simp (is.chain.0, set_request, e)

-- `setRequest` for channel `c` on a well-formed list of `n` channels ends within `n + 1` rounds
-- without a fault. It leaves a well-formed list that stands for the abstract request: `c` is in it
-- once, and every number that was in it stays. The number selected last and the entries outside of
-- the list are kept. On an empty list this takes that the entry of `c` is not linked any more.
pub set_request-request :
    {n : ℕ} {ids : ℕ → ℕ} {es : Entries} {l : PriorityList} (xs : List ℕ) (rounds c : ℕ)
    → c < n
    → n < rounds
    → (xs ≡ [] → (es c).next ≡ none)
    → IsRequestList n ids es l xs
    → Returns (Requested n ids es l xs c) (set_request ids rounds es c l)
set_request-request [] rounds c lt enough idle is = set_request_nil rounds c lt (idle refl) is
set_request-request (x ∷ xs) rounds c lt enough idle is = set_request_cons rounds c lt enough is
