-- ===== src/Priority/Pop.antt =====
-- `popNextRequestForLevel` against the choice out of the list.
use mathlib.Core.Path.{subst}
use chabu.Prelude.{
  ℕ, zero, suc, ◌<◌, ◌≡◌, refl, sym, ◌∙◌, ap, ◌≢◌, inl, inr, Bool, true, false, Option, none, some,
  List, [], ◌∷◌, ◌||◌, length, arith, Bool-cases,
}
use chabu.Prelude.Int.{ℤ, pos, ltb_ℤ, leb_ℤ}
use chabu.State.{PriorityEntry, PriorityList}
use chabu.Run.{Returns}
use chabu.Priority.{
  Entries, set_next, walk, take_entry, take_first, take_behind, is_none, pop_next_request_for_level,
}
use chabu.Priority.Walk.{IsLinked, id-ch, walk_end, walk_on, walk_stop}
use chabu.Priority.Chain.{
  Seg, NotIn, IsRequestList, Ascends, Seg-frame, NotIn-of_lt, length-Ascends,
}
use chabu.Priority.Select.{
  Choice, keep, first_above, is_empty, or_head, select, Keeps, first_above-Keeps, IsQueue-Ascends,
}

-- `it->next = resEntry->next; resEntry->next = NULL;`
unlink : Entries → (it y : ℕ) → Entries
unlink es it y = set_next (set_next es it (es y).next) y none

record Unlinked (es es' : Entries) (it : ℕ) (ys : List ℕ) (y : ℕ) (rest : List ℕ) : Type 0 where
  chain : Seg es' (es' it).next rest
  same : (j : ℕ) → NotIn j (it ∷ ys) → es' j ≡ es j
  own : (j : ℕ) → (es' j).ch ≡ (es j).ch

leb_of_not_ltb : (s : ℤ) (y : ℕ) → ltb_ℤ s (pos y) ≡ false → leb_ℤ (pos y) s ≡ true
leb_of_not_ltb s y h = ground arith

not_leb_of_ltb : (s : ℤ) (y : ℕ) → ltb_ℤ s (pos y) ≡ true → leb_ℤ (pos y) s ≡ false
not_leb_of_ltb s y h = ground arith

unlink_lem :
    (es : Entries) (it y : ℕ) (ys : List ℕ)
    → it ≢ y
    → NotIn it ys
    → NotIn y ys
    → Seg es (es y).next ys
    → Unlinked es (unlink es it y) it (y ∷ ys) y ys
unfolding unlink
unlink_lem es it y ys ne out out' s = record {
  chain =
      subst (λ q. Seg (unlink es it y) q ys) (sym next)
        (Seg-frame (set_next es it (es y).next) y _ (es y).next ys out'
          (Seg-frame es it _ (es y).next ys out s));
  same = λ j (h, (h', _)). ground arith;
  own = λ j. ground arith;
}
  where
    next : (unlink es it y it).next ≡ (es y).next
    next = ground arith

-- Where the walk ends, by what the choice is.
abbrev Ends : ℤ → Entries → ℕ → List ℕ → ℕ → Choice → Type 0
Ends s es it ys it' none = (es it').next ≡ none
Ends s es it ys it' (some (y, rest)) =
    ((es it').next ≡ some y) × (ltb_ℤ s (pos y) ≡ true) × Unlinked es (unlink es it' y) it ys y rest

module _ {ids : ℕ → ℕ} {es : Entries} (linked : IsLinked ids es) (s : ℤ) (n : ℕ) where
  up_to : ℕ → Bool
  up_to id = leb_ℤ (pos id) s

  keep-Ends :
      (it it' y : ℕ) (ys : List ℕ) (r : Choice)
      → NotIn it (y ∷ ys)
      → (es it).next ≡ some y
      → Ends s es y ys it' r
      → Ends s es it (y ∷ ys) it' (keep y r)
  keep-Ends it it' y ys none out e h = h
  keep-Ends it it' y ys (some (z, rest)) out e (h, t, u) = (
    h,
    t,
    record {
      chain = (ap (λ (q : PriorityEntry). q.next) (u.same it out) ∙ e, u.chain);
      same = λ j (_, o). u.same j o;
      own = u.own;
    },
  )

  pop_walk :
      (rounds it low : ℕ) (ys : List ℕ)
      → NotIn it ys
      → Ascends low n ys
      → length ys < rounds
      → Seg es (es it).next ys
      → Returns
          (λ it'. Ends s es it ys it' (first_above s ys))
          (walk ids (λ id. leb_ℤ (pos id) s) rounds es it)
  unfolding first_above up_to
  pop_walk zero it low ys out a h c = absurd (omega arith)
  pop_walk (suc rounds) it low [] out a h c = (it, walk_end linked up_to rounds it c, c)
  pop_walk (suc rounds) it low (y ∷ ys) (ne, out) (le, lt, a) h (e, c) =
      elim (Bool-cases (ltb_ℤ s (pos y))) [
        | inl t ↦ (
          it,
          walk_stop linked up_to rounds it y e (not_leb_of_ltb s y t),
          rw t (e, t, unlink_lem es it y ys ne out (NotIn-of_lt y (suc y) n ys (omega arith) a) c),
        )
        | inr t ↦
            let (it', w, i) =
              pop_walk rounds y (suc y) ys (NotIn-of_lt y (suc y) n ys (omega arith) a) a
                (omega arith) c in
            (
              it',
              walk_on linked up_to rounds it y e (leb_of_not_ltb s y t) ∙ w,
              rw t (keep-Ends it it' y ys (first_above s ys) (ne, out) e i),
            )
      ]

-- The result of a pop from the list `xs`, by what the abstract choice is.
abbrev pub Popped :
    ℕ
    → (ℕ → ℕ)
    → Entries
    → PriorityList
    → List ℕ
    → Choice
    → Option ℕ × Entries × PriorityList
    → Type 0
Popped n ids es l xs none (r, es', l') = (r ≡ none) × (es' ≡ es) × (l' ≡ l)
Popped n ids es l xs (some (y, rest)) (r, es', l') =
    (r ≡ some y)
    × IsRequestList n ids es' l' rest
    × (l'.last_selected_channel_id ≡ pos y)
    × ((j : ℕ) → NotIn j xs → es' j ≡ es j)

module _ {n : ℕ} {ids : ℕ → ℕ} {es : Entries} {l : PriorityList} {x : ℕ} {xs : List ℕ}
    (is : IsRequestList n ids es l (x ∷ xs)) where
  -- Where the head is taken, the rest is what stands behind it.
  take_head :
      (es' : Entries)
      → ((j : ℕ) → (es' j).ch ≡ (es j).ch)
      → ((j : ℕ) → NotIn j (x ∷ xs) → es' j ≡ es j)
      → Seg es' (es x).next xs
      → Popped n ids es l
          (x ∷ xs)
          (some (x, xs))
          (take_entry ids es' x (record l { request = (es x).next }))
  unfolding take_entry
  take_head es' own same chain = (
    ap some (own x ∙ is.linked.own x),
    record {
      linked = record { own = λ j. own j ∙ is.linked.own j; numbered = is.linked.numbered };
      queue = IsQueue-Ascends n xs is.queue.2;
      chain = chain;
    },
    ap (λ k. pos (ids k)) (own x) ∙ ap pos (id-ch is.linked x),
    same,
  )

  first_taken : Popped n ids es l (x ∷ xs) (some (x, xs)) (take_first ids es x l)
  unfolding take_first
  first_taken =
      take_head (set_next es x none) (λ j. ground arith) (λ j (h, _). ground arith)
        (Seg-frame es x _ (es x).next xs is.queue.1 is.chain.1)

  behind_taken :
      (it : ℕ) (r : Choice)
      → Keeps 0 n xs r
      → Ends l.last_selected_channel_id es x xs it r
      → Popped n ids es l (x ∷ xs) (or_head x xs r) (take_behind ids es x it l)
  unfolding take_behind take_entry unlink
  behind_taken it none k e = simp (e, take_behind) first_taken
  behind_taken it (some (y, rest)) (le, lt, a, out, same) (e, above, u) =
      let found : ltb_ℤ l.last_selected_channel_id (pos (ids (es y).ch)) ≡ true =
        rw (id-ch is.linked y) above in
      simp (e, take_behind, found)
        (
          ap some (u.own y ∙ is.linked.own y),
          record {
            linked = record { own = λ j. u.own j ∙ is.linked.own j; numbered = is.linked.numbered };
            queue = (is.queue.0, ((same x).0 is.queue.1).1, a);
            chain = (is.chain.0, u.chain);
          },
          ap (λ k. pos (ids k)) (u.own y) ∙ ap pos (id-ch is.linked y),
          u.same,
        )

  pop_cons :
      (rounds : ℕ)
      → n < rounds
      → Returns
          (Popped n ids es l (x ∷ xs) (select l.last_selected_channel_id (x ∷ xs)))
          (pop_next_request_for_level ids rounds es l)
  unfolding select pop_next_request_for_level
  pop_cons rounds enough = elim (Bool-cases (is_empty xs || ltb_ℤ last (pos x))) [
    | inl t ↦ (
      take_entry ids es x (record l { request = (es x).next }),
      simp (is.chain.0, pop_next_request_for_level, empty xs is.chain.1, id-ch is.linked x, t),
      rw t (take_head es (λ j. refl) (λ j h. refl) is.chain.1),
    )
    | inr t ↦
        let (it, w, e) =
          pop_walk is.linked last n rounds x 0 xs is.queue.1 is.queue.2 short is.chain.1 in
        (
          take_behind ids es x it l,
          simp (
            is.chain.0,
            pop_next_request_for_level,
            empty xs is.chain.1,
            id-ch is.linked x,
            t,
            w,
          ),
          rw t (behind_taken it (first_above last xs) (first_above-Keeps last 0 n xs is.queue.2) e),
        )
  ]
    where
      last : ℤ
      last = l.last_selected_channel_id

      short : length xs < rounds
      short = omega (arith, length-Ascends 0 n xs is.queue.2 (omega arith))

      empty : (ys : List ℕ) → Seg es (es x).next ys → is_none (es x).next ≡ is_empty ys
      empty [] s = ap is_none s
      empty (y ∷ ys) s = ap is_none s.0

-- `popNextRequestForLevel` on a well-formed list of `n` channels ends within `n + 1` rounds without
-- a fault. It returns the channel that the abstract choice takes out of the list, NULL exactly on
-- the empty list; it leaves a well-formed list of the others, remembers the number as the one
-- selected last, and keeps the entries outside of the list.
pub pop-select :
    {n : ℕ} {ids : ℕ → ℕ} {es : Entries} {l : PriorityList} (xs : List ℕ) (rounds : ℕ)
    → n < rounds
    → IsRequestList n ids es l xs
    → Returns
        (Popped n ids es l xs (select l.last_selected_channel_id xs))
        (pop_next_request_for_level ids rounds es l)
unfolding select pop_next_request_for_level
pop-select {es} {l} [] rounds enough is =
    ((none, es, l), simp (is.chain, pop_next_request_for_level), (refl, refl, refl))
pop-select (x ∷ xs) rounds enough is = pop_cons is rounds enough
