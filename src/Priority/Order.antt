-- ===== src/Priority/Order.antt =====
-- `popNextRequest` over the levels: the lowest level that has a request is served.
use mathlib.Core.Path.{subst}
use native.Mathlib.Decide.{ℕ_discrete}
use chabu.Prelude.{
  ℕ, zero, suc, ◌+◌, ◌≤◌, ◌<◌, ◌≡◌, refl, sym, ◌∙◌, ap, Option, none, some, List, ◌∷◌, arith,
}
use chabu.Prelude.Int.{ℤ, pos}
use chabu.Run.{ok, Returns}
use chabu.State.{Chabu, PriorityList}
use chabu.Priority.{
  Kind, Entries, list_of, ids_of, entries_of, rounds_of, store, pop_levels, pop_next_request,
}
use chabu.Priority.Select.{Choice, select, Chosen, select-Chosen}
use chabu.Priority.Pop.{Popped, pop-select}
use chabu.Priority.Level.{HasRequests, Touches, list-store, store-Touches, store-HasRequests}

-- The result of a pop that was served at `level`, by what the abstract choice there is.
abbrev pub PoppedAt : Kind → Chabu → ℕ → Choice → Option ℕ × Chabu → Type 0
PoppedAt k c level none (r, c') = (r ≡ none) × (c' ≡ c)
PoppedAt k c level (some (y, rest)) (r, c') =
    (r ≡ some y)
    × HasRequests k c' level rest
    × ((list_of k (c'.priorities level)).last_selected_channel_id ≡ pos y)
    × Touches k level c c'

-- At `level` nothing asks for its turn.
abbrev pub Quiet : Kind → Chabu → ℕ → Type 0
Quiet k c level = (list_of k (c.priorities level)).request ≡ none

pop_levels-Quiet :
    (k : Kind) (c : Chabu) (left level : ℕ)
    → Quiet k c level
    → pop_levels k c (suc left) level ≡ pop_levels k c left (suc level)
unfolding pop_levels
pop_levels-Quiet k c left level e = rw (e, pop_levels)

module _ (k : Kind) (c : Chabu) (target x : ℕ) (xs : List ℕ)
    (has : HasRequests k c target (x ∷ xs)) where
  last : ℤ
  last = (list_of k (c.priorities target)).last_selected_channel_id

  served :
      (left : ℕ) (choice : Choice) (r : Option ℕ) (es : Entries) (l : PriorityList)
      → Chosen c.channel_count (x ∷ xs) choice
      → Popped c.channel_count
          (ids_of c)
          (entries_of k c)
          (list_of k (c.priorities target))
          (x ∷ xs)
          choice
          (r, es, l)
      → Returns (PoppedAt k c target choice) (elim r [
        | some ch ↦ ok (some ch, store k target es l c)
        | none ↦ pop_levels k (store k target es l c) left (suc target)
      ])
  served left none r es l chosen p = absurd (ground arith)
  served left (some (y, rest)) r es l chosen (e, is, seen, _) = rw e (
    (some y, store k target es l c),
    refl,
    (
      refl,
      store-HasRequests c target es l k rest has.exists is,
      ap (λ (q : PriorityList). q.last_selected_channel_id) (list-store c target es l k) ∙ seen,
      store-Touches c target es l k,
    ),
  )

  pop_levels_here :
      (left : ℕ)
      → Returns (PoppedAt k c target (select last (x ∷ xs))) (pop_levels k c (suc left) target)
  unfolding pop_levels last
  pop_levels_here left =
      let ((r, es, l), e, p) = pop-select (x ∷ xs) (rounds_of c) (omega arith) has.requests in
      rw (pop_levels, has.requests.chain.0, e)
        (served left (select last (x ∷ xs)) r es l
          (select-Chosen last c.channel_count (x ∷ xs) has.requests.queue) p)

  pop_levels_first :
      (left level : ℕ)
      → level ≤ target
      → target < level + left
      → ((j : ℕ) → level ≤ j → j < target → Quiet k c j)
      → Returns (PoppedAt k c target (select last (x ∷ xs))) (pop_levels k c left level)
  unfolding last
  pop_levels_first zero level h h' quiet = absurd (omega arith)
  pop_levels_first (suc left) level h h' quiet = elim (ℕ_discrete level target) [
    | yes e ↦
        subst
          (λ i. Returns (PoppedAt k c target (select last (x ∷ xs))) (pop_levels k c (suc left) i))
          (sym e) (pop_levels_here left)
    | no ne ↦
        let (a, e, p) =
          pop_levels_first left (suc level) (omega arith) (omega arith)
            (λ j g g'. quiet j (omega arith) g') in
        (a, pop_levels-Quiet k c left level (quiet level (omega arith) (omega arith)) ∙ e, p)
  ]

-- Where the requests of a level are well-formed and not empty, and no lower level has a request,
-- `popNextRequest` ends without a fault and serves this level: it returns the channel that the
-- abstract choice takes out there, the others stay requested, the number is remembered as the one
-- selected last, and nothing else changes: of the whole state it is list entries of this kind and the
-- list of this kind and level that may differ.
pub pop_next_request-PoppedAt :
    (k : Kind) (c : Chabu) (level x : ℕ) (xs : List ℕ)
    → HasRequests k c level (x ∷ xs)
    → ((j : ℕ) → j < level → Quiet k c j)
    → Returns
        (PoppedAt k c level
          (select (list_of k (c.priorities level)).last_selected_channel_id (x ∷ xs)))
        (pop_next_request k c)
unfolding pop_next_request last
pop_next_request-PoppedAt k c level x xs has quiet =
    pop_levels_first k c level x xs has c.priority_count 0 (omega arith) (omega (arith, has.exists))
      (λ j _ h. quiet j h)

pop_levels-none :
    (k : Kind) (c : Chabu) (left level : ℕ)
    → ((j : ℕ) → j < level + left → Quiet k c j)
    → pop_levels k c left level ≡ ok (none, c)
unfolding pop_levels
pop_levels-none k c zero level quiet = refl
pop_levels-none k c (suc left) level quiet =
    pop_levels-Quiet k c left level (quiet level (omega arith))
    ∙ pop_levels-none k c left (suc level) (λ j h. quiet j (omega arith))

-- Where no level has a request, `popNextRequest` returns NULL and changes nothing.
pub pop_next_request-none :
    (k : Kind) (c : Chabu)
    → ((j : ℕ) → j < c.priority_count → Quiet k c j)
    → pop_next_request k c ≡ ok (none, c)
unfolding pop_next_request
pop_next_request-none k c quiet =
    pop_levels-none k c c.priority_count 0 (λ j h. quiet j (omega arith))
