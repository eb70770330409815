-- ===== src/Priority/Tangle.antt =====
-- Entries that keep their `next` when they leave the list can be linked into a ring, on which the
-- loops of c/org.chabu/src/ChabuPriorities.c never end.
use chabu.Prelude.{
  ℕ, zero, suc, ◌<◌, ◌≡◌, refl, ◌≢◌, ◌⊎◌, inl, inr, ne→==, not_lt→ltb, Bool, true, false, Option,
  none, some, ltb, ◌||◌, arith,
}
use chabu.Prelude.Int.{ℤ, pos, negsuc, ltb_ℤ, leb_ℤ}
use chabu.State.{PriorityList}
use chabu.Run.{Run, ok, fault, no_rounds_left, ◌>>=◌, Returns}
use chabu.Priority.{
  Entries, is_none, set_next, link, insert_behind, walk, set_request, take_behind, take_entry,
  pop_next_request_for_level,
}
use chabu.Priority.Stale.{fresh_entries, fresh_list, plain_ids}

-- Three channels ask for turns and are served.
unfoldable pub tangle : ℕ → (x y z : ℕ) → Run (Entries × PriorityList)
unfolding set_request pop_next_request_for_level
tangle rounds x y z = do
  (es, l) ← set_request plain_ids rounds fresh_entries x fresh_list
  (es, l) ← set_request plain_ids rounds es z l
  (_, es, l) ← pop_next_request_for_level plain_ids rounds es l
  (es, l) ← set_request plain_ids rounds es y l
  (_, es, l) ← pop_next_request_for_level plain_ids rounds es l
  (_, es, l) ← pop_next_request_for_level plain_ids rounds es l
  (es, l) ← set_request plain_ids rounds es x l
  (es, l) ← set_request plain_ids rounds es y l
  (_, es, l) ← pop_next_request_for_level plain_ids rounds es l
  ok (es, l)

abbrev at : Option ℕ → ℤ → PriorityList
at first last = record { request = first; last_selected_channel_id = last }

-- The neighbours of three entries.
record Knows (x y z : ℕ) (es : Entries) (a b c : Option ℕ) : Type 0 where
  own : (j : ℕ) → (es j).ch ≡ j
  at_x : (es x).next ≡ a
  at_y : (es y).next ≡ b
  at_z : (es z).next ≡ c

-- A channel is put behind the first one, where the next one has a larger number or there is none.
behind :
    (rounds : ℕ) (es : Entries) (x e : ℕ) (last : ℤ)
    → ((j : ℕ) → (es j).ch ≡ j)
    → x ≢ e
    → ((es x).next ≡ none) ⊎ ((n : ℕ) × ((es x).next ≡ some n) × e < n)
    → set_request plain_ids (suc rounds) es e (at (some x) last)
      ≡ ok (link es e x, at (some x) last)
unfolding set_request walk insert_behind
behind rounds es x e last own ne (inl none_next) =
    simp (ne→== x e ne, none_next, set_request, walk, insert_behind)
behind rounds es x e last own ne (inr (n, f, lt)) = simp (
  ne→== x e ne,
  f,
  own,
  not_lt→ltb n e (omega arith),
  ne→== n e (omega arith),
  set_request,
  walk,
  insert_behind,
)

-- The first one is taken off, and keeps its `next`.
taken :
    (rounds : ℕ) (es : Entries) (x : ℕ) (last : ℤ) (q : Option ℕ)
    → ((j : ℕ) → (es j).ch ≡ j)
    → (es x).next ≡ q
    → (is_none q || ltb_ℤ last (pos x)) ≡ true
    → pop_next_request_for_level plain_ids rounds es (at (some x) last)
      ≡ ok (some x, es, at q (pos x))
unfolding pop_next_request_for_level take_entry
taken rounds es x last q own e h = simp (e, own, h, pop_next_request_for_level, take_entry)

-- The third one is taken out from behind the second one.
unlink : Entries → (y z : ℕ) → Entries
unlink es y z = set_next (set_next es y (es z).next) z none

taken_behind :
    (rounds : ℕ) (es : Entries) (x y z : ℕ)
    → x < y
    → y < z
    → Knows x y z es (some y) (some z) (some y)
    → pop_next_request_for_level plain_ids (suc (suc rounds)) es (at (some x) (pos y))
      ≡ ok (some z, unlink es y z, at (some x) (pos z))
unfolding pop_next_request_for_level take_entry take_behind walk unlink
taken_behind rounds es x y z h g k = ground (arith, h, g, k.at_x, k.at_y, k.own x, k.own y, k.own z)

first_in :
    (rounds : ℕ) (es : Entries) (x : ℕ) (last : ℤ)
    → set_request plain_ids rounds es x (at none last) ≡ ok (es, at (some x) last)
unfolding set_request
first_in rounds es x last = refl

Knows-fresh : (x y z : ℕ) → Knows x y z fresh_entries none none none
Knows-fresh x y z = record { own = λ j. refl; at_x = refl; at_y = refl; at_z = refl }

link_own : (es : Entries) (e it : ℕ) → ((j : ℕ) → (es j).ch ≡ j) → (j : ℕ) → (link es e it j).ch ≡ j
unfolding link
link_own es e it own j = ground (arith, own j)

module _ (x y z : ℕ) (h : x < y) (g : y < z) where
  -- `z` behind `x`
  known_1 : Knows x y z (link fresh_entries z x) (some z) none none
  unfolding link
  known_1 = record {
    own = link_own fresh_entries z x (λ j. refl);
    at_x = ground arith;
    at_y = ground arith;
    at_z = ground arith;
  }

  -- `y` behind `z`
  known_2 :
      (es : Entries)
      → Knows x y z es (some z) none none
      → Knows x y z (link es y z) (some z) none (some y)
  unfolding link
  known_2 es k = record {
    own = link_own es y z k.own;
    at_x = ground (arith, k.at_x);
    at_y = ground (arith, k.at_z);
    at_z = ground arith;
  }

  -- `y` behind `x`
  known_3 :
      (es : Entries)
      → Knows x y z es (some z) none (some y)
      → Knows x y z (link es y x) (some y) (some z) (some y)
  unfolding link
  known_3 es k = record {
    own = link_own es y x k.own;
    at_x = ground arith;
    at_y = ground (arith, k.at_x);
    at_z = ground (arith, k.at_z);
  }

  known_4 :
      (es : Entries)
      → Knows x y z es (some y) (some z) (some y)
      → Knows x y z (unlink es y z) (some y) (some y) none
  unfolding unlink
  known_4 es k = record {
    own = λ j. ground (arith, k.own j);
    at_x = ground (arith, k.at_x);
    at_y = ground (arith, k.at_z);
    at_z = ground arith;
  }

-- `y` is its own neighbour, behind the first one.
record IsRing (x y z : ℕ) (es : Entries) (l : PriorityList) : Type 0 where
  known : Knows x y z es (some y) (some y) none
  list : l ≡ at (some x) (pos z)

walk_ring :
    (skip : ℕ → Bool) (rounds : ℕ) (es : Entries) (y it : ℕ)
    → (es y).ch ≡ y
    → (es y).next ≡ some y
    → (es it).next ≡ some y
    → skip y ≡ true
    → walk plain_ids skip rounds es it ≡ fault no_rounds_left
unfolding walk
walk_ring skip zero es y it own e f t = refl
walk_ring skip (suc rounds) es y it own e f t =
    simp (f, own, t, walk) (walk_ring skip rounds es y y own e e t)

-- The ring is never left.
pop_ring :
    (rounds x y z : ℕ) (es : Entries) (l : PriorityList)
    → x < y
    → y < z
    → IsRing x y z es l
    → pop_next_request_for_level plain_ids rounds es l ≡ fault no_rounds_left
unfolding pop_next_request_for_level
pop_ring rounds x y z es l h g r =
    let k = r.known in
    let w =
      walk_ring (λ id. leb_ℤ (pos id) (pos z)) rounds es y x (k.own y) k.at_y k.at_x
        (ground arith) in
    let second : (is_none (es x).next || ltb_ℤ (pos z) (pos x)) ≡ false = ground (arith, k.at_x) in
    simp (r.list, k.own, second, pop_next_request_for_level, w)

request_ring :
    (rounds x y z w : ℕ) (es : Entries) (l : PriorityList)
    → x < y
    → y < w
    → IsRing x y z es l
    → set_request plain_ids rounds es w l ≡ fault no_rounds_left
unfolding set_request
request_ring rounds x y z w es l h g r =
    let k = r.known in
    let e =
      walk_ring (λ id. ltb id (plain_ids (es w).ch)) rounds es y x (k.own y) k.at_y k.at_x
        (ground (arith, k.own w)) in
    simp (r.list, ne→== x w (omega arith), set_request, e)

tangle-IsRing :
    (rounds x y z : ℕ)
    → x < y
    → y < z
    → Returns (λ (es, l). IsRing x y z es l) (tangle (suc (suc rounds)) x y z)
unfolding tangle
tangle-IsRing rounds x y z h g =
    let more = suc rounds in
    let e1 = link fresh_entries z x in
    let e2 = link e1 y z in
    let e3 = link e2 y x in
    let k1 = known_1 x y z h g in
    let k2 = known_2 x y z h g e1 k1 in
    let k3 = known_3 x y z h g e2 k2 in
    let s1 = behind more fresh_entries x z (negsuc 0) (λ j. refl) (omega arith) (inl refl) in
    let s2 = taken (suc more) e1 x (negsuc 0) (some z) k1.own k1.at_x (ground arith) in
    let s3 = behind more e1 z y (pos x) k1.own (omega arith) (inl k1.at_z) in
    let s4 = taken (suc more) e2 z (pos x) (some y) k2.own k2.at_z (ground arith) in
    let s5 = taken (suc more) e2 y (pos z) none k2.own k2.at_y refl in
    let s6 = behind more e2 x y (pos y) k2.own (omega arith) (inr (z, k2.at_x, g)) in
    let s7 = taken_behind rounds e3 x y z h g k3 in
    (
      (unlink e3 y z, at (some x) (pos z)),
      simp (s1, s2, s3, s4, s5, s6, s7, tangle, first_in),
      record { known = known_4 x y z h g e3 k3; list = refl },
    )

-- Three channels `x < y < z` of a level with fresh entries: `x` and `z` ask, `x` is served, `y` asks, `z`
-- and `y` are served, `x` and `y` ask and `z` is served, unasked. Each of these calls ends without a
-- fault. Then the next pop of the level never ends, and neither does a request of any channel above `y`:
-- whatever the number of rounds, they are used up.
pub tangle-never_ends :
    (rounds x y z : ℕ)
    → x < y
    → y < z
    → Returns
        (λ (es, l).
          ((k : ℕ) → pop_next_request_for_level plain_ids k es l ≡ fault no_rounds_left)
          × ((k w : ℕ) → y < w → set_request plain_ids k es w l ≡ fault no_rounds_left))
        (tangle (suc (suc rounds)) x y z)
tangle-never_ends rounds x y z h g = Returns-ring (tangle-IsRing rounds x y z h g)
  where
    Returns-ring :
        {r : Run (Entries × PriorityList)}
        → Returns (λ (es, l). IsRing x y z es l) r
        → Returns
            (λ (es, l).
              ((k : ℕ) → pop_next_request_for_level plain_ids k es l ≡ fault no_rounds_left)
              × ((k w : ℕ) → y < w → set_request plain_ids k es w l ≡ fault no_rounds_left))
            r
    Returns-ring ((es, l), e, ring) = (
      (es, l),
      e,
      (
        (λ k. pop_ring k x y z es l h g ring),
        (λ k w above. request_ring k x y z w es l h above ring),
      ),
    )
