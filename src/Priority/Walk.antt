-- ===== src/Priority/Walk.antt =====
-- One round of the walk along a list, by what stands next.
use chabu.Prelude.{ℕ, suc, ◌≡◌, ◌∙◌, Bool, true, false, none, some}
use chabu.Run.{ok}
use chabu.Priority.{Entries, walk}

-- Every entry points at its own channel, whose `channelId` is its place in the array.
pub record IsLinked (ids : ℕ → ℕ) (es : Entries) : Type 0 where
  pub own : (i : ℕ) → (es i).ch ≡ i
  pub numbered : (i : ℕ) → ids i ≡ i

pub id-ch : {ids : ℕ → ℕ} {es : Entries} → IsLinked ids es → (j : ℕ) → ids (es j).ch ≡ j
id-ch {es} linked j = linked.numbered (es j).ch ∙ linked.own j

module _ {ids : ℕ → ℕ} {es : Entries} (linked : IsLinked ids es) (skip : ℕ → Bool)
    (rounds it : ℕ) where
  pub walk_end : (es it).next ≡ none → walk ids skip (suc rounds) es it ≡ ok it
  unfolding walk
  walk_end e = rw (e, walk)

  module _ (y : ℕ) (e : (es it).next ≡ some y) where
    pub walk_on : skip y ≡ true → walk ids skip (suc rounds) es it ≡ walk ids skip rounds es y
    unfolding walk
    walk_on t = rw (e, walk, id-ch linked y, t)

    pub walk_stop : skip y ≡ false → walk ids skip (suc rounds) es it ≡ ok it
    unfolding walk
    walk_stop t = rw (e, walk, id-ch linked y, t)
