-- ===== src/Priority/Stale.antt =====
-- The entry that `popNextRequestForLevel` takes off the head of a longer list keeps its `next`.
-- When that entry alone is requested again, the list has the old neighbour behind it.
use chabu.Prelude.{ℕ, suc, ◌<◌, ◌≡◌, Option, none, some, arith}
use chabu.Prelude.Int.{negsuc}
use chabu.State.{PriorityList}
use chabu.Run.{Run, ok, ◌>>=◌}
use chabu.Priority.{Entries, set_request, pop_next_request_for_level}

-- The entries and the list as `Chabu_Init` leaves them.
abbrev pub fresh_entries : Entries
fresh_entries i = record { next = none; ch = i }

abbrev pub fresh_list : PriorityList
fresh_list = record { request = none; last_selected_channel_id = negsuc 0 }

abbrev pub plain_ids : ℕ → ℕ
plain_ids i = i

-- `i` and `j` ask, both are served; then `i` asks alone, and the list is served twice.
unfoldable pub ask_twice : ℕ → (i j : ℕ) → Run (Option ℕ × Option ℕ × Option ℕ × Option ℕ)
unfolding set_request pop_next_request_for_level
ask_twice rounds i j = do
  (es, l) ← set_request plain_ids rounds fresh_entries i fresh_list
  (es, l) ← set_request plain_ids rounds es j l
  (a, es, l) ← pop_next_request_for_level plain_ids rounds es l
  (b, es, l) ← pop_next_request_for_level plain_ids rounds es l
  (es, l) ← set_request plain_ids rounds es i l
  (c, es, l) ← pop_next_request_for_level plain_ids rounds es l
  (d, _, _) ← pop_next_request_for_level plain_ids rounds es l
  ok (a, b, c, d)

-- Two channels `i < j` with fresh entries ask once each and are both served; then `i` alone asks
-- again, and within two or more rounds the list serves both `i` and, unasked, `j`.
pub ask_twice-spurious :
    (rounds i j : ℕ)
    → i < j
    → ask_twice (suc (suc rounds)) i j ≡ ok (some i, some j, some i, some j)
unfolding ask_twice
ask_twice-spurious rounds i j h = ground arith
