-- ===== src/Priority.antt =====
-- c/org.chabu/src/ChabuPriorities.c: which channel transmits next. Each priority has two singly
-- linked lists of the channels that ask to send, one for control packets and one for data.
-- The entries are fields of the channels, so a list is threaded through the channel array.
-- A walk along a list takes a number of rounds; `channel_count + 1` rounds are given.
pub mod Chain
pub mod Walk
pub mod Request
pub mod Select
pub mod Pop
pub mod Turn
pub mod Stale
pub mod Tangle
pub mod Level
pub mod Order
use chabu.Prelude.{
  ℕ, zero, suc, ◌+◌, ◌-◌, Bool, true, false, Option, none, some, ltb, ◌==◌, if◌then◌else◌, ◌||◌,
}
use chabu.Prelude.Int.{ℤ, pos, negsuc, ltb_ℤ, leb_ℤ}
use chabu.Run.{Run, ok, fault, out_of_bounds, no_rounds_left, ◌>>=◌}
use chabu.State.{
  Chabu, Channel, PriorityEntry, PriorityList, Priority, channel_at, set_channel, update,
}

-- The parameter `bool ctrl` of `popNextRequest`, and which of a channel's two entries is meant.
pub data Kind : Type 0 where
  ctrl seq_data : Kind

abbrev pub entry_of : Kind → Channel → PriorityEntry
entry_of ctrl ch = ch.xmit_request_ctrl
entry_of seq_data ch = ch.xmit_request_data

abbrev pub with_entry : Kind → Channel → PriorityEntry → Channel
with_entry ctrl ch e = record ch { xmit_request_ctrl = e }
with_entry seq_data ch e = record ch { xmit_request_data = e }

abbrev pub list_of : Kind → Priority → PriorityList
list_of ctrl p = p.ctrl
list_of seq_data p = p.seq_data

abbrev pub with_list : Kind → Priority → PriorityList → Priority
with_list ctrl p l = record p { ctrl = l }
with_list seq_data p l = record p { seq_data = l }

-- The entries of one kind, by channel number.
abbrev pub Entries : Type 0
Entries = ℕ → PriorityEntry

-- `e->next = q`
abbrev pub set_next : Entries → ℕ → Option ℕ → Entries
set_next es e q = update es e (record (es e) { next = q })

-- `entry->next = it->next; it->next = entry;`
pub link : Entries → (entry it : ℕ) → Entries
link es entry it = let es' = set_next es entry (es it).next in set_next es' it (some entry)

-- What `setRequest` does behind its loop.
pub insert_behind : Entries → (entry it : ℕ) → Entries
unfolding link
insert_behind es entry it = elim (es it).next [
  | none ↦ link es entry it
  | some n ↦ if (es n).ch == (es entry).ch then es else link es entry it
]

abbrev pub is_none : Option ℕ → Bool
is_none none = true
is_none (some _) = false

-- `ids` gives the field `channelId` of each channel.
module _ (ids : ℕ → ℕ) where
  -- `while( it->next && skip( it->next->ch->channelId ) ) it = it->next;`
  pub walk : (skip : ℕ → Bool) → ℕ → Entries → ℕ → Run ℕ
  walk skip zero es it = fault no_rounds_left
  walk skip (suc rounds) es it = elim (es it).next [
    | none ↦ ok it
    | some n ↦ elim (skip (ids (es n).ch)) [ true ↦ walk skip rounds es n | false ↦ ok it ]
  ]

  -- `setRequest`
  unfoldable pub set_request : ℕ → Entries → ℕ → PriorityList → Run (Entries × PriorityList)
  unfolding walk insert_behind
  set_request rounds es entry l = elim l.request [
    | none ↦ ok (es, record l { request = some entry })
    | some first ↦
        if first == entry
        then ok (es, l)
        else walk (λ id. ltb id (ids (es entry).ch)) rounds es first >>= λ it.
            ok (insert_behind es entry it, l)
  ]

  -- The channel of an entry, which becomes the one that was selected last.
  take_entry : Entries → ℕ → PriorityList → Option ℕ × Entries × PriorityList
  take_entry es e l =
      (some (es e).ch, es, record l { last_selected_channel_id = pos (ids (es e).ch) })

  -- "none found, so take first"
  take_first : Entries → ℕ → PriorityList → Option ℕ × Entries × PriorityList
  unfolding take_entry
  take_first es first l =
      take_entry (set_next es first none) first (record l { request = (es first).next })

  -- What follows the search for a number above the one selected last: `it` is where it ended.
  take_behind : Entries → (first it : ℕ) → PriorityList → Option ℕ × Entries × PriorityList
  unfolding take_entry take_first
  take_behind es first it l = elim (es it).next [
    | none ↦ take_first es first l
    | some n ↦
        if ltb_ℤ l.last_selected_channel_id (pos (ids (es n).ch))
        then take_entry (set_next (set_next es it (es n).next) n none) n l
        else take_first es first l
  ]

  -- `popNextRequestForLevel`
  unfoldable pub pop_next_request_for_level :
      ℕ → Entries → PriorityList → Run (Option ℕ × Entries × PriorityList)
  unfolding walk take_entry take_behind
  pop_next_request_for_level rounds es l = elim l.request [
    | none ↦ ok (none, es, l)
    | some first ↦
        if is_none (es first).next || ltb_ℤ l.last_selected_channel_id (pos (ids (es first).ch))
        then ok (take_entry es first (record l { request = (es first).next }))
        else walk (λ id. leb_ℤ (pos id) l.last_selected_channel_id) rounds es first >>= λ it.
            ok (take_behind es first it l)
  ]

abbrev pub ids_of : Chabu → ℕ → ℕ
ids_of c i = (c.channels i).channel_id

abbrev pub entries_of : Kind → Chabu → Entries
entries_of k c i = entry_of k (c.channels i)

abbrev pub rounds_of : Chabu → ℕ
rounds_of c = c.channel_count + 1

-- The entries and one list are stored back.
unfoldable pub store : Kind → ℕ → Entries → PriorityList → Chabu → Chabu
store k level es l c = record c {
  channels = λ i. with_entry k (c.channels i) (es i);
  priorities = update c.priorities level (with_list k (c.priorities level) l);
}

-- `&chabu->priorities[ i ]`
unfoldable pub priority_at : Chabu → ℤ → Run ℕ
priority_at c (pos level) = if ltb level c.priority_count then ok level else fault out_of_bounds
priority_at c (negsuc _) = fault out_of_bounds

-- `Chabu_Priority_SetRequestCtrl` and `Chabu_Priority_SetRequestData` for a channel's number.
unfoldable pub set_request_of : Kind → Chabu → ℕ → Run Chabu
unfolding priority_at set_request store
set_request_of k c i = do
  level ← priority_at c (c.channels i).priority
  (es, l) ← set_request (ids_of c) (rounds_of c) (entries_of k c) i (list_of k (c.priorities level))
  ok (store k level es l c)

unfoldable pub set_request_ctrl : Chabu → ℕ → Run Chabu
unfolding set_request_of
set_request_ctrl c i = set_request_of ctrl c i

unfoldable pub set_request_data : Chabu → ℕ → Run Chabu
unfolding set_request_of
set_request_data c i = set_request_of seq_data c i

unfoldable pub set_request_ctrl_arm : Chabu → ℕ → Run Chabu
unfolding set_request_ctrl set_channel
set_request_ctrl_arm c i =
    set_request_ctrl (set_channel c i (record (c.channels i) { xmit_request_ctrl_arm = true })) i

unfoldable pub set_request_ctrl_davail : Chabu → ℕ → Run Chabu
unfolding set_request_ctrl set_channel
set_request_ctrl_davail c i =
    set_request_ctrl (set_channel c i (record (c.channels i) { xmit_request_ctrl_davail = true })) i

unfoldable pub set_request_ctrl_reset : Chabu → ℕ → Run Chabu
unfolding set_request_ctrl set_channel
set_request_ctrl_reset c i =
    set_request_ctrl (set_channel c i (record (c.channels i) { xmit_request_ctrl_reset = true })) i

-- The loop of `popNextRequest` over the `left` levels that start at `level`.
unfoldable pub pop_levels : Kind → Chabu → (left level : ℕ) → Run (Option ℕ × Chabu)
unfolding pop_next_request_for_level store
pop_levels k c zero level = ok (none, c)
pop_levels k c (suc left) level = elim (list_of k (c.priorities level)).request [
  | none ↦ pop_levels k c left (suc level)
  | some _ ↦
      pop_next_request_for_level (ids_of c) (rounds_of c) (entries_of k c)
        (list_of k (c.priorities level))
      >>= λ (r, es, l). elim r [
        | some ch ↦ ok (some ch, store k level es l c)
        | none ↦ pop_levels k (store k level es l c) left (suc level)
      ]
]

unfoldable pub pop_next_request : Kind → Chabu → Run (Option ℕ × Chabu)
unfolding pop_levels
pop_next_request k c = pop_levels k c c.priority_count 0

unfoldable pub pop_next_request_ctrl : Chabu → Run (Option ℕ × Chabu)
unfolding pop_next_request
pop_next_request_ctrl c = pop_next_request ctrl c

unfoldable pub pop_next_request_data : Chabu → Run (Option ℕ × Chabu)
unfolding pop_next_request
pop_next_request_data c = pop_next_request seq_data c
