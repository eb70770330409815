-- ===== src/Priority/Level.antt =====
-- The requests of one priority level in the whole state: what a request and a pop keep.
use mathlib.Core.Path.{subst, subst₂, fun_ext}
use chabu.Prelude.{
  ℕ, ◌<◌, ◌≡◌, ◌≢◌, refl, sym, none, List, [], arith, lt→ltb, eq→==, ne→==, ◌==◌, if◌then◌else◌,
}
use chabu.Prelude.Int.{ℤ, pos}
use chabu.Run.{ok, Returns}
use chabu.State.{Chabu, Channel, Priority, PriorityEntry, PriorityList}
use chabu.Priority.{
  Kind, ctrl, seq_data, Entries, entry_of, with_entry, list_of, with_list, ids_of, entries_of,
  rounds_of, store, priority_at, set_request_of,
}
use chabu.Priority.Chain.{IsRequestList, request}
use chabu.Priority.Request.{set_request-request}

-- At `level` stand the requests of the channels `xs`.
pub record HasRequests (k : Kind) (c : Chabu) (level : ℕ) (xs : List ℕ) : Type 0 where
  pub exists : level < c.priority_count
  pub requests :
      IsRequestList c.channel_count (ids_of c) (entries_of k c) (list_of k (c.priorities level)) xs

-- `a` is `b` but for the list entry of one kind.
abbrev pub SameChannel : Kind → Channel → Channel → Type 0
SameChannel k a b = a ≡ with_entry k b (entry_of k a)

pub SameChannel-refl : (k : Kind) (ch : Channel) → SameChannel k ch ch
SameChannel-refl ctrl ch = refl
SameChannel-refl seq_data ch = refl

with_entry-same :
    (k : Kind) (ch : Channel) (e : PriorityEntry) → SameChannel k (with_entry k ch e) ch
with_entry-same ctrl ch e = refl
with_entry-same seq_data ch e = refl

-- Of `c`, list entries and one list of one kind have changed.
pub record Touches (k : Kind) (level : ℕ) (c c' : Chabu) : Type 0 where
  pub same : (j : ℕ) → SameChannel k (c'.channels j) (c.channels j)
  pub lists : (j : ℕ) → j ≢ level → c'.priorities j ≡ c.priorities j
  pub other_list :
      c'.priorities level ≡ with_list k (c.priorities level) (list_of k (c'.priorities level))
  pub rest : c' ≡ record c { channels = c'.channels; priorities = c'.priorities }

-- Channel `i` of `c` is now `ch`, but for its list entry of one kind, and of the rest list entries and one
-- list of that kind have changed.
pub record Changed (k : Kind) (level : ℕ) (c : Chabu) (i : ℕ) (ch : Channel) (c' : Chabu)
    : Type 0 where
  pub own : SameChannel k (c'.channels i) ch
  pub others : (j : ℕ) → j ≢ i → SameChannel k (c'.channels j) (c.channels j)
  pub lists : (j : ℕ) → j ≢ level → c'.priorities j ≡ c.priorities j
  pub other_list :
      c'.priorities level ≡ with_list k (c.priorities level) (list_of k (c'.priorities level))
  pub rest : c' ≡ record c { channels = c'.channels; priorities = c'.priorities }

pub Touches-Changed :
    (k : Kind) (level : ℕ) (c : Chabu) (i : ℕ) (ch : Channel) (c' : Chabu)
    → Touches k level (record c { channels = λ j. if i == j then ch else c.channels j }) c'
    → Changed k level c i ch c'
Touches-Changed k level c i ch c' t = record {
  own = subst (SameChannel k (c'.channels i)) here (t.same i);
  others = λ j ne. subst (SameChannel k (c'.channels j)) (there j ne) (t.same j);
  lists = t.lists;
  other_list = t.other_list;
  rest = t.rest;
}
  where
    here : (if i == i then ch else c.channels i) ≡ ch
    here = ground arith

    there : (j : ℕ) → j ≢ i → (if i == j then ch else c.channels j) ≡ c.channels j
    there j ne = ground arith

with_list-list_of : (k : Kind) (p : Priority) → p ≡ with_list k p (list_of k p)
with_list-list_of ctrl p = refl
with_list-list_of seq_data p = refl

-- Nothing was touched.
pub Touches-refl : (k : Kind) (level : ℕ) (c : Chabu) → Touches k level c c
Touches-refl k level c = record {
  same = λ j. SameChannel-refl k (c.channels j);
  lists = λ j ne. refl;
  other_list = with_list-list_of k (c.priorities level);
  rest = refl;
}

entry_of-with_entry :
    (k : Kind) (ch : Channel) (e : PriorityEntry) → entry_of k (with_entry k ch e) ≡ e
entry_of-with_entry ctrl ch e = refl
entry_of-with_entry seq_data ch e = refl

module _ (c : Chabu) (level : ℕ) (es : Entries) (l : PriorityList) where
  pub list-store : (k : Kind) → list_of k ((store k level es l c).priorities level) ≡ l
  unfolding store
  list-store ctrl = rw (eq→== level level refl)
  list-store seq_data = rw (eq→== level level refl)

  pub store-Touches : (k : Kind) → Touches k level c (store k level es l c)
  unfolding store
  store-Touches k = record {
    same = λ j. with_entry-same k (c.channels j) (es j);
    lists = λ j ne. rw (ne→== level j (λ e. ne (sym e)));
    other_list = whole k;
    rest = refl;
  }
    where
      whole :
          (k : Kind)
          → (store k level es l c).priorities level
            ≡ with_list k (c.priorities level) (list_of k ((store k level es l c).priorities level))
      whole ctrl = rw (eq→== level level refl)
      whole seq_data = rw (eq→== level level refl)

  -- What is stored is found again.
  pub store-HasRequests :
      (k : Kind) (xs : List ℕ)
      → level < c.priority_count
      → IsRequestList c.channel_count (ids_of c) es l xs
      → HasRequests k (store k level es l c) level xs
  unfolding store
  store-HasRequests ctrl xs lt is = record {
    exists = lt;
    requests =
        subst (λ m. IsRequestList c.channel_count (ids_of c) es m xs) (sym (list-store ctrl)) is;
  }
  store-HasRequests seq_data xs lt is = record {
    exists = lt;
    requests =
        subst (λ m. IsRequestList c.channel_count (ids_of c) es m xs) (sym (list-store seq_data))
          is;
  }

-- A request for channel `i` in the whole state.
pub record RequestedAt (k : Kind) (c : Chabu) (i level : ℕ) (xs : List ℕ) (c' : Chabu)
    : Type 0 where
  pub listed : HasRequests k c' level (request i xs)
  pub touches : Touches k level c c'

priority_at_lem :
    (c : Chabu) (p : ℤ) (level : ℕ)
    → p ≡ pos level
    → level < c.priority_count
    → priority_at c p ≡ ok level
unfolding priority_at
priority_at_lem c p level e lt = rw (e, priority_at, lt→ltb level c.priority_count lt)

-- `Chabu_Priority_SetRequestCtrl` or `…Data` for an existing channel whose priority exists: with the
-- requests of that level well-formed, and the channel's entry not linked where they are empty, it
-- ends without a fault. The level has the abstract request, and nothing else changes: of the whole
-- state it is list entries of this kind and the list of this kind and level that may differ.
pub set_request_of-RequestedAt :
    (k : Kind) (c : Chabu) (i level : ℕ) (xs : List ℕ)
    → i < c.channel_count
    → (c.channels i).priority ≡ pos level
    → HasRequests k c level xs
    → (xs ≡ [] → (entries_of k c i).next ≡ none)
    → Returns (RequestedAt k c i level xs) (set_request_of k c i)
unfolding set_request_of store
set_request_of-RequestedAt k c i level xs lt e has idle =
    let ((es, l), f, (is, _, _)) =
      set_request-request xs (rounds_of c) i lt (omega arith) idle has.requests in
    (
      store k level es l c,
      rw (priority_at_lem c _ level e has.exists, f),
      record {
        listed = store-HasRequests c level es l k (request i xs) has.exists is;
        touches = store-Touches c level es l k;
      },
    )

-- Another array of channels with the same numbers and entries has the same requests.
pub HasRequests-channels :
    (k : Kind) (c : Chabu) (f : ℕ → Channel) (level : ℕ) (xs : List ℕ)
    → ((j : ℕ) → (f j).channel_id ≡ (c.channels j).channel_id)
    → ((j : ℕ) → entry_of k (f j) ≡ entry_of k (c.channels j))
    → HasRequests k c level xs
    → HasRequests k (record c { channels = f }) level xs
HasRequests-channels k c f level xs ids entries has = record {
  exists = has.exists;
  requests =
      subst₂ (λ g es. IsRequestList c.channel_count g es (list_of k (c.priorities level)) xs)
        (sym (fun_ext ids)) (sym (fun_ext entries)) has.requests;
}
