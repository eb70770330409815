-- ===== src/Tests/Requests.antt =====
-- Runs of ChabuPriorities.c.
use chabu.Prelude.{ℕ, ◌<◌, ◌≡◌, refl, some, [], ◌∷◌, arith}
use chabu.Prelude.Int.{pos}
use chabu.Run.{ok, fault, no_rounds_left, Returns}
use chabu.Priority.{
  seq_data, set_request, pop_next_request_for_level, set_request_of, pop_next_request,
}
use chabu.Priority.Chain.{IsRequestList}
use chabu.Priority.Select.{select}
use chabu.Priority.Request.{Requested, set_request-request}
use chabu.Priority.Pop.{Popped, pop-select}
use chabu.Priority.Turn.{Turn}
use chabu.Priority.Level.{HasRequests, RequestedAt, set_request_of-RequestedAt}
use chabu.Priority.Order.{PoppedAt, pop_next_request-PoppedAt}
use chabu.Priority.Tangle.{tangle, tangle-never_ends}
use chabu.Priority.Stale.{plain_ids, ask_twice, ask_twice-spurious}
use chabu.Tests.Sample.{sample_chabu, sample-HasRequests, queued_entries, queued_list, queued_chabu}

queued-IsRequestList : IsRequestList 8 plain_ids queued_entries queued_list (5 ∷ 2 ∷ 7 ∷ [])
queued-IsRequestList = record {
  linked = record { own = λ i. ground arith; numbered = λ i. refl };
  queue = (
    omega arith,
    (omega arith, (omega arith, tt)),
    (omega arith, omega arith, (omega arith, omega arith, tt)),
  );
  chain = (refl, (refl, (refl, refl)));
}

set_request-request_example :
    Returns
      (Requested 8 plain_ids queued_entries queued_list (5 ∷ 2 ∷ 7 ∷ []) 4)
      (set_request plain_ids 9 queued_entries 4 queued_list)
set_request-request_example =
    set_request-request (5 ∷ 2 ∷ 7 ∷ []) 9 4 (omega arith) (omega arith) (λ e. ground arith)
      queued-IsRequestList

pop-select_example :
    Returns
      (Popped 8 plain_ids queued_entries queued_list
        (5 ∷ 2 ∷ 7 ∷ [])
        (select (pos 5) (5 ∷ 2 ∷ 7 ∷ [])))
      (pop_next_request_for_level plain_ids 9 queued_entries queued_list)
pop-select_example = pop-select (5 ∷ 2 ∷ 7 ∷ []) 9 (omega arith) queued-IsRequestList

set_request_of-RequestedAt_example :
    Returns
      (RequestedAt seq_data (sample_chabu []) 1 0 [])
      (set_request_of seq_data (sample_chabu []) 1)
set_request_of-RequestedAt_example =
    set_request_of-RequestedAt seq_data (sample_chabu []) 1 0 [] (omega arith) refl
      (sample-HasRequests seq_data []) (λ e. refl)

ask_twice-spurious_example : ask_twice 9 3 5 ≡ ok (some 3, some 5, some 3, some 5)
ask_twice-spurious_example = ask_twice-spurious 7 3 5 (omega arith)

queued-HasRequests : HasRequests seq_data queued_chabu 1 (5 ∷ 2 ∷ 7 ∷ [])
queued-HasRequests = record {
  exists = omega arith;
  requests = record {
    linked = record { own = λ i. ground arith; numbered = λ i. refl };
    queue = queued-IsRequestList.queue;
    chain = (refl, (refl, (refl, refl)));
  };
}

pop_next_request-PoppedAt_example :
    Returns
      (PoppedAt seq_data queued_chabu 1 (select (pos 5) (5 ∷ 2 ∷ 7 ∷ [])))
      (pop_next_request seq_data queued_chabu)
pop_next_request-PoppedAt_example =
    pop_next_request-PoppedAt seq_data queued_chabu 1 5 (2 ∷ 7 ∷ []) queued-HasRequests
      (λ j h. ground arith)

tangle-never_ends_example :
    Returns
      (λ (es, l).
        ((k : ℕ) → pop_next_request_for_level plain_ids k es l ≡ fault no_rounds_left)
        × ((k w : ℕ) → 2 < w → set_request plain_ids k es w l ≡ fault no_rounds_left))
      (tangle 4 1 2 5)
tangle-never_ends_example = tangle-never_ends 2 1 2 5 (omega arith) (omega arith)
