-- ===== src/Channel/Laws.antt =====
-- c/org.chabu/src/ChabuChannel.c: what is left where a limit has moved, and the request behind it.
use mathlib.Core.Path.{subst}
use native.Mathlib.Decide.{ℕ_discrete}
use chabu.Prelude.{
  ℕ, ◌<◌, ◌≡◌, refl, sym, ◌∙◌, ap, ◌≢◌, none, some, List, [], arith, lt→ltb, eq→==, ne→==,
}
use chabu.Prelude.Int.{pos}
use chabu.Run.{ok, ◌>>=◌, Returns}
use chabu.State.{Chabu, Channel, PriorityEntry, network_register_write_request}
use chabu.Priority.{Kind, seq_data, entry_of, entries_of, set_request_data, set_request_of}
use chabu.Priority.Chain.{request}
use chabu.Priority.Level.{
  Touches, Touches-refl, Changed, Touches-Changed, HasRequests, set_request_of-RequestedAt,
  HasRequests-channels,
}
use chabu.World.{World, Callbacks, IsPassive, with_chabu, put_channel}
use chabu.Channel.{get_checked_channel_id, request_data_if_armed}

-- What is left where the limit of channel `i` has moved to `limit`: where it is armed beyond what was
-- sent, the channel asks for its turn and the application is told to register for writing; elsewhere the
-- limit is all that has changed.
pub record Released {U : Type 0} (cb : Callbacks U) (w : World U) (i limit level : ℕ) (xs : List ℕ)
    (w' : World U) : Type 0 where
  pub changed :
      Changed seq_data level w.chabu i (record (w.chabu.channels i) { xmit_limit = limit }) w'.chabu
  pub asks :
      (w.chabu.channels i).xmit_arm ≢ (w.chabu.channels i).xmit_seq
      → HasRequests seq_data w'.chabu level (request i xs)
        × (w' ≡ cb.event_notification network_register_write_request (with_chabu w w'.chabu))
  pub silent :
      (w.chabu.channels i).xmit_arm ≡ (w.chabu.channels i).xmit_seq
      → w' ≡ put_channel w i (record (w.chabu.channels i) { xmit_limit = limit })

module _ {U : Type 0} (cb : Callbacks U) where
  pub checked_some :
      (w : World U) (i : ℕ)
      → i < w.chabu.channel_count
      → get_checked_channel_id cb w (pos i) ≡ (some i, w)
  unfolding get_checked_channel_id
  checked_some w i h = rw (lt→ltb i w.chabu.channel_count h)

module _ {U : Type 0} (cb : Callbacks U) (w : World U) (i : ℕ) where
  not_asked :
      (w.chabu.channels i).xmit_arm ≡ (w.chabu.channels i).xmit_seq
      → request_data_if_armed cb w i ≡ ok w
  unfolding request_data_if_armed
  not_asked e = rw (eq→== _ _ e)

  asked :
      (w.chabu.channels i).xmit_arm ≢ (w.chabu.channels i).xmit_seq
      → request_data_if_armed cb w i ≡ (do
        c ← set_request_of seq_data w.chabu i
        ok (cb.event_notification network_register_write_request (with_chabu w c)))
  unfolding request_data_if_armed set_request_data
  asked ne = rw (ne→== _ _ ne)

module _ {U : Type 0} (cb : Callbacks U) (passive : IsPassive cb) where
  -- What a request and the event behind it leave of the world `w`.
  abbrev pub Asked : Kind → World U → ℕ → ℕ → List ℕ → World U → Type 0
  Asked k w i level xs v =
      HasRequests k v.chabu level (request i xs)
      × Touches k level w.chabu v.chabu
      × (v ≡ cb.event_notification network_register_write_request (with_chabu w v.chabu))

  -- `w'` is `w` but for channel `i`, which has kept what the request list looks at.
  module _ (k : Kind) (w w' : World U) (i level : ℕ) (xs : List ℕ)
      (same : (j : ℕ) → (w'.chabu.channels j).channel_id ≡ (w.chabu.channels j).channel_id)
      (entries : (j : ℕ) → entry_of k (w'.chabu.channels j) ≡ entry_of k (w.chabu.channels j))
      (whole : w'.chabu ≡ record (w.chabu) { channels = w'.chabu.channels })
      (exists : i < w.chabu.channel_count) (prio : (w'.chabu.channels i).priority ≡ pos level)
      (has : HasRequests k w.chabu level xs)
      (idle : xs ≡ [] → (entries_of k w.chabu i).next ≡ none) where
    pub ask-Asked : Returns (Asked k w' i level xs) (do
      c ← set_request_of k w'.chabu i
      ok (cb.event_notification network_register_write_request (with_chabu w' c)))
    ask-Asked =
        let (d, r, q) =
          set_request_of-RequestedAt k w'.chabu i level xs
            (subst (λ (c : Chabu). i < c.channel_count) (sym whole) exists) prio
            (subst (λ c. HasRequests k c level xs) (sym whole)
              (HasRequests-channels k w.chabu w'.chabu.channels level xs same entries has))
            (λ e. ap (λ (x : PriorityEntry). x.next) (entries i) ∙ idle e) in
        let v = cb.event_notification network_register_write_request (with_chabu w' d) in
        let quiet : v.chabu ≡ d =
          passive.on_event network_register_write_request (with_chabu w' d) in
        (
          v,
          rw r,
          (
            subst (λ c. HasRequests k c level (request i xs)) (sym quiet) q.listed,
            subst (Touches k level w'.chabu) (sym quiet) q.touches,
            ap
                (λ (c : Chabu).
                  cb.event_notification network_register_write_request (with_chabu w' c))
                (sym quiet),
          ),
        )

  module _ (w : World U) (i level : ℕ) (xs : List ℕ) (exists : i < w.chabu.channel_count)
      (prio : (w.chabu.channels i).priority ≡ pos level) where
    module _ (limit : ℕ) (has : HasRequests seq_data w.chabu level xs)
        (idle : xs ≡ [] → (entries_of seq_data w.chabu i).next ≡ none) where
      pub request_data_if_armed-Released : Returns (Released cb w i limit level xs) (
          request_data_if_armed cb
            (put_channel w i (record (w.chabu.channels i) { xmit_limit = limit }))
            i)
      unfolding request_data_if_armed set_request_data
      request_data_if_armed-Released = elim (ℕ_discrete ch.xmit_arm ch.xmit_seq) [
        | yes e ↦ (
          w',
          not_asked cb w' i (
              ap (λ (x : Channel). x.xmit_arm) self
              ∙ e
              ∙ sym (ap (λ (x : Channel). x.xmit_seq) self)),
          record {
            changed =
                Touches-Changed seq_data level w.chabu i ch' w'.chabu
                  (Touches-refl seq_data level w'.chabu);
            asks = λ ne. absurd (ne e);
            silent = λ _. refl;
          },
        )
        | no ne ↦
            let (v, r, (listed, touches, told)) =
              ask-Asked seq_data w w' i level xs (λ j. ground arith) (λ j. ground arith) refl exists
                (ap (λ (x : Channel). x.priority) self ∙ prio) has idle in
            (
              v,
              asked cb w' i (λ e. ne (
                    sym (ap (λ (x : Channel). x.xmit_arm) self)
                    ∙ e
                    ∙ ap (λ (x : Channel). x.xmit_seq) self))
                  ∙ r,
              record {
                changed = Touches-Changed seq_data level w.chabu i ch' v.chabu touches;
                asks = λ _. (listed, told);
                silent = λ e. absurd (ne e);
              },
            )
      ]
        where
          ch : Channel
          ch = w.chabu.channels i

          ch' : Channel
          ch' = record ch { xmit_limit = limit }

          w' : World U
          w' = put_channel w i ch'

          self : w'.chabu.channels i ≡ ch'
          self = ground arith
