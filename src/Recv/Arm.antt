-- ===== src/Recv/Arm.antt =====
-- An ARM packet moves the point up to which the channel may send.
use mathlib.Core.Path.{subst}
use native.Mathlib.Decide.{ℕ_discrete}
use chabu.Prelude.{
  ℕ, ◌+◌, ◌^◌, ◌<◌, ◌≡◌, refl, ◌∙◌, ap, ◌≢◌, ◌⊎◌, inl, inr, none, some, List, [], ◌++◌, arith,
  lt→ltb, eq→==, ne→==,
}
use chabu.Prelude.Int.{pos}
use chabu.Run.{Run, ok, fault, ◌>>=◌, Returns}
use chabu.Buffer.{ByteBuffer, get_int_be}
use chabu.Buffer.Bytes.{be32}
use chabu.Buffer.Read.{unread, get_int_be_lem, to_int_small}
use chabu.State.{Chabu, Channel, network_register_write_request}
use chabu.Priority.{seq_data, entries_of, set_request_data, set_request_of}
use chabu.Priority.Chain.{request}
use chabu.Priority.Level.{
  SameChannel, SameChannel-refl, Touches-refl, Changed, Touches-Changed, HasRequests,
}
use chabu.Channel.Laws.{ask-Asked}
use chabu.World.{World, Callbacks, IsPassive, with_chabu, put_channel}
use chabu.Recv.Packet.{Step, again, with_recv, ready, channel_number, take_arm, recv_arm}

-- Two patterns that follow one another are read, and the buffer moves on by eight bytes.
pub two_ints :
    (b : ByteBuffer) (v u : ℕ) (rest : List ℕ)
    → v < 2 ^ 32
    → u < 2 ^ 32
    → unread b ≡ be32 v ++ (be32 u ++ rest)
    → let b' : ByteBuffer = record b { position = b.position + 4 } in
      (get_int_be b ≡ ok (v, b'))
      × (get_int_be b' ≡ ok (u, record b { position = b.position + 4 + 4 }))
two_ints b v u rest hv hu e =
    let (r, s) = get_int_be_lem b v (be32 u ++ rest) hv e in
    (r, (get_int_be_lem (record b { position = b.position + 4 }) u rest hu s).0)

pub channel_number_lem :
    (c : Chabu) (i : ℕ) → i < c.channel_count → i < 2 ^ 31 → channel_number c i ≡ some i
channel_number_lem c i h h' = rw (to_int_small i h', channel_number, lt→ltb i c.channel_count h)

-- What an ARM packet for channel `i` leaves of `w`. Where the position is new and data is waiting, the
-- channel asks for its turn and the application is told to register for writing; elsewhere the position
-- is all that has changed.
pub record Armed {U : Type 0} (cb : Callbacks U) (w : World U) (i arm level : ℕ) (xs : List ℕ)
    (s : Step (World U)) : Type 0 where
  pub after : World U
  pub goes_on : s ≡ again after
  pub changed :
      Changed seq_data level w.chabu i (record (w.chabu.channels i) { xmit_arm = arm }) after.chabu
  pub asks :
      (w.chabu.channels i).xmit_arm ≢ arm
      → (w.chabu.channels i).xmit_limit ≢ (w.chabu.channels i).xmit_seq
      → HasRequests seq_data after.chabu level (request i xs)
        × (after ≡ cb.event_notification network_register_write_request (with_chabu w after.chabu))
  pub silent :
      ((w.chabu.channels i).xmit_arm ≡ arm)
        ⊎ ((w.chabu.channels i).xmit_limit ≡ (w.chabu.channels i).xmit_seq)
      → (after.app ≡ w.app)
        × (after.chabu.priorities ≡ w.chabu.priorities)
        × (after.chabu.channels i ≡ record (w.chabu.channels i) { xmit_arm = arm })
        × ((j : ℕ) → j ≢ i → after.chabu.channels j ≡ w.chabu.channels j)

module _ {U : Type 0} (cb : Callbacks U) (passive : IsPassive cb) (i arm level : ℕ)
    (xs : List ℕ) where
  take_arm-Armed :
      (w : World U)
      → i < w.chabu.channel_count
      → (w.chabu.channels i).priority ≡ pos level
      → HasRequests seq_data w.chabu level xs
      → (xs ≡ [] → (entries_of seq_data w.chabu i).next ≡ none)
      → Returns (Armed cb w i arm level xs) (take_arm cb w i arm)
  unfolding take_arm set_request_data
  take_arm-Armed w exists prio has idle = elim (ℕ_discrete ch.xmit_arm arm) [
    | yes e ↦
        let same : ch ≡ ch' = ap (λ v. record ch { xmit_arm = v }) e in
        rw (eq→== _ _ e) (
          again w,
          refl,
          record {
            after = w;
            goes_on = refl;
            changed = unchanged same;
            asks = λ ne. absurd (ne e);
            silent = λ _. (refl, refl, same, λ j ne. refl);
          },
        )
    | no ne ↦ elim (ℕ_discrete ch.xmit_limit ch.xmit_seq) [
      | yes f ↦
          rw (ne→== _ _ ne, eq→== _ _ f)
            (
              again w',
              refl,
              record {
                after = w';
                goes_on = refl;
                changed =
                    Touches-Changed seq_data level w.chabu i ch' w'.chabu
                      (Touches-refl seq_data level w'.chabu);
                asks = λ _ nf. absurd (nf f);
                silent = λ _. (refl, refl, self, other);
              },
            )
      | no nf ↦
          let (v, r, (listed, touches, told)) =
            ask-Asked cb passive seq_data w w' i level xs (λ j. ground arith) (λ j. ground arith)
              refl exists (ap (λ (x : Channel). x.priority) self ∙ prio) has idle in
          rw (ne→== _ _ ne, ne→== _ _ nf)
            (asked v r (record {
              after = v;
              goes_on = refl;
              changed = Touches-Changed seq_data level w.chabu i ch' v.chabu touches;
              asks = λ _ _. (listed, told);
              silent = λ h. elim h [ inl e ↦ absurd (ne e) | inr f ↦ absurd (nf f) ];
            }))
    ]
  ]
    where
      ch : Channel
      ch = w.chabu.channels i

      ch' : Channel
      ch' = record ch { xmit_arm = arm }

      w' : World U
      w' = put_channel w i ch'

      self : w'.chabu.channels i ≡ ch'
      self = ground arith

      other : (j : ℕ) → j ≢ i → w'.chabu.channels j ≡ w.chabu.channels j
      other j ne = ground arith

      unchanged : ch ≡ ch' → Changed seq_data level w.chabu i ch' w.chabu
      unchanged e = record {
        own = subst (SameChannel seq_data ch) e (SameChannel-refl seq_data ch);
        others = λ j ne. refl;
        lists = λ j ne. refl;
        other_list = refl;
        rest = refl;
      }

      asked :
          (v : World U)
          → (do
            c ← set_request_of seq_data w'.chabu i
            ok (cb.event_notification network_register_write_request (with_chabu w' c)))
            ≡ ok v
          → Armed cb w i arm level xs (again v)
          → Returns (Armed cb w i arm level xs) (do
            c ← set_request_data w'.chabu i
            ok (again (cb.event_notification network_register_write_request (with_chabu w' c))))
      asked v r q = (again v, lifted (set_request_of seq_data w'.chabu i) r, q)
        where
          lifted :
              (m : Run Chabu)
              → (m >>= λ c.
                  ok (cb.event_notification network_register_write_request (with_chabu w' c)))
                ≡ ok v
              → (m >>= λ c.
                  ok (
                    again (cb.event_notification network_register_write_request (with_chabu w' c))))
                ≡ ok (again v)
          lifted (fault e) q = absurd cc
          lifted (ok c) q = cc

  -- The world once the two fields behind the packet's type are read.
  abbrev pub taken : World U → World U
  taken w = with_chabu w (
      with_recv (ready w.chabu)
        (record (w.chabu.recv_buffer) { position = w.chabu.recv_buffer.position + 4 + 4 }))

  -- An ARM packet for an existing channel, whose level has well-formed requests, is taken in without
  -- a fault where the application does not call back. The channel may then send up to the position
  -- in the packet; where this is new and data is waiting, and only there, the channel asks for its turn
  -- and the application is told to register for writing. Behind the two fields that were read, in the
  -- state ready, nothing else changes but list entries and the list of data requests of the level.
  pub recv_arm-Armed :
      (w : World U) (rest : List ℕ)
      → i < w.chabu.channel_count
      → i < 2 ^ 31
      → arm < 2 ^ 32
      → unread w.chabu.recv_buffer ≡ be32 i ++ (be32 arm ++ rest)
      → (w.chabu.channels i).priority ≡ pos level
      → HasRequests seq_data w.chabu level xs
      → (xs ≡ [] → (entries_of seq_data w.chabu i).next ≡ none)
      → Returns (Armed cb (taken w) i arm level xs) (recv_arm cb w)
  unfolding recv_arm
  recv_arm-Armed w rest exists word arm_word bytes prio has idle =
      let (r, s) = two_ints w.chabu.recv_buffer i arm rest (omega arith) arm_word bytes in
      rw (r, s, channel_number_lem w.chabu i exists word)
        (take_arm-Armed (taken w) exists prio
          (record { exists = has.exists; requests = has.requests }) idle)
