-- ===== src/Channel/Limits.antt =====
-- Moving the limits of an existing channel: the new limit, and the request that goes with it.
use mathlib.Core.Path.{subst, fun_ext}
use chabu.Prelude.{
  ℕ, ◌+◌, ◌%◌, ◌^◌, ◌<◌, ◌≤◌, ◌≡◌, refl, ◌∙◌, ap, ◌≢◌, true, none, List, [], arith, lt→ltb,
  not_lt→ltb, ne→==, ◌==◌, if◌then◌else◌,
}
use chabu.Prelude.Int.{ℤ, pos, negsuc}
use chabu.Run.{ok, Returns}
use chabu.Errors.{parameter}
use chabu.State.{Chabu, set_channel, Channel, network_register_write_request}
use chabu.Priority.{set_request_ctrl, ctrl, seq_data, entries_of, set_request_ctrl_arm}
use chabu.Priority.Chain.{request}
use chabu.Priority.Level.{Touches, Changed, Touches-Changed, HasRequests}
use chabu.World.{World, Callbacks, IsPassive, with_chabu, put_channel, report_error}
use chabu.Channel.{
  set_xmit_limit_of, add_xmit_limit_of, add_recv_limit_of, set_xmit_limit, add_xmit_limit,
  add_recv_limit, of_int64,
}
use chabu.Channel.Laws.{checked_some, Released, request_data_if_armed-Released, ask-Asked}

-- What is left where the application has taken `n` more bytes of channel `i` off: the peer is to be
-- armed by as many, the channel asks for its turn, and the application is told to register for writing.
pub record Granted {U : Type 0} (cb : Callbacks U) (w : World U) (i n level : ℕ) (xs : List ℕ)
    (w' : World U) : Type 0 where
  pub changed :
      Changed ctrl level w.chabu i
        (record (w.chabu.channels i) {
          recv_arm = ((w.chabu.channels i).recv_arm + n) % 2 ^ 32;
          recv_limit = ((w.chabu.channels i).recv_limit + n) % 2 ^ 64;
          xmit_request_ctrl_arm = true;
        })
        w'.chabu
  pub asks : HasRequests ctrl w'.chabu level (request i xs)
  pub told : w' ≡ cb.event_notification network_register_write_request (with_chabu w w'.chabu)

module _ {U : Type 0} (cb : Callbacks U) (passive : IsPassive cb) (w : World U) (i level : ℕ)
    (xs : List ℕ) (exists : i < w.chabu.channel_count)
    (prio : (w.chabu.channels i).priority ≡ pos level) where
  -- On an existing channel whose level has well-formed data requests, and where the application does
  -- not call back, `Chabu_Channel_SetXmitLimit` reads the given limit, negative ones too, as 64 bits
  -- without a sign. It refuses one below the present one with PARAMETER and changes nothing else. Any
  -- other is set without a fault. Where the channel is armed beyond what was sent, and only there, it
  -- asks for its turn and the application is told to register for writing. Nothing else changes but
  -- list entries and the list of data requests of the level.
  pub set_xmit_limit-Released :
      (limit : ℤ)
      → HasRequests seq_data w.chabu level xs
      → (xs ≡ [] → (entries_of seq_data w.chabu i).next ≡ none)
      → (of_int64 limit < (w.chabu.channels i).xmit_limit
          → set_xmit_limit cb w (pos i) limit ≡ ok (report_error cb parameter w))
        × ((w.chabu.channels i).xmit_limit ≤ of_int64 limit
            → Returns
                (Released cb w i (of_int64 limit) level xs)
                (set_xmit_limit cb w (pos i) limit))
  unfolding set_xmit_limit set_xmit_limit_of
  set_xmit_limit-Released limit has idle =
      let here = ap (λ p. set_xmit_limit_of cb p limit) (checked_some cb w i exists) in
      (
        λ lt. here ∙ rw (lt→ltb (of_int64 limit) (w.chabu.channels i).xmit_limit lt),
        λ le.
            let (v, r, x) =
              request_data_if_armed-Released cb passive w i level xs exists prio (of_int64 limit)
                has idle in
            (
              v,
              here
                  ∙ rw (not_lt→ltb (of_int64 limit) (w.chabu.channels i).xmit_limit (omega arith))
                      r,
              x,
            ),
      )

  -- On such a channel `Chabu_Channel_AddXmitLimit` refuses a negative number with PARAMETER, does
  -- nothing for 0, and moves the limit up by any other number (it wraps at 2 ^ 64) without a fault.
  -- Where the channel is armed beyond what was sent, and only there, it asks for its turn and the
  -- application is told to register for writing. Nothing else changes but list entries and the list
  -- of data requests of the level.
  pub add_xmit_limit-Released :
      (n : ℕ)
      → HasRequests seq_data w.chabu level xs
      → (xs ≡ [] → (entries_of seq_data w.chabu i).next ≡ none)
      → (add_xmit_limit cb w (pos i) (negsuc n) ≡ ok (report_error cb parameter w))
        × (add_xmit_limit cb w (pos i) (pos 0) ≡ ok w)
        × (n ≢ 0
            → Returns
                (Released cb w i (((w.chabu.channels i).xmit_limit + n) % 2 ^ 64) level xs)
                (add_xmit_limit cb w (pos i) (pos n)))
  unfolding add_xmit_limit add_xmit_limit_of
  add_xmit_limit-Released n has idle =
      let here = λ (n : ℤ). ap (λ p. add_xmit_limit_of cb p n) (checked_some cb w i exists) in
      (
        here (negsuc n),
        here (pos 0),
        λ nz.
            let (v, r, x) =
              request_data_if_armed-Released cb passive w i level xs exists prio
                (((w.chabu.channels i).xmit_limit + n) % 2 ^ 64) has idle in
            (v, here (pos n) ∙ rw (ne→== n 0 nz) r, x),
      )

  -- On such a channel, with well-formed control requests, `Chabu_Channel_AddRecvLimit` refuses a
  -- negative number with PARAMETER and does nothing for 0. Any other number is added to what the
  -- peer may send and to the receive limit (they wrap at 2 ^ 32 and at 2 ^ 64), without a fault: an
  -- ARM packet is pending and asks for its turn, and the application is told to register for writing.
  -- Nothing else changes but list entries and the list of control requests of the level.
  pub add_recv_limit-Granted :
      (n : ℕ)
      → HasRequests ctrl w.chabu level xs
      → (xs ≡ [] → (entries_of ctrl w.chabu i).next ≡ none)
      → (add_recv_limit cb w (pos i) (negsuc n) ≡ ok (report_error cb parameter w))
        × (add_recv_limit cb w (pos i) (pos 0) ≡ ok w)
        × (n ≢ 0 → Returns (Granted cb w i n level xs) (add_recv_limit cb w (pos i) (pos n)))
  unfolding add_recv_limit add_recv_limit_of set_request_ctrl_arm set_request_ctrl set_channel
  add_recv_limit-Granted n has idle =
      let here = λ (n : ℤ). ap (λ p. add_recv_limit_of cb p n) (checked_some cb w i exists) in
      (
        here (negsuc n),
        here (pos 0),
        λ nz.
            let (v, r, (listed, touches, told)) =
              ask-Asked cb passive ctrl w w' i level xs (λ j. ground arith) (λ j. ground arith) refl
                exists (ap (λ (x : Channel). x.priority) self ∙ prio) has idle in
            (
              v,
              here (pos n) ∙ rw (ne→== n 0 nz) r,
              record {
                changed = Touches-Changed ctrl level w.chabu i ch' v.chabu (twice v.chabu touches);
                asks = listed;
                told = told;
              },
            ),
      )
    where
      ch : Channel
      ch = w.chabu.channels i

      ch' : Channel
      ch' = record ch {
        recv_arm = (ch.recv_arm + n) % 2 ^ 32;
        recv_limit = (ch.recv_limit + n) % 2 ^ 64;
        xmit_request_ctrl_arm = true;
      }

      w1 : World U
      w1 = put_channel w i (record ch {
        recv_arm = (ch.recv_arm + n) % 2 ^ 32;
        recv_limit = (ch.recv_limit + n) % 2 ^ 64;
      })

      w' : World U
      w' = put_channel w1 i (record (w1.chabu.channels i) { xmit_request_ctrl_arm = true })

      self : w'.chabu.channels i ≡ ch'
      self = ground arith

      once : (j : ℕ) → w'.chabu.channels j ≡ (if i == j then ch' else w.chabu.channels j)
      once j = ground arith

      twice :
          (c : Chabu)
          → Touches ctrl level w'.chabu c
          → Touches ctrl level (put_channel w i ch').chabu c
      twice c t =
          subst (λ f. Touches ctrl level (record (w.chabu) { channels = f }) c) (fun_ext once) t
