-- ===== src/Channel/Receive.antt =====
-- The receive limit of a channel, as it is set and as it is read.
use chabu.Prelude.{ℕ, ◌^◌, ◌<◌, ◌≡◌, sym, ◌∙◌, ap, arith, lt→ltb}
use chabu.Prelude.Int.{ℤ, pos}
use chabu.Run.{Returns}
use chabu.State.{Channel}
use chabu.World.{World, Callbacks, put_channel}
use chabu.Channel.{
  set_recv_limit, set_recv_limit_of, get_recv_limit, get_xmit_limit, read_channel, read_channel_of,
  of_int64, to_int64,
}
use chabu.Channel.Laws.{checked_some}

module _ {U : Type 0} (cb : Callbacks U) (w : World U) (i : ℕ)
    (exists : i < w.chabu.channel_count) where
  -- What a getter reads of an existing channel.
  pub read_channel_lem :
      (field : Channel → ℕ)
      → read_channel cb field w (pos i) ≡ (to_int64 (field (w.chabu.channels i)), w)
  unfolding read_channel read_channel_of
  read_channel_lem field = ap (read_channel_of cb field) (checked_some cb w i exists)

pub to_int64_small : (n : ℕ) → n < 2 ^ 63 → to_int64 n ≡ pos n
unfolding to_int64
to_int64_small n h = rw (lt→ltb n (2 ^ 63) h)

of_int64_small : (n : ℕ) → n < 2 ^ 63 → of_int64 (pos n) ≡ n
unfolding of_int64
of_int64_small n h = omega arith

-- For an existing channel `Chabu_Channel_SetRecvLimit` ends without a fault, but the receive limit
-- then reads as it did before, and it is the transmit limit that reads as the value given.
pub get_recv_limit-set_recv_limit :
    {U : Type 0} (cb : Callbacks U) (w : World U) (i limit : ℕ)
    → i < w.chabu.channel_count
    → limit < 2 ^ 63
    → Returns
        (λ w'.
          ((get_recv_limit cb w' (pos i)).0 ≡ (get_recv_limit cb w (pos i)).0)
          × ((get_xmit_limit cb w' (pos i)).0 ≡ pos limit))
        (set_recv_limit cb w (pos i) (pos limit))
unfolding set_recv_limit set_recv_limit_of get_recv_limit get_xmit_limit
get_recv_limit-set_recv_limit {U} cb w i limit exists word =
    let ch : Channel = record (w.chabu.channels i) { xmit_limit = of_int64 (pos limit) } in
    let w' : World U = put_channel w i ch in
    let self : w'.chabu.channels i ≡ ch = ground arith in
    let read : (v : World U)
        → i < v.chabu.channel_count
        → (field : Channel → ℕ)
        → (read_channel cb field v (pos i)).0 ≡ to_int64 (field (v.chabu.channels i)) =
      λ v e field. ap (λ (p : ℤ × World U). p.0) (read_channel_lem cb v i e field) in
    (
      w',
      ap (λ p. set_recv_limit_of cb p (pos limit)) (checked_some cb w i exists),
      (
        read w' exists (λ c. c.recv_limit)
            ∙ ap (λ (c : Channel). to_int64 c.recv_limit) self
            ∙ sym (read w exists (λ c. c.recv_limit)),
        read w' exists (λ c. c.xmit_limit)
            ∙ ap (λ (c : Channel). to_int64 c.xmit_limit) self
            ∙ ap to_int64 (of_int64_small limit word)
            ∙ to_int64_small limit word,
      ),
    )
