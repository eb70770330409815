-- ===== src/Channel/Remaining.antt =====
-- c/org.chabu/src/ChabuChannel.c: what the application reads of a channel once it has moved the limit up.
use chabu.Prelude.{ℕ, ◌≡◌}
use chabu.Prelude.Int.{pos}
use chabu.State.{Channel}
use chabu.World.{World, Callbacks}
use chabu.Channel.{get_xmit_limit, get_xmit_position, get_xmit_remaining}

-- The three getters of the transmit half give these numbers for channel `i`, and leave the world alone.
pub record Shows {U : Type 0} (cb : Callbacks U) (i limit position remaining : ℕ) (w : World U)
    : Type 0 where
  pub limit_is : get_xmit_limit cb w (pos i) ≡ (pos limit, w)
  pub position_is : get_xmit_position cb w (pos i) ≡ (pos position, w)
  pub remaining_is : get_xmit_remaining cb w (pos i) ≡ (pos remaining, w)
