-- ===== src/Tests/Calls.antt =====
-- Runs of ChabuChannel.c.
use chabu.Prelude.{ℕ, ◌<◌, ◌≤◌, ◌≡◌, refl, ◌≢◌, [], arith}
use chabu.Prelude.Int.{pos, negsuc}
use chabu.Run.{ok, Returns}
use chabu.Errors.{parameter}
use chabu.Priority.{ctrl, seq_data}
use chabu.World.{World, report_error}
use chabu.Channel.{
  of_int64, set_xmit_limit, add_xmit_limit, set_recv_limit, add_recv_limit, get_xmit_limit,
  get_recv_limit,
}
use chabu.Channel.Laws.{Released}
use chabu.Channel.Limits.{
  set_xmit_limit-Released, add_xmit_limit-Released, Granted, add_recv_limit-Granted,
}
use chabu.Channel.Receive.{get_recv_limit-set_recv_limit}
use chabu.Tests.Sample.{quiet, quiet-IsPassive, sample_world, sample-HasRequests}

abbrev added : ℕ
added = 8

abbrev idle_world : World (Unit {0})
idle_world = sample_world []

set_xmit_limit-Released_example :
    (of_int64 (pos 600) < 500
      → set_xmit_limit quiet idle_world (pos 1) (pos 600)
        ≡ ok (report_error quiet parameter idle_world))
    × (500 ≤ of_int64 (pos 600)
        → Returns
            (Released quiet idle_world 1 (of_int64 (pos 600)) 0 [])
            (set_xmit_limit quiet idle_world (pos 1) (pos 600)))
set_xmit_limit-Released_example =
    set_xmit_limit-Released quiet quiet-IsPassive idle_world 1 0 [] (omega arith) refl (pos 600)
      (sample-HasRequests seq_data []) (λ e. refl)

add_xmit_limit-Released_example :
    (add_xmit_limit quiet idle_world (pos 1) (negsuc 8)
      ≡ ok (report_error quiet parameter idle_world))
    × (add_xmit_limit quiet idle_world (pos 1) (pos 0) ≡ ok idle_world)
    × (added ≢ 0
        → Returns
            (Released quiet idle_world 1 508 0 [])
            (add_xmit_limit quiet idle_world (pos 1) (pos 8)))
add_xmit_limit-Released_example =
    add_xmit_limit-Released quiet quiet-IsPassive idle_world 1 0 [] (omega arith) refl 8
      (sample-HasRequests seq_data []) (λ e. refl)

add_recv_limit-Granted_example :
    (add_recv_limit quiet idle_world (pos 1) (negsuc 8)
      ≡ ok (report_error quiet parameter idle_world))
    × (add_recv_limit quiet idle_world (pos 1) (pos 0) ≡ ok idle_world)
    × (added ≢ 0
        → Returns
            (Granted quiet idle_world 1 8 0 [])
            (add_recv_limit quiet idle_world (pos 1) (pos 8)))
add_recv_limit-Granted_example =
    add_recv_limit-Granted quiet quiet-IsPassive idle_world 1 0 [] (omega arith) refl 8
      (sample-HasRequests ctrl []) (λ e. refl)

get_recv_limit-set_recv_limit_example :
    Returns
      (λ w'.
        ((get_recv_limit quiet w' (pos 1)).0 ≡ (get_recv_limit quiet idle_world (pos 1)).0)
        × ((get_xmit_limit quiet w' (pos 1)).0 ≡ pos 600))
      (set_recv_limit quiet idle_world (pos 1) (pos 600))
get_recv_limit-set_recv_limit_example =
    get_recv_limit-set_recv_limit quiet idle_world 1 600 (omega arith) (omega arith)
