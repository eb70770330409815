-- ===== src/Recv/Passes.antt =====
-- The loop of `handleReads` (c/org.chabu/src/Chabu.c) as a relation, and when it ends. A pass has one loop of
-- its own, along the list of requests where an ARM packet asks for a turn; in a list that is a ring this
-- loop has no end, and the function with rounds reports that it has none left.
use mathlib.Core.Path.{subst}
use chabu.Prelude.{ℕ, ◌<◌, ◌≤◌, ◌≡◌, ◌≢◌, false}
use chabu.Run.{Run, ok, fault, Fault, no_rounds_left}
use chabu.World.{World, Callbacks}
use chabu.Recv.Packet.{again, stop}
use chabu.Recv.Loop.{is_seq_payload, read_pass}
use chabu.Recv.Stream.{HasPadding, bytes_left}
use chabu.Recv.Sinks.{Sinks}

module _ {U : Type 0} (cb : Callbacks U) where
  -- `while( true )`: the passes of the loop from `w`, and how they end, in a state or in a fault of the
  -- code. A pass that is lost in the list of requests is no end.
  pub data Passes : World U → Run (World U) → Type 0 where
    left : {w w' : World U} → read_pass cb w ≡ ok (stop w') → Passes w (ok w')
    failed :
        {w : World U} {e : Fault}
        → read_pass cb w ≡ fault e
        → e ≢ no_rounds_left
        → Passes w (fault e)
    onward :
        {w w' : World U} {r : Run (World U)}
        → read_pass cb w ≡ ok (again w')
        → Passes w' r
        → Passes w r

  -- A pass from `w` on is lost in the list of requests.
  pub data Stuck : World U → Type 0 where
    lost : {w : World U} → read_pass cb w ≡ fault no_rounds_left → Stuck w
    later : {w w' : World U} → read_pass cb w ≡ ok (again w') → Stuck w' → Stuck w

  -- A loop that is lost does not end.
  pub Stuck-Passes : {w : World U} {r : Run (World U)} → Stuck w → Passes w r → ⊥
  Stuck-Passes (lost e) (left f) = absurd cc
  Stuck-Passes (lost e) (failed f ne) = ne cc
  Stuck-Passes (lost e) (onward f q) = absurd cc
  Stuck-Passes (later e s) (left f) = absurd cc
  Stuck-Passes (later e s) (failed f ne) = absurd cc
  Stuck-Passes {r} (later {w' = a} e s) (onward {w' = b} f q) =
      let same : b ≡ a = cc in Stuck-Passes s (subst (λ x. Passes x r) same q)

  -- A pass has one outcome, and so has the loop.
  pub Passes-unique : {w : World U} {r s : Run (World U)} → Passes w r → Passes w s → r ≡ s
  Passes-unique (left e) (left f) = cc
  Passes-unique (left e) (failed f mf) = absurd cc
  Passes-unique (left e) (onward f q) = absurd cc
  Passes-unique (failed e ne) (left f) = absurd cc
  Passes-unique (failed e ne) (failed f mf) = cc
  Passes-unique (failed e ne) (onward f q) = absurd cc
  Passes-unique (onward e p) (left f) = absurd cc
  Passes-unique (onward e p) (failed f mf) = absurd cc
  Passes-unique {s} (onward {w' = a} e p) (onward {w' = b} f q) =
      let same : b ≡ a = cc in Passes-unique p (subst (λ x. Passes x s) same q)

  module _ (pending : U → ℕ) where
    -- Less is to come.
    pub record Advances (w w' : World U) : Type 0 where
      pub less : bytes_left cb pending w' < bytes_left cb pending w
      pub padding : HasPadding w'.chabu

    record Nearer (w w' : World U) : Type 0 where
      pub at_most : bytes_left cb pending w' ≤ bytes_left cb pending w
      pub strict :
          is_seq_payload w'.chabu.recv_state ≡ false
          → bytes_left cb pending w' < bytes_left cb pending w
      pub padding : HasPadding w'.chabu
