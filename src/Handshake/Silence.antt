-- ===== src/Handshake/Silence.antt =====
-- When the transmit half is silent, over all calls of the library (c/org.chabu/src/Chabu.c): before the
-- SETUP packet of the peer, and after an abort.
use chabu.Prelude.{ℕ, zero, suc, sym, Bool, true, ◌&&◌, if◌then◌else◌, false, ◌≡◌, inl, inr}
use chabu.Run.{bool-OnOk, ok, OnOk, bind-OnOk, if-OnOk}
use chabu.Buffer.{has_remaining}
use chabu.State.{XmitState, network_register_write_request}
use chabu.World.{World, Callbacks}
use chabu.Xmit.Prepare.{prepare_next_xmit_state}
use chabu.Recv.Loop.{handle_network}
use chabu.Handshake.{Holds, Keeps-Holds, IsMindful, if_holds}
use chabu.Handshake.Calls.{Calls, Calls-Holds}
use chabu.Handshake.Reads.{handle_reads-H}
use chabu.Recv.Loop.{handle_reads}
use chabu.Xmit.Pending.{xmit_own, write_seq_payload, write_pending_xmit_data, handle_writes}
use mathlib.Core.Path.{subst}
use chabu.Handshake.Order.{Greeted, learnt, handle_network-Greeted}

module _ {U : Type 0} (cb : Callbacks U) (m : IsMindful cb) where
  -- From the start of a connection on, whatever the application calls in whatever order: as long as the
  -- SETUP packet of the peer has not come in, the transmit half is in its first state, and
  -- `prepareNextXmitState` prepares nothing. Condition: the notifications of the application do not change
  -- the state of the transmit half or what is known of the peer.
  pub Calls-setup :
      {w0 w : World U}
      → w0.chabu.xmit_state ≡ XmitState.setup
      → Calls cb w0 w
      → w.chabu.connection_info_remote.has_content ≡ false
      → (w.chabu.xmit_state ≡ XmitState.setup) × (prepare_next_xmit_state cb w ≡ ok (false, w))
  unfolding prepare_next_xmit_state
  Calls-setup {w} start r silent =
      waits (Calls-Holds cb m Greeted learnt (handle_network-Greeted cb m) (inl start) r)
    where
      waits :
          Holds Greeted w.chabu
          → (w.chabu.xmit_state ≡ XmitState.setup) × (prepare_next_xmit_state cb w ≡ ok (false, w))
      waits (inl e) = (e, simp (e, silent, prepare_next_xmit_state))
      waits (inr known) = absurd (cc (known, silent))

-- The transmit half has aborted.
abbrev IsAborted : XmitState → Bool → Type 0
IsAborted s b = s ≡ XmitState.abort

module _ {U : Type 0} (cb : Callbacks U) (m : IsMindful cb) where
  abbrev Ha : World U → Type 0
  Ha w = Holds IsAborted w.chabu

  abbrev Answered : Bool × World U → Type 0
  Answered (more, w) = Ha w

  write_pending-IsAborted : (w : World U) → Ha w → OnOk Answered (write_pending_xmit_data cb w)
  unfolding write_pending_xmit_data xmit_own
  write_pending-IsAborted w h =
      let pending = has_remaining w.chabu.xmit_buffer in
      let w' : World U = if pending then xmit_own cb w else w in
      let h' : Ha w' = if_holds Ha pending (xmit_own cb w) w h h in
      if-OnOk Answered (pending && has_remaining w'.chabu.xmit_buffer) _ _ h'
        (at_state w' h' w'.chabu.xmit_state h')
    where
      at_state :
          (w : World U)
          → Ha w
          → (s : XmitState) → s ≡ XmitState.abort
          → OnOk Answered
              (elim s [ XmitState.seq_payload ↦ write_seq_payload cb w | _ ↦ ok (true, w) ])
      at_state w h s e =
          subst
            (λ s.
              OnOk Answered
                (elim s [ XmitState.seq_payload ↦ write_seq_payload cb w | _ ↦ ok (true, w) ]))
            (sym e) h

  prepare_next-aborted : (w : World U) → Ha w → prepare_next_xmit_state cb w ≡ ok (false, w)
  unfolding prepare_next_xmit_state
  prepare_next-aborted w h = simp (h, prepare_next_xmit_state)

  handle_writes-IsAborted : (rounds : ℕ) (w : World U) → Ha w → OnOk Ha (handle_writes cb rounds w)
  unfolding handle_writes
  handle_writes-IsAborted zero w h = tt
  handle_writes-IsAborted (suc rounds) w h =
      bind-OnOk Answered Ha (write_pending_xmit_data cb w) _ (write_pending-IsAborted w h)
        λ (all, w1) h1.
          bool-OnOk Ha all _ _
            (bind-OnOk Answered Ha (prepare_next_xmit_state cb w1) _
              (subst (OnOk Answered) (sym (prepare_next-aborted w1 h1)) h1)
              λ (more, w2) h2. bool-OnOk Ha more _ _ (handle_writes-IsAborted rounds w2 h2) h2)
            (Keeps-Holds IsAborted w1 _ (m.on_event network_register_write_request w1) h1)

  handle_network-IsAborted :
      (rounds : ℕ) (w : World U) → Ha w → OnOk Ha (handle_network cb rounds w)
  unfolding handle_network
  handle_network-IsAborted rounds w h =
      bind-OnOk Ha Ha (handle_reads cb rounds w) _
        (handle_reads-H cb m IsAborted (λ s b h. h) rounds w h)
        (λ w1 h1. handle_writes-IsAborted rounds w1 h1)

  -- Once the transmit half has aborted, it stays so whatever the application calls and whatever the peer
  -- sends, and `prepareNextXmitState` prepares nothing any more. Condition: the notifications of the
  -- application do not change the state of the transmit half or what is known of the peer.
  pub Calls-abort :
      {w0 w : World U}
      → w0.chabu.xmit_state ≡ XmitState.abort
      → Calls cb w0 w
      → (w.chabu.xmit_state ≡ XmitState.abort) × (prepare_next_xmit_state cb w ≡ ok (false, w))
  Calls-abort {w} ended r =
      let h : w.chabu.xmit_state ≡ XmitState.abort =
        Calls-Holds cb m IsAborted (λ s b h. h) handle_network-IsAborted ended r in
      (h, prepare_next-aborted w h)
