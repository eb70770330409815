-- ===== src/Handshake/Order.antt =====
-- The order of the handshake over all calls of the library (c/org.chabu/src/Chabu.c, ChabuChannel.c).
use chabu.Prelude.{
  ℕ, zero, suc, ◌≡◌, refl, ◌∙◌, ap, ◌⊎◌, inl, inr, Bool, true, false, ◌&&◌, if◌then◌else◌,
}
use chabu.Run.{ok, ◌>>=◌, OnOk, OnOk-mono, bind-OnOk, if-OnOk, test-OnOk, bool-OnOk}
use chabu.Buffer.{has_remaining}
use chabu.State.{Chabu, XmitState, network_register_write_request}
use chabu.World.{World, Callbacks, with_chabu}
use chabu.Xmit.Prepare.{answer_setup, idle_next, prepare_idle, prepare_next_xmit_state}
use chabu.Xmit.Pending.{xmit_own, write_seq_payload, write_pending_xmit_data, handle_writes}
use chabu.Recv.Loop.{handle_reads, handle_network}
use chabu.Handshake.{Holds, Keeps-Holds, IsMindful, if_holds}
use chabu.Handshake.Reads.{handle_reads-H}
use chabu.Handshake.Write.{
  Known, IsKnown, KnownWith, answer_setup-Known, write_seq_payload-Known, prepare_idle-Known,
}

-- The transmit half waits in its first state, or the SETUP packet of the peer is in.
abbrev pub Greeted : XmitState → Bool → Type 0
Greeted s b = (s ≡ XmitState.setup) ⊎ (b ≡ true)

abbrev is_setup : XmitState → Bool
is_setup XmitState.setup = true
is_setup _ = false

pub learnt : (s : XmitState) (b : Bool) → Greeted s b → Greeted s true
learnt s b h = inr refl

past_setup : (s : XmitState) (b : Bool) → is_setup s ≡ false → Greeted s b → b ≡ true
past_setup s b e (inl f) = absurd (cc (e, ap is_setup f))
past_setup s b e (inr f) = f

module _ {U : Type 0} (cb : Callbacks U) (m : IsMindful cb) where
  abbrev pub IsGreeted : World U → Type 0
  IsGreeted w = Holds Greeted w.chabu

  abbrev GreetedWith : Bool × World U → Type 0
  GreetedWith (more, w) = IsGreeted w

  write_pending-Greeted :
      (w : World U) → IsGreeted w → OnOk GreetedWith (write_pending_xmit_data cb w)
  unfolding write_pending_xmit_data xmit_own
  write_pending-Greeted w h =
      let pending = has_remaining w.chabu.xmit_buffer in
      let w' : World U = if pending then xmit_own cb w else w in
      let h' : IsGreeted w' = if_holds IsGreeted pending (xmit_own cb w) w h h in
      if-OnOk GreetedWith (pending && has_remaining w'.chabu.xmit_buffer) _ _ h'
        (at_state w' h' w'.chabu.xmit_state refl)
    where
      at_state :
          (w : World U)
          → IsGreeted w
          → (s : XmitState) → w.chabu.xmit_state ≡ s
          → OnOk GreetedWith
              (elim s [ XmitState.seq_payload ↦ write_seq_payload cb w | _ ↦ ok (true, w) ])
      at_state w h XmitState.seq_payload e =
          OnOk-mono (KnownWith cb m) GreetedWith (write_seq_payload cb w) (λ (more, w) g. inr g)
            (write_seq_payload-Known cb m w (past_setup _ _ (ap is_setup e) h))
      at_state w h XmitState.setup e = h
      at_state w h XmitState.accept e = h
      at_state w h XmitState.abort e = h
      at_state w h XmitState.ping e = h
      at_state w h XmitState.pong e = h
      at_state w h XmitState.arm e = h
      at_state w h XmitState.seq e = h
      at_state w h XmitState.idle e = h

  idle_next-Greeted : (w : World U) → IsKnown cb m w → OnOk GreetedWith (idle_next cb w)
  unfolding idle_next
  idle_next-Greeted w h =
      let c : Chabu = record (w.chabu) { xmit_state = XmitState.idle } in
      bind-OnOk (λ (more, c). Holds Known c) GreetedWith (prepare_idle c) _ (prepare_idle-Known c h)
        (λ (more, c) g. inr g)

  prepare_next-Greeted :
      (w : World U) → IsGreeted w → OnOk GreetedWith (prepare_next_xmit_state cb w)
  unfolding prepare_next_xmit_state
  prepare_next-Greeted w h = at_state w.chabu.xmit_state refl
    where
      idled :
          (s : XmitState)
          → w.chabu.xmit_state ≡ s
          → is_setup s ≡ false
          → OnOk GreetedWith (idle_next cb w)
      idled s e f = idle_next-Greeted w (past_setup _ _ (ap is_setup e ∙ f) h)

      at_state :
          (s : XmitState)
          → w.chabu.xmit_state ≡ s
          → OnOk GreetedWith (elim s [
            | XmitState.setup ↦
                if w.chabu.connection_info_remote.has_content
                then (answer_setup cb w >>= λ w. ok (true, w))
                else ok (false, w)
            | XmitState.accept ↦ idle_next cb w
            | XmitState.seq_payload ↦ idle_next cb w
            | XmitState.ping ↦ idle_next cb w
            | XmitState.pong ↦ idle_next cb w
            | XmitState.arm ↦ idle_next cb w
            | XmitState.idle ↦ idle_next cb w
            | XmitState.seq ↦
                ok (true, with_chabu w (record (w.chabu) { xmit_state = XmitState.seq_payload }))
            | XmitState.abort ↦ ok (false, w)
          ])
      at_state XmitState.setup e =
          test-OnOk GreetedWith w.chabu.connection_info_remote.has_content _ _
            (λ t.
              bind-OnOk (IsKnown cb m) GreetedWith (answer_setup cb w) _
                (answer_setup-Known cb m w t) (λ w1 g. inr g))
            (λ f. h)
      at_state XmitState.accept e = idled XmitState.accept e refl
      at_state XmitState.seq_payload e = idled XmitState.seq_payload e refl
      at_state XmitState.ping e = idled XmitState.ping e refl
      at_state XmitState.pong e = idled XmitState.pong e refl
      at_state XmitState.arm e = idled XmitState.arm e refl
      at_state XmitState.idle e = idled XmitState.idle e refl
      at_state XmitState.seq e = inr (past_setup _ _ (ap is_setup e) h)
      at_state XmitState.abort e = h

  handle_writes-Greeted :
      (rounds : ℕ) (w : World U) → IsGreeted w → OnOk IsGreeted (handle_writes cb rounds w)
  unfolding handle_writes
  handle_writes-Greeted zero w h = tt
  handle_writes-Greeted (suc rounds) w h =
      bind-OnOk GreetedWith IsGreeted (write_pending_xmit_data cb w) _ (write_pending-Greeted w h)
        λ (all, w1) h1.
          bool-OnOk IsGreeted all _ _
            (bind-OnOk GreetedWith IsGreeted (prepare_next_xmit_state cb w1) _
              (prepare_next-Greeted w1 h1)
              λ (more, w2) h2. bool-OnOk IsGreeted more _ _ (handle_writes-Greeted rounds w2 h2) h2)
            (Keeps-Holds Greeted w1 _ (m.on_event network_register_write_request w1) h1)

  pub handle_network-Greeted :
      (rounds : ℕ) (w : World U) → IsGreeted w → OnOk IsGreeted (handle_network cb rounds w)
  unfolding handle_network
  handle_network-Greeted rounds w h =
      bind-OnOk IsGreeted IsGreeted (handle_reads cb rounds w) _
        (handle_reads-H cb m Greeted learnt rounds w h)
        (λ w1 h1. handle_writes-Greeted rounds w1 h1)
