-- ===== src/Link/Delivery.antt =====
-- What comes out at the far end of a connection: c/org.chabu/src/Chabu.c, both halves.
use mathlib.Core.Path.{subst}
use chabu.Prelude.{
  ℕ, ◌+◌, ◌≢◌, take, ◌≡◌, sym, ◌∙◌, ap, Bool, true, false, List, [], ◌++◌, append_assoc, append-nil,
  length,
}
use chabu.Run.{Run, ok, Returns, Returns_at}
use chabu.Buffer.{has_remaining}
use chabu.State.{XmitState}
use chabu.World.{World, Callbacks}
use chabu.Xmit.Carrier.{held, IsCarrier}
use chabu.Xmit.Pending.{write_pending_xmit_data, write_seq_payload}
use chabu.Recv.Payload.{recv_seq_payload}
use chabu.Xmit.Written.{Written}
use chabu.Recv.Packet.{Step}
use chabu.Recv.Loop.{is_seq_payload, read_pass}
use chabu.Recv.Source.{IsSource}
use chabu.Recv.Whole.{Whole, state_of}
use chabu.Link.{send, receive, Reach, start, later}
use chabu.Link.Carried.{Carried, Carried-shorter}
use chabu.Link.Ends.{
  CanSend, Sends, Sends-refl, write_pending_lem, Written-Sends, Sends-Written, CanReceive, Receives,
  Receives-refl, read_pass_lem, Whole-Receives, Receives-Whole,
}

returned : {A : Type 0} {P : A → Type 0} (r s : Run A) → r ≡ s → Returns P s → (a : A) × (r ≡ ok a)
returned r s e (a, f, p) = (a, e ∙ f)

module _ {U V : Type 0} (cs : Callbacks U) (cr : Callbacks V) (sent given : U → List ℕ)
    (arrived : V → List ℕ) where
  -- Both ends have the header of the same packet behind them, and nothing is on its way.
  pub record Begun (n : ℕ) (w : World U) (v : World V) : Type 0 where
    pub to_send : w.chabu.xmit_seq_remaining_payload ≡ n
    pub to_come : v.chabu.recv_seq_remaining_payload ≡ n
    pub same : arrived v.app ≡ sent w.app
    pub can_send : CanSend cs sent given w
    pub can_receive : CanReceive cr arrived v

  -- What holds of the two ends, whatever they did since `w0` and `v0`. `late` is what the network has
  -- not delivered yet.
  record Linked (n : ℕ) (w0 w : World U) (v0 v : World V) : Type 0 where
    sends : Sends cs sent given n w0 w
    receives : Receives cr arrived n v0 v
    late : List ℕ
    behind : arrived v.app ++ late ≡ sent w.app

  -- What the far end has got of the payload is the beginning of what the application of the near end
  -- has handed out, and neither end fails in its next step.
  pub record Delivered (n : ℕ) (w0 w : World U) (v0 v : World V) : Type 0 where
    pub bytes : List ℕ
    pub pad : List ℕ
    pub arrival : arrived v.app ≡ arrived v0.app ++ (bytes ++ pad)
    pub counted : length bytes + v.chabu.recv_seq_remaining_payload ≡ n
    pub waits : v.chabu.recv_seq_remaining_payload ≢ 0 → pad ≡ []
    pub fresh : List ℕ
    pub handed : given w.app ≡ given w0.app ++ fresh
    pub rest : List ℕ
    pub beginning : bytes ++ rest ≡ held w0.chabu.xmit_seq_buffer_user ++ fresh
    pub can_send :
        w.chabu.xmit_state ≡ XmitState.seq_payload
        → has_remaining w.chabu.xmit_buffer ≡ false
        → (r : Bool × World U) × (write_pending_xmit_data cs w ≡ ok r)
    pub can_receive :
        is_seq_payload v.chabu.recv_state ≡ true → (s : Step (World V)) × (read_pass cr v ≡ ok s)

  module _ (k : IsCarrier cs sent given) (l : IsSource cr arrived) where
    sent_more :
        (n : ℕ) (w0 w w' : World U) (v0 v : World V) (done : Bool)
        → (s : Linked n w0 w v0 v) → Written cs sent given w s.sends.can.q done w'
        → Linked n w0 w' v0 v
    sent_more n w0 w w' v0 v done s d =
        let new = d.out ++ take d.gap (take s.sends.can.q w.chabu.xmit_buffer.memory) in
        record {
          sends = Written-Sends cs sent given n w0 w w' done s.sends d;
          receives = s.receives;
          late = s.late ++ new;
          behind =
              sym (append_assoc (arrived v.app) s.late new)
              ∙ ap (λ l. l ++ new) s.behind
              ∙ sym d.went;
        }

    Linked-send :
        (n : ℕ) (w0 w w' : World U) (v0 v : World V) (done : Bool)
        → w.chabu.xmit_state ≡ XmitState.seq_payload
        → has_remaining w.chabu.xmit_buffer ≡ false
        → write_pending_xmit_data cs w ≡ ok (done, w')
        → Linked n w0 w v0 v
        → Linked n w0 w' v0 v
    Linked-send n w0 w w' v0 v done busy out e s = sent_more n w0 w w' v0 v done s (
        Returns_at (λ (done, w'). Written cs sent given w s.sends.can.q done w')
          (write_seq_payload cs w) (done, w') (Sends-Written cs sent given k w s.sends.can)
          (sym (write_pending_lem cs sent given w busy out) ∙ e))

    got_more :
        (n : ℕ) (w0 w : World U) (v0 v v' : World V) (late : List ℕ)
        → arrived v'.app ++ late ≡ sent w.app
        → (h : Linked n w0 w v0 v) → Whole cr arrived v h.receives.can.q v'
        → Linked n w0 w v0 v'
    got_more n w0 w v0 v v' late behind h d = record {
      sends = h.sends;
      receives = Whole-Receives cr arrived n v0 v v' h.receives d;
      late = late;
      behind = behind;
    }

    Linked-receive :
        (n : ℕ) (w0 w : World U) (v0 v : World V) (s : Step (World V)) (late : List ℕ)
        → is_seq_payload v.chabu.recv_state ≡ true
        → read_pass cr v ≡ ok s
        → arrived (state_of cr arrived s).app ++ late ≡ sent w.app
        → Linked n w0 w v0 v
        → Linked n w0 w v0 (state_of cr arrived s)
    Linked-receive n w0 w v0 v s late busy e behind h =
        got_more n w0 w v0 v (state_of cr arrived s) late behind h (
          Returns_at (λ s. Whole cr arrived v h.receives.can.q (state_of cr arrived s))
            (recv_seq_payload cr v) s (Receives-Whole cr arrived l v h.receives.can)
            (sym (read_pass_lem cr arrived v busy) ∙ e))

    Reach-Linked :
        (n : ℕ) (w0 : World U) (v0 : World V)
        → Begun n w0 v0
        → {w : World U} {v : World V} → Reach cs cr sent arrived w0 v0 w v
        → Linked n w0 w v0 v
    Reach-Linked n w0 v0 b start = record {
      sends =
          subst (λ n. Sends cs sent given n w0 w0) b.to_send
            (Sends-refl cs sent given w0 b.can_send);
      receives =
          subst (λ n. Receives cr arrived n v0 v0) b.to_come
            (Receives-refl cr arrived v0 b.can_receive);
      late = [];
      behind = append-nil _ ∙ b.same;
    }
    Reach-Linked n w0 v0 b (later {w} {w'} {v} r (send {done} busy out e)) =
        Linked-send n w0 w w' v0 v done busy out e (Reach-Linked n w0 v0 b r)
    Reach-Linked n w0 v0 b (later {w} {v} r (receive {s} late busy e behind)) =
        Linked-receive n w0 w v0 v s late busy e behind (Reach-Linked n w0 v0 b r)

    -- During a payload of `n` bytes, in any order of the steps of the two ends, what has come of the
    -- payload at the far end is the beginning of what the application of the near end has handed out,
    -- with `n` bytes in all, and no padding comes before the payload is complete. Neither end fails in
    -- its next step. Conditions: both ends begin behind the header of the same packet with nothing on
    -- its way, the near end sends while no other bytes are in its transmit buffer, the network delivers
    -- a beginning of what it was given, and the registered functions do as documented.
    pub Reach-Delivered :
        (n : ℕ) (w0 : World U) (v0 : World V)
        → Begun n w0 v0
        → {w : World U} {v : World V} → Reach cs cr sent arrived w0 v0 w v
        → Delivered n w0 w v0 v
    Reach-Delivered n w0 v0 b {w} {v} r =
        let h = Reach-Linked n w0 v0 b r in
        let s = h.sends in
        let g = h.receives in
        let (more, e) =
          Carried-shorter (sent w0.app) (sent w.app) (arrived v.app) h.late s.out g.bytes n
            w.chabu.xmit_seq_remaining_payload v.chabu.recv_seq_remaining_payload s.carried
            (subst (λ l. Carried l (arrived v.app) g.bytes n v.chabu.recv_seq_remaining_payload)
              b.same g.carried)
            h.behind in
        record {
          bytes = g.bytes;
          pad = g.carried.pad;
          arrival = g.carried.went;
          counted = g.carried.counted;
          waits = g.carried.waits;
          fresh = s.fresh;
          handed = s.came;
          rest = more ++ held w.chabu.xmit_seq_buffer_user;
          beginning =
              sym (append_assoc g.bytes more (held w.chabu.xmit_seq_buffer_user))
              ∙ ap (λ l. l ++ held w.chabu.xmit_seq_buffer_user) e
              ∙ sym s.in_order;
          can_send = λ busy out.
              returned (write_pending_xmit_data cs w) (write_seq_payload cs w)
                (write_pending_lem cs sent given w busy out)
                (Sends-Written cs sent given k w s.can);
          can_receive = λ busy.
              returned (read_pass cr v) (recv_seq_payload cr v) (read_pass_lem cr arrived v busy)
                (Receives-Whole cr arrived l v g.can);
        }
