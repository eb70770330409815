-- ===== src/Link/Ends.antt =====
-- What holds at either end during the payload of a SEQ packet (c/org.chabu/src/Chabu.c).
use chabu.Prelude.{
  ℕ, ◌-◌, ◌≤◌, ◌≡◌, sym, ◌∙◌, ap, Bool, true, false, some, List, [], ◌++◌, append-nil, append_assoc,
  arith, length, take,
}
use chabu.Prelude.Int.{pos}
use chabu.Run.{Returns}
use chabu.Buffer.{has_remaining}
use chabu.State.{XmitState}
use chabu.World.{World, Callbacks}
use chabu.Xmit.Carrier.{held, IsCarrier}
use chabu.Xmit.Deliver.{Ready}
use chabu.Xmit.Pending.{write_seq_payload, write_pending_xmit_data}
use chabu.Xmit.Written.{Written, write_seq_payload-Written}
use chabu.Recv.Payload.{recv_seq_payload}
use chabu.Recv.Loop.{is_seq_payload, read_pass}
use chabu.Recv.Fill.{Filling}
use chabu.Recv.Source.{IsSource}
use chabu.Recv.Whole.{Whole, state_of, recv_seq_payload-Whole}
use chabu.Link.Carried.{Carried, Carried-refl, Carried-trans}

module _ {U : Type 0} (cb : Callbacks U) (sent given : U → List ℕ) where
  -- The end that sends can go on: the channel is known, the padding fits in the transmit buffer, and
  -- the buffer of the application is usable.
  pub record CanSend (w : World U) : Type 0 where
    pub i : ℕ
    pub q : ℕ
    pub channel : w.chabu.xmit_seq_channel ≡ some i
    pub padding : w.chabu.xmit_seq_remaining_padding ≡ pos q
    pub room : q ≤ length w.chabu.xmit_buffer.memory
    pub ready : Ready w.chabu.xmit_seq_buffer_user w.chabu.xmit_seq_remaining_payload

  -- Since `w0`, a part of a payload of `n` bytes was sent, which the application handed out.
  pub record Sends (n : ℕ) (w0 w : World U) : Type 0 where
    pub out : List ℕ
    pub carried : Carried (sent w0.app) (sent w.app) out n w.chabu.xmit_seq_remaining_payload
    pub fresh : List ℕ
    pub came : given w.app ≡ given w0.app ++ fresh
    pub in_order :
        held w0.chabu.xmit_seq_buffer_user ++ fresh ≡ out ++ held w.chabu.xmit_seq_buffer_user
    pub can : CanSend w

  pub Sends-refl : (w : World U) → CanSend w → Sends w.chabu.xmit_seq_remaining_payload w w
  Sends-refl w can = record {
    out = [];
    carried = Carried-refl (sent w.app) w.chabu.xmit_seq_remaining_payload;
    fresh = [];
    came = sym (append-nil _);
    in_order = append-nil _;
    can = can;
  }

  pub write_pending_lem :
      (w : World U)
      → w.chabu.xmit_state ≡ XmitState.seq_payload
      → has_remaining w.chabu.xmit_buffer ≡ false
      → write_pending_xmit_data cb w ≡ write_seq_payload cb w
  unfolding write_pending_xmit_data
  write_pending_lem w e f = simp (f, e, write_pending_xmit_data)

  Written-CanSend :
      (w w' : World U) (done : Bool)
      → (c : CanSend w) → Written cb sent given w c.q done w'
      → CanSend w'
  Written-CanSend w w' done c d = record {
    i = c.i;
    q = c.q - d.gap;
    channel = d.channel ∙ c.channel;
    padding = d.padding_counted;
    room = omega (arith, c.room, d.room);
    ready = d.ready;
  }

  pub Written-Sends :
      (n : ℕ) (w0 w w' : World U) (done : Bool)
      → (s : Sends n w0 w) → Written cb sent given w s.can.q done w'
      → Sends n w0 w'
  Written-Sends n w0 w w' done s d =
      let more : Carried (sent w.app) (sent w'.app) d.out w.chabu.xmit_seq_remaining_payload
          w'.chabu.xmit_seq_remaining_payload =
        record {
          pad = take d.gap (take s.can.q w.chabu.xmit_buffer.memory);
          went = d.went;
          counted = d.counted;
          waits = λ h. ap (λ g. take g (take s.can.q w.chabu.xmit_buffer.memory)) (d.waits h);
        } in
      record {
        out = s.out ++ d.out;
        carried =
            Carried-trans (sent w0.app) (sent w.app) (sent w'.app) s.out d.out n
              w.chabu.xmit_seq_remaining_payload w'.chabu.xmit_seq_remaining_payload s.carried more;
        fresh = s.fresh ++ d.fresh;
        came = d.came ∙ ap (λ l. l ++ d.fresh) s.came ∙ append_assoc (given w0.app) s.fresh d.fresh;
        in_order =
            sym (append_assoc (held w0.chabu.xmit_seq_buffer_user) s.fresh d.fresh)
            ∙ ap (λ l. l ++ d.fresh) s.in_order
            ∙ append_assoc s.out (held w.chabu.xmit_seq_buffer_user) d.fresh
            ∙ ap (λ l. s.out ++ l) d.in_order
            ∙ sym (append_assoc s.out d.out (held w'.chabu.xmit_seq_buffer_user));
        can = Written-CanSend w w' done s.can d;
      }

  pub Sends-Written :
      IsCarrier cb sent given
      → (w : World U) → (c : CanSend w)
      → Returns (λ (done, w'). Written cb sent given w c.q done w') (write_seq_payload cb w)
  Sends-Written k w c =
      write_seq_payload-Written cb sent given k w c.i c.q c.channel c.padding c.room c.ready

module _ {V : Type 0} (cb : Callbacks V) (arrived : V → List ℕ) where
  -- The end that receives can go on.
  pub record CanReceive (v : World V) : Type 0 where
    pub i : ℕ
    pub q : ℕ
    pub channel : v.chabu.recv_seq_channel ≡ some i
    pub padding : v.chabu.recv_seq_remaining_padding ≡ pos q
    pub room : q ≤ length v.chabu.recv_buffer.memory
    pub filling :
        Filling v.chabu.recv_seq_buffer_user v.chabu.recv_seq_buffer
          v.chabu.recv_seq_remaining_payload

  pub record Receives (n : ℕ) (v0 v : World V) : Type 0 where
    pub bytes : List ℕ
    pub carried :
        Carried (arrived v0.app) (arrived v.app) bytes n v.chabu.recv_seq_remaining_payload
    pub can : CanReceive v

  pub Receives-refl : (v : World V) → CanReceive v → Receives v.chabu.recv_seq_remaining_payload v v
  Receives-refl v can = record {
    bytes = [];
    carried = Carried-refl (arrived v.app) v.chabu.recv_seq_remaining_payload;
    can = can;
  }

  pub read_pass_lem :
      (v : World V)
      → is_seq_payload v.chabu.recv_state ≡ true
      → read_pass cb v ≡ recv_seq_payload cb v
  unfolding read_pass
  read_pass_lem v e = simp (e, read_pass)

  pub Whole-Receives :
      (n : ℕ) (v0 v v' : World V)
      → (s : Receives n v0 v) → Whole cb arrived v s.can.q v'
      → Receives n v0 v'
  Whole-Receives n v0 v v' s d = record {
    bytes = s.bytes ++ d.bytes;
    carried =
        Carried-trans (arrived v0.app) (arrived v.app) (arrived v'.app) s.bytes d.bytes n
          v.chabu.recv_seq_remaining_payload v'.chabu.recv_seq_remaining_payload s.carried
          (record { pad = d.pad; went = d.came; counted = d.counted; waits = d.waits });
    can = record {
      i = s.can.i;
      q = s.can.q - length d.pad;
      channel = d.channel ∙ s.can.channel;
      padding = d.padding_counted;
      room = omega (arith, s.can.room, d.room);
      filling = d.filling;
    };
  }

  pub Receives-Whole :
      IsSource cb arrived
      → (v : World V) → (c : CanReceive v)
      → Returns (λ s. Whole cb arrived v c.q (state_of cb arrived s)) (recv_seq_payload cb v)
  Receives-Whole k v c =
      recv_seq_payload-Whole cb arrived k v c.i c.q c.channel c.filling c.padding c.room
