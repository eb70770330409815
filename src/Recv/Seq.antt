-- ===== src/Recv/Seq.antt =====
-- The header of a SEQ packet: the position is checked, and both ends stay in step.
use chabu.Prelude.{
  ℕ, ◌+◌, ◌-◌, ◌%◌, ◌^◌, ◌<◌, ◌≡◌, refl, sym, ◌∙◌, ap, ◌≢◌, some, List, ◌++◌, arith, take, drop,
  eq→==, ne→==,
}
use chabu.Prelude.Int.{pos}
use chabu.Run.{ok, Returns}
use chabu.Buffer.{ByteBuffer, align_up4}
use chabu.Buffer.Bytes.{be32}
use chabu.Buffer.Read.{unread, get_int_be_lem, to_int_small}
use chabu.Errors.{protocol_seq_value}
use chabu.State.{Chabu, Channel, RecvState}
use chabu.World.{World, Callbacks, with_chabu, report_error}
use chabu.Xmit.Build.{xmit_size}
use chabu.Xmit.Packets.{seq_bytes}
use chabu.Xmit.Flow.{SentSeq}
use chabu.Recv.Packet.{Step, again, stop, with_recv, take_seq, recv_seq}
use chabu.Recv.Arm.{two_ints, channel_number_lem}

-- What the header of a SEQ packet with `n` bytes for channel `i` leaves.
pub record Begun {U : Type 0} (w : World U) (i n : ℕ) (s : Step (World U)) : Type 0 where
  pub after : World U
  pub goes_on : s ≡ again after
  pub advanced :
      after.chabu.channels i
      ≡ record (w.chabu.channels i) { recv_seq = ((w.chabu.channels i).recv_seq + n) % 2 ^ 32 }
  pub others : (j : ℕ) → j ≢ i → after.chabu.channels j ≡ w.chabu.channels j
  pub channel : after.chabu.recv_seq_channel ≡ some i
  pub state : after.chabu.recv_state ≡ RecvState.seq_payload
  pub payload : after.chabu.recv_seq_remaining_payload ≡ n
  pub padding : after.chabu.recv_seq_remaining_padding ≡ pos (align_up4 n - n)
  pub rest :
      after
      ≡ with_chabu w (record (w.chabu) {
        channels = after.chabu.channels;
        recv_seq_channel = after.chabu.recv_seq_channel;
        recv_state = after.chabu.recv_state;
        recv_seq_remaining_payload = after.chabu.recv_seq_remaining_payload;
        recv_seq_remaining_padding = after.chabu.recv_seq_remaining_padding;
      })

module _ {U : Type 0} (cb : Callbacks U) where
  take_seq-Begun :
      (w : World U) (i seq size : ℕ)
      → size < 2 ^ 31
      → seq ≡ (w.chabu.channels i).recv_seq
      → Returns (Begun w i size) (take_seq cb w i seq size)
  unfolding take_seq
  take_seq-Begun w i seq size h e =
      rw (eq→== _ _ e, to_int_small size h, take_seq)
        (
          _,
          refl,
          record {
            after = _;
            goes_on = refl;
            advanced = rw (eq→== i i refl);
            others = λ j ne. ground arith;
            channel = refl;
            state = refl;
            payload = refl;
            padding = refl;
            rest = refl;
          },
        )

  -- Any other position is refused: the first error is kept, and nothing else changes.
  take_seq-refused :
      (w : World U) (i seq size : ℕ)
      → seq ≢ (w.chabu.channels i).recv_seq
      → take_seq cb w i seq size ≡ ok (stop (report_error cb protocol_seq_value w))
  unfolding take_seq
  take_seq-refused w i seq size ne = rw (ne→== _ _ ne)

  -- The world once the three fields behind the packet's type are read.
  abbrev pub read_on : World U → World U
  read_on w = with_chabu w (
      with_recv w.chabu
        (record (w.chabu.recv_buffer) { position = w.chabu.recv_buffer.position + 4 + 4 + 4 }))

  module _ (w : World U) (i seq size : ℕ) (rest : List ℕ) (exists : i < w.chabu.channel_count)
      (word : i < 2 ^ 31) (seq_word : seq < 2 ^ 32) (size_word : size < 2 ^ 31)
      (bytes : unread w.chabu.recv_buffer ≡ be32 i ++ (be32 seq ++ (be32 size ++ rest))) where
    recv_seq-take_seq : recv_seq cb w ≡ take_seq cb (read_on w) i seq size
    unfolding recv_seq
    recv_seq-take_seq =
        let rb = w.chabu.recv_buffer in
        let (r, s) = two_ints rb i seq (be32 size ++ rest) (omega arith) seq_word bytes in
        let b4 : ByteBuffer = record rb { position = rb.position + 4 } in
        let more = (get_int_be_lem rb i _ (omega arith) bytes).1 in
        let (_, t) = two_ints b4 seq size rest seq_word (omega arith) more in
        rw (r, s, t, channel_number_lem w.chabu i exists word)

    -- The header of a SEQ packet that announces less than 2 ^ 31 bytes for an existing channel. Where its
    -- position is the one that the channel has received up to it is taken in: the channel has received as
    -- many bytes more as the header announces (the position wraps at 2 ^ 32), the state is seqPayload for
    -- that many bytes and the padding, and nothing else changes once the three fields are read. Where the
    -- position is another one, that of the packet before among them, the pass ends the loop with the error
    -- PROTOCOL_SEQ_VALUE and changes nothing else.
    pub recv_seq-Begun :
        (seq ≡ (w.chabu.channels i).recv_seq → Returns (Begun (read_on w) i size) (recv_seq cb w))
        × (seq ≢ (w.chabu.channels i).recv_seq
            → recv_seq cb w ≡ ok (stop (report_error cb protocol_seq_value (read_on w))))
    recv_seq-Begun = (
      λ e.
          let (s, r, b) = take_seq-Begun (read_on w) i seq size size_word e in
          (s, recv_seq-take_seq ∙ r, b),
      λ ne. recv_seq-take_seq ∙ take_seq-refused (read_on w) i seq size ne,
    )

  -- Sender and receiver agree on the position of channel `i` (modulo 2 ^ 32, as it is sent), and on
  -- what is still to come of the packet.
  pub record InStep (c : Chabu) (i : ℕ) (s : Step (World U)) : Type 0 where
    pub after : World U
    pub goes_on : s ≡ again after
    pub position : (after.chabu.channels i).recv_seq ≡ (c.channels i).xmit_seq % 2 ^ 32
    pub payload : after.chabu.recv_seq_remaining_payload ≡ c.xmit_seq_remaining_payload
    pub padding : after.chabu.recv_seq_remaining_padding ≡ c.xmit_seq_remaining_padding

  -- Where the transmit buffer of a peer that sends a SEQ packet for its channel `i` reaches this end
  -- behind the first eight bytes, and both ends agreed on the position of the channel, the header is
  -- taken in without a fault, and both ends agree again.
  pub recv_seq-InStep :
      (c c' : Chabu) (w : World U) (i : ℕ) (rest : List ℕ)
      → SentSeq c i c'
      → (c.channels i).channel_id ≡ i
      → c.receive_packet_size < 2 ^ 31
      → i < w.chabu.channel_count
      → i < 2 ^ 31
      → (w.chabu.channels i).recv_seq ≡ (c.channels i).xmit_seq % 2 ^ 32
      → unread w.chabu.recv_buffer
        ≡ drop 8 (take c'.xmit_buffer.limit c'.xmit_buffer.memory) ++ rest
      → Returns (InStep c' i) (recv_seq cb w)
  recv_seq-InStep c c' w i rest sent own small exists word agree bytes =
      let size = xmit_size c (c.channels i) in
      let seq = (c.channels i).xmit_seq in
      let read : unread w.chabu.recv_buffer
          ≡ be32 i ++ (be32 (seq % 2 ^ 32) ++ (be32 size ++ rest)) =
        bytes
        ∙ ap (λ l. drop 8 l ++ rest) sent.packet.0.content
        ∙ ap (λ k. drop 8 (seq_bytes k seq size) ++ rest) own in
      let (s, r, b) =
        (recv_seq-Begun w i ((c.channels i).xmit_seq % 2 ^ 32) size rest exists word (omega arith)
            (omega (arith, sent.short)) read).0
          (sym agree) in
      (
        s,
        r,
        record {
          after = b.after;
          goes_on = b.goes_on;
          position =
              ap (λ (x : Channel). x.recv_seq) b.advanced ∙ omega (arith, agree, sent.advanced);
          payload = b.payload ∙ sym sent.payload;
          padding = b.padding ∙ sym sent.padding;
        },
      )
