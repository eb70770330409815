-- ===== src/Xmit/Flow.antt =====
-- Flow control: a SEQ packet stays within what the application released and what the peer armed.
use chabu.Prelude.{
  ℕ, ◌+◌, ◌-◌, ◌%◌, ◌^◌, ◌≤◌, ◌<◌, ◌≡◌, refl, ap, ◌∙◌, some, length, arith, min, ◌≢◌,
}
use chabu.Prelude.Int.{pos}
use chabu.Run.{Returns}
use chabu.Buffer.{align_up4}
use chabu.State.{Chabu, Channel, XmitState, seq_header_sz}
use chabu.Xmit.Build.{xmit_size, send_seq, sent_seq}
use chabu.Xmit.Packets.{Sends, seq_bytes, seq_packet-bytes}

-- What was sent stays within both limits.
pub record WithinLimits (ch : Channel) : Type 0 where
  pub released : ch.xmit_seq ≤ ch.xmit_limit
  pub armed : ch.xmit_seq ≤ ch.xmit_arm
  pub limit_word : ch.xmit_limit < 2 ^ 64
  pub arm_word : ch.xmit_arm < 2 ^ 64

-- A difference of `uint64` that does not wrap.
sub64 : (a b : ℕ) → b ≤ a → a < 2 ^ 64 → (a + 2 ^ 64 - b) % 2 ^ 64 ≡ a - b
sub64 a b h h' = omega arith

-- For a packet size that is a positive `int` of at least the header, and a channel within its
-- limits, the size of the next payload is the smallest of three bounds, and none of the unsigned
-- differences wraps: room in the packet, bytes that the application released, bytes that the peer
-- armed.
pub xmit_size-min :
    (c : Chabu) (ch : Channel)
    → seq_header_sz ≤ c.receive_packet_size
    → c.receive_packet_size < 2 ^ 31
    → WithinLimits ch
    → xmit_size c ch
      ≡ min
          (min (c.receive_packet_size - seq_header_sz) (ch.xmit_limit - ch.xmit_seq))
          (ch.xmit_arm - ch.xmit_seq)
unfolding xmit_size
xmit_size-min c ch h h' v = rw (
  sub64 c.receive_packet_size seq_header_sz h (omega arith),
  sub64 ch.xmit_limit ch.xmit_seq v.released v.limit_word,
  sub64 ch.xmit_arm ch.xmit_seq v.armed v.arm_word,
)

-- What a SEQ packet for channel `i` does.
pub record SentSeq (c : Chabu) (i : ℕ) (c' : Chabu) : Type 0 where
  pub packet :
      Sends c.xmit_buffer
        (seq_bytes (c.channels i).channel_id (c.channels i).xmit_seq (xmit_size c (c.channels i)))
        c'.xmit_buffer
  pub advanced : (c'.channels i).xmit_seq ≡ (c.channels i).xmit_seq + xmit_size c (c.channels i)
  pub within : WithinLimits (c'.channels i)
  pub short : xmit_size c (c.channels i) + seq_header_sz ≤ c.receive_packet_size
  pub payload : c'.xmit_seq_remaining_payload ≡ xmit_size c (c.channels i)
  pub padding :
      c'.xmit_seq_remaining_padding
      ≡ pos (align_up4 (xmit_size c (c.channels i)) - xmit_size c (c.channels i))
  pub others : (j : ℕ) → j ≢ i → c'.channels j ≡ c.channels j
  pub channel : c'.xmit_seq_channel ≡ some i
  pub state : c'.xmit_state ≡ XmitState.seq

-- Where the transmit buffer has room for the header, the packet size is a positive `int` of at least
-- the header, and the channel is within its limits, the code sends a SEQ packet for it without a
-- fault. The buffer holds exactly the header with the computed size; the channel's position moves
-- on by it and stays within both limits, header and payload are within the packet size, the
-- payload and the padding to be sent are noted, and no other channel changes.
pub send_seq-SentSeq :
    (c : Chabu) (i : ℕ)
    → 20 ≤ length c.xmit_buffer.memory
    → seq_header_sz ≤ c.receive_packet_size
    → c.receive_packet_size < 2 ^ 31
    → WithinLimits (c.channels i)
    → Returns (SentSeq c i) (send_seq c i)
unfolding send_seq
send_seq-SentSeq c i room h h' v =
    let ch = c.channels i in
    let size = xmit_size c ch in
    let small = xmit_size-min c ch h h' v in
    let (b, e, s) = seq_packet-bytes c.xmit_buffer ch.channel_id ch.xmit_seq size room in
    let self : (sent_seq c i size b).channels i
        ≡ record ch { xmit_seq = (ch.xmit_seq + size) % 2 ^ 64 } =
      ground arith in
    (
      sent_seq c i size b,
      rw e,
      record {
        packet = s;
        advanced = ap (λ (x : Channel). x.xmit_seq) self ∙ omega (arith, v.released, v.limit_word);
        within = rw self (record {
          released = omega (arith, v.released, v.limit_word);
          armed = omega (arith, v.released, v.limit_word, v.armed);
          limit_word = v.limit_word;
          arm_word = v.arm_word;
        });
        short = omega arith;
        payload = refl;
        padding = refl;
        others = λ j ne. ground arith;
        channel = refl;
        state = refl;
      },
    )

overtaken64 :
    (arm limit seq : ℕ)
    → arm < seq
    → seq ≤ limit
    → limit < 2 ^ 64
    → limit - seq < (arm + 2 ^ 64 - seq) % 2 ^ 64
overtaken64 arm limit seq h g k = omega arith

-- An ARM packet gives 32 bits of the point that the peer arms, while the position is kept with 64 bits.
-- Once 2 ^ 32 bytes were sent, whatever an ARM packet gives lies below the position; the difference
-- wraps, and what the peer has armed does not bound the size of the next payload any more.
pub xmit_size-unarmed :
    (c : Chabu) (ch : Channel) (arm : ℕ)
    → seq_header_sz ≤ c.receive_packet_size
    → c.receive_packet_size < 2 ^ 31
    → 2 ^ 32 ≤ ch.xmit_seq
    → ch.xmit_seq ≤ ch.xmit_limit
    → ch.xmit_limit < 2 ^ 64
    → arm < 2 ^ 32
    → xmit_size c (record ch { xmit_arm = arm })
      ≡ min (c.receive_packet_size - seq_header_sz) (ch.xmit_limit - ch.xmit_seq)
unfolding xmit_size
xmit_size-unarmed c ch arm h h' far g k small =
    rw
      (
        sub64 c.receive_packet_size seq_header_sz h (omega arith),
        sub64 ch.xmit_limit ch.xmit_seq g k,
      )
      (omega (arith, overtaken64 arm ch.xmit_limit ch.xmit_seq (omega arith) g k))
