-- ===== src/Tests/Packets.antt =====
-- Runs of the packets: Chabu.c and ChabuByteBuffer.c.
use chabu.Prelude.{
  ℕ, ◌+◌, ◌≡◌, refl, sym, append-nil, true, ◌≢◌, some, List, [], ◌∷◌, ◌++◌, arith, min, replicate,
  take, drop,
}
use chabu.Prelude.Int.{pos}
use chabu.Run.{ok, Returns}
use chabu.Buffer.Text.{get_string-put_string}
use chabu.Buffer.{align_up4, put_string, get_string, ByteBuffer, xfer_with_max}
use chabu.Buffer.Bytes.{be32}
use chabu.Buffer.Write.{Writes}
use chabu.Buffer.Xfer.{IsValid, moved, moved_bytes, xfer_with_max_lem}
use chabu.State.{PacketType, Channel}
use chabu.Errors.{protocol_seq_value}
use chabu.World.{World, with_chabu, report_error}
use chabu.Xmit.Build.{echo_packet, xmit_size, send_seq}
use chabu.Xmit.Flow.{WithinLimits, xmit_size-unarmed, SentSeq, send_seq-SentSeq}
use chabu.Xmit.Echo.{Echoes, echo_packet-bytes}
use chabu.Recv.Packet.{recv_arm, recv_seq, recv_pong, stop}
use chabu.Recv.Arm.{Armed, taken, recv_arm-Armed}
use chabu.Recv.Seq.{Begun, recv_seq-Begun, read_on, InStep, recv_seq-InStep}
use chabu.Recv.Pong.{Ponged, recv_pong-Ponged}
use chabu.Priority.{seq_data}
use chabu.Tests.Sample.{
  quiet, quiet-IsPassive, holding, sample_channel, sample_chabu, sample_world, sample-HasRequests,
}

abbrev room : ByteBuffer
room = holding (replicate 64 0)

abbrev payload : ByteBuffer
payload = holding (11 ∷ 22 ∷ 33 ∷ 44 ∷ 55 ∷ [])

room-IsValid : IsValid room
room-IsValid = record { ordered = omega arith; inside = omega arith }

payload-IsValid : IsValid payload
payload-IsValid = record { ordered = omega arith; inside = omega arith }

xfer_with_max_lem_example :
    Returns
      (λ (n, trg', src').
        (n ≡ moved room payload 3)
        × Writes room (moved_bytes room payload 3) trg'
        × (src' ≡ record payload { position = payload.position + moved room payload 3 }))
      (xfer_with_max room payload (pos 3))
xfer_with_max_lem_example = xfer_with_max_lem room payload 3 room-IsValid payload-IsValid

echo_packet-bytes_example :
    Returns (Echoes PacketType.ping room payload 3) (echo_packet PacketType.ping room payload 3)
unfolding align_up4
echo_packet-bytes_example =
    echo_packet-bytes PacketType.ping room payload 3 payload-IsValid refl (omega arith)

sample-WithinLimits : WithinLimits (sample_channel 1)
sample-WithinLimits = record {
  released = omega arith;
  armed = omega arith;
  limit_word = omega arith;
  arm_word = omega arith;
}

-- A channel that has sent a little more than 4 GB.
abbrev far_channel : Channel
far_channel = record (sample_channel 1) { xmit_seq = 4294967400; xmit_limit = 4294967500 }

xmit_size-unarmed_example :
    xmit_size (sample_chabu []) (record far_channel { xmit_arm = 110 }) ≡ min 236 100
xmit_size-unarmed_example =
    xmit_size-unarmed (sample_chabu []) far_channel 110 (omega arith) (omega arith) (omega arith)
      (omega arith) (omega arith) (omega arith)

send_seq-SentSeq_example : Returns (SentSeq (sample_chabu []) 1) (send_seq (sample_chabu []) 1)
send_seq-SentSeq_example =
    send_seq-SentSeq (sample_chabu []) 1 (omega arith) (omega arith) (omega arith)
      sample-WithinLimits

abbrev arm_content : List ℕ
arm_content = be32 1 ++ (be32 900 ++ [])

recv_arm-Armed_example :
    Returns
      (Armed quiet (taken quiet quiet-IsPassive 1 900 0 [] (sample_world arm_content)) 1 900 0 [])
      (recv_arm quiet (sample_world arm_content))
recv_arm-Armed_example =
    recv_arm-Armed quiet quiet-IsPassive 1 900 0 [] (sample_world arm_content) [] (omega arith)
      (omega arith) (omega arith) refl refl (sample-HasRequests seq_data arm_content) (λ e. refl)

abbrev expected : ℕ
expected = 100

abbrev seq_content : List ℕ
seq_content = be32 1 ++ (be32 100 ++ (be32 7 ++ []))

recv_seq-Begun_example :
    (expected ≡ expected
      → Returns
          (Begun (read_on quiet (sample_world seq_content)) 1 7)
          (recv_seq quiet (sample_world seq_content)))
    × (expected ≢ expected
        → recv_seq quiet (sample_world seq_content)
          ≡ ok (
              stop
                (report_error quiet protocol_seq_value (read_on quiet (sample_world seq_content)))))
recv_seq-Begun_example =
    recv_seq-Begun quiet (sample_world seq_content) 1 100 7 [] (omega arith) (omega arith)
      (omega arith) (omega arith) refl

abbrev pong_content : List ℕ
pong_content = be32 3 ++ (9 ∷ 9 ∷ 9 ∷ 0 ∷ [])

abbrev pinging : World (Unit {0})
pinging = with_chabu (sample_world pong_content) (record (sample_chabu pong_content) {
  xmit_ping_pong_data = some payload;
  xmit_ping_in_progress = true;
})

recv_pong-Ponged_example : Returns (Ponged quiet pinging payload) (recv_pong quiet pinging)
recv_pong-Ponged_example =
    recv_pong-Ponged quiet pinging payload 3 (9 ∷ 9 ∷ 9 ∷ 0 ∷ []) quiet-IsPassive refl refl
      payload-IsValid (omega arith) (record { ordered = omega arith; inside = omega arith })
      (omega arith) refl

-- What the peer is left with once it has sent a SEQ packet for its channel 1.
abbrev sender : Returns (SentSeq (sample_chabu []) 1) (send_seq (sample_chabu []) 1)
sender =
    send_seq-SentSeq (sample_chabu []) 1 (omega arith) (omega arith) (omega arith)
      sample-WithinLimits

abbrev arriving : World (Unit {0})
arriving = sample_world (drop 8 (take sender.0.xmit_buffer.limit sender.0.xmit_buffer.memory))

recv_seq-InStep_example : Returns (InStep quiet sender.0 1) (recv_seq quiet arriving)
recv_seq-InStep_example =
    recv_seq-InStep quiet (sample_chabu []) sender.0 arriving 1 [] sender.2 refl (omega arith)
      (omega arith) (omega arith) refl (sym (append-nil _))

get_string-put_string_example :
    Returns
      (λ b'. get_string (record b' { position = 0 }) 10 ≡ ok (67 ∷ 72 ∷ 65 ∷ [], b'))
      (put_string room (67 ∷ 72 ∷ 65 ∷ 0 ∷ []))
unfolding align_up4
get_string-put_string_example =
    get_string-put_string room (67 ∷ 72 ∷ 65 ∷ []) [] 9
      ((λ e. ground arith), ((λ e. ground arith), ((λ e. ground arith), tt))) (omega arith)
      (omega arith) (omega arith)
