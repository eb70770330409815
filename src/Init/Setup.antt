-- ===== src/Init/Setup.antt =====
-- The bytes of the SETUP packet.
use chabu.Prelude.{ℕ, ◌+◌, ◌<◌, List, [], ◌∷◌, ◌++◌, arith, length}
use chabu.Run.{◌>>=◌}
use chabu.Buffer.{ByteBuffer, align_up4, put_int_be, put_string}
use chabu.Buffer.Bytes.{be32}
use chabu.Buffer.Write.{Puts, Puts-bind, Fits, put_int_be_lem}
use chabu.Buffer.Text.{NoZero, string_bytes, put_string-string_bytes}
use chabu.State.{PacketType, packet_id, protocol_version_value}
use chabu.Init.{Arguments, count, put_setup}

abbrev pub protocol_name : List ℕ
protocol_name = b'C' ∷ b'H' ∷ b'A' ∷ b'B' ∷ b'U' ∷ []

-- What follows the length and the type.
abbrev pub setup_fields : Arguments → List ℕ → List ℕ
setup_fields a cs =
    string_bytes protocol_name
    ++ (be32 protocol_version_value
        ++ (be32 (count a.receive_packet_size) ++ (be32 a.application_version ++ string_bytes cs)))

abbrev pub setup_bytes : ℕ → Arguments → List ℕ → List ℕ
setup_bytes len a cs = be32 len ++ (be32 (packet_id PacketType.setup) ++ setup_fields a cs)

-- A SETUP packet with a name of at most 255 characters, none of them zero, is laid out in a buffer
-- with room for it without a fault, as exactly its fields.
pub put_setup-setup_bytes :
    (b : ByteBuffer) (len : ℕ) (a : Arguments) (cs rest : List ℕ)
    → NoZero cs
    → length cs < 0x100
    → Fits b (0x24 + 4 + align_up4 (length cs))
    → Puts b (setup_bytes len a cs) (put_setup b len a (cs ++ (0 ∷ rest)))
unfolding put_setup align_up4
put_setup-setup_bytes b len a cs rest nz short room =
    Puts-bind (be32 len) _ (put_int_be_lem b len (omega arith)) λ b1 w1.
      Puts-bind (be32 (packet_id PacketType.setup)) _
        (put_int_be_lem b1 (packet_id PacketType.setup) (omega (arith, w1.place, w1.room)))
        λ b2 w2.
          Puts-bind (string_bytes protocol_name) _
            (put_string-string_bytes b2 protocol_name [] name_NoZero (omega arith)
              (omega (arith, w1.place, w1.room, w2.place, w2.room)))
            λ b3 w3.
              put_rest b3 (omega (arith, w1.place, w1.room, w2.place, w2.room, w3.place, w3.room))
  where
    name_NoZero : NoZero protocol_name
    name_NoZero = (
      λ e. ground arith,
      (λ e. ground arith, (λ e. ground arith, (λ e. ground arith, (λ e. ground arith, tt)))),
    )

    put_rest :
        (b3 : ByteBuffer)
        → Fits b3 (16 + align_up4 (length cs))
        → Puts b3
            (be32 protocol_version_value
              ++ (be32 (count a.receive_packet_size)
                  ++ (be32 a.application_version ++ string_bytes cs)))
            (do
              b ← put_int_be b3 protocol_version_value
              b ← put_int_be b (count a.receive_packet_size)
              b ← put_int_be b a.application_version
              put_string b (cs ++ (0 ∷ rest)))
    put_rest b3 fits =
        Puts-bind (be32 protocol_version_value) _
          (put_int_be_lem b3 protocol_version_value (omega arith))
          λ b4 w4.
            Puts-bind (be32 (count a.receive_packet_size)) _
              (put_int_be_lem b4 (count a.receive_packet_size) (omega (arith, w4.place, w4.room)))
              λ b5 w5.
                Puts-bind (be32 a.application_version) _
                  (put_int_be_lem b5 a.application_version
                    (omega (arith, w4.place, w4.room, w5.place, w5.room)))
                  λ b6 w6.
                    put_string-string_bytes b6 cs rest nz short
                      (omega (arith, w4.place, w4.room, w5.place, w5.room, w6.place, w6.room))
