-- ===== src/Recv/Setup.antt =====
-- A SETUP packet: what one end lays out, the other end reads.
use chabu.Prelude.{
  ℕ, ◌+◌, ◌^◌, ◌<◌, ◌≤◌, ◌≡◌, refl, sym, ◌∙◌, ap, true, List, ◌∷◌, ◌++◌, arith, length, take, drop,
}
use chabu.Run.{Run, ok, fault, Returns}
use chabu.Buffer.{ByteBuffer, align_up4}
use chabu.Buffer.Bytes.{be32, drop-drop, drop-append}
use chabu.Buffer.Write.{Fits, written}
use chabu.Buffer.Read.{unread, get_int_be_lem}
use chabu.Buffer.Text.{NoZero, string_bytes, length-string_bytes, get_string-string_bytes}
use chabu.State.{Chabu, ConnectionInfo, RecvState, protocol_version_value}
use chabu.Init.{Arguments, count, put_setup}
use chabu.Init.Setup.{protocol_name, setup_fields, setup_bytes, put_setup-setup_bytes}
use chabu.Recv.Packet.{recv_setup}

unread_behind :
    (b : ByteBuffer) (cs rest : List ℕ)
    → unread b ≡ string_bytes cs ++ rest
    → drop (b.position + 4 + align_up4 (length cs)) b.memory ≡ rest
unread_behind b cs rest e =
    ap (λ k. drop k b.memory) (omega (arith, length-string_bytes cs))
    ∙ sym (drop-drop b.position (length (string_bytes cs)) b.memory)
    ∙ ap (drop (length (string_bytes cs))) e
    ∙ drop-append (string_bytes cs) rest

-- What the peer announced, with the name `cs`.
abbrev pub announced : Arguments → List ℕ → ConnectionInfo
announced a cs = record {
  has_content = true;
  protocol_version = protocol_version_value;
  receive_packet_size = count a.receive_packet_size;
  application_version = a.application_version;
  application_name = cs;
}

abbrev pub Announced : Arguments → List ℕ → Chabu → Type 0
Announced a cs c = (c.connection_info_remote ≡ announced a cs) × (c.recv_state ≡ RecvState.accept)

recv_setup-Announced :
    (c : Chabu) (a : Arguments) (cs rest : List ℕ)
    → length cs ≤ 55
    → count a.receive_packet_size < 2 ^ 32
    → a.application_version < 2 ^ 32
    → unread c.recv_buffer ≡ setup_fields a cs ++ rest
    → Returns (Announced a cs) (recv_setup c)
unfolding recv_setup align_up4
recv_setup-Announced c a cs rest short size_word version_word e =
    let rb = c.recv_buffer in
    let v = protocol_version_value in
    let s = count a.receive_packet_size in
    let n = a.application_version in
    let e0 : unread rb
        ≡ string_bytes protocol_name
          ++ (be32 v ++ (be32 s ++ (be32 n ++ (string_bytes cs ++ rest)))) =
      e in
    let b1 : ByteBuffer = record rb { position = rb.position + 4 + align_up4 5 } in
    let g1 = get_string-string_bytes rb protocol_name _ 9 (omega arith) (omega arith) e0 in
    let e1 = unread_behind rb protocol_name _ e0 in
    let (g2, e2) =
      get_int_be_lem b1 v (be32 s ++ (be32 n ++ (string_bytes cs ++ rest))) (omega arith) e1 in
    let b2 : ByteBuffer = record b1 { position = b1.position + 4 } in
    let (g3, e3) = get_int_be_lem b2 s (be32 n ++ (string_bytes cs ++ rest)) size_word e2 in
    let b3 : ByteBuffer = record b2 { position = b2.position + 4 } in
    let (g4, e4) = get_int_be_lem b3 n (string_bytes cs ++ rest) version_word e3 in
    let b4 : ByteBuffer = record b3 { position = b3.position + 4 } in
    let g5 = get_string-string_bytes b4 cs rest 55 (omega arith) short e4 in
    (
      record c {
        recv_buffer = record b4 { position = b4.position + 4 + align_up4 (length cs) };
        connection_info_remote = announced a cs;
        recv_state = RecvState.accept;
      },
      rw (g1, g2, g3, g4, g5),
      (refl, refl),
    )

-- One end lays out a SETUP packet in a buffer with room for it; its name has at most 55 characters,
-- none of them zero, and its numbers are 32-bit patterns. Where these bytes, behind the length and
-- the type, reach the other end, it takes them in without a fault: it then knows the protocol
-- version, the packet size, the application version and the name of the first end, and expects the
-- ACCEPT packet.
pub recv_setup-put_setup :
    (b b' : ByteBuffer) (len : ℕ) (a : Arguments) (cs rest more : List ℕ) (c : Chabu)
    → NoZero cs
    → length cs ≤ 55
    → count a.receive_packet_size < 2 ^ 32
    → a.application_version < 2 ^ 32
    → b.position ≡ 0
    → Fits b (0x24 + 4 + align_up4 (length cs))
    → put_setup b len a (cs ++ (0 ∷ rest)) ≡ ok b'
    → unread c.recv_buffer ≡ drop 8 (written b') ++ more
    → Returns (Announced a cs) (recv_setup c)
recv_setup-put_setup b b' len a cs rest more c nz short size_word version_word front room sent
      bytes =
    let (d, e, w) = put_setup-setup_bytes b len a cs rest nz (omega arith) room in
    let same : d ≡ b' = ap laid_out (sym e ∙ sent) in
    let all : written b' ≡ setup_bytes len a cs =
      ap written (sym same) ∙ w.content ∙ ap (λ k. take k b.memory ++ setup_bytes len a cs) front in
    recv_setup-Announced c a cs more short size_word version_word
      (bytes ∙ ap (λ l. drop 8 l ++ more) all)
  where
    laid_out : Run ByteBuffer → ByteBuffer
    laid_out r = elim r [ ok x ↦ x | fault _ ↦ b ]
