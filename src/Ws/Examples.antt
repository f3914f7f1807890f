-- ===== src/Ws/Examples.antt =====
-- The codec of src/engine/WsCodec.h on concrete frames, texts and keys.
use nitro_server.Base.{ℕ, ◌≡◌, ◌↔◌, refl, true, false, some, List, [], ◌∷◌, ◌++◌, drop, All, arith}
use nitro_server.Base.Text.{Bytes, codes}
use nitro_server.Ws.Frame.{
  FrameHeader, text, known_opcode, is_control, parse_header, read_length, read_mask, encode_frame,
}
use nitro_server.Ws.Frame.RoundTrip.{parse_header-encode_frame, header_of, header_size_of}
use nitro_server.Ws.Frame.Sound.{IsHeaderIn, parse_header-IsHeaderIn}
use nitro_server.Ws.Utf8.{valid_utf8}
use nitro_server.Ws.Utf8.Encode.{encode_all, IsCodePoint}
use nitro_server.Ws.Utf8.Complete.{valid_utf8_iff}

abbrev hello : Bytes
hello = codes "hello"

-- A masked text frame of two bytes.
abbrev masked_frame : Bytes
masked_frame = 0x81 ∷ 0x82 ∷ 1 ∷ 2 ∷ 3 ∷ 4 ∷ 0x69 ∷ 0x6b ∷ []

abbrev masked_header : FrameHeader
masked_header = record {
  fin = true;
  rsv1 = false;
  opcode = 1;
  masked = true;
  payload_length = 2;
  header_size = 6;
  mask = 1 ∷ 2 ∷ 3 ∷ 4 ∷ [];
}

masked_parsed : parse_header masked_frame false ≡ some masked_header
unfolding parse_header known_opcode is_control read_length read_mask
masked_parsed = refl

abbrev euro : Bytes
euro = 0xe2 ∷ 0x82 ∷ 0xac ∷ []

valid_utf8_iff_example :
    (valid_utf8 euro ≡ true)
    ↔ ((cps : List ℕ) × All (IsCodePoint 0x140000) cps × (euro ≡ encode_all cps))
valid_utf8_iff_example = valid_utf8_iff euro (omega arith, (omega arith, (omega arith, tt)))

parse_header-encode_frame_example :
    (parse_header (encode_frame text hello true [] ++ masked_frame) false
      ≡ some (header_of text true 5))
    × (drop (header_size_of 5) (encode_frame text hello true [] ++ masked_frame)
        ≡ hello ++ masked_frame)
unfolding known_opcode is_control
parse_header-encode_frame_example =
    parse_header-encode_frame text hello true masked_frame false refl (λ h. cc) (omega arith)

parse_header-IsHeaderIn_example : IsHeaderIn masked_frame false masked_header
parse_header-IsHeaderIn_example =
    parse_header-IsHeaderIn masked_frame false masked_header
      (
        omega arith,
        (
          omega arith,
          (
            omega arith,
            (omega arith, (omega arith, (omega arith, (omega arith, (omega arith, tt))))),
          ),
        ),
      )
      masked_parsed
