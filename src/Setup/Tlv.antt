-- ===== src/Setup/Tlv.antt =====
-- src/protocol/SetupMessageCodec.cpp, the unnamed namespace: the writer and the parser of messages
-- made of a category, a type, a 16-bit length and elements of a tag, a length and a value.
pub mod Stream
pub mod Canonical
pub mod Writer
use aliro_ccc_core.Base.{
  ℕ, zero, suc, ◌+◌, ◌-◌, ◌*◌, ◌<◌, List, [], ◌∷◌, ◌++◌, map, length, take, drop, write, ltb,
  if◌then◌else◌,
}
use aliro_ccc_core.Base.Words.{
  Bytes, u8, u16, ◌>>>◌, ◌<<<◌, byte_at, be16, be32, read_be16, of_be32,
}
use aliro_ccc_core.Core.{Result, ok, err, malformed_frame, ◌>>=◌}
use aliro_ccc_core.Setup.{
  ProtocolCategory, MessageType, AttributeTag, category_code, message_code, tag_code,
}

-- The eight reads of the loop, the most significant byte first; `|` of disjoint bits is a sum.
unfoldable pub read_be64 : Bytes → ℕ → ℕ
read_be64 [] v = v
read_be64 (b ∷ bs) v = read_be64 bs ((v <<< 8) + b)

-- `TlvWriter`: its state is the buffer.
abbrev pub new_writer : ProtocolCategory → MessageType → Bytes
new_writer category message = category_code category ∷ message_code message ∷ 0 ∷ 0 ∷ []

abbrev pub add_u8 : AttributeTag → ℕ → Bytes → Bytes
add_u8 tag val buffer = buffer ++ (tag_code tag ∷ 1 ∷ val ∷ [])

abbrev pub add_u16 : AttributeTag → ℕ → Bytes → Bytes
add_u16 tag val buffer = buffer ++ (tag_code tag ∷ 2 ∷ be16 val)

abbrev pub add_u32 : AttributeTag → ℕ → Bytes → Bytes
add_u32 tag val buffer = buffer ++ (tag_code tag ∷ 4 ∷ be32 val)

abbrev pub add_bytes : AttributeTag → Bytes → Bytes → Bytes
add_bytes tag bytes buffer = buffer ++ (tag_code tag ∷ u8 (length bytes) ∷ bytes)

unfoldable pub concat_be16 : List ℕ → Bytes
concat_be16 [] = []
concat_be16 (v ∷ vs) = be16 v ++ concat_be16 vs

abbrev pub add_u16_array : AttributeTag → List ℕ → Bytes → Bytes
add_u16_array tag values buffer =
    buffer ++ (tag_code tag ∷ u8 (length values * 2) ∷ concat_be16 values)

abbrev pub finalize : Bytes → Bytes
finalize buffer = write 2 (be16 (u16 (length buffer - 4))) buffer

-- The tag is the byte; `tag_of` is its enumerator.
pub record TlvElement : Type 0 where
  pub tag : ℕ
  pub value : Bytes

-- The loop of `parseTlvStream`; the elements are those from the offset on.
unfoldable pub parse_elements : ℕ → Bytes → ℕ → ℕ → Result (List TlvElement)
parse_elements zero stream offset end = ok []
parse_elements (suc fuel) stream offset end =
    let tag = byte_at stream offset in
    let len = byte_at stream (offset + 1) in
    let rest = parse_elements fuel stream (offset + 2 + len) end in
    if ltb offset end
    then (if ltb end (offset + 2)
        then err malformed_frame
        else if ltb end (offset + 2 + len)
        then err malformed_frame
        else (rest >>= λ elements.
            ok (record { tag = tag; value = take len (drop (offset + 2) stream) } ∷ elements)))
    else ok []

unfoldable pub parse_tlv_stream : Bytes → Result (List TlvElement)
unfolding parse_elements
parse_tlv_stream stream =
    if ltb (length stream) 4
    then err malformed_frame
    else (let payload_len = read_be16 stream 2 in
        if ltb (length stream - 4) payload_len
        then err malformed_frame
        else parse_elements (4 + payload_len) stream 4 (4 + payload_len))
