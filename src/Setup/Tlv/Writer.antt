-- ===== src/Setup/Tlv/Writer.antt =====
-- What the writer leaves behind: the header and the layout of the elements.
use aliro_ccc_core.Base.{
  ℕ, ◌-◌, ◌*◌, ◌<◌, ◌^◌, ◌≡◌, sym, ap, ◌∙◌, arith, List, [], ◌∷◌, ◌++◌, append-nil, length,
}
use aliro_ccc_core.Base.Words.{Bytes, u16, be16}
use aliro_ccc_core.Core.{ok}
use aliro_ccc_core.Setup.{ProtocolCategory, MessageType, category_code, message_code}
use aliro_ccc_core.Setup.Tlv.{TlvElement, parse_tlv_stream, new_writer, finalize, concat_be16}
use aliro_ccc_core.Setup.Tlv.Stream.{image, parse_tlv_stream-image}

pub finalize-image :
    (category : ProtocolCategory) (message : MessageType) (body : Bytes)
    → length body < 2 ^ 16
    → finalize (new_writer category message ++ body)
      ≡ category_code category ∷ message_code message ∷ (be16 (length body) ++ body)
finalize-image category message body h =
    ap (λ n. category_code category ∷ message_code message ∷ (be16 n ++ body))
      {x = u16 (length (new_writer category message ++ body) - 4)} (omega arith)

-- A message that is written with the layout of some elements parses to them.
pub parse-finalize :
    (category : ProtocolCategory) (message : MessageType) (es : List TlvElement) (body : Bytes)
    → body ≡ image es
    → length body < 2 ^ 16
    → parse_tlv_stream (finalize (new_writer category message ++ body)) ≡ ok es
parse-finalize category message es body e h =
    ap parse_tlv_stream (
      finalize-image category message body h
      ∙ ap (λ t. category_code category ∷ message_code message ∷ (be16 (length t) ++ t)) e
      ∙ ap (λ t. category_code category ∷ message_code message ∷ (be16 (length (image es)) ++ t))
          (sym (append-nil (image es))))
    ∙ parse_tlv_stream-image (category_code category) (message_code message) es [] (rw e at h)

pub length-concat_be16 : (vs : List ℕ) → length (concat_be16 vs) ≡ length vs * 2
unfolding concat_be16
length-concat_be16 [] = omega arith
length-concat_be16 (v ∷ vs) = omega (arith, length-concat_be16 vs)
