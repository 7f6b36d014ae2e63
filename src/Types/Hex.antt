-- ===== src/Types/Hex.antt =====
-- encoding/hex as types/types.go uses it, the JSON of ByteArray, and HexToPublicKey.
use ovote_node.Base.{
  ℕ, ◌+◌, ◌-◌, ◌*◌, ◌/◌, ◌%◌, ◌∷◌, [], Bytes, not, ◌&&◌, Result, Error, ok, err, ◌>>=◌, ◌>>◌,
  fail_if, if◌then◌else◌, ltb, leb, ◌==◌, length,
}
use ovote_node.External.{Crypto}

abbrev pub hex_digit : ℕ → ℕ
hex_digit n = if ltb n 10 then 48 + n else 87 + n

-- hex.EncodeToString
unfoldable pub encode_hex : Bytes → Bytes
encode_hex [] = []
encode_hex (b ∷ bs) = hex_digit (b / 16) ∷ hex_digit (b % 16) ∷ encode_hex bs

-- The value of a digit, in either case.
abbrev pub from_hex_char : ℕ → Result ℕ
from_hex_char c =
    if leb 48 c && leb c 57
    then ok (c - 48)
    else if leb 97 c && leb c 102
    then ok (c - 87)
    else if leb 65 c && leb c 70
    then ok (c - 55)
    else err (Error.hex_invalid_byte c)

-- hex.DecodeString: a text of odd length is an error, after those of its characters.
unfoldable pub decode_hex : Bytes → Result Bytes
decode_hex [] = ok []
decode_hex (a ∷ []) = do d ← from_hex_char a; err Error.hex_length
decode_hex (a ∷ b ∷ rest) = do
  high ← from_hex_char a
  low ← from_hex_char b
  bytes ← decode_hex rest
  ok ((high * 16 + low) ∷ bytes)

-- encoding/json on texts.
pub record JsonText : Type 0 where
  pub marshal : Bytes → Result Bytes
  pub unmarshal : Bytes → Result Bytes

-- The MarshalJSON and UnmarshalJSON of ByteArray.
unfoldable pub marshal_byte_array : JsonText → Bytes → Result Bytes
unfolding encode_hex
marshal_byte_array json b = json.marshal (encode_hex b)

unfoldable pub unmarshal_byte_array : JsonText → Bytes → Result Bytes
unfolding decode_hex
unmarshal_byte_array json j = do s ← json.unmarshal j; decode_hex s

-- The length of a PublicKeyComp.
abbrev pub public_key_comp_len : ℕ
public_key_comp_len = 32

unfoldable pub hex_to_public_key : (c : Crypto) → Bytes → Result c.PublicKey
unfolding decode_hex
hex_to_public_key c h = do
  bytes ← decode_hex h
  fail_if (not (length bytes == public_key_comp_len)) (Error.unexpected_pubk_length (length bytes))
  c.decompress bytes
