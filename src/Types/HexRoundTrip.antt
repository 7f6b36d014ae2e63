-- ===== src/Types/HexRoundTrip.antt =====
-- types/types.go: the hexadecimal texts of byte arrays and public keys, written and read.
use ovote_node.Base.{ℕ, ◌/◌, ◌%◌, ◌<◌, ◌≡◌, ◌∷◌, [], refl, Bytes, ok, All, arith, length, ap}
use ovote_node.External.{Crypto}
use ovote_node.Types.Hex.{
  hex_digit, encode_hex, from_hex_char, decode_hex, JsonText, marshal_byte_array,
  unmarshal_byte_array, hex_to_public_key,
}

from_hex_char-hex_digit : (n : ℕ) → n < 16 → from_hex_char (hex_digit n) ≡ ok n
from_hex_char-hex_digit n h = ground arith

pub decode_hex-encode_hex : (b : Bytes) → All (λ x. x < 256) b → decode_hex (encode_hex b) ≡ ok b
unfolding decode_hex encode_hex
decode_hex-encode_hex [] small = refl
decode_hex-encode_hex (x ∷ b) (h, small) =
    rw
      (
        from_hex_char-hex_digit (x / 16) (omega arith),
        from_hex_char-hex_digit (x % 16) (omega arith),
        decode_hex-encode_hex b small,
      )
      (ap (λ y. ok (y ∷ b)) (omega arith))

-- A byte array is read back from its JSON, when the text of the JSON is the one that was written.
pub unmarshal-marshal :
    (json : JsonText) (b : Bytes) {j : Bytes}
    → All (λ x. x < 256) b
    → marshal_byte_array json b ≡ ok j
    → json.unmarshal j ≡ ok (encode_hex b)
    → unmarshal_byte_array json j ≡ ok b
unfolding unmarshal_byte_array
unmarshal-marshal json b small written text = rw (text, decode_hex-encode_hex b small) refl

-- What babyjub documents of a compressed key: 32 bytes, from which the key is found again.
pub record IsCompression (c : Crypto) : Type 0 where
  pub compress_length : (k : c.PublicKey) → length (c.compress k) ≡ 32
  pub compress_bytes : (k : c.PublicKey) → All (λ x. x < 256) (c.compress k)
  pub decompress_of_compress : (k : c.PublicKey) → c.decompress (c.compress k) ≡ ok k

-- HexToPublicKey reads every key back from the hexadecimal text of its compression, and the
-- compression of a key is read back from its JSON as a byte array, for a JSON library that reads
-- the text that it wrote.
pub hex_to_public_key-encode :
    (c : Crypto) (json : JsonText) (k : c.PublicKey) {j : Bytes}
    → IsCompression c
    → marshal_byte_array json (c.compress k) ≡ ok j
    → json.unmarshal j ≡ ok (encode_hex (c.compress k))
    → (hex_to_public_key c (encode_hex (c.compress k)) ≡ ok k)
      × (unmarshal_byte_array json j ≡ ok (c.compress k))
unfolding hex_to_public_key
hex_to_public_key-encode c json k laws written text =
    let small = laws.compress_bytes k in
    (
      rw (decode_hex-encode_hex (c.compress k) small, laws.compress_length k)
          (laws.decompress_of_compress k),
      unmarshal-marshal json (c.compress k) small written text,
    )
