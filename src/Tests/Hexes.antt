-- ===== src/Tests/Hexes.antt =====
-- A key and its hexadecimal text.
use ovote_node.Base.{
  ℕ, zero, suc, ◌<◌, ◌≡◌, [], ◌∷◌, refl, true, false, Bool, Bytes, Result, Error, ok, err, All,
  replicate, arith,
}
use ovote_node.External.{Crypto}
use ovote_node.Types.Hex.{
  JsonText, encode_hex, marshal_byte_array, unmarshal_byte_array, hex_to_public_key,
}
use ovote_node.Types.HexRoundTrip.{IsCompression, hex_to_public_key-encode}
use ovote_node.Tests.Toy.{toy}

abbrev byte_of : Bool → ℕ
byte_of true = 255
byte_of false = 0

abbrev key_of : Bytes → Result Bool
key_of [] = err (Error.external 1)
key_of (zero ∷ bs) = ok false
key_of (suc n ∷ bs) = ok true

-- Two keys, with compressions of 32 bytes.
abbrev two_keys : Crypto
two_keys = record toy {
  PublicKey = Bool;
  key_x = byte_of;
  key_y = byte_of;
  compress = λ k. byte_of k ∷ replicate 31 0;
  decompress = key_of;
  verify_poseidon = λ k m s. true;
}

byte_of_small : (k : Bool) → byte_of k < 256
byte_of_small true = omega arith
byte_of_small false = omega arith

zeros_small : (n : ℕ) → All (λ x. x < 256) (replicate n 0)
zeros_small zero = tt
zeros_small (suc n) = (omega arith, zeros_small n)

found_again : (k : Bool) → key_of (byte_of k ∷ replicate 31 0) ≡ ok k
found_again true = refl
found_again false = refl

two_keys-IsCompression : IsCompression two_keys
two_keys-IsCompression = record {
  compress_length = λ k. refl;
  compress_bytes = λ k. (byte_of_small k, zeros_small 31);
  decompress_of_compress = found_again;
}

abbrev unquoted : Bytes → Result Bytes
unquoted [] = err (Error.external 2)
unquoted (q ∷ text) = ok text

-- A text behind a quotation mark.
abbrev quoted : JsonText
quoted = record { marshal = λ text. ok (34 ∷ text); unmarshal = unquoted }

hex_to_public_key-encode_example :
    (hex_to_public_key two_keys (encode_hex (two_keys.compress true)) ≡ ok true)
    × (unmarshal_byte_array quoted (34 ∷ encode_hex (two_keys.compress true))
        ≡ ok (two_keys.compress true))
unfolding marshal_byte_array
hex_to_public_key-encode_example =
    hex_to_public_key-encode two_keys quoted true {j = 34 ∷ encode_hex (two_keys.compress true)}
      two_keys-IsCompression refl refl
