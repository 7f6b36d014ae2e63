-- ===== src/Types/RoundTrip.antt =====
-- types/types.go: IndexAndWeightToBytes against BytesToIndexAndWeight.
use ovote_node.Base.{
  ℕ, ◌^◌, ◌<◌, ◌≡◌, Bytes, pos, ok, arith, length, replicate, length-append, ap, le_value,
  int64-small, two63, take-append_length, drop-append_length,
}
use ovote_node.External.{Crypto, IsLittleEndian}
use ovote_node.Types.Encoding.{copy_into, uint64_to_index, entry_bytes, bytes_to_index_and_weight}

copy_into_exact : (n : ℕ) (b : Bytes) → length b ≡ n → copy_into n b ≡ b
copy_into_exact n b h = take-append_length b (replicate n 0) h

module _ (c : Crypto) (le : IsLittleEndian c) where
  open c use {big_int_to_bytes, bytes_to_big_int}

  uint64_to_index_lem :
      (index : ℕ) → index < two63 → uint64_to_index c index ≡ big_int_to_bytes 8 (pos index)
  unfolding uint64_to_index
  uint64_to_index_lem index h = ap (λ i. big_int_to_bytes 8 i) (int64-small index h)

  -- An index below 2 ^ 63 and a weight of at most 32 bytes survive the encoding.
  pub decode-encode :
      (index w : ℕ)
      → index < two63
      → w < 256 ^ 32
      → bytes_to_index_and_weight c (entry_bytes c index (pos w)) ≡ ok (index, w)
  unfolding bytes_to_index_and_weight entry_bytes
  decode-encode index w hi hw =
      let a = big_int_to_bytes 8 (pos index) in
      let b = big_int_to_bytes 32 (pos w) in
      let la : length a ≡ 8 = le.big_int_to_bytes_length 8 index (omega arith) in
      let lb : length b ≡ 32 = le.big_int_to_bytes_length 32 w hw in
      let value : le_value b ≡ w = le.big_int_to_bytes_value 32 w hw in
      let front : le_value a ≡ index = le.big_int_to_bytes_value 8 index (omega arith) in
      rw (uint64_to_index_lem index hi, copy_into_exact 8 a la, copy_into_exact 32 b lb)
        (ground (
          arith,
          length-append a b,
          take-append_length a b la,
          drop-append_length a b la,
          le.bytes_to_big_int_value b,
        ))
