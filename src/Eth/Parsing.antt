-- ===== src/Eth/Parsing.antt =====
-- The parsers of eth/eth.go against the words that the contract's ABI encodes.
use ovote_node.Base.{ℕ, ◌<◌, ◌^◌, ◌≡◌, refl, Bytes, ok, arith, All, length, be_value, slice}
use ovote_node.External.{Crypto}
use ovote_node.Eth.Events.{Geth, parse_event_new_process, byte_at}
use ovote_node.Eth.Words.{
  words, IsWord, length-words, byte_field, uint64_field, uint64_word, uint8_word,
  uint64_word-IsWord, uint8_field,
}
use ovote_node.Eth.Layouts.{
  created_words, commented_words, address_word-IsWord, address_field, word_field,
}

module _ (c : Crypto) (g : Geth) where
  -- The parser in terms of its slices.
  created_of_slices :
      (d creator tx root : Bytes) (id size start window participation positive typ : ℕ)
      → length d ≡ 320
      → slice 12 32 (slice 0 32 d) ≡ creator
      → be_value (slice 56 64 d) ≡ id
      → slice 64 96 d ≡ tx
      → slice 96 128 d ≡ root
      → be_value (slice 152 160 d) ≡ size
      → be_value (slice 184 192 d) ≡ start
      → be_value (slice 216 224 d) ≡ window
      → byte_at 255 d ≡ participation
      → byte_at 287 d ≡ positive
      → byte_at 319 d ≡ typ
      → parse_event_new_process c g d
        ≡ ok (record {
          creator = g.bytes_to_address creator;
          process_id = id;
          tx_hash = tx;
          census_root = c.swap_endianness root;
          census_size = size;
          res_pub_start_block = start;
          res_pub_window = window;
          min_participation = participation;
          min_positive_votes = positive;
          typ = typ;
        })
  unfolding parse_event_new_process
  created_of_slices d creator tx root id size start window participation positive typ h a b e f k l
        m n o p =
      rw (a, b, e, f, k, l, m, n, o, p) (ground arith)

  -- A log with an address, seven numbers in range and two 32-byte words, encoded as ABI words in
  -- the order creator, id, hash, root, size, start, window, participation, positive votes, type,
  -- is parsed into exactly these values, the root with its bytes swapped.
  pub parse-created :
      (creator : Bytes) (id : ℕ) (tx root : Bytes)
      (size start window participation positive typ : ℕ)
      → length creator ≡ 20
      → IsWord tx
      → IsWord root
      → id < 2 ^ 64
      → size < 2 ^ 64
      → start < 2 ^ 64
      → window < 2 ^ 64
      → parse_event_new_process c g
          (words (created_words creator id tx root size start window participation positive typ))
        ≡ ok (record {
          creator = g.bytes_to_address creator;
          process_id = id;
          tx_hash = tx;
          census_root = c.swap_endianness root;
          census_size = size;
          res_pub_start_block = start;
          res_pub_window = window;
          min_participation = participation;
          min_positive_votes = positive;
          typ = typ;
        })
  parse-created creator id tx root size start window participation positive typ ha ht hr hi hs hb
        hw =
      let ws = created_words creator id tx root size start window participation positive typ in
      let all : All IsWord ws = (
        address_word-IsWord creator ha,
        (
          uint64_word-IsWord id,
          (
            ht,
            (
              hr,
              (
                uint64_word-IsWord size,
                (uint64_word-IsWord start, (uint64_word-IsWord window, (refl, (refl, (refl, tt))))),
              ),
            ),
          ),
        ),
      ) in
      created_of_slices (words ws) creator tx root id size start window participation positive typ
        (length-words ws all) (address_field creator ws ha all refl)
        (uint64_field 1 id ws all refl hi) (word_field 2 ws tx ht all refl)
        (word_field 3 ws root hr all refl) (uint64_field 4 size ws all refl hs)
        (uint64_field 5 start ws all refl hb) (uint64_field 6 window ws all refl hw)
        (byte_field 7 31 ws (uint8_word participation) all refl (omega arith))
        (byte_field 8 31 ws (uint8_word positive) all refl (omega arith))
        (byte_field 9 31 ws (uint8_word typ) all refl (omega arith))

  -- A log in the order creator, id, hash, root, type, size, start, window, participation, positive
  -- votes, which is the event signature that the parser's comment gives, is parsed with the type
  -- taken for the census size, the size for the start block and the start block for the window.
  pub parse-created_as_commented :
      (creator : Bytes) (id : ℕ) (tx root : Bytes)
      (size start window participation positive typ : ℕ)
      → length creator ≡ 20
      → IsWord tx
      → IsWord root
      → id < 2 ^ 64
      → size < 2 ^ 64
      → start < 2 ^ 64
      → typ < 256
      → parse_event_new_process c g
          (words (commented_words creator id tx root size start window participation positive typ))
        ≡ ok (record {
          creator = g.bytes_to_address creator;
          process_id = id;
          tx_hash = tx;
          census_root = c.swap_endianness root;
          census_size = typ;
          res_pub_start_block = size;
          res_pub_window = start;
          min_participation = byte_at 31 (uint64_word window);
          min_positive_votes = participation;
          typ = positive;
        })
  parse-created_as_commented creator id tx root size start window participation positive typ ha ht
        hr hi hs hb hy =
      let ws = commented_words creator id tx root size start window participation positive typ in
      let all : All IsWord ws = (
        address_word-IsWord creator ha,
        (
          uint64_word-IsWord id,
          (
            ht,
            (
              hr,
              (
                refl,
                (
                  uint64_word-IsWord size,
                  (uint64_word-IsWord start, (uint64_word-IsWord window, (refl, (refl, tt)))),
                ),
              ),
            ),
          ),
        ),
      ) in
      created_of_slices (words ws) creator tx root id typ size start
        (byte_at 31 (uint64_word window)) participation positive (length-words ws all)
        (address_field creator ws ha all refl) (uint64_field 1 id ws all refl hi)
        (word_field 2 ws tx ht all refl) (word_field 3 ws root hr all refl)
        (uint8_field 4 typ ws all refl) (uint64_field 5 size ws all refl hs)
        (uint64_field 6 start ws all refl hb)
        (byte_field 7 31 ws (uint64_word window) all refl (omega arith))
        (byte_field 8 31 ws (uint8_word participation) all refl (omega arith))
        (byte_field 9 31 ws (uint8_word positive) all refl (omega arith))
