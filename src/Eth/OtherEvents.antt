-- ===== src/Eth/OtherEvents.antt =====
-- The parsers of the two other events of eth/eth.go.
use ovote_node.Base.{ℕ, ◌<◌, ◌^◌, ◌≡◌, refl, Bytes, ok, arith, All, length, be_value, ◌==◌, slice}
use ovote_node.External.{Crypto}
use ovote_node.Eth.Events.{Geth, parse_event_result_published, parse_event_process_closed, byte_at}
use ovote_node.Eth.Words.{
  words, IsWord, length-words, byte_field, uint64_field, uint8_word, uint64_word-IsWord,
}
use ovote_node.Eth.Layouts.{
  published_words, closed_words, address_word-IsWord, address_field, word_field,
}

module _ (c : Crypto) (g : Geth) where
  published_of_slices :
      (d publisher root : Bytes) (id result n_votes : ℕ)
      → length d ≡ 160
      → slice 12 32 (slice 0 32 d) ≡ publisher
      → be_value (slice 56 64 d) ≡ id
      → slice 64 96 d ≡ root
      → be_value (slice 120 128 d) ≡ result
      → be_value (slice 152 160 d) ≡ n_votes
      → parse_event_result_published c g d
        ≡ ok (record {
          publisher = g.bytes_to_address publisher;
          process_id = id;
          receipts_root = c.swap_endianness root;
          result = result;
          n_votes = n_votes;
        })
  unfolding parse_event_result_published
  published_of_slices d publisher root id result n_votes h a b e f k =
      rw (a, b, e, f, k) (ground arith)

  closed_of_slices :
      (d caller : Bytes) (id flag : ℕ)
      → length d ≡ 96
      → slice 12 32 (slice 0 32 d) ≡ caller
      → be_value (slice 56 64 d) ≡ id
      → byte_at 95 d ≡ flag
      → parse_event_process_closed c g d
        ≡ ok (record { caller = g.bytes_to_address caller; process_id = id; success = flag == 1 })
  unfolding parse_event_process_closed
  closed_of_slices d caller id flag h a b e = rw (a, b, e) (ground arith)

  -- The data of `EventResultPublished` is parsed into exactly the values that it encodes, the root
  -- with its bytes swapped.
  parse-published :
      (publisher : Bytes) (id : ℕ) (root : Bytes) (result n_votes : ℕ)
      → length publisher ≡ 20
      → IsWord root
      → id < 2 ^ 64
      → result < 2 ^ 64
      → n_votes < 2 ^ 64
      → parse_event_result_published c g (words (published_words publisher id root result n_votes))
        ≡ ok (record {
          publisher = g.bytes_to_address publisher;
          process_id = id;
          receipts_root = c.swap_endianness root;
          result = result;
          n_votes = n_votes;
        })
  parse-published publisher id root result n_votes ha hr hi hs hn =
      let ws = published_words publisher id root result n_votes in
      let all : All IsWord ws = (
        address_word-IsWord publisher ha,
        (
          uint64_word-IsWord id,
          (hr, (uint64_word-IsWord result, (uint64_word-IsWord n_votes, tt))),
        ),
      ) in
      published_of_slices (words ws) publisher root id result n_votes (length-words ws all)
        (address_field publisher ws ha all refl) (uint64_field 1 id ws all refl hi)
        (word_field 2 ws root hr all refl) (uint64_field 3 result ws all refl hs)
        (uint64_field 4 n_votes ws all refl hn)

  -- The data of `EventProcessClosed` is parsed into its values; the call succeeded exactly where
  -- the last byte of the flag is 1.
  parse-closed :
      (caller : Bytes) (id flag : ℕ)
      → length caller ≡ 20
      → id < 2 ^ 64
      → parse_event_process_closed c g (words (closed_words caller id flag))
        ≡ ok (record { caller = g.bytes_to_address caller; process_id = id; success = flag == 1 })
  parse-closed caller id flag ha hi =
      let ws = closed_words caller id flag in
      let all : All IsWord ws =
        (address_word-IsWord caller ha, (uint64_word-IsWord id, (refl, tt))) in
      closed_of_slices (words ws) caller id flag (length-words ws all)
        (address_field caller ws ha all refl) (uint64_field 1 id ws all refl hi)
        (byte_field 2 31 ws (uint8_word flag) all refl (omega arith))
