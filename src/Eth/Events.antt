-- ===== src/Eth/Events.antt =====
-- eth/eth.go: the three events and their parsers. A log's data is a sequence of 32-byte words.
use ovote_node.Base.{
  ℕ, Bool, not, Bytes, Result, Error, ok, fail_if, ◌>>◌, ◌==◌, length, slice, be_value, get_elem?,
  none, some,
}
use ovote_node.External.{Crypto}

abbrev pub event_new_process_len : ℕ
event_new_process_len = 320

abbrev pub event_result_published_len : ℕ
event_result_published_len = 160

abbrev pub event_process_closed_len : ℕ
event_process_closed_len = 96

-- go-ethereum's common.Address and BytesToAddress.
pub record Geth : Type 1 where
  pub Address : Type 0
  pub bytes_to_address : Bytes → Address

pub record EventNewProcess (Address : Type 0) : Type 0 where
  pub creator : Address
  pub process_id : ℕ
  pub tx_hash : Bytes
  pub census_root : Bytes
  pub census_size : ℕ
  pub res_pub_start_block : ℕ
  pub res_pub_window : ℕ
  pub min_participation : ℕ
  pub min_positive_votes : ℕ
  pub typ : ℕ

pub record EventResultPublished (Address : Type 0) : Type 0 where
  pub publisher : Address
  pub process_id : ℕ
  pub receipts_root : Bytes
  pub result : ℕ
  pub n_votes : ℕ

pub record EventProcessClosed (Address : Type 0) : Type 0 where
  pub caller : Address
  pub process_id : ℕ
  pub success : Bool

-- `d[i]`; every call is behind a test of the length.
abbrev pub byte_at : ℕ → Bytes → ℕ
byte_at i d = elim (get_elem? d i) [ none ↦ 0 | some b ↦ b ]

module _ (c : Crypto) (g : Geth) where
  open c use {swap_endianness}
  open g use {Address, bytes_to_address}

  unfoldable pub parse_event_new_process : Bytes → Result (EventNewProcess Address)
  parse_event_new_process d = do
    fail_if (not (length d == event_new_process_len)) (Error.event_length (length d))
    ok (record {
      creator = bytes_to_address (slice 12 32 (slice 0 32 d));
      process_id = be_value (slice 56 64 d);
      tx_hash = slice 64 96 d;
      census_root = swap_endianness (slice 96 128 d);
      census_size = be_value (slice 152 160 d);
      res_pub_start_block = be_value (slice 184 192 d);
      res_pub_window = be_value (slice 216 224 d);
      min_participation = byte_at 255 d;
      min_positive_votes = byte_at 287 d;
      typ = byte_at 319 d;
    })

  unfoldable pub parse_event_result_published : Bytes → Result (EventResultPublished Address)
  parse_event_result_published d = do
    fail_if (not (length d == event_result_published_len)) (Error.event_length (length d))
    ok (record {
      publisher = bytes_to_address (slice 12 32 (slice 0 32 d));
      process_id = be_value (slice 56 64 d);
      receipts_root = swap_endianness (slice 64 96 d);
      result = be_value (slice 120 128 d);
      n_votes = be_value (slice 152 160 d);
    })

  unfoldable pub parse_event_process_closed : Bytes → Result (EventProcessClosed Address)
  parse_event_process_closed d = do
    fail_if (not (length d == event_process_closed_len)) (Error.event_length (length d))
    ok (record {
      caller = bytes_to_address (slice 12 32 (slice 0 32 d));
      process_id = be_value (slice 56 64 d);
      success = byte_at 95 d == 1;
    })
