-- ===== src/Types/ZkJson.antt =====
-- types/zkinputs.go: the JSON of the inputs, in which every number is a text.
use ovote_node.Base.{
  ℕ, zero, suc, ◌+◌, ◌/◌, ◌%◌, ◌++◌, [], ◌∷◌, List, map, Bytes, ℤ, pos, negsuc, ltb, if◌then◌else◌,
}
use ovote_node.Types.ZkInputs.{ZkInputs}

-- The decimal digits of a number, the highest first.
unfoldable pub decimal_digits : (fuel n : ℕ) → Bytes
decimal_digits zero n = []
decimal_digits (suc fuel) n =
    let rest = decimal_digits fuel (n / 10) ++ (48 + n % 10) ∷ [] in
    if ltb n 10 then (48 + n) ∷ [] else rest

-- `Int.String`: a number has at most as many digits as its value and one.
unfoldable pub int_text : ℤ → Bytes
unfolding decimal_digits
int_text (pos n) = decimal_digits (suc n) n
int_text (negsuc n) = 45 ∷ decimal_digits (suc (suc n)) (suc n)

-- The values that are in the map of the decoded struct; `other` is that of no case of the switch.
pub data FieldValue : Type 0 where
  big_int : ℤ → FieldValue
  big_ints : List ℤ → FieldValue
  big_int_lists : List (List ℤ) → FieldValue
  string_map : FieldValue
  other : FieldValue

-- The values that are put in their place.
pub data Strings : Type 0 where
  null : Strings
  string : Bytes → Strings
  strings : List Bytes → Strings
  string_lists : List (List Bytes) → Strings

unfoldable pub big_ints_to_strings : FieldValue → Strings
unfolding int_text
big_ints_to_strings (FieldValue.big_int x) = string (int_text x)
big_ints_to_strings (FieldValue.big_ints xs) = strings (map int_text xs)
big_ints_to_strings (FieldValue.big_int_lists xss) = string_lists (map (map int_text) xss)
big_ints_to_strings FieldValue.string_map = null
big_ints_to_strings FieldValue.other = null

-- The object that is marshalled, by the json tags of the fields; Meta has the tag "-".
pub record JsonObject : Type 0 where
  pub chain_id : Strings
  pub process_id : Strings
  pub census_root : Strings
  pub receipts_root : Strings
  pub n_votes : Strings
  pub result : Strings
  pub with_receipts : Strings
  pub vote : Strings
  pub index : Strings
  pub pk_x : Strings
  pub pk_y : Strings
  pub weight : Strings
  pub s : Strings
  pub r8x : Strings
  pub r8y : Strings
  pub siblings : Strings
  pub receipts_siblings : Strings

abbrev pub number : ℕ → FieldValue
number n = FieldValue.big_int (pos n)

abbrev pub numbers : List ℕ → FieldValue
numbers ns = FieldValue.big_ints (map pos ns)

abbrev pub number_lists : List (List ℕ) → FieldValue
number_lists nss = FieldValue.big_int_lists (map (map pos) nss)

-- MarshalJSON, up to the call of json.Marshal.
unfoldable pub json_object : ZkInputs → JsonObject
unfolding big_ints_to_strings
json_object z = record {
  chain_id = big_ints_to_strings (FieldValue.big_int z.chain_id);
  process_id = big_ints_to_strings (FieldValue.big_int z.process_id);
  census_root = big_ints_to_strings (number z.census_root);
  receipts_root = big_ints_to_strings (number z.receipts_root);
  n_votes = big_ints_to_strings (number z.n_votes);
  result = big_ints_to_strings (FieldValue.big_int z.result);
  with_receipts = big_ints_to_strings (number z.with_receipts);
  vote = big_ints_to_strings (numbers z.vote);
  index = big_ints_to_strings (FieldValue.big_ints z.index);
  pk_x = big_ints_to_strings (numbers z.pk_x);
  pk_y = big_ints_to_strings (numbers z.pk_y);
  weight = big_ints_to_strings (FieldValue.big_ints z.weight);
  s = big_ints_to_strings (numbers z.s);
  r8x = big_ints_to_strings (numbers z.r8x);
  r8y = big_ints_to_strings (numbers z.r8y);
  siblings = big_ints_to_strings (number_lists z.siblings);
  receipts_siblings = big_ints_to_strings (number_lists z.receipts_siblings);
}
