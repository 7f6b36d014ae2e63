-- ===== src/Types/ZkJsonRoundTrip.antt =====
-- types/zkinputs.go: the texts of the JSON, read back as decimal numbers.
use ovote_node.Base.{
  ℕ, zero, suc, ◌+◌, ◌-◌, ◌*◌, ◌/◌, ◌%◌, ◌<◌, ◌≤◌, ◌≡◌, refl, ap, ◌∙◌, ◌++◌, [], ◌∷◌, List, map,
  Bytes, ℤ, pos, negsuc, nat_abs, ◌>>=◌, Result, Error, ok, err, ltb, ◌==◌, if◌then◌else◌, arith,
  Bool-cases, inl, inr,
}
use ovote_node.Types.ZkInputs.{ZkInputs}
use ovote_node.Types.ZkJson.{
  decimal_digits, int_text, Strings, string, strings, string_lists, JsonObject, json_object,
}

-- A decimal text, read with the number that stands before it.
abbrev pub digits_value : Bytes → ℕ → ℕ
digits_value [] n = n
digits_value (d ∷ ds) n = digits_value ds (n * 10 + (d - 48))

abbrev pub negated : ℕ → ℤ
negated zero = pos 0
negated (suc n) = negsuc n

abbrev pub read_int : Bytes → ℤ
read_int [] = pos 0
read_int (d ∷ ds) = if d == 45 then negated (digits_value ds 0) else pos (digits_value (d ∷ ds) 0)

digits_value-snoc :
    (ds : Bytes) (d n : ℕ) → digits_value (ds ++ d ∷ []) n ≡ digits_value ds n * 10 + (d - 48)
digits_value-snoc [] d n = refl
digits_value-snoc (e ∷ ds) d n = digits_value-snoc ds d (n * 10 + (e - 48))

digits_value-decimal_digits : (fuel n : ℕ) → n < fuel → digits_value (decimal_digits fuel n) 0 ≡ n
unfolding decimal_digits
digits_value-decimal_digits zero n h = omega arith
digits_value-decimal_digits (suc fuel) n h = elim (Bool-cases (ltb n 10)) [
  | inl small ↦ rw small (omega arith)
  | inr large ↦
      let ten : 10 ≤ n = ground arith in
      rw large (
        digits_value-snoc (decimal_digits fuel (n / 10)) (48 + n % 10) 0
        ∙ ap (λ k. k * 10 + (48 + n % 10 - 48))
            (digits_value-decimal_digits fuel (n / 10) (omega arith))
        ∙ omega arith)
]

-- A text of digits starts with a digit, which is no sign.
first_digit :
    (fuel n : ℕ) → n < fuel → (d : ℕ) × (ds : Bytes) × (decimal_digits fuel n ≡ d ∷ ds) × (48 ≤ d)
unfolding decimal_digits
first_digit zero n h = absurd (omega arith)
first_digit (suc fuel) n h = elim (Bool-cases (ltb n 10)) [
  | inl small ↦ rw small (48 + n, [], refl, omega arith)
  | inr large ↦
      let ten : 10 ≤ n = ground arith in
      let (d, ds, starts, digit) = first_digit fuel (n / 10) (omega arith) in
      rw large
        (d, ds ++ (48 + n % 10) ∷ [], ap (λ (xs : Bytes). xs ++ (48 + n % 10) ∷ []) starts, digit)
]

read_int-digits :
    (ds : Bytes) {d : ℕ} {rest : Bytes}
    → ds ≡ d ∷ rest
    → 48 ≤ d
    → read_int ds ≡ pos (digits_value ds 0)
read_int-digits ds {d} {rest} starts digit = rw starts (ground arith)

read_int-int_text : (x : ℤ) → read_int (int_text x) ≡ x
unfolding int_text
read_int-int_text (pos n) =
    let (d, ds, starts, digit) = first_digit (suc n) n (omega arith) in
    read_int-digits (decimal_digits (suc n) n) starts digit
    ∙ ap pos (digits_value-decimal_digits (suc n) n (omega arith))
read_int-int_text (negsuc n) =
    ap negated (digits_value-decimal_digits (suc (suc n)) (suc n) (omega arith))

map-inverse :
    {A B : Type 0} (f : A → B) (g : B → A)
    → ((x : A) → g (f x) ≡ x)
    → (xs : List A) → map g (map f xs) ≡ xs
map-inverse f g h [] = refl
map-inverse f g h (x ∷ xs) = λ i. h x i ∷ map-inverse f g h xs i

-- The values that are read back, where the texts stand as deep as the numbers did.
abbrev pub read_string : Strings → Result ℤ
read_string (string t) = ok (read_int t)
read_string _ = err (Error.external 0)

abbrev pub read_strings : Strings → Result (List ℤ)
read_strings (strings ts) = ok (map read_int ts)
read_strings _ = err (Error.external 0)

abbrev pub read_string_lists : Strings → Result (List (List ℤ))
read_string_lists (string_lists tss) = ok (map (map read_int) tss)
read_string_lists _ = err (Error.external 0)

abbrev pub read_inputs : (n_max_votes n_levels : ℕ) → JsonObject → Result ZkInputs
read_inputs n_max_votes n_levels o = do
  chain_id ← read_string o.chain_id
  process_id ← read_string o.process_id
  census_root ← read_string o.census_root
  receipts_root ← read_string o.receipts_root
  n_votes ← read_string o.n_votes
  result ← read_string o.result
  with_receipts ← read_string o.with_receipts
  vote ← read_strings o.vote
  index ← read_strings o.index
  pk_x ← read_strings o.pk_x
  pk_y ← read_strings o.pk_y
  weight ← read_strings o.weight
  s ← read_strings o.s
  r8x ← read_strings o.r8x
  r8y ← read_strings o.r8y
  siblings ← read_string_lists o.siblings
  receipts_siblings ← read_string_lists o.receipts_siblings
  ok (record {
    n_max_votes = n_max_votes;
    n_levels = n_levels;
    chain_id = chain_id;
    process_id = process_id;
    census_root = nat_abs census_root;
    receipts_root = nat_abs receipts_root;
    n_votes = nat_abs n_votes;
    result = result;
    with_receipts = nat_abs with_receipts;
    vote = map nat_abs vote;
    index = index;
    pk_x = map nat_abs pk_x;
    pk_y = map nat_abs pk_y;
    weight = weight;
    s = map nat_abs s;
    r8x = map nat_abs r8x;
    r8y = map nat_abs r8y;
    siblings = map (map nat_abs) siblings;
    receipts_siblings = map (map nat_abs) receipts_siblings;
  })

read_ints : (xs : List ℤ) → map read_int (map int_text xs) ≡ xs
read_ints = map-inverse int_text read_int read_int-int_text

read_numbers : (ns : List ℕ) → map nat_abs (map read_int (map int_text (map pos ns))) ≡ ns
read_numbers ns = ap (map nat_abs) (read_ints (map pos ns)) ∙ map-inverse pos nat_abs (λ n. refl) ns

read_number_lists :
    (nss : List (List ℕ))
    → map (map nat_abs) (map (map read_int) (map (map int_text) (map (map pos) nss))) ≡ nss
read_number_lists nss =
    ap (map (map nat_abs)) (map-inverse (map int_text) (map read_int) read_ints (map (map pos) nss))
    ∙ map-inverse (map pos) (map nat_abs) (map-inverse pos nat_abs (λ n. refl)) nss

-- The JSON object of the inputs has a text, a list of texts or a list of lists of texts for every
-- field but Meta, and never a number; read as decimal numbers these are exactly the inputs.
pub json_object-read : (z : ZkInputs) → read_inputs z.n_max_votes z.n_levels (json_object z) ≡ ok z
unfolding json_object
json_object-read z = λ i. ok (record {
  n_max_votes = z.n_max_votes;
  n_levels = z.n_levels;
  chain_id = read_int-int_text z.chain_id i;
  process_id = read_int-int_text z.process_id i;
  census_root = nat_abs (read_int-int_text (pos z.census_root) i);
  receipts_root = nat_abs (read_int-int_text (pos z.receipts_root) i);
  n_votes = nat_abs (read_int-int_text (pos z.n_votes) i);
  result = read_int-int_text z.result i;
  with_receipts = nat_abs (read_int-int_text (pos z.with_receipts) i);
  vote = read_numbers z.vote i;
  index = read_ints z.index i;
  pk_x = read_numbers z.pk_x i;
  pk_y = read_numbers z.pk_y i;
  weight = read_ints z.weight i;
  s = read_numbers z.s i;
  r8x = read_numbers z.r8x i;
  r8y = read_numbers z.r8y i;
  siblings = read_number_lists z.siblings i;
  receipts_siblings = read_number_lists z.receipts_siblings i;
})
