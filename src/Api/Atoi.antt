-- ===== src/Api/Atoi.antt =====
-- strconv.Atoi, and the conversion of its `int` to a uint64.
use ovote_node.Base.{
  ℕ, zero, suc, ◌+◌, ◌-◌, ◌*◌, ◌∷◌, [], Bytes, ◌||◌, ℤ, pos, negsuc, uint64, two63, two64, Result,
  Error, ok, err, ◌>>=◌, if◌then◌else◌, ltb, ◌==◌,
}

-- The digits behind `n`: a character that is none is a syntax error, a number that does not fit a
-- uint64 a range error.
unfoldable pub scan_digits : Bytes → ℕ → Result ℕ
scan_digits [] n = ok n
scan_digits (ch ∷ rest) n =
    let m = n * 10 + (ch - 48) in
    let more = scan_digits rest m in
    if ltb ch 48 || ltb 57 ch
    then err Error.atoi_syntax
    else if ltb (two64 - 1) m
    then err Error.atoi_range
    else more

unfoldable pub parse_digits : Bytes → Result ℕ
unfolding scan_digits
parse_digits [] = err Error.atoi_syntax
parse_digits (ch ∷ rest) = scan_digits (ch ∷ rest) 0

-- -n
abbrev pub negated : ℕ → ℤ
negated zero = pos 0
negated (suc n) = negsuc n

-- The range of an int64 below and above 0.
abbrev pub positive : ℕ → Result ℤ
positive n = if ltb n two63 then ok (pos n) else err Error.atoi_range

abbrev pub negative : ℕ → Result ℤ
negative n = if ltb two63 n then err Error.atoi_range else ok (negated n)

-- A sign may stand first.
unfoldable pub atoi : Bytes → Result ℤ
unfolding parse_digits
atoi [] = err Error.atoi_syntax
atoi (ch ∷ rest) =
    if ch == 45
    then parse_digits rest >>= negative
    else if ch == 43
    then parse_digits rest >>= positive
    else parse_digits (ch ∷ rest) >>= positive

-- `strconv.Atoi`, and the conversion of the handlers
unfoldable pub id_param : Bytes → Result ℕ
unfolding atoi
id_param text = do n ← atoi text; ok (uint64 n)
