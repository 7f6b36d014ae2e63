-- ===== src/Eth/Words.antt =====
-- A log's data as a sequence of 32-byte words, and its fields as parts of a word.
use ovote_node.Base.{
  ℕ, zero, suc, ◌+◌, ◌*◌, ◌^◌, ◌<◌, ◌≤◌, ◌≡◌, refl, ap, ◌∙◌, sym, ◌++◌, [], ◌∷◌, List, Bytes, some,
  All, arith, length, length-append, length-be_bytes, length-drop, take, drop, get_elem?, replicate,
  be_bytes, be_value, be_value-be_bytes, take-append_length, drop-append_length, append-nil,
}
use ovote_node.Eth.Events.{byte_at}

abbrev pub words : List Bytes → Bytes
words [] = []
words (w ∷ ws) = w ++ words ws

abbrev pub IsWord : Bytes → Type 0
IsWord w = length w ≡ 32

pub length-words : (ws : List Bytes) → All IsWord ws → length (words ws) ≡ 32 * length ws
length-words [] h = omega arith
length-words (w ∷ ws) (h, t) = omega (arith, length-append w (words ws), length-words ws t, h)

drop-add : (m n : ℕ) (xs : Bytes) → drop (m + n) xs ≡ drop n (drop m xs)
drop-add zero n xs = ap (λ k. drop k xs) (omega arith)
drop-add (suc m) n [] =
    ap (λ k. drop {A = ℕ} k []) {y = suc (m + n)} (omega arith) ∙ sym (drop-nil n)
  where
    drop-nil : (n : ℕ) → drop {A = ℕ} n [] ≡ []
    drop-nil zero = refl
    drop-nil (suc n) = refl
drop-add (suc m) n (x ∷ xs) =
    ap (λ k. drop k (x ∷ xs)) {y = suc (m + n)} (omega arith) ∙ drop-add m n xs

drop-front : (n : ℕ) (xs ys : Bytes) → n ≤ length xs → drop n (xs ++ ys) ≡ drop n xs ++ ys
drop-front zero xs ys h = refl
drop-front (suc n) [] ys h = absurd (omega arith)
drop-front (suc n) (x ∷ xs) ys h = drop-front n xs ys (omega arith)

take-front : (n : ℕ) (xs ys : Bytes) → n ≤ length xs → take n (xs ++ ys) ≡ take n xs
take-front zero xs ys h = refl
take-front (suc n) [] ys h = absurd (omega arith)
take-front (suc n) (x ∷ xs) ys h = ap (λ l. x ∷ l) (take-front n xs ys (omega arith))

-- A part of the i-th word is the part of the data at the word's offset.
pub field :
    (i a n : ℕ) (ws : List Bytes) (w : Bytes)
    → All IsWord ws
    → get_elem? ws i ≡ some w
    → a + n ≤ 32
    → take n (drop (32 * i + a) (words ws)) ≡ take n (drop a w)
field i a n [] w h e b = cc
field zero a n (v ∷ ws) w (h, t) e b =
    let same : v ≡ w = cc in
    ap (λ k. take n (drop k (v ++ words ws))) {y = a} (omega arith)
    ∙ ap (take n) (drop-front a v (words ws) (omega arith))
    ∙ take-front n (drop a v) (words ws) (omega (arith, length-drop a v))
    ∙ ap (λ u. take n (drop a u)) same
field (suc i) a n (v ∷ ws) w (h, t) e b =
    ap (λ k. take n (drop k (v ++ words ws))) {y = 32 + (32 * i + a)} (omega arith)
    ∙ ap (take n) (drop-add 32 (32 * i + a) (v ++ words ws))
    ∙ ap (λ u. take n (drop (32 * i + a) u)) (drop-append_length v (words ws) h)
    ∙ field i a n ws w t e b

abbrev first_byte : Bytes → ℕ
first_byte [] = 0
first_byte (b ∷ bs) = b

byte_at-drop : (i : ℕ) (d : Bytes) → byte_at i d ≡ first_byte (take 1 (drop i d))
byte_at-drop i [] = ap first_byte (sym (nil i))
  where
    nil : (i : ℕ) → take {A = ℕ} 1 (drop i []) ≡ []
    nil zero = refl
    nil (suc i) = refl
byte_at-drop zero (b ∷ d) = refl
byte_at-drop (suc i) (b ∷ d) = byte_at-drop i d

pub byte_field :
    (i a : ℕ) (ws : List Bytes) (w : Bytes)
    → All IsWord ws
    → get_elem? ws i ≡ some w
    → a < 32
    → byte_at (32 * i + a) (words ws) ≡ byte_at a w
byte_field i a ws w h e b =
    byte_at-drop (32 * i + a) (words ws)
    ∙ ap first_byte (field i a 1 ws w h e (omega arith))
    ∙ sym (byte_at-drop a w)

-- The ABI's words: an address, a uint64, a uint8 (or a bool), each padded on the left.
abbrev pub address_word : Bytes → Bytes
address_word a = replicate 12 0 ++ a

unfoldable pub uint64_word : ℕ → Bytes
uint64_word n = replicate 24 0 ++ be_bytes 8 n

abbrev pub uint8_word : ℕ → Bytes
uint8_word n = replicate 31 0 ++ n ∷ []

pub uint64_word-IsWord : (n : ℕ) → IsWord (uint64_word n)
unfolding uint64_word
uint64_word-IsWord n =
    omega (arith, length-append (replicate 24 0) (be_bytes 8 n), length-be_bytes 8 n)

-- The last eight bytes of a uint64's word.
pub uint64_field :
    (i n : ℕ) (ws : List Bytes)
    → All IsWord ws
    → get_elem? ws i ≡ some (uint64_word n)
    → n < 2 ^ 64
    → be_value (take 8 (drop (32 * i + 24) (words ws))) ≡ n
unfolding uint64_word
uint64_field i n ws h e b =
    ap be_value (
      field i 24 8 ws (uint64_word n) h e (omega arith)
      ∙ ap (take 8) (drop-append_length (replicate 24 0) (be_bytes 8 n) refl)
      ∙ ap (take 8) (sym (append-nil (be_bytes 8 n)))
      ∙ take-append_length (be_bytes 8 n) [] (length-be_bytes 8 n))
    ∙ be_value-be_bytes 8 n (omega arith)

-- A uint8's word read as a uint64.
pub uint8_field :
    (i n : ℕ) (ws : List Bytes)
    → All IsWord ws
    → get_elem? ws i ≡ some (uint8_word n)
    → be_value (take 8 (drop (32 * i + 24) (words ws))) ≡ n
unfolding be_value
uint8_field i n ws h e =
    ap be_value (field i 24 8 ws (uint8_word n) h e (omega arith)) ∙ omega arith
