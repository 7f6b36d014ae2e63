-- ===== src/Eth/Layouts.antt =====
-- The words of the three events as the contract encodes them, and the fields of a word.
use ovote_node.Base.{
  ℕ, ◌≡◌, ap, ◌∙◌, sym, [], ◌∷◌, List, Bytes, arith, All, length, take, drop, append-nil,
  take-append_length, get_elem?, some, slice, ◌*◌, ◌+◌,
}
use ovote_node.Eth.Words.{words, IsWord, field, address_word, uint64_word, uint8_word}

pub address_word-IsWord : (a : Bytes) → length a ≡ 20 → IsWord (address_word a)
address_word-IsWord a h = omega arith

-- The data of `EventProcessCreated`, in the order of the contract's words.
abbrev pub created_words :
    (creator : Bytes) (id : ℕ) (tx root : Bytes)
    → (size start window participation positive typ : ℕ) → List Bytes
created_words creator id tx root size start window participation positive typ =
    address_word creator
    ∷ uint64_word id
    ∷ tx
    ∷ root
    ∷ uint64_word size
    ∷ uint64_word start
    ∷ uint64_word window
    ∷ uint8_word participation
    ∷ uint8_word positive
    ∷ uint8_word typ
    ∷ []

-- The same values in the order of the event signature in the parser's comment.
abbrev pub commented_words :
    (creator : Bytes) (id : ℕ) (tx root : Bytes)
    → (size start window participation positive typ : ℕ) → List Bytes
commented_words creator id tx root size start window participation positive typ =
    address_word creator
    ∷ uint64_word id
    ∷ tx
    ∷ root
    ∷ uint8_word typ
    ∷ uint64_word size
    ∷ uint64_word start
    ∷ uint64_word window
    ∷ uint8_word participation
    ∷ uint8_word positive
    ∷ []

abbrev pub published_words :
    (publisher : Bytes) (id : ℕ) (root : Bytes) (result n_votes : ℕ) → List Bytes
published_words publisher id root result n_votes =
    address_word publisher ∷ uint64_word id ∷ root ∷ uint64_word result ∷ uint64_word n_votes ∷ []

abbrev pub closed_words : (caller : Bytes) (id flag : ℕ) → List Bytes
closed_words caller id flag = address_word caller ∷ uint64_word id ∷ uint8_word flag ∷ []

take_all : (n : ℕ) (a : Bytes) → length a ≡ n → take n a ≡ a
take_all n a h = ap (take n) (sym (append-nil a)) ∙ take-append_length a [] h

-- The address in the first word.
pub address_field :
    (a : Bytes) (ws : List Bytes)
    → length a ≡ 20
    → All IsWord ws
    → get_elem? ws 0 ≡ some (address_word a)
    → slice 12 32 (slice 0 32 (words ws)) ≡ a
address_field a ws h all e =
    ap (slice 12 32) (field 0 0 32 ws (address_word a) all e (omega arith))
    ∙ ap (take 20) (take_all 20 a h)
    ∙ take_all 20 a h

-- A whole word.
pub word_field :
    (i : ℕ) (ws : List Bytes) (w : Bytes)
    → IsWord w
    → All IsWord ws
    → get_elem? ws i ≡ some w
    → take 32 (drop (32 * i + 0) (words ws)) ≡ w
word_field i ws w h all e = field i 0 32 ws w all e (omega arith) ∙ take_all 32 w h
