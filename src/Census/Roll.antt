-- ===== src/Census/Roll.antt =====
-- What a census promises, without a database: a roll that gives every enrolled key its index and
-- its weight, until it is closed.
use ovote_node.Base.{
  ℕ, ◌≡◌, [], ◌∷◌, List, Bool, true, false, ℤ, Option, none, some, add64, length, bytes_equal,
  if◌then◌else◌,
}
use ovote_node.External.{Crypto}

-- There is a weight for every key, and it is not nil.
abbrev pub IsWeighted : {K : Type 0} → List K → List (Option ℤ) → Type 0
IsWeighted [] ws = Unit
IsWeighted (k ∷ ks) [] = ⊥
IsWeighted (k ∷ ks) (none ∷ ws) = ⊥
IsWeighted (k ∷ ks) (some w ∷ ws) = IsWeighted ks ws

module _ (c : Crypto) where
  open c use {PublicKey, compress}

  -- The index and the weight of a key.
  abbrev pub Entry : Type 0
  Entry = ℕ × ℤ

  pub record Roll : Type 0 where
    pub size : ℕ
    pub closed : Bool
    pub entry : PublicKey → Option Entry

  abbrev pub empty_roll : Roll
  empty_roll = record { size = 0; closed = false; entry = λ k. none }

  abbrev pub with_entry : PublicKey → Entry → (PublicKey → Option Entry) → PublicKey → Option Entry
  with_entry k e entry other =
      if bytes_equal (compress other) (compress k) then some e else entry other

  -- The keys of a batch take the indexes from one on.
  abbrev pub enroll :
      ℕ → List PublicKey → List (Option ℤ) → (PublicKey → Option Entry) → PublicKey → Option Entry
  enroll n [] ws entry = entry
  enroll n (k ∷ ks) [] entry = entry
  enroll n (k ∷ ks) (none ∷ ws) entry = entry
  enroll n (k ∷ ks) (some w ∷ ws) entry = enroll (add64 n 1) ks ws (with_entry k (n, w) entry)

  -- A roll that is open takes a batch of keys, each with its weight, or is closed.
  pub data RollStep (roll : Roll) : Roll → Type 0 where
    enrolled :
        (ks : List PublicKey) (ws : List (Option ℤ)) {after : Roll}
        → roll.closed ≡ false
        → IsWeighted ks ws
        → after ≡ record roll {
          size = add64 roll.size (length ks);
          entry = enroll roll.size ks ws roll.entry;
        }
        → RollStep roll after
    closes :
        {after : Roll}
        → roll.closed ≡ false
        → after ≡ record roll { closed = true }
        → RollStep roll after

  -- Any number of these steps.
  pub data RollSteps (roll : Roll) : Roll → Type 0 where
    unchanged : RollSteps roll roll
    next :
        {middle after : Roll} → RollSteps roll middle → RollStep middle after → RollSteps roll after
