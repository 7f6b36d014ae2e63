-- ===== src/Base/Outcome.antt =====
-- What a Go function returns: a value, an error, or no return at all because it panics.
use Prim.Native.Nat.{ℕ}
use mathlib.Core.Path.{◌≡◌, refl}
use mathlib.Core.Bool.{Bool, true, false}
use mathlib.Core.Option.{Option, none, some}
use mathlib.Core.List.{List}

-- The errors that the node makes, with the numbers that their texts show; `external` is an error
-- that comes out of a package or a service.
pub data Error : Type 0 where
  process_not_in_db : ℕ → Error
  proof_not_in_db : ℕ → Error
  vote_process_missing : ℕ → Error
  proof_process_missing : ℕ → Error
  meta_not_in_db : Error
  unique_constraint : Error
  foreign_key_constraint : Error
  high_bit_set : Error
  start_block_is_zero : Error
  no_active_part : Error
  hex_invalid_byte : ℕ → Error
  hex_length : Error
  atoi_syntax : Error
  atoi_range : Error
  votes_can_not_be_added : ℕ → Error
  res_pub_start_block : ℕ → ℕ → Error
  signature_verification_failed : Error
  merkleproof_verification_failed : Error
  index_weight_length : Error
  unexpected_pubk_length : ℕ → Error
  invalid_vote_value : Error
  max_n_levels : ℕ → ℕ → Error
  can_not_add : ℕ → Error
  not_in_receipts_tree : Error
  key_not_found : Error
  census_not_closed : Error
  census_closed : Error
  census_already_closed : Error
  max_n_leafs_reached : ℕ → ℕ → Error
  pubk_not_in_census : List ℕ → Error
  leaf_value_differs : Error
  census_exists : ℕ → Error
  census_does_not_exist : ℕ → Error
  can_not_get_census_root : Error → Error
  event_length : ℕ → Error
  unrecognized_event : ℕ → Error
  storing_new_process : Error → Error
  parsing_event : ℕ → Error → Error
  prover_message : List ℕ → Error
  external : ℕ → Error

pub data Result {ℓ} (T : Type ℓ) : Type ℓ where
  panic : Result T
  err : Error → Result T
  ok : T → Result T

-- `if err != nil { return err }` between a call and what follows it; a panic unwinds the caller.
infixl 5 ◌>>=◌
abbrev pub ◌>>=◌ {ℓ κ} :
    {T : Type ℓ} {U : Type κ} (call : Result T) (rest : T → Result U) → Result U
panic >>= rest = panic
err failure >>= rest = err failure
ok value >>= rest = rest value

-- `if cond { return err }`
abbrev pub fail_if : Bool → Error → Result (Unit {0})
fail_if true e = err e
fail_if false e = ok tt

-- An access whose index the runtime checks.
abbrev pub panic_unless : Bool → Result (Unit {0})
panic_unless true = ok tt
panic_unless false = panic

abbrev pub some_or {ℓ} : {T : Type ℓ} → Option T → Error → Result T
some_or (some a) e = ok a
some_or none e = err e

-- A call whose only outcome is its error.
infixl 5 ◌>>◌
abbrev pub ◌>>◌ {κ} : {U : Type κ} (call : Result (Unit {0})) (rest : Result U) → Result U
call >> rest = call >>= λ done. rest

-- A chain that returns a value went through the value of its first call.
pub bind_eq_ok {ℓ κ} :
    {T : Type ℓ} {U : Type κ} {u : U} (call : Result T) (rest : T → Result U)
    → (call >>= rest) ≡ ok u
    → (t : T) × (call ≡ ok t) × (rest t ≡ ok u)
bind_eq_ok panic rest h = cc
bind_eq_ok (err failure) rest h = cc
bind_eq_ok (ok t) rest h = (t, refl, h)

-- A chain that went past a test found it false.
pub fail_if_passed {ℓ} :
    {T : Type ℓ} {t : T} (b : Bool) (e : Error) (rest : Result T)
    → (fail_if b e >> rest) ≡ ok t
    → (b ≡ false) × (rest ≡ ok t)
fail_if_passed true e rest h = cc
fail_if_passed false e rest h = (refl, h)

-- Chains that start alike end alike, when what follows each value does.
pub bind_same {ℓ κ} :
    {T : Type ℓ} {U : Type κ} (call : Result T) {rest other : T → Result U}
    → ((t : T) → rest t ≡ other t)
    → (call >>= rest) ≡ (call >>= other)
bind_same panic h = refl
bind_same (err failure) h = refl
bind_same (ok t) h = h t

pub ok_injective {ℓ} : {T : Type ℓ} {t u : T} → ok t ≡ ok u → t ≡ u
ok_injective h = cc
