-- ===== src/CensusBuilder/Operations.antt =====
-- The methods of CensusBuilder. The databases of the censuses stay on disk when a method fails, so
-- a method returns the builder beside its result.
use ovote_node.Base.{
  ℕ, ◌++◌, [], ◌∷◌, List, Bytes, Bool, ◌==◌, any, Option, none, some, ℤ, Result, Error, ok, err,
  panic, le_bytes, add64, ◌>>=◌, if◌then◌else◌,
}
use ovote_node.External.{Crypto}
use ovote_node.Census.Store.{CensusDb}
use ovote_node.Census.Operations.{
  Info, new, close, root, info, add_public_keys, set_err_msg, get_proof, get_key, read_uint64,
}

-- pebbledb.New on a new path and on a path that exists, and `err.Error()`.
pub record Disk (d : CensusDb) : Type 0 where
  pub create_db : ℕ → Result d.State
  pub open_db : ℕ → d.State → Result d.State
  pub error_text : Error → Bytes

-- "nextCensusID"
abbrev pub db_key_next_census_id : Bytes
db_key_next_census_id = 110 ∷ 101 ∷ 120 ∷ 116 ∷ 67 ∷ 101 ∷ 110 ∷ 115 ∷ 117 ∷ 115 ∷ 73 ∷ 68 ∷ []

module _ (d : CensusDb) where
  -- The databases under `subDBsPath` by census id, and the builder's own database; `censuses` has
  -- the ids of the censuses that are loaded, whose database is the one on disk.
  pub record Builder : Type 0 where
    pub sub_dbs : List (ℕ × d.State)
    pub own_db : d.State
    pub censuses : List ℕ

  abbrev pub lookup : ℕ → List (ℕ × d.State) → Option d.State
  lookup id [] = none
  lookup id (e ∷ rest) = let found = lookup id rest in if e.0 == id then some e.1 else found

  abbrev pub replace : ℕ → d.State → List (ℕ × d.State) → List (ℕ × d.State)
  replace id s [] = []
  replace id s (e ∷ rest) =
      let others = replace id s rest in if e.0 == id then (id, s) ∷ rest else e ∷ others

  abbrev pub is_loaded : ℕ → Builder → Bool
  is_loaded id b = any (λ i. i == id) b.censuses

  -- What a method returns: the builder that is left, and the result.
  abbrev pub Outcome : Type 0 → Type 0
  Outcome A = Builder × Result A

  -- `if err != nil { return err }` with the builder passed along.
  abbrev pub and_then : {A B : Type 0} → Outcome A → (A → Builder → Outcome B) → Outcome B
  and_then (b, ok a) k = k a b
  and_then (b, err e) k = (b, err e)
  and_then (b, panic) k = (b, panic)

  -- A call that leaves the builder alone.
  abbrev pub call : {A : Type 0} → Result A → Builder → Outcome A
  call r b = (b, r)

  abbrev pub done : Builder → Outcome (Unit {0})
  done b = (b, ok tt)

  abbrev pub logged : Outcome (Unit {0}) → Outcome (Unit {0})
  logged (b, ok u) = done b
  logged (b, err e) = done b
  logged (b, panic) = (b, panic)

  abbrev pub with_db : ℕ → d.State → Builder → Builder
  with_db id s b = record b { sub_dbs = replace id s b.sub_dbs }

  -- The entry of the map of loaded censuses.
  abbrev pub with_loaded : ℕ → Builder → Builder
  with_loaded id b = record b { censuses = id ∷ b.censuses }

module _ (c : Crypto) (d : CensusDb) (disk : Disk d) where
  open d use {State, get, set, commit}

  unfoldable pub get_next_census_id : State → Result ℕ
  get_next_census_id s = do v ← get_key c d db_key_next_census_id s; read_uint64 v

  unfoldable pub set_next_census_id : ℕ → State → Result State
  set_next_census_id n s = set db_key_next_census_id (le_bytes 8 n) s

  -- Any error of the read sets the id to 0.
  abbrev pub init_next_census_id : Result ℕ → State → Result State
  init_next_census_id (ok n) s = ok s
  init_next_census_id (err e) s = set_next_census_id 0 s
  init_next_census_id panic s = panic

  -- New: nothing is loaded, and the databases on disk are as they are.
  unfoldable pub new_builder : List (ℕ × State) → State → Result (Builder d)
  unfolding get_next_census_id set_next_census_id
  new_builder sub_dbs s = do
    s₁ ← init_next_census_id (get_next_census_id s) s
    s₂ ← commit s₁
    ok (record { sub_dbs = sub_dbs; own_db = s₂; censuses = [] })

  -- The database stays on disk when the census in it cannot be made.
  abbrev pub create_in : ℕ → State → Builder d → Outcome d (Unit {0})
  create_in id s b =
      let b' = record b { sub_dbs = b.sub_dbs ++ (id, s) ∷ [] } in
      and_then d (call d (new c d s) b') λ s' b''. done d (with_loaded d id (with_db d id s' b''))

  abbrev pub create_at : ℕ → Option State → Builder d → Outcome d (Unit {0})
  create_at id (some s) b = (b, err (Error.census_exists id))
  create_at id none b = and_then d (call d (disk.create_db id) b) (create_in id)

  unfoldable pub create_census : ℕ → Builder d → Outcome d (Unit {0})
  create_census id b = create_at id (lookup d id b.sub_dbs) b

  abbrev pub load_at : ℕ → Option State → Builder d → Outcome d (Unit {0})
  load_at id none b = (b, err (Error.census_does_not_exist id))
  load_at id (some s) b =
      and_then d (call d (disk.open_db id s >>= new c d) b)
        λ s' b'. done d (with_loaded d id (with_db d id s' b'))

  unfoldable pub load_census_if_not_yet : ℕ → Builder d → Outcome d (Unit {0})
  load_census_if_not_yet id b =
      if is_loaded d id b then done d b else load_at id (lookup d id b.sub_dbs) b

  unfoldable pub new_census : Builder d → Outcome d ℕ
  unfolding get_next_census_id set_next_census_id create_census
  new_census b = and_then d (call d (get_next_census_id b.own_db) b) λ id b₁.
      and_then d (create_census id b₁) λ made b₂.
        and_then d (call d (set_next_census_id (add64 id 1) b₂.own_db >>= commit) b₂)
          λ s b₃. (record b₃ { own_db = s }, ok id)

  -- A method of the loaded census that writes, and one that reads.
  abbrev pub write_to : ℕ → (State → Result State) → Option State → Builder d → Outcome d (Unit {0})
  write_to id op none b = (b, panic)
  write_to id op (some s) b = and_then d (call d (op s) b) λ s' b'. done d (with_db d id s' b')

  abbrev pub ask : {A : Type 0} → (State → Result A) → Option State → Builder d → Outcome d A
  ask op none b = (b, panic)
  ask op (some s) b = call d (op s) b

  unfoldable pub write_census : ℕ → (State → Result State) → Builder d → Outcome d (Unit {0})
  unfolding load_census_if_not_yet
  write_census id op b =
      and_then d (load_census_if_not_yet id b)
        λ there b'. write_to id op (lookup d id b'.sub_dbs) b'

  unfoldable pub ask_census : {A : Type 0} → ℕ → (State → Result A) → Builder d → Outcome d A
  unfolding load_census_if_not_yet
  ask_census id op b =
      and_then d (load_census_if_not_yet id b) λ there b'. ask op (lookup d id b'.sub_dbs) b'

  unfoldable pub close_census : ℕ → Builder d → Outcome d (Unit {0})
  unfolding write_census
  close_census id b = write_census id (close c d) b

  -- The root, with a text before its error.
  abbrev pub root_error : {A : Type 0} → Result A → Result A
  root_error (ok r) = ok r
  root_error (err e) = err (Error.can_not_get_census_root e)
  root_error panic = panic

  unfoldable pub census_root : ℕ → Builder d → Outcome d Bytes
  unfolding ask_census
  census_root id b = ask_census id (λ s. root_error (root c d s)) b

  unfoldable pub census_info : ℕ → Builder d → Outcome d Info
  unfolding ask_census
  census_info id b = ask_census id (info c d) b

  unfoldable pub builder_add_public_keys :
      ℕ → List c.PublicKey → List (Option ℤ) → Builder d → Outcome d (Unit {0})
  unfolding write_census
  builder_add_public_keys id ks ws b = write_census id (add_public_keys c d ks ws) b

  unfoldable pub builder_set_err_msg : ℕ → Bytes → Builder d → Outcome d (Unit {0})
  unfolding write_census
  builder_set_err_msg id status b = write_census id (set_err_msg c d status) b

  -- The error of the goroutine is stored; an error of the storing is only logged.
  unfoldable pub store_error : ℕ → Outcome d (Unit {0}) → Outcome d (Unit {0})
  unfolding builder_set_err_msg
  store_error id (b, ok u) = done d b
  store_error id (b, panic) = (b, panic)
  store_error id (b, err e) = logged d (builder_set_err_msg id (disk.error_text e) b)

  unfoldable pub add_public_keys_and_store_error :
      ℕ → List c.PublicKey → List (Option ℤ) → Builder d → Outcome d (Unit {0})
  unfolding builder_add_public_keys store_error
  add_public_keys_and_store_error id ks ws b = store_error id (builder_add_public_keys id ks ws b)

  unfoldable pub builder_get_proof : ℕ → c.PublicKey → Builder d → Outcome d (ℕ × Bytes)
  unfolding ask_census
  builder_get_proof id k b = ask_census id (get_proof c d k) b
