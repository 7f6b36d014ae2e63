-- ===== src/CensusBuilder/Registered.antt =====
-- The databases of a builder against a registry of rolls.
use ovote_node.Base.{
  any, ◌||◌, ℕ, ◌≡◌, ◌≢◌, sym, ap, ◌∙◌, subst, inl, inr, true, false, ◌∷◌, List, Option, none, some,
  ok, Bool, ◌==◌, Bool-cases, if◌then◌else◌, arith,
}
use ovote_node.External.{Crypto}
use ovote_node.Census.Store.{CensusDb, db_key_next_index}
use ovote_node.Census.Roll.{Roll}
use ovote_node.Census.RollWrites.{Shows}
use ovote_node.CensusBuilder.Operations.{Builder, lookup, is_loaded}
use ovote_node.CensusBuilder.Registry.{Registry, RegistrySteps, put}

module _ (c : Crypto) (d : CensusDb) where
  open d use {State, get}

  -- A database in which no census has been made yet.
  abbrev pub IsFresh : State → Type 0
  IsFresh s =
      (get db_key_next_index s ≡ ok none) × ((k : c.PublicKey) → get (c.compress k) s ≡ ok none)

  -- What is on disk under an id against the roll that is registered under it.
  abbrev pub ShowsAt : Option State → Option (Roll c) → Type 0
  ShowsAt none none = Unit
  ShowsAt none (some roll) = ⊥
  ShowsAt (some s) none = IsFresh s
  ShowsAt (some s) (some roll) = Shows c d s roll

  -- A census that is loaded is registered.
  abbrev pub IsRegistered : Bool → Option (Roll c) → Type 0
  IsRegistered false o = Unit
  IsRegistered true none = ⊥
  IsRegistered true (some roll) = Unit

  pub record ShowsAll (b : Builder d) (registry : Registry c) : Type 0 where
    pub shown : (id : ℕ) → ShowsAt (lookup d id b.sub_dbs) (registry id)
    pub registered : (id : ℕ) → IsRegistered (is_loaded d id b) (registry id)

  -- A registry that steps lead to, and that the builder shows.
  abbrev pub Reached : Registry c → Builder d → Type 0
  Reached registry b = (after : Registry c) × RegistrySteps c registry after × ShowsAll b after

  IsRegistered-some : (b : Bool) (roll : Roll c) → IsRegistered b (some roll)
  IsRegistered-some true roll = tt
  IsRegistered-some false roll = tt

  put-IsRegistered :
      (id j : ℕ) (roll : Roll c) (registry : Registry c) (b : Bool)
      → IsRegistered b (registry j)
      → (at : Bool) → IsRegistered b (if at then some roll else registry j)
  put-IsRegistered id j roll registry true h true = tt
  put-IsRegistered id j roll registry false h true = tt
  put-IsRegistered id j roll registry b h false = h

  loaded-IsRegistered :
      (id j : ℕ) (roll : Roll c) (registry : Registry c) (b : Bool)
      → IsRegistered b (registry j)
      → IsRegistered (id == j || b) (if j == id then some roll else registry j)
  loaded-IsRegistered id j roll registry b h = elim (Bool-cases (j == id)) [
    | inl same ↦ rw same (IsRegistered-some (id == j || b) roll)
    | inr other ↦ let differ : (id == j) ≡ false = ground arith in rw (other, differ) h
  ]

  -- The databases under the other ids stay, and the one under an id shows a roll.
  put-shown :
      (id j : ℕ) (s : State) (roll : Roll c) (before after : List (ℕ × State))
      (registry : Registry c)
      → lookup d id after ≡ some s
      → (j ≢ id → lookup d j after ≡ lookup d j before)
      → Shows c d s roll
      → ShowsAt (lookup d j before) (registry j)
      → ShowsAt (lookup d j after) (put c id roll registry j)
  put-shown id j s roll before after registry there others shows h = elim (Bool-cases (j == id)) [
    | inl same ↦
        let here : j ≡ id = ground arith in
        let found : lookup d j after ≡ some s = ap (λ i. lookup d i after) here ∙ there in
        rw (same, found) shows
    | inr other ↦
        let kept : lookup d j after ≡ lookup d j before = others (ground arith) in
        rw (other, kept) h
  ]

  -- The registry and the builder when a census's database comes to show a roll, loaded or not.
  pub put-ShowsAll :
      (id : ℕ) (s : State) (roll : Roll c) (b b' : Builder d) (registry : Registry c)
      → lookup d id b'.sub_dbs ≡ some s
      → ((j : ℕ) → j ≢ id → lookup d j b'.sub_dbs ≡ lookup d j b.sub_dbs)
      → Shows c d s roll
      → b'.censuses ≡ b.censuses
      → ShowsAll b registry
      → ShowsAll b' (put c id roll registry)
  put-ShowsAll id s roll b b' registry there others shows same all = record {
    shown = λ j.
        put-shown id j s roll b.sub_dbs b'.sub_dbs registry there (others j) shows (all.shown j);
    registered = λ j.
        subst (λ cs. IsRegistered (any (λ i. i == j) cs) (put c id roll registry j)) (sym same)
          (put-IsRegistered id j roll registry (is_loaded d j b) (all.registered j) (j == id));
  }

  pub load-ShowsAll :
      (id : ℕ) (s : State) (roll : Roll c) (b b' : Builder d) (registry : Registry c)
      → lookup d id b'.sub_dbs ≡ some s
      → ((j : ℕ) → j ≢ id → lookup d j b'.sub_dbs ≡ lookup d j b.sub_dbs)
      → Shows c d s roll
      → b'.censuses ≡ id ∷ b.censuses
      → ShowsAll b registry
      → ShowsAll b' (put c id roll registry)
  load-ShowsAll id s roll b b' registry there others shows same all = record {
    shown = λ j.
        put-shown id j s roll b.sub_dbs b'.sub_dbs registry there (others j) shows (all.shown j);
    registered = λ j.
        subst (λ cs. IsRegistered (any (λ i. i == j) cs) (put c id roll registry j)) (sym same)
          (loaded-IsRegistered id j roll registry (is_loaded d j b) (all.registered j));
  }
