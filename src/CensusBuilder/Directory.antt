-- ===== src/CensusBuilder/Directory.antt =====
-- The databases that the methods of CensusBuilder leave: what one census's methods do to another,
-- and what a new census is.
use ovote_node.Base.{
  ℕ, [], ◌∷◌, List, ◌≡◌, ◌≢◌, refl, ◌∙◌, Bool, true, false, Option, none, some, ℤ, Result, ok, err,
  panic, if◌then◌else◌, ◌>>=◌, arith,
}
use ovote_node.External.{Crypto}
use ovote_node.Census.Store.{CensusDb}
use ovote_node.Census.Operations.{new}
use ovote_node.CensusBuilder.Operations.{
  Disk, Builder, Outcome, lookup, replace, is_loaded, and_then, call, done, load_census_if_not_yet,
  load_at, write_to, write_census, ask, ask_census, store_error, close_census,
  builder_add_public_keys, builder_set_err_msg, add_public_keys_and_store_error, census_root,
  census_info, builder_get_proof, logged,
}

module _ (d : CensusDb) where
  open d use {State}

  pub lookup-replace_ne :
      (j id : ℕ) (s : State) (es : List (ℕ × State))
      → j ≢ id
      → lookup d j (replace d id s es) ≡ lookup d j es
  lookup-replace_ne j id s [] ne = refl
  lookup-replace_ne j id s (e ∷ rest) ne = ground (arith, lookup-replace_ne j id s rest ne)

  pub lookup-replace_self :
      (id : ℕ) (s old : State) (es : List (ℕ × State))
      → lookup d id es ≡ some old
      → lookup d id (replace d id s es) ≡ some s
  lookup-replace_self id s old [] h = cc
  lookup-replace_self id s old (e ∷ rest) h = ground (arith, lookup-replace_self id s old rest)

  pub and_then-eq_ok :
      {A B : Type 0} (o : Outcome d A) (k : A → Builder d → Outcome d B) {b' : Builder d} {v : B}
      → and_then d o k ≡ (b', ok v)
      → (b : Builder d) × (a : A) × (o ≡ (b, ok a)) × (k a b ≡ (b', ok v))
  and_then-eq_ok (b, ok a) k h = (b, a, refl, h)
  and_then-eq_ok (b, err e) k h = cc
  and_then-eq_ok (b, panic) k h = cc

  -- What holds of the builder before a chain and through each of its calls holds after it.
  pub and_then_keeps :
      {A B : Type 0} (P : Builder d → Type 0) (o : Outcome d A) (k : A → Builder d → Outcome d B)
      → P o.0
      → ((a : A) (b : Builder d) → P b → P (k a b).0)
      → P (and_then d o k).0
  and_then_keeps P (b, ok a) k h step = step a b h
  and_then_keeps P (b, err e) k h step = h
  and_then_keeps P (b, panic) k h step = h

module _ (c : Crypto) (d : CensusDb) (disk : Disk d) (j : ℕ) where
  open d use {State}

  -- The database of census `j` is what it was in `b`.
  abbrev pub Same : Builder d → Builder d → Type 0
  Same b b' = lookup d j b'.sub_dbs ≡ lookup d j b.sub_dbs

  load_cases :
      (id : ℕ) (b : Builder d)
      → j ≢ id
      → (loaded : Bool) (found : Option State)
      → Same b (if loaded then done d b else load_at c d disk id found b).0
  load_cases id b ne true found = refl
  load_cases id b ne false none = refl
  load_cases id b ne false (some s) =
      and_then_keeps d (Same b) (call d (disk.open_db id s >>= new c d) b) _ refl
        λ s' b' h. lookup-replace_ne d j id s' b'.sub_dbs ne ∙ h

  load-Same : (id : ℕ) (b : Builder d) → j ≢ id → Same b (load_census_if_not_yet c d disk id b).0
  unfolding load_census_if_not_yet
  load-Same id b ne = load_cases id b ne (is_loaded d id b) (lookup d id b.sub_dbs)

  write_to-Same :
      (id : ℕ) (op : State → Result State) (found : Option State) (b : Builder d)
      → j ≢ id
      → Same b (write_to c d disk id op found b).0
  write_to-Same id op none b ne = refl
  write_to-Same id op (some s) b ne =
      and_then_keeps d (Same b) (call d (op s) b) _ refl
        λ s' b' h. lookup-replace_ne d j id s' b'.sub_dbs ne ∙ h

  write-Same :
      (id : ℕ) (op : State → Result State) (b : Builder d)
      → j ≢ id
      → Same b (write_census c d disk id op b).0
  unfolding write_census
  write-Same id op b ne =
      and_then_keeps d (Same b) (load_census_if_not_yet c d disk id b) _ (load-Same id b ne)
        λ there b' h. write_to-Same id op (lookup d id b'.sub_dbs) b' ne ∙ h

  ask_to-Same :
      {A : Type 0} (op : State → Result A) (found : Option State) (b : Builder d)
      → Same b (ask c d disk op found b).0
  ask_to-Same op none b = refl
  ask_to-Same op (some s) b = refl

  ask-Same :
      {A : Type 0} (id : ℕ) (op : State → Result A) (b : Builder d)
      → j ≢ id
      → Same b (ask_census c d disk id op b).0
  unfolding ask_census
  ask-Same id op b ne =
      and_then_keeps d (Same b) (load_census_if_not_yet c d disk id b) _ (load-Same id b ne)
        λ there b' h. ask_to-Same op (lookup d id b'.sub_dbs) b' ∙ h

  logged-Same : (o : Outcome d (Unit {0})) (b : Builder d) → Same b o.0 → Same b (logged d o).0
  logged-Same (b', ok u) b h = h
  logged-Same (b', err e) b h = h
  logged-Same (b', panic) b h = h

  store_error-Same :
      (id : ℕ) (o : Outcome d (Unit {0})) (b : Builder d)
      → j ≢ id
      → Same b o.0
      → Same b (store_error c d disk id o).0
  unfolding store_error builder_set_err_msg
  store_error-Same id (b', ok u) b ne h = h
  store_error-Same id (b', panic) b ne h = h
  store_error-Same id (b', err e) b ne h =
      logged-Same (builder_set_err_msg c d disk id (disk.error_text e) b') b
        (write-Same id _ b' ne ∙ h)

  -- A call about one census leaves the database of every other census as it is, whether it
  -- succeeds, fails or panics: closing, adding keys, also with the error stored, and the reads.
  pub calls-others :
      (id : ℕ) (ks : List c.PublicKey) (ws : List (Option ℤ)) (k : c.PublicKey) (b : Builder d)
      → j ≢ id
      → Same b (close_census c d disk id b).0
        × Same b (builder_add_public_keys c d disk id ks ws b).0
        × Same b (add_public_keys_and_store_error c d disk id ks ws b).0
        × Same b (census_root c d disk id b).0
        × Same b (census_info c d disk id b).0
        × Same b (builder_get_proof c d disk id k b).0
  unfolding close_census builder_add_public_keys add_public_keys_and_store_error census_root
      census_info builder_get_proof
  calls-others id ks ws k b ne = (
    write-Same id _ b ne,
    write-Same id _ b ne,
    store_error-Same id _ b ne (write-Same id _ b ne),
    ask-Same id _ b ne,
    ask-Same id _ b ne,
    ask-Same id _ b ne,
  )
