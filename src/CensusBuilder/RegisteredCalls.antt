-- ===== src/CensusBuilder/RegisteredCalls.antt =====
-- The parts of CensusBuilder's methods as steps of a registry.
use ovote_node.Base.{
  ℕ, ◌≡◌, refl, sym, ap, ◌∙◌, subst, true, false, Option, none, some, Result, ok, err, panic, Bool,
  bind_eq_ok, if◌then◌else◌, ◌>>=◌,
}
use ovote_node.External.{Crypto}
use ovote_node.Census.Store.{CensusDb, IsCensusDb}
use ovote_node.Census.Operations.{new}
use ovote_node.Census.Proofs.{IsCensusTree}
use ovote_node.Census.Actions.{Action, perform}
use ovote_node.Census.Beginning.{new-Shows, new-reopens}
use ovote_node.Census.Roll.{Roll, empty_roll}
use ovote_node.Census.RollWrites.{Shows}
use ovote_node.Census.RollRefinement.{perform-Shows}
use ovote_node.CensusBuilder.Operations.{
  Disk, Builder, Outcome, lookup, is_loaded, and_then, call, done, with_db, with_loaded, load_at,
  load_census_if_not_yet, write_to, write_census, ask, ask_census,
}
use ovote_node.CensusBuilder.Directory.{lookup-replace_self, lookup-replace_ne}
use ovote_node.CensusBuilder.Loading.{load-eq_ok}
use ovote_node.CensusBuilder.Registry.{
  RegistrySteps-trans, RollSteps-RegistrySteps, Registry, RegistrySteps, created, reopened, put,
}
use ovote_node.CensusBuilder.Registered.{
  IsFresh, ShowsAt, IsRegistered, ShowsAll, Reached, put-ShowsAll, load-ShowsAll,
}

-- What pebbledb documents: a database in a new directory is empty, and opening one leaves it.
pub record IsDisk (c : Crypto) (d : CensusDb) (disk : Disk d) : Type 0 where
  pub create_fresh : (id : ℕ) (s : d.State) → disk.create_db id ≡ ok s → IsFresh c d s
  pub open_keeps : (id : ℕ) (s s' : d.State) → disk.open_db id s ≡ ok s' → s' ≡ s

module _ (c : Crypto) (d : CensusDb) where
  open d use {State}

  pub Reached-then :
      {registry : Registry c} {b b' : Builder d}
      → Reached c d registry b
      → ((middle : Registry c) → ShowsAll c d b middle → Reached c d middle b')
      → Reached c d registry b'
  Reached-then (middle, steps, shows) more =
      let (after, steps', shows') = more middle shows in
      (after, RegistrySteps-trans c steps steps', shows')

  pub stays :
      {registry : Registry c} {b : Builder d} → ShowsAll c d b registry → Reached c d registry b
  stays {registry} all = (registry, RegistrySteps.unchanged, all)

  -- A chain whose first part reaches a registry, and whose next reaches one from there.
  pub and_then-Reached :
      {A B : Type 0} {registry : Registry c} (o : Outcome d A) (k : A → Builder d → Outcome d B)
      → Reached c d registry o.0
      → ((a : A) (b : Builder d) (middle : Registry c)
          → o ≡ (b, ok a)
          → ShowsAll c d b middle
          → Reached c d middle (k a b).0)
      → Reached c d registry (and_then d o k).0
  and_then-Reached (b, ok a) k there more =
      Reached-then there λ middle shows. more a b middle refl shows
  and_then-Reached (b, err e) k there more = there
  and_then-Reached (b, panic) k there more = there

  roll_of :
      (s : State) (o : Option (Roll c))
      → IsRegistered c d true o
      → ShowsAt c d (some s) o
      → (roll : Roll c) × (o ≡ some roll) × Shows c d s roll
  roll_of s none there shows = elim there [ ]
  roll_of s (some roll) there shows = (roll, refl, shows)

module _ (c : Crypto) (d : CensusDb) (disk : Disk d) (laws : IsCensusDb c d)
    (tree : IsCensusTree c d) (on_disk : IsDisk c d disk) where
  open d use {State}

  -- Making the census of a database again creates its roll or opens it again.
  load_as :
      (id : ℕ) (s s' : State) (b : Builder d) (registry : Registry c) (o : Option (Roll c))
      → registry id ≡ o
      → lookup d id b.sub_dbs ≡ some s
      → new c d s ≡ ok s'
      → ShowsAt c d (some s) o
      → ShowsAll c d b registry
      → Reached c d registry (with_loaded d id (with_db d id s' b))
  load_as id s s' b registry none at there made (missing, no_entries) all = (
    put c id (empty_roll c) registry,
    RegistrySteps.next RegistrySteps.unchanged (created id at refl),
    load-ShowsAll c d id s' (empty_roll c) b _ registry
        (lookup-replace_self d id s' s b.sub_dbs there)
        (λ j ne. lookup-replace_ne d j id s' b.sub_dbs ne)
        (new-Shows c d laws tree s missing no_entries made) refl all,
  )
  load_as id s s' b registry (some roll) at there made shows all = (
    put c id (record roll { closed = false }) registry,
    RegistrySteps.next RegistrySteps.unchanged (reopened id at refl),
    load-ShowsAll c d id s' _ b _ registry (lookup-replace_self d id s' s b.sub_dbs there)
        (λ j ne. lookup-replace_ne d j id s' b.sub_dbs ne)
        (new-reopens c d laws tree s roll shows made) refl all,
  )

  load_found :
      (id : ℕ) (s : State) (b : Builder d) (registry : Registry c)
      → lookup d id b.sub_dbs ≡ some s
      → ShowsAll c d b registry
      → (r : Result State) → (disk.open_db id s >>= new c d) ≡ r
      → Reached c d registry
          (and_then d (call d r b) λ s' b'. done d (with_loaded d id (with_db d id s' b'))).0
  load_found id s b registry there all (err e) h = stays c d all
  load_found id s b registry there all panic h = stays c d all
  load_found id s b registry there all (ok s') h =
      let (s₁, opened, made) = bind_eq_ok (disk.open_db id s) _ h in
      let same = on_disk.open_keeps id s s₁ opened in
      let shown : ShowsAt c d (some s) (registry id) =
        subst (λ o. ShowsAt c d o (registry id)) there (all.shown id) in
      load_as id s s' b registry (registry id) refl there (ap (new c d) (sym same) ∙ made) shown all

  load_cases :
      (id : ℕ) (b : Builder d) (registry : Registry c)
      → ShowsAll c d b registry
      → (loaded : Bool) (found : Option State) → lookup d id b.sub_dbs ≡ found
      → Reached c d registry (if loaded then done d b else load_at c d disk id found b).0
  load_cases id b registry all true found there = stays c d all
  load_cases id b registry all false none there = stays c d all
  load_cases id b registry all false (some s) there =
      load_found id s b registry there all (disk.open_db id s >>= new c d) refl

  load-Reached :
      (id : ℕ) (b : Builder d) (registry : Registry c)
      → ShowsAll c d b registry
      → Reached c d registry (load_census_if_not_yet c d disk id b).0
  unfolding load_census_if_not_yet
  load-Reached id b registry all =
      load_cases id b registry all (is_loaded d id b) (lookup d id b.sub_dbs) refl

  -- A read writes nothing after the census is loaded.
  pub ask-Reached :
      {A : Type 0} (id : ℕ) (op : State → Result A) (b : Builder d) (registry : Registry c)
      → ShowsAll c d b registry
      → Reached c d registry (ask_census c d disk id op b).0
  unfolding ask_census
  ask-Reached id op b registry all =
      and_then-Reached c d (load_census_if_not_yet c d disk id b) _ (load-Reached id b registry all)
        λ there b' middle loaded shows. ask_same op b' shows (lookup d id b'.sub_dbs)
    where
      ask_same :
          {A : Type 0} (op : State → Result A) (b' : Builder d) {middle : Registry c}
          → ShowsAll c d b' middle
          → (found : Option State) → Reached c d middle (ask c d disk op found b').0
      ask_same op b' shows none = stays c d shows
      ask_same op b' shows (some s) = stays c d shows

  module _ (lossless : (k : c.PublicKey) → c.decompress (c.compress k) ≡ ok k) where
    wrote :
        (id : ℕ) (a : Action c) (s : State) (roll : Roll c) (b : Builder d) (registry : Registry c)
        → lookup d id b.sub_dbs ≡ some s
        → registry id ≡ some roll
        → Shows c d s roll
        → ShowsAll c d b registry
        → (r : Result State) → perform c d a s ≡ r
        → Reached c d registry (and_then d (call d r b) λ s' b'. done d (with_db d id s' b')).0
    wrote id a s roll b registry there at shows all (err e) h = stays c d all
    wrote id a s roll b registry there at shows all panic h = stays c d all
    wrote id a s roll b registry there at shows all (ok s') h =
        let (after, steps, shows') =
          perform-Shows c d laws tree lossless a s roll shows (ok s') h in
        (
          put c id after registry,
          RollSteps-RegistrySteps c id roll after registry at steps,
          put-ShowsAll c d id s' after b _ registry (lookup-replace_self d id s' s b.sub_dbs there)
              (λ j ne. lookup-replace_ne d j id s' b.sub_dbs ne) shows' refl all,
        )

    write_to-Reached :
        (id : ℕ) (a : Action c) (found : Option State) (b : Builder d) (registry : Registry c)
        → lookup d id b.sub_dbs ≡ found
        → is_loaded d id b ≡ true
        → ShowsAll c d b registry
        → Reached c d registry (write_to c d disk id (perform c d a) found b).0
    write_to-Reached id a none b registry there loaded all = stays c d all
    write_to-Reached id a (some s) b registry there loaded all =
        let (roll, at, shows) =
          roll_of c d s (registry id)
            (subst (λ x. IsRegistered c d x (registry id)) loaded (all.registered id))
            (subst (λ o. ShowsAt c d o (registry id)) there (all.shown id)) in
        wrote id a s roll b registry there at shows all (perform c d a s) refl

    -- A write of a census is a write of its roll.
    pub write-Reached :
        (id : ℕ) (a : Action c) (b : Builder d) (registry : Registry c)
        → ShowsAll c d b registry
        → Reached c d registry (write_census c d disk id (perform c d a) b).0
    unfolding write_census
    write-Reached id a b registry all =
        and_then-Reached c d (load_census_if_not_yet c d disk id b) _
          (load-Reached id b registry all)
          λ there b' middle loaded shows.
            write_to-Reached id a (lookup d id b'.sub_dbs) b' middle refl
              (load-eq_ok c d disk id b loaded) shows
