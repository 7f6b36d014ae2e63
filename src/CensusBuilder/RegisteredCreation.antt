-- ===== src/CensusBuilder/RegisteredCreation.antt =====
-- NewCensus of censusbuilder/censusbuilder.go as a step of a registry.
use ovote_node.Base.{
  ℕ, ◌++◌, [], ◌∷◌, List, ◌≡◌, ◌≢◌, refl, sym, ap, ◌∙◌, subst, inl, inr, Bool-cases, ◌==◌, Option,
  none, some, Result, ok, err, panic, ◌>>=◌, arith, add64,
}
use ovote_node.External.{Crypto}
use ovote_node.Census.Store.{CensusDb, IsCensusDb}
use ovote_node.Census.Operations.{new}
use ovote_node.Census.Proofs.{IsCensusTree}
use ovote_node.Census.Beginning.{new-Shows}
use ovote_node.Census.Roll.{Roll, empty_roll}
use ovote_node.CensusBuilder.Operations.{
  Disk, Builder, lookup, call, done, and_then, with_db, with_loaded, create_in, create_at,
  create_census, new_census, get_next_census_id, set_next_census_id,
}
use ovote_node.CensusBuilder.Directory.{lookup-replace_self, lookup-replace_ne}
use ovote_node.CensusBuilder.Creation.{lookup-snoc}
use ovote_node.CensusBuilder.Registry.{Registry, RegistrySteps, created, put}
use ovote_node.CensusBuilder.Registered.{IsFresh, ShowsAt, ShowsAll, Reached, load-ShowsAll}
use ovote_node.CensusBuilder.RegisteredCalls.{IsDisk, and_then-Reached, stays}

module _ (c : Crypto) (d : CensusDb) where
  open d use {State}

  lookup-snoc_ne :
      (j id : ℕ) (s : State) (es : List (ℕ × State))
      → j ≢ id
      → lookup d j (es ++ (id, s) ∷ []) ≡ lookup d j es
  lookup-snoc_ne j id s [] ne = ground arith
  lookup-snoc_ne j id s (e ∷ rest) ne = ground (arith, lookup-snoc_ne j id s rest ne)

  unregistered : (o : Option (Roll c)) → ShowsAt c d none o → o ≡ none
  unregistered none h = refl
  unregistered (some roll) h = elim h [ ]

  -- The builder with a database more.
  abbrev grown : ℕ → State → Builder d → Builder d
  grown id s b = record b { sub_dbs = b.sub_dbs ++ (id, s) ∷ [] }

  grown-shown :
      (id j : ℕ) (s : State) (es : List (ℕ × State)) (registry : Registry c)
      → lookup d id es ≡ none
      → registry id ≡ none
      → IsFresh c d s
      → ShowsAt c d (lookup d j es) (registry j)
      → ShowsAt c d (lookup d j (es ++ (id, s) ∷ [])) (registry j)
  grown-shown id j s es registry absent at fresh shown = elim (Bool-cases (j == id)) [
    | inl same ↦
        let here : j ≡ id = ground arith in
        let found : lookup d j (es ++ (id, s) ∷ []) ≡ some s =
          ap (λ i. lookup d i (es ++ (id, s) ∷ [])) here ∙ lookup-snoc d id s es absent in
        let missing : registry j ≡ none = ap registry here ∙ at in rw (found, missing) fresh
    | inr other ↦ rw (lookup-snoc_ne j id s es (ground arith)) shown
  ]

  grown-ShowsAll :
      (id : ℕ) (s : State) (b : Builder d) (registry : Registry c)
      → lookup d id b.sub_dbs ≡ none
      → registry id ≡ none
      → IsFresh c d s
      → ShowsAll c d b registry
      → ShowsAll c d (grown id s b) registry
  grown-ShowsAll id s b registry absent at fresh all = record {
    shown = λ j. grown-shown id j s b.sub_dbs registry absent at fresh (all.shown j);
    registered = all.registered;
  }

  create_in-Reached :
      IsCensusDb c d
      → IsCensusTree c d
      → (id : ℕ) (s : State) (b : Builder d) (registry : Registry c) → lookup d id b.sub_dbs ≡ none
      → registry id ≡ none
      → IsFresh c d s
      → ShowsAll c d b registry
      → (r : Result State) → new c d s ≡ r
      → Reached c d registry
          (and_then d
            (call d r (grown id s b))
            λ s' b'. done d (with_loaded d id (with_db d id s' b'))).0
  create_in-Reached laws tree id s b registry absent at fresh all (ok s') made = (
    put c id (empty_roll c) registry,
    RegistrySteps.next RegistrySteps.unchanged (created id at refl),
    load-ShowsAll c d id s' (empty_roll c) b _ registry
        (lookup-replace_self d id s' s _ (lookup-snoc d id s b.sub_dbs absent))
        (λ j ne. lookup-replace_ne d j id s' _ ne ∙ lookup-snoc_ne j id s b.sub_dbs ne)
        (new-Shows c d laws tree s fresh.0 fresh.1 made) refl all,
  )
  create_in-Reached laws tree id s b registry absent at fresh all (err e) made =
      stays c d (grown-ShowsAll id s b registry absent at fresh all)
  create_in-Reached laws tree id s b registry absent at fresh all panic made =
      stays c d (grown-ShowsAll id s b registry absent at fresh all)

module _ (c : Crypto) (d : CensusDb) (disk : Disk d) (laws : IsCensusDb c d)
    (tree : IsCensusTree c d) (on_disk : IsDisk c d disk) where
  open d use {State, commit}

  create_at-Reached :
      (id : ℕ) (found : Option State) (b : Builder d) (registry : Registry c)
      → lookup d id b.sub_dbs ≡ found
      → ShowsAll c d b registry
      → Reached c d registry (create_at c d disk id found b).0
  create_at-Reached id (some s) b registry there all = stays c d all
  create_at-Reached id none b registry there all =
      and_then-Reached c d (call d (disk.create_db id) b) _ (stays c d all) step
    where
      step :
          (s : State) (b' : Builder d) (middle : Registry c)
          → call d (disk.create_db id) b ≡ (b', ok s)
          → ShowsAll c d b' middle
          → Reached c d middle (create_in c d disk id s b').0
      step s b' middle e shows =
          let absent : lookup d id b'.sub_dbs ≡ none =
            ap (λ (o : Builder d × Result State). lookup d id o.0.sub_dbs) (sym e) ∙ there in
          let fresh = on_disk.create_fresh id s (ap (λ o. o.1) e) in
          let missing =
            unregistered c d (middle id)
              (subst (λ o. ShowsAt c d o (middle id)) absent (shows.shown id)) in
          create_in-Reached c d laws tree id s b' middle absent missing fresh shows (new c d s) refl

  -- The builder's own database shows nothing of the rolls.
  own_db-ShowsAll :
      (b : Builder d) (s : State) (registry : Registry c)
      → ShowsAll c d b registry
      → ShowsAll c d (record b { own_db = s }) registry
  own_db-ShowsAll b s registry all = record { shown = all.shown; registered = all.registered }

  -- A new census is a new roll, or the registry stays.
  pub new_census-Reached :
      (b : Builder d) (registry : Registry c)
      → ShowsAll c d b registry
      → Reached c d registry (new_census c d disk b).0
  unfolding new_census create_census
  new_census-Reached b registry all =
      and_then-Reached c d (call d (get_next_census_id c d disk b.own_db) b) _ (stays c d all)
        λ id b₁ middle read shows.
          and_then-Reached c d (create_census c d disk id b₁) _
            (create_at-Reached id (lookup d id b₁.sub_dbs) b₁ middle refl shows)
            λ made b₂ later created shows'.
              and_then-Reached c d
                (call d (set_next_census_id c d disk (add64 id 1) b₂.own_db >>= commit) b₂) _
                (stays c d shows')
                λ s b₃ last stored shows''. stays c d (own_db-ShowsAll b₃ s last shows'')
