-- ===== src/CensusBuilder/Registry.antt =====
-- What CensusBuilder does to the rolls of its censuses, without databases. Loading a census opens
-- its roll again, which is what the code does.
use ovote_node.Base.{
  ℕ, ◌≡◌, refl, sym, ap, ◌∙◌, subst, inl, inr, Bool-cases, ==_refl, false, Option, none, some, ◌==◌,
  if◌then◌else◌, arith,
}
use ovote_node.External.{Crypto}
use ovote_node.Census.Roll.{Roll, RollStep, RollSteps, empty_roll}

module _ (c : Crypto) where
  -- The rolls by census id.
  abbrev pub Registry : Type 0
  Registry = ℕ → Option (Roll c)

  abbrev pub no_censuses : Registry
  no_censuses id = none

  abbrev pub put : ℕ → Roll c → Registry → Registry
  put id roll registry j = if j == id then some roll else registry j

  pub data RegistryStep (registry : Registry) : Registry → Type 0 where
    created :
        (id : ℕ) {after : Registry}
        → registry id ≡ none
        → after ≡ put id (empty_roll c) registry
        → RegistryStep registry after
    stepped :
        (id : ℕ) {before after_step : Roll c} {after : Registry}
        → registry id ≡ some before
        → RollStep c before after_step
        → after ≡ put id after_step registry
        → RegistryStep registry after
    reopened :
        (id : ℕ) {before : Roll c} {after : Registry}
        → registry id ≡ some before
        → after ≡ put id (record before { closed = false }) registry
        → RegistryStep registry after

  -- Any number of these steps.
  pub data RegistrySteps (registry : Registry) : Registry → Type 0 where
    unchanged : RegistrySteps registry registry
    next :
        {middle after : Registry}
        → RegistrySteps registry middle
        → RegistryStep middle after
        → RegistrySteps registry after

  pub RegistrySteps-trans :
      {a b e : Registry} → RegistrySteps a b → RegistrySteps b e → RegistrySteps a e
  RegistrySteps-trans first unchanged = first
  RegistrySteps-trans first (next steps last) = next (RegistrySteps-trans first steps) last

  pub put_self :
      (id : ℕ) (roll : Roll c) (registry : Registry) → put id roll registry id ≡ some roll
  put_self id roll registry = rw (==_refl id) refl

  put_same :
      (id j : ℕ) (roll : Roll c) (registry : Registry)
      → registry id ≡ some roll
      → put id roll registry j ≡ registry j
  put_same id j roll registry at = elim (Bool-cases (j == id)) [
    | inl same ↦ let here : j ≡ id = ground arith in rw same (sym (ap registry here ∙ at))
    | inr other ↦ rw other refl
  ]

  put-put :
      (id j : ℕ) (middle last : Roll c) (registry : Registry)
      → put id last registry j ≡ put id last (put id middle registry) j
  put-put id j middle last registry = elim (Bool-cases (j == id)) [
    | inl same ↦ rw same refl
    | inr other ↦ rw other refl
  ]

  -- Steps of one roll are steps of the registry.
  pub RollSteps-RegistrySteps :
      (id : ℕ) (roll after : Roll c) (registry : Registry)
      → registry id ≡ some roll
      → RollSteps c roll after
      → RegistrySteps registry (put id after registry)
  RollSteps-RegistrySteps id roll after registry at RollSteps.unchanged =
      let same : registry ≡ put id roll registry = λ i j. sym (put_same id j roll registry at) i in
      subst (RegistrySteps registry) same RegistrySteps.unchanged
  RollSteps-RegistrySteps id roll after registry at (RollSteps.next {middle = middle} steps last) =
      let again : put id after registry ≡ put id after (put id middle registry) =
        λ i j. put-put id j middle after registry i in
      RegistrySteps.next (RollSteps-RegistrySteps id roll middle registry at steps)
        (stepped id (put_self id middle registry) last again)
