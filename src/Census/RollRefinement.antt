-- ===== src/Census/RollRefinement.antt =====
-- The calls on a census refine the steps of its roll, and its proofs are those of the roll.
use ovote_node.Base.{
  ℕ, ◌<◌, ◌^◌, ◌≡◌, refl, sym, ap, ◌∙◌, subst, true, [], ◌∷◌, List, Bytes, none, some, pos, Result,
  Error, ok, err, panic, two63, bytes_equal_refl,
}
use ovote_node.External.{Crypto, IsLittleEndian}
use ovote_node.Types.Encoding.{uint64_to_index}
use ovote_node.Types.RoundTrip.{decode-encode}
use ovote_node.Census.Store.{CensusDb, IsCensusDb, db_key_next_index}
use ovote_node.Census.Operations.{new, root, get_proof, census_check_proof}
use ovote_node.Census.Fields.{root-of_closed}
use ovote_node.Census.Actions.{Action, perform, perform_all, kept_or}
use ovote_node.Census.Proofs.{IsCensusTree}
use ovote_node.Census.Roll.{Roll, empty_roll, RollStep, RollSteps, unchanged, next}
use ovote_node.Census.Beginning.{new-Shows}
use ovote_node.Census.RollEntries.{stored}
use ovote_node.Census.RollWrites.{Shows, LeafOf, close-Shows, message-Shows, add_public_keys-Shows}

module _ (c : Crypto) (d : CensusDb) (laws : IsCensusDb c d) (tree : IsCensusTree c d) where
  open c use {PublicKey, compress}
  open d use {State, get}

  -- The roll after some more steps, and the database that shows it.
  abbrev pub Advanced : Roll c → State → Type 0
  Advanced roll s = (after : Roll c) × RollSteps c roll after × Shows c d s after

  module _ (lossless : (k : PublicKey) → c.decompress (compress k) ≡ ok k) where
    pub perform-Shows :
        (a : Action c) (s : State) (roll : Roll c)
        → Shows c d s roll
        → (r : Result State) → perform c d a s ≡ r
        → Advanced roll (kept_or c d s r)
    unfolding perform
    perform-Shows a s roll shows (err e) h = (roll, unchanged, shows)
    perform-Shows a s roll shows panic h = (roll, unchanged, shows)
    perform-Shows (Action.add_batch_of ks ws) s roll shows (ok s') h =
        let (was_open, weighted, shows') =
          add_public_keys-Shows c d laws tree lossless ks ws s roll h shows in
        (_, next unchanged (RollStep.enrolled ks ws was_open weighted refl), shows')
    perform-Shows Action.closing s roll shows (ok s') h =
        let (was_open, shows') = close-Shows c d laws tree s roll h shows in
        (_, next unchanged (RollStep.closes was_open refl), shows')
    perform-Shows (Action.message m) s roll shows (ok s') h =
        (roll, unchanged, message-Shows c d laws tree m s roll h shows)

    RollSteps-trans : {a b e : Roll c} → RollSteps c a b → RollSteps c b e → RollSteps c a e
    RollSteps-trans first unchanged = first
    RollSteps-trans first (next steps last) = next (RollSteps-trans first steps) last

    perform_all-Shows :
        (actions : List (Action c)) (s : State) (roll : Roll c)
        → Shows c d s roll
        → Advanced roll (perform_all c d actions s)
    unfolding perform_all
    perform_all-Shows [] s roll shows = (roll, unchanged, shows)
    perform_all-Shows (a ∷ actions) s roll shows =
        let (middle, steps, shows') = perform-Shows a s roll shows (perform c d a s) refl in
        let (after, steps', shows'') = perform_all-Shows actions _ middle shows' in
        (after, RollSteps-trans steps steps', shows'')

    -- Whatever is called on a census that was made in a new database, in any order, failing calls
    -- included, its database shows a roll that steps of the specification lead to from the empty
    -- one: a roll that is open takes a batch of keys with the indexes from its size on, or is
    -- closed.
    pub perform_all-RollSteps :
        (fresh : State) (actions : List (Action c)) {s : State}
        → get db_key_next_index fresh ≡ ok none
        → ((k : PublicKey) → get (compress k) fresh ≡ ok none)
        → new c d fresh ≡ ok s
        → (roll : Roll c) × RollSteps c (empty_roll c) roll
          × Shows c d (perform_all c d actions s) roll
    perform_all-RollSteps fresh actions {s} missing no_entries e =
        perform_all-Shows actions s (empty_roll c)
          (new-Shows c d laws tree fresh missing no_entries e)

  -- A census that shows a roll that is closed and has a root gives every enrolled key, whose index
  -- is below 2 ^ 63 and whose weight is a number of 32 bytes, its index and siblings that check
  -- with its weight against the root, whichever batch it was enrolled with.
  pub get_proof-Shows :
      IsLittleEndian c
      → (s : State) (roll : Roll c) (k : PublicKey) (j w : ℕ) {r : Bytes} → Shows c d s roll
      → roll.closed ≡ true
      → roll.entry k ≡ some (j, pos w)
      → j < two63
      → w < 256 ^ 32
      → root c d s ≡ ok r
      → (siblings : Bytes) × (get_proof c d k s ≡ ok (j, siblings))
        × (census_check_proof c r siblings j k (some (pos w)) ≡ ok true)
  unfolding get_proof census_check_proof
  get_proof-Shows little s roll k j w {r} shows shut enrolled small light rooted =
      let flag = shows.flag ∙ ap ok shut in
      let entry = shows.entries k ∙ ap (λ o. ok (stored c d o)) enrolled in
      let (leaf, p, hashed, generated, exists, value) =
        subst (LeafOf c d s k) enrolled (shows.leaves k) in
      let checks =
        laws.proof_checks (uint64_to_index c j) r p s generated exists
          (sym (root-of_closed c d laws s flag) ∙ rooted) in
      (
        p.siblings,
        rw
            (
              flag,
              entry,
              decode-encode c little j w small light,
              generated,
              exists,
              hashed,
              value,
              bytes_equal_refl leaf,
            )
            refl,
        rw hashed
            (ap (λ v. c.check_proof (uint64_to_index c j) v r p.siblings) (sym value) ∙ checks),
      )

  -- A key that is not on the roll is not found.
  pub get_proof-not_enrolled :
      (s : State) (roll : Roll c) (k : PublicKey)
      → Shows c d s roll
      → roll.closed ≡ true
      → roll.entry k ≡ none
      → get_proof c d k s ≡ err Error.key_not_found
  unfolding get_proof
  get_proof-not_enrolled s roll k shows shut missing =
      rw (shows.flag ∙ ap ok shut, shows.entries k ∙ ap (λ o. ok (stored c d o)) missing) refl
