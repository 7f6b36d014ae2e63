-- ===== src/CensusBuilder/RegisteredProofs.antt =====
-- GetProof of censusbuilder/censusbuilder.go against a registry of rolls.
use ovote_node.Base.{
  ℕ, ◌<◌, ◌^◌, ◌≡◌, refl, sym, ap, ◌∙◌, subst, true, Bytes, Option, none, some, pos, ok, two63,
}
use ovote_node.External.{Crypto, IsLittleEndian}
use ovote_node.Census.Store.{CensusDb, IsCensusDb}
use ovote_node.Census.Operations.{root, get_proof, census_check_proof}
use ovote_node.Census.Proofs.{IsCensusTree}
use ovote_node.Census.Roll.{Roll}
use ovote_node.Census.RollWrites.{Shows}
use ovote_node.Census.RollRefinement.{get_proof-Shows}
use ovote_node.CensusBuilder.Operations.{
  Disk, Builder, lookup, is_loaded, ask, census_root, builder_get_proof, root_error,
}
use ovote_node.CensusBuilder.Loading.{ask_census-loaded, root_error-eq_ok}
use ovote_node.CensusBuilder.Registry.{Registry}
use ovote_node.CensusBuilder.Registered.{ShowsAt, ShowsAll}

module _ (c : Crypto) (d : CensusDb) (disk : Disk d) where
  open d use {State}

  database_of :
      (o : Option State) (roll : Roll c)
      → ShowsAt c d o (some roll)
      → (s : State) × (o ≡ some s) × Shows c d s roll
  database_of none roll h = elim h [ ]
  database_of (some s) roll h = (s, refl, h)

  root_of_loaded :
      (id : ℕ) (b : Builder d) (s : State) {r : Bytes}
      → is_loaded d id b ≡ true
      → lookup d id b.sub_dbs ≡ some s
      → census_root c d disk id b ≡ (b, ok r)
      → root c d s ≡ ok r
  unfolding census_root
  root_of_loaded id b s {r} loaded there e =
      let asked =
        sym (ask_census-loaded c d disk id (λ x. root_error c d disk (root c d x)) b loaded) ∙ e in
      root_error-eq_ok c d disk (root c d s) (
        ap (λ o. o.1)
          (subst (λ o. ask c d disk (λ x. root_error c d disk (root c d x)) o b ≡ (b, ok r)) there
            asked))

  -- When a builder shows a registry, and a census is loaded, closed on its roll, and has a root, it
  -- gives every enrolled key, whose index is below 2 ^ 63 and whose weight is a number of 32 bytes,
  -- its index and siblings that check with its weight against the root, and the builder stays.
  pub builder_get_proof-ShowsAll :
      IsCensusDb c d
      → IsCensusTree c d
      → IsLittleEndian c
      → (b : Builder d) (registry : Registry c) (id : ℕ) (roll : Roll c) (k : c.PublicKey) (j w : ℕ)
        {r : Bytes}
      → ShowsAll c d b registry
      → is_loaded d id b ≡ true
      → registry id ≡ some roll
      → roll.closed ≡ true
      → roll.entry k ≡ some (j, pos w)
      → j < two63
      → w < 256 ^ 32
      → census_root c d disk id b ≡ (b, ok r)
      → (siblings : Bytes) × (builder_get_proof c d disk id k b ≡ (b, ok (j, siblings)))
        × (census_check_proof c r siblings j k (some (pos w)) ≡ ok true)
  unfolding builder_get_proof
  builder_get_proof-ShowsAll laws tree little b registry id roll k j w all loaded at shut enrolled
        small light rooted =
      let shown = subst (ShowsAt c d (lookup d id b.sub_dbs)) at (all.shown id) in
      let (s, there, shows) = database_of (lookup d id b.sub_dbs) roll shown in
      let (siblings, proved, checks) =
        get_proof-Shows c d laws tree little s roll k j w shows shut enrolled small light
          (root_of_loaded id b s loaded there rooted) in
      (
        siblings,
        ask_census-loaded c d disk id (get_proof c d k) b loaded
            ∙ ap (λ o. ask c d disk (get_proof c d k) o b) there
            ∙ ap (λ x. (b, x)) proved,
        checks,
      )
