-- ===== src/VotesGen/Voters.antt =====
-- The keys of GenUserKeys in the census of GenCensus.
use ovote_node.Base.{
  ap, ℕ, ◌+◌, ◌≤◌, ◌<◌, ◌≡◌, ◌≢◌, [], ◌∷◌, List, pos, All, All-map, length, add64, two63, arith,
  refl,
}
use ovote_node.External.{Crypto}
use ovote_node.Census.Store.{CensusDb}
use ovote_node.Census.Batches.{Member}
use ovote_node.VotesGen.Generate.{Signer, gen_user_keys}

module _ (c : Crypto) (signer : Signer c) (d : CensusDb) where
  open signer use {PrivateKey, public}

  -- No two of the drawn keys have the same public key.
  abbrev pub AllDiffer : List PrivateKey → Type 0
  AllDiffer [] = Unit
  AllDiffer (sk ∷ drawn) =
      All (λ other. c.compress (public sk) ≢ c.compress (public other)) drawn × AllDiffer drawn

  all_public :
      (P : c.PublicKey → Type 0) (drawn : List PrivateKey)
      → All (λ sk. P (public sk)) drawn
      → All P (gen_user_keys c signer drawn).public_keys
  unfolding gen_user_keys
  all_public P [] h = tt
  all_public P (sk ∷ drawn) (here, rest) = (here, all_public P drawn rest)

  pub private_keys-gen_user_keys :
      (drawn : List PrivateKey) → (gen_user_keys c signer drawn).private_keys ≡ drawn
  unfolding gen_user_keys
  private_keys-gen_user_keys [] = refl
  private_keys-gen_user_keys (sk ∷ drawn) = ap (λ sks. sk ∷ sks) (private_keys-gen_user_keys drawn)

  -- Every drawn key stands in the batch of all of them, with weight 1.
  abbrev pub Enrolled : ℕ → List PrivateKey → PrivateKey → Type 0
  Enrolled n drawn sk =
      (j : ℕ) × (j < two63)
      × Member c d (public sk) (pos 1) j n (gen_user_keys c signer drawn).public_keys
          (gen_user_keys c signer drawn).weights

  Enrolled-later :
      (n : ℕ) (sk : PrivateKey) (drawn : List PrivateKey) (other : PrivateKey)
      → Enrolled (add64 n 1) drawn other
      → Enrolled n (sk ∷ drawn) other
  unfolding gen_user_keys
  Enrolled-later n sk drawn other (j, small, m) = (j, small, Member.there m)

  pub all_Enrolled :
      (n : ℕ) (drawn : List PrivateKey)
      → AllDiffer drawn
      → n + length drawn ≤ two63
      → All (Enrolled n drawn) drawn
  unfolding gen_user_keys
  all_Enrolled n [] differ fits = tt
  all_Enrolled n (sk ∷ drawn) (fresh, differ) fits = (
    (
      n,
      omega arith,
      Member.here (all_public (λ k. c.compress (public sk) ≢ c.compress k) drawn fresh),
    ),
    All-map (Enrolled (add64 n 1) drawn) (Enrolled n (sk ∷ drawn)) (Enrolled-later n sk drawn) drawn
        (all_Enrolled (add64 n 1) drawn differ (omega arith)),
  )
