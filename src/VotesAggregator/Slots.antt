-- ===== src/VotesAggregator/Slots.antt =====
-- The parts of a vote in the circuit's inputs, and what one round of the loop writes of it.
use ovote_node.Base.{
  Bool, true, false, Bytes, take, Result, ok, err, panic, ◌-◌, ℕ, zero, suc, ◌+◌, ◌<◌, ◌≤◌, ◌≡◌,
  refl, ap, ◌∙◌, ◌++◌, [], ◌∷◌, List, map, ℤ, pos, ◌+ℤ◌, ◌*ℤ◌, int64, arith, length, replicate, set,
  some, length-append, Option, ◌*◌,
}
use mathlib.Core.Path.{ap₂}
use ovote_node.External.{Crypto}
use ovote_node.Types.VotePackage.{VotePackage}
use ovote_node.Types.Encoding.{uint64_to_index, hash_pubk_bytes}
use ovote_node.Types.ZkInputs.{assign, zeros, merkle_proof_to_zk_inputs_format}
use ovote_node.VotesAggregator.ZkInputs.{Fill, fill_vote, receipt_key_len}

-- A column of n slots whose first ones hold the given values, and whose others hold a filler.
abbrev pub FilledTo : {A : Type 0} → ℕ → A → List A → List A → Type 0
FilledTo n z done xs = (free : ℕ) × (xs ≡ done ++ replicate free z) × (length done + free ≡ n)

set-next :
    {A : Type 0} (done : List A) (free : ℕ) (z v : A)
    → set (done ++ replicate (suc free) z) (length done) v ≡ (done ++ v ∷ []) ++ replicate free z
set-next [] free z v = refl
set-next (x ∷ done) free z v = ap (λ l. x ∷ l) (set-next done free z v)

assign-eq_ok :
    {A : Type 0} (xs : List A) {xs' : List A} (i : ℕ) (v : A)
    → assign xs i v ≡ ok xs'
    → (i < length xs) × (xs' ≡ set xs i v)
unfolding assign
assign-eq_ok xs i v e = ground arith

pub assign-FilledTo :
    {A : Type 0} (n : ℕ) (z : A) (done xs : List A) {xs' : List A} (i : ℕ) (v : A)
    → i ≡ length done
    → FilledTo n z done xs
    → assign xs i v ≡ ok xs'
    → FilledTo n z (done ++ v ∷ []) xs'
assign-FilledTo n z done xs {xs'} i v hi (free, hx, hn) e = go free hx hn
  where
    go :
        (free : ℕ)
        → xs ≡ done ++ replicate free z
        → length done + free ≡ n
        → FilledTo n z (done ++ v ∷ []) xs'
    go zero hx hn =
        absurd (omega (arith, (assign-eq_ok xs i v e).0, ap length hx, length-append done []))
    go (suc free) hx hn = (
      free,
      (assign-eq_ok xs i v e).1 ∙ ap₂ (λ l k. set l k v) hx hi ∙ set-next done free z v,
      omega (arith, length-append done (v ∷ [])),
    )

abbrev pub is_ok : {A : Type 0} → Result A → Bool
is_ok (ok a) = true
is_ok (err e) = false
is_ok panic = false

abbrev pub of_result : {A B : Type 0} → (A → B) → B → Result A → B
of_result f z (ok a) = f a
of_result f z (err e) = z
of_result f z panic = z

module _ (c : Crypto) where
  open c use {
    PublicKey, Signature, key_x, key_y, bytes_to_big_int, decompress_signature, sig_s, sig_r8x,
    sig_r8y, unpack_siblings,
  }

  -- A number of the signature of a vote.
  abbrev pub signature_part : (Signature → ℕ) → VotePackage PublicKey → ℕ
  signature_part part v = of_result part 0 (decompress_signature v.signature)

  -- The siblings of a Merkle proof, up to one more than the number of levels.
  abbrev pub packed_row : (n_levels : ℕ) → Bytes → List ℕ
  packed_row n_levels p =
      of_result (λ s. map bytes_to_big_int s ++ zeros (n_levels + 1 - length s)) []
        (unpack_siblings p)

  -- The siblings of the Merkle proof of a vote.
  abbrev pub sibling_row : (n_levels : ℕ) → VotePackage PublicKey → List ℕ
  sibling_row n_levels v = packed_row n_levels v.census_proof.merkle_proof

  -- The key and the leaf of the receipt of a vote.
  abbrev pub receipt_key : (n_levels : ℕ) → VotePackage PublicKey → Bytes
  receipt_key n_levels v = take (receipt_key_len n_levels) (uint64_to_index c v.census_proof.index)

  abbrev pub receipt_leaf : VotePackage PublicKey → Bytes
  receipt_leaf v =
      of_result (λ leaf. leaf) []
        (hash_pubk_bytes c v.census_proof.public_key v.census_proof.weight)

  -- What has been read off a vote that is in the inputs: its signature, its siblings and its leaf.
  pub record IsReadable (v : VotePackage PublicKey) : Type 0 where
    pub signature : is_ok (decompress_signature v.signature) ≡ true
    pub siblings : is_ok (unpack_siblings v.census_proof.merkle_proof) ≡ true
    pub leaf : is_ok (hash_pubk_bytes c v.census_proof.public_key v.census_proof.weight) ≡ true

  -- What one round has tested and written.
  pub fill_vote-eq_ok :
      (n_levels i : ℕ) (v : VotePackage PublicKey) (f : Fill) (w : ℤ) {f' : Fill}
      → v.census_proof.weight ≡ some w
      → fill_vote c n_levels i v f ≡ ok f'
      → (bytes_to_big_int v.vote ≤ 1)
        × (assign f.z.vote i (bytes_to_big_int v.vote) ≡ ok f'.z.vote)
        × (assign f.z.weight i w ≡ ok f'.z.weight)
        × (assign f.z.index i (int64 v.census_proof.index) ≡ ok f'.z.index)
        × (assign f.z.pk_x i (key_x v.census_proof.public_key) ≡ ok f'.z.pk_x)
        × (assign f.z.pk_y i (key_y v.census_proof.public_key) ≡ ok f'.z.pk_y)
        × (assign f.z.s i (signature_part sig_s v) ≡ ok f'.z.s)
        × (assign f.z.r8x i (signature_part sig_r8x v) ≡ ok f'.z.r8x)
        × (assign f.z.r8y i (signature_part sig_r8y v) ≡ ok f'.z.r8y)
        × (assign f.z.siblings i (sibling_row f.z.n_levels v) ≡ ok f'.z.siblings)
        × (f'.z.n_levels ≡ f.z.n_levels)
        × (f'.keys ≡ f.keys ++ receipt_key n_levels v ∷ [])
        × (f'.values ≡ f.values ++ receipt_leaf v ∷ [])
        × (f'.r ≡ f.r +ℤ pos (bytes_to_big_int v.vote) *ℤ w)
  unfolding fill_vote merkle_proof_to_zk_inputs_format
  fill_vote-eq_ok n_levels i v f w h e = ground arith

  pub fill_vote-IsReadable :
      (n_levels i : ℕ) (v : VotePackage PublicKey) (f : Fill) {f' : Fill}
      → fill_vote c n_levels i v f ≡ ok f'
      → IsReadable v
  unfolding fill_vote merkle_proof_to_zk_inputs_format
  fill_vote-IsReadable n_levels i v f e = record {
    signature = ground arith;
    siblings = ground arith;
    leaf = ground arith;
  }

  abbrev pub vote_of : VotePackage PublicKey → ℕ
  vote_of v = bytes_to_big_int v.vote

  abbrev pub natural : Option ℤ → ℕ
  natural (some (pos n)) = n
  natural _ = 0

  abbrev pub weight_of : VotePackage PublicKey → ℕ
  weight_of v = natural v.census_proof.weight

  -- The weights in favour.
  abbrev pub tally : List (VotePackage PublicKey) → ℕ
  tally [] = 0
  tally (v ∷ vs) = vote_of v * weight_of v + tally vs

  pub tally-append : (vs ws : List (VotePackage PublicKey)) → tally (vs ++ ws) ≡ tally vs + tally ws
  tally-append [] ws = omega arith
  tally-append (v ∷ vs) ws = omega (arith, tally-append vs ws)

  -- A package whose weight is a number that is not negative, as those in the database are.
  abbrev pub HasWeight : VotePackage PublicKey → Type 0
  HasWeight v = v.census_proof.weight ≡ some (pos (weight_of v))
