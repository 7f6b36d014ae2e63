-- ===== src/Census/Proofs.antt =====
-- census/census.go: from AddPublicKeys over Close to GetProof.
use ovote_node.Base.{
  ℕ, ◌<◌, ◌^◌, ◌≡◌, refl, sym, ap, ◌∙◌, [], inl, inr, true, not, List, Bytes, Option, some, ℤ, pos,
  Error, ok, bind_eq_ok, fail_if_passed, add64, length, two63, arith, ◌==◌, bytes_equal_refl, subst,
  ok_injective, le_bytes,
}
use ovote_node.External.{Crypto, IsLittleEndian}
use ovote_node.Types.Encoding.{uint64_to_index, hash_pubk_bytes, entry_bytes}
use ovote_node.Types.RoundTrip.{decode-encode}
use ovote_node.Census.Store.{
  CensusDb, IsCensusDb, IsOwn, LeafProof, db_key_next_index, db_key_census_closed,
}
use ovote_node.Census.Operations.{
  Batch, add_keys, add_public_keys, is_closed, get_next_index, size, size_guard, close, root,
  get_proof, census_check_proof,
}
use ovote_node.Census.Fields.{own_ne_compressed, set_next_index-eq_ok, close-eq_ok, root-of_closed}
use ovote_node.Census.Lifecycle.{close-lifecycle}
use ovote_node.Census.Batches.{Paired, Member, add_keys-Member}

-- What arbo documents of a batch without invalid leaves: a proof can be generated for each of its
-- leaves, and still for every leaf that was there, since an index that is there is invalid. The
-- tree's nodes are kept apart from the entries of the keys.
pub record IsCensusTree (c : Crypto) (d : CensusDb) : Type 0 where
  pub add_batch_keeps_entry :
      (k : c.PublicKey) (is vs : List Bytes) (s s' : d.State) (n : ℕ)
      → d.add_batch is vs s ≡ ok (s', n)
      → d.get (c.compress k) s' ≡ d.get (c.compress k) s
  pub new_tree_keeps_entry :
      (k : c.PublicKey) (s s' : d.State)
      → d.new_tree s ≡ ok s'
      → d.get (c.compress k) s' ≡ d.get (c.compress k) s
  pub new_tree_keeps_proof :
      (i : Bytes) (p : LeafProof) (s s' : d.State)
      → d.new_tree s ≡ ok s'
      → d.gen_proof i s ≡ ok p
      → p.existence ≡ true
      → d.gen_proof i s' ≡ ok p
  pub entry_keeps_proof :
      (k : c.PublicKey) (v i : Bytes) (s s' : d.State)
      → d.set (c.compress k) v s ≡ ok s'
      → d.gen_proof i s' ≡ d.gen_proof i s
  pub proof_of_added :
      (i v : Bytes) (is vs : List Bytes) (s s' : d.State)
      → d.add_batch is vs s ≡ ok (s', 0)
      → Paired i v is vs
      → (p : LeafProof) × (d.gen_proof i s' ≡ ok p) × (p.existence ≡ true) × (p.value ≡ v)
  pub proof_of_earlier :
      (i : Bytes) (p : LeafProof) (is vs : List Bytes) (s s' : d.State)
      → d.add_batch is vs s ≡ ok (s', 0)
      → d.gen_proof i s ≡ ok p
      → p.existence ≡ true
      → (p' : LeafProof) × (d.gen_proof i s' ≡ ok p') × (p'.existence ≡ true) × (p'.value ≡ p.value)

module _ (c : Crypto) (d : CensusDb) (laws : IsCensusDb c d) where
  open c use {PublicKey, compress}
  open d use {State, get, set, gen_proof}

  -- The batch that AddPublicKeys has made, and the tree and the index that it has written.
  pub add_public_keys-steps :
      (ks : List PublicKey) (ws : List (Option ℤ)) (n : ℕ) (s : State) {s' : State}
      → size c d s ≡ ok n
      → add_public_keys c d ks ws s ≡ ok s'
      → (b : Batch c d) × (t : State) × (add_keys c d n ks ws
            (record { state = s; indexes = []; values = [] })
          ≡ ok b)
        × (d.add_batch b.indexes b.values b.state ≡ ok (t, 0))
        × (set db_key_next_index (le_bytes 8 (add64 n (length ks))) t ≡ ok s')
  unfolding add_public_keys size
  add_public_keys-steps ks ws n s {s'} known e =
      let empty : Batch c d = record { state = s; indexes = []; values = [] } in
      let (flag, _, e₁) = bind_eq_ok (is_closed c d s) _ e in
      let (_, e₂) = fail_if_passed flag Error.census_closed _ e₁ in
      let (m, count, e₃) = bind_eq_ok (get_next_index c d s) _ e₂ in
      let (_, _, e₄) = bind_eq_ok (size_guard m (length ks)) _ e₃ in
      let (b, looped, e₅) = bind_eq_ok (add_keys c d m ks ws empty) _ e₄ in
      let ((t, bad), added, e₆) = bind_eq_ok (d.add_batch b.indexes b.values b.state) _ e₅ in
      let (none_bad, e₇) = fail_if_passed (not (bad == 0)) (Error.can_not_add bad) _ e₆ in
      let written = set_next_index-eq_ok c d laws (add64 m (length ks)) t e₇ in
      let same : m ≡ n = ok_injective (sym count ∙ known) in
      let sound : bad ≡ 0 = ground arith in
      (
        b,
        t,
        subst (λ i. add_keys c d i ks ws empty ≡ ok b) same looped,
        subst (λ i. d.add_batch b.indexes b.values b.state ≡ ok (t, i)) sound added,
        subst (λ i. set db_key_next_index (le_bytes 8 (add64 i (length ks))) t ≡ ok s') same
            written,
      )

  -- What it leaves of a member of the batch.
  added-Member :
      (tree : IsCensusTree c d) (ks : List PublicKey) (ws : List (Option ℤ)) (k : PublicKey) (w : ℤ)
      (n j : ℕ) (s : State) {s' : State}
      → size c d s ≡ ok n
      → Member c d k w j n ks ws
      → add_public_keys c d ks ws s ≡ ok s'
      → (leaf : Bytes) × (p : LeafProof) × (hash_pubk_bytes c k (some w) ≡ ok leaf)
        × (get (compress k) s' ≡ ok (some (entry_bytes c j w)))
        × (gen_proof (uint64_to_index c j) s' ≡ ok p)
        × (p.existence ≡ true)
        × (p.value ≡ leaf)
  added-Member tree ks ws k w n j s {s'} known member e =
      let (b, t, looped, added, written) = add_public_keys-steps ks ws n s known e in
      let (leaf, is, vs, hashed, entry, indexes, values, paired) =
        add_keys-Member c d laws k w j n ks ws _ member looped in
      let (p, generated, exists, value) =
        tree.proof_of_added (uint64_to_index c j) leaf b.indexes b.values b.state t added
          (rw (indexes, values) paired) in
      let own : IsOwn db_key_next_index = inl refl in
      (
        leaf,
        p,
        hashed,
        laws.get_of_set_ne (compress k) db_key_next_index _ t s' written
              (λ same. own_ne_compressed c d laws db_key_next_index k own (sym same))
            ∙ tree.add_batch_keeps_entry k b.indexes b.values b.state t 0 added
            ∙ entry,
        laws.proof_keeps db_key_next_index _ (uint64_to_index c j) t s' own written ∙ generated,
        exists,
        value,
      )

  -- When a batch of keys is added to a census and the census is closed and has a root, every key
  -- of the batch gets a Merkle proof with the index of the last place where it stands in the
  -- batch, if that index is below 2 ^ 63 and the weight there is a number of 32 bytes. The first
  -- place has the size of the census as its index, and each further one the next number. The
  -- proof checks against the root with that weight.
  pub get_proof-Member :
      IsCensusTree c d
      → IsLittleEndian c
      → (ks : List PublicKey) (ws : List (Option ℤ)) (k : PublicKey) (w n j : ℕ) (s : State)
        {s₁ s₂ : State} {r : Bytes}
      → size c d s ≡ ok n
      → Member c d k (pos w) j n ks ws
      → j < two63
      → w < 256 ^ 32
      → add_public_keys c d ks ws s ≡ ok s₁
      → close c d s₁ ≡ ok s₂
      → root c d s₂ ≡ ok r
      → (siblings : Bytes) × (get_proof c d k s₂ ≡ ok (j, siblings))
        × (census_check_proof c r siblings j k (some (pos w)) ≡ ok true)
  unfolding get_proof census_check_proof
  get_proof-Member tree little ks ws k w n j s {s₁} {s₂} {r} known member small light added closed
        rooted =
      let (leaf, p, hashed, entry, generated, exists, value) =
        added-Member tree ks ws k (pos w) n j s known member added in
      let (was_open, written) = close-eq_ok c d laws s₁ closed in
      let flag = (close-lifecycle c d laws s₁ closed).1 in
      let own : IsOwn db_key_census_closed = inr (inl refl) in
      let entry₂ : get (compress k) s₂ ≡ ok (some (entry_bytes c j (pos w))) =
        laws.get_of_set_ne (compress k) db_key_census_closed _ s₁ s₂ written
          (λ same. own_ne_compressed c d laws db_key_census_closed k own (sym same))
        ∙ entry in
      let generated₂ : gen_proof (uint64_to_index c j) s₂ ≡ ok p =
        laws.proof_keeps db_key_census_closed _ (uint64_to_index c j) s₁ s₂ own written
        ∙ generated in
      let checks =
        laws.proof_checks (uint64_to_index c j) r p s₂ generated₂ exists
          (sym (root-of_closed c d laws s₂ flag) ∙ rooted) in
      (
        p.siblings,
        rw
            (
              flag,
              entry₂,
              decode-encode c little j w small light,
              generated₂,
              exists,
              hashed,
              value,
              bytes_equal_refl leaf,
            )
            refl,
        rw hashed
            (ap (λ v. c.check_proof (uint64_to_index c j) v r p.siblings) (sym value) ∙ checks),
      )
