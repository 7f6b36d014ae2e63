-- ===== src/Census/Membership.antt =====
-- census/census.go: GetProof against CheckProof and the Merkle check of a vote.
use ovote_node.Base.{
  ℕ, ◌≡◌, ap, refl, false, Bool, ◌∙◌, sym, true, not, Bytes, pos, some, Error, ok, bind_eq_ok,
  fail_if_passed, bytes_equal, bytes_equal_eq,
}
use ovote_node.External.{Crypto}
use ovote_node.Types.Encoding.{
  uint64_to_index, hash_pubk_bytes, bytes_to_index_and_weight, verify_merkle_proof,
}
use ovote_node.Census.Store.{CensusDb, IsCensusDb, LeafProof}
use ovote_node.Census.Operations.{is_closed, root, get_key, get_proof, census_check_proof}
use ovote_node.Census.Fields.{root-of_closed}

true_of_not : (b : Bool) → not b ≡ false → b ≡ true
true_of_not true h = refl
true_of_not false h = cc

module _ (c : Crypto) (d : CensusDb) (laws : IsCensusDb c d) where
  open d use {State, gen_proof}

  -- What a successful GetProof has read and compared.
  get_proof-eq_ok :
      (k : c.PublicKey) (s : State) {i : ℕ} {siblings : Bytes}
      → get_proof c d k s ≡ ok (i, siblings)
      → (is_closed c d s ≡ ok true)
        × (w : ℕ) × (p : LeafProof) × (gen_proof (uint64_to_index c i) s ≡ ok p)
        × (p.existence ≡ true)
        × (p.siblings ≡ siblings)
        × (hash_pubk_bytes c k (some (pos w)) ≡ ok p.value)
  unfolding get_proof
  get_proof-eq_ok k s {i} {siblings} e =
      let (b, flag, e₁) = bind_eq_ok (is_closed c d s) _ e in
      let (closed, e₂) = fail_if_passed (not b) Error.census_not_closed _ e₁ in
      let (entry, found, e₃) = bind_eq_ok (get_key c d (c.compress k) s) _ e₂ in
      let ((j, w), decoded, e₄) = bind_eq_ok (bytes_to_index_and_weight c entry) _ e₃ in
      let (p, generated, e₅) = bind_eq_ok (gen_proof (uint64_to_index c j) s) _ e₄ in
      let (exists, e₆) = fail_if_passed (not p.existence) _ _ e₅ in
      let (leaf, hashed, e₇) = bind_eq_ok (hash_pubk_bytes c k (some (pos w))) _ e₆ in
      let (same, e₈) = fail_if_passed (not (bytes_equal p.value leaf)) _ _ e₇ in
      let index : j ≡ i = cc in
      let packed : p.siblings ≡ siblings = cc in
      let value : p.value ≡ leaf = bytes_equal_eq p.value leaf (true_of_not _ same) in
      (
        flag ∙ ap ok (true_of_not b closed),
        w,
        p,
        ap (λ n. gen_proof (uint64_to_index c n) s) (sym index) ∙ generated,
        true_of_not p.existence exists,
        packed,
        hashed ∙ ap ok (sym value),
      )

  -- For a proof that GetProof returns and the root that Root returns there is a weight with which
  -- the proof checks (CheckProof), and a vote package of the key with that weight and proof passes
  -- the Merkle proof check of a vote for that root, whatever its signature and vote.
  pub get_proof-checks :
      (k : c.PublicKey) (s : State) {i : ℕ} {siblings r : Bytes} (signature vote : Bytes)
      → get_proof c d k s ≡ ok (i, siblings)
      → root c d s ≡ ok r
      → (w : ℕ) × (census_check_proof c r siblings i k (some (pos w)) ≡ ok true)
        × (verify_merkle_proof c r (record {
          signature = signature;
          census_proof = record {
            index = i;
            public_key = k;
            weight = some (pos w);
            merkle_proof = siblings;
          };
          vote = vote;
        })
            ≡ ok tt)
  unfolding census_check_proof verify_merkle_proof
  get_proof-checks k s {i} {siblings} {r} signature vote e at_root =
      let (closed, w, p, generated, exists, packed, hashed) = get_proof-eq_ok k s e in
      let rooted = sym (root-of_closed c d laws s closed) ∙ at_root in
      let checks = laws.proof_checks (uint64_to_index c i) r p s generated exists rooted in
      let packed_checks : c.check_proof (uint64_to_index c i) p.value r siblings ≡ ok true =
        ap (c.check_proof (uint64_to_index c i) p.value r) (sym packed) ∙ checks in
      (w, rw (hashed, packed_checks) refl, rw (hashed, packed_checks) refl)
