-- ===== src/Tests/ToyCensus.antt =====
-- A census's database as a list of entries, with a tree that is a list of leaves.
use ovote_node.Base.{
  Bool, any, ◌+◌, Bool-cases, inl, inr, length-le_bytes, le_value-le_bytes, ℕ, ◌∷◌, [], ◌++◌, ◌≡◌,
  ◌≢◌, refl, ap, sym, ◌∙◌, ok_injective, true, false, List, Bytes, Option, none, some, ok, length,
  replicate, bytes_equal, bytes_equal_refl, bytes_equal_eq, if◌then◌else◌, arith,
}
use ovote_node.External.{Crypto, IsLittleEndian}
use ovote_node.Census.Store.{CensusDb, IsCensusDb, LeafProof}
use ovote_node.Census.Batches.{Paired}
use ovote_node.Census.Proofs.{IsCensusTree}
use ovote_node.Tests.Toy.{toy}

-- The toy keys, compressed to 32 bytes.
abbrev pub long_keys : Crypto
long_keys = record toy { compress = λ k. k ∷ replicate 31 0 }

pub record Kv : Type 0 where
  pub entries : List (Bytes × Bytes)
  pub leaves : List (Bytes × Bytes)

abbrev lookup : Bytes → List (Bytes × Bytes) → Option Bytes
lookup j [] = none
lookup j (e ∷ rest) = let found = lookup j rest in if bytes_equal e.0 j then some e.1 else found

abbrev is_there : Option Bytes → Bool
is_there none = false
is_there (some v) = true

abbrev zip : List Bytes → List Bytes → List (Bytes × Bytes)
zip [] vs = []
zip (k ∷ ks) [] = []
zip (k ∷ ks) (v ∷ vs) = (k, v) ∷ zip ks vs

-- The indexes that are in the batch again, or in the tree.
abbrev repeats : List (Bytes × Bytes) → List Bytes → ℕ
repeats old [] = 0
repeats old (k ∷ ks) =
    (if any (bytes_equal k) ks then 1 else 0)
    + (if is_there (lookup k old) then 1 else 0)
    + repeats old ks

abbrev leaf_of : Option Bytes → LeafProof
leaf_of none = record { value = []; siblings = []; existence = false }
leaf_of (some v) = record { value = v; siblings = 5 ∷ []; existence = true }

abbrev pub toy_census_db : CensusDb
toy_census_db = record {
  State = Kv;
  get = λ k s. ok (lookup k s.entries);
  set = λ k v s. ok (record s { entries = (k, v) ∷ s.entries });
  commit = λ s. ok s;
  new_tree = λ s. ok s;
  add_batch = λ ks vs s. ok (record s { leaves = zip ks vs ++ s.leaves }, repeats s.leaves ks);
  tree_root = λ s. ok (length s.leaves ∷ []);
  gen_proof = λ i s. ok (leaf_of (lookup i s.leaves));
}

lookup_same : (k v : Bytes) (es : List (Bytes × Bytes)) → lookup k ((k, v) ∷ es) ≡ some v
lookup_same k v es = rw (bytes_equal_refl k) refl

lookup_other :
    (j k v : Bytes) (es : List (Bytes × Bytes)) → j ≢ k → lookup j ((k, v) ∷ es) ≡ lookup j es
lookup_other j k v es ne = ground (arith, bytes_equal_eq k j)

pub toy-IsCensusDb : IsCensusDb long_keys toy_census_db
toy-IsCensusDb = record {
  get_of_set = λ k v s s' e.
      ap (λ (x : Kv). ok (lookup k x.entries)) (sym (ok_injective e))
      ∙ ap ok (lookup_same k v s.entries);
  get_of_set_ne = λ j k v s s' e ne.
      ap (λ (x : Kv). ok (lookup j x.entries)) (sym (ok_injective e))
      ∙ ap ok (lookup_other j k v s.entries ne);
  commit_keeps = λ s s' e. cc;
  new_tree_keeps = λ j s s' own e. ap (λ (x : Kv). ok (lookup j x.entries)) (sym (ok_injective e));
  add_batch_keeps =
      λ j ks vs s s' n own e. ap (λ (x : Kv × ℕ). ok (lookup j x.0.entries)) (sym (ok_injective e));
  root_keeps = λ k v s s' own e. ap (λ (x : Kv). ok (length x.leaves ∷ [])) (sym (ok_injective e));
  proof_keeps =
      λ k v i s s' own e. ap (λ (x : Kv). ok (leaf_of (lookup i x.leaves))) (sym (ok_injective e));
  proof_checks = λ i r p s e1 e2 e3. refl;
  compress_length = λ k. refl;
}

any-Paired :
    (i j v : Bytes) (is vs : List Bytes)
    → Paired i v is vs
    → bytes_equal j i ≡ true
    → any (bytes_equal j) is ≡ true
any-Paired i j v [] vs p same = elim p [ ]
any-Paired i j v (k ∷ is) [] p same = elim p [ ]
any-Paired i j v (k ∷ is) (x ∷ vs) Paired.first same = rw same refl
any-Paired i j v (k ∷ is) (x ∷ vs) (Paired.next p) same =
    ground (arith, any-Paired i j v is vs p same)

lookup-Paired :
    (i v : Bytes) (is vs : List Bytes) (old : List (Bytes × Bytes))
    → repeats old is ≡ 0
    → Paired i v is vs
    → lookup i (zip is vs ++ old) ≡ some v
lookup-Paired i v [] vs old once p = elim p [ ]
lookup-Paired i v (k ∷ is) [] old once p = elim p [ ]
lookup-Paired i v (k ∷ is) (x ∷ vs) old once Paired.first = lookup_same i v (zip is vs ++ old)
lookup-Paired i v (k ∷ is) (x ∷ vs) old once (Paired.next p) =
    let rest = lookup-Paired i v is vs old (omega arith) p in
    elim (Bool-cases (bytes_equal k i)) [
      | inl same ↦ (let again = any-Paired i k v is vs p same in absurd (ground arith))
      | inr other ↦ rw other rest
    ]

-- What is in the tree is not in a batch without invalid leaves.
lookup-earlier :
    (i v : Bytes) (is vs : List Bytes) (old : List (Bytes × Bytes))
    → repeats old is ≡ 0
    → lookup i old ≡ some v
    → lookup i (zip is vs ++ old) ≡ some v
lookup-earlier i v [] vs old once there = there
lookup-earlier i v (k ∷ is) [] old once there = there
lookup-earlier i v (k ∷ is) (x ∷ vs) old once there =
    let rest = lookup-earlier i v is vs old (omega arith) there in
    elim (Bool-cases (bytes_equal k i)) [
      | inl same ↦
          (let again =
              ap (λ j. is_there (lookup j old)) (bytes_equal_eq k i same) ∙ ap is_there there in
            absurd (ground arith))
      | inr other ↦ rw other rest
    ]

leaf_there :
    (o : Option Bytes) (p : LeafProof)
    → ok (leaf_of o) ≡ ok p
    → p.existence ≡ true
    → (v : Bytes) × (o ≡ some v) × (p.value ≡ v)
leaf_there none p e there = absurd cc
leaf_there (some v) p e there = (v, refl, ap (λ (q : LeafProof). q.value) (sym (ok_injective e)))

pub toy-IsCensusTree : IsCensusTree long_keys toy_census_db
toy-IsCensusTree = record {
  add_batch_keeps_entry = λ k is vs s s' n e.
      ap (λ (x : Kv × ℕ). ok (lookup (long_keys.compress k) x.0.entries)) (sym (ok_injective e));
  new_tree_keeps_entry = λ k s s' e.
      ap (λ (x : Kv). ok (lookup (long_keys.compress k) x.entries)) (sym (ok_injective e));
  new_tree_keeps_proof = λ i p s s' e g there.
      ap (λ (x : Kv). ok (leaf_of (lookup i x.leaves))) (sym (ok_injective e)) ∙ g;
  entry_keeps_proof =
      λ k v i s s' e. ap (λ (x : Kv). ok (leaf_of (lookup i x.leaves))) (sym (ok_injective e));
  proof_of_earlier = λ i p is vs s s' e g there.
      let once : repeats s.leaves is ≡ 0 = ap (λ (x : Kv × ℕ). x.1) (ok_injective e) in
      let (v, found, value) = leaf_there (lookup i s.leaves) p g there in
      (
        leaf_of (some v),
        ap (λ (x : Kv × ℕ). ok (leaf_of (lookup i x.0.leaves))) (sym (ok_injective e))
            ∙ ap (λ o. ok (leaf_of o)) (lookup-earlier i v is vs s.leaves once found),
        refl,
        sym value,
      );
  proof_of_added = λ i v is vs s s' e p.
      let once : repeats s.leaves is ≡ 0 = ap (λ (x : Kv × ℕ). x.1) (ok_injective e) in
      (
        leaf_of (some v),
        ap (λ (x : Kv × ℕ). ok (leaf_of (lookup i x.0.leaves))) (sym (ok_injective e))
            ∙ ap (λ o. ok (leaf_of o)) (lookup-Paired i v is vs s.leaves once p),
        refl,
        refl,
      );
}

pub long-IsLittleEndian : IsLittleEndian long_keys
long-IsLittleEndian = record {
  big_int_to_bytes_length = λ len n h. length-le_bytes len n;
  big_int_to_bytes_value = λ len n h. le_value-le_bytes len n h;
  bytes_to_big_int_value = λ b. refl;
}
