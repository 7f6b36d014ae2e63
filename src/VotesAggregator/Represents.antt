-- ===== src/VotesAggregator/Represents.antt =====
-- What the circuit's inputs hold of a list of votes.
use ovote_node.Base.{
  ◌+◌, Bytes, ℕ, ◌-◌, ◌≤◌, ◌≡◌, refl, ◌++◌, [], ◌∷◌, List, map, pos, int64, ok, arith, length,
  length-map, replicate, All, bind_eq_ok, subst,
}
use ovote_node.External.{Crypto}
use ovote_node.Types.VotePackage.{VotePackage}
use ovote_node.Types.ZkInputs.{ZkInputs, ReceiptTrees, zeros, receipts_tree}
use ovote_node.Db.Schema.{Sqlite, VoteRow, bind_uint64}
use ovote_node.Db.VotePackages.{scan_vote, scan_votes, read_vote_packages_by_process_id}
use ovote_node.VotesAggregator.ZkInputs.{Fill}
use ovote_node.VotesAggregator.Slots.{
  FilledTo, HasWeight, IsReadable, vote_of, weight_of, tally, signature_part, sibling_row,
  receipt_key, receipt_leaf,
}
use ovote_node.VotesAggregator.Columns.{Filled}
use ovote_node.VotesAggregator.Receipts.{receipt_path}

-- A column with its free slots counted from the capacity.
pub exact :
    {A : Type 0} (n : ℕ) (z : A) (done xs : List A)
    → FilledTo n z done xs
    → (length done ≤ n) × (xs ≡ done ++ replicate (n - length done) z)
exact n z done xs (free, hx, hn) =
    let count : free ≡ n - length done = omega arith in
    (omega arith, subst (λ k. xs ≡ done ++ replicate k z) count hx)

module _ (c : Crypto) where
  open c use {PublicKey, key_x, key_y, sig_s, sig_r8x, sig_r8y, bytes_to_big_int}

  scan_vote-HasWeight :
      (r : VoteRow) {v : VotePackage PublicKey} → scan_vote c r ≡ ok v → HasWeight c v
  unfolding scan_vote
  scan_vote-HasWeight r e = ground arith

  scan_votes-HasWeight :
      (rs : List VoteRow) {vs : List (VotePackage PublicKey)}
      → scan_votes c rs ≡ ok vs
      → All (HasWeight c) vs
  unfolding scan_votes
  scan_votes-HasWeight [] {vs} e = let same : [] ≡ vs = cc in subst (All (HasWeight c)) same tt
  scan_votes-HasWeight (r ∷ rs) {vs} e =
      let (w, hw, e1) = bind_eq_ok (scan_vote c r) _ e in
      let (ws, hws, e2) = bind_eq_ok (scan_votes c rs) _ e1 in
      let same : w ∷ ws ≡ vs = cc in
      subst (All (HasWeight c)) same (scan_vote-HasWeight r hw, scan_votes-HasWeight rs hws)

  pub read-HasWeight :
      (process_id : ℕ) (s : Sqlite) {vs : List (VotePackage PublicKey)}
      → read_vote_packages_by_process_id c process_id s ≡ ok vs
      → All (HasWeight c) vs
  unfolding read_vote_packages_by_process_id
  read-HasWeight process_id s e =
      let (_, _, e1) = bind_eq_ok (bind_uint64 process_id) _ e in scan_votes-HasWeight _ e1

  -- What the inputs hold of the votes `vs`, in n slots.
  pub record Represents (n n_levels : ℕ) (vs : List (VotePackage PublicKey)) (z : ZkInputs)
      : Type 0 where
    pub n_votes : z.n_votes ≡ length vs
    pub fits : length vs ≤ n
    pub binary : All (λ v. vote_of c v ≤ 1) vs
    pub readable : All (IsReadable c) vs
    pub result : z.result ≡ pos (tally c vs)
    pub vote : z.vote ≡ map (vote_of c) vs ++ replicate (n - length vs) 0
    pub weight : z.weight ≡ map (λ v. pos (weight_of c v)) vs ++ replicate (n - length vs) (pos 0)
    pub index :
        z.index ≡ map (λ v. int64 v.census_proof.index) vs ++ replicate (n - length vs) (pos 0)
    pub pk_x : z.pk_x ≡ map (λ v. key_x v.census_proof.public_key) vs ++ replicate (n - length vs) 0
    pub pk_y : z.pk_y ≡ map (λ v. key_y v.census_proof.public_key) vs ++ replicate (n - length vs) 0
    pub s : z.s ≡ map (signature_part c sig_s) vs ++ replicate (n - length vs) 0
    pub r8x : z.r8x ≡ map (signature_part c sig_r8x) vs ++ replicate (n - length vs) 0
    pub r8y : z.r8y ≡ map (signature_part c sig_r8y) vs ++ replicate (n - length vs) 0
    pub siblings :
        z.siblings
        ≡ map (sibling_row c n_levels) vs ++ replicate (n - length vs) (zeros (n_levels + 1))

  -- The receipts of the votes: the root of their tree, and the path of each in it.
  pub record HasReceipts (t : ReceiptTrees) (n n_levels : ℕ) (vs : List (VotePackage PublicKey))
      (z : ZkInputs) : Type 0 where
    pub with_receipts : z.with_receipts ≡ 1
    pub tree : t.Tree
    pub made :
        receipts_tree c t n_levels (map (receipt_key c n_levels) vs) (map (receipt_leaf c) vs)
        ≡ ok tree
    pub root : Bytes
    pub rooted : t.root tree ≡ ok root
    pub receipts_root : z.receipts_root ≡ bytes_to_big_int root
    pub receipts_siblings :
        z.receipts_siblings
        ≡ map (receipt_path c t tree n_levels) (map (receipt_key c n_levels) vs)
          ++ replicate (n - length vs) (zeros (n_levels + 1))

  column :
      {B : Type 0} (n : ℕ) (z : B) (g : VotePackage PublicKey → B)
      (vs : List (VotePackage PublicKey)) (xs : List B)
      → FilledTo n z (map g vs) xs
      → xs ≡ map g vs ++ replicate (n - length vs) z
  column n z g vs xs h =
      subst (λ k. xs ≡ map g vs ++ replicate (n - k) z) (length-map vs g)
        (exact n z (map g vs) xs h).1

  pub Filled-Represents :
      (n n_levels : ℕ) (vs : List (VotePackage PublicKey)) (f : Fill) (root : ℕ)
      (rows : List (List ℕ))
      → Filled c n n_levels vs f
      → let z = f.z in
        Represents n n_levels vs (record z {
          result = f.r;
          n_votes = length vs;
          with_receipts = 1;
          receipts_root = root;
          receipts_siblings = rows;
        })
  Filled-Represents n n_levels vs f root rows h = record {
    n_votes = refl;
    fits = omega (
      arith,
      (exact n 0 (map (vote_of c) vs) f.z.vote h.vote_column).0,
      length-map vs (vote_of c),
    );
    binary = h.binary;
    readable = h.readable;
    result = h.result;
    vote = column n 0 (vote_of c) vs f.z.vote h.vote_column;
    weight = column n (pos 0) (λ v. pos (weight_of c v)) vs f.z.weight h.weight_column;
    index = column n (pos 0) (λ v. int64 v.census_proof.index) vs f.z.index h.index_column;
    pk_x = column n 0 (λ v. key_x v.census_proof.public_key) vs f.z.pk_x h.pk_x_column;
    pk_y = column n 0 (λ v. key_y v.census_proof.public_key) vs f.z.pk_y h.pk_y_column;
    s = column n 0 (signature_part c sig_s) vs f.z.s h.s_column;
    r8x = column n 0 (signature_part c sig_r8x) vs f.z.r8x h.r8x_column;
    r8y = column n 0 (signature_part c sig_r8y) vs f.z.r8y h.r8y_column;
    siblings =
        column n (zeros (n_levels + 1)) (sibling_row c n_levels) vs f.z.siblings h.siblings_column;
  }
