-- ===== src/VotesAggregator/Result.antt =====
-- What the circuit's inputs say of the votes in the database.
use ovote_node.Base.{
  ap, ◌∙◌, ◌+◌, ℕ, ◌-◌, ◌≤◌, ◌≡◌, refl, sym, ◌++◌, [], List, map, pos, int64, ok, arith, length,
  length-map, replicate, bind_eq_ok, subst,
}
use ovote_node.External.{Crypto}
use ovote_node.Types.VotePackage.{VotePackage}
use ovote_node.Types.ZkInputs.{ZkInputs, ReceiptTrees, zeros, compute_receipts}
use ovote_node.Db.Schema.{Sqlite}
use ovote_node.Db.Processes.{read_process_by_id}
use ovote_node.Db.VotePackages.{read_vote_packages_by_process_id}
use ovote_node.VotesAggregator.ZkInputs.{Fill, fill_votes, generate_zk_inputs, start_inputs}
use ovote_node.VotesAggregator.Slots.{FilledTo, receipt_key}
use ovote_node.VotesAggregator.Columns.{Filled, fill_votes-Filled}
use ovote_node.VotesAggregator.Receipts.{receipt_path, compute_receipts-eq_ok}
use ovote_node.VotesAggregator.Untouched.{Untouched, fill_votes-Untouched}
use ovote_node.Types.Process.{Process}
use ovote_node.VotesAggregator.Represents.{
  exact, read-HasWeight, Represents, HasReceipts, Filled-Represents,
}

module _ (c : Crypto) where
  open c use {PublicKey, key_x, key_y, sig_s, sig_r8x, sig_r8y, bytes_to_big_int}

  abbrev start : (chain_id process_id n n_levels : ℕ) → List ℕ → Fill
  start chain_id process_id n n_levels root = record {
    z = start_inputs c chain_id process_id root n n_levels;
    r = pos 0;
    keys = [];
    values = [];
  }

  start-Filled :
      (chain_id process_id n n_levels : ℕ) (root : List ℕ)
      → Filled c n n_levels [] (start chain_id process_id n n_levels root)
  unfolding start_inputs
  start-Filled chain_id process_id n n_levels root = record {
    vote_column = (n, refl, omega arith);
    weight_column = (n, refl, omega arith);
    index_column = (n, refl, omega arith);
    pk_x_column = (n, refl, omega arith);
    pk_y_column = (n, refl, omega arith);
    s_column = (n, refl, omega arith);
    r8x_column = (n, refl, omega arith);
    r8y_column = (n, refl, omega arith);
    siblings_column = (n, refl, omega arith);
    levels = refl;
    keys = refl;
    values = refl;
    readable = tt;
    result = refl;
    binary = tt;
  }

  -- The fields that are set before the loop.
  abbrev pub IsAbout : (chain_id process_id : ℕ) → Process → ZkInputs → Type 0
  IsAbout chain_id process_id process z =
      (z.chain_id ≡ int64 chain_id)
      × (z.process_id ≡ int64 process_id)
      × (z.census_root ≡ bytes_to_big_int process.census_root)

  -- The receipts column is free when the loop starts.
  start-receipts :
      (chain_id process_id n n_levels : ℕ) (root : List ℕ)
      → let z = start_inputs c chain_id process_id root n n_levels in
        FilledTo n (zeros (n_levels + 1)) [] z.receipts_siblings
  unfolding start_inputs
  start-receipts chain_id process_id n n_levels root = (n, refl, omega arith)

  start-IsAbout :
      (chain_id process_id n n_levels : ℕ) (process : Process) (z : ZkInputs)
      → Untouched (start_inputs c chain_id process_id process.census_root n n_levels) z
      → IsAbout chain_id process_id process z
  unfolding start_inputs
  start-IsAbout chain_id process_id n n_levels process z kept =
      (kept.chain, kept.process, kept.root)

  compute_receipts-HasReceipts :
      (t : ReceiptTrees) (n n_levels : ℕ) (vs : List (VotePackage PublicKey)) (f : Fill)
      {z' : ZkInputs}
      → Filled c n n_levels vs f
      → length vs ≤ n
      → FilledTo n (zeros (n_levels + 1)) [] f.z.receipts_siblings
      → let z = f.z in
        compute_receipts c t f.keys f.values
            (record z { result = f.r; n_votes = length vs; with_receipts = 1 })
          ≡ ok z'
        → HasReceipts c t n n_levels vs z'
          × (root : ℕ) × (z' ≡ record z {
            result = f.r;
            n_votes = length vs;
            with_receipts = 1;
            receipts_root = root;
            receipts_siblings = z'.receipts_siblings;
          })
  compute_receipts-HasReceipts t n n_levels vs f {z'} filled fits free e =
      let filler = zeros (n_levels + 1) in
      let (tree, root, made, rooted, paths, same) =
        compute_receipts-eq_ok c t n filler f.keys f.values _ free e in
      let path = receipt_path c t tree n_levels in
      let keys = map (receipt_key c n_levels) vs in
      let paths' : FilledTo n filler (map path keys) z'.receipts_siblings =
        subst (λ l. FilledTo n filler (map (receipt_path c t tree l) keys) z'.receipts_siblings)
          filled.levels
          (subst
            (λ ks.
              FilledTo n filler (map (receipt_path c t tree f.z.n_levels) ks) z'.receipts_siblings)
            filled.keys paths) in
      (
        record {
          with_receipts = ap (λ (z : ZkInputs). z.with_receipts) same;
          tree = tree;
          made = rw (sym filled.keys, sym filled.values, sym filled.levels) made;
          root = root;
          rooted = rooted;
          receipts_root = ap (λ (z : ZkInputs). z.receipts_root) same;
          receipts_siblings =
              subst (λ k. z'.receipts_siblings ≡ map path keys ++ replicate (n - k) filler)
                (length-map keys path ∙ length-map vs (receipt_key c n_levels))
                (exact n filler (map path keys) z'.receipts_siblings paths').1;
        },
        bytes_to_big_int root,
        same,
      )

  -- If the inputs are generated, they represent exactly the votes that the database holds for the
  -- process, in the order of the read. There are at most n of them, each is 0 or 1, NVotes is
  -- their number, and Result is the sum of the weights of the votes that are 1. The i-th slot of
  -- Vote, Weight, Index, PkX, PkY, S, R8x, R8y and Siblings is that of the i-th vote, whose
  -- signature and siblings can be read, and all other slots are 0. ChainID, ProcessID and
  -- CensusRoot are those of the process, and ReceiptsRoot and ReceiptsSiblings are the root and the
  -- paths of the tree whose leaves are the receipts of the votes.
  pub generate_zk_inputs-Represents :
      (t : ReceiptTrees) (chain_id process_id n n_levels : ℕ) (db : Sqlite) {z : ZkInputs}
      → generate_zk_inputs c t chain_id process_id n n_levels db ≡ ok z
      → (vs : List (VotePackage PublicKey)) × (read_vote_packages_by_process_id c process_id db
          ≡ ok vs)
        × Represents c n n_levels vs z
        × HasReceipts c t n n_levels vs z
        × (process : Process) × (read_process_by_id process_id db ≡ ok process)
        × IsAbout chain_id process_id process z
  unfolding generate_zk_inputs
  generate_zk_inputs-Represents t chain_id process_id n n_levels db {z} e =
      let (p, hp, e1) = bind_eq_ok (read_process_by_id process_id db) _ e in
      let (vs, hv, e2) = bind_eq_ok (read_vote_packages_by_process_id c process_id db) _ e1 in
      let f0 = start chain_id process_id n n_levels p.census_root in
      let (f, hf, e3) = bind_eq_ok (fill_votes c n_levels 0 vs f0) _ e2 in
      let filled : Filled c n n_levels vs f =
        fill_votes-Filled c n n_levels [] vs f0 (read-HasWeight c process_id db hv)
          (start-Filled chain_id process_id n n_levels p.census_root) hf in
      let kept = fill_votes-Untouched c n_levels 0 vs f0 hf in
      let free : FilledTo n (zeros (n_levels + 1)) [] f.z.receipts_siblings =
        subst (FilledTo n (zeros (n_levels + 1)) []) (sym kept.receipts)
          (start-receipts chain_id process_id n n_levels p.census_root) in
      let means =
        λ (root : ℕ). Filled-Represents c n n_levels vs f root z.receipts_siblings filled in
      let (receipts, root, same) =
        compute_receipts-HasReceipts t n n_levels vs f filled (means 0).fits free e3 in
      (
        vs,
        hv,
        subst (Represents c n n_levels vs) (sym same) (means root),
        receipts,
        p,
        hp,
        subst (IsAbout chain_id process_id p) (sym same)
            (start-IsAbout chain_id process_id n n_levels p f.z kept),
      )
