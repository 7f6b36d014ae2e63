-- ===== src/Types/ZkInputs.antt =====
-- types/zkinputs.go: the inputs of the circuit, as slices that the aggregator fills.
use ovote_node.Base.{
  ℕ, suc, ◌+◌, ◌-◌, ◌++◌, [], ◌∷◌, List, map, Bool, not, Bytes, ℤ, pos, Result, Error, ok, panic,
  fail_if, ◌>>=◌, ◌>>◌, ltb, ◌==◌, if◌then◌else◌, length, set, replicate,
}
use ovote_node.External.{Crypto}

pub record ZkInputs : Type 0 where
  pub n_max_votes : ℕ
  pub n_levels : ℕ
  pub chain_id : ℤ
  pub process_id : ℤ
  pub census_root : ℕ
  pub receipts_root : ℕ
  pub n_votes : ℕ
  pub result : ℤ
  pub with_receipts : ℕ
  pub vote : List ℕ
  pub index : List ℤ
  pub pk_x : List ℕ
  pub pk_y : List ℕ
  pub weight : List ℤ
  pub s : List ℕ
  pub r8x : List ℕ
  pub r8y : List ℕ
  pub siblings : List (List ℕ)
  pub receipts_siblings : List (List ℕ)

-- `emptyBISlice`
abbrev pub zeros : ℕ → List ℕ
zeros n = replicate n 0

unfoldable pub new_zk_inputs : (n_max_votes n_levels : ℕ) → ZkInputs
new_zk_inputs n levels = record {
  n_max_votes = n;
  n_levels = levels;
  chain_id = pos 0;
  process_id = pos 0;
  census_root = 0;
  receipts_root = 0;
  n_votes = 0;
  result = pos 0;
  with_receipts = 0;
  vote = zeros n;
  index = replicate n (pos 0);
  pk_x = zeros n;
  pk_y = zeros n;
  weight = replicate n (pos 0);
  s = zeros n;
  r8x = zeros n;
  r8y = zeros n;
  siblings = replicate n (zeros (levels + 1));
  receipts_siblings = replicate n (zeros (levels + 1));
}

-- `xs[i] = v`: out of range it panics.
unfoldable pub assign : {A : Type 0} → List A → ℕ → A → Result (List A)
assign xs i v = if ltb i (length xs) then ok (set xs i v) else panic

-- The temporary Merkle tree of the receipts (arbo over a pebble database in a temporary folder):
-- opening it, adding a batch with the number of refused leaves, committing, and reading it.
pub record ReceiptTrees : Type 1 where
  pub Tree : Type 0
  pub new_tree : (n_levels : ℕ) → Result Tree
  pub add_batch : Tree → List Bytes → List Bytes → Result (Tree × ℕ)
  pub commit : Tree → Result Tree
  pub root : Tree → Result Bytes
  -- packed siblings, and whether the key is there
  pub gen_proof : Tree → Bytes → Result (Bytes × Bool)

module _ (c : Crypto) where
  open c use {bytes_to_big_int, unpack_siblings}

  -- The siblings as numbers, with zeros up to NLevels + 1.
  unfoldable pub merkle_proof_to_zk_inputs_format : ZkInputs → Bytes → Result (List ℕ)
  merkle_proof_to_zk_inputs_format z p = do
    s ← unpack_siblings p
    fail_if (ltb z.n_levels (length s)) (Error.max_n_levels z.n_levels (length s))
    ok (map bytes_to_big_int s ++ zeros (z.n_levels + 1 - length s))

  module _ (t : ReceiptTrees) where
    open t use {Tree, new_tree, add_batch, commit, root, gen_proof}

    -- One receipt: its proof out of the tree, as a row of siblings.
    unfoldable pub receipt_row : Tree → Bytes → ZkInputs → Result (List ℕ)
    unfolding merkle_proof_to_zk_inputs_format
    receipt_row tree key z = do
      (siblings, existence) ← gen_proof tree key
      fail_if (not existence) Error.not_in_receipts_tree
      merkle_proof_to_zk_inputs_format z siblings

    -- `for i := 0; i < len(receiptsKeys); i++`
    unfoldable pub receipts_loop : Tree → ℕ → List Bytes → ZkInputs → Result ZkInputs
    unfolding receipt_row assign
    receipts_loop tree i [] z = ok z
    receipts_loop tree i (key ∷ keys) z = do
      row ← receipt_row tree key z
      rows ← assign z.receipts_siblings i row
      receipts_loop tree (suc i) keys (record z { receipts_siblings = rows })

    -- The tree of all receipts.
    unfoldable pub receipts_tree : ℕ → List Bytes → List Bytes → Result Tree
    receipts_tree n_levels keys values = do
      empty ← new_tree n_levels
      (tree, invalids) ← add_batch empty keys values
      fail_if (not (invalids == 0)) (Error.can_not_add invalids)
      commit tree

    unfoldable pub compute_receipts : List Bytes → List Bytes → ZkInputs → Result ZkInputs
    unfolding receipts_loop receipts_tree
    compute_receipts keys values z = do
      tree ← receipts_tree z.n_levels keys values
      receipts_root ← root tree
      receipts_loop tree 0 keys (record z { receipts_root = bytes_to_big_int receipts_root })
