-- ===== src/VotesAggregator/Receipts.antt =====
-- types/zkinputs.go: ComputeReceipts. The tree that it makes, and the columns that it fills.
use ovote_node.Base.{
  ℕ, suc, ◌≡◌, ◌++◌, sym, [], ◌∷◌, List, Bytes, map, ok, bind_eq_ok, subst, length, length-append,
  length-map, append_assoc, append-nil, arith,
}
use mathlib.Core.List.{map-append}
use ovote_node.External.{Crypto}
use ovote_node.Types.ZkInputs.{
  ZkInputs, ReceiptTrees, assign, receipts_loop, compute_receipts, receipts_tree, receipt_row,
  merkle_proof_to_zk_inputs_format,
}
use ovote_node.VotesAggregator.Slots.{FilledTo, assign-FilledTo, of_result, packed_row}

module _ (c : Crypto) (t : ReceiptTrees) where
  -- The siblings of a receipt in the tree.
  abbrev pub receipt_path : t.Tree → (n_levels : ℕ) → Bytes → List ℕ
  receipt_path tree n_levels key =
      packed_row c n_levels (of_result (λ o. o.0) [] (t.gen_proof tree key))

  receipt_row-eq_ok :
      (tree : t.Tree) (key : Bytes) (z : ZkInputs) {row : List ℕ}
      → receipt_row c t tree key z ≡ ok row
      → row ≡ receipt_path tree z.n_levels key
  unfolding receipt_row merkle_proof_to_zk_inputs_format
  receipt_row-eq_ok tree key z e = ground arith

  receipts_loop-keeps :
      (tree : t.Tree) (i : ℕ) (keys : List Bytes) (z : ZkInputs) {z' : ZkInputs}
      → receipts_loop c t tree i keys z ≡ ok z'
      → z' ≡ record z { receipts_siblings = z'.receipts_siblings }
  unfolding receipts_loop
  receipts_loop-keeps tree i [] z {z'} e = let same : z ≡ z' = cc in rw (← same)
  receipts_loop-keeps tree i (key ∷ keys) z e =
      let (row, _, e1) = bind_eq_ok (receipt_row c t tree key z) _ e in
      let (rows, _, e2) = bind_eq_ok (assign z.receipts_siblings i row) _ e1 in
      receipts_loop-keeps tree (suc i) keys (record z { receipts_siblings = rows }) e2

  receipts_loop-FilledTo :
      (tree : t.Tree) (n : ℕ) (filler : List ℕ) (done keys : List Bytes) (z : ZkInputs)
      {z' : ZkInputs}
      → FilledTo n filler (map (receipt_path tree z.n_levels) done) z.receipts_siblings
      → receipts_loop c t tree (length done) keys z ≡ ok z'
      → FilledTo n filler (map (receipt_path tree z.n_levels) (done ++ keys)) z'.receipts_siblings
  unfolding receipts_loop
  receipts_loop-FilledTo tree n filler done [] z {z'} h e =
      let same : z ≡ z' = cc in
      let path = receipt_path tree z.n_levels in
      subst (λ l. FilledTo n filler (map path l) z'.receipts_siblings) (sym (append-nil done))
        (subst (λ (x : ZkInputs). FilledTo n filler (map path done) x.receipts_siblings) same h)
  receipts_loop-FilledTo tree n filler done (key ∷ keys) z {z'} h e =
      let (row, made, e1) = bind_eq_ok (receipt_row c t tree key z) _ e in
      let (rows, put, e2) = bind_eq_ok (assign z.receipts_siblings (length done) row) _ e1 in
      let path = receipt_path tree z.n_levels in
      let z₁ = record z { receipts_siblings = rows } in
      let placed =
        assign-FilledTo n filler (map path done) z.receipts_siblings (length done) (path key)
          (sym (length-map done path)) h
          (subst (λ r. assign z.receipts_siblings (length done) r ≡ ok rows)
            (receipt_row-eq_ok tree key z made) put) in
      let column : FilledTo n filler (map path (done ++ key ∷ [])) rows =
        subst (λ l. FilledTo n filler l rows) (sym (map-append path done (key ∷ []))) placed in
      let count : suc (length done) ≡ length (done ++ key ∷ []) =
        omega (arith, length-append done (key ∷ [])) in
      subst (λ l. FilledTo n filler (map path l) z'.receipts_siblings)
        (append_assoc done (key ∷ []) keys)
        (receipts_loop-FilledTo tree n filler (done ++ key ∷ []) keys z₁ column
          (subst (λ k. receipts_loop c t tree k keys z₁ ≡ ok z') count e2))

  -- The tree of the receipts, its root, and the paths of the receipts in it; nothing else changes.
  pub compute_receipts-eq_ok :
      (n : ℕ) (filler : List ℕ) (keys values : List Bytes) (z : ZkInputs) {z' : ZkInputs}
      → FilledTo n filler [] z.receipts_siblings
      → compute_receipts c t keys values z ≡ ok z'
      → (tree : t.Tree) × (root : Bytes) × (receipts_tree c t z.n_levels keys values ≡ ok tree)
        × (t.root tree ≡ ok root)
        × FilledTo n filler (map (receipt_path tree z.n_levels) keys) z'.receipts_siblings
        × (z' ≡ record z {
          receipts_root = c.bytes_to_big_int root;
          receipts_siblings = z'.receipts_siblings;
        })
  unfolding compute_receipts
  compute_receipts-eq_ok n filler keys values z free e =
      let (tree, made, e1) = bind_eq_ok (receipts_tree c t z.n_levels keys values) _ e in
      let (root, rooted, e2) = bind_eq_ok (t.root tree) _ e1 in
      let z₁ = record z { receipts_root = c.bytes_to_big_int root } in
      (
        tree,
        root,
        made,
        rooted,
        receipts_loop-FilledTo tree n filler [] keys z₁ free e2,
        receipts_loop-keeps tree 0 keys z₁ e2,
      )
