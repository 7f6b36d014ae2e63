-- ===== src/VotesAggregator/ProofRequests.antt =====
-- When GenerateProof asks for a proof.
use ovote_node.Base.{
  ℕ, ◌≤◌, ◌≡◌, refl, ap, ◌∙◌, [], ◌∷◌, List, Bool, true, some, Result, Error, ok, err, panic, ◌==◌,
  arith, bind_eq_ok, any, select, inl, inr, Bool-cases, any-append, ◌⊎◌,
}
use ovote_node.External.{Crypto}
use ovote_node.Types.Process.{Process, ProofInDb}
use ovote_node.Types.ZkInputs.{ReceiptTrees}
use ovote_node.Db.Schema.{Sqlite, ProofRow, bind_uint64}
use ovote_node.Db.Processes.{read_process_by_id}
use ovote_node.Db.Meta.{get_last_sync_block_num}
use ovote_node.Db.Proofs.{
  get_proof_by_process_id, store_proof_id, scan_proof, first_row, proofs_of, latest_first,
}
use ovote_node.Db.Query.{insert_by, order_by}
use ovote_node.Db.Writes.{store_proof_id-eq_ok}
use ovote_node.VotesAggregator.ZkInputs.{generate_zk_inputs}
use ovote_node.VotesAggregator.Proofs.{
  Prover, generate_proof, unless_stored, request_proof, n_max_votes, n_levels,
}

-- A process with a proof row has a first row.
insert_by-first :
    (x : ProofRow) (xs : List ProofRow)
    → (r : ProofRow) × (first_row (insert_by latest_first x xs) ≡ some r)
unfolding insert_by
insert_by-first x [] = (x, refl)
insert_by-first x (y ∷ ys) = elim (Bool-cases (latest_first x y)) [
  | inl e ↦ (x, rw e)
  | inr e ↦ (y, rw e)
]

order_by-first :
    (p : ProofRow → Bool) (xs : List ProofRow)
    → any p xs ≡ true
    → (r : ProofRow) × (first_row (order_by latest_first (select p xs)) ≡ some r)
unfolding order_by
order_by-first p [] h = cc
order_by-first p (x ∷ xs) h = elim (Bool-cases (p x)) [
  | inl e ↦ let (r, q) = insert_by-first x (order_by latest_first (select p xs)) in (r, rw e q)
  | inr e ↦ let (r, q) = order_by-first p xs (ground arith) in (r, rw e q)
]

module _ (c : Crypto) (t : ReceiptTrees) (prover : Prover) (chain_id : ℕ) where
  pub request-proofs :
      (now p : ℕ) (s : Sqlite) {s' : Sqlite}
      → request_proof c t prover chain_id now p s ≡ ok s'
      → (proof_id : ℕ) × (store_proof_id now p proof_id s ≡ ok s')
  unfolding request_proof
  request-proofs now p s e =
      let (zki, _, e1) =
        bind_eq_ok (generate_zk_inputs c t chain_id p n_max_votes n_levels s) _ e in
      let (proof_id, _, e2) = bind_eq_ok (prover.gen_proof p zki) _ e1 in (proof_id, e2)

  pub unless_stored-cases :
      (now p : ℕ) (r : Result ProofInDb) (s : Sqlite) {s' : Sqlite}
      → unless_stored c t prover chain_id now p r s ≡ ok s'
      → ((proof : ProofInDb) × (r ≡ ok proof) × (s' ≡ s))
        ⊎ (request_proof c t prover chain_id now p s ≡ ok s')
  unfolding unless_stored
  unless_stored-cases now p (ok proof) s e = inl (proof, refl, cc)
  unless_stored-cases now p (err (Error.proof_not_in_db id)) s e = inr e
  unless_stored-cases now p (err _) s e = absurd cc
  unless_stored-cases now p panic s e = absurd cc

  pub generate_proof-eq_ok :
      (now p : ℕ) (s : Sqlite) {s' : Sqlite}
      → generate_proof c t prover chain_id now p s ≡ ok s'
      → (process : Process) × (last : ℕ) × (read_process_by_id p s ≡ ok process)
        × (get_last_sync_block_num s ≡ ok last)
        × (last ≤ process.res_pub_start_block)
        × (unless_stored c t prover chain_id now p (get_proof_by_process_id p s) s ≡ ok s')
  unfolding generate_proof
  generate_proof-eq_ok now p s e =
      let (process, r, e1) = bind_eq_ok (read_process_by_id p s) _ e in
      let (last, l, e2) = bind_eq_ok (get_last_sync_block_num s) _ e1 in
      (process, last, r, l, ground arith, ground arith)

stored-small :
    (now p proof_id : ℕ) (s : Sqlite) {s' : Sqlite}
    → store_proof_id now p proof_id s ≡ ok s'
    → bind_uint64 p ≡ ok p
unfolding store_proof_id
stored-small now p proof_id s e = ground arith

get_stored :
    (p : ℕ) (s : Sqlite) {r : ProofRow}
    → bind_uint64 p ≡ ok p
    → first_row (proofs_of p s) ≡ some r
    → get_proof_by_process_id p s ≡ ok (scan_proof r)
unfolding get_proof_by_process_id
get_stored p s small e = ground arith

-- A proof id that was stored is found for its process; processes and meta are as before.
stored-get :
    (now p proof_id : ℕ) (s : Sqlite) {s' : Sqlite}
    → store_proof_id now p proof_id s ≡ ok s'
    → (proof : ProofInDb) × (get_proof_by_process_id p s' ≡ ok proof)
      × (s'.processes ≡ s.processes)
      × (s'.meta ≡ s.meta)
stored-get now p proof_id s {s'} e =
    let (_, _, final) = store_proof_id-eq_ok now p proof_id s e in
    let of_p : ProofRow → Bool = λ r. r.process_id == p in
    let there : any of_p s'.proofs ≡ true =
      ap (λ (x : Sqlite). any of_p x.proofs) final ∙ any-append of_p s.proofs _ ∙ ground arith in
    let (r, first) = order_by-first of_p s'.proofs there in
    (
      scan_proof r,
      get_stored p s' (stored-small now p proof_id s e) first,
      ap (λ (x : Sqlite). x.processes) final,
      ap (λ (x : Sqlite). x.meta) final,
    )

module _ (c : Crypto) (t : ReceiptTrees) (chain_id : ℕ) where
  same_reads :
      (p : ℕ) (s s' : Sqlite)
      → s'.processes ≡ s.processes
      → s'.meta ≡ s.meta
      → (read_process_by_id p s' ≡ read_process_by_id p s)
        × (get_last_sync_block_num s' ≡ get_last_sync_block_num s)
  unfolding read_process_by_id get_last_sync_block_num
  same_reads p s s' hp hm = (rw hp, rw hm)

  stays :
      (prover : Prover) (now p : ℕ) (s : Sqlite) (process : Process) (last : ℕ) (proof : ProofInDb)
      → read_process_by_id p s ≡ ok process
      → get_last_sync_block_num s ≡ ok last
      → last ≤ process.res_pub_start_block
      → get_proof_by_process_id p s ≡ ok proof
      → generate_proof c t prover chain_id now p s ≡ ok s
  unfolding generate_proof
  stays prover now p s process last proof r l le g = ground arith

  -- After a successful GenerateProof the same call, at any later time and with any prover,
  -- succeeds and changes nothing: one proof is asked for.
  pub generate_proof-again :
      (prover prover' : Prover) (now now' p : ℕ) (s : Sqlite) {s' : Sqlite}
      → generate_proof c t prover chain_id now p s ≡ ok s'
      → generate_proof c t prover' chain_id now' p s' ≡ ok s'
  generate_proof-again prover prover' now now' p s {s'} e =
      let (process, last, r, l, le, u) = generate_proof-eq_ok c t prover chain_id now p s e in
      elim (unless_stored-cases c t prover chain_id now p (get_proof_by_process_id p s) s u) [
        | inl (proof, g, same) ↦ rw same (stays prover' now' p s process last proof r l le g)
        | inr asked ↦
            let (proof_id, stored) = request-proofs c t prover chain_id now p s asked in
            let (proof, g, hp, hm) = stored-get now p proof_id s stored in
            let (sp, sm) = same_reads p s s' hp hm in
            stays prover' now' p s' process last proof (sp ∙ r) (sm ∙ l) le g
      ]
