-- ===== src/Db/Proofs.antt =====
-- db/proofs.go
use ovote_node.Base.{
  ℕ, ◌++◌, [], ◌∷◌, List, map, Bool, not, ◌&&◌, Bytes, Result, Error, ok, some_or, fail_if, ◌>>=◌,
  ◌>>◌, ◌==◌, leb, any, select, Option, none, some,
}
use ovote_node.Types.Process.{ProofInDb}
use ovote_node.Db.Schema.{Sqlite, ProofRow, bind_uint64}
use ovote_node.Db.Processes.{has_id}
use ovote_node.Db.Query.{update_where, order_by}

-- `time.Time{}`, which is before every timestamp.
abbrev pub zero_time : ℕ
zero_time = 0

-- INSERT INTO proofs, with empty proof and public inputs.
unfoldable pub store_proof_id : (now process_id proof_id : ℕ) → Sqlite → Result Sqlite
unfolding bind_uint64
store_proof_id now process_id proof_id s = do
  key ← bind_uint64 proof_id
  process ← bind_uint64 process_id
  fail_if (any (λ (r : ProofRow). r.proofid == key) s.proofs) Error.unique_constraint
  fail_if (not (any (has_id process) s.processes)) (Error.proof_process_missing process_id)
  let row : ProofRow = record {
    proofid = key;
    proof = [];
    public_inputs = [];
    inserted_datetime = now;
    proof_added_datetime = zero_time;
    process_id = process;
  }
  ok (record s { proofs = s.proofs ++ row ∷ [] })

-- WHERE (processID = ? AND proofID = ?)
abbrev pub is_proof : (process_id proof_id : ℕ) → ProofRow → Bool
is_proof process_id proof_id r = r.process_id == process_id && r.proofid == proof_id

unfoldable pub add_proof_to_proof_id :
    (now process_id proof_id : ℕ) (proof public_inputs : Bytes) → Sqlite → Result Sqlite
unfolding bind_uint64 update_where
add_proof_to_proof_id now process_id proof_id proof public_inputs s = do
  process ← bind_uint64 process_id
  key ← bind_uint64 proof_id
  ok (record s {
    proofs =
        update_where (is_proof process key)
          (λ r. record r {
            proof = proof;
            public_inputs = public_inputs;
            proof_added_datetime = now;
          })
          s.proofs;
  })

abbrev pub scan_proof : ProofRow → ProofInDb
scan_proof r = record {
  proof_id = r.proofid;
  proof = r.proof;
  public_inputs = r.public_inputs;
  inserted_datetime = r.inserted_datetime;
  proof_added_datetime = r.proof_added_datetime;
  process_id = r.process_id;
}

-- ORDER BY proofAddedDatetime DESC
abbrev pub latest_first : ProofRow → ProofRow → Bool
latest_first a b = leb b.proof_added_datetime a.proof_added_datetime

abbrev pub proofs_of : ℕ → Sqlite → List ProofRow
proofs_of process_id s =
    order_by latest_first (select (λ (r : ProofRow). r.process_id == process_id) s.proofs)

-- LIMIT 1
abbrev pub first_row : List ProofRow → Option ProofRow
first_row [] = none
first_row (r ∷ rows) = some r

unfoldable pub get_proof_by_process_id : ℕ → Sqlite → Result ProofInDb
unfolding bind_uint64
get_proof_by_process_id process_id s = do
  id ← bind_uint64 process_id
  row ← some_or (first_row (proofs_of id s)) (Error.proof_not_in_db process_id)
  ok (scan_proof row)

unfoldable pub get_proofs_by_process_id : ℕ → Sqlite → Result (List ProofInDb)
unfolding bind_uint64
get_proofs_by_process_id process_id s = do
  id ← bind_uint64 process_id
  ok (map scan_proof (proofs_of id s))
