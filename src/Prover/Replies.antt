-- ===== src/Prover/Replies.antt =====
-- What the aggregator makes of the replies of the prover's server.
use ovote_node.Base.{ℕ, Bytes, ◌≡◌, refl, true, false, int64, ok, ◌>>=◌, ◌==◌}
use ovote_node.External.{Crypto}
use ovote_node.Types.Process.{ProofInDb}
use ovote_node.Types.ZkInputs.{ReceiptTrees}
use ovote_node.Db.Schema.{Sqlite}
use ovote_node.Db.Proofs.{get_proof_by_process_id, add_proof_to_proof_id}
use ovote_node.VotesAggregator.Proofs.{is_missing, get_proof}
use ovote_node.Prover.Client.{Http, Reply, ProofPath, status_bad_request, client}

-- When a process has a proof id without a proof, and the server answers both requests with a status
-- other than 400, the aggregator's GetProof stores the two bodies as the proof and returns them,
-- whatever the statuses are.
pub get_proof-stores_replies :
    (c : Crypto) (t : ReceiptTrees) (http : Http) (chain_id now process_id : ℕ) (s : Sqlite)
    {p : ProofInDb} {r₁ r₂ : Reply} {page₁ page₂ : Bytes}
    → get_proof_by_process_id process_id s ≡ ok p
    → is_missing c t (client http) chain_id p ≡ true
    → http.get (ProofPath.proof_path (int64 p.proof_id)) ≡ ok r₁
    → http.get (ProofPath.public_path (int64 p.proof_id)) ≡ ok r₂
    → (r₁.status == status_bad_request) ≡ false
    → (r₂.status == status_bad_request) ≡ false
    → r₁.content ≡ ok page₁
    → r₂.content ≡ ok page₂
    → get_proof c t (client http) chain_id now process_id s ≡ (
        add_proof_to_proof_id now process_id p.proof_id page₁ page₂ s >>= λ s'.
        ok (record p { proof = page₁; public_inputs = page₂ }, s'))
unfolding get_proof client
get_proof-stores_replies c t http chain_id now process_id s e m g₁ g₂ s₁ s₂ b₁ b₂ =
    rw (e, m, g₁, b₁, s₁, g₂, b₂, s₂) refl
