-- ===== src/Prover/Client.antt =====
-- The requests of prover.Client. HTTP and JSON are parameters.
use ovote_node.Base.{
  ℕ, Bytes, ℤ, int64, Option, none, some, Result, Error, ok, err, ◌>>=◌, ◌==◌, if◌then◌else◌,
}
use ovote_node.Types.ZkInputs.{ZkInputs}
use ovote_node.VotesAggregator.Proofs.{Prover}

-- http.Response, with what `ReadAll` gives for its body.
pub record Reply : Type 0 where
  pub status : ℕ
  pub content : Result Bytes

-- The paths of the GET requests; the id is converted to an `int`.
pub data ProofPath : Type 0 where
  proof_path : ℤ → ProofPath
  public_path : ℤ → ProofPath

-- The http.Client on the prover's url, and encoding/json for the types that are sent and received.
pub record Http : Type 0 where
  pub post_proof : Bytes → Result Reply
  pub get : ProofPath → Result Reply
  pub marshal_zk_inputs : ZkInputs → Result Bytes
  pub unmarshal_error : Bytes → Result Bytes
  -- The entry "id" of a map of numbers.
  pub unmarshal_id : Bytes → Result (Option ℕ)

-- http.StatusBadRequest
abbrev pub status_bad_request : ℕ
status_bad_request = 400

module _ (http : Http) where
  open http use {post_proof, get, marshal_zk_inputs, unmarshal_error, unmarshal_id}

  -- The body of a reply, or the message of a bad request.
  abbrev pub body_of : Reply → Result Bytes
  body_of r = do
    body ← r.content
    let refused = unmarshal_error body >>= λ m. err (Error.prover_message m)
    if r.status == status_bad_request then refused else ok body

  -- A missing entry of a Go map reads as 0.
  abbrev pub id_or_zero : Option ℕ → ℕ
  id_or_zero none = 0
  id_or_zero (some id) = id

  unfoldable pub client_gen_proof : (process_id : ℕ) → ZkInputs → Result ℕ
  client_gen_proof process_id zki = do
    json ← marshal_zk_inputs zki
    reply ← post_proof json
    body ← body_of reply
    id ← unmarshal_id body
    ok (id_or_zero id)

  unfoldable pub client_request_proof : ℕ → Result Bytes
  client_request_proof proof_id = do
    reply ← get (ProofPath.proof_path (int64 proof_id))
    body_of reply

  unfoldable pub client_request_public_inputs : ℕ → Result Bytes
  client_request_public_inputs proof_id = do
    reply ← get (ProofPath.public_path (int64 proof_id))
    body_of reply

  unfoldable pub client_get_proof : ℕ → Result (Bytes × Bytes)
  unfolding client_request_proof client_request_public_inputs
  client_get_proof proof_id = do
    proof ← client_request_proof proof_id
    public_inputs ← client_request_public_inputs proof_id
    ok (proof, public_inputs)

  -- The client as the prover of the aggregator.
  unfoldable pub client : Prover
  unfolding client_gen_proof client_get_proof
  client = record { gen_proof = client_gen_proof; get_proof = client_get_proof }
