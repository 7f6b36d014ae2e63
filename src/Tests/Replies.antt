-- ===== src/Tests/Replies.antt =====
-- A server that answers 404 to every request, and the row of a proof id.
use ovote_node.Base.{◌∷◌, [], none, ok}
use ovote_node.Types.Process.{ProofInDb}
use ovote_node.Prover.Client.{Http, Reply}

abbrev not_found : Reply
not_found = record { status = 404; content = ok (52 ∷ 48 ∷ 52 ∷ []) }

abbrev pub toy_http : Http
toy_http = record {
  post_proof = λ json. ok not_found;
  get = λ path. ok not_found;
  marshal_zk_inputs = λ z. ok [];
  unmarshal_error = λ b. ok b;
  unmarshal_id = λ b. ok none;
}

-- The row of the proof id 5, as it is read.
abbrev pub waiting : ProofInDb
waiting = record {
  proof_id = 5;
  proof = [];
  public_inputs = [];
  inserted_datetime = 1300;
  proof_added_datetime = 0;
  process_id = 1;
}
