-- ===== src/Tests/Deliveries.antt =====
-- A run of the prover's server to the end of its first goroutine, and the aggregator that asks it
-- for the proof.
use ovote_node.Base.{ℕ, ◌≡◌, ◌∷◌, [], refl, Bytes, ok, true, int64, bytes_equal, arith}
use ovote_node.Types.Process.{ProofInDb}
use ovote_node.Db.Schema.{Sqlite}
use ovote_node.Db.Query.{order_by}
use ovote_node.Db.Proofs.{get_proof_by_process_id, add_proof_to_proof_id}
use ovote_node.VotesAggregator.Proofs.{get_proof, is_missing}
use ovote_node.Prover.Client.{client}
use ovote_node.ProverServer.System.{
  Thread, Handler, Goroutine, of_handler, of_goroutine, System, Reach, pick, later, reply,
  make_witness, make_proof,
}
use ovote_node.ProverServer.Downloads.{send_proof, send_public_inputs}
use ovote_node.ProverServer.Delivery.{served, IsDelivery, get_proof-IsDelivery}
use ovote_node.Tests.Toy.{toy, toy_trees}
use ovote_node.Tests.Votes.{requested}
use ovote_node.Tests.Replies.{toy_http, waiting}
use ovote_node.Tests.Provers.{copying, body, shared, reaches}

abbrev finished : System
finished = record {
  shared = record shared { witnesses = (1, body) ∷ []; proofs = (1, (body, body)) ∷ [] };
  threads =
      Thread.handler (Handler.replied true 1)
      ∷ Thread.goroutine (Goroutine.proved 1)
      ∷ Thread.handler (Handler.received body)
      ∷ [];
}

reaches_finished : Reach copying finished
reaches_finished = later (pick 1 refl (of_goroutine make_proof)) (
    later (pick 1 refl (of_goroutine make_witness))
      (later (pick 0 refl (of_handler reply)) reaches))

abbrev page : Bytes
page = 52 ∷ 48 ∷ 52 ∷ []

-- The proof id 1 is stored for process 1, with a proof or without.
abbrev asked : Bytes → ℕ → Sqlite
asked text at = record requested {
  proofs =
      record {
        proofid = 1;
        proof = text;
        public_inputs = text;
        inserted_datetime = 1300;
        proof_added_datetime = at;
        process_id = 1;
      }
      ∷ [];
}

abbrev one : ProofInDb
one = record waiting { proof_id = 1 }

one_reads : get_proof_by_process_id 1 (asked [] 0) ≡ ok one
unfolding get_proof_by_process_id order_by
one_reads = refl

one_waits :
    is_missing toy toy_trees (client (served toy_http page finished.shared finished.shared)) 5 one
    ≡ true
unfolding bytes_equal
one_waits = refl

one_answered :
    get_proof toy toy_trees
      (client (served toy_http page finished.shared finished.shared))
      5
      1500
      1
      (asked [] 0)
    ≡ ok (record one { proof = body; public_inputs = body }, asked body 1500)
unfolding get_proof get_proof_by_process_id order_by client send_proof send_public_inputs int64
    bytes_equal add_proof_to_proof_id
one_answered = refl

get_proof-IsDelivery_example :
    (add_proof_to_proof_id 1500 1 1 body body (asked [] 0) ≡ ok (asked body 1500))
    × IsDelivery copying page (λ files. files.0) 1 finished.shared body
    × IsDelivery copying page (λ files. files.1) 1 finished.shared body
get_proof-IsDelivery_example =
    get_proof-IsDelivery copying page toy toy_trees toy_http 5 1500 1 (asked [] 0) {s₁ = finished}
      {s₂ = finished} {p = one} {q = record one { proof = body; public_inputs = body }}
      {db' = asked body 1500} reaches_finished reaches_finished one_reads (omega arith) one_waits
      one_answered
