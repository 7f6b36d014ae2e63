-- ===== src/Api/Handlers.antt =====
-- The handlers of api/api.go on the state of the server. Each handler returns its answer, or the
-- error that is sent with status 400; gin answers a panic with 500 and a path with no route with
-- 404. The request bodies are read by JSON, which is a parameter.
use ovote_node.Base.{ℕ, [], ◌∷◌, List, Bytes, Option, ℤ, Result, Error, ok, err, panic, ◌>>=◌}
use ovote_node.External.{Crypto}
use ovote_node.Types.Process.{Process, ProofInDb}
use ovote_node.Types.VotePackage.{VotePackage}
use ovote_node.Types.ZkInputs.{ReceiptTrees}
use ovote_node.Types.Hex.{encode_hex, hex_to_public_key}
use ovote_node.Db.Schema.{Sqlite}
use ovote_node.VotesAggregator.AddVote.{add_vote, process_info}
use ovote_node.VotesAggregator.Proofs.{Prover, generate_proof, get_proof}
use ovote_node.Census.Store.{CensusDb}
use ovote_node.Census.Operations.{Info}
use ovote_node.CensusBuilder.Operations.{
  Disk, Builder, Outcome, and_then, call, new_census, close_census, census_root, census_info,
  builder_get_proof,
}
use ovote_node.Api.Atoi.{id_param}

-- newCensusReq
pub record NewCensusReq (c : Crypto) : Type 0 where
  pub public_keys : List c.PublicKey
  pub weights : List (Option ℤ)

-- ShouldBindJSON for the two types of bodies.
pub record Binding (c : Crypto) : Type 0 where
  pub bind_census : Bytes → Result (NewCensusReq c)
  pub bind_vote : Bytes → Result (VotePackage c.PublicKey)

-- A goroutine that adds keys to a census.
pub record Job (c : Crypto) : Type 0 where
  pub census_id : ℕ
  pub request : NewCensusReq c

-- What stands in the body of a reply.
pub data Answer : Type 0 where
  message : Error → Answer
  census_id : ℕ → Answer
  text : Bytes → Answer
  census : Info → Answer
  merkle_proof : (index : ℕ) → Bytes → Answer
  process : Process → Answer
  proof : ProofInDb → Answer
  nothing : Answer

pub record Reply : Type 0 where
  pub status : ℕ
  pub answer : Answer

-- The routes, with the parameters of their paths and their bodies.
pub data Request : Type 0 where
  post_new_census : Bytes → Request
  get_census : Bytes → Request
  post_add_keys : Bytes → Bytes → Request
  post_close_census : Bytes → Request
  get_merkle_proof : Bytes → Bytes → Request
  post_vote : Bytes → Bytes → Request
  get_process : Bytes → Request
  post_gen_proof : Bytes → Request
  get_proof_of : Bytes → Request

abbrev pub reply_of : Result Answer → Reply
reply_of (ok a) = record { status = 200; answer = a }
reply_of (err e) = record { status = 400; answer = Answer.message e }
reply_of panic = record { status = 500; answer = Answer.nothing }

abbrev pub no_route : Reply
no_route = record { status = 404; answer = Answer.nothing }

-- "proof generation started"
abbrev pub proof_generation_started : Bytes
proof_generation_started =
    112 ∷ 114 ∷ 111 ∷ 111 ∷ 102 ∷ 32 ∷ 103 ∷ 101 ∷ 110 ∷ 101 ∷ 114 ∷ 97 ∷ 116 ∷ 105 ∷ 111 ∷ 110 ∷ 32
    ∷ 115 ∷ 116 ∷ 97 ∷ 114 ∷ 116 ∷ 101 ∷ 100 ∷ []

-- The parts of the server that are active, and the goroutines that have not run yet.
pub record Server (c : Crypto) (d : CensusDb) : Type 0 where
  pub builder : Option (Builder d)
  pub database : Option Sqlite
  pub jobs : List (Job c)

module _ (c : Crypto) (d : CensusDb) (disk : Disk d) (json : Binding c) where
  -- What a handler of the census builder returns: the answer, and the goroutines that it starts.
  abbrev pub Handled : Type 0
  Handled = Outcome d (Answer × List (Job c))

  abbrev pub answered : Answer → Builder d → Handled
  answered a b = (b, ok (a, []))

  unfoldable pub handle_new_census : Bytes → Builder d → Handled
  handle_new_census body b = and_then d (call d (json.bind_census body) b) λ req b₁.
      and_then d (new_census c d disk b₁)
        λ id b₂. (b₂, ok (Answer.census_id id, record { census_id = id; request = req } ∷ []))

  unfoldable pub handle_add_keys : Bytes → Bytes → Builder d → Handled
  handle_add_keys param body b = and_then d (call d (id_param param) b) λ id b₁.
      and_then d (call d (json.bind_census body) b₁)
        λ req b₂. (b₂, ok (Answer.census_id id, record { census_id = id; request = req } ∷ []))

  unfoldable pub handle_close_census : Bytes → Builder d → Handled
  handle_close_census param b = and_then d (call d (id_param param) b) λ id b₁.
      and_then d (close_census c d disk id b₁) λ closed b₂.
        and_then d (census_root c d disk id b₂)
          λ root b₃. answered (Answer.text (encode_hex root)) b₃

  unfoldable pub handle_get_census : Bytes → Builder d → Handled
  handle_get_census param b =
      and_then d (call d (id_param param) b)
        λ id b₁. and_then d (census_info c d disk id b₁) λ info b₂. answered (Answer.census info) b₂

  unfoldable pub handle_get_merkle_proof : Bytes → Bytes → Builder d → Handled
  handle_get_merkle_proof param key_text b = and_then d (call d (id_param param) b) λ id b₁.
      and_then d (call d (hex_to_public_key c key_text) b₁) λ key b₂.
        and_then d (census_root c d disk id b₂) λ root b₃.
          and_then d (builder_get_proof c d disk id key b₃)
            λ found b₄. answered (Answer.merkle_proof found.0 found.1) b₄

module _ (c : Crypto) (t : ReceiptTrees) (prover : Prover) (chain_id : ℕ) (json : Binding c) where
  unfoldable pub handle_vote : (now : ℕ) → Bytes → Bytes → Sqlite → Result (Answer × Sqlite)
  handle_vote now param body s = do
    id ← id_param param
    vote ← json.bind_vote body
    s' ← add_vote c chain_id now id vote s
    ok (Answer.nothing, s')

  unfoldable pub handle_get_process : Bytes → Sqlite → Result (Answer × Sqlite)
  handle_get_process param s = do
    id ← id_param param
    p ← process_info id s
    ok (Answer.process p, s)

  unfoldable pub handle_gen_proof : (now : ℕ) → Bytes → Sqlite → Result (Answer × Sqlite)
  handle_gen_proof now param s = do
    id ← id_param param
    s' ← generate_proof c t prover chain_id now id s
    ok (Answer.text proof_generation_started, s')

  unfoldable pub handle_get_proof : (now : ℕ) → Bytes → Sqlite → Result (Answer × Sqlite)
  handle_get_proof now param s = do
    id ← id_param param
    found ← get_proof c t prover chain_id now id s
    ok (Answer.proof found.0, found.1)
