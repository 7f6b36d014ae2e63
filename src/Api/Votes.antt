-- ===== src/Api/Votes.antt =====
-- api/api.go: postVote together with AddVote.
use ovote_node.Base.{
  ℕ, ◌≡◌, ◌≢◌, ◌⊎◌, inl, inr, ◌++◌, [], ◌∷◌, Bytes, some, Result, ok, err, panic, refl, arith, ap,
  sym, ◌∙◌, bind_eq_ok, ok_injective,
}
use ovote_node.External.{Crypto}
use ovote_node.Types.Process.{Process, process_status_on}
use ovote_node.Types.VotePackage.{VotePackage}
use ovote_node.Types.Encoding.{verify}
use ovote_node.Types.ZkInputs.{ReceiptTrees}
use ovote_node.Db.Schema.{Sqlite}
use ovote_node.Db.Processes.{read_process_by_id}
use ovote_node.Db.VotePackages.{vote_row}
use ovote_node.VotesAggregator.AddVote.{add_vote}
use ovote_node.VotesAggregator.Ballots.{add_vote-eq_ok}
use ovote_node.VotesAggregator.Proofs.{Prover}
use ovote_node.Census.Store.{CensusDb}
use ovote_node.CensusBuilder.Operations.{Disk}
use ovote_node.Api.Atoi.{id_param}
use ovote_node.Api.Handlers.{Binding, Server, Request, Answer, handle_vote}
use ovote_node.Api.Routes.{serve, with_database, database_reply}

module _ (c : Crypto) (d : CensusDb) (disk : Disk d) (t : ReceiptTrees) (prover : Prover)
    (chain_id : ℕ) (json : Binding c) where
  -- What an accepted request was, and what it leaves.
  abbrev pub Accepted : (now : ℕ) (param body : Bytes) → Server c d → Sqlite → Type 0
  Accepted now param body srv s =
      (id : ℕ) × (v : VotePackage c.PublicKey) × (p : Process) × (id_param param ≡ ok id)
      × (json.bind_vote body ≡ ok v)
      × (read_process_by_id id s ≡ ok p)
      × (p.status ≡ process_status_on)
      × (verify c chain_id id p.census_root v ≡ ok tt)
      × (serve c d disk t prover chain_id json now (Request.post_vote param body) srv ≡ (
        record { status = 200; answer = Answer.nothing },
        record srv {
          database = some (record s { votepackages = s.votepackages ++ vote_row c now id v ∷ [] });
        },
      ))

  abbrev pub Refused : (now : ℕ) (param body : Bytes) → Server c d → Type 0
  Refused now param body srv =
      ((serve c d disk t prover chain_id json now (Request.post_vote param body) srv).0.status
        ≢ 200)
      × ((serve c d disk t prover chain_id json now (Request.post_vote param body) srv).1 ≡ srv)

  reply_path :
      (now : ℕ) (param body : Bytes) (srv : Server c d) (s : Sqlite)
      → srv.database ≡ some s
      → serve c d disk t prover chain_id json now (Request.post_vote param body) srv
        ≡ database_reply c d srv (handle_vote c t prover chain_id json now param body s)
  unfolding serve
  reply_path now param body srv s on =
      ap (with_database c d (handle_vote c t prover chain_id json now param body) srv) on

  -- What a handled vote has been.
  handle_vote-eq_ok :
      (now : ℕ) (param body : Bytes) (s : Sqlite) {a : Answer} {s' : Sqlite}
      → handle_vote c t prover chain_id json now param body s ≡ ok (a, s')
      → (id : ℕ) × (v : VotePackage c.PublicKey) × (id_param param ≡ ok id)
        × (json.bind_vote body ≡ ok v)
        × (add_vote c chain_id now id v s ≡ ok s')
        × (a ≡ Answer.nothing)
  unfolding handle_vote
  handle_vote-eq_ok now param body s {a} {s'} e =
      let (id, at_id, e₁) = bind_eq_ok (id_param param) _ e in
      let (v, bound, e₂) = bind_eq_ok (json.bind_vote body) _ e₁ in
      let (u, added, e₃) = bind_eq_ok (add_vote c chain_id now id v s) _ e₂ in
      let pair = ok_injective e₃ in
      (id, v, at_id, bound, added ∙ ap (λ x. ok x.1) pair, sym (ap (λ x. x.0) pair))

  vote_cases :
      (now : ℕ) (param body : Bytes) (srv : Server c d) (s : Sqlite)
      → srv.database ≡ some s
      → (r : Result (Answer × Sqlite)) → handle_vote c t prover chain_id json now param body s ≡ r
      → Accepted now param body srv s ⊎ Refused now param body srv
  vote_cases now param body srv s on (ok (a, s')) e =
      let (id, v, at_id, bound, added, shape) = handle_vote-eq_ok now param body s e in
      let (p, read, is_on, verified, stored) = add_vote-eq_ok c chain_id now id v s added in
      inl (
        id,
        v,
        p,
        at_id,
        bound,
        read,
        is_on,
        verified,
        reply_path now param body srv s on ∙ ap (database_reply c d srv) e ∙ (λ i.
            (record { status = 200; answer = shape i }, record srv { database = some (stored i) })),
      )
  vote_cases now param body srv s on (err x) e =
      let same = reply_path now param body srv s on ∙ ap (database_reply c d srv) e in
      inr (
        (λ ok200.
            let code : ◌≡◌ {A = ℕ} 400 200 = sym (ap (λ y. y.0.status) same) ∙ ok200 in
            omega arith),
        ap (λ y. y.1) same,
      )
  vote_cases now param body srv s on panic e =
      let same = reply_path now param body srv s on ∙ ap (database_reply c d srv) e in
      inr (
        (λ ok200.
            let code : ◌≡◌ {A = ℕ} 500 200 = sym (ap (λ y. y.0.status) same) ∙ ok200 in
            omega arith),
        ap (λ y. y.1) same,
      )

  -- A vote that is posted to a server with a votes aggregator is either accepted, which happens
  -- exactly with status 200: then its path names a stored process that is On, its body is a vote
  -- package that verifies for that process, and of the whole server only the row of the vote is
  -- new. Or it is refused: the status is not 200 and the server is as it was.
  pub post_vote_cases :
      (now : ℕ) (param body : Bytes) (srv : Server c d) (s : Sqlite)
      → srv.database ≡ some s
      → Accepted now param body srv s ⊎ Refused now param body srv
  post_vote_cases now param body srv s on =
      vote_cases now param body srv s on (handle_vote c t prover chain_id json now param body s)
        refl
