-- ===== src/Api/MerkleProofs.antt =====
-- api/api.go: getMerkleProofHandler together with the check of a vote's Merkle proof.
use ovote_node.Base.{
  ℕ, ◌≡◌, List, refl, sym, ap, ◌∙◌, Bytes, some, pos, ok, err, panic, ok_injective, arith,
}
use ovote_node.External.{Crypto}
use ovote_node.Types.VotePackage.{VotePackage}
use ovote_node.Types.Encoding.{verify_merkle_proof}
use ovote_node.Types.Hex.{hex_to_public_key}
use ovote_node.Types.ZkInputs.{ReceiptTrees}
use ovote_node.VotesAggregator.Proofs.{Prover}
use ovote_node.Census.Store.{CensusDb, IsCensusDb}
use ovote_node.Census.Operations.{root}
use ovote_node.Census.Membership.{get_proof-checks}
use ovote_node.CensusBuilder.Operations.{
  Disk, Builder, Outcome, lookup, call, census_root, builder_get_proof,
}
use ovote_node.CensusBuilder.Directory.{and_then-eq_ok}
use ovote_node.CensusBuilder.Creation.{call-eq_ok}
use ovote_node.CensusBuilder.Loading.{root_then_proof}
use ovote_node.Api.Atoi.{id_param}
use ovote_node.Api.Handlers.{Binding, Server, Request, Answer, Job, handle_get_merkle_proof}
use ovote_node.Api.Routes.{serve, builder_reply, with_builder}

module _ (c : Crypto) (d : CensusDb) (disk : Disk d) (json : Binding c)
    (laws : IsCensusDb c d) where
  open d use {State}

  -- A vote package of a voter with a given census proof.
  abbrev pub package_of :
      (signature vote : Bytes) → ℕ → c.PublicKey → ℕ → Bytes → VotePackage c.PublicKey
  package_of signature vote i k w siblings = record {
    signature = signature;
    census_proof = record {
      index = i;
      public_key = k;
      weight = some (pos w);
      merkle_proof = siblings;
    };
    vote = vote;
  }

  -- The key that the text names has a proof for the root of a census of the builder.
  abbrev pub Verifies :
      (signature vote key_text : Bytes) (i : ℕ) (siblings : Bytes) → ℕ → Builder d → Type 0
  Verifies signature vote key_text i siblings id b =
      (k : c.PublicKey) × (s : State) × (r : Bytes) × (w : ℕ) × (hex_to_public_key c key_text
        ≡ ok k)
      × (lookup d id b.sub_dbs ≡ some s)
      × (root c d s ≡ ok r)
      × (verify_merkle_proof c r (package_of signature vote i k w siblings) ≡ ok tt)

  handler-Verifies :
      (signature vote param key_text : Bytes) (b : Builder d) {b' : Builder d} {i : ℕ}
      {siblings : Bytes} {jobs : List (Job c)}
      → handle_get_merkle_proof c d disk json param key_text b
        ≡ (b', ok (Answer.merkle_proof i siblings, jobs))
      → (id : ℕ) × (id_param param ≡ ok id) × Verifies signature vote key_text i siblings id b'
  unfolding handle_get_merkle_proof
  handler-Verifies signature vote param key_text b {b'} {i} {siblings} {jobs} e =
      let (b₁, id, called, e₁) = and_then-eq_ok d (call d (id_param param) b) _ e in
      let (b₂, k, called', e₂) = and_then-eq_ok d (call d (hex_to_public_key c key_text) b₁) _ e₁ in
      let (b₃, r, rooted, e₃) = and_then-eq_ok d (census_root c d disk id b₂) _ e₂ in
      let (b₄, (j, proof), proved, e₄) =
        and_then-eq_ok d (builder_get_proof c d disk id k b₃) _ e₃ in
      let (s, found, at_root, from_db) = root_then_proof c d disk id k b₂ rooted proved in
      let answer : Answer.merkle_proof j proof ≡ Answer.merkle_proof i siblings =
        ap (λ x. x.0) (ok_injective (ap (λ o. o.1) e₄)) in
      let same : (j, proof) ≡ (i, siblings) = cc in
      let (w, checks, verified) =
        get_proof-checks c d laws k s signature vote (from_db ∙ ap ok same) at_root in
      (
        id,
        (call-eq_ok d (id_param param) b called).1,
        (
          k,
          s,
          r,
          w,
          (call-eq_ok d (hex_to_public_key c key_text) b₁ called').1,
          ap (λ o. lookup d id o.0.sub_dbs) (sym e₄) ∙ found,
          at_root,
          verified,
        ),
      )

module _ (c : Crypto) (d : CensusDb) (disk : Disk d) (t : ReceiptTrees) (prover : Prover)
    (chain_id : ℕ) (json : Binding c) (laws : IsCensusDb c d) where
  reply-Verifies :
      (signature vote param key_text : Bytes) (srv : Server c d) (b : Builder d) {i : ℕ}
      {siblings : Bytes} {srv' : Server c d} (o : Outcome d (Answer × List (Job c)))
      → handle_get_merkle_proof c d disk json param key_text b ≡ o
      → builder_reply c d srv o
        ≡ (record { status = 200; answer = Answer.merkle_proof i siblings }, srv')
      → (id : ℕ) × (b' : Builder d) × (id_param param ≡ ok id)
        × (srv'.builder ≡ some b')
        × Verifies c d disk json laws signature vote key_text i siblings id b'
  reply-Verifies signature vote param key_text srv b {i} {siblings} (b', ok (a, jobs)) e replied =
      let shape : a ≡ Answer.merkle_proof i siblings = ap (λ x. x.0.answer) replied in
      let (id, at_id, verifies) =
        handler-Verifies c d disk json laws signature vote param key_text b
          (e ∙ ap (λ (x : Answer). (b', ok (x, jobs))) shape) in
      (id, b', at_id, ap (λ x. x.1.builder) (sym replied), verifies)
  reply-Verifies signature vote param key_text srv b (b', err x) e replied =
      let code : ◌≡◌ {A = ℕ} 400 200 = ap (λ y. y.0.status) replied in absurd (omega arith)
  reply-Verifies signature vote param key_text srv b (b', panic) e replied =
      let code : ◌≡◌ {A = ℕ} 500 200 = ap (λ y. y.0.status) replied in absurd (omega arith)

  -- When the server answers a request for a Merkle proof with an index and siblings, the id of the
  -- path names a census of the builder that has a root, and there is a weight with which a vote
  -- package of the key of the path, with that index and those siblings, passes the Merkle proof
  -- check for that root, whatever its signature and vote.
  pub get_merkle_proof-Verifies :
      (signature vote param key_text : Bytes) (now : ℕ) (srv : Server c d) (b : Builder d) {i : ℕ}
      {siblings : Bytes} {srv' : Server c d}
      → srv.builder ≡ some b
      → serve c d disk t prover chain_id json now (Request.get_merkle_proof param key_text) srv
        ≡ (record { status = 200; answer = Answer.merkle_proof i siblings }, srv')
      → (id : ℕ) × (b' : Builder d) × (id_param param ≡ ok id)
        × (srv'.builder ≡ some b')
        × Verifies c d disk json laws signature vote key_text i siblings id b'
  unfolding serve
  get_merkle_proof-Verifies signature vote param key_text now srv b on replied =
      reply-Verifies signature vote param key_text srv b
        (handle_get_merkle_proof c d disk json param key_text b) refl
        (sym (ap (with_builder c d (handle_get_merkle_proof c d disk json param key_text) srv) on)
          ∙ replied)
