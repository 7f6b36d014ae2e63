-- ===== src/ProverServer/Delivery.antt =====
-- The aggregator's GetProof over the prover's client, when the prover's server answers.
use mathlib.Core.Option
use ovote_node.Base.{
  Result, ℕ, ◌<◌, ◌≡◌, ◌⊎◌, inl, inr, Bytes, Option, none, some, true, ok, refl, sym, ◌∙◌, ap,
  two63, int64-small, bind_eq_ok, subst, ok_injective,
}
use ovote_node.External.{Crypto}
use ovote_node.Types.Process.{ProofInDb}
use ovote_node.Types.ZkInputs.{ReceiptTrees}
use ovote_node.Db.Schema.{Sqlite}
use ovote_node.Db.Proofs.{get_proof_by_process_id, add_proof_to_proof_id}
use ovote_node.VotesAggregator.Proofs.{is_missing, get_proof, fetch_proof}
use ovote_node.Prover.Client.{
  Http, Reply, ProofPath, client, body_of, client_request_proof, client_get_proof,
  client_request_public_inputs,
}
use ovote_node.ProverServer.System.{Shared, Tools, System, Reach, read_file}
use ovote_node.ProverServer.Downloads.{file_reply, send_proof, send_public_inputs}
use ovote_node.ProverServer.Provenance.{Made, proofs-Made}

-- HTTP to a server that is in one state at the first request and in another at the second.
abbrev answer : (not_found : Bytes) (first second : Shared) → ProofPath → Result Reply
answer not_found first second (ProofPath.proof_path id) = ok (send_proof not_found id first)
answer not_found first second (ProofPath.public_path id) =
    ok (send_public_inputs not_found id second)

abbrev pub served : (other : Http) (not_found : Bytes) (first second : Shared) → Http
served other not_found first second = record other { get = answer not_found first second }

-- What the client takes from a download: the page, or the file.
body_of-file_reply :
    (http : Http) (not_found : Bytes) (part : Bytes × Bytes → Bytes)
    (found : Option (Bytes × Bytes)) {text : Bytes}
    → body_of http (file_reply not_found (Option.map part found)) ≡ ok text
    → ((found ≡ none) × (text ≡ not_found))
      ⊎ ((files : Bytes × Bytes) × (found ≡ some files) × (text ≡ part files))
body_of-file_reply http not_found part none e = inl (refl, sym (ok_injective e))
body_of-file_reply http not_found part (some files) e = inr (files, refl, sym (ok_injective e))

module _ (tools : Tools) (not_found : Bytes) where
  -- A text that a download gives: the page for a missing file, or one of the two files that the
  -- commands made of the inputs of the same id.
  abbrev pub IsDelivery : (Bytes × Bytes → Bytes) → ℕ → Shared → Bytes → Type 0
  IsDelivery part id a text =
      ((read_file id a.proofs ≡ none) × (text ≡ not_found))
      ⊎ ((files : Bytes × Bytes) × Made tools a.inputs (id, files) × (text ≡ part files))

  delivers :
      (http : Http) (part : Bytes × Bytes → Bytes) (id : ℕ) {s : System} {text : Bytes}
      → Reach tools s
      → body_of http (file_reply not_found (Option.map part (read_file id s.shared.proofs)))
        ≡ ok text
      → IsDelivery part id s.shared text
  delivers http part id {s} r e =
      elim (body_of-file_reply http not_found part (read_file id s.shared.proofs) e) [
        | inl (missing, page) ↦ inl (missing, page)
        | inr (files, there, same) ↦ inr (files, proofs-Made tools id r there, same)
      ]

  client-delivers :
      (other : Http) (id : ℕ) {s₁ s₂ : System} {texts : Bytes × Bytes}
      → Reach tools s₁
      → Reach tools s₂
      → id < two63
      → client_get_proof (served other not_found s₁.shared s₂.shared) id ≡ ok texts
      → IsDelivery (λ files. files.0) id s₁.shared texts.0
        × IsDelivery (λ files. files.1) id s₂.shared texts.1
  unfolding client_get_proof client_request_proof client_request_public_inputs send_proof
      send_public_inputs
  client-delivers other id {s₁} {s₂} {texts} r₁ r₂ small e =
      let http = served other not_found s₁.shared s₂.shared in
      let (first, got₁, e₁) = bind_eq_ok (client_request_proof http id) _ e in
      let (second, got₂, e₂) = bind_eq_ok (client_request_public_inputs http id) _ e₁ in
      let same : (first, second) ≡ texts = ok_injective e₂ in
      let one =
        delivers http (λ files. files.0) id r₁
          (subst (λ z. body_of http (send_proof not_found z s₁.shared) ≡ ok first)
            (int64-small id small) got₁) in
      let two =
        delivers http (λ files. files.1) id r₂
          (subst (λ z. body_of http (send_public_inputs not_found z s₂.shared) ≡ ok second)
            (int64-small id small) got₂) in
      subst
        (λ t.
          IsDelivery (λ files. files.0) id s₁.shared t.0
          × IsDelivery (λ files. files.1) id s₂.shared t.1)
        same (one, two)

  -- When the aggregator's GetProof succeeds for a process that has a proof id without a proof, while
  -- the prover's server answers its two requests in two states that it has come to, then the two
  -- texts that it returns are what it stores, and each of them is the page for a missing file, with
  -- no such file on the server, or the file that the prover's commands made of a body that was
  -- posted to the server and stored under this very id.
  pub get_proof-IsDelivery :
      (c : Crypto) (t : ReceiptTrees) (other : Http) (chain_id now process_id : ℕ) (db : Sqlite)
      {s₁ s₂ : System} {p q : ProofInDb} {db' : Sqlite}
      → Reach tools s₁
      → Reach tools s₂
      → get_proof_by_process_id process_id db ≡ ok p
      → p.proof_id < two63
      → is_missing c t (client (served other not_found s₁.shared s₂.shared)) chain_id p ≡ true
      → get_proof c t
          (client (served other not_found s₁.shared s₂.shared))
          chain_id
          now
          process_id
          db
        ≡ ok (q, db')
      → (add_proof_to_proof_id now process_id p.proof_id q.proof q.public_inputs db ≡ ok db')
        × IsDelivery (λ files. files.0) p.proof_id s₁.shared q.proof
        × IsDelivery (λ files. files.1) p.proof_id s₂.shared q.public_inputs
  unfolding get_proof fetch_proof client
  get_proof-IsDelivery c t other chain_id now process_id db {s₁} {s₂} {p} {q} {db'} r₁ r₂ row small
        missing e =
      let http = served other not_found s₁.shared s₂.shared in
      let e₁ = rw row at e in
      let e₂ : fetch_proof c t (client http) chain_id now process_id p db ≡ ok (q, db') =
        rw missing at e₁ in
      let (texts, asked, e₃) = bind_eq_ok (client_get_proof http p.proof_id) _ e₂ in
      let (after, stored, e₄) =
        bind_eq_ok (add_proof_to_proof_id now process_id p.proof_id texts.0 texts.1 db) _ e₃ in
      let filled : record p { proof = texts.0; public_inputs = texts.1 } ≡ q =
        ap (λ x. x.0) (ok_injective e₄) in
      let last : after ≡ db' = ap (λ x. x.1) (ok_injective e₄) in
      let (one, two) = client-delivers other p.proof_id r₁ r₂ small asked in
      subst
        (λ (x : ProofInDb).
          (add_proof_to_proof_id now process_id p.proof_id x.proof x.public_inputs db ≡ ok db')
          × IsDelivery (λ files. files.0) p.proof_id s₁.shared x.proof
          × IsDelivery (λ files. files.1) p.proof_id s₂.shared x.public_inputs)
        filled (stored ∙ ap ok last, one, two)
