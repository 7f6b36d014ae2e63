-- ===== src/Polls/Writes.antt =====
-- Every write to the tables is a sequence of steps of the polls, or is not seen in them.
use mathlib.Core.Quot
use ovote_node.Base.{ℕ, ◌≡◌, refl, ap, ◌∙◌, Bytes, some, ok}
use ovote_node.External.{Crypto}
use ovote_node.Types.VotePackage.{VotePackage}
use ovote_node.Db.Schema.{Sqlite}
use ovote_node.Db.Processes.{
  store_process, new_process, scan_process, froze_processes_by_current_block_num,
}
use ovote_node.Db.Proofs.{store_proof_id, add_proof_to_proof_id}
use ovote_node.Db.Meta.{init_meta, update_last_sync_block_num}
use ovote_node.Db.Writes.{
  store_proof_id-eq_ok, add_proof_to_proof_id-eq_ok, init_meta-eq_ok,
  update_last_sync_block_num-eq_ok,
}
use ovote_node.Db.Invariant.{IsValid}
use ovote_node.Db.Integrity.{
  store_process-IsValid, froze-IsValid, store_proof_id-IsValid, add_proof_to_proof_id-IsValid,
  init_meta-IsValid, update_last_sync_block_num-IsValid,
}
use ovote_node.Db.History.{Write, write, write-IsValid}
use ovote_node.VotesAggregator.AddVote.{add_vote}
use ovote_node.VotesAggregator.Ballots.{add_vote-eq_ok, add_vote-steps}
use ovote_node.Polls.Spec.{PollStep, PollSteps, PollSteps-trans, Bag}
use ovote_node.Polls.View.{
  poll_of, ballots_in, view, view-store_process, view-froze, view-vote, view-proofs, view-meta,
}

module _ (c : Crypto) (chain_id : ℕ) where
  -- The tables stay in order, and the polls take steps.
  pub record Refines (s s' : Sqlite) : Type 0 where
    pub keeps : IsValid s → IsValid s'
    pub steps : IsValid s → PollSteps c chain_id (view s) (view s')

  pub Refines-self : {s s' : Sqlite} → s' ≡ s → Refines s s'
  Refines-self same = record {
    keeps = λ v. rw same v;
    steps = λ v. PollSteps.unchanged (ap view same);
  }

  pub Refines-trans : {s t u : Sqlite} → Refines s t → Refines t u → Refines s u
  Refines-trans first last = record {
    keeps = λ v. last.keeps (first.keeps v);
    steps = λ v. PollSteps-trans c chain_id (first.steps v) (last.steps (first.keeps v));
  }

  -- One step of the polls.
  once :
      (s s' : Sqlite)
      → PollStep c chain_id (view s) (view s')
      → PollSteps c chain_id (view s) (view s')
  once s s' step = PollSteps.next (PollSteps.unchanged refl) step

  pub store_process-Refines :
      (now id : ℕ) (root : Bytes) (size block start window participation positive typ : ℕ)
      (s : Sqlite) {s' : Sqlite}
      → store_process now id root size block start window participation positive typ s ≡ ok s'
      → Refines s s'
  store_process-Refines now id root size block start window participation positive typ s {s'} e =
      let row = new_process now id root size block start window participation positive typ in
      record {
        keeps =
            store_process-IsValid now id root size block start window participation positive typ s
              e;
        steps = λ v.
            let (fresh, opened) =
              view-store_process now id root size block start window participation positive typ s v
                e in
            once s s' (PollStep.opened (scan_process row) fresh refl opened);
      }

  pub froze-Refines :
      (block : ℕ) (s : Sqlite) {s' : Sqlite}
      → froze_processes_by_current_block_num block s ≡ ok s'
      → Refines s s'
  froze-Refines block s {s'} e = record {
    keeps = froze-IsValid block s e;
    steps = λ v. once s s' (PollStep.froze block (view-froze block s e));
  }

  pub add_vote-Refines :
      (now id : ℕ) (v : VotePackage c.PublicKey) (s : Sqlite) {s' : Sqlite}
      → add_vote c chain_id now id v s ≡ ok s'
      → Refines s s'
  unfolding write
  add_vote-Refines now id v s {s'} e =
      let (p, read, on, verified, final) = add_vote-eq_ok c chain_id now id v s e in
      let (_, _, _, _, stored) = add_vote-steps c chain_id now id v s e in
      let ballots : Bag = Quot.mk (ballots_in id s.votepackages) in
      let there : view s id ≡ some (record { process = p; ballots = ballots }) =
        ap (λ r. poll_of r ballots) read in
      record {
        keeps = write-IsValid c (Write.vote now id v) s stored;
        steps = λ valid. once s s' (
            PollStep.voted id v (record { process = p; ballots = ballots }) there on verified
              (view-vote c chain_id now id v s final));
      }

  -- Writes of the proofs and of the meta row are not seen.
  pub store_proof_id-Refines :
      (now process_id proof_id : ℕ) (s : Sqlite) {s' : Sqlite}
      → store_proof_id now process_id proof_id s ≡ ok s'
      → Refines s s'
  store_proof_id-Refines now process_id proof_id s e =
      let (_, _, final) = store_proof_id-eq_ok now process_id proof_id s e in
      record {
        keeps = store_proof_id-IsValid now process_id proof_id s e;
        steps = λ v. PollSteps.unchanged (ap view final ∙ view-proofs s _);
      }

  pub add_proof-Refines :
      (now process_id proof_id : ℕ) (proof public_inputs : Bytes) (s : Sqlite) {s' : Sqlite}
      → add_proof_to_proof_id now process_id proof_id proof public_inputs s ≡ ok s'
      → Refines s s'
  add_proof-Refines now process_id proof_id proof public_inputs s e = record {
    keeps = add_proof_to_proof_id-IsValid now process_id proof_id proof public_inputs s e;
    steps = λ v. PollSteps.unchanged (
        ap view (add_proof_to_proof_id-eq_ok now process_id proof_id proof public_inputs s e)
        ∙ view-proofs s _);
  }

  pub init_meta-Refines :
      (now chain block : ℕ) (s : Sqlite) {s' : Sqlite}
      → init_meta now chain block s ≡ ok s'
      → Refines s s'
  init_meta-Refines now chain block s e = record {
    keeps = init_meta-IsValid now chain block s e;
    steps =
        λ v. PollSteps.unchanged (ap view (init_meta-eq_ok now chain block s e) ∙ view-meta s _ _);
  }

  pub update_block-Refines :
      (n : ℕ) (s : Sqlite) {s' : Sqlite} → update_last_sync_block_num n s ≡ ok s' → Refines s s'
  update_block-Refines n s e = record {
    keeps = update_last_sync_block_num-IsValid n s e;
    steps = λ v.
        PollSteps.unchanged
          (ap view (update_last_sync_block_num-eq_ok n s e) ∙ view-meta s _ s.meta_seq);
  }
