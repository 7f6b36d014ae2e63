-- ===== src/Polls/Closing.antt =====
-- Polls that are not On.
use mathlib.Core.Quot
use mathlib.Core.Option.{some-injective}
use ovote_node.Base.{
  ℕ, ◌≡◌, ◌≢◌, inl, inr, sym, ap, ◌∙◌, none, some, Result, ok, err, panic, ◌==◌, arith, Bool-cases,
}
use ovote_node.External.{Crypto}
use ovote_node.Types.Process.{Process, process_status_on}
use ovote_node.Types.ZkInputs.{ReceiptTrees}
use ovote_node.Db.Schema.{Sqlite}
use ovote_node.Db.Processes.{read_process_by_id}
use ovote_node.Db.Freezing.{frozen_at}
use ovote_node.Db.Invariant.{IsValid}
use ovote_node.Eth.Events.{Geth}
use ovote_node.Polls.Spec.{
  Bag, Ballot, Poll, Polls, PollStep, PollSteps, open_poll, cast, frozen_poll,
}
use ovote_node.Polls.View.{ballots_in, poll_of}
use ovote_node.Polls.Steps.{NodeSteps}
use ovote_node.Polls.Refinement.{NodeSteps-kept}

open_poll-other :
    (p : Process) (polls : Polls) (id : ℕ) {poll : Poll}
    → polls p.id ≡ none
    → polls id ≡ some poll
    → open_poll p polls id ≡ some poll
open_poll-other p polls id fresh there = elim (Bool-cases (id == p.id)) [
  | inl same ↦
      let own : id ≡ p.id = ground arith in
      let both : polls id ≡ none = ap polls own ∙ fresh in absurd cc
  | inr other ↦ rw other there
]

cast-other :
    (id j : ℕ) (b : Ballot) (polls : Polls) {taking poll : Poll}
    → polls j ≡ some taking
    → taking.process.status ≡ process_status_on
    → polls id ≡ some poll
    → poll.process.status ≢ process_status_on
    → cast j b polls id ≡ some poll
cast-other id j b polls {taking} {poll} takes on there closed = elim (Bool-cases (id == j)) [
  | inl same ↦
      let own : id ≡ j = ground arith in
      let both : some taking ≡ some poll = sym takes ∙ ap polls (sym own) ∙ there in
      let one : taking ≡ poll = cc in absurd (closed (ap (λ x. x.process.status) (sym one) ∙ on))
  | inr other ↦ rw other there
]

frozen_at-closed : (block : ℕ) (p : Process) → p.status ≢ process_status_on → frozen_at block p ≡ p
frozen_at-closed block p closed = ground arith

module _ (c : Crypto) (chain_id : ℕ) where
  PollStep-closed :
      (id : ℕ) {polls after : Polls} {poll : Poll}
      → polls id ≡ some poll
      → poll.process.status ≢ process_status_on
      → PollStep c chain_id polls after
      → after id ≡ some poll
  PollStep-closed id {polls} there closed (PollStep.opened p fresh on final) =
      ap (λ a. a id) final ∙ open_poll-other p polls id fresh there
  PollStep-closed id {polls} there closed (PollStep.voted j v taking takes on verified final) =
      ap (λ a. a id) final ∙ cast-other id j _ polls takes on there closed
  PollStep-closed id {polls} {poll = poll} there closed (PollStep.froze block final) =
      ap (λ a. a id) final
      ∙ ap (frozen_poll block) there
      ∙ ap (λ p. some (record poll { process = p })) (frozen_at-closed block poll.process closed)

  PollSteps-closed :
      (id : ℕ) {polls after : Polls} {poll : Poll}
      → polls id ≡ some poll
      → poll.process.status ≢ process_status_on
      → PollSteps c chain_id polls after
      → after id ≡ some poll
  PollSteps-closed id there closed (PollSteps.unchanged same) = ap (λ a. a id) same ∙ there
  PollSteps-closed id there closed (PollSteps.next steps last) =
      PollStep-closed id (PollSteps-closed id there closed steps) closed last

  poll_of-injective :
      (r : Result Process) (ballots : Bag) {poll : Poll}
      → poll_of r ballots ≡ some poll
      → (r ≡ ok poll.process) × (ballots ≡ poll.ballots)
  poll_of-injective (ok p) ballots e =
      let same = some-injective _ _ e in
      (ap (λ (q : Poll). ok q.process) same, ap (λ (q : Poll). q.ballots) same)
  poll_of-injective (err e) ballots h = absurd cc
  poll_of-injective panic ballots h = absurd cc

module _ (c : Crypto) (g : Geth) (t : ReceiptTrees) (chain_id : ℕ) where
  -- A process that is not On any more reads as it does, and has the ballots that it has, whatever
  -- the node does afterwards, restarts and synchronisations included.
  pub NodeSteps-closed :
      (id : ℕ) (p : Process) {s s' : Sqlite}
      → IsValid s
      → read_process_by_id id s ≡ ok p
      → p.status ≢ process_status_on
      → NodeSteps c g t chain_id s s'
      → (read_process_by_id id s' ≡ ok p)
        × (◌≡◌ {A = Bag}
            (Quot.mk (ballots_in id s'.votepackages))
            (Quot.mk (ballots_in id s.votepackages)))
  NodeSteps-closed id p {s} {s'} valid read closed steps =
      let ballots : Bag = Quot.mk (ballots_in id s.votepackages) in
      poll_of-injective c chain_id (read_process_by_id id s')
        (Quot.mk (ballots_in id s'.votepackages))
        (PollSteps-closed c chain_id id {poll = record { process = p; ballots = ballots }}
          (ap (λ r. poll_of r ballots) read) closed (NodeSteps-kept c g t chain_id valid steps).1)
