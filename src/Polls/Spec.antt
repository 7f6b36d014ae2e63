-- ===== src/Polls/Spec.antt =====
-- What the node promises of its polls, without tables. A poll forgets the order of its ballots, and
-- of a ballot all but its voter, its choice and its weight.
use mathlib.Core.Quot
use mathlib.Core.Quot.{Quot, Quot-set}
use mathlib.Core.List.{Perm}
use mathlib.Core.List.Perm
use ovote_node.Base.{
  ℕ, ◌≡◌, [], ◌∷◌, Bytes, Option, none, some, ℤ, ok, ◌==◌, if◌then◌else◌, nat_abs,
}
use ovote_node.External.{Crypto}
use ovote_node.Types.Process.{Process, process_status_on}
use ovote_node.Types.VotePackage.{VotePackage}
use ovote_node.Types.Encoding.{verify}
use ovote_node.Db.Freezing.{frozen_at}

pub record Ballot : Type 0 where
  pub voter : Bytes
  pub choice : Bytes
  pub weight : ℕ

-- Ballots without an order.
abbrev pub Bag : Type 0
Bag = Quot (Perm {A = Ballot})

abbrev pub put : Ballot → Bag → Bag
put b = Quot.lift Quot-set (λ bs. Quot.mk (b ∷ bs)) (λ xs ys p. Quot.sound (Perm.cons b p))

pub record Poll : Type 0 where
  pub process : Process
  pub ballots : Bag

-- The polls by id.
abbrev pub Polls : Type 0
Polls = ℕ → Option Poll

abbrev pub no_polls : Polls
no_polls id = none

abbrev pub open_poll : Process → Polls → Polls
open_poll p polls id =
    if id == p.id then some (record { process = p; ballots = Quot.mk [] }) else polls id

abbrev pub with_ballot : Ballot → Option Poll → Option Poll
with_ballot b none = none
with_ballot b (some poll) = some (record poll { ballots = put b poll.ballots })

abbrev pub cast : ℕ → Ballot → Polls → Polls
cast id b polls j = if j == id then with_ballot b (polls j) else polls j

abbrev pub frozen_poll : ℕ → Option Poll → Option Poll
frozen_poll block none = none
frozen_poll block (some poll) = some (record poll { process = frozen_at block poll.process })

abbrev pub freeze : ℕ → Polls → Polls
freeze block polls id = frozen_poll block (polls id)

-- A weight that was left out counts 0.
abbrev pub weight_of : Option ℤ → ℕ
weight_of none = 0
weight_of (some w) = nat_abs w

module _ (c : Crypto) (chain_id : ℕ) where
  abbrev pub ballot_of : VotePackage c.PublicKey → Ballot
  ballot_of v = record {
    voter = c.compress v.census_proof.public_key;
    choice = v.vote;
    weight = weight_of v.census_proof.weight;
  }

  -- What may happen to the polls: a new one opens, a poll that is On takes a ballot whose signature
  -- and census proof verify for it, or those that have reached a block freeze.
  pub data PollStep (polls : Polls) : Polls → Type 0 where
    opened :
        (p : Process) {after : Polls}
        → polls p.id ≡ none
        → p.status ≡ process_status_on
        → after ≡ open_poll p polls
        → PollStep polls after
    voted :
        (id : ℕ) (v : VotePackage c.PublicKey) (poll : Poll) {after : Polls}
        → polls id ≡ some poll
        → poll.process.status ≡ process_status_on
        → verify c chain_id id poll.process.census_root v ≡ ok tt
        → after ≡ cast id (ballot_of v) polls
        → PollStep polls after
    froze : (block : ℕ) {after : Polls} → after ≡ freeze block polls → PollStep polls after

  -- Any number of these steps.
  pub data PollSteps (polls : Polls) : Polls → Type 0 where
    unchanged : {after : Polls} → after ≡ polls → PollSteps polls after
    next :
        {middle after : Polls}
        → PollSteps polls middle
        → PollStep middle after
        → PollSteps polls after

  pub PollSteps-trans : {a b d : Polls} → PollSteps a b → PollSteps b d → PollSteps a d
  PollSteps-trans first (unchanged same) = rw same first
  PollSteps-trans first (next steps last) = next (PollSteps-trans first steps) last
