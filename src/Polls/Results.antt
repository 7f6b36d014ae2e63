-- ===== src/Polls/Results.antt =====
-- The result that is proved, as a function of a poll.
use mathlib.Core.Quot
use mathlib.Core.Quot.{Quot}
use mathlib.Core.List.{foldr}
use mathlib.Core.List.Perm
use native.Mathlib.Nat.{ℕ_set}
use ovote_node.Base.{
  ℕ, ◌+◌, ◌*◌, ◌≡◌, ◌≢◌, refl, sym, ap, ◌∙◌, [], ◌∷◌, List, map, pos, ok, ◌==◌, length, arith,
  select, bind_eq_ok,
}
use ovote_node.External.{Crypto}
use ovote_node.Types.Process.{Process, process_status_on}
use ovote_node.Types.VotePackage.{VotePackage}
use ovote_node.Types.ZkInputs.{ZkInputs, ReceiptTrees}
use ovote_node.Db.Schema.{Sqlite, VoteRow}
use ovote_node.Db.Processes.{read_process_by_id}
use ovote_node.Db.VotePackages.{scan_vote, scan_votes, by_index}
use ovote_node.Db.Query.{order_by, order_by-perm}
use ovote_node.Db.VoteOrder.{scanned_lem}
use ovote_node.Db.Invariant.{IsValid}
use ovote_node.Eth.Events.{Geth}
use ovote_node.VotesAggregator.ZkInputs.{generate_zk_inputs}
use ovote_node.VotesAggregator.Slots.{tally, vote_of, weight_of}
use ovote_node.VotesAggregator.Result.{generate_zk_inputs-Represents}
use ovote_node.Polls.Spec.{Ballot, Bag}
use ovote_node.Polls.View.{row_ballot, ballots_in}
use ovote_node.Polls.Steps.{NodeSteps}
use ovote_node.Polls.Closing.{NodeSteps-closed}

abbrev add_one : Ballot → ℕ → ℕ
add_one b n = 1 + n

-- The number of ballots.
abbrev pub turnout : Bag → ℕ
turnout =
    Quot.lift ℕ_set (foldr add_one 0) (λ xs ys p. Perm.foldr-eq ℕ_set add_one (λ a b n. refl) p 0)

module _ (c : Crypto) where
  open c use {bytes_to_big_int}

  abbrev add_value : Ballot → ℕ → ℕ
  add_value b n = bytes_to_big_int b.choice * b.weight + n

  -- The weight in favour.
  abbrev pub in_favour : Bag → ℕ
  in_favour =
      Quot.lift ℕ_set (foldr add_value 0)
        (λ xs ys p. Perm.foldr-eq ℕ_set add_value (λ a b n. omega arith) p 0)

  scan_vote-value :
      (r : VoteRow) {v : VotePackage c.PublicKey} (n : ℕ)
      → scan_vote c r ≡ ok v
      → vote_of c v * weight_of c v + n ≡ add_value (row_ballot r) n
  unfolding scan_vote
  scan_vote-value r n e = ground arith

  scan_votes-totals :
      (rs : List VoteRow) {vs : List (VotePackage c.PublicKey)}
      → scan_votes c rs ≡ ok vs
      → (tally c vs ≡ foldr add_value 0 (map row_ballot rs))
        × (length vs ≡ foldr add_one 0 (map row_ballot rs))
  unfolding scan_votes
  scan_votes-totals [] {vs} e = let same : [] ≡ vs = cc in rw (← same) (refl, refl)
  scan_votes-totals (r ∷ rs) {vs} e =
      let (w, hw, e₁) = bind_eq_ok (scan_vote c r) _ e in
      let (ws, hws, e₂) = bind_eq_ok (scan_votes c rs) _ e₁ in
      let same : w ∷ ws ≡ vs = cc in
      let (sum, number) = scan_votes-totals rs hws in
      rw (← same) (
        scan_vote-value r (tally c ws) hw ∙ ap (add_value (row_ballot r)) sum,
        omega (arith, number),
      )

  -- When the inputs of a process are generated, their Result is the weight in favour in its poll
  -- and their NVotes the number of its ballots, in whatever order these were stored.
  pub generate_zk_inputs-totals :
      (t : ReceiptTrees) (chain_id id n n_levels : ℕ) (s : Sqlite) {z : ZkInputs}
      → generate_zk_inputs c t chain_id id n n_levels s ≡ ok z
      → (z.result ≡ pos (in_favour (Quot.mk (ballots_in id s.votepackages))))
        × (z.n_votes ≡ turnout (Quot.mk (ballots_in id s.votepackages)))
  generate_zk_inputs-totals t chain_id id n n_levels s e =
      let (vs, read, means, _, _, _, _) =
        generate_zk_inputs-Represents c t chain_id id n n_levels s e in
      let rows = select (λ (r : VoteRow). r.process_id == id) s.votepackages in
      let (sum, number) = scan_votes-totals (order_by by_index rows) (scanned_lem c id s read) in
      let same : ◌≡◌ {A = Bag} (Quot.mk (map row_ballot (order_by by_index rows)))
          (Quot.mk (map row_ballot rows)) =
        Quot.sound (Perm.map row_ballot (order_by-perm by_index rows)) in
      (means.result ∙ ap pos (sum ∙ ap in_favour same), means.n_votes ∙ number ∙ ap turnout same)

module _ (c : Crypto) (g : Geth) (t : ReceiptTrees) (chain_id : ℕ) where
  -- The result of a process that is not On any more is settled: whatever the node does, restarts
  -- and synchronisations included, the inputs that are generated later have the same Result and
  -- the same NVotes as those that are generated now, for circuits of any size.
  pub result_is_settled :
      (id n n' n_levels n_levels' : ℕ) (p : Process) {s s' : Sqlite} {z z' : ZkInputs}
      → IsValid s
      → read_process_by_id id s ≡ ok p
      → p.status ≢ process_status_on
      → NodeSteps c g t chain_id s s'
      → generate_zk_inputs c t chain_id id n n_levels s ≡ ok z
      → generate_zk_inputs c t chain_id id n' n_levels' s' ≡ ok z'
      → (z'.result ≡ z.result) × (z'.n_votes ≡ z.n_votes)
  result_is_settled id n n' n_levels n_levels' p {s} {s'} valid read closed steps now later =
      let (_, same) = NodeSteps-closed c g t chain_id id p valid read closed steps in
      let (sum, number) = generate_zk_inputs-totals c t chain_id id n n_levels s now in
      let (sum', number') = generate_zk_inputs-totals c t chain_id id n' n_levels' s' later in
      (sum' ∙ ap (λ b. pos (in_favour c b)) same ∙ sym sum, number' ∙ ap turnout same ∙ sym number)
