-- ===== src/VotesAggregator/Untouched.antt =====
-- votesaggregator/votesaggregator.go: what the loop over the votes leaves in the circuit's inputs.
use ovote_node.Base.{ℕ, suc, ◌≡◌, ap, ◌∙◌, arith, [], ◌∷◌, List, ok, bind_eq_ok}
use ovote_node.External.{Crypto}
use ovote_node.Types.VotePackage.{VotePackage}
use ovote_node.Types.ZkInputs.{ZkInputs}
use ovote_node.VotesAggregator.ZkInputs.{Fill, fill_vote, fill_votes}

-- The fields that no vote writes.
pub record Untouched (z z' : ZkInputs) : Type 0 where
  pub levels : z'.n_levels ≡ z.n_levels
  pub chain : z'.chain_id ≡ z.chain_id
  pub process : z'.process_id ≡ z.process_id
  pub root : z'.census_root ≡ z.census_root
  pub receipts : z'.receipts_siblings ≡ z.receipts_siblings

module _ (c : Crypto) where
  fill_vote-Untouched :
      (n_levels i : ℕ) (v : VotePackage c.PublicKey) (f : Fill) {f' : Fill}
      → fill_vote c n_levels i v f ≡ ok f'
      → Untouched f.z f'.z
  unfolding fill_vote
  fill_vote-Untouched n_levels i v f e = record {
    levels = ground arith;
    chain = ground arith;
    process = ground arith;
    root = ground arith;
    receipts = ground arith;
  }

  pub fill_votes-Untouched :
      (n_levels i : ℕ) (vs : List (VotePackage c.PublicKey)) (f : Fill) {f' : Fill}
      → fill_votes c n_levels i vs f ≡ ok f'
      → Untouched f.z f'.z
  unfolding fill_votes
  fill_votes-Untouched n_levels i [] f {f'} e =
      let same : f'.z ≡ f.z = cc in
      record {
        levels = ap (λ (z : ZkInputs). z.n_levels) same;
        chain = ap (λ (z : ZkInputs). z.chain_id) same;
        process = ap (λ (z : ZkInputs). z.process_id) same;
        root = ap (λ (z : ZkInputs). z.census_root) same;
        receipts = ap (λ (z : ZkInputs). z.receipts_siblings) same;
      }
  fill_votes-Untouched n_levels i (v ∷ vs) f e =
      let (g, e1, e2) = bind_eq_ok (fill_vote c n_levels i v f) _ e in
      let one = fill_vote-Untouched n_levels i v f e1 in
      let rest = fill_votes-Untouched n_levels (suc i) vs g e2 in
      record {
        levels = rest.levels ∙ one.levels;
        chain = rest.chain ∙ one.chain;
        process = rest.process ∙ one.process;
        root = rest.root ∙ one.root;
        receipts = rest.receipts ∙ one.receipts;
      }
