-- ===== src/VotesAggregator/Counting.antt =====
-- How an accepted vote changes what is counted.
use ovote_node.Base.{
  ℕ, ◌+◌, ◌*◌, ◌≡◌, refl, ap, ◌∙◌, ◌++◌, [], ◌∷◌, List, Bool, Option, none, some, ℤ, nat_abs, ok,
  ◌==◌, if◌then◌else◌, arith, select, set_bytes, set_bytes-big_bytes, bind_eq_ok,
}
use ovote_node.External.{Crypto}
use ovote_node.Types.VotePackage.{VotePackage}
use ovote_node.Db.Schema.{Sqlite, VoteRow}
use ovote_node.Db.VotePackages.{
  scan_vote, scan_votes, read_vote_packages_by_process_id, by_index, vote_row, weight_bytes,
}
use ovote_node.Db.Query.{insert_by, order_by}
use ovote_node.Db.VoteOrder.{scanned_lem}
use ovote_node.VotesAggregator.AddVote.{add_vote}
use ovote_node.VotesAggregator.Slots.{tally, vote_of, weight_of}
use ovote_node.VotesAggregator.Ballots.{add_vote-eq_ok}

module _ (c : Crypto) where
  open c use {PublicKey, bytes_to_big_int}

  row_value : VoteRow → ℕ
  row_value r = bytes_to_big_int r.vote * set_bytes r.weight

  row_tally : List VoteRow → ℕ
  unfolding row_value
  row_tally [] = 0
  row_tally (r ∷ rs) = row_value r + row_tally rs

  -- The order of the rows does not matter.
  row_tally-insert_by :
      (r : VoteRow) (rs : List VoteRow)
      → row_tally (insert_by by_index r rs) ≡ row_value r + row_tally rs
  unfolding row_tally insert_by
  row_tally-insert_by r [] = refl
  row_tally-insert_by r (q ∷ rs) = ground (arith, row_tally-insert_by r rs)

  row_tally-order_by : (rs : List VoteRow) → row_tally (order_by by_index rs) ≡ row_tally rs
  unfolding row_tally order_by
  row_tally-order_by [] = refl
  row_tally-order_by (r ∷ rs) =
      row_tally-insert_by r (order_by by_index rs)
      ∙ ap (λ n. row_value r + n) (row_tally-order_by rs)

  mine : ℕ → VoteRow → Bool
  mine q r = r.process_id == q

  row_tally-select :
      (q : ℕ) (rs : List VoteRow) (r : VoteRow)
      → row_tally (select (mine q) (rs ++ r ∷ []))
        ≡ row_tally (select (mine q) rs) + (if r.process_id == q then row_value r else 0)
  unfolding row_tally mine
  row_tally-select q [] r = ground arith
  row_tally-select q (p ∷ rs) r = ground (arith, row_tally-select q rs r)

  scan_vote-value :
      (r : VoteRow) {v : VotePackage PublicKey}
      → scan_vote c r ≡ ok v
      → vote_of c v * weight_of c v ≡ row_value r
  unfolding scan_vote row_value
  scan_vote-value r e = ground arith

  scan_votes-tally :
      (rs : List VoteRow) {vs : List (VotePackage PublicKey)}
      → scan_votes c rs ≡ ok vs
      → tally c vs ≡ row_tally rs
  unfolding scan_votes row_tally
  scan_votes-tally [] {vs} e = let same : [] ≡ vs = cc in rw (← same)
  scan_votes-tally (r ∷ rs) {vs} e =
      let (w, hw, e1) = bind_eq_ok (scan_vote c r) _ e in
      let (ws, hws, e2) = bind_eq_ok (scan_votes c rs) _ e1 in
      let same : w ∷ ws ≡ vs = cc in
      rw (← same) (omega (arith, scan_vote-value r hw, scan_votes-tally rs hws))

  read-tally :
      (q : ℕ) (s : Sqlite) {vs : List (VotePackage PublicKey)}
      → read_vote_packages_by_process_id c q s ≡ ok vs
      → tally c vs ≡ row_tally (select (mine q) s.votepackages)
  unfolding mine
  read-tally q s e =
      scan_votes-tally
        (order_by by_index (select (λ (r : VoteRow). r.process_id == q) s.votepackages))
        (scanned_lem c q s e)
      ∙ row_tally-order_by (select (λ (r : VoteRow). r.process_id == q) s.votepackages)

  -- What a package is worth: its vote times the magnitude of its weight, 0 if it has none.
  abbrev pub magnitude_of : Option ℤ → ℕ
  magnitude_of none = 0
  magnitude_of (some w) = nat_abs w

  abbrev pub worth : VotePackage PublicKey → ℕ
  worth v = bytes_to_big_int v.vote * magnitude_of v.census_proof.weight

  weight_bytes-magnitude : (w : Option ℤ) → set_bytes (weight_bytes w) ≡ magnitude_of w
  weight_bytes-magnitude none = set_bytes-big_bytes 0
  weight_bytes-magnitude (some w) = set_bytes-big_bytes (nat_abs w)

  vote_row-value :
      (now p : ℕ) (v : VotePackage PublicKey) → row_value (vote_row c now p v) ≡ worth v
  unfolding row_value
  vote_row-value now p v =
      ap (λ n. bytes_to_big_int v.vote * n) (weight_bytes-magnitude v.census_proof.weight)

  -- An accepted vote adds its worth to the tally of its process, and leaves the tally of every
  -- other process: the vote times the magnitude of the weight that was sent, and nothing at all
  -- where no weight was sent.
  pub add_vote-tally :
      (chain_id now p q : ℕ) (v : VotePackage PublicKey) (s : Sqlite) {s' : Sqlite}
      {vs vs' : List (VotePackage PublicKey)}
      → add_vote c chain_id now p v s ≡ ok s'
      → read_vote_packages_by_process_id c q s ≡ ok vs
      → read_vote_packages_by_process_id c q s' ≡ ok vs'
      → tally c vs' ≡ tally c vs + (if p == q then worth v else 0)
  add_vote-tally chain_id now p q v s {s'} e before later =
      let (_, _, _, _, final) = add_vote-eq_ok c chain_id now p v s e in
      let rows : s'.votepackages ≡ s.votepackages ++ vote_row c now p v ∷ [] =
        ap (λ (t : Sqlite). t.votepackages) final in
      read-tally q s' later
      ∙ ap (λ l. row_tally (select (mine q) l)) rows
      ∙ row_tally-select q s.votepackages (vote_row c now p v)
      ∙ ground (arith, read-tally q s before, vote_row-value now p v)
