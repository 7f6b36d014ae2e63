-- ===== src/Db/VoteOrder.antt =====
-- ReadVotePackagesByProcessID: which rows it returns, and in which order.
use mathlib.Core.List.{Perm}
use ovote_node.Base.{
  All-map, ℕ, ◌<◌, ◌≡◌, ◌≢◌, [], ◌∷◌, List, map, Bool, false, ◌==◌, ok, any, All, arith, select,
  inl, inr, Bool-cases, bind_eq_ok,
}
use ovote_node.External.{Crypto}
use ovote_node.Types.VotePackage.{VotePackage}
use ovote_node.Db.Schema.{Sqlite, VoteRow}
use ovote_node.Db.VotePackages.{
  collides, by_index, scan_vote, scan_votes, read_vote_packages_by_process_id,
}
use ovote_node.Db.Query.{insert_by, order_by, order_by-perm}
use ovote_node.Db.Invariant.{IsValid, Distinct}

-- Each number is less than all that follow.
abbrev pub Increasing : List ℕ → Type 0
Increasing [] = Unit
Increasing (x ∷ xs) = All (λ y. x < y) xs × Increasing xs

abbrev Sorted : List VoteRow → Type 0
Sorted [] = Unit
Sorted (r ∷ rs) = All (λ (q : VoteRow). r.indx < q.indx) rs × Sorted rs

abbrev OtherIndex : VoteRow → VoteRow → Type 0
OtherIndex r q = q.indx ≢ r.indx

All-insert_by :
    (P : VoteRow → Type 0) (r : VoteRow) (rs : List VoteRow)
    → P r
    → All P rs
    → All P (insert_by by_index r rs)
unfolding insert_by
All-insert_by P r [] h t = (h, tt)
All-insert_by P r (q ∷ rs) h (hq, t) = elim (Bool-cases (by_index r q)) [
  | inl e ↦ rw e (h, (hq, t))
  | inr e ↦ rw e (hq, All-insert_by P r rs h t)
]

All-order_by : (P : VoteRow → Type 0) (rs : List VoteRow) → All P rs → All P (order_by by_index rs)
unfolding order_by
All-order_by P [] t = tt
All-order_by P (r ∷ rs) (h, t) = All-insert_by P r (order_by by_index rs) h (All-order_by P rs t)

insert_by-Sorted :
    (r : VoteRow) (rs : List VoteRow)
    → All (OtherIndex r) rs
    → Sorted rs
    → Sorted (insert_by by_index r rs)
unfolding insert_by
insert_by-Sorted r [] o s = (tt, tt)
insert_by-Sorted r (q ∷ rs) (o, os) (lt, s) = elim (Bool-cases (by_index r q)) [
  | inl e ↦
      let less : r.indx < q.indx = ground arith in
      rw e (
        (less, All-map (λ p. q.indx < p.indx) (λ p. r.indx < p.indx) (λ p h. omega arith) rs lt),
        (lt, s),
      )
  | inr e ↦
      rw e (All-insert_by (λ p. q.indx < p.indx) r rs (ground arith) lt, insert_by-Sorted r rs os s)
]

abbrev SomeIndex : List VoteRow → Type 0
SomeIndex [] = Unit
SomeIndex (r ∷ rs) = All (OtherIndex r) rs × SomeIndex rs

order_by-Sorted : (rs : List VoteRow) → SomeIndex rs → Sorted (order_by by_index rs)
unfolding order_by
order_by-Sorted [] t = tt
order_by-Sorted (r ∷ rs) (o, t) =
    insert_by-Sorted r (order_by by_index rs) (All-order_by (OtherIndex r) rs o)
      (order_by-Sorted rs t)

-- The rows of one process differ in their indexes, as all rows do.
OtherIndex-select :
    (p : VoteRow → Bool) (r : VoteRow) (rs : List VoteRow)
    → any (collides r) rs ≡ false
    → All (OtherIndex r) (select p rs)
OtherIndex-select p r [] h = tt
OtherIndex-select p r (q ∷ rs) h =
    let o : OtherIndex r q = ground arith in
    let t : All (OtherIndex r) (select p rs) = OtherIndex-select p r rs (ground arith) in
    elim (Bool-cases (p q)) [ inl e ↦ rw e (o, t) | inr e ↦ rw e t ]

SomeIndex-select :
    (p : VoteRow → Bool) (rs : List VoteRow) → Distinct collides rs → SomeIndex (select p rs)
SomeIndex-select p [] d = tt
SomeIndex-select p (r ∷ rs) (h, d) = elim (Bool-cases (p r)) [
  | inl e ↦ rw e (OtherIndex-select p r rs h, SomeIndex-select p rs d)
  | inr e ↦ rw e (SomeIndex-select p rs d)
]

All-indx :
    (n : ℕ) (rs : List VoteRow)
    → All (λ (q : VoteRow). n < q.indx) rs
    → All (λ y. n < y) (map (λ (q : VoteRow). q.indx) rs)
All-indx n [] t = tt
All-indx n (r ∷ rs) (h, t) = (h, All-indx n rs t)

Sorted-Increasing : (rs : List VoteRow) → Sorted rs → Increasing (map (λ (q : VoteRow). q.indx) rs)
Sorted-Increasing [] t = tt
Sorted-Increasing (r ∷ rs) (lt, s) = (All-indx r.indx rs lt, Sorted-Increasing rs s)

module _ (c : Crypto) where
  open c use {PublicKey, decompress}

  abbrev pub index_of : VotePackage PublicKey → ℕ
  index_of v = v.census_proof.index

  scan_vote-index :
      (r : VoteRow) {v : VotePackage PublicKey} → scan_vote c r ≡ ok v → index_of v ≡ r.indx
  unfolding scan_vote
  scan_vote-index r e = ground arith

  scan_votes-index :
      (rs : List VoteRow) (vs : List (VotePackage PublicKey))
      → scan_votes c rs ≡ ok vs
      → map index_of vs ≡ map (λ (q : VoteRow). q.indx) rs
  unfolding scan_votes
  scan_votes-index [] vs e = let final : vs ≡ [] = cc in rw final
  scan_votes-index (r ∷ rs) vs e =
      let (w, hw, e1) = bind_eq_ok (scan_vote c r) _ e in
      let (ws, hws, e2) = bind_eq_ok (scan_votes c rs) _ e1 in
      let final : vs ≡ w ∷ ws = cc in rw (final, scan_vote-index r hw, scan_votes-index rs ws hws)

  pub scanned_lem :
      (process_id : ℕ) (s : Sqlite) {vs : List (VotePackage PublicKey)}
      → read_vote_packages_by_process_id c process_id s ≡ ok vs
      → scan_votes c
          (order_by by_index (select (λ (r : VoteRow). r.process_id == process_id) s.votepackages))
        ≡ ok vs
  unfolding read_vote_packages_by_process_id
  scanned_lem process_id s e = ground arith

  -- In a sound database the votes that are read for a process are exactly its rows, each once
  -- and decoded, and their indexes strictly increase.
  pub read_vote_packages_sorted :
      (process_id : ℕ) (s : Sqlite) {vs : List (VotePackage PublicKey)}
      → IsValid s
      → read_vote_packages_by_process_id c process_id s ≡ ok vs
      → (rows : List VoteRow) × Perm rows
          (select (λ (r : VoteRow). r.process_id == process_id) s.votepackages)
        × (scan_votes c rows ≡ ok vs)
        × Increasing (map index_of vs)
  read_vote_packages_sorted process_id s {vs} v e =
      let mine = λ (r : VoteRow). r.process_id == process_id in
      let rows = order_by by_index (select mine s.votepackages) in
      let scanned : scan_votes c rows ≡ ok vs = scanned_lem process_id s e in
      (
        rows,
        order_by-perm by_index (select mine s.votepackages),
        scanned,
        rw (scan_votes-index rows vs scanned) (
            Sorted-Increasing rows (
              order_by-Sorted (select mine s.votepackages)
                (SomeIndex-select mine s.votepackages v.votes))),
      )
