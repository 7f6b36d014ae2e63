-- ===== src/Polls/View.antt =====
-- The polls in the tables of the database, and what each write does to them.
use mathlib.Core.Quot
use mathlib.Core.Quot.{Quot}
use mathlib.Core.List.{Perm, append-nil}
use mathlib.Core.List.Perm
use ovote_node.Base.{
  ℕ, ◌≡◌, refl, ap, ◌∙◌, [], ◌∷◌, ◌++◌, List, ℤ, map, Bool, true, false, Bytes, none, some, Option,
  Result, ok, err, panic, ◌>>=◌, ◌==◌, if◌then◌else◌, arith, select, All, any, set_bytes,
  set_bytes-big_bytes, find, Option-cases, any_of_find, nat_abs, Bool-cases, inl, inr, subst,
}
use ovote_node.External.{Crypto}
use ovote_node.Types.Process.{Process}
use ovote_node.Types.VotePackage.{VotePackage}
use ovote_node.Db.Schema.{Sqlite, ProcessRow, VoteRow, ProofRow, MetaRow, bind_uint64}
use ovote_node.Db.Processes.{
  has_id, new_process, scan_process, store_process, read_process_by_id,
  froze_processes_by_current_block_num,
}
use ovote_node.Db.VotePackages.{vote_row, weight_bytes}
use ovote_node.Db.Freezing.{froze-read, frozen_at}
use ovote_node.Db.ProcessLookup.{store_process-read}
use ovote_node.Db.Writes.{store_process-eq_ok, froze-eq_ok}
use ovote_node.Db.Invariant.{IsValid, KnownProcess}
use ovote_node.Polls.Spec.{
  Ballot, Bag, Poll, Polls, open_poll, with_ballot, cast, frozen_poll, freeze, weight_of, ballot_of,
}

abbrev pub row_ballot : VoteRow → Ballot
row_ballot r = record { voter = r.public_key; choice = r.vote; weight = set_bytes r.weight }

abbrev pub ballots_in : ℕ → List VoteRow → List Ballot
ballots_in id rows = map row_ballot (select (λ (r : VoteRow). r.process_id == id) rows)

abbrev pub poll_of : Result Process → Bag → Option Poll
poll_of (ok p) ballots = some (record { process = p; ballots = ballots })
poll_of (err e) ballots = none
poll_of panic ballots = none

-- A poll is there when its process can be read, and its ballots are the rows of its id.
abbrev pub view : Sqlite → Polls
view s id = poll_of (read_process_by_id id s) (Quot.mk (ballots_in id s.votepackages))

-- The proofs and the meta row are not in view.
pub view-proofs : (s : Sqlite) (rows : List ProofRow) → view (record s { proofs = rows }) ≡ view s
unfolding read_process_by_id
view-proofs s rows = refl

pub view-meta :
    (s : Sqlite) (rows : List MetaRow) (n : ℕ)
    → view (record s { meta = rows; meta_seq = n }) ≡ view s
unfolding read_process_by_id
view-meta s rows n = refl

-- No vote belongs to a process that is not stored.
ballots_in-unknown :
    (id : ℕ) (ps : List ProcessRow) (rows : List VoteRow)
    → any (has_id id) ps ≡ false
    → All (λ (r : VoteRow). KnownProcess ps r.process_id) rows
    → ballots_in id rows ≡ []
ballots_in-unknown id ps [] unknown t = refl
ballots_in-unknown id ps (r ∷ rows) unknown (known, t) = elim (Bool-cases (r.process_id == id)) [
  | inl own ↦
      (let same : r.process_id ≡ id = ground arith in
        let found : any (has_id id) ps ≡ true =
          subst (λ (k : ℕ). any (has_id k) ps ≡ true) same known in
        absurd cc)
  | inr other ↦ rw other (ballots_in-unknown id ps rows unknown t)
]

pub unknown_read :
    (id : ℕ) (s : Sqlite) (b : Bag)
    → any (has_id id) s.processes ≡ false
    → poll_of (read_process_by_id id s) b ≡ none
unfolding read_process_by_id bind_uint64
unknown_read id s b unknown = elim (Option-cases (find (has_id id) s.processes)) [
  | inl missing ↦ ground arith
  | inr (r, found) ↦ let known = any_of_find (has_id id) s.processes found in absurd cc
]

-- The poll of one id after a process has been stored.
opened_at :
    (id j : ℕ) (p : Process) (old : Result Process) (bs : List Ballot) {r : Result Process}
    → r ≡ (if j == id then ok p else old)
    → (j ≡ id → bs ≡ [])
    → poll_of r (Quot.mk bs) ≡ (
        if j == id
        then some (record { process = p; ballots = Quot.mk [] })
        else poll_of old (Quot.mk bs))
opened_at id j p old bs read empty = elim (Bool-cases (j == id)) [
  | inl own ↦ rw (read, own, empty (ground arith)) refl
  | inr other ↦ rw (read, other) refl
]

-- Storing a process opens its poll.
pub view-store_process :
    (now id : ℕ) (root : Bytes) (size block start window participation positive typ : ℕ)
    (s : Sqlite) {s' : Sqlite}
    → IsValid s
    → store_process now id root size block start window participation positive typ s ≡ ok s'
    → (view s id ≡ none)
      × (view s'
          ≡ open_poll
              (scan_process
                (new_process now id root size block start window participation positive typ))
              (view s))
view-store_process now id root size block start window participation positive typ s {s'} valid e =
    let (fresh, small, _, final) =
      store_process-eq_ok now id root size block start window participation positive typ s e in
    let row = new_process now id root size block start window participation positive typ in
    let rows : s'.votepackages ≡ s.votepackages = ap (λ (x : Sqlite). x.votepackages) final in
    let empty : ballots_in id s.votepackages ≡ [] =
      ballots_in-unknown id s.processes s.votepackages fresh valid.voted in
    (
      unknown_read id s (Quot.mk (ballots_in id s.votepackages)) fresh,
      (λ i j.
          (ap (λ rs. poll_of (read_process_by_id j s') (Quot.mk (ballots_in j rs))) rows
              ∙ opened_at id j (scan_process row) (read_process_by_id j s)
                  (ballots_in j s.votepackages)
                  (store_process-read now id root size block start window participation positive typ
                    j s e)
                  (λ same. ap (λ k. ballots_in k s.votepackages) same ∙ empty))
            i),
    )

select-snoc :
    (p : VoteRow → Bool) (rows : List VoteRow) (r : VoteRow)
    → map row_ballot (select p (rows ++ r ∷ []))
      ≡ map row_ballot (select p rows) ++ (if p r then row_ballot r ∷ [] else [])
select-snoc p [] r = ground arith
select-snoc p (q ∷ rows) r = elim (Bool-cases (p q)) [
  | inl own ↦ rw own (ap (λ bs. row_ballot q ∷ bs) (select-snoc p rows r))
  | inr other ↦ rw other (select-snoc p rows r)
]

poll_of-bind :
    (block : ℕ) (r : Result Process) (b : Bag)
    → poll_of (r >>= λ p. ok (frozen_at block p)) b ≡ frozen_poll block (poll_of r b)
poll_of-bind block (ok p) b = refl
poll_of-bind block (err e) b = refl
poll_of-bind block panic b = refl

pub view-froze :
    (block : ℕ) (s : Sqlite) {s' : Sqlite}
    → froze_processes_by_current_block_num block s ≡ ok s'
    → view s' ≡ freeze block (view s)
view-froze block s {s'} e =
    let rows : s'.votepackages ≡ s.votepackages =
      ap (λ (x : Sqlite). x.votepackages) (froze-eq_ok block s e) in
    λ i id.
      ((λ k. poll_of (froze-read block id s e k) (Quot.mk (ballots_in id (rows k))))
          ∙ poll_of-bind block (read_process_by_id id s) (Quot.mk (ballots_in id s.votepackages)))
        i

weight-stored : (w : Option ℤ) → set_bytes (weight_bytes w) ≡ weight_of w
weight-stored none = set_bytes-big_bytes 0
weight-stored (some w) = set_bytes-big_bytes (nat_abs w)

last_first : (b : Ballot) (bs : List Ballot) → Perm (bs ++ b ∷ []) (b ∷ bs)
last_first b [] = Perm.refl (b ∷ [])
last_first b (x ∷ bs) = Perm.trans (Perm.cons x (last_first b bs)) (Perm.swap b x bs)

voted_own :
    (b : Ballot) (r : Result Process) (bs : List Ballot)
    → poll_of r (Quot.mk (bs ++ b ∷ [])) ≡ with_ballot b (poll_of r (Quot.mk bs))
voted_own b (ok p) bs =
    ap (λ (q : Bag). some (record { process = p; ballots = q })) (Quot.sound (last_first b bs))
voted_own b (err e) bs = refl
voted_own b panic bs = refl

-- The poll of one id after a vote has been stored.
voted_at :
    (id j : ℕ) (b : Ballot) (r : Result Process) (bs : List Ballot)
    → poll_of r (Quot.mk (bs ++ (if id == j then b ∷ [] else [])))
      ≡ (if j == id then with_ballot b (poll_of r (Quot.mk bs)) else poll_of r (Quot.mk bs))
voted_at id j b r bs = elim (Bool-cases (j == id)) [
  | inl own ↦ let own' : (id == j) ≡ true = ground arith in rw (own, own') (voted_own b r bs)
  | inr other ↦
      let other' : (id == j) ≡ false = ground arith in
      rw (other, other') (ap (λ xs. poll_of r (Quot.mk xs)) (append-nil bs))
]

module _ (c : Crypto) (chain_id : ℕ) where
  -- A vote that is stored is put into the poll of its process.
  pub view-vote :
      (now id : ℕ) (v : VotePackage c.PublicKey) (s : Sqlite) {s' : Sqlite}
      → s' ≡ record s { votepackages = s.votepackages ++ vote_row c now id v ∷ [] }
      → view s' ≡ cast id (ballot_of c chain_id v) (view s)
  unfolding read_process_by_id
  view-vote now id v s {s'} final =
      let b = ballot_of c chain_id v in
      let stored : row_ballot (vote_row c now id v) ≡ b =
        ap (λ w. record b { weight = w }) (weight-stored v.census_proof.weight) in
      ap view final ∙ (λ i j.
        (ap (λ bs. poll_of (read_process_by_id j s) (Quot.mk bs))
              (select-snoc (λ (r : VoteRow). r.process_id == j) s.votepackages (vote_row c now id v)
                ∙ ap (λ x. ballots_in j s.votepackages ++ (if id == j then x ∷ [] else [])) stored)
            ∙ voted_at id j b (read_process_by_id j s) (ballots_in j s.votepackages))
          i)
