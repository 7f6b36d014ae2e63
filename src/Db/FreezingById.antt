-- ===== src/Db/FreezingById.antt =====
-- Freezing processes one by one, by the ids of the rows that a query has selected, against freezing
-- them with one statement.
use ovote_node.Base.{
  ℕ, ◌+◌, ◌≤◌, ◌≡◌, ◌⊎◌, inl, inr, [], ◌∷◌, List, map, Bool, true, false, ◌||◌, All, All-map, any,
  select, ℤ, ◌==◌, arith, refl, sym, ap, ◌∙◌, subst, if◌then◌else◌, Bool-cases,
}
use ovote_node.Types.Process.{Process, process_status_on, process_status_frozen}
use ovote_node.Db.Schema.{ProcessRow}
use ovote_node.Db.Query.{update_where}
use ovote_node.Db.Processes.{scan_process, is_due, froze}
use ovote_node.Db.Invariant.{Distinct, same_id}

-- What a chain that has been followed block by block leaves of a process: it is Frozen, or it is On
-- and does not start to publish before the block.
abbrev pub IsPending : ℕ → ProcessRow → Type 0
IsPending block r =
    ((r.status ≡ process_status_on) × (block ≤ r.res_pub_start_block))
    ⊎ (r.status ≡ process_status_frozen)

-- Freezing by a list of ids.
abbrev pub among : List ℕ → ProcessRow → Bool
among ids r = any (λ id. r.id == id) ids

pub update_where-twice :
    (p q : ProcessRow → Bool)
    → ((r : ProcessRow) → q (froze r) ≡ q r)
    → (rs : List ProcessRow)
    → update_where q froze (update_where p froze rs) ≡ update_where (λ r. p r || q r) froze rs
unfolding update_where
update_where-twice p q same [] = refl
update_where-twice p q same (r ∷ rs) = ground (arith, same r, update_where-twice p q same rs)

pub update_where-none : (rs : List ProcessRow) → update_where (λ r. false) froze rs ≡ rs
unfolding update_where
update_where-none [] = refl
update_where-none (r ∷ rs) = ap (λ xs. r ∷ xs) (update_where-none rs)

update_where-congr :
    (p q : ProcessRow → Bool) (f : ProcessRow → ProcessRow) (rs : List ProcessRow)
    → All (λ r. (if p r then f r else r) ≡ (if q r then f r else r)) rs
    → update_where p f rs ≡ update_where q f rs
unfolding update_where
update_where-congr p q f [] h = refl
update_where-congr p q f (r ∷ rs) (here, rest) = λ i. here i ∷ update_where-congr p q f rs rest i

-- The ids of the rows that a test selects, and the ids that a `Scan` of them shows.
abbrev pub ids_of : (ProcessRow → Bool) → List ProcessRow → List ℕ
ids_of p rs = map (λ (q : Process). q.id) (map scan_process (select p rs))

not_among :
    (p : ProcessRow → Bool) (r : ProcessRow) (rs : List ProcessRow)
    → any (same_id r) rs ≡ false
    → among (ids_of p rs) r ≡ false
not_among p r [] h = refl
not_among p r (x ∷ rs) h = ground (arith, not_among p r rs)

among_cons :
    (p : ProcessRow → Bool) (ids : List ℕ) (r : ProcessRow) (rs : List ProcessRow)
    → any (same_id r) rs ≡ false
    → All (λ x. among ids x ≡ p x) rs
    → All (λ x. among (r.id ∷ ids) x ≡ p x) rs
among_cons p ids r [] h t = tt
among_cons p ids r (x ∷ rs) h (here, rest) =
    (ground arith, among_cons p ids r rs (ground arith) rest)

among_kept :
    (p : ProcessRow → Bool) (r : ProcessRow) (rs : List ProcessRow)
    → any (same_id r) rs ≡ false
    → All (λ x. among (ids_of p rs) x ≡ p x) rs
    → (b : Bool) → p r ≡ b
    → All (λ x. among (ids_of p (r ∷ rs)) x ≡ p x) (r ∷ rs)
among_kept p r rs h t true e =
    let ids : ids_of p (r ∷ rs) ≡ r.id ∷ ids_of p rs = rw e refl in
    subst (λ l. All (λ x. among l x ≡ p x) (r ∷ rs)) (sym ids)
      (ground arith, among_cons p (ids_of p rs) r rs h t)
among_kept p r rs h t false e =
    let ids : ids_of p (r ∷ rs) ≡ ids_of p rs = rw e refl in
    subst (λ l. All (λ x. among l x ≡ p x) (r ∷ rs)) (sym ids) (not_among p r rs h ∙ sym e, t)

-- Where the ids are distinct, freezing by the ids of the selected rows freezes these rows.
among-ids_of :
    (p : ProcessRow → Bool) (rs : List ProcessRow)
    → Distinct same_id rs
    → All (λ r. among (ids_of p rs) r ≡ p r) rs
among-ids_of p [] d = tt
among-ids_of p (r ∷ rs) (h, d) = among_kept p r rs h (among-ids_of p rs d) (p r) refl

frozen_already :
    (r : ProcessRow)
    → r.status ≡ process_status_frozen
    → (b : Bool) → (if b then froze r else r) ≡ r
frozen_already r frozen true = ap (λ st. record r { status = st }) (sym frozen)
frozen_already r frozen false = refl

-- Of pending rows, the due ones are those that start to publish at the block.
freeze_row :
    (block : ℕ) (r : ProcessRow)
    → IsPending block r
    → (if r.res_pub_start_block == block then froze r else r)
      ≡ (if is_due (ℤ.pos block) r then froze r else r)
freeze_row block r (inl pending) = ground arith
freeze_row block r (inr frozen) =
    frozen_already r frozen (r.res_pub_start_block == block)
    ∙ sym (frozen_already r frozen (is_due (ℤ.pos block) r))

row_after :
    (block : ℕ) (r : ProcessRow)
    → IsPending block r
    → IsPending (block + 1) (if is_due (ℤ.pos block) r then froze r else r)
row_after block r (inl (on, starts)) = elim (Bool-cases (is_due (ℤ.pos block) r)) [
  | inl due ↦ rw due (inr refl)
  | inr later ↦ rw later (inl (on, ground arith))
]
row_after block r (inr frozen) = elim (Bool-cases (is_due (ℤ.pos block) r)) [
  | inl due ↦ rw due (inr refl)
  | inr later ↦ rw later (inr frozen)
]

pub pending_after :
    (block : ℕ) (rs : List ProcessRow)
    → All (IsPending block) rs
    → All (IsPending (block + 1)) (update_where (is_due (ℤ.pos block)) froze rs)
unfolding update_where
pending_after block [] h = tt
pending_after block (r ∷ rs) (here, rest) = (row_after block r here, pending_after block rs rest)

pub frozen_rows :
    (block : ℕ) (rs : List ProcessRow)
    → Distinct same_id rs
    → All (IsPending block) rs
    → update_where (among (ids_of (λ r. r.res_pub_start_block == block) rs)) froze rs
      ≡ update_where (is_due (ℤ.pos block)) froze rs
frozen_rows block rs distinct pending =
    update_where-congr (among (ids_of (λ r. r.res_pub_start_block == block) rs))
      (λ r. r.res_pub_start_block == block) froze rs
      (All-map _ _ (λ r e. ap (λ b. if b then froze r else r) e) rs
        (among-ids_of (λ r. r.res_pub_start_block == block) rs distinct))
    ∙ update_where-congr (λ r. r.res_pub_start_block == block) (is_due (ℤ.pos block)) froze rs
        (All-map _ _ (freeze_row block) rs pending)
