-- ===== src/Db/Invariant.antt =====
-- The integrity of the tables: primary and unique keys, foreign keys, and the range of ids.
use ovote_node.Base.{
  ℕ, ◌<◌, ◌≡◌, ◌++◌, [], ◌∷◌, List, Bool, true, false, any, All, arith, two63, ◌==◌, any-append,
  ◌≤◌, refl, bytes_equal, bytes_equal_iff, ◌∙◌, if◌then◌else◌,
}
use ovote_node.Db.Schema.{Sqlite, ProcessRow, VoteRow, ProofRow, MetaRow}
use ovote_node.Db.Processes.{has_id}
use ovote_node.Db.VotePackages.{collides}
use ovote_node.Db.Query.{update_where}

-- No two rows clash.
abbrev pub Distinct : {A : Type 0} → (A → A → Bool) → List A → Type 0
Distinct clash [] = Unit
Distinct clash (x ∷ xs) = (any (clash x) xs ≡ false) × Distinct clash xs

pub Distinct-snoc :
    {A : Type 0} (clash : A → A → Bool) (xs : List A) (x : A)
    → ((a b : A) → clash a b ≡ clash b a)
    → Distinct clash xs
    → any (clash x) xs ≡ false
    → Distinct clash (xs ++ x ∷ [])
Distinct-snoc clash [] x symm d h = (refl, tt)
Distinct-snoc clash (y ∷ ys) x symm d h = (
  ground (arith, any-append (clash y) ys (x ∷ []), symm x y),
  Distinct-snoc clash ys x symm d.1 (ground arith),
)

abbrev pub same_id : ProcessRow → ProcessRow → Bool
same_id a b = has_id a.id b

abbrev pub same_proofid : ProofRow → ProofRow → Bool
same_proofid a b = b.proofid == a.proofid

abbrev pub same_meta_id : MetaRow → MetaRow → Bool
same_meta_id a b = b.id == a.id

abbrev pub KnownProcess : List ProcessRow → ℕ → Type 0
KnownProcess ps id = any (has_id id) ps ≡ true

pub record IsValid (s : Sqlite) : Type 0 where
  pub ids : Distinct same_id s.processes
  pub small_ids : All (λ (r : ProcessRow). r.id < two63) s.processes
  pub votes : Distinct collides s.votepackages
  pub voted : All (λ (r : VoteRow). KnownProcess s.processes r.process_id) s.votepackages
  pub proof_ids : Distinct same_proofid s.proofs
  pub proved : All (λ (r : ProofRow). KnownProcess s.processes r.process_id) s.proofs
  pub meta_ids : Distinct same_meta_id s.meta
  pub seq : All (λ (r : MetaRow). r.id ≤ s.meta_seq) s.meta

pub same_id_sym : (a b : ProcessRow) → same_id a b ≡ same_id b a
same_id_sym a b = ground arith

pub same_meta_id_sym : (a b : MetaRow) → same_meta_id a b ≡ same_meta_id b a
same_meta_id_sym a b = ground arith

-- An id above all others is new.
pub fresh_meta_id :
    (n : ℕ) (row : MetaRow) (rows : List MetaRow)
    → n < row.id
    → All (λ (r : MetaRow). r.id ≤ n) rows
    → any (same_meta_id row) rows ≡ false
fresh_meta_id n row [] above h = refl
fresh_meta_id n row (r ∷ rows) above (low, h) = ground (arith, fresh_meta_id n row rows above h)

bytes_equal_sym : (a b : List ℕ) → bytes_equal a b ≡ bytes_equal b a
bytes_equal_sym a b = ground (arith, bytes_equal_iff a b, bytes_equal_iff b a)

pub collides_sym : (a b : VoteRow) → collides a b ≡ collides b a
collides_sym a b =
    ground (
      arith,
      bytes_equal_sym a.public_key b.public_key,
      bytes_equal_sym a.merkleproof b.merkleproof,
    )

pub same_proofid_sym : (a b : ProofRow) → same_proofid a b ≡ same_proofid b a
same_proofid_sym a b = ground arith

any-congr :
    {A : Type 0} (p q : A → Bool) → ((x : A) → p x ≡ q x) → (xs : List A) → any p xs ≡ any q xs
any-congr p q h [] = refl
any-congr p q h (x ∷ xs) = ground (arith, h x, any-congr p q h xs)

-- An UPDATE that leaves a key alone.
module _ {A : Type 0} (p : A → Bool) (f : A → A) where
  pub any-update_where :
      (q : A → Bool)
      → ((x : A) → q (f x) ≡ q x)
      → (xs : List A) → any q (update_where p f xs) ≡ any q xs
  unfolding update_where
  any-update_where q h [] = refl
  any-update_where q h (x ∷ xs) = ground (arith, any-update_where q h xs, h x)

  pub All-update_where :
      (P : A → Type 0)
      → ((x : A) → P x → P (f x))
      → (xs : List A) → All P xs
      → All P (update_where p f xs)
  unfolding update_where
  All-update_where P h [] t = tt
  All-update_where P h (x ∷ xs) (hx, t) = (one (p x), All-update_where P h xs t)
    where
      one : (b : Bool) → P (if b then f x else x)
      one true = h x hx
      one false = hx

  pub Distinct-update_where :
      (clash : A → A → Bool)
      → ((x y : A) → clash (f x) y ≡ clash x y)
      → ((x y : A) → clash x (f y) ≡ clash x y)
      → (xs : List A) → Distinct clash xs
      → Distinct clash (update_where p f xs)
  unfolding update_where
  Distinct-update_where clash l r [] d = tt
  Distinct-update_where clash l r (x ∷ xs) (h, d) =
      (one (p x), Distinct-update_where clash l r xs d)
    where
      one : (b : Bool) → any (clash (if b then f x else x)) (update_where p f xs) ≡ false
      one true =
          any-update_where (clash (f x)) (r (f x)) xs
          ∙ any-congr (clash (f x)) (clash x) (l x) xs
          ∙ h
      one false = any-update_where (clash x) (r x) xs ∙ h

-- Known processes stay known.
pub KnownProcess-append :
    (ps qs : List ProcessRow) (id : ℕ) → KnownProcess ps id → KnownProcess (ps ++ qs) id
KnownProcess-append ps qs id h = ground (arith, any-append (has_id id) ps qs)
