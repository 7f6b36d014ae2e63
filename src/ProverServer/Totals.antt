-- ===== src/ProverServer/Totals.antt =====
-- Sums over the threads.
use native.Mathlib.Decide.{dec_lt}
use ovote_node.Base.{
  ◌<◌, ℕ, zero, suc, ◌+◌, ◌≤◌, ◌≡◌, ◌++◌, [], ◌∷◌, List, some, set, get_elem?, arith, ap, refl, ◌⊎◌,
  inl, inr,
}

module _ {ℓ} {A : Type ℓ} where
  abbrev pub total : (A → ℕ) → List A → ℕ
  total w [] = 0
  total w (p ∷ ps) = w p + total w ps

  pub total-append : (w : A → ℕ) (ps qs : List A) → total w (ps ++ qs) ≡ total w ps + total w qs
  total-append w [] qs = omega arith
  total-append w (p ∷ ps) qs = omega (arith, total-append w ps qs)

  -- A member that is replaced takes its part out of the sum, and the new one puts its own in.
  pub total-set :
      (w : A → ℕ) (ps : List A) (i : ℕ) (p p' : A)
      → get_elem? ps i ≡ some p
      → total w (set ps i p') + w p ≡ total w ps + w p'
  total-set w [] i p p' h = cc
  total-set w (q ∷ ps) zero p p' h = let same : q ≡ p = cc in omega (arith, ap w same)
  total-set w (q ∷ ps) (suc i) p p' h = omega (arith, total-set w ps i p p' h)

  pub le-total :
      (w : A → ℕ) (ps : List A) (i : ℕ) (p : A) → get_elem? ps i ≡ some p → w p ≤ total w ps
  le-total w [] i p h = cc
  le-total w (q ∷ ps) zero p h = let same : q ≡ p = cc in omega (arith, ap w same)
  le-total w (q ∷ ps) (suc i) p h = omega (arith, le-total w ps i p h)

  -- Two members in different places fit into the sum together.
  pub two_le-total :
      (w : A → ℕ) (ps : List A) (i j : ℕ) (p q : A)
      → get_elem? ps i ≡ some p
      → get_elem? ps j ≡ some q
      → (i ≡ j) ⊎ (w p + w q ≤ total w ps)
  two_le-total w [] i j p q h k = cc
  two_le-total w (x ∷ ps) zero zero p q h k = inl refl
  two_le-total w (x ∷ ps) zero (suc j) p q h k =
      let same : x ≡ p = cc in inr (omega (arith, ap w same, le-total w ps j q k))
  two_le-total w (x ∷ ps) (suc i) zero p q h k =
      let same : x ≡ q = cc in inr (omega (arith, ap w same, le-total w ps i p h))
  two_le-total w (x ∷ ps) (suc i) (suc j) p q h k = elim (two_le-total w ps i j p q h k) [
    | inl e ↦ inl (ap suc e)
    | inr fits ↦ inr (omega arith)
  ]

  -- A sum that is positive has a positive part.
  pub member_of_total :
      (w : A → ℕ) (ps : List A)
      → 0 < total w ps
      → (i : ℕ) × (p : A) × (get_elem? ps i ≡ some p) × (0 < w p)
  member_of_total w [] h = elim h [ ]
  member_of_total w (p ∷ ps) h = elim (dec_lt 0 (w p)) [
    | yes here ↦ (0, p, refl, here)
    | no nothing ↦
        (let (i, q, at, more) = member_of_total w ps (omega arith) in (suc i, q, at, more))
  ]
