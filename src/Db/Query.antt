-- ===== src/Db/Query.antt =====
-- What the SQL of the package says of rows: UPDATE … WHERE, and ORDER BY as a stable insertion
-- sort (SQLite leaves the order of equal keys open; here it is that of the table).
use mathlib.Core.List.{Perm}
use mathlib.Core.List.Perm
use ovote_node.Base.{Bool, List, [], ◌∷◌, if◌then◌else◌, inl, inr, Bool-cases}

module _ {ℓ} {A : Type ℓ} where
  unfoldable pub update_where : (A → Bool) → (A → A) → List A → List A
  update_where p f [] = []
  update_where p f (x ∷ xs) = (if p x then f x else x) ∷ update_where p f xs

  unfoldable pub insert_by : (A → A → Bool) → A → List A → List A
  insert_by before x [] = x ∷ []
  insert_by before x (y ∷ ys) =
      let rest = y ∷ insert_by before x ys in if before x y then x ∷ y ∷ ys else rest

  unfoldable pub order_by : (A → A → Bool) → List A → List A
  unfolding insert_by
  order_by before [] = []
  order_by before (x ∷ xs) = insert_by before x (order_by before xs)

  insert_by-perm :
      (before : A → A → Bool) (x : A) (xs : List A) → Perm (insert_by before x xs) (x ∷ xs)
  unfolding insert_by
  insert_by-perm before x [] = Perm.refl (x ∷ [])
  insert_by-perm before x (y ∷ ys) = elim (Bool-cases (before x y)) [
    | inl e ↦ rw e (Perm.refl (x ∷ y ∷ ys))
    | inr e ↦ rw e (Perm.trans (Perm.cons y (insert_by-perm before x ys)) (Perm.swap x y ys))
  ]

  -- ORDER BY keeps the rows.
  pub order_by-perm : (before : A → A → Bool) (xs : List A) → Perm (order_by before xs) xs
  unfolding order_by
  order_by-perm before [] = Perm.refl []
  order_by-perm before (x ∷ xs) =
      Perm.trans (insert_by-perm before x (order_by before xs))
        (Perm.cons x (order_by-perm before xs))
