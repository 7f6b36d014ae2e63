-- ===== src/CensusBuilder/Creation.antt =====
-- NewCensus of censusbuilder/censusbuilder.go.
use ovote_node.Base.{
  ℕ, ◌++◌, [], ◌∷◌, List, ◌≡◌, refl, sym, ap, ◌∙◌, ◌==◌, ==_refl, true, any, Option, none, some,
  Result, ok, arith,
}
use ovote_node.External.{Crypto}
use ovote_node.Census.Store.{CensusDb, IsCensusDb}
use ovote_node.Census.Operations.{new}
use ovote_node.CensusBuilder.Operations.{
  Disk, Builder, lookup, with_db, with_loaded, call, create_at,
}
use ovote_node.CensusBuilder.Directory.{and_then-eq_ok}

module _ (d : CensusDb) where
  open d use {State}

  pub lookup-snoc :
      (id : ℕ) (s : State) (es : List (ℕ × State))
      → lookup d id es ≡ none
      → lookup d id (es ++ (id, s) ∷ []) ≡ some s
  lookup-snoc id s [] h = rw (==_refl id) refl
  lookup-snoc id s (e ∷ rest) h = ground (arith, lookup-snoc id s rest)

  pub loaded_self : (id : ℕ) (ids : List ℕ) → any (λ i. i == id) (id ∷ ids) ≡ true
  loaded_self id ids = rw (==_refl id) refl

  pub call-eq_ok :
      {A : Type 0} (r : Result A) (b : Builder d) {b' : Builder d} {a : A}
      → call d r b ≡ (b', ok a)
      → (b ≡ b') × (r ≡ ok a)
  call-eq_ok r b h = (ap (λ o. o.0) h, ap (λ o. o.1) h)

module _ (c : Crypto) (d : CensusDb) (disk : Disk d) (laws : IsCensusDb c d) where
  open d use {State, get, set, commit}

  -- A census that was created: nothing was there, and now there is an open census.
  pub create_at-eq_ok :
      (id : ℕ) (found : Option State) (b : Builder d) {b' : Builder d} {u : Unit {0}}
      → create_at c d disk id found b ≡ (b', ok u)
      → (found ≡ none)
        × (s₀ : State) × (s : State) × (new c d s₀ ≡ ok s)
        × (b'
            ≡ with_loaded d id (with_db d id s (record b { sub_dbs = b.sub_dbs ++ (id, s₀) ∷ [] })))
  create_at-eq_ok id (some s) b e = cc
  create_at-eq_ok id none b {b'} e =
      let (b₁, s₀, called, e₁) = and_then-eq_ok d (call d (disk.create_db id) b) _ e in
      let (same, made) = call-eq_ok d (disk.create_db id) b called in
      let grown = record b₁ { sub_dbs = b₁.sub_dbs ++ (id, s₀) ∷ [] } in
      let (b₂, s, called', e₂) = and_then-eq_ok d (call d (new c d s₀) grown) _ e₁ in
      let (same', made') = call-eq_ok d (new c d s₀) grown called' in
      let added : Builder d → Builder d = λ x.
        with_loaded d id (with_db d id s (record x { sub_dbs = x.sub_dbs ++ (id, s₀) ∷ [] })) in
      let last : with_loaded d id (with_db d id s b₂) ≡ b' = ap (λ o. o.0) e₂ in
      let mid = ap (λ (x : Builder d). with_loaded d id (with_db d id s x)) (sym same') in
      (refl, s₀, s, made', sym last ∙ mid ∙ ap added (sym same))
