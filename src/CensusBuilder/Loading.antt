-- ===== src/CensusBuilder/Loading.antt =====
-- What the reads of CensusBuilder read, and that a census is loaded once.
use ovote_node.Base.{
  ℕ, Bytes, ◌≡◌, refl, sym, ap, ◌∙◌, true, false, Bool, Option, none, some, Result, ok, err, panic,
  ◌>>=◌, if◌then◌else◌,
}
use ovote_node.External.{Crypto}
use ovote_node.Census.Store.{CensusDb}
use ovote_node.Census.Operations.{new, root, get_proof}
use ovote_node.CensusBuilder.Operations.{
  Disk, Builder, lookup, is_loaded, call, done, load_at, load_census_if_not_yet, ask, ask_census,
  root_error, census_root, builder_get_proof,
}
use ovote_node.CensusBuilder.Directory.{and_then-eq_ok}
use ovote_node.CensusBuilder.Creation.{loaded_self}

module _ (c : Crypto) (d : CensusDb) (disk : Disk d) where
  open d use {State}

  load_cases :
      (id : ℕ) (b : Builder d) (loaded : Bool) (found : Option State) {b' : Builder d}
      {u : Unit {0}}
      → is_loaded d id b ≡ loaded
      → (if loaded then done d b else load_at c d disk id found b) ≡ (b', ok u)
      → is_loaded d id b' ≡ true
  load_cases id b true found at e = ap (λ o. is_loaded d id o.0) (sym e) ∙ at
  load_cases id b false none at e = cc
  load_cases id b false (some s) at e =
      let (b₁, s', called, e₁) = and_then-eq_ok d (call d (disk.open_db id s >>= new c d) b) _ e in
      ap (λ o. is_loaded d id o.0) (sym e₁) ∙ loaded_self d id b₁.censuses

  pub load-eq_ok :
      (id : ℕ) (b : Builder d) {b' : Builder d} {u : Unit {0}}
      → load_census_if_not_yet c d disk id b ≡ (b', ok u)
      → is_loaded d id b' ≡ true
  unfolding load_census_if_not_yet
  load-eq_ok id b e = load_cases id b (is_loaded d id b) (lookup d id b.sub_dbs) refl e

  ask-eq_ok :
      {A : Type 0} (op : State → Result A) (found : Option State) (b : Builder d) {b' : Builder d}
      {a : A}
      → ask c d disk op found b ≡ (b', ok a)
      → (b ≡ b') × (s : State) × (found ≡ some s) × (op s ≡ ok a)
  ask-eq_ok op none b e = cc
  ask-eq_ok op (some s) b e = (ap (λ o. o.0) e, s, refl, ap (λ o. o.1) e)

  -- A read of a census that succeeds leaves it loaded, and its result is that of its database.
  pub ask_census-eq_ok :
      {A : Type 0} (id : ℕ) (op : State → Result A) (b : Builder d) {b' : Builder d} {a : A}
      → ask_census c d disk id op b ≡ (b', ok a)
      → (is_loaded d id b' ≡ true) × (s : State) × (lookup d id b'.sub_dbs ≡ some s) × (op s ≡ ok a)
  unfolding ask_census
  ask_census-eq_ok id op b e =
      let (b₁, u, there, e₁) = and_then-eq_ok d (load_census_if_not_yet c d disk id b) _ e in
      let (same, s, found, read) = ask-eq_ok op (lookup d id b₁.sub_dbs) b₁ e₁ in
      (
        ap (is_loaded d id) (sym same) ∙ load-eq_ok id b there,
        s,
        ap (λ (x : Builder d). lookup d id x.sub_dbs) (sym same) ∙ found,
        read,
      )

  -- A read of a loaded census leaves the builder as it is.
  pub ask_census-loaded :
      {A : Type 0} (id : ℕ) (op : State → Result A) (b : Builder d)
      → is_loaded d id b ≡ true
      → ask_census c d disk id op b ≡ ask c d disk op (lookup d id b.sub_dbs) b
  unfolding ask_census load_census_if_not_yet
  ask_census-loaded id op b loaded = rw loaded refl

  pub root_error-eq_ok :
      {A : Type 0} (r : Result A) {a : A} → root_error c d disk r ≡ ok a → r ≡ ok a
  root_error-eq_ok (ok r) e = e
  root_error-eq_ok (err x) e = cc
  root_error-eq_ok panic e = cc

  -- CensusRoot and then GetProof of the same census read the same database.
  pub root_then_proof :
      (id : ℕ) (k : c.PublicKey) (b : Builder d) {b₁ b₂ : Builder d} {r : Bytes} {p : ℕ × Bytes}
      → census_root c d disk id b ≡ (b₁, ok r)
      → builder_get_proof c d disk id k b₁ ≡ (b₂, ok p)
      → (s : State) × (lookup d id b₂.sub_dbs ≡ some s)
        × (root c d s ≡ ok r)
        × (get_proof c d k s ≡ ok p)
  unfolding census_root builder_get_proof
  root_then_proof id k b {b₁} e e' =
      let (loaded, s, found, read) =
        ask_census-eq_ok id (λ x. root_error c d disk (root c d x)) b e in
      let (same, s', found', proved) =
        ask-eq_ok (get_proof c d k) (lookup d id b₁.sub_dbs) b₁
          (sym (ask_census-loaded id (get_proof c d k) b₁ loaded) ∙ e') in
      let one : some s' ≡ some s = sym found' ∙ found in
      let one_state : s' ≡ s = cc in
      (
        s,
        ap (λ (x : Builder d). lookup d id x.sub_dbs) (sym same) ∙ found,
        root_error-eq_ok (root c d s) read,
        ap (get_proof c d k) (sym one_state) ∙ proved,
      )
