-- ===== src/Table/Every.antt =====
-- A predicate of every row of a list, and what SELECT EXISTS says of the rows.
use agent_fox.Table.{exists_where}
use agent_fox.Prelude.{List, ◌∷◌, Bool, ◌≡◌, [], false, arith, refl}

module _ {ℓ κ} {A : Type ℓ} where
  abbrev pub Each : (A → Type κ) → List A → Type κ
  Each P [] = Unit
  Each P (x ∷ xs) = P x × Each P xs

module _ {ℓ} {A : Type ℓ} where
  pub exists_where-Each :
      (test : A → Bool) (rs : List A) → exists_where test rs ≡ false → Each (λ r. test r ≡ false) rs
  unfolding exists_where
  exists_where-Each test [] h = tt
  exists_where-Each test (r ∷ rs) h =
      let later : exists_where test rs ≡ false = ground (arith, h) in
      (ground (arith, h), exists_where-Each test rs later)

  pub Each-exists_where :
      (test : A → Bool) (rs : List A) → Each (λ r. test r ≡ false) rs → exists_where test rs ≡ false
  unfolding exists_where
  Each-exists_where test [] h = refl
  Each-exists_where test (r ∷ rs) (first, later) =
      let later' = Each-exists_where test rs later in ground (arith, first, later')

module _ {ℓ κ μ} {A : Type ℓ} {P : A → Type κ} {Q : A → Type μ} where
  pub Each-map : ((a : A) → P a → Q a) → (xs : List A) → Each P xs → Each Q xs
  Each-map f [] h = tt
  Each-map f (x ∷ xs) (first, later) = (f x first, Each-map f xs later)
