-- ===== src/Table/Numbering.antt =====
-- Rows that are numbered from 1 without a gap, among those of one owner.
use agent_fox.Prelude.{
  ℕ, suc, ◌+◌, ◌≡◌, Bool, true, false, List, [], ◌∷◌, ◌++◌, if◌then◌else◌, max, arith,
}
use agent_fox.Table.{update_where, count_where, delete_where, max_where}

-- The number of a row of the owner is the one after k.
abbrev Next : Bool → ℕ → ℕ → Type 0
Next true n k = n ≡ suc k
Next false n k = Unit {0}

module _ {ℓ} {A : Type ℓ} (owned : A → Bool) (number : A → ℕ) where
  -- The rows of the owner are numbered k + 1, k + 2, … in the order they were stored.
  abbrev pub NumberedFrom : ℕ → List A → Type 0
  NumberedFrom k [] = Unit {0}
  NumberedFrom k (r ∷ rs) =
      Next (owned r) (number r) k × NumberedFrom (if owned r then suc k else k) rs

  pub max_where-NumberedFrom :
      (k : ℕ) (rs : List A)
      → NumberedFrom k rs
      → max k (max_where owned number rs) ≡ k + count_where owned rs
  unfolding max_where count_where
  max_where-NumberedFrom k [] h = omega arith
  max_where-NumberedFrom k (r ∷ rs) h =
      ground (arith, max_where-NumberedFrom (if owned r then suc k else k) rs h.1, h.0)

  pub NumberedFrom-append :
      (k : ℕ) (rs : List A) (a : A)
      → NumberedFrom k rs
      → (owned a ≡ true → number a ≡ k + count_where owned rs + 1)
      → NumberedFrom k (rs ++ a ∷ [])
  unfolding count_where
  NumberedFrom-append k [] a h e = ground arith
  NumberedFrom-append k (r ∷ rs) a h e =
      (h.0, NumberedFrom-append (if owned r then suc k else k) rs a h.1 (λ o. ground (arith, e o)))

  pub NumberedFrom-update :
      (t : A → Bool) (f : A → A) (k : ℕ) (rs : List A)
      → ((r : A) → (owned (f r) ≡ owned r) × (number (f r) ≡ number r))
      → NumberedFrom k rs
      → NumberedFrom k (update_where t f rs)
  unfolding update_where
  NumberedFrom-update t f k [] same h = tt
  NumberedFrom-update t f k (r ∷ rs) same h =
      ground
        (arith, same r, h.0, NumberedFrom-update t f (if owned r then suc k else k) rs same h.1)

  -- A delete of rows of other owners.
  pub NumberedFrom-delete_apart :
      (t : A → Bool) (k : ℕ) (rs : List A)
      → ((r : A) → t r ≡ true → owned r ≡ false)
      → NumberedFrom k rs
      → NumberedFrom k (delete_where t rs)
  unfolding delete_where
  NumberedFrom-delete_apart t k [] apart h = tt
  NumberedFrom-delete_apart t k (r ∷ rs) apart h =
      ground (
        arith,
        apart r,
        h.0,
        NumberedFrom-delete_apart t (if owned r then suc k else k) rs apart h.1,
      )

  -- A delete of all that the owner has.
  pub NumberedFrom-delete : (k : ℕ) (rs : List A) → NumberedFrom k (delete_where owned rs)
  unfolding delete_where
  NumberedFrom-delete k [] = tt
  NumberedFrom-delete k (r ∷ rs) = ground (arith, NumberedFrom-delete k rs)
