-- ===== src/Table/Counting.antt =====
-- How a statement on a table changes the number of the rows that meet a condition.
use agent_fox.Prelude.{
  ◌+◌, ◌≤◌, ◌≡◌, refl, Bool, true, false, List, [], ◌∷◌, ◌++◌, if◌then◌else◌, arith, length,
}
use agent_fox.Table.{update_where, count_where, exists_where, delete_where}

module _ {ℓ} {A : Type ℓ} where
  pub count_where-append :
      (p : A → Bool) (rs : List A) (a : A)
      → count_where p (rs ++ a ∷ []) ≡ count_where p rs + (if p a then 1 else 0)
  unfolding count_where
  count_where-append p [] a = ground arith
  count_where-append p (x ∷ rs) a = ground (arith, count_where-append p rs a)

  pub count_where-le :
      (p q : A → Bool) (rs : List A)
      → ((r : A) → p r ≡ true → q r ≡ true)
      → count_where p rs ≤ count_where q rs
  unfolding count_where
  count_where-le p q [] h = omega arith
  count_where-le p q (x ∷ rs) h = ground (arith, h x, count_where-le p q rs h)

  pub count_where-exists :
      (p : A → Bool) (rs : List A) → exists_where p rs ≡ false → count_where p rs ≡ 0
  unfolding count_where exists_where
  count_where-exists p [] h = refl
  count_where-exists p (x ∷ rs) h = ground (arith, count_where-exists p rs)

  pub exists_where-count :
      (p : A → Bool) (rs : List A) → count_where p rs ≡ 0 → exists_where p rs ≡ false
  unfolding count_where exists_where
  exists_where-count p [] h = refl
  exists_where-count p (x ∷ rs) h = ground (arith, exists_where-count p rs)

  -- An update that does not change what the condition reads, on the rows that it writes.
  pub count_where-update_same :
      (p t : A → Bool) (f : A → A) (rs : List A)
      → ((r : A) → t r ≡ true → p (f r) ≡ p r)
      → count_where p (update_where t f rs) ≡ count_where p rs
  unfolding count_where update_where
  count_where-update_same p t f [] h = refl
  count_where-update_same p t f (x ∷ rs) h = ground (arith, h x, count_where-update_same p t f rs h)

  -- The rows that an update makes meet the condition, and those that it keeps.
  pub count_where-update_into :
      (p t : A → Bool) (f : A → A) (rs : List A)
      → ((r : A) → t r ≡ true → (p (f r) ≡ true) × (p r ≡ false))
      → count_where p (update_where t f rs) ≡ count_where p rs + count_where t rs
  unfolding count_where update_where
  count_where-update_into p t f [] h = refl
  count_where-update_into p t f (x ∷ rs) h = ground (arith, h x, count_where-update_into p t f rs h)

  -- The rows that an update makes miss the condition.
  pub count_where-update_out :
      (p t : A → Bool) (f : A → A) (rs : List A)
      → ((r : A) → t r ≡ true → (p (f r) ≡ false) × (p r ≡ true))
      → count_where p (update_where t f rs) + count_where t rs ≡ count_where p rs
  unfolding count_where update_where
  count_where-update_out p t f [] h = refl
  count_where-update_out p t f (x ∷ rs) h = ground (arith, h x, count_where-update_out p t f rs h)

  pub count_where-delete_apart :
      (p t : A → Bool) (rs : List A)
      → ((r : A) → t r ≡ true → p r ≡ false)
      → count_where p (delete_where t rs) ≡ count_where p rs
  unfolding count_where delete_where
  count_where-delete_apart p t [] h = refl
  count_where-delete_apart p t (x ∷ rs) h = ground (arith, h x, count_where-delete_apart p t rs h)

  pub count_where-delete-le :
      (p t : A → Bool) (rs : List A) → count_where p (delete_where t rs) ≤ count_where p rs
  unfolding count_where delete_where
  count_where-delete-le p t [] = omega arith
  count_where-delete-le p t (x ∷ rs) = ground (arith, count_where-delete-le p t rs)

  pub count_where-delete : (p : A → Bool) (rs : List A) → count_where p (delete_where p rs) ≡ 0
  unfolding count_where delete_where
  count_where-delete p [] = refl
  count_where-delete p (x ∷ rs) = ground (arith, count_where-delete p rs)

  -- A delete removes the rows that meet the condition, and no other.
  pub length-delete_where :
      (p : A → Bool) (rs : List A) → length (delete_where p rs) + count_where p rs ≡ length rs
  unfolding delete_where count_where
  length-delete_where p [] = refl
  length-delete_where p (x ∷ rs) = ground (arith, length-delete_where p rs)

  pub delete_where-none :
      (p : A → Bool) (rs : List A) → exists_where p rs ≡ false → delete_where p rs ≡ rs
  unfolding delete_where exists_where
  delete_where-none p [] h = refl
  delete_where-none p (x ∷ rs) h = ground (arith, delete_where-none p rs)

  pub exists_where-counted :
      (p : A → Bool) (rs : List A) → exists_where p rs ≡ true → 1 ≤ count_where p rs
  unfolding exists_where count_where
  exists_where-counted p [] h = absurd (ground (arith, h))
  exists_where-counted p (x ∷ rs) h = ground (arith, exists_where-counted p rs)
