-- ===== src/Table/Lookup.antt =====
-- What a statement on a table does to the row that a condition selects.
use mathlib.Core.Option
use agent_fox.Prelude.{
  ◌≤◌, ◌<◌, ◌≡◌, refl, Bool, true, false, ◌&&◌, none, some, List, [], ◌∷◌, ◌++◌, if◌then◌else◌,
  is_some, arith, Bool-cases, inl, inr,
}
use agent_fox.Table.Counting.{count_where-le}
use agent_fox.Table.{update_where, count_where, select_first, exists_where, delete_where}

pub both_left : (a b : Bool) → (a && b) ≡ true → a ≡ true
both_left a b h = ground arith

module _ {ℓ} {A : Type ℓ} where
  pub select_first-holds :
      (p : A → Bool) (rs : List A) {r : A} → select_first p rs ≡ some r → p r ≡ true
  unfolding select_first
  select_first-holds p [] h = cc
  select_first-holds p (x ∷ rs) {r} h = ground (arith, select_first-holds p rs {r = r})

  pub exists_where-select_first :
      (p : A → Bool) (rs : List A) → exists_where p rs ≡ is_some (select_first p rs)
  unfolding exists_where select_first
  exists_where-select_first p [] = refl
  exists_where-select_first p (x ∷ rs) = ground (arith, exists_where-select_first p rs)

  pub select_first-append :
      (p : A → Bool) (rs : List A) (a : A)
      → select_first p (rs ++ a ∷ [])
        ≡ (if is_some (select_first p rs) then select_first p rs else if p a then some a else none)
  unfolding select_first
  select_first-append p [] a = refl
  select_first-append p (x ∷ rs) a = ground (arith, select_first-append p rs a)

  -- An update that does not change what the condition reads.
  pub select_first-update :
      (p t : A → Bool) (f : A → A) (rs : List A)
      → ((r : A) → p (f r) ≡ p r)
      → select_first p (update_where t f rs)
        ≡ Option.map (λ r. if t r then f r else r) (select_first p rs)
  unfolding select_first update_where
  select_first-update p t f [] h = refl
  select_first-update p t f (x ∷ rs) h = ground (arith, h x, select_first-update p t f rs h)

  -- An update of rows that the condition does not select.
  pub select_first-update_apart :
      (p t : A → Bool) (f : A → A) (rs : List A)
      → ((r : A) → t r ≡ true → (p r ≡ false) × (p (f r) ≡ false))
      → select_first p (update_where t f rs) ≡ select_first p rs
  unfolding select_first update_where
  select_first-update_apart p t f [] h = refl
  select_first-update_apart p t f (x ∷ rs) h =
      ground (arith, h x, select_first-update_apart p t f rs h)

  pub select_first-delete_apart :
      (p t : A → Bool) (rs : List A)
      → ((r : A) → t r ≡ true → p r ≡ false)
      → select_first p (delete_where t rs) ≡ select_first p rs
  unfolding select_first delete_where
  select_first-delete_apart p t [] h = refl
  select_first-delete_apart p t (x ∷ rs) h = ground (arith, h x, select_first-delete_apart p t rs h)

  pub select_first-delete : (p : A → Bool) (rs : List A) → select_first p (delete_where p rs) ≡ none
  unfolding select_first delete_where
  select_first-delete p [] = refl
  select_first-delete p (x ∷ rs) = ground (arith, select_first-delete p rs)

  -- Where at most one row meets the condition, how many meet it and another one is told by that row.
  pub count_where-select_first :
      (p c : A → Bool) (rs : List A)
      → count_where p rs ≤ 1
      → 0 < count_where (λ r. p r && c r) rs
      → (r : A) × (select_first p rs ≡ some r) × (c r ≡ true)
  unfolding count_where select_first
  count_where-select_first p c [] u h = elim h [ ]
  count_where-select_first p c (x ∷ rs) u h = elim (Bool-cases (p x)) [
    | inl hit ↦ elim (Bool-cases (c x)) [
      | inl good ↦ (x, ground arith, good)
      | inr bad ↦
          absurd
            (ground (arith, count_where-le (λ r. p r && c r) p rs (λ r. both_left (p r) (c r))))
    ]
    | inr miss ↦
        let (r, e, g) = count_where-select_first p c rs (ground arith) (ground arith) in
        (r, ground arith, g)
  ]
