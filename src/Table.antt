-- ===== src/Table.antt =====
-- A table of the state file as the list of its rows, in the order they were stored, and the
-- statements of SQL that internal/service/jobs makes on one: a condition is a Boolean test.
pub mod Counting
pub mod Every
pub mod Lookup
pub mod Numbering
use agent_fox.Prelude.{
  ℕ, suc, ◌+◌, max, Bool, true, false, not, Option, none, some, List, [], ◌∷◌, if◌then◌else◌, ltb,
  zero, refl, inl, inr,
}

module _ {ℓ} {A : Type ℓ} where
  -- UPDATE … SET f WHERE test.
  unfoldable pub update_where : (A → Bool) → (A → A) → List A → List A
  update_where test f [] = []
  update_where test f (r ∷ rs) = (if test r then f r else r) ∷ update_where test f rs

  -- How many rows meet the test, which is the RowsAffected of an update and of a delete.
  unfoldable pub count_where : (A → Bool) → List A → ℕ
  count_where test [] = 0
  count_where test (r ∷ rs) = (if test r then 1 else 0) + count_where test rs

  -- SELECT … WHERE test, one row.
  unfoldable pub select_first : (A → Bool) → List A → Option A
  select_first test [] = none
  select_first test (r ∷ rs) = if test r then some r else select_first test rs

  -- SELECT … WHERE test.
  unfoldable pub select_where : (A → Bool) → List A → List A
  select_where test [] = []
  select_where test (r ∷ rs) = let rest = select_where test rs in if test r then r ∷ rest else rest

  -- DELETE … WHERE test.
  unfoldable pub delete_where : (A → Bool) → List A → List A
  delete_where test [] = []
  delete_where test (r ∷ rs) = let rest = delete_where test rs in if test r then rest else r ∷ rest

  -- SELECT EXISTS (SELECT 1 … WHERE test).
  unfoldable pub exists_where : (A → Bool) → List A → Bool
  exists_where test [] = false
  exists_where test (r ∷ rs) = if test r then true else exists_where test rs

  -- SELECT COALESCE(MAX(number), 0) … WHERE test.
  unfoldable pub max_where : (A → Bool) → (A → ℕ) → List A → ℕ
  max_where test number [] = 0
  max_where test number (r ∷ rs) = max (if test r then number r else 0) (max_where test number rs)

  -- The row of the least number.
  lesser : (A → ℕ) → A → Option A → A
  lesser number r none = r
  lesser number r (some s) = if ltb (number s) (number r) then s else r

  -- SELECT … WHERE test ORDER BY number LIMIT 1. Of equal numbers the first stored is taken.
  unfoldable pub select_least : (A → Bool) → (A → ℕ) → List A → Option A
  unfolding lesser
  select_least test number [] = none
  select_least test number (r ∷ rs) =
      let rest = select_least test number rs in if test r then some (lesser number r rest) else rest

  -- ORDER BY, where before is the order of two rows; rows that it does not part stay as they are.
  insert_before : (A → A → Bool) → A → List A → List A
  insert_before before r [] = r ∷ []
  insert_before before r (s ∷ rs) =
      let later = insert_before before r rs in if before s r then s ∷ later else r ∷ s ∷ rs

  unfoldable pub order_by : (A → A → Bool) → List A → List A
  unfolding insert_before
  order_by before [] = []
  order_by before (r ∷ rs) = insert_before before r (order_by before rs)
