-- ===== src/Prelude/Equality.antt =====
-- One equality test for every type of key.
use agent_fox.Prelude.Tests.{nat_eq, nat_eq_iff}
use text.Mathlib.TextEquality.{eq_iff}
use text.Mathlib.Text.{◌==◌ as text_eq}
use native.Mathlib.Omega.{arith}
use mathlib.Core.Bool.{Bool, true, false}
use mathlib.Core.Logic.{◌↔◌, ◌≢◌}
use mathlib.Core.Path.{◌≡◌, refl}
use Prim.Native.String.{String}
use Prim.Native.Nat.{ℕ}

-- A type whose keys can be told apart: the test, which is true at a key and itself, and a proof that
-- it is true at no other.
pub record Eq {ℓ} (K : Type ℓ) : Type ℓ where
  pub same_key : K → K → Bool
  pub at_itself : (k : K) → same_key k k ≡ true
  pub only_there : (k j : K) → same_key k j ≡ true → k ≡ j

abbrev pub ◌==◌ {ℓ} : {K : Type ℓ} ⦃keys : Eq K⦄ → K → K → Bool
◌==◌ ⦃keys⦄ k j = keys.same_key k j

infix 50 ◌==◌
module _ {ℓ} {K : Type ℓ} ⦃keys : Eq K⦄ where
  pub ==_refl : (k : K) → (k == k) ≡ true
  ==_refl k = keys.at_itself k

  -- A test as an equivalence, at the two keys that it compares.
  pub ==_iff : (k j : K) → ((k == j) ≡ true) ↔ (k ≡ j)
  ==_iff k j = (keys.only_there k j, λ e. rw e (keys.at_itself j))

  pub ==_ne : {k j : K} → k ≢ j → (k == j) ≡ false
  ==_ne {k} {j} h = ground (arith, ==_iff k j)

-- The types of the keys of the state file.
instance abbrev pub String_Eq : Eq String
String_Eq = record {
  same_key = text_eq;
  at_itself = λ s. (eq_iff s s).1 refl;
  only_there = λ s t. (eq_iff s t).0;
}

instance abbrev pub ℕ_Eq : Eq ℕ
ℕ_Eq = record {
  same_key = nat_eq;
  at_itself = λ n. (nat_eq_iff n n).1 refl;
  only_there = λ n m. (nat_eq_iff n m).0;
}
