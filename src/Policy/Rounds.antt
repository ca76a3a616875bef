-- ===== src/Policy/Rounds.antt =====
-- Why the rounds that the loops of internal/policy are given are enough: a call with more of them
-- returns the same.
pub mod Globs
pub mod Readers
pub mod Nested
pub mod Above
pub mod Links
use mathlib.Core.Option
use agent_fox.Policy.Text.{Word, drop}
use agent_fox.Prelude.{
  ℕ, Option, some, ◌≤◌, length, arith, none, suc, ◌∷◌, zero, [], Bool, ◌≡◌, if◌then◌else◌, true,
  false, refl, inl, inr,
}

-- What a reader returns leaves at most so many bytes.
abbrev pub Leaves {ℓ} : {A : Type ℓ} → ℕ → Option (A × Word) → Type 0
Leaves n none = Unit
Leaves n (some k) = length k.1 ≤ n

pub Leaves-weaken {ℓ} :
    {A : Type ℓ} (n k : ℕ) (o : Option (A × Word)) → n ≤ k → Leaves n o → Leaves k o
Leaves-weaken n k none h l = tt
Leaves-weaken n k (some p) h l = omega arith

pub length-drop-le : (n : ℕ) (w : Word) → length (drop n w) ≤ length w
length-drop-le zero w = omega arith
length-drop-le (suc n) [] = omega arith
length-drop-le (suc n) (c ∷ w) = omega (arith, length-drop-le n w)

pub Leaves-if {ℓ} :
    {A : Type ℓ} (n : ℕ) (b : Bool) (x y : Option (A × Word))
    → Leaves n x
    → Leaves n y
    → Leaves n (if b then x else y)
Leaves-if n true x y hx hy = hx
Leaves-if n false x y hx hy = hy

-- Two ways to go on with what a reader returns are the same if they are for what it can leave.
pub Leaves-agree {ℓ κ} :
    {A : Type ℓ} {B : Type κ} (n : ℕ) (o : Option (A × Word)) (none_is : B) (f g : A × Word → B)
    → Leaves n o
    → ((k : A × Word) → length k.1 ≤ n → f k ≡ g k)
    → elim o [ none ↦ none_is | some k ↦ f k ] ≡ elim o [ none ↦ none_is | some k ↦ g k ]
Leaves-agree n none none_is f g h same = refl
Leaves-agree n (some k) none_is f g h same = same k h

pub Leaves-bind {ℓ κ} :
    {A : Type ℓ} {B : Type κ} (n m : ℕ) (o : Option (A × Word)) (f : A × Word → Option (B × Word))
    → Leaves n o
    → ((k : A × Word) → length k.1 ≤ n → Leaves m (f k))
    → Leaves m (elim o [ none ↦ none | some k ↦ f k ])
Leaves-bind n m none f h next = tt
Leaves-bind n m (some k) f h next = next k h

pub if_agree {ℓ} :
    {A : Type ℓ} (b : Bool) (x y x' y' : A)
    → x ≡ x'
    → y ≡ y'
    → elim b as (λ _. A) [ true ↦ x | false ↦ y ] ≡ elim b as (λ _. A) [ true ↦ x' | false ↦ y' ]
if_agree true x y x' y' hx hy = hx
if_agree false x y x' y' hx hy = hy

pub Leaves-map {ℓ} :
    {A : Type ℓ} (n : ℕ) (f : A → A) (o : Option (A × Word))
    → Leaves n o
    → Leaves n (Option.map (λ k. (f k.0, k.1)) o)
Leaves-map n f none h = tt
Leaves-map n f (some k) h = h
