-- ===== src/Policy/Rounds/Globs.antt =====
-- The rounds of path.Match, as componentMatches of internal/policy/policy.go calls it.
use agent_fox.Policy.Rounds.{
  Leaves, length, Bool, ◌∷◌, suc, arith, Leaves-weaken, Leaves-if, some, if_agree, drop,
  Leaves-agree, Leaves-bind, length-drop-le, Leaves-map,
}
use agent_fox.Prelude.{
  ℕ, length, Bool, ◌∷◌, ◌≤◌, arith, ◌≡◌, nat_eq, ◌&&◌, [], not, some, true, false, zero, suc, none,
  refl, if◌then◌else◌, ◌||◌, ◌+◌, ◌<◌, ap,
}
use agent_fox.Policy.Text.{Word, drop}
use agent_fox.Policy.Glob.{
  get_esc, range_end, class_ranges, at_close, read_class, glob, negates, in_range, path_match,
}

get_esc-Leaves : (c : ℕ) (p : Word) → Leaves (length p) (get_esc (c ∷ p))
unfolding get_esc
get_esc-Leaves c [] = ground arith
get_esc-Leaves c (d ∷ []) = ground arith
get_esc-Leaves c (d ∷ e ∷ p) = ground arith

get_esc_within : (p : Word) → Leaves (length p) (get_esc p)
get_esc_within [] = unfold get_esc in tt
get_esc_within (c ∷ p) =
    Leaves-weaken (length p) _ (get_esc (c ∷ p)) (omega arith) (get_esc-Leaves c p)

range_end-Leaves : (lo : ℕ) (p : Word) → Leaves (length p) (range_end lo p)
unfolding range_end
range_end-Leaves lo [] = tt
range_end-Leaves lo (c ∷ p) =
    Leaves-if (length (c ∷ p)) (nat_eq c b'-') (get_esc p) (some (lo, c ∷ p))
      (Leaves-weaken (length p) _ (get_esc p) (omega arith) (get_esc_within p)) (omega arith)

class_ranges_agree :
    (n k : ℕ) (first : Bool) (c : ℕ) (found : Bool) (p : Word)
    → length p ≤ n
    → length p ≤ k
    → class_ranges n first c found p ≡ class_ranges k first c found p
unfolding class_ranges
class_ranges_agree zero zero first c found p h h' = refl
class_ranges_agree zero (suc k) first c found [] h h' = unfold get_esc in refl
class_ranges_agree zero (suc k) first c found (d ∷ p) h h' = absurd (omega arith)
class_ranges_agree (suc n) zero first c found [] h h' = unfold get_esc in refl
class_ranges_agree (suc n) zero first c found (d ∷ p) h h' = absurd (omega arith)
class_ranges_agree (suc n) (suc k) first c found [] h h' = unfold get_esc in refl
class_ranges_agree (suc n) (suc k) first c found (d ∷ p) h h' =
    if_agree (at_close (d ∷ p) && not first) _ _ _ _ refl (
      Leaves-agree (length p) (get_esc (d ∷ p)) none _ _ (get_esc-Leaves d p) λ lo less.
        Leaves-agree (length p) (range_end lo.0 lo.1) none _ _
          (Leaves-weaken (length lo.1) _ (range_end lo.0 lo.1) less (range_end-Leaves lo.0 lo.1))
          λ hi less'.
            class_ranges_agree n k false c (found || in_range c lo.0 hi.0) hi.1 (omega arith)
              (omega arith))

class_ranges-Leaves :
    (n : ℕ) (first : Bool) (c : ℕ) (found : Bool) (p : Word)
    → Leaves (length p) (class_ranges n first c found p)
unfolding class_ranges
class_ranges-Leaves zero first c found p = tt
class_ranges-Leaves (suc n) first c found [] = unfold get_esc in tt
class_ranges-Leaves (suc n) first c found (d ∷ p) =
    elim (at_close (d ∷ p) && not first)
      as (λ b. Leaves (length (d ∷ p)) (elim b [
        | true ↦ some (found, drop 1 (d ∷ p))
        | false ↦ elim (get_esc (d ∷ p)) [
          | none ↦ none
          | some (lo, p') ↦ elim (range_end lo p') [
            | none ↦ none
            | some (hi, p'') ↦ class_ranges n false c (found || in_range c lo hi) p''
          ]
        ]
      ])) [
        | true ↦ omega arith
        | false ↦ Leaves-bind (length p) _ (get_esc (d ∷ p)) _ (get_esc-Leaves d p) λ lo less.
            Leaves-bind (length p) _ (range_end lo.0 lo.1) _
              (Leaves-weaken (length lo.1) _ (range_end lo.0 lo.1) less
                (range_end-Leaves lo.0 lo.1))
              λ hi less'.
                Leaves-weaken (length hi.1) _ _ (omega arith)
                  (class_ranges-Leaves n false c (found || in_range c lo.0 hi.0) hi.1)
      ]

read_class-Leaves : (c : ℕ) (p : Word) → Leaves (length p) (read_class c p)
unfolding read_class
read_class-Leaves c p =
    let q = if negates p then drop 1 p else p in
    let shorter : length q ≤ length p = ground (arith, length-drop-le 1 p) in
    Leaves-map (length p) (λ b. if negates p then not b else b)
      (class_ranges (length q) true c false q)
      (Leaves-weaken (length q) _ _ shorter (class_ranges-Leaves (length q) true c false q))

glob_agree :
    (n k : ℕ) (p s : Word)
    → length p + length s < n
    → length p + length s < k
    → glob n p s ≡ glob k p s
unfolding glob
glob_agree zero k p s h h' = absurd (omega arith)
glob_agree (suc n) zero p s h h' = absurd (omega arith)
glob_agree (suc n) (suc k) [] s h h' = refl
glob_agree (suc n) (suc k) (b ∷ p) [] h h' =
    let deeper = glob_agree n k p [] (omega arith) (omega arith) in ground (arith, deeper)
glob_agree (suc n) (suc k) (b ∷ p) (c ∷ s) h h' =
    let one = glob_agree n k p s (omega arith) (omega arith) in
    let shorter = length-drop-le 1 p in
    let two = glob_agree n k (drop 1 p) s (omega arith) (omega arith) in
    let star = glob_agree n k p (c ∷ s) (omega arith) (omega arith) in
    let again = glob_agree n k (b ∷ p) s (omega arith) (omega arith) in
    if_agree (nat_eq b b'*') _ _ _ _ (ground (arith, star, again)) (
      if_agree (nat_eq b b'[') _ _ _ _
        (Leaves-agree (length p) (read_class c p) false _ _ (read_class-Leaves c p)
          λ m less. ap (λ x. m.0 && x) (glob_agree n k m.1 s (omega arith) (omega arith)))
        (ground (arith, one, two)))

-- More rounds than path_match has make no difference.
pub path_match_rounds : (n : ℕ) (p s : Word) → length p + length s < n → glob n p s ≡ path_match p s
unfolding path_match
path_match_rounds n p s h = glob_agree n (length p + length s + 1) p s h (omega arith)
