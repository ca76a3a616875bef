-- ===== src/Policy/Rounds/Above.antt =====
-- The length of a path that filepath.Clean makes, and of the directory above one, as the loop of
-- realPath of internal/policy/policy.go takes it.
use agent_fox.Policy.Paths.{clean_from, clean_step, or_dot, clean, from_slash, is_abs, dir_of}
use mathlib.Core.List.{reverse_aux, reverse, reverse-cons}
use agent_fox.Policy.Prefix.{size}
use agent_fox.Policy.Text.{
  split, Words, Word, push_front, same_word, join, slash, same_word_iff, bytes, has_prefix, Word_Eq,
}
use agent_fox.Prelude.{
  refl, [], inl, inr, if◌then◌else◌, ℕ, ◌≤◌, ◌≡◌, ◌∷◌, arith, Bool-cases, is_empty, ◌+◌, length,
  nat_eq, true, Bool, ◌++◌, ap, ◌∙◌, ◌-◌, length-append, false, max, ◌⊎◌, nat_eq_iff, ◌<◌, subst,
  sym,
}

split-ne-nil : (s : Word) (b : ℕ) → (w : Word) × ((ws : Words) × (split s b ≡ w ∷ ws))
unfolding split
split-ne-nil [] b = ([], ([], refl))
split-ne-nil (c ∷ s) b = elim (Bool-cases (nat_eq c b)) [
  | inl e ↦ ([], (split s b, rw e refl))
  | inr e ↦ let (w, (ws, later)) = split-ne-nil s b in (c ∷ w, (ws, rw (e, later) refl))
]

-- The bytes of the components that clean keeps, with one more for each.
unfoldable weight : Words → ℕ
weight [] = 0
weight (w ∷ ws) = (if is_empty w then 0 else length w + 1) + weight ws

weight-le : (ws : Words) → weight ws ≤ size ws
unfolding weight size
weight-le [] = omega arith
weight-le (w ∷ ws) = ground (arith, weight-le ws)

push_front-size : (c : ℕ) (w : Word) (ws : Words) → size (push_front c (w ∷ ws)) ≡ size (w ∷ ws) + 1
unfolding size
push_front-size c w ws = omega arith

size-split : (s : Word) (b : ℕ) → size (split s b) ≡ length s + 1
unfolding split size
size-split [] b = omega arith
size-split (c ∷ s) b =
    let (w, (ws, parts)) = split-ne-nil s b in
    let one : size (push_front c (split s b)) ≡ size (split s b) + 1 =
      rw parts (push_front-size c w ws) in
    ground (arith, one, size-split s b)

weight-append : (v w : Words) → weight (v ++ w) ≡ weight v + weight w
unfolding weight
weight-append [] w = omega arith
weight-append (x ∷ v) w = ground (arith, weight-append v w)

split-append_sep : (s : Word) (b : ℕ) → split (s ++ b ∷ []) b ≡ split s b ++ [] ∷ []
unfolding split
split-append_sep [] b = ground arith
split-append_sep (c ∷ s) b =
    let (w, (ws, parts)) = split-ne-nil s b in
    let pushed : push_front c (split s b ++ [] ∷ []) ≡ push_front c (split s b) ++ [] ∷ [] =
      rw parts refl in
    ground (arith, pushed, split-append_sep s b)

weight-split_dir : (s : Word) → weight (split (s ++ slash ∷ []) slash) ≤ length s + 1
weight-split_dir s =
    let parts = split-append_sep s slash in
    let whole = weight-append (split s slash) ([] ∷ []) in
    let none_more : weight ([] ∷ []) ≡ 0 = unfold weight in omega arith in
    let kept : weight (split (s ++ slash ∷ []) slash) ≡ weight (split s slash) =
      ap weight parts ∙ whole ∙ omega (arith, none_more) in
    omega (arith, kept, weight-le (split s slash), size-split s slash)

length_same : (v w : Word) → same_word v w ≡ true → length v ≡ length w
length_same v w h = ap length ((same_word_iff v w).0 h)

clean_step-size :
    (rooted : Bool) (stack : Words) (part : Word)
    → size (clean_step rooted stack part)
      ≤ size stack + (if is_empty part then 0 else length part + 1)
unfolding size
clean_step-size rooted [] part = ground (arith, length_same part (bytes ".."))
clean_step-size rooted (top ∷ stack) part =
    ground (arith, length_same part (bytes ".."), length_same top (bytes ".."))

size-reverse_aux : (v w : Words) → size (reverse_aux v w) ≡ size v + size w
unfolding size
size-reverse_aux [] w = omega arith
size-reverse_aux (x ∷ v) w = omega (arith, size-reverse_aux v (x ∷ w))

clean_from-size :
    (rooted : Bool) (parts stack : Words)
    → size (clean_from rooted stack parts) ≤ size stack + weight parts
unfolding clean_from weight
clean_from-size rooted [] stack =
    let whole = size-reverse_aux stack [] in
    let nothing : size [] ≡ 0 = unfold size in refl in omega (arith, whole, nothing)
clean_from-size rooted (part ∷ parts) stack = omega (
  arith,
  clean_from-size rooted parts (clean_step rooted stack part),
  clean_step-size rooted stack part,
)

length-join : (ws : Words) → length (join ws (slash ∷ [])) ≤ size ws - 1
unfolding join size
length-join [] = omega arith
length-join (w ∷ []) = omega arith
length-join (w ∷ v ∷ ws) = omega (
  arith,
  length-append (w ++ slash ∷ []) (join (v ∷ ws) (slash ∷ [])),
  length-append w (slash ∷ []),
  length-join (v ∷ ws),
)

-- What clean keeps of the components of a directory, with slashes between them.
kept_of : Bool → Word → Word
kept_of rooted d = join (clean_from rooted [] (split d slash)) (slash ∷ [])

length-kept_of : (rooted : Bool) (d : Word) → length (kept_of rooted d) ≤ weight (split d slash) - 1
unfolding kept_of
length-kept_of rooted d =
    let nothing : size [] ≡ 0 = unfold size in refl in
    omega (
      arith,
      length-join (clean_from rooted [] (split d slash)),
      clean_from-size rooted (split d slash) [],
      nothing,
    )

length-or_dot : (w : Word) → length (or_dot w) ≤ max 1 (length w)
length-or_dot [] = omega arith
length-or_dot (c ∷ w) = omega arith

clean_of : Bool → Word → Word
clean_of rooted d = or_dot (if rooted then slash ∷ kept_of rooted d else kept_of rooted d)

clean-clean_of : (d : Word) (rooted : Bool) → is_abs d ≡ rooted → clean d ≡ clean_of rooted d
unfolding clean clean_of kept_of
clean-clean_of d rooted e = ap (λ b. clean_of b d) e

clean_of-relative : (s : Word) → length (clean_of false (s ++ slash ∷ [])) ≤ max 1 (length s)
unfolding clean_of
clean_of-relative s = omega (
  arith,
  length-or_dot (kept_of false (s ++ slash ∷ [])),
  length-kept_of false (s ++ slash ∷ []),
  weight-split_dir s,
)

weight-rooted : (w : Word) → weight (split (slash ∷ w) slash) ≡ weight (split w slash)
unfolding split weight
weight-rooted w = omega arith

clean_of-rooted : (s : Word) → length (clean_of true (slash ∷ (s ++ slash ∷ []))) ≤ length s + 1
unfolding clean_of
clean_of-rooted s = omega (
  arith,
  length-kept_of true (slash ∷ (s ++ slash ∷ [])),
  weight-rooted (s ++ slash ∷ []),
  weight-split_dir s,
)

is_abs_of : (c : ℕ) (s : Word) → is_abs (c ∷ s) ≡ nat_eq c slash
unfolding has_prefix
is_abs_of c s = ground arith

-- A path in front of a slash is no shorter than what clean makes of both.
clean_dir-le : (c : ℕ) (s : Word) → length (clean (c ∷ (s ++ slash ∷ []))) ≤ length (c ∷ s)
clean_dir-le c s = elim (Bool-cases (nat_eq c slash)) [
  | inl e ↦
      let same : c ≡ slash = (nat_eq_iff c slash).0 e in
      let whole =
        clean-clean_of (slash ∷ (s ++ slash ∷ [])) true (is_abs_of slash (s ++ slash ∷ [])) in
      let whole' : length (clean (slash ∷ (s ++ slash ∷ [])))
          ≡ length (clean_of true (slash ∷ (s ++ slash ∷ []))) =
        ap length whole in
      rw same (omega (arith, whole', clean_of-rooted s))
  | inr e ↦
      let whole =
        clean-clean_of (c ∷ (s ++ slash ∷ [])) false (is_abs_of c (s ++ slash ∷ []) ∙ e) in
      let whole' : length (clean (c ∷ (s ++ slash ∷ [])))
          ≡ length (clean_of false (c ∷ (s ++ slash ∷ []))) =
        ap length whole in
      omega (arith, whole', clean_of-relative (c ∷ s))
]

from_slash-shape :
    (r : Word)
    → (from_slash r ≡ [])
      ⊎ ((r' : Word) × ((from_slash r ≡ slash ∷ r') × (length r' + 1 ≤ length r)))
unfolding from_slash
from_slash-shape [] = inl refl
from_slash-shape (c ∷ r) = elim (Bool-cases (nat_eq c slash)) [
  | inl e ↦
      let same : c ≡ slash = (nat_eq_iff c slash).0 e in
      inr (r, (ground (arith, e, same), omega arith))
  | inr e ↦ elim (from_slash-shape r) [
    | inl none_is ↦ inl (ground (arith, e, none_is))
    | inr (r', (e', h)) ↦ inr (r', (ground (arith, e, e'), omega arith))
  ]
]

length-reverse_aux : (v w : Word) → length (reverse_aux v w) ≡ length v + length w
length-reverse_aux [] w = omega arith
length-reverse_aux (x ∷ v) w = omega (arith, length-reverse_aux v (x ∷ w))

-- The directory above: shorter, or its own.
abbrev pub IsLast : Word → Type 0
IsLast q = dir_of q ≡ q

root-IsLast : IsLast (bytes "/")
unfolding dir_of from_slash clean clean_from split join has_prefix same_word
root-IsLast = refl

here-IsLast : IsLast (bytes ".")
unfolding dir_of from_slash clean clean_from split join has_prefix same_word
here-IsLast = refl

clean_root : clean (bytes "/") ≡ bytes "/"
unfolding clean clean_from split join has_prefix same_word
clean_root = refl

clean_nothing : clean [] ≡ bytes "."
unfolding clean clean_from split join has_prefix same_word
clean_nothing = refl

dir_of-slash :
    (q r : Word) → from_slash (reverse q) ≡ slash ∷ r → dir_of q ≡ clean (reverse r ++ slash ∷ [])
unfolding dir_of
dir_of-slash q r e = ap (λ w. clean (reverse w)) e ∙ ap clean (reverse-cons slash r)

dir_of-none : (q : Word) → from_slash (reverse q) ≡ [] → dir_of q ≡ bytes "."
unfolding dir_of
dir_of-none q e = ap (λ w. clean (reverse w)) e ∙ clean_nothing

above_shorter :
    (s : Word)
    → (length (clean (s ++ slash ∷ [])) ≤ length s) ⊎ (clean (s ++ slash ∷ []) ≡ bytes "/")
above_shorter [] = inr clean_root
above_shorter (c ∷ s) = inl (clean_dir-le c s)

pub dir_of-shorter : (q : Word) → (length (dir_of q) < length q) ⊎ IsLast (dir_of q)
dir_of-shorter q = elim (from_slash-shape (reverse q)) [
  | inl e ↦ inr (subst IsLast (sym (dir_of-none q e)) here-IsLast)
  | inr (r, (e, h)) ↦ elim (above_shorter (reverse r)) [
    | inl shorter ↦
        let length_of = ap length (dir_of-slash q r e) in
        inl (omega (arith, length_of, shorter, length-reverse_aux r [], length-reverse_aux q [], h))
    | inr root ↦ inr (subst IsLast (sym (dir_of-slash q r e ∙ root)) root-IsLast)
  ]
]
