-- ===== src/Policy/Names.antt =====
-- Absolute paths of internal/policy/policy.go as filepath.Clean makes them: by their components.
use Prim.Native.Nat.{ℕ}
use agent_fox.Table.Every.{Each}
use agent_fox.Table.{exists_where}
use agent_fox.Policy.Paths.{clean_from, clean, components, clean_step, is_abs, clean_dots}
use agent_fox.Policy.Text.{
  Word, Words, split, join, slash, has_prefix, has_byte, push_front, bytes, Word_Eq,
}
use agent_fox.Prelude.{
  true, false, refl, [], inl, inr, is_empty, ◌∷◌, ◌≡◌, ◌==◌, nat_eq, ap, ◌++◌, arith, append_assoc,
  ◌∙◌, sym, append_nil, Bool-cases,
}
use mathlib.Core.List.{reverse, reverse_aux, reverse-cons}

-- A component that names something: not empty, neither . nor .., and without a slash.
pub record IsName (c : Word) : Type 0 where
  pub filled : is_empty c ≡ false
  pub not_here : (c == bytes ".") ≡ false
  pub not_up : (c == bytes "..") ≡ false
  pub one_part : has_byte c slash ≡ false

-- The absolute path with the components.
abbrev pub path_of : Words → Word
path_of ws = slash ∷ join ws (slash ∷ [])

split_one : (c : Word) → has_byte c slash ≡ false → split c slash ≡ c ∷ []
unfolding split exists_where
split_one [] h = refl
split_one (b ∷ c) h =
    let here : nat_eq b slash ≡ false = ground (arith, h) in
    let later : has_byte c slash ≡ false = ground (arith, h) in rw (here, split_one c later) refl

split_first :
    (c s : Word) → has_byte c slash ≡ false → split (c ++ slash ∷ s) slash ≡ c ∷ split s slash
unfolding split exists_where
split_first [] s h = refl
split_first (b ∷ c) s h =
    let here : nat_eq b slash ≡ false = ground (arith, h) in
    let later : has_byte c slash ≡ false = ground (arith, h) in
    rw (here, split_first c s later) refl

pub join-cons :
    (w v : Word) (ws : Words)
    → join (w ∷ v ∷ ws) (slash ∷ []) ≡ w ++ slash ∷ join (v ∷ ws) (slash ∷ [])
unfolding join
join-cons w v ws = append_assoc w (slash ∷ []) (join (v ∷ ws) (slash ∷ []))

pub join-one : (w : Word) → join (w ∷ []) (slash ∷ []) ≡ w
unfolding join
join-one w = refl

split-join :
    (w : Word) (ws : Words)
    → Each IsName (w ∷ ws)
    → split (join (w ∷ ws) (slash ∷ [])) slash ≡ w ∷ ws
split-join w [] (name, names) = ap (λ s. split s slash) (join-one w) ∙ split_one w name.one_part
split-join w (v ∷ ws) (name, names) =
    ap (λ s. split s slash) (join-cons w v ws)
    ∙ split_first w (join (v ∷ ws) (slash ∷ [])) name.one_part
    ∙ ap (λ l. w ∷ l) (split-join v ws names)

filled_join : (w : Word) (ws : Words) → IsName w → is_empty (join (w ∷ ws) (slash ∷ [])) ≡ false
unfolding join
filled_join [] ws name = absurd (let e = name.filled in cc)
filled_join (c ∷ w) [] name = refl
filled_join (c ∷ w) (v ∷ ws) name = refl

name_kept : (stack : Words) (w : Word) → IsName w → clean_step true stack w ≡ w ∷ stack
name_kept stack w name = rw (name.filled, name.not_here, name.not_up) refl

clean_from-names :
    (stack ws : Words) → Each IsName ws → clean_from true stack ws ≡ reverse stack ++ ws
unfolding clean_from
clean_from-names stack [] names = sym (append_nil (reverse stack))
clean_from-names stack (w ∷ ws) (name, names) =
    ap (λ st. clean_from true st ws) (name_kept stack w name)
    ∙ clean_from-names (w ∷ stack) ws names
    ∙ ap (λ l. l ++ ws) (reverse-cons w stack)
    ∙ append_assoc (reverse stack) (w ∷ []) ws

parts_kept : (ws : Words) → Each IsName ws → clean_from true [] (split (path_of ws) slash) ≡ ws
unfolding clean_from split join
parts_kept [] names = refl
parts_kept (w ∷ ws) names =
    ap (clean_from true []) (split-join w ws names) ∙ clean_from-names [] (w ∷ ws) names

pub clean-path_of : (ws : Words) → Each IsName ws → clean (path_of ws) ≡ path_of ws
unfolding clean has_prefix
clean-path_of ws names = ap (λ l. slash ∷ join l (slash ∷ [])) (parts_kept ws names)

nothing_there : components (path_of []) ≡ []
unfolding components has_prefix join
nothing_there = refl

pub components-path_of : (ws : Words) → Each IsName ws → components (path_of ws) ≡ ws
unfolding components has_prefix
components-path_of [] names = nothing_there
components-path_of (w ∷ ws) names = rw (filled_join w ws names.0) (split-join w ws names)

-- Clean of any absolute path is such a path.
clean_dots-IsName : (stack : Words) → Each IsName stack → Each IsName (clean_dots true stack)
clean_dots-IsName [] names = tt
clean_dots-IsName (top ∷ stack) (name, names) = rw name.not_up names

clean_step-IsName :
    (stack : Words) (w : Word)
    → Each IsName stack
    → has_byte w slash ≡ false
    → Each IsName (clean_step true stack w)
clean_step-IsName stack w names one = elim (Bool-cases (is_empty w)) [
  | inl nothing ↦ rw nothing names
  | inr filled ↦ elim (Bool-cases (w == bytes ".")) [
    | inl here ↦ rw (filled, here) names
    | inr other ↦ elim (Bool-cases (w == bytes "..")) [
      | inl up ↦ rw (filled, other, up) (clean_dots-IsName stack names)
      | inr name ↦
          let named : IsName w = record {
            filled = filled;
            not_here = other;
            not_up = name;
            one_part = one;
          } in
          rw (filled, other, name) (named, names)
    ]
  ]
]

Each-reverse_aux :
    (ws vs : Words) → Each IsName ws → Each IsName vs → Each IsName (reverse_aux ws vs)
Each-reverse_aux [] vs names names' = names'
Each-reverse_aux (w ∷ ws) vs (name, names) names' =
    Each-reverse_aux ws (w ∷ vs) names (name, names')

clean_from-IsName :
    (stack parts : Words)
    → Each IsName stack
    → Each (λ w. has_byte w slash ≡ false) parts
    → Each IsName (clean_from true stack parts)
unfolding clean_from
clean_from-IsName stack [] names one = Each-reverse_aux stack [] names tt
clean_from-IsName stack (w ∷ parts) names (first, later) =
    clean_from-IsName (clean_step true stack w) parts (clean_step-IsName stack w names first) later

push_front-one_part :
    (c : ℕ) (ws : Words)
    → nat_eq c slash ≡ false
    → Each (λ w. has_byte w slash ≡ false) ws
    → Each (λ w. has_byte w slash ≡ false) (push_front c ws)
unfolding exists_where
push_front-one_part c [] e h = (rw e refl, tt)
push_front-one_part c (w ∷ ws) e (first, later) = (rw (e, first) refl, later)

split-one_part : (s : Word) → Each (λ w. has_byte w slash ≡ false) (split s slash)
unfolding split exists_where
split-one_part [] = (refl, tt)
split-one_part (c ∷ s) = elim (Bool-cases (nat_eq c slash)) [
  | inl e ↦ rw e (refl, split-one_part s)
  | inr e ↦ rw e (push_front-one_part c (split s slash) e (split-one_part s))
]

pub clean-IsNamed :
    (p : Word) → is_abs p ≡ true → (ws : Words) × ((clean p ≡ path_of ws) × Each IsName ws)
unfolding clean
clean-IsNamed p absolute = (
  clean_from true [] (split p slash),
  (rw absolute refl, clean_from-IsName [] (split p slash) tt (split-one_part p)),
)
