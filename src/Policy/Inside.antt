-- ===== src/Policy/Inside.antt =====
-- Which paths lexicallyWithin of internal/policy/policy.go takes to be inside a directory.
use agent_fox.Policy.Covering.{LiesBelow}
use agent_fox.Table.{exists_where}
use agent_fox.Policy.Names.{
  IsName, path_of, clean-path_of, components-path_of, clean-IsNamed, join-one, join-cons,
}
use agent_fox.Table.Every.{Each}
use agent_fox.Policy.Paths.{
  rel_parts, rel, lexically_within, stays_in, clean, is_abs, stays, components,
}
use agent_fox.Policy.Text.{
  join, same_word, Words, Word, has_prefix, slash, bytes, Word_Eq, same_word_iff,
}
use agent_fox.Prelude.{
  true, false, none, some, refl, [], inl, inr, if◌then◌else◌, Option, Bool, ◌≡◌, ◌==◌, ◌∷◌, ◌↔◌,
  sym, arith, ◌++◌, ap, map, Bool-cases, ◌∙◌, append_nil,
}
use mathlib.Core.Option

up_leaves : (more : Words) → stays (join (bytes ".." ∷ more) (slash ∷ [])) ≡ false
unfolding join same_word has_prefix
up_leaves [] = refl
up_leaves (w ∷ more) = refl

none_stay : stays (join [] (slash ∷ [])) ≡ true
unfolding join same_word has_prefix
none_stay = refl

stays_alone : (w : Word) → IsName w → stays w ≡ true
unfolding same_word has_prefix exists_where
stays_alone [] name = absurd (let e = name.filled in cc)
stays_alone (c ∷ []) name = ground arith
stays_alone (c ∷ d ∷ []) name = let e = name.not_up in ground (arith, e)
stays_alone (c ∷ d ∷ e ∷ w) name = let one = name.one_part in ground (arith, one)

stays_before : (w rest : Word) → IsName w → stays (w ++ slash ∷ rest) ≡ true
unfolding same_word has_prefix exists_where
stays_before [] rest name = absurd (let e = name.filled in cc)
stays_before (c ∷ []) rest name = ground arith
stays_before (c ∷ d ∷ []) rest name = let e = name.not_up in ground (arith, e)
stays_before (c ∷ d ∷ e ∷ w) rest name = let one = name.one_part in ground (arith, one)

names_stay : (ws : Words) → Each IsName ws → stays (join ws (slash ∷ [])) ≡ true
names_stay [] names = none_stay
names_stay (w ∷ []) (name, names) = ap stays (join-one w) ∙ stays_alone w name
names_stay (w ∷ v ∷ ws) (name, names) = ap stays (join-cons w v ws) ∙ stays_before w _ name

abbrev inside_by : Option Words → Bool
inside_by o = stays_in (Option.map (λ ps. join ps (slash ∷ [])) o)

if_true {ℓ} : {A : Type ℓ} (b : Bool) (x y : A) → b ≡ true → (if b then x else y) ≡ x
if_true b x y e = rw e refl

if_false {ℓ} : {A : Type ℓ} (b : Bool) (x y : A) → b ≡ false → (if b then x else y) ≡ y
if_false b x y e = rw e refl

-- Where the components part, the way leads up first.
parted :
    (b : Word) (root rest : Words)
    → IsName b
    → inside_by (if b == bytes ".." then none else some (map (λ _. bytes "..") (b ∷ root) ++ rest))
      ≡ false
parted b root rest name =
    ap inside_by (
      if_false (b == bytes "..") none (some (map (λ _. bytes "..") (b ∷ root) ++ rest)) name.not_up)
    ∙ up_leaves (map (λ _. bytes "..") root ++ rest)

ended : (b : Word) (root : Words) → IsName b → inside_by (rel_parts (b ∷ root) []) ≡ false
unfolding rel_parts
ended b root name =
    ap inside_by
      (if_false (b == bytes "..") none (some (map (λ _. bytes "..") (b ∷ root))) name.not_up)
    ∙ up_leaves (map (λ _. bytes "..") root)

differ :
    (b t : Word) (root p : Words)
    → IsName b
    → (t == b) ≡ false
    → inside_by (rel_parts (b ∷ root) (t ∷ p)) ≡ false
unfolding rel_parts
differ b t root p name other =
    ap inside_by (if_false (t == b) _ _ other) ∙ parted b root (t ∷ p) name

agree :
    (b t : Word) (root p : Words)
    → (t == b) ≡ true
    → inside_by (rel_parts (b ∷ root) (t ∷ p)) ≡ inside_by (rel_parts root p)
unfolding rel_parts
agree b t root p same = ap inside_by (if_true (t == b) (rel_parts root p) _ same)

parts_inside :
    (root p : Words)
    → Each IsName root
    → Each IsName p
    → (inside_by (rel_parts root p) ≡ true) ↔ LiesBelow p root
unfolding rel_parts
parts_inside [] p names names' = (λ h. (p, refl), λ below. names_stay p names')
parts_inside (b ∷ root) [] (name, names) names' =
    (λ h. absurd (let out = ended b root name in cc (h, out)), λ (more, e). absurd (cc e))
parts_inside (b ∷ root) (t ∷ p) (name, names) (name', names') = elim (Bool-cases (t == b)) [
  | inl same ↦
      let deeper = parts_inside root p names names' in
      let here = agree b t root p same in
      let word : t ≡ b = (same_word_iff t b).0 same in
      (
        λ h. let (more, e) = deeper.0 (sym here ∙ h) in (more, cc (word, e)),
        λ (more, e). here ∙ deeper.1 (more, cc e),
      )
  | inr other ↦ (
    λ h. absurd (let out = differ b t root p name other in cc (h, out)),
    λ (more, e).
        let word : t ≡ b = cc e in
        absurd (let same = (same_word_iff t b).1 word in cc (same, other)),
  )
]

-- Rel of two such paths, which are clean.
rel_of : Words → Words → Option Word
rel_of root p =
    if path_of p == path_of root
    then some (bytes ".")
    else Option.map (λ ps. join ps (slash ∷ []))
        (rel_parts (components (path_of root)) (components (path_of p)))

rel-path_of :
    (root p : Words)
    → Each IsName root
    → Each IsName p
    → rel (path_of root) (path_of p) ≡ rel_of root p
unfolding rel rel_of same_word has_prefix
rel-path_of root p names names' = rw (clean-path_of root names, clean-path_of p names') refl

same_parts :
    (root p : Words)
    → Each IsName root
    → Each IsName p
    → (path_of p == path_of root) ≡ true
    → p ≡ root
same_parts root p names names' same =
    sym (components-path_of p names')
    ∙ ap components ((same_word_iff (path_of p) (path_of root)).0 same)
    ∙ components-path_of root names

here_stays : stays (bytes ".") ≡ true
unfolding same_word has_prefix
here_stays = refl

rel_of_inside :
    (root p : Words)
    → Each IsName root
    → Each IsName p
    → (stays_in (rel_of root p) ≡ true) ↔ LiesBelow p root
unfolding rel_of
rel_of_inside root p names names' = elim (Bool-cases (path_of p == path_of root)) [
  | inl same ↦ (
    λ h. ([], same_parts root p names names' same ∙ sym (append_nil root)),
    λ below. ap stays_in (if_true (path_of p == path_of root) _ _ same) ∙ here_stays,
  )
  | inr other ↦
      let value : stays_in (rel_of root p) ≡ inside_by (rel_parts root p) =
        ap stays_in (if_false (path_of p == path_of root) _ _ other)
        ∙ ap (λ ws. inside_by (rel_parts ws (components (path_of p))))
            (components-path_of root names)
        ∙ ap (λ ws. inside_by (rel_parts root ws)) (components-path_of p names') in
      let parts = parts_inside root p names names' in
      (λ h. parts.0 (sym value ∙ h), λ below. value ∙ parts.1 below)
]

-- The first path is inside the second: its components begin with those of the other, as Clean has
-- them.
abbrev pub IsInside : Word → Word → Type 0
IsInside p root =
    (ps roots : Words) × (clean p ≡ path_of ps)
    × (clean root ≡ path_of roots)
    × Each IsName ps
    × Each IsName roots
    × LiesBelow ps roots

lexically_within_named :
    (root p : Word) (roots ps : Words)
    → clean root ≡ path_of roots
    → clean p ≡ path_of ps
    → Each IsName roots
    → Each IsName ps
    → (lexically_within root p ≡ true) ↔ LiesBelow ps roots
unfolding lexically_within
lexically_within_named root p roots ps e e' names names' =
    let value : stays_in (rel (clean root) (clean p)) ≡ stays_in (rel_of roots ps) =
      ap (λ a. stays_in (rel a (clean p))) e
      ∙ ap (λ b. stays_in (rel (path_of roots) b)) e'
      ∙ ap stays_in (rel-path_of roots ps names names') in
    let inside = rel_of_inside roots ps names names' in
    (λ h. inside.0 (sym value ∙ h), λ below. value ∙ inside.1 below)

-- lexicallyWithin says of an absolute path that it is inside an absolute directory exactly if Clean
-- makes of both a slash and components that are names, and those of the path begin with those of the
-- directory.
pub lexically_within_iff :
    (root p : Word)
    → is_abs root ≡ true
    → is_abs p ≡ true
    → (lexically_within root p ≡ true) ↔ IsInside p root
lexically_within_iff root p absolute absolute' =
    let (roots, (e, names)) = clean-IsNamed root absolute in
    let (ps, (e', names')) = clean-IsNamed p absolute' in
    (
      λ h.
          let below = (lexically_within_named root p roots ps e e' names names').0 h in
          (ps, roots, e', e, names', names, below),
      λ (qs, dirs, c, c', named, named', below).
          (lexically_within_named root p dirs qs c' c named' named).1 below,
    )
