-- ===== src/Policy/Covering.antt =====
-- What covers of internal/policy/policy.go finds of a path without globs: the components of one
-- path in front of those of the other.
use mathlib.Core.Bool.{◌&&◌, ◌||◌}
use agent_fox.Table.Every.{Each}
use agent_fox.Prelude.{
  ◌≡◌, true, ◌++◌, false, ◌↔◌, ◌⊎◌, ◌∷◌, arith, inr, inl, [], refl, length, ◌≤◌, Bool, sym, ◌+◌,
  append_nil, ap, ◌∙◌, ◌≢◌, length-append, leb, Bool-cases, ◌==◌, ==_ne,
}
use agent_fox.Policy.Protected.{
  parts_match, covers, rel_components, clean_protected, protected_components,
}
use agent_fox.Policy.Text.{Words, Word, has_any, same_word_iff, bytes, Word_Eq}
use agent_fox.Policy.Glob.{component_matches, glob_bytes}

abbrev pub IsPlain : Word → Type 0
IsPlain w = has_any w glob_bytes ≡ false

component_matches_plain : (p q : Word) → IsPlain p → (component_matches p q ≡ true) ↔ (p ≡ q)
unfolding component_matches
component_matches_plain p q h = ground (arith, h, same_word_iff p q)

-- One list of components is in front of the other.
abbrev pub LiesBelow : Words → Words → Type 0
LiesBelow path root = (more : Words) × (path ≡ root ++ more)

parts_match_sound :
    (path root : Words)
    → Each IsPlain path
    → parts_match path root ≡ true
    → LiesBelow path root ⊎ LiesBelow root path
unfolding parts_match
parts_match_sound [] root plain h = inr (root, refl)
parts_match_sound (p ∷ path) [] plain h = inl (p ∷ path, refl)
parts_match_sound (p ∷ path) (q ∷ root) plain h =
    let same : p ≡ q = ground (arith, h, component_matches_plain p q plain.0) in
    let later : parts_match path root ≡ true = ground (arith, h) in
    elim (parts_match_sound path root plain.1 later) [
      | inl (more, e) ↦ inl (more, cc (same, e))
      | inr (more, e) ↦ inr (more, cc (same, e))
    ]

LiesBelow-match :
    (path root : Words) → Each IsPlain path → LiesBelow path root → parts_match path root ≡ true
unfolding parts_match
LiesBelow-match [] root plain h = refl
LiesBelow-match (p ∷ path) [] plain h = refl
LiesBelow-match (p ∷ path) (q ∷ root) plain (more, e) =
    let same : p ≡ q = cc e in
    let later : path ≡ root ++ more = cc e in
    let deeper = LiesBelow-match path root plain.1 (more, later) in
    ground (arith, deeper, (component_matches_plain p q plain.0).1 same)

LiesAbove-match :
    (path root : Words) → Each IsPlain path → LiesBelow root path → parts_match path root ≡ true
unfolding parts_match
LiesAbove-match [] root plain h = refl
LiesAbove-match (p ∷ path) [] plain h = refl
LiesAbove-match (p ∷ path) (q ∷ root) plain (more, e) =
    let same : p ≡ q = cc e in
    let later : root ≡ path ++ more = cc e in
    let deeper = LiesAbove-match path root plain.1 (more, later) in
    ground (arith, deeper, (component_matches_plain p q plain.0).1 same)

below_of_above :
    (path root : Words) → LiesBelow root path → length root ≤ length path → LiesBelow path root
below_of_above path root ([], e) h = ([], sym (append_nil root ∙ e ∙ append_nil path))
below_of_above path root (x ∷ more, e) h =
    let longer : length root ≡ length path + length (x ∷ more) =
      ap length e ∙ length-append path (x ∷ more) in
    absurd (omega arith)

length-LiesBelow : (path root : Words) → LiesBelow path root → length root ≤ length path
length-LiesBelow path root (more, e) =
    let longer : length path ≡ length root + length more = ap length e ∙ length-append root more in
    omega arith

reaches : Words → Words → Bool → Bool
reaches path root removes = parts_match path root && (leb (length root) (length path) || removes)

reaches_sound :
    (path root : Words) (removes : Bool)
    → Each IsPlain path
    → reaches path root removes ≡ true
    → LiesBelow path root ⊎ ((removes ≡ true) × LiesBelow root path)
unfolding reaches
reaches_sound path root removes plain h =
    let parts : parts_match path root ≡ true = ground (arith, h) in
    elim (parts_match_sound path root plain parts) [
      | inl lies ↦ inl lies
      | inr above ↦ elim (Bool-cases removes) [
        | inl e ↦ inr (e, above)
        | inr e ↦
            let shorter : length root ≤ length path = ground (arith, h, e) in
            inl (below_of_above path root above shorter)
      ]
    ]

reaches_complete :
    (path root : Words) (removes : Bool)
    → Each IsPlain path
    → LiesBelow path root ⊎ ((removes ≡ true) × LiesBelow root path)
    → reaches path root removes ≡ true
unfolding reaches
reaches_complete path root removes plain (inl lies) =
    ground (arith, LiesBelow-match path root plain lies, length-LiesBelow path root lies)
reaches_complete path root removes plain (inr (e, above)) =
    ground (arith, e, LiesAbove-match path root plain above)

-- A path of the checkout without globs is covered by a protected path other than the checkout
-- itself exactly if its components are below or at the protected ones or, for a command that
-- removes it, above them.
pub covers_iff :
    (r prot : Word) (removes : Bool)
    → Each IsPlain (rel_components r)
    → clean_protected prot ≢ bytes "."
    → (covers r prot removes ≡ true) ↔ (
        LiesBelow (rel_components r) (protected_components prot)
        ⊎ ((removes ≡ true) × LiesBelow (protected_components prot) (rel_components r)))
unfolding covers reaches
covers_iff r prot removes plain proper =
    let path = rel_components r in
    let root = protected_components prot in
    let other : (clean_protected prot == bytes ".") ≡ false = ==_ne proper in
    let reached : covers r prot removes ≡ reaches path root removes = rw other refl in
    (
      λ h. reaches_sound path root removes plain (sym reached ∙ h),
      λ h. reached ∙ reaches_complete path root removes plain h,
    )
