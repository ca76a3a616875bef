-- ===== src/Triage/Rooted.antt =====
-- What resolve of internal/triage/validate.go makes of an absolute path.
use agent_fox.Policy.Glob.{backslash}
use agent_fox.Policy.Paths.{is_abs}
use agent_fox.Policy.Text.{
  Word_Eq, cut_prefix, Word, Words, slash, has_prefix, bytes, same_word_iff,
}
use agent_fox.Triage.{
  to_slashes, drop_here, under_root, Validator, is_abs, drive_letter, resolve_cited,
  resolve_relative, backslash,
}
use agent_fox.Prelude.{
  true, false, some, refl, [], inl, inr, if◌then◌else◌, ℕ, ◌≡◌, ◌++◌, ◌∷◌, Bool, ap, nat_eq_iff,
  ◌==◌, nat_eq, Bool-cases, ◌∙◌, length, append_assoc, sym, arith, length-append,
}

to_slashes-append : (v w : Word) → to_slashes (v ++ w) ≡ to_slashes v ++ to_slashes w
unfolding to_slashes
to_slashes-append [] w = refl
to_slashes-append (c ∷ v) w =
    ap (λ later. (if nat_eq c backslash then slash else c) ∷ later) (to_slashes-append v w)

starts_slash : (c : ℕ) (p : Word) → is_abs (c ∷ p) ≡ true → c ≡ slash
unfolding has_prefix
starts_slash c p h = (nat_eq_iff c slash).0 (ground (arith, h))

drop_here-abs : (p : Word) → is_abs p ≡ true → drop_here p ≡ p
unfolding drop_here has_prefix
drop_here-abs [] h = cc
drop_here-abs (c ∷ []) h = refl
drop_here-abs (c ∷ d ∷ p) h = rw (starts_slash c (d ∷ p) h) refl

cut_prefix-append : (v w : Word) → cut_prefix (v ++ w) v ≡ some w
unfolding cut_prefix
cut_prefix-append [] w = refl
cut_prefix-append (c ∷ v) w = rw ((nat_eq_iff c c).1 refl) (cut_prefix-append v w)

longer_differs : (v w : Word) (c : ℕ) → ((v ++ c ∷ w) == v) ≡ false
longer_differs v w c = elim (Bool-cases ((v ++ c ∷ w) == v)) [
  | inl same ↦
      let lengths = ap length ((same_word_iff (v ++ c ∷ w) v).0 same) in
      absurd (omega (arith, lengths, length-append v (c ∷ w)))
  | inr differs ↦ differs
]

under_root-first : (r f : Word) (roots : Words) → under_root (r ∷ roots) (r ++ slash ∷ f) ≡ some f
unfolding under_root
under_root-first r f roots =
    let cuts : cut_prefix (r ++ slash ∷ f) (r ++ bytes "/") ≡ some f =
      rw (append_assoc r (bytes "/") f) at (cut_prefix-append (r ++ bytes "/") f) in
    rw (longer_differs r f slash, cuts) refl

abs_append : (r w : Word) → is_abs r ≡ true → is_abs (r ++ w) ≡ true
unfolding has_prefix
abs_append [] w h = cc
abs_append (c ∷ r) w h = h

-- A path with slashes only that is relative, and starts neither with ./ nor with a drive.
abbrev pub IsRelative : Word → Type 0
IsRelative f =
    (to_slashes f ≡ f) × (drop_here f ≡ f) × (is_abs f ≡ false) × (drive_letter f ≡ false)

both_kept :
    (r f : Word)
    → to_slashes r ≡ r
    → to_slashes f ≡ f
    → to_slashes r ++ to_slashes (slash ∷ f) ≡ r ++ slash ∷ f
unfolding to_slashes
both_kept r f first later = rw (first, later) refl

module _ (v : Validator) (r f : Word) (roots : Words) (has_line : Bool) where
  resolve_rooted :
      v.trimmed ≡ r ∷ roots
      → is_abs r ≡ true
      → to_slashes r ≡ r
      → to_slashes f ≡ f
      → resolve_cited v (r ++ slash ∷ f) has_line ≡ resolve_relative v f has_line
  unfolding resolve_cited
  resolve_rooted first absolute slashes relative =
      let slashed : to_slashes (r ++ slash ∷ f) ≡ r ++ slash ∷ f =
        to_slashes-append r (slash ∷ f) ∙ both_kept r f slashes relative in
      let kept = drop_here-abs (r ++ slash ∷ f) (abs_append r (slash ∷ f) absolute) in
      let inside : under_root v.trimmed (r ++ slash ∷ f) ≡ some f =
        ap (λ rs. under_root rs (r ++ slash ∷ f)) first ∙ under_root-first r f roots in
      rw (slashed, kept, abs_append r (slash ∷ f) absolute, inside) refl

  resolve_unrooted : IsRelative f → resolve_cited v f has_line ≡ resolve_relative v f has_line
  unfolding resolve_cited
  resolve_unrooted (slashes, kept, relative, undriven) = rw (slashes, kept, relative, undriven) refl

-- Under the first root of the tree, a path is resolved as it is when it is cited from that root,
-- where it has slashes only, is relative, and starts neither with ./ nor with a drive.
pub resolve_cited-root :
    (v : Validator) (r f : Word) (roots : Words) (has_line : Bool)
    → v.trimmed ≡ r ∷ roots
    → is_abs r ≡ true
    → to_slashes r ≡ r
    → IsRelative f
    → resolve_cited v (r ++ slash ∷ f) has_line ≡ resolve_cited v f has_line
resolve_cited-root v r f roots has_line first absolute slashes relative =
    resolve_rooted v r f roots has_line first absolute slashes relative.0
    ∙ sym (resolve_unrooted v r f roots has_line relative)
