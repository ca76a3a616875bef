-- ===== src/Policy/Shown.antt =====
-- shorten of internal/policy/policy.go: what a denial shows of a command.
use agent_fox.Policy.Text.{Word, trim, blanks, drop, bytes}
use agent_fox.Prelude.{
  ℕ, ◌≤◌, length, ◌≡◌, inl, arith, take, ◌⊎◌, suc, ◌∷◌, zero, ◌<◌, [], false, ◌++◌, refl,
  if◌then◌else◌, is_empty, Bool-cases, inr, leb, length-append,
}
use agent_fox.Policy.Judge.{rune_cut, shorten, byte_at, ellipsis, shown_bytes}

rune_cut-le : (n : ℕ) (w : Word) → rune_cut n w ≤ n
unfolding rune_cut
rune_cut-le zero w = omega arith
rune_cut-le (suc n) w = ground (arith, rune_cut-le n w)

length-take-le : (n : ℕ) (w : Word) → length (take n w) ≤ n
length-take-le zero w = omega arith
length-take-le (suc n) [] = omega arith
length-take-le (suc n) (c ∷ w) = omega (arith, length-take-le n w)

-- The bytes at the cut do not begin inside a rune, unless the cut is at the start.
abbrev pub IsCutWhole : ℕ → Word → Type 0
IsCutWhole n w = (n ≡ 0) ⊎ (byte_at (drop n w) ≡ false)

rune_cut-IsCutWhole : (n : ℕ) (w : Word) → IsCutWhole (rune_cut n w) w
unfolding rune_cut
rune_cut-IsCutWhole zero w = inl refl
rune_cut-IsCutWhole (suc n) w = elim (Bool-cases (byte_at (drop (suc n) w))) [
  | inl e ↦ rw e (rune_cut-IsCutWhole n w)
  | inr e ↦ rw e (inr e)
]

abbrev Shown : Word → Word → Type 0
Shown c shown =
    (1 ≤ length shown)
    × (length shown ≤ 203)
    × (length c ≡ 0 → shown ≡ bytes "(empty command)")
    × (1 ≤ length c → length c ≤ 200 → shown ≡ c)
    × (200 < length c → (n : ℕ) × ((shown ≡ take n c ++ ellipsis) × IsCutWhole n c))

shown_of : Word → Word
shown_of c =
    if is_empty c
    then bytes "(empty command)"
    else if leb (length c) shown_bytes
    then c
    else take (rune_cut shown_bytes c) c ++ ellipsis

shown_of-Shown : (c : Word) → Shown c (shown_of c)
unfolding shown_of
shown_of-Shown [] =
    (omega arith, omega arith, λ h. refl, λ h. absurd (omega arith), λ h. absurd (omega arith))
shown_of-Shown (b ∷ c) = elim (Bool-cases (leb (length (b ∷ c)) shown_bytes)) [
  | inl e ↦ rw e (
    omega arith,
    ground (arith, e),
    λ h. absurd (omega (arith, h)),
    λ h h'. refl,
    λ h. absurd (ground (arith, e, h)),
  )
  | inr e ↦
      let n = rune_cut shown_bytes (b ∷ c) in
      let total = length-append (take n (b ∷ c)) ellipsis in
      let part = length-take-le n (b ∷ c) in
      let limit = rune_cut-le shown_bytes (b ∷ c) in
      rw e (
        omega (arith, total),
        omega (arith, total, part, limit),
        λ h. absurd (omega (arith, h)),
        λ h h'. absurd (ground (arith, e, h')),
        λ h. (n, (refl, rune_cut-IsCutWhole shown_bytes (b ∷ c))),
      )
]

-- What a denial shows of a command is never empty and at most 203 bytes long. Of a command that is
-- nothing but blanks it is (empty command); of one that has 1 to 200 bytes without the blanks around
-- it, these bytes; and a longer one is cut between two runes, or shown as nothing but the ellipsis.
pub shorten_fits :
    (command : Word)
    → (1 ≤ length (shorten command))
      × (length (shorten command) ≤ 203)
      × (length (trim command blanks) ≡ 0 → shorten command ≡ bytes "(empty command)")
      × ((1 ≤ length (trim command blanks))
          → length (trim command blanks) ≤ 200
          → shorten command ≡ trim command blanks)
      × (200 < length (trim command blanks)
          → (n : ℕ) × ((shorten command ≡ take n (trim command blanks) ++ ellipsis)
              × IsCutWhole n (trim command blanks)))
unfolding shorten shown_of
shorten_fits command = shown_of-Shown (trim command blanks)
