-- ===== src/Policy/Text.antt =====
-- Words as internal/policy reads them: lists of bytes, with the functions of Go's strings and slices
-- packages that policy.go calls. Letters are those of ASCII.
use Prim.Native.Char.{code}
use agent_fox.Prelude.{
  ℕ, ◌+◌, ◌-◌, Bool, true, false, ◌&&◌, not, List, [], ◌∷◌, ◌++◌, Option, none, some, ◌≡◌, ◌↔◌,
  refl, String, arith, nat_eq, leb, Eq, length, is_empty, take, if◌then◌else◌, suc, zero,
}
use agent_fox.Table.{exists_where}
use mathlib.Core.List.{reverse}

abbrev pub Word : Type 0
Word = List ℕ

abbrev pub Words : Type 0
Words = List Word

abbrev pub bytes : String → Word
bytes String.[] = []
bytes (String.◌∷◌ c s) = code c ∷ bytes s

abbrev pub slash : ℕ
slash = b'/'

abbrev pub dash : ℕ
dash = b'-'

unfoldable pub same_word : Word → Word → Bool
same_word [] [] = true
same_word (a ∷ v) (b ∷ w) = nat_eq a b && same_word v w
same_word _ _ = false

pub same_word_iff : (v w : Word) → (same_word v w ≡ true) ↔ (v ≡ w)
unfolding same_word
same_word_iff [] [] = ground arith
same_word_iff (a ∷ v) [] = ground arith
same_word_iff [] (b ∷ w) = ground arith
same_word_iff (a ∷ v) (b ∷ w) = ground (arith, same_word_iff v w)

instance abbrev pub Word_Eq : Eq Word
Word_Eq = record {
  same_key = same_word;
  at_itself = λ w. (same_word_iff w w).1 refl;
  only_there = λ v w. (same_word_iff v w).0;
}

-- slices.Contains
abbrev pub contains : List Word → Word → Bool
contains ws w = exists_where (λ v. same_word v w) ws

-- strings.IndexByte(s, b) >= 0
abbrev pub has_byte : Word → ℕ → Bool
has_byte s b = exists_where (λ c. nat_eq c b) s

-- strings.ContainsAny
abbrev pub has_any : Word → Word → Bool
has_any s set = exists_where (has_byte set) s

abbrev pub drop {ℓ} : {A : Type ℓ} → ℕ → List A → List A
drop zero xs = xs
drop (suc n) [] = []
drop (suc n) (x ∷ xs) = drop n xs

-- strings.HasPrefix(s, p)
unfoldable pub has_prefix : Word → Word → Bool
has_prefix s [] = true
has_prefix [] (b ∷ p) = false
has_prefix (c ∷ s) (b ∷ p) = nat_eq c b && has_prefix s p

-- strings.CutPrefix
unfoldable pub cut_prefix : Word → Word → Option Word
cut_prefix s [] = some s
cut_prefix [] (b ∷ p) = none
cut_prefix (c ∷ s) (b ∷ p) = if nat_eq c b then cut_prefix s p else none

abbrev pub or_word : Option Word → Word → Word
or_word none d = d
or_word (some w) d = w

abbrev pub trim_prefix : Word → Word → Word
trim_prefix s p = or_word (cut_prefix s p) s

unfoldable pub trim_suffix : Word → Word → Word
trim_suffix s p = if has_prefix (reverse s) (reverse p) then take (length s - length p) s else s

-- strings.TrimLeft(s, set)
unfoldable pub trim_left : Word → Word → Word
trim_left [] set = []
trim_left (c ∷ s) set = if has_byte set c then trim_left s set else c ∷ s

abbrev pub trim_right : Word → Word → Word
trim_right s set = reverse (trim_left (reverse s) set)

-- strings.Trim
abbrev pub trim : Word → Word → Word
trim s set = trim_right (trim_left s set) set

-- strings.TrimSpace, of ASCII
abbrev pub blanks : Word
blanks = 9 ∷ 10 ∷ 11 ∷ 12 ∷ 13 ∷ 32 ∷ []

-- What stands before the first byte b, and what stands after it when there is one: strings.Cut.
unfoldable pub cut : Word → ℕ → Word × Option Word
cut [] b = ([], none)
cut (c ∷ s) b = let later = cut s b in if nat_eq c b then ([], some s) else (c ∷ later.0, later.1)

-- strings.Split(s, sep) of one byte
abbrev pub push_front : ℕ → List Word → List Word
push_front c [] = (c ∷ []) ∷ []
push_front c (w ∷ ws) = (c ∷ w) ∷ ws

unfoldable pub split : Word → ℕ → List Word
split [] b = [] ∷ []
split (c ∷ s) b = let later = split s b in if nat_eq c b then [] ∷ later else push_front c later

-- strings.Join(ws, sep)
unfoldable pub join : List Word → Word → Word
join [] sep = []
join (w ∷ []) sep = w
join (w ∷ v ∷ ws) sep = w ++ sep ++ join (v ∷ ws) sep

-- strings.ToLower
abbrev pub lower_byte : ℕ → ℕ
lower_byte c = if leb b'A' c && leb c b'Z' then c + 32 else c

unfoldable pub lower : Word → Word
lower [] = []
lower (c ∷ s) = lower_byte c ∷ lower s

-- path.Base
unfoldable pub base : Word → Word
base s =
    let t = trim_right s (slash ∷ []) in
    if is_empty s
    then bytes "."
    else if is_empty t
    then bytes "/"
    else reverse (cut (reverse t) slash).0

-- baseName
unfoldable pub base_name : Word → Word
base_name word = trim_suffix (lower (base word)) (bytes ".exe")

abbrev pub is_digit : ℕ → Bool
is_digit c = leb b'0' c && leb c b'9'

-- isDigits
unfoldable pub all_digits : Word → Bool
all_digits [] = true
all_digits (c ∷ s) = is_digit c && all_digits s

abbrev pub is_digits : Word → Bool
is_digits s = not (is_empty s) && all_digits s
