-- ===== src/Policy/Quotes.antt =====
-- The quotes and expansions of a word: splitIFS, ifsLength, readQuotes and closing of
-- internal/policy/parse.go, and ansiC, appendEscape and hexEscape of internal/policy/expand.go.
use agent_fox.Policy.Text.{Words, Word, has_prefix, is_digit, bytes, cut}
use agent_fox.Prelude.{
  [], ℕ, if◌then◌else◌, Bool, ◌∷◌, Option, suc, ◌%◌, false, nat_eq, leb, ◌*◌, ltb, none, length,
  some, ◌&&◌, ◌||◌, ◌-◌, ◌+◌, ◌/◌, true, zero, ◌++◌,
}

-- ifsLength
unfoldable pub ifs_length : Word → ℕ
ifs_length s =
    if has_prefix s (bytes "${IFS}") then 6 else if has_prefix s (bytes "$IFS") then 4 else 0

-- splitIFS: the bytes since the last split, whether there was one, and the bytes of $IFS to pass.
abbrev with_piece : Word → Words → Words
with_piece [] pieces = pieces
with_piece piece pieces = piece ∷ pieces

abbrev last_piece : Word → Bool → Words
last_piece [] true = []
last_piece piece did_split = piece ∷ []

unfoldable pub split_ifs_from : Word → Bool → ℕ → Word → Words
split_ifs_from piece did_split skip [] = last_piece piece did_split
split_ifs_from piece did_split (suc skip) (c ∷ w) = split_ifs_from piece did_split skip w
split_ifs_from piece did_split zero (c ∷ w) = elim (ifs_length (c ∷ w)) [
  | zero ↦ split_ifs_from (piece ++ c ∷ []) did_split 0 w
  | suc skip ↦ with_piece piece (split_ifs_from [] true skip w)
]

unfoldable pub split_ifs : Word → Words
split_ifs w = split_ifs_from [] false 0 w

-- closing: what is in front of the end, the end itself when there is one, and what follows it.
pub record Inside : Type 0 where
  pub inside : Word
  pub end : Word
  pub after : Word

abbrev open_end : Inside
open_end = record { inside = []; end = []; after = [] }

abbrev keep_byte : ℕ → Inside → Inside
keep_byte c k = record k { inside = c ∷ k.inside }

-- The bracket that opens the same kind, if it nests.
abbrev opener : ℕ → Option ℕ
opener end = if nat_eq end b'}' then some b'{' else if nat_eq end b')' then some b'(' else none

abbrev opens : ℕ → ℕ → Bool
opens end c = elim (opener end) [ none ↦ false | some o ↦ nat_eq c o ]

unfoldable pub closing : ℕ → ℕ → Bool → Word → Inside
closing end depth escaped [] = open_end
closing end depth true (c ∷ w) = keep_byte c (closing end depth false w)
closing end depth false (c ∷ w) = elim (nat_eq c 92) [
  | true ↦ keep_byte c (closing end depth true w)
  | false ↦ elim (opens end c) [
    | true ↦ keep_byte c (closing end (suc depth) false w)
    | false ↦ elim (nat_eq c end) [
      | false ↦ keep_byte c (closing end depth false w)
      | true ↦ elim depth [
        | zero ↦ record { inside = []; end = c ∷ []; after = w }
        | suc outer ↦ keep_byte c (closing end outer false w)
      ]
    ]
  ]
]

-- hexEscape and appendEscape: the digits of a number in a base, at most so many, with what follows.
abbrev is_octal : ℕ → Bool
is_octal c = leb b'0' c && leb c b'7'

-- isHex
abbrev pub is_hex : ℕ → Bool
is_hex c = is_digit c || (leb b'a' c && leb c b'f') || (leb b'A' c && leb c b'F')

abbrev pub hex_value : ℕ → ℕ
hex_value c = if is_digit c then c - b'0' else if leb b'a' c then c - b'a' + 10 else c - b'A' + 10

pub record Digits : Type 0 where
  pub value : ℕ
  pub taken : ℕ
  pub after : Word

unfoldable pub hex_digits : ℕ → ℕ → ℕ → Word → Digits
hex_digits zero n taken s = record { value = n; taken = taken; after = s }
hex_digits (suc limit) n taken [] = record { value = n; taken = taken; after = [] }
hex_digits (suc limit) n taken (c ∷ s) =
    let more = hex_digits limit (16 * n + hex_value c) (taken + 1) s in
    if is_hex c then more else record { value = n; taken = taken; after = c ∷ s }

unfoldable pub octal_digits : ℕ → ℕ → ℕ → Word → Digits
octal_digits zero n taken s = record { value = n; taken = taken; after = s }
octal_digits (suc limit) n taken [] = record { value = n; taken = taken; after = [] }
octal_digits (suc limit) n taken (c ∷ s) =
    let more = octal_digits limit (8 * n + (c - b'0')) (taken + 1) s in
    if is_octal c then more else record { value = n; taken = taken; after = c ∷ s }

-- utf8.AppendRune: the bytes of a rune, those of U+FFFD for what is none.
unfoldable pub rune_bytes : ℕ → Word
rune_bytes r =
    if ltb r 128
    then r ∷ []
    else if ltb r 2048
    then (192 + r / 64) ∷ (128 + r % 64) ∷ []
    else if (leb 55_296 r && ltb r 57_344) || ltb 1_114_111 r
    then 239 ∷ 191 ∷ 189 ∷ []
    else if ltb r 65_536
    then (224 + r / 4096) ∷ (128 + r / 64 % 64) ∷ (128 + r % 64) ∷ []
    else (240 + r / 262_144) ∷ (128 + r / 4096 % 64) ∷ (128 + r / 64 % 64) ∷ (128 + r % 64) ∷ []

-- The bytes that an escape stands for, and what follows it.
pub record Escape : Type 0 where
  pub stands_for : Word
  pub after : Word

abbrev one_byte : ℕ → Word → Escape
one_byte c s = record { stands_for = c ∷ []; after = s }

abbrev no_escape : ℕ → Word → Escape
no_escape e s = record { stands_for = 92 ∷ e ∷ []; after = s }

abbrev of_digits : ℕ → Word → Bool → Digits → Escape
of_digits e s character k = if nat_eq k.taken 0 then no_escape e s else record {
  stands_for = if character then rune_bytes k.value else (k.value % 256) ∷ [];
  after = k.after;
}

-- hexEscape
unfoldable pub hex_escape : ℕ → Word → ℕ → Bool → Escape
hex_escape e s limit character = of_digits e s character (hex_digits limit 0 0 s)

abbrev pub control : Word → Escape
control [] = no_escape b'c' []
control (c ∷ s) = one_byte (c % 32) s

abbrev octal_escape : Word → Escape
octal_escape s =
    let k = octal_digits 3 0 0 s in record { stands_for = (k.value % 256) ∷ []; after = k.after }

-- appendEscape, of the byte behind the backslash
unfoldable pub append_escape : ℕ → Word → Escape
append_escape e s =
    if nat_eq e b'a'
    then one_byte 7 s
    else if nat_eq e b'b'
    then one_byte 8 s
    else if nat_eq e b'e' || nat_eq e b'E'
    then one_byte 27 s
    else if nat_eq e b'f'
    then one_byte 12 s
    else if nat_eq e b'n'
    then one_byte 10 s
    else if nat_eq e b'r'
    then one_byte 13 s
    else if nat_eq e b't'
    then one_byte 9 s
    else if nat_eq e b'v'
    then one_byte 11 s
    else if nat_eq e 92 || nat_eq e b'\'' || nat_eq e b'"' || nat_eq e b'?'
    then one_byte e s
    else if is_octal e
    then octal_escape (e ∷ s)
    else if nat_eq e b'x'
    then hex_escape e s 2 false
    else if nat_eq e b'u'
    then hex_escape e s 4 true
    else if nat_eq e b'U'
    then hex_escape e s 8 true
    else if nat_eq e b'c'
    then control s
    else no_escape e s

-- ansiC, in at most so many rounds: the text and what follows the quote, or none where it is not
-- closed.
unfoldable pub ansi_from : ℕ → Word → Word → Option Escape
ansi_from zero out s = none
ansi_from (suc rounds) out [] = none
ansi_from (suc rounds) out (c ∷ []) =
    if nat_eq c b'\'' then some (record { stands_for = (cut out 0).0; after = [] }) else none
ansi_from (suc rounds) out (c ∷ e ∷ s) = elim (nat_eq c b'\'') [
  | true ↦ some (record { stands_for = (cut out 0).0; after = e ∷ s })
  | false ↦ elim (nat_eq c 92) [
    | false ↦ ansi_from rounds (out ++ c ∷ []) (e ∷ s)
    | true ↦ let k = append_escape e s in ansi_from rounds (out ++ k.stands_for) k.after
  ]
]

unfoldable pub ansi_c : Word → Option Escape
ansi_c s = ansi_from (length s + 1) [] s
