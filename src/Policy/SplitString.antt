-- ===== src/Policy/SplitString.antt =====
-- splitString of internal/policy/policy.go: the words of the string of env -S.
use agent_fox.Policy.Text.{Word, Word_Eq, Words}
use agent_fox.Prelude.{
  ℕ, Option, [], Bool, ◌||◌, ◌∷◌, coalesce, some, if◌then◌else◌, none, ◌&&◌, nat_eq, ◌++◌, is_empty,
  not,
}

-- splitString: how far it has read.
pub data ReadMode : Type 0 where
  plain escaped : ReadMode
  quoted : ℕ → ReadMode

-- The words so far, and the one that is being read (none while inWord is false).
pub record Reader : Type 0 where
  pub mode : ReadMode
  pub done : Words
  pub word : Option Word

abbrev pub in_word : Reader → Word
in_word r = coalesce r.word []

abbrev pub put_byte : Reader → ℕ → Reader
put_byte r c = record r { mode = plain; word = some (in_word r ++ c ∷ []) }

abbrev pub end_word : Reader → Words
end_word r = elim r.word [ none ↦ r.done | some w ↦ r.done ++ w ∷ [] ]

-- The byte c in mode plain; last says that none follows it.
unfoldable pub read_plain : Reader → ℕ → Bool → Reader
read_plain r c last =
    if nat_eq c b'\'' || nat_eq c b'"'
    then record r { mode = quoted c; word = some (in_word r) }
    else if nat_eq c 92 && not last
    then record r { mode = escaped; word = some (in_word r) }
    else if nat_eq c b' ' || nat_eq c 9 || nat_eq c 10
    then record r { done = end_word r; word = none }
    else put_byte r c

abbrev pub read_in : ReadMode → Reader → ℕ → Bool → Reader
read_in plain r c last = read_plain r c last
read_in escaped r c last = put_byte r c
read_in (quoted q) r c last =
    if nat_eq c q then record r { mode = plain } else record r { word = some (in_word r ++ c ∷ []) }

unfoldable pub read_bytes : Reader → Word → Words
read_bytes r [] = end_word r
read_bytes r (c ∷ s) = read_bytes (read_in r.mode r c (is_empty s)) s

abbrev pub unread : Reader
unread = record { mode = plain; done = []; word = none }

unfoldable pub split_string : Word → Words
split_string s = read_bytes unread s
