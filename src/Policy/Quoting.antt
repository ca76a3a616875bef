-- ===== src/Policy/Quoting.antt =====
-- splitString of internal/policy/policy.go on words in double quotes.
use agent_fox.Table.Every.{Each}
use agent_fox.Table.{exists_where}
use agent_fox.Prelude.{
  ◌∷◌, ◌++◌, map, ◌≡◌, [], false, some, append_nil, refl, nat_eq, arith, append_assoc, none, ◌∙◌,
  ap,
}
use agent_fox.Policy.SplitString.{read_bytes, quoted, plain, read_plain, split_string, Reader}
use agent_fox.Policy.Text.{Words, Word, join, has_byte, bytes}

-- A word in double quotes, and words with one blank between them.
abbrev pub quote_word : Word → Word
quote_word w = b'"' ∷ (w ++ b'"' ∷ [])

abbrev pub quote_words : Words → Word
quote_words ws = join (map quote_word ws) (bytes " ")

abbrev pub IsQuotable : Word → Type 0
IsQuotable w = has_byte w b'"' ≡ false

-- The bytes of a quoted word are read into the word.
read_bytes-quoted :
    (w rest_of sofar : Word) (done : Words)
    → IsQuotable w
    → read_bytes
        (record { mode = quoted b'"'; done = done; word = some sofar })
        (w ++ b'"' ∷ rest_of)
      ≡ read_bytes (record { mode = plain; done = done; word = some (sofar ++ w) }) rest_of
unfolding read_bytes exists_where
read_bytes-quoted [] rest_of sofar done h = rw (append_nil sofar) refl
read_bytes-quoted (c ∷ w) rest_of sofar done h =
    let other : nat_eq c b'"' ≡ false = ground (arith, h) in
    let later : IsQuotable w = ground (arith, h) in
    let deeper = read_bytes-quoted w rest_of (sofar ++ c ∷ []) done later in
    let longer = append_assoc sofar (c ∷ []) w in ground (arith, other, deeper, longer)

read_bytes-words :
    (w : Word) (ws done : Words)
    → IsQuotable w
    → Each IsQuotable ws
    → read_bytes (record { mode = plain; done = done; word = none }) (quote_words (w ∷ ws))
      ≡ done ++ w ∷ ws
unfolding read_bytes read_plain join
read_bytes-words w [] done h later = read_bytes-quoted w [] [] done h
read_bytes-words w (v ∷ ws) done h (next, later) =
    let others = quote_words (v ∷ ws) in
    let quoted_first = read_bytes-quoted w (b' ' ∷ others) [] done h in
    let shape = append_assoc w (b'"' ∷ []) (b' ' ∷ others) in
    let deeper = read_bytes-words v ws (done ++ w ∷ []) next later in
    let joined = append_assoc done (w ∷ []) (v ∷ ws) in
    let opened : Reader = record { mode = quoted b'"'; done = done; word = some [] } in
    let spaced = append_assoc (w ++ b'"' ∷ []) (b' ' ∷ []) others in
    ap (read_bytes opened) (spaced ∙ shape) ∙ quoted_first ∙ deeper ∙ joined

-- Words without double quotes that are put in double quotes, with a blank between them, are what
-- env -S splits the string into.
pub split_string-quote_words :
    (ws : Words) → Each IsQuotable ws → split_string (quote_words ws) ≡ ws
unfolding split_string read_bytes join
split_string-quote_words [] h = refl
split_string-quote_words (w ∷ ws) (first, later) = read_bytes-words w ws [] first later
