-- ===== src/Policy/Skipping.antt =====
-- What skipPrefix leaves of the words of a command, and why its loop ends.
use agent_fox.Prelude.{
  ℕ, ◌++◌, length, ◌+◌, ◌≡◌, ◌≤◌, ◌∷◌, arith, [], suc, length-append, zero, Option, some, Bool,
  is_empty, none, refl, Option-cases, false, inl, true, inr,
}
use agent_fox.Policy.Text.{Word, drop, cut_prefix, trim_prefix, or_word, base_name, Words}
use agent_fox.Policy.Prefix.{
  PrefixWord, assignment, function_word, coproc, keyword, wrapper, program_word, prefix_word,
  skip_rounds, skip_prefix, size, EnvWord, env_bundle, env_word, skip_env, skip_options,
  skip_wrapper, coproc_name, env_splits, split_option, valued_of, env_ends, env_option, env_program,
  env_splits_next, env_valued, first_word, positional_of, prefix_word, PrefixWord, skip_rounds,
  skip_prefix, program_word, Skipped,
}
use agent_fox.Policy.SplitString.{
  Reader, read_plain, ReadMode, read_bytes, split_string, end_word, in_word, unread, read_in,
  quoted, plain, escaped,
}

pub size-append : (v w : Words) → size (v ++ w) ≡ size v + size w
unfolding size
size-append [] w = omega arith
size-append (x ∷ v) w = omega (arith, size-append v w)

pub size-drop-le : (n : ℕ) (ws : Words) → size (drop n ws) ≤ size ws
unfolding size
size-drop-le zero ws = omega arith
size-drop-le (suc n) [] = omega arith
size-drop-le (suc n) (w ∷ ws) = omega (arith, size-drop-le n ws)

length-append_one : (w : Word) (c : ℕ) → length (w ++ c ∷ []) ≡ length w + 1
length-append_one w c = length-append w (c ∷ [])

-- What the words of a reader can still come to, less the bytes left.
abbrev word_room : Option Word → ℕ
word_room none = 1
word_room (some w) = length w + 1

abbrev room : Reader → ℕ
room r = size r.done + word_room r.word

end_word-le : (r : Reader) (o : Option Word) → r.word ≡ o → size (end_word r) ≤ room r
unfolding size
end_word-le r none e = rw e (omega arith)
end_word-le r (some w) e = rw e (omega (arith, size-append r.done (w ∷ [])))

in_word-le : (r : Reader) (o : Option Word) → r.word ≡ o → length (in_word r) + 1 ≤ word_room r.word
in_word-le r none e = rw e (omega arith)
in_word-le r (some w) e = rw e (omega arith)

read_plain-room : (r : Reader) (c : ℕ) (last : Bool) → room (read_plain r c last) ≤ room r + 1
unfolding read_plain
read_plain-room r c last =
    ground
      (arith, in_word-le r r.word refl, end_word-le r r.word refl, length-append_one (in_word r) c)

read_in-room :
    (m : ReadMode) (r : Reader) (c : ℕ) (last : Bool) → room (read_in m r c last) ≤ room r + 1
read_in-room plain r c last = read_plain-room r c last
read_in-room escaped r c last =
    omega (arith, in_word-le r r.word refl, length-append_one (in_word r) c)
read_in-room (quoted q) r c last =
    ground (arith, in_word-le r r.word refl, length-append_one (in_word r) c)

read_bytes-size : (r : Reader) (s : Word) → size (read_bytes r s) ≤ room r + length s
unfolding read_bytes
read_bytes-size r [] = omega (arith, end_word-le r r.word refl)
read_bytes-size r (c ∷ s) = omega (
  arith,
  read_in-room r.mode r c (is_empty s),
  read_bytes-size (read_in r.mode r c (is_empty s)) s,
)

split_string-size : (s : Word) → size (split_string s) ≤ length s + 1
unfolding split_string size
split_string-size s =
    let h : size (read_bytes unread s) ≤ 1 + length s = read_bytes-size unread s in omega (arith, h)

-- What of a word env splits, less the word.
abbrev split_room : EnvWord → ℕ
split_room (env_splits s) = length s
split_room _ = 0

length-cut_prefix : (s p : Word) → length (or_word (cut_prefix s p) []) ≤ length s
unfolding cut_prefix
length-cut_prefix s [] = omega arith
length-cut_prefix [] (b ∷ p) = omega arith
length-cut_prefix (c ∷ s) (b ∷ p) = ground (arith, length-cut_prefix s p)

length-trim_prefix : (s p : Word) → length (trim_prefix s p) ≤ length s
length-trim_prefix s p = elim (Option-cases (cut_prefix s p)) [
  | inl e ↦ rw e (omega arith)
  | inr (w, e) ↦
      let h : length (or_word (cut_prefix s p) []) ≤ length s = length-cut_prefix s p in
      let h' : length w ≤ length s = rw e at h in rw e h'
]

env_bundle-room : (s : Word) → split_room (env_bundle s) ≤ length s
unfolding env_bundle
env_bundle-room [] = omega arith
env_bundle-room (c ∷ s) = ground (arith, env_bundle-room s)

length-drop-le : (n : ℕ) (w : Word) → length (drop n w) ≤ length w
length-drop-le zero w = omega arith
length-drop-le (suc n) [] = omega arith
length-drop-le (suc n) (c ∷ w) = omega (arith, length-drop-le n w)

env_word-room : (a : Word) → split_room (env_word a) ≤ length a
unfolding env_word
env_word-room a =
    ground
      (arith, length-trim_prefix a split_option, env_bundle-room (drop 1 a), length-drop-le 1 a)

-- The words that are left behind a value.
abbrev after_value : Bool → Words → Words
after_value true ws = drop 1 ws
after_value false ws = ws

env_case-size :
    (lead : Words) (a : Word) (ws : Words) (k : EnvWord)
    → split_room k ≤ length a
    → ((l : Words) (v : Bool) → size (skip_env l v ws) ≤ size l + size (after_value v ws))
    → size (elim k [
      | env_ends ↦ lead ++ ws
      | env_option ↦ skip_env lead false ws
      | env_valued ↦ skip_env lead true ws
      | env_splits_next ↦ skip_env (lead ++ split_string (first_word ws)) true ws
      | env_splits s ↦ skip_env (lead ++ split_string s) false ws
      | env_program ↦ lead ++ a ∷ ws
    ])
      ≤ size lead + size (a ∷ ws)
unfolding size
env_case-size lead a ws env_ends h ih = omega (arith, size-append lead ws)
env_case-size lead a ws env_option h ih = omega (arith, ih lead false)
env_case-size lead a ws env_valued h ih = omega (arith, ih lead true, size-drop-le 1 ws)
env_case-size lead a [] env_splits_next h ih = omega (
  arith,
  ih (lead ++ split_string []) true,
  size-append lead (split_string []),
  split_string-size [],
)
env_case-size lead a (w ∷ ws) env_splits_next h ih = omega (
  arith,
  ih (lead ++ split_string w) true,
  size-append lead (split_string w),
  split_string-size w,
)
env_case-size lead a ws (env_splits s) h ih = omega (
  arith,
  ih (lead ++ split_string s) false,
  size-append lead (split_string s),
  split_string-size s,
)
env_case-size lead a ws env_program h ih = omega (arith, size-append lead (a ∷ ws))

skip_env-size :
    (ws lead : Words) (value : Bool)
    → size (skip_env lead value ws) ≤ size lead + size (after_value value ws)
unfolding skip_env size
skip_env-size [] lead true = omega arith
skip_env-size [] lead false = omega arith
skip_env-size (a ∷ ws) lead true = skip_env-size ws lead false
skip_env-size (a ∷ ws) lead false =
    env_case-size lead a ws (env_word a) (env_word-room a) (skip_env-size ws)

skip_options-size :
    (valued : Words) (positional : ℕ) (value : Bool) (ws : Words)
    → size (skip_options valued positional value ws) ≤ size ws
unfolding skip_options size
skip_options-size valued positional value [] = omega arith
skip_options-size valued positional true (a ∷ ws) =
    omega (arith, skip_options-size valued positional false ws)
skip_options-size valued positional false (a ∷ ws) = ground (
  arith,
  skip_options-size valued positional false ws,
  skip_options-size valued positional true ws,
  size-drop-le positional ws,
  size-drop-le positional (a ∷ ws),
)

skip_wrapper-size : (w : Word) (ws : Words) → size (skip_wrapper w ws) ≤ size ws
unfolding skip_wrapper size
skip_wrapper-size w ws = ground (
  arith,
  skip_env-size ws [] false,
  skip_options-size (valued_of (base_name w)) (positional_of (base_name w)) false ws,
)

coproc_name-size : (ws : Words) → size (coproc_name ws) ≤ size ws
unfolding coproc_name size
coproc_name-size [] = omega arith
coproc_name-size (n ∷ []) = omega arith
coproc_name-size (n ∷ b ∷ ws) = ground arith

-- The program that skipPrefix finds.
abbrev pub StartsProgram : Words → Type 0
StartsProgram [] = Unit
StartsProgram (w ∷ ws) = prefix_word w ≡ program_word

rounds_case-program :
    (rounds : ℕ) (assigns : Words) (w : Word) (ws : Words) (k : PrefixWord)
    → prefix_word w ≡ k
    → size ws ≤ rounds
    → ((l vs : Words) → size vs ≤ rounds → StartsProgram (skip_rounds rounds l vs).argv)
    → StartsProgram
        (elim k as (λ _. Skipped) [
          | assignment ↦ skip_rounds rounds (assigns ++ w ∷ []) ws
          | function_word ↦ skip_rounds rounds assigns (drop 1 ws)
          | coproc ↦ skip_rounds rounds assigns (coproc_name ws)
          | keyword ↦ skip_rounds rounds assigns ws
          | wrapper ↦ skip_rounds rounds assigns (skip_wrapper w ws)
          | program_word ↦ record { argv = w ∷ ws; assigns = assigns }
        ]).argv
rounds_case-program n l w ws assignment e h ih = ih _ ws h
rounds_case-program n l w ws function_word e h ih =
    ih l (drop 1 ws) (omega (arith, size-drop-le 1 ws))
rounds_case-program n l w ws coproc e h ih =
    ih l (coproc_name ws) (omega (arith, coproc_name-size ws))
rounds_case-program n l w ws keyword e h ih = ih l ws h
rounds_case-program n l w ws wrapper e h ih =
    ih l (skip_wrapper w ws) (omega (arith, skip_wrapper-size w ws))
rounds_case-program n l w ws program_word e h ih = e

skip_rounds-program :
    (rounds : ℕ) (assigns words : Words)
    → size words ≤ rounds
    → StartsProgram (skip_rounds rounds assigns words).argv
unfolding skip_rounds size
skip_rounds-program n assigns [] h = tt
skip_rounds-program zero assigns (w ∷ ws) h = absurd (omega arith)
skip_rounds-program (suc n) assigns (w ∷ ws) h =
    rounds_case-program n assigns w ws (prefix_word w) refl (omega arith) (skip_rounds-program n)

-- What skipPrefix leaves of any words is empty or starts with a program: a word that is neither
-- an assignment, a keyword, function, coproc nor a wrapper.
pub skip_prefix_ends : (words : Words) → StartsProgram (skip_prefix words).argv
unfolding skip_prefix
skip_prefix_ends words = skip_rounds-program (size words) [] words (omega arith)

rounds_case-size :
    (rounds : ℕ) (assigns : Words) (w : Word) (ws : Words) (k : PrefixWord)
    → ((l vs : Words) → size (skip_rounds rounds l vs).argv ≤ size vs)
    → size
        (elim k as (λ _. Skipped) [
          | assignment ↦ skip_rounds rounds (assigns ++ w ∷ []) ws
          | function_word ↦ skip_rounds rounds assigns (drop 1 ws)
          | coproc ↦ skip_rounds rounds assigns (coproc_name ws)
          | keyword ↦ skip_rounds rounds assigns ws
          | wrapper ↦ skip_rounds rounds assigns (skip_wrapper w ws)
          | program_word ↦ record { argv = w ∷ ws; assigns = assigns }
        ]).argv
      ≤ size (w ∷ ws)
unfolding size
rounds_case-size n l w ws assignment ih = omega (arith, ih (l ++ w ∷ []) ws)
rounds_case-size n l w ws function_word ih = omega (arith, ih l (drop 1 ws), size-drop-le 1 ws)
rounds_case-size n l w ws coproc ih = omega (arith, ih l (coproc_name ws), coproc_name-size ws)
rounds_case-size n l w ws keyword ih = omega (arith, ih l ws)
rounds_case-size n l w ws wrapper ih =
    omega (arith, ih l (skip_wrapper w ws), skip_wrapper-size w ws)
rounds_case-size n l w ws program_word ih = omega arith

skip_rounds-size :
    (rounds : ℕ) (assigns words : Words) → size (skip_rounds rounds assigns words).argv ≤ size words
unfolding skip_rounds size
skip_rounds-size n assigns [] = omega arith
skip_rounds-size zero assigns (w ∷ ws) = omega arith
skip_rounds-size (suc n) assigns (w ∷ ws) =
    rounds_case-size n assigns w ws (prefix_word w) (skip_rounds-size n)

pub skip_prefix-size : (words : Words) → size (skip_prefix words).argv ≤ size words
unfolding skip_prefix
skip_prefix-size words = skip_rounds-size (size words) [] words
