-- ===== src/Policy/WordTests.antt =====
-- The words of a shell line, read and expanded on concrete inputs, and the theorems at them.
use agent_fox.Table.{exists_where}
use agent_fox.Policy.Flatten.{together}
use agent_fox.Policy.Expanded.{expand_braces_bounded}
use agent_fox.Policy.Counted.{count_never_ends, count_fits}
use agent_fox.Policy.Text.{bytes, has_prefix, cut, cut_prefix, same_word, Words}
use agent_fox.Policy.Prefix.{size}
use agent_fox.Policy.Integers.{zero_int, max_int, itoa, atoi}
use agent_fox.Policy.Quotes.{
  split_ifs, split_ifs_from, ifs_length, ansi_c, ansi_from, append_escape, hex_escape, hex_digits,
  octal_digits, rune_bytes, closing,
}
use agent_fox.Policy.Braces.{
  BraceWord, Expansion, expand_braces, expand_from, opened, matching_brace, spend, spend_all,
  combine, expand_pieces, between_braces,
}
use agent_fox.Policy.Sequence.{
  count, too_long, endless, max_expansion_words, is_sequence, max_expansion_bytes, sequence,
  split_dots, padded, count_up, count_down, widen, count_in,
}
use agent_fox.Policy.Parse.{
  shell_words, piece_words, read_quotes, read_quotes_from, next_piece, parse, parse_command,
  parse_redirect, full_budget,
}
use agent_fox.Prelude.{
  List, length, String, true, ◌∷◌, ◌≡◌, ◌+◌, ◌-◌, false, [], ◌⊎◌, map, ◌≤◌, arith, some, refl,
}

abbrev texts : List String → Words
texts ts = map bytes ts

words_read :
    (shell_words (bytes "git${IFS}push") ≡ some (texts ("git" ∷ "push" ∷ [])))
    × (shell_words (bytes "$'g\\x69t'${x,}") ≡ some (texts ("git${x,}" ∷ [])))
    × (shell_words (bytes "a{b,{c,d}}e") ≡ some (texts ("abe" ∷ "ace" ∷ "ade" ∷ [])))
    × (shell_words (bytes "{08..10}") ≡ some (texts ("08" ∷ "09" ∷ "10" ∷ [])))
    × (shell_words (bytes "{c..a..2}") ≡ some (texts ("c" ∷ "a" ∷ [])))
    × (shell_words (bytes "{-1..1}") ≡ some (texts ("-1" ∷ "0" ∷ "1" ∷ [])))
    × (shell_words (bytes "{a}{") ≡ some (texts ("{a}{" ∷ [])))
unfolding shell_words split_ifs split_ifs_from ifs_length has_prefix piece_words read_quotes
    read_quotes_from next_piece ansi_c ansi_from append_escape hex_escape hex_digits octal_digits
    rune_bytes cut cut_prefix closing expand_braces expand_from opened matching_brace spend
    spend_all combine expand_pieces between_braces sequence split_dots padded count count_in
    count_up count_down widen itoa atoi together parse parse_command parse_redirect same_word
    exists_where
words_read = (refl, refl, refl, refl, refl, refl, refl)

count_fits_example :
    (count zero_int (zero_int + 9) (zero_int + 3) itoa ≡ too_long)
    ⊎ ((ws : Words) × ((count zero_int (zero_int + 9) (zero_int + 3) itoa ≡ is_sequence ws)
          × (length ws ≤ max_expansion_words)))
count_fits_example =
    count_fits zero_int (zero_int + 9) 3 itoa (omega arith) (omega arith) (omega arith)
      (omega arith) (omega arith)

count_never_ends_example : count_in 1000 (max_int - 1) max_int (zero_int + 1) itoa ≡ endless
count_never_ends_example = count_never_ends 1 1 1000 itoa (omega arith) (omega arith) (omega arith)

abbrev two_words : BraceWord
two_words = (b'{', true) ∷ (b'a', false) ∷ (b',', true) ∷ (b'}', true) ∷ []

abbrev two_out : Expansion
two_out = record {
  out = texts ("a" ∷ "" ∷ []);
  left = record { words = 4094; bytes_left = 1_048_573 };
}

two_expand : expand_braces two_words full_budget ≡ some two_out
unfolding shell_words split_ifs split_ifs_from ifs_length has_prefix piece_words read_quotes
    read_quotes_from next_piece ansi_c ansi_from append_escape hex_escape hex_digits octal_digits
    rune_bytes cut cut_prefix closing expand_braces expand_from opened matching_brace spend
    spend_all combine expand_pieces between_braces sequence split_dots padded count count_in
    count_up count_down widen itoa atoi together parse parse_command parse_redirect same_word
    exists_where
two_expand = refl

expand_braces_bounded_example :
    (length two_out.out ≡ 1)
    ⊎ ((length two_out.out ≤ max_expansion_words) × (size two_out.out ≤ max_expansion_bytes))
expand_braces_bounded_example = expand_braces_bounded two_words two_out two_expand
