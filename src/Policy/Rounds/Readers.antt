-- ===== src/Policy/Rounds/Readers.antt =====
-- The rounds of ansiC and of readQuotes of internal/policy/parse.go and expand.go.
use agent_fox.Policy.Braces.{BraceWord}
use agent_fox.Policy.Parse.{Piece, quoted_text, next_piece, read_quotes_from, read_quotes}
use mathlib.Core.Option.{Option}
use mathlib.Core.Option
use agent_fox.Policy.Rounds.{if_agree, length-drop-le, drop}
use agent_fox.Policy.Text.{Word, drop}
use agent_fox.Policy.Quotes.{
  closing, hex_digits, octal_digits, hex_escape, append_escape, ansi_from, control, hex_value,
  Escape, ansi_c,
}
use agent_fox.Prelude.{
  true, false, zero, suc, none, some, refl, [], inl, inr, ℕ, length, Bool, ◌≤◌, ◌<◌, arith, ◌+◌,
  ◌≡◌, ◌∷◌, ◌*◌, ◌-◌, nat_eq, ◌++◌, Bool-cases, ap,
}

closing-le :
    (end : ℕ) (w : Word) (depth : ℕ) (escaped : Bool)
    → length (closing end depth escaped w).after ≤ length w
unfolding closing
closing-le end [] depth escaped = omega arith
closing-le end (c ∷ w) depth true = omega (arith, closing-le end w depth false)
closing-le end (c ∷ w) zero false =
    ground (arith, closing-le end w 0 false, closing-le end w 0 true, closing-le end w 1 false)
closing-le end (c ∷ w) (suc depth) false = ground (
  arith,
  closing-le end w (suc depth) false,
  closing-le end w (suc depth) true,
  closing-le end w (suc (suc depth)) false,
  closing-le end w depth false,
)

hex_digits-le :
    (limit n taken : ℕ) (s : Word) → length (hex_digits limit n taken s).after ≤ length s
unfolding hex_digits
hex_digits-le zero n taken s = omega arith
hex_digits-le (suc limit) n taken [] = omega arith
hex_digits-le (suc limit) n taken (c ∷ s) =
    ground (arith, hex_digits-le limit (16 * n + hex_value c) (taken + 1) s)

octal_digits-le :
    (limit n taken : ℕ) (s : Word) → length (octal_digits limit n taken s).after ≤ length s
unfolding octal_digits
octal_digits-le zero n taken s = omega arith
octal_digits-le (suc limit) n taken [] = omega arith
octal_digits-le (suc limit) n taken (c ∷ s) =
    ground (arith, octal_digits-le limit (8 * n + (c - b'0')) (taken + 1) s)

hex_escape-le :
    (e : ℕ) (s : Word) (limit : ℕ) (character : Bool)
    → length (hex_escape e s limit character).after ≤ length s
unfolding hex_escape
hex_escape-le e s limit character = ground (arith, hex_digits-le limit 0 0 s)

control-le : (s : Word) → length (control s).after ≤ length s
control-le [] = omega arith
control-le (c ∷ s) = omega arith

append_escape-le : (e : ℕ) (s : Word) → length (append_escape e s).after ≤ length s + 1
unfolding append_escape
append_escape-le e s = ground (
  arith,
  octal_digits-le 3 0 0 (e ∷ s),
  hex_escape-le e s 2 false,
  hex_escape-le e s 4 true,
  hex_escape-le e s 8 true,
  control-le s,
)

ansi_from_agree :
    (n k : ℕ) (out s : Word) → length s < n → length s < k → ansi_from n out s ≡ ansi_from k out s
unfolding ansi_from
ansi_from_agree zero k out s h h' = absurd (omega arith)
ansi_from_agree (suc n) zero out s h h' = absurd (omega arith)
ansi_from_agree (suc n) (suc k) out [] h h' = refl
ansi_from_agree (suc n) (suc k) out (c ∷ []) h h' = refl
ansi_from_agree (suc n) (suc k) out (c ∷ e ∷ s) h h' = if_agree (nat_eq c b'\'') _ _ _ _ refl (
    if_agree (nat_eq c 92) _ _ _ _
      (ansi_from_agree n k (out ++ (append_escape e s).stands_for) (append_escape e s).after
        (omega (arith, append_escape-le e s)) (omega (arith, append_escape-le e s)))
      (ansi_from_agree n k (out ++ c ∷ []) (e ∷ s) (omega arith) (omega arith)))

-- More rounds than ansi_c has make no difference.
pub ansi_c_rounds : (n : ℕ) (s : Word) → length s < n → ansi_from n [] s ≡ ansi_c s
unfolding ansi_c
ansi_c_rounds n s h = ansi_from_agree n (length s + 1) [] s h (omega arith)

abbrev EndsWithin : ℕ → Option Escape → Type 0
EndsWithin n none = Unit
EndsWithin n (some k) = length k.after ≤ n

EndsWithin-if :
    (n : ℕ) (b : Bool) (x y : Option Escape)
    → EndsWithin n x
    → EndsWithin n y
    → EndsWithin n (elim b [ true ↦ x | false ↦ y ])
EndsWithin-if n true x y hx hy = hx
EndsWithin-if n false x y hx hy = hy

EndsWithin-weaken : (n k : ℕ) (o : Option Escape) → n ≤ k → EndsWithin n o → EndsWithin k o
EndsWithin-weaken n k none h e = tt
EndsWithin-weaken n k (some x) h e = omega arith

ansi_from-EndsWithin : (n : ℕ) (out s : Word) → EndsWithin (length s) (ansi_from n out s)
unfolding ansi_from
ansi_from-EndsWithin zero out s = tt
ansi_from-EndsWithin (suc n) out [] = tt
ansi_from-EndsWithin (suc n) out (c ∷ []) = elim (Bool-cases (nat_eq c b'\'')) [
  | inl e ↦ rw e (omega arith)
  | inr e ↦ rw e tt
]
ansi_from-EndsWithin (suc n) out (c ∷ e ∷ s) = EndsWithin-if _ (nat_eq c b'\'') _ _ (omega arith) (
    EndsWithin-if _ (nat_eq c 92) _ _
      (EndsWithin-weaken (length (append_escape e s).after) _ _
        (omega (arith, append_escape-le e s))
        (ansi_from-EndsWithin n (out ++ (append_escape e s).stands_for) (append_escape e s).after))
      (EndsWithin-weaken (length (e ∷ s)) _ _ (omega arith)
        (ansi_from-EndsWithin n (out ++ c ∷ []) (e ∷ s))))

abbrev PieceWithin : ℕ → Option Piece → Type 0
PieceWithin n none = Unit
PieceWithin n (some k) = length k.after ≤ n

quoted-PieceWithin : (n : ℕ) (o : Option Escape) → EndsWithin n o → PieceWithin n (quoted_text o)
quoted-PieceWithin n none h = tt
quoted-PieceWithin n (some k) h = h

next_piece-PieceWithin : (c : ℕ) (w : Word) → PieceWithin (length w) (next_piece c w)
unfolding next_piece
next_piece-PieceWithin c w =
    let shorter = length-drop-le 1 w in
    let ansi : EndsWithin (length w) (ansi_c (drop 1 w)) =
      unfold ansi_c in
      EndsWithin-weaken (length (drop 1 w)) _ _ shorter (ansi_from-EndsWithin _ [] (drop 1 w)) in
    let quoted_end : length (closing b'"' 0 false (drop 1 w)).after ≤ length w =
      omega (arith, shorter, closing-le b'"' (drop 1 w) 0 false) in
    let brace_end : length (closing b'}' 0 false (drop 1 w)).after ≤ length w =
      omega (arith, shorter, closing-le b'}' (drop 1 w) 0 false) in
    let paren_end : length (closing b')' 0 false (drop 1 w)).after ≤ length w =
      omega (arith, shorter, closing-le b')' (drop 1 w) 0 false) in
    ground (
      arith,
      quoted-PieceWithin (length w) (ansi_c (drop 1 w)) ansi,
      quoted_end,
      brace_end,
      paren_end,
      closing-le b'`' w 0 false,
    )

piece_agree :
    (m : ℕ) (o : Option Piece) (f g : Piece → Option BraceWord)
    → PieceWithin m o
    → ((k : Piece) → length k.after ≤ m → f k ≡ g k)
    → elim o [ none ↦ none | some k ↦ f k ] ≡ elim o [ none ↦ none | some k ↦ g k ]
piece_agree m none f g h same = refl
piece_agree m (some k) f g h same = same k h

read_quotes_agree :
    (n k : ℕ) (w : Word) → length w ≤ n → length w ≤ k → read_quotes_from n w ≡ read_quotes_from k w
unfolding read_quotes_from
read_quotes_agree n k [] h h' = refl
read_quotes_agree zero k (c ∷ w) h h' = absurd (omega arith)
read_quotes_agree (suc n) zero (c ∷ w) h h' = absurd (omega arith)
read_quotes_agree (suc n) (suc k) (c ∷ w) h h' =
    piece_agree (length w) (next_piece c w) _ _ (next_piece-PieceWithin c w) λ p less.
      ap (Option.map (λ more. p.read ++ more))
        (read_quotes_agree n k p.after (omega arith) (omega arith))

-- More rounds than read_quotes has make no difference.
pub read_quotes_rounds : (n : ℕ) (w : Word) → length w ≤ n → read_quotes_from n w ≡ read_quotes w
unfolding read_quotes
read_quotes_rounds n w h = read_quotes_agree n (length w) w h (omega arith)
