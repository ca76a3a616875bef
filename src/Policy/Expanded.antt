-- ===== src/Policy/Expanded.antt =====
-- The bounds of the brace expansion of internal/policy/expand.go: the words and bytes it makes are
-- paid from its budget.
use agent_fox.Policy.Parse.{full_budget}
use agent_fox.Policy.Sequence.{
  Sequence, is_sequence, sequence, not_sequence, too_long, endless, max_expansion_words,
  max_expansion_bytes,
}
use agent_fox.Policy.Prefix.{size}
use agent_fox.Policy.Text.{Words, Word}
use agent_fox.Policy.Braces.{
  no_brace, failed, alternatives, Budget, spend, spend_all, Expansion, add_out, expand_pieces,
  Alternatives, of_expansion, of_sequence, between_braces, finish, expand_from, BraceWord,
  alternatives, combine, join_out, text_of, expand_braces, opened, Closed,
}
use agent_fox.Prelude.{
  Option, some, ◌≤◌, length, ◌+◌, none, arith, ◌∷◌, ◌≡◌, inr, [], ◌⊎◌, ℕ, List, Bool-cases, suc,
  ltb, inl, ◌++◌, zero, refl,
}
use mathlib.Core.Option.{Option}
use mathlib.Core.Option

abbrev Holds {ℓ κ} : {A : Type ℓ} → (A → Type κ) → Option A → Type κ
Holds P none = Unit
Holds P (some a) = P a

Holds-map {ℓ κ} :
    {A : Type ℓ} {B : Type ℓ} (P : A → Type κ) (Q : B → Type κ) (f : A → B) (o : Option A)
    → ((a : A) → P a → Q (f a))
    → Holds P o
    → Holds Q (Option.map f o)
Holds-map P Q f none k h = h
Holds-map P Q f (some a) k h = k a h

Holds-bind {ℓ κ μ} :
    {A : Type ℓ} {B : Type ℓ} (P : A → Type κ) (Q : B → Type μ) (o : Option A) (f : A → Option B)
    → ((a : A) → P a → Holds Q (f a))
    → Holds P o
    → Holds Q (elim o [ none ↦ none | some a ↦ f a ])
Holds-bind P Q none f k h = tt
Holds-bind P Q (some a) f k h = k a h

-- No more is left than there was.
abbrev IsLess : Budget → Budget → Type 0
IsLess k left = (left.words ≤ k.words) × (left.bytes_left ≤ k.bytes_left)

-- The words, with a byte more for each, are paid for.
abbrev IsPaid : Budget → Expansion → Type 0
IsPaid k e =
    (length e.out + e.left.words ≤ k.words) × (size e.out + e.left.bytes_left ≤ k.bytes_left)

abbrev IsSpent : Budget → Expansion → Type 0
IsSpent k e = IsLess k e.left

spend-Holds :
    (k : Budget) (w : Word)
    → Holds
        (λ (left : Budget).
          (left.words + 1 ≤ k.words) × (left.bytes_left + (length w + 1) ≤ k.bytes_left))
        (spend k w)
unfolding spend
spend-Holds k w = ground arith

spend_all-IsPaid : (ws : Words) (k : Budget) → Holds (IsPaid k) (spend_all k ws)
unfolding spend_all size
spend_all-IsPaid [] k = (omega arith, omega arith)
spend_all-IsPaid (w ∷ ws) k =
    Holds-bind _ (IsPaid k) (spend k w) (λ k'. Option.map (add_out w) (spend_all k' ws))
      (λ k' h.
        Holds-map (IsPaid k') (IsPaid k) (add_out w) (spend_all k' ws)
          (λ e p. (omega arith, omega arith)) (spend_all-IsPaid ws k'))
      (spend-Holds k w)

IsLess-trans : (a b c : Budget) → IsLess a b → IsLess b c → IsLess a c
IsLess-trans a b c h h' = (omega arith, omega arith)

Holds-weaken {ℓ κ} :
    {A : Type ℓ} (P : A → Type κ) (Q : A → Type κ) (o : Option A)
    → ((a : A) → P a → Q a)
    → Holds P o
    → Holds Q o
Holds-weaken P Q none k h = h
Holds-weaken P Q (some a) k h = k a h

expand_pieces-IsSpent :
    (expand : BraceWord → Budget → Option Expansion)
    → ((w : BraceWord) (k : Budget) → Holds (IsSpent k) (expand w k))
    → (ps : List BraceWord) (k : Budget) → Holds (IsSpent k) (expand_pieces expand ps k)
unfolding expand_pieces
expand_pieces-IsSpent expand spends [] k = (omega arith, omega arith)
expand_pieces-IsSpent expand spends (p ∷ ps) k =
    Holds-bind (IsSpent k) (IsSpent k) (expand p k)
      (λ e. Option.map (join_out e.out) (expand_pieces expand ps e.left))
      (λ e h.
        Holds-map (IsSpent e.left) (IsSpent k) (join_out e.out) (expand_pieces expand ps e.left)
          (λ e' h'. IsLess-trans k e.left e'.left h h')
          (expand_pieces-IsSpent expand spends ps e.left))
      (spends p k)

-- The alternatives are made of the budget, too.
abbrev SpendsFor : Budget → Alternatives → Type 0
SpendsFor k (alternatives e) = IsSpent k e
SpendsFor k _ = Unit

of_expansion-SpendsFor :
    (k : Budget) (o : Option Expansion) → Holds (IsSpent k) o → SpendsFor k (of_expansion o)
of_expansion-SpendsFor k none h = tt
of_expansion-SpendsFor k (some e) h = h

of_sequence-SpendsFor : (k : Budget) (q : Sequence) → SpendsFor k (of_sequence k q)
of_sequence-SpendsFor k not_sequence = tt
of_sequence-SpendsFor k too_long = tt
of_sequence-SpendsFor k endless = tt
of_sequence-SpendsFor k (is_sequence ws) = elim (Bool-cases (ltb k.words (length ws))) [
  | inl e ↦ rw e tt
  | inr e ↦ rw e (omega arith, omega arith)
]

between_braces-SpendsFor :
    (expand : BraceWord → Budget → Option Expansion)
    → ((w : BraceWord) (k : Budget) → Holds (IsSpent k) (expand w k))
    → (ps : List BraceWord) (k : Budget) → SpendsFor k (between_braces expand ps k)
unfolding between_braces
between_braces-SpendsFor expand spends [] k = tt
between_braces-SpendsFor expand spends (p ∷ []) k = of_sequence-SpendsFor k (sequence (text_of p))
between_braces-SpendsFor expand spends (p ∷ q ∷ ps) k =
    of_expansion-SpendsFor k _ (expand_pieces-IsSpent expand spends (p ∷ q ∷ ps) k)

-- An expansion is one word that was not paid for, or words that were.
abbrev pub IsWithin : Budget → Expansion → Type 0
IsWithin k e = IsLess k e.left × ((length e.out ≡ 1) ⊎ IsPaid k e)

paid-IsWithin : (k : Budget) (e : Expansion) → IsPaid k e → IsWithin k e
paid-IsWithin k e h = ((omega arith, omega arith), inr h)

finish-IsWithin :
    (pre : Word) (found : Words) (k k' : Budget) (o : Option Expansion)
    → IsLess k k'
    → Holds (IsSpent k') o
    → Holds (IsWithin k) (finish pre found o)
finish-IsWithin pre found k k' none less h = tt
finish-IsWithin pre found k k' (some tails) less h =
    Holds-weaken (IsPaid tails.left) (IsWithin k) _
      (λ e paid. paid-IsWithin k e (omega arith, omega arith))
      (spend_all-IsPaid (combine pre found tails.out) tails.left)

after_braces-IsWithin :
    (pre : Word) (k : Budget) (a : Alternatives) (plain : Option Expansion)
    (tails : Budget → Option Expansion)
    → SpendsFor k a
    → Holds (IsWithin k) plain
    → ((k' : Budget) → Holds (IsSpent k') (tails k'))
    → Holds (IsWithin k) (elim a [
      | no_brace ↦ plain
      | failed ↦ none
      | alternatives e ↦ finish pre e.out (tails e.left)
    ])
after_braces-IsWithin pre k no_brace plain tails h hp ht = hp
after_braces-IsWithin pre k failed plain tails h hp ht = tt
after_braces-IsWithin pre k (alternatives e) plain tails h hp ht =
    finish-IsWithin pre e.out k e.left (tails e.left) h (ht e.left)

opened_case-IsWithin :
    (depth : ℕ) (pre : Word) (k : Budget) (plain : Option Expansion)
    → ((v : BraceWord) (j : Budget) → Holds (IsSpent j) (expand_from depth [] v j))
    → Holds (IsWithin k) plain
    → (o : Option Closed)
    → Holds (IsWithin k) (elim o [
      | none ↦ plain
      | some closed ↦ elim (between_braces (expand_from depth []) closed.pieces k) [
        | no_brace ↦ plain
        | failed ↦ none
        | alternatives e ↦ finish pre e.out (expand_from depth [] closed.post e.left)
      ]
    ])
opened_case-IsWithin depth pre k plain spends hp none = hp
opened_case-IsWithin depth pre k plain spends hp (some closed) =
    after_braces-IsWithin pre k (between_braces (expand_from depth []) closed.pieces k) plain
      (λ k'. expand_from depth [] closed.post k')
      (between_braces-SpendsFor (expand_from depth []) spends closed.pieces k) hp
      (λ k'. spends closed.post k')

expand_from-IsWithin :
    (depth : ℕ) (pre : Word) (w : BraceWord) (k : Budget)
    → Holds (IsWithin k) (expand_from depth pre w k)
unfolding expand_from
expand_from-IsWithin zero pre w k = tt
expand_from-IsWithin (suc depth) pre [] k = ((omega arith, omega arith), inl refl)
expand_from-IsWithin (suc depth) pre (b ∷ w) k =
    let plain = expand_from-IsWithin (suc depth) (pre ++ b.0 ∷ []) w k in
    let spends : (v : BraceWord) (j : Budget) → Holds (IsSpent j) (expand_from depth [] v j) =
      λ v j.
        Holds-weaken (IsWithin j) (IsSpent j) _ (λ e h. h.0) (expand_from-IsWithin depth [] v j) in
    opened_case-IsWithin depth pre k (expand_from (suc depth) (pre ++ b.0 ∷ []) w k) spends plain
      (opened b w)

-- The brace expansion of a word makes one word, or at most 4096 words of at most 2^20 bytes, with
-- one more byte for each word.
pub expand_braces_bounded :
    (w : BraceWord) (e : Expansion)
    → expand_braces w full_budget ≡ some e
    → (length e.out ≡ 1)
      ⊎ ((length e.out ≤ max_expansion_words) × (size e.out ≤ max_expansion_bytes))
unfolding expand_braces
expand_braces_bounded w e h =
    let within : Holds (IsWithin full_budget) (some e) =
      rw h at (expand_from-IsWithin (length w + 1) [] w full_budget) in
    elim within.1 [ inl one ↦ inl one | inr paid ↦ inr (omega arith, omega arith) ]
