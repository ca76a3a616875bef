-- ===== src/Policy/Rounds/Nested.antt =====
-- The depth of expandBraces of internal/policy/expand.go: what is between two braces is shorter than
-- the word they stand in.
use agent_fox.Policy.Text.{Word}
use mathlib.Core.Bool.{Bool, ◌&&◌}
use agent_fox.Table.Every.{Each, Each-map}
use agent_fox.Policy.Braces.{
  no_brace, failed, alternatives, matching_brace, Closed, BraceByte, BraceWord, add_byte, is_active,
  new_piece, opened, expand_pieces, Budget, Expansion, join_out, Alternatives, between_braces,
  expand_from, expand_braces, of_expansion, finish,
}
use agent_fox.Prelude.{
  true, false, zero, suc, none, some, [], ℕ, Option, List, length, ◌≤◌, ◌∷◌, nat_eq, arith, refl,
  ◌≡◌, ap, ◌∙◌, ◌<◌, ◌++◌, ◌+◌, if◌then◌else◌,
}
use mathlib.Core.Option

-- The pieces and what follows them are no longer than what they were read from.
abbrev IsInside : ℕ → Closed → Type 0
IsInside n k = Each (λ p. length p ≤ n) k.pieces × (length k.post ≤ n)

abbrev AllInside : ℕ → Option Closed → Type 0
AllInside n none = Unit
AllInside n (some k) = IsInside n k

Each-longer :
    (n : ℕ) (ps : List BraceWord) → Each (λ p. length p ≤ n) ps → Each (λ p. length p ≤ suc n) ps
Each-longer n ps h = Each-map (λ p less. omega arith) ps h

add_byte-IsInside :
    (n : ℕ) (b : BraceByte) (k : Closed) → IsInside n k → IsInside (suc n) (add_byte b k)
add_byte-IsInside n b k h = (longer k.pieces h.0, omega (arith, h.1))
  where
    longer :
        (ps : List BraceWord)
        → Each (λ p. length p ≤ n) ps
        → Each (λ p. length p ≤ suc n) (elim ps [ [] ↦ (b ∷ []) ∷ [] | p ∷ qs ↦ (b ∷ p) ∷ qs ])
    longer [] l = (omega arith, tt)
    longer (p ∷ ps) (less, later) = (omega arith, Each-longer n ps later)

map-AllInside :
    (n : ℕ) (f : Closed → Closed) (o : Option Closed)
    → ((k : Closed) → IsInside n k → IsInside (suc n) (f k))
    → AllInside n o
    → AllInside (suc n) (Option.map f o)
map-AllInside n f none keep h = tt
map-AllInside n f (some k) keep h = keep k h

new_piece-IsInside : (n : ℕ) (k : Closed) → IsInside n k → IsInside (suc n) (new_piece k)
new_piece-IsInside n k h = ((omega arith, Each-longer n k.pieces h.0), omega (arith, h.1))

AllInside-elim :
    (n : ℕ) (b : Bool) (x y : Option Closed)
    → AllInside n x
    → AllInside n y
    → AllInside n (elim b as (λ _. Option Closed) [ true ↦ x | false ↦ y ])
AllInside-elim n true x y hx hy = hx
AllInside-elim n false x y hx hy = hy

AllInside-if :
    (n : ℕ) (b : Bool) (x y : Option Closed)
    → AllInside n x
    → AllInside n y
    → AllInside n (if b then x else y)
AllInside-if n true x y hx hy = hx
AllInside-if n false x y hx hy = hy

matching_brace-AllInside :
    (w : BraceWord) (depth : ℕ) → AllInside (length w) (matching_brace depth w)
unfolding matching_brace
matching_brace-AllInside [] depth = tt
matching_brace-AllInside (b ∷ w) zero =
    let deeper = matching_brace-AllInside w 1 in
    let level = matching_brace-AllInside w 0 in
    let add = add_byte-IsInside (length w) b in
    AllInside-elim _ (is_active b'{' b) _ _ (map-AllInside (length w) (add_byte b) _ add deeper) (
      AllInside-elim _ (is_active b'}' b) (some (record { pieces = [] ∷ []; post = w })) _
        ((omega arith, tt), omega arith)
        (AllInside-if _ (is_active b',' b && nat_eq 0 0) _ _
          (map-AllInside (length w) new_piece _ (new_piece-IsInside (length w)) level)
          (map-AllInside (length w) (add_byte b) _ add level)))
matching_brace-AllInside (b ∷ w) (suc depth) =
    let deeper = matching_brace-AllInside w (suc (suc depth)) in
    let outer = matching_brace-AllInside w depth in
    let level = matching_brace-AllInside w (suc depth) in
    let add = add_byte-IsInside (length w) b in
    AllInside-elim _ (is_active b'{' b) _ _ (map-AllInside (length w) (add_byte b) _ add deeper) (
      AllInside-elim _ (is_active b'}' b) _ _ (map-AllInside (length w) (add_byte b) _ add outer) (
        AllInside-if _ (is_active b',' b && nat_eq (suc depth) 0) _ _
          (map-AllInside (length w) new_piece _ (new_piece-IsInside (length w)) level)
          (map-AllInside (length w) (add_byte b) _ add level)))

post_shorter : (b : BraceByte) (w : BraceWord) → AllInside (length w) (opened b w)
unfolding opened
post_shorter b w =
    AllInside-if (length w) (is_active b'{' b) (matching_brace 0 w) none
      (matching_brace-AllInside w 0) tt

bind_agree {ℓ} :
    {A : Type ℓ} (o : Option A) (f g : A → Option Expansion)
    → ((a : A) → f a ≡ g a)
    → elim o as (λ _. Option Expansion) [ none ↦ none | some a ↦ f a ]
      ≡ elim o as (λ _. Option Expansion) [ none ↦ none | some a ↦ g a ]
bind_agree none f g same = refl
bind_agree (some a) f g same = same a

alternatives_agree :
    (a : Alternatives) (plain plain' : Option Expansion) (f g : Expansion → Option Expansion)
    → plain ≡ plain'
    → ((e : Expansion) → f e ≡ g e)
    → elim a as (λ _. Option Expansion) [ no_brace ↦ plain | failed ↦ none | alternatives e ↦ f e ]
      ≡ elim a as (λ _. Option Expansion) [
        | no_brace ↦ plain'
        | failed ↦ none
        | alternatives e ↦ g e
      ]
alternatives_agree no_brace plain plain' f g e same = e
alternatives_agree failed plain plain' f g e same = refl
alternatives_agree (alternatives x) plain plain' f g e same = same x

-- The alternatives are the same for two ways to expand that agree on short words.
expand_pieces_agree :
    (n : ℕ) (f g : BraceWord → Budget → Option Expansion)
    → ((p : BraceWord) (k : Budget) → length p ≤ n → f p k ≡ g p k)
    → (ps : List BraceWord) (k : Budget) → Each (λ p. length p ≤ n) ps
    → expand_pieces f ps k ≡ expand_pieces g ps k
unfolding expand_pieces
expand_pieces_agree n f g same [] k h = refl
expand_pieces_agree n f g same (p ∷ ps) k (less, later) =
    ap
      (λ o. elim o as (λ _. Option Expansion) [
        | none ↦ none
        | some e ↦ Option.map (join_out e.out) (expand_pieces f ps e.left)
      ])
      (same p k less)
    ∙ bind_agree (g p k) _ _
        λ e. ap (Option.map (join_out e.out)) (expand_pieces_agree n f g same ps e.left later)

between_braces_agree :
    (n : ℕ) (f g : BraceWord → Budget → Option Expansion)
    → ((p : BraceWord) (k : Budget) → length p ≤ n → f p k ≡ g p k)
    → (ps : List BraceWord) (k : Budget) → Each (λ p. length p ≤ n) ps
    → between_braces f ps k ≡ between_braces g ps k
unfolding between_braces
between_braces_agree n f g same [] k h = refl
between_braces_agree n f g same (p ∷ []) k h = refl
between_braces_agree n f g same (p ∷ q ∷ ps) k h =
    ap of_expansion (expand_pieces_agree n f g same (p ∷ q ∷ ps) k h)

-- How the word goes on behind what a byte opens.
rest_agree :
    (n : ℕ) (f g : BraceWord → Budget → Option Expansion) (pre : Word) (k : Budget)
    (plain plain' : Option Expansion)
    → ((p : BraceWord) (j : Budget) → length p ≤ n → f p j ≡ g p j)
    → plain ≡ plain'
    → (o : Option Closed) → AllInside n o
    → elim o as (λ _. Option Expansion) [
      | none ↦ plain
      | some closed ↦ elim (between_braces f closed.pieces k) [
        | no_brace ↦ plain
        | failed ↦ none
        | alternatives e ↦ finish pre e.out (f closed.post e.left)
      ]
    ]
      ≡ elim o as (λ _. Option Expansion) [
        | none ↦ plain'
        | some closed ↦ elim (between_braces g closed.pieces k) [
          | no_brace ↦ plain'
          | failed ↦ none
          | alternatives e ↦ finish pre e.out (g closed.post e.left)
        ]
      ]
rest_agree n f g pre k plain plain' same e none h = e
rest_agree n f g pre k plain plain' same e (some closed) h =
    ap
      (λ a. elim a as (λ _. Option Expansion) [
        | no_brace ↦ plain
        | failed ↦ none
        | alternatives e ↦ finish pre e.out (f closed.post e.left)
      ])
      (between_braces_agree n f g same closed.pieces k h.0)
    ∙ alternatives_agree (between_braces g closed.pieces k) plain plain' _ _ e
        λ e'. ap (finish pre e'.out) (same closed.post e'.left h.1)

expand_from_agree :
    (n m : ℕ) (w : BraceWord) (pre : Word) (k : Budget)
    → length w < n
    → length w < m
    → expand_from n pre w k ≡ expand_from m pre w k
unfolding expand_from
expand_from_agree zero m w pre k h h' = absurd (omega arith)
expand_from_agree (suc n) zero w pre k h h' = absurd (omega arith)
expand_from_agree (suc n) (suc m) [] pre k h h' = refl
expand_from_agree (suc n) (suc m) (b ∷ w) pre k h h' =
    rest_agree (length w) (expand_from n []) (expand_from m []) pre k _ _
      (λ p j less. expand_from_agree n m p [] j (omega arith) (omega arith))
      (expand_from_agree (suc n) (suc m) w (pre ++ b.0 ∷ []) k (omega arith) (omega arith))
      (opened b w) (post_shorter b w)

-- Words nested deeper than expand_braces reads make no difference.
pub expand_braces_rounds :
    (n : ℕ) (w : BraceWord) (k : Budget) → length w < n → expand_from n [] w k ≡ expand_braces w k
unfolding expand_braces
expand_braces_rounds n w k h = expand_from_agree n (length w + 1) w [] k h (omega arith)
