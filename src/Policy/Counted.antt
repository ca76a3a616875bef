-- ===== src/Policy/Counted.antt =====
-- What count of internal/policy/expand.go lists, and when it does not return.
use agent_fox.Policy.Text.{Words, Word}
use mathlib.Core.List.{map}
use mathlib.Core.Bool.{Bool, false, true, ◌&&◌}
use agent_fox.Policy.Sequence.{
  count_up, span_of, count, too_long, endless, Sequence, count_down, is_sequence,
  max_expansion_words, count_rounds, sequence_of, count_in,
}
use agent_fox.Policy.Integers.{
  Int64, max_int, modulus, add_int, sub_int, zero_int, quotient_reaches, magnitude, same_sign,
}
use agent_fox.Prelude.{
  ℕ, Option, ◌+◌, ◌≤◌, List, ◌<◌, suc, ◌≡◌, ◌∷◌, ◌*◌, some, ap, arith, none, length, ◌-◌, [], zero,
  Bool-cases, refl, leb, inl, ◌∙◌, inr, ◌/◌, ◌⊎◌, if◌then◌else◌, ltb, true, false, Option-cases,
}
use mathlib.Core.Option

abbrev IsListed : ℕ → Option (List Int64) → Type 0
IsListed most o = (ns : List Int64) × ((o ≡ some ns) × (length ns ≤ most))

IsListed-cons :
    (n : Int64) (most : ℕ) (o : Option (List Int64))
    → IsListed most o
    → IsListed (suc most) (Option.map (λ ns. n ∷ ns) o)
IsListed-cons n most o (ns, (e, h)) = (n ∷ ns, (ap (Option.map (λ l. n ∷ l)) e, omega arith))

add_int-fits : (n s : ℕ) → n + s < modulus → add_int n (zero_int + s) ≡ n + s
add_int-fits n s h = omega arith

sub_int-fits : (n s : ℕ) → s ≤ n → n < modulus → sub_int n (zero_int + s) ≡ n - s
sub_int-fits n s h h' = omega arith

further : (k s n : ℕ) → n + suc k * s ≡ (n + s) + k * s
further k s n = grind arith

count_up-IsListed :
    (k s : ℕ) (to n : Int64)
    → to + s < modulus
    → n ≤ to + s
    → to < n + k * s
    → IsListed k (count_up (suc k) to (zero_int + s) n)
unfolding count_up
count_up-IsListed zero s to n fits below near = ([], (ground (arith, near), omega arith))
count_up-IsListed (suc k) s to n fits below near = elim (Bool-cases (leb n to)) [
  | inl e ↦
      let next : add_int n (zero_int + s) ≡ n + s = add_int-fits n s (ground (arith, e, fits)) in
      let deeper : IsListed k (count_up (suc k) to (zero_int + s) (add_int n (zero_int + s))) =
        rw next (
          count_up-IsListed k s to (n + s) fits (ground (arith, e))
            (omega (arith, further k s n, near))) in
      let longer = IsListed-cons n k _ deeper in
      let same : count_up (suc (suc k)) to (zero_int + s) n
          ≡ Option.map (λ ns. n ∷ ns)
              (count_up (suc k) to (zero_int + s) (add_int n (zero_int + s))) =
        ground (arith, e) in
      (longer.0, (same ∙ longer.1.0, longer.1.1))
  | inr e ↦ ([], (ground (arith, e), omega arith))
]

-- More rounds make no other list.
count_up_more :
    (k m : ℕ) (to step n : Int64) (ns : List Int64)
    → count_up k to step n ≡ some ns
    → k ≤ m
    → count_up m to step n ≡ some ns
unfolding count_up
count_up_more zero m to step n ns e h = absurd (cc)
count_up_more (suc k) zero to step n ns e h = absurd (omega (arith, h))
count_up_more (suc k) (suc m) to step n ns e h = elim (Bool-cases (leb n to)) [
  | inr above ↦ ground (arith, above, e)
  | inl on ↦ elim (Option-cases (count_up k to step (add_int n step))) [
    | inl out ↦ absurd (ground (arith, on, out, e))
    | inr (l, found) ↦
        let more = count_up_more k m to step (add_int n step) l found (omega (arith, h)) in
        ground (arith, on, found, more, e)
  ]
]

-- The loop up to the greatest int does not end, whatever its step: no number is above that one.
count_up_never_ends :
    (rounds : ℕ) (step n : Int64) → n ≤ max_int → count_up rounds max_int step n ≡ none
unfolding count_up
count_up_never_ends zero step n h = refl
count_up_never_ends (suc rounds) step n h =
    ground (arith, h, count_up_never_ends rounds step (add_int n step) (omega arith))

below_span : (from to s : ℕ) → 1 ≤ s → (to - from) / s < 4096 → from ≤ to → to < from + 4096 * s
below_span from to s h near ordered = grind arith

span_up :
    (from to : Int64)
    → from ≤ to
    → to < modulus
    → to - from < zero_int
    → span_of from to ≡ zero_int + (to - from)
span_up from to ordered fits near = ground arith

reaches_of_span :
    (d s bound : ℕ)
    → 1 ≤ s
    → s < zero_int
    → quotient_reaches (zero_int + d) (zero_int + s) bound ≡ leb bound (d / s)
reaches_of_span d s bound forward small =
    let d_of : magnitude (zero_int + d) ≡ d = ground arith in
    let s_of : magnitude (zero_int + s) ≡ s = ground arith in
    let sign : same_sign (zero_int + d) (zero_int + s) ≡ true = ground arith in
    ap (λ b. b && leb bound (magnitude (zero_int + d) / magnitude (zero_int + s))) sign
    ∙ ap (λ x. leb bound (x / magnitude (zero_int + s))) d_of
    ∙ ap (λ x. leb bound (d / x)) s_of

-- The test of count for a list that is too long.
span_reaches :
    (from to : Int64) (s bound : ℕ)
    → from ≤ to
    → to < modulus
    → 1 ≤ s
    → s < zero_int
    → to - from < zero_int
    → quotient_reaches (span_of from to) (zero_int + s) bound ≡ leb bound ((to - from) / s)
span_reaches from to s bound ordered fits forward small near =
    ap (λ x. quotient_reaches x (zero_int + s) bound) (span_up from to ordered fits near)
    ∙ reaches_of_span (to - from) s bound forward small

length-map {ℓ κ} :
    {A : Type ℓ} {B : Type κ} (f : A → B) (xs : List A) → length (map f xs) ≡ length xs
length-map f [] = refl
length-map f (x ∷ xs) = ap suc (length-map f xs)

count_of : Bool → Bool → (Int64 → Word) → Option (List Int64) → Option (List Int64) → Sequence
count_of reaches downwards format down up =
    if reaches then too_long else sequence_of format (elim downwards [ true ↦ down | false ↦ up ])

-- count, from an int up to one that is not less
counts_up :
    (rounds : ℕ) (from to : Int64) (s : ℕ) (format : Int64 → Word)
    → from ≤ to
    → quotient_reaches (span_of from to) (zero_int + s) max_expansion_words ≡ false
    → count_in rounds from to (zero_int + s) format
      ≡ sequence_of format (count_up rounds to (zero_int + s) from)
unfolding count_in count_of
counts_up rounds from to s format ordered short =
    let upwards : ltb to from ≡ false = ground arith in
    ap
      (λ b.
        count_of b (ltb to from) format (count_down rounds to (zero_int + s) from)
          (count_up rounds to (zero_int + s) from))
      short
    ∙ ap
        (λ b.
          count_of false b format (count_down rounds to (zero_int + s) from)
            (count_up rounds to (zero_int + s) from))
        upwards

-- A sequence from an int up to a greater one, each of them at least the step below the greatest int
-- and less than half the range apart, is refused as too long or has at most 4096 words.
pub count_fits :
    (from to : Int64) (s : ℕ) (format : Int64 → Word)
    → from ≤ to
    → to + s < modulus
    → 1 ≤ s
    → s < zero_int
    → to - from < zero_int
    → (count from to (zero_int + s) format ≡ too_long)
      ⊎ ((ws : Words) × ((count from to (zero_int + s) format ≡ is_sequence ws)
            × (length ws ≤ max_expansion_words)))
unfolding count count_in count_of
count_fits from to s format ordered fits forward small near =
    elim (Bool-cases (leb max_expansion_words ((to - from) / s))) [
      | inl e ↦
          let long =
            span_reaches from to s max_expansion_words ordered (omega arith) forward small near in
          inl (
            ap
              (λ b.
                count_of b (ltb to from) format (count_down count_rounds to (zero_int + s) from)
                  (count_up count_rounds to (zero_int + s) from))
              (long ∙ e))
      | inr e ↦
          let short =
            span_reaches from to s max_expansion_words ordered (omega arith) forward small near in
          let close = below_span from to s forward (ground (arith, e)) ordered in
          let (ns, (made, most)) = count_up-IsListed 4096 s to from fits (omega arith) close in
          inr (
            map format ns,
            (
              counts_up count_rounds from to s format ordered (short ∙ e)
                  ∙ ap (sequence_of format) (
                      count_up_more 4097 count_rounds to (zero_int + s) from ns made (omega arith)),
              omega (arith, length-map format ns, most),
            ),
          )
    ]

few : (n s : ℕ) → n < 4096 → 1 ≤ s → leb 4096 (n / s) ≡ false
few n s h forward = let less : n / s ≤ n = grind arith in ground arith

-- A sequence of ints that ends with the greatest one, and begins at most 4095 below it, is never
-- refused as too long, and however many rounds the loop of count is given, it has not ended.
pub count_never_ends :
    (n s rounds : ℕ) (format : Int64 → Word)
    → n < 4096
    → 1 ≤ s
    → s < zero_int
    → count_in rounds (max_int - n) max_int (zero_int + s) format ≡ endless
count_never_ends n s rounds format h forward small =
    let below : max_int - n ≤ max_int = omega arith in
    let test =
      span_reaches (max_int - n) max_int s max_expansion_words below (omega arith) forward small
        (omega arith) in
    let short : leb max_expansion_words ((max_int - (max_int - n)) / s) ≡ false =
      let gap : max_int - (max_int - n) ≡ n = omega arith in
      ap (λ d. leb max_expansion_words (d / s)) gap ∙ few n s h forward in
    counts_up rounds (max_int - n) max_int s format below (test ∙ short)
    ∙ ap (sequence_of format) (count_up_never_ends rounds (zero_int + s) (max_int - n) below)
