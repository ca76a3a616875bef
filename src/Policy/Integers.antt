-- ===== src/Policy/Integers.antt =====
-- Go's int of 64 bits as internal/policy/expand.go computes with it, wrap-around included: an
-- integer is stored as what it is above the least one, so that 0 is the least and zero_int is 0.
use agent_fox.Policy.Text.{Word, dash, is_digit}
use agent_fox.Prelude.{
  ◌%◌, ◌/◌, ◌^◌, ℕ, ◌+◌, Bool, ◌-◌, ltb, if◌then◌else◌, ◌&&◌, Option, suc, not, leb, some, none,
  nat_eq, ◌∷◌, true, ◌*◌, false, [], zero,
}

abbrev pub Int64 : Type 0
Int64 = ℕ

abbrev pub modulus : ℕ
modulus = 2 ^ 64

abbrev pub zero_int : Int64
zero_int = 2 ^ 63

abbrev pub max_int : Int64
max_int = 2 ^ 64 - 1

abbrev pub add_int : Int64 → Int64 → Int64
add_int a b = (a + b + zero_int) % modulus

abbrev pub sub_int : Int64 → Int64 → Int64
sub_int a b = (a + modulus + zero_int - b) % modulus

abbrev pub neg_int : Int64 → Int64
neg_int a = sub_int zero_int a

abbrev pub is_negative : Int64 → Bool
is_negative a = ltb a zero_int

abbrev pub magnitude : Int64 → ℕ
magnitude a = if is_negative a then zero_int - a else a - zero_int

-- a / b >= bound, for a positive bound: Go's division is that of the magnitudes, with a sign.
abbrev pub same_sign : Int64 → Int64 → Bool
same_sign a b = if is_negative a then is_negative b else not (is_negative b)

abbrev pub quotient_reaches : Int64 → Int64 → ℕ → Bool
quotient_reaches a b bound = same_sign a b && leb bound (magnitude a / magnitude b)

-- strconv.Atoi: none where it is an error.
unfoldable digits_value : ℕ → Word → Option ℕ
digits_value n [] = some n
digits_value n (c ∷ s) =
    let more = digits_value (10 * n + (c - b'0')) s in if is_digit c then more else none

abbrev signed_value : Bool → Option ℕ → Option Int64
signed_value minus none = none
signed_value true (some n) = if leb n zero_int then some (zero_int - n) else none
signed_value false (some n) = if ltb n zero_int then some (zero_int + n) else none

abbrev unsigned_value : Word → Option ℕ
unsigned_value [] = none
unsigned_value (c ∷ s) = digits_value 0 (c ∷ s)

unfoldable pub atoi : Word → Option Int64
unfolding digits_value
atoi [] = none
atoi (c ∷ s) =
    if nat_eq c dash
    then signed_value true (unsigned_value s)
    else if nat_eq c b'+'
    then signed_value false (unsigned_value s)
    else signed_value false (unsigned_value (c ∷ s))

-- strconv.Itoa: an int has at most 19 digits.
digits_of : ℕ → ℕ → Word → Word
digits_of zero n sofar = sofar
digits_of (suc rounds) n sofar =
    let longer = digits_of rounds (n / 10) ((b'0' + n % 10) ∷ sofar) in
    if nat_eq n 0 then sofar else longer

abbrev decimal : ℕ → Word
decimal n = if nat_eq n 0 then b'0' ∷ [] else digits_of 20 n []

unfoldable pub itoa : Int64 → Word
unfolding digits_of
itoa a = if is_negative a then dash ∷ decimal (magnitude a) else decimal (magnitude a)
