-- ===== src/Jobs/Rounds.antt =====
-- The rounds of automatic attempts of internal/service/jobs/finish.go.
use mathlib.Core.Option.{Option}
use agent_fox.Jobs.Rows.{Attempt}
use agent_fox.Jobs.Model.{Envelope, ℤ, pos, negsuc, ErrorInfo, Status}
use agent_fox.Prelude.{
  List, ◌≤◌, ℕ, arith, suc, Bool, ◌≡◌, zero, if◌then◌else◌, true, ◌<◌, false, none, some, refl, inl,
  inr, ◌⊎◌, Bool-cases, ◌∙◌, sym, ◌↔◌, ◌+◌, ◌&&◌, ◌||◌, ◌==◌, ==_iff, subst, String_Eq,
}
use agent_fox.Jobs.Ruling.{round_start, round_size, ruling, round_limit, automatic, tried_again}

pub round_start-bounds :
    (rows : List Attempt) (n : ℕ) → (1 ≤ n → 1 ≤ round_start rows n) × (round_start rows n ≤ n)
unfolding round_start
round_start-bounds rows zero = (λ h. h, omega arith)
round_start-bounds rows (suc zero) = (λ h. h, omega arith)
round_start-bounds rows (suc (suc k)) = ground (arith, round_start-bounds rows (suc k))

-- The round of an attempt that is not automatic begins with it, and that of an automatic one began
-- where the round of the attempt before did.
pub round_size-step :
    (rows : List Attempt) (n : ℕ)
    → round_size rows (suc (suc n))
      ≡ (if automatic rows (suc (suc n)) then suc (round_size rows (suc n)) else 1)
unfolding round_size round_start
round_size-step rows n = ground (arith, round_start-bounds rows (suc n))

-- The attempt that a round began with, by what the attempts say: it is the first one of the job or
-- is not automatic, and those after it are.
pub data StartsRound (rows : List Attempt) (k : ℕ) : ℕ → Type 0 where
  round_begins : (k ≡ 1) ⊎ (automatic rows k ≡ false) → StartsRound rows k k
  round_goes_on :
      {n : ℕ} → StartsRound rows k n → automatic rows (suc n) ≡ true → StartsRound rows k (suc n)

StartsRound-le : (rows : List Attempt) (k n : ℕ) → StartsRound rows k n → k ≤ n
StartsRound-le rows k _ (round_begins first) = omega arith
StartsRound-le rows k _ (round_goes_on {n} h auto) = omega (arith, StartsRound-le rows k n h)

round_start-StartsRound :
    (rows : List Attempt) (n : ℕ) → 1 ≤ n → StartsRound rows (round_start rows n) n
unfolding round_start
round_start-StartsRound rows zero h = absurd (omega arith)
round_start-StartsRound rows (suc zero) h = round_begins (inl refl)
round_start-StartsRound rows (suc (suc k)) h = elim (Bool-cases (automatic rows (suc (suc k)))) [
  | inl auto ↦ rw auto (round_goes_on (round_start-StartsRound rows (suc k) (omega arith)) auto)
  | inr other ↦ rw other (round_begins (inr other))
]

start_of :
    (rows : List Attempt) (k : ℕ)
    → 1 ≤ k
    → (k ≡ 1) ⊎ (automatic rows k ≡ false)
    → round_start rows k ≡ k
unfolding round_start
start_of rows zero h first = absurd (omega arith)
start_of rows (suc zero) h first = refl
start_of rows (suc (suc k)) h (inl e) = absurd (omega (arith, e))
start_of rows (suc (suc k)) h (inr other) = rw other refl

later_start :
    (rows : List Attempt) (n : ℕ)
    → 1 ≤ n
    → automatic rows (suc n) ≡ true
    → round_start rows (suc n) ≡ round_start rows n
unfolding round_start
later_start rows zero h auto = absurd (omega arith)
later_start rows (suc n) h auto = rw auto refl

StartsRound-round_start :
    (rows : List Attempt) (k n : ℕ) → 1 ≤ k → StartsRound rows k n → round_start rows n ≡ k
StartsRound-round_start rows k _ h (round_begins first) = start_of rows k h first
StartsRound-round_start rows k _ h (round_goes_on {n} there auto) =
    later_start rows n (omega (arith, h, StartsRound-le rows k n there)) auto
    ∙ StartsRound-round_start rows k n h there

-- The limit of a round for a number that a runner reports: 2 where it is not positive, and at most 10.
abbrev pub IsLimit : ℤ → ℕ → Type 0
IsLimit (pos zero) limit = limit ≡ 2
IsLimit (negsuc n) limit = limit ≡ 2
IsLimit (pos (suc n)) limit = ((suc n ≤ 10) × (limit ≡ suc n)) ⊎ ((10 < suc n) × (limit ≡ 10))

round_limit-IsLimit : (z : ℤ) → IsLimit z (round_limit z)
unfolding round_limit
round_limit-IsLimit (pos zero) = refl
round_limit-IsLimit (negsuc n) = refl
round_limit-IsLimit (pos (suc n)) = omega arith

IsLimit-round_limit : (z : ℤ) (limit : ℕ) → IsLimit z limit → round_limit z ≡ limit
unfolding round_limit
IsLimit-round_limit (pos zero) limit h = sym h
IsLimit-round_limit (negsuc n) limit h = sym h
IsLimit-round_limit (pos (suc n)) limit h = omega (arith, h)

-- A failure that is worth another attempt: retryable, and of the brain or of no result.
abbrev pub IsTransient : Envelope → Type 0
IsTransient env =
    (e : ErrorInfo) × (env.error ≡ some e)
    × (e.retryable ≡ true)
    × ((e.category ≡ "brain") ⊎ (e.category ≡ "no_result"))

both_of : (b c d : Bool) → (b && (c || d)) ≡ true → (b ≡ true) × ((c ≡ true) ⊎ (d ≡ true))
both_of true true d h = (refl, inl refl)
both_of true false true h = (refl, inr refl)
both_of true false false h = absurd (cc)
both_of false c d h = absurd (cc)

either_true : (c d : Bool) → (c ≡ true) ⊎ (d ≡ true) → (c || d) ≡ true
either_true true d h = refl
either_true false d (inl e) = cc
either_true false d (inr e) = e

both_true : (b c : Bool) → b ≡ true → c ≡ true → (b && c) ≡ true
both_true b c h h' = cc (h, h')

tried_of :
    (o : Option ErrorInfo)
    → (tried_again o ≡ true) ↔ (
        (e : ErrorInfo) × (o ≡ some e)
        × (e.retryable ≡ true)
        × ((e.category ≡ "brain") ⊎ (e.category ≡ "no_result")))
tried_of none = (λ h. absurd (cc), λ (e, found, retried, kind). absurd (cc found))
tried_of (some e) = (
  λ h.
      let (retried, kind) =
        both_of e.retryable (e.category == "brain") (e.category == "no_result") h in
      (
        e,
        refl,
        retried,
        elim kind [
          | inl c ↦ inl ((==_iff e.category "brain").0 c)
          | inr c ↦ inr ((==_iff e.category "no_result").0 c)
        ],
      ),
  λ (e', found, retried, kind).
      let same : e' ≡ e = cc in
      subst (λ x. tried_again (some x) ≡ true) same
        (both_true e'.retryable (e'.category == "brain" || e'.category == "no_result") retried (
          either_true (e'.category == "brain") (e'.category == "no_result") (elim kind [
            | inl c ↦ inl ((==_iff e'.category "brain").1 c)
            | inr c ↦ inr ((==_iff e'.category "no_result").1 c)
          ]))),
)

tried_again-IsTransient : (env : Envelope) → (tried_again env.error ≡ true) ↔ IsTransient env
tried_again-IsTransient env = tried_of env.error

-- The round of the attempt, which is one of at most the limit's attempts and not the last of them.
abbrev pub HasRoom : List Attempt → ℕ → ℤ → Type 0
HasRoom rows n reported =
    (k limit : ℕ) × (1 ≤ k) × StartsRound rows k n × IsLimit reported limit × (n + 1 < k + limit)

room-HasRoom :
    (rows : List Attempt) (n : ℕ) (reported : ℤ)
    → 1 ≤ n
    → (round_size rows n < round_limit reported) ↔ HasRoom rows n reported
unfolding round_size
room-HasRoom rows n reported h = (
  λ less. (
    round_start rows n,
    round_limit reported,
    (round_start-bounds rows n).0 h,
    round_start-StartsRound rows n h,
    round_limit-IsLimit reported,
    omega (arith, less, (round_start-bounds rows n).1),
  ),
  λ (k, limit, first, starts, its, room). omega (
    arith,
    StartsRound-round_start rows k n first starts,
    IsLimit-round_limit reported limit its,
    room,
    StartsRound-le rows k n starts,
  ),
)

Status-cases :
    (s : Status)
    → (s ≡ Status.failed)
      ⊎ ((s ≡ Status.done)
          ⊎ ((s ≡ Status.usage) ⊎ ((s ≡ Status.needs_human) ⊎ (s ≡ Status.unverified))))
Status-cases Status.failed = inl refl
Status-cases Status.done = inr (inl refl)
Status-cases Status.usage = inr (inr (inl refl))
Status-cases Status.needs_human = inr (inr (inr (inl refl)))
Status-cases Status.unverified = inr (inr (inr (inr refl)))

auto_iff :
    (env : Envelope) (rows : List Attempt) (n limit : ℕ) (spent : Bool)
    → ((ruling env rows n limit spent).auto ≡ true) ↔ (
        (env.status ≡ Status.failed)
        × (tried_again env.error ≡ true)
        × (spent ≡ false)
        × (round_size rows n < limit))
unfolding ruling
auto_iff env rows n limit spent = (
  λ h. elim (Status-cases env.status) [
    | inl f ↦ (f, ground (arith, h, f), ground (arith, h, f), ground (arith, h, f))
    | inr (inl e) ↦ absurd (ground (arith, h, e))
    | inr (inr (inl e)) ↦ absurd (ground (arith, h, e))
    | inr (inr (inr (inl e))) ↦ absurd (ground (arith, h, e))
    | inr (inr (inr (inr e))) ↦ absurd (ground (arith, h, e))
  ],
  λ (f, tried, unspent, room). ground (arith, f, tried, unspent, room),
)

-- A ruling queues another attempt by itself exactly if the attempt failed, with a retryable error of
-- the brain or of no result, the transient failures of the job are not used up, and the attempts
-- from the one that its round began with up to it are fewer than the limit that the runner reports:
-- 2 where it reports none, and at most 10.
pub ruling_auto :
    (env : Envelope) (rows : List Attempt) (n : ℕ) (reported : ℤ) (spent : Bool)
    → 1 ≤ n
    → ((ruling env rows n (round_limit reported) spent).auto ≡ true)
      ↔ ((env.status ≡ Status.failed) × IsTransient env × (spent ≡ false) × HasRoom rows n reported)
ruling_auto env rows n reported spent h =
    let room = room-HasRoom rows n reported h in
    let transient = tried_again-IsTransient env in
    let auto = auto_iff env rows n (round_limit reported) spent in
    (
      λ ruled. let (f, t, s, r) = auto.0 ruled in (f, transient.0 t, s, room.0 r),
      λ (f, t, s, r). auto.1 (f, transient.1 t, s, room.1 r),
    )
