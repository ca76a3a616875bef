-- ===== src/Jobs/Ruling.antt =====
-- finish.go: what an attempt came to (ruling), and the rounds of attempts (roundLimit, roundSize).
use agent_fox.Prelude.{
  ℕ, zero, suc, ◌+◌, ◌-◌, Bool, true, false, not, ◌&&◌, ◌||◌, Option, none, some, List, [], ◌∷◌,
  if◌then◌else◌, ltb, min, ◌==◌, ℕ_Eq, String_Eq,
}
use agent_fox.Jobs.Model.{
  State, AttemptState, TriggerKind, Status, ErrorInfo, Envelope, ℤ, pos, negsuc,
}
use agent_fox.Jobs.Rows.{Attempt}

abbrev pub default_round : ℕ
default_round = 2

abbrev pub max_round : ℕ
max_round = 10

-- roundLimit: 0 means 2, and the number is kept between 1 and 10.
unfoldable pub round_limit : ℤ → ℕ
round_limit (pos zero) = default_round
round_limit (negsuc n) = default_round
round_limit (pos (suc n)) = min (suc n) max_round

-- The loop over the rows in roundSize: the trigger of the last row with the number, "" for none.
trigger_of : List Attempt → ℕ → Option TriggerKind → Option TriggerKind
trigger_of [] n found = found
trigger_of (a ∷ as_) n found = trigger_of as_ n (if a.n == n then some a.trigger_kind else found)

abbrev is_auto : Option TriggerKind → Bool
is_auto (some TriggerKind.auto) = true
is_auto _ = false

unfoldable pub automatic : List Attempt → ℕ → Bool
unfolding trigger_of
automatic rows n = is_auto (trigger_of rows n none)

-- The attempt that the round of attempt n began with (the loop of roundSize).
unfoldable pub round_start : List Attempt → ℕ → ℕ
round_start rows zero = 0
round_start rows (suc zero) = 1
round_start rows (suc (suc k)) =
    let earlier = round_start rows (suc k) in
    if automatic rows (suc (suc k)) then earlier else suc (suc k)

-- roundSize: how many attempts the round of attempt n has made, n included.
unfoldable pub round_size : List Attempt → ℕ → ℕ
unfolding round_start
round_size rows n = n - round_start rows n + 1

-- verdict: what an attempt came to, and what becomes of the job.
pub record Verdict : Type 0 where
  pub attempt : AttemptState
  pub job : State
  pub auto : Bool

abbrev verdict : AttemptState → State → Verdict
verdict a j = record { attempt = a; job = j; auto = false }

-- A failure that is tried again: retryable, and of the brain or of no result.
abbrev pub tried_again : Option ErrorInfo → Bool
tried_again none = false
tried_again (some e) = e.retryable && (e.category == "brain" || e.category == "no_result")

-- ruling: the first rule that matches the envelope.
unfoldable pub ruling : Envelope → List Attempt → ℕ → ℕ → Bool → Verdict
ruling env attempts n limit spent = elim env.status [
  | Status.done ↦ verdict AttemptState.done State.done
  | Status.unverified ↦
      if env.outcome == "parked"
      then verdict AttemptState.failed State.failed
      else verdict AttemptState.done State.done
  | Status.needs_human ↦ verdict AttemptState.needs_human State.blocked
  | Status.failed ↦
      if tried_again env.error && (not spent && ltb (round_size attempts n) limit)
      then record { attempt = AttemptState.failed; job = State.queued; auto = true }
      else verdict AttemptState.failed State.failed
  | Status.usage ↦ verdict AttemptState.failed State.failed
]
