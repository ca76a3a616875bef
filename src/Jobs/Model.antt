-- ===== src/Jobs/Model.antt =====
-- internal/service/jobs/model.go and the parts of internal/toolio/envelope.go that the jobs layer
-- reads: the states, and the documents that are kept with a job.
use agent_fox.Prelude.{ℕ, String, Bool, true, false, Option, List, ◌≡◌, ◌↔◌, Eq, arith, refl}

pub data Kind : Type 0 where
  triage fix : Kind

abbrev pub kind_eq : Kind → Kind → Bool
kind_eq triage triage = true
kind_eq fix fix = true
kind_eq _ _ = false

pub kind_eq_iff : (a b : Kind) → (kind_eq a b ≡ true) ↔ (a ≡ b)
kind_eq_iff a b = ground arith

instance abbrev pub Kind_Eq : Eq Kind
Kind_Eq = record {
  same_key = kind_eq;
  at_itself = λ k. (kind_eq_iff k k).1 refl;
  only_there = λ k j. (kind_eq_iff k j).0;
}

-- The states of a job.
pub data State : Type 0 where
  queued running blocked done failed cancelled : State

abbrev pub state_eq : State → State → Bool
state_eq State.queued State.queued = true
state_eq State.running State.running = true
state_eq State.blocked State.blocked = true
state_eq State.done State.done = true
state_eq State.failed State.failed = true
state_eq State.cancelled State.cancelled = true
state_eq _ _ = false

pub state_eq_iff : (a b : State) → (state_eq a b ≡ true) ↔ (a ≡ b)
state_eq_iff a b = ground arith

-- (s State) Open()
abbrev pub open_state : State → Bool
open_state State.queued = true
open_state State.running = true
open_state State.blocked = true
open_state _ = false

-- (s State) Finished()
abbrev pub finished : State → Bool
finished State.done = true
finished State.failed = true
finished State.cancelled = true
finished _ = false

-- The states of an attempt.
pub data AttemptState : Type 0 where
  queued running done needs_human failed cancelled : AttemptState

pub data TriggerKind : Type 0 where
  create answer retry auto : TriggerKind

pub record Trigger : Type 0 where
  pub kind : TriggerKind
  pub by : String

pub record Source : Type 0 where
  pub kind : String
  pub by : String

-- Option. The id is kept as its code points.
pub record AnswerOption : Type 0 where
  pub id : List ℕ
  pub label : String

pub record Answer : Type 0 where
  pub question : String
  pub options : List AnswerOption
  pub option : Option String
  pub text : String

pub record Blocked : Type 0 where
  pub reason : String
  pub question : String
  pub options : List AnswerOption
  pub answer_with : String

-- toolio.Status
pub data Status : Type 0 where
  done failed usage needs_human unverified : Status

-- toolio.ExitCode
unfoldable pub exit_code : Status → ℕ
exit_code Status.done = 0
exit_code Status.failed = 1
exit_code Status.usage = 2
exit_code Status.needs_human = 3
exit_code Status.unverified = 4

-- toolio.ErrorInfo. The fix hint is kept as the text of its JSON.
pub record ErrorInfo : Type 0 where
  pub category : String
  pub message : String
  pub retryable : Bool
  pub fix_hint : Option String

-- toolio.NeedsHuman: the question and its options.
pub record NeedsHuman : Type 0 where
  pub question : String
  pub options : List AnswerOption

-- toolio.Envelope, as far as the layer reads it. `outcome` is what outcomeOf finds in the result;
-- the artifacts, the side effects and the usage are kept as the texts of their JSON.
pub record Envelope : Type 0 where
  pub status : Status
  pub summary : String
  pub outcome : String
  pub needs_human : Option NeedsHuman
  pub error : Option ErrorInfo
  pub artifacts : List String
  pub side_effects : List String
  pub usage : String

pub record ResultDoc : Type 0 where
  pub status : Status
  pub exit_code : ℕ
  pub summary : String
  pub error : Option ErrorInfo

-- The state of a cancel cleanup (CleanupOutcome of cleanup.go).
pub data Cleanup : Type 0 where
  pending done label_not_set : Cleanup

-- The causes of a cancel (runner.go).
pub data Cause : Type 0 where
  cancelled unsubscribed : Cause

-- int of Go, where the layer is handed one by a runner.
pub data ℤ : Type 0 where
  pos : ℕ → ℤ
  negsuc : ℕ → ℤ
