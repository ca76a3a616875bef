-- ===== src/Jobs/Document.antt =====
-- document.go: the document of a job, made from its rows. The usage of an attempt is kept as the text
-- of its JSON, and its decoding is an argument; the cost in dollars, a float, is left out.
pub mod Hub
mod Tests
use agent_fox.Jobs.Finish.{answer_with}
use agent_fox.Table.{select_first, select_where}
use agent_fox.Jobs.Model.{
  Cleanup, AttemptState, Kind, Blocked, ResultDoc, Trigger, Source, state_eq, Status, State,
  exit_code, ErrorInfo, Cause,
}
use agent_fox.Jobs.Rows.{
  Attempt, Job, attempt_start, attempt_running, Db, attempt_open, is_job, of_job,
}
use agent_fox.Prelude.{
  ℕ, Option, List, String, ◌+◌, Bool, coalesce, if◌then◌else◌, some, [], not, none, is_empty, ◌∷◌,
  true, is_some, ◌&&◌, ◌||◌, length,
}

pub record Usage : Type 0 where
  pub input_tokens : ℕ
  pub output_tokens : ℕ
  pub turns : ℕ

-- HubDoc, LabelsDoc, AnswerDoc, AttemptDoc and Doc of model.go
pub record HubDoc : Type 0 where
  pub session_id : Option String
  pub run_id : Option String
  pub sandbox_id : Option String

pub record LabelsDoc : Type 0 where
  pub set : List String
  pub removed : List String
  pub restore : Option String
  pub cleanup : Option Cleanup

pub record AnswerDoc : Type 0 where
  pub question : String
  pub option : Option String
  pub text : String

pub record AttemptDoc : Type 0 where
  pub n : ℕ
  pub state : AttemptState
  pub trigger : Trigger
  pub answer : Option AnswerDoc
  pub context : Option (List String)
  pub deliveries : ℕ
  pub transient_failures : ℕ
  pub status : Option Status
  pub exit_code : Option ℕ
  pub summary : Option String
  pub error : Option ErrorInfo
  pub usage : Option Usage
  pub started_at : Option ℕ
  pub finished_at : Option ℕ

pub record Doc : Type 0 where
  pub id : String
  pub workspace : String
  pub kind : Kind
  pub input : String
  pub issue : Option ℕ
  pub source : Source
  pub request_label : Option String
  pub state : State
  pub blocked : Option Blocked
  pub attempt_count : ℕ
  pub current_attempt : ℕ
  pub result : Option ResultDoc
  pub artifacts : List String
  pub side_effects : List String
  pub labels : Option LabelsDoc
  pub cancel_cause : Option Cause
  pub usage : Usage
  pub hub : Option HubDoc
  pub created_at : ℕ
  pub started_at : Option ℕ
  pub finished_at : Option ℕ
  pub attempts : List AttemptDoc

-- (a attemptRow) ended()
abbrev pub ended : Attempt → Bool
ended a = not (attempt_open a.state)

-- The last of the rows that meets the condition.
unfoldable pub last_where : (Attempt → Bool) → List Attempt → Option Attempt
last_where test [] = none
last_where test (a ∷ as_) =
    let later = last_where test as_ in
    if is_some later then later else if test a then some a else none

abbrev pub labels_doc : Job → Option LabelsDoc
labels_doc j =
    let set = coalesce j.labels_set [] in
    let removed = coalesce j.labels_removed [] in
    if is_empty set
      && (is_empty removed && (not (is_some j.labels_restore) && not (is_some j.cleanup)))
    then none
    else some
        (record { set = set; removed = removed; restore = j.labels_restore; cleanup = j.cleanup })

abbrev pub add_usage : Usage → Usage → Usage
add_usage u v = record {
  input_tokens = u.input_tokens + v.input_tokens;
  output_tokens = u.output_tokens + v.output_tokens;
  turns = u.turns + v.turns;
}

abbrev pub no_usage : Usage
no_usage = record { input_tokens = 0; output_tokens = 0; turns = 0 }

module _ (decode : String → Option Usage) where
  -- The usage of an attempt that has ended; none is an error of the decoding.
  unfoldable pub usage_of : Attempt → Option (Option Usage)
  usage_of a =
      if ended a
      then elim a.usage [
        | none ↦ some none
        | some text ↦ elim (decode text) [ none ↦ none | some u ↦ some (some u) ]
      ]
      else some none

  -- The sum over the attempts that have ended.
  unfoldable pub usage_sum : List Attempt → Option Usage
  usage_sum [] = some no_usage
  usage_sum (a ∷ as_) = elim (usage_of a) [
    | none ↦ none
    | some u ↦ elim (usage_sum as_) [
      | none ↦ none
      | some v ↦ some (add_usage (coalesce u no_usage) v)
    ]
  ]

  -- attemptDoc
  unfoldable pub attempt_doc : Attempt → Option AttemptDoc
  attempt_doc a = elim (usage_of a) [
    | none ↦ none
    | some u ↦ some (record {
      n = a.n;
      state = a.state;
      trigger = record { kind = a.trigger_kind; by = a.trigger_by };
      answer = elim a.answer [
        | none ↦ none
        | some w ↦ some (record { question = w.question; option = w.option; text = w.text })
      ];
      context = a.context;
      deliveries = a.deliveries;
      transient_failures = a.transient_failures;
      status = a.status;
      exit_code = elim a.status [ none ↦ none | some s ↦ some (exit_code s) ];
      summary = a.summary;
      error = a.error;
      usage = u;
      started_at = a.started_at;
      finished_at = a.finished_at;
    })
  ]

  unfoldable pub attempt_docs : List Attempt → Option (List AttemptDoc)
  attempt_docs [] = some []
  attempt_docs (a ∷ as_) = elim (attempt_doc a) [
    | none ↦ none
    | some d ↦ elim (attempt_docs as_) [ none ↦ none | some ds ↦ some (d ∷ ds) ]
  ]

-- The parts of the document that the current attempt gives: the last one of the job.
abbrev pub hub_of : Option Attempt → Option HubDoc
hub_of none = none
hub_of (some a) =
    if attempt_running a.state
      && (is_some a.hub_session || (is_some a.hub_run || is_some a.hub_sandbox))
    then some
        (record { session_id = a.hub_session; run_id = a.hub_run; sandbox_id = a.hub_sandbox })
    else none

abbrev pub blocked_of : Job → Option Attempt → Option Blocked
blocked_of j none = none
blocked_of j (some a) =
    if state_eq j.state State.blocked
    then (elim a.question [
      | none ↦ none
      | some q ↦ some (record {
        reason = "needs_human";
        question = q;
        options = coalesce a.options [];
        answer_with = answer_with j.id;
      })
    ])
    else none

-- What the latest attempt that came to something gives.
abbrev pub result_of : Option Attempt → Option ResultDoc
result_of none = none
result_of (some a) = elim a.status [
  | none ↦ none
  | some s ↦ some (record {
    status = s;
    exit_code = exit_code s;
    summary = coalesce a.summary "";
    error = a.error;
  })
]

abbrev number_of : Option Attempt → ℕ
number_of none = 0
number_of (some a) = a.n

abbrev listed : Option (List String) → List String
listed texts = coalesce texts []

abbrev artifacts_of : Option Attempt → List String
artifacts_of none = []
artifacts_of (some a) = listed a.artifacts

abbrev side_effects_of : Option Attempt → List String
side_effects_of none = []
side_effects_of (some a) = listed a.side_effects

-- buildDoc; none is an error of the decoding.
unfoldable pub build_doc : (String → Option Usage) → Job → List Attempt → Bool → Option Doc
build_doc decode j attempts with_attempts =
    let current = last_where (λ a. true) attempts in
    let latest = last_where (λ a. is_some a.status) attempts in
    elim (usage_sum decode attempts) [
      | none ↦ none
      | some total ↦ elim (if with_attempts then attempt_docs decode attempts else some []) [
        | none ↦ none
        | some docs ↦ some (record {
          id = j.id;
          workspace = j.workspace;
          kind = j.kind;
          input = j.input;
          issue = j.issue;
          source = record { kind = j.source_kind; by = j.source_by };
          request_label = j.request_label;
          state = j.state;
          blocked = blocked_of j current;
          attempt_count = length attempts;
          current_attempt = number_of current;
          result = result_of latest;
          artifacts = artifacts_of latest;
          side_effects = side_effects_of latest;
          labels = labels_doc j;
          cancel_cause = if state_eq j.state State.cancelled then j.cancel_cause else none;
          usage = total;
          hub = hub_of current;
          created_at = j.created_at;
          started_at = j.started_at;
          finished_at = j.finished_at;
          attempts = docs;
        })
      ]
    ]

-- Store.Doc; none is the error of a job that is not there, or of the decoding. Attempts are stored
-- in the order of their numbers.
unfoldable pub doc_of : (String → Option Usage) → String → Bool → Db → Option Doc
unfolding build_doc
doc_of decode id with_attempts db = elim (select_first (is_job id) db.jobs) [
  | none ↦ none
  | some j ↦ build_doc decode j (select_where (of_job id) db.attempts) with_attempts
]
