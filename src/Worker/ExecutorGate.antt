-- ===== src/Worker/ExecutorGate.antt =====
-- apps/worker/src/executor-gate.ts: may a job start, given the runs of its profile and its model?
pub mod Capacity
use brigadir.Prelude.{
  ℕ, String, Bool, true, false, ◌&&◌, Option, none, some, List, [], ◌∷◌, ◌==◌, ◌+◌, ◌*◌, leb, ltb,
  count_where, find_where, get_or, is_some, str_eq, if◌then◌else◌,
}
use brigadir.Domain.{World, Run, RunStatus, running, Agent, Executor, run_of}
use brigadir.Runs.Trigger.{agent_row, executor_row}

pub data LimitKind : Type 0 where
  profile_limit model_limit_kind : LimitKind

-- `running` includes the run that is admitted.
pub record NearCapacity : Type 0 where
  pub limit_kind : LimitKind
  pub running_count : ℕ
  pub limit : ℕ

pub data Reason : Type 0 where
  at_capacity disabled model_at_capacity : Reason

pub data Verdict : Type 0 where
  admit : Option NearCapacity → Verdict
  refuse : Reason → ℕ → String → Option String → Verdict

pub record GateInputs : Type 0 where
  pub profile_name : String
  pub enabled : Bool
  pub max_parallel_runs : ℕ
  pub profile_running : ℕ
  pub model : Option String
  pub model_limit : Option ℕ
  pub model_running : Option ℕ
  pub ttl_override : Option ℕ

abbrev pub at_capacity_ttl_ms : ℕ
at_capacity_ttl_ms = 1000

abbrev pub disabled_ttl_ms : ℕ
disabled_ttl_ms = 15000

abbrev pub model_at_capacity_ttl_ms : ℕ
model_at_capacity_ttl_ms = 1000

-- The limit of the model, if the profile has a model and the model a limit.
abbrev pub model_cap : GateInputs → Option ℕ
model_cap i = if is_some i.model then i.model_limit else none

-- `reduce` over the one or two limits that apply: the model's wins only if its share is larger.
abbrev pub tightest : NearCapacity → Option NearCapacity → NearCapacity
tightest a none = a
tightest a (some b) = if ltb (a.running_count * b.limit) (b.running_count * a.limit) then b else a

-- At least three quarters of the limit.
abbrev pub near : NearCapacity → Bool
near d = leb (3 * d.limit) (4 * d.running_count)

abbrev pub profile_dimension : GateInputs → NearCapacity
profile_dimension i = record {
  limit_kind = profile_limit;
  running_count = i.profile_running + 1;
  limit = i.max_parallel_runs;
}

abbrev pub model_dimension : GateInputs → Option NearCapacity
model_dimension i = elim (model_cap i) [
  | none ↦ none
  | some cap ↦ some (record {
    limit_kind = model_limit_kind;
    running_count = get_or i.model_running 0 + 1;
    limit = cap;
  })
]

abbrev pub model_full : GateInputs → Bool
model_full i = elim (model_cap i) [ none ↦ false | some cap ↦ leb cap (get_or i.model_running 0) ]

abbrev pub admitted : NearCapacity → Verdict
admitted d = if near d then admit (some d) else admit none

unfoldable pub decide_gate : GateInputs → Verdict
decide_gate i =
    if i.enabled
    then (if leb i.max_parallel_runs i.profile_running
        then refuse at_capacity (get_or i.ttl_override at_capacity_ttl_ms) i.profile_name none
        else if model_full i
        then refuse model_at_capacity (get_or i.ttl_override model_at_capacity_ttl_ms)
            i.profile_name i.model
        else admitted (tightest (profile_dimension i) (model_dimension i)))
    else refuse disabled (get_or i.ttl_override disabled_ttl_ms) i.profile_name none

abbrev pub is_running : RunStatus → Bool
is_running running = true
is_running _ = false

abbrev on_profile : ℕ → Option Agent → Bool
on_profile executor none = false
on_profile executor (some agent) = agent.executor_id == executor

-- A running run of an agent on the profile.
abbrev pub runs_on : World → ℕ → Run → Bool
runs_on w executor r = is_running r.status && on_profile executor (agent_row r.agent_id w)

abbrev same_model : String → Option Executor → Bool
same_model model none = false
same_model model (some e) = elim e.model [ some m ↦ str_eq m model | none ↦ false ]

abbrev agent_uses : World → String → Option Agent → Bool
agent_uses w model none = false
agent_uses w model (some agent) = same_model model (executor_row agent.executor_id w)

-- A running run of an agent on a profile with the model.
abbrev pub uses_model : World → String → Run → Bool
uses_model w model r = is_running r.status && agent_uses w model (agent_row r.agent_id w)

abbrev profile_of : World → Option Agent → Option Executor
profile_of w none = none
profile_of w (some agent) = executor_row agent.executor_id w

abbrev profile_of_run : World → Option Run → Option Executor
profile_of_run w none = none
profile_of_run w (some r) = profile_of w (agent_row r.agent_id w)

-- The limits that `EXECUTOR_MODEL_LIMITS` gives, and `EXECUTOR_GATE_TTL_MS`, are parameters.
module _ (model_limits : String → Option ℕ) (ttl : Option ℕ) where
  abbrev limit_of : Option String → Option ℕ
  limit_of none = none
  limit_of (some model) = model_limits model

  abbrev model_count : World → Option String → Option ℕ
  model_count w none = none
  model_count w (some model) =
      if is_some (model_limits model) then some (count_where (uses_model w model) w.runs) else none

  abbrev pub inputs_of : World → Executor → GateInputs
  inputs_of w profile = record {
    profile_name = profile.name;
    enabled = profile.enabled;
    max_parallel_runs = profile.max_parallel_runs;
    profile_running = count_where (runs_on w profile.id) w.runs;
    model = profile.model;
    model_limit = limit_of profile.model;
    model_running = model_count w profile.model;
    ttl_override = ttl;
  }

  abbrev pub gate_of : World → Option Executor → Verdict
  gate_of w none = admit none
  gate_of w (some profile) = decide_gate (inputs_of w profile)

  unfoldable pub check_executor_gate : ℕ → World → Verdict
  check_executor_gate i w = gate_of w (profile_of_run w (run_of i w.runs))
