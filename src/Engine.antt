-- ===== src/Engine.antt =====
-- internal/engine/engine.go: one run of the hybrid pipeline, as state passing. `Env` is what the
-- engine was built with and what it meets: the model, the classifier, the clock, the driver's
-- verdicts and the answers of the emit callback, each any function of the world so far. A store is
-- always wired, as app.go does.
pub mod Format
pub mod Tails
pub mod Shadow
pub mod Run
pub mod Stream
use Prim.Native.String.{◌++◌}
use aegis_go.Prelude.{
  ℕ, suc, ◌+◌, Bool, true, false, String, str_eq, List, [], ◌∷◌, Option, none, some, length,
  if◌then◌else◌,
}
use aegis_go.Prelude.Result.{Result}
use aegis_go.Rules.{Text}
use aegis_go.Rules.Table.{Db}
use aegis_go.Router.{Regexp, Toolset, Router, Trail}
use aegis_go.Confidence.{Confidence, Signals}

-- internal/store/audit.go: the strings regex_router, llm, llm_disabled, llm_classifier, error.
pub data Source : Type 0 where
  regex_router llm llm_disabled llm_classifier error_source : Source

-- A part of a message, as far as the engine looks.
pub data Content : Type 0 where
  function_call : String → Content
  usage : ℕ → ℕ → Content
  other : Content

pub record Response : Type 0 where
  pub messages : List (List Content)
  pub text : Text

pub record Update : Type 0 where
  pub contents : List Content
  pub text : Text

-- What the stream yields: an update, which may be nil, or an error.
pub data StreamItem : Type 0 where
  nothing : StreamItem
  update : Update → StreamItem
  broken : Text → StreamItem

pub data Outcome : Type 0 where
  fine failed_run : Outcome

-- A row of audit_events as the store queues it; `prompt_sha` is the short hash.
pub record AuditRow : Type 0 where
  pub trace_id : String
  pub interface : String
  pub source : Source
  pub rule_id : String
  pub prompt_sha : Text
  pub model : String
  pub latency_ms : ℕ
  pub outcome : Outcome
  pub confidence : ℕ

pub record FallbackEvent : Type 0 where
  pub trace_id : String
  pub normalized_prompt : Text
  pub raw_prompt : Text
  pub tools_used : String
  pub model : String
  pub tokens_in : ℕ
  pub tokens_out : ℕ

-- Everything that a run changes, each list newest first.
pub record World : Type 0 where
  pub trail : Trail
  pub db : Db
  pub audits : List AuditRow
  pub fallbacks : List FallbackEvent
  pub llm_runs : List Text
  pub classified : List Text
  pub emitted : List Text

-- The context of a call: the trace id, and the interface label, empty when none was set.
pub record Ctx : Type 0 where
  pub trace_id : String
  pub iface : String

pub record Env : Type 0 where
  pub engine : Regexp
  pub toolset : Toolset
  pub router : Router
  pub has_llm : Bool
  pub run_text : World → Text → Result Text Response
  pub stream : World → Text → List StreamItem
  pub has_classifier : Bool
  pub classify : World → Text → Option (Text × String)
  pub model : String
  pub classifier_model : String
  pub iface : String
  pub promote_after : ℕ
  pub sample : ℕ → Bool
  pub verdict : ℕ → Bool
  pub elapsed : World → ℕ
  pub emit : World → Text → Option Text
  pub sha : Text → Text
  pub signals : Signals

pub record RunResult : Type 0 where
  pub answer : Text
  pub source : Source
  pub rule_id : String
  pub trace_id : String
  pub latency_ms : ℕ
  pub confidence : Confidence

abbrev name_of : Content → List String → List String
name_of (function_call n) rest = if str_eq n "" then rest else n ∷ rest
name_of (usage i o) rest = rest
name_of other rest = rest

abbrev pub names_in : List Content → List String → List String
names_in [] rest = rest
names_in (c ∷ cs) rest = name_of c (names_in cs rest)

-- `ToolNames`: the tools that the model called, in order.
abbrev tool_names_of : List (List Content) → List String
tool_names_of [] = []
tool_names_of (m ∷ ms) = names_in m (tool_names_of ms)

unfoldable pub tool_names : Response → List String
tool_names resp = tool_names_of resp.messages

abbrev add_usage : Content → ℕ × ℕ → ℕ × ℕ
add_usage (usage i o) (tin, tout) = (tin + i, tout + o)
add_usage (function_call n) u = u
add_usage other u = u

abbrev pub usage_in : List Content → ℕ × ℕ → ℕ × ℕ
usage_in [] u = u
usage_in (c ∷ cs) u = usage_in cs (add_usage c u)

abbrev usage_of : List (List Content) → ℕ × ℕ → ℕ × ℕ
usage_of [] u = u
usage_of (m ∷ ms) u = usage_of ms (usage_in m u)

unfoldable pub token_usage : Response → ℕ × ℕ
token_usage resp = usage_of resp.messages (0, 0)

abbrev join_names_behind : String → List String → String
join_names_behind n [] = n
join_names_behind n (m ∷ ms) = n ++ ("," ++ join_names_behind m ms)

abbrev pub join_names : List String → String
join_names [] = ""
join_names (n ∷ ns) = join_names_behind n ns

abbrev pub hash_prompt : Env → Text → Text
hash_prompt env [] = []
hash_prompt env (c ∷ s) = env.sha (c ∷ s)

-- The interface of an audit row: the context's label, else the engine's own.
abbrev pub interface_of : Env → Ctx → String
interface_of env ctx = if str_eq ctx.iface "" then env.iface else ctx.iface

abbrev pub rule_count : Env → ℕ
rule_count env = length env.router.rules
