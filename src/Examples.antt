-- ===== src/Examples.antt =====
-- Concrete data for the tests: one rule with one tool, a model that answers at once, and a database
-- with one row.
mod Routing
mod Tables
mod Runs
mod Ledgers
mod Updates
mod Scores
mod Background
mod Gates
mod Watches
mod Writes
mod Keys
mod Chats
mod Dispatches
mod Schedules
use aegis_go.Prelude.{
  ℕ, Bool, true, false, String, str_eq, List, [], ◌∷◌, Option, none, some, length, if◌then◌else◌,
  ◌==◌,
}
use aegis_go.Prelude.Result.{Result, ok, err}
use aegis_go.Rules.{RuleDef, RuleRow, Text, codes}
use aegis_go.Rules.Table.{Db, ShadowRow}
use aegis_go.Router.{Regexp, Toolset, Router, CompiledRule, Output, Trail, anchored, Decision}
use aegis_go.Confidence.{Signals}
use aegis_go.Engine.{Env, Ctx, World, Response, Content}

-- A pattern matches a text of its own length.
abbrev pub engine : Regexp
engine = record {
  compiles = λ re. true;
  submatch = λ re t. if length t == 6 then some (t ∷ []) else none;
}

abbrev pub toolset : Toolset
toolset = record {
  get = λ n. str_eq n "uptime";
  execute = λ calls call.
      (some (record { json = some (codes "3 days"); printed = codes "3 days" }), none);
}

abbrev pub uptime : RuleDef
uptime = record {
  name = "uptime";
  pattern = "uptime";
  tool = "uptime";
  args_template = codes "{}";
  origin = "seed";
  state = "active";
}

abbrev pub compiled : CompiledRule
compiled = record { def = uptime; re = anchored "uptime" }

abbrev pub router : Router
router = record { rules = compiled ∷ [] }

abbrev pub prompt : Text
prompt = codes "uptime"

abbrev pub long_prompt : Text
long_prompt = codes "how is it"

abbrev pub trail : Trail
trail = record { executed = []; draws = 0 }

abbrev pub always : ℕ → Bool
always n = true

abbrev pub never : ℕ → Bool
never n = false

abbrev pub row : RuleRow
row = record { def = uptime; enabled = true }

abbrev pub shadow_row : RuleRow
shadow_row = record { def = record uptime { state = "shadow" }; enabled = true }

abbrev pub db : Db
db = record { rules = row ∷ []; shadow_events = []; calls = 0 }

abbrev shadow_db : Db
shadow_db = record { rules = shadow_row ∷ []; shadow_events = []; calls = 0 }

abbrev pub agreeing : Response
agreeing = record { messages = (Content.function_call "uptime" ∷ []) ∷ []; text = codes "up" }

abbrev pub diverging : Response
diverging = record { messages = []; text = codes "up" }

abbrev env_with : Bool → Response → Env
env_with has_llm resp = record {
  engine = engine;
  toolset = toolset;
  router = router;
  has_llm = has_llm;
  run_text = λ w p. ok resp;
  stream = λ w p. [];
  has_classifier = false;
  classify = λ w p. none;
  model = "m";
  classifier_model = "c";
  iface = "cli";
  promote_after = 1;
  sample = never;
  verdict = always;
  elapsed = λ w. 1;
  emit = λ w c. none;
  sha = λ t. t;
  signals = record { cites_rule = λ t. false; is_structured = λ t. false };
}

abbrev pub env : Env
env = env_with true agreeing

abbrev pub env_off : Env
env_off = env_with false agreeing

abbrev pub env_diverging : Env
env_diverging = env_with true diverging

abbrev pub ctx : Ctx
ctx = record { trace_id = "t1"; iface = "http" }

abbrev pub world : World
world = record {
  trail = trail;
  db = db;
  audits = [];
  fallbacks = [];
  llm_runs = [];
  classified = [];
  emitted = [];
}

abbrev pub shadow_world : World
shadow_world = record world { db = shadow_db }

-- The decision of a shadow rule that ran the tool.
abbrev pub evaluated : Decision
evaluated = record {
  handled = true;
  rule_id = "uptime";
  output = none;
  err = none;
  evaluate = true;
  answer_from_rule = false;
  tool = "uptime";
  args = codes "{}";
}
