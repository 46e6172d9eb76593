-- ===== src/Engine/Shadow.antt =====
-- internal/engine/engine.go: the comparison of a rule with the model, and the rule's lifecycle.
pub mod Laws
use aegis_go.Prelude.{
  ℕ, Bool, true, false, String, List, [], ◌∷◌, Option, none, some, if◌then◌else◌, leb,
}
use aegis_go.Prelude.Result.{Result, ok, err}
use aegis_go.Rules.{Text, rule_active, rule_demoted}
use aegis_go.Rules.Table.{Db, ShadowRow}
use aegis_go.Rules.Lifecycle.{record_shadow, shadow_streak, set_rule_state}
use aegis_go.Router.{Decision}
use aegis_go.Confidence.{contains}
use aegis_go.Engine.{World, Ctx, Env, RunResult, Response, tool_names}
use aegis_go.Engine.Tails.{finish_router, finish_llm}

-- The streak just read, or `none` where reading it failed.
abbrev pub promote : Env → String → Option ℕ → Db → Db
promote env rule none db = db
promote env rule (some streak) db =
    if leb env.promote_after streak
    then (set_rule_state env.verdict rule rule_active true db).1
    else db

-- A write that fails is only logged.
unfoldable pub evaluate_lifecycle : Env → String → Bool → Db → Db
evaluate_lifecycle env rule false db = (set_rule_state env.verdict rule rule_demoted false db).1
evaluate_lifecycle env rule true db =
    let (streak, db') = shadow_streak env.verdict rule db in promote env rule streak db'

abbrev pub comparison : Ctx → Decision → Response → ShadowRow
comparison ctx d resp = record {
  rule_name = d.rule_id;
  trace_id = ctx.trace_id;
  agreed = contains (tool_names resp) d.tool;
  llm_tools = tool_names resp;
}

-- The model has answered: record the comparison and advance the lifecycle.
abbrev pub compared : Env → Ctx → Decision → Result Text Response → World → Option Response × World
compared env ctx d (err e) w = (none, w)
compared env ctx d (ok resp) w =
    let row = comparison ctx d resp in
    let db = (record_shadow env.verdict row w.db).1 in
    (some resp, record w { db = evaluate_lifecycle env d.rule_id row.agreed db })

abbrev pub asked : Text → World → World
asked prompt w = record w { llm_runs = prompt ∷ w.llm_runs }

unfoldable pub compare_shadow : Env → Ctx → Decision → Text → World → Option Response × World
unfolding evaluate_lifecycle
compare_shadow env ctx d prompt w =
    if env.has_llm then compared env ctx d (env.run_text w prompt) (asked prompt w) else (none, w)

abbrev pub answer_shadow : Env → Ctx → Text → Decision → Option Response × World → RunResult × World
answer_shadow env ctx prompt d (none, w) = finish_router env ctx prompt d w
answer_shadow env ctx prompt d (some resp, w) =
    if d.answer_from_rule
    then finish_router env ctx prompt d w
    else finish_llm env ctx prompt d.rule_id resp w

unfoldable pub finish_shadow : Env → Ctx → Text → Decision → World → RunResult × World
unfolding compare_shadow
finish_shadow env ctx prompt d w =
    answer_shadow env ctx prompt d (compare_shadow env ctx d prompt w)
