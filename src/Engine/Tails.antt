-- ===== src/Engine/Tails.antt =====
-- internal/engine/engine.go: the tails that every path of a run ends in. Each writes one audit row.
use aegis_go.Prelude.{ℕ, String, ◌∷◌, Option, none, some}
use aegis_go.Rules.{Text}
use aegis_go.Router.{Decision, ToolError, output_text}
use aegis_go.Confidence.{
  Confidence, score_router, score_classifier, score_none, score_llm, distinct_tool_count,
}
use aegis_go.Normalize.{normalize}
use aegis_go.Engine.{
  Source, regex_router, llm, llm_disabled, llm_classifier, error_source, Outcome, fine, failed_run,
  AuditRow, World, Ctx, Env, RunResult, Response, tool_names, token_usage, join_names, hash_prompt,
  interface_of, rule_count,
}
use aegis_go.Engine.Format.{command_failed, llm_failed, llm_off_answer}

-- The row that the tails spell alike.
abbrev pub row_of : Env → Ctx → Source → String → Text → String → ℕ → Outcome → ℕ → AuditRow
row_of env ctx source rule prompt model latency outcome score = record {
  trace_id = ctx.trace_id;
  interface = interface_of env ctx;
  source = source;
  rule_id = rule;
  prompt_sha = hash_prompt env prompt;
  model = model;
  latency_ms = latency;
  outcome = outcome;
  confidence = score;
}

unfoldable pub audit : AuditRow → World → World
audit row w = record w { audits = row ∷ w.audits }

unfoldable pub record_fallback_parts : Ctx → Text → String → String → ℕ → ℕ → World → World
record_fallback_parts ctx prompt tools model tin tout w = record w {
  fallbacks =
      record {
        trace_id = ctx.trace_id;
        normalized_prompt = normalize prompt;
        raw_prompt = prompt;
        tools_used = tools;
        model = model;
        tokens_in = tin;
        tokens_out = tout;
      }
      ∷ w.fallbacks;
}

unfoldable pub record_fallback : Env → Ctx → Text → Response → World → World
unfolding record_fallback_parts
record_fallback env ctx prompt resp w =
    let (tin, tout) = token_usage resp in
    record_fallback_parts ctx prompt (join_names (tool_names resp)) env.model tin tout w

-- A result and its audit row, which repeats the result's source, rule, latency and score.
abbrev pub conclude :
    Env
    → Ctx
    → Text
    → String
    → Outcome
    → Text
    → Source
    → String
    → ℕ
    → Confidence
    → World
    → RunResult × World
conclude env ctx prompt model outcome answer source rule latency conf w = (
  record {
    answer = answer;
    source = source;
    rule_id = rule;
    trace_id = ctx.trace_id;
    latency_ms = latency;
    confidence = conf;
  },
  audit (row_of env ctx source rule prompt model latency outcome conf.score) w,
)

abbrev pub router_tail : Env → Ctx → Text → Decision → Option ToolError → World → RunResult × World
router_tail env ctx prompt d (some e) w =
    conclude env ctx prompt "" failed_run (command_failed d.rule_id e) regex_router d.rule_id
      (env.elapsed w) (score_none "tool failed under rule") w
router_tail env ctx prompt d none w =
    conclude env ctx prompt "" fine (output_text d.output) regex_router d.rule_id (env.elapsed w)
      score_router w

unfoldable pub finish_router : Env → Ctx → Text → Decision → World → RunResult × World
unfolding audit
finish_router env ctx prompt d w = router_tail env ctx prompt d d.err w

-- The result carries no latency; its audit row does.
unfoldable pub finish_llm_off : Env → Ctx → Text → World → RunResult × World
unfolding audit
finish_llm_off env ctx prompt w =
    let conf = score_none "refusal, not an answer" in
    let row = row_of env ctx llm_disabled "" prompt "" (env.elapsed w) fine conf.score in
    (
      record {
        answer = llm_off_answer;
        source = llm_disabled;
        rule_id = "";
        trace_id = ctx.trace_id;
        latency_ms = 0;
        confidence = conf;
      },
      audit row w,
    )

unfoldable pub finish_classifier : Env → Ctx → Text → Text → String → World → RunResult × World
unfolding audit record_fallback_parts
finish_classifier env ctx prompt answer tool w =
    conclude env ctx prompt env.classifier_model fine answer llm_classifier "" (env.elapsed w)
      score_classifier (record_fallback_parts ctx prompt tool env.classifier_model 0 0 w)

unfoldable pub finish_llm_error : Env → Ctx → Text → Text → World → RunResult × World
unfolding audit
finish_llm_error env ctx prompt message w =
    conclude env ctx prompt env.model failed_run (llm_failed message) error_source ""
      (env.elapsed w) (score_none "provider failure") w

abbrev pub llm_score : Env → Response → Confidence
llm_score env resp =
    score_llm env.signals resp.text (distinct_tool_count (tool_names resp)) (rule_count env)

-- The end of the fallback (`rule` empty) and of a shadow comparison that the model wins.
unfoldable pub finish_llm : Env → Ctx → Text → String → Response → World → RunResult × World
unfolding audit record_fallback
finish_llm env ctx prompt rule resp w =
    let (res, w') =
      conclude env ctx prompt env.model fine resp.text llm rule (env.elapsed w) (llm_score env resp)
        w in
    (res, record_fallback env ctx prompt resp w')
