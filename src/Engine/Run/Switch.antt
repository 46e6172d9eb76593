-- ===== src/Engine/Run/Switch.antt =====
-- internal/engine/engine.go: whom a run asks, by the decision and the switch.
use aegis_go.Prelude.{
  ◌≡◌, refl, true, false, ◌&&◌, not, Option, none, some, arith, if◌then◌else◌, if_split,
}
use aegis_go.Prelude.Result.{Result, ok, err}
use aegis_go.Rules.{Text}
use aegis_go.Router.{Decision, output_text}
use aegis_go.Confidence.{score_none}
use aegis_go.Engine.{World, Ctx, Env, RunResult, Response, regex_router, llm_disabled}
use aegis_go.Engine.Tails.{finish_router, finish_llm_off}
use aegis_go.Engine.Shadow.{compare_shadow, compared, finish_shadow, answer_shadow}
use aegis_go.Engine.Run.{route_prompt, run}

-- A router tail: what it answers, and that it asks nobody.
pub record IsRuleAnswer (w : World) (d : Decision) (out : RunResult × World) : Type 0 where
  pub source : out.0.source ≡ regex_router
  pub rule : out.0.rule_id ≡ d.rule_id
  pub answer : d.err ≡ none → out.0.answer ≡ output_text d.output
  pub llm_runs : out.1.llm_runs ≡ w.llm_runs
  pub classified : out.1.classified ≡ w.classified
  pub fallbacks : out.1.fallbacks ≡ w.fallbacks
  pub db : out.1.db ≡ w.db

module _ (env : Env) (ctx : Ctx) (prompt : Text) where
  pub finish_router-IsRuleAnswer :
      (d : Decision) (w : World) → IsRuleAnswer w d (finish_router env ctx prompt d w)
  unfolding finish_router
  finish_router-IsRuleAnswer d w = ground arith

  -- A rule that matched and asks for no comparison answers alone: no model, no classifier, no
  -- corpus row, no change of the database.
  pub rule_answers_alone :
      (w : World)
      → (route_prompt env prompt w).0.handled ≡ true
      → (route_prompt env prompt w).0.evaluate ≡ false
      → IsRuleAnswer
          (route_prompt env prompt w).1
          (route_prompt env prompt w).0
          (run env ctx prompt w)
  unfolding run
  rule_answers_alone w h e =
      if_split (IsRuleAnswer w' d) (d.handled && not d.evaluate)
        (λ _. finish_router-IsRuleAnswer d w') (λ no. cc (rw (h, e) at no))
    where
      d : Decision
      d = (route_prompt env prompt w).0

      w' : World
      w' = (route_prompt env prompt w).1

  -- With the model off, a run asks nobody and changes no database row or corpus row, whatever
  -- matched: the rule answers, or the run refuses at confidence 0.
  pub kill_switch :
      (w : World)
      → env.has_llm ≡ false
      → let out = run env ctx prompt w in
        let d = (route_prompt env prompt w).0 in
        (out.1.llm_runs ≡ w.llm_runs)
        × (out.1.classified ≡ w.classified)
        × (out.1.fallbacks ≡ w.fallbacks)
        × (out.1.db ≡ w.db)
        × (out.0.source ≡ (if d.handled then regex_router else llm_disabled))
        × (d.handled ≡ false → out.0.confidence.score ≡ 0)
  unfolding run route_prompt finish_router finish_llm_off score_none
  kill_switch w off = ground arith

  compared_db_only :
      (d : Decision) (r : Result Text Response) (w : World)
      → ((compared env ctx d r w).1.llm_runs ≡ w.llm_runs)
        × ((compared env ctx d r w).1.fallbacks ≡ w.fallbacks)
  compared_db_only d (ok resp) w = (refl, refl)
  compared_db_only d (err e) w = (refl, refl)

  answer_shadow_sampled :
      (d : Decision) (c : Option Response × World)
      → d.answer_from_rule ≡ true
      → IsRuleAnswer c.1 d (answer_shadow env ctx prompt d c)
  answer_shadow_sampled d (none, w) h = finish_router-IsRuleAnswer d w
  answer_shadow_sampled d (some resp, w) h =
      if_split (IsRuleAnswer w d) d.answer_from_rule (λ _. finish_router-IsRuleAnswer d w)
        (λ no. cc (h, no))

  -- A sampled rule is checked, not replaced: whatever the model says, the rule's answer is returned
  -- and no corpus row is written.
  pub finish_shadow_sampled :
      (d : Decision) (w : World)
      → d.answer_from_rule ≡ true
      → IsRuleAnswer (compare_shadow env ctx d prompt w).1 d (finish_shadow env ctx prompt d w)
  unfolding finish_shadow
  finish_shadow_sampled d w h = answer_shadow_sampled d (compare_shadow env ctx d prompt w) h
