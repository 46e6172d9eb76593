-- ===== src/Engine/Run/Score.antt =====
-- internal/engine/engine.go: the score that goes with each source of an answer.
use aegis_go.Prelude.{ℕ, ◌≤◌, ◌≡◌, refl, ◌&&◌, not, String, Option, none, some, if_split}
use aegis_go.Prelude.Result.{Result, ok, err}
use aegis_go.Rules.{Text}
use aegis_go.Router.{Decision, ToolError}
use aegis_go.Confidence.{score_router, score_none, score_classifier, band_of, distinct_tool_count}
use aegis_go.Confidence.Laws.{score_llm_bounds}
use aegis_go.Engine.{
  World, Ctx, Env, RunResult, Response, Source, regex_router, llm, llm_disabled, llm_classifier,
  error_source, tool_names, rule_count,
}
use aegis_go.Engine.Tails.{
  router_tail, finish_router, finish_llm_off, finish_classifier, finish_llm_error, finish_llm,
}
use aegis_go.Engine.Shadow.{asked, compare_shadow, finish_shadow, answer_shadow}
use aegis_go.Engine.Run.{
  route_prompt, try_classifier, answer_llm, ask_llm, after_classifier, decide, run,
}

-- The score of an answer by source; `e` is the error of the tool that the rule ran.
abbrev InRange : Option ToolError → Source → ℕ → Type 0
InRange none regex_router n = n ≡ 100
InRange (some e) regex_router n = n ≡ 0
InRange e llm n = (55 ≤ n) × (n ≤ 89)
InRange e llm_classifier n = n ≡ 90
InRange e llm_disabled n = n ≡ 0
InRange e error_source n = n ≡ 0

-- The score lies in the range of the source, and the band is that of the score.
abbrev pub IsScored : Option ToolError → RunResult × World → Type 0
IsScored e out =
    InRange e out.0.source out.0.confidence.score
    × (out.0.confidence.band ≡ band_of out.0.confidence.score)

in_llm : (e : Option ToolError) {n : ℕ} → (55 ≤ n) × (n ≤ 89) → InRange e llm n
in_llm none h = h
in_llm (some e) h = h

module _ (env : Env) (ctx : Ctx) (prompt : Text) where
  router_tail-IsScored :
      (d : Decision) (e : Option ToolError) (w : World)
      → IsScored e (router_tail env ctx prompt d e w)
  unfolding score_router score_none band_of
  router_tail-IsScored d none w = (refl, refl)
  router_tail-IsScored d (some e) w = (refl, refl)

  pub finish_router-IsScored :
      (d : Decision) (w : World) → IsScored d.err (finish_router env ctx prompt d w)
  unfolding finish_router
  finish_router-IsScored d w = router_tail-IsScored d d.err w

  finish_llm_off-IsScored :
      (e : Option ToolError) (w : World) → IsScored e (finish_llm_off env ctx prompt w)
  unfolding finish_llm_off score_none band_of
  finish_llm_off-IsScored none w = (refl, refl)
  finish_llm_off-IsScored (some e) w = (refl, refl)

  pub finish_classifier-IsScored :
      (e : Option ToolError) (answer : Text) (tool : String) (w : World)
      → IsScored e (finish_classifier env ctx prompt answer tool w)
  unfolding finish_classifier score_classifier band_of
  finish_classifier-IsScored none answer tool w = (refl, refl)
  finish_classifier-IsScored (some e) answer tool w = (refl, refl)

  pub finish_llm_error-IsScored :
      (e : Option ToolError) (message : Text) (w : World)
      → IsScored e (finish_llm_error env ctx prompt message w)
  unfolding finish_llm_error score_none band_of
  finish_llm_error-IsScored none message w = (refl, refl)
  finish_llm_error-IsScored (some e) message w = (refl, refl)

  pub finish_llm-IsScored :
      (e : Option ToolError) (rule : String) (resp : Response) (w : World)
      → IsScored e (finish_llm env ctx prompt rule resp w)
  unfolding finish_llm
  finish_llm-IsScored e rule resp w =
      let (low, high, band) =
        score_llm_bounds env.signals resp.text (distinct_tool_count (tool_names resp))
          (rule_count env) in
      (in_llm e (low, high), band)

  answer_shadow-IsScored :
      (d : Decision) (c : Option Response × World)
      → IsScored d.err (answer_shadow env ctx prompt d c)
  answer_shadow-IsScored d (none, w) = finish_router-IsScored d w
  answer_shadow-IsScored d (some resp, w) =
      if_split (IsScored d.err) d.answer_from_rule (λ _. finish_router-IsScored d w)
        (λ _. finish_llm-IsScored d.err d.rule_id resp w)

  pub finish_shadow-IsScored :
      (d : Decision) (w : World) → IsScored d.err (finish_shadow env ctx prompt d w)
  unfolding finish_shadow
  finish_shadow-IsScored d w = answer_shadow-IsScored d (compare_shadow env ctx d prompt w)

  answer_llm-IsScored :
      (e : Option ToolError) (r : Result Text Response) (w : World)
      → IsScored e (answer_llm env ctx prompt r w)
  answer_llm-IsScored f (err e) w = finish_llm_error-IsScored f e w
  answer_llm-IsScored f (ok resp) w = finish_llm-IsScored f "" resp w

  ask_llm-IsScored : (e : Option ToolError) (w : World) → IsScored e (ask_llm env ctx prompt w)
  unfolding ask_llm
  ask_llm-IsScored e w = answer_llm-IsScored e (env.run_text w prompt) (asked prompt w)

  after_classifier-IsScored :
      (d : Decision) (c : Option (Text × String) × World)
      → IsScored d.err (after_classifier env ctx prompt d c)
  after_classifier-IsScored d (some (answer, tool), w) =
      finish_classifier-IsScored d.err answer tool w
  after_classifier-IsScored d (none, w) =
      if_split (IsScored d.err) (d.handled && d.evaluate) (λ _. finish_shadow-IsScored d w)
        (λ _. ask_llm-IsScored d.err w)

  decide-IsScored : (d : Decision) (w : World) → IsScored d.err (decide env ctx prompt (d, w))
  decide-IsScored d w =
      if_split (IsScored d.err) (d.handled && not d.evaluate) (λ _. finish_router-IsScored d w)
        (λ _.
          if_split (IsScored d.err) env.has_llm
            (λ _. after_classifier-IsScored d (try_classifier env d prompt w))
            (λ _.
              if_split (IsScored d.err) d.handled (λ _. finish_router-IsScored d w)
                (λ _. finish_llm_off-IsScored d.err w)))

  -- Every run scores 100 for a rule whose tool did not fail and 0 for a rule whose tool failed, 55
  -- to 89 for the model, 90 for the classifier and 0 for a refusal or a failure of the model, in
  -- the band of that score.
  pub run-IsScored : (w : World) → IsScored (route_prompt env prompt w).0.err (run env ctx prompt w)
  unfolding run
  run-IsScored w = decide-IsScored (route_prompt env prompt w).0 (route_prompt env prompt w).1
