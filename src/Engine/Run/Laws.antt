-- ===== src/Engine/Run/Laws.antt =====
-- internal/engine/engine.go: the audit rows and the tool calls of `runUnwrapped`.
use aegis_go.Prelude.{
  ℕ, ◌≡◌, refl, ◌∙◌, ap, ◌&&◌, not, String, ◌∷◌, Option, none, some, arith, Bool-cases, if_split,
  Option-cases, inl, inr,
}
use aegis_go.Prelude.Result.{Result, ok, err}
use aegis_go.Rules.{Text}
use aegis_go.Router.{Decision, handle}
use aegis_go.Confidence.{Confidence, score_router, score_none, score_classifier}
use aegis_go.Engine.{
  World, Ctx, Env, RunResult, Response, AuditRow, Outcome, fine, failed_run, Source, regex_router,
  llm, llm_disabled, llm_classifier, error_source,
}
use aegis_go.Engine.Tails.{
  conclude, audit, record_fallback_parts, llm_score, row_of, finish_router, finish_llm_off,
  finish_classifier, finish_llm_error, finish_llm,
}
use aegis_go.Engine.Shadow.{asked, compare_shadow, compared, finish_shadow, answer_shadow}
use aegis_go.Engine.Run.{
  route_prompt, try_classifier, answer_llm, ask_llm, after_classifier, decide, run,
}

-- The result `out` of a run that found `w`: exactly one row more, which says what the result says.
pub record IsAudited (ctx : Ctx) (w : World) (out : RunResult × World) : Type 0 where
  pub row : AuditRow
  pub added : out.1.audits ≡ row ∷ w.audits
  pub source : row.source ≡ out.0.source
  pub rule : row.rule_id ≡ out.0.rule_id
  pub trace : (row.trace_id ≡ ctx.trace_id) × (out.0.trace_id ≡ ctx.trace_id)
  pub score : row.confidence ≡ out.0.confidence.score
  pub same_trail : out.1.trail ≡ w.trail

pub IsAudited-from :
    {ctx : Ctx} {w w' : World} {out : RunResult × World}
    → w'.audits ≡ w.audits
    → w'.trail ≡ w.trail
    → IsAudited ctx w' out
    → IsAudited ctx w out
IsAudited-from p q a = record {
  row = a.row;
  added = a.added ∙ ap (◌∷◌ a.row) p;
  source = a.source;
  rule = a.rule;
  trace = a.trace;
  score = a.score;
  same_trail = a.same_trail ∙ q;
}

module _ (env : Env) (ctx : Ctx) (prompt : Text) where
  pub conclude-IsAudited :
      (model : String) (outcome : Outcome) (answer : Text) (source : Source) (rule : String)
      (latency : ℕ) (conf : Confidence) (w : World)
      → IsAudited ctx w (conclude env ctx prompt model outcome answer source rule latency conf w)
  unfolding audit
  conclude-IsAudited model outcome answer source rule latency conf w = record {
    row = row_of env ctx source rule prompt model latency outcome conf.score;
    added = refl;
    source = refl;
    rule = refl;
    trace = (refl, refl);
    score = refl;
    same_trail = refl;
  }

  pub finish_router-IsAudited :
      (d : Decision) (w : World) → IsAudited ctx w (finish_router env ctx prompt d w)
  unfolding finish_router
  finish_router-IsAudited d w = elim (Option-cases d.err) [
    | inl e ↦ rw e (conclude-IsAudited "" fine _ regex_router d.rule_id _ score_router w)
    | inr (m, e) ↦
        rw e (conclude-IsAudited "" failed_run _ regex_router d.rule_id _ (score_none _) w)
  ]

  pub finish_llm_off-IsAudited : (w : World) → IsAudited ctx w (finish_llm_off env ctx prompt w)
  unfolding finish_llm_off
  finish_llm_off-IsAudited w = record {
    row =
        row_of env ctx llm_disabled "" prompt "" (env.elapsed w) fine
          (score_none "refusal, not an answer").score;
    added = refl;
    source = refl;
    rule = refl;
    trace = (refl, refl);
    score = refl;
    same_trail = refl;
  }

  pub finish_classifier-IsAudited :
      (answer : Text) (tool : String) (w : World)
      → IsAudited ctx w (finish_classifier env ctx prompt answer tool w)
  unfolding finish_classifier
  finish_classifier-IsAudited answer tool w = IsAudited-from refl refl (
      conclude-IsAudited env.classifier_model fine answer llm_classifier "" (env.elapsed w)
        score_classifier (record_fallback_parts ctx prompt tool env.classifier_model 0 0 w))

  pub finish_llm_error-IsAudited :
      (message : Text) (w : World) → IsAudited ctx w (finish_llm_error env ctx prompt message w)
  unfolding finish_llm_error
  finish_llm_error-IsAudited message w =
      conclude-IsAudited env.model failed_run _ error_source "" _ (score_none _) w

  finish_llm-IsAudited :
      (rule : String) (resp : Response) (w : World)
      → IsAudited ctx w (finish_llm env ctx prompt rule resp w)
  unfolding finish_llm
  finish_llm-IsAudited rule resp w = record {
    row = row_of env ctx llm rule prompt env.model (env.elapsed w) fine (llm_score env resp).score;
    added = refl;
    source = refl;
    rule = refl;
    trace = (refl, refl);
    score = refl;
    same_trail = refl;
  }

  compared_keeps :
      (d : Decision) (r : Result Text Response) (w : World)
      → ((compared env ctx d r w).1.audits ≡ w.audits)
        × ((compared env ctx d r w).1.trail ≡ w.trail)
  compared_keeps d (ok resp) w = (refl, refl)
  compared_keeps d (err e) w = (refl, refl)

  -- A comparison writes no audit row and runs no tool.
  pub compare_shadow_keeps :
      (d : Decision) (w : World)
      → ((compare_shadow env ctx d prompt w).1.audits ≡ w.audits)
        × ((compare_shadow env ctx d prompt w).1.trail ≡ w.trail)
  unfolding compare_shadow
  compare_shadow_keeps d w = elim (Bool-cases env.has_llm) [
    | inl on ↦ rw on (compared_keeps d (env.run_text w prompt) (asked prompt w))
    | inr off ↦ rw off (refl, refl)
  ]

  answer_shadow-IsAudited :
      (d : Decision) (c : Option Response × World)
      → IsAudited ctx c.1 (answer_shadow env ctx prompt d c)
  answer_shadow-IsAudited d (none, w) = finish_router-IsAudited d w
  answer_shadow-IsAudited d (some resp, w) =
      if_split (IsAudited ctx w) d.answer_from_rule (λ e. finish_router-IsAudited d w)
        (λ e. finish_llm-IsAudited d.rule_id resp w)

  pub finish_shadow-IsAudited :
      (d : Decision) (w : World) → IsAudited ctx w (finish_shadow env ctx prompt d w)
  unfolding finish_shadow
  finish_shadow-IsAudited d w =
      let (same, trail) = compare_shadow_keeps d w in
      IsAudited-from same trail (answer_shadow-IsAudited d (compare_shadow env ctx d prompt w))

  answer_llm-IsAudited :
      (r : Result Text Response) (w : World) → IsAudited ctx w (answer_llm env ctx prompt r w)
  answer_llm-IsAudited (err e) w = finish_llm_error-IsAudited e w
  answer_llm-IsAudited (ok resp) w = finish_llm-IsAudited "" resp w

  ask_llm-IsAudited : (w : World) → IsAudited ctx w (ask_llm env ctx prompt w)
  unfolding ask_llm
  ask_llm-IsAudited w =
      IsAudited-from refl refl (answer_llm-IsAudited (env.run_text w prompt) (asked prompt w))

  pub try_classifier_keeps :
      (d : Decision) (w : World)
      → ((try_classifier env d prompt w).1.audits ≡ w.audits)
        × ((try_classifier env d prompt w).1.trail ≡ w.trail)
  unfolding try_classifier
  try_classifier_keeps d w = ground arith

  after_classifier-IsAudited :
      (d : Decision) (c : Option (Text × String) × World)
      → IsAudited ctx c.1 (after_classifier env ctx prompt d c)
  after_classifier-IsAudited d (some (answer, tool), w) = finish_classifier-IsAudited answer tool w
  after_classifier-IsAudited d (none, w) =
      if_split (IsAudited ctx w) (d.handled && d.evaluate) (λ e. finish_shadow-IsAudited d w)
        (λ e. ask_llm-IsAudited w)

  decide-IsAudited : (d : Decision) (w : World) → IsAudited ctx w (decide env ctx prompt (d, w))
  decide-IsAudited d w =
      if_split P (d.handled && not d.evaluate) (λ e. finish_router-IsAudited d w)
        (λ e.
          if_split P env.has_llm (λ on. consulted)
            (λ off.
              if_split P d.handled (λ f. finish_router-IsAudited d w)
                (λ f. finish_llm_off-IsAudited w)))
    where
      P : RunResult × World → Type 0
      P = IsAudited ctx w

      consulted : P (after_classifier env ctx prompt d (try_classifier env d prompt w))
      consulted =
          IsAudited-from (try_classifier_keeps d w).0 (try_classifier_keeps d w).1
            (after_classifier-IsAudited d (try_classifier env d prompt w))

  -- The world after routing: the tools have run, and nothing else has changed.
  abbrev pub routed : World → World
  routed w = (route_prompt env prompt w).1

  -- Each run adds exactly one audit row, which repeats the source, rule, trace and score of the
  -- result, and the router's tool runs are those of the one routing.
  pub run-IsAudited :
      (w : World)
      → IsAudited ctx (routed w) (run env ctx prompt w)
        × ((routed w).audits ≡ w.audits)
        × ((run env ctx prompt w).1.trail
            ≡ (handle env.engine env.toolset env.sample env.router prompt w.trail).1)
  unfolding run route_prompt
  run-IsAudited w =
      let (d, trail) = handle env.engine env.toolset env.sample env.router prompt w.trail in
      let a = decide-IsAudited d (record w { trail = trail }) in (a, refl, a.same_trail)
