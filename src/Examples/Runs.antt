-- ===== src/Examples/Runs.antt =====
-- The theorems on runs of the engine: a rule that answers, a model that is off, and a shadow rule.
use aegis_go.Prelude.{
  length, ◌≤◌, ◌≡◌, ◌≢◌, refl, true, false, String, [], ◌∷◌, some, inr, All, if◌then◌else◌, ap, ◌∙◌,
  eq_iff,
}
use aegis_go.Rules.{codes, rule_active, effective_state}
use aegis_go.Rules.Table.{find_rule}
use aegis_go.Rules.Lifecycle.{streak_of, streak_limit, put_state}
use aegis_go.Router.{Decision, handle, run_rule, mark}
use aegis_go.Confidence.{contains}
use aegis_go.Engine.{Source, tool_names, Env, StreamItem}
use aegis_go.Engine.Shadow.{compare_shadow, comparison}
use aegis_go.Engine.Shadow.Laws.{
  promotion_earned, divergence_demotes, compare_shadow_rules, demoted_row, last_comparisons,
}
use aegis_go.Engine.Run.{run, route_prompt}
use aegis_go.Engine.Run.Laws.{IsAudited, run-IsAudited, routed}
use aegis_go.Engine.Run.Switch.{kill_switch}
use aegis_go.Engine.Run.Score.{IsScored, run-IsScored}
use aegis_go.Engine.Stream.{run_streaming, chunked, stream_llm, stream_loop, emit_one}
use aegis_go.Engine.Stream.Laws.{run_streaming-chunked}
use aegis_go.Engine.Stream.Deltas.{deltas_of, break_of, IsTold, stream_llm-IsTold}
use aegis_go.Examples.{
  env, env_off, env_diverging, ctx, prompt, long_prompt, world, shadow_world, evaluated, agreeing,
  diverging, shadow_row,
}

run-IsAudited_example :
    IsAudited ctx (routed env ctx prompt world) (run env ctx prompt world)
    × ((routed env ctx prompt world).audits ≡ world.audits)
    × ((run env ctx prompt world).1.trail
        ≡ (handle env.engine env.toolset env.sample env.router prompt world.trail).1)
run-IsAudited_example = run-IsAudited env ctx prompt world

handled : (route_prompt env prompt world).0.handled ≡ true
unfolding route_prompt handle run_rule
handled = refl

unsampled : (route_prompt env prompt world).0.evaluate ≡ false
unfolding route_prompt handle run_rule mark effective_state
unsampled = refl

kill_switch_example :
    let out = run env_off ctx long_prompt world in
    let d = (route_prompt env_off long_prompt world).0 in
    (out.1.llm_runs ≡ world.llm_runs)
    × (out.1.classified ≡ world.classified)
    × (out.1.fallbacks ≡ world.fallbacks)
    × (out.1.db ≡ world.db)
    × (out.0.source ≡ (if d.handled then Source.regex_router else Source.llm_disabled))
    × (d.handled ≡ false → out.0.confidence.score ≡ 0)
kill_switch_example = kill_switch env_off ctx long_prompt world refl

abbrev sampled : Decision
sampled = record evaluated { answer_from_rule = true }

run-IsScored_example :
    IsScored (route_prompt env long_prompt world).0.err (run env ctx long_prompt world)
run-IsScored_example = run-IsScored env ctx long_prompt world

run_streaming-chunked_example :
    run_streaming env_off ctx long_prompt world
    ≡ chunked env_off (run env_off ctx long_prompt world)
run_streaming-chunked_example = run_streaming-chunked env_off ctx long_prompt world (inr refl)

shadow_found : find_rule "uptime" shadow_world.db.rules ≡ some shadow_row
unfolding find_rule
shadow_found = refl

no_tool : contains (tool_names diverging) "uptime" ≡ false
unfolding tool_names
no_tool = refl

divergence_demotes_example :
    let rules = (compare_shadow env_diverging ctx evaluated prompt shadow_world).1.db.rules in
    (find_rule "uptime" rules ≡ some (demoted_row shadow_row))
    × ((n : String) → n ≢ "uptime" → find_rule n rules ≡ find_rule n shadow_world.db.rules)
divergence_demotes_example =
    divergence_demotes env_diverging ctx evaluated prompt shadow_world (λ n. refl) refl refl no_tool
      shadow_found

promoted :
    find_rule "uptime" (compare_shadow env ctx evaluated prompt shadow_world).1.db.rules
    ≡ some (put_state "uptime" rule_active true shadow_row)
unfolding find_rule tool_names streak_of
promoted =
    ap (find_rule "uptime")
      (compare_shadow_rules env ctx evaluated prompt shadow_world (λ n. refl) refl refl)
    ∙ refl

promotion_earned_example :
    (1 ≤ streak_limit)
    × (length (last_comparisons 1 "uptime" (comparison ctx evaluated agreeing ∷ [])) ≡ 1)
    × All
        (λ e. e.agreed ≡ true)
        (last_comparisons 1 "uptime" (comparison ctx evaluated agreeing ∷ []))
promotion_earned_example =
    promotion_earned env ctx evaluated prompt shadow_world (λ n. refl) refl refl shadow_found
      (λ p. cc ((eq_iff "shadow" "active").1 p)) promoted refl

abbrev streaming : Env
streaming = record env {
  stream = λ w p.
      StreamItem.update (record { contents = []; text = codes "it is " })
      ∷ StreamItem.nothing
      ∷ StreamItem.update (record { contents = []; text = codes "up" })
      ∷ [];
}

stream_llm-IsTold_example :
    IsTold
      (deltas_of (streaming.stream world long_prompt))
      (break_of (streaming.stream world long_prompt))
      world
      (stream_llm streaming ctx long_prompt world)
stream_llm-IsTold_example = stream_llm-IsTold streaming (λ w c. refl) ctx long_prompt world

-- Two deltas are the answer.
streamed : (stream_llm streaming ctx long_prompt world).0.answer ≡ codes "it is up"
unfolding stream_llm stream_loop emit_one
streamed = refl
