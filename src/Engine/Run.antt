-- ===== src/Engine/Run.antt =====
-- internal/engine/engine.go: `runUnwrapped`, the synchronous pipeline, and the classifier's turn.
pub mod Laws
pub mod Switch
pub mod Score
use aegis_go.Prelude.{
  ℕ, Bool, true, false, ◌&&◌, ◌||◌, not, String, List, [], ◌∷◌, Option, none, some, if◌then◌else◌,
}
use aegis_go.Prelude.Result.{Result, ok, err}
use aegis_go.Rules.{Text}
use aegis_go.Router.{Decision, handle}
use aegis_go.Engine.{World, Ctx, Env, RunResult, Response}
use aegis_go.Engine.Tails.{
  finish_router, finish_llm_off, finish_classifier, finish_llm_error, finish_llm,
}
use aegis_go.Engine.Shadow.{asked, finish_shadow}

-- The router's turn; only it runs tools.
unfoldable pub route_prompt : Env → Text → World → Decision × World
route_prompt env prompt w =
    let (d, trail) = handle env.engine env.toolset env.sample env.router prompt w.trail in
    (d, record w { trail = trail })

-- `none`: not asked, or declined.
unfoldable pub try_classifier : Env → Decision → Text → World → Option (Text × String) × World
try_classifier env d prompt w =
    if d.handled || not env.has_classifier
    then (none, w)
    else (env.classify w prompt, record w { classified = prompt ∷ w.classified })

abbrev pub answer_llm : Env → Ctx → Text → Result Text Response → World → RunResult × World
answer_llm env ctx prompt (err e) w = finish_llm_error env ctx prompt e w
answer_llm env ctx prompt (ok resp) w = finish_llm env ctx prompt "" resp w

-- The fallback: the only path that costs money on a miss.
unfoldable pub ask_llm : Env → Ctx → Text → World → RunResult × World
ask_llm env ctx prompt w = answer_llm env ctx prompt (env.run_text w prompt) (asked prompt w)

abbrev pub after_classifier :
    Env → Ctx → Text → Decision → Option (Text × String) × World → RunResult × World
after_classifier env ctx prompt d (some (answer, tool), w) =
    finish_classifier env ctx prompt answer tool w
after_classifier env ctx prompt d (none, w) =
    if d.handled && d.evaluate then finish_shadow env ctx prompt d w else ask_llm env ctx prompt w

abbrev pub decide : Env → Ctx → Text → Decision × World → RunResult × World
decide env ctx prompt (d, w) =
    if d.handled && not d.evaluate
    then finish_router env ctx prompt d w
    else if env.has_llm
    then after_classifier env ctx prompt d (try_classifier env d prompt w)
    else if d.handled
    then finish_router env ctx prompt d w
    else finish_llm_off env ctx prompt w

unfoldable pub run : Env → Ctx → Text → World → RunResult × World
run env ctx prompt w = decide env ctx prompt (route_prompt env prompt w)
