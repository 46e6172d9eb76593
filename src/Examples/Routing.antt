-- ===== src/Examples/Routing.antt =====
-- The router's theorems on one rule.
use aegis_go.Prelude.{
  ◌≡◌, ◌≢◌, refl, Bool, true, false, [], ◌∷◌, some, inl, inr, arith, Bool-cases, if◌then◌else◌,
  ◌==◌,
}
use aegis_go.Rules.{Text, codes}
use aegis_go.Router.{Call, handle, tool_error, vanished}
use aegis_go.Router.Splice.{splice_args, dollar}
use aegis_go.Router.Splice.Laws.{NoDollar}
use aegis_go.Router.Laws.{FirstMatch, handle_first}
use aegis_go.Router.Reload.{reloaded_never_vanishes, reload_ticks, IsRunnable}
use aegis_go.Examples.{engine, toolset, router, compiled, prompt, trail, never, always, db}

found : FirstMatch engine prompt (compiled ∷ []) compiled (prompt ∷ [])
found = FirstMatch.here refl

handle_first_example :
    let (d, t') = handle engine toolset never router prompt trail in
    let call : Call = record { tool = "uptime"; args = splice_args (codes "{}") (prompt ∷ []) } in
    (d.handled ≡ true)
    × (d.rule_id ≡ "uptime")
    × (d.output ≡ (toolset.execute [] call).0)
    × (d.err ≡ tool_error (toolset.execute [] call).1)
    × (t'.executed ≡ call ∷ [])
handle_first_example =
    handle_first engine toolset never prompt router trail (omega arith) found refl

runnable : IsRunnable engine toolset compiled
runnable = record { registered = refl; compiled = refl; is_anchored = refl; has_tool = λ p. cc }

reloaded_never_vanishes_example :
    (handle engine toolset never
      (reload_ticks engine toolset always 3 (router, db)).0
      prompt
      trail).0.err
    ≢ some (vanished "uptime")
reloaded_never_vanishes_example =
    reloaded_never_vanishes engine toolset always never 3 (router, db) prompt trail "uptime"
      (runnable, tt)

abbrev plain : Text → Bool
plain [] = true
plain (c ∷ s) = let rest = plain s in if c == dollar then false else rest

no_dollar : (s : Text) → plain s ≡ true → NoDollar s
no_dollar [] h = tt
no_dollar (c ∷ s) h = elim (Bool-cases (c == dollar)) [
  | inl e ↦ cc (rw e at h)
  | inr e ↦ (ground (arith, e), no_dollar s (rw e at h))
]
