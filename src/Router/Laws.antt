-- ===== src/Router/Laws.antt =====
-- internal/router/router.go, Handle: which rule matches, what runs, and the marks of a decision.
use aegis_go.Prelude.{
  ℕ, ◌≤◌, ◌<◌, ◌≡◌, ◌≢◌, refl, Bool, true, false, List, [], ◌∷◌, length, arith, ◌⊎◌, none, some,
  Option-cases, ltb, ltb→lt, lt→ltb, Bool-cases, inl, inr, eq_iff, All,
}
use aegis_go.Rules.{RuleDef, Text, effective_state, rule_active, rule_shadow}
use aegis_go.Router.Splice.{splice_args}
use aegis_go.Router.{
  Regexp, Toolset, Call, CompiledRule, Router, Decision, no_decision, Trail, max_prompt, mark,
  run_rule, route, handle, tool_error,
}

module _ (engine : Regexp) (prompt : Text) where
  -- The rule that wins: all before it do not match.
  pub data FirstMatch : List CompiledRule → CompiledRule → List Text → Type 0 where
    here :
        {rule : CompiledRule} {rules : List CompiledRule} {match : List Text}
        → engine.submatch rule.re prompt ≡ some match
        → FirstMatch (rule ∷ rules) rule match
    later :
        {rule winner : CompiledRule} {rules : List CompiledRule} {match : List Text}
        → engine.submatch rule.re prompt ≡ none
        → FirstMatch rules winner match
        → FirstMatch (rule ∷ rules) winner match

  abbrev pub NoMatch : List CompiledRule → Type 0
  NoMatch = All (λ rule. engine.submatch rule.re prompt ≡ none)

  pub match_cases :
      (rules : List CompiledRule)
      → NoMatch rules ⊎ ((rule : CompiledRule) × (match : List Text) × FirstMatch rules rule match)
  match_cases [] = inl tt
  match_cases (rule ∷ rules) = elim (Option-cases (engine.submatch rule.re prompt)) [
    | inr (match, e) ↦ inr (rule, match, here e)
    | inl e ↦ elim (match_cases rules) [
      | inl n ↦ inl (e, n)
      | inr (winner, match, f) ↦ inr (winner, match, later e f)
    ]
  ]

mark_evaluates :
    (sample : ℕ → Bool) (rule : RuleDef) (dec : Decision) (t : Trail)
    → dec.evaluate ≡ false
    → dec.answer_from_rule ≡ false
    → let d = (mark sample rule dec t).0 in
      ((effective_state rule ≡ rule_shadow) × (d.evaluate ≡ true) × (d.answer_from_rule ≡ false))
      ⊎ ((effective_state rule ≢ rule_shadow)
          × (d.answer_from_rule ≡ d.evaluate)
          × (d.evaluate ≡ true
              → (effective_state rule ≡ rule_active)
                × (rule.origin ≡ "mined")
                × (sample t.draws ≡ true)))
unfolding mark
mark_evaluates sample rule dec t p q = ground (
  arith,
  eq_iff (effective_state rule) rule_shadow,
  eq_iff (effective_state rule) rule_active,
  eq_iff rule.origin "mined",
)

module _ (engine : Regexp) (toolset : Toolset) (sample : ℕ → Bool) (prompt : Text) where
  route_first :
      {rules : List CompiledRule} {rule : CompiledRule} {match : List Text} (t : Trail)
      → FirstMatch engine prompt rules rule match
      → route engine toolset sample rules prompt t ≡ run_rule engine toolset sample rule match t
  unfolding route
  route_first t (here e) = rw (e, route) refl
  route_first t (later e f) = rw (e, route) (route_first t f)

  route_none :
      (rules : List CompiledRule) (t : Trail)
      → NoMatch engine prompt rules
      → route engine toolset sample rules prompt t ≡ (no_decision, t)
  unfolding route
  route_none [] t h = refl
  route_none (rule ∷ rules) t h = rw (h.0, route) (route_none rules t h.1)

  -- A prompt that is too long, or that no rule matches, is a miss, and no tool runs.
  pub handle_miss :
      (r : Router) (t : Trail)
      → (max_prompt < length prompt) ⊎ NoMatch engine prompt r.rules
      → handle engine toolset sample r prompt t ≡ (no_decision, t)
  unfolding handle
  handle_miss r t (inl long) = rw (lt→ltb max_prompt (length prompt) long) refl
  handle_miss r t (inr missed) = elim (Bool-cases (ltb max_prompt (length prompt))) [
    | inl long ↦ rw long refl
    | inr short ↦ rw short (route_none r.rules t missed)
  ]

  pub handle_match :
      (r : Router) (t : Trail) {rule : CompiledRule} {match : List Text}
      → length prompt ≤ max_prompt
      → FirstMatch engine prompt r.rules rule match
      → handle engine toolset sample r prompt t ≡ run_rule engine toolset sample rule match t
  unfolding handle
  handle_match r t short f = elim (Bool-cases (ltb max_prompt (length prompt))) [
    | inl long ↦ absurd (omega (arith, ltb→lt max_prompt (length prompt) long))
    | inr e ↦ rw e (route_first t f)
  ]

  -- For a prompt within the limit, the first matching rule answers: its tool, if registered, runs
  -- exactly once, on the captures spliced into its template.
  pub handle_first :
      (r : Router) (t : Trail) {rule : CompiledRule} {match : List Text}
      → length prompt ≤ max_prompt
      → FirstMatch engine prompt r.rules rule match
      → toolset.get rule.def.tool ≡ true
      → let (d, t') = handle engine toolset sample r prompt t in
        let call : Call = record {
          tool = rule.def.tool;
          args = splice_args rule.def.args_template match;
        } in
        (d.handled ≡ true)
        × (d.rule_id ≡ rule.def.name)
        × (d.output ≡ (toolset.execute t.executed call).0)
        × (d.err ≡ tool_error (toolset.execute t.executed call).1)
        × (t'.executed ≡ call ∷ t.executed)
  unfolding run_rule mark
  handle_first r t {rule} {match} short f g = rw (handle_match r t short f) (rw g (ground arith))

  -- For a prompt within the limit whose first matching rule has a registered tool, a comparison is
  -- asked for in two cases only: a shadow rule, which never answers, and a mined active rule that
  -- the sampler draws, which does.
  pub handle_evaluates :
      (r : Router) (t : Trail) {rule : CompiledRule} {match : List Text}
      → length prompt ≤ max_prompt
      → FirstMatch engine prompt r.rules rule match
      → toolset.get rule.def.tool ≡ true
      → let d = (handle engine toolset sample r prompt t).0 in
        ((effective_state rule.def ≡ rule_shadow)
          × (d.evaluate ≡ true)
          × (d.answer_from_rule ≡ false))
        ⊎ ((effective_state rule.def ≢ rule_shadow)
            × (d.answer_from_rule ≡ d.evaluate)
            × (d.evaluate ≡ true
                → (effective_state rule.def ≡ rule_active)
                  × (rule.def.origin ≡ "mined")
                  × (sample t.draws ≡ true)))
  unfolding run_rule
  handle_evaluates r t {rule} {match} short f g =
      rw (handle_match r t short f) (rw g (mark_evaluates sample rule.def _ _ refl refl))
