-- ===== src/Router/Reload.antt =====
-- internal/router: `New` and `Swap` admit only rules that can run, and the hot reload of
-- rulesstore.go (`StartHotReload`) keeps the previous set when a new one is refused.
use aegis_go.Prelude.{
  ℕ, zero, suc, ◌≤◌, ◌<◌, ◌≡◌, ◌≢◌, refl, sym, subst, Bool, true, List, [], ◌∷◌, length, arith, ◌⊎◌,
  Option, none, some, Bool-cases, inl, inr, String, eq_iff, All, map,
}
use mathlib.Core.Path.{ap₂}
use aegis_go.Prelude.Result.{ok, Result-cases}
use aegis_go.Rules.{RuleDef, Text}
use aegis_go.Rules.Table.{Db, load_rules}
use aegis_go.Router.{
  Regexp, Toolset, CompiledRule, Router, Trail, anchored, max_prompt, compile, compile_all, swap,
  run_rule, handle, vanished, mark,
}
use aegis_go.Router.Laws.{FirstMatch, match_cases, handle_match, handle_miss}

-- One tick: a table that does not load and a set that does not compile both leave the router.
abbrev swap_loaded : Regexp → Toolset → Option (List RuleDef) → Router → Router
swap_loaded engine toolset none r = r
swap_loaded engine toolset (some defs) r = (swap engine toolset defs r).1

unfoldable pub reload_tick : Regexp → Toolset → (ℕ → Bool) → Router × Db → Router × Db
reload_tick engine toolset verdict (r, db) =
    let (loaded, db') = load_rules verdict db in (swap_loaded engine toolset loaded r, db')

-- What `compile_all` has checked of each rule.
pub record IsRunnable (engine : Regexp) (toolset : Toolset) (c : CompiledRule) : Type 0 where
  pub registered : toolset.get c.def.tool ≡ true
  pub compiled : engine.compiles c.re ≡ true
  pub is_anchored : c.re ≡ anchored c.def.pattern
  pub has_tool : c.def.tool ≢ ""

le_or_lt : (a b : ℕ) → (a ≤ b) ⊎ (b < a)
le_or_lt a b = grind arith

module _ (engine : Regexp) (toolset : Toolset) where
  abbrev pub IsValid : Router → Type 0
  IsValid r = All (IsRunnable engine toolset) r.rules

  compile_ok :
      (d : RuleDef) {c : CompiledRule}
      → compile engine toolset d ≡ ok c
      → (c.def ≡ d)
        × (c.re ≡ anchored d.pattern)
        × (engine.compiles c.re ≡ true)
        × (c.def.tool ≢ "")
  unfolding compile
  compile_ok d h = ground (arith, eq_iff d.tool "")

  compile_all_cons :
      (d : RuleDef) (ds : List RuleDef) {cs : List CompiledRule}
      → compile_all engine toolset (d ∷ ds) ≡ ok cs
      → (c : CompiledRule) × (rest : List CompiledRule) × (toolset.get d.tool ≡ true)
        × (compile engine toolset d ≡ ok c)
        × (compile_all engine toolset ds ≡ ok rest)
        × (cs ≡ c ∷ rest)
  unfolding compile_all
  compile_all_cons d ds h = elim (Bool-cases (toolset.get d.tool)) [
    | inr unknown ↦ cc (rw unknown at h)
    | inl known ↦ elim (Result-cases (compile engine toolset d)) [
      | inr (e, bad) ↦ cc (rw (known, bad) at h)
      | inl (c, made) ↦ elim (Result-cases (compile_all engine toolset ds)) [
        | inr (e, bad) ↦ cc (rw (known, made, bad) at h)
        | inl (rest, done) ↦ (c, rest, known, made, done, cc (rw (known, made, done) at h))
      ]
    ]
  ]

  compile_all_nil : {cs : List CompiledRule} → compile_all engine toolset [] ≡ ok cs → cs ≡ []
  unfolding compile_all
  compile_all_nil h = cc

  -- On success the rules are the given ones, in order, and each can run.
  pub compile_all_ok :
      (defs : List RuleDef) (cs : List CompiledRule)
      → compile_all engine toolset defs ≡ ok cs
      → (map (λ c. c.def) cs ≡ defs) × All (IsRunnable engine toolset) cs
  compile_all_ok [] cs h =
      subst (λ xs. (map (λ x. x.def) xs ≡ []) × All (IsRunnable engine toolset) xs)
        (sym (compile_all_nil h)) (refl, tt)
  compile_all_ok (d ∷ ds) cs h =
      let (c, rest, known, made, done, e) = compile_all_cons d ds h in
      let (same, compiled) = compile_all_ok ds rest done in
      let (is_def, re, good, named) = compile_ok d made in
      subst (λ xs. (map (λ x. x.def) xs ≡ d ∷ ds) × All (IsRunnable engine toolset) xs) (sym e)
        (
          ap₂ ◌∷◌ is_def same,
          (
            record {
              registered = rw is_def known;
              compiled = good;
              is_anchored = rw is_def re;
              has_tool = named;
            },
            compiled,
          ),
        )

  -- A swap either installs exactly the given rules or reports the error and changes nothing.
  pub swap_cases :
      (defs : List RuleDef) (r : Router)
      → let (e, r') = swap engine toolset defs r in
        ((e ≡ none) × (map (λ c. c.def) r'.rules ≡ defs) × IsValid r') ⊎ ((e ≢ none) × (r' ≡ r))
  unfolding swap
  swap_cases defs r = elim (Result-cases (compile_all engine toolset defs)) [
    | inl (cs, done) ↦
        let (same, valid) = compile_all_ok defs cs done in rw done (inl (refl, same, valid))
    | inr (e, bad) ↦ rw bad (inr ((λ p. cc), refl))
  ]

  pub swap-IsValid :
      (defs : List RuleDef) (r : Router) → IsValid r → IsValid (swap engine toolset defs r).1
  swap-IsValid defs r v = elim (swap_cases defs r) [
    | inl (_, _, valid) ↦ valid
    | inr (_, same) ↦ rw same v
  ]

  swap_loaded-IsValid :
      (loaded : Option (List RuleDef)) (r : Router)
      → IsValid r
      → IsValid (swap_loaded engine toolset loaded r)
  swap_loaded-IsValid none r v = v
  swap_loaded-IsValid (some defs) r v = swap-IsValid defs r v

  -- Any number of ticks of the hot reload, whatever the driver answers.
  unfoldable pub reload_ticks : (ℕ → Bool) → ℕ → Router × Db → Router × Db
  reload_ticks verdict zero s = s
  reload_ticks verdict (suc n) s = reload_ticks verdict n (reload_tick engine toolset verdict s)

  reload_tick-IsValid :
      (verdict : ℕ → Bool) (s : Router × Db)
      → IsValid s.0
      → IsValid (reload_tick engine toolset verdict s).0
  unfolding reload_tick
  reload_tick-IsValid verdict (r, db) v = swap_loaded-IsValid (load_rules verdict db).0 r v

  pub reload_ticks-IsValid :
      (verdict : ℕ → Bool) (n : ℕ) (s : Router × Db)
      → IsValid s.0
      → IsValid (reload_ticks verdict n s).0
  unfolding reload_ticks
  reload_ticks-IsValid verdict zero s v = v
  reload_ticks-IsValid verdict (suc n) s v =
      reload_ticks-IsValid verdict n (reload_tick engine toolset verdict s)
        (reload_tick-IsValid verdict s v)

  first-IsRunnable :
      {prompt : Text} {rules : List CompiledRule} {rule : CompiledRule} {match : List Text}
      → FirstMatch engine prompt rules rule match
      → All (IsRunnable engine toolset) rules
      → IsRunnable engine toolset rule
  first-IsRunnable (FirstMatch.here e) v = v.0
  first-IsRunnable (FirstMatch.later e f) v = first-IsRunnable f v.1

  run_rule_found :
      (sample : ℕ → Bool) (rule : CompiledRule) (match : List Text) (t : Trail) (tool : String)
      → toolset.get rule.def.tool ≡ true
      → (run_rule engine toolset sample rule match t).0.err ≢ some (vanished tool)
  unfolding run_rule mark
  run_rule_found sample rule match t tool h = ground arith

  -- After any number of hot reloads from a valid router, whatever the driver answers, no prompt
  -- meets a rule whose tool is gone.
  pub reloaded_never_vanishes :
      (verdict sample : ℕ → Bool) (n : ℕ) (s : Router × Db) (prompt : Text) (t : Trail)
      (tool : String)
      → IsValid s.0
      → (handle engine toolset sample (reload_ticks verdict n s).0 prompt t).0.err
        ≢ some (vanished tool)
  reloaded_never_vanishes verdict sample n s prompt t tool v =
      elim (le_or_lt (length prompt) max_prompt) [
        | inr long ↦ rw (handle_miss engine toolset sample prompt _ t (inl long)) (λ e. cc)
        | inl short ↦ elim (match_cases engine prompt (reload_ticks verdict n s).0.rules) [
          | inl missed ↦ rw (handle_miss engine toolset sample prompt _ t (inr missed)) (λ e. cc)
          | inr (rule, match, f) ↦ rw (handle_match engine toolset sample prompt _ t short f) (
              run_rule_found sample rule match t tool
                (first-IsRunnable f (reload_ticks-IsValid verdict n s v)).registered)
        ]
      ]
