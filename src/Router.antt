-- ===== src/Router.antt =====
-- internal/router/router.go: rules are compiled against a toolset and matched in order; the first
-- match runs its tool. The regular-expression engine and the tools come in as parameters: an
-- engine is any two functions of the anchored pattern, and what a tool returns may depend on every
-- call made before it.
pub mod Splice
pub mod Laws
pub mod Reload
use Prim.Native.String.{◌++◌}
use aegis_go.Prelude.{
  ℕ, suc, ◌+◌, ◌*◌, Bool, true, false, ◌&&◌, String, str_eq, List, [], ◌∷◌, Option, none, some, any,
  length, if◌then◌else◌, ltb,
}
use aegis_go.Prelude.Result.{Result, ok, err, ◌>>=◌}
use aegis_go.Rules.{RuleDef, Text, effective_state, rule_active, rule_shadow, codes}
use Splice.{splice_args}

pub record Regexp : Type 0 where
  pub compiles : String → Bool
  pub submatch : String → Text → Option (List Text)

-- A tool's result as the reply prints it: `json` is `MarshalIndent`, `printed` is `fmt.Sprint`.
pub record Output : Type 0 where
  pub json : Option Text
  pub printed : Text

pub record Call : Type 0 where
  pub tool : String
  pub args : Text

pub record Toolset : Type 0 where
  pub get : String → Bool
  pub execute : List Call → Call → Option Output × Option Text

abbrev pub max_prompt : ℕ
max_prompt = 4 * 1024

pub data RouterError : Type 0 where
  duplicate_rule : String → RouterError
  unknown_tool : String → String → RouterError
  bad_pattern : String → RouterError
  tool_required : String → RouterError

-- `re` is the anchored pattern that the engine compiled.
pub record CompiledRule : Type 0 where
  pub def : RuleDef
  pub re : String

pub record Router : Type 0 where
  pub rules : List CompiledRule

abbrev pub anchored : String → String
anchored p = "^(?:" ++ (p ++ ")$")

pub data ToolError : Type 0 where
  vanished : String → ToolError
  failed : Text → ToolError

pub record Decision : Type 0 where
  pub handled : Bool
  pub rule_id : String
  pub output : Option Output
  pub err : Option ToolError
  pub evaluate : Bool
  pub answer_from_rule : Bool
  pub tool : String
  pub args : Text

abbrev pub no_decision : Decision
no_decision = record {
  handled = false;
  rule_id = "";
  output = none;
  err = none;
  evaluate = false;
  answer_from_rule = false;
  tool = "";
  args = [];
}

abbrev rendered : Option Text → Text → Text
rendered none printed = printed
rendered (some json) printed = json

-- `Decision.Text`.
abbrev pub output_text : Option Output → Text
output_text none = []
output_text (some o) = rendered o.json o.printed

abbrev pub tool_error : Option Text → Option ToolError
tool_error none = none
tool_error (some message) = some (failed message)

-- What a run leaves behind: the tool calls, newest first, and the draws of the sampler.
pub record Trail : Type 0 where
  pub executed : List Call
  pub draws : ℕ

abbrev pub names : String → RuleDef → Bool
names n d = str_eq d.name n

-- The `seen` map: `none` when every name is new.
unfoldable pub find_duplicate : List RuleDef → List RuleDef → Option String
find_duplicate seen [] = none
find_duplicate seen (d ∷ ds) =
    let rest = find_duplicate (d ∷ seen) ds in if any (names d.name) seen then some d.name else rest

abbrev reject : Option String → Result RouterError Router → Result RouterError Router
reject none r = r
reject (some n) r = err (duplicate_rule n)

abbrev swapped : Router → Result RouterError (List CompiledRule) → Option RouterError × Router
swapped r (ok cs) = (none, record { rules = cs })
swapped r (err e) = (some e, r)

abbrev pub called : String → Text → Trail → Trail
called tool args t = record t { executed = record { tool = tool; args = args } ∷ t.executed }

abbrev pub ran : CompiledRule → Text → Option Output × Option Text → Decision
ran rule args (output, e) = record {
  handled = true;
  rule_id = rule.def.name;
  output = output;
  err = tool_error e;
  evaluate = false;
  answer_from_rule = false;
  tool = rule.def.tool;
  args = args;
}

-- The switch on the state of the rule that matched.
unfoldable pub mark : (ℕ → Bool) → RuleDef → Decision → Trail → Decision × Trail
unfolding effective_state
mark sample d dec t =
    if str_eq (effective_state d) rule_shadow
    then (record dec { evaluate = true; answer_from_rule = false }, t)
    else if str_eq (effective_state d) rule_active && str_eq d.origin "mined"
    then (
      record dec { evaluate = sample t.draws; answer_from_rule = sample t.draws },
      record t { draws = t.draws + 1 },
    )
    else (dec, t)

abbrev missing_tool : RuleDef → Decision
missing_tool d = record no_decision {
  handled = true;
  rule_id = d.name;
  err = some (vanished d.tool);
}

module _ (engine : Regexp) (toolset : Toolset) where
  unfoldable pub compile : RuleDef → Result RouterError CompiledRule
  compile d =
      if engine.compiles (anchored d.pattern)
      then (if str_eq d.tool ""
          then err (tool_required d.name)
          else ok (record { def = d; re = anchored d.pattern }))
      else err (bad_pattern d.name)

  abbrev pub check_tool : RuleDef → Result RouterError RuleDef
  check_tool d = if toolset.get d.tool then ok d else err (unknown_tool d.name d.tool)

  unfoldable pub compile_all : List RuleDef → Result RouterError (List CompiledRule)
  unfolding compile
  compile_all [] = ok []
  compile_all (d ∷ ds) =
      check_tool d >>= λ d'. compile d' >>= λ c. compile_all ds >>= λ cs. ok (c ∷ cs)

  unfoldable pub new : List RuleDef → Result RouterError Router
  unfolding find_duplicate compile_all
  new defs = reject (find_duplicate [] defs) (compile_all defs >>= λ cs. ok (record { rules = cs }))

  unfoldable pub swap : List RuleDef → Router → Option RouterError × Router
  unfolding compile_all
  swap defs r = swapped r (compile_all defs)

  unfoldable pub run_rule : (ℕ → Bool) → CompiledRule → List Text → Trail → Decision × Trail
  unfolding mark splice_args
  run_rule sample rule match t =
      let args = splice_args rule.def.args_template match in
      let call : Call = record { tool = rule.def.tool; args = args } in
      if toolset.get rule.def.tool
      then mark sample rule.def (ran rule args (toolset.execute t.executed call))
          (called rule.def.tool args t)
      else (missing_tool rule.def, t)

  unfoldable pub route : (ℕ → Bool) → List CompiledRule → Text → Trail → Decision × Trail
  route sample [] prompt t = (no_decision, t)
  route sample (rule ∷ rules) prompt t = elim (engine.submatch rule.re prompt) [
    | none ↦ route sample rules prompt t
    | some match ↦ run_rule sample rule match t
  ]

  unfoldable pub handle : (ℕ → Bool) → Router → Text → Trail → Decision × Trail
  unfolding route
  handle sample r prompt t =
      if ltb max_prompt (length prompt) then (no_decision, t) else route sample r.rules prompt t
