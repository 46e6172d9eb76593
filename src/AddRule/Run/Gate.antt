-- ===== src/AddRule/Run/Gate.antt =====
-- internal/app/addrulegate.go and registerrulesgate.go (Handle): parse, file one request, wait for
-- the decision, run. The action's error is printed by `shown`.
pub mod Laws
use aegis_go.Prelude.{ℕ, suc, Bool, true, false, String, List, Option, none, some, if◌then◌else◌}
use aegis_go.Prelude.Result.{Result, ok, err}
use aegis_go.Rules.{Text, chat_addable}
use aegis_go.Router.{Regexp, Toolset}
use aegis_go.Approvals.{Ledger}
use aegis_go.Approvals.Gate.{Gate, Gated, GateConfig, Tick, run_gated}
use aegis_go.AddRule.{Spec, Checks, ParseError, parse_add_rule, parse_register_rules}
use aegis_go.AddRule.Run.{RuleError, refused, not_addable, World, run_add_rule, run_register_rules}

pub record Door : Type 0 where
  pub engine : Regexp
  pub toolset : Toolset
  pub verdict : ℕ → Bool
  pub string : Text → String
  pub checks : Checks
  pub shown : RuleError → String
  pub accepts : ℕ → Bool
  pub config : GateConfig

pub data Answered : Type 0 where
  rejected : RuleError → Answered
  gated : Gate ℕ → Answered

abbrev show_error : (RuleError → String) → Result RuleError ℕ × World → Result String ℕ × World
show_error shown (ok n, w) = (ok n, w)
show_error shown (err e, w) = (err (shown e), w)

abbrev pub add_action : Door → Spec → Gated ℕ World
add_action d s = record {
  accepts = d.accepts;
  config = d.config;
  action = λ w. show_error d.shown (run_add_rule d.engine d.toolset d.verdict d.string s w);
}

abbrev pub batch_action : Door → List Spec → Gated ℕ World
batch_action d ss = record {
  accepts = d.accepts;
  config = d.config;
  action = λ w. show_error d.shown (run_register_rules d.engine d.toolset d.verdict d.string ss w);
}

abbrev pub replied : Option (Gate ℕ × Ledger × World) → Option (Answered × Ledger × World)
replied none = none
replied (some (g, l, w)) = some (gated g, l, w)

module _ (d : Door) (payload reason : Spec → String) where
  -- The ledger's request is that of the gate: `existingApproval` gives it the row that Request made.
  unfoldable pub handle_spec :
      (ℕ → Tick)
      → Text
      → Result ParseError Spec
      → Ledger
      → World
      → Option (Answered × Ledger × World)
  handle_spec ticks now (err e) l w = some (rejected (refused e), l, w)
  handle_spec ticks now (ok s) l w =
      if chat_addable (d.string s.tool)
      then replied (run_gated (add_action d s) ticks now "add_rule" (payload s) (reason s) l w)
      else some (rejected (not_addable (d.string s.tool)), l, w)

  -- AddRuleGate.Handle.
  unfoldable pub handle_add_rule :
      (ℕ → Tick) → Text → Text → Ledger → World → Option (Answered × Ledger × World)
  unfolding handle_spec
  handle_add_rule ticks now text l w = handle_spec ticks now (parse_add_rule d.checks text) l w

module _ (d : Door) (payload reason : List Spec → String) where
  unfoldable pub handle_specs :
      (ℕ → Tick)
      → Text
      → Result ParseError (List Spec)
      → Ledger
      → World
      → Option (Answered × Ledger × World)
  handle_specs ticks now (err e) l w = some (rejected (refused e), l, w)
  handle_specs ticks now (ok ss) l w =
      replied
        (run_gated (batch_action d ss) ticks now "register_rules" (payload ss) (reason ss) l w)

  -- RegisterRulesGate.Handle.
  unfoldable pub handle_register_rules :
      (ℕ → Tick) → Text → Text → Ledger → World → Option (Answered × Ledger × World)
  unfolding handle_specs
  handle_register_rules ticks now text l w =
      handle_specs ticks now (parse_register_rules d.checks text) l w
