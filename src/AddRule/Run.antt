-- ===== src/AddRule/Run.antt =====
-- internal/app/addrulegate.go and registerrulesgate.go: the gated write behind /addrule and
-- /register_rules, over the router and the rules table. `verdict n` is the driver's answer to the
-- n-th statement on the table, `string` the Go string of a text, and `reason` prints a request.
pub mod Upsert
pub mod Laws
pub mod Gate
use aegis_go.Prelude.{
  ℕ, Bool, true, false, String, List, [], ◌∷◌, ◌++◌, Option, none, some, map, any, length,
  if◌then◌else◌,
}
use aegis_go.Prelude.Result.{Result, ok, err}
use aegis_go.Rules.{Text, RuleDef, RuleRow, or_braces, chat_addable, rule_active}
use aegis_go.Rules.Table.{Db, named, exec_rules, load_rules}
use aegis_go.Router.{Regexp, Toolset, Router, RouterError, swap}
use aegis_go.AddRule.{Spec, Checks, ParseError, parse_register_rules}

pub data RuleError : Type 0 where
  refused : ParseError → RuleError
  not_addable : String → RuleError
  insert : RuleError
  reload : RuleError
  swap_rejected : RouterError → RuleError

-- The row that the INSERT would add: the empty arguments are `{}`.
abbrev pub manual_rule : (Text → String) → Spec → RuleDef
manual_rule string s = record {
  name = string s.name;
  pattern = string s.pattern;
  tool = string s.tool;
  args_template = or_braces s.args;
  origin = "manual";
  state = rule_active;
}

-- `DO UPDATE SET pattern, tool, args_template, enabled`: origin and state stay.
abbrev pub overwrite : RuleDef → RuleRow → RuleRow
overwrite d r =
    if named d.name r
    then record {
      def = record r.def { pattern = d.pattern; tool = d.tool; args_template = d.args_template };
      enabled = true;
    }
    else r

-- `INSERT … ON CONFLICT(name)`: `name` is the primary key.
unfoldable pub upsert : RuleDef → List RuleRow → List RuleRow
upsert d rs =
    if any (named d.name) rs
    then map (overwrite d) rs
    else rs ++ record { def = d; enabled = true } ∷ []

abbrev pub World : Type 0
World = Router × Db

module _ (verdict : ℕ → Bool) (string : Text → String) where
  abbrev pub insert_done : Bool × Db → Option RuleError × Db
  insert_done (true, db) = (none, db)
  insert_done (false, db) = (some insert, db)

  unfoldable pub insert_rule : Spec → Db → Option RuleError × Db
  unfolding exec_rules
  insert_rule s db =
      if chat_addable (string s.tool)
      then insert_done (exec_rules verdict (upsert (manual_rule string s)) db)
      else (some (not_addable (string s.tool)), db)

  abbrev pub and_insert :
      Option RuleError × Db → (Db → Option RuleError × Db) → Option RuleError × Db
  and_insert (none, db) k = k db
  and_insert (some e, db) k = (some e, db)

  unfoldable pub insert_all : List Spec → Db → Option RuleError × Db
  unfolding insert_rule
  insert_all [] db = (none, db)
  insert_all (s ∷ ss) db = and_insert (insert_rule s db) (insert_all ss)

module _ (engine : Regexp) (toolset : Toolset) (verdict : ℕ → Bool) (string : Text → String) where
  abbrev pub swapped_in : ℕ → Db → Option RouterError × Router → Result RuleError ℕ × World
  swapped_in live db (none, r) = (ok live, (r, db))
  swapped_in live db (some e, r) = (err (swap_rejected e), (r, db))

  abbrev pub loaded_in : Router → Option (List RuleDef) × Db → Result RuleError ℕ × World
  loaded_in r (none, db) = (err reload, (r, db))
  loaded_in r (some defs, db) = swapped_in (length defs) db (swap engine toolset defs r)

  abbrev pub inserted : Router → Option RuleError × Db → Result RuleError ℕ × World
  inserted r (some e, db) = (err e, (r, db))
  inserted r (none, db) = loaded_in r (load_rules verdict db)

  -- AddRuleGate.Run; the result is the number of live rules.
  unfoldable pub run_add_rule : Spec → World → Result RuleError ℕ × World
  unfolding insert_rule
  run_add_rule s (r, db) = inserted r (insert_rule verdict string s db)

  -- RegisterRulesGate.Run.
  unfoldable pub run_register_rules : List Spec → World → Result RuleError ℕ × World
  unfolding insert_all
  run_register_rules ss (r, db) = inserted r (insert_all verdict string ss db)

  -- ReplayAddruleLines, which asks nobody.
  abbrev replay_parsed : Result ParseError (List Spec) → World → Result RuleError ℕ × World
  replay_parsed (err e) w = (err (refused e), w)
  replay_parsed (ok ss) w = run_register_rules ss w

  unfoldable pub replay_addrule_lines : Checks → Text → World → Result RuleError ℕ × World
  unfolding run_register_rules
  replay_addrule_lines c text w = replay_parsed (parse_register_rules c text) w
