-- ===== src/Rules/Table.antt =====
-- internal/router/rulesstore.go (LoadRules, seedRules) over the database that the rules and the
-- shadow comparisons share. `ok n` is the driver's verdict on the n-th statement: a statement that
-- fails changes nothing.
pub mod Laws
use aegis_go.Prelude.{
  ℕ, suc, ◌+◌, Bool, true, false, String, str_eq, List, [], ◌∷◌, ◌++◌, Option, none, some, map,
  keep, any, if◌then◌else◌,
}
use aegis_go.Rules.{RuleDef, RuleRow, rule_active}
use aegis_go.Rules.Seeded.{seeded}

pub record ShadowRow : Type 0 where
  pub rule_name : String
  pub trace_id : String
  pub agreed : Bool
  pub llm_tools : List String

-- `shadow_events` is newest first; `calls` counts the statements sent so far.
pub record Db : Type 0 where
  pub rules : List RuleRow
  pub shadow_events : List ShadowRow
  pub calls : ℕ

abbrev pub named : String → RuleRow → Bool
named n r = str_eq r.def.name n

unfoldable pub find_rule : String → List RuleRow → Option RuleRow
find_rule n [] = none
find_rule n (r ∷ rs) = if named n r then some r else find_rule n rs

-- `INSERT OR IGNORE INTO rules`: `name` is the primary key.
unfoldable pub insert_or_ignore : RuleRow → List RuleRow → List RuleRow
insert_or_ignore r rs = if any (named r.def.name) rs then rs else rs ++ r ∷ []

-- `SELECT … FROM rules WHERE enabled=1`, in the order of the table.
unfoldable pub select_enabled : List RuleRow → List RuleDef
select_enabled rs = map (λ r. r.def) (keep (λ r. r.enabled) rs)

-- One synchronous write that maps the rules table.
unfoldable pub exec_rules : (ℕ → Bool) → (List RuleRow → List RuleRow) → Db → Bool × Db
exec_rules ok f db =
    let sent = record db { calls = db.calls + 1 } in
    if ok db.calls then (true, record sent { rules = f db.rules }) else (false, sent)

-- The state column takes its default, `active`.
abbrev pub seed_row : RuleDef → RuleRow
seed_row d = record { def = record d { state = rule_active }; enabled = true }

abbrev pub and_then : Bool × Db → (Db → Bool × Db) → Bool × Db
and_then (true, db) k = k db
and_then (false, db) k = (false, db)

unfoldable pub seed_rules : (ℕ → Bool) → List RuleDef → Db → Bool × Db
unfolding exec_rules
seed_rules ok [] db = (true, db)
seed_rules ok (d ∷ ds) db =
    and_then (exec_rules ok (insert_or_ignore (seed_row d)) db) (seed_rules ok ds)

abbrev pub activate : RuleDef → RuleDef
activate d = record d { state = rule_active }

abbrev pub seeded_or_error : Bool × Db → Option (List RuleDef) × Db
seeded_or_error (true, db) = (some (map activate seeded), db)
seeded_or_error (false, db) = (none, db)

abbrev pub or_seed : (ℕ → Bool) → List RuleDef → Db → Option (List RuleDef) × Db
or_seed ok [] db = seeded_or_error (seed_rules ok seeded db)
or_seed ok (d ∷ ds) db = (some (d ∷ ds), db)

-- `none` is the error that the caller logs.
unfoldable pub load_rules : (ℕ → Bool) → Db → Option (List RuleDef) × Db
load_rules ok db =
    let sent = record db { calls = db.calls + 1 } in
    if ok db.calls then or_seed ok (select_enabled db.rules) sent else (none, sent)
