-- ===== src/Examples/Tables.antt =====
-- The theorems on the rules table, on a table of one row.
use aegis_go.Prelude.{◌≡◌, refl, true, false, [], ◌∷◌, none, some}
use aegis_go.Rules.{RuleDef}
use aegis_go.Rules.Table.{Db, ShadowRow, exec_rules, find_rule, select_enabled}
use aegis_go.Rules.Reconcile.{reconcile_seeded, reconcile_loop}
use aegis_go.Examples.{uptime, row, db, always}

abbrev disabled_db : Db
disabled_db = record db { rules = record row { enabled = false } ∷ [] }

abbrev stateless : RuleDef
stateless = record uptime { name = "disk"; state = "" }

abbrev agreed_row : ShadowRow
agreed_row = record { rule_name = "uptime"; trace_id = "t"; agreed = true; llm_tools = [] }

unselected : select_enabled disabled_db.rules ≡ []
unfolding select_enabled
unselected = refl

row_found : find_rule "uptime" db.rules ≡ some row
unfolding find_rule
row_found = refl

fine : (reconcile_seeded always (stateless ∷ []) db).1 ≡ true
unfolding reconcile_seeded reconcile_loop exec_rules find_rule
fine = refl

missing : find_rule "disk" db.rules ≡ none
unfolding find_rule
missing = refl
