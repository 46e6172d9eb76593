-- ===== src/Rules/Reconcile.antt =====
-- internal/router/reconcile.go: seeds of a newer build reach a table of an older one.
pub mod Laws
use aegis_go.Prelude.{
  ℕ, ◌+◌, Bool, true, false, ◌&&◌, String, str_eq, List, [], ◌∷◌, ◌++◌, Option, none, some,
  if◌then◌else◌,
}
use aegis_go.Rules.{RuleDef, RuleRow, rule_active}
use aegis_go.Rules.Seeded.{seeded}
use aegis_go.Rules.Table.{Db, find_rule, insert_or_ignore, exec_rules}

-- The two slices that the function builds up.
pub record Report : Type 0 where
  pub inserted : List String
  pub shadowed : List String

abbrev pub is_live : RuleRow → Bool
is_live r = str_eq r.def.state rule_active && r.enabled

abbrev pub new_row : RuleDef → RuleRow
new_row d = record { def = d; enabled = true }

abbrev pub add_inserted : String → Report → Report
add_inserted n rep = record rep { inserted = rep.inserted ++ n ∷ [] }

abbrev pub add_shadowed : String → Report → Report
add_shadowed n rep = record rep { shadowed = rep.shadowed ++ n ∷ [] }

-- After an insertion: an error ends the loop with what was reported so far.
abbrev pub after_insert :
    Bool × Db → Report → String → (Report → Db → Report × Bool × Db) → Report × Bool × Db
after_insert (true, db) rep n next = next (add_inserted n rep) db
after_insert (false, db) rep n next = (rep, false, db)

-- One round: `found` is the row that the table held for the name before the loop.
abbrev reconcile_one :
    (ℕ → Bool)
    → Option RuleRow
    → RuleDef
    → Report
    → Db
    → (Report → Db → Report × Bool × Db)
    → Report × Bool × Db
reconcile_one ok none d rep db next =
    after_insert (exec_rules ok (insert_or_ignore (new_row d)) db) rep d.name next
reconcile_one ok (some r) d rep db next =
    next (if is_live r then rep else add_shadowed d.name rep) db

unfoldable pub reconcile_loop :
    (ℕ → Bool) → List RuleRow → List RuleDef → Report → Db → Report × Bool × Db
unfolding exec_rules
reconcile_loop ok existing [] rep db = (rep, true, db)
reconcile_loop ok existing (d ∷ ds) rep db =
    reconcile_one ok (find_rule d.name existing) d rep db (reconcile_loop ok existing ds)

abbrev pub or_seeded : List RuleDef → List RuleDef
or_seeded [] = seeded
or_seeded (d ∷ ds) = d ∷ ds

unfoldable pub reconcile_seeded : (ℕ → Bool) → List RuleDef → Db → Report × Bool × Db
unfolding reconcile_loop
reconcile_seeded ok defs db =
    let sent = record db { calls = db.calls + 1 } in
    let empty : Report = record { inserted = []; shadowed = [] } in
    if ok db.calls
    then reconcile_loop ok db.rules (or_seeded defs) empty sent
    else (empty, false, sent)
