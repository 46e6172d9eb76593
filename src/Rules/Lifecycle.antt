-- ===== src/Rules/Lifecycle.antt =====
-- internal/store/shadow.go: the shadow comparisons of a rule and its lifecycle state.
pub mod Laws
use aegis_go.Prelude.{
  ℕ, suc, ◌+◌, Bool, true, false, String, str_eq, List, [], ◌∷◌, Option, none, some, map, keep,
  take, if◌then◌else◌,
}
use aegis_go.Rules.{RuleRow}
use aegis_go.Rules.Table.{ShadowRow, Db, named, exec_rules}

unfoldable pub record_shadow : (ℕ → Bool) → ShadowRow → Db → Bool × Db
record_shadow ok ev db =
    let sent = record db { calls = db.calls + 1 } in
    if ok db.calls
    then (true, record sent { shadow_events = ev ∷ db.shadow_events })
    else (false, sent)

abbrev pub streak_limit : ℕ
streak_limit = 100

-- The loop over the rows: it stops at the first disagreement.
abbrev pub leading_agreed : List ShadowRow → ℕ
leading_agreed [] = 0
leading_agreed (e ∷ es) = let rest = leading_agreed es in if e.agreed then suc rest else 0

abbrev pub of_rule : String → ShadowRow → Bool
of_rule n e = str_eq e.rule_name n

-- `SELECT agreed … WHERE rule_name=? ORDER BY id DESC LIMIT 100`.
unfoldable pub streak_of : String → List ShadowRow → ℕ
streak_of rule es = leading_agreed (take streak_limit (keep (of_rule rule) es))

unfoldable pub shadow_streak : (ℕ → Bool) → String → Db → Option ℕ × Db
unfolding streak_of
shadow_streak ok rule db =
    let sent = record db { calls = db.calls + 1 } in
    if ok db.calls then (some (streak_of rule db.shadow_events), sent) else (none, sent)

abbrev pub put_state : String → String → Bool → RuleRow → RuleRow
put_state rule state enabled r =
    if named rule r
    then record r { def = record (r.def) { state = state }; enabled = enabled }
    else r

-- `UPDATE rules SET state=?, enabled=? WHERE name=?`.
unfoldable pub set_rule_state : (ℕ → Bool) → String → String → Bool → Db → Bool × Db
unfolding exec_rules
set_rule_state ok rule state enabled = exec_rules ok (map (put_state rule state enabled))
