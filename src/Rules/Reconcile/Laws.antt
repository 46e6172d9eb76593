-- ===== src/Rules/Reconcile/Laws.antt =====
-- internal/router/reconcile.go: the table and the report of a reconciliation.
use aegis_go.Prelude.{
  ℕ, ◌+◌, ◌≡◌, refl, sym, subst, Bool, true, false, String, List, [], ◌∷◌, none, some, Bool-cases,
  Option-cases, inl, inr, if◌then◌else◌, All, eq_refl,
}
use aegis_go.Rules.{RuleDef, RuleRow, rule_active, effective_state}
use aegis_go.Rules.Table.{Db, find_rule, insert_or_ignore, exec_rules}
use aegis_go.Rules.Table.Laws.{find_rule-insert_or_ignore}
use aegis_go.Rules.Reconcile.{
  Report, is_live, new_row, add_inserted, add_shadowed, after_insert, reconcile_loop,
  reconcile_seeded, or_seeded,
}

exec_insert_keeps :
    (ok : ℕ → Bool) (row : RuleRow) (db : Db) (n : String) {r : RuleRow}
    → find_rule n db.rules ≡ some r
    → find_rule n (exec_rules ok (insert_or_ignore row) db).1.rules ≡ some r
unfolding exec_rules
exec_insert_keeps ok row db n h = elim (Bool-cases (ok db.calls)) [
  | inl e ↦ rw e (rw (find_rule-insert_or_ignore n row db.rules, h) refl)
  | inr e ↦ rw e h
]

after_insert_keeps :
    (res : Bool × Db) (rep : Report) (m n : String) {r : RuleRow}
    (next : Report → Db → Report × Bool × Db)
    → find_rule n res.1.rules ≡ some r
    → ((rep' : Report) (db : Db)
        → find_rule n db.rules ≡ some r
        → find_rule n (next rep' db).2.rules ≡ some r)
    → find_rule n (after_insert res rep m next).2.rules ≡ some r
after_insert_keeps (true, db) rep m n next h k = k (add_inserted m rep) db h
after_insert_keeps (false, db) rep m n next h k = h

reconcile_loop_keeps :
    (ok : ℕ → Bool) (existing : List RuleRow) (ds : List RuleDef) (rep : Report) (db : Db)
    (n : String) {r : RuleRow}
    → find_rule n db.rules ≡ some r
    → find_rule n (reconcile_loop ok existing ds rep db).2.rules ≡ some r
unfolding reconcile_loop
reconcile_loop_keeps ok existing [] rep db n h = h
reconcile_loop_keeps ok existing (d ∷ ds) rep db n {r} h =
    elim (Option-cases (find_rule d.name existing)) [
      | inl e ↦ rw e (
          after_insert_keeps (exec_rules ok (insert_or_ignore (new_row d)) db) rep d.name n {r = r}
            (reconcile_loop ok existing ds) (exec_insert_keeps ok (new_row d) db n h)
            (λ rep' db' k. reconcile_loop_keeps ok existing ds rep' db' n k))
      | inr (row, e) ↦ rw e (reconcile_loop_keeps ok existing ds _ db n h)
    ]

-- Whatever statement fails, a row that the table held before a reconciliation is still there, as it
-- was.
reconcile_keeps_rows :
    (ok : ℕ → Bool) (defs : List RuleDef) (db : Db) (n : String) {r : RuleRow}
    → find_rule n db.rules ≡ some r
    → find_rule n (reconcile_seeded ok defs db).2.rules ≡ some r
unfolding reconcile_seeded
reconcile_keeps_rows ok defs db n h = elim (Bool-cases (ok db.calls)) [
  | inl e ↦ rw e (reconcile_loop_keeps ok db.rules (or_seeded defs) _ _ n h)
  | inr e ↦ rw e h
]

abbrev HasRow : List RuleRow → RuleDef → Type 0
HasRow rs d = (r : RuleRow) × (find_rule d.name rs ≡ some r)

insert_or_ignore_has :
    (d : RuleDef) (rs : List RuleRow) → HasRow (insert_or_ignore (new_row d) rs) d
insert_or_ignore_has d rs = elim (Option-cases (find_rule d.name rs)) [
  | inl e ↦ (
    new_row d,
    rw (find_rule-insert_or_ignore d.name (new_row d) rs, e) (rw (eq_refl d.name) refl),
  )
  | inr (r, e) ↦ (r, rw (find_rule-insert_or_ignore d.name (new_row d) rs, e) refl)
]

abbrev sent : Db → Db
sent db = record db { calls = db.calls + 1 }

abbrev offered : RuleDef → Db → Db
offered d db = record (sent db) { rules = insert_or_ignore (new_row d) db.rules }

step_insert :
    (ok : ℕ → Bool) (existing : List RuleRow) (d : RuleDef) (ds : List RuleDef) (rep : Report)
    (db : Db)
    → find_rule d.name existing ≡ none
    → ok db.calls ≡ true
    → reconcile_loop ok existing (d ∷ ds) rep db
      ≡ reconcile_loop ok existing ds (add_inserted d.name rep) (offered d db)
unfolding reconcile_loop exec_rules
step_insert ok existing d ds rep db e good = rw (e, good) refl

step_found :
    (ok : ℕ → Bool) (existing : List RuleRow) (d : RuleDef) (ds : List RuleDef) (rep : Report)
    (db : Db) {r : RuleRow}
    → find_rule d.name existing ≡ some r
    → reconcile_loop ok existing (d ∷ ds) rep db
      ≡ reconcile_loop ok existing ds (if is_live r then rep else add_shadowed d.name rep) db
unfolding reconcile_loop
step_found ok existing d ds rep db e = rw e refl

step_failed :
    (ok : ℕ → Bool) (existing : List RuleRow) (d : RuleDef) (ds : List RuleDef) (rep : Report)
    (db : Db)
    → find_rule d.name existing ≡ none
    → ok db.calls ≡ false
    → (reconcile_loop ok existing (d ∷ ds) rep db).1 ≡ false
unfolding reconcile_loop exec_rules
step_failed ok existing d ds rep db e bad = rw (e, bad) refl

-- Read at the end, each row that `existing` held is still there.
reconcile_loop_covers :
    (ok : ℕ → Bool) (existing : List RuleRow) (ds : List RuleDef) (rep : Report) (db : Db)
    → ((n : String) (r : RuleRow) → find_rule n existing ≡ some r → find_rule n db.rules ≡ some r)
    → (reconcile_loop ok existing ds rep db).1 ≡ true
    → All (HasRow (reconcile_loop ok existing ds rep db).2.rules) ds
reconcile_loop_covers ok existing [] rep db kept h = tt
reconcile_loop_covers ok existing (d ∷ ds) rep db kept h =
    elim (Option-cases (find_rule d.name existing)) [
      | inr (row, e) ↦
          let step = step_found ok existing d ds rep db e in
          subst (λ res. All (HasRow res.2.rules) (d ∷ ds)) (sym step)
            (
              (row, reconcile_loop_keeps ok existing ds _ db d.name (kept d.name row e)),
              reconcile_loop_covers ok existing ds _ db kept (rw step at h),
            )
      | inl e ↦ elim (Bool-cases (ok db.calls)) [
        | inr bad ↦ cc (step_failed ok existing d ds rep db e bad)
        | inl good ↦
            let (row, has) = insert_or_ignore_has d db.rules in
            let step = step_insert ok existing d ds rep db e good in
            subst (λ res. All (HasRow res.2.rules) (d ∷ ds)) (sym step)
              (
                (row, reconcile_loop_keeps ok existing ds _ (offered d db) d.name has),
                reconcile_loop_covers ok existing ds _ (offered d db)
                    (λ n r old.
                      rw (find_rule-insert_or_ignore n (new_row d) db.rules, kept n r old) refl)
                    (rw step at h),
              )
      ]
    ]

-- A reconciliation that reports no error leaves a row for every seed.
reconcile_covers :
    (ok : ℕ → Bool) (defs : List RuleDef) (db : Db)
    → (reconcile_seeded ok defs db).1 ≡ true
    → All (HasRow (reconcile_seeded ok defs db).2.rules) (or_seeded defs)
unfolding reconcile_seeded
reconcile_covers ok defs db h = elim (Bool-cases (ok db.calls)) [
  | inl e ↦
      rw e (reconcile_loop_covers ok db.rules (or_seeded defs) _ _ (λ n r old. old) (rw e at h))
  | inr e ↦ cc (rw e at h)
]

abbrev empty_report : Report
empty_report = record { inserted = []; shadowed = [] }

run_fresh :
    (ok : ℕ → Bool) (d : RuleDef) (db : Db)
    → ((n : ℕ) → ok n ≡ true)
    → find_rule d.name db.rules ≡ none
    → reconcile_seeded ok (d ∷ []) db
      ≡ (add_inserted d.name empty_report, true, offered d (sent db))
unfolding reconcile_seeded reconcile_loop exec_rules
run_fresh ok d db h fresh = rw (h db.calls, fresh, h (db.calls + 1)) refl

run_found :
    (ok : ℕ → Bool) (d : RuleDef) (db : Db) {r : RuleRow}
    → ((n : ℕ) → ok n ≡ true)
    → find_rule d.name db.rules ≡ some r
    → is_live r ≡ false
    → (reconcile_seeded ok (d ∷ []) db).0.shadowed ≡ d.name ∷ []
unfolding reconcile_seeded reconcile_loop
run_found ok d db h found dead = rw (h db.calls, found, dead) refl

-- With every statement accepted, a seed with an empty state and no row yet is inserted, is live for
-- the router, and yet the next reconciliation reports it as not live.
reconcile_reports_own_row :
    (ok : ℕ → Bool) (d : RuleDef) (db : Db)
    → ((n : ℕ) → ok n ≡ true)
    → find_rule d.name db.rules ≡ none
    → d.state ≡ ""
    → let (first, fine, db') = reconcile_seeded ok (d ∷ []) db in
      (effective_state d ≡ rule_active)
      × (first.inserted ≡ d.name ∷ [])
      × ((reconcile_seeded ok (d ∷ []) db').0.shadowed ≡ d.name ∷ [])
unfolding effective_state
reconcile_reports_own_row ok d db h fresh blank =
    let found : find_rule d.name (insert_or_ignore (new_row d) db.rules) ≡ some (new_row d) =
      rw (find_rule-insert_or_ignore d.name (new_row d) db.rules, fresh)
        (rw (eq_refl d.name) refl) in
    rw (run_fresh ok d db h fresh)
      (rw blank refl, refl, run_found ok d (offered d (sent db)) h found (rw blank refl))
