-- ===== src/Rules/Table/Laws.antt =====
-- internal/router/rulesstore.go: the rules table as a keyed store.
use aegis_go.Prelude.{
  ℕ, ◌+◌, ◌≡◌, refl, Bool, true, false, String, eq_iff, List, [], ◌∷◌, ◌++◌, Option, none, some,
  map, any, arith, Bool-cases, inl, inr, if◌then◌else◌,
}
use aegis_go.Rules.{RuleDef, RuleRow}
use aegis_go.Rules.Seeded.{seeded}
use aegis_go.Rules.Table.{
  Db, named, find_rule, insert_or_ignore, select_enabled, exec_rules, seed_row, seed_rules,
  activate, load_rules, or_seed, seeded_or_error, and_then,
}

abbrev pub or_else {ℓ} : {A : Type ℓ} → Option A → Option A → Option A
or_else none b = b
or_else (some a) b = some a

abbrev pub only : String → RuleRow → Option RuleRow
only n r = if named n r then some r else none

pub find_rule-append :
    (n : String) (rs : List RuleRow) (r : RuleRow)
    → find_rule n (rs ++ r ∷ []) ≡ or_else (find_rule n rs) (only n r)
unfolding find_rule
find_rule-append n [] r = ground arith
find_rule-append n (x ∷ rs) r = ground (arith, find_rule-append n rs r)

pub find_rule_of_any :
    (n : String) (rs : List RuleRow)
    → any (named n) rs ≡ true
    → (x : RuleRow) × (find_rule n rs ≡ some x)
unfolding find_rule
find_rule_of_any n [] h = cc
find_rule_of_any n (x ∷ rs) h = elim (Bool-cases (named n x)) [
  | inl e ↦ (x, rw e)
  | inr e ↦ rw e (find_rule_of_any n rs (rw e at h))
]

pub find_rule-named :
    (n : String) (rs : List RuleRow) {r : RuleRow} → find_rule n rs ≡ some r → named n r ≡ true
unfolding find_rule
find_rule-named n [] h = cc
find_rule-named n (x ∷ rs) h = elim (Bool-cases (named n x)) [
  | inl e ↦ ground (arith, h, e)
  | inr e ↦ find_rule-named n rs (rw e at h)
]

-- An insertion adds a row under a fresh name only, and changes no other answer.
pub find_rule-insert_or_ignore :
    (n : String) (r : RuleRow) (rs : List RuleRow)
    → find_rule n (insert_or_ignore r rs) ≡ or_else (find_rule n rs) (only n r)
unfolding insert_or_ignore
find_rule-insert_or_ignore n r rs = elim (Bool-cases (any (named r.def.name) rs)) [
  | inr e ↦ rw e (find_rule-append n rs r)
  | inl e ↦ rw e (elim (Bool-cases (named n r)) [
    | inr other ↦ ground (arith, other)
    | inl same ↦
        let (x, found) = find_rule_of_any r.def.name rs e in
        ground (arith, found, same, (eq_iff r.def.name n).0 same)
  ])
]

-- `name` is the primary key: no two rows share one.
abbrev pub IsKeyed : List RuleRow → Type 0
IsKeyed [] = Unit {0}
IsKeyed (r ∷ rs) = (any (named r.def.name) rs ≡ false) × IsKeyed rs

any-append_fresh :
    (n : String) (rs : List RuleRow) (r : RuleRow)
    → any (named n) rs ≡ false
    → named n r ≡ false
    → any (named n) (rs ++ r ∷ []) ≡ false
any-append_fresh n [] r h k = ground arith
any-append_fresh n (x ∷ rs) r h k = ground (arith, any-append_fresh n rs r)

pub append-IsKeyed :
    (rs : List RuleRow) (r : RuleRow)
    → IsKeyed rs
    → any (named r.def.name) rs ≡ false
    → IsKeyed (rs ++ r ∷ [])
append-IsKeyed [] r k h = (refl, tt)
append-IsKeyed (x ∷ rs) r k h = (
  any-append_fresh x.def.name rs r k.0
      (ground (arith, eq_iff r.def.name x.def.name, eq_iff x.def.name r.def.name)),
  append-IsKeyed rs r k.1 (ground arith),
)

insert_or_ignore-IsKeyed :
    (r : RuleRow) (rs : List RuleRow) → IsKeyed rs → IsKeyed (insert_or_ignore r rs)
unfolding insert_or_ignore
insert_or_ignore-IsKeyed r rs k = elim (Bool-cases (any (named r.def.name) rs)) [
  | inl e ↦ rw e k
  | inr e ↦ rw e (append-IsKeyed rs r k e)
]

exec_rules-IsKeyed :
    (ok : ℕ → Bool) (f : List RuleRow → List RuleRow) (db : Db)
    → IsKeyed db.rules
    → IsKeyed (f db.rules)
    → IsKeyed (exec_rules ok f db).1.rules
unfolding exec_rules
exec_rules-IsKeyed ok f db k h = elim (Bool-cases (ok db.calls)) [ inl e ↦ rw e h | inr e ↦ rw e k ]

and_then-IsKeyed :
    (r : Bool × Db) (next : Db → Bool × Db)
    → IsKeyed r.1.rules
    → ((db : Db) → IsKeyed db.rules → IsKeyed (next db).1.rules)
    → IsKeyed (and_then r next).1.rules
and_then-IsKeyed (true, db) next k h = h db k
and_then-IsKeyed (false, db) next k h = k

seed_rules-IsKeyed :
    (ok : ℕ → Bool) (ds : List RuleDef) (db : Db)
    → IsKeyed db.rules
    → IsKeyed (seed_rules ok ds db).1.rules
unfolding seed_rules
seed_rules-IsKeyed ok [] db k = k
seed_rules-IsKeyed ok (d ∷ ds) db k =
    and_then-IsKeyed (exec_rules ok (insert_or_ignore (seed_row d)) db) (seed_rules ok ds)
      (exec_rules-IsKeyed ok (insert_or_ignore (seed_row d)) db k
        (insert_or_ignore-IsKeyed (seed_row d) db.rules k))
      (λ db' k'. seed_rules-IsKeyed ok ds db' k')

seeded_or_error-db : (r : Bool × Db) → (seeded_or_error r).1 ≡ r.1
seeded_or_error-db (true, db) = refl
seeded_or_error-db (false, db) = refl

or_seed-IsKeyed :
    (ok : ℕ → Bool) (ds : List RuleDef) (db : Db)
    → IsKeyed db.rules
    → IsKeyed (or_seed ok ds db).1.rules
or_seed-IsKeyed ok (d ∷ ds) db k = k
or_seed-IsKeyed ok [] db k =
    rw (seeded_or_error-db (seed_rules ok seeded db)) (seed_rules-IsKeyed ok seeded db k)

load_rules-IsKeyed :
    (ok : ℕ → Bool) (db : Db) → IsKeyed db.rules → IsKeyed (load_rules ok db).1.rules
unfolding load_rules
load_rules-IsKeyed ok db k = elim (Bool-cases (ok db.calls)) [
  | inl e ↦ rw e (or_seed-IsKeyed ok (select_enabled db.rules) _ k)
  | inr e ↦ rw e k
]

-- While some rule is enabled, exactly the enabled ones are live, and the table is not touched.
pub load_rules_enabled :
    (ok : ℕ → Bool) (db : Db) {d : RuleDef} {ds : List RuleDef}
    → ok db.calls ≡ true
    → select_enabled db.rules ≡ d ∷ ds
    → load_rules ok db ≡ (some (d ∷ ds), record db { calls = db.calls + 1 })
unfolding load_rules
load_rules_enabled ok db h e = rw (h, e) refl

-- The table after every seed has been offered to it.
abbrev with_seeds : List RuleDef → List RuleRow → List RuleRow
with_seeds [] rs = rs
with_seeds (d ∷ ds) rs = with_seeds ds (insert_or_ignore (seed_row d) rs)

seed_rules_all :
    (ok : ℕ → Bool) (ds : List RuleDef) (db : Db)
    → ((n : ℕ) → ok n ≡ true)
    → ((seed_rules ok ds db).0 ≡ true) × ((seed_rules ok ds db).1.rules ≡ with_seeds ds db.rules)
unfolding seed_rules exec_rules
seed_rules_all ok [] db h = (refl, refl)
seed_rules_all ok (d ∷ ds) db h = rw (h db.calls) (seed_rules_all ok ds _ h)

find_rule-with_seeds :
    (ds : List RuleDef) (rs : List RuleRow) (n : String) {r : RuleRow}
    → find_rule n rs ≡ some r
    → find_rule n (with_seeds ds rs) ≡ some r
find_rule-with_seeds [] rs n h = h
find_rule-with_seeds (d ∷ ds) rs n h =
    find_rule-with_seeds ds (insert_or_ignore (seed_row d) rs) n
      (rw (find_rule-insert_or_ignore n (seed_row d) rs, h) refl)

seeded_or_error_eq :
    (r : Bool × Db) → r.0 ≡ true → seeded_or_error r ≡ (some (map activate seeded), r.1)
seeded_or_error_eq (true, db) h = refl
seeded_or_error_eq (false, db) h = cc

-- With every statement accepted and no enabled rule, the seeds go live, also those that the
-- operator had disabled, whose rows stay as they were.
load_rules_none_enabled :
    (ok : ℕ → Bool) (db : Db)
    → ((n : ℕ) → ok n ≡ true)
    → select_enabled db.rules ≡ []
    → ((load_rules ok db).0 ≡ some (map activate seeded))
      × ((n : String) (r : RuleRow)
          → find_rule n db.rules ≡ some r
          → find_rule n (load_rules ok db).1.rules ≡ some r)
unfolding load_rules
load_rules_none_enabled ok db h e =
    let sent = record db { calls = db.calls + 1 } in
    let (done, tab) = seed_rules_all ok seeded sent h in
    rw (h db.calls, e, seeded_or_error_eq (seed_rules ok seeded sent) done)
      (refl, λ n r found. rw tab (find_rule-with_seeds seeded db.rules n found))
