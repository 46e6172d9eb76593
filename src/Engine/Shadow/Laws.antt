-- ===== src/Engine/Shadow/Laws.antt =====
-- internal/engine/engine.go: the lifecycle of a rule as its comparisons drive it.
use aegis_go.Prelude.{
  ℕ, zero, suc, ◌+◌, ◌≤◌, ◌≡◌, ◌≢◌, refl, ◌∙◌, ap, Bool, true, false, String, eq_refl, List, [],
  ◌∷◌, some, map, keep, take, min, length, length-take, arith, if◌then◌else◌, leb, Bool-cases,
  Option-cases, eq_iff, leb→le, inl, inr, All,
}
use mathlib.Core.Option
use aegis_go.Prelude.Result.{ok}
use aegis_go.Rules.{Text, RuleRow, rule_active, rule_demoted}
use aegis_go.Rules.Table.{Db, ShadowRow, find_rule}
use aegis_go.Rules.Table.Laws.{find_rule-named}
use aegis_go.Rules.Lifecycle.{
  record_shadow, shadow_streak, set_rule_state, streak_of, put_state, streak_limit, of_rule,
  leading_agreed,
}
use aegis_go.Rules.Lifecycle.Laws.{streak-record, streak-le, find_rule-put_state}
use aegis_go.Router.{Decision}
use aegis_go.Confidence.{contains}
use aegis_go.Engine.{World, Ctx, Env, Response, tool_names}
use aegis_go.Engine.Shadow.{compare_shadow, comparison, evaluate_lifecycle, promote}

-- The rules table that a comparison leaves, from the streak before it.
abbrev rules_after : Env → String → Bool → ℕ → List RuleRow → List RuleRow
rules_after env rule agreed streak rs =
    if agreed
    then (if leb env.promote_after (min streak_limit (streak + 1))
        then map (put_state rule rule_active true) rs
        else rs)
    else map (put_state rule rule_demoted false) rs

abbrev sent : Db → Db
sent db = record db { calls = db.calls + 1 }

set_rule_state_ok :
    (verdict : ℕ → Bool) (rule state : String) (enabled : Bool) (db : Db)
    → verdict db.calls ≡ true
    → (set_rule_state verdict rule state enabled db).1.rules
      ≡ map (put_state rule state enabled) db.rules
unfolding set_rule_state
set_rule_state_ok verdict rule state enabled db h = rw h refl

shadow_streak_ok :
    (verdict : ℕ → Bool) (rule : String) (db : Db)
    → verdict db.calls ≡ true
    → shadow_streak verdict rule db ≡ (some (streak_of rule db.shadow_events), sent db)
unfolding shadow_streak
shadow_streak_ok verdict rule db h = rw h refl

record_shadow_ok :
    (verdict : ℕ → Bool) (row : ShadowRow) (db : Db)
    → verdict db.calls ≡ true
    → (record_shadow verdict row db).1 ≡ record (sent db) { shadow_events = row ∷ db.shadow_events }
unfolding record_shadow
record_shadow_ok verdict row db h = rw h refl

promote_rules :
    (env : Env) (rule : String) (streak : ℕ) (db : Db)
    → env.verdict db.calls ≡ true
    → (promote env rule (some streak) db).rules ≡ (
        if leb env.promote_after streak
        then map (put_state rule rule_active true) db.rules
        else db.rules)
promote_rules env rule streak db h = elim (Bool-cases (leb env.promote_after streak)) [
  | inl e ↦ rw e (set_rule_state_ok env.verdict rule rule_active true db h)
  | inr e ↦ rw e refl
]

evaluate_lifecycle_rules :
    (env : Env) (rule : String) (agreed : Bool) (db : Db)
    → ((n : ℕ) → env.verdict n ≡ true)
    → (evaluate_lifecycle env rule agreed db).rules ≡ (
        if agreed
        then (if leb env.promote_after (streak_of rule db.shadow_events)
            then map (put_state rule rule_active true) db.rules
            else db.rules)
        else map (put_state rule rule_demoted false) db.rules)
unfolding evaluate_lifecycle
evaluate_lifecycle_rules env rule false db h =
    set_rule_state_ok env.verdict rule rule_demoted false db (h db.calls)
evaluate_lifecycle_rules env rule true db h =
    rw (shadow_streak_ok env.verdict rule db (h db.calls), evaluate_lifecycle)
      (promote_rules env rule (streak_of rule db.shadow_events) (sent db) (h (db.calls + 1)))

rules_after_agreed :
    (env : Env) (rule : String) (row : ShadowRow) (db : Db)
    → row.rule_name ≡ rule
    → (if row.agreed
        then (if leb env.promote_after (streak_of rule (row ∷ db.shadow_events))
            then map (put_state rule rule_active true) db.rules
            else db.rules)
        else map (put_state rule rule_demoted false) db.rules)
      ≡ rules_after env rule row.agreed (streak_of rule db.shadow_events) db.rules
rules_after_agreed env rule row db named =
    rw (streak-record rule row db.shadow_events, named, eq_refl rule)
      (elim (Bool-cases row.agreed) [ inl e ↦ rw e refl | inr e ↦ rw e refl ])

-- With every statement accepted and a model that answers, a comparison demotes and disables the
-- rule if the model chose other tools, activates it if this agreement completes the streak, and
-- otherwise leaves the table.
pub compare_shadow_rules :
    (env : Env) (ctx : Ctx) (d : Decision) (prompt : Text) (w : World) {resp : Response}
    → ((n : ℕ) → env.verdict n ≡ true)
    → env.has_llm ≡ true
    → env.run_text w prompt ≡ ok resp
    → (compare_shadow env ctx d prompt w).1.db.rules
      ≡ rules_after env d.rule_id
          (contains (tool_names resp) d.tool)
          (streak_of d.rule_id w.db.shadow_events)
          w.db.rules
unfolding compare_shadow
compare_shadow_rules env ctx d prompt w {resp} h on answered =
    let row = comparison ctx d resp in
    let db' = record (sent w.db) { shadow_events = row ∷ w.db.shadow_events } in
    rw (on, answered, record_shadow_ok env.verdict row w.db (h w.db.calls))
      (evaluate_lifecycle_rules env d.rule_id row.agreed db' h
        ∙ rules_after_agreed env d.rule_id row w.db refl)

abbrev pub demoted_row : RuleRow → RuleRow
demoted_row r = record r { def = record (r.def) { state = rule_demoted }; enabled = false }

put_state_same :
    (rule state : String) (enabled : Bool) (n : String) (rs : List RuleRow)
    → n ≢ rule
    → Option.map (put_state rule state enabled) (find_rule n rs) ≡ find_rule n rs
put_state_same rule state enabled n rs other = elim (Option-cases (find_rule n rs)) [
  | inl e ↦ rw e refl
  | inr (r, e) ↦
      ground (arith, e, find_rule-named n rs e, eq_iff r.def.name n, eq_iff r.def.name rule)
]

-- With every statement accepted and a model that answers, one divergence is enough: the rule is
-- demoted and disabled, and no other rule changes.
pub divergence_demotes :
    (env : Env) (ctx : Ctx) (d : Decision) (prompt : Text) (w : World) {resp : Response}
    {r : RuleRow}
    → ((n : ℕ) → env.verdict n ≡ true)
    → env.has_llm ≡ true
    → env.run_text w prompt ≡ ok resp
    → contains (tool_names resp) d.tool ≡ false
    → find_rule d.rule_id w.db.rules ≡ some r
    → let rules = (compare_shadow env ctx d prompt w).1.db.rules in
      (find_rule d.rule_id rules ≡ some (demoted_row r))
      × ((n : String) → n ≢ d.rule_id → find_rule n rules ≡ find_rule n w.db.rules)
divergence_demotes env ctx d prompt w {r = r} h on answered other found =
    rw (compare_shadow_rules env ctx d prompt w h on answered, other)
      (
        rw (find_rule-put_state d.rule_id d.rule_id rule_demoted false w.db.rules, found)
            (rw (find_rule-named d.rule_id w.db.rules found) refl),
        λ n different.
            find_rule-put_state n d.rule_id rule_demoted false w.db.rules
            ∙ put_state_same d.rule_id rule_demoted false n w.db.rules different,
      )

AllAgreed-take :
    (k : ℕ) (es : List ShadowRow) → k ≤ leading_agreed es → All (λ e. e.agreed ≡ true) (take k es)
AllAgreed-take zero es h = tt
AllAgreed-take (suc k) [] h = tt
AllAgreed-take (suc k) (e ∷ es) h = elim (Bool-cases e.agreed) [
  | inl y ↦ (y, AllAgreed-take k es (ground (arith, y)))
  | inr y ↦ absurd (ground (arith, y))
]

take-take : (k n : ℕ) (es : List ShadowRow) → k ≤ n → take k (take n es) ≡ take k es
take-take zero n es h = refl
take-take (suc k) zero es h = absurd (omega arith)
take-take (suc k) (suc n) [] h = refl
take-take (suc k) (suc n) (e ∷ es) h = ap (◌∷◌ e) (take-take k n es (omega arith))

-- The last `k` comparisons of a rule, newest first.
abbrev pub last_comparisons : ℕ → String → List ShadowRow → List ShadowRow
last_comparisons k rule es = take k (keep (of_rule rule) es)

leading-le : (es : List ShadowRow) → leading_agreed es ≤ length es
leading-le [] = omega arith
leading-le (e ∷ es) = elim (Bool-cases e.agreed) [
  | inl y ↦ rw y (omega (arith, leading-le es))
  | inr y ↦ rw y (omega arith)
]

streak_earned :
    (k : ℕ) (rule : String) (es : List ShadowRow)
    → k ≤ streak_of rule es
    → (k ≤ streak_limit)
      × (length (last_comparisons k rule es) ≡ k)
      × All (λ e. e.agreed ≡ true) (last_comparisons k rule es)
unfolding streak_of
streak_earned k rule es h =
    let bounded : k ≤ streak_limit = omega (arith, streak-le rule es) in
    (
      bounded,
      omega (
        arith,
        h,
        leading-le (take streak_limit (keep (of_rule rule) es)),
        length-take streak_limit (keep (of_rule rule) es),
        length-take k (keep (of_rule rule) es),
      ),
      rw (← take-take k streak_limit (keep (of_rule rule) es) bounded)
          (AllAgreed-take k (take streak_limit (keep (of_rule rule) es)) h),
    )

state_after :
    (env : Env) (rule : String) (agreed : Bool) (streak : ℕ) (rs : List RuleRow) {r r' : RuleRow}
    → find_rule rule rs ≡ some r
    → r.def.state ≢ rule_active
    → find_rule rule (rules_after env rule agreed streak rs) ≡ some r'
    → r'.def.state ≡ rule_active
    → (agreed ≡ true) × (env.promote_after ≤ min streak_limit (streak + 1))
state_after env rule false streak rs {r} {r'} found was found' now = ground (
  arith,
  found,
  find_rule-put_state rule rule rule_demoted false rs,
  find_rule-named rule rs found,
  eq_iff rule_demoted rule_active,
)
state_after env rule true streak rs {r} {r'} found was found' now =
    elim (Bool-cases (leb env.promote_after (min streak_limit (streak + 1)))) [
      | inl e ↦ (refl, leb→le _ _ e)
      | inr e ↦ absurd (was (ground (arith, found, rw e at found', now)))
    ]

-- With every statement accepted and a model that answers, a rule that a comparison turns active has
-- earned it: the rule has promote_after comparisons at least, this one included, the last
-- promote_after of them all agreed, and promote_after is at most the 100 rows that the streak query
-- reads.
pub promotion_earned :
    (env : Env) (ctx : Ctx) (d : Decision) (prompt : Text) (w : World) {resp : Response}
    {r r' : RuleRow}
    → ((n : ℕ) → env.verdict n ≡ true)
    → env.has_llm ≡ true
    → env.run_text w prompt ≡ ok resp
    → find_rule d.rule_id w.db.rules ≡ some r
    → r.def.state ≢ rule_active
    → find_rule d.rule_id (compare_shadow env ctx d prompt w).1.db.rules ≡ some r'
    → r'.def.state ≡ rule_active
    → (env.promote_after ≤ streak_limit)
      × (length (
            last_comparisons env.promote_after d.rule_id
              (comparison ctx d resp ∷ w.db.shadow_events))
          ≡ env.promote_after)
      × All
          (λ e. e.agreed ≡ true)
          (last_comparisons env.promote_after d.rule_id
            (comparison ctx d resp ∷ w.db.shadow_events))
promotion_earned env ctx d prompt w {resp} h on answered found was found' now =
    let row = comparison ctx d resp in
    let es = w.db.shadow_events in
    let (agreed, enough) =
      state_after env d.rule_id row.agreed (streak_of d.rule_id es) w.db.rules found was
        (rw (compare_shadow_rules env ctx d prompt w h on answered) at found') now in
    streak_earned env.promote_after d.rule_id (row ∷ es)
      (rw (streak-record d.rule_id row es, eq_refl d.rule_id) (rw agreed enough))
