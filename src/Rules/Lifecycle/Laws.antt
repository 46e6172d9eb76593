-- ===== src/Rules/Lifecycle/Laws.antt =====
-- internal/store/shadow.go: the agreement streak, and a lifecycle write on one rule.
use aegis_go.Prelude.{
  ℕ, zero, suc, ◌+◌, ◌≤◌, ◌≡◌, refl, Bool, String, List, [], ◌∷◌, map, keep, take, min, any, arith,
  Bool-cases, inl, inr, if◌then◌else◌,
}
use mathlib.Core.Option
use aegis_go.Rules.{RuleRow}
use aegis_go.Rules.Table.{ShadowRow, named, find_rule}
use aegis_go.Rules.Table.Laws.{IsKeyed}
use aegis_go.Rules.Lifecycle.{leading_agreed, of_rule, streak_of, streak_limit, put_state}

leading-take :
    (n : ℕ) (es : List ShadowRow) → leading_agreed (take n es) ≡ min n (leading_agreed es)
leading-take zero es = omega arith
leading-take (suc n) [] = omega arith
leading-take (suc n) (e ∷ es) = elim (Bool-cases e.agreed) [
  | inl y ↦ rw y (omega (arith, leading-take n es))
  | inr y ↦ rw y (omega arith)
]

-- The streak that one more comparison leaves.
abbrev streak_after : String → ShadowRow → ℕ → ℕ
streak_after rule e streak =
    if of_rule rule e then (if e.agreed then min streak_limit (streak + 1) else 0) else streak

-- A comparison of another rule leaves the streak, an agreement adds one up to the limit, and a
-- divergence ends it.
pub streak-record :
    (rule : String) (e : ShadowRow) (es : List ShadowRow)
    → streak_of rule (e ∷ es) ≡ streak_after rule e (streak_of rule es)
unfolding streak_of
streak-record rule e es = elim (Bool-cases (of_rule rule e)) [
  | inr y ↦ rw y refl
  | inl y ↦ elim (Bool-cases e.agreed) [
    | inr z ↦ rw y (rw z refl)
    | inl z ↦ rw y (
        rw z (
          omega (
            arith,
            leading-take 99 (keep (of_rule rule) es),
            leading-take 100 (keep (of_rule rule) es),
          )))
  ]
]

-- No history gives a streak above the limit of the query.
pub streak-le : (rule : String) (es : List ShadowRow) → streak_of rule es ≤ streak_limit
unfolding streak_of
streak-le rule es = omega (arith, leading-take 100 (keep (of_rule rule) es))

pub find_rule-put_state :
    (n rule state : String) (enabled : Bool) (rs : List RuleRow)
    → find_rule n (map (put_state rule state enabled) rs)
      ≡ Option.map (put_state rule state enabled) (find_rule n rs)
unfolding find_rule
find_rule-put_state n rule state enabled [] = refl
find_rule-put_state n rule state enabled (r ∷ rs) =
    ground (arith, find_rule-put_state n rule state enabled rs)

any-put_state :
    (n rule state : String) (enabled : Bool) (rs : List RuleRow)
    → any (named n) (map (put_state rule state enabled) rs) ≡ any (named n) rs
any-put_state n rule state enabled [] = refl
any-put_state n rule state enabled (r ∷ rs) = ground (arith, any-put_state n rule state enabled rs)

put_state-IsKeyed :
    (rule state : String) (enabled : Bool) (rs : List RuleRow)
    → IsKeyed rs
    → IsKeyed (map (put_state rule state enabled) rs)
put_state-IsKeyed rule state enabled [] k = tt
put_state-IsKeyed rule state enabled (r ∷ rs) k = (
  ground (arith, any-put_state r.def.name rule state enabled rs, k.0),
  put_state-IsKeyed rule state enabled rs k.1,
)
