-- ===== src/AddRule/Run/Upsert.antt =====
-- internal/app/addrulegate.go and registerrulesgate.go: the `INSERT … ON CONFLICT(name) DO UPDATE` on
-- the keyed rules table.
use aegis_go.Prelude.{
  ◌≡◌, refl, sym, ap, subst, ◌∙◌, true, false, String, str_eq, eq_iff, List, [], ◌∷◌, ◌++◌, Option,
  none, some, map, any, if◌then◌else◌, arith, inl, inr, Bool-cases,
}
use aegis_go.Rules.{RuleDef, RuleRow}
use aegis_go.Rules.Table.{named, find_rule}
use aegis_go.Rules.Table.Laws.{
  IsKeyed, append-IsKeyed, find_rule-append, find_rule-named, or_else, only, find_rule_of_any,
}
use aegis_go.AddRule.Run.{overwrite, upsert}

overwrite-name : (d : RuleDef) (r : RuleRow) (n : String) → named n (overwrite d r) ≡ named n r
overwrite-name d r n = elim (Bool-cases (named d.name r)) [ inl e ↦ rw e | inr e ↦ rw e ]

abbrev map_row : (RuleRow → RuleRow) → Option RuleRow → Option RuleRow
map_row f none = none
map_row f (some r) = some (f r)

find_rule-overwrite :
    (d : RuleDef) (n : String) (rs : List RuleRow)
    → find_rule n (map (overwrite d) rs) ≡ map_row (overwrite d) (find_rule n rs)
unfolding find_rule
find_rule-overwrite d n [] = refl
find_rule-overwrite d n (r ∷ rs) = elim (Bool-cases (named n r)) [
  | inl e ↦ rw (overwrite-name d r n, e)
  | inr e ↦ rw (overwrite-name d r n, e) (find_rule-overwrite d n rs)
]

overwrite-keeps_name : (d : RuleDef) (r : RuleRow) → (overwrite d r).def.name ≡ r.def.name
overwrite-keeps_name d r = elim (Bool-cases (named d.name r)) [ inl e ↦ rw e | inr e ↦ rw e ]

overwrite_other :
    (d : RuleDef) (r : RuleRow) (n : String)
    → named n r ≡ true
    → str_eq d.name n ≡ false
    → overwrite d r ≡ r
overwrite_other d r n h other = elim (Bool-cases (named d.name r)) [
  | inr e ↦ rw e
  | inl e ↦
      let same : d.name ≡ n = sym ((eq_iff r.def.name d.name).0 e) ∙ (eq_iff r.def.name n).0 h in
      cc ((eq_iff d.name n).1 same, other)
]

find_rule_of_none :
    (n : String) (rs : List RuleRow) → any (named n) rs ≡ false → find_rule n rs ≡ none
unfolding find_rule
find_rule_of_none n [] h = refl
find_rule_of_none n (r ∷ rs) h = elim (Bool-cases (named n r)) [
  | inl e ↦ cc (rw e at h)
  | inr e ↦ rw e (find_rule_of_none n rs (rw e at h))
]

-- The row under the upserted name: a new one, or the old one with its origin and state.
abbrev pub written : RuleDef → Option RuleRow → RuleRow
written d none = record { def = d; enabled = true }
written d (some r) = record {
  def = record {
    name = r.def.name;
    pattern = d.pattern;
    tool = d.tool;
    args_template = d.args_template;
    origin = r.def.origin;
    state = r.def.state;
  };
  enabled = true;
}

overwrite_named :
    (d : RuleDef) (r : RuleRow) → named d.name r ≡ true → overwrite d r ≡ written d (some r)
overwrite_named d r h = rw h refl

abbrev pub answer : RuleDef → String → Option RuleRow → Option RuleRow
answer d n o = if str_eq d.name n then some (written d o) else o

overwritten_answer :
    (d : RuleDef) (n : String) (rs : List RuleRow) (o : Option RuleRow)
    → any (named d.name) rs ≡ true
    → find_rule n rs ≡ o
    → map_row (overwrite d) o ≡ answer d n o
overwritten_answer d n rs none h e = elim (Bool-cases (str_eq d.name n)) [
  | inr other ↦ rw other
  | inl same ↦
      let (r, found) = find_rule_of_any d.name rs h in cc (found, e, (eq_iff d.name n).0 same)
]
overwritten_answer d n rs (some r) h e = elim (Bool-cases (str_eq d.name n)) [
  | inl same ↦
      let mine : named d.name r ≡ true =
        subst (λ k. named k r ≡ true) (sym ((eq_iff d.name n).0 same)) (find_rule-named n rs e) in
      rw same (ap some (overwrite_named d r mine))
  | inr other ↦ rw other (ap some (overwrite_other d r n (find_rule-named n rs e) other))
]

added_answer :
    (d : RuleDef) (n : String) (rs : List RuleRow) (o : Option RuleRow)
    → any (named d.name) rs ≡ false
    → find_rule n rs ≡ o
    → or_else o (only n (record { def = d; enabled = true })) ≡ answer d n o
added_answer d n rs none h e = elim (Bool-cases (str_eq d.name n)) [
  | inl same ↦ rw same
  | inr other ↦ rw other
]
added_answer d n rs (some r) h e = elim (Bool-cases (str_eq d.name n)) [
  | inr other ↦ rw other
  | inl same ↦ let none' = find_rule_of_none d.name rs h in cc (none', e, (eq_iff d.name n).0 same)
]

-- An upsert writes the row of its name and no other: a new row as given, an old one with the new
-- pattern, tool and arguments, enabled, with the name, origin and state that it had.
pub find_rule-upsert :
    (d : RuleDef) (n : String) (rs : List RuleRow)
    → find_rule n (upsert d rs) ≡ answer d n (find_rule n rs)
unfolding upsert
find_rule-upsert d n rs = elim (Bool-cases (any (named d.name) rs)) [
  | inl e ↦ rw e (find_rule-overwrite d n rs ∙ overwritten_answer d n rs (find_rule n rs) e refl)
  | inr e ↦ rw e (find_rule-append n rs _ ∙ added_answer d n rs (find_rule n rs) e refl)
]

overwrite_twice : (d : RuleDef) (r : RuleRow) → overwrite d (overwrite d r) ≡ overwrite d r
overwrite_twice d r = elim (Bool-cases (named d.name r)) [ inl e ↦ rw (e, e) | inr e ↦ rw (e, e) ]

any-overwrite :
    (d : RuleDef) (n : String) (rs : List RuleRow)
    → any (named n) (map (overwrite d) rs) ≡ any (named n) rs
any-overwrite d n [] = refl
any-overwrite d n (r ∷ rs) = rw (overwrite-name d r n, any-overwrite d n rs) refl

map-overwrite_twice :
    (d : RuleDef) (rs : List RuleRow)
    → map (overwrite d) (map (overwrite d) rs) ≡ map (overwrite d) rs
map-overwrite_twice d [] = refl
map-overwrite_twice d (r ∷ rs) = rw (overwrite_twice d r, map-overwrite_twice d rs)

overwrite-append :
    (d : RuleDef) (rs : List RuleRow) (r : RuleRow)
    → any (named d.name) rs ≡ false
    → map (overwrite d) (rs ++ r ∷ []) ≡ rs ++ overwrite d r ∷ []
overwrite-append d [] r h = refl
overwrite-append d (x ∷ rs) r h = elim (Bool-cases (named d.name x)) [
  | inl e ↦ cc (rw e at h)
  | inr e ↦ rw e (ap (◌∷◌ x) (overwrite-append d rs r (rw e at h)))
]

any-append_row :
    (n : String) (rs : List RuleRow) (r : RuleRow)
    → named n r ≡ true
    → any (named n) (rs ++ r ∷ []) ≡ true
any-append_row n [] r h = rw h
any-append_row n (x ∷ rs) r h = ground (arith, any-append_row n rs r)

-- Upserting twice is upserting once.
upsert_twice : (d : RuleDef) (rs : List RuleRow) → upsert d (upsert d rs) ≡ upsert d rs
unfolding upsert
upsert_twice d rs = elim (Bool-cases (any (named d.name) rs)) [
  | inl e ↦ rw (e, any-overwrite d d.name rs, e) (map-overwrite_twice d rs)
  | inr e ↦
      let row : RuleRow = record { def = d; enabled = true } in
      let mine : named d.name row ≡ true = (eq_iff d.name d.name).1 refl in
      rw (e, any-append_row d.name rs row mine) (overwrite-append d rs row e ∙ rw mine)
]

overwrite-IsKeyed : (d : RuleDef) (rs : List RuleRow) → IsKeyed rs → IsKeyed (map (overwrite d) rs)
overwrite-IsKeyed d [] k = tt
overwrite-IsKeyed d (r ∷ rs) k = (
  rw (overwrite-keeps_name d r) (any-overwrite d r.def.name rs ∙ k.0),
  overwrite-IsKeyed d rs k.1,
)

upsert-IsKeyed : (d : RuleDef) (rs : List RuleRow) → IsKeyed rs → IsKeyed (upsert d rs)
unfolding upsert
upsert-IsKeyed d rs k = elim (Bool-cases (any (named d.name) rs)) [
  | inl e ↦ rw e (overwrite-IsKeyed d rs k)
  | inr e ↦ rw e (append-IsKeyed rs _ k e)
]
