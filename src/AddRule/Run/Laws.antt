-- ===== src/AddRule/Run/Laws.antt =====
-- internal/app/addrulegate.go and registerrulesgate.go (Run): what a write leaves in the table and in
-- the router, on every branch.
use aegis_go.Prelude.{
  ℕ, suc, ◌+◌, ◌≤◌, ◌≡◌, ◌≢◌, refl, sym, ap, subst, ◌∙◌, Bool, true, false, List, [], ◌∷◌, ◌++◌,
  Option, none, some, map, any, take, length, String, arith, ◌⊎◌, inl, inr, Bool-cases,
}
use aegis_go.Prelude.Result.{Result, ok, err}
use aegis_go.Rules.{Text, RuleDef, RuleRow, chat_addable}
use aegis_go.Rules.Table.{Db, named, select_enabled, exec_rules, load_rules}
use aegis_go.Rules.Table.Laws.{load_rules_enabled}
use aegis_go.Router.{Regexp, Toolset, Router, RouterError, swap}
use aegis_go.Router.Reload.{swap_cases}
use aegis_go.AddRule.{Spec}
use aegis_go.AddRule.Run.{
  RuleError, manual_rule, overwrite, upsert, World, inserted, insert_rule, insert_all, loaded_in,
  swapped_in, and_insert, run_add_rule, run_register_rules,
}

abbrev is_enabled : RuleRow → Bool
is_enabled r = r.enabled

select_enabled_some :
    (rs : List RuleRow)
    → any is_enabled rs ≡ true
    → (d : RuleDef) × (ds : List RuleDef) × (select_enabled rs ≡ d ∷ ds)
unfolding select_enabled
select_enabled_some [] h = cc
select_enabled_some (r ∷ rs) h = elim (Bool-cases r.enabled) [
  | inl e ↦ (r.def, select_enabled rs, rw e)
  | inr e ↦ rw e (select_enabled_some rs (rw e at h))
]

overwrite_enabled :
    (d : RuleDef) (rs : List RuleRow)
    → any (named d.name) rs ≡ true
    → any is_enabled (map (overwrite d) rs) ≡ true
overwrite_enabled d [] h = cc
overwrite_enabled d (r ∷ rs) h = elim (Bool-cases (named d.name r)) [
  | inl e ↦ rw e
  | inr e ↦ elim (Bool-cases r.enabled) [
    | inl w ↦ rw (e, w)
    | inr w ↦ rw (e, w) (overwrite_enabled d rs (rw e at h))
  ]
]

append_enabled :
    (rs : List RuleRow) (d : RuleDef)
    → any is_enabled (rs ++ record { def = d; enabled = true } ∷ []) ≡ true
append_enabled [] d = refl
append_enabled (r ∷ rs) d = elim (Bool-cases r.enabled) [
  | inl e ↦ rw e
  | inr e ↦ rw e (append_enabled rs d)
]

upsert_enabled : (d : RuleDef) (rs : List RuleRow) → any is_enabled (upsert d rs) ≡ true
unfolding upsert
upsert_enabled d rs = elim (Bool-cases (any (named d.name) rs)) [
  | inl e ↦ rw e (overwrite_enabled d rs e)
  | inr e ↦ rw e (append_enabled rs d)
]

-- The table after the upserts of some specs.
abbrev pub upserts : (Text → String) → List Spec → List RuleRow → List RuleRow
upserts string [] rs = rs
upserts string (s ∷ ss) rs = upserts string ss (upsert (manual_rule string s) rs)

upserts_enabled :
    (string : Text → String) (ss : List Spec) (rs : List RuleRow)
    → any is_enabled rs ≡ true
    → any is_enabled (upserts string ss rs) ≡ true
upserts_enabled string [] rs h = h
upserts_enabled string (s ∷ ss) rs h =
    upserts_enabled string ss _ (upsert_enabled (manual_rule string s) rs)

-- One write: done, or refused or failed with the table as it was.
abbrev Wrote : (Text → String) → Spec → List RuleRow → Option RuleError × Db → Type 0
Wrote string s rs (e, db) =
    ((e ≡ none) × (db.rules ≡ upsert (manual_rule string s) rs))
    ⊎ ((x : RuleError) × (e ≡ some x) × (db.rules ≡ rs))

-- The loop over the specs: all of them, or those before the first that fails.
abbrev Progress : (Text → String) → List Spec → List RuleRow → Option RuleError × Db → Type 0
Progress string ss rs (e, db) =
    (k : ℕ) × (db.rules ≡ upserts string (take k ss) rs)
    × (((e ≡ none) × (take k ss ≡ ss)) ⊎ ((x : RuleError) × (e ≡ some x) × (k ≤ length ss)))

module _ (verdict : ℕ → Bool) (string : Text → String) where
  insert_rule-Wrote :
      (s : Spec) (db : Db) → Wrote string s db.rules (insert_rule verdict string s db)
  unfolding insert_rule exec_rules
  insert_rule-Wrote s db = elim (Bool-cases (chat_addable (string s.tool))) [
    | inr e ↦ rw e (inr (_, refl, refl))
    | inl e ↦ elim (Bool-cases (verdict db.calls)) [
      | inl w ↦ rw (e, w) (inl (refl, refl))
      | inr w ↦ rw (e, w) (inr (_, refl, refl))
    ]
  ]

  and_insert-Progress :
      (s : Spec) (ss : List Spec) (rs : List RuleRow) (m : Option RuleError × Db)
      → Wrote string s rs m
      → ((db : Db) → Progress string ss db.rules (insert_all verdict string ss db))
      → Progress string (s ∷ ss) rs (and_insert verdict string m (insert_all verdict string ss))
  and_insert-Progress s ss rs (none, db) (inr (x, e, _)) next = cc
  and_insert-Progress s ss rs (some y, db) (inl (e, _)) next = cc
  and_insert-Progress s ss rs (some y, db) (inr (x, e, same)) next =
      (0, same, inr (y, refl, omega arith))
  and_insert-Progress s ss rs (none, db) (inl (_, done)) next =
      let (k, rows, rest) = next db in
      (
        suc k,
        rows ∙ ap (upserts string (take k ss)) done,
        elim rest [
          | inl (e, whole) ↦ inl (e, ap (◌∷◌ s) whole)
          | inr (x, e, within) ↦ inr (x, e, omega (arith, within))
        ],
      )

  insert_all-Progress :
      (ss : List Spec) (db : Db) → Progress string ss db.rules (insert_all verdict string ss db)
  unfolding insert_all
  insert_all-Progress [] db = (0, refl, inl (refl, refl))
  insert_all-Progress (s ∷ ss) db =
      and_insert-Progress s ss db.rules (insert_rule verdict string s db) (insert_rule-Wrote s db)
        (insert_all-Progress ss)

-- After the inserts: the enabled rules of the table are live, or the router is as it was.
abbrev pub Landed : Router → List RuleRow → Result RuleError ℕ × World → Type 0
Landed r rows (res, (r', db)) =
    (db.rules ≡ rows)
    × (((res ≡ ok (length (select_enabled rows)))
          × (map (λ c. c.def) r'.rules ≡ select_enabled rows))
        ⊎ ((e : RuleError) × (res ≡ err e) × (r' ≡ r)))

module _ (engine : Regexp) (toolset : Toolset) (verdict : ℕ → Bool) (string : Text → String) where
  load_rules_failed :
      (db : Db)
      → verdict db.calls ≡ false
      → load_rules verdict db ≡ (none, record db { calls = db.calls + 1 })
  unfolding load_rules
  load_rules_failed db e = rw e

  and_insert_nothing :
      (m : Option RuleError × Db) → and_insert verdict string m (λ db. (none, db)) ≡ m
  and_insert_nothing (none, db) = refl
  and_insert_nothing (some e, db) = refl

  swapped_in-Landed :
      (r : Router) (db : Db) (defs : List RuleDef) (o : Option RouterError × Router)
      → select_enabled db.rules ≡ defs
      → ((o.0 ≡ none) × (map (λ c. c.def) o.1.rules ≡ defs)) ⊎ ((o.0 ≢ none) × (o.1 ≡ r))
      → Landed r db.rules (swapped_in engine toolset verdict string (length defs) db o)
  swapped_in-Landed r db defs (none, r') e (inl (_, live)) =
      (refl, inl (ap (λ ds. ok (length ds)) (sym e), live ∙ sym e))
  swapped_in-Landed r db defs (none, r') e (inr (some', _)) = absurd (some' refl)
  swapped_in-Landed r db defs (some x, r') e (inl (h, _)) = cc
  swapped_in-Landed r db defs (some x, r') e (inr (_, same)) = (refl, inr (_, refl, same))

  router_cases :
      (defs : List RuleDef) (r : Router)
      → let (e, r') = swap engine toolset defs r in
        ((e ≡ none) × (map (λ c. c.def) r'.rules ≡ defs)) ⊎ ((e ≢ none) × (r' ≡ r))
  router_cases defs r = elim (swap_cases engine toolset defs r) [
    | inl (e, live, _) ↦ inl (e, live)
    | inr w ↦ inr w
  ]

  loaded_in-Landed :
      (r : Router) (db : Db)
      → any is_enabled db.rules ≡ true
      → Landed r db.rules (loaded_in engine toolset verdict string r (load_rules verdict db))
  loaded_in-Landed r db h = elim (Bool-cases (verdict db.calls)) [
    | inr e ↦ rw (load_rules_failed db e) (refl, inr (_, refl, refl))
    | inl e ↦
        let (d, ds, some_rule) = select_enabled_some db.rules h in
        rw (load_rules_enabled verdict db e some_rule) (
          swapped_in-Landed r _ (d ∷ ds) (swap engine toolset (d ∷ ds) r) some_rule
            (router_cases (d ∷ ds) r))
  ]

  inserted-Landed :
      (s : Spec) (ss : List Spec) (r : Router) (db : Db) (m : Option RuleError × Db)
      → Progress string (s ∷ ss) db.rules m
      → (k : ℕ) × (take k (s ∷ ss) ≡ s ∷ ss
          ⊎ ((x : RuleError) × ((inserted engine toolset verdict string r m).0 ≡ err x)))
        × Landed r
            (upserts string (take k (s ∷ ss)) db.rules)
            (inserted engine toolset verdict string r m)
  inserted-Landed s ss r db (some y, db') (k, rows, inl (e, _)) = cc
  inserted-Landed s ss r db (none, db') (k, rows, inr (x, e, _)) = cc
  inserted-Landed s ss r db (some y, db') (k, rows, inr (x, e, _)) =
      (k, inr (y, refl), (rows, inr (y, refl, refl)))
  inserted-Landed s ss r db (none, db') (k, rows, inl (_, whole)) =
      let all : db'.rules ≡ upserts string (s ∷ ss) db.rules =
        rows ∙ ap (λ l. upserts string l db.rules) whole in
      let enabled : any is_enabled db'.rules ≡ true =
        ap (any is_enabled) all
        ∙ upserts_enabled string ss _ (upsert_enabled (manual_rule string s) db.rules) in
      (
        k,
        inl whole,
        subst (λ t. Landed r t (loaded_in engine toolset verdict string r (load_rules verdict db')))
            rows (loaded_in-Landed r db' enabled),
      )

  -- /addrule is the batch of one rule.
  pub run_add_rule-is-batch :
      (s : Spec) (w : World)
      → run_add_rule engine toolset verdict string s w
        ≡ run_register_rules engine toolset verdict string (s ∷ []) w
  unfolding run_add_rule run_register_rules insert_all
  run_add_rule-is-batch s (r, db) =
      ap (inserted engine toolset verdict string r)
        (sym (and_insert_nothing (insert_rule verdict string s db)))

  -- Registering a batch leaves the table with the upserts of all its rules, or of the first few and
  -- an error; and then either the call reports the number of the enabled rules and exactly these
  -- are live, in order, or it reports an error and the live rules are as they were.
  pub run_register_rules_lands :
      (s : Spec) (ss : List Spec) (r : Router) (db : Db)
      → (k : ℕ) × (take k (s ∷ ss) ≡ s ∷ ss
          ⊎ ((x : RuleError) × ((run_register_rules engine toolset verdict string
                  (s ∷ ss)
                  (r, db)).0
                ≡ err x)))
        × Landed r
            (upserts string (take k (s ∷ ss)) db.rules)
            (run_register_rules engine toolset verdict string (s ∷ ss) (r, db))
  unfolding run_register_rules
  run_register_rules_lands s ss r db =
      inserted-Landed s ss r db (insert_all verdict string (s ∷ ss) db)
        (insert_all-Progress verdict string (s ∷ ss) db)
