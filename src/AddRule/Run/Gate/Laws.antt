-- ===== src/AddRule/Run/Gate/Laws.antt =====
-- internal/app/addrulegate.go and registerrulesgate.go (Handle): what a chat's text can do to the
-- ledger, the table and the router.
use aegis_go.Prelude.{ℕ, ◌≤◌, ◌≡◌, refl, true, false, String, List, some, ◌⊎◌, inl, inr, Bool-cases}
use aegis_go.Prelude.Result.{Result, ok, err}
use aegis_go.Rules.{Text, chat_addable}
use aegis_go.Approvals.{Ledger}
use aegis_go.Approvals.Laws.{IsValid}
use aegis_go.Approvals.Gate.{Tick}
use aegis_go.Approvals.Gate.Laws.Faithful.{IsFaithful, run_gated-IsFaithful}
use aegis_go.AddRule.{Spec, ParseError, parse_add_rule, parse_register_rules}
use aegis_go.AddRule.Run.{World, RuleError, refused, not_addable}
use aegis_go.AddRule.Run.Gate.{
  Door, Answered, rejected, gated, add_action, batch_action, handle_spec, handle_add_rule,
  handle_specs, handle_register_rules,
}

-- Why a text is refused: it does not parse, or its tool is not one that chats may add.
abbrev IsRefusal : Door → Result ParseError Spec → RuleError → Type 0
IsRefusal d parsed e =
    ((p : ParseError) × (parsed ≡ err p) × (e ≡ refused p))
    ⊎ ((s : Spec) × (parsed ≡ ok s)
        × (chat_addable (d.string s.tool) ≡ false)
        × (e ≡ not_addable (d.string s.tool)))

-- A refused text changes nothing; any other goes through the gate with the request it stands for.
abbrev pub IsGuarded :
    (d : Door) (payload reason : Spec → String)
    → Result ParseError Spec
    → Ledger
    → World
    → Answered × Ledger × World
    → Type 0
IsGuarded d payload reason parsed l w (rejected e, l', w') =
    (l' ≡ l) × (w' ≡ w) × IsRefusal d parsed e
IsGuarded d payload reason parsed l w (gated g, l', w') =
    (s : Spec) × (parsed ≡ ok s)
    × (chat_addable (d.string s.tool) ≡ true)
    × IsFaithful (add_action d s) "add_rule" (payload s) (reason s) l.next_id w (g, l', w')

abbrev IsGuardedBatch :
    (d : Door) (payload reason : List Spec → String)
    → Result ParseError (List Spec)
    → Ledger
    → World
    → Answered × Ledger × World
    → Type 0
IsGuardedBatch d payload reason parsed l w (rejected e, l', w') =
    (l' ≡ l) × (w' ≡ w) × (p : ParseError) × (parsed ≡ err p) × (e ≡ refused p)
IsGuardedBatch d payload reason parsed l w (gated g, l', w') =
    (ss : List Spec) × (parsed ≡ ok ss)
    × IsFaithful (batch_action d ss) "register_rules" (payload ss) (reason ss) l.next_id w
        (g, l', w')

module _ (d : Door) (ticks : ℕ → Tick) (now : Text) (l : Ledger) (w : World) where
  handle_spec-IsGuarded :
      (payload reason : Spec → String) (parsed : Result ParseError Spec)
      → 1 ≤ d.config.poll_interval
      → IsValid l
      → (out : Answered × Ledger × World) × (handle_spec d payload reason ticks now parsed l w
          ≡ some out)
        × IsGuarded d payload reason parsed l w out
  unfolding handle_spec
  handle_spec-IsGuarded payload reason (err e) step v = (_, refl, (refl, refl, inl (e, refl, refl)))
  handle_spec-IsGuarded payload reason (ok s) step v =
      elim (Bool-cases (chat_addable (d.string s.tool))) [
        | inr e ↦ rw e (_, refl, (refl, refl, inr (s, refl, e, refl)))
        | inl e ↦
            let ((g, l', w'), returned, faithful) =
              run_gated-IsFaithful (add_action d s) "add_rule" (payload s) (reason s) w ticks now l
                step v in
            rw (e, returned) ((gated g, l', w'), refl, (s, refl, e, faithful))
      ]

  handle_specs-IsGuarded :
      (payload reason : List Spec → String) (parsed : Result ParseError (List Spec))
      → 1 ≤ d.config.poll_interval
      → IsValid l
      → (out : Answered × Ledger × World) × (handle_specs d payload reason ticks now parsed l w
          ≡ some out)
        × IsGuardedBatch d payload reason parsed l w out
  unfolding handle_specs
  handle_specs-IsGuarded payload reason (err e) step v = (_, refl, (refl, refl, e, refl, refl))
  handle_specs-IsGuarded payload reason (ok ss) step v =
      let ((g, l', w'), returned, faithful) =
        run_gated-IsFaithful (batch_action d ss) "register_rules" (payload ss) (reason ss) w ticks
          now l step v in
      rw returned ((gated g, l', w'), refl, (ss, refl, faithful))

  -- With a positive poll interval and a ledger whose ids are keys, /addrule returns. Either it is
  -- refused and nothing changes, because the text does not parse, or because it parses and chats
  -- may not add its tool; or the text parses, chats may add its tool, and the gate ran: the rule is
  -- written only while the ledger holds an approved row with exactly its request.
  pub handle_add_rule-IsGuarded :
      (payload reason : Spec → String) (text : Text)
      → 1 ≤ d.config.poll_interval
      → IsValid l
      → (out : Answered × Ledger × World) × (handle_add_rule d payload reason ticks now text l w
          ≡ some out)
        × IsGuarded d payload reason (parse_add_rule d.checks text) l w out
  unfolding handle_add_rule
  handle_add_rule-IsGuarded payload reason text step v =
      handle_spec-IsGuarded payload reason (parse_add_rule d.checks text) step v

  pub handle_register_rules-IsGuarded :
      (payload reason : List Spec → String) (text : Text)
      → 1 ≤ d.config.poll_interval
      → IsValid l
      → (out : Answered × Ledger × World) × (handle_register_rules d payload reason ticks now text l
            w
          ≡ some out)
        × IsGuardedBatch d payload reason (parse_register_rules d.checks text) l w out
  unfolding handle_register_rules
  handle_register_rules-IsGuarded payload reason text step v =
      handle_specs-IsGuarded payload reason (parse_register_rules d.checks text) step v
