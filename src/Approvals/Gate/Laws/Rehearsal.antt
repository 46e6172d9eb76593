-- ===== src/Approvals/Gate/Laws/Rehearsal.antt =====
-- internal/tools/hitl.go, DescribeGated: a rehearsal of the gate.
use aegis_go.Prelude.{
  ℕ, zero, suc, ◌+◌, ◌≡◌, refl, sym, ◌∙◌, String, str_eq, Option, none, some, Bool-cases, inl, inr,
  ltb,
}
use mathlib.Core.Option
use aegis_go.Prelude.Result.{Result, ok, err}
use aegis_go.Rules.{Text}
use aegis_go.Approvals.{Approval, Ledger, LedgerError, get_approval, create_approval, moves}
use aegis_go.Approvals.Gate.{
  Gate, GateOutcome, Gated, Tick, DryRun, acted, done, on_row, poll, wait_for, run_gated, dry,
  described, describe_gated,
}

abbrev Seen : Type 0
Seen = Option (Option GateOutcome × Ledger)

-- What the approver sees of a run.
abbrev pub seen : {A S : Type 0} → Option (Gate A × Ledger × S) → Seen
seen none = none
seen (some (r, l, s)) = some (r.outcome, l)

seen-acted :
    {A S : Type 0} (l : Ledger) (q : Result String A × S)
    → seen (done l (acted q)) ≡ some (some GateOutcome.approved, l)
seen-acted l (ok a, s) = refl
seen-acted l (err e, s) = refl

module _ {A S : Type 0} (g : Gated A S) (payload : String) where
  abbrev pub rehearsal : Gated DryRun String
  rehearsal = dry g.accepts g.config payload

  seen-on_row :
      (id : ℕ) (got : Result LedgerError (Option Approval)) (l : Ledger) (s : S) (preview : String)
      (rest : Option (Gate A × Ledger × S)) (rest' : Option (Gate DryRun × Ledger × String))
      → seen rest' ≡ seen rest
      → seen (on_row rehearsal id (got, l) preview rest') ≡ seen (on_row g id (got, l) s rest)
  unfolding on_row
  seen-on_row id (err e) l s preview rest rest' h = refl
  seen-on_row id (ok none) l s preview rest rest' h = refl
  seen-on_row id (ok (some a)) l s preview rest rest' h =
      elim (Bool-cases (str_eq a.state "approved")) [
        | inl e ↦ rw e (sym (seen-acted l (g.action s)))
        | inr e ↦ elim (Bool-cases (str_eq a.state "denied")) [
          | inl e' ↦ rw (e, e') refl
          | inr e' ↦ elim (Bool-cases (str_eq a.state "expired")) [
            | inl e'' ↦ rw (e, e', e'') refl
            | inr e'' ↦ rw (e, e', e'') h
          ]
        ]
      ]

  seen-poll :
      (ticks : ℕ → Tick) (id fuel i clock : ℕ) (l : Ledger) (s : S) (preview : String)
      → seen (poll rehearsal id ticks fuel i clock l preview)
        ≡ seen (poll g id ticks fuel i clock l s)
  unfolding poll
  seen-poll ticks id zero i clock l s preview = refl
  seen-poll ticks id (suc fuel) i clock l s preview =
      let now = clock + g.config.poll_interval + (ticks i).late in
      let l' = moves g.accepts (ticks i).moves l in
      let got = get_approval g.accepts id l' in
      elim (Bool-cases (ticks i).cancelled) [
        | inl e ↦ rw e refl
        | inr e ↦ elim (Bool-cases (ltb g.config.wait_timeout now)) [
          | inl e' ↦ rw (e, e') refl
          | inr e' ↦
              rw (e, e')
                (seen-on_row id got.0 got.1 s preview (poll g id ticks fuel (suc i) now got.1 s)
                  (poll rehearsal id ticks fuel (suc i) now got.1 preview)
                  (seen-poll ticks id fuel (suc i) now got.1 s preview))
        ]
      ]

  seen-described :
      (o : Option (Gate DryRun × Ledger × String))
      → Option.map
          (λ (r : Gate String × Ledger). (r.0.outcome, r.1))
          (elim o [ none ↦ none | some r ↦ some (described r) ])
        ≡ seen o
  seen-described none = refl
  seen-described (some (r, l, s)) = refl

  seen-run_gated :
      (ticks : ℕ → Tick) (now : Text) (kind reason : String) (l : Ledger) (s : S)
      → seen (run_gated rehearsal ticks now kind payload reason l "")
        ≡ seen (run_gated g ticks now kind payload reason l s)
  unfolding run_gated wait_for create_approval
  seen-run_gated ticks now kind reason l s = elim (Bool-cases (g.accepts l.calls)) [
    | inr e ↦ rw e refl
    | inl e ↦ rw e (seen-poll ticks l.next_id (suc g.config.wait_timeout) 0 0 _ s "")
  ]

  -- A rehearsal has the outcome, and leaves the ledger, of the gated run of any action with the
  -- same driver and configuration.
  pub describe_gated-seen :
      (ticks : ℕ → Tick) (now : Text) (kind reason : String) (l : Ledger) (s : S)
      → Option.map
          (λ (r : Gate String × Ledger). (r.0.outcome, r.1))
          (describe_gated g.accepts g.config ticks now kind payload reason l)
        ≡ seen (run_gated g ticks now kind payload reason l s)
  unfolding describe_gated
  describe_gated-seen ticks now kind reason l s =
      seen-described (run_gated rehearsal ticks now kind payload reason l "")
      ∙ seen-run_gated ticks now kind reason l s
