-- ===== src/Approvals/Gate/Laws.antt =====
-- internal/tools/hitl.go: the turns of RunGated and its deadline.
use aegis_go.Prelude.{
  ℕ, zero, suc, ◌+◌, ◌≤◌, ◌<◌, ◌≡◌, ◌≢◌, refl, sym, ◌∙◌, ap, subst, Bool, true, false, String,
  str_eq, eq_iff, List, [], ◌∷◌, ◌++◌, Option, none, some, arith, Option-cases, Bool-cases, inl,
  inr, ◌⊎◌, if◌then◌else◌, ltb, leb, if_split, lt→ltb,
}
pub mod Faithful
pub mod Rehearsal
use mathlib.Core.Option.{some-injective}
use aegis_go.Prelude.Result.{Result, ok, err, Result-cases}
use aegis_go.Rules.{Text}
use aegis_go.Approvals.{
  Approval, Ledger, LedgerError, Move, create_approval, get_approval, find_row, move, moves,
  new_row,
}
use aegis_go.Approvals.Laws.{IsValid, IsLater, IsSameRequest, IsFinal}
use aegis_go.Approvals.Laws.Finality.{requests_continue, Continues}
use aegis_go.Approvals.Gate.{
  Gate, GateConfig, GateOutcome, GateError, Gated, Tick, closed, broken, acted, done, on_row, poll,
  wait_for, run_gated,
}

module _ {A S : Type 0} where
  abbrev Ends : Option (Gate A × Ledger × S) → Type 0
  Ends r = r ≢ none

  on_row_ends :
      (g : Gated A S) (id : ℕ) (got : Result LedgerError (Option Approval) × Ledger) (s : S)
      (rest : Option (Gate A × Ledger × S))
      → rest ≢ none
      → on_row g id got s rest ≢ none
  unfolding on_row
  on_row_ends g id (err e, l) s rest h = λ p. cc
  on_row_ends g id (ok none, l) s rest h = λ p. cc
  on_row_ends g id (ok (some row), l) s rest h =
      if_split Ends (str_eq row.state "approved") (λ e p. cc)
        (λ e.
          if_split Ends (str_eq row.state "denied") (λ e' p. cc)
            (λ e'. if_split Ends (str_eq row.state "expired") (λ e'' p. cc) (λ e''. h)))

  -- Fuel for the turns that are left before the deadline.
  poll_ends :
      (g : Gated A S) (id : ℕ) (ticks : ℕ → Tick)
      → 1 ≤ g.config.poll_interval
      → (fuel i clock : ℕ) (l : Ledger) (s : S) → g.config.wait_timeout < clock + fuel
      → clock ≤ g.config.wait_timeout
      → poll g id ticks fuel i clock l s ≢ none
  unfolding poll
  poll_ends g id ticks step zero i clock l s enough early = λ p. omega arith
  poll_ends g id ticks step (suc fuel) i clock l s enough early =
      let now = clock + g.config.poll_interval + (ticks i).late in
      let l' = moves g.accepts (ticks i).moves l in
      let got = get_approval g.accepts id l' in
      if_split Ends (ticks i).cancelled (λ e p. cc)
        (λ e.
          if_split Ends (ltb g.config.wait_timeout now) (λ e' p. cc)
            (λ in_time. on_row_ends g id got s (poll g id ticks fuel (suc i) now got.1 s) (
              poll_ends g id ticks step fuel (suc i) now got.1 s (omega arith)
                (ground (arith, in_time)))))

  -- Where the poll interval is positive, the gate returns: for every ledger, driver and action, and
  -- whatever happens between its turns.
  pub run_gated_ends :
      (g : Gated A S) (ticks : ℕ → Tick) (now : Text) (kind payload reason : String) (l : Ledger)
      (s : S)
      → 1 ≤ g.config.poll_interval
      → run_gated g ticks now kind payload reason l s ≢ none
  unfolding run_gated wait_for create_approval
  run_gated_ends g ticks now kind payload reason l s step = elim (Bool-cases (g.accepts l.calls)) [
    | inr e ↦ rw e (λ p. cc)
    | inl e ↦
        rw e
          (poll_ends g _ ticks step (suc g.config.wait_timeout) 0 0 _ s (omega arith) (omega arith))
  ]
