-- ===== src/Approvals/Gate.antt =====
-- internal/tools/hitl.go: the gate in front of an action. `A` is the action's result and `S` the
-- state it acts on; a tick is one turn of the polling loop, with what happens while it waits.
pub mod Laws
use aegis_go.Prelude.{
  ℕ, zero, suc, ◌+◌, Bool, true, false, String, str_eq, List, [], ◌∷◌, Option, none, some,
  if◌then◌else◌, ltb,
}
use aegis_go.Prelude.Result.{Result, ok, err}
use aegis_go.Rules.{Text}
use aegis_go.Approvals.{Approval, Ledger, LedgerError, Move, create_approval, get_approval, moves}

pub record GateConfig : Type 0 where
  pub wait_timeout : ℕ
  pub poll_interval : ℕ

-- In seconds.
abbrev default_gate_config : GateConfig
default_gate_config = record { wait_timeout = 120; poll_interval = 1 }

pub data GateOutcome : Type 0 where
  approved : GateOutcome
  denied : GateOutcome
  expired : GateOutcome
  timeout : GateOutcome
  shutdown : GateOutcome

pub data GateError : Type 0 where
  creating : LedgerError → GateError
  reading : ℕ → LedgerError → GateError
  vanished : ℕ → GateError
  action : String → GateError

-- An empty outcome is `none`.
pub record Gate (A : Type 0) : Type 0 where
  pub output : Option A
  pub outcome : Option GateOutcome
  pub err : Option GateError

-- `late` is the time a turn takes beyond the poll interval; `cancelled` says that the select took
-- `ctx.Done()`.
pub record Tick : Type 0 where
  pub moves : List Move
  pub late : ℕ
  pub cancelled : Bool

-- The caller's side: the driver, the configuration and the action.
pub record Gated (A S : Type 0) : Type 0 where
  pub accepts : ℕ → Bool
  pub config : GateConfig
  pub action : S → Result String A × S

abbrev pub closed : {A : Type 0} → GateOutcome → Gate A
closed o = record { output = none; outcome = some o; err = none }

abbrev pub broken : {A : Type 0} → GateError → Gate A
broken e = record { output = none; outcome = none; err = some e }

module _ {A S : Type 0} where
  abbrev pub acted : Result String A × S → Gate A × S
  acted (ok a, s) = (record { output = some a; outcome = some GateOutcome.approved; err = none }, s)
  acted (err e, s) = (
    record { output = none; outcome = some GateOutcome.approved; err = some (GateError.action e) },
    s,
  )

  abbrev pub done : Ledger → Gate A × S → Option (Gate A × Ledger × S)
  done l (g, s) = some (g, l, s)

  -- The switch on the row's state; `rest` is the next turn.
  unfoldable pub on_row :
      Gated A S
      → ℕ
      → Result LedgerError (Option Approval) × Ledger
      → S
      → Option (Gate A × Ledger × S)
      → Option (Gate A × Ledger × S)
  on_row g id (err e, l) s rest = done l (broken (GateError.reading id e), s)
  on_row g id (ok none, l) s rest = done l (broken (GateError.vanished id), s)
  on_row g id (ok (some row), l) s rest =
      if str_eq row.state "approved"
      then done l (acted (g.action s))
      else if str_eq row.state "denied"
      then done l (closed GateOutcome.denied, s)
      else if str_eq row.state "expired"
      then done l (closed GateOutcome.expired, s)
      else rest

  -- The loop on fuel, which is a bound on its turns.
  unfoldable pub poll :
      Gated A S → ℕ → (ℕ → Tick) → ℕ → ℕ → ℕ → Ledger → S → Option (Gate A × Ledger × S)
  poll g id ticks zero i clock l s = none
  poll g id ticks (suc fuel) i clock l s =
      let now = clock + g.config.poll_interval + (ticks i).late in
      let l' = moves g.accepts (ticks i).moves l in
      let got = get_approval g.accepts id l' in
      let rest = poll g id ticks fuel (suc i) now got.1 s in
      if (ticks i).cancelled
      then done l' (closed GateOutcome.shutdown, s)
      else if ltb g.config.wait_timeout now
      then done l' (closed GateOutcome.timeout, s)
      else on_row g id got s rest

  -- The clock starts when the row exists.
  unfoldable pub wait_for :
      Gated A S → (ℕ → Tick) → ℕ → Result LedgerError ℕ × Ledger → S → Option (Gate A × Ledger × S)
  wait_for g ticks fuel (err e, l) s = done l (broken (GateError.creating e), s)
  wait_for g ticks fuel (ok id, l) s = poll g id ticks fuel 0 0 l s

  -- A turn takes at least one unit of the clock, so this many turns pass the deadline.
  unfoldable pub run_gated :
      Gated A S
      → (ℕ → Tick)
      → Text
      → String
      → String
      → String
      → Ledger
      → S
      → Option (Gate A × Ledger × S)
  unfolding wait_for
  run_gated g ticks now kind payload reason l s =
      wait_for g ticks (suc g.config.wait_timeout)
        (create_approval g.accepts now kind payload reason l) s

-- The action of a dry run: it only keeps the payload.
pub record DryRun : Type 0 where
  pub dry_run : Bool

abbrev echo : String → String → Result String DryRun × String
echo payload preview = (ok (record { dry_run = true }), payload)

abbrev preview_of : Option GateError → Option GateOutcome → String → String
preview_of (some e) o preview = ""
preview_of none (some GateOutcome.approved) preview = preview
preview_of none o preview = ""

abbrev pub described : Gate DryRun × Ledger × String → Gate String × Ledger
described (g, l, preview) = (
  record { output = some (preview_of g.err g.outcome preview); outcome = g.outcome; err = g.err },
  l,
)

abbrev pub dry : (ℕ → Bool) → GateConfig → String → Gated DryRun String
dry accepts config payload = record { accepts = accepts; config = config; action = echo payload }

unfoldable pub describe_gated :
    (ℕ → Bool)
    → GateConfig
    → (ℕ → Tick)
    → Text
    → String
    → String
    → String
    → Ledger
    → Option (Gate String × Ledger)
unfolding run_gated
describe_gated accepts config ticks now kind payload reason l =
    elim (run_gated (dry accepts config payload) ticks now kind payload reason l "") [
      | none ↦ none
      | some r ↦ some (described r)
    ]
