-- ===== src/Examples/Ledgers.antt =====
-- The theorems on approvals: one request, decided by one approver between two turns of the gate.
use aegis_go.Prelude.{
  ℕ, zero, suc, ◌≡◌, ◌≢◌, refl, true, false, String, [], ◌∷◌, Option, none, some, arith,
}
use mathlib.Core.Option
use aegis_go.Prelude.Result.{ok}
use aegis_go.Rules.{Text, codes}
use aegis_go.Approvals.{
  Ledger, Move, new_row, create_approval, get_approval, move, decide_approval, moves,
}
use aegis_go.Approvals.Laws.{IsValid}
use aegis_go.Approvals.Laws.Finality.{Continues, requests_continue, decided_once}
use aegis_go.Approvals.Gate.{Gated, Gate, Tick, wait_for, poll, on_row, run_gated, describe_gated}
use aegis_go.Approvals.Gate.Laws.Faithful.{run_gated-IsFaithful, IsFaithful}
use aegis_go.Approvals.Gate.Laws.Rehearsal.{seen, describe_gated-seen}
use aegis_go.Approvals.Commands.{Chat, decide_one, parse_id}
use aegis_go.Approvals.Commands.Laws.{IsHonest, decide_one-IsHonest}
use aegis_go.Examples.{always}

abbrev noon : Text
noon = codes "2026-01-01T12:00:00Z"

abbrev ledger : Ledger
ledger = record { rows = new_row 1 noon "system_command" "ls" "why" ∷ []; next_id = 2; calls = 0 }

abbrev empty : Ledger
empty = record { rows = []; next_id = 1; calls = 0 }

abbrev approve : Move
approve = Move.decide noon 1 "approved" "cli"

abbrev deny : Move
deny = Move.decide noon 1 "denied" "telegram:7"

-- The action counts its runs.
abbrev gated : Gated String ℕ
gated = record {
  accepts = always;
  config = record { wait_timeout = 3; poll_interval = 1 };
  action = λ n. (ok "done", suc n);
}

abbrev ticks : ℕ → Tick
ticks (suc zero) = record { moves = approve ∷ []; late = 0; cancelled = false }
ticks n = record { moves = []; late = 0; cancelled = false }

-- A gate that is approved on its second turn runs the action once.
approved_run :
    Option.map {B = Option String × ℕ}
      (λ (r : Gate String × Ledger × ℕ). (r.0.output, r.2))
      (run_gated gated ticks noon "system_command" "ls" "why" empty 0)
    ≡ some (some "done", 1)
unfolding run_gated wait_for poll on_row create_approval get_approval moves move decide_approval
approved_run = refl

requests_continue_example : Continues 1 ledger.rows (moves always (approve ∷ deny ∷ []) ledger).rows
requests_continue_example = requests_continue always (approve ∷ deny ∷ []) 1 ledger

ledger-IsValid : IsValid ledger
ledger-IsValid = (omega arith, omega arith)

taken : (decide_approval always noon 1 "approved" "cli" ledger).0 ≡ ok true
unfolding decide_approval
taken = refl

decided_once_example :
    (decide_approval always noon 1 "denied" "telegram:7"
      (moves always (deny ∷ []) (decide_approval always noon 1 "approved" "cli" ledger).1)).0
    ≢ ok true
decided_once_example =
    decided_once always noon 1 "approved" "cli" ledger (deny ∷ []) noon "denied" "telegram:7"
      ledger-IsValid taken

run_gated-IsFaithful_example :
    (out : Gate String × Ledger × ℕ) × (run_gated gated ticks noon "system_command" "ls" "why" empty
        0
      ≡ some out)
    × IsFaithful gated "system_command" "ls" "why" 1 0 out
run_gated-IsFaithful_example =
    run_gated-IsFaithful gated "system_command" "ls" "why" 0 ticks noon empty (omega arith)
      (omega arith)

describe_gated-seen_example :
    Option.map
      (λ (r : Gate String × Ledger). (r.0.outcome, r.1))
      (describe_gated always gated.config ticks noon "system_command" "ls" "why" empty)
    ≡ seen (run_gated gated ticks noon "system_command" "ls" "why" empty 0)
describe_gated-seen_example =
    describe_gated-seen gated "ls" ticks noon "system_command" "why" empty 0

abbrev chat : Chat
chat = record { ledger = ledger; notified = [] }

decide_one-IsHonest_example :
    IsHonest noon 1 "denied" "telegram:7" chat (decide_one always noon 1 "denied" "telegram:7" chat)
decide_one-IsHonest_example =
    decide_one-IsHonest always noon 1 "denied" "telegram:7" chat ledger-IsValid

-- An id with a sign, and one that is not a number.
parsed : parse_id (codes "+12") ≡ some 12
parsed = refl

unparsed : parse_id (codes "12x") ≡ none
unparsed = refl
