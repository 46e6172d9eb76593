-- ===== src/Approvals/Commands.antt =====
-- internal/telegram/hitl.go: the chat commands that decide requests. A reply stands for its text, with
-- the values that the text prints; an approver is wired, as app.go does. `notified` is the calls of
-- the decision callback, newest first.
pub mod Laws
use aegis_go.Prelude.{
  ℕ, zero, suc, ◌+◌, ◌-◌, ◌*◌, ◌^◌, Bool, true, false, ◌&&◌, ◌||◌, String, str_eq, List, [], ◌∷◌,
  Option, none, some, if◌then◌else◌, ltb, leb, ◌==◌,
}
use aegis_go.Prelude.Result.{Result, ok, err}
use aegis_go.Rules.{Text, trim_space}
use aegis_go.Approvals.{Approval, Ledger, LedgerError, decide_approval, pending_approvals}

pub data Reply : Type 0 where
  lookup_failed : LedgerError → Reply
  nothing_pending : String → Reply
  usage : Reply
  invalid_id : Text → Reply
  deciding_failed : ℕ → LedgerError → Reply
  not_pending : ℕ → Reply
  approved : ℕ → Reply
  denied : ℕ → Reply

pub record Notice : Type 0 where
  pub id : ℕ
  pub state : String
  pub decided_by : String

pub record Chat : Type 0 where
  pub ledger : Ledger
  pub notified : List Notice

abbrev pub decided :
    ℕ → String → String → List Notice → Result LedgerError Bool × Ledger → Reply × Chat
decided id state by notes (err e, l) =
    (deciding_failed id e, record { ledger = l; notified = notes })
decided id state by notes (ok false, l) = (not_pending id, record { ledger = l; notified = notes })
decided id state by notes (ok true, l) = (
  if str_eq state "approved" then approved id else denied id,
  record { ledger = l; notified = record { id = id; state = state; decided_by = by } ∷ notes },
)

unfoldable pub decide_one : (ℕ → Bool) → Text → ℕ → String → String → Chat → Reply × Chat
decide_one accepts now id state by c =
    decided id state by c.notified (decide_approval accepts now id state by c.ledger)

abbrev decide_oldest :
    (ℕ → Bool)
    → Text
    → String
    → String
    → List Notice
    → Result LedgerError (List Approval) × Ledger
    → Reply × Chat
decide_oldest accepts now state by notes (err e, l) =
    (lookup_failed e, record { ledger = l; notified = notes })
decide_oldest accepts now state by notes (ok [], l) = (
  nothing_pending (if str_eq state "approved" then "approve" else "deny"),
  record { ledger = l; notified = notes },
)
decide_oldest accepts now state by notes (ok (a ∷ rest), l) =
    decide_one accepts now a.id state by (record { ledger = l; notified = notes })

-- Bare /approve and /deny.
unfoldable pub decide_text : (ℕ → Bool) → Text → String → String → Chat → Reply × Chat
unfolding decide_one
decide_text accepts now state by c =
    decide_oldest accepts now state by c.notified (pending_approvals accepts 1 c.ledger)

-- strconv.ParseInt in base 10 and 64 bits, where what is not positive counts as an error.
abbrev parse_digits : Text → ℕ → Option ℕ
parse_digits [] acc = some acc
parse_digits (c ∷ s) acc =
    let rest = parse_digits s (10 * acc + (c - 48)) in if leb 48 c && leb c 57 then rest else none

abbrev positive_int64 : Option ℕ → Option ℕ
positive_int64 none = none
positive_int64 (some n) = if ltb 0 n && ltb n (2 ^ 63) then some n else none

abbrev pub parse_id : Text → Option ℕ
parse_id [] = none
parse_id (c ∷ s) =
    if c == 43
    then elim s [ [] ↦ none | ◌∷◌ d ds ↦ positive_int64 (parse_digits (d ∷ ds) 0) ]
    else positive_int64 (parse_digits (c ∷ s) 0)

abbrev decide_parsed : (ℕ → Bool) → Text → String → String → Text → Option ℕ → Chat → Reply × Chat
decide_parsed accepts now state by rest none c = (invalid_id rest, c)
decide_parsed accepts now state by rest (some id) c = decide_one accepts now id state by c

abbrev decide_trimmed : (ℕ → Bool) → Text → String → String → Text → Chat → Reply × Chat
decide_trimmed accepts now state by [] c = (usage, c)
decide_trimmed accepts now state by (r ∷ rest) c =
    decide_parsed accepts now state by (r ∷ rest) (parse_id (r ∷ rest)) c

-- /approve <id> and /deny <id>.
unfoldable pub decide_id_text : (ℕ → Bool) → Text → String → String → Text → Chat → Reply × Chat
unfolding decide_one
decide_id_text accepts now state by rest c = decide_trimmed accepts now state by (trim_space rest) c
