-- ===== src/Approvals.antt =====
-- internal/store/approvals.go: the ledger of approval requests. `accepts n` is the driver's verdict on
-- the n-th statement: a statement that fails changes nothing. Ids are the AUTOINCREMENT key, and
-- timestamps are the texts that the store writes and compares.
pub mod Laws
pub mod Gate
pub mod Commands
use aegis_go.Prelude.{
  ℕ, suc, ◌+◌, Bool, true, false, ◌&&◌, ◌||◌, String, str_eq, List, [], ◌∷◌, ◌++◌, Option, none,
  some, map, keep, take, length, if◌then◌else◌, ltb, ◌==◌,
}
use aegis_go.Prelude.Result.{Result, ok, err}
use aegis_go.Rules.{Text}

pub record Approval : Type 0 where
  pub id : ℕ
  pub created_at : Text
  pub kind : String
  pub payload : String
  pub reason : String
  pub state : String
  pub decided_by : String
  pub decided_at : Text

-- `rows` is oldest first; `calls` counts the statements sent so far.
pub record Ledger : Type 0 where
  pub rows : List Approval
  pub next_id : ℕ
  pub calls : ℕ

pub data LedgerError : Type 0 where
  create_failed : LedgerError
  get_failed : ℕ → LedgerError
  bad_state : String → LedgerError
  decide_failed : ℕ → LedgerError
  expire_failed : LedgerError
  pending_failed : LedgerError

abbrev pub sent : Ledger → Ledger
sent l = record l { calls = l.calls + 1 }

-- A row as the INSERT leaves it: the state column takes its default.
abbrev pub new_row : ℕ → Text → String → String → String → Approval
new_row id now kind payload reason = record {
  id = id;
  created_at = now;
  kind = kind;
  payload = payload;
  reason = reason;
  state = "pending";
  decided_by = "";
  decided_at = [];
}

unfoldable pub create_approval :
    (ℕ → Bool) → Text → String → String → String → Ledger → Result LedgerError ℕ × Ledger
create_approval accepts now kind payload reason l =
    if accepts l.calls
    then (
      ok l.next_id,
      record (sent l) {
        rows = l.rows ++ new_row l.next_id now kind payload reason ∷ [];
        next_id = suc l.next_id;
      },
    )
    else (err LedgerError.create_failed, sent l)

abbrev pub find_row : ℕ → List Approval → Option Approval
find_row id [] = none
find_row id (r ∷ rs) = if r.id == id then some r else find_row id rs

unfoldable pub get_approval :
    (ℕ → Bool) → ℕ → Ledger → Result LedgerError (Option Approval) × Ledger
get_approval accepts id l =
    if accepts l.calls
    then (ok (find_row id l.rows), sent l)
    else (err (LedgerError.get_failed id), sent l)

abbrev pub is_pending : Approval → Bool
is_pending r = str_eq r.state "pending"

-- The rows of `WHERE id = ? AND state = 'pending'`.
abbrev pub decidable : ℕ → Approval → Bool
decidable id r = (r.id == id) && is_pending r

abbrev pub decide_row : ℕ → String → String → Text → Approval → Approval
decide_row id state decided_by now r =
    if decidable id r
    then record r { state = state; decided_by = decided_by; decided_at = now }
    else r

-- `true` is one affected row, so this call took the decision.
unfoldable pub decide_approval :
    (ℕ → Bool) → Text → ℕ → String → String → Ledger → Result LedgerError Bool × Ledger
decide_approval accepts now id state decided_by l =
    if str_eq state "approved" || str_eq state "denied"
    then if accepts l.calls
      then (
        ok (length (keep (decidable id) l.rows) == 1),
        record (sent l) { rows = map (decide_row id state decided_by now) l.rows },
      )
      else (err (LedgerError.decide_failed id), sent l)
    else (err (LedgerError.bad_state state), l)

-- The order of the TEXT column, byte by byte.
abbrev pub text_before : Text → Text → Bool
text_before xs [] = false
text_before [] (y ∷ ys) = true
text_before (x ∷ xs) (y ∷ ys) = let rest = text_before xs ys in if x == y then rest else ltb x y

abbrev pub overdue : Text → Approval → Bool
overdue cutoff r = is_pending r && text_before r.created_at cutoff

abbrev pub expire_row : Text → Approval → Approval
expire_row cutoff r = if overdue cutoff r then record r { state = "expired" } else r

-- `cutoff` is the clock less the time to live, as the store writes it.
unfoldable pub expire_approvals : (ℕ → Bool) → Text → Ledger → Result LedgerError ℕ × Ledger
expire_approvals accepts cutoff l =
    if accepts l.calls
    then (
      ok (length (keep (overdue cutoff) l.rows)),
      record (sent l) { rows = map (expire_row cutoff) l.rows },
    )
    else (err LedgerError.expire_failed, sent l)

-- A negative limit falls back like 0.
abbrev page_limit : ℕ → ℕ
page_limit limit = if (limit == 0) || ltb 200 limit then 50 else limit

unfoldable pub pending_approvals :
    (ℕ → Bool) → ℕ → Ledger → Result LedgerError (List Approval) × Ledger
pending_approvals accepts limit l =
    if accepts l.calls
    then (ok (take (page_limit limit) (keep is_pending l.rows)), sent l)
    else (err LedgerError.pending_failed, sent l)

-- What the other users of the ledger do to it.
pub data Move : Type 0 where
  create : Text → String → String → String → Move
  decide : Text → ℕ → String → String → Move
  expire : Text → Move

unfoldable pub move : (ℕ → Bool) → Move → Ledger → Ledger
move accepts (create now kind payload reason) l =
    (create_approval accepts now kind payload reason l).1
move accepts (decide now id state decided_by) l =
    (decide_approval accepts now id state decided_by l).1
move accepts (expire cutoff) l = (expire_approvals accepts cutoff l).1

unfoldable pub moves : (ℕ → Bool) → List Move → Ledger → Ledger
moves accepts [] l = l
moves accepts (m ∷ ms) l = moves accepts ms (move accepts m l)
