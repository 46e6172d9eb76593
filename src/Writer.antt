-- ===== src/Writer.antt =====
-- internal/store/store.go: the single writer. `D` is the database's contents. A statement is a
-- function that may fail; `waiter` is the channel of a caller that waits. `begins n` and `commits n`
-- say whether the n-th transaction starts and commits.
pub mod Laws
use aegis_go.Prelude.{
  ℕ, zero, suc, ◌+◌, Bool, true, false, List, [], ◌∷◌, ◌++◌, Option, none, some, length, take, drop,
  if◌then◌else◌, ltb,
}

abbrev pub write_queue_cap : ℕ
write_queue_cap = 4096

abbrev pub write_batch_cap : ℕ
write_batch_cap = 64

pub record WriteOp (D : Type 0) : Type 0 where
  pub exec : D → Option D
  pub waiter : Option ℕ

-- What a waiting caller receives: whether the transaction went through.
pub record Answer : Type 0 where
  pub waiter : ℕ
  pub fine : Bool

-- `answers` is newest first; `batches` counts the transactions.
pub record Store (D : Type 0) : Type 0 where
  pub writes : List (WriteOp D)
  pub closed : Bool
  pub db : D
  pub answers : List Answer
  pub batches : ℕ

-- The transactions' fate.
pub record Driver : Type 0 where
  pub begins : ℕ → Bool
  pub commits : ℕ → Bool

abbrev pub answer_one : Bool → Option ℕ → List Answer → List Answer
answer_one fine none seen = seen
answer_one fine (some w) seen = record { waiter = w; fine = fine } ∷ seen

module _ {D : Type 0} where
  -- `true` is no error.
  unfoldable pub enqueue : WriteOp D → Store D → Bool × Store D
  enqueue op s =
      if s.closed
      then (false, s)
      else if ltb (length s.writes) write_queue_cap
      then (true, record s { writes = s.writes ++ op ∷ [] })
      else (false, s)

  -- The statements of a transaction, up to the first that fails.
  unfoldable pub exec_all : List (WriteOp D) → D → Option D
  exec_all [] d = some d
  exec_all (op ∷ ops) d = elim (op.exec d) [ none ↦ none | some d' ↦ exec_all ops d' ]

  abbrev pub commit : Bool → D → Option D → Bool × D
  commit fine before none = (false, before)
  commit true before (some after) = (true, after)
  commit false before (some after) = (false, before)

  unfoldable pub apply : Driver → ℕ → List (WriteOp D) → D → Bool × D
  unfolding exec_all
  apply driver n batch d =
      if driver.begins n then commit (driver.commits n) d (exec_all batch d) else (false, d)

  unfoldable pub answer_all : Bool → List (WriteOp D) → List Answer → List Answer
  answer_all fine [] seen = seen
  answer_all fine (op ∷ ops) seen = answer_all fine ops (answer_one fine op.waiter seen)

  abbrev pub run_batch : Driver → List (WriteOp D) → Store D → Bool × Store D
  run_batch driver batch s =
      let (fine, db) = apply driver s.batches batch s.db in
      (fine, record s { writes = drop (length batch) s.writes; db = db; batches = s.batches + 1 })

  -- The first write and those behind it, up to the cap.
  abbrev pub collect : List (WriteOp D) → List (WriteOp D)
  collect writes = take write_batch_cap writes

  abbrev pub answered : List (WriteOp D) → Bool × Store D → Store D
  answered batch (fine, s) = record s { answers = answer_all fine batch s.answers }

  -- One turn of the batcher on a queue that is not empty.
  unfoldable pub batch_turn : Driver → Store D → Store D
  unfolding answer_all apply
  batch_turn driver s = answered (collect s.writes) (run_batch driver (collect s.writes) s)

  -- The drain at shutdown answers a batch that fails, and no other.
  abbrev pub drained : List (WriteOp D) → Bool × Store D → Store D
  drained batch (true, s) = s
  drained batch (false, s) = record s { answers = answer_all false batch s.answers }

  unfoldable pub drain_turn : Driver → Store D → Store D
  unfolding answer_all apply
  drain_turn driver s = drained (collect s.writes) (run_batch driver (collect s.writes) s)

  abbrev pub drain_next : List (WriteOp D) → Store D → Store D → Store D
  drain_next [] s rest = s
  drain_next (op ∷ ops) s rest = rest

  -- Each turn takes a write at least, so the queue's length is fuel enough.
  unfoldable pub drain_remaining : ℕ → Driver → Store D → Store D
  drain_remaining zero driver s = s
  drain_remaining (suc fuel) driver s =
      drain_next s.writes s (drain_remaining fuel driver (drain_turn driver s))

  -- While writes are ready, the batcher's select may take them for so many turns after `quit` is
  -- closed.
  unfoldable pub late_turns : ℕ → Driver → Store D → Store D
  late_turns zero driver s = s
  late_turns (suc n) driver s = drain_next s.writes s (late_turns n driver (batch_turn driver s))

  abbrev pub drain_all : Driver → Store D → Store D
  drain_all driver s = drain_remaining (length s.writes) driver s

  -- `Close`, once the batcher's turn under way has ended.
  unfoldable pub close : ℕ → Driver → Store D → Store D
  unfolding drain_remaining late_turns
  close late driver s =
      if s.closed then s else drain_all driver (late_turns late driver (record s { closed = true }))
