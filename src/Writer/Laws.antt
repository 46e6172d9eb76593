-- ===== src/Writer/Laws.antt =====
-- internal/store/store.go: the batches and the drain against the queued writes one by one.
use aegis_go.Prelude.{
  ap, All, any, not, ◌&&◌, ◌==◌, ==_refl, if◌then◌else◌, ℕ, zero, suc, ◌≤◌, ◌≡◌, refl, ◌∙◌, Bool,
  true, false, List, [], ◌∷◌, none, some, length, take, drop, length-append, length-take,
  length-drop, arith, Option-cases, Bool-cases, inl, inr, ltb, ltb→lt,
}
use mathlib.Core.Option.{some-injective}
use aegis_go.Writer.{
  answer_one, late_turns, Answer, WriteOp, Store, Driver, enqueue, exec_all, apply, answer_all,
  run_batch, collect, batch_turn, drained, drain_turn, drain_remaining, drain_next, close,
  write_queue_cap, write_batch_cap,
}

-- A driver that starts and commits every transaction.
abbrev pub IsWilling : Driver → Type 0
IsWilling driver = (n : ℕ) → (driver.begins n ≡ true) × (driver.commits n ≡ true)

abbrev same : Bool → Bool → Bool
same true b = b
same false b = not b

same_refl : (b : Bool) → same b b ≡ true
same_refl true = refl
same_refl false = refl

abbrev has_answer : ℕ → Bool → List Answer → Bool
has_answer w fine = any (λ a. (a.waiter == w) && same a.fine fine)

if_true : (b : Bool) {r : Bool} → r ≡ true → (if b then true else r) ≡ true
if_true true h = refl
if_true false h = h

module _ {D : Type 0} where
  exec_all_split :
      (n : ℕ) (ops : List (WriteOp D)) (d e : D)
      → exec_all ops d ≡ some e
      → (d' : D) × (exec_all (take n ops) d ≡ some d') × (exec_all (drop n ops) d' ≡ some e)
  unfolding exec_all
  exec_all_split zero ops d e h = (d, refl, h)
  exec_all_split (suc n) [] d e h = (d, refl, h)
  exec_all_split (suc n) (op ∷ ops) d e h = elim (Option-cases (op.exec d)) [
    | inl bad ↦ cc (rw bad at h)
    | inr (d1, good) ↦ rw good (exec_all_split n ops d1 e (rw good at h))
  ]

  drop_taken : (n : ℕ) (ops : List (WriteOp D)) → drop (length (take n ops)) ops ≡ drop n ops
  drop_taken zero ops = refl
  drop_taken (suc n) [] = refl
  drop_taken (suc n) (op ∷ ops) = drop_taken n ops

  -- What the queued writes make of the database, one by one.
  abbrev pub Leads : Store D → D → Type 0
  Leads s e = exec_all s.writes s.db ≡ some e

  run_batch-Leads :
      (driver : Driver) (s : Store D) (e : D)
      → IsWilling driver
      → Leads s e
      → ((run_batch driver (collect s.writes) s).0 ≡ true)
        × Leads (run_batch driver (collect s.writes) s).1 e
  unfolding apply
  run_batch-Leads driver s e willing h =
      let (d, taken, rest) = exec_all_split write_batch_cap s.writes s.db e h in
      rw (drop_taken write_batch_cap s.writes, (willing s.batches).0, taken, (willing s.batches).1)
        (refl, rest)

  -- With a driver that accepts each transaction, a turn of the batcher does not change what the
  -- queue, applied write by write, leads to.
  pub batch_turn-Leads :
      (driver : Driver) (s : Store D) (e : D)
      → IsWilling driver
      → Leads s e
      → Leads (batch_turn driver s) e
  unfolding batch_turn
  batch_turn-Leads driver s e willing h = (run_batch-Leads driver s e willing h).1

  -- A drain turn where the batch goes through: it answers nobody.
  drain_turn-Leads :
      (driver : Driver) (s : Store D) (e : D)
      → IsWilling driver
      → Leads s e
      → Leads (drain_turn driver s) e × ((drain_turn driver s).answers ≡ s.answers)
  unfolding drain_turn
  drain_turn-Leads driver s e willing h =
      let (fine, leads) = run_batch-Leads driver s e willing h in rw fine (leads, refl)

  drain_turn-writes :
      (driver : Driver) (s : Store D)
      → (drain_turn driver s).writes ≡ drop (length (collect s.writes)) s.writes
  unfolding drain_turn apply
  drain_turn-writes driver s =
      drained-writes (collect s.writes) (run_batch driver (collect s.writes) s)
    where
      drained-writes :
          (batch : List (WriteOp D)) (q : Bool × Store D) → (drained batch q).writes ≡ q.1.writes
      drained-writes batch (true, s) = refl
      drained-writes batch (false, s) = refl

  -- A turn on a queue that is not empty makes it shorter.
  drain_turn_shorter :
      (driver : Driver) (s : Store D) (fuel : ℕ)
      → length s.writes ≤ suc fuel
      → length (drain_turn driver s).writes ≤ fuel
  drain_turn_shorter driver s fuel h = rw (drain_turn-writes driver s) (
      omega (
        arith,
        h,
        length-drop (length (collect s.writes)) s.writes,
        length-take write_batch_cap s.writes,
      ))

  -- What holds of an empty queue, and of the rest of the drain, holds of the drain.
  drain_step :
      (P : Store D → Type 0) (fuel : ℕ) (driver : Driver) (s : Store D)
      → (s.writes ≡ [] → P s)
      → P (drain_remaining fuel driver (drain_turn driver s))
      → P (drain_remaining (suc fuel) driver s)
  unfolding drain_remaining
  drain_step P fuel driver s now later = by_queue s.writes refl
    where
      rest : Store D
      rest = drain_remaining fuel driver (drain_turn driver s)

      by_queue : (ops : List (WriteOp D)) → s.writes ≡ ops → P (drain_next ops s rest)
      by_queue [] e = now e
      by_queue (op ∷ ops) e = later

  drain_empties :
      (fuel : ℕ) (driver : Driver) (s : Store D)
      → length s.writes ≤ fuel
      → (drain_remaining fuel driver s).writes ≡ []
  unfolding drain_remaining
  drain_empties zero driver s h = nothing_left s.writes h
    where
      nothing_left : (ops : List (WriteOp D)) → length ops ≤ 0 → ops ≡ []
      nothing_left [] h = refl
      nothing_left (op ∷ ops) h = absurd (omega arith)
  drain_empties (suc fuel) driver s h =
      drain_step (λ x. x.writes ≡ []) fuel driver s (λ e. e)
        (drain_empties fuel driver (drain_turn driver s) (drain_turn_shorter driver s fuel h))

  drain-Leads :
      (fuel : ℕ) (driver : Driver) (s : Store D) (e : D)
      → IsWilling driver
      → Leads s e
      → Leads (drain_remaining fuel driver s) e
        × ((drain_remaining fuel driver s).answers ≡ s.answers)
  unfolding drain_remaining
  drain-Leads zero driver s e willing h = (h, refl)
  drain-Leads (suc fuel) driver s e willing h =
      let (leads, silent) = drain_turn-Leads driver s e willing h in
      let (leads', silent') = drain-Leads fuel driver (drain_turn driver s) e willing leads in
      drain_step (λ x. Leads x e × (x.answers ≡ s.answers)) fuel driver s (λ _. (h, refl))
        (leads', silent' ∙ silent)

  -- The caller that waits for a write, if one does, has this answer.
  abbrev pub IsAnswered : Bool → List Answer → WriteOp D → Type 0
  IsAnswered fine answers op = (w : ℕ) → op.waiter ≡ some w → has_answer w fine answers ≡ true

  -- An answer that is there stays.
  answer_all_keeps :
      (w : ℕ) (fine given : Bool) (ops : List (WriteOp D)) (seen : List Answer)
      → has_answer w fine seen ≡ true
      → has_answer w fine (answer_all given ops seen) ≡ true
  unfolding answer_all
  answer_all_keeps w fine given [] seen h = h
  answer_all_keeps w fine given (op ∷ ops) seen h = elim (Option-cases op.waiter) [
    | inl e ↦ rw e (answer_all_keeps w fine given ops seen h)
    | inr (v, e) ↦ rw e (
        answer_all_keeps w fine given ops (record { waiter = v; fine = given } ∷ seen)
          (if_true ((v == w) && same given fine) h))
  ]

  answer_all-IsAnswered :
      (fine : Bool) (ops : List (WriteOp D)) (seen : List Answer)
      → All (IsAnswered fine (answer_all fine ops seen)) ops
  unfolding answer_all
  answer_all-IsAnswered fine [] seen = tt
  answer_all-IsAnswered fine (op ∷ ops) seen = (
    λ w h.
        answer_all_keeps w fine fine ops (answer_one fine op.waiter seen)
          (rw (h, ==_refl w, same_refl fine) refl),
    answer_all-IsAnswered fine ops (answer_one fine op.waiter seen),
  )

  -- An answer of success is none of failure.
  answer_all-true :
      (w : ℕ) (ops : List (WriteOp D)) (seen : List Answer)
      → has_answer w false (answer_all true ops seen) ≡ has_answer w false seen
  unfolding answer_all
  answer_all-true w [] seen = refl
  answer_all-true w (op ∷ ops) seen =
      answer_all-true w ops (answer_one true op.waiter seen) ∙ elim (Option-cases op.waiter) [
        | inl e ↦ rw e refl
        | inr (v, e) ↦ rw e (elim (Bool-cases (v == w)) [ inl k ↦ rw k refl | inr k ↦ rw k refl ])
      ]

  -- What holds of an empty queue, and of a turn and the late turns after it, holds of late turns.
  late_step :
      (P : Store D → Type 0) (n : ℕ) (driver : Driver) (s : Store D)
      → P s
      → P (late_turns n driver (batch_turn driver s))
      → P (late_turns (suc n) driver s)
  unfolding late_turns
  late_step P n driver s now later = by_queue s.writes
    where
      by_queue :
          (ops : List (WriteOp D))
          → P (drain_next ops s (late_turns n driver (batch_turn driver s)))
      by_queue [] = now
      by_queue (op ∷ ops) = later

  -- No caller is told of a failure that was not told of one before.
  abbrev pub NoFailure : Store D → Store D → Type 0
  NoFailure s s' = (w : ℕ) → has_answer w false s'.answers ≡ has_answer w false s.answers

  batch_turn-NoFailure :
      (driver : Driver) (s : Store D) (e : D)
      → IsWilling driver
      → Leads s e
      → NoFailure s (batch_turn driver s)
  unfolding batch_turn
  batch_turn-NoFailure driver s e willing h w =
      rw (run_batch-Leads driver s e willing h).0 (answer_all-true w (collect s.writes) s.answers)

  late_turns-Leads :
      (n : ℕ) (driver : Driver) (s : Store D) (e : D)
      → IsWilling driver
      → Leads s e
      → Leads (late_turns n driver s) e × NoFailure s (late_turns n driver s)
  unfolding late_turns
  late_turns-Leads zero driver s e willing h = (h, λ w. refl)
  late_turns-Leads (suc n) driver s e willing h =
      let s' = batch_turn driver s in
      let (leads, none_told) =
        late_turns-Leads n driver s' e willing (batch_turn-Leads driver s e willing h) in
      late_step (λ x. Leads x e × NoFailure s x) n driver s (h, λ w. refl)
        (leads, λ w. none_told w ∙ batch_turn-NoFailure driver s e willing h w)

  -- A graceful shutdown ends with an empty queue, whatever the driver does.
  pub close_drains :
      (late : ℕ) (driver : Driver) (s : Store D)
      → s.closed ≡ false
      → (close late driver s).writes ≡ []
  unfolding close
  close_drains late driver s h =
      let s' = late_turns late driver (record s { closed = true }) in
      rw h (drain_empties (length s'.writes) driver s' (omega arith))

  -- Where the driver accepts each transaction and each queued write succeeds in turn, a graceful
  -- shutdown leaves the database that the queued writes make of it one by one, however many turns
  -- the batcher still takes before it sees the shutdown; no caller is told of a failure that was
  -- not told of one before; and if the batcher takes none, no caller is answered.
  pub close_applies :
      (late : ℕ) (driver : Driver) (s : Store D) (e : D)
      → s.closed ≡ false
      → IsWilling driver
      → exec_all s.writes s.db ≡ some e
      → ((close late driver s).db ≡ e)
        × NoFailure s (close late driver s)
        × ((close 0 driver s).answers ≡ s.answers)
  unfolding close exec_all
  close_applies late driver s e h willing runs =
      let start : Store D = record s { closed = true } in
      let s' = late_turns late driver start in
      let (leads, none_told) = late_turns-Leads late driver start e willing runs in
      let (leads', silent) = drain-Leads (length s'.writes) driver s' e willing leads in
      let empty = drain_empties (length s'.writes) driver s' (omega arith) in
      let at_once = drain-Leads (length s.writes) driver start e willing runs in
      rw h (
        some-injective _ e (rw empty at leads'),
        (λ w. ap (has_answer w false) silent ∙ none_told w),
        at_once.1,
      )

  -- A turn of the batcher is all or nothing: where some write of the batch fails, the database
  -- keeps none of the batch, and the answers hold a failure for every caller that waits for one of
  -- its writes.
  pub batch_turn_atomic :
      (driver : Driver) (s : Store D)
      → exec_all (collect s.writes) s.db ≡ none
      → ((batch_turn driver s).db ≡ s.db)
        × All (IsAnswered false (batch_turn driver s).answers) (collect s.writes)
  unfolding batch_turn apply
  batch_turn_atomic driver s h =
      let told = answer_all-IsAnswered false (collect s.writes) s.answers in
      elim (Bool-cases (driver.begins s.batches)) [
        | inr e ↦ rw e (refl, told)
        | inl e ↦ rw (e, h) (refl, told)
      ]

  -- The queue never holds more than its cap, and a write that is refused leaves the store.
  pub enqueue_bounded :
      (op : WriteOp D) (s : Store D)
      → length s.writes ≤ write_queue_cap
      → (length (enqueue op s).1.writes ≤ write_queue_cap)
        × ((enqueue op s).0 ≡ false → (enqueue op s).1 ≡ s)
  unfolding enqueue
  enqueue_bounded op s h = elim (Bool-cases s.closed) [
    | inl e ↦ rw e (h, (λ _. refl))
    | inr e ↦ elim (Bool-cases (ltb (length s.writes) write_queue_cap)) [
      | inr full ↦ rw (e, full) (h, (λ _. refl))
      | inl room ↦
          rw (e, room)
            (
              rw (length-append s.writes (op ∷ []))
                  (omega (arith, ltb→lt (length s.writes) 4096 room)),
              (λ p. cc),
            )
    ]
  ]
