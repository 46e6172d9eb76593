-- ===== src/Inbox/Laws.antt =====
-- internal/telegram/inbox.go: the rows of the inbox over time.
pub mod Acknowledge
pub mod Replies
pub mod Processed
use aegis_go.Prelude.{
  different, ℕ, zero, suc, ◌+◌, ◌≤◌, ◌<◌, ◌≡◌, ◌≢◌, refl, sym, ◌∙◌, ap, subst, Bool, true, false,
  not, ◌&&◌, String, str_eq, eq_iff, List, [], ◌∷◌, Option, none, some, map, keep, any, take, arith,
  Option-cases, Bool-cases, inl, inr, ◌⊎◌, if◌then◌else◌, ltb, ◌==◌, if_split,
}
use mathlib.Core.Option.{some-injective}
use aegis_go.Prelude.Result.{Result, ok, err}
use aegis_go.Inbox.{
  Update, InboxRow, Inbox, InboxError, ChatId, has_id, insert_row, row_of_update, enqueue,
  is_pending, claim_row, claimable, claim_reply, mark_row, mark_status, fail_row, fail_and_reopen,
  Work, work, works, sent, enqueue_all,
}

abbrev pub find_row : ℕ → List InboxRow → Option InboxRow
find_row id [] = none
find_row id (r ∷ rs) = if has_id id r then some r else find_row id rs

-- Whatever anyone does to the inbox.
pub data Move : Type 0 where
  receive : Update → Move
  process : Work → Move

unfoldable pub move : (ℕ → Bool) → Move → Inbox → Inbox
move accepts (Move.receive u) b = (enqueue accepts u b).1
move accepts (Move.process w) b = work accepts w b

unfoldable pub moves : (ℕ → Bool) → List Move → Inbox → Inbox
moves accepts [] b = b
moves accepts (m ∷ ms) b = moves accepts ms (move accepts m b)

-- A later version of a row.
pub record IsLater (a b : InboxRow) : Type 0 where
  pub update_id_ : b.update_id ≡ a.update_id
  pub chat_id_ : b.chat_id ≡ a.chat_id
  pub text_ : b.text ≡ a.text
  pub callback_id_ : b.callback_id ≡ a.callback_id
  pub callback_data_ : b.callback_data ≡ a.callback_data
  pub was_pending : b.status ≡ "pending" → a.status ≡ "pending"

IsLater-refl : (a : InboxRow) → IsLater a a
IsLater-refl a = record {
  update_id_ = refl;
  chat_id_ = refl;
  text_ = refl;
  callback_id_ = refl;
  callback_data_ = refl;
  was_pending = λ h. h;
}

IsLater-trans : (a b c : InboxRow) → IsLater a b → IsLater b c → IsLater a c
IsLater-trans a b c p q = record {
  update_id_ = q.update_id_ ∙ p.update_id_;
  chat_id_ = q.chat_id_ ∙ p.chat_id_;
  text_ = q.text_ ∙ p.text_;
  callback_id_ = q.callback_id_ ∙ p.callback_id_;
  callback_data_ = q.callback_data_ ∙ p.callback_data_;
  was_pending = λ h. p.was_pending (q.was_pending h);
}

-- A write that sets a status other than `pending`.
IsLater-status :
    (a : InboxRow) (status : String) (replied : Bool)
    → str_eq status "pending" ≡ false
    → IsLater a (record a { status = status; replied = replied })
IsLater-status a status replied h = record {
  update_id_ = refl;
  chat_id_ = refl;
  text_ = refl;
  callback_id_ = refl;
  callback_data_ = refl;
  was_pending = λ p. elim (different status "pending" h p) [ ];
}

-- One move leaves the table, inserts a row under a key that no row had, or rewrites the rows one by
-- one.
pub data Effect (b b' : Inbox) : Type 0 where
  same : b'.rows ≡ b.rows → Effect b b'
  inserted :
      (r : InboxRow)
      → any (has_id r.update_id) b.rows ≡ false
      → b'.rows ≡ insert_row r b.rows
      → Effect b b'
  rewritten :
      (f : InboxRow → InboxRow)
      → ((r : InboxRow) → IsLater r (f r))
      → b'.rows ≡ map f b.rows
      → Effect b b'

claim_row-IsLater : (id : ℕ) (r : InboxRow) → IsLater r (claim_row id r)
claim_row-IsLater id r =
    if_split (IsLater r) (claimable id r) (λ e. IsLater-status r "done" true refl)
      (λ e. IsLater-refl r)

skip_row-IsLater : (id : ℕ) (r : InboxRow) → IsLater r (mark_row id "skipped" r)
skip_row-IsLater id r =
    if_split (IsLater r) (has_id id r) (λ e. IsLater-status r "skipped" r.replied refl)
      (λ e. IsLater-refl r)

fail_row-IsLater : (id : ℕ) (r : InboxRow) → IsLater r (fail_row id r)
fail_row-IsLater id r =
    if_split (IsLater r) (has_id id r) (λ e. IsLater-status r "failed" false refl)
      (λ e. IsLater-refl r)

work-Effect : (accepts : ℕ → Bool) (w : Work) (b : Inbox) → Effect b (work accepts w b)
unfolding work claim_reply mark_status fail_and_reopen
work-Effect accepts (Work.claim id) b =
    if_split (λ (q : Result InboxError Bool × Inbox). Effect b q.1) (accepts b.calls)
      (λ e. Effect.rewritten (claim_row id) (claim_row-IsLater id) refl) (λ e. Effect.same refl)
work-Effect accepts (Work.skip id) b =
    if_split (Effect b) (accepts b.calls)
      (λ e. Effect.rewritten (mark_row id "skipped") (skip_row-IsLater id) refl)
      (λ e. Effect.same refl)
work-Effect accepts (Work.reopen id) b =
    if_split (Effect b) (accepts b.calls)
      (λ e. Effect.rewritten (fail_row id) (fail_row-IsLater id) refl) (λ e. Effect.same refl)

enqueue-Effect : (accepts : ℕ → Bool) (u : Update) (b : Inbox) → Effect b (enqueue accepts u b).1
unfolding enqueue row_of_update
enqueue-Effect accepts u b =
    if_split (λ (q : Result InboxError Bool × Inbox). Effect b q.1) (accepts b.calls)
      (λ e.
        if_split (λ (q : Result InboxError Bool × Inbox). Effect b q.1)
          (any (has_id u.update_id) b.rows) (λ known. Effect.same refl)
          (λ new. Effect.inserted (row_of_update u) new refl))
      (λ e. Effect.same refl)

pub move-Effect : (accepts : ℕ → Bool) (m : Move) (b : Inbox) → Effect b (move accepts m b)
unfolding move
move-Effect accepts (Move.receive u) b = enqueue-Effect accepts u b
move-Effect accepts (Move.process w) b = work-Effect accepts w b

-- The row of an update is a later version of the one it was.
abbrev pub Continues : ℕ → List InboxRow → List InboxRow → Type 0
Continues id rs rs' =
    (a : InboxRow)
    → find_row id rs ≡ some a
    → (b : InboxRow) × (find_row id rs' ≡ some b) × IsLater a b

missing_absent :
    (id : ℕ) (rs : List InboxRow) {a : InboxRow}
    → any (has_id id) rs ≡ false
    → find_row id rs ≢ some a
missing_absent id [] h p = cc
missing_absent id (r ∷ rs) h p = elim (Bool-cases (has_id id r)) [
  | inl e ↦ cc (rw e at h)
  | inr e ↦ missing_absent id rs (rw e at h) (rw e at p)
]

-- Inserting under another key changes no answer.
find_row-insert_row :
    (id : ℕ) (r : InboxRow) (rs : List InboxRow)
    → has_id id r ≡ false
    → find_row id (insert_row r rs) ≡ find_row id rs
find_row-insert_row id r [] h = rw h refl
find_row-insert_row id r (x ∷ rs) h = elim (Bool-cases (ltb r.update_id x.update_id)) [
  | inl e ↦ rw (e, h) refl
  | inr e ↦ rw e (rw (find_row-insert_row id r rs h) refl)
]

Continues-inserted :
    (id : ℕ) (r : InboxRow) (rs : List InboxRow)
    → any (has_id r.update_id) rs ≡ false
    → Continues id rs (insert_row r rs)
Continues-inserted id r rs new a h = elim (Bool-cases (has_id id r)) [
  | inr e ↦ (a, rw (find_row-insert_row id r rs e) h, IsLater-refl a)
  | inl e ↦
      let same : r.update_id ≡ id = ground (arith, e) in
      elim (missing_absent r.update_id rs new
        (subst (λ k. find_row k rs ≡ some a) (sym same) h)) [ ]
]

Continues-map :
    (f : InboxRow → InboxRow)
    → ((r : InboxRow) → IsLater r (f r))
    → (id : ℕ) (rs : List InboxRow) → Continues id rs (map f rs)
Continues-map f p id [] a h = cc
Continues-map f p id (x ∷ rs) a h = elim (Bool-cases (has_id id x)) [
  | inl e ↦ (
    f x,
    rw (p x).update_id_ (rw e refl),
    subst (λ y. IsLater y (f x)) (some-injective x a (rw e at h)) (p x),
  )
  | inr e ↦ rw (p x).update_id_ (rw e (Continues-map f p id rs a (rw e at h)))
]

Continues-Effect : (id : ℕ) {b b' : Inbox} → Effect b b' → Continues id b.rows b'.rows
Continues-Effect id {b} (Effect.same e) = rw e (λ a h. (a, h, IsLater-refl a))
Continues-Effect id {b} (Effect.inserted r new e) = rw e (Continues-inserted id r b.rows new)
Continues-Effect id {b} (Effect.rewritten f p e) = rw e (Continues-map f p id b.rows)

-- Whatever the transports and the workers do, and whatever the driver answers, the row of a
-- received update stays in the inbox with the update's chat, text and callback, and it is pending
-- only if it was pending all along.
pub rows_continue :
    (accepts : ℕ → Bool) (ms : List Move) (id : ℕ) (b : Inbox)
    → Continues id b.rows (moves accepts ms b).rows
unfolding moves
rows_continue accepts [] id b a h = (a, h, IsLater-refl a)
rows_continue accepts (m ∷ ms) id b a h =
    let (a', found, first) = Continues-Effect id (move-Effect accepts m b) a h in
    let (c, found', after) = rows_continue accepts ms id (move accepts m b) a' found in
    (c, found', IsLater-trans a a' c first after)
