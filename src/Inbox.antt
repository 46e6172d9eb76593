-- ===== src/Inbox.antt =====
-- internal/telegram: the durable inbox (inbox.go) and the acknowledgement of the long poll (poll.go).
-- `accepts n` is the driver's verdict on the n-th statement. Update ids are natural numbers, so the
-- guard on an id `<= 0` is the one on 0; a chat id may be negative.
pub mod Laws
use aegis_go.Prelude.{
  ℕ, suc, ◌+◌, Bool, true, false, not, ◌&&◌, String, str_eq, List, [], ◌∷◌, Option, none, some, map,
  keep, any, take, if◌then◌else◌, ltb, ◌==◌,
}
use aegis_go.Prelude.Result.{Result, ok, err}

pub data ChatId : Type 0 where
  pos : ℕ → ChatId
  negsuc : ℕ → ChatId

pub record Message : Type 0 where
  pub chat : ChatId
  pub text : String

pub record CallbackQuery : Type 0 where
  pub id : String
  pub message : Option Message
  pub data_ : String

pub record Update : Type 0 where
  pub update_id : ℕ
  pub message : Option Message
  pub callback : Option CallbackQuery

pub record InboxRow : Type 0 where
  pub update_id : ℕ
  pub chat_id : ChatId
  pub text : String
  pub status : String
  pub replied : Bool
  pub callback_id : String
  pub callback_data : String

-- `rows` is in the order of its primary key; `acked` is the row of kv_state that only
-- `advance_high_water` writes.
pub record Inbox : Type 0 where
  pub rows : List InboxRow
  pub acked : Option ℕ
  pub calls : ℕ

pub data InboxError : Type 0 where
  failed : InboxError

abbrev pub sent : Inbox → Inbox
sent b = record b { calls = b.calls + 1 }

unfoldable pub chat_id_of : Update → ChatId
chat_id_of u = elim u.message [
  | some m ↦ m.chat
  | none ↦ elim u.callback [
    | none ↦ ChatId.pos 0
    | some c ↦ elim c.message [ none ↦ ChatId.pos 0 | some m ↦ m.chat ]
  ]
]

abbrev text_of : Update → String
text_of u = elim u.message [ none ↦ "" | some m ↦ m.text ]

abbrev callback_id_of : Update → String
callback_id_of u = elim u.callback [ none ↦ "" | some c ↦ c.id ]

abbrev callback_data_of : Update → String
callback_data_of u = elim u.callback [ none ↦ "" | some c ↦ c.data_ ]

unfoldable pub row_of_update : Update → InboxRow
row_of_update u = record {
  update_id = u.update_id;
  chat_id = chat_id_of u;
  text = text_of u;
  status = "pending";
  replied = false;
  callback_id = callback_id_of u;
  callback_data = callback_data_of u;
}

abbrev pub has_id : ℕ → InboxRow → Bool
has_id id r = r.update_id == id

abbrev pub insert_row : InboxRow → List InboxRow → List InboxRow
insert_row r [] = r ∷ []
insert_row r (x ∷ xs) = if ltb r.update_id x.update_id then r ∷ x ∷ xs else x ∷ insert_row r xs

-- `INSERT OR IGNORE`: the answer is whether the row is new.
unfoldable pub enqueue : (ℕ → Bool) → Update → Inbox → Result InboxError Bool × Inbox
unfolding row_of_update
enqueue accepts u b =
    if accepts b.calls
    then if any (has_id u.update_id) b.rows
      then (ok false, sent b)
      else (ok true, record (sent b) { rows = insert_row (row_of_update u) b.rows })
    else (err InboxError.failed, sent b)

abbrev pub is_pending : InboxRow → Bool
is_pending r = str_eq r.status "pending"

unfoldable pub pending : (ℕ → Bool) → ℕ → Inbox → Result InboxError (List InboxRow) × Inbox
pending accepts n b =
    if accepts b.calls
    then (ok (take n (keep is_pending b.rows)), sent b)
    else (err InboxError.failed, sent b)

abbrev pub claimable : ℕ → InboxRow → Bool
claimable id r = has_id id r && not r.replied

abbrev pub claim_row : ℕ → InboxRow → InboxRow
claim_row id r = if claimable id r then record r { status = "done"; replied = true } else r

-- `true` is one affected row: ids are keys, so that is any.
unfoldable pub claim_reply : (ℕ → Bool) → ℕ → Inbox → Result InboxError Bool × Inbox
claim_reply accepts id b =
    if accepts b.calls
    then (ok (any (claimable id) b.rows), record (sent b) { rows = map (claim_row id) b.rows })
    else (err InboxError.failed, sent b)

abbrev pub mark_row : ℕ → String → InboxRow → InboxRow
mark_row id status r = if has_id id r then record r { status = status } else r

unfoldable pub mark_status : (ℕ → Bool) → ℕ → String → Inbox → Inbox
mark_status accepts id status b =
    if accepts b.calls then record (sent b) { rows = map (mark_row id status) b.rows } else sent b

abbrev pub fail_row : ℕ → InboxRow → InboxRow
fail_row id r = if has_id id r then record r { status = "failed"; replied = false } else r

unfoldable pub fail_and_reopen : (ℕ → Bool) → ℕ → Inbox → Inbox
fail_and_reopen accepts id b =
    if accepts b.calls then record (sent b) { rows = map (fail_row id) b.rows } else sent b

abbrev pub acked_id : Option ℕ → ℕ
acked_id none = 0
acked_id (some id) = id

-- A read that fails counts as an absent key.
unfoldable pub high_water : (ℕ → Bool) → Inbox → ℕ × Inbox
high_water accepts b = if accepts b.calls then (acked_id b.acked, sent b) else (0, sent b)

unfoldable pub advance_high_water : (ℕ → Bool) → ℕ → Inbox → Inbox
advance_high_water accepts id b =
    if accepts b.calls then record (sent b) { acked = some id } else sent b

abbrev poll_batch_max : ℕ
poll_batch_max = 50

abbrev pub page : ℕ
page = 500

-- The loop over the batch, up to its first update that is still pending.
unfoldable pub ack_to : (ℕ → Bool) → List Update → ℕ → ℕ
ack_to waiting [] acc = acc
ack_to waiting (u ∷ us) acc =
    let past = ack_to waiting us acc in
    let here = ack_to waiting us u.update_id in
    if u.update_id == 0 then past else if waiting u.update_id then acc else here

unfoldable pub advance_past : (ℕ → Bool) → ℕ → Inbox → Inbox
advance_past accepts id b = if id == 0 then b else advance_high_water accepts id b

abbrev pub in_page : List InboxRow → ℕ → Bool
in_page rs id = any (has_id id) rs

unfoldable pub advance_with :
    (ℕ → Bool) → List Update → Result InboxError (List InboxRow) × Inbox → Inbox
advance_with accepts us (err e, b) = b
advance_with accepts us (ok rs, b) = advance_past accepts (ack_to (in_page rs) us 0) b

unfoldable pub advance : (ℕ → Bool) → List Update → Inbox → Inbox
advance accepts us b = advance_with accepts us (pending accepts page b)

unfoldable pub enqueue_all : (ℕ → Bool) → List Update → Inbox → Inbox
enqueue_all accepts [] b = b
enqueue_all accepts (u ∷ us) b = enqueue_all accepts us (enqueue accepts u b).1

-- What the workers do with the inbox.
pub data Work : Type 0 where
  claim : ℕ → Work
  skip : ℕ → Work
  reopen : ℕ → Work

unfoldable pub work : (ℕ → Bool) → Work → Inbox → Inbox
work accepts (Work.claim id) b = (claim_reply accepts id b).1
work accepts (Work.skip id) b = mark_status accepts id "skipped" b
work accepts (Work.reopen id) b = fail_and_reopen accepts id b

unfoldable pub works : (ℕ → Bool) → List Work → Inbox → Inbox
works accepts [] b = b
works accepts (w ∷ ws) b = works accepts ws (work accepts w b)

-- The body of the poll loop on a batch that GetUpdates returned; `ws` is what the workers do between
-- the enqueues and the advance.
unfoldable pub poll_batch : (ℕ → Bool) → List Update → List Work → Inbox → Inbox
poll_batch accepts [] ws b = works accepts ws b
poll_batch accepts (u ∷ us) ws b =
    advance accepts (u ∷ us) (works accepts ws (enqueue_all accepts (u ∷ us) b))
