-- ===== src/Examples/Updates.antt =====
-- The theorems on the inbox: one update, received and answered.
use aegis_go.Prelude.{
  ℕ, zero, suc, ◌≤◌, ◌≡◌, ◌≢◌, refl, Bool, true, false, [], ◌∷◌, none, some, arith, All, any, keep,
  length,
}
use aegis_go.Prelude.Result.{ok}
use aegis_go.Inbox.{
  Update, ChatId, Inbox, InboxRow, Work, row_of_update, enqueue, claim_reply, poll_batch, has_id,
  is_pending, works, work, enqueue_all, page, advance, advance_with, advance_past,
  advance_high_water, pending, ack_to,
}
use aegis_go.Inbox.Laws.{Move, moves}
use aegis_go.Inbox.Laws.Replies.{claimed_once}
use aegis_go.Inbox.Laws.Acknowledge.{water, Recorded}
use aegis_go.Inbox.Laws.Processed.{
  IsProcessed, acknowledged-IsProcessed, failed_enqueue_acknowledged,
}
use aegis_go.Examples.{always}

abbrev hello : Update
hello = record {
  update_id = 7;
  message = some (record { chat = ChatId.pos 5; text = "hello" });
  callback = none;
}

abbrev empty : Inbox
empty = record { rows = []; acked = some 6; calls = 0 }

abbrev received : InboxRow
received = record {
  update_id = 7;
  chat_id = ChatId.pos 5;
  text = "hello";
  status = "pending";
  replied = false;
  callback_id = "";
  callback_data = "";
}

abbrev inbox : Inbox
inbox = record { rows = received ∷ []; acked = some 6; calls = 0 }

-- The driver refuses the first statement only.
abbrev first_refused : ℕ → Bool
first_refused zero = false
first_refused (suc n) = true

is_new : (enqueue always hello empty).0 ≡ ok true
unfolding enqueue
is_new = refl

claimed : (claim_reply always 7 inbox).0 ≡ ok true
unfolding claim_reply
claimed = refl

claimed_once_example :
    (claim_reply always 7 (moves always (Move.receive hello ∷ []) (claim_reply always 7 inbox).1)).0
    ≢ ok true
claimed_once_example = claimed_once always 7 inbox (Move.receive hello ∷ []) claimed (tt, tt)

recorded : Recorded always (hello ∷ []) empty
recorded = ((true, is_new), tt)

short :
    length (
      keep is_pending
        (works always (Work.claim 7 ∷ []) (enqueue_all always (hello ∷ []) empty)).rows)
    ≤ page
unfolding works work enqueue_all enqueue claim_reply row_of_update
short = omega arith

-- The worker answers before the loop looks, so the update is acknowledged.
acknowledged : water (poll_batch always (hello ∷ []) (Work.claim 7 ∷ []) empty) ≡ 7
unfolding poll_batch works work enqueue_all enqueue claim_reply row_of_update advance advance_with
    advance_past advance_high_water pending ack_to
acknowledged = refl

acknowledged-IsProcessed_example :
    All
      (λ u.
        u.update_id ≤ water (poll_batch always (hello ∷ []) (Work.claim 7 ∷ []) empty)
        → IsProcessed (poll_batch always (hello ∷ []) (Work.claim 7 ∷ []) empty) u)
      (hello ∷ [])
acknowledged-IsProcessed_example =
    acknowledged-IsProcessed always (hello ∷ []) (Work.claim 7 ∷ []) empty (omega arith, tt)
      recorded short

failed_enqueue_acknowledged_example :
    ((poll_batch first_refused (hello ∷ []) [] empty).acked ≡ some 7)
    × (any (has_id 7) (poll_batch first_refused (hello ∷ []) [] empty).rows ≡ false)
failed_enqueue_acknowledged_example =
    failed_enqueue_acknowledged first_refused hello empty (omega arith) refl refl refl refl
