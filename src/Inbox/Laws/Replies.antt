-- ===== src/Inbox/Laws/Replies.antt =====
-- internal/telegram/inbox.go: one row per update, and one reply.
use aegis_go.Prelude.{
  ℕ, ◌≡◌, ◌≢◌, refl, ◌∙◌, Bool, true, false, ◌||◌, List, [], ◌∷◌, some, map, any, arith, Bool-cases,
  inl, inr, ◌==◌, if_split, All,
}
use aegis_go.Prelude.Result.{Result, ok, ok-injective}
use aegis_go.Inbox.{
  Update, InboxRow, Inbox, InboxError, has_id, insert_row, row_of_update, enqueue, claim_row,
  claimable, claim_reply, mark_row, mark_status, fail_row, fail_and_reopen, Work, work,
}
use aegis_go.Inbox.Laws.{Move, move, moves, find_row, rows_continue}

any-insert_row :
    (p : InboxRow → Bool) (r : InboxRow) (rs : List InboxRow)
    → any p (insert_row r rs) ≡ (p r || any p rs)
any-insert_row p r [] = ground arith
any-insert_row p r (x ∷ rs) = ground (arith, any-insert_row p r rs)

any-map_same :
    (p : InboxRow → Bool) (f : InboxRow → InboxRow)
    → ((r : InboxRow) → p (f r) ≡ p r)
    → (rs : List InboxRow) → any p (map f rs) ≡ any p rs
any-map_same p f h [] = refl
any-map_same p f h (r ∷ rs) = rw (h r) (rw (any-map_same p f h rs) refl)

any-map-false :
    (p : InboxRow → Bool) (f : InboxRow → InboxRow)
    → ((r : InboxRow) → p r ≡ false → p (f r) ≡ false)
    → (rs : List InboxRow) → any p rs ≡ false
    → any p (map f rs) ≡ false
any-map-false p f h [] none_ = refl
any-map-false p f h (r ∷ rs) none_ = elim (Bool-cases (p r)) [
  | inl e ↦ cc (rw e at none_)
  | inr e ↦ rw (h r e) (any-map-false p f h rs (rw e at none_))
]

pub any_found :
    (id : ℕ) (rs : List InboxRow) {a : InboxRow}
    → find_row id rs ≡ some a
    → any (has_id id) rs ≡ true
any_found id [] h = cc
any_found id (r ∷ rs) h = elim (Bool-cases (has_id id r)) [
  | inl e ↦ rw e refl
  | inr e ↦ rw e (any_found id rs (rw e at h))
]

pub found_any :
    (id : ℕ) (rs : List InboxRow)
    → any (has_id id) rs ≡ true
    → (a : InboxRow) × (find_row id rs ≡ some a)
found_any id [] h = cc
found_any id (r ∷ rs) h = elim (Bool-cases (has_id id r)) [
  | inl e ↦ (r, rw e refl)
  | inr e ↦ rw e (found_any id rs (rw e at h))
]

-- An enqueue that the driver accepts leaves a row of the update, new or old.
pub enqueue_records :
    (accepts : ℕ → Bool) (u : Update) (b : Inbox) (known : Bool)
    → (enqueue accepts u b).0 ≡ ok known
    → any (has_id u.update_id) (enqueue accepts u b).1.rows ≡ true
unfolding enqueue row_of_update
enqueue_records accepts u b known h = elim (Bool-cases (accepts b.calls)) [
  | inr e ↦ cc (rw e at h)
  | inl e ↦ elim (Bool-cases (any (has_id u.update_id) b.rows)) [
    | inl old ↦ rw (e, old) old
    | inr new ↦
        rw (e, new) (any-insert_row (has_id u.update_id) (row_of_update u) b.rows ∙ ground arith)
  ]
]

-- Once an enqueue of an update has succeeded, whatever happens next, no enqueue of the same update
-- id answers that it is new.
enqueued_once :
    (accepts : ℕ → Bool) (u : Update) (b : Inbox) (ms : List Move) (u' : Update) (known : Bool)
    → (enqueue accepts u b).0 ≡ ok known
    → u'.update_id ≡ u.update_id
    → (enqueue accepts u' (moves accepts ms (enqueue accepts u b).1)).0 ≢ ok true
unfolding enqueue
enqueued_once accepts u b ms u' known h same again =
    let b' = (enqueue accepts u b).1 in
    let (a, found) = found_any u.update_id b'.rows (enqueue_records accepts u b known h) in
    let (c, found', _) = rows_continue accepts ms u.update_id b' a found in
    let there : any (has_id u'.update_id) (moves accepts ms b').rows ≡ true =
      rw same (any_found u.update_id (moves accepts ms b').rows found') in
    elim (Bool-cases (accepts (moves accepts ms b').calls)) [
      | inr e ↦ cc (rw e at again)
      | inl e ↦ cc (rw (e, there) at again)
    ]

-- A move that does not release the claim on a row.
abbrev Keeps : ℕ → Move → Type 0
Keeps id (Move.process (Work.reopen j)) = j ≢ id
Keeps id m = Unit

-- A row of the update is there, and none can be claimed.
abbrev IsAnswered : ℕ → List InboxRow → Type 0
IsAnswered id rs = (any (has_id id) rs ≡ true) × (any (claimable id) rs ≡ false)

-- A rewrite that keeps the ids and makes no row claimable keeps an answer.
IsAnswered-map :
    (id : ℕ) (f : InboxRow → InboxRow)
    → ((r : InboxRow) → (f r).update_id ≡ r.update_id)
    → ((r : InboxRow) → claimable id r ≡ false → claimable id (f r) ≡ false)
    → (rs : List InboxRow) → IsAnswered id rs
    → IsAnswered id (map f rs)
IsAnswered-map id f same p rs (there, none_) = (
  any-map_same (has_id id) f (λ r. rw (same r) refl) rs ∙ there,
  any-map-false (claimable id) f p rs none_,
)

IsAnswered-enqueue :
    (accepts : ℕ → Bool) (u : Update) (id : ℕ) (b : Inbox)
    → IsAnswered id b.rows
    → IsAnswered id (enqueue accepts u b).1.rows
unfolding enqueue row_of_update
IsAnswered-enqueue accepts u id b (there, none_) =
    if_split (λ (q : Result InboxError Bool × Inbox). IsAnswered id q.1.rows) (accepts b.calls)
      (λ e.
        if_split (λ (q : Result InboxError Bool × Inbox). IsAnswered id q.1.rows)
          (any (has_id u.update_id) b.rows) (λ known. (there, none_))
          (λ new.
            let other : (u.update_id == id) ≡ false = elim (Bool-cases (u.update_id == id)) [
              | inr e ↦ e
              | inl e ↦
                  let same : u.update_id ≡ id = ground (arith, e) in cc (rw same at new, there)
            ] in
            (
              any-insert_row (has_id id) (row_of_update u) b.rows ∙ rw (other, there) refl,
              any-insert_row (claimable id) (row_of_update u) b.rows ∙ rw (other, none_) refl,
            )))
      (λ e. (there, none_))

IsAnswered-work :
    (accepts : ℕ → Bool) (w : Work) (id : ℕ) (b : Inbox)
    → Keeps id (Move.process w)
    → IsAnswered id b.rows
    → IsAnswered id (work accepts w b).rows
unfolding work claim_reply mark_status fail_and_reopen
IsAnswered-work accepts (Work.claim j) id b k a =
    if_split (λ (q : Result InboxError Bool × Inbox). IsAnswered id q.1.rows) (accepts b.calls)
      (λ e. IsAnswered-map id (claim_row j) (λ r. ground arith) (λ r h. ground (arith, h)) b.rows a)
      (λ e. a)
IsAnswered-work accepts (Work.skip j) id b k a =
    if_split (λ (q : Inbox). IsAnswered id q.rows) (accepts b.calls)
      (λ e.
        IsAnswered-map id (mark_row j "skipped") (λ r. ground arith) (λ r h. ground (arith, h))
          b.rows a)
      (λ e. a)
IsAnswered-work accepts (Work.reopen j) id b k a =
    if_split (λ (q : Inbox). IsAnswered id q.rows) (accepts b.calls)
      (λ e.
        IsAnswered-map id (fail_row j) (λ r. ground arith) (λ r h. ground (arith, h, k)) b.rows a)
      (λ e. a)

IsAnswered-moves :
    (accepts : ℕ → Bool) (ms : List Move) (id : ℕ) (b : Inbox)
    → All (Keeps id) ms
    → IsAnswered id b.rows
    → IsAnswered id (moves accepts ms b).rows
unfolding moves move
IsAnswered-moves accepts [] id b k a = a
IsAnswered-moves accepts (Move.receive u ∷ ms) id b k a =
    IsAnswered-moves accepts ms id (enqueue accepts u b).1 k.1 (IsAnswered-enqueue accepts u id b a)
IsAnswered-moves accepts (Move.process w ∷ ms) id b k a =
    IsAnswered-moves accepts ms id (work accepts w b) k.1 (IsAnswered-work accepts w id b k.0 a)

claimable_there :
    (id : ℕ) (rs : List InboxRow) → any (claimable id) rs ≡ true → any (has_id id) rs ≡ true
claimable_there id [] h = cc
claimable_there id (r ∷ rs) h = elim (Bool-cases (has_id id r)) [
  | inl e ↦ rw e refl
  | inr e ↦ rw e (claimable_there id rs (rw e at h))
]

pub claimed_none :
    (id : ℕ) (rs : List InboxRow) → any (claimable id) (map (claim_row id) rs) ≡ false
claimed_none id [] = refl
claimed_none id (r ∷ rs) = ground (arith, claimed_none id rs)

claim_answers :
    (accepts : ℕ → Bool) (id : ℕ) (b : Inbox)
    → (claim_reply accepts id b).0 ≡ ok true
    → IsAnswered id (claim_reply accepts id b).1.rows
unfolding claim_reply
claim_answers accepts id b h = elim (Bool-cases (accepts b.calls)) [
  | inr e ↦ cc (rw e at h)
  | inl e ↦ rw e (
    any-map_same (has_id id) (claim_row id) (λ r. ground arith) b.rows
        ∙ claimable_there id b.rows (ok-injective (rw e at h)),
    claimed_none id b.rows,
  )
]

-- After a claim that answered true, over any moves of the transports and the workers that do not
-- release this claim, no claim of the update answers true.
pub claimed_once :
    (accepts : ℕ → Bool) (id : ℕ) (b : Inbox) (ms : List Move)
    → (claim_reply accepts id b).0 ≡ ok true
    → All (Keeps id) ms
    → (claim_reply accepts id (moves accepts ms (claim_reply accepts id b).1)).0 ≢ ok true
unfolding claim_reply
claimed_once accepts id b ms h k again =
    let b' = moves accepts ms (claim_reply accepts id b).1 in
    let (_, none_) =
      IsAnswered-moves accepts ms id (claim_reply accepts id b).1 k
        (claim_answers accepts id b h) in
    elim (Bool-cases (accepts b'.calls)) [
      | inr e ↦ cc (rw e at again)
      | inl e ↦ cc (rw (e, none_) at again)
    ]
