-- ===== src/Inbox/Laws/Processed.antt =====
-- internal/telegram/poll.go and inbox.go: acknowledged updates, refused enqueues and released
-- claims.
use aegis_go.Prelude.{
  any-keep_none, any-take_none, ℕ, zero, suc, ◌+◌, ◌≤◌, ◌<◌, ◌≡◌, ◌≢◌, refl, sym, ◌∙◌, ap, subst,
  Bool, true, false, eq_iff, List, [], ◌∷◌, some, map, keep, any, take, length, arith, Bool-cases,
  inl, inr, ◌==◌, All,
}
use mathlib.Core.Option.{some-injective}
use aegis_go.Inbox.{
  Update, InboxRow, Inbox, has_id, enqueue, is_pending, Work, works, sent, pending, ack_to, advance,
  advance_past, advance_with, advance_high_water, enqueue_all, poll_batch, page, fail_row,
  fail_and_reopen,
}
use aegis_go.Inbox.Laws.{Move, moves, find_row, rows_continue}
use aegis_go.Inbox.Laws.Replies.{found_any}
use aegis_go.Inbox.Laws.Acknowledge.{
  IsBatch, Clear, Present, waiting_in, Recorded-All, advance-Clear, advance-rows, moves-acked,
  works_moves, enqueue_all_moves, any_moves, water, Recorded,
}

none_below : (n : ℕ) → ¬ (suc n ≤ 0)
none_below n h = omega arith

take_short {ℓ} : {A : Type ℓ} (n : ℕ) (xs : List A) → length xs ≤ n → take n xs ≡ xs
take_short zero [] h = refl
take_short zero (x ∷ xs) h = elim (none_below (length xs) h) [ ]
take_short (suc n) [] h = refl
take_short (suc n) (x ∷ xs) h = ap (◌∷◌ x) (take_short n xs (omega (arith, h)))

-- A row outside the pending ones is not pending.
kept_pending :
    (id : ℕ) (rs : List InboxRow) {r : InboxRow}
    → any (has_id id) (keep is_pending rs) ≡ false
    → find_row id rs ≡ some r
    → is_pending r ≡ false
kept_pending id [] h found = cc
kept_pending id (x ∷ rs) {r} h found = elim (Bool-cases (is_pending x)) [
  | inl w ↦ elim (Bool-cases (has_id id x)) [
    | inl e ↦ cc (rw (w, e) at h)
    | inr e ↦ kept_pending id rs (rw (w, e) at h) (rw e at found)
  ]
  | inr w ↦ elim (Bool-cases (has_id id x)) [
    | inl e ↦ sym (ap is_pending (some-injective x r (rw e at found))) ∙ w
    | inr e ↦ kept_pending id rs (rw w at h) (rw e at found)
  ]
]

-- The update has a row, which is not pending.
abbrev pub IsProcessed : Inbox → Update → Type 0
IsProcessed b u = (r : InboxRow) × (find_row u.update_id b.rows ≡ some r) × (r.status ≢ "pending")

IsProcessed-All :
    (b b' : Inbox) (k : ℕ) (us : List Update)
    → b'.rows ≡ b.rows
    → length (keep is_pending b.rows) ≤ page
    → All (Present b) us
    → All (Clear (waiting_in b) k) us
    → All (λ u. u.update_id ≤ k → IsProcessed b' u) us
IsProcessed-All b b' k [] same short there clear = tt
IsProcessed-All b b' k (u ∷ us) same short there clear = (
  λ reached.
      let (r, found) = found_any u.update_id b.rows there.0 in
      let outside = rw (take_short page (keep is_pending b.rows) short) at (clear.0 reached) in
      (
        r,
        rw same found,
        λ p. cc ((eq_iff r.status "pending").1 p, kept_pending u.update_id b.rows outside found),
      ),
  IsProcessed-All b b' k us same short there.1 clear.1,
)

Present-moves :
    (accepts : ℕ → Bool) (ms : List Move) (b : Inbox) (us : List Update)
    → All (Present b) us
    → All (Present (moves accepts ms b)) us
Present-moves accepts ms b [] h = tt
Present-moves accepts ms b (u ∷ us) h =
    (any_moves accepts ms u.update_id b h.0, Present-moves accepts ms b us h.1)

works-acked :
    (accepts : ℕ → Bool) (ws : List Work) (us : List Update) (b : Inbox)
    → (works accepts ws (enqueue_all accepts us b)).acked ≡ b.acked
works-acked accepts ws us b =
    ap (λ (x : Inbox). x.acked) (works_moves accepts ws (enqueue_all accepts us b))
    ∙ moves-acked accepts (map Move.process ws) (enqueue_all accepts us b)
    ∙ ap (λ (x : Inbox). x.acked) (enqueue_all_moves accepts us b)
    ∙ moves-acked accepts (map Move.receive us) b

-- Where a batch comes above the acknowledged id, each of its enqueues succeeds and at most a page
-- of rows is pending when the loop looks, every update of the batch that the new acknowledged id
-- covers has a row in the inbox that is no longer pending, whatever the workers do in between and
-- whichever other statement the driver refuses.
pub acknowledged-IsProcessed :
    (accepts : ℕ → Bool) (us : List Update) (ws : List Work) (b : Inbox)
    → IsBatch (water b) us
    → Recorded accepts us b
    → length (keep is_pending (works accepts ws (enqueue_all accepts us b)).rows) ≤ page
    → All
        (λ u.
          u.update_id ≤ water (poll_batch accepts us ws b)
          → IsProcessed (poll_batch accepts us ws b) u)
        us
unfolding poll_batch
acknowledged-IsProcessed accepts [] ws b v h short = tt
acknowledged-IsProcessed accepts (u ∷ us) ws b v h short =
    let b' = works accepts ws (enqueue_all accepts (u ∷ us) b) in
    let b'' = advance accepts (u ∷ us) b' in
    let level : b'.acked ≡ b.acked = works-acked accepts ws (u ∷ us) b in
    IsProcessed-All b' b'' (water b'') (u ∷ us) (advance-rows accepts (u ∷ us) b') short
      (subst (λ (x : Inbox). All (Present x) (u ∷ us))
        (sym (works_moves accepts ws (enqueue_all accepts (u ∷ us) b)))
        (Present-moves accepts (map Move.process ws) (enqueue_all accepts (u ∷ us) b) (u ∷ us)
          (Recorded-All accepts (u ∷ us) b h)))
      (advance-Clear accepts (u ∷ us) b' (rw level v))

refused_enqueue :
    (accepts : ℕ → Bool) (u : Update) (b : Inbox)
    → accepts b.calls ≡ false
    → (enqueue accepts u b).1 ≡ sent b
unfolding enqueue
refused_enqueue accepts u b h = rw h refl

advance_one :
    (accepts : ℕ → Bool) (u : Update) (b : Inbox)
    → (u.update_id == 0) ≡ false
    → waiting_in b u.update_id ≡ false
    → accepts b.calls ≡ true
    → accepts (b.calls + 1) ≡ true
    → advance accepts (u ∷ []) b ≡ record (sent (sent b)) { acked = some u.update_id }
unfolding advance advance_with advance_past advance_high_water pending ack_to
advance_one accepts u b positive outside read_ wrote =
    rw (read_, positive, outside, positive, wrote) refl

-- Where the enqueue of a batch's only update, which the inbox does not hold, fails and the two
-- statements of the acknowledgement succeed, the update is acknowledged and the inbox has no row of
-- it.
pub failed_enqueue_acknowledged :
    (accepts : ℕ → Bool) (u : Update) (b : Inbox)
    → 0 < u.update_id
    → any (has_id u.update_id) b.rows ≡ false
    → accepts b.calls ≡ false
    → accepts (b.calls + 1) ≡ true
    → accepts (b.calls + 1 + 1) ≡ true
    → ((poll_batch accepts (u ∷ []) [] b).acked ≡ some u.update_id)
      × (any (has_id u.update_id) (poll_batch accepts (u ∷ []) [] b).rows ≡ false)
unfolding poll_batch enqueue_all works
failed_enqueue_acknowledged accepts u b positive new refused read_ wrote =
    let outside =
      any-take_none (has_id u.update_id) page (keep is_pending b.rows)
        (any-keep_none (has_id u.update_id) is_pending b.rows new) in
    let nonzero : (u.update_id == 0) ≡ false = ground (arith, positive) in
    rw (refused_enqueue accepts u b refused)
      (rw (advance_one accepts u (sent b) nonzero outside read_ wrote) (refl, new))

find_row-map :
    (f : InboxRow → InboxRow)
    → ((r : InboxRow) → (f r).update_id ≡ r.update_id)
    → (id : ℕ) (rs : List InboxRow) {a : InboxRow} → find_row id rs ≡ some a
    → find_row id (map f rs) ≡ some (f a)
find_row-map f same id [] h = cc
find_row-map f same id (r ∷ rs) {a} h = elim (Bool-cases (has_id id r)) [
  | inl e ↦
      subst (λ y. find_row id (map f (r ∷ rs)) ≡ some (f y)) (some-injective r a (rw e at h))
        (rw (same r) (rw e refl))
  | inr e ↦ rw (same r) (rw e (find_row-map f same id rs (rw e at h)))
]

failed_pending :
    (id : ℕ) (rs : List InboxRow) {a : InboxRow}
    → find_row id rs ≡ some a
    → is_pending (fail_row id a) ≡ false
failed_pending id [] h = cc
failed_pending id (r ∷ rs) {a} h = elim (Bool-cases (has_id id r)) [
  | inl e ↦ ap is_pending (ap (fail_row id) (sym (some-injective r a (rw e at h)))) ∙ rw e refl
  | inr e ↦ failed_pending id rs (rw e at h)
]

-- After a release has been written, over any moves, the row of the update is there and is not
-- pending.
released_not_pending :
    (accepts : ℕ → Bool) (id : ℕ) (b : Inbox) (ms : List Move) (a : InboxRow)
    → accepts b.calls ≡ true
    → find_row id b.rows ≡ some a
    → (r : InboxRow) × (find_row id (moves accepts ms (fail_and_reopen accepts id b)).rows ≡ some r)
      × (is_pending r ≡ false)
unfolding fail_and_reopen
released_not_pending accepts id b ms a wrote h =
    let b' = fail_and_reopen accepts id b in
    let found : find_row id b'.rows ≡ some (fail_row id a) =
      rw wrote (find_row-map (fail_row id) (λ x. ground arith) id b.rows h) in
    let (r, found', later) = rows_continue accepts ms id b' _ found in
    (
      r,
      found',
      elim (Bool-cases (is_pending r)) [
        | inr e ↦ e
        | inl e ↦
            let p = later.was_pending ((eq_iff r.status "pending").0 e) in
            cc ((eq_iff (fail_row id a).status "pending").1 p, failed_pending id b.rows h)
      ],
    )
