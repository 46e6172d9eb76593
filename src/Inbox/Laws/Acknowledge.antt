-- ===== src/Inbox/Laws/Acknowledge.antt =====
-- internal/telegram/poll.go: what the acknowledgement of a batch says of its updates.
use aegis_go.Prelude.{
  ℕ, ◌+◌, ◌≤◌, ◌<◌, ◌≡◌, refl, ◌∙◌, Bool, true, false, List, [], ◌∷◌, map, keep, any, take, arith,
  inl, inr, ◌⊎◌, ◌==◌, if_split, All,
}
use aegis_go.Prelude.Result.{Result, ok}
use aegis_go.Inbox.{
  Update, InboxRow, Inbox, InboxError, has_id, enqueue, is_pending, Work, work, works, pending,
  ack_to, in_page, advance, advance_past, advance_with, advance_high_water, enqueue_all, page,
  acked_id, claim_reply, mark_status, fail_and_reopen,
}
use aegis_go.Inbox.Laws.{Move, move, moves, rows_continue}
use aegis_go.Inbox.Laws.Replies.{enqueue_records, found_any, any_found}

-- Ids ascend from above a bound, as Telegram delivers them for an offset.
abbrev pub IsBatch : ℕ → List Update → Type 0
IsBatch low [] = Unit
IsBatch low (u ∷ us) = (low < u.update_id) × IsBatch u.update_id us

abbrev pub Clear : (ℕ → Bool) → ℕ → Update → Type 0
Clear waiting k u = u.update_id ≤ k → waiting u.update_id ≡ false

between : (id low k : ℕ) → low < id → id ≤ k → ¬ (k ≤ low)
between id low k above reached h = omega arith

Clear-above :
    (waiting : ℕ → Bool) (k low : ℕ) (us : List Update)
    → IsBatch low us
    → k ≤ low
    → All (Clear waiting k) us
Clear-above waiting k low [] v h = tt
Clear-above waiting k low (u ∷ us) v h = (
  λ reached. elim (between u.update_id low k v.0 reached h) [ ],
  Clear-above waiting k u.update_id us v.1 (omega (arith, h, v.0)),
)

abbrev Sound : (ℕ → Bool) → ℕ → ℕ → List Update → ℕ → Type 0
Sound waiting acc low us k = All (Clear waiting k) us × ((k ≡ acc) ⊎ (low < k))

-- The acknowledged id is the given one or that of an update, and it is past no waiting update.
ack_to-Sound :
    (waiting : ℕ → Bool) (us : List Update) (acc low : ℕ)
    → IsBatch low us
    → acc ≤ low
    → Sound waiting acc low us (ack_to waiting us acc)
unfolding ack_to
ack_to-Sound waiting [] acc low v h = (tt, inl refl)
ack_to-Sound waiting (u ∷ us) acc low v h =
    if_split (Sound waiting acc low (u ∷ us)) (u.update_id == 0)
      (λ zero_. elim (between u.update_id low low v.0 (ground (arith, zero_)) (omega arith)) [ ])
      (λ _.
        if_split (Sound waiting acc low (u ∷ us)) (waiting u.update_id)
          (λ e. (Clear-above waiting acc low (u ∷ us) v h, inl refl))
          (λ e.
            let (clear, reach) =
              ack_to-Sound waiting us u.update_id u.update_id v.1 (omega arith) in
            (
              ((λ _. e), clear),
              inr (elim reach [ inl same ↦ rw same v.0 | inr past ↦ omega (arith, past, v.0) ]),
            )))

-- The last acknowledged id.
abbrev pub water : Inbox → ℕ
water b = acked_id b.acked

pub enqueue_all_moves :
    (accepts : ℕ → Bool) (us : List Update) (b : Inbox)
    → enqueue_all accepts us b ≡ moves accepts (map Move.receive us) b
unfolding enqueue_all moves move
enqueue_all_moves accepts [] b = refl
enqueue_all_moves accepts (u ∷ us) b = enqueue_all_moves accepts us (enqueue accepts u b).1

pub works_moves :
    (accepts : ℕ → Bool) (ws : List Work) (b : Inbox)
    → works accepts ws b ≡ moves accepts (map Move.process ws) b
unfolding works moves move
works_moves accepts [] b = refl
works_moves accepts (w ∷ ws) b = works_moves accepts ws (work accepts w b)

move-acked : (accepts : ℕ → Bool) (m : Move) (b : Inbox) → (move accepts m b).acked ≡ b.acked
unfolding move enqueue work claim_reply mark_status fail_and_reopen
move-acked accepts (Move.receive u) b = ground arith
move-acked accepts (Move.process (Work.claim id)) b = ground arith
move-acked accepts (Move.process (Work.skip id)) b = ground arith
move-acked accepts (Move.process (Work.reopen id)) b = ground arith

pub moves-acked :
    (accepts : ℕ → Bool) (ms : List Move) (b : Inbox) → (moves accepts ms b).acked ≡ b.acked
unfolding moves
moves-acked accepts [] b = refl
moves-acked accepts (m ∷ ms) b = moves-acked accepts ms (move accepts m b) ∙ move-acked accepts m b

-- Every enqueue of the batch succeeds.
abbrev pub Recorded : (ℕ → Bool) → List Update → Inbox → Type 0
Recorded accepts [] b = Unit
Recorded accepts (u ∷ us) b =
    ((known : Bool) × ((enqueue accepts u b).0 ≡ ok known))
    × Recorded accepts us (enqueue accepts u b).1

pub any_moves :
    (accepts : ℕ → Bool) (ms : List Move) (id : ℕ) (b : Inbox)
    → any (has_id id) b.rows ≡ true
    → any (has_id id) (moves accepts ms b).rows ≡ true
any_moves accepts ms id b h =
    let (a, found) = found_any id b.rows h in
    let (c, found', _) = rows_continue accepts ms id b a found in
    any_found id (moves accepts ms b).rows found'

abbrev pub Present : Inbox → Update → Type 0
Present b u = any (has_id u.update_id) b.rows ≡ true

pub Recorded-All :
    (accepts : ℕ → Bool) (us : List Update) (b : Inbox)
    → Recorded accepts us b
    → All (Present (enqueue_all accepts us b)) us
unfolding enqueue_all
Recorded-All accepts [] b h = tt
Recorded-All accepts (u ∷ us) b ((known, e), h) =
    let b' = (enqueue accepts u b).1 in
    (
      rw (enqueue_all_moves accepts us b') (
          any_moves accepts (map Move.receive us) u.update_id b'
            (enqueue_records accepts u b known e)),
      Recorded-All accepts us b' h,
    )

pub advance-rows :
    (accepts : ℕ → Bool) (us : List Update) (b : Inbox) → (advance accepts us b).rows ≡ b.rows
unfolding advance advance_with advance_past advance_high_water pending
advance-rows accepts us b = ground arith

abbrev pub waiting_in : Inbox → ℕ → Bool
waiting_in b = in_page (take page (keep is_pending b.rows))

pub advance-Clear :
    (accepts : ℕ → Bool) (us : List Update) (b : Inbox)
    → IsBatch (water b) us
    → All (Clear (waiting_in b) (water (advance accepts us b))) us
unfolding advance advance_with advance_past advance_high_water pending
advance-Clear accepts us b v =
    let stay = Clear-above (waiting_in b) (water b) (water b) us v (omega arith) in
    let (clear, _) = ack_to-Sound (waiting_in b) us 0 (water b) v (omega arith) in
    if_split
      (λ (q : Result InboxError (List InboxRow) × Inbox).
        All (Clear (waiting_in b) (water (advance_with accepts us q))) us)
      (accepts b.calls)
      (λ e.
        if_split (λ (q : Inbox). All (Clear (waiting_in b) (water q)) us)
          (ack_to (waiting_in b) us 0 == 0) (λ _. stay)
          (λ _.
            if_split (λ (q : Inbox). All (Clear (waiting_in b) (water q)) us)
              (accepts (b.calls + 1)) (λ _. clear) (λ _. stay)))
      (λ e. stay)
