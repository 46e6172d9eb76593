-- ===== src/Approvals/Commands/Laws.antt =====
-- internal/telegram/hitl.go: the replies of the decision commands against the ledger.
use aegis_go.Prelude.{
  ℕ, suc, ◌≤◌, ◌≡◌, ◌≢◌, refl, ap, subst, Bool, true, false, ◌||◌, String, str_eq, List, [], ◌∷◌,
  some, map, keep, length, arith, Bool-cases, inl, inr, ◌⊎◌, if◌then◌else◌, ◌==◌, if_split, All,
}
use aegis_go.Prelude.Result.{Result, ok, err}
use aegis_go.Rules.{Text}
use aegis_go.Approvals.{
  Approval, Ledger, LedgerError, decide_approval, find_row, is_pending, decidable, decide_row, sent,
  pending_approvals,
}
use aegis_go.Approvals.Laws.{IsAscending, IsValid, IsFinal}
use aegis_go.Approvals.Laws.Finality.{decide_took, one_of_none}
use aegis_go.Approvals.Commands.{Reply, Chat, decided, decide_one, decide_text, approved, denied}

-- Where no row is decidable, or the count is not one, the write changes nothing.
map_undecidable :
    (id : ℕ) (state by : String) (now : Text) (rs : List Approval)
    → length (keep (decidable id) rs) ≡ 0
    → map (decide_row id state by now) rs ≡ rs
map_undecidable id state by now [] h = refl
map_undecidable id state by now (r ∷ rs) h = elim (Bool-cases (decidable id r)) [
  | inl e ↦ cc (rw e at h)
  | inr e ↦ rw e (ap (◌∷◌ r) (map_undecidable id state by now rs (rw e at h)))
]

count_at_most_one :
    (id : ℕ) (rs : List Approval) (low high : ℕ)
    → IsAscending low rs high
    → (length (keep (decidable id) rs) == 1) ≡ false
    → length (keep (decidable id) rs) ≡ 0
count_at_most_one id [] low high v h = refl
count_at_most_one id (r ∷ rs) low high v h = elim (Bool-cases (decidable id r)) [
  | inr e ↦ rw e (count_at_most_one id rs (suc r.id) high v.1 (rw e at h))
  | inl e ↦
      let none_ = one_of_none id rs (suc r.id) high v.1 (ground (arith, e)) in
      cc (rw (e, none_) at h)
]

-- A refused decision leaves the rows.
decide_refused :
    (accepts : ℕ → Bool) (now : Text) (id : ℕ) (state by : String) (l : Ledger)
    → IsValid l
    → (decide_approval accepts now id state by l).0 ≢ ok true
    → (decide_approval accepts now id state by l).1.rows ≡ l.rows
unfolding decide_approval
decide_refused accepts now id state by l v h =
    elim (Bool-cases (str_eq state "approved" || str_eq state "denied")) [
      | inr bad ↦ rw bad refl
      | inl good ↦ elim (Bool-cases (accepts l.calls)) [
        | inr e ↦ rw (good, e) refl
        | inl e ↦ elim (Bool-cases (length (keep (decidable id) l.rows) == 1)) [
          | inl one ↦ elim (h (rw (good, e, one) refl)) [ ]
          | inr other ↦
              rw (good, e)
                (map_undecidable id state by now l.rows
                  (count_at_most_one id l.rows 0 l.next_id v other))
        ]
      ]
    ]

abbrev verdict_reply : String → ℕ → Reply
verdict_reply state id = if str_eq state "approved" then approved id else denied id

-- The command took the decision and says so; or it says otherwise and did nothing.
abbrev pub IsHonest : Text → ℕ → String → String → Chat → Reply × Chat → Type 0
IsHonest now id state by c (reply, c') =
    ((a : Approval) × (find_row id c.ledger.rows ≡ some a)
      × (a.state ≡ "pending")
      × (find_row id c'.ledger.rows
          ≡ some (record a { state = state; decided_by = by; decided_at = now }))
      × (reply ≡ verdict_reply state id)
      × (c'.notified ≡ record { id = id; state = state; decided_by = by } ∷ c.notified))
    ⊎ ((reply ≢ approved id)
        × (reply ≢ denied id)
        × (c'.ledger.rows ≡ c.ledger.rows)
        × (c'.notified ≡ c.notified))

decided-IsHonest :
    (now : Text) (id : ℕ) (state by : String) (c : Chat) (q : Result LedgerError Bool × Ledger)
    → (q.0 ≡ ok true
        → (a : Approval) × (find_row id c.ledger.rows ≡ some a)
          × (a.state ≡ "pending")
          × (find_row id q.1.rows
              ≡ some (record a { state = state; decided_by = by; decided_at = now }))
          × IsFinal state)
    → (q.0 ≢ ok true → q.1.rows ≡ c.ledger.rows)
    → IsHonest now id state by c (decided id state by c.notified q)
decided-IsHonest now id state by c (err e, l) took kept =
    inr ((λ p. cc), (λ p. cc), kept (λ p. cc), refl)
decided-IsHonest now id state by c (ok false, l) took kept =
    inr ((λ p. cc), (λ p. cc), kept (λ p. cc), refl)
decided-IsHonest now id state by c (ok true, l) took kept =
    let (a, found, pending, after, _) = took refl in inl (a, found, pending, after, refl, refl)

-- On a ledger whose ids are keys, a decision command either took the decision (the row was pending,
-- has the verdict now, the callback is called once) and reports it, or reports no success, changes
-- no row and does not call the callback.
pub decide_one-IsHonest :
    (accepts : ℕ → Bool) (now : Text) (id : ℕ) (state by : String) (c : Chat)
    → IsValid c.ledger
    → IsHonest now id state by c (decide_one accepts now id state by c)
unfolding decide_one
decide_one-IsHonest accepts now id state by c v =
    decided-IsHonest now id state by c (decide_approval accepts now id state by c.ledger)
      (decide_took accepts now id state by c.ledger v)
      (decide_refused accepts now id state by c.ledger v)

-- The head of the pending rows has the lowest id of them.
abbrev Lowest : Approval → List Approval → Type 0
Lowest a rs = All (λ b. a.id ≤ b.id) (keep is_pending rs)

above_all :
    (a : Approval) (rs : List Approval) (low high : ℕ)
    → IsAscending low rs high
    → a.id ≤ low
    → Lowest a rs
above_all a [] low high v h = tt
above_all a (r ∷ rs) low high v h =
    let rest = above_all a rs (suc r.id) high v.1 (omega (arith, h, v.0)) in
    if_split (λ xs. All (λ b. a.id ≤ b.id) xs) (is_pending r) (λ _. (omega (arith, h, v.0), rest))
      (λ _. rest)

abbrev head_or : Approval → List Approval → Approval
head_or d [] = d
head_or d (x ∷ xs) = x

head-Lowest :
    (a : Approval) (rs ps : List Approval) (low high : ℕ)
    → IsAscending low rs high
    → keep is_pending rs ≡ a ∷ ps
    → Lowest a rs
head-Lowest a [] ps low high v h = tt
head-Lowest a (r ∷ rs) ps low high v h = elim (Bool-cases (is_pending r)) [
  | inr e ↦ rw e (head-Lowest a rs ps (suc r.id) high v.1 (rw e at h))
  | inl e ↦
      let same : r ≡ a = ap (head_or a) (rw e at h) in
      let lowest : Lowest r (r ∷ rs) =
        rw e (omega arith, above_all r rs (suc r.id) high v.1 (omega arith)) in
      subst (λ x. Lowest x (r ∷ rs)) same lowest
]

-- With a query that succeeds and some pending row on a ledger whose ids are keys, the bare command
-- is the decision of a pending row whose id is the lowest of the pending ones.
decide_text_oldest :
    (accepts : ℕ → Bool) (now : Text) (state by : String) (c : Chat) {a : Approval}
    {ps : List Approval}
    → IsValid c.ledger
    → accepts c.ledger.calls ≡ true
    → keep is_pending c.ledger.rows ≡ a ∷ ps
    → Lowest a c.ledger.rows
      × (decide_text accepts now state by c
          ≡ decide_one accepts now a.id state by (record c { ledger = sent c.ledger }))
unfolding decide_text pending_approvals
decide_text_oldest accepts now state by c {a} {ps} v yes_ h =
    (head-Lowest a c.ledger.rows ps 0 c.ledger.next_id v h, rw (yes_, h) refl)
