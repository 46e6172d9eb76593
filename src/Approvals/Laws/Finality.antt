-- ===== src/Approvals/Laws/Finality.antt =====
-- internal/store/approvals.go: a request and its decision over any further use of the ledger.
use aegis_go.Prelude.{
  ℕ, suc, ◌<◌, ◌≡◌, ◌≢◌, refl, sym, ◌∙◌, ap, subst, Bool, true, ◌||◌, String, str_eq, eq_iff, List,
  [], ◌∷◌, ◌++◌, none, some, map, keep, length, arith, Option-cases, Bool-cases, inl, inr, ◌==◌,
}
use mathlib.Core.Option.{some-injective}
use aegis_go.Prelude.Result.{ok, ok-injective}
use aegis_go.Rules.{Text}
use aegis_go.Approvals.{
  Approval, Ledger, Move, decide_approval, find_row, is_pending, decidable, decide_row, move, moves,
}
use aegis_go.Approvals.Laws.{
  IsAscending, IsValid, IsLater, IsFinal, IsLater-trans, not_pending, verdict_IsFinal, Effect,
  move-Effect, moves-IsValid, move-IsValid,
}

-- The row with an id is a later version of the one it was.
abbrev pub Continues : ℕ → List Approval → List Approval → Type 0
Continues id rs rs' =
    (a : Approval)
    → find_row id rs ≡ some a
    → (b : Approval) × (find_row id rs' ≡ some b) × IsLater a b

Continues-refl : (id : ℕ) (rs : List Approval) → Continues id rs rs
Continues-refl id rs a h = (a, h, inl refl)

Continues-append : (id : ℕ) (rs : List Approval) (r : Approval) → Continues id rs (rs ++ r ∷ [])
Continues-append id [] r a h = cc
Continues-append id (x ∷ rs) r a h = elim (Bool-cases (x.id == id)) [
  | inl e ↦ (a, ground (arith, e, h), inl refl)
  | inr e ↦ rw e (Continues-append id rs r a (rw e at h))
]

-- A write row by row that only takes rows out of `pending`.
Continues-map :
    (f : Approval → Approval)
    → ((r : Approval) → IsLater r (f r) × ((f r).id ≡ r.id))
    → (id : ℕ) (rs : List Approval) → Continues id rs (map f rs)
Continues-map f p id [] a h = cc
Continues-map f p id (x ∷ rs) a h = elim (Bool-cases (x.id == id)) [
  | inl e ↦ (
    f x,
    rw (p x).1 (rw e refl),
    subst (λ y. IsLater y (f x)) (some-injective x a (rw e at h)) (p x).0,
  )
  | inr e ↦ rw (p x).1 (rw e (Continues-map f p id rs a (rw e at h)))
]

Continues-Effect : (id : ℕ) {l l' : Ledger} → Effect l l' → Continues id l.rows l'.rows
Continues-Effect id {l} (Effect.same e n) = rw e (Continues-refl id l.rows)
Continues-Effect id {l} (Effect.added r i e n) = rw e (Continues-append id l.rows r)
Continues-Effect id {l} (Effect.rewritten f p e n) = rw e (Continues-map f p id l.rows)

-- Over any further use of the ledger, whatever the driver answers, the row of a request stays in
-- the table under its id; what was asked never changes; and its state is unchanged, or it was
-- pending and became approved, denied or expired.
pub requests_continue :
    (accepts : ℕ → Bool) (ms : List Move) (id : ℕ) (l : Ledger)
    → Continues id l.rows (moves accepts ms l).rows
unfolding moves
requests_continue accepts [] id l a h = (a, h, inl refl)
requests_continue accepts (m ∷ ms) id l a h =
    let (b, found, first) = Continues-Effect id (move-Effect accepts m l) a h in
    let (c, found', then_) = requests_continue accepts ms id (move accepts m l) b found in
    (c, found', IsLater-trans a b c first then_)

pub one_of_none :
    (id : ℕ) (rs : List Approval) (low high : ℕ)
    → IsAscending low rs high
    → id < low
    → length (keep (decidable id) rs) ≡ 0
one_of_none id [] low high v below = refl
one_of_none id (r ∷ rs) low high v below =
    ground (arith, one_of_none id rs (suc r.id) high v.1, v.0, below)

-- Where ids name one row, a pending row is the only one that its decision touches.
count_decidable :
    (id : ℕ) (rs : List Approval) (low high : ℕ) {a : Approval}
    → IsAscending low rs high
    → find_row id rs ≡ some a
    → (length (keep (decidable id) rs) == 1) ≡ is_pending a
count_decidable id [] low high v h = cc
count_decidable id (r ∷ rs) low high {a} v h = elim (Bool-cases (r.id == id)) [
  | inr e ↦ rw e (count_decidable id rs (suc r.id) high v.1 (rw e at h))
  | inl e ↦
      let alone = one_of_none id rs (suc r.id) high v.1 (ground (arith, e)) in
      elim (Bool-cases (is_pending r)) [
        | inl w ↦ rw (e, w, alone) (sym (ap is_pending (sym (some-injective r a (rw e at h))) ∙ w))
        | inr w ↦ rw (e, w, alone) (sym (ap is_pending (sym (some-injective r a (rw e at h))) ∙ w))
      ]
]

count_missing :
    (id : ℕ) (rs : List Approval) → find_row id rs ≡ none → length (keep (decidable id) rs) ≡ 0
count_missing id [] h = refl
count_missing id (r ∷ rs) h = elim (Bool-cases (r.id == id)) [
  | inl e ↦ cc (rw e at h)
  | inr e ↦ rw e (count_missing id rs (rw e at h))
]

find_row-decide_row :
    (id : ℕ) (state decided_by : String) (now : Text) (rs : List Approval) {a : Approval}
    → find_row id rs ≡ some a
    → is_pending a ≡ true
    → find_row id (map (decide_row id state decided_by now) rs)
      ≡ some (record a { state = state; decided_by = decided_by; decided_at = now })
find_row-decide_row id state decided_by now [] h w = cc
find_row-decide_row id state decided_by now (r ∷ rs) {a} h w = elim (Bool-cases (r.id == id)) [
  | inr e ↦ rw (e, e) (find_row-decide_row id state decided_by now rs (rw e at h) w)
  | inl e ↦
      let same = some-injective r a (rw e at h) in
      let pending = ap is_pending same ∙ w in
      rw (e, pending, e)
        (ap
          (λ (x : Approval).
            some (record x { state = state; decided_by = decided_by; decided_at = now }))
          same)
]

-- Who decides a request: on a table whose ids are keys, the call that answers `true` found the row
-- pending and leaves it with this decision, which is final.
pub decide_took :
    (accepts : ℕ → Bool) (now : Text) (id : ℕ) (state decided_by : String) (l : Ledger)
    → IsValid l
    → (decide_approval accepts now id state decided_by l).0 ≡ ok true
    → (a : Approval) × (find_row id l.rows ≡ some a)
      × (a.state ≡ "pending")
      × (find_row id (decide_approval accepts now id state decided_by l).1.rows
          ≡ some (record a { state = state; decided_by = decided_by; decided_at = now }))
      × IsFinal state
unfolding decide_approval
decide_took accepts now id state decided_by l v h =
    elim (Bool-cases (str_eq state "approved" || str_eq state "denied")) [
      | inr bad ↦ cc (rw bad at h)
      | inl good ↦ elim (Bool-cases (accepts l.calls)) [
        | inr e ↦ cc (rw (good, e) at h)
        | inl e ↦ elim (Option-cases (find_row id l.rows)) [
          | inl missing ↦ cc (rw (good, e, count_missing id l.rows missing) at h)
          | inr (a, found) ↦
              let w =
                ok-injective (rw (good, e, count_decidable id l.rows 0 l.next_id v found) at h) in
              (
                a,
                found,
                (eq_iff a.state "pending").0 w,
                rw (good, e) (find_row-decide_row id state decided_by now l.rows found w),
                verdict_IsFinal state good,
              )
        ]
      ]
    ]

-- On a ledger whose ids are keys, after a decision that answered true, over any further use of the
-- ledger, no decision on the same request answers true again, whatever it asks for.
pub decided_once :
    (accepts : ℕ → Bool) (now : Text) (id : ℕ) (state decided_by : String) (l : Ledger)
    (ms : List Move) (now' : Text) (state' decided_by' : String)
    → IsValid l
    → (decide_approval accepts now id state decided_by l).0 ≡ ok true
    → (decide_approval accepts now' id state' decided_by'
        (moves accepts ms (decide_approval accepts now id state decided_by l).1)).0
      ≢ ok true
unfolding move
decided_once accepts now id state decided_by l ms now' state' decided_by' v h again =
    let (a, _, _, took, final) = decide_took accepts now id state decided_by l v h in
    let l' = (decide_approval accepts now id state decided_by l).1 in
    let v' = move-IsValid accepts (Move.decide now id state decided_by) l v in
    let (b, found, later) = requests_continue accepts ms id l' _ took in
    let (c, found', pending, _, _) =
      decide_took accepts now' id state' decided_by' (moves accepts ms l')
        (moves-IsValid accepts ms l' v') again in
    let b_pending =
      ap (λ (x : Approval). x.state) (some-injective b c (sym found ∙ found')) ∙ pending in
    elim later [
      | inl e ↦ not_pending final (sym (ap (λ (x : Approval). x.state) e) ∙ b_pending)
      | inr (p, _, _) ↦ not_pending final p
    ]
