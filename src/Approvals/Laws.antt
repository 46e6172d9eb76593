-- ===== src/Approvals/Laws.antt =====
-- internal/store/approvals.go: the rows of the ledger, and what one use of it does to them.
use aegis_go.Prelude.{
  different, ℕ, zero, suc, ◌+◌, ◌≤◌, ◌<◌, ◌≡◌, ◌≢◌, refl, sym, ◌∙◌, ap, subst, Bool, true, false,
  ◌&&◌, ◌||◌, String, str_eq, eq_iff, eq_refl, List, [], ◌∷◌, ◌++◌, Option, none, some, map, keep,
  take, length, arith, Bool-cases, inl, inr, ◌⊎◌, if◌then◌else◌, ltb, ◌==◌, if_split,
}
pub mod Finality
use mathlib.Core.Option
use aegis_go.Prelude.Result.{Result, ok, err}
use aegis_go.Rules.{Text}
use aegis_go.Approvals.{
  Approval, Ledger, LedgerError, Move, create_approval, decide_approval, expire_approvals, find_row,
  new_row, is_pending, decidable, decide_row, overdue, expire_row, move, moves, sent, text_before,
}

-- Ids ascend in the order of the table and stay below the next key.
abbrev pub IsAscending : ℕ → List Approval → ℕ → Type 0
IsAscending low [] high = low ≤ high
IsAscending low (r ∷ rs) high = (low ≤ r.id) × IsAscending (suc r.id) rs high

abbrev pub IsValid : Ledger → Type 0
IsValid l = IsAscending 0 l.rows l.next_id

IsAscending-append :
    (low : ℕ) (rs : List Approval) (r : Approval)
    → IsAscending low rs r.id
    → IsAscending low (rs ++ r ∷ []) (suc r.id)
IsAscending-append low [] r h = (h, omega arith)
IsAscending-append low (x ∷ rs) r h = (h.0, IsAscending-append (suc x.id) rs r h.1)

-- A write that keeps the ids keeps their order.
IsAscending-map :
    (f : Approval → Approval)
    → ((r : Approval) → (f r).id ≡ r.id)
    → (low : ℕ) (rs : List Approval) (high : ℕ) → IsAscending low rs high
    → IsAscending low (map f rs) high
IsAscending-map f same low [] high h = h
IsAscending-map f same low (r ∷ rs) high h =
    rw (same r) (h.0, IsAscending-map f same (suc r.id) rs high h.1)

-- What was asked.
pub record IsSameRequest (a b : Approval) : Type 0 where
  pub id : b.id ≡ a.id
  pub created_at : b.created_at ≡ a.created_at
  pub kind : b.kind ≡ a.kind
  pub payload : b.payload ≡ a.payload
  pub reason : b.reason ≡ a.reason

abbrev pub IsFinal : String → Type 0
IsFinal state = (state ≡ "approved") ⊎ ((state ≡ "denied") ⊎ (state ≡ "expired"))

-- A row and a later version of it: unchanged, or the same request taken out of `pending`.
abbrev pub IsLater : Approval → Approval → Type 0
IsLater a b = (b ≡ a) ⊎ ((a.state ≡ "pending") × IsSameRequest a b × IsFinal b.state)

pub not_pending : {state : String} → IsFinal state → state ≢ "pending"
not_pending (inl f) p = different "approved" "pending" refl (sym f ∙ p)
not_pending (inr (inl f)) p = different "denied" "pending" refl (sym f ∙ p)
not_pending (inr (inr f)) p = different "expired" "pending" refl (sym f ∙ p)

pub IsLater-trans : (a b c : Approval) → IsLater a b → IsLater b c → IsLater a c
IsLater-trans a b c (inl e) q = subst (λ x. IsLater x c) e q
IsLater-trans a b c (inr p) (inl e) = subst (IsLater a) (sym e) (inr p)
IsLater-trans a b c (inr p) (inr q) = elim (not_pending p.2 q.0) [ ]

-- One use of the ledger leaves the table, adds a row under the next key, or rewrites the rows one by
-- one.
pub data Effect (l l' : Ledger) : Type 0 where
  same : l'.rows ≡ l.rows → l'.next_id ≡ l.next_id → Effect l l'
  added :
      (r : Approval)
      → r.id ≡ l.next_id
      → l'.rows ≡ l.rows ++ r ∷ []
      → l'.next_id ≡ suc l.next_id
      → Effect l l'
  rewritten :
      (f : Approval → Approval)
      → ((r : Approval) → IsLater r (f r) × ((f r).id ≡ r.id))
      → l'.rows ≡ map f l.rows
      → l'.next_id ≡ l.next_id
      → Effect l l'

either : (a b : Bool) → (a || b) ≡ true → (a ≡ true) ⊎ (b ≡ true)
either true b h = inl refl
either false b h = inr h

both : (a b : Bool) → (a && b) ≡ true → (a ≡ true) × (b ≡ true)
both true b h = (refl, h)
both false b h = cc

pub verdict_IsFinal :
    (state : String) → (str_eq state "approved" || str_eq state "denied") ≡ true → IsFinal state
verdict_IsFinal state h = elim (either (str_eq state "approved") (str_eq state "denied") h) [
  | inl e ↦ inl ((eq_iff state "approved").0 e)
  | inr e ↦ inr (inl ((eq_iff state "denied").0 e))
]

decide_row-IsLater :
    (id : ℕ) (state decided_by : String) (now : Text)
    → IsFinal state
    → (r : Approval)
    → IsLater r (decide_row id state decided_by now r)
      × ((decide_row id state decided_by now r).id ≡ r.id)
decide_row-IsLater id state decided_by now final r =
    if_split (λ b. IsLater r b × (b.id ≡ r.id)) (decidable id r)
      (λ e. (
        inr (
          (eq_iff r.state "pending").0 (both (r.id == id) (is_pending r) e).1,
          record { id = refl; created_at = refl; kind = refl; payload = refl; reason = refl },
          final,
        ),
        refl,
      ))
      (λ e. (inl refl, refl))

expire_row-IsLater :
    (cutoff : Text) (r : Approval)
    → IsLater r (expire_row cutoff r) × ((expire_row cutoff r).id ≡ r.id)
expire_row-IsLater cutoff r =
    if_split (λ b. IsLater r b × (b.id ≡ r.id)) (overdue cutoff r)
      (λ e. (
        inr (
          (eq_iff r.state "pending").0 (both (is_pending r) (text_before r.created_at cutoff) e).0,
          record { id = refl; created_at = refl; kind = refl; payload = refl; reason = refl },
          inr (inr refl),
        ),
        refl,
      ))
      (λ e. (inl refl, refl))

pub move-Effect : (accepts : ℕ → Bool) (m : Move) (l : Ledger) → Effect l (move accepts m l)
unfolding move create_approval decide_approval expire_approvals
move-Effect accepts (Move.create now kind payload reason) l =
    if_split (λ (q : Result LedgerError ℕ × Ledger). Effect l q.1) (accepts l.calls)
      (λ e. Effect.added (new_row l.next_id now kind payload reason) refl refl refl)
      (λ e. Effect.same refl refl)
move-Effect accepts (Move.decide now id state decided_by) l =
    if_split (λ (q : Result LedgerError Bool × Ledger). Effect l q.1)
      (str_eq state "approved" || str_eq state "denied")
      (λ good.
        if_split (λ (q : Result LedgerError Bool × Ledger). Effect l q.1) (accepts l.calls)
          (λ e.
            Effect.rewritten (decide_row id state decided_by now)
              (decide_row-IsLater id state decided_by now (verdict_IsFinal state good)) refl refl)
          (λ e. Effect.same refl refl))
      (λ bad. Effect.same refl refl)
move-Effect accepts (Move.expire cutoff) l =
    if_split (λ (q : Result LedgerError ℕ × Ledger). Effect l q.1) (accepts l.calls)
      (λ e. Effect.rewritten (expire_row cutoff) (expire_row-IsLater cutoff) refl refl)
      (λ e. Effect.same refl refl)

Effect-IsValid : {l l' : Ledger} → Effect l l' → IsValid l → IsValid l'
Effect-IsValid (Effect.same e n) v = rw (e, n) v
Effect-IsValid {l} (Effect.added r i e n) v =
    rw (e, n, sym i) (IsAscending-append 0 l.rows r (rw i v))
Effect-IsValid {l} (Effect.rewritten f p e n) v =
    rw (e, n) (IsAscending-map f (λ r. (p r).1) 0 l.rows l.next_id v)

pub move-IsValid :
    (accepts : ℕ → Bool) (m : Move) (l : Ledger) → IsValid l → IsValid (move accepts m l)
move-IsValid accepts m l v = Effect-IsValid (move-Effect accepts m l) v

pub moves-IsValid :
    (accepts : ℕ → Bool) (ms : List Move) (l : Ledger) → IsValid l → IsValid (moves accepts ms l)
unfolding moves
moves-IsValid accepts [] l v = v
moves-IsValid accepts (m ∷ ms) l v =
    moves-IsValid accepts ms (move accepts m l) (move-IsValid accepts m l v)
