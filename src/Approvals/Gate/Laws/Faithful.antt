-- ===== src/Approvals/Gate/Laws/Faithful.antt =====
-- internal/tools/hitl.go: what an outcome of the gate says of the ledger and of the action.
use aegis_go.Prelude.{
  ℕ, zero, suc, ◌+◌, ◌≤◌, ◌≡◌, ◌≢◌, refl, sym, ◌∙◌, subst, Bool, String, str_eq, eq_iff, List, [],
  ◌∷◌, ◌++◌, Option, none, some, arith, inl, inr, ◌⊎◌, ltb, if_split,
}
use mathlib.Core.Option.{some-injective}
use aegis_go.Prelude.Result.{Result, ok, err, ok-injective}
use aegis_go.Rules.{Text}
use aegis_go.Approvals.{
  Approval, Ledger, LedgerError, Move, create_approval, get_approval, find_row, moves, new_row,
  sent,
}
use aegis_go.Approvals.Laws.{IsValid, IsAscending}
use aegis_go.Approvals.Laws.Finality.{requests_continue}
use aegis_go.Approvals.Gate.{
  Gate, GateOutcome, Gated, Tick, acted, on_row, poll, wait_for, run_gated,
}
use aegis_go.Approvals.Gate.Laws.{run_gated_ends}

-- A row that asks for this action.
pub record Asks (kind payload reason : String) (a : Approval) : Type 0 where
  pub kind_ : a.kind ≡ kind
  pub payload_ : a.payload ≡ payload
  pub reason_ : a.reason ≡ reason

abbrev Filed : String → String → String → ℕ → Ledger → Type 0
Filed kind payload reason id l =
    (a : Approval) × (find_row id l.rows ≡ some a) × Asks kind payload reason a

-- The action ran, once and on the caller's state, under an approved row that asks for it; or it did
-- not run, and the outcome is not an approval.
abbrev pub IsFaithful :
    {A S : Type 0} → Gated A S → String → String → String → ℕ → S → Gate A × Ledger × S → Type 0
IsFaithful g kind payload reason id s (r, l, s') =
    ((a : Approval) × (find_row id l.rows ≡ some a)
      × Asks kind payload reason a
      × (a.state ≡ "approved")
      × (r.outcome ≡ some GateOutcome.approved)
      × ((r, s') ≡ acted (g.action s)))
    ⊎ ((r.outcome ≢ some GateOutcome.approved) × (r.output ≡ none) × (s' ≡ s))

abbrev Holds : {X : Type 0} → (X → Type 0) → Option X → Type 0
Holds P none = Unit
Holds P (some x) = P x

Filed-moves :
    (accepts : ℕ → Bool) (ms : List Move) (kind payload reason : String) (id : ℕ) (l : Ledger)
    → Filed kind payload reason id l
    → Filed kind payload reason id (moves accepts ms l)
Filed-moves accepts ms kind payload reason id l (a, found, asks) =
    let (b, found', later) = requests_continue accepts ms id l a found in
    (
      b,
      found',
      elim later [
        | inl e ↦ subst (Asks kind payload reason) (sym e) asks
        | inr (_, same, _) ↦ record {
          kind_ = same.kind ∙ asks.kind_;
          payload_ = same.payload ∙ asks.payload_;
          reason_ = same.reason ∙ asks.reason_;
        }
      ],
    )

ascending_le : (low high : ℕ) (rs : List Approval) → IsAscending low rs high → low ≤ high
ascending_le low high [] v = v
ascending_le low high (r ∷ rs) v = omega (arith, ascending_le (suc r.id) high rs v.1, v.0)

-- The key of an inserted row was on no row before.
find_added :
    (r : Approval) (low : ℕ) (rs : List Approval)
    → IsAscending low rs r.id
    → find_row r.id (rs ++ r ∷ []) ≡ some r
find_added r low [] v = ground arith
find_added r low (x ∷ rs) v =
    ground (arith, find_added r (suc x.id) rs v.1, ascending_le (suc x.id) r.id rs v.1)

acted_outcome :
    {A S : Type 0} (q : Result String A × S) → (acted q).0.outcome ≡ some GateOutcome.approved
acted_outcome (ok a, s) = refl
acted_outcome (err e, s) = refl

module _ {A S : Type 0} (g : Gated A S) (kind payload reason : String) (s : S) where
  on_row-IsFaithful :
      (id : ℕ) (got : Result LedgerError (Option Approval)) (l : Ledger)
      (rest : Option (Gate A × Ledger × S))
      → ((a : Approval)
          → got ≡ ok (some a)
          → (find_row id l.rows ≡ some a) × Asks kind payload reason a)
      → Holds (IsFaithful g kind payload reason id s) rest
      → Holds (IsFaithful g kind payload reason id s) (on_row g id (got, l) s rest)
  unfolding on_row
  on_row-IsFaithful id (err e) l rest filed next = inr ((λ p. cc), refl, refl)
  on_row-IsFaithful id (ok none) l rest filed next = inr ((λ p. cc), refl, refl)
  on_row-IsFaithful id (ok (some a)) l rest filed next =
      if_split (Holds (IsFaithful g kind payload reason id s)) (str_eq a.state "approved")
        (λ e.
          let (found, asks) = filed a refl in
          inl (a, found, asks, (eq_iff a.state "approved").0 e, acted_outcome (g.action s), refl))
        (λ e.
          if_split (Holds (IsFaithful g kind payload reason id s)) (str_eq a.state "denied")
            (λ e'. inr ((λ p. cc), refl, refl))
            (λ e'.
              if_split (Holds (IsFaithful g kind payload reason id s)) (str_eq a.state "expired")
                (λ e''. inr ((λ p. cc), refl, refl)) (λ e''. next)))

  read :
      (id : ℕ) (l : Ledger)
      → Filed kind payload reason id l
      → (a : Approval)
      → ◌≡◌ {A = Result LedgerError (Option Approval)} (ok (find_row id l.rows)) (ok (some a))
      → (find_row id l.rows ≡ some a) × Asks kind payload reason a
  read id l (b, found, asks) a h =
      let same = ok-injective h in
      (same, subst (Asks kind payload reason) (some-injective b a (sym found ∙ same)) asks)

  poll-IsFaithful :
      (ticks : ℕ → Tick) (id fuel i clock : ℕ) (l : Ledger)
      → Filed kind payload reason id l
      → Holds (IsFaithful g kind payload reason id s) (poll g id ticks fuel i clock l s)
  unfolding poll get_approval
  poll-IsFaithful ticks id zero i clock l filed = tt
  poll-IsFaithful ticks id (suc fuel) i clock l filed =
      let now = clock + g.config.poll_interval + (ticks i).late in
      let l' = moves g.accepts (ticks i).moves l in
      let filed' = Filed-moves g.accepts (ticks i).moves kind payload reason id l filed in
      let next = poll-IsFaithful ticks id fuel (suc i) now (sent l') filed' in
      if_split (Holds (IsFaithful g kind payload reason id s)) (ticks i).cancelled
        (λ e. inr ((λ p. cc), refl, refl))
        (λ e.
          if_split (Holds (IsFaithful g kind payload reason id s)) (ltb g.config.wait_timeout now)
            (λ e'. inr ((λ p. cc), refl, refl))
            (λ in_time.
              if_split
                (λ (got : Result LedgerError (Option Approval) × Ledger).
                  Holds (IsFaithful g kind payload reason id s)
                    (on_row g id got s (poll g id ticks fuel (suc i) now got.1 s)))
                (g.accepts l'.calls)
                (λ e'.
                  on_row-IsFaithful id (ok (find_row id l'.rows)) (sent l')
                    (poll g id ticks fuel (suc i) now (sent l') s) (read id l' filed') next)
                (λ e'.
                  on_row-IsFaithful id (err (LedgerError.get_failed id)) (sent l')
                    (poll g id ticks fuel (suc i) now (sent l') s) (λ a h. cc) next)))

  run_gated-Holds :
      (ticks : ℕ → Tick) (now : Text) (l : Ledger)
      → IsValid l
      → Holds
          (IsFaithful g kind payload reason l.next_id s)
          (run_gated g ticks now kind payload reason l s)
  unfolding run_gated wait_for create_approval
  run_gated-Holds ticks now l v =
      if_split
        (λ (q : Result LedgerError ℕ × Ledger).
          Holds (IsFaithful g kind payload reason l.next_id s)
            (wait_for g ticks (suc g.config.wait_timeout) q s))
        (g.accepts l.calls)
        (λ e. poll-IsFaithful ticks l.next_id (suc g.config.wait_timeout) 0 0 _ (
          new_row l.next_id now kind payload reason,
          find_added (new_row l.next_id now kind payload reason) 0 l.rows v,
          record { kind_ = refl; payload_ = refl; reason_ = refl },
        ))
        (λ e. inr ((λ p. cc), refl, refl))

  some_held :
      {X : Type 0} (P : X → Type 0) (o : Option X)
      → o ≢ none
      → Holds P o
      → (x : X) × (o ≡ some x) × P x
  some_held P none h p = elim (h refl) [ ]
  some_held P (some x) h p = (x, refl, p)

  -- With a positive poll interval and a ledger whose ids are keys, the gate returns, and either the
  -- action ran, once, on the caller's state, while the ledger holds an approved row with exactly
  -- this kind, payload and reason; or the outcome is not an approval, there is no output, and the
  -- caller's state is the one it had. This holds for every driver and action, and whatever others
  -- do to the ledger between the turns.
  pub run_gated-IsFaithful :
      (ticks : ℕ → Tick) (now : Text) (l : Ledger)
      → 1 ≤ g.config.poll_interval
      → IsValid l
      → (out : Gate A × Ledger × S) × (run_gated g ticks now kind payload reason l s ≡ some out)
        × IsFaithful g kind payload reason l.next_id s out
  run_gated-IsFaithful ticks now l step v =
      some_held (IsFaithful g kind payload reason l.next_id s)
        (run_gated g ticks now kind payload reason l s)
        (run_gated_ends g ticks now kind payload reason l s step) (run_gated-Holds ticks now l v)
