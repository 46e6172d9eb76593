-- ===== src/Dispatcher/Laws.antt =====
-- internal/telegram/dispatcher.go (Process): who is answered, how often, and what a second delivery of
-- an update does.
pub mod Once
pub mod Routes
pub mod Unknown
pub mod Free
use mathlib.Core.List.{append_assoc, append-nil}
use aegis_go.Prelude.{
  ◌++◌, length-append, ℕ, suc, ◌+◌, ◌≤◌, ◌≡◌, refl, sym, ap, ◌∙◌, Bool, true, false, not, ◌||◌,
  List, [], ◌∷◌, map, any, length, if◌then◌else◌, arith, ◌⊎◌, inl, inr, Bool-cases, if_split,
  String, subst,
}
use aegis_go.Prelude.Result.{Result, ok, err, Result-cases}
use aegis_go.Rules.{Text, codes, trim_space}
use aegis_go.Texts.{has_prefix}
use aegis_go.Inbox.{
  InboxRow, Inbox, InboxError, claimable, claim_row, claim_reply, mark_status, fail_and_reopen,
}
use aegis_go.Inbox.Laws.Replies.{claimed_none}
use aegis_go.Engine.{RunResult}
use aegis_go.Dispatcher.{
  press, decide_press, press_reply, callback_text, performed_by, Request, Step, reply, run, Plan,
  denied, nothing_to_do, steps, Wiring, plan, Bot, Outside, Delivery, message, call, release,
  throttled, or_release, if_claimed, claim_and_send, run_claimed, run_step, run_steps, run_plan,
  process,
}
use aegis_go.Dispatcher.Buttons.{
  Toast, processing, Press, bad_data, bad_id, bad_action, asks, parse_press, toast_of,
}

abbrev pub Unclaimable : ℕ → Inbox → Type 0
Unclaimable id ib = any (claimable id) ib.rows ≡ false

-- Nothing sent and no wait; the state is `s`, and these toasts were asked for, each by one call.
pub record IsSilent {S : Type 0} (b b' : Bot S) (s : S) (ts : List Toast) : Type 0 where
  pub outbox : b'.outbox ≡ b.outbox
  pub waits : b'.waits ≡ b.waits
  pub state : b'.state ≡ s
  pub toasts : b'.toasts ≡ ts ++ b.toasts
  pub calls : b'.calls ≡ b.calls + length ts

still : {S : Type 0} (b : Bot S) → IsSilent b b b.state []
still b = record { outbox = refl; waits = refl; state = refl; toasts = refl; calls = omega arith }

IsSilent-then :
    {S : Type 0} {b c d : Bot S} {s t : S} (ts us : List Toast)
    → IsSilent b c s ts
    → IsSilent c d t us
    → IsSilent b d t (us ++ ts)
IsSilent-then {b = b} ts us h k = record {
  outbox = k.outbox ∙ h.outbox;
  waits = k.waits ∙ h.waits;
  state = k.state;
  toasts = k.toasts ∙ ap (λ (x : List Toast). us ++ x) h.toasts ∙ sym (append_assoc us ts b.toasts);
  calls = omega (arith, k.calls, h.calls, length-append us ts);
}

claim-Unclaimable :
    (accepts : ℕ → Bool) (id : ℕ) (ib : Inbox)
    → Unclaimable id ib
    → let (res, ib') = claim_reply accepts id ib in
      ((res ≡ ok false) ⊎ (res ≡ err InboxError.failed)) × Unclaimable id ib'
unfolding claim_reply
claim-Unclaimable accepts id ib h = elim (Bool-cases (accepts ib.calls)) [
  | inl e ↦ rw (e, h) (inl refl, claimed_none id ib.rows)
  | inr e ↦ rw e (inr refl, h)
]

pub claim_claims :
    (accepts : ℕ → Bool) (id : ℕ) (ib : Inbox)
    → (claim_reply accepts id ib).0 ≡ ok true
    → Unclaimable id (claim_reply accepts id ib).1
unfolding claim_reply
claim_claims accepts id ib h = elim (Bool-cases (accepts ib.calls)) [
  | inl e ↦ rw e (claimed_none id ib.rows)
  | inr e ↦ cc (rw e at h)
]

module _ {S : Type 0} (o : Outside S) (row : InboxRow) where
  -- What a press does to the state behind it, and what its button shows, the last first.
  abbrev pub pressed : Press → S → S
  pressed (bad_data d) s = s
  pressed (bad_id d) s = s
  pressed (bad_action a) s = s
  pressed (asks want id) s = (o.perform (decide_press want id) row s).1

  abbrev pub shown : Press → S → List Toast
  shown (bad_data d) s = []
  shown (bad_id d) s = []
  shown (bad_action a) s = []
  shown (asks want id) s =
      toast_of want (o.perform (decide_press want id) row s).0 ∷ processing ∷ []

  abbrev pub row_press : Press
  row_press = parse_press (trim_space (codes row.callback_data))

  -- What the commands of a plan do to the state behind them, and the toasts, the last first.
  abbrev pub performed : List Step → S → S
  performed [] s = s
  performed (reply md r ∷ rest) s = performed rest (o.perform r row s).1
  performed (press ∷ rest) s = performed rest (if o.approver then pressed row_press s else s)
  performed (run ∷ rest) s = performed rest s

  abbrev pub toasted : List Step → S → List Toast
  toasted [] s = []
  toasted (reply md r ∷ rest) s = toasted rest (o.perform r row s).1
  toasted (press ∷ rest) s =
      toasted rest (if o.approver then pressed row_press s else s)
      ++ (if o.approver then shown row_press s else [])
  toasted (run ∷ rest) s = toasted rest s

  abbrev pub performed_plan : Plan → S → S
  performed_plan denied s = s
  performed_plan nothing_to_do s = s
  performed_plan (steps ss) s = performed ss s

  abbrev pub toasted_plan : Plan → S → List Toast
  toasted_plan denied s = []
  toasted_plan nothing_to_do s = []
  toasted_plan (steps ss) s = toasted ss s

  press_reply-IsSilent :
      (p : Press) (b : Bot S)
      → let b' = (press_reply o row p b).1 in
        IsSilent b b' (pressed p b.state) (shown p b.state) × (b'.inbox ≡ b.inbox)
  press_reply-IsSilent (bad_data d) b = (still b, refl)
  press_reply-IsSilent (bad_id d) b = (still b, refl)
  press_reply-IsSilent (bad_action a) b = (still b, refl)
  press_reply-IsSilent (asks want id) b = (
    record { outbox = refl; waits = refl; state = refl; toasts = refl; calls = omega arith },
    refl,
  )

  pub callback_text-IsSilent :
      (b : Bot S)
      → let b' = (callback_text o row b).1 in
        IsSilent b b'
          (if o.approver then pressed row_press b.state else b.state)
          (if o.approver then shown row_press b.state else [])
        × (b'.inbox ≡ b.inbox)
  unfolding callback_text
  callback_text-IsSilent b = elim (Bool-cases o.approver) [
    | inl e ↦ rw e (press_reply-IsSilent row_press b)
    | inr e ↦ rw e (still b, refl)
  ]

  -- A refused claim ends the step.
  if_claimed_refused :
      (b : Bot S) (res : Result InboxError Bool × Inbox) (k : Bot S → Bot S)
      → ((res.0 ≡ ok false) ⊎ (res.0 ≡ err InboxError.failed)) × Unclaimable row.update_id res.1
      → let b' = if_claimed o res b k in
        IsSilent b b' b.state [] × Unclaimable row.update_id b'.inbox
  if_claimed_refused b (err e, ib) k (_, h) =
      (record { outbox = refl; waits = refl; state = refl; toasts = refl; calls = omega arith }, h)
  if_claimed_refused b (ok false, ib) k (_, h) =
      (record { outbox = refl; waits = refl; state = refl; toasts = refl; calls = omega arith }, h)
  if_claimed_refused b (ok true, ib) k (inl e, h) = cc
  if_claimed_refused b (ok true, ib) k (inr e, h) = cc

  claim_and_send-IsSilent :
      (md : Bool) (body : Text) (b : Bot S)
      → Unclaimable row.update_id b.inbox
      → let b' = claim_and_send o md row (body, b) in
        IsSilent b b' b.state [] × Unclaimable row.update_id b'.inbox
  unfolding claim_and_send
  claim_and_send-IsSilent md body b h =
      if_claimed_refused b (claim_reply o.accepts row.update_id b.inbox) _
        (claim-Unclaimable o.accepts row.update_id b.inbox h)

  run_step-IsSilent :
      (b : Bot S)
      → Unclaimable row.update_id b.inbox
      → let b' = run_step o row b in IsSilent b b' b.state [] × Unclaimable row.update_id b'.inbox
  unfolding run_step
  run_step-IsSilent b h =
      if_claimed_refused b (claim_reply o.accepts row.update_id b.inbox) _
        (claim-Unclaimable o.accepts row.update_id b.inbox h)

  -- The reply to a press that is not claimed.
  press-IsSilent :
      (b : Bot S)
      → Unclaimable row.update_id b.inbox
      → let b' = claim_and_send o false row (callback_text o row b) in
        IsSilent b b'
          (if o.approver then pressed row_press b.state else b.state)
          (if o.approver then shown row_press b.state else [])
        × Unclaimable row.update_id b'.inbox
  press-IsSilent b h =
      let (quiet, same) = callback_text-IsSilent b in
      let (body, c) = callback_text o row b in
      let (silent, h') =
        claim_and_send-IsSilent false body c (subst (Unclaimable row.update_id) (sym same) h) in
      let both =
        IsSilent-then (if o.approver then shown row_press b.state else []) [] quiet silent in
      (
        record {
          outbox = both.outbox;
          waits = both.waits;
          state = both.state ∙ quiet.state;
          toasts = both.toasts;
          calls = both.calls;
        },
        h',
      )

  -- One step, and the rest of the plan from the state that it leaves.
  step_then :
      (rest : List Step) (b c : Bot S) (s : S) (ts : List Toast)
      → IsSilent b c s ts
      → IsSilent c (run_steps o row rest c) (performed rest c.state) (toasted rest c.state)
      → IsSilent b (run_steps o row rest c) (performed rest s) (toasted rest s ++ ts)
  step_then rest b c s ts h k = IsSilent-then ts (toasted rest s) h (
      subst (λ x. IsSilent c (run_steps o row rest c) (performed rest x) (toasted rest x)) h.state
        k)

  no_more :
      (ts : List Toast) {b b' : Bot S} {s : S} → IsSilent b b' s (ts ++ []) → IsSilent b b' s ts
  no_more ts {b} {b'} {s} h = subst (IsSilent b b' s) (append-nil ts) h

  pub run_steps-IsSilent :
      (ss : List Step) (b : Bot S)
      → Unclaimable row.update_id b.inbox
      → IsSilent b (run_steps o row ss b) (performed ss b.state) (toasted ss b.state)
  unfolding run_steps
  run_steps-IsSilent [] b h = still b
  run_steps-IsSilent (reply md r ∷ rest) b h =
      let (body, s) = o.perform r row b.state in
      let b0 = record b { state = s } in
      let (quiet, h') = claim_and_send-IsSilent md body b0 h in
      let c = claim_and_send o md row (body, b0) in
      let all = step_then rest b0 c s [] quiet (run_steps-IsSilent rest c h') in
      let fine = no_more (toasted rest s) all in
      record {
        outbox = fine.outbox;
        waits = fine.waits;
        state = fine.state;
        toasts = fine.toasts;
        calls = fine.calls;
      }
  run_steps-IsSilent (press ∷ rest) b h =
      let (quiet, h') = press-IsSilent b h in
      let c = claim_and_send o false row (callback_text o row b) in
      step_then rest b c _ _ quiet (run_steps-IsSilent rest c h')
  run_steps-IsSilent (run ∷ rest) b h =
      let (quiet, h') = run_step-IsSilent b h in
      let c = run_step o row b in
      no_more (toasted rest b.state)
        (step_then rest b c b.state [] quiet (run_steps-IsSilent rest c h'))

  pub run_steps-Unclaimable :
      (ss : List Step) (b : Bot S)
      → Unclaimable row.update_id b.inbox
      → Unclaimable row.update_id (run_steps o row ss b).inbox
  unfolding run_steps
  run_steps-Unclaimable [] b h = h
  run_steps-Unclaimable (reply md r ∷ rest) b h =
      let (body, s) = o.perform r row b.state in
      let b0 = record b { state = s } in
      run_steps-Unclaimable rest (claim_and_send o md row (body, b0))
        (claim_and_send-IsSilent md body b0 h).1
  run_steps-Unclaimable (press ∷ rest) b h =
      run_steps-Unclaimable rest (claim_and_send o false row (callback_text o row b))
        (press-IsSilent b h).1
  run_steps-Unclaimable (run ∷ rest) b h =
      run_steps-Unclaimable rest (run_step o row b) (run_step-IsSilent b h).1

  run_plan-IsSilent :
      (p : Plan) (b : Bot S)
      → Unclaimable row.update_id b.inbox
      → IsSilent b (run_plan o row p b) (performed_plan p b.state) (toasted_plan p b.state)
  unfolding run_plan
  run_plan-IsSilent denied b h = record {
    outbox = refl;
    waits = refl;
    state = refl;
    toasts = refl;
    calls = omega arith;
  }
  run_plan-IsSilent nothing_to_do b h = record {
    outbox = refl;
    waits = refl;
    state = refl;
    toasts = refl;
    calls = omega arith;
  }
  run_plan-IsSilent (steps ss) b h = run_steps-IsSilent ss b h

  -- When the row of an update cannot be claimed, processing the update sends no reply and does not
  -- run the engine; what its command does to the state behind it is done all the same, and a button
  -- press shows its two toasts, which are the only calls of the Bot API that the dispatcher itself
  -- makes.
  pub process_again-IsSilent :
      (w : Wiring) (b : Bot S)
      → Unclaimable row.update_id b.inbox
      → IsSilent b
          (process o w row b)
          (performed_plan (plan w row) b.state)
          (toasted_plan (plan w row) b.state)
  unfolding process
  process_again-IsSilent w b h = run_plan-IsSilent (plan w row) b h
