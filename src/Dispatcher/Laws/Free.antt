-- ===== src/Dispatcher/Laws/Free.antt =====
-- internal/telegram/dispatcher.go (Process): a prompt that is no command gets a placeholder, and its
-- answer as an edit.
use aegis_go.Prelude.{
  List, ◌&&◌, if◌then◌else◌, ◌+◌, ◌≡◌, refl, sym, ap, subst, Bool, true, false, ◌∷◌, inl, inr,
  Bool-cases,
}
use aegis_go.Prelude.Result.{Result, ok, err}
use aegis_go.Rules.{Text, codes}
use aegis_go.Texts.{has_prefix}
use aegis_go.Inbox.{InboxRow, Inbox, InboxError, claim_reply, fail_and_reopen}
use aegis_go.Engine.{RunResult}
use aegis_go.Dispatcher.Reply.{format_reply, ellipsis}
use aegis_go.Dispatcher.{
  Bot, Outside, Delivery, message, edit, release, throttled, if_claimed, run_claimed, run_step,
  with_placeholder, edit_answer,
}

abbrev is_claimed : Result InboxError Bool → Bool
is_claimed (err e) = false
is_claimed (ok false) = false
is_claimed (ok true) = true

module _ {S : Type 0} (o : Outside S) (row : InboxRow) where
  abbrev answer_in : S → RunResult × S
  answer_in s = o.engine (codes row.text) s

  abbrev placeholder_message : Delivery
  placeholder_message = message row.chat_id ellipsis

  -- The claim, then the wait for a token and the call of the placeholder, then the call of the edit,
  -- then the message that replaces it.
  abbrev Claim : Type 0
  Claim = Result InboxError Bool × Inbox

  abbrev shows : Bot S → Bool
  shows b = o.passes b.waits && o.delivers b.calls

  abbrev edits : Bot S → Bool
  edits b = o.delivers (b.calls + 1)

  abbrev resends : Bot S → Bool
  resends b = o.passes (b.waits + 1) && o.delivers (b.calls + 1 + 1)

  abbrev answer : Bot S → Text
  answer b = format_reply (answer_in b.state).0

  -- What is sent, the state and the inbox, by what went through.
  abbrev pub EffectOf : Claim → Bot S → Bot S → Type 0
  EffectOf (res, ib) b b' =
      (is_claimed res ≡ false → (b'.outbox ≡ b.outbox) × (b'.state ≡ b.state) × (b'.inbox ≡ ib))
      × (is_claimed res ≡ true
          → shows b ≡ false
          → (b'.outbox ≡ b.outbox)
            × (b'.state ≡ b.state)
            × (b'.inbox ≡ fail_and_reopen o.accepts row.update_id ib))
      × (is_claimed res ≡ true
          → shows b ≡ true
          → (b'.outbox ≡ (
              if edits b
              then edit row.chat_id (answer b) ∷ placeholder_message ∷ b.outbox
              else if resends b
              then message row.chat_id (answer b) ∷ placeholder_message ∷ b.outbox
              else placeholder_message ∷ b.outbox))
            × (b'.state ≡ (answer_in b.state).1)
            × (b'.inbox ≡ ib))

  abbrev pub FreeEffect : Bot S → Bot S → Type 0
  FreeEffect b b' = EffectOf (claim_reply o.accepts row.update_id b.inbox) b b'

  -- The placeholder, by whether it went through.
  placeholder_refused :
      (c : Bot S)
      → shows c ≡ false
      → let (sent, c') = throttled o placeholder_message c in
        (sent ≡ false) × (c'.outbox ≡ c.outbox) × (c'.state ≡ c.state) × (c'.inbox ≡ c.inbox)
  unfolding throttled
  placeholder_refused c h = elim (Bool-cases (o.passes c.waits)) [
    | inr e ↦ rw e (refl, refl, refl, refl)
    | inl e ↦
        let refused : o.delivers c.calls ≡ false = rw e at h in
        rw (e, refused) (refl, refl, refl, refl)
  ]

  abbrev shown : Bot S → Bot S
  shown c = record c {
    outbox = placeholder_message ∷ c.outbox;
    calls = c.calls + 1;
    waits = c.waits + 1;
  }

  placeholder_shown :
      (c : Bot S) → shows c ≡ true → throttled o placeholder_message c ≡ (true, shown c)
  unfolding throttled
  placeholder_shown c h = elim (Bool-cases (o.passes c.waits)) [
    | inr e ↦ cc (rw e at h)
    | inl e ↦ let fine : o.delivers c.calls ≡ true = rw e at h in rw (e, fine) refl
  ]

  abbrev sent_in : Bot S → List Delivery
  sent_in c =
      if edits c
      then edit row.chat_id (answer c) ∷ placeholder_message ∷ c.outbox
      else if resends c
      then message row.chat_id (answer c) ∷ placeholder_message ∷ c.outbox
      else placeholder_message ∷ c.outbox

  resent :
      (d : Delivery) (c : Bot S)
      → let c' = (throttled o d c).1 in
        (c'.outbox ≡ (if o.passes c.waits && o.delivers c.calls then d ∷ c.outbox else c.outbox))
        × (c'.state ≡ c.state)
        × (c'.inbox ≡ c.inbox)
  unfolding throttled
  resent d c = elim (Bool-cases (o.passes c.waits)) [
    | inr p ↦ rw p (refl, refl, refl)
    | inl p ↦ elim (Bool-cases (o.delivers c.calls)) [
      | inl q ↦ rw (p, q) (refl, refl, refl)
      | inr q ↦ rw (p, q) (refl, refl, refl)
    ]
  ]

  -- The edit, or the message that takes its place.
  answered_effect :
      (c : Bot S)
      → let b' = edit_answer o row (answer_in c.state) (shown c) in
        (b'.outbox ≡ sent_in c) × (b'.state ≡ (answer_in c.state).1) × (b'.inbox ≡ c.inbox)
  unfolding throttled
  answered_effect c = elim (Bool-cases (edits c)) [
    | inl e ↦ rw e (refl, refl, refl)
    | inr e ↦ rw e (
        resent (message row.chat_id (answer c)) (record c {
          state = (answer_in c.state).1;
          outbox = placeholder_message ∷ c.outbox;
          calls = c.calls + 1 + 1;
          waits = c.waits + 1;
        }))
  ]

  run_claimed-EffectOf :
      (b : Bot S) (ib : Inbox)
      → has_prefix (codes "/") (codes row.text) ≡ false
      → EffectOf (ok true, ib) b (run_claimed o row (record b { inbox = ib }))
  unfolding release
  run_claimed-EffectOf b ib plain =
      let c = record b { inbox = ib } in
      rw plain (
        (λ no. cc no),
        (λ _ refused.
            let (sent, out, st, box) = placeholder_refused c refused in
            subst
              (λ x.
                ((with_placeholder o row (x, (throttled o placeholder_message c).1)).outbox
                  ≡ b.outbox)
                × ((with_placeholder o row (x, (throttled o placeholder_message c).1)).state
                    ≡ b.state)
                × ((with_placeholder o row (x, (throttled o placeholder_message c).1)).inbox
                    ≡ fail_and_reopen o.accepts row.update_id ib))
              (sym sent) (out, st, ap (fail_and_reopen o.accepts row.update_id) box)),
        (λ _ fine.
            subst
              (λ x.
                ((with_placeholder o row x).outbox ≡ sent_in b)
                × ((with_placeholder o row x).state ≡ (answer_in b.state).1)
                × ((with_placeholder o row x).inbox ≡ ib))
              (sym (placeholder_shown c fine)) (answered_effect c)),
      )

  if_claimed-EffectOf :
      (b : Bot S) (res : Claim)
      → has_prefix (codes "/") (codes row.text) ≡ false
      → EffectOf res b (if_claimed o res b (run_claimed o row))
  if_claimed-EffectOf b (err e, ib) plain =
      ((λ _. (refl, refl, refl)), (λ no. cc no), (λ no. cc no))
  if_claimed-EffectOf b (ok false, ib) plain =
      ((λ _. (refl, refl, refl)), (λ no. cc no), (λ no. cc no))
  if_claimed-EffectOf b (ok true, ib) plain = run_claimed-EffectOf b ib plain

  -- A prompt that is no command: without a claim nothing is sent and the engine does not run; with
  -- one, a placeholder that does not go through undoes the claim and the engine does not run; and
  -- otherwise the engine runs once, on the state before, the claim stands, and the answer is sent
  -- as an edit if that call goes through, else as a message if that one does, else not at all.
  pub run_step-FreeEffect :
      (b : Bot S)
      → has_prefix (codes "/") (codes row.text) ≡ false
      → FreeEffect b (run_step o row b)
  unfolding run_step
  run_step-FreeEffect b plain =
      if_claimed-EffectOf b (claim_reply o.accepts row.update_id b.inbox) plain
