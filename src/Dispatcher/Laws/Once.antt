-- ===== src/Dispatcher/Laws/Once.antt =====
-- internal/telegram/dispatcher.go (Process): how many messages one update is worth.
use aegis_go.Prelude.{
  ◌≡◌, refl, sym, ap, ◌∙◌, Bool, true, false, List, [], ◌∷◌, ◌⊎◌, inl, inr, Bool-cases, subst,
}
use aegis_go.Prelude.Result.{Result, ok, err}
use aegis_go.Rules.{Text, codes}
use aegis_go.Texts.{has_prefix}
use aegis_go.Inbox.{InboxRow, Inbox, InboxError, claim_reply}
use aegis_go.Dispatcher.Reply.{format_reply}
use aegis_go.Dispatcher.Laws.{
  Unclaimable, claim_claims, run_steps-IsSilent, run_steps-Unclaimable, callback_text-IsSilent,
}
use aegis_go.Dispatcher.{
  press, callback_text, Step, reply, run, Plan, denied, nothing_to_do, steps, Wiring, plan, Bot,
  Outside, Delivery, message, release, throttled, or_release, if_claimed, claim_and_send,
  run_claimed, run_step, delivery, run_steps, run_plan, process,
}

module _ {S : Type 0} (o : Outside S) (row : InboxRow) where
  abbrev pub SentOnce : Bot S → Bot S → Type 0
  SentOnce b b' =
      (b'.outbox ≡ b.outbox)
      ⊎ ((d : Delivery) × (b'.outbox ≡ d ∷ b.outbox) × Unclaimable row.update_id b'.inbox)

  throttled_cases :
      (d : Delivery) (c : Bot S)
      → let (sent, c') = throttled o d c in
        (c'.inbox ≡ c.inbox)
        × (((sent ≡ true) × (c'.outbox ≡ d ∷ c.outbox)) ⊎ ((sent ≡ false) × (c'.outbox ≡ c.outbox)))
  unfolding throttled
  throttled_cases d c = elim (Bool-cases (o.passes c.waits)) [
    | inr e ↦ rw e (refl, inr (refl, refl))
    | inl e ↦ elim (Bool-cases (o.delivers c.calls)) [
      | inl w ↦ rw (e, w) (refl, inl (refl, refl))
      | inr w ↦ rw (e, w) (refl, inr (refl, refl))
    ]
  ]

  or_release-SentOnce :
      (c : Bot S) (r : Bool × Bot S) (d : Delivery)
      → Unclaimable row.update_id c.inbox
      → (r.1.inbox ≡ c.inbox)
        × (((r.0 ≡ true) × (r.1.outbox ≡ d ∷ c.outbox)) ⊎ ((r.0 ≡ false) × (r.1.outbox ≡ c.outbox)))
      → SentOnce c (or_release o row.update_id r)
  unfolding release
  or_release-SentOnce c (true, c') d h (same, inl (_, sent)) =
      inr (d, sent, subst (Unclaimable row.update_id) (sym same) h)
  or_release-SentOnce c (true, c') d h (same, inr (e, _)) = cc
  or_release-SentOnce c (false, c') d h (same, inl (e, _)) = cc
  or_release-SentOnce c (false, c') d h (same, inr (_, quiet)) = inl quiet

  send-SentOnce :
      (d : Delivery) (c : Bot S)
      → Unclaimable row.update_id c.inbox
      → SentOnce c (or_release o row.update_id (throttled o d c))
  send-SentOnce d c h = or_release-SentOnce c (throttled o d c) d h (throttled_cases d c)

  if_claimed-SentOnce :
      (b : Bot S) (res : Result InboxError Bool × Inbox) (k : Bot S → Bot S)
      → (res.0 ≡ ok true → Unclaimable row.update_id res.1)
      → ((c : Bot S) → c.outbox ≡ b.outbox → Unclaimable row.update_id c.inbox → SentOnce b (k c))
      → SentOnce b (if_claimed o res b k)
  if_claimed-SentOnce b (err e, ib) k h next = inl refl
  if_claimed-SentOnce b (ok false, ib) k h next = inl refl
  if_claimed-SentOnce b (ok true, ib) k h next = next _ refl (h refl)

  rebase : (b c x : Bot S) → c.outbox ≡ b.outbox → SentOnce c x → SentOnce b x
  rebase b c x e (inl same) = inl (same ∙ e)
  rebase b c x e (inr (d, more, h)) = inr (d, more ∙ ap (◌∷◌ d) e, h)

  send_from :
      (d : Delivery) (b c : Bot S)
      → c.outbox ≡ b.outbox
      → Unclaimable row.update_id c.inbox
      → SentOnce b (or_release o row.update_id (throttled o d c))
  send_from d b c e h =
      rebase b c (or_release o row.update_id (throttled o d c)) e (send-SentOnce d c h)

  claim_and_send-SentOnce :
      (md : Bool) (body : Text) (b c : Bot S)
      → c.outbox ≡ b.outbox
      → SentOnce b (claim_and_send o md row (body, c))
  unfolding claim_and_send
  claim_and_send-SentOnce md body b c same = rebase b c (claim_and_send o md row (body, c)) same (
      if_claimed-SentOnce c (claim_reply o.accepts row.update_id c.inbox) _
        (claim_claims o.accepts row.update_id c.inbox)
        (send_from (delivery o md row.chat_id body) c))

  run_step-SentOnce :
      (b : Bot S) → has_prefix (codes "/") (codes row.text) ≡ true → SentOnce b (run_step o row b)
  unfolding run_step
  run_step-SentOnce b slash =
      if_claimed-SentOnce b (claim_reply o.accepts row.update_id b.inbox) (run_claimed o row)
        (claim_claims o.accepts row.update_id b.inbox)
        (λ c e h.
          let (r, s) = o.engine (codes row.text) c.state in
          rw slash
            (send_from (message row.chat_id (format_reply r)) b (record c { state = s }) e h))

  after :
      (b c x : Bot S)
      → SentOnce b c
      → (c.outbox ≡ b.outbox → SentOnce c x)
      → (Unclaimable row.update_id c.inbox → x.outbox ≡ c.outbox)
      → (Unclaimable row.update_id c.inbox → Unclaimable row.update_id x.inbox)
      → SentOnce b x
  after b c x (inl same) next quiet keeps = rebase b c x same (next same)
  after b c x (inr (d, more, h)) next quiet keeps = inr (d, quiet h ∙ more, keeps h)

  run_steps-SentOnce :
      (ss : List Step) (b : Bot S)
      → has_prefix (codes "/") (codes row.text) ≡ true
      → SentOnce b (run_steps o row ss b)
  unfolding run_steps
  run_steps-SentOnce [] b slash = inl refl
  run_steps-SentOnce (reply md r ∷ rest) b slash =
      let (body, s) = o.perform r row b.state in
      let c = claim_and_send o md row (body, record b { state = s }) in
      after b c (run_steps o row rest c)
        (claim_and_send-SentOnce md body b (record b { state = s }) refl)
        (λ e. run_steps-SentOnce rest c slash) (λ h. (run_steps-IsSilent o row rest c h).outbox)
        (run_steps-Unclaimable o row rest c)
  run_steps-SentOnce (press ∷ rest) b slash =
      let (body, b') = callback_text o row b in
      let c = claim_and_send o false row (body, b') in
      after b c (run_steps o row rest c)
        (claim_and_send-SentOnce false body b b' (callback_text-IsSilent o row b).0.outbox)
        (λ e. run_steps-SentOnce rest c slash) (λ h. (run_steps-IsSilent o row rest c h).outbox)
        (run_steps-Unclaimable o row rest c)
  run_steps-SentOnce (run ∷ rest) b slash =
      let c = run_step o row b in
      after b c (run_steps o row rest c) (run_step-SentOnce b slash)
        (λ e. run_steps-SentOnce rest c slash) (λ h. (run_steps-IsSilent o row rest c h).outbox)
        (run_steps-Unclaimable o row rest c)

  run_plan-SentOnce :
      (p : Plan) (b : Bot S)
      → has_prefix (codes "/") (codes row.text) ≡ true
      → SentOnce b (run_plan o row p b)
  unfolding run_plan
  run_plan-SentOnce denied b slash = inl refl
  run_plan-SentOnce nothing_to_do b slash = inl refl
  run_plan-SentOnce (steps ss) b slash = run_steps-SentOnce ss b slash

  -- A slash command is worth at most one message, on every path, also where two arms of the switch
  -- answer it; and once a message is sent, the update cannot be claimed again.
  pub process-SentOnce :
      (w : Wiring) (b : Bot S)
      → has_prefix (codes "/") (codes row.text) ≡ true
      → SentOnce b (process o w row b)
  unfolding process
  process-SentOnce w b slash = run_plan-SentOnce (plan w row) b slash
