-- ===== src/Watchdog/Laws/Spacing.antt =====
-- internal/logwatch/watchdog.go (Manager.Add, its poll): the cooldown between the alerts of a watch.
use aegis_go.Prelude.{
  ℕ, suc, ◌+◌, ◌≤◌, ◌<◌, ◌≡◌, refl, sym, ap, ◌∙◌, Bool, true, false, List, [], ◌∷◌, ◌⊎◌, inl, inr,
  Bool-cases, length, arith, ltb, ltb→lt, ltb_false→le,
}
use aegis_go.Rules.{Text}
use aegis_go.Watchdog.{
  Disk, Watch, pos, Watching, Around, Alert, tail_file, on_line, scan, poll, polls, read, begun,
  cap_line,
}

-- The alerts, newest first, are at least so long apart, and the watch is quiet until that long after
-- the newest.
abbrev pub IsSpaced : ℕ → ℕ → List Alert → Type 0
IsSpaced d until [] = Unit
IsSpaced d until (a ∷ rest) = (a.at + d ≤ until) × IsSpaced d a.at rest

abbrev quiet_from : ℕ → List Alert → ℕ
quiet_from d [] = 0
quiet_from d (a ∷ rest) = a.at + d

IsSpaced-later :
    (d until later : ℕ) (sent : List Alert)
    → until ≤ later
    → IsSpaced d until sent
    → IsSpaced d later sent
IsSpaced-later d until later [] h k = tt
IsSpaced-later d until later (a ∷ rest) h (k, spaced) = (omega (arith, h, k), spaced)

-- A watch that is still quiet has an alert to be quiet for.
held :
    (d : ℕ) {now until : ℕ} {sent' : List Alert} (sent : List Alert)
    → sent' ≡ sent
    → until ≡ quiet_from (suc d) sent
    → now < until
    → (a : Alert) × (rest : List Alert) × (sent' ≡ a ∷ rest) × (now < a.at + suc d)
held d [] same h soon = let no : ◌≡◌ {A = ℕ} 1 0 = omega (arith, h, soon) in cc no
held d (a ∷ rest) same h soon = (a, rest, same, omega (arith, h, soon))

module _ (around : Around) (room : ℕ) (w : Watch) (re : Text → Bool) (d : ℕ) where
  abbrev now_at : Watching → ℕ
  now_at s = around.clock s.run.matches

  -- What a line can do to the quiet time and to the alerts.
  data LineEffect (l : Text) (s s' : Watching) : Type 0 where
    quiet :
        ((re l ≡ false) ⊎ (now_at s < s.run.cooldown_until))
        → s'.run.cooldown_until ≡ s.run.cooldown_until
        → s'.sent ≡ s.sent
        → LineEffect l s s'
    alerted :
        s.run.cooldown_until ≤ now_at s
        → (a : Alert) → a.at ≡ now_at s
        → s'.run.cooldown_until ≡ now_at s + suc d
        → s'.sent ≡ a ∷ s.sent
        → LineEffect l s s'
    dropped :
        s.run.cooldown_until ≤ now_at s
        → ltb (length (around.meanwhile s.run.matches s.waiting)) room ≡ false
        → s'.run.cooldown_until ≡ now_at s + suc d
        → s'.sent ≡ s.sent
        → LineEffect l s s'

  on_line-effect :
      w.cooldown ≡ pos (suc d)
      → (l : Text) (s : Watching) → LineEffect l s (on_line around room w re l s)
  unfolding on_line
  on_line-effect c l s = elim (Bool-cases (re l)) [
    | inr e ↦ rw e (quiet (inl e) refl refl)
    | inl e ↦ rw e (elim (Bool-cases (ltb (now_at s) s.run.cooldown_until)) [
      | inl t ↦ rw t (quiet (inr (ltb→lt (now_at s) s.run.cooldown_until t)) refl refl)
      | inr t ↦
          rw (t, c)
            (elim (Bool-cases (ltb (length (around.meanwhile s.run.matches s.waiting)) room)) [
              | inl q ↦ rw q (
                  alerted (ltb_false→le (now_at s) s.run.cooldown_until t)
                    (record { watch = w.name; line = cap_line l; at = now_at s }) refl refl refl)
              | inr q ↦ rw q (dropped (ltb_false→le (now_at s) s.run.cooldown_until t) q refl refl)
            ])
    ])
  ]

  -- An invariant of the lines, kept by the polls.
  module _ (P : Watching → Type 0)
      (line : (l : Text) (s : Watching) → P s → P (on_line around room w re l s))
      (reads : (size off : ℕ) (s : Watching) → P s → P (read size off s)) where
    scan-invariant : (ls : List Text) (s : Watching) → P s → P (scan around room w re ls s)
    unfolding scan
    scan-invariant [] s h = h
    scan-invariant (l ∷ ls) s h = scan-invariant ls (on_line around room w re l s) (line l s h)

    polls-invariant : (ds : List Disk) (s : Watching) → P s → P (polls around room w re ds s)
    unfolding polls poll
    polls-invariant [] s h = h
    polls-invariant (d ∷ ds) s h =
        let (lines, size, off) = tail_file d s.run.last_size s.run.last_line in
        polls-invariant ds (poll around room w re d s)
          (scan-invariant lines (read size off s) (reads size off s h))

  IsSpaced-effect :
      {l : Text} (s s' : Watching)
      → LineEffect l s s'
      → IsSpaced (suc d) s.run.cooldown_until s.sent
      → IsSpaced (suc d) s'.run.cooldown_until s'.sent
  IsSpaced-effect s s' (quiet why until same) h = rw (until, same) h
  IsSpaced-effect s s' (alerted late a at until same) h =
      rw (until, same)
        (
          omega (arith, at),
          IsSpaced-later (suc d) s.run.cooldown_until a.at s.sent (omega (arith, late, at)) h,
        )
  IsSpaced-effect s s' (dropped late full until same) h =
      rw (until, same)
        (IsSpaced-later (suc d) s.run.cooldown_until (now_at s + suc d) s.sent (omega (arith, late))
          h)

  exact_effect :
      ((n : ℕ) (queue : List Alert) → ltb (length (around.meanwhile n queue)) room ≡ true)
      → {l : Text} (s s' : Watching) → LineEffect l s s'
      → s.run.cooldown_until ≡ quiet_from (suc d) s.sent
      → s'.run.cooldown_until ≡ quiet_from (suc d) s'.sent
  exact_effect free s s' (quiet why until same) h = until ∙ h ∙ ap (quiet_from (suc d)) (sym same)
  exact_effect free s s' (alerted late a at until same) h = rw (until, same) (omega (arith, at))
  exact_effect free s s' (dropped late full until same) h = cc (full, free s.run.matches s.waiting)

  -- After a line that matches, the newest alert is not older than the cooldown.
  noticed :
      {l : Text}
      → re l ≡ true
      → (s s' : Watching) → LineEffect l s s'
      → ltb (length (around.meanwhile s.run.matches s.waiting)) room ≡ true
      → s.run.cooldown_until ≡ quiet_from (suc d) s.sent
      → (a : Alert) × (rest : List Alert) × (s'.sent ≡ a ∷ rest) × (now_at s < a.at + suc d)
  noticed hit s s' (quiet (inl miss) until same) free h = cc (hit, miss)
  noticed hit s s' (quiet (inr soon) until same) free h = held d s.sent same h soon
  noticed hit s s' (alerted late a at until same) free h = (a, s.sent, same, omega (arith, at))
  noticed hit s s' (dropped late full until same) free h = cc (full, free)

-- A watch with a positive cooldown sends no two alerts less than the cooldown apart, whatever its
-- polls meet on the disk, whatever the clock says and whatever others do to the channel.
pub alerts_apart :
    (around : Around) (room : ℕ) (w : Watch) (re : Text → Bool) (d : ℕ) (ds : List Disk)
    (queue : List Alert)
    → w.cooldown ≡ pos (suc d)
    → let s = polls around room w re ds (begun queue) in
      IsSpaced (suc d) s.run.cooldown_until s.sent
alerts_apart around room w re d ds queue c =
    polls-invariant around room w re d (λ s. IsSpaced (suc d) s.run.cooldown_until s.sent)
      (λ l s h.
        IsSpaced-effect around room w re d s (on_line around room w re l s)
          (on_line-effect around room w re d c l s) h)
      (λ size off s h. h) ds (begun queue) tt

-- Where the reader leaves room in the channel, after a line that matches the newest alert of the
-- watch is younger than its positive cooldown: a match is never suppressed without an alert that
-- accounts for it.
pub matched_noticed :
    (around : Around) (room : ℕ) (w : Watch) (re : Text → Bool) (d : ℕ) (ds : List Disk)
    (queue : List Alert) (l : Text)
    → w.cooldown ≡ pos (suc d)
    → ((n : ℕ) (waiting : List Alert) → ltb (length (around.meanwhile n waiting)) room ≡ true)
    → re l ≡ true
    → let s = polls around room w re ds (begun queue) in
      (a : Alert) × (rest : List Alert) × ((on_line around room w re l s).sent ≡ a ∷ rest)
      × (around.clock s.run.matches < a.at + suc d)
matched_noticed around room w re d ds queue l c free hit =
    let s = polls around room w re ds (begun queue) in
    noticed around room w re d hit s (on_line around room w re l s)
      (on_line-effect around room w re d c l s) (free s.run.matches s.waiting)
      (polls-invariant around room w re d (λ s. s.run.cooldown_until ≡ quiet_from (suc d) s.sent)
        (λ l s h.
          exact_effect around room w re d free s (on_line around room w re l s)
            (on_line-effect around room w re d c l s) h)
        (λ size off s h. h) ds (begun queue) refl)
