-- ===== src/Watchdog/Laws/Once.antt =====
-- internal/logwatch/watchdog.go (Manager.Add, its poll): each line of a log that grows by whole lines is
-- counted once.
use aegis_go.Prelude.{
  ℕ, zero, suc, ◌+◌, ◌≡◌, refl, sym, ap, ◌∙◌, subst, Bool, List, [], ◌∷◌, ◌++◌, ◌⊎◌, inl, inr,
  Bool-cases, length, length-append, keep, arith, ltb,
}
use aegis_go.Rules.{Text}
use aegis_go.Texts.{empty, split, trim_end}
use aegis_go.Texts.Laws.{split-append_sep}
use mathlib.Core.List.{append_assoc, append-nil}
use aegis_go.Watchdog.{
  Disk, Watch, Duration, pos, negsuc, Running, Watching, Around, Alert, kept_lines, lines_of,
  tail_file, on_line, offer, arm, counted, scan, poll, polls, read, scan_tail, begun, cap_line,
}
use aegis_go.Watchdog.Laws.{IsLog, tail_file_grown}

-- Nothing, or a text that ends a line.
abbrev IsWhole : Text → Type 0
IsWhole w = (w ≡ []) ⊎ ((a : Text) × (w ≡ a ++ 10 ∷ []))

-- What a log has at the end of its polls, each with what was written to it before.
abbrev pub written : List (Text × Disk) → Text
written [] = []
written ((w, d) ∷ ds) = w ++ written ds

-- A log that has this content grows by whole lines.
abbrev pub IsGrowing : Text → List (Text × Disk) → Type 0
IsGrowing c [] = Unit
IsGrowing c ((w, d) ∷ ds) = IsWhole w × IsLog (c ++ w) d × IsGrowing (c ++ w) ds

abbrev pub disks : List (Text × Disk) → List Disk
disks [] = []
disks ((w, d) ∷ ds) = d ∷ disks ds

abbrev pub count : (Text → Bool) → List Text → ℕ
count re ls = length (keep re ls)

count-append :
    (re : Text → Bool) (ls ks : List Text) → count re (ls ++ ks) ≡ count re ls + count re ks
count-append re [] ks = omega arith
count-append re (l ∷ ls) ks = elim (Bool-cases (re l)) [
  | inl e ↦ rw e (omega (arith, count-append re ls ks))
  | inr e ↦ rw e (count-append re ls ks)
]

kept_lines-append : (ps qs : List Text) → kept_lines (ps ++ qs) ≡ kept_lines ps ++ kept_lines qs
kept_lines-append [] qs = refl
kept_lines-append (p ∷ ps) qs = elim (Bool-cases (empty (trim_end 13 p))) [
  | inl e ↦ rw e (kept_lines-append ps qs)
  | inr e ↦ rw e (ap (◌∷◌ (trim_end 13 p)) (kept_lines-append ps qs))
]

lines_of_sep : (a b : Text) → lines_of (a ++ 10 ∷ b) ≡ lines_of a ++ lines_of b
lines_of_sep a b =
    ap kept_lines (split-append_sep 10 a b) ∙ kept_lines-append (split 10 a) (split 10 b)

-- The lines of whole lines and of what follows.
lines_of-append : (w b : Text) → IsWhole w → lines_of (w ++ b) ≡ lines_of w ++ lines_of b
lines_of-append w b (inl e) = rw e refl
lines_of-append w b (inr (a, e)) =
    ap (λ x. lines_of (x ++ b)) e
    ∙ ap lines_of (append_assoc a (10 ∷ []) b)
    ∙ lines_of_sep a b
    ∙ ap (λ x. x ++ lines_of b)
        (sym (append-nil (lines_of a)) ∙ sym (lines_of_sep a []) ∙ ap lines_of (sym e))

-- What a scan makes of the counters.
record IsCounted (r r' : Running) (n : ℕ) : Type 0 where
  matches : r'.matches ≡ r.matches + n
  last_line : r'.last_line ≡ r.last_line
  last_size : r'.last_size ≡ r.last_size

arm-counted : (d : Duration) (now : ℕ) (r : Running) → IsCounted r (arm d now (counted r)) 1
arm-counted (pos zero) now r = record { matches = omega arith; last_line = refl; last_size = refl }
arm-counted (pos (suc d)) now r = record {
  matches = omega arith;
  last_line = refl;
  last_size = refl;
}
arm-counted (negsuc d) now r = record { matches = omega arith; last_line = refl; last_size = refl }

-- The send leaves the counters alone.
offer_run :
    (room : ℕ) (a : Alert) (queue : List Alert) (s : Watching) → (offer room a queue s).run ≡ s.run
offer_run room a queue s = elim (Bool-cases (ltb (length queue) room)) [
  | inl e ↦ rw e refl
  | inr e ↦ rw e refl
]

module _ (around : Around) (room : ℕ) (w : Watch) (re : Text → Bool) where
  on_line-IsCounted :
      (l : Text) (s : Watching)
      → IsCounted s.run (on_line around room w re l s).run (count re (l ∷ []))
  unfolding on_line
  on_line-IsCounted l s = elim (Bool-cases (re l)) [
    | inr e ↦ rw e (record { matches = omega arith; last_line = refl; last_size = refl })
    | inl e ↦ rw e (elim (Bool-cases (ltb (around.clock s.run.matches) s.run.cooldown_until)) [
      | inl h ↦ rw h (record { matches = omega arith; last_line = refl; last_size = refl })
      | inr h ↦ rw h (
          subst (λ r. IsCounted s.run r 1)
            (sym (
              offer_run room
                (record { watch = w.name; line = cap_line l; at = around.clock s.run.matches })
                (around.meanwhile s.run.matches s.waiting)
                (record s { run = arm w.cooldown (around.clock s.run.matches) (counted s.run) })))
            (arm-counted w.cooldown (around.clock s.run.matches) s.run))
    ])
  ]

  scan-IsCounted :
      (ls : List Text) (s : Watching)
      → IsCounted s.run (scan around room w re ls s).run (count re ls)
  unfolding scan
  scan-IsCounted [] s = record { matches = omega arith; last_line = refl; last_size = refl }
  scan-IsCounted (l ∷ ls) s =
      let h = on_line-IsCounted l s in
      let k = scan-IsCounted ls (on_line around room w re l s) in
      record {
        matches = omega (arith, h.matches, k.matches, count-append re (l ∷ []) ls);
        last_line = k.last_line ∙ h.last_line;
        last_size = k.last_size ∙ h.last_size;
      }

  -- A poll of a log that has grown scans what was added.
  poll_grown :
      (c v : Text) (disk : Disk) (s : Watching)
      → s.run.last_size ≡ length c
      → s.run.last_line ≡ length c
      → IsLog (c ++ v) disk
      → poll around room w re disk s
        ≡ scan around room w re (lines_of v) (read (length (c ++ v)) (length (c ++ v)) s)
  unfolding poll
  poll_grown c v disk s hs hl h =
      ap (λ n. scan_tail around room w re (tail_file disk n s.run.last_line) s) hs
      ∙ ap (λ n. scan_tail around room w re (tail_file disk (length c) n) s) hl
      ∙ ap (λ t. scan_tail around room w re t s) (tail_file_grown c v disk h)

  polls-IsCounted :
      (c : Text) (ds : List (Text × Disk)) (s : Watching)
      → s.run.last_size ≡ length c
      → s.run.last_line ≡ length c
      → IsGrowing c ds
      → let r = (polls around room w re (disks ds) s).run in
        (r.matches ≡ s.run.matches + count re (lines_of (written ds)))
        × (r.last_line ≡ length c + length (written ds))
  unfolding polls
  polls-IsCounted c [] s hs hl h = (omega arith, omega (arith, hl))
  polls-IsCounted c ((v, d) ∷ ds) s hs hl (whole, log, more) =
      let here = read (length (c ++ v)) (length (c ++ v)) s in
      let k = scan-IsCounted (lines_of v) here in
      let rest =
        polls-IsCounted (c ++ v) ds (scan around room w re (lines_of v) here) k.last_size
          k.last_line more in
      subst
        (λ x.
          ((polls around room w re (disks ds) x).run.matches
            ≡ s.run.matches + count re (lines_of (v ++ written ds)))
          × ((polls around room w re (disks ds) x).run.last_line
              ≡ length c + length (v ++ written ds)))
        (sym (poll_grown c v d s hs hl log))
        (
          rest.0
              ∙ omega (
                arith,
                k.matches,
                count-append re (lines_of v) (lines_of (written ds)),
                ap (count re) (lines_of-append v (written ds) whole),
              ),
          rest.1 ∙ omega (arith, length-append c v, length-append v (written ds)),
        )

-- Where a regular file that can be read grows by whole lines, the polls of a new watch, however
-- they fall, count each of its lines that match exactly once, and read it to its end.
pub polls-count_once :
    (around : Around) (room : ℕ) (w : Watch) (re : Text → Bool) (queue : List Alert)
    (ds : List (Text × Disk))
    → IsGrowing [] ds
    → let s = polls around room w re (disks ds) (begun queue) in
      (s.run.matches ≡ count re (lines_of (written ds))) × (s.run.last_line ≡ length (written ds))
polls-count_once around room w re queue ds h =
    let k = polls-IsCounted around room w re [] ds (begun queue) refl refl h in
    (omega (arith, k.0), omega (arith, k.1))
