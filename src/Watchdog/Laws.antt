-- ===== src/Watchdog/Laws.antt =====
-- internal/logwatch/watchdog.go (tailFile): what the polls read of a log that grows by whole lines.
pub mod Once
pub mod Spacing
use aegis_go.Prelude.{
  le→ltb_false, gt→==_false, ==_refl, ℕ, zero, suc, ◌+◌, ◌-◌, ◌≤◌, ◌<◌, ◌≡◌, refl, sym, ap, ◌∙◌,
  subst, Bool, true, false, not, ◌||◌, List, [], ◌∷◌, ◌++◌, Option, none, some, ltb, ◌==◌, length,
  take, drop, arith, inl, inr, Bool-cases, length-append, if◌then◌else◌,
}
use aegis_go.Rules.{Text}
use aegis_go.Texts.{empty, split, trim_end}
use aegis_go.Texts.Laws.{split-append_sep}
use aegis_go.Watchdog.{
  FileInfo, Disk, Watch, Running, Watching, Around, Alert, kept_lines, lines_of, tail_file,
  tail_info, tail_from, read_new, on_line, matched, offer, arm, counted, scan, poll, polls, read,
  scan_tail,
}

-- The disk shows a regular file with this content, or with more by the time of the read.
pub record IsLog (c : Text) (disk : Disk) : Type 0 where
  pub info : disk.stat ≡ some (record { regular = true; size = length c })
  pub openable : disk.opens ≡ true
  pub bytes : (n off : ℕ) → off + n ≤ length c → (disk.read_at n off).0 ≡ take n (drop off c)

drop-length : (c w : Text) → drop (length c) (c ++ w) ≡ w
drop-length [] w = refl
drop-length (x ∷ c) w = drop-length c w

take-length : (w : Text) → take (length w) w ≡ w
take-length [] = refl
take-length (x ∷ w) = ap (◌∷◌ x) (take-length w)

-- A read that got something.
read_new_some :
    (size off x : ℕ) (w : Text) (r : Text × Bool)
    → r.0 ≡ x ∷ w
    → read_new size off r ≡ (lines_of (x ∷ w), size, off + length (x ∷ w))
read_new_some size off x w ([], failed) h = cc h
read_new_some size off x w (y ∷ buf, true) h = ap (λ b. (lines_of b, size, off + length b)) h
read_new_some size off x w (y ∷ buf, false) h = ap (λ b. (lines_of b, size, off + length b)) h

-- The read of what was added.
added :
    (c w : Text) (disk : Disk)
    → IsLog (c ++ w) disk
    → (disk.read_at (length (c ++ w) - length c) (length c)).0 ≡ w
added c w disk h =
    let n = length-append c w in
    let m : length (c ++ w) - length c ≡ length w = omega (arith, n) in
    h.bytes (length (c ++ w) - length c) (length c) (omega (arith, n))
    ∙ ap (take (length (c ++ w) - length c)) (drop-length c w)
    ∙ ap (λ k. take k w) m
    ∙ take-length w

tail_from_grown :
    (c : Text) (x : ℕ) (w : Text) (disk : Disk)
    → IsLog (c ++ x ∷ w) disk
    → tail_from disk (length (c ++ x ∷ w)) (length c)
      ≡ (lines_of (x ∷ w), length (c ++ x ∷ w), length (c ++ x ∷ w))
tail_from_grown c x w disk h =
    let n = length-append c (x ∷ w) in
    rw (gt→==_false (length (c ++ x ∷ w)) (length c) (omega (arith, n)), h.openable)
      (read_new_some (length (c ++ x ∷ w)) (length c) x w
          (disk.read_at (length (c ++ x ∷ w) - length c) (length c)) (added c (x ∷ w) disk h)
        ∙ ap (λ k. (lines_of (x ∷ w), length (c ++ x ∷ w), k)) (sym n))

-- A poll of a log that has grown reads what was added, and stands at its end.
tail_file_grown :
    (c w : Text) (disk : Disk)
    → IsLog (c ++ w) disk
    → tail_file disk (length c) (length c) ≡ (lines_of w, length (c ++ w), length (c ++ w))
unfolding tail_file
tail_file_grown c [] disk h =
    let n : length (c ++ []) ≡ length c = omega (arith, length-append c []) in
    rw (h.info, n, le→ltb_false (length c) (length c) (omega arith), ==_refl (length c)) refl
tail_file_grown c (x ∷ w) disk h =
    let n = length-append c (x ∷ w) in
    rw (h.info, le→ltb_false (length c) (length (c ++ x ∷ w)) (omega (arith, n)))
      (tail_from_grown c x w disk h)
