-- ===== src/WatchGate/Store/Restart.antt =====
-- internal/app/watchgate.go (StartWatches): a restart brings back the watches of the table.
use aegis_go.Prelude.{
  ℕ, zero, suc, ◌*◌, ◌-◌, ◌<◌, arith, ◌≡◌, refl, sym, ap, ◌∙◌, subst, Bool, true, false, List, [],
  ◌∷◌, Option, some, inl, inr, Bool-cases, Option-cases, if◌then◌else◌, any, All, map,
}
use aegis_go.Prelude.Result.{Result, ok}
use aegis_go.Rules.{Text}
use aegis_go.Texts.{text_eq}
use aegis_go.Texts.Laws.{text_eq→≡, text_eq_refl}
use aegis_go.Watchdog.{Duration, pos, negsuc, Watch, Around, Disk, poll, begun}
use aegis_go.Watchdog.Manager.{
  Entry, Manager, WatchError, new_manager, add, replace, drop_watch, find_watch, others, named,
  with_defaults, or_seconds, or_minutes,
}
use aegis_go.WatchGate.{Parsers}
use aegis_go.WatchGate.Store.{
  WatchRow, row_named, stored, every_of, cooldown_of, list_watches, as_watch, rehydrated, rehydrate,
  start_watches, opened, Op, steps,
}
use aegis_go.WatchGate.Store.Laws.{IsKeyed, IsLoadable, steps-IsStored}

-- A row counts milliseconds; its interval is thirty seconds where it is not positive, and its cooldown
-- ten minutes where it is zero.
abbrev interval_of_row : Duration → Duration
interval_of_row (pos zero) = pos 30000000000
interval_of_row (pos (suc n)) = pos (suc n * 1000000)
interval_of_row (negsuc n) = pos 30000000000

abbrev cooldown_of_row : Duration → Duration
cooldown_of_row (pos zero) = pos 600000000000
cooldown_of_row (pos (suc n)) = pos (suc n * 1000000)
cooldown_of_row (negsuc n) = negsuc (suc n * 1000000 - 1)

-- The manager has the watch of a row.
abbrev pub IsLive : Manager → WatchRow → Type 0
IsLive m r =
    (e : Entry) × (find_watch r.name m.watches ≡ some e)
    × (e.spec.name ≡ r.name)
    × (e.spec.path ≡ r.path)
    × (e.spec.pattern ≡ r.pattern)
    × (e.spec.every ≡ interval_of_row r.every_ms)
    × (e.spec.cooldown ≡ cooldown_of_row r.cooldown_ms)

positive : (k : ℕ) → 0 < k → (n : ℕ) × (k ≡ suc n)
positive zero h = absurd (omega arith)
positive (suc n) h = (n, refl)

interval_restored : (d : Duration) → or_seconds (every_of d) ≡ interval_of_row d
interval_restored (pos zero) = refl
interval_restored (pos (suc n)) = let (k, e) = positive (suc n * 1000000) (omega arith) in rw e refl
interval_restored (negsuc n) = refl

cooldown_restored : (d : Duration) → or_minutes (cooldown_of d) ≡ cooldown_of_row d
cooldown_restored (pos zero) = refl
cooldown_restored (pos (suc n)) = let (k, e) = positive (suc n * 1000000) (omega arith) in rw e refl
cooldown_restored (negsuc n) =
    let (k, e) = positive (suc n * 1000000) (omega arith) in
    let last : k ≡ suc k - 1 = omega arith in rw e (ap negsuc last)

-- The watch of a row, as the gate adds it, is live.
restored :
    (m : Manager) (r : WatchRow) (e : Entry)
    → find_watch r.name m.watches ≡ some e
    → e.spec ≡ with_defaults (as_watch (stored r))
    → IsLive m r
restored m r e found spec = (
  e,
  found,
  ap (λ w. w.name) spec,
  ap (λ w. w.path) spec,
  ap (λ w. w.pattern) spec,
  ap (λ w. w.every) spec ∙ interval_restored r.every_ms,
  ap (λ w. w.cooldown) spec ∙ cooldown_restored r.cooldown_ms,
)

find_others :
    (name other : Text) (es : List Entry)
    → text_eq name other ≡ false
    → find_watch other (others name es) ≡ find_watch other es
find_others name other [] h = refl
find_others name other (e ∷ es) h = elim (Bool-cases (named name e)) [
  | inl n ↦
      let miss : named other e ≡ false =
        ap (λ k. text_eq k other) (text_eq→≡ e.spec.name name n) ∙ h in
      rw (n, miss) (find_others name other es h)
  | inr n ↦ rw n (ap (λ o. if named other e then some e else o) (find_others name other es h))
]

module _ (around : Around) (disk : Disk) (w : Watch) (re : Text → Bool) (m : Manager) where
  replace_find :
      (e : Entry) × (find_watch w.name (replace around disk w re m).watches ≡ some e) × (e.spec ≡ w)
  replace_find =
      let m' = drop_watch w.name (find_watch w.name m.watches) m in
      let s = poll around m'.room w re disk (begun m'.waiting) in
      rw (text_eq_refl w.name) (
        record { spec = w; regexp = re; loop = m'.next_loop; run = s.run; sent = s.sent },
        refl,
        refl,
      )

  replace_find_other :
      (other : Text)
      → text_eq w.name other ≡ false
      → find_watch other (replace around disk w re m).watches ≡ find_watch other m.watches
  replace_find_other other h = elim (Option-cases (find_watch w.name m.watches)) [
    | inl e ↦ rw (h, e) refl
    | inr (x, e) ↦ rw (h, e) (find_others w.name other m.watches h)
  ]

module _ (compile : Text → Option (Text → Bool)) (around : Around) (disks : Text → Disk) where
  -- A row that can be loaded is added.
  add_loadable :
      (r : WatchRow) (m : Manager)
      → IsLoadable compile r
      → (re : Text → Bool) × (add compile around (disks r.path) (as_watch (stored r)) m
          ≡ (ok tt, replace around (disks r.path) (with_defaults (as_watch (stored r))) re m))
  unfolding add
  add_loadable r m h = (h.compiles.0, rw (h.complete, h.compiles.1) refl)

  abbrev loaded : List WatchRow → Manager → Result WatchError Unit × Manager
  loaded rs m = rehydrate compile around disks (map stored rs) m

  loaded_keeps :
      (rs : List WatchRow) (m : Manager) (name : Text)
      → All (IsLoadable compile) rs
      → any (row_named name) rs ≡ false
      → find_watch name (loaded rs m).1.watches ≡ find_watch name m.watches
  unfolding rehydrate
  loaded_keeps [] m name h new = refl
  loaded_keeps (r ∷ rs) m name (p, h) new = elim (Bool-cases (row_named name r)) [
    | inl n ↦ cc (rw n at new)
    | inr n ↦
        let (re, e) = add_loadable r m p in
        let w = with_defaults (as_watch (stored r)) in
        rw e (
          loaded_keeps rs (replace around (disks r.path) w re m) name h (rw n at new)
          ∙ replace_find_other around (disks r.path) w re m name n)
  ]

  loaded-IsLive :
      (rs : List WatchRow) (m : Manager)
      → All (IsLoadable compile) rs
      → IsKeyed rs
      → ((loaded rs m).0 ≡ ok tt) × All (IsLive (loaded rs m).1) rs
  unfolding rehydrate
  loaded-IsLive [] m h k = (refl, tt)
  loaded-IsLive (r ∷ rs) m (p, h) (new, k) =
      let (re, e) = add_loadable r m p in
      let w = with_defaults (as_watch (stored r)) in
      let m' = replace around (disks r.path) w re m in
      let (added, found, spec) = replace_find around (disks r.path) w re m in
      let (fine, live) = loaded-IsLive rs m' h k in
      subst (λ x. (x.0 ≡ ok tt) × All (IsLive x.1) (r ∷ rs))
        (sym (ap (λ x. rehydrated x (rehydrate compile around disks (map stored rs))) e))
        (
          fine,
          (restored (loaded rs m').1 r added (loaded_keeps rs m' r.name h new ∙ found) spec, live),
        )

-- After any chat commands and restarts, whatever the driver answers, a restart whose query succeeds
-- reports no error, and each row of the table has its live watch, with the name, the path and the
-- pattern of the row, its interval in milliseconds, or thirty seconds where the row has none, and
-- its cooldown in milliseconds, or ten minutes where the row has zero.
pub restart_rehydrates :
    (accepts : ℕ → Bool) (c : Parsers) (ops : List Op) (around : Around) (disks : Text → Disk)
    (buffer : ℕ)
    → let g = steps accepts c ops (opened buffer) in
      accepts g.db.calls ≡ true
      → let (res, g') =
          start_watches accepts c.regexp around disks
            (record { mgr = new_manager buffer; db = g.db }) in
        (res ≡ some (ok tt)) × All (IsLive g'.mgr) g.db.rows
unfolding start_watches list_watches
restart_rehydrates accepts c ops around disks buffer a =
    let g = steps accepts c ops (opened buffer) in
    let stored =
      steps-IsStored accepts c ops (opened buffer) (record { keyed = tt; loadable = tt }) in
    let (fine, live) =
      loaded-IsLive c.regexp around disks g.db.rows (new_manager buffer) stored.loadable
        stored.keyed in
    rw a (ap some fine, live)
