-- ===== src/WatchGate/Store/Laws.antt =====
-- internal/app/watchgate.go (HandleWatchText) over internal/logwatch/store.go: what the table holds.
use aegis_go.Prelude.{
  ℕ, ◌≡◌, refl, sym, ap, ◌∙◌, subst, Bool, true, false, not, List, [], ◌∷◌, Option, inl, inr,
  Bool-cases, if◌then◌else◌, any, keep, any-keep_none, All,
}
use aegis_go.Prelude.Result.{Result-cases}
use aegis_go.Rules.{Text, codes, trim_space}
use aegis_go.Texts.{text_eq, empty, trim_prefix}
use aegis_go.Texts.Laws.{text_eq→≡, text_eq_sym}
use aegis_go.Watchdog.{Around, Disk}
use aegis_go.Watchdog.Manager.{new_manager, add}
use aegis_go.WatchGate.{Parsers, parse_watch}
use aegis_go.WatchGate.Laws.{IsWatchable, parse_watch-IsWatchable}
use aegis_go.WatchGate.Store.{
  WatchRow, Gate, row_of, row_named, text_less, insert_row, overwrite, upsert_row, save_watch,
  delete_watch, list_watches, as_watch, watch_parsed, unwatch, command_of, handle_watch_text,
  start_watches, Op, chat, reboot, step, steps,
}

-- Names are keys.
abbrev pub IsKeyed : List WatchRow → Type 0
IsKeyed [] = Unit
IsKeyed (r ∷ rs) = (any (row_named r.name) rs ≡ false) × IsKeyed rs

abbrev pub IsLoadable : (Text → Option (Text → Bool)) → WatchRow → Type 0
IsLoadable regexp r = IsWatchable regexp r.name r.path r.pattern

-- Rows under their keys, each of which a restart can load.
pub record IsStored (regexp : Text → Option (Text → Bool)) (rows : List WatchRow) : Type 0 where
  pub keyed : IsKeyed rows
  pub loadable : All (IsLoadable regexp) rows

any-overwrite :
    (name : Text) (r : WatchRow) (rows : List WatchRow)
    → any (row_named name) (overwrite r rows) ≡ any (row_named name) rows
any-overwrite name r [] = refl
any-overwrite name r (x ∷ xs) = elim (Bool-cases (row_named r.name x)) [
  | inl e ↦ rw e (
      ap (λ n. if text_eq n name then true else any (row_named name) xs)
        (sym (text_eq→≡ x.name r.name e)))
  | inr e ↦ rw e (ap (λ b. if row_named name x then true else b) (any-overwrite name r xs))
]

overwrite-IsKeyed :
    (r : WatchRow) (rows : List WatchRow) → IsKeyed rows → IsKeyed (overwrite r rows)
overwrite-IsKeyed r [] h = tt
overwrite-IsKeyed r (x ∷ xs) (other, h) = elim (Bool-cases (row_named r.name x)) [
  | inl e ↦ rw e (subst (λ n. any (row_named n) xs ≡ false) (text_eq→≡ x.name r.name e) other, h)
  | inr e ↦ rw e (any-overwrite x.name r xs ∙ other, overwrite-IsKeyed r xs h)
]

any-insert_row :
    (name : Text) (r : WatchRow) (rows : List WatchRow)
    → row_named name r ≡ false
    → any (row_named name) rows ≡ false
    → any (row_named name) (insert_row r rows) ≡ false
any-insert_row name r [] e h = rw e refl
any-insert_row name r (x ∷ xs) e h = elim (Bool-cases (text_less r.name x.name)) [
  | inl l ↦ rw (l, e) h
  | inr l ↦ elim (Bool-cases (row_named name x)) [
    | inl n ↦ cc (rw n at h)
    | inr n ↦ rw (l, n) (any-insert_row name r xs e (rw n at h))
  ]
]

insert_row-IsKeyed :
    (r : WatchRow) (rows : List WatchRow)
    → any (row_named r.name) rows ≡ false
    → IsKeyed rows
    → IsKeyed (insert_row r rows)
insert_row-IsKeyed r [] new h = (refl, tt)
insert_row-IsKeyed r (x ∷ xs) new (other, h) = elim (Bool-cases (row_named r.name x)) [
  | inl n ↦ cc (rw n at new)
  | inr n ↦ elim (Bool-cases (text_less r.name x.name)) [
    | inl l ↦ rw l (new, (other, h))
    | inr l ↦ rw l (
      any-insert_row x.name r xs (text_eq_sym r.name x.name ∙ n) other,
      insert_row-IsKeyed r xs (rw n at new) h,
    )
  ]
]

module _ (P : WatchRow → Type 0) where
  overwrite-All :
      (r : WatchRow) (rows : List WatchRow) → P r → All P rows → All P (overwrite r rows)
  overwrite-All r [] p h = tt
  overwrite-All r (x ∷ xs) p (q, h) = elim (Bool-cases (row_named r.name x)) [
    | inl e ↦ rw e (p, h)
    | inr e ↦ rw e (q, overwrite-All r xs p h)
  ]

  insert_row-All :
      (r : WatchRow) (rows : List WatchRow) → P r → All P rows → All P (insert_row r rows)
  insert_row-All r [] p h = (p, tt)
  insert_row-All r (x ∷ xs) p (q, h) = elim (Bool-cases (text_less r.name x.name)) [
    | inl e ↦ rw e (p, (q, h))
    | inr e ↦ rw e (q, insert_row-All r xs p h)
  ]

  keep-All : (p : WatchRow → Bool) (rows : List WatchRow) → All P rows → All P (keep p rows)
  keep-All p [] h = tt
  keep-All p (x ∷ xs) (q, h) = elim (Bool-cases (p x)) [
    | inl e ↦ rw e (q, keep-All p xs h)
    | inr e ↦ rw e (keep-All p xs h)
  ]

keep-IsKeyed : (p : WatchRow → Bool) (rows : List WatchRow) → IsKeyed rows → IsKeyed (keep p rows)
keep-IsKeyed p [] h = tt
keep-IsKeyed p (x ∷ xs) (other, h) = elim (Bool-cases (p x)) [
  | inl e ↦ rw e (any-keep_none (row_named x.name) p xs other, keep-IsKeyed p xs h)
  | inr e ↦ rw e (keep-IsKeyed p xs h)
]

module _ (accepts : ℕ → Bool) (c : Parsers) where
  upsert_row-IsStored :
      (r : WatchRow) (rows : List WatchRow)
      → IsLoadable c.regexp r
      → IsStored c.regexp rows
      → IsStored c.regexp (upsert_row r rows)
  upsert_row-IsStored r rows p h = elim (Bool-cases (any (row_named r.name) rows)) [
    | inl e ↦ rw e (record {
      keyed = overwrite-IsKeyed r rows h.keyed;
      loadable = overwrite-All (IsLoadable c.regexp) r rows p h.loadable;
    })
    | inr e ↦ rw e (record {
      keyed = insert_row-IsKeyed r rows e h.keyed;
      loadable = insert_row-All (IsLoadable c.regexp) r rows p h.loadable;
    })
  ]

  watch_parsed-IsStored :
      (around : Around) (disk : Disk) (text : Text) (g : Gate)
      → IsStored c.regexp g.db.rows
      → IsStored c.regexp (watch_parsed accepts c around disk (parse_watch c text) g).1.db.rows
  unfolding save_watch
  watch_parsed-IsStored around disk text g h = elim (Result-cases (parse_watch c text)) [
    | inr (x, e) ↦ rw e h
    | inl (w, e) ↦ rw e (elim (Result-cases (add c.regexp around disk (as_watch w) g.mgr).0) [
      | inr (x, a) ↦ rw a h
      | inl (u, a) ↦ rw a (elim (Bool-cases (accepts g.db.calls)) [
        | inl s ↦
            rw s (upsert_row-IsStored (row_of w) g.db.rows (parse_watch-IsWatchable c text e) h)
        | inr s ↦ rw s h
      ])
    ])
  ]

  unwatch-IsStored :
      (name : Text) (g : Gate)
      → IsStored c.regexp g.db.rows
      → IsStored c.regexp (unwatch accepts name g).1.db.rows
  unfolding delete_watch
  unwatch-IsStored name g h = elim (Bool-cases (empty name)) [
    | inl e ↦ rw e h
    | inr e ↦ rw e (elim (Bool-cases (accepts g.db.calls)) [
      | inl s ↦ rw s (record {
        keyed = keep-IsKeyed (λ r. not (row_named name r)) g.db.rows h.keyed;
        loadable =
            keep-All (IsLoadable c.regexp) (λ r. not (row_named name r)) g.db.rows h.loadable;
      })
      | inr s ↦ rw s h
    ])
  ]

  handle_watch_text-IsStored :
      (around : Around) (disk : Disk) (text : Text) (g : Gate)
      → IsStored c.regexp g.db.rows
      → IsStored c.regexp (handle_watch_text accepts c around disk text g).1.db.rows
  unfolding handle_watch_text list_watches
  handle_watch_text-IsStored around disk text g h =
      let is = text_eq (command_of text) in
      elim (Bool-cases (is (codes "/watch"))) [
        | inl w ↦ rw w (watch_parsed-IsStored around disk text g h)
        | inr w ↦ elim (Bool-cases (is (codes "/unwatch"))) [
          | inl u ↦
              rw (w, u) (unwatch-IsStored (trim_space (trim_prefix (codes "/unwatch") text)) g h)
          | inr u ↦ elim (Bool-cases (is (codes "/watchlist"))) [
            | inl l ↦
                rw (w, u, l)
                  (elim (Bool-cases (accepts g.db.calls)) [ inl a ↦ rw a h | inr a ↦ rw a h ])
            | inr l ↦ elim (Bool-cases (is (codes "/analyze"))) [
              | inl a ↦ rw (w, u, l, a) h
              | inr a ↦ rw (w, u, l, a) h
            ]
          ]
        ]
      ]

  start_watches-rows :
      (around : Around) (disks : Text → Disk) (g : Gate)
      → (start_watches accepts c.regexp around disks g).1.db.rows ≡ g.db.rows
  unfolding start_watches list_watches
  start_watches-rows around disks g = elim (Bool-cases (accepts g.db.calls)) [
    | inl a ↦ rw a refl
    | inr a ↦ rw a refl
  ]

  step-IsStored :
      (op : Op) (g : Gate)
      → IsStored c.regexp g.db.rows
      → IsStored c.regexp (step accepts c op g).db.rows
  unfolding step
  step-IsStored (chat around disk text) g h = handle_watch_text-IsStored around disk text g h
  step-IsStored (reboot around disks buffer) g h =
      subst (IsStored c.regexp)
        (sym (start_watches-rows around disks (record { mgr = new_manager buffer; db = g.db }))) h

  pub steps-IsStored :
      (ops : List Op) (g : Gate)
      → IsStored c.regexp g.db.rows
      → IsStored c.regexp (steps accepts c ops g).db.rows
  unfolding steps
  steps-IsStored [] g h = h
  steps-IsStored (op ∷ ops) g h = steps-IsStored ops (step accepts c op g) (step-IsStored op g h)
