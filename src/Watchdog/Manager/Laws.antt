-- ===== src/Watchdog/Manager/Laws.antt =====
-- internal/logwatch/watchdog.go (Manager): one goroutine for each watch, one watch for each name.
use aegis_go.Prelude.{
  ◌||◌, lt→==_false, gt→==_false, ==_refl, ℕ, ◌≤◌, ◌<◌, ◌≡◌, refl, sym, ap, ◌∙◌, subst, Bool, true,
  false, not, List, [], ◌∷◌, ◌++◌, Option, none, some, inl, inr, Bool-cases, Option-cases, arith,
  if◌then◌else◌, ◌==◌, any, any-keep_none,
}
use aegis_go.Rules.{Text, codes}
use aegis_go.Texts.{empty}
use aegis_go.Watchdog.{Watch, Watching, Alert, Around, Disk, poll, begun}
use aegis_go.Texts.Laws.{text_eq→≡}
use aegis_go.Watchdog.Manager.{
  Entry, Manager, new_manager, named, runs_in, find_watch, others, stop_loop, drop_watch,
  with_defaults, launch, replace, add, remove, stop_all, stop, tick_in, tick, Op, adding, removing,
  stopping, ticking, step, steps,
}

abbrev loops_of : List Entry → List ℕ
loops_of [] = []
loops_of (e ∷ es) = e.loop ∷ loops_of es

-- No two watches have the same name, and each has a goroutine of its own, the later the younger.
abbrev IsUnique : ℕ → List Entry → Type 0
IsUnique next [] = Unit
IsUnique next (e ∷ es) = (e.loop < next) × (any (named e.spec.name) es ≡ false) × IsUnique e.loop es

-- The goroutines that run are those of the registered watches.
pub record IsSound (m : Manager) : Type 0 where
  pub unique : IsUnique m.next_loop m.watches
  pub live : m.loops ≡ loops_of m.watches

IsUnique-le :
    (next later : ℕ) (es : List Entry) → next ≤ later → IsUnique next es → IsUnique later es
IsUnique-le next later [] h u = tt
IsUnique-le next later (e ∷ es) h (below, other, u) = (omega (arith, below, h), other, u)

stop_loop_below :
    (next id : ℕ) (es : List Entry)
    → next ≤ id
    → IsUnique next es
    → stop_loop id (loops_of es) ≡ loops_of es
stop_loop_below next id [] h u = refl
stop_loop_below next id (e ∷ es) h (below, other, u) =
    rw (lt→==_false e.loop id (omega (arith, below, h)))
      (ap (◌∷◌ e.loop) (stop_loop_below e.loop id es (omega (arith, below, h)) u))

others_unnamed : (name : Text) (es : List Entry) → any (named name) es ≡ false → others name es ≡ es
others_unnamed name [] h = refl
others_unnamed name (e ∷ es) h = elim (Bool-cases (named name e)) [
  | inl n ↦ cc (rw n at h)
  | inr n ↦ rw n (ap (◌∷◌ e) (others_unnamed name es (rw n at h)))
]

any-others :
    (other name : Text) (es : List Entry)
    → any (named other) es ≡ false
    → any (named other) (others name es) ≡ false
any-others other name es h = any-keep_none (named other) (λ e. not (named name e)) es h

unnamed_others : (name : Text) (es : List Entry) → any (named name) (others name es) ≡ false
unnamed_others name [] = refl
unnamed_others name (e ∷ es) = elim (Bool-cases (named name e)) [
  | inl n ↦ rw n (unnamed_others name es)
  | inr n ↦ rw (n, n) (unnamed_others name es)
]

IsUnique-others :
    (next : ℕ) (name : Text) (es : List Entry) → IsUnique next es → IsUnique next (others name es)
IsUnique-others next name [] u = tt
IsUnique-others next name (e ∷ es) (below, other, u) = elim (Bool-cases (named name e)) [
  | inl n ↦ rw n (
      IsUnique-le e.loop next (others name es) (omega (arith, below))
        (IsUnique-others e.loop name es u))
  | inr n ↦ rw n (below, any-others e.spec.name name es other, IsUnique-others e.loop name es u)
]

found_below :
    (next : ℕ) (name : Text) (es : List Entry) (e : Entry)
    → IsUnique next es
    → find_watch name es ≡ some e
    → e.loop < next
found_below next name [] e u h = cc h
found_below next name (x ∷ es) e (below, other, u) h = elim (Bool-cases (named name x)) [
  | inl n ↦ let same : x ≡ e = cc (rw n at h) in subst (λ y. y.loop < next) same below
  | inr n ↦ omega (arith, below, found_below x.loop name es e u (rw n at h))
]

-- Stopping the goroutine of a watch leaves those of the others.
stop_loop_found :
    (next : ℕ) (name : Text) (es : List Entry) (e : Entry)
    → IsUnique next es
    → find_watch name es ≡ some e
    → stop_loop e.loop (loops_of es) ≡ loops_of (others name es)
stop_loop_found next name [] e u h = cc
stop_loop_found next name (x ∷ es) e (below, other, u) h = elim (Bool-cases (named name x)) [
  | inl n ↦
      let same : x ≡ e = cc (rw n at h) in
      let only = subst (λ k. any (named k) es ≡ false) (text_eq→≡ x.spec.name name n) other in
      subst (λ y. stop_loop y.loop (loops_of (x ∷ es)) ≡ loops_of (others name (x ∷ es))) same
        (rw (==_refl x.loop, n)
          (stop_loop_below x.loop x.loop es (omega arith) u
            ∙ ap loops_of (sym (others_unnamed name es only))))
  | inr n ↦
      let found = rw n at h in
      rw (gt→==_false x.loop e.loop (found_below x.loop name es e u found), n)
        (ap (◌∷◌ x.loop) (stop_loop_found x.loop name es e u found))
]

find_none :
    (name : Text) (es : List Entry) → find_watch name es ≡ none → any (named name) es ≡ false
find_none name [] h = refl
find_none name (e ∷ es) h = elim (Bool-cases (named name e)) [
  | inl n ↦ cc (rw n at h)
  | inr n ↦ rw n (find_none name es (rw n at h))
]

stop_all_none : (next : ℕ) (es : List Entry) → IsUnique next es → stop_all es (loops_of es) ≡ []
stop_all_none next [] u = refl
stop_all_none next (e ∷ es) (below, other, u) = rw (==_refl e.loop) (
    ap (stop_all es) (stop_loop_below e.loop e.loop es (omega arith) u) ∙ stop_all_none e.loop es u)

-- Without the watch of a name, nothing else has it.
drop_watch-IsSound :
    (name : Text) (m : Manager)
    → IsSound m
    → let m' = drop_watch name (find_watch name m.watches) m in
      IsSound m' × (any (named name) m'.watches ≡ false)
drop_watch-IsSound name m h = elim (Option-cases (find_watch name m.watches)) [
  | inl e ↦ rw e (h, find_none name m.watches e)
  | inr (w, e) ↦ rw e (
    record {
      unique = IsUnique-others m.next_loop name m.watches h.unique;
      live = ap (stop_loop w.loop) h.live ∙ stop_loop_found m.next_loop name m.watches w h.unique e;
    },
    unnamed_others name m.watches,
  )
]

launch-IsSound :
    (w : Watch) (re : Text → Bool) (s : Watching) (m : Manager)
    → IsSound m
    → any (named w.name) m.watches ≡ false
    → IsSound (launch w re s m)
launch-IsSound w re s m h free = record {
  unique = (omega arith, free, h.unique);
  live = ap (◌∷◌ m.next_loop) h.live;
}

replace-IsSound :
    (around : Around) (disk : Disk) (w : Watch) (re : Text → Bool) (m : Manager)
    → IsSound m
    → IsSound (replace around disk w re m)
replace-IsSound around disk w re m h =
    let (sound, free) = drop_watch-IsSound w.name m h in
    let m' = drop_watch w.name (find_watch w.name m.watches) m in
    launch-IsSound w re (poll around m'.room w re disk (begun m'.waiting)) m' sound free

add-IsSound :
    (compile : Text → Option (Text → Bool)) (around : Around) (disk : Disk) (w : Watch)
    (m : Manager)
    → IsSound m
    → IsSound (add compile around disk w m).1
unfolding add
add-IsSound compile around disk w m h =
    elim (Bool-cases (empty w.name || empty w.path || empty w.pattern)) [
      | inl e ↦ rw e h
      | inr e ↦ rw e (elim (Option-cases (compile (codes "(?i)" ++ w.pattern))) [
        | inl c ↦ rw c h
        | inr (re, c) ↦ rw c (replace-IsSound around disk (with_defaults w) re m h)
      ])
    ]

record IsSame (es es' : List Entry) : Type 0 where
  loops : loops_of es' ≡ loops_of es
  names : (name : Text) → any (named name) es' ≡ any (named name) es
  unique : (next : ℕ) → IsUnique next es → IsUnique next es'

tick_in-IsSame :
    (around : Around) (disk : Disk) (room id : ℕ) (waiting : List Alert) (es : List Entry)
    → IsSame es (tick_in around disk room id waiting es).0
unfolding tick_in
tick_in-IsSame around disk room id waiting [] = record {
  loops = refl;
  names = λ n. refl;
  unique = λ n u. u;
}
tick_in-IsSame around disk room id waiting (e ∷ es) = elim (Bool-cases (runs_in id e)) [
  | inl r ↦ rw r (record { loops = refl; names = λ n. refl; unique = λ n u. u })
  | inr r ↦
      let k = tick_in-IsSame around disk room id waiting es in
      rw r (record {
        loops = ap (◌∷◌ e.loop) k.loops;
        names = λ n. ap (λ b. if named n e then true else b) (k.names n);
        unique = λ n u. (u.0, k.names e.spec.name ∙ u.1, k.unique e.loop u.2);
      })
]

step-IsSound :
    (compile : Text → Option (Text → Bool)) (op : Op) (m : Manager)
    → IsSound m
    → IsSound (step compile op m)
unfolding step stop tick remove
step-IsSound compile (adding around disk w) m h = add-IsSound compile around disk w m h
step-IsSound compile (removing name) m h = (drop_watch-IsSound name m h).0
step-IsSound compile stopping m h = record {
  unique = tt;
  live = ap (stop_all m.watches) h.live ∙ stop_all_none m.next_loop m.watches h.unique;
}
step-IsSound compile (ticking around disk id) m h = elim (Bool-cases (any (λ l. l == id) m.loops)) [
  | inl e ↦
      let k = tick_in-IsSame around disk m.room id m.waiting m.watches in
      rw e (record { unique = k.unique m.next_loop h.unique; live = h.live ∙ sym k.loops })
  | inr e ↦ rw e h
]

steps-IsSound' :
    (compile : Text → Option (Text → Bool)) (ops : List Op) (m : Manager)
    → IsSound m
    → IsSound (steps compile ops m)
unfolding steps
steps-IsSound' compile [] m h = h
steps-IsSound' compile (op ∷ ops) m h =
    steps-IsSound' compile ops (step compile op m) (step-IsSound compile op m h)

-- After any additions, removals, stops and ticks of a new manager, the goroutines that run are
-- those of the registered watches, one for each, and no two watches have the same name.
pub steps-IsSound :
    (compile : Text → Option (Text → Bool)) (ops : List Op) (buffer : ℕ)
    → IsSound (steps compile ops (new_manager buffer))
unfolding new_manager
steps-IsSound compile ops buffer =
    steps-IsSound' compile ops (new_manager buffer) (record { unique = tt; live = refl })
