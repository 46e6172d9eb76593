-- ===== src/Dispatcher/Laws/Routes.antt =====
-- internal/telegram/dispatcher.go (Process): which texts reach which arm.
use aegis_go.Prelude.{
  ◌≡◌, refl, sym, ap, subst, ◌∙◌, Bool, true, false, String, str_eq, eq_iff, List, [], ◌∷◌, ◌++◌,
  none, any, ◌==◌, inl, inr, Bool-cases, All,
}
use aegis_go.Rules.{Text, codes}
use aegis_go.Texts.{has_prefix, text_eq}
use aegis_go.Inbox.{InboxRow, mark_status}
use aegis_go.Dispatcher.{
  unknown, Step, reply, Wiring, Bot, Outside, plan, plan_text, switch_on, after_switch,
  gated_or_rest, unknown_or_run, known_router_command, one_of, command_of, app_gates,
  analysis_commands, watch_commands, exact_cases, find_case, register_gated, process, run_plan,
  no_chat,
}

-- A chat off the allowlist: the row is marked, and nothing else happens.
denied_silent :
    {S : Type 0} (o : Outside S) (w : Wiring) (row : InboxRow) (b : Bot S)
    → w.allow row.chat_id ≡ false
    → process o w row b ≡ record b { inbox = mark_status o.accepts row.update_id "skipped" b.inbox }
unfolding process plan run_plan
denied_silent o w row b h = elim (Bool-cases (no_chat row.chat_id)) [
  | inl e ↦ rw e
  | inr e ↦ rw (e, h)
]

abbrev has_blank : Text → Bool
has_blank s = any (λ c. c == 32) s

-- No name without a blank is a text with one.
spaced_differs :
    (t n : String) → has_blank (codes t) ≡ true → has_blank (codes n) ≡ false → str_eq t n ≡ false
spaced_differs t n h k = elim (Bool-cases (str_eq t n)) [
  | inr e ↦ e
  | inl e ↦ let same : t ≡ n = (eq_iff t n).0 e in cc (ap (λ s. has_blank (codes s)) same, h, k)
]

blank_after : (a b : Text) → has_blank (a ++ (32 ∷ b)) ≡ true
blank_after [] b = refl
blank_after (c ∷ a) b = elim (Bool-cases (c == 32)) [
  | inl e ↦ rw e
  | inr e ↦ rw e (blank_after a b)
]

module _ (t : String) (h : has_blank (codes t) ≡ true) where
  abbrev differs : (n : String) → has_blank (codes n) ≡ false → str_eq t n ≡ false
  differs n k = spaced_differs t n h k

  find_case_spaced :
      (cs : List (String × Step))
      → any (λ c. has_blank (codes c.0)) cs ≡ false
      → find_case t cs ≡ none
  find_case_spaced [] k = refl
  find_case_spaced ((n, s) ∷ cs) k = elim (Bool-cases (has_blank (codes n))) [
    | inl e ↦ cc (rw e at k)
    | inr e ↦ rw (differs n e) (find_case_spaced cs (rw e at k))
  ]

  one_of_spaced :
      (names : List String) → any (λ n. has_blank (codes n)) names ≡ false → one_of t names ≡ false
  one_of_spaced [] k = refl
  one_of_spaced (n ∷ ns) k = elim (Bool-cases (has_blank (codes n))) [
    | inl e ↦ cc (rw e at k)
    | inr e ↦ rw (differs n e) (one_of_spaced ns (rw e at k))
  ]

  -- A text with a blank passes the switch.
  pub switch_spaced : (w : Wiring) → switch_on w t ≡ after_switch w (codes t)
  unfolding switch_on
  switch_spaced w = rw (
    find_case_spaced exact_cases refl,
    one_of_spaced analysis_commands refl,
    one_of_spaced watch_commands refl,
  )

abbrev argued : Text → Text → Text
argued cmd arg = cmd ++ (32 ∷ arg)

-- Commands that the switch knows only without arguments, and one that only the gate knows.
abbrev bare_commands : List String
bare_commands = "/unschedule" ∷ "/addrule" ∷ (analysis_commands ++ watch_commands)

-- The arms that a name with arguments misses.
abbrev Misses : String → Type 0
Misses n =
    (arg : Text)
    → (has_prefix (codes "/stats ") (argued (codes n) arg) ≡ false)
      × (has_prefix (codes "/every ") (argued (codes n) arg) ≡ false)
      × (has_prefix (codes "/cancel_job ") (argued (codes n) arg) ≡ false)
      × (has_prefix (codes "/rules ") (argued (codes n) arg) ≡ false)
      × (text_eq (command_of (argued (codes n) arg)) (codes "/register_rules") ≡ false)
      × (has_prefix (codes "/") (argued (codes n) arg) ≡ true)
      × ((w : Wiring)
          → after_switch w (argued (codes n) arg) ≡ gated_or_rest w (argued (codes n) arg))

missed_plan :
    (n : String) (arg : Text) (w : Wiring) (t : String)
    → Misses n
    → codes t ≡ argued (codes n) arg
    → plan_text w t ≡ gated_or_rest w (codes t)
unfolding plan_text
missed_plan n arg w t shape e =
    let (stats, every, cancel, rules, _, _, rest) = shape arg in
    let spaced : has_blank (codes t) ≡ true = ap has_blank e ∙ blank_after (codes n) arg in
    let not_rules : has_prefix (codes "/rules ") (codes t) ≡ false =
      ap (has_prefix (codes "/rules ")) e ∙ rules in
    let export : str_eq t "/rules export" ≡ false = elim (Bool-cases (str_eq t "/rules export")) [
      | inr p ↦ p
      | inl p ↦ let same : t ≡ "/rules export" = (eq_iff t "/rules export").0 p in cc same
    ] in
    rw
      (
        ap (has_prefix (codes "/stats ")) e ∙ stats,
        export,
        ap (has_prefix (codes "/every ")) e ∙ every,
        ap (has_prefix (codes "/cancel_job ")) e ∙ cancel,
      )
      (switch_spaced t spaced w ∙ ap (after_switch w) e ∙ rest w ∙ ap (gated_or_rest w) (sym e))

gated_unknown :
    (w : Wiring) (s : Text)
    → any (text_eq (command_of s)) w.gated ≡ false
    → has_prefix (codes "/") s ≡ true
    → known_router_command w s ≡ false
    → gated_or_rest w s ≡ reply true (unknown s) ∷ []
unfolding gated_or_rest unknown_or_run
gated_unknown w s g slash k = rw (g, slash, k)

missed_unknown :
    (n : String) (arg : Text) (w : Wiring) (t : String)
    → Misses n
    → codes t ≡ argued (codes n) arg
    → known_router_command w (codes t) ≡ false
    → plan_text (app_gates w) t ≡ reply true (unknown (codes t)) ∷ []
unfolding app_gates register_gated known_router_command
missed_unknown n arg w t shape e k =
    let (_, _, _, _, other, slash, _) = shape arg in
    missed_plan n arg (app_gates w) t shape e
    ∙ gated_unknown (app_gates w) (codes t) (rw e (rw other refl))
        (ap (has_prefix (codes "/")) e ∙ slash) k

All-miss : All Misses bare_commands
unfolding after_switch
All-miss = (
  λ arg. (refl, refl, refl, refl, refl, refl, λ w. refl),
  (
    λ arg. (refl, refl, refl, refl, refl, refl, λ w. refl),
    (
      λ arg. (refl, refl, refl, refl, refl, refl, λ w. refl),
      (
        λ arg. (refl, refl, refl, refl, refl, refl, λ w. refl),
        (
          λ arg. (refl, refl, refl, refl, refl, refl, λ w. refl),
          (
            λ arg. (refl, refl, refl, refl, refl, refl, λ w. refl),
            (
              λ arg. (refl, refl, refl, refl, refl, refl, λ w. refl),
              (
                λ arg. (refl, refl, refl, refl, refl, refl, λ w. refl),
                (
                  λ arg. (refl, refl, refl, refl, refl, refl, λ w. refl),
                  (
                    λ arg. (refl, refl, refl, refl, refl, refl, λ w. refl),
                    (λ arg. (refl, refl, refl, refl, refl, refl, λ w. refl), tt),
                  ),
                ),
              ),
            ),
          ),
        ),
      ),
    ),
  ),
)

all-any :
    (P : String → Type 0) (n : String) (ns : List String) → All P ns → one_of n ns ≡ true → P n
all-any P n [] h k = cc
all-any P n (m ∷ ns) h k = elim (Bool-cases (str_eq n m)) [
  | inl e ↦ subst P (sym ((eq_iff n m).0 e)) h.0
  | inr e ↦ all-any P n ns h.1 (rw e at k)
]

-- With the gates as the app registers them, each of /unschedule, /addrule, the log analysis
-- commands and the watch commands, when written with arguments, gets the text for an unknown
-- command, unless a live pattern starts with its name.
pub bare_commands_unknown :
    (n : String) (w : Wiring) (t : String) (arg : Text)
    → one_of n bare_commands ≡ true
    → codes t ≡ argued (codes n) arg
    → known_router_command w (codes t) ≡ false
    → plan_text (app_gates w) t ≡ reply true (unknown (codes t)) ∷ []
bare_commands_unknown n w t arg h e k =
    missed_unknown n arg w t (all-any Misses n bare_commands All-miss h) e k
