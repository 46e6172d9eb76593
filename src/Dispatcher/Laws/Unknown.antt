-- ===== src/Dispatcher/Laws/Unknown.antt =====
-- internal/telegram/dispatcher.go (Process): which texts reach the engine.
use aegis_go.Prelude.{
  ◌≡◌, refl, Bool, true, false, not, ◌&&◌, ◌||◌, String, str_eq, List, [], ◌∷◌, Option, none, some,
  any, if◌then◌else◌, ◌⊎◌, inl, inr, Bool-cases, if_split,
}
use aegis_go.Rules.{Text, codes, trim_space}
use aegis_go.Texts.{has_prefix, text_eq, trim_prefix, cut, empty}
use aegis_go.Inbox.{InboxRow}
use aegis_go.Dispatcher.{
  Request, stats, rules_export, every, cancel_job, decide_id, log_analysis, watch, not_wired, Step,
  reply, press, run, Plan, denied, nothing_to_do, steps, Wiring, plan, plan_text, switch_on,
  after_switch, gated_or_rest, unknown_or_run, known_router_command, command_of, exact_cases,
  find_case, or_fall, falling, decide_prefixed, decide_with, verdict_of, one_of, analysis_commands,
  watch_commands, no_chat,
}

abbrev pub runs : List Step → Bool
runs [] = false
runs (reply md r ∷ rest) = runs rest
runs (press ∷ rest) = runs rest
runs (run ∷ rest) = true

abbrev pub runs_engine : Plan → Bool
runs_engine denied = false
runs_engine nothing_to_do = false
runs_engine (steps ss) = runs ss

-- A slash command that the engine gets is one that the router knows, and is not for the gate.
record IsForRouter (w : Wiring) (s : Text) (ss : List Step) : Type 0 where
  known :
      runs ss ≡ true
      → (any (text_eq (command_of s)) w.gated ≡ false)
        × ((has_prefix (codes "/") s ≡ false) ⊎ (known_router_command w s ≡ true))

not_run : (w : Wiring) (s : Text) (md : Bool) (r : Request) → IsForRouter w s (reply md r ∷ [])
not_run w s md r = record { known = λ h. cc h }

gated_or_rest-IsForRouter : (w : Wiring) (s : Text) → IsForRouter w s (gated_or_rest w s)
unfolding gated_or_rest unknown_or_run
gated_or_rest-IsForRouter w s = record {
  known = λ h. elim (Bool-cases (any (text_eq (command_of s)) w.gated)) [
    | inl e ↦ cc (rw e at h)
    | inr e ↦ (
      e,
      elim (Bool-cases (has_prefix (codes "/") s)) [
        | inr plain ↦ inl plain
        | inl slash ↦ elim (Bool-cases (known_router_command w s)) [
          | inl known ↦ inr known
          | inr strange ↦ cc (rw (e, slash, strange) at h)
        ]
      ],
    )
  ];
}

decide_with-IsForRouter :
    (w : Wiring) (s : Text) (o : Option String) (arg : Text) (rest : List Step)
    → IsForRouter w s rest
    → IsForRouter w s (decide_with o arg rest)
decide_with-IsForRouter w s none arg rest h = h
decide_with-IsForRouter w s (some state) arg rest h = not_run w s false (decide_id state arg)

decide_prefixed-IsForRouter :
    (w : Wiring) (s : Text) (o : Option (Text × Text)) (rest : List Step)
    → IsForRouter w s rest
    → IsForRouter w s (decide_prefixed o rest)
decide_prefixed-IsForRouter w s none rest h = h
decide_prefixed-IsForRouter w s (some (word, arg)) rest h =
    decide_with-IsForRouter w s (verdict_of word) arg rest h

after_switch-IsForRouter : (w : Wiring) (s : Text) → IsForRouter w s (after_switch w s)
unfolding after_switch
after_switch-IsForRouter w s =
    decide_prefixed-IsForRouter w s (cut 32 (trim_prefix (codes "/") s)) (gated_or_rest w s)
      (gated_or_rest-IsForRouter w s)

falling-IsForRouter :
    (w : Wiring) (s : Text) (wired : Bool) (name : String) (r : Request) (rest : List Step)
    → IsForRouter w s rest
    → IsForRouter w s (falling wired name r rest)
falling-IsForRouter w s true name r rest h = record { known = λ k. h.known k }
falling-IsForRouter w s false name r rest h = not_run w s false (not_wired name)

-- The exact cases answer by a reply.
abbrev IsReply : Option Step → Type 0
IsReply none = Unit
IsReply (some s) = runs (s ∷ []) ≡ false

or_fall-IsForRouter :
    (w : Wiring) (t : String) (o : Option Step)
    → IsReply o
    → IsForRouter w (codes t) (or_fall w t o)
or_fall-IsForRouter w t (some s) h = record { known = λ k. cc (h, k) }
or_fall-IsForRouter w t none h =
    let later = after_switch-IsForRouter w (codes t) in
    if_split (IsForRouter w (codes t)) (one_of t analysis_commands)
      (λ _.
        falling-IsForRouter w (codes t) w.log_analysis "Log analysis" (log_analysis (codes t))
          (after_switch w (codes t)) later)
      (λ _.
        if_split (IsForRouter w (codes t)) (one_of t watch_commands)
          (λ _.
            falling-IsForRouter w (codes t) w.watch "Watchdog" (watch (codes t))
              (after_switch w (codes t)) later)
          (λ _. later))

find_case-IsReply :
    (t : String) (cs : List (String × Step))
    → any (λ c. runs (c.1 ∷ [])) cs ≡ false
    → IsReply (find_case t cs)
find_case-IsReply t [] h = tt
find_case-IsReply t ((n, s) ∷ cs) h = elim (Bool-cases (runs (s ∷ []))) [
  | inl e ↦ cc (rw e at h)
  | inr e ↦ if_split IsReply (str_eq t n) (λ _. e) (λ _. find_case-IsReply t cs (rw e at h))
]

or_step :
    (w : Wiring) (s : Text) (b : Bool) (md : Bool) (r : Request) (ss : List Step)
    → IsForRouter w s ss
    → IsForRouter w s (if b then reply md r ∷ [] else ss)
or_step w s true md r ss h = not_run w s md r
or_step w s false md r ss h = h

plan_text-IsForRouter : (w : Wiring) (t : String) → IsForRouter w (codes t) (plan_text w t)
unfolding plan_text switch_on
plan_text-IsForRouter w t =
    let s = codes t in
    or_step w s (has_prefix (codes "/stats ") s) true
      (stats (trim_space (trim_prefix (codes "/stats") s))) _
      (or_step w s (str_eq t "/rules export") false rules_export _ (
        or_step w s (has_prefix (codes "/every ") s) false (every s) _ (
          or_step w s (has_prefix (codes "/cancel_job ") s) false
            (cancel_job (trim_space (trim_prefix (codes "/cancel_job ") s))) _
            (or_fall-IsForRouter w t (find_case t exact_cases)
              (find_case-IsReply t exact_cases refl)))))

allowed : (a b : Bool) → (a || not b) ≡ false → b ≡ true
allowed true b h = cc
allowed false true h = refl
allowed false false h = cc

-- The engine runs for a row only if its chat is allowed and its first word is no gated action; a
-- slash command reaches it only if the router knows it.
pub engine_only_for_router :
    (w : Wiring) (row : InboxRow)
    → runs_engine (plan w row) ≡ true
    → (w.allow row.chat_id ≡ true)
      × (any (text_eq (command_of (codes row.text))) w.gated ≡ false)
      × ((has_prefix (codes "/") (codes row.text) ≡ false)
          ⊎ (known_router_command w (codes row.text) ≡ true))
unfolding plan
engine_only_for_router w row h =
    elim (Bool-cases (no_chat row.chat_id || not (w.allow row.chat_id))) [
      | inl e ↦ cc (rw e at h)
      | inr e ↦
          elim (Bool-cases (empty (trim_space (codes row.text)) && str_eq row.callback_data "")) [
            | inl e' ↦ cc (rw (e, e') at h)
            | inr e' ↦ elim (Bool-cases (not (str_eq row.callback_data ""))) [
              | inl pressed ↦ cc (rw (e, e', pressed) at h)
              | inr text ↦
                  let (gate, route) =
                    (plan_text-IsForRouter w row.text).known (rw (e, e', text) at h) in
                  (allowed (no_chat row.chat_id) (w.allow row.chat_id) e, gate, route)
            ]
          ]
    ]
