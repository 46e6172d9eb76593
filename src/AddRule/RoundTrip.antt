-- ===== src/AddRule/RoundTrip.antt =====
-- internal/app/addrulegate.go against internal/router/export.go: what /rules export prints for a rule
-- is what /addrule reads.
use aegis_go.Prelude.{
  ℕ, ◌≡◌, refl, sym, ap, subst, ◌∙◌, true, false, String, str_eq, eq_iff, [], ◌∷◌, ◌++◌, none, some,
  ◌==◌, arith, inl, inr, Bool-cases, any,
}
use aegis_go.Prelude.Result.{ok, ◌>>=◌}
use aegis_go.Rules.{
  Text, codes, RuleDef, is_space, trim_right, trim_space, or_braces, chat_addable, replay_line,
}
use aegis_go.Texts.{has_prefix, split, starts_word, empty, trim_prefix}
use aegis_go.Texts.Laws.{
  IsTrimmed, trim_space_trimmed, trim_right-append, trim_right_solid, split_lacking,
}
use aegis_go.AddRule.{
  Spec, Checks, blank, valid_name, all_word, is_word, anchored_text, assign, assign_all, validate,
  parse_body, parse_add_rule, segments, trim_all,
}
use aegis_go.AddRule.Segments.{IsCarried, IsKey, ArePartsOf, line, segments_of_line, not_empty}

abbrev printed_args : RuleDef → Text
printed_args d = or_braces (trim_space d.args_template)

abbrev pub spec_of : RuleDef → Spec
spec_of d = record {
  name = codes d.name;
  pattern = codes d.pattern;
  tool = codes d.tool;
  args = printed_args d;
}

-- A rule that passes the checks of the dialect and whose pattern and arguments it can carry.
pub record IsReplayable (c : Checks) (d : RuleDef) : Type 0 where
  pub named : valid_name (codes d.name) ≡ true
  pub is_command : has_prefix (codes "/") (codes d.pattern) ≡ true
  pub pattern : IsCarried (codes d.pattern)
  pub compiles : c.compiles (anchored_text (codes d.pattern)) ≡ true
  pub args : IsCarried (printed_args d)
  pub is_object : c.is_object (printed_args d) ≡ true

word_byte : (x : ℕ) → is_word x ≡ true → (is_space x ≡ false) × ((x == 124) ≡ false)
word_byte x h = (ground arith, ground arith)

all_word_plain :
    (s : Text) → all_word s ≡ true → (any is_space s ≡ false) × (any (λ x. x == 124) s ≡ false)
all_word_plain [] h = (refl, refl)
all_word_plain (x ∷ s) h = elim (Bool-cases (is_word x)) [
  | inr e ↦ cc (rw e at h)
  | inl e ↦
      let (blank, pipe) = word_byte x e in
      let (blanks, pipes) = all_word_plain s (rw e at h) in (rw (blank, blanks), rw (pipe, pipes))
]

solid_starts : (x : ℕ) (s : Text) → any is_space (x ∷ s) ≡ false → starts_word (x ∷ s) ≡ true
solid_starts x s h = elim (Bool-cases (is_space x)) [ inl e ↦ cc (rw e at h) | inr e ↦ rw e ]

-- A text of word characters is carried.
solid-IsCarried : (x : ℕ) (s : Text) → all_word (x ∷ s) ≡ true → IsCarried (x ∷ s)
solid-IsCarried x s h =
    let (blanks, pipes) = all_word_plain (x ∷ s) h in
    let trimmed : IsTrimmed (x ∷ s) = record {
      starts = solid_starts x s blanks;
      ends = trim_right_solid (x ∷ s) blanks;
    } in
    record {
      trimmed = trimmed;
      parts = subst ArePartsOf (sym (split_lacking 124 (x ∷ s) pipes)) (trimmed, tt);
    }

name-IsCarried : (n : Text) → valid_name n ≡ true → IsCarried n
name-IsCarried [] h = cc
name-IsCarried (x ∷ s) h = solid-IsCarried x s (ground arith)

tool-IsCarried : (tool : String) → chat_addable tool ≡ true → IsCarried (codes tool)
unfolding chat_addable
tool-IsCarried tool h = elim (Bool-cases (str_eq tool "read_csv")) [
  | inl e ↦ subst (λ t. IsCarried (codes t)) (sym ((eq_iff _ _).0 e)) (solid-IsCarried _ _ refl)
  | inr e ↦ elim (Bool-cases (str_eq tool "csv_stats")) [
    | inl e' ↦ subst (λ t. IsCarried (codes t)) (sym ((eq_iff _ _).0 e')) (solid-IsCarried _ _ refl)
    | inr e' ↦ elim (Bool-cases (str_eq tool "read_doc")) [
      | inl f ↦ subst (λ t. IsCarried (codes t)) (sym ((eq_iff _ _).0 f)) (solid-IsCarried _ _ refl)
      | inr f ↦
          subst (λ t. IsCarried (codes t))
            (sym ((eq_iff tool "analyze_log").0 (rw (e, e', f) at h))) (solid-IsCarried _ _ refl)
    ]
  ]
]

-- A text that has nothing to trim at its end.
abbrev IsEnded : Text → Type 0
IsEnded s = (trim_right s ≡ s) × (empty s ≡ false)

IsEnded-append : (a b : Text) → IsEnded b → IsEnded (a ++ b)
IsEnded-append [] b h = h
IsEnded-append (x ∷ a) [] h = cc (h.1)
IsEnded-append (x ∷ a) (y ∷ b) h = (trim_right-append (x ∷ a) y b h.0, refl)

trimmed-IsEnded : (s : Text) → IsTrimmed s → IsEnded s
trimmed-IsEnded [] t = cc (t.starts)
trimmed-IsEnded (x ∷ s) t = (t.ends, refl)

module _ (c : Checks) (d : RuleDef) where
  abbrev pub printed : Text
  printed =
      line (codes "name=") (codes d.name) (codes "pattern=") (codes d.pattern) (codes "tool=")
        (codes d.tool) (codes "args=") (printed_args d)

  printed-IsEnded : IsCarried (printed_args d) → IsEnded printed
  printed-IsEnded w = IsEnded-append (codes "name=" ++ codes d.name) _ (
      IsEnded-append (codes " | pattern=" ++ codes d.pattern) _ (
        IsEnded-append (codes " | tool=" ++ codes d.tool) _ (
          IsEnded-append (codes " | args=") (printed_args d)
            (trimmed-IsEnded (printed_args d) w.trimmed))))

  keys :
      IsKey (codes "name=")
      × IsKey (codes "pattern=")
      × IsKey (codes "tool=")
      × IsKey (codes "args=")
  keys = (
    record { no_pipe = refl; starts = refl; known = λ q. refl },
    record { no_pipe = refl; starts = refl; known = λ q. refl },
    record { no_pipe = refl; starts = refl; known = λ q. refl },
    record { no_pipe = refl; starts = refl; known = λ q. refl },
  )

  printed_segments :
      chat_addable d.tool ≡ true
      → IsReplayable c d
      → segments (trim_all (split 124 printed))
        ≡ (codes "name=" ++ codes d.name)
          ∷ (codes "pattern=" ++ codes d.pattern)
          ∷ (codes "tool=" ++ codes d.tool)
          ∷ (codes "args=" ++ printed_args d)
          ∷ []
  printed_segments addable r =
      segments_of_line (codes "name=") (codes d.name) (codes "pattern=") (codes d.pattern)
        (codes "tool=") (codes d.tool) (codes "args=") (printed_args d) keys.0 keys.1 keys.2 keys.3
        (name-IsCarried (codes d.name) r.named) r.pattern (tool-IsCarried d.tool addable) r.args

  printed_assigned :
      (w₁ : trim_space (codes d.name) ≡ codes d.name)
      (w₂ : trim_space (codes d.pattern) ≡ codes d.pattern)
      (w₃ : trim_space (codes d.tool) ≡ codes d.tool)
      (w₄ : trim_space (printed_args d) ≡ printed_args d)
      → assign_all
          ((codes "name=" ++ codes d.name)
            ∷ (codes "pattern=" ++ codes d.pattern)
            ∷ (codes "tool=" ++ codes d.tool)
            ∷ (codes "args=" ++ printed_args d)
            ∷ [])
          blank
        ≡ ok (spec_of d)
  unfolding assign_all assign
  printed_assigned w₁ w₂ w₃ w₄ = rw (w₁, w₂, w₃, w₄)

  printed_validated :
      chat_addable d.tool ≡ true → IsReplayable c d → validate c (spec_of d) ≡ ok (spec_of d)
  unfolding validate
  printed_validated addable r =
      let named = (name-IsCarried (codes d.name) r.named).trimmed in
      let tool = (tool-IsCarried d.tool addable).trimmed in
      rw (
        not_empty (codes d.name) named.starts,
        not_empty (codes d.pattern) r.pattern.trimmed.starts,
        not_empty (codes d.tool) tool.starts,
        r.named,
        trim_space_trimmed r.pattern.trimmed,
        r.is_command,
        r.compiles,
        not_empty (printed_args d) r.args.trimmed.starts,
        r.is_object,
      )

  parse_body-printed :
      chat_addable d.tool ≡ true → IsReplayable c d → parse_body c printed ≡ ok (spec_of d)
  unfolding parse_body
  parse_body-printed addable r =
      ap (λ segs. assign_all segs blank >>= validate c) (printed_segments addable r)
      ∙ ap (λ m. m >>= validate c)
          (printed_assigned (trim_space_trimmed (name-IsCarried (codes d.name) r.named).trimmed)
            (trim_space_trimmed r.pattern.trimmed)
            (trim_space_trimmed (tool-IsCarried d.tool addable).trimmed)
            (trim_space_trimmed r.args.trimmed))
      ∙ printed_validated addable r

  pub trim_space-command :
      IsReplayable c d → trim_space (codes "/addrule " ++ printed) ≡ codes "/addrule " ++ printed
  trim_space-command r = (IsEnded-append (codes "/addrule ") printed (printed-IsEnded r.args)).0

  pub parse_add_rule-printed :
      chat_addable d.tool ≡ true
      → IsReplayable c d
      → parse_add_rule c (codes "/addrule " ++ printed) ≡ ok (spec_of d)
  unfolding parse_add_rule
  parse_add_rule-printed addable r =
      ap (λ t. parse_body c (trim_space (trim_prefix (codes "/addrule") t))) (trim_space-command r)
      ∙ ap (parse_body c) (printed-IsEnded r.args).0
      ∙ parse_body-printed addable r

  pub replay_line_addable : chat_addable d.tool ≡ true → replay_line d ≡ some printed
  unfolding replay_line
  replay_line_addable e = rw e

  pub replay_line_other : chat_addable d.tool ≡ false → replay_line d ≡ none
  unfolding replay_line
  replay_line_other e = rw e

  -- The export's line is that text, if its tool is one that chats may add.
  replay_line_cases :
      (l : Text) → replay_line d ≡ some l → (chat_addable d.tool ≡ true) × (l ≡ printed)
  unfolding replay_line
  replay_line_cases l h = elim (Bool-cases (chat_addable d.tool)) [
    | inl e ↦ (e, cc (rw e at h))
    | inr e ↦ cc (rw e at h)
  ]

  -- For a rule that passes the checks of the dialect, and whose pattern and arguments have no blank
  -- at their ends or beside a pipe and no pipe before what looks like the next key, /addrule with
  -- the line that the export prints gives back its name, pattern, tool and arguments.
  pub parse_add_rule-replay_line :
      (l : Text)
      → replay_line d ≡ some l
      → IsReplayable c d
      → parse_add_rule c (codes "/addrule " ++ l) ≡ ok (spec_of d)
  parse_add_rule-replay_line l h r =
      let (addable, e) = replay_line_cases l h in
      subst (λ t. parse_add_rule c (codes "/addrule " ++ t) ≡ ok (spec_of d)) (sym e)
        (parse_add_rule-printed addable r)
