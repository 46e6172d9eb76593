-- ===== src/AddRule/Lines.antt =====
-- internal/app/registerrulesgate.go (parseRegisterRules): what each line of a printed export adds.
use aegis_go.Prelude.{
  ℕ, suc, ◌+◌, ◌≤◌, ◌≡◌, refl, sym, ap, subst, ◌∙◌, Bool, true, false, List, [], ◌∷◌, ◌++◌, map,
  Option, none, some, leb, ◌==◌, arith, inl, inr, Bool-cases, any, All, keep, length,
}
use mathlib.Core.List.{append_assoc, append-nil}
use aegis_go.Prelude.Result.{ok, ◌>>=◌}
use aegis_go.Rules.{Text, codes, RuleDef, trim_space, chat_addable, replay_line}
use aegis_go.Texts.{trim_end, trim_end_cons, has_prefix, split}
use aegis_go.Texts.Laws.{split-append_sep, split_lacking}
use aegis_go.AddRule.{Checks, parse_add_rule, parse_lines}
use aegis_go.AddRule.RoundTrip.{
  IsReplayable, spec_of, printed, trim_space-command, parse_add_rule-printed, replay_line_addable,
  replay_line_other,
}
use aegis_go.AddRule.Export.{reference_line, replays, references, write_lines, shipped}

abbrev pub is_newline : ℕ → Bool
is_newline c = c == 10

-- A line that the batch parser passes over.
pub record IsProse (s : Text) : Type 0 where
  pub one_line : any is_newline s ≡ false
  pub skipped : has_prefix (codes "/addrule ") (trim_space s) ≡ false

abbrev pub IsLineOf : Checks → RuleDef → Option Text → Type 0
IsLineOf c d (some l) = IsReplayable c d × (any is_newline l ≡ false)
IsLineOf c d none = IsProse (reference_line d)

abbrev pub addable : RuleDef → Bool
addable d = chat_addable d.tool

pub any-append :
    (p : ℕ → Bool) (a b : Text) → any p a ≡ false → any p b ≡ false → any p (a ++ b) ≡ false
any-append p [] b ha hb = hb
any-append p (x ∷ a) b ha hb = elim (Bool-cases (p x)) [
  | inl e ↦ cc (rw e at ha)
  | inr e ↦ rw e (any-append p a b (rw e at ha) hb)
]

-- A line and what follows its newline.
pub lines_cons :
    (l rest : Text) → any is_newline l ≡ false → split 10 (l ++ (10 ∷ rest)) ≡ l ∷ split 10 rest
lines_cons l rest h =
    split-append_sep 10 l rest ∙ ap (λ ls. ls ++ split 10 rest) (split_lacking 10 l h)

module _ (c : Checks) where
  pub parse_lines_prose :
      (n : ℕ) (l : Text) (ls : List Text)
      → IsProse l
      → parse_lines c n (l ∷ ls) ≡ parse_lines c n ls
  unfolding parse_lines
  parse_lines_prose n l ls h = rw h.skipped

  parse_lines_step :
      (n : ℕ) (l : Text) (ls : List Text)
      → has_prefix (codes "/addrule ") (trim_space l) ≡ true
      → leb 50 n ≡ false
      → parse_lines c n (l ∷ ls)
        ≡ (parse_add_rule c (trim_space l) >>= λ s. parse_lines c (suc n) ls >>= λ ss. ok (s ∷ ss))
  unfolding parse_lines
  parse_lines_step n l ls e h = rw (e, h)

  parse_lines_replay :
      (d : RuleDef) (n : ℕ) (ls : List Text)
      → chat_addable d.tool ≡ true
      → IsReplayable c d
      → leb 50 n ≡ false
      → parse_lines c n ((codes "/addrule " ++ printed c d) ∷ ls)
        ≡ (parse_lines c (suc n) ls >>= λ ss. ok (spec_of d ∷ ss))
  parse_lines_replay d n ls a r h =
      let trimmed = trim_space-command c d r in
      parse_lines_step n (codes "/addrule " ++ printed c d) ls
        (ap (has_prefix (codes "/addrule ")) trimmed) h
      ∙ ap (λ m. m >>= λ s. parse_lines c (suc n) ls >>= λ ss. ok (s ∷ ss))
          (ap (parse_add_rule c) trimmed ∙ parse_add_rule-printed c d a r)

  -- What the replay lines of the rules register, before a tail of prose.
  pub parse_replays :
      (ds : List RuleDef) (n : ℕ) (tail : Text)
      → All (λ d. IsLineOf c d (replay_line d)) ds
      → ((m : ℕ) → parse_lines c m (split 10 tail) ≡ ok [])
      → n + length (keep addable ds) ≤ 50
      → parse_lines c n (split 10 (write_lines (replays ds) ++ tail))
        ≡ ok (map spec_of (keep addable ds))
  unfolding replays
  parse_replays [] n tail h prose few = prose n
  parse_replays (d ∷ ds) n tail h prose few = elim (Bool-cases (chat_addable d.tool)) [
    | inr e ↦ rw (e, replay_line_other c d e) (parse_replays ds n tail h.1 prose (rw e at few))
    | inl e ↦
        let (replayable, one_line) = subst (IsLineOf c d) (replay_line_addable c d e) h.0 in
        let few' : n + suc (length (keep addable ds)) ≤ 50 = rw e at few in
        let more : leb 50 n ≡ false = ground arith in
        rw (e, replay_line_addable c d e)
          (ap (λ t. parse_lines c n (split 10 t))
              (append_assoc (codes "/addrule " ++ printed c d) _ tail)
            ∙ ap (parse_lines c n) (lines_cons (codes "/addrule " ++ printed c d) _ one_line)
            ∙ parse_lines_replay d n _ e replayable more
            ∙ ap (λ m. m >>= λ ss. ok (spec_of d ∷ ss))
                (parse_replays ds (suc n) tail h.1 prose (omega arith)))
  ]

  prose_lines :
      (ls : List Text) (n : ℕ)
      → All IsProse ls
      → parse_lines c n (split 10 (write_lines ls)) ≡ ok []
  unfolding parse_lines
  prose_lines [] n h = refl
  prose_lines (l ∷ ls) n h =
      ap (parse_lines c n) (lines_cons l (write_lines ls) h.0.one_line)
      ∙ parse_lines_prose n l (split 10 (write_lines ls)) h.0
      ∙ prose_lines ls n h.1

  pub references-IsProse :
      (ds : List RuleDef) → All (λ d. IsLineOf c d (replay_line d)) ds → All IsProse (references ds)
  unfolding references
  references-IsProse [] h = tt
  references-IsProse (d ∷ ds) h = elim (Bool-cases (chat_addable d.tool)) [
    | inl e ↦ rw (replay_line_addable c d e) (references-IsProse ds h.1)
    | inr e ↦
        let prose = subst (IsLineOf c d) (replay_line_other c d e) h.0 in
        rw (replay_line_other c d e) (prose, references-IsProse ds h.1)
  ]

  pub shipped_prose :
      (ls : List Text) (n : ℕ) → All IsProse ls → parse_lines c n (split 10 (shipped ls)) ≡ ok []
  unfolding parse_lines
  shipped_prose [] n h = refl
  shipped_prose (l ∷ ls) n h = prose_lines (l ∷ ls) n h

  -- A newline at the end adds no rule.
  parse_lines_blank :
      (ls : List Text) (n : ℕ) → parse_lines c n (ls ++ [] ∷ []) ≡ parse_lines c n ls
  unfolding parse_lines
  parse_lines_blank [] n = refl
  parse_lines_blank (l ∷ ls) n = elim (Bool-cases (has_prefix (codes "/addrule ") (trim_space l))) [
    | inr e ↦ rw e (parse_lines_blank ls n)
    | inl e ↦ elim (Bool-cases (leb 50 n)) [
      | inl w ↦ rw (e, w)
      | inr w ↦
          parse_lines_step n l (ls ++ [] ∷ []) e w
          ∙ ap (λ r. parse_add_rule c (trim_space l) >>= λ s. r >>= λ ss. ok (s ∷ ss))
              (parse_lines_blank ls (suc n))
          ∙ sym (parse_lines_step n l ls e w)
    ]
  ]

  parse_trimmed_cons :
      (pre : Text) (x : ℕ) (t : Text)
      → parse_lines c 0 (split 10 (pre ++ trim_end_cons 10 x t))
        ≡ parse_lines c 0 (split 10 ((pre ++ x ∷ []) ++ t))
  parse_trimmed_cons pre x (y ∷ t) =
      ap (λ s. parse_lines c 0 (split 10 s)) (sym (append_assoc pre (x ∷ []) (y ∷ t)))
  parse_trimmed_cons pre x [] = elim (Bool-cases (x == 10)) [
    | inr e ↦ rw (e, append-nil (pre ++ x ∷ []))
    | inl e ↦
        let same : x ≡ 10 = ground arith in
        rw (e, same, append-nil (pre ++ 10 ∷ []), append-nil pre)
          (sym (
            ap (parse_lines c 0) (split-append_sep 10 pre []) ∙ parse_lines_blank (split 10 pre) 0))
  ]

  pub parse_trimmed :
      (pre t : Text)
      → parse_lines c 0 (split 10 (pre ++ trim_end 10 t)) ≡ parse_lines c 0 (split 10 (pre ++ t))
  parse_trimmed pre [] = refl
  parse_trimmed pre (x ∷ t) =
      parse_trimmed_cons pre x (trim_end 10 t)
      ∙ parse_trimmed (pre ++ x ∷ []) t
      ∙ ap (λ s. parse_lines c 0 (split 10 s)) (append_assoc pre (x ∷ []) t)
