-- ===== src/AddRule/Batch.antt =====
-- internal/app/registerrulesgate.go against rulesExportText of internal/telegram/dispatcher.go: a
-- pasted export registers the rules that it prints.
use aegis_go.Prelude.{
  ℕ, zero, suc, ◌/◌, ◌%◌, ◌+◌, ◌≤◌, ◌≡◌, refl, ap, ◌∙◌, false, List, [], ◌∷◌, ◌++◌, map, ltb, arith,
  any, All, keep, length, if_split,
}
use aegis_go.Prelude.Decimal.{itoa, digits}
use aegis_go.Prelude.Result.{ok}
use aegis_go.Rules.{Text, codes, RuleDef, trim_cons, replay_line}
use aegis_go.Texts.{has_prefix, split}
use aegis_go.AddRule.{Spec, Checks, parse_lines, parse_register_rules}
use aegis_go.AddRule.RoundTrip.{spec_of}
use aegis_go.AddRule.Lines.{
  IsLineOf, IsProse, addable, is_newline, any-append, lines_cons, parse_lines_prose, parse_replays,
  references-IsProse, shipped_prose, parse_trimmed,
}
use aegis_go.AddRule.Export.{replays, references, header, shipped, export_body, rules_export_text}

digits_one_line :
    (fuel n : ℕ) (acc : Text)
    → any is_newline acc ≡ false
    → any is_newline (digits fuel n acc) ≡ false
unfolding digits
digits_one_line zero n acc h = h
digits_one_line (suc fuel) n acc h =
    let digit : is_newline (48 + n % 10) ≡ false = ground arith in
    let longer : any is_newline ((48 + n % 10) ∷ acc) ≡ false = rw digit h in
    if_split (λ s. any is_newline s ≡ false) (ltb n 10) (λ _. longer)
      (λ _. digits_one_line fuel (n / 10) ((48 + n % 10) ∷ acc) longer)

itoa_one_line : (n : ℕ) → any is_newline (itoa n) ≡ false
unfolding itoa
itoa_one_line n = digits_one_line (suc n) n [] refl

not_addrule : (y : Text) → has_prefix (codes "/addrule ") (trim_cons 47 (trim_cons 114 y)) ≡ false
not_addrule [] = refl
not_addrule (d ∷ y) = refl

header-IsProse : (live n : ℕ) → IsProse (codes "/register_rules " ++ header live n)
header-IsProse live n = record {
  one_line =
      any-append is_newline (itoa live) _ (itoa_one_line live)
        (any-append is_newline (itoa n) _ (itoa_one_line n) refl);
  skipped = not_addrule _;
}

some_specs_cons :
    (c : Checks) (text : Text) {s : Spec} {ss : List Spec}
    → parse_lines c 0 (split 10 text) ≡ ok (s ∷ ss)
    → parse_register_rules c text ≡ ok (s ∷ ss)
unfolding parse_register_rules
some_specs_cons c text h = rw h

-- Registering the printed export of a rule set with between one and fifty rules that chats may add
-- gives those rules back, in order, where each of them can be replayed on one line and no reference
-- line reads as a command.
pub parse_register_rules-rules_export_text :
    (c : Checks) (defs : List RuleDef) {d : RuleDef} {ds : List RuleDef}
    → All (λ x. IsLineOf c x (replay_line x)) defs
    → keep addable defs ≡ d ∷ ds
    → length (d ∷ ds) ≤ 50
    → parse_register_rules c (codes "/register_rules " ++ rules_export_text defs)
      ≡ ok (map spec_of (d ∷ ds))
unfolding rules_export_text
parse_register_rules-rules_export_text c [] h k few = cc
parse_register_rules-rules_export_text c (x ∷ xs) {d} {ds} h k few =
    let defs = x ∷ xs in
    let tail = shipped (references defs) in
    some_specs_cons c _ (
      parse_trimmed c (codes "/register_rules ") (export_body defs)
      ∙ ap (parse_lines c 0) (
          lines_cons (codes "/register_rules " ++ header (length defs) (length (replays defs))) _
            (header-IsProse (length defs) (length (replays defs))).one_line)
      ∙ parse_lines_prose c 0 _ _ (header-IsProse (length defs) (length (replays defs)))
      ∙ parse_replays c defs 0 tail h
          (λ m. shipped_prose c (references defs) m (references-IsProse c defs h))
          (rw k (omega (arith, few)))
      ∙ ap (λ l. ok (map spec_of l)) k)
