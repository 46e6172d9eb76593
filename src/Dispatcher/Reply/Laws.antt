-- ===== src/Dispatcher/Reply/Laws.antt =====
-- internal/telegram/dispatcher.go (formatReply): the length of a reply.
use aegis_go.Prelude.{
  ◌+◌, ◌≤◌, Bool, true, false, str_eq, ◌∷◌, ◌++◌, take, length, length-append, length-take,
  if◌then◌else◌, ltb, arith, inl, inr, Bool-cases,
}
use aegis_go.Rules.{Text}
use aegis_go.Engine.{RunResult}
use aegis_go.Dispatcher.Reply.{
  clip, notice, max_reply_len, format_reply, header, or_no_output, middle_dot,
}

clip_bound : (body : Text) → length (clip body) ≤ 4016
clip_bound body = elim (Bool-cases (ltb max_reply_len (length body))) [
  | inr e ↦ rw e (ground arith)
  | inl e ↦ rw e (
      omega (arith, length-append (take max_reply_len body) notice, length-take max_reply_len body))
]

framed_bound :
    (b : Bool) (h body : Text)
    → length body ≤ 4016
    → length (if b then body else h ++ (10 ∷ body)) ≤ 4016 + (if b then 0 else length h + 1)
framed_bound true h body short = omega arith
framed_bound false h body short = omega (arith, length-append h (10 ∷ body))

-- A reply is no longer than 4,016 bytes and, where a rule answered, its header and a newline.
format_reply_bound :
    (r : RunResult)
    → length (format_reply r)
      ≤ 4016 + (if str_eq r.rule_id "" then 0 else length (header middle_dot r) + 1)
unfolding format_reply
format_reply_bound r =
    framed_bound (str_eq r.rule_id "") (header middle_dot r) (clip (or_no_output r.answer))
      (clip_bound (or_no_output r.answer))
