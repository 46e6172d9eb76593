-- ===== src/Engine/Stream.antt =====
-- internal/engine/engine.go: `RunStreaming` and the chunking of answers that are already there.
pub mod Chunks
pub mod Deltas
pub mod Laws
use Prim.Native.String.compare
use Prim.Native.Nat.{Ordering}
use aegis_go.Prelude.{
  ℕ, zero, suc, ◌+◌, Bool, true, false, ◌&&◌, ◌||◌, not, String, List, [], ◌∷◌, ◌++◌, Option, none,
  some, length, take, drop, if◌then◌else◌, ltb,
}
use aegis_go.Rules.{Text}
use aegis_go.Router.{Decision}
use aegis_go.Confidence.{score_llm, contains}
use aegis_go.Engine.{
  World, Ctx, Env, RunResult, Content, function_call, usage, other, Update, StreamItem, nothing,
  update, broken, llm, fine, join_names, rule_count, names_in, usage_in,
}
use aegis_go.Engine.Tails.{
  conclude, audit, record_fallback_parts, finish_router, finish_llm_off, finish_classifier,
  finish_llm_error,
}
use aegis_go.Engine.Shadow.{asked, compare_shadow, finish_shadow}
use aegis_go.Engine.Run.{route_prompt, try_classifier}

abbrev pub stream_chunk_len : ℕ
stream_chunk_len = 256

-- One call of the callback, and its error.
unfoldable pub emit_one : Env → Text → World → Option Text × World
emit_one env chunk w = (env.emit w chunk, record w { emitted = chunk ∷ w.emitted })

abbrev pub go_on : Option Text × World → (World → World) → World
go_on (none, w) next = next w
go_on (some e, w) next = w

-- The loop takes a chunk off each round, so its fuel is the length of the text.
unfoldable pub emit_from : ℕ → Env → Text → World → World
unfolding emit_one
emit_from zero env s w = (emit_one env s w).1
emit_from (suc fuel) env s w =
    if ltb stream_chunk_len (length s)
    then go_on (emit_one env (take stream_chunk_len s) w)
        (emit_from fuel env (drop stream_chunk_len s))
    else (emit_one env s w).1

abbrev emit_nonempty : Env → Text → World → World
emit_nonempty env [] w = w
emit_nonempty env (c ∷ s) w = emit_from (length (c ∷ s)) env (c ∷ s) w

unfoldable pub emit_chunks : Env → Text → World → World
unfolding emit_from
emit_chunks env s w = emit_nonempty env s w

-- The names as a sorted list without repeats: `slices.Sorted(maps.Keys(tools))`.
abbrev insert_name : String → List String → List String
insert_name n [] = n ∷ []
insert_name n (m ∷ ms) =
    let rest = insert_name n ms in
    elim (Prim.Native.String.compare n m) [
      | Ordering.lt ↦ n ∷ m ∷ ms
      | Ordering.eq ↦ m ∷ ms
      | Ordering.gt ↦ m ∷ rest
    ]

abbrev insert_names : List String → List String → List String
insert_names [] tools = tools
insert_names (n ∷ ns) tools = insert_names ns (insert_name n tools)

-- The variables of the loop over the stream.
pub record Acc : Type 0 where
  pub text : Text
  pub tools : List String
  pub tokens : ℕ × ℕ
  pub failure : Option Text

abbrev pub empty_acc : Acc
empty_acc = record { text = []; tools = []; tokens = (0, 0); failure = none }

abbrev pub emit_text : Env → Text → World → Option Text × World
emit_text env [] w = (none, w)
emit_text env (c ∷ s) w = emit_one env (c ∷ s) w

abbrev pub take_update : Update → Acc → Acc
take_update u acc = record acc {
  tools = insert_names (names_in u.contents []) acc.tools;
  tokens = usage_in u.contents acc.tokens;
}

-- The text counts before the callback answers; a failed callback ends the loop.
abbrev pub after_emit :
    Update → Acc → Option Text × World → (Acc → World → Acc × World) → Acc × World
after_emit u acc (none, w) next = next (take_update u acc) w
after_emit u acc (some e, w) next = (record acc { failure = some e }, w)

unfoldable pub stream_loop : Env → List StreamItem → Acc → World → Acc × World
unfolding emit_one
stream_loop env [] acc w = (acc, w)
stream_loop env (nothing ∷ items) acc w = stream_loop env items acc w
stream_loop env (broken e ∷ items) acc w = (record acc { failure = some e }, w)
stream_loop env (update u ∷ items) acc w =
    after_emit u (record acc { text = acc.text ++ u.text }) (emit_text env u.text w)
      (stream_loop env items)

-- A result whose answer is then sent in chunks.
abbrev pub chunked : Env → RunResult × World → RunResult × World
chunked env (res, w) = (res, emit_chunks env res.answer w)

abbrev pub finish_stream : Env → Ctx → Text → Option Text → Acc → World → RunResult × World
finish_stream env ctx prompt (some e) acc w = chunked env (finish_llm_error env ctx prompt e w)
finish_stream env ctx prompt none acc w =
    let (tin, tout) = acc.tokens in
    let conf = score_llm env.signals acc.text (length acc.tools) (rule_count env) in
    conclude env ctx prompt env.model fine acc.text llm "" (env.elapsed w) conf
      (record_fallback_parts ctx prompt (join_names acc.tools) env.model tin tout w)

unfoldable pub stream_llm : Env → Ctx → Text → World → RunResult × World
unfolding stream_loop audit record_fallback_parts
stream_llm env ctx prompt w =
    let (acc, w') = stream_loop env (env.stream w prompt) empty_acc (asked prompt w) in
    finish_stream env ctx prompt acc.failure acc w'

abbrev pub after_classifier_stream :
    Env → Ctx → Text → Option (Text × String) × World → RunResult × World
after_classifier_stream env ctx prompt (some (answer, tool), w) =
    chunked env (finish_classifier env ctx prompt answer tool w)
after_classifier_stream env ctx prompt (none, w) = stream_llm env ctx prompt w

abbrev pub decide_stream : Env → Ctx → Text → Decision × World → RunResult × World
decide_stream env ctx prompt (d, w) =
    if d.handled && (not d.evaluate || d.answer_from_rule)
    then chunked env (
        finish_router env ctx prompt d
          (if d.evaluate then (compare_shadow env ctx d prompt w).1 else w))
    else if d.handled
    then chunked env (finish_shadow env ctx prompt d w)
    else if env.has_llm
    then after_classifier_stream env ctx prompt (try_classifier env d prompt w)
    else chunked env (finish_llm_off env ctx prompt w)

unfoldable pub run_streaming : Env → Ctx → Text → World → RunResult × World
run_streaming env ctx prompt w = decide_stream env ctx prompt (route_prompt env prompt w)
