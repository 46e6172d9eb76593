-- ===== src/Engine/Stream/Laws.antt =====
-- internal/engine/engine.go: `RunStreaming` against `runUnwrapped`.
use aegis_go.Prelude.{
  ℕ, zero, suc, ◌≡◌, refl, ◌∙◌, ap, true, false, ◌&&◌, ◌||◌, not, List, [], ◌∷◌, Option, none, some,
  arith, if◌then◌else◌, ltb, if_split, Option-cases, ◌⊎◌, inl, inr, length, take, drop, String,
}
use aegis_go.Rules.{Text}
use aegis_go.Router.{Decision, handle}
use aegis_go.Engine.{World, Ctx, Env, RunResult, StreamItem, nothing, update, broken, Update}
use aegis_go.Engine.Tails.{record_fallback_parts}
use aegis_go.Engine.Shadow.{asked, compare_shadow, finish_shadow}
use aegis_go.Engine.Run.{route_prompt, try_classifier, decide, run}
use aegis_go.Engine.Run.Laws.{
  IsAudited, IsAudited-from, finish_router-IsAudited, finish_llm_off-IsAudited,
  finish_classifier-IsAudited, finish_llm_error-IsAudited, finish_shadow-IsAudited,
  compare_shadow_keeps, try_classifier_keeps, conclude-IsAudited,
}
use aegis_go.Engine.Stream.{
  emit_one, go_on, emit_from, emit_chunks, chunked, decide_stream, run_streaming, Acc, empty_acc,
  emit_text, take_update, after_emit, stream_loop, finish_stream, stream_llm,
  after_classifier_stream,
}

-- Two worlds that differ in what was emitted only.
abbrev SameButEmitted : World → World → Type 0
SameButEmitted w w' = record w' { emitted = w.emitted } ≡ w

module _ (env : Env) where
  go_on_keeps :
      (s : Text) (w : World) (next : World → World)
      → ((v : World) → SameButEmitted v (next v))
      → SameButEmitted w (go_on (emit_one env s w) next)
  unfolding emit_one
  go_on_keeps s w next h = elim (Option-cases (env.emit w s)) [
    | inl e ↦ rw e (ap (λ (v : World). record v { emitted = w.emitted }) (h _))
    | inr (m, e) ↦ rw e refl
  ]

  emit_from_keeps : (fuel : ℕ) (s : Text) (w : World) → SameButEmitted w (emit_from fuel env s w)
  unfolding emit_from
  emit_from_keeps zero s w = refl
  emit_from_keeps (suc fuel) s w =
      if_split (SameButEmitted w) (ltb 256 (length s))
        (λ _.
          go_on_keeps (take 256 s) w (emit_from fuel env (drop 256 s))
            (emit_from_keeps fuel (drop 256 s)))
        (λ _. refl)

  emit_chunks_keeps : (s : Text) (w : World) → SameButEmitted w (emit_chunks env s w)
  unfolding emit_chunks
  emit_chunks_keeps [] w = refl
  emit_chunks_keeps (c ∷ s) w = emit_from_keeps (length (c ∷ s)) (c ∷ s) w

  chunked-IsAudited :
      {ctx : Ctx} {w : World} (out : RunResult × World)
      → IsAudited ctx w out
      → IsAudited ctx w (chunked env out)
  chunked-IsAudited (res, w') a = record {
    row = a.row;
    added = ap (λ (v : World). v.audits) (emit_chunks_keeps res.answer w') ∙ a.added;
    source = a.source;
    rule = a.rule;
    trace = a.trace;
    score = a.score;
    same_trail = ap (λ (v : World). v.trail) (emit_chunks_keeps res.answer w') ∙ a.same_trail;
  }

module _ (env : Env) (ctx : Ctx) (prompt : Text) where
  -- For a prompt that a rule handled, and with the model off, streaming is the synchronous run
  -- followed by sending its answer in chunks: same result, same effects.
  decide_stream-chunked :
      (d : Decision) (w : World)
      → (d.handled ≡ true) ⊎ (env.has_llm ≡ false)
      → decide_stream env ctx prompt (d, w) ≡ chunked env (decide env ctx prompt (d, w))
  unfolding finish_shadow compare_shadow try_classifier
  decide_stream-chunked d w h = ground arith

  -- For a prompt that a rule handled, and with the model off, streaming is the synchronous run
  -- followed by sending its answer in chunks: same result, same effects.
  pub run_streaming-chunked :
      (w : World)
      → ((route_prompt env prompt w).0.handled ≡ true) ⊎ (env.has_llm ≡ false)
      → run_streaming env ctx prompt w ≡ chunked env (run env ctx prompt w)
  unfolding run_streaming run
  run_streaming-chunked w h =
      decide_stream-chunked (route_prompt env prompt w).0 (route_prompt env prompt w).1 h

  after_emit_keeps :
      (u : Update) (acc : Acc) (r : Option Text × World) (next : Acc → World → Acc × World)
      → ((a : Acc) (v : World) → SameButEmitted v (next a v).1)
      → SameButEmitted r.1 (after_emit u acc r next).1
  after_emit_keeps u acc (none, w) next h = h (take_update u acc) w
  after_emit_keeps u acc (some e, w) next h = refl

  emit_text_keeps : (s : Text) (w : World) → SameButEmitted w (emit_text env s w).1
  unfolding emit_one
  emit_text_keeps [] w = refl
  emit_text_keeps (c ∷ s) w = refl

  stream_loop_keeps :
      (items : List StreamItem) (acc : Acc) (w : World)
      → SameButEmitted w (stream_loop env items acc w).1
  unfolding stream_loop
  stream_loop_keeps [] acc w = refl
  stream_loop_keeps (nothing ∷ items) acc w = stream_loop_keeps items acc w
  stream_loop_keeps (broken e ∷ items) acc w = refl
  stream_loop_keeps (update u ∷ items) acc w =
      ap (λ (v : World). record v { emitted = w.emitted })
        (after_emit_keeps u _ (emit_text env u.text w) (stream_loop env items)
          (stream_loop_keeps items))
      ∙ emit_text_keeps u.text w

  finish_stream-IsAudited :
      (e : Option Text) (acc : Acc) (w : World)
      → IsAudited ctx w (finish_stream env ctx prompt e acc w)
  unfolding record_fallback_parts
  finish_stream-IsAudited (some e) acc w =
      chunked-IsAudited env _ (finish_llm_error-IsAudited env ctx prompt e w)
  finish_stream-IsAudited none acc w =
      IsAudited-from refl refl (conclude-IsAudited env ctx prompt _ _ _ _ _ _ _ _)

  stream_llm-IsAudited : (w : World) → IsAudited ctx w (stream_llm env ctx prompt w)
  unfolding stream_llm
  stream_llm-IsAudited w =
      let (acc, w') = stream_loop env (env.stream w prompt) empty_acc (asked prompt w) in
      let same = stream_loop_keeps (env.stream w prompt) empty_acc (asked prompt w) in
      IsAudited-from (ap (λ (v : World). v.audits) same) (ap (λ (v : World). v.trail) same)
        (finish_stream-IsAudited acc.failure acc w')

  after_classifier_stream-IsAudited :
      (c : Option (Text × String) × World)
      → IsAudited ctx c.1 (after_classifier_stream env ctx prompt c)
  after_classifier_stream-IsAudited (some (answer, tool), w) =
      chunked-IsAudited env _ (finish_classifier-IsAudited env ctx prompt answer tool w)
  after_classifier_stream-IsAudited (none, w) = stream_llm-IsAudited w

  checked_keeps :
      (d : Decision) (w : World)
      → let w' = if d.evaluate then (compare_shadow env ctx d prompt w).1 else w in
        (w'.audits ≡ w.audits) × (w'.trail ≡ w.trail)
  checked_keeps d w =
      if_split (λ (v : World). (v.audits ≡ w.audits) × (v.trail ≡ w.trail)) d.evaluate
        (λ _. compare_shadow_keeps env ctx prompt d w) (λ _. (refl, refl))

  decide_stream-IsAudited :
      (d : Decision) (w : World) → IsAudited ctx w (decide_stream env ctx prompt (d, w))
  decide_stream-IsAudited d w =
      if_split P (d.handled && (not d.evaluate || d.answer_from_rule))
        (λ _. chunked-IsAudited env _ (
          IsAudited-from (checked_keeps d w).0 (checked_keeps d w).1
            (finish_router-IsAudited env ctx prompt d _)))
        (λ _.
          if_split P d.handled
            (λ _. chunked-IsAudited env _ (finish_shadow-IsAudited env ctx prompt d w))
            (λ _.
              if_split P env.has_llm
                (λ _.
                  IsAudited-from (try_classifier_keeps env ctx prompt d w).0
                    (try_classifier_keeps env ctx prompt d w).1
                    (after_classifier_stream-IsAudited (try_classifier env d prompt w)))
                (λ _. chunked-IsAudited env _ (finish_llm_off-IsAudited env ctx prompt w))))
    where
      P : RunResult × World → Type 0
      P = IsAudited ctx w

  -- A streamed run adds exactly one audit row, which repeats the result, and runs the tools of one
  -- routing.
  pub run_streaming-IsAudited :
      (w : World)
      → IsAudited ctx (route_prompt env prompt w).1 (run_streaming env ctx prompt w)
        × ((route_prompt env prompt w).1.audits ≡ w.audits)
        × ((run_streaming env ctx prompt w).1.trail
            ≡ (handle env.engine env.toolset env.sample env.router prompt w.trail).1)
  unfolding run_streaming route_prompt
  run_streaming-IsAudited w =
      let (d, trail) = handle env.engine env.toolset env.sample env.router prompt w.trail in
      let a = decide_stream-IsAudited d (record w { trail = trail }) in (a, refl, a.same_trail)
