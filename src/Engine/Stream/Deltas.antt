-- ===== src/Engine/Stream/Deltas.antt =====
-- internal/engine/engine.go, RunStreaming: the deltas of the model's stream and the answer.
use aegis_go.Engine.Format.{llm_failed}
use mathlib.Core.List.{append_assoc, append-nil}
use aegis_go.Prelude.{◌≡◌, refl, sym, subst, ◌∙◌, ap, List, [], ◌∷◌, ◌++◌, Option, none, some}
use aegis_go.Rules.{Text}
use aegis_go.Engine.{
  World, Env, Ctx, RunResult, Update, StreamItem, nothing, update, broken, llm, error_source,
}
use aegis_go.Engine.Tails.{finish_llm_error, record_fallback_parts, audit}
use aegis_go.Engine.Shadow.{asked}
use aegis_go.Engine.Stream.{
  Acc, empty_acc, emit_text, emit_one, take_update, after_emit, stream_loop, finish_stream,
  stream_llm, chunked,
}
use aegis_go.Engine.Stream.Chunks.{spoken, spoken-append, emit_chunks_all}

-- The text of the updates of a stream up to the item that breaks it, if one does, and its error.
abbrev pub deltas_of : List StreamItem → Text
deltas_of [] = []
deltas_of (nothing ∷ items) = deltas_of items
deltas_of (broken e ∷ items) = []
deltas_of (update u ∷ items) = u.text ++ deltas_of items

abbrev pub break_of : List StreamItem → Option Text
break_of [] = none
break_of (nothing ∷ items) = break_of items
break_of (broken e ∷ items) = some e
break_of (update u ∷ items) = break_of items

-- From `acc` and `w`, the loop handed over these deltas, added them to the text, and ended with this
-- failure.
abbrev Streamed : Text → Option Text → Acc → World → Acc × World → Type 0
Streamed deltas failure acc w (acc', w') =
    (chunks : List Text) × (w'.emitted ≡ chunks ++ w.emitted)
    × (acc'.text ≡ acc.text ++ deltas)
    × (spoken chunks ≡ deltas)
    × (acc.failure ≡ none → acc'.failure ≡ failure)

-- What a whole stream, or one that breaks, makes of the answer and of what is handed over.
abbrev pub IsTold : Text → Option Text → World → RunResult × World → Type 0
IsTold deltas none w (res, w') =
    (res.source ≡ llm)
    × (res.answer ≡ deltas)
    × ((chunks : List Text) × (w'.emitted ≡ chunks ++ w.emitted) × (spoken chunks ≡ deltas))
IsTold deltas (some e) w (res, w') =
    (res.source ≡ error_source)
    × (res.answer ≡ llm_failed e)
    × ((chunks : List Text) × (w'.emitted ≡ chunks ++ w.emitted)
        × (spoken chunks ≡ deltas ++ llm_failed e))

module _ (env : Env) (accepts : (w : World) (c : Text) → env.emit w c ≡ none) where
  Streamed-more :
      (c rest : Text) (failure : Option Text) (acc : Acc) (w : World) (out : Acc × World)
      → ((chunks : List Text) × (out.1.emitted ≡ chunks ++ (c ∷ w.emitted))
          × (out.0.text ≡ (acc.text ++ c) ++ rest)
          × (spoken chunks ≡ rest)
          × (acc.failure ≡ none → out.0.failure ≡ failure))
      → Streamed (c ++ rest) failure acc w out
  Streamed-more c rest failure acc w out (chunks, e, t, told, f) = (
    chunks ++ c ∷ [],
    e ∙ sym (append_assoc chunks (c ∷ []) w.emitted),
    t ∙ append_assoc acc.text c rest,
    spoken-append chunks (c ∷ []) ∙ ap (λ (x : Text). c ++ x) told,
    f,
  )

  on_text :
      (u : Update) (t rest : Text) (failure : Option Text) (acc : Acc) (w : World)
      (next : Acc → World → Acc × World)
      → ((acc' : Acc) (w' : World) → Streamed rest failure acc' w' (next acc' w'))
      → Streamed
          (t ++ rest)
          failure
          acc
          w
          (after_emit u (record acc { text = acc.text ++ t }) (emit_text env t w) next)
  unfolding emit_one
  on_text u [] rest failure acc w next h =
      let (chunks, e, t, told, f) = h (take_update u (record acc { text = acc.text ++ [] })) w in
      (chunks, e, t ∙ ap (λ (x : Text). x ++ rest) (append-nil acc.text), told, f)
  on_text u (c ∷ s) rest failure acc w next h = rw (accepts w (c ∷ s)) (
      Streamed-more (c ∷ s) rest failure acc w
        (next (take_update u (record acc { text = acc.text ++ (c ∷ s) }))
          (record w { emitted = (c ∷ s) ∷ w.emitted }))
        (h (take_update u (record acc { text = acc.text ++ (c ∷ s) }))
          (record w { emitted = (c ∷ s) ∷ w.emitted })))

  stream_loop-Streamed :
      (items : List StreamItem) (acc : Acc) (w : World)
      → Streamed (deltas_of items) (break_of items) acc w (stream_loop env items acc w)
  unfolding stream_loop emit_one
  stream_loop-Streamed [] acc w = ([], refl, sym (append-nil acc.text), refl, (λ f. f))
  stream_loop-Streamed (nothing ∷ items) acc w = stream_loop-Streamed items acc w
  stream_loop-Streamed (broken e ∷ items) acc w =
      ([], refl, sym (append-nil acc.text), refl, (λ f. refl))
  stream_loop-Streamed (update u ∷ items) acc w =
      on_text u u.text (deltas_of items) (break_of items) acc w (stream_loop env items)
        (stream_loop-Streamed items)

  IsTold-failure :
      (w w' : World) (deltas m : Text) (chunks : List Text) (res : RunResult)
      → w'.emitted ≡ chunks ++ w.emitted
      → spoken chunks ≡ deltas
      → res.source ≡ error_source
      → res.answer ≡ llm_failed m
      → IsTold deltas (some m) w (chunked env (res, w'))
  IsTold-failure w w' deltas m chunks res e t source notice =
      let said = emit_chunks_all env accepts res.answer w' in
      (
        source,
        notice,
        (
          said.chunks ++ chunks,
          said.emitted
              ∙ ap (λ (x : List Text). said.chunks ++ x) e
              ∙ sym (append_assoc said.chunks chunks w.emitted),
          spoken-append said.chunks chunks
              ∙ ap (λ (x : Text). x ++ spoken said.chunks) t
              ∙ ap (λ (x : Text). deltas ++ x) (said.text ∙ notice),
        ),
      )

  finish_stream-IsTold :
      (ctx : Ctx) (prompt : Text) (failure : Option Text) (acc : Acc) (w w' : World) (deltas : Text)
      (chunks : List Text)
      → w'.emitted ≡ chunks ++ w.emitted
      → acc.text ≡ deltas
      → spoken chunks ≡ deltas
      → IsTold deltas failure w (finish_stream env ctx prompt failure acc w')
  unfolding audit record_fallback_parts finish_llm_error
  finish_stream-IsTold ctx prompt none acc w w' deltas chunks e t told =
      (refl, t, (chunks, e, told))
  finish_stream-IsTold ctx prompt (some m) acc w w' deltas chunks e t told =
      IsTold-failure w (finish_llm_error env ctx prompt m w').1 deltas m chunks
        (finish_llm_error env ctx prompt m w').0 e told refl refl

  -- With a callback that accepts every chunk: a stream that does not break ends as an answer of the
  -- model that is the text of its updates, and what is handed over is, in order, this text; a
  -- stream that breaks ends as a failure with the notice of its error, and what is handed over is
  -- the text of the updates before the break and then the notice.
  pub stream_llm-IsTold :
      (ctx : Ctx) (prompt : Text) (w : World)
      → IsTold
          (deltas_of (env.stream w prompt))
          (break_of (env.stream w prompt))
          w
          (stream_llm env ctx prompt w)
  unfolding stream_llm
  stream_llm-IsTold ctx prompt w =
      let items = env.stream w prompt in
      let (chunks, e, t, told, f) = stream_loop-Streamed items empty_acc (asked prompt w) in
      let (acc, w') = stream_loop env items empty_acc (asked prompt w) in
      subst (λ x. IsTold (deltas_of items) x w (finish_stream env ctx prompt acc.failure acc w'))
        (f refl)
        (finish_stream-IsTold ctx prompt acc.failure acc w w' (deltas_of items) chunks e t told)
