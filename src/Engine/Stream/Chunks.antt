-- ===== src/Engine/Stream/Chunks.antt =====
-- internal/engine/engine.go, emitChunks: what the callback sees of an answer.
use mathlib.Core.List.{append_assoc, append-nil}
use aegis_go.Prelude.{
  ℕ, zero, suc, ◌≤◌, ◌≡◌, refl, sym, subst, ◌∙◌, ap, List, [], ◌∷◌, ◌++◌, none, arith, ltb, ltb→lt,
  if_split, length, take, drop, length-take, length-drop, take-append-drop, All, All-append,
}
use aegis_go.Rules.{Text}
use aegis_go.Engine.{World, Env}
use aegis_go.Engine.Stream.{stream_chunk_len, emit_one, go_on, emit_from, emit_chunks}

-- The text of the chunks, newest first.
abbrev pub spoken : List Text → Text
spoken [] = []
spoken (c ∷ cs) = spoken cs ++ c

pub spoken-append : (cs ds : List Text) → spoken (cs ++ ds) ≡ spoken ds ++ spoken cs
spoken-append [] ds = sym (append-nil (spoken ds))
spoken-append (c ∷ cs) ds = rw (spoken-append cs ds) (append_assoc (spoken ds) (spoken cs) c)

-- From `w`, the chunks of `s` and nothing else were handed over.
pub record IsEmission (s : Text) (w w' : World) : Type 0 where
  pub chunks : List Text
  pub emitted : w'.emitted ≡ chunks ++ w.emitted
  pub text : spoken chunks ≡ s
  pub small : All (λ c. length c ≤ stream_chunk_len) chunks
  pub rest : record w' { emitted = w.emitted } ≡ w

module _ (env : Env) (accepts : (w : World) (c : Text) → env.emit w c ≡ none) where
  single-IsEmission :
      (s : Text) (w : World) → length s ≤ stream_chunk_len → IsEmission s w (emit_one env s w).1
  unfolding emit_one
  single-IsEmission s w h = record {
    chunks = s ∷ [];
    emitted = refl;
    text = refl;
    small = (h, tt);
    rest = refl;
  }

  go_on_accepted :
      (s : Text) (w : World) (next : World → World)
      → go_on (emit_one env s w) next ≡ next (emit_one env s w).1
  unfolding emit_one
  go_on_accepted s w next = rw (accepts w s) refl

  after-IsEmission :
      (s t : Text) (w w' : World)
      → length s ≤ stream_chunk_len
      → IsEmission t (emit_one env s w).1 w'
      → IsEmission (s ++ t) w w'
  unfolding emit_one
  after-IsEmission s t w w' h e = record {
    chunks = e.chunks ++ s ∷ [];
    emitted = e.emitted ∙ sym (append_assoc e.chunks (s ∷ []) w.emitted);
    text = spoken-append e.chunks (s ∷ []) ∙ ap (◌++◌ s) e.text;
    small = All-append _ e.chunks (s ∷ []) e.small (h, tt);
    rest = ap (λ (v : World). record v { emitted = w.emitted }) e.rest;
  }

  emit_from-IsEmission :
      (fuel : ℕ) (s : Text) (w : World) → length s ≤ fuel → IsEmission s w (emit_from fuel env s w)
  unfolding emit_from
  emit_from-IsEmission zero s w h = single-IsEmission s w (omega arith)
  emit_from-IsEmission (suc fuel) s w h =
      if_split (IsEmission s w) (ltb stream_chunk_len (length s))
        (λ long. subst (IsEmission s w) (sym (go_on_accepted chunk w (emit_from fuel env later))) (
          subst (λ t. IsEmission t w (emit_from fuel env later (emit_one env chunk w).1))
            (take-append-drop stream_chunk_len s)
            (after-IsEmission chunk later w _ (omega (arith, length-take stream_chunk_len s)) (
              emit_from-IsEmission fuel later (emit_one env chunk w).1 (
                omega (
                  arith,
                  length-drop stream_chunk_len s,
                  ltb→lt stream_chunk_len (length s) long,
                ))))))
        (λ short. single-IsEmission s w (ground (arith, short)))
    where
      chunk : Text
      chunk = take stream_chunk_len s

      later : Text
      later = drop stream_chunk_len s

  -- A callback that accepts every chunk gets the whole answer, in order, in pieces of at most 256
  -- bytes, and the emission changes nothing else.
  pub emit_chunks_all : (s : Text) (w : World) → IsEmission s w (emit_chunks env s w)
  unfolding emit_chunks
  emit_chunks_all [] w = record {
    chunks = [];
    emitted = refl;
    text = refl;
    small = tt;
    rest = refl;
  }
  emit_chunks_all (c ∷ s) w = emit_from-IsEmission (length (c ∷ s)) (c ∷ s) w (omega arith)
