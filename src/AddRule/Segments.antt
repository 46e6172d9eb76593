-- ===== src/AddRule/Segments.antt =====
-- internal/app/addrulegate.go: the segments that the parser cuts from `key=value` texts written one
-- after the other, where a value may hold pipes of its own.
use aegis_go.Prelude.{
  ℕ, ◌≡◌, refl, sym, ap, ◌∙◌, true, false, List, [], ◌∷◌, ◌++◌, ◌==◌, arith, inl, inr, Bool-cases,
  any, All, subst,
}
use mathlib.Core.List.{append_assoc, append-nil}
use aegis_go.Rules.{Text, trim_space}
use aegis_go.Texts.{split, push, starts_word, empty}
use aegis_go.Texts.Laws.{
  split_cons, split-append_sep, trim_space-append_space, trim_right-append, IsTrimmed,
  trim_space_trimmed,
}
use aegis_go.AddRule.{merge, segments, starts_with_known_key, trim_all}

-- A part of a value after its first pipe.
pub record IsContinuation (q : Text) : Type 0 where
  pub trimmed : IsTrimmed q
  pub no_key : starts_with_known_key q ≡ false

abbrev pub ArePartsOf : List Text → Type 0
ArePartsOf [] = ⊥
ArePartsOf (q ∷ qs) = IsTrimmed q × All IsContinuation qs

-- A value that the dialect can carry: no blank at its ends or beside a pipe, and no pipe that what
-- looks like the next key follows.
pub record IsCarried (v : Text) : Type 0 where
  pub trimmed : IsTrimmed v
  pub parts : ArePartsOf (split 124 v)

-- The text of a known key with its `=`.
pub record IsKey (k : Text) : Type 0 where
  pub no_pipe : any (λ c. c == 124) k ≡ false
  pub starts : starts_word k ≡ true
  pub known : (q : Text) → starts_with_known_key (k ++ q) ≡ true

pub not_empty : (q : Text) → starts_word q ≡ true → empty q ≡ false
not_empty [] h = cc
not_empty (c ∷ q) h = refl

trim_all-append : (xs ys : List Text) → trim_all (xs ++ ys) ≡ trim_all xs ++ trim_all ys
trim_all-append [] ys = refl
trim_all-append (x ∷ xs) ys = ap (◌∷◌ (trim_space x)) (trim_all-append xs ys)

trim_all_trimmed : (qs : List Text) → All IsContinuation qs → trim_all qs ≡ qs
trim_all_trimmed [] h = refl
trim_all_trimmed (q ∷ qs) h = rw (trim_space_trimmed h.0.trimmed, trim_all_trimmed qs h.1)

-- The last part alone sees what is put after a text.
abbrev blank_last : List Text → List Text
blank_last [] = []
blank_last (p ∷ []) = (p ++ 32 ∷ []) ∷ []
blank_last (p ∷ q ∷ ps) = p ∷ blank_last (q ∷ ps)

push-blank_last :
    (c : ℕ) (p : Text) (ps : List Text) → push c (blank_last (p ∷ ps)) ≡ blank_last ((c ∷ p) ∷ ps)
push-blank_last c p [] = refl
push-blank_last c p (q ∷ ps) = refl

cons-blank_last : (p q : Text) (ps : List Text) → p ∷ blank_last (q ∷ ps) ≡ blank_last (p ∷ q ∷ ps)
cons-blank_last p q ps = refl

split_blank : (s : Text) → split 124 (s ++ 32 ∷ []) ≡ blank_last (split 124 s)
split_blank [] = refl
split_blank (c ∷ s) =
    let (p, ps, e) = split_cons 124 s in
    let ih = subst (λ x. split 124 (s ++ 32 ∷ []) ≡ blank_last x) e (split_blank s) in
    elim (Bool-cases (c == 124)) [
      | inl w ↦ rw (w, ih, e)
      | inr w ↦ rw (w, ih, e) (push-blank_last c p ps)
    ]

trim_all-blank_last : (ps : List Text) → trim_all (blank_last ps) ≡ trim_all ps
trim_all-blank_last [] = refl
trim_all-blank_last (p ∷ []) = rw (trim_space-append_space p)
trim_all-blank_last (p ∷ q ∷ ps) = ap (◌∷◌ (trim_space p)) (trim_all-blank_last (q ∷ ps))

-- A field ends at the pipe that follows it, with or without the blank before.
parts_then :
    (a rest : Text)
    → trim_all (split 124 (a ++ (32 ∷ 124 ∷ rest)))
      ≡ trim_all (split 124 a) ++ trim_all (split 124 rest)
parts_then a rest =
    ap (λ s. trim_all (split 124 s)) (sym (append_assoc a (32 ∷ []) (124 ∷ rest)))
    ∙ ap trim_all (split-append_sep 124 (a ++ 32 ∷ []) rest)
    ∙ trim_all-append (split 124 (a ++ 32 ∷ [])) (split 124 rest)
    ∙ ap (λ x. x ++ trim_all (split 124 rest))
        (ap trim_all (split_blank a) ∙ trim_all-blank_last (split 124 a))

split_prefix :
    (k s : Text) {q : Text} {qs : List Text}
    → any (λ c. c == 124) k ≡ false
    → split 124 s ≡ q ∷ qs
    → split 124 (k ++ s) ≡ (k ++ q) ∷ qs
split_prefix [] s h e = e
split_prefix (c ∷ k) s h e = elim (Bool-cases (c == 124)) [
  | inl w ↦ cc (rw w at h)
  | inr w ↦ rw (w, split_prefix k s (rw w at h) e)
]

trim_space_keyed : (k q : Text) → starts_word k ≡ true → IsTrimmed q → trim_space (k ++ q) ≡ k ++ q
trim_space_keyed [] q h t = cc
trim_space_keyed (c ∷ k) [] h t = cc (t.starts)
trim_space_keyed (c ∷ k) (d ∷ q) h t =
    trim_space_trimmed (record { starts = h; ends = trim_right-append (c ∷ k) d q t.ends })

-- The parts of a field are those of its value, the first one with the key.
parts_of_field :
    (k v : Text) {q : Text} {qs : List Text}
    → IsKey k
    → split 124 v ≡ q ∷ qs
    → ArePartsOf (q ∷ qs)
    → trim_all (split 124 (k ++ v)) ≡ (k ++ q) ∷ qs
parts_of_field k v {q} {qs} key e h =
    ap trim_all (split_prefix k v key.no_pipe e)
    ∙ rw (trim_space_keyed k q key.starts h.0, trim_all_trimmed qs h.1)

parts_of_spaced :
    (k v : Text) {q : Text} {qs : List Text}
    → IsKey k
    → split 124 v ≡ q ∷ qs
    → trim_all (split 124 (32 ∷ (k ++ v))) ≡ trim_all (split 124 (k ++ v))
parts_of_spaced k v {q} {qs} key e = rw (split_prefix k v key.no_pipe e)

-- The merge puts the parts of a value together again.
abbrev join : Text → List Text → Text
join seg [] = seg
join seg (q ∷ qs) = join (seg ++ (124 ∷ q)) qs

abbrev join_parts : Text → List Text → Text
join_parts k [] = k
join_parts k (q ∷ qs) = join (k ++ q) qs

regroup : (k : Text) (c : ℕ) (p : Text) → c ≡ 124 → (k ++ []) ++ (124 ∷ p) ≡ (k ++ c ∷ []) ++ p
regroup k c p e =
    append_assoc k [] (124 ∷ p) ∙ ap (λ x. k ++ (x ∷ p)) (sym e) ∙ sym (append_assoc k (c ∷ []) p)

join-split : (k v : Text) → join_parts k (split 124 v) ≡ k ++ v
join-split k [] = refl
join-split k (c ∷ v) =
    let (p, ps, e) = split_cons 124 v in
    let ih =
      subst (λ x. join_parts (k ++ c ∷ []) x ≡ (k ++ c ∷ []) ++ v) e (join-split (k ++ c ∷ []) v) in
    elim (Bool-cases (c == 124)) [
      | inl w ↦
          let same : c ≡ 124 = ground arith in
          rw (w, e) (ap (λ x. join x ps) (regroup k c p same) ∙ ih ∙ append_assoc k (c ∷ []) v)
      | inr w ↦
          rw (w, e)
            (ap (λ x. join x ps) (sym (append_assoc k (c ∷ []) p)) ∙ ih ∙ append_assoc k (c ∷ []) v)
    ]

merge_continuations :
    (seg : Text) (qs rest : List Text)
    → All IsContinuation qs
    → merge seg (qs ++ rest) ≡ merge (join seg qs) rest
unfolding merge
merge_continuations seg [] rest h = refl
merge_continuations seg (q ∷ qs) rest h =
    rw (not_empty q h.0.trimmed.starts, h.0.no_key)
      (merge_continuations (seg ++ (124 ∷ q)) qs rest h.1)

merge_value :
    (k v : Text) {q : Text} {qs : List Text} (rest : List Text)
    → split 124 v ≡ q ∷ qs
    → ArePartsOf (q ∷ qs)
    → merge (k ++ q) (qs ++ rest) ≡ merge (k ++ v) rest
merge_value k v {q} {qs} rest e h =
    merge_continuations (k ++ q) qs rest h.1
    ∙ ap (λ x. merge x rest) (ap (join_parts k) (sym e) ∙ join-split k v)

keyed_not_empty : (k q : Text) → starts_word k ≡ true → empty (k ++ q) ≡ false
keyed_not_empty [] q h = cc
keyed_not_empty (c ∷ k) q h = refl

-- A field's parts, then `rest`, continue as the whole field.
field_segment :
    (k v : Text) (rest : List Text)
    → IsKey k
    → IsCarried v
    → segments (trim_all (split 124 (k ++ v)) ++ rest) ≡ merge (k ++ v) rest
unfolding segments
field_segment k v rest key w =
    let (q, qs, e) = split_cons 124 v in
    let parts = subst ArePartsOf e w.parts in
    ap (λ x. segments (x ++ rest)) (parts_of_field k v key e parts)
    ∙ rw (keyed_not_empty k q key.starts) (merge_value k v rest e parts)

-- After the segment `seg`, a field begins a segment of its own.
next_segment :
    (seg k v : Text) (rest : List Text)
    → IsKey k
    → IsCarried v
    → merge seg (trim_all (split 124 (32 ∷ (k ++ v))) ++ rest) ≡ seg ∷ merge (k ++ v) rest
unfolding merge
next_segment seg k v rest key w =
    let (q, qs, e) = split_cons 124 v in
    let parts = subst ArePartsOf e w.parts in
    ap (λ x. merge seg (x ++ rest)) (parts_of_spaced k v key e ∙ parts_of_field k v key e parts)
    ∙ rw (keyed_not_empty k q key.starts, key.known q) (ap (◌∷◌ seg) (merge_value k v rest e parts))

last_segment :
    (seg k v : Text)
    → IsKey k
    → IsCarried v
    → merge seg (trim_all (split 124 (32 ∷ (k ++ v)))) ≡ seg ∷ (k ++ v) ∷ []
unfolding merge
last_segment seg k v key w =
    ap (merge seg) (sym (append-nil (trim_all (split 124 (32 ∷ (k ++ v))))))
    ∙ next_segment seg k v [] key w

-- The line of fields that the export prints.
abbrev pub line : (k₁ v₁ k₂ v₂ k₃ v₃ k₄ v₄ : Text) → Text
line k₁ v₁ k₂ v₂ k₃ v₃ k₄ v₄ =
    (k₁ ++ v₁)
    ++ (32
        ∷ 124
        ∷ 32
        ∷ ((k₂ ++ v₂) ++ (32 ∷ 124 ∷ 32 ∷ ((k₃ ++ v₃) ++ (32 ∷ 124 ∷ 32 ∷ (k₄ ++ v₄))))))

-- Its segments are the fields, each with its whole value.
pub segments_of_line :
    (k₁ v₁ k₂ v₂ k₃ v₃ k₄ v₄ : Text)
    → IsKey k₁
    → IsKey k₂
    → IsKey k₃
    → IsKey k₄
    → IsCarried v₁
    → IsCarried v₂
    → IsCarried v₃
    → IsCarried v₄
    → segments (trim_all (split 124 (line k₁ v₁ k₂ v₂ k₃ v₃ k₄ v₄)))
      ≡ (k₁ ++ v₁) ∷ (k₂ ++ v₂) ∷ (k₃ ++ v₃) ∷ (k₄ ++ v₄) ∷ []
unfolding merge
segments_of_line k₁ v₁ k₂ v₂ k₃ v₃ k₄ v₄ q₁ q₂ q₃ q₄ w₁ w₂ w₃ w₄ =
    let third = (k₃ ++ v₃) ++ (32 ∷ 124 ∷ 32 ∷ (k₄ ++ v₄)) in
    let second = (k₂ ++ v₂) ++ (32 ∷ 124 ∷ 32 ∷ third) in
    ap segments (parts_then (k₁ ++ v₁) (32 ∷ second))
    ∙ field_segment k₁ v₁ (trim_all (split 124 (32 ∷ second))) q₁ w₁
    ∙ ap (merge (k₁ ++ v₁)) (parts_then (32 ∷ (k₂ ++ v₂)) (32 ∷ third))
    ∙ next_segment (k₁ ++ v₁) k₂ v₂ (trim_all (split 124 (32 ∷ third))) q₂ w₂
    ∙ ap (◌∷◌ (k₁ ++ v₁)) (
        ap (merge (k₂ ++ v₂)) (parts_then (32 ∷ (k₃ ++ v₃)) (32 ∷ (k₄ ++ v₄)))
        ∙ next_segment (k₂ ++ v₂) k₃ v₃ (trim_all (split 124 (32 ∷ (k₄ ++ v₄)))) q₃ w₃
        ∙ ap (◌∷◌ (k₂ ++ v₂)) (last_segment (k₃ ++ v₃) k₄ v₄ q₄ w₄))
