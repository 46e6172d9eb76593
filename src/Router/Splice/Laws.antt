-- ===== src/Router/Splice/Laws.antt =====
-- internal/router/router.go, spliceArgs: one capture in a quoted slot.
use aegis_go.Prelude.{ℕ, ◌≡◌, ◌≢◌, refl, ◌∙◌, ap, true, [], ◌∷◌, ◌++◌, length, arith}
use mathlib.Core.List.{append_assoc}
use aegis_go.Prelude.Decimal.{itoa}
use aegis_go.Rules.{Text}
use aegis_go.Router.Splice.{
  starts_with, replace_from, replace_all, json_char, json_body, json_string, dollar, ref_to,
  quoted_ref_to, splice_one, splice_args,
}

abbrev pub NoDollar : Text → Type 0
NoDollar [] = Unit {0}
NoDollar (c ∷ s) = (c ≢ dollar) × NoDollar s

NoDollar-append : (s t : Text) → NoDollar s → NoDollar t → NoDollar (s ++ t)
NoDollar-append [] t h k = k
NoDollar-append (c ∷ s) t h k = (h.0, NoDollar-append s t h.1 k)

starts_with_self : (p s : Text) → starts_with p (p ++ s) ≡ true
unfolding starts_with
starts_with_self [] s = refl
starts_with_self (c ∷ p) s = ground (arith, starts_with_self p s)

replace_skip :
    (old new s t : Text) → replace_from old new (length s) (s ++ t) ≡ replace_from old new 0 t
unfolding replace_from
replace_skip old new [] t = refl
replace_skip old new (c ∷ s) t = replace_skip old new s t

replace_step :
    (c : ℕ) (p new t : Text)
    → replace_from (c ∷ p) new 0 (c ∷ (p ++ t))
      ≡ new ++ replace_from (c ∷ p) new (length p) (p ++ t)
unfolding replace_from
replace_step c p new t = ground (arith, starts_with_self p t)

-- A match is replaced and the scan goes on behind it.
replace_hit :
    (c : ℕ) (p new t : Text)
    → replace_from (c ∷ p) new 0 ((c ∷ p) ++ t) ≡ new ++ replace_from (c ∷ p) new 0 t
replace_hit c p new t = replace_step c p new t ∙ ap (◌++◌ new) (replace_skip (c ∷ p) new p t)

-- Text without a dollar is passed over.
replace_bare_over :
    (p new s t : Text)
    → NoDollar s
    → replace_from (dollar ∷ p) new 0 (s ++ t) ≡ s ++ replace_from (dollar ∷ p) new 0 t
unfolding replace_from
replace_bare_over p new [] t h = refl
replace_bare_over p new (c ∷ s) t h = ground (arith, replace_bare_over p new s t h.1)

replace_bare_none : (p new s : Text) → NoDollar s → replace_from (dollar ∷ p) new 0 s ≡ s
unfolding replace_from
replace_bare_none p new [] h = refl
replace_bare_none p new (c ∷ s) h = ground (arith, replace_bare_none p new s h.1)

replace_quoted_none : (p new s : Text) → NoDollar s → replace_from (34 ∷ dollar ∷ p) new 0 s ≡ s
unfolding replace_from
replace_quoted_none p new [] h = refl
replace_quoted_none p new (c ∷ []) h = ground arith
replace_quoted_none p new (c ∷ d ∷ s) h = ground (arith, replace_quoted_none p new (d ∷ s) h.1)

replace_quoted_over :
    (p new s t : Text)
    → NoDollar s
    → replace_from (34 ∷ dollar ∷ p) new 0 (s ++ 34 ∷ t)
      ≡ s ++ replace_from (34 ∷ dollar ∷ p) new 0 (34 ∷ t)
unfolding replace_from
replace_quoted_over p new [] t h = refl
replace_quoted_over p new (c ∷ []) t h = ground arith
replace_quoted_over p new (c ∷ d ∷ s) t h = ground (arith, replace_quoted_over p new (d ∷ s) t h.1)

json_char-NoDollar : (c : ℕ) → c ≢ dollar → NoDollar (json_char c)
unfolding json_char
json_char-NoDollar c h = ground arith

json_body-NoDollar : (s : Text) → NoDollar s → NoDollar (json_body s)
unfolding json_body
json_body-NoDollar [] h = tt
json_body-NoDollar (c ∷ s) h =
    NoDollar-append (json_char c) (json_body s) (json_char-NoDollar c h.0)
      (json_body-NoDollar s h.1)

-- The quoted reference alone between two texts with no dollar.
quoted_pass :
    (i : ℕ) (pre post new : Text)
    → NoDollar pre
    → NoDollar post
    → replace_all (pre ++ (quoted_ref_to i ++ post)) (quoted_ref_to i) new ≡ pre ++ (new ++ post)
unfolding replace_all
quoted_pass i pre post new h k =
    replace_quoted_over (itoa i ++ 34 ∷ []) new pre _ h
    ∙ ap (◌++◌ pre) (
        replace_hit 34 (ref_to i ++ 34 ∷ []) new post
        ∙ ap (◌++◌ new) (replace_quoted_none (itoa i ++ 34 ∷ []) new post k))

json_string-NoDollar : (s : Text) → NoDollar s → NoDollar (json_string s)
unfolding json_string
json_string-NoDollar s h =
    (omega arith, NoDollar-append (json_body s) (34 ∷ []) (json_body-NoDollar s h) (omega arith))

splice_one_lem :
    (i : ℕ) (pre post capture : Text)
    → NoDollar pre
    → NoDollar post
    → splice_one i capture (pre ++ (quoted_ref_to i ++ post))
      ≡ replace_all (pre ++ (json_string capture ++ post)) (ref_to i) capture
unfolding splice_one
splice_one_lem i pre post capture h k =
    ap (λ s. replace_all s (ref_to i) capture) (quoted_pass i pre post (json_string capture) h k)

replace_all_none : (p new s : Text) → NoDollar s → replace_all s (dollar ∷ p) new ≡ s
unfolding replace_all
replace_all_none p new s h = replace_bare_none p new s h

-- In a template with no other dollar sign, a capture with no dollar sign goes into the quoted slot
-- JSON-escaped, quotes kept, and the rest of the template is not touched.
splice_quoted :
    (pre post whole capture : Text)
    → NoDollar pre
    → NoDollar post
    → NoDollar capture
    → splice_args (pre ++ (quoted_ref_to 1 ++ post)) (whole ∷ capture ∷ [])
      ≡ pre ++ (json_string capture ++ post)
unfolding splice_args
splice_quoted pre post whole capture h k m =
    splice_one_lem 1 pre post capture h k
    ∙ replace_all_none (itoa 1) capture (pre ++ (json_string capture ++ post)) (
        NoDollar-append pre _ h
          (NoDollar-append (json_string capture) post (json_string-NoDollar capture m) k))

replace_all_one :
    (p new s t : Text)
    → NoDollar s
    → NoDollar t
    → replace_all (s ++ ((dollar ∷ p) ++ t)) (dollar ∷ p) new ≡ s ++ (new ++ t)
unfolding replace_all
replace_all_one p new s t h k =
    replace_bare_over p new s ((dollar ∷ p) ++ t) h
    ∙ ap (◌++◌ s) (replace_hit dollar p new t ∙ ap (◌++◌ new) (replace_bare_none p new t k))

escaped_self :
    (t : Text) → json_string (ref_to 1 ++ t) ≡ 34 ∷ (ref_to 1 ++ (json_body t ++ 34 ∷ []))
unfolding json_string itoa
escaped_self t = refl

regroup :
    (pre post t : Text)
    → pre ++ (json_string (ref_to 1 ++ t) ++ post)
      ≡ (pre ++ 34 ∷ []) ++ (ref_to 1 ++ ((json_body t ++ 34 ∷ []) ++ post))
regroup pre post t = rw (escaped_self t) (simp append_assoc)

-- In a template with no other dollar sign, the quoted form does not contain a capture that begins
-- with its own reference: the second pass puts the raw capture, quotes and all, inside the JSON
-- string.
splice_unescaped :
    (pre post whole t : Text)
    → NoDollar pre
    → NoDollar post
    → NoDollar t
    → splice_args (pre ++ (quoted_ref_to 1 ++ post)) (whole ∷ (ref_to 1 ++ t) ∷ [])
      ≡ (pre ++ 34 ∷ []) ++ ((ref_to 1 ++ t) ++ ((json_body t ++ 34 ∷ []) ++ post))
unfolding splice_args
splice_unescaped pre post whole t h k m =
    splice_one_lem 1 pre post (ref_to 1 ++ t) h k
    ∙ ap (λ s. replace_all s (ref_to 1) (ref_to 1 ++ t)) (regroup pre post t)
    ∙ replace_all_one (itoa 1) (ref_to 1 ++ t) (pre ++ 34 ∷ []) ((json_body t ++ 34 ∷ []) ++ post)
        (NoDollar-append pre (34 ∷ []) h (omega arith))
        (NoDollar-append _ post
          (NoDollar-append (json_body t) (34 ∷ []) (json_body-NoDollar t m) (omega arith)) k)
