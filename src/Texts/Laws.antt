-- ===== src/Texts/Laws.antt =====
-- Splitting and trimming of texts that were put together, as the command parsers of internal/app and
-- internal/telegram meet them.
use aegis_go.Prelude.{
  ==_refl, ◌&&◌, ℕ, ◌≡◌, refl, sym, ap, ◌∙◌, true, false, List, [], ◌∷◌, ◌++◌, map, ◌==◌, arith,
  inl, inr, Bool-cases, any,
}
use aegis_go.Rules.{Text, is_space, trim_left, trim_right, trim_cons, trim_space}
use aegis_go.Texts.{text_eq, split, starts_word}

map-append : {A B : Type 0} (f : A → B) (xs ys : List A) → map f (xs ++ ys) ≡ map f xs ++ map f ys
map-append f [] ys = refl
map-append f (x ∷ xs) ys = ap (◌∷◌ (f x)) (map-append f xs ys)

-- There is always a first part.
pub split_cons : (sep : ℕ) (s : Text) → (p : Text) × (ps : List Text) × (split sep s ≡ p ∷ ps)
split_cons sep [] = ([], [], refl)
split_cons sep (c ∷ s) = elim (Bool-cases (c == sep)) [
  | inl e ↦ ([], split sep s, rw e)
  | inr e ↦ let (p, ps, q) = split_cons sep s in (c ∷ p, ps, rw (e, q))
]

-- A separator between two texts separates their parts.
pub split-append_sep :
    (sep : ℕ) (a b : Text) → split sep (a ++ sep ∷ b) ≡ split sep a ++ split sep b
split-append_sep sep [] b = elim (Bool-cases (sep == sep)) [ inl e ↦ rw e | inr e ↦ ground arith ]
split-append_sep sep (c ∷ a) b = elim (Bool-cases (c == sep)) [
  | inl e ↦ rw e (ap (◌∷◌ []) (split-append_sep sep a b))
  | inr e ↦ let (p, ps, q) = split_cons sep a in rw (e, split-append_sep sep a b, q)
]

-- A text without the separator is one part.
pub split_lacking : (sep : ℕ) (s : Text) → any (λ c. c == sep) s ≡ false → split sep s ≡ s ∷ []
split_lacking sep [] h = refl
split_lacking sep (c ∷ s) h = elim (Bool-cases (c == sep)) [
  | inl e ↦ cc (rw e at h)
  | inr e ↦ rw (e, split_lacking sep s (rw e at h))
]

trim_right-append_space : (s : Text) → trim_right (s ++ 32 ∷ []) ≡ trim_right s
trim_right-append_space [] = refl
trim_right-append_space (c ∷ s) = ap (trim_cons c) (trim_right-append_space s)

-- A blank at the end is trimmed away.
pub trim_space-append_space : (s : Text) → trim_space (s ++ 32 ∷ []) ≡ trim_space s
trim_space-append_space [] = refl
trim_space-append_space (c ∷ s) = elim (Bool-cases (is_space c)) [
  | inl e ↦ rw e (trim_space-append_space s)
  | inr e ↦ rw e (trim_right-append_space (c ∷ s))
]

trim_cons_end : (c d : ℕ) (r : Text) → trim_cons c (d ∷ r) ≡ c ∷ d ∷ r
trim_cons_end c d r = refl

trim_right-append_cons :
    (a b : Text) {d : ℕ} {r : Text}
    → trim_right b ≡ d ∷ r
    → (e : ℕ) × (t : Text) × (a ++ d ∷ r ≡ e ∷ t) × (trim_right (a ++ b) ≡ e ∷ t)
trim_right-append_cons [] b {d} {r} h = (d, r, refl, h)
trim_right-append_cons (c ∷ a) b {d} {r} h =
    let (e, t, p, q) = trim_right-append_cons a b h in (c, a ++ d ∷ r, refl, rw (q, p))

-- The end of a text alone decides what is trimmed there.
pub trim_right-append :
    (a : Text) (c : ℕ) (b : Text)
    → trim_right (c ∷ b) ≡ c ∷ b
    → trim_right (a ++ c ∷ b) ≡ a ++ c ∷ b
trim_right-append a c b h = let (e, t, p, q) = trim_right-append_cons a (c ∷ b) h in q ∙ sym p

-- Nothing to trim: not empty, and no blank at either end.
pub record IsTrimmed (s : Text) : Type 0 where
  pub starts : starts_word s ≡ true
  pub ends : trim_right s ≡ s

trim_left_trimmed : (s : Text) → starts_word s ≡ true → trim_left s ≡ s
trim_left_trimmed [] h = refl
trim_left_trimmed (c ∷ s) h = elim (Bool-cases (is_space c)) [
  | inl e ↦ cc (rw e at h)
  | inr e ↦ rw e
]

pub trim_space_trimmed : {s : Text} → IsTrimmed s → trim_space s ≡ s
trim_space_trimmed {s} t = rw (trim_left_trimmed s t.starts) t.ends

trim_cons_solid : (c : ℕ) (s : Text) → is_space c ≡ false → trim_cons c s ≡ c ∷ s
trim_cons_solid c [] e = rw e
trim_cons_solid c (d ∷ r) e = refl

-- A text without blanks.
pub trim_right_solid : (s : Text) → any is_space s ≡ false → trim_right s ≡ s
trim_right_solid [] h = refl
trim_right_solid (c ∷ s) h = elim (Bool-cases (is_space c)) [
  | inl e ↦ cc (rw e at h)
  | inr e ↦ rw (trim_right_solid s (rw e at h)) (trim_cons_solid c s e)
]

trim_space_solid : (s : Text) → any is_space s ≡ false → trim_space s ≡ s
trim_space_solid [] h = refl
trim_space_solid (c ∷ s) h = elim (Bool-cases (is_space c)) [
  | inl e ↦ cc (rw e at h)
  | inr e ↦ rw e (trim_right_solid (c ∷ s) h)
]

pub text_eq→≡ : (s t : Text) → text_eq s t ≡ true → s ≡ t
text_eq→≡ [] [] h = refl
text_eq→≡ [] (d ∷ t) h = cc h
text_eq→≡ (c ∷ s) [] h = cc h
text_eq→≡ (c ∷ s) (d ∷ t) h = elim (Bool-cases (c == d)) [
  | inl e ↦
      let same : c ≡ d = ground arith in
      ap (λ x. x ∷ s) same ∙ ap (◌∷◌ d) (text_eq→≡ s t (rw e at h))
  | inr e ↦ cc (rw e at h)
]

pub text_eq_refl : (s : Text) → text_eq s s ≡ true
text_eq_refl [] = refl
text_eq_refl (c ∷ s) = rw (==_refl c) (text_eq_refl s)

pub text_eq_sym : (s t : Text) → text_eq s t ≡ text_eq t s
text_eq_sym [] [] = refl
text_eq_sym [] (d ∷ t) = refl
text_eq_sym (c ∷ s) [] = refl
text_eq_sym (c ∷ s) (d ∷ t) =
    let same : (c == d) ≡ (d == c) = ground arith in
    rw same (ap (λ b. (d == c) && b) (text_eq_sym s t))
