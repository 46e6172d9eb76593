-- ===== src/Prelude/Decimal.antt =====
-- `strconv.Itoa` on a number that is not negative, with the value of a run of digits.
use Prim.Native.Nat.{ℕ, zero, suc, ◌+◌, ◌-◌, ◌*◌, ◌/◌, ◌%◌, ◌<◌}
use mathlib.Core.Path.{◌≡◌, ap, sym, ◌∙◌}
use mathlib.Core.List.{List, [], ◌∷◌}
use native.Mathlib.Omega.{arith}
use aegis_go.Prelude.Tests.{if◌then◌else◌, ltb, ltb→lt, Bool-cases}
use mathlib.Core.Logic.{inl, inr}

-- Most significant digit first; `acc` holds the digits already written.
unfoldable pub digits : ℕ → ℕ → List ℕ → List ℕ
digits zero n acc = acc
digits (suc fuel) n acc =
    let digit = 48 + n % 10 in
    let more = digits fuel (n / 10) (digit ∷ acc) in if ltb n 10 then digit ∷ acc else more

-- A number has no more digits than its value plus one.
unfoldable pub itoa : ℕ → List ℕ
unfolding digits
itoa n = digits (suc n) n []

abbrev value_from : ℕ → List ℕ → ℕ
value_from v [] = v
value_from v (c ∷ s) = value_from (v * 10 + (c - 48)) s

value-digits :
    (fuel n : ℕ) (acc : List ℕ) → n < fuel → value_from 0 (digits fuel n acc) ≡ value_from n acc
unfolding digits
value-digits zero n acc h = absurd (omega arith)
value-digits (suc fuel) n acc h = elim (Bool-cases (ltb n 10)) [
  | inl small ↦ rw small (ap (λ v. value_from v acc) (omega (arith, ltb→lt n 10 small)))
  | inr large ↦
      let deeper : n / 10 < fuel = ground arith in
      rw large (
        value-digits fuel (n / 10) ((48 + n % 10) ∷ acc) deeper
        ∙ ap (λ v. value_from v acc) (omega arith))
]

-- Reading the digits gives the number back, so two numbers never print alike.
value-itoa : (n : ℕ) → value_from 0 (itoa n) ≡ n
unfolding itoa
value-itoa n = value-digits (suc n) n [] (omega arith)

itoa_injective : (m n : ℕ) → itoa m ≡ itoa n → m ≡ n
itoa_injective m n h = sym (value-itoa m) ∙ ap (value_from 0) h ∙ value-itoa n
