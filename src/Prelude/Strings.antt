-- ===== src/Prelude/Strings.antt =====
-- Literals that differ.
use Prim.Native.String.{String}
use mathlib.Core.Path.{◌≡◌}
use mathlib.Core.Logic.{◌≢◌}
use mathlib.Core.Bool.{false}
use text.Mathlib.Text.{◌==◌ as str_eq}
use text.Mathlib.TextEquality.{eq_iff}

pub different : (a b : String) → str_eq a b ≡ false → a ≢ b
different a b e p = cc ((eq_iff a b).1 p, e)
