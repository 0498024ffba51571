-- ===== src/Base/Columns.antt =====
-- The `@db.VarChar(n)` of prisma/schema.prisma, as PostgreSQL's columns of the type store a text: one
-- of more than n characters is refused, except that spaces beyond the limit are cut off.
use Prim.Native.Nat.{ℕ, zero, suc, ◌≤◌}
use Prim.Native.Char.{code}
use Prim.Native.String.{String}
use mathlib.Core.Path.{◌≡◌, refl, ap}
use mathlib.Core.Bool.{Bool, true, ◌&&◌}
use native.Mathlib.Omega.{arith}
use photer_api.Base.Tests.{◌==◌}
use photer_api.Base.Text.{codes, points}

unfoldable pub varchar_takes : ℕ → String → Bool
varchar_takes n String.[] = true
varchar_takes zero (String.◌∷◌ c s) = code c == 32 && varchar_takes zero s
varchar_takes (suc n) (String.◌∷◌ c s) = varchar_takes n s

unfoldable pub varchar_cut : ℕ → String → String
varchar_cut n String.[] = ""
varchar_cut zero (String.◌∷◌ c s) = ""
varchar_cut (suc n) (String.◌∷◌ c s) = String.◌∷◌ c (varchar_cut n s)

-- A text within the limit is stored as it is.
pub varchar_takes-le : (n : ℕ) (s : String) → points (codes s) ≤ n → varchar_takes n s ≡ true
unfolding varchar_takes
varchar_takes-le n String.[] h = refl
varchar_takes-le zero (String.◌∷◌ c s) h = absurd (omega (arith, h))
varchar_takes-le (suc n) (String.◌∷◌ c s) h = varchar_takes-le n s (omega (arith, h))

pub varchar_cut-le : (n : ℕ) (s : String) → points (codes s) ≤ n → varchar_cut n s ≡ s
unfolding varchar_cut
varchar_cut-le n String.[] h = refl
varchar_cut-le zero (String.◌∷◌ c s) h = absurd (omega (arith, h))
varchar_cut-le (suc n) (String.◌∷◌ c s) h =
    ap (λ z. String.◌∷◌ c z) (varchar_cut-le n s (omega (arith, h)))
