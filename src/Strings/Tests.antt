-- ===== src/Strings/Tests.antt =====
-- Strings in a small memory, for src/string.c.
use clubcos.Strings.Scan.{IsString}
use clubcos.Prelude.{ℕ, refl, [], ◌∷◌, arith, upd}

-- "ab" at 10, "ac" at 20.
abbrev memory : ℕ → ℕ
memory = upd (upd (upd (upd (λ q. 0) 10 97) 11 98) 20 97) 21 99

at_10 : IsString memory 10 (97 ∷ 98 ∷ [])
at_10 = (
  refl,
  (λ e. absurd (omega (arith, e))),
  omega arith,
  (refl, (λ e. absurd (omega (arith, e))), omega arith, refl),
)

at_20 : IsString memory 20 (97 ∷ 99 ∷ [])
at_20 = (
  refl,
  (λ e. absurd (omega (arith, e))),
  omega arith,
  (refl, (λ e. absurd (omega (arith, e))), omega arith, refl),
)
