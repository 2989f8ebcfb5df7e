-- ===== src/Memory/Buddy.antt =====
-- The index of a block's buddy, `block ^ 1`.
use Prim.Native.Nat.{bit_xor, bit_xor-bitwise, digits, differ}
use clubcos.Prelude.{ℕ, zero, suc, ◌+◌, ◌-◌, ◌*◌, ◌/◌, ◌%◌, ◌≤◌, ◌<◌, ◌≡◌, refl, arith}

unfoldable pub buddy_of : ℕ → ℕ
buddy_of block = bit_xor block 1

differ-zero : (y : ℕ) → differ y 0 ≡ y
differ-zero zero = refl
differ-zero (suc y) = refl

digits-zero : (n x : ℕ) → x ≤ n → digits (λ b. b) differ n x 0 ≡ x
digits-zero zero x h = omega arith
digits-zero (suc n) zero h = refl
digits-zero (suc n) (suc x) h =
    omega (arith, digits-zero n (suc x / 2) (omega arith), differ-zero (suc x % 2))

differ-one : (y : ℕ) → y < 2 → differ y 1 ≡ 1 - y
differ-one zero h = refl
differ-one (suc zero) h = refl
differ-one (suc (suc y)) h = absurd (omega arith)

-- An even block's buddy is the next one, an odd block's the one before.
pub buddy_of_lem : (b : ℕ) → buddy_of b ≡ b / 2 * 2 + (1 - b % 2)
unfolding buddy_of
buddy_of_lem zero = bit_xor-bitwise 0 1
buddy_of_lem (suc b) = omega (
  arith,
  bit_xor-bitwise (suc b) 1,
  digits-zero b (suc b / 2) (omega arith),
  differ-one (suc b % 2) (omega arith),
)
