-- ===== src/Memory/Levels.antt =====
-- The hierarchy of levels, smallest blocks first: level `k + 1` pairs the blocks of level `k`.
use clubcos.Memory.Bitmap.{BuddyBitmap, get_bit}
use mathlib.Core.Path.{subst}
use clubcos.Memory.Level.{IsLevel}
use clubcos.Prelude.{
  ℕ, zero, suc, ◌*◌, ◌/◌, ◌<◌, ◌≡◌, refl, Bool, true, false, ◌||◌, List, [], ◌∷◌, ◌++◌, arith,
  length,
}

-- `n` blocks, then `n / 2`, and so on up to one block.
abbrev pub IsLevels : ℕ → List BuddyBitmap → Type 0
IsLevels n [] = n ≡ 0
IsLevels n (m ∷ ms) = (0 < n) × IsLevel n m × IsLevels (n / 2) ms

-- Some level has the block free that unit `u` lies in.
abbrev pub free_at : List BuddyBitmap → ℕ → Bool
free_at [] u = false
free_at (m ∷ ms) u = get_bit m.bits u || free_at ms (u / 2)

-- No unit is free at two levels.
abbrev pub Disjoint : List BuddyBitmap → Type 0
Disjoint [] = Unit
Disjoint (m ∷ ms) = ((u : ℕ) → get_bit m.bits u ≡ true → free_at ms (u / 2) ≡ false) × Disjoint ms

-- The block of level `k` that unit `u` lies in.
abbrev pub block_of : ℕ → ℕ → ℕ
block_of zero u = u
block_of (suc k) u = block_of k (u / 2)

pub free_at-append :
    (xs ys : List BuddyBitmap) (u : ℕ)
    → free_at (xs ++ ys) u ≡ (free_at xs u || free_at ys (block_of (length xs) u))
free_at-append [] ys u = refl
free_at-append (x ∷ xs) ys u = ground (arith, free_at-append xs ys (u / 2))

pub free_at-lt :
    (n : ℕ) (ms : List BuddyBitmap) (u : ℕ) → IsLevels n ms → free_at ms u ≡ true → u < n
free_at-lt n [] u h e = cc
free_at-lt n (m ∷ ms) u h e = ground (arith, h.1.inside u, free_at-lt (n / 2) ms (u / 2) h.2)

-- The levels below leave out what the levels above have.
pub Disjoint-low :
    (xs ys : List BuddyBitmap) (u : ℕ)
    → Disjoint (xs ++ ys)
    → free_at xs u ≡ true
    → free_at ys (block_of (length xs) u) ≡ false
Disjoint-low [] ys u d e = cc
Disjoint-low (x ∷ xs) ys u d e =
    ground (arith, d.0 u, free_at-append xs ys (u / 2), Disjoint-low xs ys (u / 2) d.1)

pub Disjoint-high : (xs ys : List BuddyBitmap) → Disjoint (xs ++ ys) → Disjoint ys
Disjoint-high [] ys d = d
Disjoint-high (x ∷ xs) ys d = Disjoint-high xs ys d.1

pub IsLevels-high :
    (n : ℕ) (xs ys : List BuddyBitmap)
    → IsLevels n (xs ++ ys)
    → IsLevels (block_of (length xs) n) ys
IsLevels-high n [] ys h = h
IsLevels-high n (x ∷ xs) ys h = IsLevels-high (n / 2) xs ys h.2

-- Other levels of the same shape above a prefix that shares no unit with them.
pub IsLevels-replace :
    (n : ℕ) (xs ys zs : List BuddyBitmap)
    → IsLevels n (xs ++ ys)
    → IsLevels (block_of (length xs) n) zs
    → IsLevels n (xs ++ zs)
IsLevels-replace n [] ys zs h k = k
IsLevels-replace n (x ∷ xs) ys zs h k = (h.0, h.1, IsLevels-replace (n / 2) xs ys zs h.2 k)

pub or_true : (a : Bool) → (a || true) ≡ true
or_true true = refl
or_true false = refl

pub Disjoint-replace :
    (xs ys zs : List BuddyBitmap)
    → Disjoint (xs ++ ys)
    → Disjoint zs
    → ((u : ℕ) → free_at xs u ≡ true → free_at zs (block_of (length xs) u) ≡ false)
    → Disjoint (xs ++ zs)
Disjoint-replace [] ys zs d e h = e
Disjoint-replace (x ∷ xs) ys zs d e h = (
  λ u b. ground (arith, d.0 u b, free_at-append xs ys (u / 2), free_at-append xs zs (u / 2), h u),
  Disjoint-replace xs ys zs d.1 e (λ u b.
      let e : u * 2 / 2 ≡ u = omega arith in
      subst (λ v. free_at zs (block_of (length xs) v) ≡ false) e
        (h (u * 2) (rw (e, b) (or_true _)))),
)
