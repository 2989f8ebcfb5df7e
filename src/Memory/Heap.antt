-- ===== src/Memory/Heap.antt =====
-- The allocator's invariant, and what an allocation and a release do to the free units.
use mathlib.Core.Path.{subst}
use native.Mathlib.Nat.{pow-suc}
use clubcos.Memory.Bitmap.{BuddyBitmap}
use clubcos.Memory.Levels.{
  IsLevels, free_at, Disjoint, block_of, free_at-append, Disjoint-low, Disjoint-high, IsLevels-high,
  IsLevels-replace, Disjoint-replace,
}
use clubcos.Memory.Dyn.{DynMem, unit_size, dyn_memory_start}
use clubcos.Prelude.{
  ℕ, zero, suc, ◌+◌, ◌*◌, ◌/◌, ◌%◌, ◌^◌, ◌≤◌, ◌<◌, ◌≡◌, refl, sym, ap, ◌∙◌, true, false, ◌||◌, List,
  [], ◌∷◌, ◌++◌, arith, length, take, drop, length-append, take-append-drop, length-take,
  length-drop,
}

pub record IsHeap (g : DynMem) : Type 0 where
  pub shape : IsLevels g.count_of_unit_block g.ar_bitmap
  pub apart : Disjoint g.ar_bitmap
  pub levels : g.bitmap_level ≡ length g.ar_bitmap
  pub not_null : 0 < g.begin_addr
  pub aligned : g.begin_addr % unit_size ≡ 0
  pub top : g.begin_addr + g.count_of_unit_block * unit_size ≤ dyn_memory_start + g.dyn_mem_size
  pub small : dyn_memory_start + g.dyn_mem_size < 2 ^ 32

-- A level's block lies inside the units.
pub block_of-inside : (k b n : ℕ) → b < block_of k n → (b + 1) * 2 ^ k ≤ n
block_of-inside zero b n h = omega arith
block_of-inside (suc k) b n h = rw (pow-suc 2 k) (omega (arith, block_of-inside k b (n / 2) h))

module _ (n idx : ℕ) (all : List BuddyBitmap) (shape : IsLevels n all) (apart : Disjoint all)
    (fits : idx ≤ length all) where
  split : take idx all ++ drop idx all ≡ all
  split = take-append-drop idx all

  length-low : length (take idx all) ≡ idx
  length-low = omega (arith, length-take {0} idx all)

  pub high-IsLevels : IsLevels (block_of idx n) (drop idx all)
  high-IsLevels =
      subst (λ k. IsLevels (block_of k n) (drop idx all)) length-low
        (IsLevels-high n (take idx all) (drop idx all) (rw split shape))

  pub high-Disjoint : Disjoint (drop idx all)
  high-Disjoint = Disjoint-high (take idx all) (drop idx all) (rw split apart)

  pub free_at-split :
      (ms : List BuddyBitmap) (u : ℕ)
      → free_at (take idx all ++ ms) u ≡ (free_at (take idx all) u || free_at ms (block_of idx u))
  free_at-split ms u =
      subst
        (λ k.
          free_at (take idx all ++ ms) u ≡ (free_at (take idx all) u || free_at ms (block_of k u)))
        length-low (free_at-append (take idx all) ms u)

  pub free_at-all :
      (u : ℕ)
      → free_at all u ≡ (free_at (take idx all) u || free_at (drop idx all) (block_of idx u))
  free_at-all u = ap (λ l. free_at l u) (sym split) ∙ free_at-split (drop idx all) u

  pub low_apart :
      (u : ℕ) → free_at (take idx all) u ≡ true → free_at (drop idx all) (block_of idx u) ≡ false
  low_apart u e =
      subst (λ k. free_at (drop idx all) (block_of k u) ≡ false) length-low
        (Disjoint-low (take idx all) (drop idx all) u (rw split apart) e)

  -- New levels from `idx` on.
  pub replace-IsLevels :
      (ms : List BuddyBitmap) → IsLevels (block_of idx n) ms → IsLevels n (take idx all ++ ms)
  replace-IsLevels ms h =
      IsLevels-replace n (take idx all) (drop idx all) ms (rw split shape)
        (subst (λ k. IsLevels (block_of k n) ms) (sym length-low) h)

  pub replace-Disjoint :
      (ms : List BuddyBitmap)
      → Disjoint ms
      → ((u : ℕ) → free_at (take idx all) u ≡ true → free_at ms (block_of idx u) ≡ false)
      → Disjoint (take idx all ++ ms)
  replace-Disjoint ms d h =
      Disjoint-replace (take idx all) (drop idx all) ms (rw split apart) d
        (λ u e. subst (λ k. free_at ms (block_of k u) ≡ false) (sym length-low) (h u e))

  pub length-replace :
      (ms : List BuddyBitmap)
      → length ms ≡ length (drop idx all)
      → length (take idx all ++ ms) ≡ length all
  length-replace ms e =
      omega (arith, length-append {0} (take idx all) ms, length-low, length-drop {0} idx all, fits)

-- The number of levels depends on the number of blocks alone.
pub IsLevels-length :
    (n : ℕ) (xs ys : List BuddyBitmap) → IsLevels n xs → IsLevels n ys → length xs ≡ length ys
IsLevels-length n [] [] h k = refl
IsLevels-length n [] (y ∷ ys) h k = absurd (omega (arith, k.0))
IsLevels-length n (x ∷ xs) [] h k = absurd (omega (arith, h.0))
IsLevels-length n (x ∷ xs) (y ∷ ys) h k = ap suc (IsLevels-length (n / 2) xs ys h.2 k.2)
