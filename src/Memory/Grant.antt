-- ===== src/Memory/Grant.antt =====
-- `ckDynMemAllocate`: what it answers, and what that does to the free units.
use mathlib.Core.Path.{subst}
use native.Mathlib.Nat.{mod-eq_of_lt, one-le-pow}
use clubcos.Memory.Bitmap.{BuddyBitmap}
use clubcos.Memory.Levels.{free_at, block_of, or_true}
use clubcos.Memory.Alloc.{
  Outcome, no_block, ran_off, block_at, allocate_block, IsTaken, IsAllocated,
  allocate_block-IsAllocated,
}
use clubcos.Memory.Dyn.{DynMem, unit_size, block_size, ceil_uint32, level_of, finish, allocate}
use clubcos.Memory.Sizes.{level_of_total, level_of_endless, ceil_le, ceil_large, block_size-eq}
use clubcos.Memory.Heap
use clubcos.Memory.Heap.{IsHeap, block_of-inside}
use clubcos.Prelude.{
  ℕ, zero, suc, ◌+◌, ◌-◌, ◌*◌, ◌%◌, ◌^◌, ◌≤◌, ◌<◌, ◌≡◌, refl, sym, ap, ◌∙◌, ◌⊎◌, inl, inr, true,
  false, not, ◌&&◌, Option, none, some, List, [], ◌∷◌, ◌++◌, arith, leb, ◌==◌, Bool-cases, length,
  take, drop, add32,
}

-- The heap `g` has given away block `b` of level `idx`, at address `addr`, and is now `g'`.
pub record IsGrant (g : DynMem) (size idx b addr : ℕ) (g' : DynMem) : Type 0 where
  pub level : level_of (ceil_uint32 size unit_size) ≡ some idx
  pub in_levels : idx < g.bitmap_level
  pub holds : size ≤ block_size idx
  pub address : addr ≡ g.begin_addr + b * block_size idx
  pub below : b < block_of idx g.count_of_unit_block
  pub within : addr + block_size idx ≤ g.begin_addr + g.count_of_unit_block * unit_size
  pub heap : IsHeap g'
  pub used : g'.used_size ≡ add32 g.used_size (ceil_uint32 size unit_size)
  pub begin_same : g'.begin_addr ≡ g.begin_addr
  pub dyn_same : g'.dyn_mem_size ≡ g.dyn_mem_size
  pub levels_same : g'.bitmap_level ≡ g.bitmap_level
  pub count_same : g'.count_of_unit_block ≡ g.count_of_unit_block
  pub was_free : (u : ℕ) → block_of idx u ≡ b → free_at g.ar_bitmap u ≡ true
  pub rest : (u : ℕ) → free_at g'.ar_bitmap u ≡ (not (b == block_of idx u) && free_at g.ar_bitmap u)

-- A null pointer leaves the heap alone, and says that no level from the size's on has a free block.
abbrev pub IsRefusal : DynMem → ℕ → ℕ → DynMem → Type 0
IsRefusal g size addr g' =
    (addr ≡ 0)
    × (g' ≡ g)
    × ((idx : ℕ)
        → level_of (ceil_uint32 size unit_size) ≡ some idx
        → (u : ℕ) → free_at (drop idx g.ar_bitmap) u ≡ false)

abbrev pub IsAnswer : DynMem → ℕ → Option (ℕ × DynMem) → Type 0
IsAnswer g size none = ⊥
IsAnswer g size (some (addr, g')) =
    IsRefusal g size addr g' ⊎ ((idx : ℕ) × (b : ℕ) × IsGrant g size idx b addr g')

drop_all {ℓ} : {A : Type ℓ} (n : ℕ) (xs : List A) → length xs ≤ n → drop n xs ≡ []
drop_all zero [] h = refl
drop_all zero (x ∷ xs) h = absurd (omega arith)
drop_all (suc n) [] h = refl
drop_all (suc n) (x ∷ xs) h = drop_all n xs (omega arith)

pub zero_test : (n : ℕ) → 0 < n → (n == 0) ≡ false
zero_test n h = ground arith

module _ (g : DynMem) (heap : IsHeap g) (size idx : ℕ) (i20 : idx < 20)
    (level : level_of (ceil_uint32 size unit_size) ≡ some idx) (holds : size ≤ block_size idx)
    (fits : idx < g.bitmap_level) where
  fits' : idx ≤ length g.ar_bitmap
  fits' = omega (arith, heap.levels)

  new_heap : List BuddyBitmap → DynMem
  new_heap ms = record g {
    used_size = add32 g.used_size (ceil_uint32 size unit_size);
    ar_bitmap = take idx g.ar_bitmap ++ ms;
  }

  -- The block's end in units of 4096 bytes.
  block_size-pos : (i : ℕ) → i < 20 → 0 < block_size i
  block_size-pos i h = rw (block_size-eq i h) (omega (arith, one-le-pow i 2 (omega arith)))

  end-le :
      (b : ℕ)
      → b < block_of idx g.count_of_unit_block
      → b * block_size idx + block_size idx ≤ g.count_of_unit_block * unit_size
  end-le b h =
      rw (block_size-eq idx i20) (omega (arith, block_of-inside idx b g.count_of_unit_block h))

  taken-IsGrant :
      (b : ℕ) (ms : List BuddyBitmap)
      → IsTaken (block_of idx g.count_of_unit_block) (drop idx g.ar_bitmap) b ms
      → IsGrant g size idx b ((g.begin_addr + b * block_size idx) % 2 ^ 32) (new_heap ms)
  unfolding new_heap
  taken-IsGrant b ms t =
      let end = end-le b t.below in
      let n = g.count_of_unit_block in
      let no_wrap : (g.begin_addr + b * block_size idx) % 2 ^ 32
          ≡ g.begin_addr + b * block_size idx =
        mod-eq_of_lt (omega (arith, end, heap.top, heap.small, block_size-pos idx i20)) in
      let all = Heap.free_at-all n idx g.ar_bitmap heap.shape heap.apart fits' in
      let low = Heap.low_apart n idx g.ar_bitmap heap.shape heap.apart fits' in
      let cut = Heap.free_at-split n idx g.ar_bitmap heap.shape heap.apart fits' ms in
      record {
        level = level;
        in_levels = fits;
        holds = holds;
        address = no_wrap;
        below = t.below;
        within = rw no_wrap (omega (arith, end));
        heap = record {
          shape = Heap.replace-IsLevels n idx g.ar_bitmap heap.shape heap.apart fits' ms t.shape;
          apart =
              Heap.replace-Disjoint n idx g.ar_bitmap heap.shape heap.apart fits' ms t.apart
                (λ u e. ground (arith, t.rest (block_of idx u), low u e));
          levels =
              heap.levels
              ∙ sym (
                  Heap.length-replace n idx g.ar_bitmap heap.shape heap.apart fits' ms (
                    Heap.IsLevels-length (block_of idx n) ms (drop idx g.ar_bitmap) t.shape
                      (Heap.high-IsLevels n idx g.ar_bitmap heap.shape heap.apart fits')));
          not_null = heap.not_null;
          aligned = heap.aligned;
          top = heap.top;
          small = heap.small;
        };
        used = refl;
        begin_same = refl;
        dyn_same = refl;
        levels_same = refl;
        count_same = refl;
        was_free = λ u e. rw (all u, e, t.was_free) (or_true _);
        rest = λ u. ground (arith, cut u, t.rest (block_of idx u), all u, low u, t.was_free);
      }

  finish-IsAnswer :
      (o : Outcome)
      → IsAllocated (block_of idx g.count_of_unit_block) (drop idx g.ar_bitmap) o
      → IsAnswer g size (finish g (ceil_uint32 size unit_size) idx o)
  unfolding finish new_heap
  finish-IsAnswer no_block h = inl (
    refl,
    refl,
    λ i e u. let q : idx ≡ i = cc in subst (λ k. free_at (drop k g.ar_bitmap) u ≡ false) q (h u),
  )
  finish-IsAnswer ran_off h = h
  finish-IsAnswer (block_at b ms) h = inr (idx, b, taken-IsGrant b ms h)

-- On a heap that satisfies the invariant and for a size from 1 byte to 2 GiB, `ckDynMemAllocate`
-- returns. Either it answers the null pointer, leaves the heap alone and no block of the size's
-- level or a larger one is free, or it answers the address of a block that is large enough, lies
-- in the managed range and was free; then every other unit is as free as before, the used size
-- grows by the size rounded up to pages, and the invariant is kept.
pub allocate-IsAnswer :
    {g : DynMem} (size : ℕ)
    → IsHeap g
    → 0 < size
    → size ≤ 2 ^ 31
    → IsAnswer g size (allocate size g)
unfolding allocate
allocate-IsAnswer {g} size heap pos le =
    let (ce, top) = ceil_le size le in
    let (idx, e, i19, holds) = level_of_total (ceil_uint32 size unit_size) top in
    elim (Bool-cases (leb g.bitmap_level idx)) [
      | inl out ↦
          rw (zero_test size pos, e, out)
            (inl (
              refl,
              refl,
              λ i f u.
                  let q : idx ≡ i = cc in
                  subst (λ k. free_at (drop k g.ar_bitmap) u ≡ false) q
                    (ap (λ l. free_at l u)
                      (drop_all idx g.ar_bitmap (ground (arith, heap.levels)))),
            ))
      | inr fits ↦
          rw (zero_test size pos, e, fits)
            (finish-IsAnswer g heap size idx (omega arith) e (omega (arith, holds)) (ground arith)
              (allocate_block (drop idx g.ar_bitmap))
              (allocate_block-IsAllocated (block_of idx g.count_of_unit_block)
                (drop idx g.ar_bitmap)
                (Heap.high-IsLevels g.count_of_unit_block idx g.ar_bitmap heap.shape heap.apart
                  (ground (arith, heap.levels)))
                (Heap.high-Disjoint g.count_of_unit_block idx g.ar_bitmap heap.shape heap.apart
                  (ground (arith, heap.levels)))))
    ]

-- For a size above 2 GiB and at most 2^32 - 4096, `ckDynMemAllocate` does not find a level by
-- shifts of fewer than 32 bits: no block size reaches the size, so its level loop goes on.
pub allocate_endless :
    (g : DynMem) (size : ℕ) → 2 ^ 31 < size → size ≤ 2 ^ 32 - unit_size → allocate size g ≡ none
unfolding allocate
allocate_endless g size h k =
    rw
      (
        zero_test size (omega arith),
        level_of_endless (ceil_uint32 size unit_size) (ceil_large size h k),
      )
      refl
