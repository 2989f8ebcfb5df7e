-- ===== src/Memory/Reuse.antt =====
-- `ckDynMemFree`: what it does to the free units, and that it undoes an allocation.
use mathlib.Core.Path.{subst}
use native.Mathlib.Nat.{mul-div_cancel, one-le-pow, pow-suc}
use clubcos.Memory.Bitmap.{BuddyBitmap}
use clubcos.Memory.Levels.{free_at, block_of}
use clubcos.Memory.Release.{release_block, IsReleased, release_block-IsReleased}
use clubcos.Memory.Dyn.{
  DynMem, unit_size, dyn_memory_start, block_size, ceil_uint32, level_of, allocate, free, bit_at,
  block_at_addr,
}
use clubcos.Memory.Sizes.{level_of_total, ceil_le, block_size-eq}
use clubcos.Memory.Heap
use clubcos.Memory.Heap.{IsHeap, block_of-inside}
use clubcos.Memory.Grant.{IsGrant, IsAnswer, allocate-IsAnswer, zero_test}
use clubcos.Prelude.{
  ℕ, zero, suc, ◌+◌, ◌*◌, ◌/◌, ◌%◌, ◌^◌, ◌≤◌, ◌<◌, ◌≡◌, refl, sym, ap, ◌∙◌, ◌≢◌, inl, inr, true,
  false, ◌||◌, some, List, [], ◌∷◌, ◌++◌, arith, ltb, leb, ◌==◌, length, take, drop, add32, sub32,
}

-- The first unit of a block.
block_of-first : (k b : ℕ) → block_of k (b * 2 ^ k) ≡ b
block_of-first zero b = omega arith
block_of-first (suc k) b =
    let e : b * 2 ^ suc k / 2 ≡ b * 2 ^ k = rw (pow-suc 2 k) (omega arith) in
    rw e (block_of-first k b)

place_arith :
    (a b p : ℕ)
    → a % unit_size ≡ 0
    → 0 < p
    → a + b * (unit_size * p) < 2 ^ 32
    → sub32 ((a + b * (unit_size * p)) / unit_size * unit_size) a / (unit_size * p) ≡ b
place_arith a b p al pos lt =
    let e : sub32 ((a + b * (unit_size * p)) / unit_size * unit_size) a ≡ b * (unit_size * p) =
      omega arith in
    rw e (mul-div_cancel b (omega arith))

bit_at-false : (ms : List BuddyBitmap) (b : ℕ) → free_at ms b ≡ false → bit_at ms b ≡ false
unfolding bit_at
bit_at-false [] b h = refl
bit_at-false (m ∷ ms) b h = ground arith

module _ (g : DynMem) (heap : IsHeap g) (size idx b : ℕ) (pos : 0 < size) (le : size ≤ 2 ^ 31)
    (level : level_of (ceil_uint32 size unit_size) ≡ some idx) (fits : idx < g.bitmap_level)
    (below : b < block_of idx g.count_of_unit_block)
    (live : (u : ℕ) → block_of idx u ≡ b → free_at g.ar_bitmap u ≡ false) where
  i20 : idx < 20
  i20 =
      let (r, e, lt, _) = level_of_total (ceil_uint32 size unit_size) (ceil_le size le).1 in
      let q : r ≡ idx = cc in omega arith

  in_list : idx ≤ length g.ar_bitmap
  in_list = omega (arith, heap.levels)

  addr : ℕ
  addr = g.begin_addr + b * block_size idx

  addr-top : addr + block_size idx ≤ g.begin_addr + g.count_of_unit_block * unit_size
  unfolding addr
  addr-top =
      rw (block_size-eq idx i20) (omega (arith, block_of-inside idx b g.count_of_unit_block below))

  block_size_pos : 0 < block_size idx
  block_size_pos = rw (block_size-eq idx i20) (omega (arith, one-le-pow idx 2 (omega arith)))

  in_word : addr < 2 ^ 32 → g.begin_addr + b * block_size idx < 2 ^ 32
  unfolding addr
  in_word h = h

  addr_bounds : (g.begin_addr ≤ addr) × (addr ≤ dyn_memory_start + g.dyn_mem_size)
  unfolding addr
  addr_bounds = (omega arith, omega (arith, addr-top, heap.top))

  addr-place : block_at_addr g addr idx ≡ b
  unfolding addr block_at_addr
  addr-place =
      let top = addr-top in
      let p1 = one-le-pow idx 2 (omega arith) in
      rw (block_size-eq idx i20) (
        place_arith g.begin_addr b (2 ^ idx) heap.aligned p1 (
          rw (block_size-eq idx i20) at
            (in_word (omega (arith, top, heap.top, heap.small, block_size_pos)))))

  high_clear : free_at (drop idx g.ar_bitmap) b ≡ false
  high_clear =
      let all =
        Heap.free_at-all g.count_of_unit_block idx g.ar_bitmap heap.shape heap.apart in_list
          (b * 2 ^ idx) in
      ground (
        arith,
        all,
        live (b * 2 ^ idx) (block_of-first idx b),
        ap (free_at (drop idx g.ar_bitmap)) (block_of-first idx b),
      )

  released :
      IsReleased
        (block_of idx g.count_of_unit_block)
        (drop idx g.ar_bitmap)
        b
        (release_block (drop idx g.ar_bitmap) b)
  released =
      release_block-IsReleased (block_of idx g.count_of_unit_block) (drop idx g.ar_bitmap) b
        (Heap.high-IsLevels g.count_of_unit_block idx g.ar_bitmap heap.shape heap.apart in_list)
        (Heap.high-Disjoint g.count_of_unit_block idx g.ar_bitmap heap.shape heap.apart in_list)
        below high_clear

  after : DynMem
  after = record g {
    used_size = sub32 g.used_size (ceil_uint32 size unit_size);
    ar_bitmap = take idx g.ar_bitmap ++ release_block (drop idx g.ar_bitmap) b;
  }

  free-after : free addr size g ≡ some (true, after)
  unfolding free after
  free-after =
      let inside : (ltb addr g.begin_addr || ltb (add32 dyn_memory_start g.dyn_mem_size) addr)
          ≡ false =
        ground (arith, addr_bounds, heap.small) in
      let levels : leb g.bitmap_level idx ≡ false = ground arith in
      rw (zero_test size pos, inside, level, levels, addr-place, bit_at-false _ b high_clear) refl

  after-rest :
      (u : ℕ) → free_at after.ar_bitmap u ≡ ((b == block_of idx u) || free_at g.ar_bitmap u)
  unfolding after
  after-rest u =
      let n = g.count_of_unit_block in
      ground (
        arith,
        Heap.free_at-split n idx g.ar_bitmap heap.shape heap.apart in_list
            (release_block (drop idx g.ar_bitmap) b) u,
        Heap.free_at-all n idx g.ar_bitmap heap.shape heap.apart in_list u,
        released.rest (block_of idx u),
      )

  after-IsHeap : IsHeap after
  unfolding after
  after-IsHeap =
      let n = g.count_of_unit_block in
      let ms = release_block (drop idx g.ar_bitmap) b in
      let all = Heap.free_at-all n idx g.ar_bitmap heap.shape heap.apart in_list in
      let low = Heap.low_apart n idx g.ar_bitmap heap.shape heap.apart in_list in
      record {
        shape =
            Heap.replace-IsLevels n idx g.ar_bitmap heap.shape heap.apart in_list ms released.shape;
        apart =
            Heap.replace-Disjoint n idx g.ar_bitmap heap.shape heap.apart in_list ms released.apart
              (λ u e. ground (arith, released.rest (block_of idx u), low u e, all u, live u));
        levels =
            heap.levels
            ∙ sym (
                Heap.length-replace n idx g.ar_bitmap heap.shape heap.apart in_list ms (
                  Heap.IsLevels-length (block_of idx n) ms (drop idx g.ar_bitmap) released.shape
                    (Heap.high-IsLevels n idx g.ar_bitmap heap.shape heap.apart in_list)));
        not_null = heap.not_null;
        aligned = heap.aligned;
        top = heap.top;
        small = heap.small;
      }

-- `ckDynMemFree` of a block of the size's level, inside the managed range and with no unit of it
-- free, for a size from 1 byte to 2 GiB on a heap with the invariant: it succeeds, exactly the
-- units of that block become free, the size rounded up to pages is taken off the used size, and
-- the invariant is kept.
pub free-IsHeap :
    {g : DynMem} (size idx b : ℕ)
    → IsHeap g
    → 0 < size
    → size ≤ 2 ^ 31
    → level_of (ceil_uint32 size unit_size) ≡ some idx
    → idx < g.bitmap_level
    → b < block_of idx g.count_of_unit_block
    → ((u : ℕ) → block_of idx u ≡ b → free_at g.ar_bitmap u ≡ false)
    → (g' : DynMem) × (free (g.begin_addr + b * block_size idx) size g ≡ some (true, g'))
      × IsHeap g'
      × (g'.used_size ≡ sub32 g.used_size (ceil_uint32 size unit_size))
      × ((u : ℕ) → free_at g'.ar_bitmap u ≡ ((b == block_of idx u) || free_at g.ar_bitmap u))
unfolding addr after
free-IsHeap {g} size idx b heap pos le level fits below live = (
  after g heap size idx b pos le level fits below live,
  free-after g heap size idx b pos le level fits below live,
  after-IsHeap g heap size idx b pos le level fits below live,
  refl,
  after-rest g heap size idx b pos le level fits below live,
)

-- A grant is given back.
free-grant :
    {g g' : DynMem} (size idx b p : ℕ)
    → IsHeap g
    → 0 < size
    → size ≤ 2 ^ 31
    → g.used_size < 2 ^ 32
    → IsGrant g size idx b p g'
    → (g'' : DynMem) × (free p size g' ≡ some (true, g''))
      × IsHeap g''
      × (g''.used_size ≡ g.used_size)
      × ((u : ℕ) → free_at g''.ar_bitmap u ≡ free_at g.ar_bitmap u)
free-grant {g} {g'} size idx b p heap pos le used t =
    let below : b < block_of idx g'.count_of_unit_block =
      subst (λ n. b < block_of idx n) (sym t.count_same) t.below in
    let (g'', e, heap'', used'', rest'') =
      free-IsHeap {g = g'} size idx b t.heap pos le t.level
        (omega (arith, t.in_levels, t.levels_same)) below (λ u q. ground (arith, t.rest u)) in
    (
      g'',
      subst (λ a. free a size g' ≡ some (true, g''))
          (ap (λ x. x + b * block_size idx) t.begin_same ∙ sym t.address) e,
      heap'',
      omega (arith, used'', t.used, ceil_le size le),
      λ u. ground (arith, rest'' u, t.rest u, t.was_free u),
    )

-- What `ckDynMemAllocate` hands out can be given back. On a heap with the invariant, for a size
-- from 1 byte to 2 GiB and a used size below 2^32: when `ckDynMemAllocate` of the size has
-- returned an address that is not the null pointer, `ckDynMemFree` of that address and size on the
-- heap that it left succeeds, keeps the invariant, and leaves the same units free, and the same
-- size counted, as before the allocation.
pub free-allocate :
    {g : DynMem} (size p : ℕ) (g' : DynMem)
    → IsHeap g
    → 0 < size
    → size ≤ 2 ^ 31
    → g.used_size < 2 ^ 32
    → allocate size g ≡ some (p, g')
    → p ≢ 0
    → (g'' : DynMem) × (free p size g' ≡ some (true, g''))
      × IsHeap g''
      × (g''.used_size ≡ g.used_size)
      × ((u : ℕ) → free_at g''.ar_bitmap u ≡ free_at g.ar_bitmap u)
free-allocate {g} size p g' heap pos le used run granted =
    elim (subst (IsAnswer g size) run (allocate-IsAnswer size heap pos le)) [
      | inl refused ↦ absurd (granted refused.0)
      | inr (idx, b, grant) ↦ free-grant size idx b p heap pos le used grant
    ]
