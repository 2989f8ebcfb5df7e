-- ===== src/Memory/Dyn.antt =====
-- `DynMemStruct` with `ckDynMemAllocate` and `ckDynMemFree`. `INTERRUPT_LOCK` makes each of them one
-- step for the other tasks.
use clubcos.Memory.Bitmap.{BuddyBitmap, get_bit}
use clubcos.Memory.Alloc.{Outcome, no_block, ran_off, block_at, allocate_block}
use clubcos.Memory.Release.{release_block}
use clubcos.Prelude.{
  ℕ, zero, suc, ◌+◌, ◌-◌, ◌*◌, ◌/◌, ◌%◌, ◌^◌, Bool, true, false, ◌||◌, Option, none, some, List, [],
  ◌∷◌, ◌++◌, ltb, leb, ◌==◌, if◌then◌else◌, take, drop, add32, sub32,
}

pub record DynMem : Type 0 where
  pub dyn_mem_size : ℕ
  pub begin_addr : ℕ
  pub used_size : ℕ
  pub count_of_unit_block : ℕ
  pub bitmap_level : ℕ
  pub ar_bitmap : List BuddyBitmap

abbrev pub unit_size : ℕ
unit_size = 4096

abbrev pub dyn_memory_start : ℕ
dyn_memory_start = 0x0010_0000

-- `_ceil_uint32(num, DYN_MEM_BUDDY_UNIT_SIZE)`
unfoldable pub ceil_uint32 : ℕ → ℕ → ℕ
ceil_uint32 num base = ((num + base - 1) % 2 ^ 32 / base * base) % 2 ^ 32

-- `DYN_MEM_BUDDY_UNIT_SIZE << idx`
abbrev pub block_size : ℕ → ℕ
block_size idx = (unit_size * 2 ^ idx) % 2 ^ 32

-- `for (idx = 0; block_size < size; idx++) { }`, for as long as the shift is defined: `none` means
-- that the loop has not ended when `idx` reaches the width of the word.
unfoldable pub level_from : ℕ → ℕ → ℕ → Option ℕ
level_from zero idx size = none
level_from (suc k) idx size =
    let rest = level_from k (idx + 1) size in if ltb (block_size idx) size then rest else some idx

unfoldable pub level_of : ℕ → Option ℕ
unfolding level_from
level_of size = level_from 32 0 size

-- The end of an allocation. The address 0 is the null pointer, `none` a run that does not return.
unfoldable pub finish : DynMem → ℕ → ℕ → Outcome → Option (ℕ × DynMem)
finish g size idx no_block = some (0, g)
finish g size idx ran_off = none
finish g size idx (block_at block ms) = some (
  (g.begin_addr + block * block_size idx) % 2 ^ 32,
  record g { used_size = add32 g.used_size size; ar_bitmap = take idx g.ar_bitmap ++ ms },
)

unfoldable pub allocate : ℕ → DynMem → Option (ℕ × DynMem)
unfolding finish
allocate size g = if size == 0 then some (0, g) else elim (level_of (ceil_uint32 size unit_size)) [
  | none ↦ none
  | some idx ↦
      if leb g.bitmap_level idx
      then some (0, g)
      else finish g (ceil_uint32 size unit_size) idx (allocate_block (drop idx g.ar_bitmap))
]

-- The bit of a block at a level; `false` above the last level.
unfoldable pub bit_at : List BuddyBitmap → ℕ → Bool
bit_at [] block = false
bit_at (m ∷ ms) block = get_bit m.bits block

-- The block of level `idx` in which an address lies, after the rounding down.
unfoldable pub block_at_addr : DynMem → ℕ → ℕ → ℕ
block_at_addr g addr idx = sub32 (addr / unit_size * unit_size) g.begin_addr / block_size idx

-- `none` is the failed assertion (a panic), or a level loop that does not end.
unfoldable pub free : ℕ → ℕ → DynMem → Option (Bool × DynMem)
unfolding bit_at block_at_addr
free addr size g =
    if size == 0
    then some (false, g)
    else if ltb addr g.begin_addr || ltb (add32 dyn_memory_start g.dyn_mem_size) addr
    then some (false, g)
    else elim (level_of (ceil_uint32 size unit_size)) [
      | none ↦ none
      | some idx ↦
          if leb g.bitmap_level idx
          then some (false, g)
          else if bit_at (drop idx g.ar_bitmap) (block_at_addr g addr idx)
          then none
          else some (
            true,
            record g {
              used_size = sub32 g.used_size (ceil_uint32 size unit_size);
              ar_bitmap =
                  take idx g.ar_bitmap
                  ++ release_block (drop idx g.ar_bitmap) (block_at_addr g addr idx);
            },
          )
    ]
