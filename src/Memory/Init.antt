-- ===== src/Memory/Init.antt =====
-- `ckDynMemInitialize`. Where the bitmaps lie is left out: they are arrays of their own.
use clubcos.Memory.Bitmap.{BuddyBitmap}
use clubcos.Memory.Dyn.{DynMem, unit_size, dyn_memory_start, ceil_uint32}
use clubcos.Prelude.{
  ℕ, zero, suc, ◌+◌, ◌-◌, ◌/◌, ◌%◌, ◌^◌, Option, none, some, List, [], ◌∷◌, ◌==◌, if◌then◌else◌,
  length, set, replicate, add32, sub32,
}

-- `(sz - 1) / 8 + 1`, for `sz` from 1 on.
abbrev pub bytes_for : ℕ → ℕ
bytes_for sz = (sz - 1) / 8 + 1

-- The first loop: the end of the metadata of the levels from `sz` blocks on. Each level has a
-- `BuddyBitmap` of 8 bytes. It runs on fuel: `sz` is halved in each round.
unfoldable pub metadata_end : ℕ → ℕ → ℕ → Option ℕ
metadata_end zero sz begin = none
metadata_end (suc k) sz begin =
    let next = add32 begin (8 + bytes_for sz) in
    let rest = metadata_end k (sz / 2) next in if sz == 1 then some next else rest

-- One level of the second loop: all blocks are paired, and if their number is odd the last is free.
unfoldable pub level_init : ℕ → BuddyBitmap
level_init sz =
    if sz % 2 == 0 then record { bits = replicate (bytes_for sz) 0; count = 0 } else record {
      bits = set (replicate (bytes_for sz) 0) (bytes_for sz - 1) (2 ^ (sz % 8 - 1) % 2 ^ 8);
      count = 1;
    }

cons_level : BuddyBitmap → Option (List BuddyBitmap) → Option (List BuddyBitmap)
cons_level m none = none
cons_level m (some ms) = some (m ∷ ms)

-- The second loop, on fuel.
unfoldable pub levels_init : ℕ → ℕ → Option (List BuddyBitmap)
unfolding cons_level
levels_init zero sz = none
levels_init (suc k) sz =
    let rest = cons_level (level_init sz) (levels_init k (sz / 2)) in
    if sz == 1 then some (level_init sz ∷ []) else rest

-- `(size - 1) / DYN_MEM_BUDDY_UNIT_SIZE + 1`
abbrev pub units_of : ℕ → ℕ
units_of size = sub32 size 1 / unit_size + 1

initialize_at : ℕ → ℕ → Option (List BuddyBitmap) → Option DynMem
initialize_at size begin none = none
initialize_at size begin (some ms) = some (record {
  dyn_mem_size = size;
  begin_addr = begin;
  used_size = 0;
  count_of_unit_block = units_of (sub32 size (sub32 begin dyn_memory_start));
  bitmap_level = length ms;
  ar_bitmap = ms;
})

initialize_from : ℕ → Option ℕ → Option DynMem
unfolding initialize_at
initialize_from size none = none
initialize_from size (some end) =
    let begin = ceil_uint32 end unit_size in
    initialize_at size begin (levels_init 32 (units_of (sub32 size (sub32 begin dyn_memory_start))))

-- `size` is what `ckDynMemCheckSize` has left in `g_DynMem.DynMemSize`.
unfoldable pub initialize : ℕ → Option DynMem
unfolding initialize_from
initialize size = initialize_from size (metadata_end 32 (units_of size) dyn_memory_start)
