-- ===== src/Memory/Tests.antt =====
-- Runs of the allocator, and the theorems at a heap of three pages.
use mathlib.Core.Path.{subst}
use clubcos.Memory.Bitmap.{BuddyBitmap, get_bit}
use clubcos.Memory.Levels.{free_at, block_of}
use clubcos.Memory.Alloc.{allocate_block, search_levels, give_back}
use clubcos.Memory.Search.{take_first, memchr_not, lowest}
use clubcos.Memory.Dyn.{
  finish, DynMem, allocate, free, unit_size, dyn_memory_start, ceil_uint32, level_of,
}
use clubcos.Memory.Heap.{IsHeap}
use clubcos.Memory.Grant.{IsAnswer, IsGrant, allocate-IsAnswer, allocate_endless}
use clubcos.Memory.Reuse.{free-IsHeap, free-allocate}
use clubcos.Memory.Init.{levels_init, metadata_end, initialize, level_init}
use clubcos.Memory.Start.{IsStart, nil-IsStart, cons-IsStart, initialize-IsHeap}
use clubcos.Prelude.{
  ℕ, zero, suc, ◌+◌, ◌*◌, ◌^◌, ◌≡◌, refl, inl, inr, true, false, ◌||◌, Option, none, some, List, [],
  ◌∷◌, arith, ltb, ◌==◌,
}

-- Page 2 is free by itself, pages 0 and 1 as a pair.
abbrev levels : List BuddyBitmap
levels = record { bits = 4 ∷ []; count = 1 } ∷ record { bits = 1 ∷ []; count = 1 } ∷ []

abbrev heap : DynMem
heap = record {
  dyn_mem_size = 0x4000;
  begin_addr = 0x10_1000;
  used_size = 0;
  count_of_unit_block = 3;
  bitmap_level = 2;
  ar_bitmap = levels;
}

start : IsStart 3 levels
unfolding level_init
start =
    cons-IsStart 3 (omega arith) (omega arith) _
      (cons-IsStart 1 (omega arith) (omega arith) _ nil-IsStart)

heap-IsHeap : IsHeap heap
heap-IsHeap = record {
  shape = start.shape;
  apart = start.apart;
  levels = refl;
  not_null = omega arith;
  aligned = refl;
  top = omega arith;
  small = omega arith;
}

-- The pair given away.
abbrev pair_taken : DynMem
pair_taken = record heap {
  used_size = 0x2000;
  ar_bitmap = record { bits = 4 ∷ []; count = 1 } ∷ record { bits = 0 ∷ []; count = 0 } ∷ [];
}

allocate_pair : allocate 5000 heap ≡ some (0x10_1000, pair_taken)
unfolding allocate finish ceil_uint32 level_of allocate_block search_levels take_first memchr_not
    lowest give_back
allocate_pair = refl

pages : Option DynMem → ℕ
pages none = 0
pages (some g) = g.count_of_unit_block

initialize_mib : pages (initialize (2 ^ 20)) ≡ 255
unfolding initialize levels_init metadata_end level_init ceil_uint32 pages
initialize_mib = refl

allocate-IsAnswer_example : IsAnswer heap 5000 (allocate 5000 heap)
allocate-IsAnswer_example = allocate-IsAnswer 5000 heap-IsHeap (omega arith) (omega arith)

allocate_endless_example : allocate 0x8000_0001 heap ≡ none
allocate_endless_example = allocate_endless heap 0x8000_0001 (omega arith) (omega arith)

-- The grant of the run above, from the theorem about the answer.
granted :
    IsAnswer heap 5000 (some (0x10_1000, pair_taken))
    → (idx : ℕ) × (b : ℕ) × IsGrant heap 5000 idx b 0x10_1000 pair_taken
granted (inl r) = absurd (omega (arith, r.0))
granted (inr t) = t

grant : (idx : ℕ) × (b : ℕ) × IsGrant heap 5000 idx b 0x10_1000 pair_taken
grant = granted (subst (IsAnswer heap 5000) allocate_pair allocate-IsAnswer_example)

pair_live : (u : ℕ) → block_of 1 u ≡ 0 → free_at pair_taken.ar_bitmap u ≡ false
unfolding get_bit
pair_live zero h = refl
pair_live (suc zero) h = refl
pair_live (suc (suc u)) h = absurd (omega arith)

level_5000 : level_of (ceil_uint32 5000 unit_size) ≡ some 1
unfolding level_of ceil_uint32
level_5000 = refl

free-IsHeap_example :
    (g' : DynMem) × (free 0x10_1000 5000 pair_taken ≡ some (true, g'))
    × IsHeap g'
    × (g'.used_size ≡ 0)
    × ((u : ℕ) → free_at g'.ar_bitmap u ≡ ((0 == block_of 1 u) || free_at pair_taken.ar_bitmap u))
unfolding ceil_uint32
free-IsHeap_example =
    free-IsHeap 5000 1 0 (grant.2.heap) (omega arith) (omega arith) level_5000 (omega arith)
      (omega arith) pair_live

free-allocate_example :
    (g'' : DynMem) × (free 0x10_1000 5000 pair_taken ≡ some (true, g''))
    × IsHeap g''
    × (g''.used_size ≡ 0)
    × ((u : ℕ) → free_at g''.ar_bitmap u ≡ free_at heap.ar_bitmap u)
free-allocate_example =
    free-allocate 5000 0x10_1000 pair_taken heap-IsHeap (omega arith) (omega arith) (omega arith)
      allocate_pair (λ e. absurd (omega (arith, e)))

initialize-IsHeap_example :
    (g : DynMem) × (initialize 0x10_0000 ≡ some g)
    × IsHeap g
    × (g.used_size ≡ 0)
    × (g.dyn_mem_size ≡ 0x10_0000)
    × (g.begin_addr + g.count_of_unit_block * unit_size ≡ dyn_memory_start + 0x10_0000)
    × ((u : ℕ) → free_at g.ar_bitmap u ≡ ltb u g.count_of_unit_block)
initialize-IsHeap_example = initialize-IsHeap 0x10_0000 (omega arith) (omega arith) (omega arith)
