-- ===== src/Memory/Start.antt =====
-- The allocator after `ckDynMemInitialize`: well-formed, with every unit free.
use Prim.Native.Nat.{bit_or, bit_or-bitwise, bit_and-bitwise}
use mathlib.Core.Path.{ap₂}
use native.Mathlib.Nat.{pow-suc}
use clubcos.Memory.Bitmap.{BuddyBitmap, get_bit, bit_set_1, mask}
use clubcos.Count.{count_below-none}
use clubcos.Memory.Level.{IsLevel, mark, mark-IsLevel, get_bit-mark}
use clubcos.Memory.Levels.{IsLevels, free_at, Disjoint}
use clubcos.Memory.Dyn.{DynMem, unit_size, dyn_memory_start, ceil_uint32}
use clubcos.Memory.Heap.{IsHeap}
use clubcos.Memory.Init.{bytes_for, metadata_end, level_init, levels_init, units_of, initialize}
use clubcos.Prelude.{
  ℕ, zero, suc, ◌+◌, ◌-◌, ◌*◌, ◌/◌, ◌%◌, ◌^◌, ◌≤◌, ◌<◌, ◌≡◌, refl, sym, ap, ◌∙◌, inl, inr, Bool,
  true, false, not, ◌&&◌, ◌||◌, some, List, [], ◌∷◌, arith, ltb, ◌==◌, ==_iff, Bool-cases, set,
  get_or, replicate, length-replicate, add32, sub32, all_below, all_below_sound,
}

get_or-replicate : (n k : ℕ) → get_or {A = ℕ} (replicate n 0) k 0 ≡ 0
get_or-replicate zero k = refl
get_or-replicate (suc n) zero = refl
get_or-replicate (suc n) (suc k) = get_or-replicate n k

abbrev zero_level : ℕ → BuddyBitmap
zero_level n = record { bits = replicate n 0; count = 0 }

get_bit-zero : (n j : ℕ) → get_bit (replicate n 0) j ≡ false
unfolding get_bit
get_bit-zero n j = rw (get_or-replicate n (j / 8), bit_and-bitwise 0 (mask j)) refl

zero_level-IsLevel : (sz : ℕ) → 0 < sz → sz < 2 ^ 24 → IsLevel sz (zero_level (bytes_for sz))
zero_level-IsLevel sz pos lt =
    let len = length-replicate {A = ℕ} (bytes_for sz) 0 in
    record {
      bytes = λ k. rw (get_or-replicate (bytes_for sz) k) (omega arith);
      wide = rw len (omega arith);
      small = rw len (omega arith);
      inside = λ i h. ground (arith, get_bit-zero (bytes_for sz) i);
      counted = sym (count_below-none _ _ (get_bit-zero (bytes_for sz)));
    }

power_table : all_below 8 (λ k. 2 ^ k % 2 ^ 8 == 2 ^ k) ≡ true
unfolding all_below
power_table = refl

small_power : (k : ℕ) → k < 8 → 2 ^ k % 2 ^ 8 ≡ 2 ^ k
small_power k h = (==_iff _ _).0 (all_below_sound 8 _ k power_table h)

-- The last byte of an odd level is written as the bit of the last block would be.
level_init-odd :
    (sz : ℕ)
    → 0 < sz
    → (sz % 2 == 0) ≡ false
    → level_init sz ≡ mark (zero_level (bytes_for sz)) (sz - 1)
unfolding level_init mark bit_set_1
level_init-odd sz pos odd = rw odd (ap (λ b. record { bits = b; count = 1 }) bits_eq)
  where
    word :
        bit_or (get_or (replicate (bytes_for sz) 0) ((sz - 1) / 8) 0) (mask (sz - 1))
        ≡ 2 ^ (sz % 8 - 1) % 2 ^ 8
    word =
        let e : (sz - 1) % 8 ≡ sz % 8 - 1 = ground arith in
        rw (get_or-replicate (bytes_for sz) ((sz - 1) / 8), e)
          (bit_or-bitwise 0 _ ∙ sym (small_power (sz % 8 - 1) (omega arith)))

    place : (sz - 1) / 8 ≡ bytes_for sz - 1
    place = omega arith

    bits_eq :
        set (replicate (bytes_for sz) 0) (bytes_for sz - 1) (2 ^ (sz % 8 - 1) % 2 ^ 8)
        ≡ set
            (replicate (bytes_for sz) 0)
            ((sz - 1) / 8)
            (bit_or (get_or (replicate (bytes_for sz) 0) ((sz - 1) / 8) 0) (mask (sz - 1)))
    bits_eq = sym (ap₂ (set (replicate (bytes_for sz) 0)) place word)

level_init-even : (sz : ℕ) → (sz % 2 == 0) ≡ true → level_init sz ≡ zero_level (bytes_for sz)
unfolding level_init
level_init-even sz even = rw even refl

or_false : (b : Bool) → (b || false) ≡ b
or_false true = refl
or_false false = refl

half_lt : (k sz : ℕ) → sz < 2 ^ suc k → sz / 2 < 2 ^ k
half_lt k sz h = let h' : sz < 2 ^ k * 2 = rw pow-suc at h in omega arith

-- What the second loop builds.
pub record IsStart (sz : ℕ) (ms : List BuddyBitmap) : Type 0 where
  pub shape : IsLevels sz ms
  pub apart : Disjoint ms
  pub all_free : (u : ℕ) → free_at ms u ≡ ltb u sz

module _ (sz : ℕ) (pos : 0 < sz) (lt : sz < 2 ^ 24) where
  -- The bits of a new level.
  new_bits : (j : ℕ) → get_bit (level_init sz).bits j ≡ (not (sz % 2 == 0) && (sz - 1 == j))
  new_bits j = elim (Bool-cases (sz % 2 == 0)) [
    | inl e ↦ rw (level_init-even sz e, get_bit-zero (bytes_for sz) j, e) refl
    | inr e ↦
        rw
          (
            level_init-odd sz pos e,
            get_bit-mark sz _ (zero_level-IsLevel sz pos lt) (sz - 1) (omega arith) j,
            get_bit-zero (bytes_for sz) j,
            e,
          )
          (or_false _)
  ]

  new_IsLevel : IsLevel sz (level_init sz)
  new_IsLevel = elim (Bool-cases (sz % 2 == 0)) [
    | inl e ↦ rw (level_init-even sz e) (zero_level-IsLevel sz pos lt)
    | inr e ↦ rw (level_init-odd sz pos e) (
        mark-IsLevel sz _ (zero_level-IsLevel sz pos lt) (sz - 1) (omega arith)
          (get_bit-zero (bytes_for sz) (sz - 1)))
  ]

  pub cons-IsStart : (ms : List BuddyBitmap) → IsStart (sz / 2) ms → IsStart sz (level_init sz ∷ ms)
  cons-IsStart ms h = record {
    shape = (pos, new_IsLevel, h.shape);
    apart = (λ u k. ground (arith, new_bits u, h.all_free (u / 2)), h.apart);
    all_free = λ u. ground (arith, new_bits u, h.all_free (u / 2));
  }

pub nil-IsStart : IsStart 0 []
nil-IsStart = record { shape = refl; apart = tt; all_free = λ u. ground arith }

-- The second loop ends within its fuel.
levels_init-IsStart :
    (k sz : ℕ)
    → 0 < sz
    → sz < 2 ^ k
    → sz < 2 ^ 24
    → (ms : List BuddyBitmap) × (levels_init k sz ≡ some ms) × IsStart sz ms
unfolding levels_init
levels_init-IsStart zero sz pos fuel lt = absurd (omega arith)
levels_init-IsStart (suc k) sz pos fuel lt = elim (Bool-cases (sz == 1)) [
  | inl one ↦ (
    level_init sz ∷ [],
    rw one refl,
    cons-IsStart sz pos lt [] (let q : sz / 2 ≡ 0 = ground arith in rw q nil-IsStart),
  )
  | inr more ↦
      let (ms, e, h) =
        levels_init-IsStart k (sz / 2) (ground arith) (half_lt k sz fuel) (omega arith) in
      (level_init sz ∷ ms, rw (more, e) refl, cons-IsStart sz pos lt ms h)
]

-- The first loop ends, and a level of `sz` blocks and those above it take at most `20 * sz` bytes.
metadata_end-le :
    (k sz b : ℕ)
    → 0 < sz
    → sz < 2 ^ k
    → b + 20 * sz < 2 ^ 32
    → (r : ℕ) × (metadata_end k sz b ≡ some r) × (b ≤ r) × (r ≤ b + 20 * sz)
unfolding metadata_end
metadata_end-le zero sz b pos fuel room = absurd (omega arith)
metadata_end-le (suc k) sz b pos fuel room = elim (Bool-cases (sz == 1)) [
  | inl one ↦ (add32 b (8 + bytes_for sz), rw one refl, omega arith, omega arith)
  | inr more ↦
      let next = add32 b (8 + bytes_for sz) in
      let two : 2 ≤ sz = ground arith in
      let (r, e, lo, hi) =
        metadata_end-le k (sz / 2) next (omega arith) (half_lt k sz fuel) (omega arith) in
      (r, rw (more, e) refl, omega arith, omega arith)
]

ceil_bounds :
    (r : ℕ)
    → r + 4095 < 2 ^ 32
    → (r ≤ ceil_uint32 r unit_size)
      × (ceil_uint32 r unit_size < r + 4096)
      × (ceil_uint32 r unit_size % unit_size ≡ 0)
unfolding ceil_uint32
ceil_bounds r h = omega arith

units_of-exact :
    (size : ℕ) → 0 < size → size < 2 ^ 32 → size % unit_size ≡ 0 → units_of size * unit_size ≡ size
units_of-exact size pos lt al = omega arith

-- `ckDynMemInitialize`, for a memory of whole pages from 1 MiB on that ends below 4 GiB: both
-- loops end, the invariant holds, every unit is free, nothing is counted as used, and metadata and
-- units together fill the memory exactly.
pub initialize-IsHeap :
    (size : ℕ)
    → 2 ^ 20 ≤ size
    → size % unit_size ≡ 0
    → dyn_memory_start + size < 2 ^ 32
    → (g : DynMem) × (initialize size ≡ some g)
      × IsHeap g
      × (g.used_size ≡ 0)
      × (g.dyn_mem_size ≡ size)
      × (g.begin_addr + g.count_of_unit_block * unit_size ≡ dyn_memory_start + size)
      × ((u : ℕ) → free_at g.ar_bitmap u ≡ ltb u g.count_of_unit_block)
unfolding initialize
initialize-IsHeap size big al top =
    let (r, e, lo, hi) =
      metadata_end-le 32 (units_of size) dyn_memory_start (omega arith) (omega arith)
        (omega arith) in
    let (c_lo, c_hi, c_al) = ceil_bounds r (omega arith) in
    let begin = ceil_uint32 r unit_size in
    let rest = sub32 size (sub32 begin dyn_memory_start) in
    let rest-eq : rest + begin ≡ dyn_memory_start + size = omega arith in
    let whole = units_of-exact rest (omega arith) (omega arith) (omega arith) in
    let (ms, f, h) =
      levels_init-IsStart 32 (units_of rest) (omega arith) (omega arith) (omega arith) in
    (
      _,
      rw (e, f) refl,
      record {
        shape = h.shape;
        apart = h.apart;
        levels = refl;
        not_null = omega arith;
        aligned = c_al;
        top = omega arith;
        small = omega arith;
      },
      refl,
      refl,
      omega arith,
      h.all_free,
    )
