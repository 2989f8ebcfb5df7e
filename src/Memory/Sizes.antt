-- ===== src/Memory/Sizes.antt =====
-- The level that a size asks for.
use clubcos.Memory.Dyn.{level_from, level_of, block_size, unit_size, ceil_uint32}
use clubcos.Prelude.{
  ℕ, zero, suc, ◌+◌, ◌-◌, ◌*◌, ◌^◌, ◌≤◌, ◌<◌, ◌≡◌, refl, ap, inl, inr, true, none, some, arith, ltb,
  leb, ◌==◌, ==_iff, Bool-cases, all_below, all_below_sound,
}

-- Up to half of the address space a shift loses nothing.
shift_table : all_below 20 (λ i. block_size i == unit_size * 2 ^ i) ≡ true
unfolding all_below
shift_table = refl

pub block_size-eq : (i : ℕ) → i < 20 → block_size i ≡ unit_size * 2 ^ i
block_size-eq i h = (==_iff _ _).0 (all_below_sound 20 _ i shift_table h)

bound_table : all_below 32 (λ i. leb (block_size i) (2 ^ 31)) ≡ true
unfolding all_below
bound_table = refl

level_from_total :
    (k idx size : ℕ)
    → size ≤ 2 ^ 31
    → idx ≤ 19
    → 20 ≤ idx + k
    → (r : ℕ) × (level_from k idx size ≡ some r) × (r ≤ 19) × (size ≤ block_size r)
unfolding level_from
level_from_total zero idx size s i f = absurd (omega arith)
level_from_total (suc k) idx size s i f = elim (Bool-cases (ltb (block_size idx) size)) [
  | inl more ↦ elim (Bool-cases (idx == 19)) [
    | inl last ↦ absurd (
        let top : block_size idx ≡ 2 ^ 31 = ap block_size ((==_iff idx 19).0 last) in
        ground (arith, top))
    | inr low ↦ rw more (level_from_total k (idx + 1) size s (ground arith) (omega arith))
  ]
  | inr done ↦ (idx, rw done refl, i, ground arith)
]

-- Up to half of the address space the loop ends, at a level whose blocks hold the size.
pub level_of_total :
    (size : ℕ)
    → size ≤ 2 ^ 31
    → (r : ℕ) × (level_of size ≡ some r) × (r ≤ 19) × (size ≤ block_size r)
unfolding level_of
level_of_total size s = level_from_total 32 0 size s (omega arith) (omega arith)

level_from_endless : (k idx size : ℕ) → 2 ^ 31 < size → idx + k ≤ 32 → level_from k idx size ≡ none
unfolding level_from
level_from_endless zero idx size s f = refl
level_from_endless (suc k) idx size s f =
    let small =
      all_below_sound 32 (λ i. leb (block_size i) (2 ^ 31)) idx bound_table (omega arith) in
    let more : ltb (block_size idx) size ≡ true = ground (arith, small) in
    rw more (level_from_endless k (idx + 1) size s (omega arith))

pub level_of_endless : (size : ℕ) → 2 ^ 31 < size → level_of size ≡ none
unfolding level_of
level_of_endless size s = level_from_endless 32 0 size s (omega arith)

pub ceil_le :
    (size : ℕ)
    → size ≤ 2 ^ 31
    → (size ≤ ceil_uint32 size unit_size) × (ceil_uint32 size unit_size ≤ 2 ^ 31)
unfolding ceil_uint32
ceil_le size h = omega arith

pub ceil_large :
    (size : ℕ) → 2 ^ 31 < size → size ≤ 2 ^ 32 - unit_size → 2 ^ 31 < ceil_uint32 size unit_size
unfolding ceil_uint32
ceil_large size h k = omega arith

pub ceil_wraps :
    (size : ℕ) → 2 ^ 32 - unit_size < size → size < 2 ^ 32 → ceil_uint32 size unit_size ≡ 0
unfolding ceil_uint32
ceil_wraps size h k = omega arith
