-- ===== src/Memory/Search.antt =====
-- The search for a free block in a level: the scan for a byte that is not zero, then for its lowest
-- bit. Both loops have no bound in the source; `none` means that they run off the bitmap.
use Prim.Native.Nat.{bit_and, bit_and-bitwise}
use clubcos.Memory.Bitmap.{BuddyBitmap, bit_set_0, get_bit}
use clubcos.Memory.Level.{IsLevel, unmark}
use clubcos.Count.{count_below-pos}
use mathlib.Core.Option
use clubcos.Prelude.{
  ℕ, zero, suc, ◌+◌, ◌-◌, ◌*◌, ◌/◌, ◌%◌, ◌^◌, ◌<◌, ◌≡◌, refl, ap, ◌≢◌, inl, inr, Bool, true, not,
  ◌&&◌, Option, none, some, List, [], ◌∷◌, arith, ltb, ◌==◌, if◌then◌else◌, ==_iff, Bool-cases,
  length, set, get_or, sub32, all_below, all_below_sound,
}

-- `_memchr_not_without_size(bits, 0)`, as an index.
unfoldable pub memchr_not : List ℕ → Option ℕ
memchr_not [] = none
memchr_not (b ∷ bs) = let rest = Option.map suc (memchr_not bs) in if b == 0 then rest else some 0

-- `for (num = 0; !(*pb & (1 << num)); num++) { }`, over the eight bits of a byte.
unfoldable pub lowest_from : ℕ → ℕ → ℕ → Option ℕ
lowest_from zero num b = none
lowest_from (suc k) num b =
    let rest = lowest_from k (num + 1) b in if bit_and b (2 ^ num) == 0 then rest else some num

unfoldable pub lowest : ℕ → Option ℕ
unfolding lowest_from
lowest b = lowest_from 8 0 b

-- The block that an allocation takes from a level, and the level without it.
unfoldable pub take_first : BuddyBitmap → Option (ℕ × BuddyBitmap)
take_first m = elim (memchr_not m.bits) [
  | none ↦ none
  | some i ↦ elim (lowest (get_or m.bits i 0)) [
    | none ↦ none
    | some num ↦ some (
      i * 8 + num,
      record {
        bits = set m.bits i (bit_and (get_or m.bits i 0) (255 - 2 ^ num));
        count = sub32 m.count 1;
      },
    )
  ]
]

lowest_check : ℕ → Option ℕ → Bool
lowest_check b none = b == 0
lowest_check b (some n) = ltb n 8 && not (bit_and b (2 ^ n) == 0)

lowest_table : all_below 256 (λ b. lowest_check b (lowest b)) ≡ true
unfolding all_below lowest lowest_check
lowest_table = refl

lowest_lem :
    (b : ℕ)
    → b < 256
    → b ≢ 0
    → (n : ℕ) × (lowest b ≡ some n) × (n < 8) × (not (bit_and b (2 ^ n) == 0) ≡ true)
unfolding lowest_check
lowest_lem b lt ne = go (lowest b) refl (all_below_sound 256 _ b lowest_table lt)
  where
    go :
        (o : Option ℕ)
        → lowest b ≡ o
        → lowest_check b o ≡ true
        → (n : ℕ) × (lowest b ≡ some n) × (n < 8) × (not (bit_and b (2 ^ n) == 0) ≡ true)
    go none e c = absurd (ne (ground arith))
    go (some n) e c = (n, e, ground arith, ground arith)

nonzero_tail :
    (b : ℕ) (bs : List ℕ) (k : ℕ) → get_or (b ∷ bs) k 0 ≢ 0 → b ≡ 0 → get_or bs (k - 1) 0 ≢ 0
nonzero_tail b bs zero h e = absurd (h e)
nonzero_tail b bs (suc k) h e = let q : suc k - 1 ≡ k = omega arith in rw q h

memchr_not_lem :
    (bits : List ℕ) (k : ℕ)
    → get_or bits k 0 ≢ 0
    → (i : ℕ) × (memchr_not bits ≡ some i) × (get_or bits i 0 ≢ 0) × (i < length bits)
unfolding memchr_not
memchr_not_lem [] k h = absurd (h refl)
memchr_not_lem (b ∷ bs) k h = elim (Bool-cases (b == 0)) [
  | inl e ↦
      let (i, f, g, l) = memchr_not_lem bs (k - 1) (nonzero_tail b bs k h ((==_iff b 0).0 e)) in
      (suc i, rw (e, f) refl, g, omega arith)
  | inr e ↦ (0, rw e refl, ground arith, omega arith)
]

byte_of_bit : (bits : List ℕ) (j : ℕ) → get_bit bits j ≡ true → get_or bits (j / 8) 0 ≢ 0
unfolding get_bit
byte_of_bit bits j h e =
    ground (arith, bit_and-bitwise 0 (2 ^ (j % 8)), ap (λ b. bit_and b (2 ^ (j % 8))) e)

place_div : (i k : ℕ) → k < 8 → (i * 8 + k) / 8 ≡ i
place_div i k h = omega arith

place_mod : (i k : ℕ) → k < 8 → (i * 8 + k) % 8 ≡ k
place_mod i k h = omega arith

take_first_at :
    (m : BuddyBitmap) (i k : ℕ)
    → memchr_not m.bits ≡ some i
    → lowest (get_or m.bits i 0) ≡ some k
    → k < 8
    → take_first m ≡ some (i * 8 + k, unmark m (i * 8 + k))
unfolding take_first unmark bit_set_0
take_first_at m i k e f h = rw (e, take_first) (rw (f, place_div i k h, place_mod i k h) refl)

bit_at :
    (bits : List ℕ) (i k : ℕ)
    → k < 8
    → not (bit_and (get_or bits i 0) (2 ^ k) == 0) ≡ true
    → get_bit bits (i * 8 + k) ≡ true
unfolding get_bit
bit_at bits i k h e = rw (place_div i k h, place_mod i k h) e

-- The search succeeds in a level that counts a free block, and takes one that is free.
pub take_first_lem :
    (n : ℕ) (m : BuddyBitmap)
    → IsLevel n m
    → 0 < m.count
    → (i : ℕ) × (take_first m ≡ some (i, unmark m i)) × (get_bit m.bits i ≡ true) × (i < n)
take_first_lem n m l h =
    let (j, lt, set_j) =
      count_below-pos (8 * length m.bits) (get_bit m.bits) (omega (arith, l.counted)) in
    let (i, e, ne, in_i) = memchr_not_lem m.bits (j / 8) (byte_of_bit m.bits j set_j) in
    let (k, f, k8, test) = lowest_lem (get_or m.bits i 0) (l.bytes i) ne in
    let here : get_bit m.bits (i * 8 + k) ≡ true = bit_at m.bits i k k8 test in
    (i * 8 + k, take_first_at m i k e f k8, here, l.inside (i * 8 + k) here)
