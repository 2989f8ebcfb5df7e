-- ===== src/Memory/Bitmap.antt =====
-- One level of the buddy allocator: a bitmap in bytes, with the number of bits that are set.
use Prim.Native.Nat.{bit_and, bit_or}
use mathlib.Core.Path.{ap₂}
use clubcos.Prelude.{
  ℕ, zero, suc, ◌-◌, ◌/◌, ◌%◌, ◌^◌, ◌<◌, ◌≡◌, refl, sym, ap, ◌∙◌, inl, inr, Bool, true, false, not,
  ◌&&◌, ◌||◌, List, [], ◌∷◌, arith, ltb, ◌==◌, if◌then◌else◌, ==_iff, Bool-cases, length, set,
  get_or, length-set, all_below, all_below_sound,
}

pub record BuddyBitmap : Type 0 where
  pub bits : List ℕ
  pub count : ℕ

-- `1 << idx % 8`
abbrev pub mask : ℕ → ℕ
mask idx = 2 ^ (idx % 8)

unfoldable pub bit_set_1 : List ℕ → ℕ → List ℕ
bit_set_1 bits idx = set bits (idx / 8) (bit_or (get_or bits (idx / 8) 0) (mask idx))

-- `&= ~mask` on a byte.
unfoldable pub bit_set_0 : List ℕ → ℕ → List ℕ
bit_set_0 bits idx = set bits (idx / 8) (bit_and (get_or bits (idx / 8) 0) (255 - mask idx))

-- The source's byte is used as a truth value.
unfoldable pub get_bit : List ℕ → ℕ → Bool
get_bit bits idx = not (bit_and (get_or bits (idx / 8) 0) (mask idx) == 0)

-- The bit `j` of a byte.
test : ℕ → ℕ → Bool
test b j = not (bit_and b (2 ^ j) == 0)

bool_eq : Bool → Bool → Bool
bool_eq true b = b
bool_eq false b = not b

bool_eq_sound : (a b : Bool) → bool_eq a b ≡ true → a ≡ b
unfolding bool_eq
bool_eq_sound true b h = sym h
bool_eq_sound false true h = cc
bool_eq_sound false false h = refl

or_check : ℕ → ℕ → ℕ → Bool
unfolding bool_eq test
or_check b i j = bool_eq (test (bit_or b (2 ^ i)) j) ((i == j) || test b j)

and_check : ℕ → ℕ → ℕ → Bool
unfolding bool_eq test
and_check b i j = bool_eq (test (bit_and b (255 - 2 ^ i)) j) (not (i == j) && test b j)

or_table : all_below 256 (λ b. all_below 8 (λ i. all_below 8 (or_check b i))) ≡ true
unfolding all_below or_check
or_table = refl

and_table : all_below 256 (λ b. all_below 8 (λ i. all_below 8 (and_check b i))) ≡ true
unfolding all_below and_check
and_table = refl

range_table :
    all_below 256
      (λ b. all_below 8 (λ i. ltb (bit_or b (2 ^ i)) 256 && ltb (bit_and b (255 - 2 ^ i)) 256))
    ≡ true
unfolding all_below
range_table = refl

-- What the code relies on: a bitmap's cells are bytes.
abbrev pub Bytes : List ℕ → Type 0
Bytes bits = (k : ℕ) → get_or bits k 0 < 256

or_bits : (b i j : ℕ) → b < 256 → i < 8 → j < 8 → test (bit_or b (2 ^ i)) j ≡ ((i == j) || test b j)
unfolding or_check
or_bits b i j p q r =
    bool_eq_sound _ _
      (all_below_sound 8 _ j (all_below_sound 8 _ i (all_below_sound 256 _ b or_table p) q) r)

and_bits :
    (b i j : ℕ)
    → b < 256
    → i < 8
    → j < 8
    → test (bit_and b (255 - 2 ^ i)) j ≡ (not (i == j) && test b j)
unfolding and_check
and_bits b i j p q r =
    bool_eq_sound _ _
      (all_below_sound 8 _ j (all_below_sound 8 _ i (all_below_sound 256 _ b and_table p) q) r)

byte_range :
    (b i : ℕ) → b < 256 → i < 8 → (bit_or b (2 ^ i) < 256) × (bit_and b (255 - 2 ^ i) < 256)
byte_range b i p q = ground (arith, all_below_sound 8 _ i (all_below_sound 256 _ b range_table p) q)

get_or-set :
    (xs : List ℕ) (i j v : ℕ)
    → i < length xs
    → get_or (set xs i v) j 0 ≡ (if i == j then v else get_or xs j 0)
get_or-set [] i j v h = elim h [ ]
get_or-set (x ∷ xs) zero zero v h = refl
get_or-set (x ∷ xs) zero (suc j) v h = ground arith
get_or-set (x ∷ xs) (suc i) zero v h = ground arith
get_or-set (x ∷ xs) (suc i) (suc j) v h = ground (arith, get_or-set xs i j v)

same_place : (i j : ℕ) → (i / 8 == j / 8) ≡ true → (i % 8 == j % 8) ≡ (i == j)
same_place i j h = ground arith

other_place : (i j : ℕ) → (i / 8 == j / 8) ≡ false → (i == j) ≡ false
other_place i j h = ground arith

-- A write of one byte, seen bit by bit.
test-set :
    (bits : List ℕ) (i j v : ℕ)
    → i / 8 < length bits
    → test (get_or (set bits (i / 8) v) (j / 8) 0) (j % 8)
      ≡ (if i / 8 == j / 8 then test v (j % 8) else test (get_or bits (j / 8) 0) (j % 8))
test-set bits i j v h = elim (Bool-cases (i / 8 == j / 8)) [
  | inl e ↦ rw (get_or-set bits (i / 8) (j / 8) v h, e) refl
  | inr e ↦ rw (get_or-set bits (i / 8) (j / 8) v h, e) refl
]

module _ (bits : List ℕ) (ok : Bytes bits) (i : ℕ) (inside : i / 8 < length bits) where
  pub get_bit-set_1 : (j : ℕ) → get_bit (bit_set_1 bits i) j ≡ ((i == j) || get_bit bits j)
  unfolding get_bit bit_set_1 test
  get_bit-set_1 j = test-set bits i j _ inside ∙ go
    where
      go :
          (if i / 8 == j / 8
            then test (bit_or (get_or bits (i / 8) 0) (2 ^ (i % 8))) (j % 8)
            else test (get_or bits (j / 8) 0) (j % 8))
          ≡ ((i == j) || test (get_or bits (j / 8) 0) (j % 8))
      go = elim (Bool-cases (i / 8 == j / 8)) [
        | inl e ↦ rw e (
            or_bits (get_or bits (i / 8) 0) (i % 8) (j % 8) (ok (i / 8)) (omega arith) (omega arith)
            ∙ ap₂ ◌||◌ (same_place i j e)
                (ap (λ k. test (get_or bits k 0) (j % 8)) ((==_iff _ _).0 e)))
        | inr e ↦ rw (e, other_place i j e) refl
      ]

  pub get_bit-set_0 : (j : ℕ) → get_bit (bit_set_0 bits i) j ≡ (not (i == j) && get_bit bits j)
  unfolding get_bit bit_set_0 test
  get_bit-set_0 j = test-set bits i j _ inside ∙ go
    where
      go :
          (if i / 8 == j / 8
            then test (bit_and (get_or bits (i / 8) 0) (255 - 2 ^ (i % 8))) (j % 8)
            else test (get_or bits (j / 8) 0) (j % 8))
          ≡ (not (i == j) && test (get_or bits (j / 8) 0) (j % 8))
      go = elim (Bool-cases (i / 8 == j / 8)) [
        | inl e ↦ rw e (
            and_bits (get_or bits (i / 8) 0) (i % 8) (j % 8) (ok (i / 8)) (omega arith)
              (omega arith)
            ∙ ap₂ (λ a b. not a && b) (same_place i j e)
                (ap (λ k. test (get_or bits k 0) (j % 8)) ((==_iff _ _).0 e)))
        | inr e ↦ rw (e, other_place i j e) refl
      ]

  pub Bytes-set_1 : Bytes (bit_set_1 bits i)
  unfolding bit_set_1
  Bytes-set_1 k = ground (
    arith,
    get_or-set bits (i / 8) k (bit_or (get_or bits (i / 8) 0) (mask i)) inside,
    byte_range (get_or bits (i / 8) 0) (i % 8) (ok (i / 8)),
    ok k,
  )

  pub Bytes-set_0 : Bytes (bit_set_0 bits i)
  unfolding bit_set_0
  Bytes-set_0 k = ground (
    arith,
    get_or-set bits (i / 8) k (bit_and (get_or bits (i / 8) 0) (255 - mask i)) inside,
    byte_range (get_or bits (i / 8) 0) (i % 8) (ok (i / 8)),
    ok k,
  )

pub length-set_1 : (bits : List ℕ) (i : ℕ) → length (bit_set_1 bits i) ≡ length bits
unfolding bit_set_1
length-set_1 bits i = length-set bits _ _

pub length-set_0 : (bits : List ℕ) (i : ℕ) → length (bit_set_0 bits i) ≡ length bits
unfolding bit_set_0
length-set_0 bits i = length-set bits _ _
