-- ===== src/Memory/Alloc.antt =====
-- The two loops of `ckDynMemAllocate` over the levels. The pointer `now` is a place in the list of
-- levels: those passed, nearest first, and those from `now` on.
use clubcos.Memory.Bitmap.{BuddyBitmap, get_bit}
use clubcos.Memory.Level.{mark, get_bit-mark, get_bit-unmark, mark-IsLevel, unmark-IsLevel}
use clubcos.Memory.Levels.{IsLevels, free_at, Disjoint, or_true}
use clubcos.Memory.Search.{take_first, take_first_lem}
use clubcos.Count.{count_below-zero}
use clubcos.Prelude.{
  ℕ, ◌+◌, ◌*◌, ◌/◌, ◌%◌, ◌^◌, ◌<◌, ◌≡◌, refl, ◌∙◌, inl, inr, true, false, not, ◌&&◌, Option, none,
  some, List, [], ◌∷◌, arith, ◌==◌, if◌then◌else◌, Bool-cases, length, add32,
}

-- `ran_off` is the search through a bitmap that finds no bit though the count is not zero.
pub data Outcome : Type 0 where
  no_block ran_off : Outcome
  block_at : ℕ → List BuddyBitmap → Outcome

-- `for (below = now - 1; below >= start; below--)`
unfoldable pub give_back : List BuddyBitmap → ℕ → List BuddyBitmap → Outcome
give_back [] block ms = block_at block ms
give_back (b ∷ below) block ms =
    let twice = (block * 2) % 2 ^ 32 in give_back below twice (mark b (add32 twice 1) ∷ ms)

-- `for (now = start; now < end; now++)`
unfoldable pub search_levels : List BuddyBitmap → List BuddyBitmap → Outcome
unfolding give_back
search_levels passed [] = no_block
search_levels passed (m ∷ ms) =
    let rest = search_levels (m ∷ passed) ms in
    if m.count == 0 then rest else elim (take_first m) [
      | none ↦ ran_off
      | some (block, m') ↦ give_back passed block (m' ∷ ms)
    ]

unfoldable pub allocate_block : List BuddyBitmap → Outcome
unfolding search_levels
allocate_block ms = search_levels [] ms

-- The same by recursion from the first level.
raise : BuddyBitmap → Outcome → Outcome
raise m no_block = no_block
raise m ran_off = ran_off
raise m (block_at b ms) =
    let twice = (b * 2) % 2 ^ 32 in block_at twice (mark m (add32 twice 1) ∷ ms)

taken : List BuddyBitmap → Option (ℕ × BuddyBitmap) → Outcome
taken ms none = ran_off
taken ms (some (b, m)) = block_at b (m ∷ ms)

pub allocate_rec : List BuddyBitmap → Outcome
unfolding raise taken
allocate_rec [] = no_block
allocate_rec (m ∷ ms) =
    let rest = raise m (allocate_rec ms) in if m.count == 0 then rest else taken ms (take_first m)

give_all : List BuddyBitmap → Outcome → Outcome
give_all passed no_block = no_block
give_all passed ran_off = ran_off
give_all passed (block_at b ms) = give_back passed b ms

search_levels-rec :
    (passed ms : List BuddyBitmap) → search_levels passed ms ≡ give_all passed (allocate_rec ms)
unfolding search_levels allocate_rec give_all
search_levels-rec passed [] = refl
search_levels-rec passed (m ∷ ms) = elim (Bool-cases (m.count == 0)) [
  | inl e ↦ rw e (search_levels-rec (m ∷ passed) ms ∙ up (allocate_rec ms))
  | inr e ↦ rw e (here (take_first m))
]
  where
    up : (o : Outcome) → give_all (m ∷ passed) o ≡ give_all passed (raise m o)
    up no_block = refl
    up ran_off = refl
    up (block_at b l) = refl

    here :
        (o : Option (ℕ × BuddyBitmap))
        → elim o as (λ _. Outcome) [
          | none ↦ ran_off
          | some (block, m') ↦ give_back passed block (m' ∷ ms)
        ]
          ≡ give_all passed (taken ms o)
    here none = refl
    here (some (b, l)) = refl

-- The search that goes up to a larger block and then marks the halves below it does what the
-- textbook recursion does: take a block here, or else split one from the level above.
pub allocate_block-rec : (ms : List BuddyBitmap) → allocate_block ms ≡ allocate_rec ms
unfolding allocate_block give_all give_back
allocate_block-rec ms = search_levels-rec [] ms ∙ go (allocate_rec ms)
  where
    go : (o : Outcome) → give_all [] o ≡ o
    go no_block = refl
    go ran_off = refl
    go (block_at b l) = refl

-- Block `b` has been taken from the levels `ms`, which leaves the levels `ms'`.
pub record IsTaken (n : ℕ) (ms : List BuddyBitmap) (b : ℕ) (ms' : List BuddyBitmap) : Type 0 where
  pub shape : IsLevels n ms'
  pub apart : Disjoint ms'
  pub below : b < n
  pub was_free : free_at ms b ≡ true
  pub rest : (u : ℕ) → free_at ms' u ≡ (not (b == u) && free_at ms u)

abbrev pub IsAllocated : ℕ → List BuddyBitmap → Outcome → Type 0
IsAllocated n ms no_block = (u : ℕ) → free_at ms u ≡ false
IsAllocated n ms ran_off = ⊥
IsAllocated n ms (block_at b ms') = IsTaken n ms b ms'

module _ (n : ℕ) (m : BuddyBitmap) (ms : List BuddyBitmap) (shape : IsLevels n (m ∷ ms))
    (apart : Disjoint (m ∷ ms)) where
  -- A level that counts nothing has no free block.
  none_here : m.count ≡ 0 → (j : ℕ) → get_bit m.bits j ≡ false
  none_here e j = elim (Bool-cases (get_bit m.bits j)) [
    | inl set_j ↦
        count_below-zero (8 * length m.bits) (get_bit m.bits) (omega (arith, shape.1.counted)) j
          (omega (arith, shape.1.inside j set_j, shape.1.wide))
    | inr clear ↦ clear
  ]

  raise-IsAllocated :
      m.count ≡ 0 → (o : Outcome) → IsAllocated (n / 2) ms o → IsAllocated n (m ∷ ms) (raise m o)
  unfolding raise
  raise-IsAllocated e no_block h = λ u. ground (arith, none_here e u, h (u / 2))
  raise-IsAllocated e ran_off h = h
  raise-IsAllocated e (block_at b ms') h =
      let twice : (b * 2) % 2 ^ 32 ≡ b * 2 = omega (arith, h.below, shape.1.wide, shape.1.small) in
      let odd : add32 (b * 2) 1 ≡ b * 2 + 1 = omega (arith, h.below, shape.1.wide, shape.1.small) in
      let lt : b * 2 + 1 < n = omega (arith, h.below) in
      let bits = get_bit-mark n m shape.1 (b * 2 + 1) lt in
      rw (twice, odd)
        (record {
          shape = (shape.0, mark-IsLevel n m shape.1 (b * 2 + 1) lt (none_here e _), h.shape);
          apart = (λ u k. ground (arith, bits u, none_here e u, h.rest (u / 2)), h.apart);
          below = omega arith;
          was_free = let half : b * 2 / 2 ≡ b = omega arith in rw (half, h.was_free) (or_true _);
          rest = λ u. ground (arith, bits u, none_here e u, h.rest (u / 2), h.was_free);
        })

  taken-IsAllocated : 0 < m.count → IsAllocated n (m ∷ ms) (taken ms (take_first m))
  unfolding taken
  taken-IsAllocated h =
      let (b, e, set_b, lt) = take_first_lem n m shape.1 h in
      let bits = get_bit-unmark n m shape.1 b lt in
      rw e (record {
        shape = (shape.0, unmark-IsLevel n m shape.1 b lt set_b, shape.2);
        apart = (λ u k. ground (arith, bits u, apart.0 u), apart.1);
        below = lt;
        was_free = rw set_b refl;
        rest = λ u. ground (arith, bits u, apart.0 b set_b);
      })

allocate_rec-IsAllocated :
    (n : ℕ) (ms : List BuddyBitmap)
    → IsLevels n ms
    → Disjoint ms
    → IsAllocated n ms (allocate_rec ms)
unfolding allocate_rec
allocate_rec-IsAllocated n [] h d = λ u. refl
allocate_rec-IsAllocated n (m ∷ ms) h d = elim (Bool-cases (m.count == 0)) [
  | inl e ↦ rw e (
      raise-IsAllocated n m ms h d (ground arith) (allocate_rec ms)
        (allocate_rec-IsAllocated (n / 2) ms h.2 d.1))
  | inr e ↦ rw e (taken-IsAllocated n m ms h d (ground arith))
]

-- On bitmaps whose counts are right and that mark no unit free twice, the search from the size's
-- level upwards never runs off a bitmap. It finds no block only if nothing is free there;
-- otherwise it takes a free block of the first level, keeps the bitmaps right and frees or takes
-- nothing else.
pub allocate_block-IsAllocated :
    (n : ℕ) (ms : List BuddyBitmap)
    → IsLevels n ms
    → Disjoint ms
    → IsAllocated n ms (allocate_block ms)
allocate_block-IsAllocated n ms h d = rw (allocate_block-rec ms) (allocate_rec-IsAllocated n ms h d)
