-- ===== src/Memory/Release.antt =====
-- The merging loop of `ckDynMemFree`. `now` only goes up, so the levels from `now` on are the list.
use clubcos.Memory.Bitmap.{BuddyBitmap, get_bit, bit_set_0}
use clubcos.Memory.Buddy.{buddy_of, buddy_of_lem}
use clubcos.Memory.Level.{
  IsLevel, mark, unmark, get_bit-mark, get_bit-unmark, mark-IsLevel, unmark-IsLevel,
}
use clubcos.Memory.Levels.{IsLevels, free_at, Disjoint}
use clubcos.Prelude.{
  ℕ, ◌/◌, ◌<◌, ◌≡◌, refl, ap, inl, inr, true, false, not, ◌&&◌, ◌||◌, List, [], ◌∷◌, arith, ◌==◌,
  if◌then◌else◌, Bool-cases, sub32,
}

eq_self : (a : ℕ) → (a == a) ≡ true
eq_self a = ground arith

-- Two buddies leave a level: both bits, and `count -= 2`.
unfoldable pub unmark_pair : BuddyBitmap → ℕ → BuddyBitmap
unmark_pair m block = record {
  bits = bit_set_0 (bit_set_0 m.bits (buddy_of block)) block;
  count = sub32 m.count 2;
}

-- The loop at level `m` with the levels `ms` above it.
unfoldable pub merge : BuddyBitmap → List BuddyBitmap → ℕ → List BuddyBitmap
unfolding unmark_pair
merge m [] block = m ∷ []
merge m (above ∷ ms) block =
    let up = unmark_pair m block ∷ merge (mark above (block / 2)) ms (block / 2) in
    if get_bit m.bits (buddy_of block) then up else m ∷ above ∷ ms

-- The block's bit, then the loop.
unfoldable pub release_block : List BuddyBitmap → ℕ → List BuddyBitmap
unfolding merge
release_block [] block = []
release_block (m ∷ ms) block = merge (mark m block) ms block

-- The levels `ms'` have the free units of `ms`.
record IsSame (n : ℕ) (ms ms' : List BuddyBitmap) : Type 0 where
  shape : IsLevels n ms'
  apart : Disjoint ms'
  same : (u : ℕ) → free_at ms' u ≡ free_at ms u

module _ (n : ℕ) (m : BuddyBitmap) (l : IsLevel n m) (block : ℕ)
    (set_b : get_bit m.bits block ≡ true) (set_c : get_bit m.bits (buddy_of block) ≡ true) where
  ne_buddy : (buddy_of block == block) ≡ false
  ne_buddy = ground (arith, buddy_of_lem block)

  still : get_bit (unmark m (buddy_of block)).bits block ≡ true
  still = rw (get_bit-unmark n m l (buddy_of block) (l.inside _ set_c) block, ne_buddy) set_b

  unmark_pair-eq : unmark_pair m block ≡ unmark (unmark m (buddy_of block)) block
  unfolding unmark_pair unmark
  unmark_pair-eq =
      ap (λ c. record { bits = bit_set_0 (bit_set_0 m.bits (buddy_of block)) block; count = c })
        (omega arith)

  unmark_pair-IsLevel : IsLevel n (unmark_pair m block)
  unmark_pair-IsLevel = rw unmark_pair-eq (
      unmark-IsLevel n (unmark m (buddy_of block))
        (unmark-IsLevel n m l (buddy_of block) (l.inside _ set_c) set_c) block (l.inside _ set_b)
        still)

  get_bit-unmark_pair :
      (u : ℕ)
      → get_bit (unmark_pair m block).bits u
        ≡ (not (block == u) && (not (buddy_of block == u) && get_bit m.bits u))
  get_bit-unmark_pair u = rw unmark_pair-eq (
      rw
        (
          get_bit-unmark n (unmark m (buddy_of block))
              (unmark-IsLevel n m l (buddy_of block) (l.inside _ set_c) set_c) block
              (l.inside _ set_b) u,
          get_bit-unmark n m l (buddy_of block) (l.inside _ set_c) u,
        )
        refl)

-- The two blocks that merge, and the level above them.
module _ (n : ℕ) (m above : BuddyBitmap) (ms : List BuddyBitmap) (block : ℕ)
    (shape : IsLevels n (m ∷ above ∷ ms)) (apart : Disjoint (m ∷ above ∷ ms))
    (set_b : get_bit m.bits block ≡ true) (set_c : get_bit m.bits (buddy_of block) ≡ true) where
  clear_above : free_at (above ∷ ms) (block / 2) ≡ false
  clear_above = apart.0 block set_b

  in_above : block / 2 < n / 2
  in_above =
      omega (
        arith,
        shape.1.inside block set_b,
        shape.1.inside (buddy_of block) set_c,
        buddy_of_lem block,
      )

  bits_above :
      (u : ℕ) → get_bit (mark above (block / 2)).bits u ≡ ((block / 2 == u) || get_bit above.bits u)
  bits_above = get_bit-mark (n / 2) above shape.2.1 (block / 2) in_above

  above-IsLevels : IsLevels (n / 2) (mark above (block / 2) ∷ ms)
  above-IsLevels = (
    shape.2.0,
    mark-IsLevel (n / 2) above shape.2.1 (block / 2) in_above (ground (arith, clear_above)),
    shape.2.2,
  )

  above-Disjoint : Disjoint (mark above (block / 2) ∷ ms)
  above-Disjoint = (λ u k. ground (arith, bits_above u, clear_above, apart.1.0 u), apart.1.1)

  bits_pair :
      (u : ℕ)
      → get_bit (unmark_pair m block).bits u
        ≡ (not (block == u) && (not (buddy_of block == u) && get_bit m.bits u))
  bits_pair = get_bit-unmark_pair n m shape.1 block set_b set_c

  pair_covered : (u : ℕ) → (block / 2 == u / 2) ≡ ((block == u) || (buddy_of block == u))
  pair_covered u = ground (arith, buddy_of_lem block)

  pair-IsSame :
      (up : List BuddyBitmap)
      → IsSame (n / 2) (mark above (block / 2) ∷ ms) up
      → IsSame n (m ∷ above ∷ ms) (unmark_pair m block ∷ up)
  pair-IsSame up ih = record {
    shape = (shape.0, unmark_pair-IsLevel n m shape.1 block set_b set_c, ih.shape);
    apart = (
      λ u k.
          ground
            (arith, bits_pair u, pair_covered u, ih.same (u / 2), bits_above (u / 2), apart.0 u),
      ih.apart,
    );
    same = λ u.
        ground
          (arith, bits_pair u, pair_covered u, ih.same (u / 2), bits_above (u / 2), set_b, set_c);
  }

merge-IsSame :
    (n : ℕ) (m : BuddyBitmap) (ms : List BuddyBitmap) (block : ℕ)
    → IsLevels n (m ∷ ms)
    → Disjoint (m ∷ ms)
    → get_bit m.bits block ≡ true
    → IsSame n (m ∷ ms) (merge m ms block)
unfolding merge
merge-IsSame n m [] block h d e = record { shape = h; apart = d; same = λ u. refl }
merge-IsSame n m (above ∷ ms) block h d e = elim (Bool-cases (get_bit m.bits (buddy_of block))) [
  | inr f ↦ rw f (record { shape = h; apart = d; same = λ u. refl })
  | inl f ↦ rw f (
      pair-IsSame n m above ms block h d e f _ (
        merge-IsSame (n / 2) (mark above (block / 2)) ms (block / 2)
          (above-IsLevels n m above ms block h d e f) (above-Disjoint n m above ms block h d e f)
          (rw (bits_above n m above ms block h d e f (block / 2), eq_self (block / 2)) refl)))
]

-- Blocks `ms` with block `b` given back, which leaves the levels `ms'`.
pub record IsReleased (n : ℕ) (ms : List BuddyBitmap) (b : ℕ) (ms' : List BuddyBitmap)
    : Type 0 where
  pub shape : IsLevels n ms'
  pub apart : Disjoint ms'
  pub rest : (u : ℕ) → free_at ms' u ≡ ((b == u) || free_at ms u)

-- Releasing a block inside the first level that is not free at any level keeps the bitmaps right,
-- with every count the number of marked bits, and makes exactly the units of that block free,
-- whatever it merges.
pub release_block-IsReleased :
    (n : ℕ) (ms : List BuddyBitmap) (b : ℕ)
    → IsLevels n ms
    → Disjoint ms
    → b < n
    → free_at ms b ≡ false
    → IsReleased n ms b (release_block ms b)
unfolding release_block
release_block-IsReleased n [] b h d lt e = absurd (omega arith)
release_block-IsReleased n (m ∷ ms) b h d lt e =
    let bits = get_bit-mark n m h.1 b lt in
    let r =
      merge-IsSame n (mark m b) ms b (h.0, mark-IsLevel n m h.1 b lt (ground (arith, e)), h.2)
        (λ u k. ground (arith, bits u, e, d.0 u), d.1) (rw (bits b, eq_self b) refl) in
    record { shape = r.shape; apart = r.apart; rest = λ u. ground (arith, r.same u, bits u) }
