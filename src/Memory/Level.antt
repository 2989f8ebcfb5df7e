-- ===== src/Memory/Level.antt =====
-- A level with its count: well-formedness, and the search for a free block.
use clubcos.Memory.Bitmap.{
  BuddyBitmap, bit_set_1, bit_set_0, get_bit, Bytes, get_bit-set_1, get_bit-set_0, Bytes-set_1,
  Bytes-set_0, length-set_1, length-set_0,
}
use clubcos.Count.{count_below, count_below-set, count_below-clear, count_below-le}
use clubcos.Prelude.{
  ℕ, ◌*◌, ◌^◌, ◌≤◌, ◌<◌, ◌≡◌, true, false, not, ◌&&◌, ◌||◌, List, arith, ◌==◌, length, set, add32,
  sub32,
}

-- The number of bits that are set.
abbrev pub ones : List ℕ → ℕ
ones bits = count_below (8 * length bits) (get_bit bits)

-- A level of `n` blocks.
pub record IsLevel (n : ℕ) (m : BuddyBitmap) : Type 0 where
  pub bytes : Bytes m.bits
  pub wide : n ≤ 8 * length m.bits
  pub small : 8 * length m.bits < 2 ^ 32
  pub inside : (i : ℕ) → get_bit m.bits i ≡ true → i < n
  pub counted : m.count ≡ ones m.bits

-- `BITMAP_BIT_SET_1(m, i); m->count++`, and the other way round.
unfoldable pub mark : BuddyBitmap → ℕ → BuddyBitmap
mark m i = record { bits = bit_set_1 m.bits i; count = add32 m.count 1 }

unfoldable pub unmark : BuddyBitmap → ℕ → BuddyBitmap
unmark m i = record { bits = bit_set_0 m.bits i; count = sub32 m.count 1 }

module _ (n : ℕ) (m : BuddyBitmap) (l : IsLevel n m) (i : ℕ) (lt : i < n) where
  pub get_bit-mark : (j : ℕ) → get_bit (mark m i).bits j ≡ ((i == j) || get_bit m.bits j)
  unfolding mark
  get_bit-mark j = get_bit-set_1 m.bits l.bytes i (omega (arith, l.wide)) j

  pub get_bit-unmark : (j : ℕ) → get_bit (unmark m i).bits j ≡ (not (i == j) && get_bit m.bits j)
  unfolding unmark
  get_bit-unmark j = get_bit-set_0 m.bits l.bytes i (omega (arith, l.wide)) j

  pub mark-IsLevel : get_bit m.bits i ≡ false → IsLevel n (mark m i)
  unfolding mark
  mark-IsLevel free =
      let len = length-set_1 m.bits i in
      let more =
        count_below-set (8 * length m.bits) (get_bit m.bits) (get_bit (mark m i).bits) i
          (omega (arith, l.wide)) free get_bit-mark in
      record {
        bytes = Bytes-set_1 m.bits l.bytes i (omega (arith, l.wide));
        wide = rw len l.wide;
        small = rw len l.small;
        inside = λ j h. ground (arith, get_bit-mark j, l.inside j);
        counted = rw len omega (
          arith,
          more,
          l.counted,
          l.small,
          count_below-le (8 * length m.bits) (get_bit (bit_set_1 m.bits i)),
        );
      }

  pub unmark-IsLevel : get_bit m.bits i ≡ true → IsLevel n (unmark m i)
  unfolding unmark
  unmark-IsLevel set =
      let len = length-set_0 m.bits i in
      let less =
        count_below-clear (8 * length m.bits) (get_bit m.bits) (get_bit (unmark m i).bits) i
          (omega (arith, l.wide)) set get_bit-unmark in
      record {
        bytes = Bytes-set_0 m.bits l.bytes i (omega (arith, l.wide));
        wide = rw len l.wide;
        small = rw len l.small;
        inside = λ j h. ground (arith, get_bit-unmark j, l.inside j);
        counted =
            rw len omega (
              arith,
              less,
              l.counted,
              l.small,
              count_below-le (8 * length m.bits) (get_bit m.bits),
            );
      }
