-- ===== src/Semaphore.antt =====
-- The binary semaphore of src/binary_semaphore.c and src/binary_semaphore.h. Every access of the
-- flag is one step, a compare-and-swap too. A loop that gives the processor away between its tries
-- is one try here; the answer false means that it goes on.
pub mod Section
mod Tests
use clubcos.Prelude.{
  ℕ, zero, suc, ◌+◌, ◌-◌, ◌*◌, ◌/◌, ◌%◌, ◌^◌, ◌≤◌, ◌<◌, ◌≡◌, refl, sym, ap, ◌∙◌, ◌≢◌, ◌↔◌, ◌⊎◌, inl,
  inr, Bool, true, false, not, ◌&&◌, ◌||◌, Option, none, some, List, [], ◌∷◌, ◌++◌, map, arith, ltb,
  leb, ◌==◌, if◌then◌else◌, ltb→lt, lt→ltb, leb→le, ==_iff, tests, Bool-cases, Option-cases, length,
  get_elem?, set, get_or, take, drop, replicate, length-append, length-set, get_elem?-set_self,
  get_elem?-set_ne, take-append-drop, length-take, length-drop, length-replicate, length-map,
  get_or-set_self, get_or-set_ne, u8_mod, u16_mod, u32_mod, add32, sub32, Store, upd, has, Distinct,
  has-append, Distinct-snoc, Distinct-drop, Distinct-remove, has_same, Distinct-gone, all_below,
  all_below_sound,
}

pub record BiSem : Type 0 where
  pub flag : ℕ

abbrev compare_and_swap : ℕ → ℕ → BiSem → Bool × BiSem
compare_and_swap old new b = if b.flag == old then (true, record b { flag = new }) else (false, b)

unfoldable pub init : ℕ → BiSem → Bool × BiSem
init value b = if ltb 1 value then (false, b) else (true, record b { flag = value })

unfoldable pub try_enter : BiSem → Bool × BiSem
try_enter b = compare_and_swap 0 1 b

unfoldable pub post : BiSem → Bool × BiSem
post b = compare_and_swap 1 0 b

unfoldable pub unpost : BiSem → Bool × BiSem
unpost b = compare_and_swap 0 1 b

unfoldable pub try_wait : BiSem → Bool
try_wait b = b.flag == 0
