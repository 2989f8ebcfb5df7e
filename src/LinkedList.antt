-- ===== src/LinkedList.antt =====
-- The circular doubly linked lists of src/linkedlist.h and src/linkedlist.c. A list is its dummy
-- node `d`, whose third word is the list's `size`.
pub mod Chain
pub mod IsList
pub mod Lockfree
pub mod Joined
pub mod Interleaved
pub mod Pushed
mod Tests
use clubcos.Prelude.{
  ℕ, zero, suc, ◌+◌, ◌-◌, ◌*◌, ◌/◌, ◌%◌, ◌^◌, ◌≤◌, ◌<◌, ◌≡◌, refl, sym, ap, ◌∙◌, ◌≢◌, ◌↔◌, ◌⊎◌, inl,
  inr, Bool, true, false, not, ◌&&◌, ◌||◌, Option, none, some, List, [], ◌∷◌, ◌++◌, map, arith, ltb,
  leb, ◌==◌, if◌then◌else◌, ltb→lt, lt→ltb, leb→le, ==_iff, tests, Bool-cases, Option-cases, length,
  get_elem?, set, get_or, take, drop, replicate, length-append, length-set, get_elem?-set_self,
  get_elem?-set_ne, take-append-drop, length-take, length-drop, length-replicate, length-map,
  get_or-set_self, get_or-set_ne, u8_mod, u16_mod, u32_mod, add32, sub32, Store, upd, has, Distinct,
  has-append, Distinct-snoc, Distinct-drop, Distinct-remove,
}

unfoldable pub init : ℕ → Store → Store
init d s = record { next = upd s.next d d; prev = upd s.prev d d; third = upd s.third d 0 }

unfoldable pub head : ℕ → Store → ℕ
head d s = s.next d

unfoldable pub tail : ℕ → Store → ℕ
tail d s = s.prev d

unfoldable pub push_back : ℕ → ℕ → Store → Store
push_back d p s =
    let last = s.prev d in
    record {
      next = upd (upd s.next p d) last p;
      prev = upd (upd s.prev p last) d p;
      third = upd s.third d (add32 (s.third d) 1);
    }

-- `none` is the null pointer.
unfoldable pub pop_front : ℕ → Store → Option ℕ × Store
pop_front d s =
    let p = s.next d in
    let n = s.next p in
    if p == d then (none, s) else (
      some p,
      record {
        next = upd s.next d n;
        prev = upd s.prev n d;
        third = upd s.third d (sub32 (s.third d) 1);
      },
    )

unfoldable pub erase : ℕ → ℕ → Store → Store
erase d p s =
    let b = s.prev p in
    let n = s.next p in
    record {
      next = upd s.next b n;
      prev = upd s.prev n b;
      third = upd s.third d (sub32 (s.third d) 1);
    }
