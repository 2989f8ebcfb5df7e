-- ===== src/Array.antt =====
-- The byte arrays of src/array.c and src/array.h, over a memory of bytes. `none` is a failed
-- assertion. `memmove` of src/string.h picks the direction that copies the block as it was. `memcpy` is
-- `_memcpy_forward` of src/string.asm: words first, then bytes.
pub mod Cells
pub mod Copy
pub mod Edit
pub mod Removal
mod Tests
use clubcos.Prelude.{
  ℕ, zero, suc, ◌+◌, ◌-◌, ◌*◌, ◌/◌, ◌%◌, ◌^◌, ◌≤◌, ◌<◌, ◌≡◌, refl, sym, ap, ◌∙◌, ◌≢◌, ◌↔◌, ◌⊎◌, inl,
  inr, Bool, true, false, not, ◌&&◌, ◌||◌, Option, none, some, List, [], ◌∷◌, ◌++◌, map, arith, ltb,
  leb, ◌==◌, if◌then◌else◌, ltb→lt, lt→ltb, leb→le, ==_iff, tests, Bool-cases, Option-cases, length,
  get_elem?, set, get_or, take, drop, replicate, length-append, length-set, get_elem?-set_self,
  get_elem?-set_ne, take-append-drop, length-take, length-drop, length-replicate, length-map,
  get_or-set_self, get_or-set_ne, u8_mod, u16_mod, u32_mod, add32, sub32, Store, upd, has, Distinct,
  has-append, Distinct-snoc, Distinct-drop, Distinct-remove, has_same, Distinct-gone, has-cut,
  ◌>>=◌, all_below, all_below_sound, lt→ne, ne→false, sub16,
}

pub record Array8 : Type 0 where
  pub mem : ℕ → ℕ
  pub buf : ℕ
  pub now : ℕ
  pub end : ℕ

abbrev pub memmove : ℕ → ℕ → ℕ → (ℕ → ℕ) → ℕ → ℕ
memmove dest src count mem q =
    if leb dest q && ltb q (dest + count) then mem (src + (q - dest)) else mem q

-- `rep movsb` with the direction flag clear: `n` bytes, from the first on.
unfoldable pub copy_bytes : ℕ → ℕ → ℕ → (ℕ → ℕ) → ℕ → ℕ
copy_bytes dest src zero mem = mem
copy_bytes dest src (suc n) mem = copy_bytes (dest + 1) (src + 1) n (upd mem dest (mem src))

-- `rep movsd`: each word is read before it is written.
unfoldable pub copy_words : ℕ → ℕ → ℕ → (ℕ → ℕ) → ℕ → ℕ
copy_words dest src zero mem = mem
copy_words dest src (suc n) mem = copy_words (dest + 4) (src + 4) n (memmove dest src 4 mem)

unfoldable pub memcpy : ℕ → ℕ → ℕ → (ℕ → ℕ) → ℕ → ℕ
unfolding copy_bytes copy_words
memcpy dest src count mem =
    let whole = count / 4 * 4 in
    copy_bytes (dest + whole) (src + whole) (count % 4) (copy_words dest src (count / 4) mem)

unfoldable pub init : ℕ → ℕ → (ℕ → ℕ) → Array8
init buf end mem = record { mem = mem; buf = buf; now = buf; end = end }

unfoldable pub max_size : Array8 → ℕ
max_size a = a.end - a.buf

unfoldable pub size : Array8 → ℕ
size a = a.now - a.buf

unfoldable pub insert : ℕ → ℕ → Array8 → Option (Bool × Array8)
insert ptr x a =
    let moved = memmove (ptr + 1) ptr (a.now - ptr) a.mem in
    let a' = record a { mem = upd moved ptr (x % 2 ^ 8); now = a.now + 1 } in
    if leb a.buf ptr && leb ptr a.now
    then if a.now == a.end then some (false, a) else some (true, a')
    else none

unfoldable pub erase : ℕ → Array8 → Option Array8
erase ptr a =
    let a' = record a { mem = memcpy ptr (ptr + 1) (a.now - ptr - 1) a.mem; now = a.now - 1 } in
    if leb a.buf ptr && ltb ptr a.now then some a' else none

-- The two arrays are in one memory, `dest`'s; the source is given by its bounds.
unfoldable pub append : Array8 → ℕ → ℕ → Array8
append dest src srcend =
    let room = dest.end - dest.now in
    let len = if ltb (srcend - src) room then srcend - src else room in
    record dest { mem = memcpy dest.now src len dest.mem; now = dest.now + len }

unfoldable pub push_back : ℕ → Array8 → Option (Bool × Array8)
unfolding insert
push_back x a = insert a.now x a

unfoldable pub with_value : ℕ → Option Array8 → Option (ℕ × Array8)
with_value x none = none
with_value x (some a) = some (x, a)

unfoldable pub pop_back : Array8 → Option (ℕ × Array8)
unfolding erase with_value
pop_back a =
    let a' = record a { now = a.now - 1 } in
    if ltb a.buf a.now then with_value (a.mem (a.now - 1)) (erase (a.now - 1) a') else none

unfoldable pub pop_front : Array8 → Option (ℕ × Array8)
unfolding erase with_value
pop_front a = with_value (a.mem a.buf) (erase a.buf a)

-- `zf` is the zero flag of the processor: `repne scasb` sets it by each comparison, and leaves it as
-- the caller had it when there is nothing to compare. The byte before the end of the search is then
-- the answer.
unfoldable pub memchr : Bool → ℕ → ℕ → ℕ → (ℕ → ℕ) → Option ℕ
memchr zf ptr ch zero mem = if zf then some (sub32 ptr 1) else none
memchr zf ptr ch (suc n) mem =
    let rest = memchr false (ptr + 1) ch n mem in if mem ptr == ch then some ptr else rest

unfoldable pub find : Bool → ℕ → Array8 → Option ℕ
unfolding memchr
find zf x a = memchr zf a.buf (x % 2 ^ 8) (a.now - a.buf) a.mem

unfoldable pub remove_found : Option ℕ → Array8 → Option (Option ℕ × Array8)
remove_found none a = some (none, a)
remove_found (some ptr) a = do a' ← erase ptr a; some (some ptr, a')

unfoldable pub remove : Bool → ℕ → Array8 → Option (Option ℕ × Array8)
remove zf x a = remove_found (find zf x a) a
