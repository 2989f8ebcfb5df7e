-- ===== src/Terminal/Echo.antt =====
-- The line being typed and its picture on the screen of src/terminal.c.
pub mod Insert
pub mod Erase
pub mod Keys
pub mod Moves
pub mod Removals
use clubcos.Array.{Array8, memmove, size}
use clubcos.Array.Edit.{IsArray}
use clubcos.Terminal.{Terminal, cursor, end}
use clubcos.Terminal.Placed.{IsPlaced}
use clubcos.Terminal.Input.{line}
use clubcos.Prelude.{
  ℕ, zero, suc, ◌+◌, ◌-◌, ◌*◌, ◌/◌, ◌%◌, ◌^◌, ◌≤◌, ◌<◌, ◌≡◌, refl, sym, ap, ◌∙◌, ◌≢◌, ◌↔◌, ◌⊎◌, inl,
  inr, Bool, true, false, not, ◌&&◌, ◌||◌, Option, none, some, List, [], ◌∷◌, ◌++◌, map, arith, ltb,
  leb, ◌==◌, if◌then◌else◌, ltb→lt, lt→ltb, leb→le, ==_iff, tests, Bool-cases, Option-cases, length,
  get_elem?, set, get_or, take, drop, replicate, length-append, length-set, get_elem?-set_self,
  get_elem?-set_ne, take-append-drop, length-take, length-drop, length-replicate, length-map,
  get_or-set_self, get_or-set_ne, u8_mod, u16_mod, u32_mod, add32, sub32, Store, upd, has, Distinct,
  has-append, Distinct-snoc, Distinct-drop, Distinct-remove, has_same, Distinct-gone, all_below,
  all_below_sound, sub16,
}

-- The line of `count` bytes stands on the screen from the cell `start` on, the cursor at the pointer
-- into it and the end behind it, and every cell from there on is blank.
pub record IsEcho (start : ℕ) (t : Terminal) : Type 0 where
  pub placed : IsPlaced t
  pub valid : IsArray (line t)
  pub capacity : t.line_buf_array.end ≡ t.line_buf_array.buf + 249
  pub ptr_start : t.line_buf_array.buf ≤ t.line_buf_ptr
  pub ptr_end : t.line_buf_ptr ≤ t.line_buf_array.now
  pub at_ptr : cursor t ≡ start + (t.line_buf_ptr - t.line_buf_array.buf)
  pub at_end : end t ≡ start + size (line t)
  pub shown :
      (j : ℕ)
      → j < size (line t)
      → t.term_buffer (start + j) % 2 ^ 8 ≡ t.mem (t.line_buf_array.buf + j)
  pub visible : (j : ℕ) → j < size (line t) → t.mem (t.line_buf_array.buf + j) ≢ 0
  pub blank : (q : ℕ) → end t ≤ q → q < 1920 → t.term_buffer q % 2 ^ 8 ≡ 0

-- A byte put into both, behind a gap of one made at the same place.
pub shown-insert :
    (cells mem : ℕ → ℕ) (start b i k s p entry x : ℕ)
    → s ≡ start + i
    → p ≡ b + i
    → entry % 2 ^ 8 ≡ x
    → ((j : ℕ) → j < i + k → cells (start + j) % 2 ^ 8 ≡ mem (b + j))
    → (j : ℕ) → j < i + suc k
    → upd (memmove (s + 1) s k cells) s entry (start + j) % 2 ^ 8
      ≡ upd (memmove (p + 1) p k mem) p x (b + j)
shown-insert cells mem start b i k s p entry x es ep e same j lt = elim (Bool-cases (ltb j i)) [
  | inl before ↦ ground (arith, same j (ground arith))
  | inr from ↦ elim (Bool-cases (j == i)) [
    | inl here ↦ ground (arith, e)
    | inr behind ↦
        let left : s + (start + j - (s + 1)) ≡ start + (j - 1) = ground arith in
        let right : p + (b + j - (p + 1)) ≡ b + (j - 1) = ground arith in
        let moved = same (j - 1) (ground arith) in
        ground (arith, moved, ap cells left, ap mem right)
  ]
]

pub visible-insert :
    (mem : ℕ → ℕ) (b i k p x : ℕ)
    → p ≡ b + i
    → x ≢ 0
    → ((j : ℕ) → j < i + k → mem (b + j) ≢ 0)
    → (j : ℕ) → j < i + suc k
    → upd (memmove (p + 1) p k mem) p x (b + j) ≢ 0
visible-insert mem b i k p x ep e seen j lt = elim (Bool-cases (ltb j i)) [
  | inl before ↦ ground (arith, seen j (ground arith))
  | inr from ↦ elim (Bool-cases (j == i)) [
    | inl here ↦ ground (arith, e)
    | inr behind ↦
        let right : p + (b + j - (p + 1)) ≡ b + (j - 1) = ground arith in
        ground (arith, seen (j - 1) (ground arith), ap mem right)
  ]
]

-- A byte taken out of both; the cell behind the text moves up with it.
pub shown-erase :
    (cells mem : ℕ → ℕ) (start b i k s p e v : ℕ)
    → s ≡ start + i
    → p ≡ b + i
    → e ≡ start + i + suc k
    → ((j : ℕ) → j < i + suc k → cells (start + j) % 2 ^ 8 ≡ mem (b + j))
    → (j : ℕ) → j < i + k
    → upd (memmove s (s + 1) (suc k) cells) e v (start + j) % 2 ^ 8
      ≡ memmove p (p + 1) k mem (b + j)
shown-erase cells mem start b i k s p e v es ep ee same j lt = elim (Bool-cases (ltb j i)) [
  | inl before ↦ ground (arith, same j (ground arith))
  | inr from ↦
      let left : s + 1 + (start + j - s) ≡ start + suc j = ground arith in
      let right : p + 1 + (b + j - p) ≡ b + suc j = ground arith in
      let moved = same (suc j) (ground arith) in ground (arith, moved, ap cells left, ap mem right)
]

pub visible-erase :
    (mem : ℕ → ℕ) (b i k p : ℕ)
    → p ≡ b + i
    → ((j : ℕ) → j < i + suc k → mem (b + j) ≢ 0)
    → (j : ℕ) → j < i + k
    → memmove p (p + 1) k mem (b + j) ≢ 0
visible-erase mem b i k p ep seen j lt = elim (Bool-cases (ltb j i)) [
  | inl before ↦ ground (arith, seen j (ground arith))
  | inr from ↦
      let right : p + 1 + (b + j - p) ≡ b + suc j = ground arith in
      ground (arith, seen (suc j) (ground arith), ap mem right)
]
