-- ===== src/Terminal/Wrap.antt =====
-- The backspace of src/terminal.c at the start of a row.
use clubcos.Terminal.{
  Terminal, update_cursor_unsafe, right_not_null, find_right_not_null_col, wrap_end, join_rows,
  backspace_unsafe, end, cursor,
}
use clubcos.Prelude.{
  ℕ, zero, suc, ◌+◌, ◌-◌, ◌*◌, ◌%◌, ◌^◌, ◌≤◌, ◌≡◌, refl, ap, ◌≢◌, ◌⊎◌, inl, inr, true, false, none,
  some, arith, ltb, ◌==◌, ==_iff, Bool-cases, sub32, ne→false, sub16,
}

right_not_null-bound : (cells : ℕ → ℕ) (base k : ℕ) → right_not_null cells base k ≤ k
unfolding right_not_null
right_not_null-bound cells base zero = omega arith
right_not_null-bound cells base (suc k) =
    let shorter = right_not_null-bound cells base k in
    elim (Bool-cases (cells (base + k) % 2 ^ 8 == 0)) [
      | inl blank ↦ rw blank (omega (arith, shorter))
      | inr seen ↦ rw seen (omega arith)
    ]

-- Only a blank last cell makes the search stop before it.
right_not_null-last :
    (cells : ℕ → ℕ) (base k : ℕ)
    → ltb (right_not_null cells base (suc k)) (suc k) ≡ (cells (base + k) % 2 ^ 8 == 0)
unfolding right_not_null
right_not_null-last cells base k =
    let shorter = right_not_null-bound cells base k in
    elim (Bool-cases (cells (base + k) % 2 ^ 8 == 0)) [
      | inl blank ↦ rw blank (ground (arith, shorter))
      | inr seen ↦ rw seen (ground arith)
    ]

-- The character of the last cell of the row above the cursor's.
abbrev pub last_above : Terminal → ℕ
last_above t = t.term_buffer ((t.cursor_row - 1) * 80 + 79) % 2 ^ 8

-- The loop does not change what it tests.
wrap_end-none : (fuel : ℕ) (t : Terminal) → ltb t.cursor_column 80 ≡ true → wrap_end fuel t ≡ none
unfolding wrap_end
wrap_end-none zero t h = rw h refl
wrap_end-none (suc k) t h =
    let rest =
      wrap_end-none k
        (record t { end_row = (t.end_row + 1) % 2 ^ 16; end_column = sub16 t.end_column 80 }) h in
    rw (h, rest) refl

wrap_end-some :
    (fuel : ℕ) (t : Terminal) → ltb t.cursor_column 80 ≡ false → wrap_end fuel t ≡ some t
unfolding wrap_end
wrap_end-some zero t h = rw h refl
wrap_end-some (suc k) t h = rw h refl

at-edge : (column : ℕ) → ltb column 80 ≡ false → column ≤ 80 → column ≡ 80
at-edge column h le = ground arith

-- A backspace with the cursor at the start of a row other than the first: if the last cell of the
-- row above is blank, no amount of fuel is enough for it. Otherwise it ends with any fuel, with
-- the cursor in column 80 of the row above, outside the screen, and the end of the text in that
-- row in the column that the distance from the cursor to the end gives from there.
pub backspace-wraps :
    (t : Terminal)
    → t.cursor_column ≡ 0
    → t.cursor_row ≢ 0
    → ((last_above t ≡ 0) × ((fuel : ℕ) → backspace_unsafe fuel t ≡ none))
      ⊎ ((t' : Terminal) × (last_above t ≢ 0)
          × ((fuel : ℕ) → backspace_unsafe fuel t ≡ some t')
          × (t'.cursor_row ≡ t.cursor_row - 1)
          × (t'.cursor_column ≡ 80)
          × (t'.end_row ≡ t.cursor_row - 1)
          × (t'.end_column ≡ (80 + sub32 (end t) (cursor t) % 2 ^ 16) % 2 ^ 16))
unfolding backspace_unsafe join_rows find_right_not_null_col update_cursor_unsafe
backspace-wraps t column row =
    let first : (t.cursor_column == 0) ≡ true = (==_iff t.cursor_column 0).1 column in
    let below : (t.cursor_row == 0) ≡ false = ne→false t.cursor_row 0 row in
    let last = right_not_null-last t.term_buffer ((t.cursor_row - 1) * 80) 79 in
    let bound = right_not_null-bound t.term_buffer ((t.cursor_row - 1) * 80) 80 in
    elim (Bool-cases (ltb (find_right_not_null_col (t.cursor_row - 1) t) 80)) [
      | inl short ↦ inl (
        ground (arith, last, short),
        λ fuel. rw (first, below, wrap_end-none fuel (join_rows t) short) refl,
      )
      | inr full ↦
          let edge : find_right_not_null_col (t.cursor_row - 1) t ≡ 80 =
            at-edge (find_right_not_null_col (t.cursor_row - 1) t) full bound in
          inr (
            update_cursor_unsafe (join_rows t),
            ground (arith, last, full),
            λ fuel. rw (first, below, wrap_end-some fuel (join_rows t) full) refl,
            refl,
            edge,
            refl,
            ap (λ c. (c + sub32 (end t) (cursor t) % 2 ^ 16) % 2 ^ 16) edge,
          )
    ]
