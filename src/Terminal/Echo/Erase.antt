-- ===== src/Terminal/Echo/Erase.antt =====
-- A character taken out of the line of src/terminal.c and of its picture.
use mathlib.Core.Path.{subst}
use clubcos.Array.{memmove, size}
use clubcos.Terminal.{
  Terminal, cursor, end, cells_between, update_cursor_unsafe, right_not_null,
  find_right_not_null_col, delete_cell, delete_cells, delete_unsafe,
}
use clubcos.Terminal.Input.{line, set_line}
use clubcos.Terminal.Echo.{IsEcho, shown-erase, visible-erase}
use clubcos.Terminal.Echo.Insert.{update-IsEcho}
use clubcos.Prelude.{
  ℕ, suc, ◌+◌, ◌-◌, ◌*◌, ◌/◌, ◌%◌, ◌^◌, ◌≤◌, ◌<◌, ◌≡◌, refl, sym, ap, ◌∙◌, ◌≢◌, ◌⊎◌, inl, inr, true,
  false, arith, leb, ◌==◌, ==_iff, Bool-cases, upd, lt→ne, sub16,
}

-- The terminal with the byte at the pointer out of its line, the screen still with it.
abbrev pub erased : Terminal → Terminal
erased t =
    set_line
      (record (line t) {
        mem =
            memmove t.line_buf_ptr (t.line_buf_ptr + 1) (t.line_buf_array.now - t.line_buf_ptr - 1)
              t.mem;
        now = t.line_buf_array.now - 1;
      })
      t

right_not_null-last :
    (cells : ℕ → ℕ) (base k : ℕ)
    → (cells (base + k) % 2 ^ 8 ≢ 0)
    → right_not_null cells base (suc k) ≡ suc k
unfolding right_not_null
right_not_null-last cells base k h =
    let e : (cells (base + k) % 2 ^ 8 == 0) ≡ false = ground arith in rw e refl

right_not_null-blank :
    (cells : ℕ → ℕ) (base k : ℕ)
    → cells (base + k) % 2 ^ 8 ≡ 0
    → right_not_null cells base (suc k) ≡ right_not_null cells base k
unfolding right_not_null
right_not_null-blank cells base k h =
    let e : (cells (base + k) % 2 ^ 8 == 0) ≡ true = ground arith in rw e refl

-- The cells after a deletion, from the one before the old end on.
delete-blank :
    (start : ℕ) (t : Terminal)
    → IsEcho start t
    → t.line_buf_ptr < t.line_buf_array.now
    → (q : ℕ) → end t ≤ q + 1
    → q < 1920
    → delete_cells t q % 2 ^ 8 ≡ 0
unfolding size
delete-blank start t p more q le lt =
    let behind : cursor t < end t = omega (arith, p.at_ptr, p.at_end, p.ptr_start, more) in
    let count : cells_between (end t) (cursor t) ≡ end t - cursor t =
      ground (arith, behind, p.placed.end_row_in, p.placed.end_column_in) in
    let inside : end t < 1920 = omega (arith, p.placed.end_row_in, p.placed.end_column_in) in
    elim (Bool-cases (q == end t)) [
      | inl here ↦ ground (arith, here)
      | inr other ↦ elim (Bool-cases (leb (end t) q)) [
        | inl far ↦ ground (arith, other, far, count, p.blank q (ground (arith, far)) lt)
        | inr last ↦
            let moved : cursor t + 1 + (q - cursor t) ≡ end t = ground (arith, last, le, behind) in
            ground (
              arith,
              other,
              count,
              behind,
              last,
              p.blank (end t) (omega arith) inside,
              ap t.term_buffer moved,
            )
      ]
    ]

delete-shown :
    (start : ℕ) (t : Terminal)
    → IsEcho start t
    → t.line_buf_ptr < t.line_buf_array.now
    → (j : ℕ) → j + 1 < size (line t)
    → delete_cells t (start + j) % 2 ^ 8 ≡ (erased t).mem (t.line_buf_array.buf + j)
unfolding size
delete-shown start t p more j lt =
    let b : ℕ = t.line_buf_array.buf in
    let i : ℕ = t.line_buf_ptr - b in
    let k : ℕ = t.line_buf_array.now - t.line_buf_ptr - 1 in
    let n : size (line t) ≡ i + suc k = omega (arith, p.ptr_start, more) in
    let inside : end t < 1920 = omega (arith, p.placed.end_row_in, p.placed.end_column_in) in
    let count : cells_between (end t) (cursor t) ≡ suc k =
      ground (arith, inside, p.at_ptr, p.at_end, n) in
    let v =
      memmove (cursor t) (cursor t + 1) (cells_between (end t) (cursor t)) t.term_buffer (end t) in
    subst
      (λ m.
        upd (memmove (cursor t) (cursor t + 1) m t.term_buffer) (end t) (v / 256 * 256) (start + j)
          % 2 ^ 8
        ≡ (erased t).mem (b + j))
      (sym count)
      (shown-erase t.term_buffer t.mem start b i k (cursor t) t.line_buf_ptr (end t) (v / 256 * 256)
        p.at_ptr (omega (arith, p.ptr_start)) (omega (arith, p.at_end, n))
        (λ h l. p.shown h (omega (arith, l, n))) j (omega (arith, lt, n)))

row-before :
    (start : ℕ) (t : Terminal)
    → IsEcho start t
    → t.line_buf_ptr < t.line_buf_array.now
    → t.end_column ≡ 0
    → sub16 t.end_row 1 ≡ t.end_row - 1
unfolding size
row-before start t p more e =
    let behind : cursor t < end t = omega (arith, p.at_ptr, p.at_end, p.ptr_start, more) in
    ground (arith, behind, e, p.placed.end_row_in)

right-col :
    (start : ℕ) (t : Terminal)
    → IsEcho start t
    → t.line_buf_ptr < t.line_buf_array.now
    → 1 < size (line t)
    → t.end_column ≡ 0
    → (0 < t.end_row) × (right_not_null (delete_cells t) ((t.end_row - 1) * 80) 80 ≡ 79)
unfolding size
right-col start t p more two e =
    let n : ℕ = size (line t) in
    let base : ℕ = (t.end_row - 1) * 80 in
    let behind : cursor t < end t = omega (arith, p.at_ptr, p.at_end, p.ptr_start, more) in
    let row : 0 < t.end_row = omega (arith, behind, e) in
    let inside : end t < 1920 = omega (arith, p.placed.end_row_in, p.placed.end_column_in) in
    let last =
      delete-blank start t p more (base + 79) (omega (arith, row, e))
        (omega (arith, inside, row, e)) in
    let at : start + (n - 2) ≡ base + 78 = omega (arith, p.at_end, row, e, two) in
    let moved = delete-shown start t p more (n - 2) (omega (arith, two)) in
    let still : (erased t).mem (t.line_buf_array.buf + (n - 2)) ≢ 0 =
      visible-erase t.mem t.line_buf_array.buf (t.line_buf_ptr - t.line_buf_array.buf)
        (t.line_buf_array.now - t.line_buf_ptr - 1) t.line_buf_ptr (omega (arith, p.ptr_start))
        (λ h l. p.visible h (omega (arith, l, p.ptr_start, more))) (n - 2)
        (omega (arith, p.ptr_start, more, two)) in
    let seen : delete_cells t (base + 78) % 2 ^ 8 ≢ 0 =
      λ z. still (sym moved ∙ ap (λ q. delete_cells t q % 2 ^ 8) at ∙ z) in
    (
      row,
      right_not_null-blank (delete_cells t) base 79 last
          ∙ right_not_null-last (delete_cells t) base 78 seen,
    )

-- The end after a deletion is one cell before the old one, on the row above if need be: the cell
-- before it is the last that is not blank there.
delete_cell-end :
    (start : ℕ) (t : Terminal)
    → IsEcho start t
    → t.line_buf_ptr < t.line_buf_array.now
    → (t.end_column ≢ 0) ⊎ (1 < size (line t))
    → (r : ℕ) × (c : ℕ) × (delete_cell (erased t)
        ≡ record (erased t) { term_buffer = delete_cells t; end_row = r; end_column = c })
      × (r < 24)
      × (c < 80)
      × (r * 80 + c + 1 ≡ end t)
unfolding delete_cell find_right_not_null_col
delete_cell-end start t p more enough = elim (Bool-cases (t.end_column == 0)) [
  | inr e ↦ (
    t.end_row,
    t.end_column - 1,
    rw e refl,
    p.placed.end_row_in,
    ground (arith, p.placed.end_column_in),
    ground (arith, e),
  )
  | inl e ↦
      let zero_column : t.end_column ≡ 0 = (==_iff t.end_column 0).0 e in
      let long : 1 < size (line t) = elim enough [ inl h ↦ absurd (h zero_column) | inr h ↦ h ] in
      let (above, found) = right-col start t p more long zero_column in
      (
        t.end_row - 1,
        79,
        rw (e, row-before start t p more zero_column, found) refl,
        omega (arith, p.placed.end_row_in),
        omega arith,
        omega (arith, zero_column, above),
      )
]

erased-IsEcho :
    (start : ℕ) (t : Terminal) (r c : ℕ)
    → IsEcho start t
    → t.line_buf_ptr < t.line_buf_array.now
    → r < 24
    → c < 80
    → r * 80 + c + 1 ≡ end t
    → IsEcho start (record (erased t) { term_buffer = delete_cells t; end_row = r; end_column = c })
unfolding size
erased-IsEcho start t r c p more row column last =
    let b : ℕ = t.line_buf_array.buf in
    let k : ℕ = t.line_buf_array.now - t.line_buf_ptr - 1 in
    let inside : end t < 1920 = omega (arith, p.placed.end_row_in, p.placed.end_column_in) in
    record {
      placed = record {
        cursor_row_in = p.placed.cursor_row_in;
        cursor_column_in = p.placed.cursor_column_in;
        end_row_in = row;
        end_column_in = column;
        ordered = omega (arith, last, p.at_ptr, p.at_end, p.ptr_start, more);
      };
      valid = record {
        start = omega (arith, p.ptr_start, more);
        inside = omega (arith, p.valid.inside);
      };
      capacity = p.capacity;
      ptr_start = p.ptr_start;
      ptr_end = omega (arith, more);
      at_ptr = p.at_ptr;
      at_end = omega (arith, last, p.at_end, p.ptr_start, more);
      shown = λ j lt. delete-shown start t p more j (omega (arith, lt));
      visible = λ j lt.
          visible-erase t.mem b (t.line_buf_ptr - b) k t.line_buf_ptr (omega (arith, p.ptr_start))
            (λ h l. p.visible h (omega (arith, l, p.ptr_start, more))) j
            (omega (arith, lt, p.ptr_start, more));
      blank = λ q le lt. delete-blank start t p more q (omega (arith, le, last)) lt;
    }

pub erase-IsEcho :
    (start : ℕ) (t : Terminal)
    → IsEcho start t
    → t.line_buf_ptr < t.line_buf_array.now
    → (t.end_column ≢ 0) ⊎ (1 < size (line t))
    → IsEcho start (delete_unsafe (erased t))
      × (line (delete_unsafe (erased t)) ≡ line (erased t))
      × ((delete_unsafe (erased t)).line_buf_ptr ≡ t.line_buf_ptr)
unfolding delete_unsafe size update_cursor_unsafe
erase-IsEcho start t p more enough =
    let behind : cursor t < end t = omega (arith, p.at_ptr, p.at_end, p.ptr_start, more) in
    let (r, c, e, row, column, last) = delete_cell-end start t p more enough in
    let u = record (erased t) { term_buffer = delete_cells t; end_row = r; end_column = c } in
    let there : (cursor t == end t) ≡ false = lt→ne (cursor t) (end t) behind in
    rw (there, e)
      (update-IsEcho start u (erased-IsEcho start t r c p more row column last), refl, refl)
