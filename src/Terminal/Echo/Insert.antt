-- ===== src/Terminal/Echo/Insert.antt =====
-- A character typed into the line of src/terminal.c, on a screen that may have to scroll for it.
use mathlib.Core.Path.{subst}
use clubcos.Array.{memmove, size}
use clubcos.Terminal.{
  Terminal, cursor, end, cells_between, vga_entry, update_cursor_unsafe, scroll_screen, insert_cell,
  scrolled_up, add_char,
}
use clubcos.Terminal.Placed.{
  IsPlaced, update-IsPlaced, insert_cell-IsPlaced, next-cell, scrolled_up-IsPlaced,
}
use clubcos.Terminal.Input.{line, set_line}
use clubcos.Terminal.Echo.{IsEcho, shown-insert, visible-insert}
use clubcos.Prelude.{
  ℕ, suc, ◌+◌, ◌-◌, ◌%◌, ◌^◌, ◌≤◌, ◌<◌, ◌≡◌, refl, sym, ap, ◌≢◌, ◌⊎◌, inl, inr, true, false, ◌&&◌,
  arith, ◌==◌, Bool-cases, upd, sub16,
}

-- The terminal with the byte in its line, the screen still without it.
abbrev pub typed : ℕ → Terminal → Terminal
typed c t =
    let a = record (line t) {
      mem =
          upd
            (memmove (t.line_buf_ptr + 1) t.line_buf_ptr (t.line_buf_array.now - t.line_buf_ptr)
              t.mem)
            t.line_buf_ptr (c % 2 ^ 8);
      now = t.line_buf_array.now + 1;
    } in
    record (set_line a t) { line_buf_ptr = t.line_buf_ptr + 1 }

typed-IsPlaced : (c : ℕ) (t : Terminal) → IsPlaced t → IsPlaced (typed c t)
typed-IsPlaced c t p = record {
  cursor_row_in = p.cursor_row_in;
  cursor_column_in = p.cursor_column_in;
  end_row_in = p.end_row_in;
  end_column_in = p.end_column_in;
  ordered = p.ordered;
}

pub insert_cell-IsEcho :
    (start c : ℕ) (t : Terminal)
    → IsEcho start t
    → end t < 1919
    → t.line_buf_array.now ≢ t.line_buf_array.end
    → 0 < c
    → c < 128
    → IsEcho start (insert_cell c (typed c t))
unfolding insert_cell size
insert_cell-IsEcho start c t p room more pos ascii =
    let pl = p.placed in
    let at =
      next-cell t.cursor_row t.cursor_column pl.cursor_column_in
        (omega (arith, pl.cursor_row_in)) in
    let behind = next-cell t.end_row t.end_column pl.end_column_in (omega (arith, pl.end_row_in)) in
    let b : ℕ = t.line_buf_array.buf in
    let i : ℕ = t.line_buf_ptr - b in
    let k : ℕ = t.line_buf_array.now - t.line_buf_ptr in
    let n : size (line t) ≡ i + k = omega (arith, p.ptr_start, p.ptr_end) in
    let n' : t.line_buf_array.now + 1 - b ≡ i + suc k = omega (arith, p.ptr_start, p.ptr_end) in
    let ep : t.line_buf_ptr ≡ b + i = omega (arith, p.ptr_start) in
    let count : cells_between (end t) (cursor t) ≡ k =
      ground (arith, p.at_ptr, p.at_end, n, room) in
    let entry : vga_entry c t.term_color % 2 ^ 8 ≡ c % 2 ^ 8 = ground arith in
    record {
      placed = insert_cell-IsPlaced c (typed c t) (typed-IsPlaced c t pl) room;
      valid = record {
        start = omega (arith, p.valid.start);
        inside = omega (arith, p.valid.inside, more);
      };
      capacity = p.capacity;
      ptr_start = omega (arith, p.ptr_start);
      ptr_end = omega (arith, p.ptr_end);
      at_ptr = omega (arith, at.0, p.at_ptr, p.ptr_start);
      at_end = omega (arith, behind.0, p.at_end, p.ptr_start, p.ptr_end);
      shown = λ j lt.
          subst
            (λ m.
              upd (memmove (cursor t + 1) (cursor t) m t.term_buffer) (cursor t)
                  (vga_entry c t.term_color) (start + j)
                % 2 ^ 8
              ≡ (typed c t).mem (b + j))
            (sym count)
            (shown-insert t.term_buffer t.mem start b i k (cursor t) t.line_buf_ptr
              (vga_entry c t.term_color) (c % 2 ^ 8) p.at_ptr ep entry
              (λ h l. p.shown h (omega (arith, l, n))) j (omega (arith, lt, n')));
      visible = λ j lt.
          visible-insert t.mem b i k t.line_buf_ptr (c % 2 ^ 8) ep (ground arith)
            (λ h l. p.visible h (omega (arith, l, n))) j (omega (arith, lt, n'));
      blank = λ q le lt.
          let last : cursor t + k ≡ end t = omega (arith, p.at_ptr, p.at_end, n) in
          let far : end t < q = omega (arith, le, behind.0) in
          ground (arith, p.blank q (omega (arith, far)) lt, count);
    }

pub scrolled_up-IsEcho :
    (start : ℕ) (t : Terminal) → IsEcho (start + 80) t → end t ≡ 1919 → IsEcho start (scrolled_up t)
unfolding scrolled_up scroll_screen size
scrolled_up-IsEcho start t p full =
    let pl = p.placed in
    let last : t.end_row ≡ 23 = omega (arith, full, pl.end_column_in, pl.end_row_in) in
    let above : 0 < t.cursor_row = omega (arith, p.at_ptr, pl.cursor_column_in) in
    let row : sub16 t.cursor_row 1 ≡ t.cursor_row - 1 = ground (arith, pl.cursor_row_in) in
    let endr : sub16 t.end_row 1 ≡ t.end_row - 1 = ground (arith, pl.end_row_in) in
    let buf : ℕ = t.line_buf_array.buf in
    record {
      placed = (scrolled_up-IsPlaced t pl above last).0;
      valid = record { start = p.valid.start; inside = p.valid.inside };
      capacity = p.capacity;
      ptr_start = p.ptr_start;
      ptr_end = p.ptr_end;
      at_ptr = omega (arith, row, above, p.at_ptr);
      at_end = omega (arith, endr, last, p.at_end);
      shown = λ j lt.
          let inside : start + 80 + j < 1919 = omega (arith, p.at_end, lt, full) in
          let moved : 80 + (start + j - 0) ≡ start + 80 + j = omega arith in
          ground (arith, p.shown j lt, ap t.term_buffer moved, inside);
      visible = p.visible;
      blank = λ q le lt. elim (Bool-cases (q == 1839)) [
        | inl here ↦
            let moved : 80 + (q - 0) ≡ 1919 = ground arith in
            ground (arith, p.blank 1919 (omega (arith, full)) (omega arith), ap t.term_buffer moved)
        | inr far ↦ let low : 1840 ≤ q = ground (arith, le, endr, last, full) in ground (arith, low)
      ];
    }

pub update-IsEcho :
    (start : ℕ) (t : Terminal) → IsEcho start t → IsEcho start (update_cursor_unsafe t)
unfolding update_cursor_unsafe
update-IsEcho start t p = record {
  placed = update-IsPlaced t p.placed;
  valid = p.valid;
  capacity = p.capacity;
  ptr_start = p.ptr_start;
  ptr_end = p.ptr_end;
  at_ptr = p.at_ptr;
  at_end = p.at_end;
  shown = p.shown;
  visible = p.visible;
  blank = p.blank;
}

-- The text starts low enough for the screen to scroll when it is full.
start-below : (start : ℕ) (t : Terminal) → IsEcho start t → end t ≡ 1919 → 1670 ≤ start
unfolding size
start-below start t p full = omega (arith, p.at_end, full, p.valid.inside, p.capacity)

pub add_char-IsEcho :
    (start c : ℕ) (t : Terminal)
    → IsEcho start t
    → t.line_buf_array.now ≢ t.line_buf_array.end
    → 0 < c
    → c < 128
    → (start' : ℕ) × (t' : Terminal) × (add_char c (typed c t) ≡ (true, t'))
      × ((start' ≡ start) ⊎ (start' + 80 ≡ start))
      × IsEcho start' t'
      × (line t' ≡ line (typed c t))
      × (t'.line_buf_ptr ≡ t.line_buf_ptr + 1)
unfolding add_char update_cursor_unsafe insert_cell scrolled_up scroll_screen
add_char-IsEcho start c t p more pos ascii =
    let pl = p.placed in
    elim (Bool-cases ((t.end_row == 23) && (t.end_column == 79))) [
      | inl full ↦
          let e : end t ≡ 1919 = ground arith in
          let low = start-below start t p e in
          let up : start - 80 + 80 ≡ start = omega (arith, low) in
          let here : (t.cursor_row == 0) ≡ false =
            ground (arith, p.at_ptr, low, pl.cursor_column_in) in
          let q = scrolled_up-IsEcho (start - 80) t (subst (λ s. IsEcho s t) (sym up) p) e in
          let above : 0 < t.cursor_row = ground (arith, here) in
          let room = (scrolled_up-IsPlaced t pl above (ground (arith, full))).1 in
          let u = insert_cell c (scrolled_up (typed c t)) in
          (
            start - 80,
            update_cursor_unsafe u,
            rw (full, here) refl,
            inr up,
            update-IsEcho (start - 80) u
                (insert_cell-IsEcho (start - 80) c (scrolled_up t) q room more pos ascii),
            refl,
            refl,
          )
      | inr space ↦
          let room : end t < 1919 = ground (arith, space, pl.end_row_in, pl.end_column_in) in
          let u = insert_cell c (typed c t) in
          (
            start,
            update_cursor_unsafe u,
            rw space refl,
            inl refl,
            update-IsEcho start u (insert_cell-IsEcho start c t p room more pos ascii),
            refl,
            refl,
          )
    ]
