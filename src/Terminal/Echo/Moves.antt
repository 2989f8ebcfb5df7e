-- ===== src/Terminal/Echo/Moves.antt =====
-- The arrow keys of src/terminal.c: the position in the line moves, and the screen still shows it.
use clubcos.Array.{size}
use clubcos.Terminal.{Terminal, update_cursor_unsafe, next_row, next_column}
use clubcos.Terminal.Placed.{next-cell}
use clubcos.Terminal.Input.{line, key_left, key_right}
use clubcos.Terminal.Echo.{IsEcho}
use clubcos.Terminal.Echo.Insert.{update-IsEcho}
use clubcos.Terminal.Echo.Keys.{text, position}
use clubcos.Prelude.{
  ℕ, ◌+◌, ◌-◌, ◌*◌, ◌≤◌, ◌<◌, ◌≡◌, refl, inl, inr, true, false, arith, ◌==◌, if◌then◌else◌, ==_iff,
  Bool-cases, lt→ne, sub16,
}

-- The pointer and the cursor moved together inside the text.
pub moved-IsEcho :
    (start ptr r c : ℕ) (t : Terminal)
    → IsEcho start t
    → t.line_buf_array.buf ≤ ptr
    → ptr ≤ t.line_buf_array.now
    → c < 80
    → r * 80 + c ≡ start + (ptr - t.line_buf_array.buf)
    → IsEcho start (record t { line_buf_ptr = ptr; cursor_row = r; cursor_column = c })
unfolding size
moved-IsEcho start ptr r c t p low high column at = record {
  placed = record {
    cursor_row_in = omega (arith, at, p.at_end, high, p.placed.end_row_in, p.placed.end_column_in);
    cursor_column_in = column;
    end_row_in = p.placed.end_row_in;
    end_column_in = p.placed.end_column_in;
    ordered = omega (arith, at, p.at_end, high);
  };
  valid = p.valid;
  capacity = p.capacity;
  ptr_start = low;
  ptr_end = high;
  at_ptr = at;
  at_end = p.at_end;
  shown = p.shown;
  visible = p.visible;
  blank = p.blank;
}

-- The left arrow moves the position back by one, or not at all at the start of the text, and the
-- right arrow on by one, or not at all at its end; the text stays, and the screen still shows it.
pub key_left-IsEcho :
    (start : ℕ) (t : Terminal)
    → IsEcho start t
    → IsEcho start (key_left t)
      × (position (key_left t) ≡ position t - 1)
      × (text (key_left t) ≡ text t)
unfolding key_left update_cursor_unsafe
key_left-IsEcho start t p = elim (Bool-cases (t.line_buf_ptr == t.line_buf_array.buf)) [
  | inl e ↦
      let first : t.line_buf_ptr ≡ t.line_buf_array.buf =
        (==_iff t.line_buf_ptr t.line_buf_array.buf).0 e in
      rw e (p, omega (arith, first), refl)
  | inr e ↦
      let later : t.line_buf_array.buf < t.line_buf_ptr = ground (arith, e, p.ptr_start) in
      elim (Bool-cases (t.cursor_column == 0)) [
        | inl z ↦
            let zero_column : t.cursor_column ≡ 0 = (==_iff t.cursor_column 0).0 z in
            let above : 0 < t.cursor_row = omega (arith, p.at_ptr, later, zero_column) in
            let row : sub16 t.cursor_row 1 ≡ t.cursor_row - 1 =
              ground (arith, above, p.placed.cursor_row_in) in
            let u = record t {
              line_buf_ptr = t.line_buf_ptr - 1;
              cursor_row = t.cursor_row - 1;
              cursor_column = 79;
            } in
            rw (e, z, row)
              (
                update-IsEcho start u (
                    moved-IsEcho start (t.line_buf_ptr - 1) (t.cursor_row - 1) 79 t p
                      (omega (arith, later)) (omega (arith, p.ptr_end)) (omega arith)
                      (omega (arith, p.at_ptr, zero_column, above, later))),
                omega arith,
                refl,
              )
        | inr z ↦
            let inside : 0 < t.cursor_column = ground (arith, z) in
            let u = record t {
              line_buf_ptr = t.line_buf_ptr - 1;
              cursor_column = t.cursor_column - 1;
            } in
            rw (e, z)
              (
                update-IsEcho start u (
                    moved-IsEcho start (t.line_buf_ptr - 1) t.cursor_row (t.cursor_column - 1) t p
                      (omega (arith, later)) (omega (arith, p.ptr_end))
                      (omega (arith, p.placed.cursor_column_in))
                      (omega (arith, p.at_ptr, inside, later))),
                omega arith,
                refl,
              )
      ]
]

key_right-IsEcho :
    (start : ℕ) (t : Terminal)
    → IsEcho start t
    → IsEcho start (key_right t)
      × (position (key_right t)
          ≡ (if position t == size (line t) then position t else position t + 1))
      × (text (key_right t) ≡ text t)
unfolding key_right update_cursor_unsafe size
key_right-IsEcho start t p = elim (Bool-cases (t.line_buf_ptr == t.line_buf_array.now)) [
  | inl e ↦
      let last : (position t == size (line t)) ≡ true = ground (arith, e) in
      rw (e, last) (p, refl, refl)
  | inr e ↦
      let more : t.line_buf_ptr < t.line_buf_array.now = ground (arith, e, p.ptr_end) in
      let inside : (position t == size (line t)) ≡ false =
        lt→ne (position t) (size (line t)) (omega (arith, more, p.ptr_start)) in
      let next =
        next-cell t.cursor_row t.cursor_column p.placed.cursor_column_in
          (omega (arith, p.placed.cursor_row_in)) in
      let r : ℕ = next_row t.cursor_row t.cursor_column in
      let c : ℕ = next_column t.cursor_column in
      let u = record t { line_buf_ptr = t.line_buf_ptr + 1; cursor_row = r; cursor_column = c } in
      rw (e, inside)
        (
          update-IsEcho start u (
              moved-IsEcho start (t.line_buf_ptr + 1) r c t p (omega (arith, p.ptr_start))
                (omega (arith, more)) next.1 (omega (arith, next.0, p.at_ptr, p.ptr_start))),
          omega (arith, p.ptr_start),
          refl,
        )
]
