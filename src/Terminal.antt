-- ===== src/Terminal.antt =====
-- The text screen and its line input, src/terminal.c and src/terminal.h: the screen's cells, the
-- cursor and the end of the text being typed. The screen is that of one process.
-- A screen cell is its index; `none` is a loop that has not ended within the fuel.
pub mod Input
pub mod Print
pub mod Placed
pub mod Echo
pub mod Wrap
pub mod Lines
mod Tests
use clubcos.Array.{Array8, memmove}
use clubcos.Queue.{Queue}
use clubcos.Semaphore.{BiSem}
use clubcos.Prelude.{
  ℕ, zero, suc, ◌+◌, ◌-◌, ◌*◌, ◌/◌, ◌%◌, ◌^◌, ◌≤◌, ◌<◌, ◌≡◌, refl, sym, ap, ◌∙◌, ◌≢◌, ◌↔◌, ◌⊎◌, inl,
  inr, Bool, true, false, not, ◌&&◌, ◌||◌, Option, none, some, List, [], ◌∷◌, ◌++◌, map, arith, ltb,
  leb, ◌==◌, if◌then◌else◌, ltb→lt, lt→ltb, leb→le, ==_iff, tests, Bool-cases, Option-cases, length,
  get_elem?, set, get_or, take, drop, replicate, length-append, length-set, get_elem?-set_self,
  get_elem?-set_ne, take-append-drop, length-take, length-drop, length-replicate, length-map,
  get_or-set_self, get_or-set_ne, u8_mod, u16_mod, u32_mod, add32, sub32, Store, upd, has, Distinct,
  has-append, Distinct-snoc, Distinct-drop, Distinct-remove, has_same, Distinct-gone, all_below,
  all_below_sound, sub16,
}

abbrev pub width : ℕ
width = 80

abbrev pub height : ℕ
height = 24

pub data TermStatus : Type 0 where
  string_inputing : TermStatus
  waiting : TermStatus

-- `line_buffer` and `input_buffer` are the addresses of the static buffers; `mem` is the memory of
-- both arrays; `ports` holds the writes to the ports, the last first.
pub record Terminal : Type 0 where
  pub term_buffer : ℕ → ℕ
  pub cursor_row : ℕ
  pub cursor_column : ℕ
  pub end_row : ℕ
  pub end_column : ℕ
  pub term_color : ℕ
  pub anti_color : ℕ
  pub term_stat : TermStatus
  pub mem : ℕ → ℕ
  pub line_buffer : ℕ
  pub input_buffer : ℕ
  pub line_buf_ptr : ℕ
  pub line_buf_array : Array8
  pub input_array : Array8
  pub hit_key_queue : Queue
  pub term_mutex : BiSem
  pub hit_event : BiSem
  pub line_event : BiSem
  pub default_begin_height : ℕ
  pub default_end_height : ℕ
  pub ports : List (ℕ × ℕ)

-- `~color ^ 0x8080`, cut to eight bits.
abbrev pub invert : ℕ → ℕ
invert color = if ltb (color % 2 ^ 8) 128 then 127 - color % 2 ^ 8 else 383 - color % 2 ^ 8

-- A `char` of 0x80 and above is widened with ones, which cover the color.
abbrev pub vga_entry : ℕ → ℕ → ℕ
vga_entry c color = if ltb c 128 then c + color * 256 else 65280 + c

-- `_memset_2`.
abbrev pub fill : ℕ → ℕ → ℕ → (ℕ → ℕ) → ℕ → ℕ
fill dest entry count cells q = if leb dest q && ltb q (dest + count) then entry else cells q

abbrev pub cursor : Terminal → ℕ
cursor t = t.cursor_row * 80 + t.cursor_column

abbrev pub end : Terminal → ℕ
end t = t.end_row * 80 + t.end_column

-- The number of cells that `(p - q) * sizeof(uint16_t)` bytes are.
abbrev pub cells_between : ℕ → ℕ → ℕ
cells_between p q = sub32 p q % 2 ^ 31

abbrev pub port_out_byte : ℕ → ℕ → Terminal → Terminal
port_out_byte port value t = record t { ports = (port, value % 2 ^ 8) ∷ t.ports }

unfoldable pub update_cursor_unsafe : Terminal → Terminal
update_cursor_unsafe t =
    let pos : ℕ = cursor t % 2 ^ 16 in
    port_out_byte 981 (pos / 256)
      (port_out_byte 980 14 (port_out_byte 981 pos (port_out_byte 980 15 t)))

unfoldable pub put_entry_at : ℕ → ℕ → ℕ → ℕ → Terminal → Terminal
put_entry_at c color x y t = record t {
  term_buffer = upd t.term_buffer (y * 80 + x) (vga_entry c color);
}

unfoldable pub put_char_entry_at : ℕ → ℕ → ℕ → Terminal → Terminal
unfolding put_entry_at
put_char_entry_at c x y t = put_entry_at c t.term_color x y t

-- The column behind the last of the first `k` cells from `base` that is not blank.
unfoldable pub right_not_null : (ℕ → ℕ) → ℕ → ℕ → ℕ
right_not_null cells base zero = 0
right_not_null cells base (suc k) =
    let rest = right_not_null cells base k in
    if not (cells (base + k) % 2 ^ 8 == 0) then suc k else rest

unfoldable pub find_right_not_null_col : ℕ → Terminal → ℕ
unfolding right_not_null
find_right_not_null_col row t = right_not_null t.term_buffer (row * 80) 80

unfoldable pub scroll_screen : Terminal → Terminal
scroll_screen t = record t {
  term_buffer = fill (23 * 80) (vga_entry 0 t.term_color) 80 (memmove 0 80 (23 * 80) t.term_buffer);
}

unfoldable pub new_line : Terminal → Terminal
unfolding scroll_screen update_cursor_unsafe
new_line t =
    let next = (t.end_row + 1) % 2 ^ 16 in
    let t1 = record t { end_column = 0; end_row = next } in
    let t2 = if next == 24 then record (scroll_screen t1) { end_row = next - 1 } else t1 in
    update_cursor_unsafe (record t2 { cursor_column = t2.end_column; cursor_row = t2.end_row })

-- `++column == TERMINAL_WIDTH`, then on to the next row.
abbrev pub next_row : ℕ → ℕ → ℕ
next_row row column = if (column + 1) % 2 ^ 16 == 80 then (row + 1) % 2 ^ 16 else row

abbrev pub next_column : ℕ → ℕ
next_column column = if (column + 1) % 2 ^ 16 == 80 then 0 else (column + 1) % 2 ^ 16

-- The character at the cursor, what stands from there to the end moved on by one.
unfoldable pub insert_cell : ℕ → Terminal → Terminal
insert_cell c t =
    let moved =
      memmove (cursor t + 1) (cursor t) (cells_between (end t) (cursor t)) t.term_buffer in
    record t {
      term_buffer = upd moved (cursor t) (vga_entry c t.term_color);
      cursor_row = next_row t.cursor_row t.cursor_column;
      cursor_column = next_column t.cursor_column;
      end_row = next_row t.end_row t.end_column;
      end_column = next_column t.end_column;
    }

unfoldable pub scrolled_up : Terminal → Terminal
unfolding scroll_screen
scrolled_up t = record (scroll_screen t) {
  end_row = sub16 t.end_row 1;
  cursor_row = sub16 t.cursor_row 1;
}

unfoldable pub add_char : ℕ → Terminal → Bool × Terminal
unfolding insert_cell scrolled_up update_cursor_unsafe
add_char c t =
    if (t.end_row == 23) && (t.end_column == 79)
    then if t.cursor_row == 0
      then (false, update_cursor_unsafe t)
      else (true, update_cursor_unsafe (insert_cell c (scrolled_up t)))
    else (true, update_cursor_unsafe (insert_cell c t))

-- What stands behind the cursor moved up to it, and the cell at the end made blank.
abbrev pub delete_cells : Terminal → ℕ → ℕ
delete_cells t =
    let cells =
      memmove (cursor t) (cursor t + 1) (cells_between (end t) (cursor t)) t.term_buffer in
    upd cells (end t) (cells (end t) / 256 * 256)

-- The cell at the cursor taken out.
unfoldable pub delete_cell : Terminal → Terminal
unfolding find_right_not_null_col
delete_cell t =
    let t1 = record t { term_buffer = delete_cells t } in
    let row = sub16 t.end_row 1 in
    if not (t.end_column == 0)
    then record t1 { end_column = t.end_column - 1 }
    else record t1 { end_row = row; end_column = find_right_not_null_col row t1 }

unfoldable pub delete_unsafe : Terminal → Terminal
unfolding delete_cell update_cursor_unsafe
delete_unsafe t = update_cursor_unsafe (if not (cursor t == end t) then delete_cell t else t)

-- `while (s_CursorColumn < TERMINAL_WIDTH)`.
unfoldable pub wrap_end : ℕ → Terminal → Option Terminal
wrap_end zero t = if ltb t.cursor_column 80 then none else some t
wrap_end (suc k) t =
    let rest =
      wrap_end k
        (record t { end_row = (t.end_row + 1) % 2 ^ 16; end_column = sub16 t.end_column 80 }) in
    if ltb t.cursor_column 80 then rest else some t

-- The text behind the cursor's row pulled up behind the row above.
unfoldable pub join_rows : Terminal → Terminal
unfolding find_right_not_null_col
join_rows t =
    let row = t.cursor_row - 1 in
    let column = find_right_not_null_col row t in
    let new = row * 80 + column in
    let diff = sub32 (end t) (cursor t) % 2 ^ 16 in
    record t {
      cursor_row = row;
      cursor_column = column;
      term_buffer =
          fill (new + diff) (vga_entry 0 t.term_color) (sub32 (sub32 (end t) new) diff)
            (memmove new (cursor t) diff t.term_buffer);
      end_row = row;
      end_column = (column + diff) % 2 ^ 16;
    }

abbrev pub show_cursor : Option Terminal → Option Terminal
unfolding update_cursor_unsafe
show_cursor none = none
show_cursor (some t) = some (update_cursor_unsafe t)

unfoldable pub backspace_unsafe : ℕ → Terminal → Option Terminal
unfolding delete_unsafe update_cursor_unsafe wrap_end join_rows
backspace_unsafe fuel t =
    if not (t.cursor_column == 0)
    then some (delete_unsafe (record t { cursor_column = t.cursor_column - 1 }))
    else if not (t.cursor_row == 0)
    then show_cursor (wrap_end fuel (join_rows t))
    else some (update_cursor_unsafe t)

abbrev pub answer_true : Option Terminal → Option (Bool × Terminal)
answer_true none = none
answer_true (some t) = some (true, t)

unfoldable pub put_char_unsafe : ℕ → ℕ → Terminal → Option (Bool × Terminal)
unfolding new_line backspace_unsafe add_char
put_char_unsafe fuel c t =
    if c == 10
    then some (true, new_line t)
    else if c == 8
    then answer_true (backspace_unsafe fuel t)
    else if not (c == 0)
    then some (add_char c t)
    else some (true, t)
