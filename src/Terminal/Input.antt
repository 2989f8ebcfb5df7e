-- ===== src/Terminal/Input.antt =====
-- The keys typed into the screen of src/terminal.c, and the buffers they go to: the line being
-- typed, the lines finished and the keys hit.
pub mod Read
use clubcos.Array.{Array8, insert, erase, append, init}
use clubcos.Queue.{Queue, put}
use clubcos.Queue as Queues
use clubcos.Semaphore.{BiSem, post, unpost}
use clubcos.Terminal.{
  Terminal, TermStatus, string_inputing, waiting, cursor, end, cells_between, fill, vga_entry,
  update_cursor_unsafe, new_line, delete_unsafe, backspace_unsafe, put_char_unsafe, next_row,
  next_column,
}
use clubcos.Prelude.{
  ℕ, zero, suc, ◌+◌, ◌-◌, ◌*◌, ◌/◌, ◌%◌, ◌^◌, ◌≤◌, ◌<◌, ◌≡◌, refl, sym, ap, ◌∙◌, ◌≢◌, ◌↔◌, ◌⊎◌, inl,
  inr, Bool, true, false, not, ◌&&◌, ◌||◌, Option, none, some, List, [], ◌∷◌, ◌++◌, map, arith, ltb,
  leb, ◌==◌, if◌then◌else◌, ltb→lt, lt→ltb, leb→le, ==_iff, tests, Bool-cases, Option-cases, length,
  get_elem?, set, get_or, take, drop, replicate, length-append, length-set, get_elem?-set_self,
  get_elem?-set_ne, take-append-drop, length-take, length-drop, length-replicate, length-map,
  get_or-set_self, get_or-set_ne, u8_mod, u16_mod, u32_mod, add32, sub32, Store, upd, has, Distinct,
  has-append, Distinct-snoc, Distinct-drop, Distinct-remove, has_same, Distinct-gone, all_below,
  all_below_sound, sub16,
}

-- The line being typed and the finished lines, as byte arrays in the memory.
abbrev pub line : Terminal → Array8
line t = record t.line_buf_array { mem = t.mem }

abbrev pub input : Terminal → Array8
input t = record t.input_array { mem = t.mem }

abbrev pub set_line : Array8 → Terminal → Terminal
set_line a t = record t { line_buf_array = a; mem = a.mem }

abbrev pub set_input : Array8 → Terminal → Terminal
set_input a t = record t { input_array = a; mem = a.mem }

-- The array of the line leaves the last byte of the buffer out.
unfoldable pub clear_line_buffer_unsafe : Terminal → Terminal
unfolding init
clear_line_buffer_unsafe t = set_line (init t.line_buffer (t.line_buffer + 249) t.mem) (record t {
  end_column = t.cursor_column;
  end_row = t.cursor_row;
  line_buf_ptr = t.line_buffer;
})

unfoldable pub clear_input_buffer_unsafe : Terminal → Terminal
unfolding init unpost
clear_input_buffer_unsafe t =
    set_input (init t.input_buffer (t.input_buffer + 1024) t.mem)
      (record t { line_event = (unpost t.line_event).1 })

unfoldable pub clear_hit_key_buffer_unsafe : Terminal → Terminal
unfolding Queues.init unpost
clear_hit_key_buffer_unsafe t = record t {
  hit_key_queue = Queues.init t.hit_key_queue.buf 1024;
  hit_event = (unpost t.hit_event).1;
}

unfoldable pub clear_all_buffers : Terminal → Terminal
unfolding clear_hit_key_buffer_unsafe clear_input_buffer_unsafe clear_line_buffer_unsafe
clear_all_buffers t =
    clear_line_buffer_unsafe (clear_input_buffer_unsafe (clear_hit_key_buffer_unsafe t))

unfoldable pub cls_unsafe : Terminal → Terminal
unfolding clear_line_buffer_unsafe update_cursor_unsafe
cls_unsafe t =
    let t1 = record t { term_buffer = fill 0 (vga_entry 0 t.term_color) (24 * 80) t.term_buffer } in
    record (update_cursor_unsafe (clear_line_buffer_unsafe t1)) {
      cursor_row = 0;
      cursor_column = 0;
      end_row = 0;
      end_column = 0;
    }

unfoldable pub goto_xy : ℕ → ℕ → Terminal → Terminal
unfolding clear_line_buffer_unsafe clear_input_buffer_unsafe update_cursor_unsafe
goto_xy x y t =
    update_cursor_unsafe (record (clear_input_buffer_unsafe (clear_line_buffer_unsafe t)) {
      cursor_column = x;
      end_column = x;
      cursor_row = y;
      end_row = y;
    })

-- `while (col < 0)`: the rows that a column `below` cells before the row's start is above it.
unfoldable pub rows_back : ℕ → ℕ → ℕ
rows_back zero below = 0
rows_back (suc k) below = let rest = rows_back k (below - 80) in if below == 0 then 0 else suc rest

-- On a screen of 65,536 cells no gap needs more than 820 rows.
unfoldable pub cancel_inputing : Terminal → Terminal
unfolding rows_back clear_line_buffer_unsafe update_cursor_unsafe
cancel_inputing t =
    let gap = (t.line_buf_array.now - t.line_buf_array.buf) % 2 ^ 16 in
    let rows = rows_back 820 (gap - t.cursor_column) in
    let t1 = record t {
      cursor_row = sub16 t.cursor_row rows;
      cursor_column = (t.cursor_column + rows * 80 - gap) % 2 ^ 16;
    } in
    let t2 = record t1 {
      term_buffer =
          fill (cursor t1) (vga_entry 0 t.term_color) (sub32 (end t1) (cursor t1)) t.term_buffer;
    } in
    update_cursor_unsafe (clear_line_buffer_unsafe t2)

-- A line finished: it goes to the finished lines as far as there is room, with a newline behind it.
unfoldable pub finish_line : Terminal → Terminal
unfolding append post clear_line_buffer_unsafe new_line
finish_line t =
    let t1 = new_line t in
    let a = append (input t1) t1.line_buf_array.buf t1.line_buf_array.now in
    let l = t1.line_buf_array in
    let l' = if l.end == l.now then record l { now = l.now - 1 } else l in
    let a' = record a { mem = upd a.mem a.now 10; now = a.now + 1 } in
    clear_line_buffer_unsafe
      (record (set_input a' t1) { line_buf_array = l'; line_event = (post t1.line_event).1 })

-- An `Array8` operation that fails its assertion stops the system.
abbrev pub then_line : Option Array8 → (Terminal → Option Terminal) → Terminal → Option Terminal
then_line none go t = none
then_line (some a) go t = go (set_line a t)

abbrev pub retract : Terminal → Terminal
retract t = record t { line_buf_ptr = t.line_buf_ptr - 1 }

unfoldable pub key_backspace : ℕ → Terminal → Option Terminal
unfolding erase backspace_unsafe
key_backspace fuel t =
    let back = retract t in
    if not (t.line_buf_ptr == t.line_buf_array.buf)
    then then_line (erase back.line_buf_ptr (line back)) (backspace_unsafe fuel) back
    else some t

unfoldable pub key_delete : Terminal → Option Terminal
unfolding erase delete_unsafe
key_delete t =
    if not (t.line_buf_ptr == t.line_buf_array.now)
    then then_line (erase t.line_buf_ptr (line t)) (λ u. some (delete_unsafe u)) t
    else some t

unfoldable pub key_left : Terminal → Terminal
unfolding update_cursor_unsafe
key_left t =
    let back = retract t in
    let moved =
      if t.cursor_column == 0
      then record back { cursor_row = sub16 t.cursor_row 1; cursor_column = 79 }
      else record back { cursor_column = t.cursor_column - 1 } in
    if not (t.line_buf_ptr == t.line_buf_array.buf) then update_cursor_unsafe moved else t

unfoldable pub key_right : Terminal → Terminal
unfolding update_cursor_unsafe
key_right t =
    let moved = record t {
      line_buf_ptr = t.line_buf_ptr + 1;
      cursor_row = next_row t.cursor_row t.cursor_column;
      cursor_column = next_column t.cursor_column;
    } in
    if not (t.line_buf_ptr == t.line_buf_array.now) then update_cursor_unsafe moved else t

-- What the screen could not take is taken out of the line again.
unfoldable pub echoed : Option (Bool × Terminal) → Option Terminal
unfolding erase
echoed none = none
echoed (some (true, t)) = some t
echoed (some (false, t)) =
    let back = retract t in then_line (erase back.line_buf_ptr (line back)) (λ u. some u) back

unfoldable pub insert_echo : ℕ → ℕ → Option (Bool × Array8) → Terminal → Option Terminal
unfolding echoed put_char_unsafe
insert_echo fuel c none t = none
insert_echo fuel c (some (false, a)) t = some t
insert_echo fuel c (some (true, a)) t =
    echoed (put_char_unsafe fuel c (record (set_line a t) { line_buf_ptr = t.line_buf_ptr + 1 }))

unfoldable pub key_char : ℕ → ℕ → Terminal → Option Terminal
unfolding insert_echo insert
key_char fuel c t = insert_echo fuel c (insert t.line_buf_ptr c (line t)) t

-- `(c <= 0x1f && c == 0x7f)` of src/string.h.
unfoldable pub iscntrl : ℕ → Bool
iscntrl c = leb c 31 && (c == 127)

unfoldable pub edit_key : ℕ → ℕ → Terminal → Option Terminal
unfolding finish_line cancel_inputing key_backspace key_char iscntrl key_delete key_left key_right
edit_key fuel cascii t =
    if ltb cascii 128
    then if cascii == 10
      then some (finish_line t)
      else if cascii == 27
      then some (cancel_inputing t)
      else if cascii == 8
      then key_backspace fuel t
      else if not (iscntrl cascii)
      then key_char fuel cascii t
      else some t
    else if (cascii == 173) || (cascii == 157)
    then key_delete t
    else if (cascii == 167) || (cascii == 150)
    then some (key_left t)
    else if (cascii == 168) || (cascii == 152)
    then some (key_right t)
    else some t

abbrev restore_status : TermStatus → Option Terminal → Option Terminal
restore_status stat none = none
restore_status stat (some t) = some (record t { term_stat = stat })

abbrev when_inputing : TermStatus → Option Terminal → Option Terminal → Option Terminal
when_inputing string_inputing go stay = go
when_inputing waiting go stay = stay

-- Between entering and posting the terminal's semaphore, which `locked` of `Read` adds.
unfoldable pub on_input : ℕ → ℕ → Terminal → Option Terminal
unfolding put post edit_key
on_input fuel cascii t =
    let t1 = record t {
      hit_key_queue = (put t.hit_key_queue cascii).1;
      hit_event = (post t.hit_event).1;
    } in
    when_inputing t.term_stat
      (restore_status t.term_stat (edit_key fuel cascii (record t1 { term_stat = waiting })))
      (some t1)
