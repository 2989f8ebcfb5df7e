-- ===== src/Terminal/Input/Read.antt =====
-- The calls of src/terminal.c that enter its semaphores: reading lines, characters and keys, and
-- setting the screen up. `none` is a call that waits for a semaphore, or a failed assertion.
use clubcos.Array.{memmove, memcpy, init, pop_front}
use clubcos.Queue.{get}
use clubcos.Semaphore.{BiSem, try_enter, post}
use clubcos.Semaphore as Semaphores
use clubcos.Strings.{strchr}
use clubcos.Terminal.{Terminal, TermStatus, string_inputing, invert, fill, vga_entry, port_out_byte}
use clubcos.Terminal.Input.{
  input, set_input, clear_input_buffer_unsafe, clear_hit_key_buffer_unsafe, cls_unsafe,
}
use clubcos.Prelude.{
  ℕ, ◌+◌, ◌-◌, ◌*◌, ◌%◌, Bool, true, false, not, Option, none, some, ltb, ◌==◌, if◌then◌else◌,
  sub32, upd,
}

-- `body` between entering and posting the terminal's semaphore.
unfoldable pub locked {ℓ} :
    {A : Type ℓ} → (Terminal → Option (A × Terminal)) → Terminal → Option (A × Terminal)
unfolding try_enter post
locked body t =
    if (try_enter t.term_mutex).0
    then elim (body (record t { term_mutex = (try_enter t.term_mutex).1 })) [
      | none ↦ none
      | some (x, u) ↦ some (x, record u { term_mutex = (post u.term_mutex).1 })
    ]
    else none

-- The same for a body that answers nothing and does not fail.
unfoldable pub locked_step : (Terminal → Terminal) → Terminal → Option Terminal
unfolding try_enter post
locked_step body t =
    let u = body (record t { term_mutex = (try_enter t.term_mutex).1 }) in
    if (try_enter t.term_mutex).0
    then some (record u { term_mutex = (post u.term_mutex).1 })
    else none

unfoldable pub set_color : ℕ → Terminal → Option Terminal
unfolding locked_step
set_color color t = locked_step (λ u. record u { term_color = color; anti_color = invert color }) t

unfoldable pub set_status : TermStatus → Terminal → Option Terminal
unfolding locked_step
set_status stat t = locked_step (λ u. record u { term_stat = stat }) t

-- What is read wakes the next reader if there is more.
abbrev wake_line : Terminal → Terminal
unfolding post
wake_line t =
    if not (t.input_array.buf == t.input_array.now)
    then record t { line_event = (post t.line_event).1 }
    else t

-- `len` bytes of the finished lines copied to `buf`, and taken out of the array.
unfoldable pub move_line : ℕ → ℕ → Terminal → Terminal
unfolding clear_hit_key_buffer_unsafe wake_line
move_line len buf t =
    let mem' = upd (memcpy buf t.input_buffer len t.mem) (buf + len) 0 in
    let a = t.input_array in
    let a' = record a {
      mem = memmove a.buf (a.buf + len) (a.now - a.buf - len) mem';
      now = a.now - (len + 1);
    } in
    wake_line (clear_hit_key_buffer_unsafe (set_input a' t))

-- The bytes up to the newline, or `size - 1` of them.
unfoldable pub take_line : ℕ → ℕ → ℕ → Terminal → Option (ℕ × Terminal)
unfolding strchr move_line
take_line fuel buf size t = elim (strchr fuel t.mem t.input_buffer 10) [
  | none ↦ none
  | some none ↦ none
  | some (some end) ↦
      let room = sub32 size 1 in
      let len = if ltb (end - t.input_buffer) room then end - t.input_buffer else room in
      some (len, move_line len buf t)
]

abbrev when_posted {ℓ} :
    {A : Type ℓ} → Bool × BiSem → (BiSem → Option (A × Terminal)) → Option (A × Terminal)
when_posted (true, b) go = go b
when_posted (false, b) go = none

unfoldable pub get_line : ℕ → ℕ → ℕ → Terminal → Option (ℕ × Terminal)
unfolding set_status try_enter locked take_line
get_line fuel buf size t = elim (set_status string_inputing t) [
  | none ↦ none
  | some u ↦
      when_posted (try_enter u.line_event)
        (λ b. locked (take_line fuel buf size) (record u { line_event = b }))
]

unfoldable pub take_char : Terminal → Option (ℕ × Terminal)
unfolding pop_front clear_hit_key_buffer_unsafe wake_line
take_char t = elim (pop_front (input t)) [
  | none ↦ none
  | some (ch, a) ↦ some (ch, wake_line (clear_hit_key_buffer_unsafe (set_input a t)))
]

unfoldable pub get_char : Terminal → Option (ℕ × Terminal)
unfolding set_status try_enter locked take_char
get_char t = elim (set_status string_inputing t) [
  | none ↦ none
  | some u ↦
      when_posted (try_enter u.line_event) (λ b. locked take_char (record u { line_event = b }))
]

unfoldable pub take_key : Terminal → Option (ℕ × Terminal)
unfolding get post
take_key t =
    let q = (get t.hit_key_queue false).2 in
    let t1 = record t { hit_key_queue = q } in
    some (
      (get t.hit_key_queue false).0,
      if not q.is_empty then record t1 { hit_event = (post t1.hit_event).1 } else t1,
    )

unfoldable pub getch : Terminal → Option (ℕ × Terminal)
unfolding try_enter locked take_key
getch t = when_posted (try_enter t.hit_event) (λ b. locked take_key (record t { hit_event = b }))

unfoldable pub is_hit_key_buffer_full : Terminal → Option (Bool × Terminal)
unfolding locked
is_hit_key_buffer_full t = locked (λ u. some (not u.hit_key_queue.is_empty, u)) t

unfoldable pub clear_status_bar : Terminal → Option Terminal
unfolding locked_step
clear_status_bar t =
    locked_step
      (λ u. record u {
        term_buffer = fill (24 * 80) (vga_entry 0 (invert u.term_color)) 80 u.term_buffer;
      })
      t

abbrev then_do : (Terminal → Option Terminal) → Option Terminal → Option Terminal
then_do go none = none
then_do go (some t) = go t

-- The height of the cursor as the processor's ports report it is a parameter.
unfoldable pub get_cursor_width_default : (ℕ → ℕ) → Terminal → Terminal
get_cursor_width_default register t =
    let t1 = port_out_byte 980 11 (port_out_byte 980 10 t) in
    record t1 { default_begin_height = register 10 % 32; default_end_height = register 11 % 32 }

unfoldable pub initialize : (ℕ → ℕ) → Terminal → Option Terminal
unfolding get_cursor_width_default Semaphores.init locked_step clear_input_buffer_unsafe
    clear_hit_key_buffer_unsafe init cls_unsafe clear_status_bar
initialize register t =
    let t1 = get_cursor_width_default register t in
    let t2 = record t1 {
      term_color = 7;
      anti_color = invert 7;
      term_mutex = (Semaphores.init 0 t1.term_mutex).1;
      hit_event = (Semaphores.init 1 t1.hit_event).1;
      line_event = (Semaphores.init 1 t1.line_event).1;
    } in
    let inputs =
      then_do (locked_step clear_hit_key_buffer_unsafe)
        (locked_step clear_input_buffer_unsafe t2) in
    let arrays =
      then_do (λ u. some (set_input (init u.input_buffer (u.input_buffer + 1024) u.mem) u))
        inputs in
    then_do clear_status_bar (then_do (locked_step cls_unsafe) arrays)

unfoldable pub set_cursor_width : ℕ → ℕ → Terminal → Option Terminal
unfolding locked_step
set_cursor_width begin_height end_height t =
    locked_step
      (λ u.
        port_out_byte 981 (end_height % 32)
          (port_out_byte 980 11 (port_out_byte 981 (begin_height % 32) (port_out_byte 980 10 u))))
      t

pub data TerminalCursorType : Type 0 where
  cursor_normal : TerminalCursorType
  cursor_solid : TerminalCursorType
  no_cursor : TerminalCursorType

unfoldable pub set_cursor_type : TerminalCursorType → Terminal → Option Terminal
unfolding set_cursor_width locked_step
set_cursor_type cursor_normal t = set_cursor_width t.default_begin_height t.default_end_height t
set_cursor_type cursor_solid t = locked_step (λ u. port_out_byte 981 0 (port_out_byte 980 10 u)) t
set_cursor_type no_cursor t = set_cursor_width 1 0 t
