-- ===== src/Terminal/Tests.antt =====
-- Runs of the terminal of src/terminal.c, and the theorems about it at inputs of their own.
use clubcos.Array.{Array8, size}
use clubcos.Array.Cells.{cells}
use clubcos.Array as Arrays
use clubcos.Queue.{Queue}
use clubcos.Queue as Queues
use clubcos.Semaphore.{post}
use clubcos.Strings.{strchr}
use clubcos.Terminal.{Terminal, string_inputing, update_cursor_unsafe, backspace_unsafe}
use clubcos.Terminal.Input.{
  line, cls_unsafe, clear_line_buffer_unsafe, finish_line, cancel_inputing, rows_back, iscntrl,
  key_char, key_backspace, key_left, edit_key, on_input, clear_hit_key_buffer_unsafe,
}
use clubcos.Terminal.Input.Read.{get_line, take_line, move_line}
use clubcos.Terminal.Print.{print_string_unsafe}
use clubcos.Terminal.Placed.{IsPlaced, print_string-IsPlaced}
use clubcos.Terminal.Wrap.{last_above, backspace-wraps}
use clubcos.Terminal.Echo.{IsEcho}
use clubcos.Terminal.Echo.Keys.{text, position, key_char-IsEcho}
use clubcos.Terminal.Echo.Removals.{key_backspace-IsEcho}
use clubcos.Terminal.Lines.{IsReady, finish_line-get_line}
use clubcos.Prelude.{
  ℕ, ◌+◌, ◌-◌, ◌≡◌, refl, ◌≢◌, ◌⊎◌, inl, inr, true, false, ◌||◌, Option, none, some, [], ◌∷◌, ◌++◌,
  arith, ◌==◌, if◌then◌else◌, take, drop,
}

-- `a` and `b` typed at the start of an empty screen; the line buffer is at 0, the buffer of the
-- finished lines at 1000.
abbrev two_bytes : ℕ → ℕ
two_bytes q = if q == 0 then 97 else if q == 1 then 98 else 0

abbrev two_cells : ℕ → ℕ
two_cells q = if q == 0 then 1889 else if q == 1 then 1890 else 0

abbrev two_typed : Terminal
two_typed = record {
  term_buffer = two_cells;
  cursor_row = 0;
  cursor_column = 2;
  end_row = 0;
  end_column = 2;
  term_color = 7;
  anti_color = 120;
  term_stat = string_inputing;
  mem = two_bytes;
  line_buffer = 0;
  input_buffer = 1000;
  line_buf_ptr = 2;
  line_buf_array = record { mem = two_bytes; buf = 0; now = 2; end = 249 };
  input_array = record { mem = two_bytes; buf = 1000; now = 1000; end = 2024 };
  hit_key_queue = record { buf = []; first = 0; last = 0; size = 1024; is_empty = true };
  term_mutex = record { flag = 0 };
  hit_event = record { flag = 1 };
  line_event = record { flag = 1 };
  default_begin_height = 14;
  default_end_height = 15;
  ports = [];
}

two_typed-IsEcho : IsEcho 0 two_typed
unfolding size
two_typed-IsEcho = record {
  placed = record {
    cursor_row_in = omega arith;
    cursor_column_in = omega arith;
    end_row_in = omega arith;
    end_column_in = omega arith;
    ordered = omega arith;
  };
  valid = record { start = omega arith; inside = omega arith };
  capacity = refl;
  ptr_start = omega arith;
  ptr_end = omega arith;
  at_ptr = refl;
  at_end = refl;
  shown = λ j lt. ground arith;
  visible = λ j lt. ground arith;
  blank = λ q le lt. ground arith;
}

key_char-IsEcho_example :
    ((size (line two_typed) ≡ 249) × (key_char 3 99 two_typed ≡ some two_typed))
    ⊎ ((start' : ℕ) × (t' : Terminal) × (key_char 3 99 two_typed ≡ some t')
        × ((start' ≡ 0) ⊎ (start' + 80 ≡ 0))
        × IsEcho start' t'
        × (position t' ≡ position two_typed + 1)
        × (text t'
            ≡ take (position two_typed) (text two_typed)
              ++ 99 ∷ drop (position two_typed) (text two_typed)))
key_char-IsEcho_example =
    key_char-IsEcho 3 0 99 two_typed two_typed-IsEcho (omega arith) (omega arith)

key_backspace-IsEcho_example :
    ((position two_typed ≡ 0) × (key_backspace 3 two_typed ≡ some two_typed))
    ⊎ ((t' : Terminal) × (key_backspace 3 two_typed ≡ some t')
        × IsEcho 0 t'
        × (position t' + 1 ≡ position two_typed)
        × (text t'
            ≡ take (position two_typed - 1) (text two_typed)
              ++ drop (position two_typed) (text two_typed)))
key_backspace-IsEcho_example =
    key_backspace-IsEcho 3 0 two_typed two_typed-IsEcho (λ e. absurd (omega (arith, e)))
      (inl (λ e. absurd (omega (arith, e))))

print_string-IsPlaced_example :
    (t' : Terminal) × (print_string_unsafe 5 0 two_typed ≡ some t') × IsPlaced t'
print_string-IsPlaced_example =
    print_string-IsPlaced 5 2 0 two_typed two_typed-IsEcho.placed
      (record {
        no_nul = λ j lt. ground arith;
        no_backspace = λ j lt. ground arith;
        terminated = refl;
      })
      (omega arith)

-- The cursor behind a row of two characters, at the start of the next.
abbrev wrapped : Terminal
wrapped = record two_typed { cursor_row = 1; cursor_column = 0; end_row = 1; end_column = 0 }

backspace-wraps_example :
    ((last_above wrapped ≡ 0) × ((fuel : ℕ) → backspace_unsafe fuel wrapped ≡ none))
    ⊎ ((t' : Terminal) × (last_above wrapped ≢ 0)
        × ((fuel : ℕ) → backspace_unsafe fuel wrapped ≡ some t')
        × (t'.cursor_row ≡ 0)
        × (t'.cursor_column ≡ 80)
        × (t'.end_row ≡ 0)
        × (t'.end_column ≡ 80))
backspace-wraps_example = backspace-wraps wrapped refl (λ e. absurd (omega (arith, e)))

two_typed-IsReady : IsReady two_typed
two_typed-IsReady = record {
  input_start = refl;
  input_empty = refl;
  input_end = refl;
  line_start = omega arith;
  line_short = omega arith;
  apart = inl (omega arith);
  characters = λ j lt. ground arith;
  unlocked = refl;
  event = omega arith;
}

finish_line-get_line_example :
    (t' : Terminal) × (get_line 10 3000 80 (finish_line two_typed) ≡ some (2, t'))
    × (cells t'.mem 3000 2 ≡ cells two_bytes 0 2)
    × (t'.mem 3002 ≡ 0)
    × (t'.input_array.now ≡ t'.input_array.buf)
    × (t'.line_event.flag ≡ 1)
finish_line-get_line_example =
    finish_line-get_line 10 3000 80 two_typed two_typed-IsReady (omega arith) (omega arith)
      (omega arith) (inr (omega arith))

-- No character is a control character.
iscntrl_tab : (iscntrl 9 ≡ false) × (iscntrl 127 ≡ false)
unfolding iscntrl
iscntrl_tab = (refl, refl)

-- Clearing the screen leaves the cursor of the display where it was.
cls_cursor :
    ((cls_unsafe two_typed).cursor_column ≡ 0)
    × ((cls_unsafe two_typed).ports ≡ (981, 0) ∷ (980, 14) ∷ (981, 2) ∷ (980, 15) ∷ [])
unfolding cls_unsafe clear_line_buffer_unsafe update_cursor_unsafe Arrays.init
cls_cursor = (refl, refl)

-- Two lines waiting, `a` and `b`.
abbrev two_lines_mem : ℕ → ℕ
two_lines_mem q =
    if q == 1000 then 97 else if q == 1002 then 98 else if (q == 1001) || (q == 1003) then 10 else 0

abbrev two_lines : Terminal
two_lines = record two_typed {
  mem = two_lines_mem;
  input_array = record { mem = two_lines_mem; buf = 1000; now = 1004; end = 2024 };
}

length_of : Option (ℕ × Terminal) → ℕ × ℕ × ℕ × ℕ
length_of none = (0, 0, 0, 0)
length_of (some (n, t)) = (n, t.input_array.now, t.mem 1000, t.mem 1001)

-- The newline of the line read stays, and the newline of the last line goes.
take_line_two : length_of (take_line 10 3000 80 two_lines) ≡ (1, 1002, 10, 98)
unfolding take_line strchr move_line length_of clear_hit_key_buffer_unsafe post Arrays.memcpy
take_line_two = refl

column_of : Option Terminal → ℕ × ℕ × ℕ
column_of none = (0, 0, 0)
column_of (some t) = (t.cursor_column, t.line_buf_ptr, t.line_buf_array.now)

-- Escape takes the text back.
on_input_escape : column_of (on_input 3 27 two_typed) ≡ (0, 0, 0)
unfolding on_input edit_key cancel_inputing rows_back clear_line_buffer_unsafe Arrays.init
    update_cursor_unsafe column_of Queues.put post
on_input_escape = refl

on_input_left : column_of (on_input 3 167 two_typed) ≡ (1, 1, 2)
unfolding on_input edit_key key_left update_cursor_unsafe column_of Queues.put post
on_input_left = refl
