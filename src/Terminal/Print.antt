-- ===== src/Terminal/Print.antt =====
-- The output of strings by src/terminal.c. A string is a pointer into the memory.
use clubcos.Terminal.{Terminal, put_char_unsafe, put_entry_at}
use clubcos.Terminal.Input.Read.{locked, locked_step}
use clubcos.Prelude.{
  ℕ, zero, suc, ◌+◌, ◌-◌, ◌%◌, ◌^◌, Bool, not, Option, none, some, ltb, leb, ◌==◌, if◌then◌else◌,
}

abbrev pub print_rest : (Terminal → Option Terminal) → Option (Bool × Terminal) → Option Terminal
print_rest go none = none
print_rest go (some (ok, t)) = go t

unfoldable pub print_string_unsafe : ℕ → ℕ → Terminal → Option Terminal
unfolding put_char_unsafe
print_string_unsafe zero str t = none
print_string_unsafe (suc k) str t =
    let rest = print_rest (print_string_unsafe k (str + 1)) (put_char_unsafe k (t.mem str) t) in
    if t.mem str == 0 then some t else rest

abbrev with_unit : Option Terminal → Option (ℕ × Terminal)
with_unit none = none
with_unit (some t) = some (0, t)

unfoldable pub print_string : ℕ → ℕ → Terminal → Option (ℕ × Terminal)
unfolding locked print_string_unsafe
print_string fuel str t = locked (λ u. with_unit (print_string_unsafe fuel str u)) t

-- The string is cut at the end of the last row.
unfoldable pub write_string_at : ℕ → ℕ → ℕ → ℕ → ℕ → Terminal → Option Terminal
unfolding put_entry_at
write_string_at zero x y color str t = none
write_string_at (suc k) x y color str t =
    let t1 = put_entry_at (t.mem str) color x y t in
    let same_row = write_string_at k ((x + 1) % 2 ^ 16) y color (str + 1) t1 in
    let below = write_string_at k 0 ((y + 1) % 2 ^ 16) color (str + 1) t1 in
    if t.mem str == 0
    then some t
    else if ltb ((x + 1) % 2 ^ 16) 80
    then same_row
    else if leb 24 ((y + 1) % 2 ^ 16)
    then some t1
    else below

-- The cells of the status bar from column `80 - k`; behind the string's end they get its NUL.
unfoldable pub status_bar_cells : ℕ → ℕ → Terminal → Terminal
unfolding put_entry_at
status_bar_cells zero str t = t
status_bar_cells (suc k) str t =
    let t1 = put_entry_at (t.mem str) t.anti_color (79 - k) 24 t in
    status_bar_cells k (if not (t.mem str == 0) then str + 1 else str) t1

unfoldable pub print_status_bar_unsafe : ℕ → Terminal → Terminal
unfolding status_bar_cells
print_status_bar_unsafe str t = status_bar_cells 80 str t

unfoldable pub print_status_bar : ℕ → Terminal → Option Terminal
unfolding locked_step print_status_bar_unsafe
print_status_bar str t = locked_step (print_status_bar_unsafe str) t
