-- ===== src/Keys/Table.antt =====
-- The table of keys of src/keytable.c: the characters of every key, without and with the shift key
-- (or, on the number pad, without and with the number lock).
use clubcos.Keys.Cascii.{
  cascii_backspace, cascii_capslock, cascii_delete, cascii_down, cascii_end, cascii_enter,
  cascii_esc, cascii_f1, cascii_f10, cascii_f11, cascii_f12, cascii_f2, cascii_f3, cascii_f4,
  cascii_f5, cascii_f6, cascii_f7, cascii_f8, cascii_f9, cascii_home, cascii_insert, cascii_lalt,
  cascii_lctrl, cascii_left, cascii_lshift, cascii_none, cascii_num_center, cascii_num_del,
  cascii_num_down, cascii_num_end, cascii_num_enter, cascii_num_home, cascii_num_ins,
  cascii_num_left, cascii_num_pagedown, cascii_num_pageup, cascii_num_right, cascii_num_slash,
  cascii_num_up, cascii_numlock, cascii_pagedown, cascii_pageup, cascii_pause, cascii_ralt,
  cascii_rctrl, cascii_right, cascii_rshift, cascii_scrolllock, cascii_tab, cascii_up,
}
use clubcos.Keys.{KeyStruct}
use clubcos.Prelude.{ℕ, false, List, [], ◌∷◌}

abbrev pub key : ℕ → ℕ → KeyStruct
key normal combined = record { normal_key = normal; combined_key = combined; pushed_key = false }

unfoldable pub initial_key_table : List KeyStruct
initial_key_table =
    key cascii_none cascii_none
    ∷ key cascii_esc cascii_esc
    ∷ key b'1' b'!'
    ∷ key b'2' b'@'
    ∷ key b'3' b'#'
    ∷ key b'4' b'$'
    ∷ key b'5' b'%'
    ∷ key b'6' b'^'
    ∷ key b'7' b'&'
    ∷ key b'8' b'*'
    ∷ key b'9' b'('
    ∷ key b'0' b')'
    ∷ key b'-' b'_'
    ∷ key b'=' b'+'
    ∷ key cascii_backspace cascii_backspace
    ∷ key cascii_tab cascii_tab
    ∷ key b'q' b'Q'
    ∷ key b'w' b'W'
    ∷ key b'e' b'E'
    ∷ key b'r' b'R'
    ∷ key b't' b'T'
    ∷ key b'y' b'Y'
    ∷ key b'u' b'U'
    ∷ key b'i' b'I'
    ∷ key b'o' b'O'
    ∷ key b'p' b'P'
    ∷ key b'[' b'{'
    ∷ key b']' b'}'
    ∷ key 10 10
    ∷ key cascii_lctrl cascii_lctrl
    ∷ key b'a' b'A'
    ∷ key b's' b'S'
    ∷ key b'd' b'D'
    ∷ key b'f' b'F'
    ∷ key b'g' b'G'
    ∷ key b'h' b'H'
    ∷ key b'j' b'J'
    ∷ key b'k' b'K'
    ∷ key b'l' b'L'
    ∷ key b';' b':'
    ∷ key 39 34
    ∷ key b'`' b'~'
    ∷ key cascii_lshift cascii_lshift
    ∷ key 92 b'|'
    ∷ key b'z' b'Z'
    ∷ key b'x' b'X'
    ∷ key b'c' b'C'
    ∷ key b'v' b'V'
    ∷ key b'b' b'B'
    ∷ key b'n' b'N'
    ∷ key b'm' b'M'
    ∷ key b',' b'<'
    ∷ key b'.' b'>'
    ∷ key b'/' b'?'
    ∷ key cascii_rshift cascii_rshift
    ∷ key b'*' b'*'
    ∷ key cascii_lalt cascii_lalt
    ∷ key b' ' b' '
    ∷ key cascii_capslock cascii_capslock
    ∷ key cascii_f1 cascii_f1
    ∷ key cascii_f2 cascii_f2
    ∷ key cascii_f3 cascii_f3
    ∷ key cascii_f4 cascii_f4
    ∷ key cascii_f5 cascii_f5
    ∷ key cascii_f6 cascii_f6
    ∷ key cascii_f7 cascii_f7
    ∷ key cascii_f8 cascii_f8
    ∷ key cascii_f9 cascii_f9
    ∷ key cascii_f10 cascii_f10
    ∷ key cascii_numlock cascii_numlock
    ∷ key cascii_scrolllock cascii_scrolllock
    ∷ key cascii_num_home b'7'
    ∷ key cascii_num_up b'8'
    ∷ key cascii_num_pageup b'9'
    ∷ key b'-' b'-'
    ∷ key cascii_num_left b'4'
    ∷ key cascii_num_center b'5'
    ∷ key cascii_num_right b'6'
    ∷ key b'+' b'+'
    ∷ key cascii_num_end b'1'
    ∷ key cascii_num_down b'2'
    ∷ key cascii_num_pagedown b'3'
    ∷ key cascii_num_ins b'0'
    ∷ key cascii_num_del b'.'
    ∷ key cascii_none cascii_none
    ∷ key cascii_none cascii_none
    ∷ key cascii_none cascii_none
    ∷ key cascii_f11 cascii_f11
    ∷ key cascii_f12 cascii_f12
    ∷ key cascii_num_enter cascii_enter
    ∷ key cascii_rctrl cascii_rctrl
    ∷ key cascii_none cascii_none
    ∷ key cascii_none cascii_none
    ∷ key cascii_none cascii_none
    ∷ key cascii_none cascii_none
    ∷ key cascii_none cascii_none
    ∷ key cascii_none cascii_none
    ∷ key cascii_none cascii_none
    ∷ key cascii_none cascii_none
    ∷ key cascii_none cascii_none
    ∷ key cascii_none cascii_none
    ∷ key cascii_none cascii_none
    ∷ key cascii_none cascii_none
    ∷ key cascii_none cascii_none
    ∷ key cascii_none cascii_none
    ∷ key cascii_none cascii_none
    ∷ key cascii_none cascii_none
    ∷ key cascii_none cascii_none
    ∷ key cascii_none cascii_none
    ∷ key cascii_none cascii_none
    ∷ key cascii_none cascii_none
    ∷ key cascii_none cascii_none
    ∷ key cascii_none cascii_none
    ∷ key cascii_none cascii_none
    ∷ key cascii_num_slash b'/'
    ∷ key cascii_none cascii_none
    ∷ key cascii_none cascii_none
    ∷ key cascii_ralt cascii_ralt
    ∷ key cascii_none cascii_none
    ∷ key cascii_none cascii_none
    ∷ key cascii_none cascii_none
    ∷ key cascii_none cascii_none
    ∷ key cascii_none cascii_none
    ∷ key cascii_none cascii_none
    ∷ key cascii_none cascii_none
    ∷ key cascii_none cascii_none
    ∷ key cascii_none cascii_none
    ∷ key cascii_none cascii_none
    ∷ key cascii_none cascii_none
    ∷ key cascii_none cascii_none
    ∷ key cascii_none cascii_none
    ∷ key cascii_none cascii_none
    ∷ key cascii_home cascii_home
    ∷ key cascii_up cascii_up
    ∷ key cascii_pageup cascii_pageup
    ∷ key cascii_none cascii_none
    ∷ key cascii_left cascii_left
    ∷ key cascii_none cascii_none
    ∷ key cascii_right cascii_right
    ∷ key cascii_none cascii_none
    ∷ key cascii_end cascii_end
    ∷ key cascii_down cascii_down
    ∷ key cascii_pagedown cascii_pagedown
    ∷ key cascii_insert cascii_insert
    ∷ key cascii_delete cascii_delete
    ∷ key cascii_pause cascii_pause
    ∷ []
