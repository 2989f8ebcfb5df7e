-- ===== src/Keys/Cascii.antt =====
-- The characters of src/keytable.h: ASCII, and codes from 0x81 on for the keys that are none.
use clubcos.Prelude.{ℕ}

abbrev pub cascii_none : ℕ
cascii_none = 0x00

abbrev pub cascii_enter : ℕ
cascii_enter = 0x0a

abbrev pub cascii_tab : ℕ
cascii_tab = 0x09

abbrev pub cascii_esc : ℕ
cascii_esc = 0x1b

abbrev pub cascii_backspace : ℕ
cascii_backspace = 0x08

abbrev pub cascii_lctrl : ℕ
cascii_lctrl = 0x81

abbrev pub cascii_lshift : ℕ
cascii_lshift = 0x82

abbrev pub cascii_rshift : ℕ
cascii_rshift = 0x83

abbrev pub cascii_printscreen : ℕ
cascii_printscreen = 0x84

abbrev pub cascii_lalt : ℕ
cascii_lalt = 0x85

abbrev pub cascii_capslock : ℕ
cascii_capslock = 0x86

abbrev pub cascii_f1 : ℕ
cascii_f1 = 0x87

abbrev pub cascii_f2 : ℕ
cascii_f2 = 0x88

abbrev pub cascii_f3 : ℕ
cascii_f3 = 0x89

abbrev pub cascii_f4 : ℕ
cascii_f4 = 0x8a

abbrev pub cascii_f5 : ℕ
cascii_f5 = 0x8b

abbrev pub cascii_f6 : ℕ
cascii_f6 = 0x8c

abbrev pub cascii_f7 : ℕ
cascii_f7 = 0x8d

abbrev pub cascii_f8 : ℕ
cascii_f8 = 0x8e

abbrev pub cascii_f9 : ℕ
cascii_f9 = 0x8f

abbrev pub cascii_f10 : ℕ
cascii_f10 = 0x90

abbrev pub cascii_numlock : ℕ
cascii_numlock = 0x91

abbrev pub cascii_scrolllock : ℕ
cascii_scrolllock = 0x92

abbrev pub cascii_num_home : ℕ
cascii_num_home = 0x93

abbrev pub cascii_num_up : ℕ
cascii_num_up = 0x94

abbrev pub cascii_num_pageup : ℕ
cascii_num_pageup = 0x95

abbrev pub cascii_num_left : ℕ
cascii_num_left = 0x96

abbrev pub cascii_num_center : ℕ
cascii_num_center = 0x97

abbrev pub cascii_num_right : ℕ
cascii_num_right = 0x98

abbrev pub cascii_num_end : ℕ
cascii_num_end = 0x99

abbrev pub cascii_num_down : ℕ
cascii_num_down = 0x9a

abbrev pub cascii_num_pagedown : ℕ
cascii_num_pagedown = 0x9b

abbrev pub cascii_num_ins : ℕ
cascii_num_ins = 0x9c

abbrev pub cascii_num_del : ℕ
cascii_num_del = 0x9d

abbrev pub cascii_f11 : ℕ
cascii_f11 = 0x9e

abbrev pub cascii_f12 : ℕ
cascii_f12 = 0x9f

abbrev pub cascii_num_enter : ℕ
cascii_num_enter = 0xa0

abbrev pub cascii_rctrl : ℕ
cascii_rctrl = 0xa1

abbrev pub cascii_num_slash : ℕ
cascii_num_slash = 0xa2

abbrev pub cascii_ralt : ℕ
cascii_ralt = 0xa3

abbrev pub cascii_home : ℕ
cascii_home = 0xa4

abbrev pub cascii_up : ℕ
cascii_up = 0xa5

abbrev pub cascii_pageup : ℕ
cascii_pageup = 0xa6

abbrev pub cascii_left : ℕ
cascii_left = 0xa7

abbrev pub cascii_right : ℕ
cascii_right = 0xa8

abbrev pub cascii_end : ℕ
cascii_end = 0xa9

abbrev pub cascii_down : ℕ
cascii_down = 0xaa

abbrev pub cascii_pagedown : ℕ
cascii_pagedown = 0xab

abbrev pub cascii_insert : ℕ
cascii_insert = 0xac

abbrev pub cascii_delete : ℕ
cascii_delete = 0xad

abbrev pub cascii_pause : ℕ
cascii_pause = 0xae
