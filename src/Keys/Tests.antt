-- ===== src/Keys/Tests.antt =====
-- Key strokes at the keyboard driver of src/keys.c.
use clubcos.Keys.{
  Keyboard, terminal_input, key_code, assemble, key_is_down, key_is_ascii, cascii_from_key_code,
  on_lock_key, on_key_code, on_keyboard_interrupt,
}
use clubcos.Keys.Stream.{
  Stroke, plain, extended, pause_key, encode_all, assemble_all, idle, assemble_all-encode_all,
}
use clubcos.Keys.Typing.{initial_keyboard, press-types}
use clubcos.Prelude.{
  ℕ, ◌<◌, ◌≡◌, refl, Bool, true, false, List, [], ◌∷◌, arith, ◌==◌, if◌then◌else◌,
}

abbrev strokes : List Stroke
strokes =
    plain true 0x2a
    ∷ extended true 0x48
    ∷ pause_key 0x1d 0x45
    ∷ extended false 0x48
    ∷ plain false 0x2a
    ∷ []

assemble_all-encode_all_example :
    assemble_all (encode_all strokes) idle ≡ (0x2a ∷ 0x85 ∷ 0x91 ∷ 0x185 ∷ 0x12a ∷ [], idle)
assemble_all-encode_all_example = assemble_all-encode_all strokes refl

-- Scan code 0x1e is the letter a, 0x2a the left shift key.
abbrev keyboard : Keyboard
keyboard = record {
  assembler = idle;
  key_table = λ c.
      if c == 0x2a
      then record { normal_key = 0x82; combined_key = 0x82; pushed_key = false }
      else record { normal_key = 97; combined_key = 65; pushed_key = false };
  num_lock = false;
  caps_lock = false;
  scroll_lock = false;
  shift = false;
}

shifted_letter :
    (on_keyboard_interrupt 0x1e (on_keyboard_interrupt 0x2a keyboard).1).0 ≡ terminal_input 65 ∷ []
unfolding on_keyboard_interrupt assemble key_code on_key_code cascii_from_key_code on_lock_key
    key_is_down key_is_ascii
shifted_letter = refl

press-types_example :
    (scan : ℕ) × (shift : Bool) × (scan < 128)
    × ((on_keyboard_interrupt scan (initial_keyboard shift)).0 ≡ terminal_input b'~' ∷ [])
press-types_example = press-types b'~' (omega arith) (omega arith)
