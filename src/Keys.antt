-- ===== src/Keys.antt =====
-- The keyboard driver of src/keys.c: scan codes become key codes, and these the characters that the
-- terminal gets. The table of keys (src/keytable.c) is data, and a part of the state.
pub mod Cascii
pub mod Table
pub mod Typing
pub mod Stream
mod Tests
use Prim.Native.Nat.{bit_and, bit_or}
use clubcos.Prelude.{
  ℕ, zero, suc, ◌+◌, ◌-◌, ◌*◌, ◌/◌, ◌%◌, ◌^◌, ◌≤◌, ◌<◌, ◌≡◌, refl, sym, ap, ◌∙◌, ◌≢◌, ◌↔◌, ◌⊎◌, inl,
  inr, Bool, true, false, not, ◌&&◌, ◌||◌, Option, none, some, List, [], ◌∷◌, ◌++◌, map, arith, ltb,
  leb, ◌==◌, if◌then◌else◌, ltb→lt, lt→ltb, leb→le, ==_iff, tests, Bool-cases, Option-cases, length,
  get_elem?, set, get_or, take, drop, replicate, length-append, length-set, get_elem?-set_self,
  get_elem?-set_ne, take-append-drop, length-take, length-drop, length-replicate, length-map,
  get_or-set_self, get_or-set_ne, u8_mod, u16_mod, u32_mod, add32, sub32, Store, upd, has, Distinct,
  has-append, Distinct-snoc, Distinct-drop, Distinct-remove, has_same, Distinct-gone, all_below,
  all_below_sound,
}

-- The static variables of `csAssembleScanCodeToKeyCode`.
pub record Assembler : Type 0 where
  pub extern_code : Bool
  pub pause : Bool
  pub skip_for_pause : ℕ

pub record KeyStruct : Type 0 where
  pub normal_key : ℕ
  pub combined_key : ℕ
  pub pushed_key : Bool

pub record Keyboard : Type 0 where
  pub assembler : Assembler
  pub key_table : ℕ → KeyStruct
  pub num_lock : Bool
  pub caps_lock : Bool
  pub scroll_lock : Bool
  pub shift : Bool

-- What the driver asks of the rest of the kernel.
pub data Output : Type 0 where
  update_led : Output
  terminal_input : ℕ → Output

abbrev pub keycode_pause : ℕ
keycode_pause = 0x91

abbrev pub keycode_flag_unpush : ℕ
keycode_flag_unpush = 0x100

-- `ScanCode & 0x7f` for the released key, then the code by the kind of the key.
unfoldable pub key_code : ℕ → Bool → Bool → ℕ
key_code scan extern pause =
    let up = not (bit_and scan 0x80 == 0) in
    let s = if up then bit_and scan 0x7f else scan in
    let code = if pause then keycode_pause else if extern then s + 0x59 - 0x1c else s in
    if up then bit_or code keycode_flag_unpush else code

-- The key code, if the byte completes one.
unfoldable pub assemble : ℕ → Assembler → Option ℕ × Assembler
unfolding key_code
assemble scan a =
    let left = sub32 a.skip_for_pause 1 in
    if a.pause
    then if left == 0
      then (some keycode_pause, record a { pause = false; skip_for_pause = 0 })
      else (none, record a { skip_for_pause = left })
    else if a.extern_code
    then (some (key_code scan true false), record a { extern_code = false })
    else if scan == 0xe1
    then (none, record a { pause = true; skip_for_pause = 2 })
    else if scan == 0xe0
    then (none, record a { extern_code = true })
    else (some (key_code scan false false), a)

unfoldable pub key_is_down : ℕ → Bool
key_is_down code = bit_and code keycode_flag_unpush == 0

unfoldable pub key_is_ascii : ℕ → Bool
key_is_ascii cascii = bit_and cascii 0x80 == 0

abbrev pub isalpha : ℕ → Bool
isalpha c = (leb 65 c && leb c 90) || (leb 97 c && leb c 122)

unfoldable pub cascii_from_key_code : ℕ → Keyboard → ℕ
cascii_from_key_code code k =
    let c = bit_and code 0xff in
    let key = k.key_table c in
    if leb 0x47 c && leb c 0x53
    then if k.num_lock then key.combined_key else key.normal_key
    else if isalpha key.normal_key
    then if k.caps_lock
      then if k.shift then key.normal_key else key.combined_key
      else if k.shift
      then key.combined_key
      else key.normal_key
    else if k.shift
    then key.combined_key
    else key.normal_key

-- `switch (cascii)` for a key that is no character; the state has the key's new position.
unfoldable pub on_lock_key : ℕ → Bool → Keyboard → List Output × Keyboard
on_lock_key cascii down k =
    let left = (k.key_table 0x2a).pushed_key in
    let right = (k.key_table 0x36).pushed_key in
    if (cascii == 0x82) || (cascii == 0x83)
    then ([], record k { shift = left || right })
    else if (cascii == 0x91) && not down
    then (update_led ∷ [], record k { num_lock = not k.num_lock })
    else if (cascii == 0x86) && not down
    then (update_led ∷ [], record k { caps_lock = not k.caps_lock })
    else if (cascii == 0x92) && not down
    then (update_led ∷ [], record k { scroll_lock = not k.scroll_lock })
    else ([], k)

unfoldable pub on_key_code : ℕ → Keyboard → List Output × Keyboard
unfolding key_is_down key_is_ascii cascii_from_key_code on_lock_key
on_key_code code k =
    let cascii = cascii_from_key_code code k in
    let down = key_is_down code in
    let c = bit_and code 0xff in
    let pressed = record k {
      key_table = upd k.key_table c (record (k.key_table c) { pushed_key = down });
    } in
    let (leds, k') =
      if key_is_ascii cascii then ([], pressed) else on_lock_key cascii down pressed in
    (leds ++ (if not (cascii == 0) && down then terminal_input cascii ∷ [] else []), k')

-- `QueueData` is cut to a byte by the call.
unfoldable pub on_keyboard_interrupt : ℕ → Keyboard → List Output × Keyboard
unfolding assemble on_key_code
on_keyboard_interrupt queue_data k =
    let (code, a) = assemble (queue_data % 2 ^ 8) k.assembler in
    let k' = record k { assembler = a } in elim code [ none ↦ ([], k') | some c ↦ on_key_code c k' ]
