-- ===== src/Keys/Typing.antt =====
-- The keyboard driver of src/keys.c with the table of src/keytable.c: which bytes give which
-- characters, and which key codes the table has.
use Prim.Native.Nat.{bit_and}
use clubcos.Keys.{
  KeyStruct, Keyboard, Output, update_led, terminal_input, key_code, on_keyboard_interrupt,
}
use clubcos.Keys.Table.{key, initial_key_table}
use clubcos.Prelude.{
  ℕ, suc, ◌%◌, ◌≤◌, ◌<◌, ◌≡◌, refl, ap, ◌↔◌, Bool, true, false, not, ◌&&◌, ◌||◌, Option, none, some,
  List, [], ◌∷◌, arith, ltb, leb, ◌==◌, if◌then◌else◌, ltb→lt, ==_iff, get_or, all_below,
  all_below_sound,
}

-- The entry of a key code; the source reads whatever lies behind the table for a code beyond it.
unfoldable pub initial_key : ℕ → KeyStruct
unfolding initial_key_table
initial_key code = get_or initial_key_table code (key 0 0)

-- The driver at the start, with the shift key up or down.
unfoldable pub initial_keyboard : Bool → Keyboard
unfolding initial_key
initial_keyboard shift = record {
  assembler = record { extern_code = false; pause = false; skip_for_pause = 0 };
  key_table = initial_key;
  num_lock = true;
  caps_lock = false;
  scroll_lock = false;
  shift = shift;
}

find_stroke : ℕ → ℕ → List KeyStruct → Option (ℕ × Bool)
find_stroke c i [] = none
find_stroke c i (k ∷ ks) =
    let rest = find_stroke c (suc i) ks in
    if k.normal_key == c
    then some (i, false)
    else if k.combined_key == c
    then some (i, true)
    else rest

abbrev pub is_typed : ℕ → List Output → Bool
is_typed c (terminal_input x ∷ []) = x == c
is_typed c outputs = false

types : ℕ → Option (ℕ × Bool) → Bool
unfolding on_keyboard_interrupt initial_keyboard
types c none = false
types c (some (scan, shift)) =
    ltb scan 128 && is_typed c (on_keyboard_interrupt scan (initial_keyboard shift)).0

is_typeable : ℕ → Bool
unfolding find_stroke types initial_key_table
is_typeable c = ltb c 32 || types c (find_stroke c 0 initial_key_table)

all_typeable : all_below 127 is_typeable ≡ true
unfolding all_below is_typeable
all_typeable = refl

is_typed-eq :
    (c : ℕ) (outputs : List Output) → is_typed c outputs ≡ true → outputs ≡ terminal_input c ∷ []
is_typed-eq c (terminal_input x ∷ []) e = ap (λ y. terminal_input y ∷ []) ((==_iff x c).0 e)
is_typed-eq c [] e = absurd (ground (arith, e))
is_typed-eq c (update_led ∷ os) e = absurd (ground (arith, e))
is_typed-eq c (terminal_input x ∷ o ∷ os) e = absurd (ground (arith, e))

both_true : (a b : Bool) → (a && b) ≡ true → (a ≡ true) × (b ≡ true)
both_true true b e = (refl, e)
both_true false b e = absurd (ground (arith, e))

types-stroke :
    (c : ℕ) (o : Option (ℕ × Bool))
    → types c o ≡ true
    → (scan : ℕ) × (shift : Bool) × (scan < 128)
      × ((on_keyboard_interrupt scan (initial_keyboard shift)).0 ≡ terminal_input c ∷ [])
unfolding types
types-stroke c none e = absurd (ground (arith, e))
types-stroke c (some (scan, shift)) e =
    let outputs = (on_keyboard_interrupt scan (initial_keyboard shift)).0 in
    let both = both_true (ltb scan 128) (is_typed c outputs) e in
    (scan, shift, ltb→lt scan 128 both.0, is_typed-eq c outputs both.1)

-- For every printable character of ASCII, from the blank to the tilde, there are a byte below 128
-- and a position of the shift key with which the driver, with the table of the source and
-- otherwise in its initial state, sends exactly this character to the terminal.
pub press-types :
    (c : ℕ)
    → 32 ≤ c
    → c < 127
    → (scan : ℕ) × (shift : Bool) × (scan < 128)
      × ((on_keyboard_interrupt scan (initial_keyboard shift)).0 ≡ terminal_input c ∷ [])
unfolding is_typeable
press-types c printable ascii =
    let e = all_below_sound 127 is_typeable c all_typeable ascii in
    types-stroke c (find_stroke c 0 initial_key_table) (ground (arith, e))

abbrev is_in_table : ℕ → Bool → Bool
is_in_table scan extern = ltb (bit_and (key_code scan extern false) 0xff) 0x92

are_in_table : ℕ → Bool
unfolding key_code
are_in_table scan =
    is_in_table scan false
    && (if leb (scan % 128) 0x54 then is_in_table scan true else not (is_in_table scan true))

all_in_table : all_below 256 are_in_table ≡ true
unfolding all_below are_in_table
all_in_table = refl

-- The key code of a byte below 256 that stands alone is an index of the table of keys, which has
-- 0x92 entries. The key code of a byte behind 0xE0 is one exactly if the byte without its highest
-- bit is at most 0x54.
pub key_code-table :
    (scan : ℕ)
    → scan < 256
    → (bit_and (key_code scan false false) 0xff < 0x92)
      × (bit_and (key_code scan true false) 0xff < 0x92 ↔ scan % 128 ≤ 0x54)
unfolding are_in_table
key_code-table scan byte =
    let e = all_below_sound 256 are_in_table scan all_in_table byte in
    (ground (arith, e), ((λ h. ground (arith, e, h)), λ h. ground (arith, e, h)))
