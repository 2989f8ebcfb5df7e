-- ===== src/Format/Print.antt =====
-- The output that the directives of a format of src/snprintf.c make, and its main loop.
use clubcos.Array.{memmove}
use clubcos.Strings.{strnlen}
use clubcos.Format.{Printer, Flags, emit, emit_many, emit_if, and_then}
use clubcos.Format.Directive.{Directive, parse_directive, above_zero, minus_one}
use clubcos.Format.Number.{number}
use clubcos.Prelude.{
  ℕ, zero, suc, ◌+◌, ◌-◌, ◌/◌, ◌%◌, Bool, true, false, not, ◌||◌, Option, none, some, List, [], ◌∷◌,
  leb, ◌==◌, if◌then◌else◌, sub32, upd,
}

-- On with the format from the character behind `fmt`, or the end.
pub data Step : Type 0 where
  go : ℕ → List ℕ → Printer → Step
  finish : Printer → Step

abbrev pub continue : ℕ → List ℕ → Bool × Printer → Step
continue fmt args (true, p) = go fmt args p
continue fmt args (false, p) = finish p

unfoldable pub print_char : Directive → ℕ → Printer → Bool × Printer
unfolding emit_many emit emit_if
print_char d c p =
    let pad = above_zero d.width - 1 in
    let p1 = emit_if (not d.flags.left) 32 pad p in
    and_then (and_then p1 (emit c)) (emit_if d.flags.left 32 pad)

-- `while (len < width--)` before the string: `str` does not go on.
unfoldable pub pad_in_place : ℕ → Printer → Bool × Printer
pad_in_place zero p = (true, p)
pad_in_place (suc n) p =
    let rest = pad_in_place n (record p { mem = upd p.mem p.str 32; size = sub32 p.size 1 }) in
    if p.size == 1 then (false, record p { size = 0 }) else rest

-- `while (len < width--)` behind the string: the blank is written before the test.
unfoldable pub pad_behind : ℕ → Printer → Bool × Printer
pad_behind zero p = (true, p)
pad_behind (suc n) p =
    let p' = record p { mem = upd p.mem p.str 32; str = p.str + 1; size = sub32 p.size 1 } in
    let rest = pad_behind n p' in if p.size == 1 then (false, p') else rest

abbrev copy_string : ℕ → ℕ → Printer → Bool × Printer
copy_string s len p =
    if leb p.size len
    then (false, p)
    else (true, record { mem = memmove p.str s len p.mem; str = p.str + len; size = p.size - len })

-- `null_string` is the address of the string for a null pointer.
unfoldable pub print_text : ℕ → Directive → ℕ → Printer → Bool × Printer
unfolding strnlen pad_in_place pad_behind
print_text null_string d arg p =
    let s = if arg == 0 then null_string else arg in
    let len = strnlen p.mem s d.precision in
    let pad = above_zero d.width - len in
    let p1 = if d.flags.left then (true, p) else pad_in_place pad p in
    let p2 = and_then p1 (copy_string s len) in
    if d.flags.left then and_then p2 (pad_behind pad) else p2

abbrev pub after_number : Directive → List ℕ → Option Printer → Option Step
after_number d args none = none
after_number d args (some p) = if p.size == 1 then some (finish p) else some (go d.fmt args p)

unfoldable pub print_pointer : Directive → List ℕ → ℕ → Printer → Option Step
unfolding number
print_pointer d args arg p =
    let f =
      if d.width == minus_one then record d.flags { zeropad = true; special = true } else d.flags in
    let width = if d.width == minus_one then 10 else above_zero d.width in
    after_number d args (number arg 16 width (above_zero d.precision) f p)

unfoldable pub print_number : ℕ → Flags → Directive → List ℕ → ℕ → Printer → Option Step
unfolding number
print_number base f d args arg p =
    after_number d args (number arg base (above_zero d.width) (above_zero d.precision) f p)

-- The low bytes of a word, the lowest first.
abbrev store_word : ℕ → ℕ → (ℕ → ℕ) → ℕ → ℕ
store_word at v mem =
    upd (upd (upd (upd mem at (v % 256)) (at + 1) (v / 256 % 256)) (at + 2) (v / 65536 % 256))
      (at + 3) (v / 16777216 % 256)

abbrev store_short : ℕ → ℕ → (ℕ → ℕ) → ℕ → ℕ
store_short at v mem = upd (upd mem at (v % 256)) (at + 1) (v / 256 % 256)

abbrev store_count : ℕ → Directive → ℕ → Printer → Printer
store_count buf d arg p =
    let n : ℕ = p.str - buf in
    record p { mem = if d.length == 104 then store_short arg n p.mem else store_word arg n p.mem }

-- The conversions that take an argument.
unfoldable pub print_argument : ℕ → ℕ → Directive → List ℕ → Printer → Option Step
unfolding print_char print_text print_pointer print_number
print_argument null_string buf d [] p = none
print_argument null_string buf d (arg ∷ args) p =
    let c = p.mem d.fmt in
    if c == 99
    then some (continue d.fmt args (print_char d arg p))
    else if c == 115
    then some (continue d.fmt args (print_text null_string d arg p))
    else if c == 112
    then print_pointer d args arg p
    else if (c == 100) || (c == 105)
    then print_number 10 (record d.flags { sign = true }) d args arg p
    else if c == 117
    then print_number 10 d.flags d args arg p
    else if c == 111
    then print_number 8 d.flags d args arg p
    else if c == 88
    then print_number 16 (record d.flags { large = true }) d args arg p
    else if c == 120
    then print_number 16 d.flags d args arg p
    else some (go d.fmt args (store_count buf d arg p))

abbrev takes_argument : ℕ → Bool
takes_argument c =
    (c == 99)
    || (c == 115)
    || (c == 112)
    || (c == 100)
    || (c == 105)
    || (c == 117)
    || (c == 111)
    || (c == 88)
    || (c == 120)
    || (c == 110)

-- Any other character is passed over, and so is the one behind it.
unfoldable pub convert : ℕ → ℕ → Directive → Printer → Option Step
unfolding print_argument emit
convert null_string buf d p =
    let c = p.mem d.fmt in
    if takes_argument c
    then print_argument null_string buf d d.args p
    else if c == 37
    then some (continue d.fmt d.args (emit 37 p))
    else some (go (d.fmt + 1) d.args p)

abbrev pub convert_parsed : ℕ → ℕ → Printer → Option Directive → Option Step
unfolding convert
convert_parsed null_string buf p none = none
convert_parsed null_string buf p (some d) = convert null_string buf d p

abbrev pub next_step : (ℕ → List ℕ → Printer → Option Printer) → Option Step → Option Printer
next_step loop none = none
next_step loop (some (finish p)) = some p
next_step loop (some (go fmt args p)) = loop (fmt + 1) args p

unfoldable pub format_loop : ℕ → ℕ → ℕ → ℕ → List ℕ → Printer → Option Printer
unfolding parse_directive convert emit
format_loop zero null_string buf fmt args p = none
format_loop (suc k) null_string buf fmt args p =
    let loop = format_loop k null_string buf in
    let directive =
      next_step loop (convert_parsed null_string buf p (parse_directive k p.mem fmt args)) in
    let plain = next_step loop (some (continue fmt args (emit (p.mem fmt) p))) in
    if p.mem fmt == 0 then some p else if p.mem fmt == 37 then directive else plain

abbrev pub terminate : ℕ → Option Printer → Option (ℕ × (ℕ → ℕ))
terminate buf none = none
terminate buf (some p) = some (p.str - buf, upd p.mem p.str 0)

-- The result and the memory.
unfoldable pub vsnprintf : ℕ → ℕ → ℕ → ℕ → ℕ → List ℕ → (ℕ → ℕ) → Option (ℕ × (ℕ → ℕ))
unfolding format_loop
vsnprintf fuel null_string buf size fmt args mem =
    let printed =
      format_loop fuel null_string buf fmt args (record { mem = mem; str = buf; size = size }) in
    if size == 0
    then some (0, mem)
    else if size == 1
    then some (0, upd mem buf 0)
    else terminate buf printed
