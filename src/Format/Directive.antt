-- ===== src/Format/Directive.antt =====
-- The directives in a format of src/snprintf.c.
use clubcos.Strings.{isdigit}
use clubcos.Format.{Flags}
use clubcos.Prelude.{
  ℕ, zero, suc, ◌+◌, ◌-◌, ◌*◌, ◌%◌, ◌^◌, Bool, true, false, not, ◌&&◌, ◌||◌, Option, none, some,
  List, [], ◌∷◌, ltb, ◌==◌, if◌then◌else◌, sub32,
}

abbrev is_length : ℕ → Bool
is_length c = (c == 104) || (c == 108) || (c == 76)

-- An `int` that is above 0, and 0 for the others.
abbrev pub above_zero : ℕ → ℕ
above_zero w = if ltb w (2 ^ 31) then w else 0

abbrev pub no_flags : Flags
no_flags = record {
  zeropad = false;
  sign = false;
  plus = false;
  space = false;
  left = false;
  special = false;
  large = false;
}

-- From the character before the flags on.
unfoldable pub parse_flags : ℕ → (ℕ → ℕ) → ℕ → Flags → Option (ℕ × Flags)
parse_flags zero mem fmt f = none
parse_flags (suc k) mem fmt f =
    let c = mem (fmt + 1) in
    let minus = parse_flags k mem (fmt + 1) (record f { left = true }) in
    let plus = parse_flags k mem (fmt + 1) (record f { plus = true }) in
    let blank = parse_flags k mem (fmt + 1) (record f { space = true }) in
    let hash = parse_flags k mem (fmt + 1) (record f { special = true }) in
    let nought = parse_flags k mem (fmt + 1) (record f { zeropad = true }) in
    if c == 45
    then minus
    else if c == 43
    then plus
    else if c == 32
    then blank
    else if c == 35
    then hash
    else if c == 48
    then nought
    else some (fmt + 1, f)

unfoldable pub skip_atoi : ℕ → (ℕ → ℕ) → ℕ → ℕ → Option (ℕ × ℕ)
skip_atoi zero mem s i = none
skip_atoi (suc k) mem s i =
    let rest = skip_atoi k mem (s + 1) ((i * 10 + (mem s - 48)) % 2 ^ 32) in
    if isdigit (mem s) then rest else some (i, s)

-- A directive as far as it is read: the format from there on, and the arguments left. A width or a
-- precision that is not given is -1, a length that is not given is 0.
pub record Directive : Type 0 where
  pub fmt : ℕ
  pub args : List ℕ
  pub flags : Flags
  pub width : ℕ
  pub precision : ℕ
  pub length : ℕ

abbrev pub minus_one : ℕ
minus_one = 4294967295

abbrev width_argument : Directive → List ℕ → Option Directive
width_argument d [] = none
width_argument d (w ∷ args) =
    let d' = record d { fmt = d.fmt + 1; args = args } in
    if ltb w (2 ^ 31)
    then some (record d' { width = w })
    else some (record d' { width = sub32 0 w; flags = record d.flags { left = true } })

abbrev number_width : Directive → Option (ℕ × ℕ) → Option Directive
number_width d none = none
number_width d (some (w, fmt)) = some (record d { width = w; fmt = fmt })

unfoldable pub parse_width : ℕ → (ℕ → ℕ) → Directive → Option Directive
unfolding skip_atoi
parse_width fuel mem d =
    if isdigit (mem d.fmt)
    then number_width d (skip_atoi fuel mem d.fmt 0)
    else if mem d.fmt == 42
    then width_argument d d.args
    else some d

abbrev precision_argument : Directive → List ℕ → Option Directive
precision_argument d [] = none
precision_argument d (w ∷ args) =
    some (record d { fmt = d.fmt + 1; args = args; precision = above_zero w })

abbrev number_precision : Directive → Option (ℕ × ℕ) → Option Directive
number_precision d none = none
number_precision d (some (w, fmt)) = some (record d { precision = above_zero w; fmt = fmt })

unfoldable pub parse_precision : ℕ → (ℕ → ℕ) → Directive → Option Directive
unfolding skip_atoi
parse_precision fuel mem d =
    let d' = record d { fmt = d.fmt + 1 } in
    if mem d.fmt == 46
    then if isdigit (mem d'.fmt)
      then number_precision d' (skip_atoi fuel mem d'.fmt 0)
      else if mem d'.fmt == 42
      then precision_argument d' d'.args
      else if not (mem d'.fmt == 115) && (is_length (mem d'.fmt) && (mem (d'.fmt + 1) == 115))
      then some (record d' { fmt = d'.fmt + 1; precision = 0 })
      else some (record d' { precision = 0 })
    else some d

unfoldable pub parse_length : (ℕ → ℕ) → Directive → Directive
parse_length mem d =
    if is_length (mem d.fmt) then record d { length = mem d.fmt; fmt = d.fmt + 1 } else d

abbrev pub and_parse : Option Directive → (Directive → Option Directive) → Option Directive
and_parse none next = none
and_parse (some d) next = next d

abbrev pub flags_parsed : List ℕ → Option (ℕ × Flags) → Option Directive
flags_parsed args none = none
flags_parsed args (some (fmt, f)) = some (record {
  fmt = fmt;
  args = args;
  flags = f;
  width = minus_one;
  precision = minus_one;
  length = 0;
})

-- The directive whose `%` is at `fmt`.
unfoldable pub parse_directive : ℕ → (ℕ → ℕ) → ℕ → List ℕ → Option Directive
unfolding parse_flags parse_width parse_precision parse_length
parse_directive fuel mem fmt args =
    let flags = flags_parsed args (parse_flags fuel mem fmt no_flags) in
    let width = and_parse flags (parse_width fuel mem) in
    let precision = and_parse width (parse_precision fuel mem) in
    and_parse precision (λ d. some (parse_length mem d))
