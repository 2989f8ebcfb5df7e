-- ===== src/Format/Number.antt =====
-- The printing of a number by src/snprintf.c.
use clubcos.Format.{Printer, Flags, emit, emit_many, emit_if, and_then}
use clubcos.Prelude.{
  ℕ, zero, suc, ◌+◌, ◌-◌, ◌/◌, ◌%◌, ◌^◌, Bool, true, false, not, ◌&&◌, ◌||◌, Option, none, some,
  List, [], ◌∷◌, ltb, leb, ◌==◌, if◌then◌else◌, length, sub32, upd,
}

-- The digits and the capital digits.
abbrev pub digit_char : Bool → ℕ → ℕ
digit_char capital d = if ltb d 10 then 48 + d else if capital then 55 + d else 87 + d

-- `tmp`, the last digit first: `num % base` until `num` is 0.
unfoldable pub digits_of : ℕ → Bool → ℕ → ℕ → List ℕ
digits_of zero capital base n = []
digits_of (suc k) capital base n =
    let rest = digits_of k capital base (n / base) in
    digit_char capital (n % base) ∷ (if n / base == 0 then [] else rest)

-- `while (i-- > 0)`, from the end of `tmp`.
unfoldable pub emit_digits : List ℕ → Printer → Bool × Printer
unfolding emit
emit_digits [] p = (true, p)
emit_digits (d ∷ ds) p = and_then (emit_digits ds p) (emit d)

-- The character of the sign, 0 if there is none.
abbrev pub sign_char : Flags → ℕ → ℕ
sign_char f num =
    if f.sign
    then if leb (2 ^ 31) num then 45 else if f.plus then 43 else if f.space then 32 else 0
    else 0

-- The amount that is printed: a negative number without its sign.
abbrev pub magnitude : Flags → ℕ → ℕ
magnitude f num = if f.sign && leb (2 ^ 31) num then sub32 0 num else num

abbrev pub special_width : Flags → ℕ → ℕ
special_width f base = if f.special then if base == 16 then 2 else if base == 8 then 1 else 0 else 0

-- What stands before a number of a base of its own.
unfoldable pub emit_special : Flags → ℕ → Printer → Bool × Printer
unfolding emit
emit_special f base p =
    if f.special
    then if base == 8
      then emit 48 p
      else if base == 16
      then if leb p.size 2 then (false, p) else (
        true,
        record {
          mem = upd (upd p.mem p.str 48) (p.str + 1) 120;
          str = p.str + 2;
          size = p.size - 2;
        },
      )
      else (true, p)
    else (true, p)

-- The number with its `pad` blanks or zeros.
unfoldable pub number_body : ℕ → ℕ → ℕ → ℕ → Flags → List ℕ → Printer → Bool × Printer
unfolding emit_many emit_special emit_digits emit_if
number_body base sign pad precision f ds p =
    let zeropad = f.zeropad && not f.left in
    let c = if zeropad then 48 else 32 in
    let p1 = emit_if (not (zeropad || f.left)) 32 pad p in
    let p2 = and_then p1 (emit_if (not (sign == 0)) sign 1) in
    let p3 = and_then p2 (emit_special f base) in
    let p4 = and_then p3 (emit_if zeropad c pad) in
    let p5 = and_then p4 (emit_many 48 (precision - length ds)) in
    let p6 = and_then p5 (emit_digits ds) in and_then p6 (emit_if f.left 32 pad)

-- `num` is the word of the argument. Thirty-two digits are enough for it.
unfoldable pub number : ℕ → ℕ → ℕ → ℕ → Flags → Printer → Option Printer
unfolding digits_of number_body
number num base size precision f p =
    let sign = sign_char f num in
    let n = magnitude f num in
    let ds = digits_of 32 f.large base n in
    let digits = if ltb precision (length ds) then length ds else precision in
    let signed = if sign == 0 then 0 else 1 in
    let pad = size - signed - special_width f base - digits in
    let printed = (number_body base sign pad precision f ds p).1 in
    if ltb base 2 || ltb 36 base
    then some (record p { str = 0 })
    else if f.sign && leb (2 ^ 31) n
    then none
    else some printed
