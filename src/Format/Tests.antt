-- ===== src/Format/Tests.antt =====
-- Runs of the formatted output of src/snprintf.c, and the theorems about it at inputs of their own.
use clubcos.Strings.{parse_digits}
use clubcos.Format.{Printer, Flags, emit, emit_many, emit_if}
use clubcos.Format.Directive.{
  no_flags, parse_directive, parse_flags, parse_width, parse_precision, parse_length,
}
use clubcos.Format.Number.{digits_of, emit_digits, emit_special, number_body, number}
use clubcos.Format.Print.{convert, print_argument, print_number, pad_behind, format_loop, vsnprintf}
use clubcos.Format.Bounds.{IsWithin, number-IsWithin}
use clubcos.Format.RoundTrip.{number-parse_digits}
use clubcos.Prelude.{
  ℕ, ◌-◌, ◌≤◌, ◌≡◌, refl, true, Option, none, some, List, [], ◌∷◌, arith, leb, if◌then◌else◌,
  get_or, upd,
}

abbrev twelve_bytes : Printer
twelve_bytes = record { mem = λ q. 255; str = 0; size = 12 }

number-parse_digits_example :
    (q : Printer) × (number 1234567890 10 0 0 no_flags twelve_bytes ≡ some q)
    × (q.str ≤ 10)
    × (parse_digits 11 (upd q.mem q.str 0) 0 0 ≡ some 1234567890)
number-parse_digits_example =
    number-parse_digits 1234567890 11 twelve_bytes (omega arith) (omega arith) (omega arith)
      (omega arith)

-- `%+5d` of -12.
abbrev signed_plus : Flags
signed_plus = record no_flags { sign = true; plus = true }

number-IsWithin_example :
    (q : Printer) × (number 4294967284 10 5 0 signed_plus twelve_bytes ≡ some q)
    × IsWithin twelve_bytes q
number-IsWithin_example =
    number-IsWithin 4294967284 10 5 0 signed_plus twelve_bytes (omega arith) (omega arith)
      (omega arith) (omega arith) refl

-- The smallest `int` has no digits in the table.
number_smallest : number 2147483648 10 0 0 signed_plus twelve_bytes ≡ none
unfolding number
number_smallest = refl

result_of : Option (ℕ × (ℕ → ℕ)) → Option ℕ
result_of none = none
result_of (some (n, mem)) = some n

byte_of : ℕ → Option (ℕ × (ℕ → ℕ)) → ℕ
byte_of q none = 0
byte_of q (some (n, mem)) = mem q

-- The memory with a format at 100.
abbrev with_format : List ℕ → ℕ → ℕ
with_format f q = if leb 100 q then get_or f (q - 100) 0 else 255

-- `%uab` of 12345 into three bytes: the end of the room is not seen behind a number, and what
-- follows is written behind the buffer.
abbrev number_and_text : ℕ → ℕ
number_and_text = with_format (37 ∷ 117 ∷ 97 ∷ 98 ∷ 0 ∷ [])

abbrev overrun : Option (ℕ × (ℕ → ℕ))
unfolding vsnprintf
overrun = vsnprintf 9 0 0 3 100 (12345 ∷ []) number_and_text

vsnprintf_overrun :
    (result_of overrun ≡ some 4) × (byte_of 3 overrun ≡ 98) × (byte_of 4 overrun ≡ 0)
unfolding result_of byte_of overrun vsnprintf format_loop parse_directive parse_flags parse_width
    parse_precision parse_length convert print_argument print_number number digits_of number_body
    emit emit_many emit_if emit_special emit_digits
vsnprintf_overrun = (refl, refl, refl)

-- A `%` at the end: the terminator is passed over.
abbrev open_percent : ℕ → ℕ
open_percent = with_format (37 ∷ 0 ∷ 255 ∷ 97 ∷ 0 ∷ [])

vsnprintf_percent : result_of (vsnprintf 9 0 0 50 100 [] open_percent) ≡ some 1
unfolding result_of vsnprintf format_loop parse_directive parse_flags parse_width parse_precision
    parse_length convert emit
vsnprintf_percent = refl

-- A blank behind a string that has filled its room takes the place of the terminator.
pad_behind_last : (pad_behind 1 (record twelve_bytes { size = 1 })).1.str ≡ 1
unfolding pad_behind
pad_behind_last = refl
