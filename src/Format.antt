-- ===== src/Format.antt =====
-- The formatted output of src/snprintf.c over a memory of bytes. An `int`, a `long` and a pointer are
-- words of 32 bits, and so are the arguments behind the format. `none` is an argument that is
-- missing, a digit read outside the digits' table, or a format that the fuel did not get through.
-- A width below 0 is 0 here: the source only subtracts from it and asks if it is above 0.
pub mod Number
pub mod Directive
pub mod Print
pub mod Bounds
pub mod Decimal
pub mod RoundTrip
mod Tests
use clubcos.Prelude.{
  ℕ, zero, suc, ◌+◌, ◌-◌, ◌*◌, ◌/◌, ◌%◌, ◌^◌, ◌≤◌, ◌<◌, ◌≡◌, refl, sym, ap, ◌∙◌, ◌≢◌, ◌↔◌, ◌⊎◌, inl,
  inr, Bool, true, false, not, ◌&&◌, ◌||◌, Option, none, some, List, [], ◌∷◌, ◌++◌, map, arith, ltb,
  leb, ◌==◌, if◌then◌else◌, ltb→lt, lt→ltb, leb→le, ==_iff, tests, Bool-cases, Option-cases, length,
  get_elem?, set, get_or, take, drop, replicate, length-append, length-set, get_elem?-set_self,
  get_elem?-set_ne, take-append-drop, length-take, length-drop, length-replicate, length-map,
  get_or-set_self, get_or-set_ne, u8_mod, u16_mod, u32_mod, add32, sub32, Store, upd, has, Distinct,
  has-append, Distinct-snoc, Distinct-drop, Distinct-remove, has_same, Distinct-gone, all_below,
  all_below_sound, lt→ne, ne→false, sub16,
}

-- Where the next character goes, and the bytes left there, the terminator's included.
pub record Printer : Type 0 where
  pub mem : ℕ → ℕ
  pub str : ℕ
  pub size : ℕ

pub record Flags : Type 0 where
  pub zeropad : Bool
  pub sign : Bool
  pub plus : Bool
  pub space : Bool
  pub left : Bool
  pub special : Bool
  pub large : Bool

-- `if (size-- == 1) goto end; *str++ = c;`: false is the jump.
unfoldable pub emit : ℕ → Printer → Bool × Printer
emit c p = if p.size == 1 then (false, record p { size = 0 }) else (
  true,
  record { mem = upd p.mem p.str (c % 2 ^ 8); str = p.str + 1; size = sub32 p.size 1 },
)

abbrev pub and_then : Bool × Printer → (Printer → Bool × Printer) → Bool × Printer
and_then (false, p) next = (false, p)
and_then (true, p) next = next p

unfoldable pub emit_many : ℕ → ℕ → Printer → Bool × Printer
unfolding emit
emit_many c zero p = (true, p)
emit_many c (suc n) p = and_then (emit c p) (emit_many c n)

unfoldable pub emit_if : Bool → ℕ → ℕ → Printer → Bool × Printer
unfolding emit_many
emit_if b c n p = if b then emit_many c n p else (true, p)
