-- ===== src/Strings.antt =====
-- The string functions of src/string.c over a memory of bytes. A loop that only a terminator ends
-- runs on fuel; `none` is a run that has not ended.
pub mod Scan
mod Tests
use clubcos.Prelude.{
  ℕ, zero, suc, ◌+◌, ◌-◌, ◌*◌, ◌/◌, ◌%◌, ◌^◌, ◌≤◌, ◌<◌, ◌≡◌, refl, sym, ap, ◌∙◌, ◌≢◌, ◌↔◌, ◌⊎◌, inl,
  inr, Bool, true, false, not, ◌&&◌, ◌||◌, Option, none, some, List, [], ◌∷◌, ◌++◌, map, arith, ltb,
  leb, ◌==◌, if◌then◌else◌, ltb→lt, lt→ltb, leb→le, ==_iff, tests, Bool-cases, Option-cases, length,
  get_elem?, set, get_or, take, drop, replicate, length-append, length-set, get_elem?-set_self,
  get_elem?-set_ne, take-append-drop, length-take, length-drop, length-replicate, length-map,
  get_or-set_self, get_or-set_ne, u8_mod, u16_mod, u32_mod, add32, sub32, Store, upd, has, Distinct,
  has-append, Distinct-snoc, Distinct-drop, Distinct-remove, has_same, Distinct-gone, all_below,
  all_below_sound,
}

-- A `char` is signed; an `int` is its 32 bits.
abbrev pub int_of_char : ℕ → ℕ
int_of_char c = if ltb c 128 then c else 2 ^ 32 - 256 + c

strlen_from : ℕ → (ℕ → ℕ) → ℕ → ℕ → Option ℕ
strlen_from zero mem p str = none
strlen_from (suc k) mem p str =
    let rest = strlen_from k mem (p + 1) str in if mem p == 0 then some (p - str) else rest

unfoldable pub strlen : ℕ → (ℕ → ℕ) → ℕ → Option ℕ
unfolding strlen_from
strlen fuel mem str = strlen_from fuel mem str str

unfoldable pub strnlen : (ℕ → ℕ) → ℕ → ℕ → ℕ
strnlen mem str zero = 0
strnlen mem str (suc size) =
    let rest = strnlen mem (str + 1) size in if mem str == 0 then 0 else suc rest

-- The pointer behind the last byte written, and the memory.
unfoldable pub strcpy : ℕ → ℕ → ℕ → (ℕ → ℕ) → Option (ℕ × (ℕ → ℕ))
strcpy zero dest src mem = none
strcpy (suc k) dest src mem =
    let mem' = upd mem dest (mem src) in
    let rest = strcpy k (dest + 1) (src + 1) mem' in
    if mem' src == 0 then some (dest + 1, mem') else rest

unfoldable pub strncpy : ℕ → ℕ → ℕ → (ℕ → ℕ) → ℕ × (ℕ → ℕ)
strncpy zero dest src mem = (dest, mem)
strncpy (suc count) dest src mem =
    let mem' = upd mem dest (mem src) in
    let rest = strncpy count (dest + 1) (src + 1) mem' in
    if not (mem' src == 0) then (dest + 1, mem') else rest

-- `while (*dest++ != '\0') dest++;` looks at every other byte.
unfoldable pub strcat_end : ℕ → ℕ → (ℕ → ℕ) → Option ℕ
strcat_end zero dest mem = none
strcat_end (suc k) dest mem =
    let rest = strcat_end k (dest + 2) mem in if mem dest == 0 then some (dest + 1) else rest

unfoldable pub strcat_copy : ℕ → ℕ → ℕ → (ℕ → ℕ) → Option (ℕ × (ℕ → ℕ))
strcat_copy zero dest src mem = none
strcat_copy (suc k) dest src mem =
    let mem' = upd mem dest (mem src) in
    let rest = strcat_copy k (dest + 1) (src + 1) mem' in
    if mem' (src + 1) == 0 then some (dest + 1, mem') else rest

unfoldable pub strcat : ℕ → ℕ → ℕ → (ℕ → ℕ) → Option (ℕ × (ℕ → ℕ))
unfolding strcat_end strcat_copy
strcat fuel dest src mem = elim (strcat_end fuel dest mem) [
  | none ↦ none
  | some end ↦ strcat_copy fuel end src mem
]

unfoldable pub strcmp : ℕ → (ℕ → ℕ) → ℕ → ℕ → Option ℕ
strcmp zero mem lhs rhs = none
strcmp (suc k) mem lhs rhs =
    let ret = sub32 (int_of_char (mem lhs)) (int_of_char (mem rhs)) in
    let rest = strcmp k mem (lhs + 1) (rhs + 1) in
    if not (ret == 0) then some ret else if mem lhs == 0 then some 0 else rest

-- The pointer found, if any.
unfoldable pub strchr : ℕ → (ℕ → ℕ) → ℕ → ℕ → Option (Option ℕ)
strchr zero mem str ch = none
strchr (suc k) mem str ch =
    let rest = strchr k mem (str + 1) ch in
    if mem str == 0
    then some none
    else if int_of_char (mem str) == ch
    then some (some str)
    else rest

unfoldable pub strchr_not : ℕ → (ℕ → ℕ) → ℕ → ℕ → Option (Option ℕ)
strchr_not zero mem str ch = none
strchr_not (suc k) mem str ch =
    let rest = strchr_not k mem (str + 1) ch in
    if mem str == 0
    then some none
    else if not (int_of_char (mem str) == ch)
    then some (some str)
    else rest

abbrev pub isdigit : ℕ → Bool
isdigit c = leb 48 c && leb c 57

abbrev pub isspace : ℕ → Bool
isspace c = (c == 32) || (leb 9 c && leb c 13)

unfoldable pub skip_space : ℕ → (ℕ → ℕ) → ℕ → Option (Option ℕ)
skip_space zero mem str = none
skip_space (suc k) mem str =
    let rest = skip_space k mem (str + 1) in
    if mem str == 0 then some none else if isspace (mem str) then rest else some (some str)

unfoldable pub parse_digits : ℕ → (ℕ → ℕ) → ℕ → ℕ → Option ℕ
parse_digits zero mem str ret = none
parse_digits (suc k) mem str ret =
    let rest = parse_digits k mem (str + 1) ((ret * 10 + (mem str - 48)) % 2 ^ 32) in
    if isdigit (mem str) then rest else some ret

abbrev negate : Option ℕ → Option ℕ
negate none = none
negate (some n) = some (sub32 0 n)

-- The 32 bits of the `int`.
unfoldable pub atoi : ℕ → (ℕ → ℕ) → ℕ → Option ℕ
unfolding skip_space parse_digits
atoi fuel mem str = elim (skip_space fuel mem str) [
  | none ↦ none
  | some none ↦ some 0
  | some (some p) ↦
      if mem p == 43
      then parse_digits fuel mem (p + 1) 0
      else if mem p == 45
      then negate (parse_digits fuel mem (p + 1) 0)
      else parse_digits fuel mem p 0
]
