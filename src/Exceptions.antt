-- ===== src/Exceptions.antt =====
-- The message about a page fault of src/int_except.c. A text of the source is at an address of its
-- own; the static array `msg` is at 0, and its bytes are 0 at the start.
pub mod Faults
mod Tests
use Prim.Native.Char.{code}
use Prim.Native.String.{String}
use Prim.Native.Nat.{bit_and}
use clubcos.Strings.{strlen, strcpy, strcat}
use clubcos.Prelude.{
  ℕ, zero, suc, ◌+◌, ◌-◌, ◌*◌, ◌/◌, ◌%◌, ◌^◌, ◌≤◌, ◌<◌, ◌≡◌, refl, sym, ap, ◌∙◌, ◌≢◌, ◌↔◌, ◌⊎◌, inl,
  inr, Bool, true, false, not, ◌&&◌, ◌||◌, Option, none, some, List, [], ◌∷◌, ◌++◌, map, arith, ltb,
  leb, ◌==◌, if◌then◌else◌, ltb→lt, lt→ltb, leb→le, ==_iff, tests, Bool-cases, Option-cases, length,
  get_elem?, set, get_or, take, drop, replicate, length-append, length-set, get_elem?-set_self,
  get_elem?-set_ne, take-append-drop, length-take, length-drop, length-replicate, length-map,
  get_or-set_self, get_or-set_ne, u8_mod, u16_mod, u32_mod, add32, sub32, Store, upd, has, Distinct,
  has-append, Distinct-snoc, Distinct-drop, Distinct-remove, has_same, Distinct-gone, has-cut,
  ◌>>=◌, all_below, all_below_sound, lt→ne, ne→false, sub16,
}

abbrev pub codes : String → List ℕ
codes String.[] = []
codes (String.◌∷◌ c s) = code c ∷ codes s

-- The literals, 256 bytes apart.
unfoldable pub texts : List (List ℕ)
texts =
    codes "page-protection, "
    ∷ codes "non-present, "
    ∷ codes "during writing, "
    ∷ codes "during reading, "
    ∷ codes "by user, "
    ∷ codes "read from reserved field, "
    ∷ codes "instruction fetch, "
    ∷ codes " : "
    ∷ []

abbrev pub text_at : ℕ → ℕ
text_at i = 0x1_0000 + 0x100 * i

-- The memory at the start.
unfoldable pub initial_memory : ℕ → ℕ
unfolding texts
initial_memory q =
    if leb 0x1_0000 q
    then get_or (get_or texts ((q - 0x1_0000) / 0x100) []) ((q - 0x1_0000) % 0x100) 0
    else 0

-- `strcat(msg, text)` if the bit is set.
unfoldable pub append_if : ℕ → Bool → ℕ → (ℕ → ℕ) → Option (ℕ → ℕ)
unfolding strcat
append_if fuel true text mem = do (end, mem') ← strcat fuel 0 text mem; some mem'
append_if fuel false text mem = some mem

-- The calls, for the bits 0x01, 0x02, 0x04, 0x08 and 0x10 of the error code.
unfoldable pub page_fault_text : ℕ → Bool → Bool → Bool → Bool → Bool → (ℕ → ℕ) → Option (ℕ → ℕ)
unfolding strcpy append_if strlen
page_fault_text fuel present write user reserved fetch mem = do
  (end₁, mem₁) ← strcpy fuel 0 (text_at (if present then 0 else 1)) mem
  mem₂ ← append_if fuel true (text_at (if write then 2 else 3)) mem₁
  mem₃ ← append_if fuel user (text_at 4) mem₂
  mem₄ ← append_if fuel reserved (text_at 5) mem₃
  mem₅ ← append_if fuel fetch (text_at 6) mem₄
  len ← strlen fuel mem₅ 0
  (end₆, mem₆) ← strcpy fuel (len - 2) (text_at 7) mem₅
  some mem₆

abbrev pub has_bit : ℕ → ℕ → Bool
has_bit err_code bit = not (bit_and err_code bit == 0)

-- The memory afterwards; the message is at 0.
unfoldable pub page_fault_error_msg : ℕ → ℕ → (ℕ → ℕ) → Option (ℕ → ℕ)
unfolding page_fault_text
page_fault_error_msg fuel err_code mem =
    page_fault_text fuel (has_bit err_code 0x1) (has_bit err_code 0x2) (has_bit err_code 0x4)
      (has_bit err_code 0x8) (has_bit err_code 0x10) mem

-- The string at an address, up to `n` bytes of it.
unfoldable pub read_text : ℕ → (ℕ → ℕ) → ℕ → List ℕ
read_text zero mem p = []
read_text (suc n) mem p =
    let rest = read_text n mem (p + 1) in if mem p == 0 then [] else mem p ∷ rest
