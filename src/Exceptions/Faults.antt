-- ===== src/Exceptions/Faults.antt =====
-- What `csPageFaultErrorMsg` of src/int_except.c says.
use clubcos.Exceptions.{
  codes, initial_memory, page_fault_text, page_fault_error_msg, has_bit, read_text,
}
use clubcos.Prelude.{ℕ, ◌≡◌, refl, Bool, true, false, Option, none, some, List, ◌>>=◌}

-- What the message says, after the calls for the five bits.
shown : Bool → Bool → Bool → Bool → Bool → Option (List ℕ)
unfolding page_fault_text initial_memory read_text
shown present write user reserved fetch = do
  mem ← page_fault_text 64 present write user reserved fetch initial_memory
  some (read_text 64 mem 0)

abbrev pub presence : Bool → List ℕ
presence true = codes "page-protection : "
presence false = codes "non-present : "

shown-presence : (p w u r f : Bool) → shown p w u r f ≡ some (presence p)
unfolding shown
shown-presence true true true true true = refl
shown-presence true true true true false = refl
shown-presence true true true false true = refl
shown-presence true true true false false = refl
shown-presence true true false true true = refl
shown-presence true true false true false = refl
shown-presence true true false false true = refl
shown-presence true true false false false = refl
shown-presence true false true true true = refl
shown-presence true false true true false = refl
shown-presence true false true false true = refl
shown-presence true false true false false = refl
shown-presence true false false true true = refl
shown-presence true false false true false = refl
shown-presence true false false false true = refl
shown-presence true false false false false = refl
shown-presence false true true true true = refl
shown-presence false true true true false = refl
shown-presence false true true false true = refl
shown-presence false true true false false = refl
shown-presence false true false true true = refl
shown-presence false true false true false = refl
shown-presence false true false false true = refl
shown-presence false true false false false = refl
shown-presence false false true true true = refl
shown-presence false false true true false = refl
shown-presence false false true false true = refl
shown-presence false false true false false = refl
shown-presence false false false true true = refl
shown-presence false false false true false = refl
shown-presence false false false false true = refl
shown-presence false false false false false = refl

text_of :
    (o : Option (ℕ → ℕ)) (text : List ℕ)
    → (do mem ← o; some (read_text 64 mem 0)) ≡ some text
    → (mem : ℕ → ℕ) × (o ≡ some mem) × (read_text 64 mem 0 ≡ text)
text_of none text e = absurd cc
text_of (some mem) text e = (mem, refl, cc)

-- The first message that `csPageFaultErrorMsg` makes is, for every error code, "page-protection :
-- " or "non-present : " according to the lowest bit: of the other four bits it says nothing.
pub page_fault_error_msg-presence :
    (err_code : ℕ)
    → (mem : ℕ → ℕ) × (page_fault_error_msg 64 err_code initial_memory ≡ some mem)
      × (read_text 64 mem 0 ≡ presence (has_bit err_code 0x1))
unfolding page_fault_error_msg shown
page_fault_error_msg-presence err_code =
    text_of (page_fault_error_msg 64 err_code initial_memory) (presence (has_bit err_code 0x1)) (
      shown-presence (has_bit err_code 0x1) (has_bit err_code 0x2) (has_bit err_code 0x4)
        (has_bit err_code 0x8) (has_bit err_code 0x10))
