-- ===== src/Exceptions/Tests.antt =====
-- The message about a page fault of src/int_except.c.
use clubcos.Exceptions.{codes, initial_memory, page_fault_error_msg, read_text}
use clubcos.Exceptions.Faults.{page_fault_error_msg-presence}
use clubcos.Prelude.{ℕ, ◌≡◌, some}

-- A user's write to a page that is there.
page_fault_error_msg-presence_example :
    (mem : ℕ → ℕ) × (page_fault_error_msg 64 7 initial_memory ≡ some mem)
    × (read_text 64 mem 0 ≡ codes "page-protection : ")
page_fault_error_msg-presence_example = page_fault_error_msg-presence 7
