-- ===== src/Task/Cleanup.antt =====
-- What a dead task leaves behind: `csCleanupProcess` of src/task.c, with the stack and the
-- descriptor that `ckTaskTerminate_internal` and `csIdleTask` free, and the conversions of
-- addresses of src/memory_map.h and src/memory.h. `none` is a failed assertion or a null pointer
-- followed.
use Prim.Native.Nat.{bit_and}
use clubcos.LinkedList.{erase}
use clubcos.Memory.Dyn.{DynMem, dyn_memory_start, unit_size, free}
use clubcos.Task.{TaskStruct, child_process_list, child_node}
use clubcos.Prelude.{
  ℕ, zero, suc, ◌+◌, Bool, not, ◌&&◌, Option, none, some, ltb, ◌==◌, if◌then◌else◌, add32, sub32,
  upd, ◌>>=◌,
}

-- The tasks with the memory of the processes: the heap, the words of the page tables at their
-- addresses, and the two words of each descriptor as one number.
pub record Kernel : Type 0 where
  pub tasks : TaskStruct
  pub dyn_mem : DynMem
  pub word : ℕ → ℕ
  pub gdt_table : ℕ → ℕ

abbrev pub dyn_memory_physical : ℕ
dyn_memory_physical = 0x0090_0000

abbrev pub kernel_page_dir_num : ℕ
kernel_page_dir_num = 0x3f8

abbrev pub page_table_count : ℕ
page_table_count = 1024

unfoldable pub physical_to_logical : ℕ → ℕ
physical_to_logical address = sub32 (add32 address dyn_memory_start) dyn_memory_physical

unfoldable pub phy_is_dyn_mem : ℕ → Bool
phy_is_dyn_mem phy = ltb dyn_memory_physical phy && ltb phy 0xc000_0000

-- The entry of a page table or directory without the bits of `0x3ff`.
abbrev pub frame_of : ℕ → ℕ
frame_of entry = bit_and entry 0xffff_fc00

-- `ckDynMemFree` without its answer.
unfoldable pub free_block : ℕ → ℕ → Kernel → Option Kernel
free_block addr size k = do (freed, g) ← free addr size k.dyn_mem; some (record k { dyn_mem = g })

unfoldable pub clear_word : ℕ → Kernel → Kernel
clear_word p k = record k { word = upd k.word p 0 }

unfoldable pub clean_table_entry : ℕ → Kernel → Option Kernel
unfolding physical_to_logical phy_is_dyn_mem free_block clear_word
clean_table_entry p k =
    let frame = frame_of (k.word p) in
    let freed = free_block (physical_to_logical frame) unit_size k in
    if not (k.word p == 0) && phy_is_dyn_mem frame
    then (do k' ← freed; some (clear_word p k'))
    else some k

-- `n` entries from the address `p` on.
unfoldable pub clean_table : ℕ → ℕ → Kernel → Option Kernel
unfolding clean_table_entry
clean_table zero p k = some k
clean_table (suc n) p k = do k' ← clean_table_entry p k; clean_table n (p + 4) k'

unfoldable pub clean_directory_entry : ℕ → Kernel → Option Kernel
unfolding physical_to_logical clean_table free_block clear_word
clean_directory_entry p k =
    let table = physical_to_logical (frame_of (k.word p)) in
    let cleaned = (do
      k₁ ← clean_table page_table_count table k
      k₂ ← free_block table unit_size k₁
      some (clear_word p k₂)) in
    if k.word p == 0 then some k else cleaned

unfoldable pub clean_directory : ℕ → ℕ → Kernel → Option Kernel
unfolding clean_directory_entry
clean_directory zero p k = some k
clean_directory (suc n) p k = do k' ← clean_directory_entry p k; clean_directory n (p + 4) k'

unfoldable pub free_directory : Option ℕ → ℕ → Kernel → Option Kernel
unfolding clean_directory free_block
free_directory none size k = some k
free_directory (some p) size k = do
  k' ← clean_directory kernel_page_dir_num p k
  if size == 0 then some k' else free_block p size k'

unfoldable pub leave_parent : ℕ → Kernel → Option Kernel
leave_parent p k = do
  parent ← k.tasks.parent_process p
  some (record k {
    tasks = record k.tasks {
      store = erase (child_process_list parent) (child_node p) k.tasks.store;
    };
  })

unfoldable pub cleanup_process : ℕ → Kernel → Option Kernel
unfolding leave_parent free_directory
cleanup_process p k = do
  k' ← leave_parent p k
  free_directory (k'.tasks.page_directory p) (k'.tasks.page_dir_size p) k'

unfoldable pub cleanup_of : Option ℕ → Kernel → Option Kernel
unfolding cleanup_process
cleanup_of none k = some k
cleanup_of (some p) k = cleanup_process p k

unfoldable pub free_stack : Option ℕ → ℕ → Kernel → Option Kernel
unfolding free_block
free_stack none size k = some k
free_stack (some stack) size k = free_block stack size k

unfoldable pub drop_selector : ℕ → Kernel → Kernel
drop_selector t k = record k {
  gdt_table = upd k.gdt_table (k.tasks.selector t) 0;
  tasks = record k.tasks { selector = upd k.tasks.selector t 0 };
}

-- What is done with a task that is off every list, at once or by the idle task.
unfoldable pub release_task : ℕ → Kernel → Option Kernel
unfolding cleanup_of free_stack drop_selector
release_task t k = do
  k₁ ← cleanup_of (k.tasks.process t) k
  k₂ ← free_stack (k₁.tasks.stack t) (k₁.tasks.stack_size t) k₁
  some (drop_selector t k₂)
