-- ===== src/Shell.antt =====
-- The shell of src/coshell.excp and src/coshell_cmd.c: the search for a command in the sorted table,
-- the cutting of a line into command and parameter, and the commands `killtask`, `killproc` and
-- `meminfo`. What a command prints is left out but for its arguments.
pub mod Search
pub mod Kill
mod Tests
use clubcos.Strings.{strcmp, strchr, atoi}
use clubcos.Memory.Dyn.{DynMem, dyn_memory_start}
use clubcos.Task.Cleanup.{Kernel}
use clubcos.Task.Terminate.{terminate, process_terminate}
use clubcos.Prelude.{
  ℕ, zero, suc, ◌+◌, ◌-◌, ◌*◌, ◌/◌, ◌%◌, ◌^◌, ◌≤◌, ◌<◌, ◌≡◌, refl, sym, ap, ◌∙◌, ◌≢◌, ◌↔◌, ◌⊎◌, inl,
  inr, Bool, true, false, not, ◌&&◌, ◌||◌, Option, none, some, List, [], ◌∷◌, ◌++◌, map, arith, ltb,
  leb, ◌==◌, if◌then◌else◌, ltb→lt, lt→ltb, leb→le, ==_iff, tests, Bool-cases, Option-cases, length,
  get_elem?, set, get_or, take, drop, replicate, length-append, length-set, get_elem?-set_self,
  get_elem?-set_ne, take-append-drop, length-take, length-drop, length-replicate, length-map,
  get_or-set_self, get_or-set_ne, u8_mod, u16_mod, u32_mod, add32, sub32, Store, upd, has, Distinct,
  has-append, Distinct-snoc, Distinct-drop, Distinct-remove, has_same, Distinct-gone, has-cut,
  ◌>>=◌, all_below, all_below_sound, lt→ne, ne→false, sub16,
}

abbrev pub is_negative : ℕ → Bool
is_negative ret = leb (2 ^ 31) ret

-- `compare` is the `strcmp` of the command with an entry of the table, the entries by their index;
-- `none` is a run that has not ended.
unfoldable pub search_loop : ℕ → (ℕ → Option ℕ) → ℕ → ℕ → Option (Option ℕ)
search_loop zero compare begin end = none
search_loop (suc k) compare begin end =
    let entry = begin + (end - begin) / 2 in
    let lower = search_loop k compare begin entry in
    let upper = search_loop k compare (entry + 1) end in
    compare entry >>= λ ret.
    if is_negative ret
    then if begin == entry then some none else lower
    else if ret == 0
    then some (some entry)
    else if entry + 1 == end
    then some none
    else upper

-- `names i` is the address of the name of entry `i`, of `n` entries.
unfoldable pub search_command : ℕ → (ℕ → ℕ) → (ℕ → ℕ) → ℕ → ℕ → Option (Option ℕ)
unfolding search_loop
search_command fuel mem names n cmd = search_loop n (λ i. strcmp fuel mem cmd (names i)) 0 n

-- The parameter and the memory with the blank before it overwritten.
abbrev pub cut_at : Option ℕ → (ℕ → ℕ) → Option ℕ × (ℕ → ℕ)
cut_at none mem = (none, mem)
cut_at (some p) mem = (some (p + 1), upd mem p 0)

unfoldable pub split_line : ℕ → ℕ → (ℕ → ℕ) → Option (Option ℕ × (ℕ → ℕ))
split_line fuel cmd mem = do blank ← strchr fuel mem cmd 32; some (cut_at blank mem)

-- What the two commands say.
pub data Answer : Type 0 where
  usage : Answer
  invalid_id terminated failed : ℕ → Answer

abbrev pub kill_answer : ℕ → Bool × Kernel → Answer × Kernel
kill_answer id (true, k) = (terminated id, k)
kill_answer id (false, k) = (failed id, k)

-- `id > 2` as a signed comparison.
abbrev pub is_above_two : ℕ → Bool
is_above_two id = not (is_negative id) && ltb 2 id

unfoldable pub kill_id :
    (ℕ → Kernel → Option (Bool × Kernel)) → ℕ → Kernel → Option (Answer × Kernel)
kill_id kill id k =
    let killed = kill id k in
    if is_above_two id then (do r ← killed; some (kill_answer id r)) else some (invalid_id id, k)

unfoldable pub kill_task : ℕ → (ℕ → ℕ) → Option ℕ → Kernel → Option (Answer × Kernel)
unfolding kill_id
kill_task fuel mem none k = some (usage, k)
kill_task fuel mem (some param) k = do id ← atoi fuel mem param; kill_id (terminate fuel) id k

unfoldable pub kill_proc : ℕ → (ℕ → ℕ) → Option ℕ → Kernel → Option (Answer × Kernel)
unfolding kill_id
kill_proc fuel mem none k = some (usage, k)
kill_proc fuel mem (some param) k = do
  id ← atoi fuel mem param
  kill_id (process_terminate fuel) id k

-- The sizes of the metadata and of the managed memory.
unfoldable pub mem_info : DynMem → ℕ × ℕ
mem_info g = (
  sub32 g.begin_addr dyn_memory_start,
  sub32 (add32 dyn_memory_start g.dyn_mem_size) g.begin_addr,
)
