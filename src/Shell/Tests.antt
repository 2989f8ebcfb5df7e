-- ===== src/Shell/Tests.antt =====
-- Commands of the shell of src/coshell.excp and src/coshell_cmd.c.
use clubcos.Strings.{strcmp, strchr}
use clubcos.Strings.Scan.{IsString}
use clubcos.Task.Boot.{task_struct_initialize}
use clubcos.Task.Cleanup.{Kernel}
use clubcos.Shell.{search_command, split_line, mem_info}
use clubcos.Shell.Search.{IsSearchFor, search_command-IsSearchFor}
use clubcos.Prelude.{
  ℕ, zero, suc, ◌+◌, ◌-◌, ◌*◌, ◌/◌, ◌%◌, ◌<◌, ◌≡◌, refl, Option, none, some, List, [], ◌∷◌, arith,
  leb, ◌==◌, if◌then◌else◌, get_or,
}

-- The commands "cls", "echo" and "help", and what was typed, "help", at 400.
abbrev name_text : ℕ → List ℕ
name_text i =
    if i == 0
    then b'c' ∷ b'l' ∷ b's' ∷ []
    else if i == 1
    then b'e' ∷ b'c' ∷ b'h' ∷ b'o' ∷ []
    else b'h' ∷ b'e' ∷ b'l' ∷ b'p' ∷ []

abbrev name_at : ℕ → ℕ
name_at i = 100 * i + 100

abbrev shell_memory : ℕ → ℕ
shell_memory q =
    if leb 400 q
    then get_or (name_text 2) (q - 400) 0
    else get_or (name_text (q / 100 - 1)) (q % 100) 0

abbrev answers : ℕ → ℕ
answers i = if i == 0 then 5 else if i == 1 then 3 else 0

below_three : (P : ℕ → Type 0) → P 0 → P 1 → P 2 → (i : ℕ) → i < 3 → P i
below_three P a b c zero lt = a
below_three P a b c (suc zero) lt = b
below_three P a b c (suc (suc zero)) lt = c
below_three P a b c (suc (suc (suc i))) lt = absurd (omega (arith, lt))

cls_at : IsString shell_memory (name_at 0) (name_text 0)
cls_at = (
  refl,
  (λ e. absurd (omega (arith, e))),
  omega arith,
  (
    refl,
    (λ e. absurd (omega (arith, e))),
    omega arith,
    (refl, (λ e. absurd (omega (arith, e))), omega arith, refl),
  ),
)

echo_at : IsString shell_memory (name_at 1) (name_text 1)
echo_at = (
  refl,
  (λ e. absurd (omega (arith, e))),
  omega arith,
  (
    refl,
    (λ e. absurd (omega (arith, e))),
    omega arith,
    (
      refl,
      (λ e. absurd (omega (arith, e))),
      omega arith,
      (refl, (λ e. absurd (omega (arith, e))), omega arith, refl),
    ),
  ),
)

help_at : IsString shell_memory (name_at 2) (name_text 2)
help_at = (
  refl,
  (λ e. absurd (omega (arith, e))),
  omega arith,
  (
    refl,
    (λ e. absurd (omega (arith, e))),
    omega arith,
    (
      refl,
      (λ e. absurd (omega (arith, e))),
      omega arith,
      (refl, (λ e. absurd (omega (arith, e))), omega arith, refl),
    ),
  ),
)

typed_at : IsString shell_memory 400 (name_text 2)
typed_at = (
  refl,
  (λ e. absurd (omega (arith, e))),
  omega arith,
  (
    refl,
    (λ e. absurd (omega (arith, e))),
    omega arith,
    (
      refl,
      (λ e. absurd (omega (arith, e))),
      omega arith,
      (refl, (λ e. absurd (omega (arith, e))), omega arith, refl),
    ),
  ),
)

names_at : (i : ℕ) → i < 3 → IsString shell_memory (name_at i) (name_text i)
names_at = below_three (λ i. IsString shell_memory (name_at i) (name_text i)) cls_at echo_at help_at

search_command-IsSearchFor_example :
    IsSearchFor (name_text 2) name_text 3 (search_command 9 shell_memory name_at 3 400)
unfolding strcmp
search_command-IsSearchFor_example =
    search_command-IsSearchFor 9 shell_memory name_at 3 400 answers (name_text 2) name_text
      (omega arith) (omega arith) typed_at names_at
      (below_three (λ i. strcmp 9 shell_memory 400 (name_at i) ≡ some (answers i)) refl refl refl)
      (λ i j a b h. ground (arith, h)) (λ i j a b h. ground (arith, h))

-- "killtask 7" when there is no task 7.
abbrev kernel_at_start : Kernel
kernel_at_start = record {
  tasks = task_struct_initialize 0x10_0000;
  dyn_mem = record {
    dyn_mem_size = 0x70_0000;
    begin_addr = 0x10_1000;
    used_size = 0;
    count_of_unit_block = 0;
    bitmap_level = 0;
    ar_bitmap = [];
  };
  word = λ p. 0;
  gdt_table = λ i. 0;
}

abbrev parameter : ℕ → ℕ
parameter q = if q == 10 then b'7' else 0

mem_info_sizes : mem_info kernel_at_start.dyn_mem ≡ (0x1000, 0x6f_f000)
unfolding mem_info
mem_info_sizes = refl

blank_cut : Option (Option ℕ × (ℕ → ℕ)) → Option ℕ
blank_cut none = none
blank_cut (some (p, mem)) = p

-- "ab 7"
abbrev typed_line : ℕ → ℕ
typed_line q = get_or (b'a' ∷ b'b' ∷ 32 ∷ b'7' ∷ []) q 0

line_split : blank_cut (split_line 9 0 typed_line) ≡ some 3
unfolding blank_cut split_line strchr
line_split = refl
