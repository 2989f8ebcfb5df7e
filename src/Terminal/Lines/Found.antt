-- ===== src/Terminal/Lines/Found.antt =====
-- Steps of reading a line of src/terminal.c: the newline found, and blocks of memory copied.
use clubcos.Array.{memmove}
use clubcos.Semaphore.{try_enter, post}
use clubcos.Strings.{strchr, int_of_char}
use clubcos.Terminal.{Terminal, string_inputing}
use clubcos.Terminal.Input.Read.{locked, locked_step, set_status, move_line, take_line, get_line}
use clubcos.Prelude.{
  ℕ, zero, suc, ◌+◌, ◌-◌, ◌^◌, ◌≤◌, ◌<◌, ◌≡◌, refl, sym, ap, ◌∙◌, ◌≢◌, ◌⊎◌, true, false, some,
  arith, ltb, ◌==◌, if◌then◌else◌, ==_iff, sub32, upd, ne→false,
}

pub strchr-finds :
    (fuel n : ℕ) (mem : ℕ → ℕ) (str ch : ℕ)
    → n < fuel
    → ((j : ℕ) → j < n → (mem (str + j) ≢ 0) × (int_of_char (mem (str + j)) ≢ ch))
    → mem (str + n) ≢ 0
    → int_of_char (mem (str + n)) ≡ ch
    → strchr fuel mem str ch ≡ some (some (str + n))
unfolding strchr
strchr-finds zero n mem str ch lt other there found = absurd (omega arith)
strchr-finds (suc k) zero mem str ch lt other there found =
    let at : str + 0 ≡ str = omega arith in
    let e : (mem str == 0) ≡ false = ground (arith, there, ap mem at) in
    let f : (int_of_char (mem str) == ch) ≡ true =
      (==_iff (int_of_char (mem str)) ch).1 (ap int_of_char (ap mem (sym at)) ∙ found) in
    rw (e, f) (ap (λ q. some (some q)) (sym at))
strchr-finds (suc k) (suc n) mem str ch lt other there found =
    let at : str + 0 ≡ str = omega arith in
    let e : (mem str == 0) ≡ false = ground (arith, (other 0 (omega arith)).0, ap mem at) in
    let f : (int_of_char (mem str) == ch) ≡ false =
      ne→false (int_of_char (mem str)) ch
        (λ h. (other 0 (omega arith)).1 (ap int_of_char (ap mem at) ∙ h)) in
    let step : (j : ℕ) → mem (str + 1 + j) ≡ mem (str + suc j) = λ j. ap mem (omega arith) in
    let rest =
      strchr-finds k n mem (str + 1) ch (omega arith)
        (λ j l.
          let o = other (suc j) (omega (arith, l)) in
          (λ h. o.0 (sym (step j) ∙ h), λ h. o.1 (sym (ap int_of_char (step j)) ∙ h)))
        (λ h. there (sym (step n) ∙ h)) (ap int_of_char (step n) ∙ found) in
    let next : str + 1 + n ≡ str + suc n = omega arith in
    rw (e, f) (rest ∙ ap (λ q. some (some q)) next)

pub take_line-taken :
    (fuel dest size n : ℕ) (t : Terminal)
    → strchr fuel t.mem t.input_buffer 10 ≡ some (some (t.input_buffer + n))
    → n < size
    → size < 2 ^ 32
    → take_line fuel dest size t ≡ some (n, move_line n dest t)
unfolding take_line
take_line-taken fuel dest size n t found short fits =
    let room : ℕ = sub32 size 1 in
    let whole : t.input_buffer + n - t.input_buffer ≡ n = omega arith in
    let len : (if ltb n room then n else room) ≡ n = ground arith in
    let e : (if ltb (t.input_buffer + n - t.input_buffer) room
          then t.input_buffer + n - t.input_buffer
          else room)
        ≡ n =
      ap (λ q. if ltb q room then q else room) whole ∙ len in
    rw (found, take_line) (ap (λ q. some (q, move_line q dest t)) e)

-- What `ckTerminalGetLine` has done before it looks for the newline.
abbrev pub entered : Terminal → Terminal
entered t = record t {
  term_stat = string_inputing;
  term_mutex = record { flag = 1 };
  line_event = record { flag = 1 };
}

pub get_line-taken :
    (fuel dest size n : ℕ) (t u : Terminal)
    → t.term_mutex.flag ≡ 0
    → t.line_event.flag ≡ 0
    → take_line fuel dest size (entered t) ≡ some (n, u)
    → get_line fuel dest size t ≡ some (n, record u { term_mutex = (post u.term_mutex).1 })
unfolding get_line set_status locked_step locked try_enter post
get_line-taken fuel dest size n t u mutex event taken = rw (mutex, event, taken) refl

pub memmove-inside :
    (d src k : ℕ) (f : ℕ → ℕ) (j : ℕ) → j < k → memmove d src k f (d + j) ≡ f (src + j)
memmove-inside d src k f j lt =
    let back : src + (d + j - d) ≡ src + j = omega arith in ground (arith, ap f back)

pub memmove-outside :
    (d src k q : ℕ) (f : ℕ → ℕ) → (q < d) ⊎ (d + k ≤ q) → memmove d src k f q ≡ f q
memmove-outside d src k q f out = ground arith

pub upd-other : (f : ℕ → ℕ) (p v q : ℕ) → p ≢ q → upd f p v q ≡ f q
upd-other f p v q h = ground arith
