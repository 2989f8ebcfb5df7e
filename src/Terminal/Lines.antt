-- ===== src/Terminal/Lines.antt =====
-- A line finished with the enter key of src/terminal.c, and read.
mod Found
use clubcos.Array.{Array8, memmove, append}
use clubcos.Array.Cells.{cells, cells-same}
use clubcos.Array.Copy.{IsForward, memcpy-memmove}
use clubcos.Queue as Queues
use clubcos.Semaphore.{BiSem, post}
use clubcos.Strings.{int_of_char}
use clubcos.Terminal.Lines.Found.{
  strchr-finds, take_line-taken, entered, get_line-taken, memmove-inside, memmove-outside,
  upd-other,
}
use clubcos.Terminal.{Terminal, new_line, scroll_screen, update_cursor_unsafe}
use clubcos.Terminal.Input.{
  line, finish_line, clear_line_buffer_unsafe, clear_hit_key_buffer_unsafe,
}
use clubcos.Terminal.Input.Read.{move_line, get_line}
use clubcos.Prelude.{
  ℕ, zero, suc, ◌+◌, ◌-◌, ◌*◌, ◌/◌, ◌%◌, ◌^◌, ◌≤◌, ◌<◌, ◌≡◌, refl, sym, ap, ◌∙◌, ◌≢◌, ◌↔◌, ◌⊎◌, inl,
  inr, Bool, true, false, not, ◌&&◌, ◌||◌, Option, none, some, List, [], ◌∷◌, ◌++◌, map, arith, ltb,
  leb, ◌==◌, if◌then◌else◌, ltb→lt, lt→ltb, leb→le, ==_iff, tests, Bool-cases, Option-cases, length,
  get_elem?, set, get_or, take, drop, replicate, length-append, length-set, get_elem?-set_self,
  get_elem?-set_ne, take-append-drop, length-take, length-drop, length-replicate, length-map,
  get_or-set_self, get_or-set_ne, u8_mod, u16_mod, u32_mod, add32, sub32, Store, upd, has, Distinct,
  has-append, Distinct-snoc, Distinct-drop, Distinct-remove, has_same, Distinct-gone, has-cut,
  ◌>>=◌, all_below, all_below_sound, lt→ne, ne→false, sub16,
}

abbrev pub count : Terminal → ℕ
count t = t.line_buf_array.now - t.line_buf_array.buf

-- A line of `count` ASCII characters, none of them a newline, and no line finished before it, in
-- a buffer apart from that of the finished lines.
pub record IsReady (t : Terminal) : Type 0 where
  pub input_start : t.input_array.buf ≡ t.input_buffer
  pub input_empty : t.input_array.now ≡ t.input_buffer
  pub input_end : t.input_array.end ≡ t.input_buffer + 1024
  pub line_start : t.line_buf_array.buf ≤ t.line_buf_array.now
  pub line_short : t.line_buf_array.now ≤ t.line_buf_array.buf + 249
  pub apart :
      (t.line_buf_array.now ≤ t.input_buffer) ⊎ (t.input_buffer + 1024 ≤ t.line_buf_array.buf)
  pub characters :
      (j : ℕ)
      → j < count t
      → (t.mem (t.line_buf_array.buf + j) ≢ 0)
        × (t.mem (t.line_buf_array.buf + j) ≢ 10)
        × (t.mem (t.line_buf_array.buf + j) < 128)
  pub unlocked : t.term_mutex.flag ≡ 0
  pub event : t.line_event.flag < 2

finished_mem : Terminal → ℕ → ℕ
finished_mem t =
    upd (memmove t.input_buffer t.line_buf_array.buf (count t) t.mem) (t.input_buffer + count t) 10

post-flag : (b : BiSem) → b.flag < 2 → (post b).1.flag ≡ 0
unfolding post
post-flag b h = elim (Bool-cases (b.flag == 1)) [ inl e ↦ rw e refl | inr e ↦ rw e (ground arith) ]

shorter : (n room : ℕ) → n < room → (if ltb n room then n else room) ≡ n
shorter n room h = ground arith

line-IsForward :
    (t : Terminal) → IsReady t → IsForward t.input_buffer t.line_buf_array.buf (count t)
line-IsForward t r = elim r.apart [
  | inl h ↦ inr (omega (arith, h, r.line_start))
  | inr h ↦ inl (omega (arith, h))
]

finish_line-fields :
    (t : Terminal)
    → IsReady t
    → ((finish_line t).mem ≡ finished_mem t)
      × ((finish_line t).input_array.buf ≡ t.input_buffer)
      × ((finish_line t).input_array.now ≡ t.input_buffer + count t + 1)
      × ((finish_line t).input_buffer ≡ t.input_buffer)
      × ((finish_line t).term_mutex.flag ≡ 0)
      × ((finish_line t).line_event.flag ≡ 0)
unfolding finish_line new_line scroll_screen update_cursor_unsafe append clear_line_buffer_unsafe
    post finished_mem
finish_line-fields t r =
    let n : ℕ = count t in
    let room : ℕ = t.input_array.end - t.input_array.now in
    let len : (if ltb n room then n else room) ≡ n =
      shorter n room (omega (arith, r.line_start, r.line_short, r.input_empty, r.input_end)) in
    let event = post-flag t.line_event r.event in
    let block = memcpy-memmove t.input_buffer t.line_buf_array.buf n t.mem (line-IsForward t r) in
    elim (Bool-cases ((t.end_row + 1) % 2 ^ 16 == 24)) [
      | inl e ↦
          rw (e, len, r.input_empty, block) (refl, r.input_start, refl, refl, r.unlocked, event)
      | inr e ↦
          rw (e, len, r.input_empty, block) (refl, r.input_start, refl, refl, r.unlocked, event)
    ]

moved_mem : ℕ → ℕ → ℕ → (ℕ → ℕ) → ℕ → ℕ
moved_mem from n dest mem = memmove from (from + n) 1 (upd (memmove dest from n mem) (dest + n) 0)

dest-IsForward : (n dest from : ℕ) → (dest + n < from) ⊎ (from + n < dest) → IsForward dest from n
dest-IsForward n dest from (inl h) = inl (omega (arith, h))
dest-IsForward n dest from (inr h) = inr (omega (arith, h))

move_line-fields :
    (n dest from : ℕ) (t : Terminal)
    → t.input_array.buf ≡ from
    → t.input_buffer ≡ from
    → t.input_array.now ≡ from + n + 1
    → t.line_event.flag ≡ 1
    → (dest + n < from) ⊎ (from + n < dest)
    → ((move_line n dest t).mem ≡ moved_mem from n dest t.mem)
      × ((move_line n dest t).input_array.now ≡ from)
      × ((move_line n dest t).input_array.buf ≡ from)
      × ((move_line n dest t).line_event.flag ≡ 1)
unfolding move_line clear_hit_key_buffer_unsafe post moved_mem
move_line-fields n dest from t start buffer now event apart =
    let left : from + n + 1 - (n + 1) ≡ from = omega arith in
    let one : from + n + 1 - from - n ≡ 1 = omega arith in
    let empty : (from == from) ≡ true = (==_iff from from).1 refl in
    let block = memcpy-memmove dest from n t.mem (dest-IsForward n dest from apart) in
    rw (start, buffer, now, left, one, empty, block) (refl, refl, refl, event)

-- The bytes of the line where the enter key has put them, and the newline behind them.
finished-at :
    (t : Terminal) (j : ℕ)
    → j < count t
    → finished_mem t (t.input_buffer + j) ≡ t.mem (t.line_buf_array.buf + j)
unfolding finished_mem
finished-at t j lt =
    let n : ℕ = count t in
    upd-other (memmove t.input_buffer t.line_buf_array.buf n t.mem) (t.input_buffer + n) 10
      (t.input_buffer + j) (omega (arith, lt))
    ∙ memmove-inside t.input_buffer t.line_buf_array.buf n t.mem j lt

newline-at : (t : Terminal) → finished_mem t (t.input_buffer + count t) ≡ 10
unfolding finished_mem
newline-at t = ground arith

-- The line's bytes where reading has put them.
moved-at :
    (mem : ℕ → ℕ) (from n dest : ℕ)
    → (dest + n < from) ⊎ (from + n < dest)
    → (j : ℕ) → j < n
    → moved_mem from n dest mem (dest + j) ≡ mem (from + j)
unfolding moved_mem
moved-at mem from n dest apart j lt =
    memmove-outside from (from + n) 1 (dest + j) (upd (memmove dest from n mem) (dest + n) 0)
      (elim apart [ inl h ↦ inl (omega (arith, h, lt)) | inr h ↦ inr (omega (arith, h)) ])
    ∙ upd-other (memmove dest from n mem) (dest + n) 0 (dest + j) (omega (arith, lt))
    ∙ memmove-inside dest from n mem j lt

moved-nul :
    (mem : ℕ → ℕ) (from n dest : ℕ)
    → (dest + n < from) ⊎ (from + n < dest)
    → moved_mem from n dest mem (dest + n) ≡ 0
unfolding moved_mem
moved-nul mem from n dest apart =
    memmove-outside from (from + n) 1 (dest + n) (upd (memmove dest from n mem) (dest + n) 0)
      (elim apart [ inl h ↦ inl (omega (arith, h)) | inr h ↦ inr (omega (arith, h)) ])
    ∙ ground arith

int_of_char-ne : (c d : ℕ) → c < 128 → c ≢ d → int_of_char c ≢ d
int_of_char-ne c d h g = ground arith

-- With no finished line waiting, the semaphore of the terminal free and the line in a buffer apart
-- from that of the finished lines: after the enter key on a line of at most 249 ASCII characters,
-- none of them NUL or a newline, `ckTerminalGetLine` with a buffer that is larger than the line,
-- and where the line with its terminator does not meet the line with its newline at the start of
-- the input buffer, does not wait, given more fuel than the line is long. It returns the length of
-- the line, stores its characters and a terminator, and leaves the input array empty and its event
-- unposted.
pub finish_line-get_line :
    (fuel dest size : ℕ) (t : Terminal)
    → IsReady t
    → count t < fuel
    → count t < size
    → size < 2 ^ 32
    → (dest + count t < t.input_buffer) ⊎ (t.input_buffer + count t < dest)
    → (t' : Terminal) × (get_line fuel dest size (finish_line t) ≡ some (count t, t'))
      × (cells t'.mem dest (count t) ≡ cells t.mem t.line_buf_array.buf (count t))
      × (t'.mem (dest + count t) ≡ 0)
      × (t'.input_array.now ≡ t'.input_array.buf)
      × (t'.line_event.flag ≡ 1)
finish_line-get_line fuel dest size t r enough short fits apart =
    let u = finish_line t in
    let n : ℕ = count t in
    let (mem, start, now, buffer, mutex, event) = finish_line-fields t r in
    let at : (j : ℕ) → u.mem (u.input_buffer + j) ≡ finished_mem t (t.input_buffer + j) =
      λ j. ap (λ f. f (u.input_buffer + j)) mem ∙ ap (λ b. finished_mem t (b + j)) buffer in
    let newline : u.mem (u.input_buffer + n) ≡ 10 = at n ∙ newline-at t in
    let other : (j : ℕ)
        → j < n
        → (u.mem (u.input_buffer + j) ≢ 0) × (int_of_char (u.mem (u.input_buffer + j)) ≢ 10) =
      λ j lt.
        let c = r.characters j lt in
        let same = at j ∙ finished-at t j lt in
        (
          λ h. c.0 (sym same ∙ h),
          λ h.
              int_of_char-ne (t.mem (t.line_buf_array.buf + j)) 10 c.2 c.1
                (sym (ap int_of_char same) ∙ h),
        ) in
    let found =
      strchr-finds fuel n u.mem u.input_buffer 10 enough other
        (λ h. absurd (omega (arith, h, newline))) (ap int_of_char newline) in
    let taken = take_line-taken fuel dest size n (entered u) found short fits in
    let run = get_line-taken fuel dest size n u (move_line n dest (entered u)) mutex event taken in
    let (mem', now', start', event') =
      move_line-fields n dest t.input_buffer (entered u) start buffer now refl apart in
    let final = mem' ∙ ap (moved_mem t.input_buffer n dest) mem in
    (
      record (move_line n dest (entered u)) {
        term_mutex = (post (move_line n dest (entered u)).term_mutex).1;
      },
      run,
      cells-same (move_line n dest (entered u)).mem t.mem dest t.line_buf_array.buf n (λ j lt.
          ap (λ f. f (dest + j)) final
          ∙ moved-at (finished_mem t) t.input_buffer n dest apart j lt
          ∙ finished-at t j lt),
      ap (λ f. f (dest + n)) final ∙ moved-nul (finished_mem t) t.input_buffer n dest apart,
      now' ∙ sym start',
      event',
    )
