-- ===== src/Interrupts.antt =====
-- From the keyboard's interrupt to the driver: the interrupt queue of src/interrupt.c, the handler
-- and the commands of src/keyboard.c, and the loop of `ckMain` in src/ckMain.c. What the port of
-- the keyboard answers is given by arguments; the waiting for a ready port is left out.
pub mod Drained
pub mod Handled
pub mod Lost
mod Tests
use Prim.Native.Nat.{bit_and, bit_or}
use clubcos.Queue.{Queue}
use clubcos.Queue.Words.{init32, put32, get32}
use clubcos.Keys.{Keyboard, Output, on_keyboard_interrupt}
use clubcos.Prelude.{
  ℕ, zero, suc, ◌+◌, ◌-◌, ◌*◌, ◌/◌, ◌%◌, ◌^◌, ◌≤◌, ◌<◌, ◌≡◌, refl, sym, ap, ◌∙◌, ◌≢◌, ◌↔◌, ◌⊎◌, inl,
  inr, Bool, true, false, not, ◌&&◌, ◌||◌, Option, none, some, List, [], ◌∷◌, ◌++◌, map, arith, ltb,
  leb, ◌==◌, if◌then◌else◌, ltb→lt, lt→ltb, leb→le, ==_iff, tests, Bool-cases, Option-cases, length,
  get_elem?, set, get_or, take, drop, replicate, length-append, length-set, get_elem?-set_self,
  get_elem?-set_ne, take-append-drop, length-take, length-drop, length-replicate, length-map,
  get_or-set_self, get_or-set_ne, u8_mod, u16_mod, u32_mod, add32, sub32, Store, upd, has, Distinct,
  has-append, Distinct-snoc, Distinct-drop, Distinct-remove, has_same, Distinct-gone, has-cut,
  ◌>>=◌, all_below, all_below_sound, lt→ne, ne→false, sub16,
}

-- `PIC_IRQ_KEYBOARD << 24`
abbrev pub interrupt_queue_flag_keyboard : ℕ
interrupt_queue_flag_keyboard = 0x0100_0000

abbrev pub keyboard_ack : ℕ
keyboard_ack = 0xfa

abbrev pub int_queue_count : ℕ
int_queue_count = 1024

abbrev pub ack_try_count : ℕ
ack_try_count = 100

abbrev pub keyboard_command_led : ℕ
keyboard_command_led = 0xed

unfoldable pub interrupt_queue_initialize : List ℕ → Queue
interrupt_queue_initialize int_queue_buf = init32 int_queue_buf int_queue_count

-- The argument is the byte that the port gives.
unfoldable pub keyboard_int_handler : ℕ → Queue → Queue
keyboard_int_handler code q =
    if code == keyboard_ack then q else (put32 q (bit_or code interrupt_queue_flag_keyboard)).1

-- `n` tries; `answer i` is the byte of try `i`.
unfoldable pub wait_for_ack : ℕ → ℕ → (ℕ → ℕ) → Bool
wait_for_ack zero i answer = false
wait_for_ack (suc n) i answer =
    let rest = wait_for_ack n (suc i) answer in if answer i == keyboard_ack then true else rest

unfoldable pub wait_for_ack_and_put_queue : ℕ → ℕ → (ℕ → ℕ) → Queue → Bool × Queue
wait_for_ack_and_put_queue zero i answer q = (false, q)
wait_for_ack_and_put_queue (suc n) i answer q =
    let rest = wait_for_ack_and_put_queue n (suc i) answer (put32 q (answer i)).1 in
    if answer i == keyboard_ack then (true, q) else rest

-- The three bits of the lights.
unfoldable pub led_code : Keyboard → ℕ
led_code k =
    (if k.caps_lock then 4 else 0)
    + (if k.num_lock then 2 else 0)
    + (if k.scroll_lock then 1 else 0)

-- The answer, the bytes written to the port, and the queue after waiting for two answers.
unfoldable pub update_led_internal :
    (Queue → Bool × Queue) → (Queue → Bool × Queue) → Keyboard → Queue → Bool × List ℕ × Queue
unfolding led_code
update_led_internal first second k q =
    let (told, q') = first q in
    let (done, q'') = second q' in
    if told
    then (done, keyboard_command_led ∷ led_code k ∷ [], q'')
    else (false, keyboard_command_led ∷ [], q')

unfoldable pub update_led : (ℕ → ℕ) → (ℕ → ℕ) → Keyboard → Queue → Bool × List ℕ × Queue
unfolding wait_for_ack_and_put_queue update_led_internal
update_led first second k q =
    update_led_internal (wait_for_ack_and_put_queue ack_try_count 0 first)
      (wait_for_ack_and_put_queue ack_try_count 0 second) k q

-- `switch (QueueData & 0xff000000)`
unfoldable pub on_queue_data : ℕ → Keyboard → List Output × Keyboard
unfolding on_keyboard_interrupt
on_queue_data value k =
    if bit_and value 0xff00_0000 == interrupt_queue_flag_keyboard
    then on_keyboard_interrupt (bit_and value 0x00ff_ffff) k
    else ([], k)

-- `ckKeyboardUpdateLED` has put what it read from the port into the queue when the driver returns.
unfoldable pub perform : (ℕ → ℕ) → (ℕ → ℕ) → Keyboard → List Output → Queue → Queue
unfolding update_led
perform first second k [] q = q
perform first second k (Output.update_led ∷ os) q =
    perform first second k os (update_led first second k q).2
perform first second k (Output.terminal_input c ∷ os) q = perform first second k os q

-- The inner loop of `ckMain`, when no interrupt comes in between; `none` means that it has not
-- ended. In round `i` the port answers the two commands for the lights by `first i` and
-- `second i`.
unfoldable pub drain :
    (ℕ → ℕ → ℕ) → (ℕ → ℕ → ℕ) → ℕ → Queue → Keyboard → Option (List Output × Queue × Keyboard)
drain first second zero q k = none
drain first second (suc n) q k =
    let (value, found, taken) = get32 q false in
    let (outputs, k') = on_queue_data value k in
    let q' = perform (first 0) (second 0) k' outputs taken in
    let rest = drain (λ i. first (suc i)) (λ i. second (suc i)) n q' k' in
    if q.is_empty
    then some ([], q, k)
    else (do (more, q'', k'') ← rest; some (outputs ++ more, q'', k''))

-- The handler for each byte that the port gives, in turn.
unfoldable pub interrupts : List ℕ → Queue → Queue
unfolding keyboard_int_handler
interrupts [] q = q
interrupts (x ∷ xs) q = interrupts xs (keyboard_int_handler x q)

-- The driver alone, for one byte after another.
unfoldable pub handle_all : List ℕ → Keyboard → List Output × Keyboard
unfolding on_keyboard_interrupt
handle_all [] k = ([], k)
handle_all (x ∷ xs) k =
    let (outputs, k') = on_keyboard_interrupt x k in
    let (more, k'') = handle_all xs k' in (outputs ++ more, k'')
