-- ===== src/Interrupts/Drained.antt =====
-- What the loop of `ckMain` of src/ckMain.c does with the values of the interrupt queue.
use Prim.Native.Nat.{bit_and, bit_or}
use clubcos.Queue
use clubcos.Queue.{Queue}
use clubcos.Queue.Fifo
use clubcos.Queue.Inv.{IsValid, put-IsValid, get-IsValid}
use clubcos.Queue.Refine.{contents, put_refines, get_refines, size-put}
use clubcos.Queue.Words.{put32, get32}
use clubcos.Keys.{Keyboard, Output, on_keyboard_interrupt}
use clubcos.Interrupts.{
  keyboard_ack, interrupt_queue_flag_keyboard, wait_for_ack_and_put_queue, update_led,
  update_led_internal, perform, on_queue_data, drain, handle_all,
}
use clubcos.Prelude.{
  ℕ, suc, ◌+◌, ◌%◌, ◌^◌, ◌≤◌, ◌<◌, ◌≡◌, refl, sym, ap, ◌∙◌, Bool, true, false, not, ◌&&◌, Option,
  some, List, [], ◌∷◌, ◌++◌, map, arith, ltb, ◌==◌, if◌then◌else◌, length, length-append, has,
  ◌>>=◌, all_below, all_below_sound,
}

abbrev pub queue_data : ℕ → ℕ
queue_data x = bit_or x interrupt_queue_flag_keyboard

unfoldable pub data_check : ℕ → Bool
data_check x =
    (bit_and (queue_data x) 0xff00_0000 == interrupt_queue_flag_keyboard)
    && (bit_and (queue_data x) 0x00ff_ffff == x)
    && (bit_and x 0xff00_0000 == 0)
    && ltb (queue_data x) (2 ^ 32)

pub all_data : all_below 256 data_check ≡ true
unfolding all_below data_check
all_data = refl

on_queue_data-code :
    (x : ℕ) (k : Keyboard) → x < 256 → on_queue_data (queue_data x) k ≡ on_keyboard_interrupt x k
unfolding on_queue_data data_check
on_queue_data-code x k byte =
    let e = all_below_sound 256 data_check x all_data byte in ground (arith, e)

on_queue_data-other : (x : ℕ) (k : Keyboard) → x < 256 → on_queue_data x k ≡ ([], k)
unfolding on_queue_data data_check
on_queue_data-other x k byte =
    let e = all_below_sound 256 data_check x all_data byte in ground (arith, e)

found-front : {q : Queue} → IsValid q → not q.is_empty ≡ (Fifo.front (contents q) false).1
unfolding Queue.get
found-front {q} v =
    let f : (Queue.get q false).1 ≡ not q.is_empty = ground arith in
    sym f ∙ ap (λ (r : ℕ × Bool × List ℕ). r.1) (get_refines false v)

no_values : {q : Queue} → IsValid q → contents q ≡ [] → q.is_empty ≡ true
unfolding Fifo.front
no_values {q} v e = let f = found-front v ∙ ap (λ l. (Fifo.front l false).1) e in ground (arith, f)

some_values :
    {q : Queue} (x : ℕ) (xs : List ℕ) → IsValid q → contents q ≡ x ∷ xs → q.is_empty ≡ false
unfolding Fifo.front
some_values {q} x xs v e =
    let f = found-front v ∙ ap (λ l. (Fifo.front l false).1) e in ground (arith, f)

front-get :
    {q : Queue} (x : ℕ) (xs : List ℕ)
    → IsValid q
    → contents q ≡ x ∷ xs
    → ((get32 q false).0 ≡ x) × IsValid (get32 q false).2 × (contents (get32 q false).2 ≡ xs)
unfolding get32 Fifo.front
front-get {q} x xs v e =
    let f = get_refines false v ∙ ap (λ l. Fifo.front l false) e in
    (
      ap (λ (r : ℕ × Bool × List ℕ). r.0) f,
      get-IsValid false v,
      ap (λ (r : ℕ × Bool × List ℕ). r.2) f,
    )

-- The keyboard acknowledges the two bytes for the lights at once.
abbrev pub IsAcking : (ℕ → ℕ) → (ℕ → ℕ) → Type 0
IsAcking first second = (first 0 ≡ keyboard_ack) × (second 0 ≡ keyboard_ack)

-- In every round, whatever the first one was.
abbrev pub AreAcking : (ℕ → ℕ → ℕ) → (ℕ → ℕ → ℕ) → Type 0
AreAcking first second = (i : ℕ) → IsAcking (first i) (second i)

perform-acked :
    (first second : ℕ → ℕ) (k : Keyboard) (os : List Output) (q : Queue)
    → IsAcking first second
    → perform first second k os q ≡ q
unfolding perform update_led update_led_internal wait_for_ack_and_put_queue
perform-acked first second k [] q acks = refl
perform-acked first second k (Output.update_led ∷ os) q acks =
    rw (acks.0, acks.1) (perform-acked first second k os q acks)
perform-acked first second k (Output.terminal_input c ∷ os) q acks =
    perform-acked first second k os q acks

-- The next round, and what the port answers from then on.
abbrev pub later : (ℕ → ℕ → ℕ) → ℕ → ℕ → ℕ
later answers i = answers (suc i)

-- What the main loop has done when the queue was emptied.
abbrev pub IsDrained :
    (ℕ → ℕ → ℕ) → (ℕ → ℕ → ℕ) → ℕ → Queue → Keyboard → List Output × Keyboard → Type 0
IsDrained first second n q k (outputs, k') =
    (q' : Queue) × (drain first second n q k ≡ some (outputs, q', k'))
    × IsValid q'
    × (contents q' ≡ [])

drain-end :
    (first second : ℕ → ℕ → ℕ) (n : ℕ) {q : Queue} (k : Keyboard)
    → IsValid q
    → contents q ≡ []
    → IsDrained first second (suc n) q k ([], k)
unfolding drain
drain-end first second n {q} k v e = (q, rw (no_values v e) refl, v, e)

continued :
    (ℕ → ℕ → ℕ)
    → (ℕ → ℕ → ℕ)
    → ℕ
    → List Output × Keyboard
    → Queue
    → Option (List Output × Queue × Keyboard)
continued first second n (outputs, k) q = do
  (more, q', k') ← drain (later first) (later second) n (perform (first 0) (second 0) k outputs q) k
  some (outputs ++ more, q', k')

drain-next :
    (first second : ℕ → ℕ → ℕ) (n : ℕ) (q : Queue) (k : Keyboard)
    → q.is_empty ≡ false
    → drain first second (suc n) q k
      ≡ continued first second n (on_queue_data (get32 q false).0 k) (get32 q false).2
unfolding drain continued
drain-next first second n q k e =
    ap
      (λ b.
        if b
        then some ([], q, k)
        else continued first second n (on_queue_data (get32 q false).0 k) (get32 q false).2)
      e

drain-step :
    (first second : ℕ → ℕ → ℕ) (n : ℕ) {q : Queue} (k : Keyboard) (x : ℕ) (xs : List ℕ)
    (one all : List Output × Keyboard)
    → IsValid q
    → contents q ≡ x ∷ xs
    → on_queue_data x k ≡ one
    → perform (first 0) (second 0) one.1 one.0 (get32 q false).2 ≡ (get32 q false).2
    → IsDrained (later first) (later second) n (get32 q false).2 one.1 all
    → IsDrained first second (suc n) q k (one.0 ++ all.0, all.1)
unfolding continued
drain-step first second n {q} k x xs one all v e here same (q', run, w, f) =
    let g = front-get x xs v e in
    (
      q',
      drain-next first second n q k (some_values x xs v e)
          ∙ ap (λ y. continued first second n (on_queue_data y k) (get32 q false).2) g.0
          ∙ ap (λ o. continued first second n o (get32 q false).2) here
          ∙ ap
              (λ p.
                drain (later first) (later second) n p one.1 >>= λ r. some (one.0 ++ r.0, r.1, r.2))
              same
          ∙ ap (λ o. o >>= λ r. some (one.0 ++ r.0, r.1, r.2)) run,
      w,
      f,
    )

-- A queue of codes from the keyboard is handed to the driver.
pub drain-handle_all :
    (first second : ℕ → ℕ → ℕ) (xs : List ℕ) {q : Queue} (k : Keyboard)
    → AreAcking first second
    → IsValid q
    → contents q ≡ map queue_data xs
    → ((x : ℕ) → has x xs ≡ true → x < 256)
    → IsDrained first second (suc (length xs)) q k (handle_all xs k)
unfolding handle_all
drain-handle_all first second [] k acks v e bytes = drain-end first second 0 k v e
drain-handle_all first second (x ∷ xs) {q} k acks v e bytes =
    let g = front-get (queue_data x) (map queue_data xs) v e in
    let one = on_keyboard_interrupt x k in
    drain-step first second (suc (length xs)) k (queue_data x) (map queue_data xs) one
      (handle_all xs one.1) v e (on_queue_data-code x k (bytes x (ground arith)))
      (perform-acked (first 0) (second 0) one.1 one.0 (get32 q false).2 (acks 0))
      (drain-handle_all (later first) (later second) xs one.1 (λ i. acks (suc i)) g.1 g.2
        (λ y h. bytes y (ground (arith, h))))

-- A queue of bytes without the flag of the keyboard is thrown away.
pub drain-lost :
    (first second : ℕ → ℕ → ℕ) (xs : List ℕ) {q : Queue} (k : Keyboard)
    → IsValid q
    → contents q ≡ xs
    → ((x : ℕ) → has x xs ≡ true → x < 256)
    → IsDrained first second (suc (length xs)) q k ([], k)
unfolding perform
drain-lost first second [] k v e bytes = drain-end first second 0 k v e
drain-lost first second (x ∷ xs) {q} k v e bytes =
    let g = front-get x xs v e in
    drain-step first second (suc (length xs)) k x xs ([], k) ([], k) v e
      (on_queue_data-other x k (bytes x (ground arith))) refl
      (drain-lost (later first) (later second) xs k g.1 g.2 (λ y h. bytes y (ground (arith, h))))

put32-contents :
    {q : Queue} (x : ℕ)
    → IsValid q
    → length (contents q) < q.size
    → x < 2 ^ 32
    → IsValid (put32 q x).1
      × (contents (put32 q x).1 ≡ contents q ++ x ∷ [])
      × ((put32 q x).1.size ≡ q.size)
unfolding put32 Fifo.push
put32-contents {q} x v room word =
    let same : x % 2 ^ 32 ≡ x = omega arith in
    (
      put-IsValid (x % 2 ^ 32) v,
      ground (arith, put_refines (x % 2 ^ 32) v),
      size-put q (x % 2 ^ 32),
    )

-- A queue with room for `n` more values, and what it holds.
abbrev pub Holds : List ℕ → ℕ → Queue → Type 0
Holds xs n q = IsValid q × (contents q ≡ xs) × (length xs + n ≤ q.size)

pub put32-Holds :
    (xs : List ℕ) (n x : ℕ) {q : Queue}
    → Holds xs (suc n) q
    → x < 2 ^ 32
    → Holds (xs ++ x ∷ []) n (put32 q x).1
put32-Holds xs n x {q} (v, e, room) word =
    let p = put32-contents x v (omega (arith, ap length e)) word in
    (p.0, p.1 ∙ ap (λ l. l ++ x ∷ []) e, omega (arith, length-append {0} xs (x ∷ []), p.2))

pub queue_data-word : (x : ℕ) → x < 256 → queue_data x < 2 ^ 32
unfolding data_check
queue_data-word x byte = let e = all_below_sound 256 data_check x all_data byte in ground (arith, e)
