-- ===== src/Interrupts/Handled.antt =====
-- The bytes that the keyboard's interrupt takes, through the interrupt queue to the driver.
use mathlib.Core.Path.{subst}
use mathlib.Core.List.{append-nil, append_assoc, map-append}
use clubcos.Queue
use clubcos.Queue.{Queue}
use clubcos.Queue.Inv.{init-IsValid}
use clubcos.Queue.Words.{init32}
use clubcos.Keys.{Keyboard}
use clubcos.Interrupts.Drained.{
  queue_data, AreAcking, IsDrained, drain-handle_all, Holds, put32-Holds, queue_data-word,
}
use clubcos.Interrupts.{
  keyboard_ack, int_queue_count, interrupt_queue_initialize, keyboard_int_handler, interrupts,
  handle_all,
}
use clubcos.Prelude.{
  ℕ, suc, ◌≤◌, ◌<◌, ◌≡◌, refl, sym, ap, ◌∙◌, inl, inr, true, List, [], ◌∷◌, ◌++◌, map, arith, ◌==◌,
  if◌then◌else◌, Bool-cases, length, has,
}

-- The bytes that are not an acknowledgement.
abbrev pub codes_of : List ℕ → List ℕ
codes_of [] = []
codes_of (x ∷ xs) = if x == keyboard_ack then codes_of xs else x ∷ codes_of xs

handler-Holds :
    (xs zs : List ℕ) (x : ℕ) {q : Queue}
    → Holds zs (suc (length xs)) q
    → x < 256
    → (ys : List ℕ) × (codes_of (x ∷ xs) ≡ ys ++ codes_of xs)
      × Holds (zs ++ map queue_data ys) (length xs) (keyboard_int_handler x q)
unfolding keyboard_int_handler
handler-Holds xs zs x {q} h byte = elim (Bool-cases (x == keyboard_ack)) [
  | inl e ↦ ([], rw e refl, rw (e, append-nil zs) (h.0, h.1, omega (arith, h.2)))
  | inr e ↦ (
    x ∷ [],
    rw e refl,
    rw e (put32-Holds zs (length xs) (queue_data x) h (queue_data-word x byte)),
  )
]

interrupts-Holds :
    (xs zs : List ℕ) {q : Queue}
    → Holds zs (length xs) q
    → ((x : ℕ) → has x xs ≡ true → x < 256)
    → Holds (zs ++ map queue_data (codes_of xs)) 0 (interrupts xs q)
unfolding interrupts
interrupts-Holds [] zs {q} h bytes = rw (append-nil zs) h
interrupts-Holds (x ∷ xs) zs {q} h bytes =
    let (ys, e, g) = handler-Holds xs zs x h (bytes x (ground arith)) in
    let rest =
      interrupts-Holds xs (zs ++ map queue_data ys) g (λ y i. bytes y (ground (arith, i))) in
    subst (λ l. Holds l 0 (interrupts xs (keyboard_int_handler x q)))
      (append_assoc zs (map queue_data ys) (map queue_data (codes_of xs))
        ∙ ap (λ l. zs ++ l) (sym (map-append queue_data ys (codes_of xs)))
        ∙ ap (λ l. zs ++ map queue_data l) (sym e))
      rest

codes_of-bytes :
    (xs : List ℕ)
    → ((x : ℕ) → has x xs ≡ true → x < 256)
    → (x : ℕ) → has x (codes_of xs) ≡ true
    → x < 256
codes_of-bytes [] bytes x h = absurd (ground (arith, h))
codes_of-bytes (y ∷ ys) bytes x h =
    ground (arith, h, bytes x, codes_of-bytes ys (λ z i. bytes z (ground (arith, i))) x)

-- When the handler of the keyboard has put at most 1024 bytes into the interrupt queue after its
-- initialisation, with a buffer of at least 1024 words, no interrupt comes during the loop, and
-- the keyboard acknowledges the two bytes of every command for the lights at once: the loop of
-- `ckMain` ends after as many rounds as there are bytes other than the acknowledgement, leaves the
-- queue valid and empty, and has done what the keyboard driver does for exactly these bytes, one
-- after another in their order.
pub interrupts-IsDrained :
    (first second : ℕ → ℕ → ℕ) (int_queue_buf xs : List ℕ) (k : Keyboard)
    → int_queue_count ≤ length int_queue_buf
    → length xs ≤ int_queue_count
    → ((x : ℕ) → has x xs ≡ true → x < 256)
    → AreAcking first second
    → IsDrained first second
        (suc (length (codes_of xs)))
        (interrupts xs (interrupt_queue_initialize int_queue_buf))
        k
        (handle_all (codes_of xs) k)
unfolding interrupt_queue_initialize init32 Queue.init
interrupts-IsDrained first second int_queue_buf xs k buffer few bytes acks =
    let v = init-IsValid int_queue_buf int_queue_count (omega arith) buffer in
    let (w, e, room) = interrupts-Holds xs [] (v, refl, omega (arith, few)) bytes in
    drain-handle_all first second (codes_of xs) k acks w e (codes_of-bytes xs bytes)
