-- ===== src/Interrupts/Lost.antt =====
-- The bytes that src/keyboard.c reads while it waits for an acknowledgement.
use mathlib.Core.Path.{subst}
use mathlib.Core.List.{append-nil, append_assoc}
use clubcos.Queue
use clubcos.Queue.{Queue}
use clubcos.Queue.Inv.{init-IsValid}
use clubcos.Queue.Refine.{contents}
use clubcos.Queue.Words.{init32, put32}
use clubcos.Keys.{Keyboard}
use clubcos.Interrupts.Drained.{IsDrained, drain-lost, Holds, put32-Holds}
use clubcos.Interrupts.{
  keyboard_ack, ack_try_count, int_queue_count, interrupt_queue_initialize,
  wait_for_ack_and_put_queue,
}
use clubcos.Prelude.{
  ℕ, zero, suc, ◌+◌, ◌≤◌, ◌<◌, ◌≡◌, refl, ap, ◌∙◌, ◌≢◌, true, false, List, [], ◌∷◌, ◌++◌, arith,
  ◌==◌, length, has,
}

-- What the port answers in the tries `i` to `i + m - 1`.
abbrev pub answers : ℕ → ℕ → (ℕ → ℕ) → List ℕ
answers zero i answer = []
answers (suc m) i answer = answer i ∷ answers m (suc i) answer

length-answers : (m i : ℕ) (answer : ℕ → ℕ) → length (answers m i answer) ≡ m
length-answers zero i answer = refl
length-answers (suc m) i answer = ap suc (length-answers m (suc i) answer)

answers-bytes :
    (m i : ℕ) (answer : ℕ → ℕ)
    → ((j : ℕ) → i ≤ j → j < i + m → answer j < 256)
    → (x : ℕ) → has x (answers m i answer) ≡ true
    → x < 256
answers-bytes zero i answer bytes x h = absurd (ground (arith, h))
answers-bytes (suc m) i answer bytes x h = ground (
  arith,
  h,
  bytes i (omega arith) (omega arith),
  answers-bytes m (suc i) answer (λ j a b. bytes j (omega arith) (omega arith)) x,
)

wait-ack :
    (n i : ℕ) (answer : ℕ → ℕ) (q : Queue)
    → answer i ≡ keyboard_ack
    → wait_for_ack_and_put_queue (suc n) i answer q ≡ (true, q)
unfolding wait_for_ack_and_put_queue
wait-ack n i answer q e = rw e refl

wait-other :
    (n i : ℕ) (answer : ℕ → ℕ) (q : Queue)
    → (answer i == keyboard_ack) ≡ false
    → wait_for_ack_and_put_queue (suc n) i answer q
      ≡ wait_for_ack_and_put_queue n (suc i) answer (put32 q (answer i)).1
unfolding wait_for_ack_and_put_queue
wait-other n i answer q e = rw e refl

wait-Holds :
    (m n i : ℕ) (answer : ℕ → ℕ) (zs : List ℕ) {q : Queue}
    → Holds zs m q
    → m < n
    → ((j : ℕ) → i ≤ j → j < i + m → (answer j < 256) × (answer j ≢ keyboard_ack))
    → ((j : ℕ) → j ≡ i + m → answer j ≡ keyboard_ack)
    → ((wait_for_ack_and_put_queue n i answer q).0 ≡ true)
      × Holds (zs ++ answers m i answer) 0 (wait_for_ack_and_put_queue n i answer q).1
wait-Holds m zero i answer zs h lt others last = absurd (omega (arith, lt))
wait-Holds zero (suc n) i answer zs h lt others last =
    rw (wait-ack n i answer _ (last i (omega arith)), append-nil zs) (refl, h)
wait-Holds (suc m) (suc n) i answer zs {q} h lt others last =
    let o = others i (omega arith) (omega arith) in
    let g = put32-Holds zs m (answer i) h (omega (arith, o.0)) in
    let r =
      wait-Holds m n (suc i) answer (zs ++ answer i ∷ []) g (omega arith)
        (λ j a b. others j (omega arith) (omega arith)) (λ j e. last j (omega (arith, e))) in
    let f = wait-other n i answer q (ground (arith, o.1)) in
    rw (f, ← append_assoc zs (answer i ∷ []) (answers m (suc i) answer)) r

-- If fewer than 100 bytes other than the acknowledgement come before it, then
-- `ckKeyboardWaitForACKAndPutQueue` on the queue after its initialisation answers true and puts
-- all of them into the queue, but the loop of `ckMain`, when no interrupt comes during it, then
-- takes them out without a call of the keyboard driver: there is no output, and the state of the
-- driver is as before.
pub wait_for_ack_and_put_queue-lost :
    (first second : ℕ → ℕ → ℕ) (int_queue_buf : List ℕ) (m : ℕ) (answer : ℕ → ℕ) (k : Keyboard)
    → int_queue_count ≤ length int_queue_buf
    → m < ack_try_count
    → ((i : ℕ) → i < m → (answer i < 256) × (answer i ≢ keyboard_ack))
    → answer m ≡ keyboard_ack
    → let r =
        wait_for_ack_and_put_queue ack_try_count 0 answer
          (interrupt_queue_initialize int_queue_buf) in
      (r.0 ≡ true)
      × (contents r.1 ≡ answers m 0 answer)
      × IsDrained first second (suc m) r.1 k ([], k)
unfolding interrupt_queue_initialize init32 Queue.init
wait_for_ack_and_put_queue-lost first second int_queue_buf m answer k buffer few others last =
    let v = init-IsValid int_queue_buf int_queue_count (omega arith) buffer in
    let bytes = answers-bytes m 0 answer (λ j a b. (others j (omega arith)).0) in
    let (done, (w, e, room)) =
      wait-Holds m ack_try_count 0 answer [] (v, refl, omega arith) few
        (λ j a b. others j (omega arith)) (λ j i. ap answer (omega arith) ∙ last) in
    (
      done,
      e,
      subst
          (λ n.
            IsDrained first second (suc n)
              (wait_for_ack_and_put_queue ack_try_count 0 answer
                (Queue.init int_queue_buf int_queue_count)).1
              k ([], k))
          (length-answers m 0 answer) (drain-lost first second (answers m 0 answer) k w e bytes),
    )
