-- ===== src/Interrupts/Tests.antt =====
-- Bytes of the keyboard on their way to the driver of src/keys.c.
use clubcos.Keys.Typing.{initial_keyboard}
use clubcos.Queue.Refine.{contents}
use clubcos.Interrupts.{
  keyboard_ack, ack_try_count, interrupt_queue_initialize, wait_for_ack_and_put_queue, interrupts,
  handle_all,
}
use clubcos.Interrupts.Drained.{IsDrained}
use clubcos.Interrupts.Handled.{interrupts-IsDrained}
use clubcos.Interrupts.Lost.{wait_for_ack_and_put_queue-lost}
use clubcos.Prelude.{
  ℕ, ◌≡◌, refl, true, false, List, [], ◌∷◌, arith, ◌==◌, if◌then◌else◌, replicate,
}

-- An acknowledgement between the press and the release of Caps Lock, which changes the lights.
abbrev from_port : List ℕ
from_port = 0x3a ∷ 0xfa ∷ 0xba ∷ []

abbrev acks : ℕ → ℕ → ℕ
acks i j = keyboard_ack

abbrev storage : List ℕ
storage = replicate 1024 0

interrupts-IsDrained_example :
    IsDrained acks acks 3
      (interrupts from_port (interrupt_queue_initialize storage))
      (initial_keyboard false)
      (handle_all (0x3a ∷ 0xba ∷ []) (initial_keyboard false))
interrupts-IsDrained_example =
    interrupts-IsDrained acks acks storage from_port (initial_keyboard false) (omega arith)
      (omega arith) (λ x h. ground (arith, h)) (λ i. (refl, refl))

-- The release of the key comes before the acknowledgement.
abbrev late_ack : ℕ → ℕ
late_ack i = if i == 0 then 0x9e else keyboard_ack

wait_for_ack_and_put_queue-lost_example :
    let r =
      wait_for_ack_and_put_queue ack_try_count 0 late_ack (interrupt_queue_initialize storage) in
    (r.0 ≡ true)
    × (contents r.1 ≡ 0x9e ∷ [])
    × IsDrained acks acks 2 r.1 (initial_keyboard false) ([], initial_keyboard false)
wait_for_ack_and_put_queue-lost_example =
    wait_for_ack_and_put_queue-lost acks acks storage 1 late_ack (initial_keyboard false)
      (omega arith) (omega arith) (λ i lt. (ground (arith, lt), ground (arith, lt))) refl
