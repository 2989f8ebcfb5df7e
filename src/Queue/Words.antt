-- ===== src/Queue/Words.antt =====
-- The two queues of the source. What is stored through a `uint32_t *` or a `uint8_t *` is cut to
-- the width; `QueueSize` counts elements in both.
use clubcos.Queue
use clubcos.Queue.{Queue}
use clubcos.Queue.Fifo
use clubcos.Queue.Inv.{IsValid, init-IsValid, put-IsValid, get-IsValid}
use clubcos.Queue.Refine.{contents, put_refines, get_refines, size-put}
use mathlib.Core.List.{append-nil, append_assoc}
use clubcos.Prelude.{
  ℕ, zero, suc, ◌+◌, ◌%◌, ◌^◌, ◌≤◌, ◌<◌, ◌≡◌, refl, sym, ap, ◌∙◌, Bool, false, List, [], ◌∷◌, ◌++◌,
  map, arith, length, length-append, length-map,
}

unfoldable pub init32 : List ℕ → ℕ → Queue
init32 storage n = Queue.init storage n

unfoldable pub put32 : Queue → ℕ → Bool × Queue
put32 q x = Queue.put q (x % 2 ^ 32)

unfoldable pub get32 : Queue → Bool → ℕ × Bool × Queue
get32 q peek = Queue.get q peek

unfoldable pub remove32 : Queue → Bool × Queue
remove32 q = Queue.remove q

unfoldable pub init8 : List ℕ → ℕ → Queue
init8 storage n = Queue.init storage n

unfoldable pub put8 : Queue → ℕ → Bool × Queue
put8 q x = Queue.put q (x % 2 ^ 8)

unfoldable pub get8 : Queue → Bool → ℕ × Bool × Queue
get8 q peek = Queue.get q peek

unfoldable pub remove8 : Queue → Bool × Queue
remove8 q = Queue.remove q

-- Bytes put one after another, and `k` values taken out.
unfoldable pub put_all8 : Queue → List ℕ → Queue
put_all8 q [] = q
put_all8 q (x ∷ xs) = put_all8 (put8 q x).1 xs

unfoldable pub get_all8 : ℕ → Queue → List ℕ
get_all8 zero q = []
get_all8 (suc k) q = (get8 q false).0 ∷ get_all8 k (get8 q false).2

put8_push :
    {q : Queue} (x : ℕ)
    → IsValid q
    → length (contents q) < q.size
    → contents (put8 q x).1 ≡ contents q ++ (x % 2 ^ 8) ∷ []
unfolding put8 Fifo.push
put8_push {q} x v h = ground (arith, put_refines (x % 2 ^ 8) v)

put_all8-contents :
    (xs : List ℕ) {q : Queue}
    → IsValid q
    → length (contents q) + length xs ≤ q.size
    → IsValid (put_all8 q xs) × (contents (put_all8 q xs) ≡ contents q ++ map (λ x. x % 2 ^ 8) xs)
unfolding put_all8
put_all8-contents [] {q} v h = (v, sym (append-nil (contents q)))
put_all8-contents (x ∷ xs) {q} v h =
    let e = put8_push x v (omega arith) in
    let e' = append_assoc (contents q) ((x % 2 ^ 8) ∷ []) (map (λ x. x % 2 ^ 8) xs) in
    let (w, f) =
      put_all8-contents xs {q = (put8 q x).1} (unfold put8 in put-IsValid (x % 2 ^ 8) v) (
        unfold put8 in
        omega (
          arith,
          ap length e,
          length-append {0} (contents q) ((x % 2 ^ 8) ∷ []),
          size-put q (x % 2 ^ 8),
        )) in
    (w, f ∙ (rw e e'))

get_all8-contents :
    (ys : List ℕ) (q : Queue) (zs : List ℕ)
    → IsValid q
    → contents q ≡ ys ++ zs
    → get_all8 (length ys) q ≡ ys
unfolding get_all8 get8 Fifo.front
get_all8-contents [] q zs v e = refl
get_all8-contents (y ∷ ys) q zs v e = ground (
  arith,
  get_refines false v,
  get_all8-contents ys (Queue.get q false).2 zs (get-IsValid false v),
)

-- Into a new queue of bytes of size `n`, where `n` is not 0 and not more than the buffer holds, at
-- most `n` values go in, and as many gets give them back in the same order, each cut to eight
-- bits.
pub get_all8-put_all8 :
    (storage xs : List ℕ) (n : ℕ)
    → 0 < n
    → n ≤ length storage
    → length xs ≤ n
    → get_all8 (length xs) (put_all8 (init8 storage n) xs) ≡ map (λ x. x % 2 ^ 8) xs
unfolding init8 Queue.init
get_all8-put_all8 storage xs n h k m =
    let f = λ (x : ℕ). x % 2 ^ 8 in
    let (w, e) = put_all8-contents xs (init-IsValid storage n h k) (omega arith) in
    rw (← length-map xs f) (get_all8-contents (map f xs) _ [] w (e ∙ sym (append-nil (map f xs))))
