-- ===== src/Queue.antt =====
-- The circular queues of src/circular_queue.c, over elements of any type. `CircularQueue32` and
-- `CircularQueue8` are one text in the source but for the element's width; `Words` has the two.
-- A pointer into the buffer is its index.
pub mod Fifo
pub mod Inv
pub mod Refine
pub mod Words
mod Tests
use Fifo.{Op, put_op, get_op, remove_op, Reply}
use clubcos.Prelude.{
  ℕ, ◌+◌, Bool, true, false, not, ◌||◌, List, [], ◌∷◌, leb, ◌==◌, if◌then◌else◌, get_or, set,
}

pub record Queue : Type 0 where
  pub buf : List ℕ
  pub first : ℕ
  pub last : ℕ
  pub size : ℕ
  pub is_empty : Bool

unfoldable pub init : List ℕ → ℕ → Queue
init storage n = record { buf = storage; first = 0; last = 0; size = n; is_empty = true }

-- `p++`, then back to the start of the buffer at its end.
abbrev pub advance : ℕ → ℕ → ℕ
advance n p = if leb n (p + 1) then 0 else p + 1

unfoldable pub put : Queue → ℕ → Bool × Queue
put q x =
    if q.is_empty || not (q.first == q.last)
    then (
      true,
      record q { buf = set q.buf q.last x; last = advance q.size q.last; is_empty = false },
    )
    else (false, q)

unfoldable pub remove : Queue → Bool × Queue
remove q = if q.is_empty then (false, q) else (
  true,
  record q { first = advance q.size q.first; is_empty = advance q.size q.first == q.last },
)

-- The value, what is stored through `pbSuccess`, and the queue.
unfoldable pub get : Queue → Bool → ℕ × Bool × Queue
get q peek =
    if q.is_empty
    then (0, false, q)
    else (get_or q.buf q.first 0, true, if peek then q else (remove q).1)

-- A client's calls in order, with what each returns.
unfoldable pub run : Queue → List Op → List Reply
run q [] = []
run q (put_op x ∷ ops) = (0, (put q x).0) ∷ run (put q x).1 ops
run q (get_op p ∷ ops) = ((get q p).0, (get q p).1) ∷ run (get q p).2 ops
run q (remove_op ∷ ops) = (0, (remove q).0) ∷ run (remove q).1 ops
