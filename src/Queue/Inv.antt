-- ===== src/Queue/Inv.antt =====
-- The representation invariant of a circular queue.
use clubcos.Prelude.{
  ℕ, ◌+◌, ◌-◌, ◌≤◌, ◌<◌, ◌≡◌, Bool, true, List, arith, ltb, if◌then◌else◌, length, length-set,
}
use clubcos.Queue.{Queue, init, put, remove, get}

-- The buffer holds `size` elements, both pointers stay inside it, and an empty queue has them equal.
pub record IsValid (q : Queue) : Type 0 where
  pub storage : q.size ≤ length q.buf
  pub first_in : q.first < q.size
  pub last_in : q.last < q.size
  pub empty_eq : q.is_empty ≡ true → q.first ≡ q.last

-- The number of elements stored.
abbrev pub count : Queue → ℕ
count q =
    if q.is_empty
    then 0
    else if ltb q.first q.last
    then q.last - q.first
    else q.size - q.first + q.last

pub init-IsValid : (s : List ℕ) (n : ℕ) → 0 < n → n ≤ length s → IsValid (init s n)
unfolding init
init-IsValid s n h k = record {
  storage = k;
  first_in = h;
  last_in = h;
  empty_eq = λ _. ground arith;
}

pub put-IsValid : {q : Queue} (x : ℕ) → IsValid q → IsValid (put q x).1
unfolding put
put-IsValid {q} x v = ground (arith, length-set q.buf q.last x)

pub remove-IsValid : {q : Queue} → IsValid q → IsValid (remove q).1
unfolding remove
remove-IsValid {q} v = ground arith

pub get-IsValid : {q : Queue} (peek : Bool) → IsValid q → IsValid (get q peek).2
unfolding get
get-IsValid {q} peek v = ground (arith, remove-IsValid v)
