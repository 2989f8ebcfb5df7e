-- ===== src/Queue/Fifo.antt =====
-- What a client of a circular queue may rely on: a first-in first-out list of at most `cap` values.
use clubcos.Prelude.{ℕ, Bool, true, false, List, [], ◌∷◌, ◌++◌, ltb, if◌then◌else◌, length}

-- A client's calls, in the order in which they are made.
pub data Op : Type 0 where
  put_op : ℕ → Op
  get_op : Bool → Op
  remove_op : Op

-- What a call returns: the value of a `get` (0 for the others) and the success flag.
abbrev pub Reply : Type 0
Reply = ℕ × Bool

unfoldable pub push : ℕ → List ℕ → ℕ → Bool × List ℕ
push cap xs x = if ltb (length xs) cap then (true, xs ++ x ∷ []) else (false, xs)

unfoldable pub drop_front : List ℕ → Bool × List ℕ
drop_front [] = (false, [])
drop_front (x ∷ xs) = (true, xs)

unfoldable pub front : List ℕ → Bool → ℕ × Bool × List ℕ
front [] peek = (0, false, [])
front (x ∷ xs) peek = (x, true, if peek then x ∷ xs else xs)

unfoldable pub run : ℕ → List ℕ → List Op → List Reply
run cap xs [] = []
run cap xs (put_op x ∷ ops) = (0, (push cap xs x).0) ∷ run cap (push cap xs x).1 ops
run cap xs (get_op p ∷ ops) = ((front xs p).0, (front xs p).1) ∷ run cap (front xs p).2 ops
run cap xs (remove_op ∷ ops) = (0, (drop_front xs).0) ∷ run cap (drop_front xs).1 ops
