-- ===== src/Format/Bounds.antt =====
-- A number printed by src/snprintf.c stays inside the bytes that are left for it.
use clubcos.Format.{Printer, Flags, emit, emit_many, emit_if, and_then}
use clubcos.Format.Number.{
  digits_of, emit_digits, emit_special, number_body, sign_char, magnitude, special_width, number,
}
use clubcos.Prelude.{
  ℕ, zero, suc, ◌+◌, ◌-◌, ◌^◌, ◌≤◌, ◌<◌, ◌≡◌, refl, ◌∙◌, ◌⊎◌, inl, inr, Bool, true, false, not,
  ◌&&◌, ◌||◌, some, List, [], ◌∷◌, arith, ltb, leb, ◌==◌, if◌then◌else◌, Bool-cases, length, sub32,
  upd,
}

-- `q` has been printed from `p`: what has been written lies before the last byte left, which is for
-- the terminator, and no other byte has changed. While there is room the size is what is left.
pub record IsWithin (p q : Printer) : Type 0 where
  pub forward : p.str ≤ q.str
  pub inside : q.str + 1 ≤ p.str + p.size
  pub outside : (a : ℕ) → (a < p.str) ⊎ (p.str + p.size ≤ a + 1) → q.mem a ≡ p.mem a

IsWithin-refl : (p : Printer) → 0 < p.size → IsWithin p p
IsWithin-refl p room = record {
  forward = omega arith;
  inside = omega (arith, room);
  outside = λ a out. refl;
}

-- An answer of a printing step from `p`: when it goes on, there is room left.
pub record IsStep (p : Printer) (r : Bool × Printer) : Type 0 where
  pub within : IsWithin p r.1
  pub left : r.0 ≡ true → (0 < r.1.size) × (r.1.str + r.1.size ≡ p.str + p.size)

emit-IsStep : (c : ℕ) (p : Printer) → 0 < p.size → p.size < 2 ^ 32 → IsStep p (emit c p)
unfolding emit
emit-IsStep c p room word = elim (Bool-cases (p.size == 1)) [
  | inl e ↦ rw e (record {
    within = record {
      forward = omega arith;
      inside = omega (arith, room);
      outside = λ a out. refl;
    };
    left = λ h. absurd (ground (arith, h));
  })
  | inr e ↦
      let less : sub32 p.size 1 ≡ p.size - 1 = ground arith in
      let more : 1 < p.size = ground arith in
      rw e (record {
        within = record {
          forward = omega arith;
          inside = omega (arith, more);
          outside = λ a out. ground (arith, more);
        };
        left = λ h. (omega (arith, less, more), omega (arith, less, more));
      })
]

and_then-IsStep :
    (p : Printer) (r : Bool × Printer) (next : Printer → Bool × Printer)
    → p.size < 2 ^ 32
    → IsStep p r
    → ((q : Printer) → 0 < q.size → q.size < 2 ^ 32 → IsStep q (next q))
    → IsStep p (and_then r next)
and_then-IsStep p (false, q) next word s f = s
and_then-IsStep p (true, q) next word s f =
    let (room, total) = s.left refl in
    let t = f q room (omega (arith, total, s.within.forward, word)) in
    record {
      within = record {
        forward = omega (arith, s.within.forward, t.within.forward);
        inside = omega (arith, t.within.inside, total);
        outside = λ a out.
            t.within.outside a (elim out [
              | inl h ↦ inl (omega (arith, h, s.within.forward))
              | inr h ↦ inr (omega (arith, h, total))
            ])
            ∙ s.within.outside a out;
      };
      left = λ h. let (r', t') = t.left h in (r', omega (arith, t', total));
    }

done-IsStep : (p : Printer) → 0 < p.size → IsStep p (true, p)
done-IsStep p room = record { within = IsWithin-refl p room; left = λ h. (room, refl) }

stop-IsStep : (p : Printer) → 0 < p.size → IsStep p (false, p)
stop-IsStep p room = record {
  within = IsWithin-refl p room;
  left = λ h. absurd (ground (arith, h));
}

emit_many-IsStep :
    (c n : ℕ) (p : Printer) → 0 < p.size → p.size < 2 ^ 32 → IsStep p (emit_many c n p)
unfolding emit_many
emit_many-IsStep c zero p room word = done-IsStep p room
emit_many-IsStep c (suc n) p room word =
    and_then-IsStep p (emit c p) (emit_many c n) word (emit-IsStep c p room word)
      (emit_many-IsStep c n)

emit_if-IsStep :
    (b : Bool) (c n : ℕ) (p : Printer) → 0 < p.size → p.size < 2 ^ 32 → IsStep p (emit_if b c n p)
unfolding emit_if
emit_if-IsStep true c n p room word = emit_many-IsStep c n p room word
emit_if-IsStep false c n p room word = done-IsStep p room

emit_digits-IsStep :
    (ds : List ℕ) (p : Printer) → 0 < p.size → p.size < 2 ^ 32 → IsStep p (emit_digits ds p)
unfolding emit_digits
emit_digits-IsStep [] p room word = done-IsStep p room
emit_digits-IsStep (d ∷ ds) p room word =
    and_then-IsStep p (emit_digits ds p) (emit d) word (emit_digits-IsStep ds p room word)
      (emit-IsStep d)

above-two : (n : ℕ) → leb n 2 ≡ false → 2 < n
above-two n h = ground arith

prefix-IsStep :
    (p : Printer)
    → 2 < p.size
    → p.size < 2 ^ 32
    → IsStep p (
      true,
      record { mem = upd (upd p.mem p.str 48) (p.str + 1) 120; str = p.str + 2; size = p.size - 2 },
    )
prefix-IsStep p room word = record {
  within = record {
    forward = omega arith;
    inside = omega (arith, room);
    outside = λ a out. ground (arith, room);
  };
  left = λ h. (omega (arith, room), omega (arith, room));
}

emit_special-IsStep :
    (f : Flags) (base : ℕ) (p : Printer)
    → 0 < p.size
    → p.size < 2 ^ 32
    → IsStep p (emit_special f base p)
unfolding emit_special
emit_special-IsStep f base p room word = elim (Bool-cases f.special) [
  | inr e ↦ rw e (done-IsStep p room)
  | inl e ↦ elim (Bool-cases (base == 8)) [
    | inl octal ↦ rw (e, octal) (emit-IsStep 48 p room word)
    | inr n ↦ elim (Bool-cases (base == 16)) [
      | inr m ↦ rw (e, n, m) (done-IsStep p room)
      | inl hex ↦ elim (Bool-cases (leb p.size 2)) [
        | inl short ↦ rw (e, n, hex, short) (stop-IsStep p room)
        | inr long ↦ rw (e, n, hex, long) (prefix-IsStep p (above-two p.size long) word)
      ]
    ]
  ]
]

number_body-IsStep :
    (base sign pad precision : ℕ) (f : Flags) (ds : List ℕ) (p : Printer)
    → 0 < p.size
    → p.size < 2 ^ 32
    → IsStep p (number_body base sign pad precision f ds p)
unfolding number_body
number_body-IsStep base sign pad precision f ds p room word =
    let zeropad = f.zeropad && not f.left in
    let c : ℕ = if zeropad then 48 else 32 in
    let blanks = not (zeropad || f.left) in
    let p1 = emit_if blanks 32 pad p in
    let s1 = emit_if-IsStep blanks 32 pad p room word in
    let p2 = and_then p1 (emit_if (not (sign == 0)) sign 1) in
    let s2 =
      and_then-IsStep p p1 (emit_if (not (sign == 0)) sign 1) word s1
        (emit_if-IsStep (not (sign == 0)) sign 1) in
    let p3 = and_then p2 (emit_special f base) in
    let s3 = and_then-IsStep p p2 (emit_special f base) word s2 (emit_special-IsStep f base) in
    let p4 = and_then p3 (emit_if zeropad c pad) in
    let s4 = and_then-IsStep p p3 (emit_if zeropad c pad) word s3 (emit_if-IsStep zeropad c pad) in
    let zeros : ℕ = precision - length ds in
    let p5 = and_then p4 (emit_many 48 zeros) in
    let s5 = and_then-IsStep p p4 (emit_many 48 zeros) word s4 (emit_many-IsStep 48 zeros) in
    let p6 = and_then p5 (emit_digits ds) in
    let s6 = and_then-IsStep p p5 (emit_digits ds) word s5 (emit_digits-IsStep ds) in
    and_then-IsStep p p6 (emit_if f.left 32 pad) word s6 (emit_if-IsStep f.left 32 pad)

-- With room for at least one byte, a base from 2 to 36, and any flags, width and precision,
-- `number` answers for every word but the smallest negative one under a signed conversion, and
-- changes no byte before the room and none from the last byte of it on, and its pointer leaves
-- room for the terminator, also when the room ends before the number.
pub number-IsWithin :
    (num base size precision : ℕ) (f : Flags) (p : Printer)
    → 1 < base
    → base < 37
    → 0 < p.size
    → p.size < 2 ^ 32
    → (f.sign && leb (2 ^ 31) (magnitude f num)) ≡ false
    → (q : Printer) × (number num base size precision f p ≡ some q) × IsWithin p q
unfolding number
number-IsWithin num base size precision f p low high room word small =
    let sign = sign_char f num in
    let ds = digits_of 32 f.large base (magnitude f num) in
    let digits = if ltb precision (length ds) then length ds else precision in
    let signed : ℕ = if sign == 0 then 0 else 1 in
    let pad : ℕ = size - signed - special_width f base - digits in
    let in_range : (ltb base 2 || ltb 36 base) ≡ false = ground (arith, low, high) in
    (
      (number_body base sign pad precision f ds p).1,
      rw (in_range, small) refl,
      (number_body-IsStep base sign pad precision f ds p room word).within,
    )
