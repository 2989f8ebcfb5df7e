-- ===== src/Format/Decimal.antt =====
-- The decimal digits that src/snprintf.c prints, and their value for src/string.c.
use clubcos.Strings.{parse_digits, isdigit}
use clubcos.Format.{Printer, emit, emit_many, emit_if}
use clubcos.Format.Directive.{no_flags}
use clubcos.Format.Number.{digits_of, emit_digits, emit_special, number_body, number}
use clubcos.Prelude.{
  ℕ, zero, suc, ◌+◌, ◌-◌, ◌*◌, ◌/◌, ◌%◌, ◌^◌, ◌≤◌, ◌<◌, ◌≡◌, refl, sym, ap, ◌∙◌, ◌⊎◌, inl, inr,
  true, false, some, List, [], ◌∷◌, arith, ltb, ◌==◌, if◌then◌else◌, lt→ltb, ==_iff, Bool-cases,
  length, sub32, upd,
}

-- The number of digits, the last one first.
unfoldable pub value : List ℕ → ℕ
value [] = 0
value (d ∷ ds) = value ds * 10 + (d - 48)

-- The digits in memory from `at` on, the last one of the number last.
unfoldable pub Written : List ℕ → (ℕ → ℕ) → ℕ → Type 0
Written [] mem at = ◌≡◌ {A = ℕ} 0 0
Written (d ∷ ds) mem at = Written ds mem at × (mem (at + length ds) ≡ d) × (48 ≤ d) × (d ≤ 57)

unfoldable pub AreDigits : List ℕ → Type 0
AreDigits [] = ◌≡◌ {A = ℕ} 0 0
AreDigits (d ∷ ds) = AreDigits ds × (48 ≤ d) × (d ≤ 57)

pub Written-same :
    (ds : List ℕ) (m m' : ℕ → ℕ) (at : ℕ)
    → ((j : ℕ) → j < length ds → m' (at + j) ≡ m (at + j))
    → Written ds m at
    → Written ds m' at
unfolding Written
Written-same [] m m' at same w = refl
Written-same (d ∷ ds) m m' at same (w, e, low, high) = (
  Written-same ds m m' at (λ j lt. same j (omega (arith, lt))) w,
  same (length ds) (omega arith) ∙ e,
  low,
  high,
)

emit-room :
    (c : ℕ) (p : Printer)
    → 1 < p.size
    → p.size < 2 ^ 32
    → emit c p
      ≡ (true, record p { mem = upd p.mem p.str (c % 2 ^ 8); str = p.str + 1; size = p.size - 1 })
unfolding emit
emit-room c p room word =
    let e : (p.size == 1) ≡ false = ground (arith, room) in
    let less : sub32 p.size 1 ≡ p.size - 1 = ground (arith, room) in rw (e, less) refl

pub emit_digits-Written :
    (ds : List ℕ) (p : Printer)
    → length ds < p.size
    → p.size < 2 ^ 32
    → AreDigits ds
    → (q : Printer) × (emit_digits ds p ≡ (true, q))
      × (q.str ≡ p.str + length ds)
      × (q.size + length ds ≡ p.size)
      × Written ds q.mem p.str
      × ((a : ℕ) → (a < p.str) ⊎ (p.str + length ds ≤ a) → q.mem a ≡ p.mem a)
unfolding emit_digits Written AreDigits
emit_digits-Written [] p room word ok = (p, refl, omega arith, omega arith, refl, λ a out. refl)
emit_digits-Written (d ∷ ds) p room word (ok, low, high) =
    let (q, e, str, size, w, out) = emit_digits-Written ds p (omega (arith, room)) word ok in
    let step = emit-room d q (omega (arith, size, room)) (omega (arith, size, word)) in
    let byte : d % 2 ^ 8 ≡ d = ground (arith, high) in
    let m = upd q.mem q.str (d % 2 ^ 8) in
    let here : m (p.str + length ds) ≡ d = ground (arith, str, byte) in
    (
      record q { mem = m; str = q.str + 1; size = q.size - 1 },
      rw e step,
      omega (arith, str),
      omega (arith, size, room),
      (Written-same ds q.mem m p.str (λ j lt. ground (arith, str, lt)) w, here, low, high),
      λ a o. elim o [
        | inl h ↦ ground (arith, str, h, out a (inl h))
        | inr h ↦ ground (arith, str, h, out a (inr (omega (arith, h))))
      ],
    )

pub parse_digits-Written :
    (ds : List ℕ) (fuel at : ℕ) (mem : ℕ → ℕ)
    → Written ds mem at
    → value ds < 2 ^ 32
    → parse_digits (length ds + fuel) mem at 0 ≡ parse_digits fuel mem (at + length ds) (value ds)
unfolding parse_digits Written value
parse_digits-Written [] fuel at mem w small =
    let start : length {A = ℕ} [] + fuel ≡ fuel = omega arith in
    let here : at ≡ at + length {A = ℕ} [] = omega arith in
    ap (λ k. parse_digits k mem at 0) start ∙ ap (λ q. parse_digits fuel mem q 0) here
parse_digits-Written (d ∷ ds) fuel at mem (w, e, low, high) small =
    let digit : isdigit (mem (at + length ds)) ≡ true = ground (arith, e, low, high) in
    let total : length ds + suc fuel ≡ suc (length ds) + fuel = omega arith in
    let next : at + length ds + 1 ≡ at + suc (length ds) = omega arith in
    let kept : (value ds * 10 + (mem (at + length ds) - 48)) % 2 ^ 32 ≡ value ds * 10 + (d - 48) =
      ground (arith, e, small) in
    ap (λ k. parse_digits k mem at 0) (sym total)
    ∙ parse_digits-Written ds (suc fuel) at mem w (omega (arith, small))
    ∙ rw (digit, kept, next) refl

unfoldable pub pow10 : ℕ → ℕ
pow10 zero = 1
pow10 (suc k) = 10 * pow10 k

pub digits_of-value :
    (k n : ℕ)
    → n < pow10 k
    → (value (digits_of k false 10 n) ≡ n) × AreDigits (digits_of k false 10 n)
unfolding pow10 value digits_of AreDigits
digits_of-value zero n lt = (omega (arith, lt), refl)
digits_of-value (suc k) n lt =
    let (v, ok) = digits_of-value k (n / 10) (omega (arith, lt)) in
    let small : ltb (n % 10) 10 ≡ true = lt→ltb (n % 10) 10 (omega arith) in
    elim (Bool-cases (n / 10 == 0)) [
      | inl e ↦
          let none : n / 10 ≡ 0 = (==_iff (n / 10) 0).0 e in
          rw (e, small) (omega (arith, none), (refl, omega arith, omega arith))
      | inr e ↦ rw (e, small) (omega (arith, v), (ok, omega arith, omega arith))
    ]

pub number-decimal :
    (n : ℕ) (p q : Printer)
    → emit_digits (digits_of 32 false 10 n) p ≡ (true, q)
    → number n 10 0 0 no_flags p ≡ some q
unfolding number number_body emit_if emit_many emit_special
number-decimal n p q e =
    let ds = digits_of 32 false 10 n in
    let none : 0 - length ds ≡ 0 = omega arith in
    let nothing : 0 - (if ltb 0 (length ds) then length ds else 0) ≡ 0 = omega arith in
    rw (nothing, none, e) refl
