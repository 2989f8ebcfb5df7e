-- ===== src/Format/RoundTrip.antt =====
-- A number printed by src/snprintf.c as `%u` does, and read by src/string.c.
use clubcos.Strings.{parse_digits, isdigit}
use clubcos.Format.{Printer}
use clubcos.Format.Directive.{no_flags}
use clubcos.Format.Number.{digits_of, number}
use clubcos.Format.Decimal.{
  value, emit_digits-Written, parse_digits-Written, pow10, digits_of-value, number-decimal,
  Written-same,
}
use clubcos.Prelude.{
  ℕ, zero, suc, ◌+◌, ◌-◌, ◌/◌, ◌^◌, ◌≤◌, ◌<◌, ◌≡◌, refl, ap, ◌∙◌, inl, inr, true, false, some,
  arith, ◌==◌, ==_iff, Bool-cases, length, upd,
}

digits_of-length : (k k' n : ℕ) → n < pow10 (suc k') → length (digits_of k false 10 n) ≤ suc k'
unfolding digits_of pow10
digits_of-length zero k' n lt = omega arith
digits_of-length (suc k) zero n lt =
    let e : (n / 10 == 0) ≡ true = (==_iff (n / 10) 0).1 (omega (arith, lt)) in rw e (omega arith)
digits_of-length (suc k) (suc k') n lt =
    let rest = digits_of-length k k' (n / 10) (omega (arith, lt)) in
    elim (Bool-cases (n / 10 == 0)) [
      | inl e ↦ rw e (omega arith)
      | inr e ↦ rw e (omega (arith, rest))
    ]

word-pow10 : (n : ℕ) → n < 2 ^ 32 → (n < pow10 10) × (n < pow10 32)
unfolding pow10
word-pow10 n h = (omega (arith, h), omega (arith, h))

-- A terminator ends the digits.
parse_digits-end :
    (fuel : ℕ) (mem : ℕ → ℕ) (at ret : ℕ)
    → mem at ≡ 0
    → parse_digits (suc fuel) mem at ret ≡ some ret
unfolding parse_digits
parse_digits-end fuel mem at ret e =
    let no_digit : isdigit (mem at) ≡ false = ground (arith, e) in rw no_digit refl

-- With more than 10 bytes of room, `number` prints a word in base 10, without flags, width and
-- precision, in at most 10 characters, and the digits read back from them with a terminator
-- behind, on more than 10 rounds of fuel, have the value of the word.
pub number-parse_digits :
    (n fuel : ℕ) (p : Printer)
    → n < 2 ^ 32
    → 10 < p.size
    → p.size < 2 ^ 32
    → 10 < fuel
    → (q : Printer) × (number n 10 0 0 no_flags p ≡ some q)
      × (q.str ≤ p.str + 10)
      × (parse_digits fuel (upd q.mem q.str 0) p.str 0 ≡ some n)
number-parse_digits n fuel p word room size enough =
    let ds = digits_of 32 false 10 n in
    let (ten, all) = word-pow10 n word in
    let short = digits_of-length 32 9 n ten in
    let (v, ok) = digits_of-value 32 n all in
    let (q, e, str, left, w, out) = emit_digits-Written ds p (omega (arith, short, room)) size ok in
    let mem = upd q.mem q.str 0 in
    let written = Written-same ds q.mem mem p.str (λ j lt. ground (arith, str, lt)) w in
    let rest : ℕ = fuel - length ds - 1 in
    let total : fuel ≡ length ds + suc rest = omega (arith, short, enough) in
    let behind : mem (p.str + length ds) ≡ 0 = ground (arith, str) in
    (
      q,
      number-decimal n p q e,
      omega (arith, str, short),
      ap (λ k. parse_digits k mem p.str 0) total
          ∙ parse_digits-Written ds (suc rest) p.str mem written (omega (arith, v, word))
          ∙ parse_digits-end rest mem (p.str + length ds) (value ds) behind
          ∙ ap (λ k. some k) v,
    )
