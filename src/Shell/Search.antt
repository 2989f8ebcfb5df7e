-- ===== src/Shell/Search.antt =====
-- `csSearchCommand` of src/coshell.excp finds what is in the table.
use mathlib.Core.Path.{subst}
use clubcos.Strings.{strcmp}
use clubcos.Strings.Scan.{IsString, strcmp-zero}
use clubcos.Shell.{is_negative, search_loop, search_command}
use clubcos.Prelude.{
  ℕ, zero, suc, ◌+◌, ◌-◌, ◌/◌, ◌≤◌, ◌<◌, ◌≡◌, refl, sym, ◌∙◌, ◌≢◌, ◌↔◌, ◌⊎◌, inl, inr, Bool, true,
  false, not, ◌&&◌, Option, none, some, List, arith, ltb, ◌==◌, if◌then◌else◌, ltb→lt, ==_iff,
  Bool-cases, length,
}

abbrev pub is_positive : ℕ → Bool
is_positive ret = not (is_negative ret) && not (ret == 0)

module _ (compare : ℕ → Option ℕ) (ret : ℕ → ℕ) (n : ℕ) where
  abbrev pub IsSearched : Option (Option ℕ) → Type 0
  IsSearched r =
      ((i : ℕ) × (i < n) × (r ≡ some (some i)) × (ret i ≡ 0))
      ⊎ ((r ≡ some none) × ((i : ℕ) → i < n → ret i ≢ 0))

  search_loop-lower :
      (k begin end : ℕ)
      → compare (begin + (end - begin) / 2) ≡ some (ret (begin + (end - begin) / 2))
      → is_negative (ret (begin + (end - begin) / 2)) ≡ true
      → search_loop (suc k) compare begin end ≡ (
          if begin == begin + (end - begin) / 2
          then some none
          else search_loop k compare begin (begin + (end - begin) / 2))
  unfolding search_loop
  search_loop-lower k begin end e neg = rw (e, neg) refl

  search_loop-found :
      (k begin end : ℕ)
      → compare (begin + (end - begin) / 2) ≡ some (ret (begin + (end - begin) / 2))
      → ret (begin + (end - begin) / 2) ≡ 0
      → search_loop (suc k) compare begin end ≡ some (some (begin + (end - begin) / 2))
  unfolding search_loop
  search_loop-found k begin end e zero_ret = rw (e, zero_ret) refl

  search_loop-upper :
      (k begin end : ℕ)
      → compare (begin + (end - begin) / 2) ≡ some (ret (begin + (end - begin) / 2))
      → is_positive (ret (begin + (end - begin) / 2)) ≡ true
      → search_loop (suc k) compare begin end ≡ (
          if begin + (end - begin) / 2 + 1 == end
          then some none
          else search_loop k compare (begin + (end - begin) / 2 + 1) end)
  unfolding search_loop
  search_loop-upper k begin end e pos =
      let neg : is_negative (ret (begin + (end - begin) / 2)) ≡ false = ground (arith, pos) in
      let ne : (ret (begin + (end - begin) / 2) == 0) ≡ false = ground (arith, pos) in
      rw (e, neg, ne) refl

  -- A negative answer stays negative behind it, a positive one positive before it.
  module _ (runs : (i : ℕ) → i < n → compare i ≡ some (ret i))
      (lower : (i j : ℕ) → i ≤ j → j < n → is_negative (ret i) ≡ true → is_negative (ret j) ≡ true)
      (upper : (i j : ℕ)
        → i ≤ j
        → j < n
        → is_positive (ret j) ≡ true
        → is_positive (ret i) ≡ true) where
    -- Entries outside of the range are not the one sought.
    search_loop-IsSearched :
        (k begin end : ℕ)
        → begin < end
        → end ≤ n
        → end ≤ begin + k
        → ((i : ℕ) → i < begin → ret i ≢ 0)
        → ((i : ℕ) → end ≤ i → i < n → ret i ≢ 0)
        → IsSearched (search_loop k compare begin end)
    search_loop-IsSearched zero begin end lt le fuel before behind = absurd (omega arith)
    search_loop-IsSearched (suc k) begin end lt le fuel before behind =
        let entry = begin + (end - begin) / 2 in
        let inside : entry < end = omega arith in
        let e = runs entry (omega (arith, inside)) in
        elim (Bool-cases (is_negative (ret entry))) [
          | inl neg ↦
              let behind' : (i : ℕ) → entry ≤ i → i < n → ret i ≢ 0 =
                λ i a b z. ground (arith, lower entry i a b neg, z) in
              rw (search_loop-lower k begin end e neg) (elim (Bool-cases (begin == entry)) [
                | inl same ↦ rw same (
                    inr (
                      refl,
                      λ i lt' z. elim (Bool-cases (ltb i begin)) [
                        | inl early ↦ before i (ltb→lt i begin early) z
                        | inr late ↦ behind' i (ground (arith, late, same)) lt' z
                      ],
                    ))
                | inr other ↦ rw other (
                    search_loop-IsSearched k begin entry (ground (arith, other))
                      (omega (arith, inside)) (omega (arith, inside)) before behind')
              ])
          | inr not_neg ↦ elim (Bool-cases (ret entry == 0)) [
            | inl z ↦
                let found : ret entry ≡ 0 = (==_iff (ret entry) 0).0 z in
                inl (entry, omega (arith, inside), search_loop-found k begin end e found, found)
            | inr ne ↦
                let pos : is_positive (ret entry) ≡ true = ground (arith, not_neg, ne) in
                let before' : (i : ℕ) → i < entry + 1 → ret i ≢ 0 = λ i a z.
                  ground (arith, upper i entry (omega (arith, a)) (omega (arith, inside)) pos, z) in
                rw (search_loop-upper k begin end e pos) (elim (Bool-cases (entry + 1 == end)) [
                  | inl same ↦ rw same (
                      inr (
                        refl,
                        λ i lt' z. elim (Bool-cases (ltb i end)) [
                          | inl early ↦ before' i (ground (arith, early, same)) z
                          | inr late ↦ behind i (ground (arith, late)) lt' z
                        ],
                      ))
                  | inr other ↦ rw other (
                      search_loop-IsSearched k (entry + 1) end (ground (arith, other, inside)) le
                        (omega arith) before' behind)
                ])
          ]
        ]

-- What the search for the text `xs` among the names `texts` is to answer.
abbrev pub IsSearchFor : List ℕ → (ℕ → List ℕ) → ℕ → Option (Option ℕ) → Type 0
IsSearchFor xs texts n r =
    ((i : ℕ) × (i < n) × (r ≡ some (some i)) × (xs ≡ texts i))
    ⊎ ((r ≡ some none) × ((i : ℕ) → i < n → xs ≢ texts i))

some-inj : {a b : ℕ} → ◌≡◌ {A = Option ℕ} (some a) (some b) → a ≡ b
some-inj e = cc

-- On a table of at least one command name, when the command and the names are terminated strings,
-- the fuel of `strcmp` is more than the length of the command, and the table is sorted as far as
-- `strcmp` of the command tells (a negative result stays negative behind it, a positive one
-- positive before it), the binary search `csSearchCommand` ends within as many rounds as there are
-- names. It answers an entry whose name is the command, or the null pointer, and then no name in
-- the table is the command.
pub search_command-IsSearchFor :
    (fuel : ℕ) (mem names : ℕ → ℕ) (n cmd : ℕ) (ret : ℕ → ℕ) (xs : List ℕ) (texts : ℕ → List ℕ)
    → 0 < n
    → length xs < fuel
    → IsString mem cmd xs
    → ((i : ℕ) → i < n → IsString mem (names i) (texts i))
    → ((i : ℕ) → i < n → strcmp fuel mem cmd (names i) ≡ some (ret i))
    → ((i j : ℕ) → i ≤ j → j < n → is_negative (ret i) ≡ true → is_negative (ret j) ≡ true)
    → ((i j : ℕ) → i ≤ j → j < n → is_positive (ret j) ≡ true → is_positive (ret i) ≡ true)
    → IsSearchFor xs texts n (search_command fuel mem names n cmd)
unfolding search_command
search_command-IsSearchFor fuel mem names n cmd ret xs texts some_names enough at_cmd at_names runs
      lower upper =
    let same : (i : ℕ) → i < n → (ret i ≡ 0) ↔ (xs ≡ texts i) = λ i lt.
      let (v, e, z) =
        strcmp-zero fuel mem cmd (names i) xs (texts i) at_cmd (at_names i lt) enough in
      subst (λ u. (u ≡ 0) ↔ (xs ≡ texts i)) (some-inj (sym e ∙ runs i lt)) z in
    elim (search_loop-IsSearched (λ i. strcmp fuel mem cmd (names i)) ret n runs lower upper n 0 n
      some_names (omega arith) (omega arith) (λ i a. absurd (omega (arith, a)))
      (λ i a b. absurd (omega (arith, a, b)))) [
        | inl (i, lt, e, z) ↦ inl (i, lt, e, (same i lt).0 z)
        | inr (e, out) ↦ inr (e, λ i lt q. out i lt ((same i lt).1 q))
      ]
