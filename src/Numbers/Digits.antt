-- ===== src/Numbers/Digits.antt =====
-- printnum: the digits that it prints, and the number that they stand for.
use junior_os.Base.{
  ℕ, zero, suc, ◌+◌, ◌-◌, ◌*◌, ◌/◌, ◌%◌, ◌^◌, ◌<◌, ◌≤◌, ◌≡◌, refl, true, Option, some, List, [],
  ◌∷◌, ◌++◌, leb, length, length-append, arith, Bool-cases, inl, inr, ◌∙◌, ap,
}
use mathlib.Core.List.{append_assoc}
use native.Mathlib.Nat.{div-add-mod', mod-lt, mod-eq_of_lt, mul-le-mul, pow-suc, div-lt_iff_lt-mul}
use junior_os.Numbers.{accepts, dig, digit_char, pads, then_put, printnum}

-- The number that a list of digits stands for, behind `acc`.
unfoldable pub value_of : ℕ → ℕ → List ℕ → ℕ
value_of base acc [] = acc
value_of base acc (c ∷ cs) = value_of base (acc * base + dig c) cs

abbrev pub AreDigits : ℕ → List ℕ → Type 0
AreDigits base [] = Unit
AreDigits base (c ∷ cs) = (accepts base c ≡ true) × AreDigits base cs

value_of-append :
    (base acc : ℕ) (cs : List ℕ) (c : ℕ)
    → value_of base acc (cs ++ c ∷ []) ≡ value_of base acc cs * base + dig c
unfolding value_of
value_of-append base acc [] c = refl
value_of-append base acc (d ∷ cs) c = value_of-append base (acc * base + dig d) cs c

AreDigits-append :
    (base : ℕ) (cs : List ℕ) (c : ℕ)
    → AreDigits base cs
    → accepts base c ≡ true
    → AreDigits base (cs ++ c ∷ [])
AreDigits-append base [] c all one = (one, tt)
AreDigits-append base (d ∷ cs) c all one = (all.0, AreDigits-append base cs c all.1 one)

-- A digit of the base is read as it was printed.
digit_char_lem :
    (d base : ℕ)
    → d < base
    → base ≤ 16
    → (accepts base (digit_char d) ≡ true) × (dig (digit_char d) ≡ d)
digit_char_lem d base lt small = (ground arith, ground arith)

-- What printnum prints: digits of the base for the number, padded to the width.
pub record Printed (num base width padc : ℕ) (out : Option (List ℕ)) : Type 0 where
  pub digits : List ℕ
  pub text : out ≡ some (pads (width - length digits) padc ++ digits)
  pub some_digit : 0 < length digits
  pub of_base : AreDigits base digits
  pub value : value_of base 0 digits ≡ num

quotient : (num base m : ℕ) → 2 ≤ base → num < m * 2 → num / base < m
quotient num base m two lt =
    let more = mul-le-mul {n₁ = m} {m₁ = 2} {n₂ = m} {m₂ = base} (omega arith) two in
    (div-lt_iff_lt-mul {k = base} {x = num} {y = m} (omega arith)).1 (omega (arith, more, lt))

one_digit :
    (num base width padc : ℕ)
    → num < base
    → base ≤ 16
    → Printed num base width padc (then_put (some (pads (width - 1) padc)) (digit_char num))
unfolding printnum value_of
one_digit num base width padc lt small =
    let (digit, same) = digit_char_lem num base lt small in
    record {
      digits = digit_char num ∷ [];
      text = refl;
      some_digit = omega arith;
      of_base = (digit, tt);
      value = omega (arith, same);
    }

next_digit :
    (num base width padc : ℕ) (out : Option (List ℕ))
    → 2 ≤ base
    → base ≤ 16
    → Printed (num / base) base (width - 1) padc out
    → Printed num base width padc (then_put out (digit_char (num % base)))
unfolding printnum
next_digit num base width padc out two small p =
    let (digit, same) = digit_char_lem (num % base) base (mod-lt num (omega arith)) small in
    let c = digit_char (num % base) in
    let longer = length-append p.digits (c ∷ []) in
    let e : width - 1 - length p.digits ≡ width - length (p.digits ++ c ∷ []) =
      omega (arith, longer) in
    record {
      digits = p.digits ++ c ∷ [];
      text =
          ap (λ o. then_put o c) p.text
          ∙ ap (λ xs. some xs)
              (append_assoc (pads (width - 1 - length p.digits) padc) p.digits (c ∷ []))
          ∙ ap (λ k. some (pads k padc ++ (p.digits ++ c ∷ []))) e;
      some_digit = omega (arith, longer);
      of_base = AreDigits-append base p.digits c p.of_base digit;
      value =
          value_of-append base 0 p.digits c
          ∙ ap (λ v. v * base + dig c) p.value
          ∙ ap (λ d. num / base * base + d) same
          ∙ div-add-mod' num base;
    }

-- Where `num` is below 2 ^ fuel, printnum prints the number in the base.
pub printnum-Printed :
    (fuel num base width padc : ℕ)
    → 2 ≤ base
    → base ≤ 16
    → num < 2 ^ fuel
    → 0 < fuel
    → Printed num base width padc (printnum fuel num base width padc)
unfolding printnum
printnum-Printed zero num base width padc two small lt more = absurd (omega arith)
printnum-Printed (suc fuel) num base width padc two small lt more =
    elim (Bool-cases (leb base num)) [
      | inr last ↦
          let below : num < base = ground arith in
          rw (last, mod-eq_of_lt below) (one_digit num base width padc below small)
      | inl further ↦
          let lt' : num / base < 2 ^ fuel =
            quotient num base (2 ^ fuel) two (omega (arith, lt, pow-suc 2 fuel)) in
          rw further (
            next_digit num base width padc (printnum fuel (num / base) base (width - 1) padc) two
              small
              (printnum-Printed fuel (num / base) base (width - 1) padc two small lt'
                (some_fuel fuel further lt)))
    ]
  where
    some_fuel : (fuel : ℕ) → leb base num ≡ true → num < 2 ^ suc fuel → 0 < fuel
    some_fuel zero big lt = absurd (ground arith)
    some_fuel (suc fuel) big lt = omega arith
