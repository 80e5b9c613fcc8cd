-- ===== src/Numbers/RoundTrip.antt =====
-- strtol of what printnum prints.
use junior_os.Base.{
  ℕ, zero, suc, ◌+◌, ◌-◌, ◌*◌, ◌^◌, ◌<◌, ◌≤◌, ◌≡◌, ◌≢◌, refl, false, some, List, [], ◌∷◌, ◌++◌,
  length, arith, inl, ◌∙◌, ap, update, subst,
}
use native.Mathlib.Nat.{mod-eq_of_lt, le-mul_of_pos_right}
use junior_os.Machine.{word}
use junior_os.Strings.{Memory}
use junior_os.Strings.Terminated.{IsString}
use junior_os.Strings.Copying.{IsString-update}
use junior_os.Numbers.{
  dig, sign, prefix, pads, printnum, skip_blanks, strtol_digits, strtol_from, strtol,
}
use junior_os.Numbers.Digits.{value_of, AreDigits, printnum-Printed}

-- The text stands at `s`, with a NUL behind it.
pub written : List ℕ → ℕ → Memory → Memory
written [] s mem = update mem s 0
written (c ∷ cs) s mem = update (written cs (s + 1) mem) s c

abbrev IsText : List ℕ → Type 0
IsText [] = Unit
IsText (c ∷ cs) = (c ≢ 0) × IsText cs

written-IsString :
    (cs : List ℕ) (s : ℕ) (mem : Memory) → IsText cs → IsString (written cs s mem) s cs
unfolding written
written-IsString [] s mem text = ground arith
written-IsString (c ∷ cs) s mem (first, rest) = (
  ground arith,
  first,
  IsString-update (written cs (s + 1) mem) (s + 1) s c cs (inl (omega arith))
      (written-IsString cs (s + 1) mem rest),
)

AreDigits-IsText : (base : ℕ) (cs : List ℕ) → AreDigits base cs → IsText cs
AreDigits-IsText base [] all = tt
AreDigits-IsText base (c ∷ cs) all = (ground arith, AreDigits-IsText base cs all.1)

pads-IsText : (n : ℕ) (cs : List ℕ) → IsText cs → IsText (pads n 32 ++ cs)
unfolding pads
pads-IsText zero cs text = text
pads-IsText (suc n) cs text = (omega arith, pads-IsText n cs text)

-- Reading further digits never makes the number smaller.
value_of_ge : (base acc : ℕ) (cs : List ℕ) → 0 < base → acc ≤ value_of base acc cs
unfolding value_of
value_of_ge base acc [] pos = omega arith
value_of_ge base acc (c ∷ cs) pos =
    omega
      (arith, le-mul_of_pos_right {m = base} acc pos, value_of_ge base (acc * base + dig c) cs pos)

strtol_digits-value_of :
    (fuel : ℕ) (mem : Memory) (base s val : ℕ) (cs : List ℕ)
    → 0 < base
    → IsString mem s cs
    → AreDigits base cs
    → value_of base val cs < 2 ^ 32
    → length cs < fuel
    → strtol_digits fuel mem base s val ≡ some (value_of base val cs, s + length cs)
unfolding strtol value_of
strtol_digits-value_of zero mem base s val cs pos str all lt more = absurd (omega arith)
strtol_digits-value_of (suc fuel) mem base s val [] pos str all lt more = ground arith
strtol_digits-value_of (suc fuel) mem base s val (c ∷ cs) pos str all lt more =
    let next = val * base + dig c in
    let small : next < word = omega (arith, value_of_ge base next cs pos) in
    let rest =
      strtol_digits-value_of fuel mem base (s + 1) next cs pos str.2 all.1 lt (omega arith) in
    let e : s + 1 + length cs ≡ s + suc (length cs) = omega arith in
    rw (str.0, all.0, mod-eq_of_lt small, rest, e) refl

skip_blanks-pads :
    (n fuel : ℕ) (mem : Memory) (s c : ℕ) (cs : List ℕ)
    → IsString mem s (pads n 32 ++ c ∷ cs)
    → c ≢ 32
    → c ≢ 9
    → n < fuel
    → (skip_blanks fuel mem s ≡ some (s + n)) × IsString mem (s + n) (c ∷ cs)
unfolding strtol pads
skip_blanks-pads n zero mem s c cs str ne32 ne9 more = absurd (omega arith)
skip_blanks-pads zero (suc fuel) mem s c cs str ne32 ne9 more =
    (ground arith, subst (λ a. IsString mem a (c ∷ cs)) (zero_right s) str)
  where
    zero_right : (s : ℕ) → s ≡ s + 0
    zero_right s = omega arith
skip_blanks-pads (suc n) (suc fuel) mem s c cs str ne32 ne9 more =
    let (run, rest) = skip_blanks-pads n fuel mem (s + 1) c cs str.2 ne32 ne9 (omega arith) in
    let e : s + 1 + n ≡ s + suc n = omega arith in
    (rw (str.0) (run ∙ ap (λ a. some a) e), subst (λ a. IsString mem a (c ∷ cs)) e rest)

-- Digits of a base up to 16 start with no sign and no prefix.
no_prefix :
    (mem : Memory) (base s c : ℕ) (cs : List ℕ)
    → 2 ≤ base
    → base ≤ 16
    → IsString mem s (c ∷ cs)
    → AreDigits base (c ∷ cs)
    → (sign mem s ≡ (false, s)) × (prefix mem base s ≡ (base, s))
no_prefix mem base s c [] two small str all = (ground arith, ground arith)
no_prefix mem base s c (d ∷ cs) two small str all = (ground arith, ground arith)

strtol_from-value_of :
    (fuel : ℕ) (mem : Memory) (base s c : ℕ) (cs : List ℕ)
    → 2 ≤ base
    → base ≤ 16
    → IsString mem s (c ∷ cs)
    → AreDigits base (c ∷ cs)
    → value_of base 0 (c ∷ cs) < 2 ^ 32
    → suc (length cs) < fuel
    → strtol_from fuel mem base (some s) ≡ some (value_of base 0 (c ∷ cs), s + suc (length cs))
unfolding strtol
strtol_from-value_of fuel mem base s c cs two small str all lt more =
    let (signed, prefixed) = no_prefix mem base s c cs two small str all in
    rw
      (
        signed,
        prefixed,
        strtol_digits-value_of fuel mem base s 0 (c ∷ cs) (omega arith) str all lt more,
      )
      refl

read_back :
    (n base width : ℕ) (mem : Memory) (s : ℕ) (digits : List ℕ)
    → 2 ≤ base
    → base ≤ 16
    → 0 < length digits
    → AreDigits base digits
    → value_of base 0 digits ≡ n
    → n < 2 ^ 32
    → (fuel k : ℕ) → k + length digits < fuel
    → strtol fuel (written (pads k 32 ++ digits) s mem) s base ≡ some (n, s + k + length digits)
unfolding strtol
read_back n base width mem s [] two small pos all value lt fuel k more = absurd (omega arith)
read_back n base width mem s (c ∷ cs) two small pos all value lt fuel k more =
    let text = pads k 32 ++ c ∷ cs in
    let str =
      written-IsString text s mem (pads-IsText k (c ∷ cs) (AreDigits-IsText base (c ∷ cs) all)) in
    let (skipped, here) =
      skip_blanks-pads k fuel (written text s mem) s c cs str (ground arith) (ground arith)
        (omega arith) in
    rw
      (
        skipped,
        strtol_from-value_of fuel (written text s mem) base (s + k) c cs two small here all
            (omega (arith, value, lt)) (omega arith),
        value,
      )
      refl

length-pads : (k : ℕ) (cs : List ℕ) → length (pads k 32 ++ cs) ≡ k + length cs
unfolding pads
length-pads zero cs = omega arith
length-pads (suc k) cs = omega (arith, length-pads k cs)

-- For a base from 2 to 16 and a number of 32 bits, printnum, padding with spaces, returns a text of
-- at least the width, and strtol of that text in that base returns the number and the address of
-- its end.
pub strtol-printnum :
    (n base width : ℕ) (mem : Memory) (s : ℕ)
    → 2 ≤ base
    → base ≤ 16
    → n < 2 ^ 32
    → (text : List ℕ) × (printnum 64 n base width 32 ≡ some text)
      × (width ≤ length text)
      × (strtol (length text + 1) (written text s mem) s base ≡ some (n, s + length text))
strtol-printnum n base width mem s two small lt =
    let p = printnum-Printed 64 n base width 32 two small (omega arith) (omega arith) in
    let k = width - length p.digits in
    let text = pads k 32 ++ p.digits in
    let len = length-pads k p.digits in
    let e : s + k + length p.digits ≡ s + length text = omega (arith, len) in
    (
      text,
      p.text,
      omega (arith, len),
      read_back n base width mem s p.digits two small p.some_digit p.of_base p.value lt
            (length text + 1) k (omega (arith, len))
          ∙ ap (λ a. some (n, a)) e,
    )
