-- ===== src/Numbers.antt =====
-- Numbers as text: jos-lab4/lib/string.c, strtol, and jos-lab4/lib/printfmt.c, printnum.
pub mod Digits
pub mod RoundTrip
use junior_os.Base.{
  ℕ, zero, suc, ◌+◌, ◌-◌, ◌*◌, ◌/◌, ◌%◌, ◌^◌, Bool, true, false, ◌&&◌, ◌||◌, Option, none, some,
  List, [], ◌∷◌, ◌++◌, ◌==◌, ltb, leb, if◌then◌else◌,
}
use junior_os.Machine.{word, sub32}
use junior_os.Strings.{Memory}

-- `while (*s == ' ' || *s == '\t') s++`
skip_blanks : ℕ → Memory → ℕ → Option ℕ
skip_blanks zero mem s = none
skip_blanks (suc fuel) mem s =
    let rest = skip_blanks fuel mem (s + 1) in if mem s == 32 || mem s == 9 then rest else some s

-- Is there a minus sign, and where the number goes on.
abbrev pub sign : Memory → ℕ → Bool × ℕ
sign mem s =
    if mem s == 43 then (false, s + 1) else if mem s == 45 then (true, s + 1) else (false, s)

-- The base, by the prefix where it is 0, and where the digits start.
abbrev pub prefix : Memory → ℕ → ℕ → ℕ × ℕ
prefix mem base s =
    if (base == 0 || base == 16) && (mem s == 48 && mem (s + 1) == 120)
    then (16, s + 2)
    else if base == 0 && mem s == 48
    then (8, s + 1)
    else if base == 0
    then (10, s)
    else (base, s)

abbrev pub is_alphanumeric : ℕ → Bool
is_alphanumeric c = leb 48 c && leb c 57 || leb 97 c && leb c 122 || leb 65 c && leb c 90

-- `dig`, of a letter or a digit.
abbrev pub dig : ℕ → ℕ
dig c =
    if leb 48 c && leb c 57
    then c - 48
    else if leb 97 c && leb c 122
    then c - 97 + 10
    else c - 65 + 10

-- The loop goes on with the character.
abbrev pub accepts : ℕ → ℕ → Bool
accepts base c = is_alphanumeric c && ltb (dig c) base

strtol_digits : ℕ → Memory → ℕ → ℕ → ℕ → Option (ℕ × ℕ)
strtol_digits zero mem base s val = none
strtol_digits (suc fuel) mem base s val =
    let rest = strtol_digits fuel mem base (s + 1) ((val * base + dig (mem s)) % word) in
    if accepts base (mem s) then rest else some (val, s)

negated : Bool → Option (ℕ × ℕ) → Option (ℕ × ℕ)
negated neg none = none
negated neg (some (val, s)) = some (if neg then sub32 0 val else val, s)

strtol_from : ℕ → Memory → ℕ → Option ℕ → Option (ℕ × ℕ)
unfolding strtol_digits negated
strtol_from fuel mem base none = none
strtol_from fuel mem base (some s) =
    let signed = sign mem s in
    let start = prefix mem base signed.1 in
    negated signed.0 (strtol_digits fuel mem start.0 start.1 0)

-- The long that is returned, a 32-bit word, and `*endptr`; the base is not negative.
unfoldable pub strtol : ℕ → Memory → ℕ → ℕ → Option (ℕ × ℕ)
unfolding skip_blanks strtol_from
strtol fuel mem s base = strtol_from fuel mem base (skip_blanks fuel mem s)

-- "0123456789abcdef"[d]
abbrev pub digit_char : ℕ → ℕ
digit_char d = if ltb d 10 then 48 + d else 87 + d

unfoldable pub pads : ℕ → ℕ → List ℕ
pads zero padc = []
pads (suc n) padc = padc ∷ pads n padc

then_put : Option (List ℕ) → ℕ → Option (List ℕ)
then_put none ch = none
then_put (some out) ch = some (out ++ ch ∷ [])

-- What goes to putch. A width below 1 pads as little as 1, so that it is a natural number here.
unfoldable pub printnum : ℕ → ℕ → ℕ → ℕ → ℕ → Option (List ℕ)
unfolding pads then_put
printnum zero num base width padc = none
printnum (suc fuel) num base width padc =
    let rest = printnum fuel (num / base) base (width - 1) padc in
    then_put (if leb base num then rest else some (pads (width - 1) padc)) (digit_char (num % base))
