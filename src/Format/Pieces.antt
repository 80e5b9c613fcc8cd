-- ===== src/Format/Pieces.antt =====
-- vprintfmt against formats as lists of pieces: plain characters and conversions without flags.
use junior_os.Base.{
  ℕ, zero, suc, ◌+◌, ◌-◌, ◌^◌, ◌<◌, ◌≤◌, ◌≡◌, ◌≢◌, refl, true, false, none, some, List, [], ◌∷◌,
  ◌++◌, ◌==◌, ltb, leb, if◌then◌else◌, length, arith, ◌∙◌, ap, Bool-cases, inl, inr,
}
use mathlib.Core.List.{append-nil}
use junior_os.Machine.{word, sub32}
use junior_os.Strings.{Memory}
use junior_os.Strings.Terminated.{IsString}
use junior_os.Numbers.{pads, printnum}
use junior_os.Numbers.Digits.{value_of, AreDigits, printnum-Printed}
use junior_os.Format.{
  Texts, no_flags, go_on, is_negative, positive, extended, getuint, getint, printed, number,
  signed_number, put_chars, string, string_field, char_field, next_action,
}

pub data Piece : Type 0 where
  literal : (c : ℕ) → Piece
  percent : Piece
  character : (c : ℕ) → Piece
  decimal : (w : ℕ) → Piece
  unsigned : (w : ℕ) → Piece
  octal : (w : ℕ) → Piece
  hexadecimal : (w : ℕ) → Piece
  text : (p : ℕ) (xs : List ℕ) → Piece

-- The characters of a piece in the format, and the argument that it takes.
abbrev pub code : Piece → List ℕ
code (literal c) = c ∷ []
code percent = 37 ∷ 37 ∷ []
code (character c) = 37 ∷ 99 ∷ []
code (decimal w) = 37 ∷ 100 ∷ []
code (unsigned w) = 37 ∷ 117 ∷ []
code (octal w) = 37 ∷ 111 ∷ []
code (hexadecimal w) = 37 ∷ 120 ∷ []
code (text p xs) = 37 ∷ 115 ∷ []

abbrev pub argument : Piece → List ℕ
argument (literal c) = []
argument percent = []
argument (character c) = c ∷ []
argument (decimal w) = w ∷ []
argument (unsigned w) = w ∷ []
argument (octal w) = w ∷ []
argument (hexadecimal w) = w ∷ []
argument (text p xs) = p ∷ []

abbrev pub source : List Piece → List ℕ
source [] = []
source (p ∷ ps) = code p ++ source ps

abbrev pub arguments : List Piece → List ℕ
arguments [] = []
arguments (p ∷ ps) = argument p ++ arguments ps

abbrev pub AreAscii : List ℕ → Type 0
AreAscii [] = Unit
AreAscii (x ∷ xs) = (x < 128) × AreAscii xs

-- A plain character is not a percent sign, a word is one, and a string is shorter than `room`.
abbrev pub IsFit : Memory → ℕ → Piece → Type 0
IsFit mem room (literal c) = c ≢ 37
IsFit mem room percent = Unit
IsFit mem room (character c) = Unit
IsFit mem room (decimal w) = w < 2 ^ 32
IsFit mem room (unsigned w) = w < 2 ^ 32
IsFit mem room (octal w) = w < 2 ^ 32
IsFit mem room (hexadecimal w) = w < 2 ^ 32
IsFit mem room (text p xs) =
    (p ≢ 0) × IsString mem p xs × AreAscii xs × (length xs < room) × (length xs < 2 ^ 31)

abbrev pub AreFit : Memory → ℕ → List Piece → Type 0
AreFit mem room [] = Unit
AreFit mem room (p ∷ ps) = IsFit mem room p × AreFit mem room ps

abbrev pub IsNumeral : ℕ → ℕ → List ℕ → Type 0
IsNumeral base n out = AreDigits base out × (0 < length out) × (value_of base 0 out ≡ n)

-- What a piece prints.
abbrev pub Shows : Piece → List ℕ → Type 0
Shows (literal c) out = out ≡ c ∷ []
Shows percent out = out ≡ 37 ∷ []
Shows (character c) out = out ≡ c ∷ []
Shows (decimal w) out =
    if is_negative w
    then ((digits : List ℕ) × (out ≡ 45 ∷ digits) × IsNumeral 10 (word - w) digits)
    else IsNumeral 10 w out
Shows (unsigned w) out = IsNumeral 10 w out
Shows (octal w) out = IsNumeral 8 w out
Shows (hexadecimal w) out = IsNumeral 16 w out
Shows (text p xs) out = out ≡ xs

abbrev pub Rendered : List Piece → List ℕ → Type 0
Rendered [] out = out ≡ []
Rendered (p ∷ ps) out = (xs ys : List ℕ) × (out ≡ xs ++ ys) × Shows p xs × Rendered ps ys

getuint_word : (w : ℕ) (args : List ℕ) → getuint 0 (w ∷ args) ≡ some (w, args)
unfolding getuint
getuint_word w [] = refl
getuint_word w (a ∷ args) = refl

getint_word : (w : ℕ) (args : List ℕ) → getint 0 (w ∷ args) ≡ some (extended w, args)
unfolding getint
getint_word w [] = refl
getint_word w (a ∷ args) = refl

pads_none : (n : ℕ) → pads (0 - n) 32 ≡ []
unfolding pads
pads_none n = let e : 0 - n ≡ 0 = omega arith in ap (λ k. pads k 32) e

-- A number without flags.
number-IsNumeral :
    (base : ℕ) (before : List ℕ) (fmt num : ℕ) (args : List ℕ)
    → 2 ≤ base
    → base ≤ 16
    → num < 2 ^ 64
    → (digits : List ℕ) × (number no_flags base before fmt (some (num, args))
        ≡ go_on (before ++ digits) none fmt args)
      × IsNumeral base num digits
unfolding number printed
number-IsNumeral base before fmt num args two small lt =
    let p = printnum-Printed 64 num base 0 32 two small (omega arith) (omega arith) in
    let plain : printnum 64 num base 0 32 ≡ some p.digits =
      p.text ∙ ap (λ xs. some (xs ++ p.digits)) (pads_none (length p.digits)) in
    (p.digits, ap (λ o. printed before o fmt args) plain, (p.of_base, p.some_digit, p.value))

signed_number-Shows :
    (fmt w : ℕ) (args : List ℕ)
    → w < 2 ^ 32
    → (out : List ℕ) × (signed_number no_flags fmt (some (extended w, args))
        ≡ go_on out none fmt args)
      × Shows (decimal w) out
unfolding signed_number
signed_number-Shows fmt w args lt = elim (Bool-cases (is_negative w)) [
  | inl below ↦
      let (digits, run, shows) =
        number-IsNumeral 10 (45 ∷ []) fmt (word - w) args (omega arith) (omega arith)
          (omega arith) in
      let big : leb (2 ^ 63) (extended w) ≡ true = ground arith in
      let e : 2 ^ 64 - extended w ≡ word - w = ground arith in
      (45 ∷ digits, rw (big, e) run, rw below (digits, refl, shows))
  | inr above ↦
      let (digits, run, shows) =
        number-IsNumeral 10 [] fmt w args (omega arith) (omega arith) (omega arith) in
      let small : leb (2 ^ 63) (extended w) ≡ false = ground arith in
      let e : extended w ≡ w = ground arith in (digits, rw (small, e) run, rw above shows)
]

put_chars_eq :
    (fuel : ℕ) (mem : Memory) (p width : ℕ) (xs : List ℕ)
    → IsString mem p xs
    → AreAscii xs
    → length xs < fuel
    → length xs ≤ width
    → width < word
    → put_chars fuel mem false p (word - 1) width ≡ some (xs, width - length xs)
unfolding put_chars
put_chars_eq zero mem p width xs str ascii more enough small = absurd (omega arith)
put_chars_eq (suc fuel) mem p width [] str ascii more enough small =
    let e : width ≡ width - 0 = omega arith in rw str (ap (λ w. some ([], w)) e)
put_chars_eq (suc fuel) mem p width (x ∷ xs) str ascii more enough small =
    let less : sub32 width 1 ≡ width - 1 = omega arith in
    let rest =
      put_chars_eq fuel mem (p + 1) (width - 1) xs str.2 ascii.1 (omega arith) (omega arith)
        (omega arith) in
    let e : width - 1 - length xs ≡ width - suc (length xs) = omega arith in
    let here : (mem p == 0) ≡ false = ground arith in
    let plain : ltb (mem p) 128 ≡ true = ground arith in rw (here, less, rest, plain) (ground arith)

string-text :
    (fuel : ℕ) (mem : Memory) (p fmt : ℕ) (xs args : List ℕ)
    → IsString mem p xs
    → AreAscii xs
    → length xs < fuel
    → length xs < 2 ^ 31
    → string fuel mem no_flags p fmt args ≡ go_on xs none fmt args
unfolding string pads
string-text fuel mem p fmt xs args str ascii more short =
    let none_left : positive (word - 1 - length xs) ≡ 0 = ground arith in
    rw (put_chars_eq fuel mem p (word - 1) xs str ascii more (omega arith) (omega arith), none_left)
      (ap (λ o. go_on o none fmt args) (append-nil xs))

-- Of a word, in a base of the conversions.
IsBase : ℕ → Type 0
IsBase base = (2 ≤ base) × (base ≤ 16)

ten-IsBase : IsBase 10
unfolding IsBase
ten-IsBase = (omega arith, omega arith)

eight-IsBase : IsBase 8
unfolding IsBase
eight-IsBase = (omega arith, omega arith)

sixteen-IsBase : IsBase 16
unfolding IsBase
sixteen-IsBase = (omega arith, omega arith)

word-IsNumeral :
    (base fmt w : ℕ) (args : List ℕ)
    → IsBase base
    → w < 2 ^ 32
    → (digits : List ℕ) × (number no_flags base [] fmt (some (w, args))
        ≡ go_on digits none fmt args)
      × IsNumeral base w digits
unfolding IsBase
word-IsNumeral base fmt w args ok lt =
    number-IsNumeral base [] fmt w args ok.0 ok.1 (omega (arith, lt))

module _ (texts : Texts) (mem : Memory) where
  -- The conversion of a piece, behind its percent sign.
  pub escape_piece :
      (p : Piece) (ch : ℕ) (fuel fmt : ℕ) (args : List ℕ)
      → code p ≡ 37 ∷ ch ∷ []
      → IsFit mem fuel p
      → mem fmt ≡ ch
      → (out : List ℕ) × (next_action texts fuel mem (some no_flags) fmt (argument p ++ args)
          ≡ go_on out none (fmt + 1) args)
        × Shows p out
  unfolding next_action string_field char_field
  escape_piece (literal c) ch fuel fmt args e fit at = absurd (cc)
  escape_piece percent ch fuel fmt args e fit at =
      let here : mem fmt ≡ 37 = cc in (37 ∷ [], rw here refl, refl)
  escape_piece (character c) ch fuel fmt args e fit at =
      let here : mem fmt ≡ 99 = cc in (c ∷ [], rw here refl, refl)
  escape_piece (decimal w) ch fuel fmt args e fit at =
      let here : mem fmt ≡ 100 = cc in
      let (out, run, shows) = signed_number-Shows (fmt + 1) w args fit in
      (out, rw (here, getint_word w args) run, shows)
  escape_piece (unsigned w) ch fuel fmt args e fit at =
      let here : mem fmt ≡ 117 = cc in
      let (out, run, shows) = word-IsNumeral 10 (fmt + 1) w args ten-IsBase fit in
      (out, rw (here, getuint_word w args) run, shows)
  escape_piece (octal w) ch fuel fmt args e fit at =
      let here : mem fmt ≡ 111 = cc in
      let (out, run, shows) = word-IsNumeral 8 (fmt + 1) w args eight-IsBase fit in
      (out, rw (here, getuint_word w args) run, shows)
  escape_piece (hexadecimal w) ch fuel fmt args e fit at =
      let here : mem fmt ≡ 120 = cc in
      let (out, run, shows) = word-IsNumeral 16 (fmt + 1) w args sixteen-IsBase fit in
      (out, rw (here, getuint_word w args) run, shows)
  escape_piece (text p xs) ch fuel fmt args e fit at =
      let here : mem fmt ≡ 115 = cc in
      let some_text : (p == 0) ≡ false = ground (arith, fit.0) in
      (
        xs,
        rw (here, some_text) (string-text fuel mem p (fmt + 1) xs args fit.1 fit.2 fit.3 fit.4),
        refl,
      )
