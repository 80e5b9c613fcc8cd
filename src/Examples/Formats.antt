-- ===== src/Examples/Formats.antt =====
-- Numbers and formats: "n=%d%s" at 300, besides the strings "hi" at 100 and "ho" at 200.
use junior_os.Base.{
  ℕ, ◌+◌, ◌-◌, ◌%◌, ◌≤◌, ◌≡◌, refl, inl, some, List, [], ◌∷◌, ◌==◌, if◌then◌else◌, arith, length,
  All,
}
use junior_os.Strings.{Memory}
use junior_os.Strings.Blocks.{in_block}
use junior_os.Strings.Terminated.{IsString}
use junior_os.Numbers.{printnum, strtol}
use junior_os.Numbers.RoundTrip.{written, strtol-printnum}
use junior_os.Format.{Texts, vprintfmt}
use junior_os.Format.Buffer.{vsnprintf, fitting, char_at, vsnprintf_lem}
use junior_os.Format.Pieces.{Piece, literal, decimal, text, source, AreFit, Rendered}
use junior_os.Format.Rendering.{vprintfmt-Rendered}
use junior_os.User.Printf.{vcprintf, concat, chars, IsLine, vcprintf_lem}
use junior_os.Examples.Text.{text_memory, ho, hi}

abbrev texts : Texts
texts = record { null_text = 400; error_format = 410; string_format = 420; error_string = λ err. 0 }

abbrev formats : Memory
formats i =
    if i == 300
    then 110
    else if i == 301
    then 61
    else if i == 302
    then 37
    else if i == 303
    then 100
    else if i == 304
    then 37
    else if i == 305
    then 115
    else text_memory i

-- The number is -7.
abbrev pieces : List Piece
pieces = literal 110 ∷ literal 61 ∷ decimal 0xFFFFFFF9 ∷ text 200 ho ∷ []

strtol-printnum_example :
    (out : List ℕ) × (printnum 64 255 16 6 32 ≡ some out)
    × (6 ≤ length out)
    × (strtol (length out + 1) (written out 500 formats) 500 16 ≡ some (255, 500 + length out))
strtol-printnum_example =
    strtol-printnum 255 16 6 formats 500 (omega arith) (omega arith) (omega arith)

pieces-IsString : IsString formats 300 (source pieces)
pieces-IsString = (
  refl,
  omega arith,
  (
    refl,
    omega arith,
    (refl, omega arith, (refl, omega arith, (refl, omega arith, (refl, omega arith, refl)))),
  ),
)

pieces-AreFit : AreFit formats 3 pieces
pieces-AreFit = (
  omega arith,
  (
    omega arith,
    (
      omega arith,
      (
        (
          omega arith,
          (refl, omega arith, (refl, omega arith, refl)),
          (omega arith, (omega arith, tt)),
          omega arith,
          omega arith,
        ),
        tt,
      ),
    ),
  ),
)

vprintfmt-Rendered_example :
    (out : List ℕ) × (vprintfmt texts 10 formats 300 (0xFFFFFFF9 ∷ 200 ∷ []) ≡ some out)
    × Rendered pieces out
vprintfmt-Rendered_example =
    vprintfmt-Rendered texts 10 formats 300 3 pieces pieces-IsString pieces-AreFit (omega arith)

-- Any memory with "hi" at 100 prints it.
hi_anywhere :
    (m : Memory) → m 100 ≡ 104 → m 101 ≡ 105 → m 102 ≡ 0 → vprintfmt texts 3 m 100 [] ≡ some hi
unfolding vprintfmt
hi_anywhere m first second end = rw (first, second, end) refl

hi_printed : vprintfmt texts 3 text_memory 100 [] ≡ some hi
unfolding vprintfmt
hi_printed = refl

-- The buffer has room for one character of "hi".
vsnprintf_lem_example :
    (mem' : Memory) × (vsnprintf texts 3 700 2 100 [] text_memory ≡ some (mem', 2))
    × ((i : ℕ)
        → mem' i ≡ (
            if i == 700 + fitting (2 - 1) hi
            then 0
            else if in_block 700 (fitting (2 - 1) hi) i
            then char_at hi (i - 700) % 256
            else text_memory i))
vsnprintf_lem_example =
    vsnprintf_lem texts 3 700 2 100 [] hi text_memory (omega arith) (omega arith) (omega arith)
      (λ m same.
        hi_anywhere m (same 100 (inl (omega arith))) (same 101 (inl (omega arith)))
          (same 102 (inl (omega arith))))
      (omega arith)

vcprintf_lem_example :
    (calls : List (List ℕ)) × (vcprintf texts 3 (λ i. 0) 100 [] text_memory
      ≡ some (calls, length hi))
    × (concat calls ≡ chars hi)
    × All IsLine calls
vcprintf_lem_example = vcprintf_lem texts 3 (λ i. 0) 100 [] hi text_memory hi_printed (omega arith)
