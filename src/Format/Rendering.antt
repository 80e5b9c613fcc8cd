-- ===== src/Format/Rendering.antt =====
-- vprintfmt, pass by pass over the pieces of a format.
use junior_os.Base.{
  ℕ, zero, suc, ◌+◌, ◌<◌, ◌≤◌, ◌≡◌, ◌≢◌, refl, Option, none, some, List, [], ◌∷◌, ◌++◌, length,
  arith, ◌∙◌, ap,
}
use junior_os.Strings.{Memory}
use junior_os.Strings.Terminated.{IsString}
use junior_os.Format.{
  Texts, Flags, no_flags, finished, go_on, next_action, joined, carry_out, format, vprintfmt,
}
use junior_os.Format.Pieces.{
  Piece, literal, percent, character, decimal, unsigned, octal, hexadecimal, text, code, source,
  arguments, IsFit, AreFit, Shows, Rendered, escape_piece,
}

module _ (texts : Texts) (mem : Memory) where
  -- A pass that prints goes on behind what it has printed.
  act :
      (fuel fmt : ℕ) (open_flags open_flags' : Option Flags) (out : List ℕ) (fmt' : ℕ)
      (args args' : List ℕ)
      → next_action texts fuel mem open_flags fmt args ≡ go_on out open_flags' fmt' args'
      → format texts (suc fuel) mem open_flags fmt args
        ≡ joined out (format texts fuel mem open_flags' fmt' args')
  unfolding format carry_out
  act fuel fmt open_flags open_flags' out fmt' args args' run =
      ap (carry_out (format texts fuel mem)) run

  percent_sign :
      (fuel fmt : ℕ) (args : List ℕ)
      → mem fmt ≡ 37
      → next_action texts fuel mem none fmt args ≡ go_on [] (some no_flags) (fmt + 1) args
  unfolding next_action
  percent_sign fuel fmt args at = rw at refl

  plain_character :
      (fuel fmt c : ℕ) (args : List ℕ)
      → mem fmt ≡ c
      → c ≢ 37
      → c ≢ 0
      → next_action texts fuel mem none fmt args ≡ go_on (c ∷ []) none (fmt + 1) args
  unfolding next_action
  plain_character fuel fmt c args at plain inside = ground arith

  at_end :
      (fuel fmt : ℕ) (args : List ℕ)
      → mem fmt ≡ 0
      → next_action texts fuel mem none fmt args ≡ finished
  unfolding next_action
  at_end fuel fmt args at = rw at refl

  act_end : (fuel fmt : ℕ) → mem fmt ≡ 0 → format texts (suc fuel) mem none fmt [] ≡ some []
  unfolding format carry_out
  act_end fuel fmt at = ap (carry_out (format texts fuel mem)) (at_end fuel fmt [] at)

  joined-Rendered :
      (p : Piece) (ps : List Piece) (out rest : List ℕ) (o : Option (List ℕ))
      → o ≡ joined out (some rest)
      → Shows p out
      → Rendered ps rest
      → (all : List ℕ) × (o ≡ some all) × Rendered (p ∷ ps) all
  unfolding joined
  joined-Rendered p ps out rest o e shows rendered =
      (out ++ rest, e, (out, rest, refl, shows, rendered))

  -- From the address on, the pieces are printed.
  abbrev Prints : List Piece → ℕ → ℕ → Type 0
  Prints ps fuel fmt =
      (out : List ℕ) × (format texts fuel mem none fmt (arguments ps) ≡ some out) × Rendered ps out

  IsFit-more : (p : Piece) (room more : ℕ) → room ≤ more → IsFit mem room p → IsFit mem more p
  IsFit-more (literal c) room more le fit = fit
  IsFit-more percent room more le fit = tt
  IsFit-more (character c) room more le fit = tt
  IsFit-more (decimal w) room more le fit = fit
  IsFit-more (unsigned w) room more le fit = fit
  IsFit-more (octal w) room more le fit = fit
  IsFit-more (hexadecimal w) room more le fit = fit
  IsFit-more (text p xs) room more le fit = (fit.0, fit.1, fit.2, omega (arith, fit.3), fit.4)

  module _ (room : ℕ) where
    -- A conversion takes two passes.
    two_passes :
        (p : Piece) (ch : ℕ) (ps : List Piece) (fuel fmt : ℕ)
        → code p ≡ 37 ∷ ch ∷ []
        → IsFit mem room p
        → mem fmt ≡ 37
        → mem (fmt + 1) ≡ ch
        → ((f : ℕ) → length (source ps) + room < f → Prints ps f (fmt + 1 + 1))
        → suc (suc (length (source ps))) + room < fuel
        → Prints (p ∷ ps) fuel fmt
    unfolding joined
    two_passes p ch ps zero fmt e fit at0 at1 ih enough = absurd (omega arith)
    two_passes p ch ps (suc zero) fmt e fit at0 at1 ih enough = absurd (omega arith)
    two_passes p ch ps (suc (suc fuel)) fmt e fit at0 at1 ih enough =
        let (rest, run, rendered) = ih fuel (omega arith) in
        let (out, step, shows) =
          escape_piece texts mem p ch fuel (fmt + 1) (arguments ps) e
            (IsFit-more p room fuel (omega arith) fit) at1 in
        let first =
          act (suc fuel) fmt none (some no_flags) [] (fmt + 1) _ _
            (percent_sign (suc fuel) fmt _ at0) in
        let second = act fuel (fmt + 1) (some no_flags) none out (fmt + 1 + 1) _ _ step in
        joined-Rendered p ps out rest _ (first ∙ nothing_before _ ∙ second ∙ ap (joined out) run)
          shows rendered
      where
        nothing_before : (o : Option (List ℕ)) → joined [] o ≡ o
        nothing_before none = refl
        nothing_before (some out) = refl

    format-Prints :
        (ps : List Piece) (fuel fmt : ℕ)
        → AreFit mem room ps
        → IsString mem fmt (source ps)
        → length (source ps) + room < fuel
        → Prints ps fuel fmt
    unfolding joined
    format-Prints ps zero fmt fits str enough = absurd (omega arith)
    format-Prints [] (suc fuel) fmt fits str enough = ([], act_end fuel fmt str, refl)
    format-Prints (literal c ∷ ps) (suc fuel) fmt fits str enough =
        let (rest, run, rendered) = format-Prints ps fuel (fmt + 1) fits.1 str.2 (omega arith) in
        let step =
          act fuel fmt none none (c ∷ []) (fmt + 1) _ _
            (plain_character fuel fmt c _ str.0 fits.0 str.1) in
        joined-Rendered (literal c) ps (c ∷ []) rest _ (step ∙ ap (joined (c ∷ [])) run) refl
          rendered
    format-Prints (percent ∷ ps) (suc fuel) fmt fits str enough =
        two_passes percent 37 ps (suc fuel) fmt refl fits.0 str.0 str.2.0
          (λ f lt. format-Prints ps f (fmt + 1 + 1) fits.1 str.2.2 lt) enough
    format-Prints (character c ∷ ps) (suc fuel) fmt fits str enough =
        two_passes (character c) 99 ps (suc fuel) fmt refl fits.0 str.0 str.2.0
          (λ f lt. format-Prints ps f (fmt + 1 + 1) fits.1 str.2.2 lt) enough
    format-Prints (decimal w ∷ ps) (suc fuel) fmt fits str enough =
        two_passes (decimal w) 100 ps (suc fuel) fmt refl fits.0 str.0 str.2.0
          (λ f lt. format-Prints ps f (fmt + 1 + 1) fits.1 str.2.2 lt) enough
    format-Prints (unsigned w ∷ ps) (suc fuel) fmt fits str enough =
        two_passes (unsigned w) 117 ps (suc fuel) fmt refl fits.0 str.0 str.2.0
          (λ f lt. format-Prints ps f (fmt + 1 + 1) fits.1 str.2.2 lt) enough
    format-Prints (octal w ∷ ps) (suc fuel) fmt fits str enough =
        two_passes (octal w) 111 ps (suc fuel) fmt refl fits.0 str.0 str.2.0
          (λ f lt. format-Prints ps f (fmt + 1 + 1) fits.1 str.2.2 lt) enough
    format-Prints (hexadecimal w ∷ ps) (suc fuel) fmt fits str enough =
        two_passes (hexadecimal w) 120 ps (suc fuel) fmt refl fits.0 str.0 str.2.0
          (λ f lt. format-Prints ps f (fmt + 1 + 1) fits.1 str.2.2 lt) enough
    format-Prints (text p xs ∷ ps) (suc fuel) fmt fits str enough =
        two_passes (text p xs) 115 ps (suc fuel) fmt refl fits.0 str.0 str.2.0
          (λ f lt. format-Prints ps f (fmt + 1 + 1) fits.1 str.2.2 lt) enough

-- Where a format stands for a list of plain characters, %%, %c, %d, %u, %o, %x and %s, without
-- flags, whose words have 32 bits and whose strings are ASCII, not NULL and shorter than 2 ^ 31:
-- vprintfmt, with fuel for the format and the longest string, returns, and prints piece by piece
-- each character, string and number, a number as digits of the base that stand for it, with a minus
-- sign if it is signed and negative.
pub vprintfmt-Rendered :
    (texts : Texts) (fuel : ℕ) (mem : Memory) (fmt room : ℕ) (pieces : List Piece)
    → IsString mem fmt (source pieces)
    → AreFit mem room pieces
    → length (source pieces) + room < fuel
    → (out : List ℕ) × (vprintfmt texts fuel mem fmt (arguments pieces) ≡ some out)
      × Rendered pieces out
unfolding vprintfmt
vprintfmt-Rendered texts fuel mem fmt room pieces str fits enough =
    format-Prints texts mem room pieces fuel fmt fits str enough
