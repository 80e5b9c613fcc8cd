-- ===== src/Readline.antt =====
-- Line input: jos-lab4/lib/readline.c. What getchar returns is an argument, a list of ints; the prompt is
-- left to the caller, and so is the message that a failed read prints.
pub mod Editing
use junior_os.Base.{
  ℕ, zero, suc, ◌+◌, ◌-◌, ◌%◌, Bool, true, false, ◌&&◌, ◌||◌, List, [], ◌∷◌, ◌++◌, ◌==◌, ltb, leb,
  if◌then◌else◌, update,
}

abbrev pub buflen : ℕ
buflen = 1024

-- The line that is typed: `i`, and the buffer.
pub record Line : Type 0 where
  pub i : ℕ
  pub buf : ℕ → ℕ

-- One round of the loop: it goes on, with what cputchar prints; the read has failed; or it returns.
pub data Round : Type 0 where
  again : (line : Line) → (echo : List ℕ) → Round
  fails : (c : ℕ) → Round
  returns : (buf : ℕ → ℕ) → (echo : List ℕ) → Round

abbrev echoed : Bool → ℕ → List ℕ
echoed echoing c = if echoing then c ∷ [] else []

unfoldable pub take_key : Bool → ℕ → Line → Round
take_key echoing c line =
    if leb 0x80000000 c
    then fails c
    else if (c == 8 || c == 0x7f) && ltb 0 line.i
    then again (record line { i = line.i - 1 }) (echoed echoing 8)
    else if leb 32 c && ltb line.i (buflen - 1)
    then again (record { i = line.i + 1; buf = update line.buf line.i (c % 256) })
        (echoed echoing c)
    else if c == 10 || c == 13
    then returns (update line.buf line.i 0) (echoed echoing 10)
    else again line []

-- What readline comes to: more input is wanted, NULL, or the buffer and the input that is left.
pub data Reading : Type 0 where
  waiting : (line : Line) → Reading
  failed : (c : ℕ) → Reading
  done : (buf : ℕ → ℕ) → (rest : List ℕ) → Reading

unfoldable pub read_keys : Bool → List ℕ → Line → Reading × List ℕ
unfolding take_key
read_keys echoing [] line = (waiting line, [])
read_keys echoing (c ∷ cs) line = elim (take_key echoing c line) [
  | again next echo ↦ (let rest = read_keys echoing cs next in (rest.0, echo ++ rest.1))
  | fails e ↦ (failed e, [])
  | returns buf echo ↦ (done buf cs, echo)
]

-- `buf` is what the static buffer holds.
unfoldable pub readline : Bool → (buf : ℕ → ℕ) → List ℕ → Reading × List ℕ
unfolding read_keys
readline echoing buf keys = read_keys echoing keys (record { i = 0; buf = buf })
