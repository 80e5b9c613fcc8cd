-- ===== src/Console.antt =====
-- The console's input buffer: jos-lab4/kern/console.c, cons_intr and cons_getc. What a device driver
-- returns before it returns -1 is an argument.
pub mod Queue
use junior_os.Base.{ℕ, ◌+◌, ◌%◌, Bool, List, [], ◌∷◌, ◌==◌, if◌then◌else◌, update}

abbrev pub consbufsize : ℕ
consbufsize = 512

pub record Cons : Type 0 where
  pub buf : ℕ → ℕ
  pub rpos : ℕ
  pub wpos : ℕ

-- `pos++`, and back to 0 at the end of the buffer.
abbrev pub following : ℕ → ℕ
following pos = if pos + 1 == consbufsize then 0 else pos + 1

unfoldable pub cons_intr : List ℕ → Cons → Cons
cons_intr [] s = s
cons_intr (c ∷ cs) s = cons_intr cs (
    if c == 0 then s else record s { buf = update s.buf s.wpos (c % 256); wpos = following s.wpos })

-- The next character, or 0.
take_char : Cons → ℕ × Cons
take_char s =
    if s.rpos == s.wpos then (0, s) else (s.buf s.rpos, record s { rpos = following s.rpos })

unfoldable pub cons_getc : List ℕ → List ℕ → Cons → ℕ × Cons
unfolding cons_intr take_char
cons_getc serial kbd s = take_char (cons_intr kbd (cons_intr serial s))
