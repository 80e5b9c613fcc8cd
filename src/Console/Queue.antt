-- ===== src/Console/Queue.antt =====
-- The input buffer as a queue.
use junior_os.Base.{
  ℕ, ◌+◌, ◌%◌, ◌<◌, ◌≤◌, ◌≡◌, ◌≢◌, refl, true, false, List, [], ◌∷◌, ◌++◌, ◌==◌, if◌then◌else◌,
  update, length, length-append, arith, Bool-cases, inl, inr, subst, sym,
}
use mathlib.Core.List.{append_assoc, append-nil}
use junior_os.Console.{Cons, following, cons_intr, take_char, cons_getc}

-- From position `pos` on the buffer holds the characters.
abbrev pub HoldsFrom : (ℕ → ℕ) → ℕ → List ℕ → Type 0
HoldsFrom buf pos [] = Unit
HoldsFrom buf pos (x ∷ xs) = (buf pos ≡ x) × HoldsFrom buf (following pos) xs

-- The characters that wait in the buffer, the oldest first.
pub record IsQueue (s : Cons) (xs : List ℕ) : Type 0 where
  pub start : s.rpos < 512
  pub room : length xs < 512
  pub end : s.wpos ≡ (s.rpos + length xs) % 512
  pub chars : HoldsFrom s.buf s.rpos xs

-- The characters of the input that are kept: all but NULs, as bytes.
unfoldable pub kept : List ℕ → List ℕ
kept [] = []
kept (c ∷ cs) = let rest = kept cs in if c == 0 then rest else c % 256 ∷ rest

HoldsFrom-append :
    (buf : ℕ → ℕ) (pos w c : ℕ) (xs : List ℕ)
    → pos < 512
    → length xs < 512
    → w ≡ (pos + length xs) % 512
    → HoldsFrom buf pos xs
    → HoldsFrom (update buf w c) pos (xs ++ c ∷ [])
HoldsFrom-append buf pos w c [] lt room end holds = (ground arith, tt)
HoldsFrom-append buf pos w c (x ∷ xs) lt room end holds =
    let other : w ≢ pos = omega arith in
    (
      ground (arith, holds.0),
      HoldsFrom-append buf (following pos) w c xs (ground arith) (omega arith) (ground arith)
          holds.1,
    )

put_one :
    (s : Cons) (xs : List ℕ) (c : ℕ)
    → IsQueue s xs
    → length xs + 1 < 512
    → IsQueue (record s { buf = update s.buf s.wpos c; wpos = following s.wpos }) (xs ++ c ∷ [])
put_one s xs c q room = record {
  start = q.start;
  room = omega (arith, length-append xs (c ∷ []));
  end = ground (arith, q.end, q.start, length-append xs (c ∷ []));
  chars = HoldsFrom-append s.buf s.rpos s.wpos c xs q.start q.room q.end q.chars;
}

cons_intr-IsQueue :
    (cs : List ℕ) (s : Cons) (xs : List ℕ)
    → IsQueue s xs
    → length xs + length (kept cs) < 512
    → IsQueue (cons_intr cs s) (xs ++ kept cs)
unfolding cons_intr kept
cons_intr-IsQueue [] s xs q room = subst (λ l. IsQueue s l) (sym (append-nil xs)) q
cons_intr-IsQueue (c ∷ cs) s xs q room =
    elim (Bool-cases (c == 0)) as (λ _. IsQueue (cons_intr (c ∷ cs) s) (xs ++ kept (c ∷ cs))) [
      | inl nul ↦ rw nul (cons_intr-IsQueue cs s xs q (omega (arith, smaller nul)))
      | inr char ↦
          let small : length xs + 1 + length (kept cs) < 512 = bigger char in
          rw char (
            subst
              (λ l.
                IsQueue
                  (cons_intr cs
                    (record s { buf = update s.buf s.wpos (c % 256); wpos = following s.wpos }))
                  l)
              (append_assoc xs (c % 256 ∷ []) (kept cs))
              (cons_intr-IsQueue cs
                (record s { buf = update s.buf s.wpos (c % 256); wpos = following s.wpos })
                (xs ++ c % 256 ∷ []) (put_one s xs (c % 256) q (omega arith))
                (omega (arith, length-append xs (c % 256 ∷ [])))))
    ]
  where
    smaller : (c == 0) ≡ true → length (kept cs) ≤ length (kept (c ∷ cs))
    smaller nul = rw nul (omega arith)

    bigger : (c == 0) ≡ false → length xs + 1 + length (kept cs) < 512
    bigger char = ground arith

-- The first character and the rest of the queue.
abbrev pub first_of : List ℕ → ℕ
first_of [] = 0
first_of (x ∷ xs) = x

abbrev pub rest_of : List ℕ → List ℕ
rest_of [] = []
rest_of (x ∷ xs) = xs

take_char-IsQueue :
    (s : Cons) (xs : List ℕ)
    → IsQueue s xs
    → ((take_char s).0 ≡ first_of xs) × IsQueue (take_char s).1 (rest_of xs)
unfolding take_char
take_char-IsQueue s [] q =
    let empty : (s.rpos == s.wpos) ≡ true = ground (arith, q.end, q.start) in rw empty (refl, q)
take_char-IsQueue s (x ∷ xs) q =
    let some : (s.rpos == s.wpos) ≡ false = ground (arith, q.end, q.start, q.room) in
    rw some (
      q.chars.0,
      record {
        start = ground (arith, q.start);
        room = omega (arith, q.room);
        end = ground (arith, q.end, q.start);
        chars = q.chars.1;
      },
    )

-- The console's input buffer is a queue: where its characters and those that the serial port and
-- the keyboard now deliver, without NULs, are fewer than 512, cons_getc returns the oldest of them,
-- or 0 if there is none, and the others stay in the buffer, in the order in which they came.
pub cons_getc-IsQueue :
    (s : Cons) (xs serial kbd : List ℕ)
    → IsQueue s xs
    → length xs + length (kept serial) + length (kept kbd) < 512
    → ((cons_getc serial kbd s).0 ≡ first_of (xs ++ kept serial ++ kept kbd))
      × IsQueue (cons_getc serial kbd s).1 (rest_of (xs ++ kept serial ++ kept kbd))
unfolding cons_getc
cons_getc-IsQueue s xs serial kbd q room =
    take_char-IsQueue (cons_intr kbd (cons_intr serial s)) (xs ++ kept serial ++ kept kbd) (
      cons_intr-IsQueue kbd (cons_intr serial s) (xs ++ kept serial)
        (cons_intr-IsQueue serial s xs q (omega arith))
        (omega (arith, length-append xs (kept serial))))
