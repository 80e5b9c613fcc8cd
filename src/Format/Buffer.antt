-- ===== src/Format/Buffer.antt =====
-- Output into a buffer: jos-lab4/lib/printfmt.c, sprintputch and vsnprintf.
use junior_os.Base.{
  ℕ, zero, suc, ◌+◌, ◌-◌, ◌%◌, ◌^◌, ◌<◌, ◌≤◌, ◌≡◌, ◌⊎◌, ◌≢◌, refl, true, false, ◌||◌, Option, none,
  some, List, [], ◌∷◌, ◌==◌, ltb, if◌then◌else◌, update, length, arith, ◌∙◌, ap, subst, sym,
}
use junior_os.Machine.{word, add32}
use junior_os.Strings.{Memory}
use junior_os.Strings.Blocks.{in_block}
use junior_os.Format.{Texts, is_negative, vprintfmt}

pub record Sprintbuf : Type 0 where
  pub buf : ℕ
  pub ebuf : ℕ
  pub cnt : ℕ

sprintputch : ℕ → Sprintbuf → Memory → Sprintbuf × Memory
sprintputch ch b mem =
    if ltb b.buf b.ebuf
    then (record b { cnt = add32 b.cnt 1; buf = b.buf + 1 }, update mem b.buf (ch % 256))
    else (record b { cnt = add32 b.cnt 1 }, mem)

put_all : List ℕ → Sprintbuf → Memory → Sprintbuf × Memory
unfolding sprintputch
put_all [] b mem = (b, mem)
put_all (ch ∷ out) b mem = let next = sprintputch ch b mem in put_all out next.0 next.1

terminated : Sprintbuf × Memory → Memory × ℕ
terminated (b, mem) = (update mem b.buf 0, b.cnt)

into_buffer : ℕ → ℕ → Memory → Option (List ℕ) → Option (Memory × ℕ)
unfolding put_all terminated
into_buffer buf n mem none = none
into_buffer buf n mem (some out) =
    some (terminated (put_all out (record { buf = buf; ebuf = buf + n - 1; cnt = 0 }) mem))

-- For a buffer that overlaps nothing that vprintfmt reads: it is given the memory from before the call. The
-- answer is the memory and the int that is returned.
unfoldable pub vsnprintf : Texts → ℕ → ℕ → ℕ → ℕ → List ℕ → Memory → Option (Memory × ℕ)
unfolding into_buffer
vsnprintf texts fuel buf n fmt args mem =
    if buf == 0 || (n == 0 || is_negative n)
    then some (mem, word - 3)
    else into_buffer buf n mem (vprintfmt texts fuel mem fmt args)

-- Character `k` of a list; 0 behind its end.
abbrev pub char_at : List ℕ → ℕ → ℕ
char_at [] k = 0
char_at (c ∷ cs) zero = c
char_at (c ∷ cs) (suc k) = char_at cs k

-- The characters for which there is room.
abbrev pub fitting : ℕ → List ℕ → ℕ
fitting room out = if ltb room (length out) then room else length out

-- The characters for which there is room are in the buffer, and all of them are counted.
record Put (out : List ℕ) (b : Sprintbuf) (mem : Memory) (room : ℕ) (r : Sprintbuf × Memory)
    : Type 0 where
  count : r.0.cnt ≡ b.cnt + length out
  next : r.0.buf ≡ b.buf + fitting room out
  bytes :
      (i : ℕ)
      → r.1 i
        ≡ (if in_block b.buf (fitting room out) i then char_at out (i - b.buf) % 256 else mem i)

full_eq :
    (ch : ℕ) (b : Sprintbuf) (mem : Memory)
    → ltb b.buf b.ebuf ≡ false
    → sprintputch ch b mem ≡ (record b { cnt = add32 b.cnt 1 }, mem)
unfolding sprintputch
full_eq ch b mem full = rw full refl

room_eq :
    (ch : ℕ) (b : Sprintbuf) (mem : Memory)
    → ltb b.buf b.ebuf ≡ true
    → sprintputch ch b mem
      ≡ (record b { cnt = add32 b.cnt 1; buf = b.buf + 1 }, update mem b.buf (ch % 256))
unfolding sprintputch
room_eq ch b mem more = rw more refl

-- One character of the list, further on.
char_at_suc : (ch : ℕ) (out : List ℕ) (k : ℕ) → 0 < k → char_at (ch ∷ out) k ≡ char_at out (k - 1)
char_at_suc ch out zero pos = absurd (omega arith)
char_at_suc ch out (suc k) pos = let e : k ≡ suc k - 1 = omega arith in ap (char_at out) e

put_all-Put :
    (out : List ℕ) (b : Sprintbuf) (mem : Memory) (room : ℕ)
    → b.ebuf ≡ b.buf + room
    → b.cnt + length out < 2 ^ 32
    → Put out b mem room (put_all out b mem)
unfolding put_all
put_all-Put [] b mem room e small = record {
  count = omega arith;
  next = ground arith;
  bytes = λ i. ground arith;
}
put_all-Put (ch ∷ out) b mem zero e small =
    let p = put_all-Put out (record b { cnt = add32 b.cnt 1 }) mem zero e (omega arith) in
    subst (λ (n : Sprintbuf × Memory). Put (ch ∷ out) b mem zero (put_all out n.0 n.1))
      (sym (full_eq ch b mem (ground arith)))
      (record {
        count = omega (arith, p.count);
        next = ground (arith, p.next);
        bytes = λ i. p.bytes i ∙ ground arith;
      })
put_all-Put (ch ∷ out) b mem (suc room) e small =
    let p =
      put_all-Put out (record b { cnt = add32 b.cnt 1; buf = b.buf + 1 })
        (update mem b.buf (ch % 256)) room (omega (arith, e)) (omega arith) in
    subst (λ (n : Sprintbuf × Memory). Put (ch ∷ out) b mem (suc room) (put_all out n.0 n.1))
      (sym (room_eq ch b mem (ground arith)))
      (record {
        count = omega (arith, p.count);
        next = ground (arith, p.next);
        bytes = λ i. p.bytes i ∙ ground (arith, char_at_suc ch out (i - b.buf));
      })

-- For a buffer that is not NULL, of `n` bytes with 0 < n < 2 ^ 31, where vprintfmt prints the same
-- fewer than 2 ^ 31 characters whatever the buffer's bytes are, vsnprintf stores as many of them as
-- `n - 1` bytes hold and a NUL behind them, changes no other byte, and returns how many were
-- printed.
pub vsnprintf_lem :
    (texts : Texts) (fuel buf n fmt : ℕ) (args out : List ℕ) (mem : Memory)
    → buf ≢ 0
    → 0 < n
    → n < 2 ^ 31
    → ((m : Memory)
        → ((i : ℕ) → (i < buf) ⊎ (buf + n ≤ i) → m i ≡ mem i)
        → vprintfmt texts fuel m fmt args ≡ some out)
    → length out < 2 ^ 31
    → (mem' : Memory) × (vsnprintf texts fuel buf n fmt args mem ≡ some (mem', length out))
      × ((i : ℕ)
          → mem' i ≡ (
              if i == buf + fitting (n - 1) out
              then 0
              else if in_block buf (fitting (n - 1) out) i
              then char_at out (i - buf) % 256
              else mem i))
unfolding vsnprintf
vsnprintf_lem texts fuel buf n fmt args out mem ne pos small run short =
    let start : Sprintbuf = record { buf = buf; ebuf = buf + n - 1; cnt = 0 } in
    let p = put_all-Put out start mem (n - 1) (omega arith) (omega arith) in
    let count : (put_all out start mem).0.cnt ≡ length out = omega (arith, p.count) in
    let valid : (buf == 0 || (n == 0 || is_negative n)) ≡ false = ground arith in
    (
      update (put_all out start mem).1 (put_all out start mem).0.buf 0,
      rw (valid, run mem (λ i beside. refl))
          (ap (λ c. some (update (put_all out start mem).1 (put_all out start mem).0.buf 0, c))
            count),
      λ i. ground (arith, p.next, p.bytes i),
    )
