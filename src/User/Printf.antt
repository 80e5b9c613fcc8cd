-- ===== src/User/Printf.antt =====
-- cprintf: jos-lab4/lib/printf.c, whose output goes out by sys_cputs in lines of at most 255 bytes, and
-- kern/printf.c, whose output goes to the console one character at a time.
use junior_os.Base.{
  ℕ, zero, suc, ◌+◌, ◌%◌, ◌<◌, ◌≤◌, ◌≡◌, ◌^◌, refl, Option, none, some, List, [], ◌∷◌, ◌++◌, ◌==◌,
  if◌then◌else◌, update, update_ne, update_self, length, length-append, All, arith, ◌∙◌, ap, sym,
  subst, Bool-cases, inl, inr,
}
use mathlib.Core.List.{append_assoc, append-nil}
use junior_os.Machine.{add32}
use junior_os.Strings.{Memory}
use junior_os.Format.{Texts, vprintfmt}

pub record Printbuf : Type 0 where
  pub idx : ℕ
  pub cnt : ℕ
  pub buf : ℕ → ℕ

-- The first `n` bytes of a buffer.
abbrev pub taken : (ℕ → ℕ) → ℕ → List ℕ
taken buf zero = []
taken buf (suc n) = taken buf n ++ (buf n ∷ [])

-- Beside the buffer, the calls of sys_cputs so far.
unfoldable pub putch : ℕ → Printbuf × List (List ℕ) → Printbuf × List (List ℕ)
putch ch (b, out) =
    let full : Printbuf = record {
      idx = b.idx + 1;
      cnt = add32 b.cnt 1;
      buf = update b.buf b.idx (ch % 256);
    } in
    if b.idx + 1 == 255
    then (record full { idx = 0 }, out ++ (taken full.buf 255 ∷ []))
    else (full, out)

put_text : List ℕ → Printbuf × List (List ℕ) → Printbuf × List (List ℕ)
unfolding putch
put_text [] b = b
put_text (ch ∷ text) b = put_text text (putch ch b)

flushed : Printbuf × List (List ℕ) → List (List ℕ) × ℕ
flushed (b, out) = (out ++ (taken b.buf b.idx ∷ []), b.cnt)

print_text : (ℕ → ℕ) → Option (List ℕ) → Option (List (List ℕ) × ℕ)
unfolding put_text flushed
print_text stack none = none
print_text stack (some text) =
    some (flushed (put_text text (record { idx = 0; cnt = 0; buf = stack }, [])))

-- What the buffer on the stack holds at first is an argument; the answer is the calls of sys_cputs and
-- what is returned.
unfoldable pub vcprintf : Texts → ℕ → (ℕ → ℕ) → ℕ → List ℕ → Memory → Option (List (List ℕ) × ℕ)
unfolding print_text
vcprintf texts fuel stack fmt args mem = print_text stack (vprintfmt texts fuel mem fmt args)

-- The kernel's putch moves the pointer to the count on, and the count stays 0.
pub kernel_print : Option (List ℕ) → Option (List ℕ × ℕ)
kernel_print none = none
kernel_print (some text) = some (text, 0)

unfoldable pub kernel_vcprintf : Texts → ℕ → ℕ → List ℕ → Memory → Option (List ℕ × ℕ)
unfolding kernel_print
kernel_vcprintf texts fuel fmt args mem = kernel_print (vprintfmt texts fuel mem fmt args)

abbrev pub concat : List (List ℕ) → List ℕ
concat [] = []
concat (xs ∷ xss) = xs ++ concat xss

-- What a char keeps of an int.
abbrev pub chars : List ℕ → List ℕ
chars [] = []
chars (c ∷ cs) = c % 256 ∷ chars cs

length-chars : (cs : List ℕ) → length (chars cs) ≡ length cs
length-chars [] = refl
length-chars (c ∷ cs) = ap suc (length-chars cs)

abbrev pub IsLine : List ℕ → Type 0
IsLine line = length line ≤ 255

concat-append : (xss : List (List ℕ)) (ys : List ℕ) → concat (xss ++ (ys ∷ [])) ≡ concat xss ++ ys
concat-append [] ys = append-nil ys
concat-append (xs ∷ xss) ys =
    ap (λ l. xs ++ l) (concat-append xss ys) ∙ sym (append_assoc xs (concat xss) ys)

All-append :
    (xss : List (List ℕ)) (ys : List ℕ) → All IsLine xss → IsLine ys → All IsLine (xss ++ (ys ∷ []))
All-append [] ys all new = (new, tt)
All-append (xs ∷ xss) ys all new = (all.0, All-append xss ys all.1 new)

length-taken : (buf : ℕ → ℕ) (n : ℕ) → length (taken buf n) ≡ n
length-taken buf zero = refl
length-taken buf (suc n) =
    omega (arith, length-append (taken buf n) (buf n ∷ []), length-taken buf n)

taken-update : (buf : ℕ → ℕ) (i c n : ℕ) → n ≤ i → taken (update buf i c) n ≡ taken buf n
taken-update buf i c zero h = refl
taken-update buf i c (suc n) h =
    rw (taken-update buf i c n (omega arith), update_ne buf i c n (omega arith)) refl

-- One more byte behind the first `i`.
taken_next :
    (buf : ℕ → ℕ) (i c : ℕ) (xs : List ℕ)
    → xs ++ taken (update buf i c) (i + 1) ≡ (xs ++ taken buf i) ++ (c ∷ [])
taken_next buf i c xs =
    let e : i + 1 ≡ suc i = omega arith in
    rw (e, taken-update buf i c i (omega arith), update_self buf i c)
      (sym (append_assoc xs (taken buf i) (c ∷ [])))

-- The characters printed so far have gone out, or wait in the buffer.
record Printed (text : List ℕ) (s : Printbuf × List (List ℕ)) : Type 0 where
  small : s.0.idx < 255
  sent : concat s.1 ++ taken s.0.buf s.0.idx ≡ text
  lines : All IsLine s.1
  count : s.0.cnt ≡ length text

putch-Printed :
    (c : ℕ) (text : List ℕ) (s : Printbuf × List (List ℕ))
    → Printed text s
    → length text + 1 < 2 ^ 32
    → Printed (text ++ (c % 256 ∷ [])) (putch c s)
unfolding putch
putch-Printed c text (b, out) p small =
    let stored = update b.buf b.idx (c % 256) in
    let sent =
      taken_next b.buf b.idx (c % 256) (concat out) ∙ ap (λ l. l ++ (c % 256 ∷ [])) p.sent in
    let count : add32 b.cnt 1 ≡ length (text ++ (c % 256 ∷ [])) =
      omega (arith, length-append text (c % 256 ∷ []), p.count) in
    elim (Bool-cases (b.idx + 1 == 255))
      as (λ _. Printed (text ++ (c % 256 ∷ [])) (putch c (b, out))) [
        | inl full ↦
            let last : b.idx + 1 ≡ 255 = ground arith in
            rw full (record {
              small = omega arith;
              sent =
                  append-nil _
                  ∙ concat-append out (taken stored 255)
                  ∙ ap (λ n. concat out ++ taken stored n) (sym last)
                  ∙ sent;
              lines =
                  All-append out (taken stored 255) p.lines
                    (omega (arith, length-taken stored 255));
              count = count;
            })
        | inr room ↦ rw room (record {
          small = ground (arith, p.small);
          sent = sent;
          lines = p.lines;
          count = count;
        })
      ]

put_text-Printed :
    (cs text : List ℕ) (s : Printbuf × List (List ℕ))
    → Printed text s
    → length text + length cs < 2 ^ 32
    → Printed (text ++ chars cs) (put_text cs s)
unfolding put_text
put_text-Printed [] text s p small = subst (λ l. Printed l s) (sym (append-nil text)) p
put_text-Printed (c ∷ cs) text s p small =
    subst (λ l. Printed l (put_text cs (putch c s))) (append_assoc text (c % 256 ∷ []) (chars cs))
      (put_text-Printed cs (text ++ (c % 256 ∷ [])) (putch c s)
        (putch-Printed c text s p (omega arith)) (omega (arith, length-append text (c % 256 ∷ []))))

-- Where vprintfmt prints a text of fewer than 2 ^ 31 characters, the programs' vcprintf makes calls
-- of sys_cputs with at most 255 bytes each, whose bytes in order are the low bytes of the text's
-- characters, and returns the number of the characters.
pub vcprintf_lem :
    (texts : Texts) (fuel : ℕ) (stack : ℕ → ℕ) (fmt : ℕ) (args text : List ℕ) (mem : Memory)
    → vprintfmt texts fuel mem fmt args ≡ some text
    → length text < 2 ^ 31
    → (calls : List (List ℕ)) × (vcprintf texts fuel stack fmt args mem ≡ some (calls, length text))
      × (concat calls ≡ chars text)
      × All IsLine calls
unfolding vcprintf
vcprintf_lem texts fuel stack fmt args text mem run small =
    let p =
      put_text-Printed text [] (record { idx = 0; cnt = 0; buf = stack }, [])
        (record { small = omega arith; sent = refl; lines = tt; count = refl }) (omega arith) in
    let end = put_text text (record { idx = 0; cnt = 0; buf = stack }, []) in
    (
      end.1 ++ (taken end.0.buf end.0.idx ∷ []),
      rw run (
          ap (λ n. some (end.1 ++ (taken end.0.buf end.0.idx ∷ []), n))
            (p.count ∙ length-chars text)),
      concat-append end.1 (taken end.0.buf end.0.idx) ∙ p.sent,
      All-append end.1 (taken end.0.buf end.0.idx) p.lines
          (omega (arith, p.small, length-taken end.0.buf end.0.idx)),
    )
