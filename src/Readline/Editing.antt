-- ===== src/Readline/Editing.antt =====
-- The line that readline returns, and what its echo leaves on the screen.
use junior_os.Base.{
  ℕ, zero, suc, ◌+◌, ◌%◌, ◌^◌, ◌<◌, ◌≤◌, ◌≡◌, ◌≢◌, ◌⊎◌, inl, inr, refl, true, false, ◌&&◌, ◌||◌,
  List, [], ◌∷◌, ◌++◌, ◌==◌, ltb, leb, if◌then◌else◌, update, update_ne, update_self, length, All,
  arith, ◌∙◌, ap, Bool-cases,
}
use junior_os.Readline.{Line, Round, Reading, take_key, read_keys, readline}

-- The text behind the cursor, its last character first, and a key that is typed.
abbrev pub rest_of : List ℕ → List ℕ
rest_of [] = []
rest_of (c ∷ cs) = cs

unfoldable pub type_key : ℕ → List ℕ → List ℕ
type_key c text =
    if (c == 8 || c == 0x7f) && ltb 0 (length text)
    then rest_of text
    else if leb 32 c && ltb (length text) 1023
    then c % 256 ∷ text
    else text

unfoldable pub typed : List ℕ → List ℕ → List ℕ
unfolding type_key
typed [] text = text
typed (c ∷ cs) text = typed cs (type_key c text)

-- What is on the screen after some output, the last character first.
abbrev pub shown : List ℕ → List ℕ → List ℕ
shown [] text = text
shown (c ∷ cs) text = shown cs (if c == 8 then rest_of text else c % 256 ∷ text)

-- The first `n` bytes of a buffer, the last one first.
abbrev pub taken : (ℕ → ℕ) → ℕ → List ℕ
taken buf zero = []
taken buf (suc n) = buf n ∷ taken buf n

-- A key that ends neither the line nor the input.
abbrev pub IsInner : ℕ → Type 0
IsInner c = (c < 2 ^ 31) × (c ≢ 10) × (c ≢ 13)

-- The buffer holds the text, and only the first 1024 bytes have been written.
record Holds (buf : ℕ → ℕ) (text : List ℕ) (line : Line) : Type 0 where
  count : line.i ≡ length text
  room : length text ≤ 1023
  bytes : taken line.buf (length text) ≡ text
  above : (j : ℕ) → 1024 ≤ j → line.buf j ≡ buf j

taken-update : (buf : ℕ → ℕ) (i c n : ℕ) → n ≤ i → taken (update buf i c) n ≡ taken buf n
taken-update buf i c zero h = refl
taken-update buf i c (suc n) h =
    rw (taken-update buf i c n (omega arith), update_ne buf i c n (omega arith)) refl

-- One key: where the next line holds `text'`, and the echo shows it.
abbrev Stepped : (ℕ → ℕ) → ℕ → List ℕ → Line → List ℕ → Type 0
Stepped buf c text line text' =
    (next : Line) × (echo : List ℕ) × (take_key true c line ≡ Round.again next echo)
    × Holds buf text' next
    × ((xs : List ℕ) → shown (echo ++ xs) text ≡ shown xs text')

erase :
    (buf : ℕ → ℕ) (c : ℕ) (text : List ℕ) (line : Line)
    → Holds buf text line
    → IsInner c
    → ((c == 8 || c == 0x7f) && ltb 0 (length text)) ≡ true
    → Stepped buf c text line (rest_of text)
unfolding take_key
erase buf c [] line h inner key = absurd (ground (arith, key))
erase buf c (x ∷ text) line h inner key =
    let valid : leb 0x80000000 c ≡ false = ground (arith, inner) in
    (
      record line { i = length text },
      8 ∷ [],
      rw (valid, h.count, key)
          (ap (λ n. Round.again (record line { i = n }) (8 ∷ [])) (omega arith)),
      record {
        count = refl;
        room = omega (arith, h.room);
        bytes = ap rest_of h.bytes;
        above = h.above;
      },
      λ xs. refl,
    )

insert :
    (buf : ℕ → ℕ) (c : ℕ) (text : List ℕ) (line : Line)
    → Holds buf text line
    → IsInner c
    → ((c == 8 || c == 0x7f) && ltb 0 (length text)) ≡ false
    → (leb 32 c && ltb (length text) 1023) ≡ true
    → Stepped buf c text line (c % 256 ∷ text)
unfolding take_key
insert buf c text line h inner key room =
    let valid : leb 0x80000000 c ≡ false = ground (arith, inner) in
    let char : (c == 8) ≡ false = ground arith in
    let small : length text < 1023 = ground arith in
    (
      record { i = length text + 1; buf = update line.buf (length text) (c % 256) },
      c ∷ [],
      rw (valid, h.count, key, room) refl,
      record {
        count = omega arith;
        room = omega arith;
        bytes =
            rw
              (
                taken-update line.buf (length text) (c % 256) (length text) (omega arith),
                h.bytes,
                update_self line.buf (length text) (c % 256),
              )
              refl;
        above = λ j high. ground (arith, h.above j high);
      },
      λ xs. ap (λ b. shown xs (if b then rest_of text else c % 256 ∷ text)) char,
    )

other :
    (buf : ℕ → ℕ) (c : ℕ) (text : List ℕ) (line : Line)
    → Holds buf text line
    → IsInner c
    → ((c == 8 || c == 0x7f) && ltb 0 (length text)) ≡ false
    → (leb 32 c && ltb (length text) 1023) ≡ false
    → Stepped buf c text line text
unfolding take_key
other buf c text line h inner key room =
    let valid : leb 0x80000000 c ≡ false = ground (arith, inner) in
    let inside : (c == 10 || c == 13) ≡ false = ground (arith, inner) in
    (line, [], rw (valid, h.count, key, room, inside) refl, h, λ xs. refl)

take_key-Stepped :
    (buf : ℕ → ℕ) (c : ℕ) (text : List ℕ) (line : Line)
    → Holds buf text line
    → IsInner c
    → Stepped buf c text line (type_key c text)
unfolding type_key
take_key-Stepped buf c text line h inner =
    elim (Bool-cases ((c == 8 || c == 0x7f) && ltb 0 (length text)))
      as (λ _. Stepped buf c text line (type_key c text)) [
        | inl back ↦ rw back (erase buf c text line h inner back)
        | inr char ↦
            rw char
              (elim (Bool-cases (leb 32 c && ltb (length text) 1023))
                as (λ _.
                  Stepped buf c text line
                    (if leb 32 c && ltb (length text) 1023 then c % 256 ∷ text else text)) [
                      | inl room ↦ rw room (insert buf c text line h inner char room)
                      | inr full ↦ rw full (other buf c text line h inner char full)
                    ])
      ]

-- What a line that is ended comes to.
pub record Done (buf : ℕ → ℕ) (text rest : List ℕ) (screen : List ℕ) (r : Reading × List ℕ)
    : Type 0 where
  pub line : ℕ → ℕ
  pub result : r.0 ≡ Reading.done line rest
  pub bytes : taken line (length text) ≡ text
  pub end : line (length text) ≡ 0
  pub room : length text ≤ 1023
  pub above : (j : ℕ) → 1024 ≤ j → line j ≡ buf j
  pub screen_shows : shown r.1 screen ≡ 10 ∷ text

read_end :
    (buf : ℕ → ℕ) (c : ℕ) (rest text : List ℕ) (line : Line)
    → Holds buf text line
    → (c ≡ 10) ⊎ (c ≡ 13)
    → Done buf text rest text (read_keys true (c ∷ rest) line)
unfolding read_keys take_key
read_end buf c rest text line h end =
    let valid : leb 0x80000000 c ≡ false = ground arith in
    let key : ((c == 8 || c == 0x7f) && ltb 0 line.i) ≡ false = ground arith in
    let room : (leb 32 c && ltb line.i 1023) ≡ false = ground arith in
    let last : (c == 10 || c == 13) ≡ true = ground arith in
    rw (read_keys, valid, key, room, last)
      (record {
        line = update line.buf line.i 0;
        result = refl;
        bytes =
            rw (h.count, taken-update line.buf (length text) 0 (length text) (omega arith)) h.bytes;
        end = ground (arith, h.count);
        room = h.room;
        above = λ j high. ground (arith, h.above j high, h.count, h.room);
        screen_shows = refl;
      })

read_again :
    (k : ℕ) (ks : List ℕ) (line next : Line) (echo : List ℕ)
    → take_key true k line ≡ Round.again next echo
    → read_keys true (k ∷ ks) line
      ≡ ((read_keys true ks next).0, echo ++ (read_keys true ks next).1)
unfolding read_keys
read_again k ks line next echo run = rw (read_keys, run) refl

read_keys-Done :
    (keys : List ℕ) (buf : ℕ → ℕ) (c : ℕ) (rest text : List ℕ) (line : Line)
    → Holds buf text line
    → All IsInner keys
    → (c ≡ 10) ⊎ (c ≡ 13)
    → Done buf (typed keys text) rest text (read_keys true (keys ++ (c ∷ rest)) line)
unfolding typed
read_keys-Done [] buf c rest text line h inner end = read_end buf c rest text line h end
read_keys-Done (k ∷ keys) buf c rest text line h inner end =
    let (next, echo, run, held, screen) = take_key-Stepped buf k text line h inner.0 in
    let d = read_keys-Done keys buf c rest (type_key k text) next held inner.1 end in
    rw (read_again k (keys ++ (c ∷ rest)) line next echo run) (record {
      line = d.line;
      result = d.result;
      bytes = d.bytes;
      end = d.end;
      room = d.room;
      above = d.above;
      screen_shows = screen (read_keys true (keys ++ (c ∷ rest)) next).1 ∙ d.screen_shows;
    })

-- With echo, for keys that are neither errors nor line ends and then a line end, readline returns
-- the buffer, which holds the text that the keys leave when a backspace or delete takes back the
-- last character, control characters and those behind the 1023rd are dropped and any other is put
-- at the end, with a NUL behind it; no byte from 1024 on is written, the input behind the line end
-- is left, and the echo leaves that text and a line end on the screen.
pub readline-Done :
    (buf : ℕ → ℕ) (keys : List ℕ) (c : ℕ) (rest : List ℕ)
    → All IsInner keys
    → (c ≡ 10) ⊎ (c ≡ 13)
    → Done buf (typed keys []) rest [] (readline true buf (keys ++ (c ∷ rest)))
unfolding readline
readline-Done buf keys c rest inner end =
    read_keys-Done keys buf c rest [] (record { i = 0; buf = buf })
      (record { count = refl; room = omega arith; bytes = refl; above = λ j high. refl }) inner end
