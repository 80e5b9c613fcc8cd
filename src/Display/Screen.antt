-- ===== src/Display/Screen.antt =====
-- Where the characters go.
use junior_os.Base.{
  ℕ, ◌+◌, ◌-◌, ◌%◌, ◌<◌, ◌≤◌, ◌≡◌, ◌≢◌, refl, false, List, [], ◌∷◌, ◌==◌, leb, update, update_self,
  update_ne, All, eqb_ne, arith, ◌∙◌, ap, Bool-cases, inl, inr,
}
use junior_os.Display.{
  Crt, attributed, place, scroll, move_cursor, put_plain, space, serial_putc, lpt_putc, cga_putc,
  cons_putc,
}

-- The cursor is on the display, and only cells of it have been written.
pub record OnScreen (s t : Crt) : Type 0 where
  pub cursor : t.crt_pos < 2000
  pub above : (i : ℕ) → 2000 ≤ i → t.crt_buf i ≡ s.crt_buf i

-- The cursor may be behind the last line.
record Placed (s t : Crt) : Type 0 where
  near : t.crt_pos < 2080
  above : (i : ℕ) → 2000 ≤ i → t.crt_buf i ≡ s.crt_buf i

place-Placed : (c : ℕ) (s : Crt) → s.crt_pos < 2000 → Placed s (place c s)
unfolding place
place-Placed c s on = record { near = ground arith; above = λ i h. ground arith }

scroll-OnScreen : (s t : Crt) → Placed s t → OnScreen s (scroll t)
unfolding scroll
scroll-OnScreen s t p = record {
  cursor = ground (arith, p.near);
  above = λ i h. ground (arith, p.above i h);
}

put_plain-OnScreen : (c : ℕ) (s : Crt) → s.crt_pos < 2000 → OnScreen s (put_plain c s)
unfolding put_plain move_cursor
put_plain-OnScreen c s on =
    let o = scroll-OnScreen s (place (attributed c) s) (place-Placed (attributed c) s on) in
    record { cursor = o.cursor; above = o.above }

space-OnScreen : (s t : Crt) → OnScreen s t → OnScreen s (space t)
unfolding space serial_putc lpt_putc
space-OnScreen s t on =
    let o = put_plain-OnScreen 32 (lpt_putc 32 (serial_putc 32 t)) on.cursor in
    record { cursor = o.cursor; above = λ i h. o.above i h ∙ on.above i h }

tab-OnScreen : (s u : Crt) → OnScreen s u → OnScreen s (move_cursor (scroll u))
unfolding move_cursor
tab-OnScreen s u on =
    let o = scroll-OnScreen s u (record { near = omega (arith, on.cursor); above = on.above }) in
    record { cursor = o.cursor; above = o.above }

cga_putc-OnScreen : (c : ℕ) (s : Crt) → s.crt_pos < 2000 → OnScreen s (cga_putc c s)
unfolding cga_putc
cga_putc-OnScreen c s on =
    elim (Bool-cases (attributed c % 256 == 9)) as (λ _. OnScreen s (cga_putc c s)) [
      | inl tab ↦
          let start : OnScreen s s = record { cursor = on; above = λ i h. refl } in
          let five = space-OnScreen s (space (space (space (space s)))) (
            space-OnScreen s (space (space (space s))) (
              space-OnScreen s (space (space s))
                (space-OnScreen s (space s) (space-OnScreen s s start)))) in
          rw tab (tab-OnScreen s (space (space (space (space (space s))))) five)
      | inr plain ↦ rw plain (put_plain-OnScreen c s on)
    ]

-- A character that goes to the display as it is, as an unsigned char or with an attribute.
abbrev pub IsPlain : ℕ → Type 0
IsPlain c =
    (attributed c % 256 ≢ 8)
    × (attributed c % 256 ≢ 9)
    × (attributed c % 256 ≢ 10)
    × (attributed c % 256 ≢ 13)

-- The cells in front of position `pos` hold the characters, the last one first.
abbrev pub IsShown : List ℕ → ℕ → (ℕ → ℕ) → Type 0
IsShown [] pos buf = Unit
IsShown (c ∷ cs) pos buf =
    (0 < pos → buf (pos - 1) ≡ attributed c % 65536) × IsShown cs (pos - 1) buf

IsShown-frame :
    (cs : List ℕ) (pos : ℕ) (f g : ℕ → ℕ)
    → ((i : ℕ) → i < pos → g i ≡ f i)
    → IsShown cs pos f
    → IsShown cs pos g
IsShown-frame [] pos f g same shown = tt
IsShown-frame (c ∷ cs) pos f g same shown = (
  λ h. same (pos - 1) (omega arith) ∙ shown.0 h,
  IsShown-frame cs (pos - 1) f g (λ i h. same i (omega arith)) shown.1,
)

IsShown-scrolled :
    (cs : List ℕ) (pos : ℕ) (f g : ℕ → ℕ)
    → ((i : ℕ) → i + 80 < pos → g i ≡ f (i + 80))
    → IsShown cs pos f
    → IsShown cs (pos - 80) g
IsShown-scrolled [] pos f g same shown = tt
IsShown-scrolled (c ∷ cs) pos f g same shown =
    let e : pos - 80 - 1 ≡ pos - 1 - 80 = omega arith in
    let at : 0 < pos - 80 → pos - 80 - 1 + 80 ≡ pos - 1 = λ h. omega arith in
    (
      λ h. same (pos - 80 - 1) (omega arith) ∙ ap f (at h) ∙ shown.0 (omega arith),
      rw e (IsShown-scrolled cs (pos - 1) f g (λ i h. same i (omega arith)) shown.1),
    )

scroll-IsShown :
    (cs : List ℕ) (s : Crt)
    → s.crt_pos ≤ 2000
    → IsShown cs s.crt_pos s.crt_buf
    → IsShown cs (scroll s).crt_pos (scroll s).crt_buf
unfolding scroll
scroll-IsShown cs s near shown =
    elim (Bool-cases (leb 2000 s.crt_pos))
      as (λ _. IsShown cs (scroll s).crt_pos (scroll s).crt_buf) [
        | inl full ↦ rw full (IsShown-scrolled cs s.crt_pos s.crt_buf _ (λ i h. ground arith) shown)
        | inr room ↦ rw room shown
      ]

place_plain :
    (c : ℕ) (s : Crt)
    → IsPlain c
    → place (attributed c) s ≡ record s {
      crt_pos = (s.crt_pos + 1) % 65536;
      crt_buf = update s.crt_buf s.crt_pos (attributed c % 65536);
    }
unfolding place
place_plain c s plain =
    let back : (attributed c % 256 == 8) ≡ false = eqb_ne _ _ plain.0 in
    let line : (attributed c % 256 == 10) ≡ false = eqb_ne _ _ plain.2 in
    let start : (attributed c % 256 == 13) ≡ false = eqb_ne _ _ plain.3 in
    rw (back, line, start) refl

placed-IsShown :
    (c : ℕ) (cs : List ℕ) (s : Crt)
    → s.crt_pos < 2000
    → IsShown cs s.crt_pos s.crt_buf
    → IsShown (c ∷ cs) ((s.crt_pos + 1) % 65536) (update s.crt_buf s.crt_pos (attributed c % 65536))
placed-IsShown c cs s on shown =
    let e : (s.crt_pos + 1) % 65536 ≡ s.crt_pos + 1 = omega arith in
    let back : s.crt_pos + 1 - 1 ≡ s.crt_pos = omega arith in
    rw (e, back)
      (
        λ h. update_self s.crt_buf s.crt_pos (attributed c % 65536),
        IsShown-frame cs s.crt_pos s.crt_buf (update s.crt_buf s.crt_pos (attributed c % 65536))
            (λ i h. update_ne s.crt_buf s.crt_pos (attributed c % 65536) i (omega arith)) shown,
      )

put_plain-IsShown :
    (c : ℕ) (cs : List ℕ) (s : Crt)
    → s.crt_pos < 2000
    → IsPlain c
    → IsShown cs s.crt_pos s.crt_buf
    → IsShown (c ∷ cs) (put_plain c s).crt_pos (put_plain c s).crt_buf
unfolding put_plain move_cursor
put_plain-IsShown c cs s on plain shown = rw (place_plain c s plain) (
    scroll-IsShown (c ∷ cs)
      (record s {
        crt_pos = (s.crt_pos + 1) % 65536;
        crt_buf = update s.crt_buf s.crt_pos (attributed c % 65536);
      })
      (omega arith) (placed-IsShown c cs s on shown))

cons_putc-IsShown :
    (c : ℕ) (cs : List ℕ) (s : Crt)
    → s.crt_pos < 2000
    → IsPlain c
    → IsShown cs s.crt_pos s.crt_buf
    → IsShown (c ∷ cs) (cons_putc c s).crt_pos (cons_putc c s).crt_buf
unfolding cons_putc cga_putc serial_putc lpt_putc
cons_putc-IsShown c cs s on plain shown =
    let other : (attributed c % 256 == 9) ≡ false = eqb_ne _ _ plain.1 in
    rw other (put_plain-IsShown c cs (lpt_putc c (serial_putc c s)) on plain shown)

-- cputchar of each character of a text.
unfoldable pub put_line : List ℕ → Crt → Crt
unfolding cons_putc
put_line [] s = s
put_line (c ∷ cs) s = put_line cs (cons_putc c s)

abbrev pub behind : List ℕ → List ℕ → List ℕ
behind [] cs = cs
behind (t ∷ text) cs = behind text (t ∷ cs)

cons_putc-OnScreen : (c : ℕ) (s : Crt) → s.crt_pos < 2000 → OnScreen s (cons_putc c s)
unfolding cons_putc serial_putc lpt_putc
cons_putc-OnScreen c s on =
    let o = cga_putc-OnScreen c (lpt_putc c (serial_putc c s)) on in
    record { cursor = o.cursor; above = o.above }

-- With the cursor on the display, cputchar of each character of a text leaves the cursor on the
-- display and writes no cell behind it, whatever the characters are; and if none of them is a
-- backspace, tab, line feed or carriage return, the cells in front of the cursor then hold the
-- text, behind what they held before, as far as the display goes back.
pub put_line-OnScreen :
    (text cs : List ℕ) (s : Crt)
    → s.crt_pos < 2000
    → OnScreen s (put_line text s)
      × (All IsPlain text
          → IsShown cs s.crt_pos s.crt_buf
          → IsShown (behind text cs) (put_line text s).crt_pos (put_line text s).crt_buf)
unfolding put_line
put_line-OnScreen [] cs s on = (record { cursor = on; above = λ i h. refl }, λ plain shown. shown)
put_line-OnScreen (c ∷ text) cs s on =
    let one = cons_putc-OnScreen c s on in
    let (rest, more) = put_line-OnScreen text (c ∷ cs) (cons_putc c s) one.cursor in
    (
      record { cursor = rest.cursor; above = λ i h. rest.above i h ∙ one.above i h },
      λ plain shown. more plain.1 (cons_putc-IsShown c cs s on plain.0 shown),
    )
