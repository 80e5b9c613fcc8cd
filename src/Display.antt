-- ===== src/Display.antt =====
-- Console output: jos-lab4/kern/console.c, cons_putc with serial_putc, lpt_putc and cga_putc. The loops that
-- wait for a device end by themselves and are left out.
pub mod Screen
use junior_os.Base.{
  ℕ, zero, suc, ◌+◌, ◌-◌, ◌*◌, ◌/◌, ◌%◌, Bool, true, false, List, [], ◌∷◌, ◌==◌, ltb, leb,
  if◌then◌else◌, update, bit_or,
}

abbrev pub crt_cols : ℕ
crt_cols = 80

abbrev pub crt_size : ℕ
crt_size = 2000

-- The cells of the display and the cursor; what the devices have been given, the last byte first; and the
-- writes to the display's ports, the last one first.
pub record Crt : Type 0 where
  pub crt_buf : ℕ → ℕ
  pub crt_pos : ℕ
  pub addr_6845 : ℕ
  pub serial : List ℕ
  pub printer : List ℕ
  pub ports : List (ℕ × ℕ)

-- A character without an attribute is white on black.
abbrev pub attributed : ℕ → ℕ
attributed c = if c / 256 == 0 then bit_or c 0x0700 else c

-- The switch of cga_putc, but for tabs.
unfoldable pub place : ℕ → Crt → Crt
place c s =
    if c % 256 == 8
    then (if ltb 0 s.crt_pos
        then record s {
          crt_pos = s.crt_pos - 1;
          crt_buf = update s.crt_buf (s.crt_pos - 1) (bit_or (c / 256 * 256) 32 % 65536);
        }
        else s)
    else if c % 256 == 10
    then (let next = (s.crt_pos + crt_cols) % 65536 in
        record s { crt_pos = next - next % crt_cols })
    else if c % 256 == 13
    then record s { crt_pos = s.crt_pos - s.crt_pos % crt_cols }
    else record s {
      crt_pos = (s.crt_pos + 1) % 65536;
      crt_buf = update s.crt_buf s.crt_pos (c % 65536);
    }

-- The lines move up by one where the cursor is behind the last one.
unfoldable pub scroll : Crt → Crt
scroll s =
    if leb crt_size s.crt_pos
    then record s {
      crt_buf = λ i.
          if ltb i (crt_size - crt_cols)
          then s.crt_buf (i + crt_cols)
          else if ltb i crt_size
          then 0x0720
          else s.crt_buf i;
      crt_pos = s.crt_pos - crt_cols;
    }
    else s

move_cursor : Crt → Crt
move_cursor s = record s {
  ports =
      (s.addr_6845 + 1, s.crt_pos % 256)
      ∷ (s.addr_6845, 15)
      ∷ (s.addr_6845 + 1, s.crt_pos / 256)
      ∷ (s.addr_6845, 14)
      ∷ s.ports;
}

serial_putc : ℕ → Crt → Crt
serial_putc c s = record s { serial = c % 256 ∷ s.serial }

lpt_putc : ℕ → Crt → Crt
lpt_putc c s = record s { printer = c % 256 ∷ s.printer }

-- cga_putc and cons_putc of anything but a tab.
unfoldable pub put_plain : ℕ → Crt → Crt
unfolding place scroll move_cursor
put_plain c s = move_cursor (scroll (place (attributed c) s))

space : Crt → Crt
unfolding put_plain serial_putc lpt_putc
space s = put_plain 32 (lpt_putc 32 (serial_putc 32 s))

unfoldable pub cga_putc : ℕ → Crt → Crt
unfolding put_plain space
cga_putc c s =
    if attributed c % 256 == 9
    then move_cursor (scroll (space (space (space (space (space s))))))
    else put_plain c s

unfoldable pub cons_putc : ℕ → Crt → Crt
unfolding cga_putc serial_putc lpt_putc
cons_putc c s = cga_putc c (lpt_putc c (serial_putc c s))
