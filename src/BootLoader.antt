-- ===== src/BootLoader.antt =====
-- The boot loader: jos-lab4/boot/main.c. The disk is a family of sectors of 512 bytes, which the IDE
-- controller delivers by a sector number of 28 bits; physical memory is a family of bytes.
pub mod Sectors
use junior_os.Base.{
  ℕ, zero, suc, ◌+◌, ◌-◌, ◌*◌, ◌/◌, ◌%◌, ◌^◌, Bool, true, false, ◌&&◌, Option, none, some, ◌==◌,
  ltb, leb, if◌then◌else◌, update,
}
use junior_os.Machine.{word, add32}
use junior_os.Strings.{Memory}
use junior_os.Loader.{word_at, half_at, elf_magic}

abbrev pub Disk : Type 0
Disk = ℕ → ℕ → ℕ

abbrev pub sectsize : ℕ
sectsize = 512

pub readsect : Disk → ℕ → ℕ → Memory → Memory
readsect disk dst offset mem i =
    if leb dst i && ltb i (dst + sectsize) then disk (offset % 2 ^ 28) (i - dst) else mem i

-- The loop of readseg; `rounds` bounds it.
unfoldable pub read_sectors : Disk → ℕ → (pa end_pa offset : ℕ) → Memory → Memory
unfolding readsect
read_sectors disk zero pa end_pa offset mem = mem
read_sectors disk (suc rounds) pa end_pa offset mem =
    if ltb pa end_pa
    then read_sectors disk rounds (add32 pa sectsize) end_pa (add32 offset 1)
        (readsect disk pa offset mem)
    else mem

unfoldable pub readseg : Disk → (pa count offset : ℕ) → Memory → Memory
unfolding read_sectors
readseg disk pa count offset mem =
    read_sectors disk (count / sectsize + 2) (pa - pa % sectsize) (add32 pa count)
      (offset / sectsize + 1) mem

-- The bytes from p_filesz on; the header at `ph` is read again in each round.
unfoldable pub clear_rest : ℕ → ℕ → ℕ → Memory → Option Memory
clear_rest zero ph i mem = none
clear_rest (suc fuel) ph i mem =
    if ltb i ((word_at mem (ph + 20) + (word - word_at mem (ph + 16))) % word)
    then clear_rest fuel ph (i + 1)
        (update mem (add32 (word_at mem (ph + 12) + word_at mem (ph + 16)) i) 0)
    else some mem

-- One segment.
unfoldable pub read_segment : Disk → ℕ → ℕ → Memory → Option Memory
unfolding readseg clear_rest
read_segment disk fuel ph mem =
    clear_rest fuel ph 0
      (readseg disk (word_at mem (ph + 12)) (word_at mem (ph + 20)) (word_at mem (ph + 4)) mem)

unfoldable pub read_segments : Disk → ℕ → (headers ph : ℕ) → Memory → Option Memory
unfolding read_segment
read_segments disk fuel zero ph mem = some mem
read_segments disk fuel (suc headers) ph mem = elim (read_segment disk fuel ph mem) [
  | none ↦ none
  | some m ↦ read_segments disk fuel headers (ph + 32) m
]

-- What bootmain ends in: a jump to the kernel, or an endless loop.
pub data Booted : Type 0 where
  enters : (entry : ℕ) → (mem : Memory) → Booted
  bad : (mem : Memory) → Booted

abbrev pub elfhdr : ℕ
elfhdr = 0x10000

entered : Option Memory → Option Booted
entered none = none
entered (some mem) = some (enters (word_at mem (elfhdr + 24)) mem)

unfoldable pub bootmain : Disk → ℕ → Memory → Option Booted
unfolding readseg read_segments entered
bootmain disk fuel start =
    let mem = readseg disk elfhdr (sectsize * 8) 0 start in
    if word_at mem elfhdr == elf_magic
    then entered (
        read_segments disk fuel (half_at mem (elfhdr + 44))
          (add32 elfhdr (word_at mem (elfhdr + 28))) mem)
    else some (bad mem)
