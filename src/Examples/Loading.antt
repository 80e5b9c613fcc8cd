-- ===== src/Examples/Loading.antt =====
-- A segment of a program on page 9, which the machine of sixteen pages maps at 4096.
use junior_os.Base.{ℕ, ◌%◌, ◌≡◌, refl, arith}
use junior_os.Kernel.{returns}
use junior_os.UserMemory.{can_store}
use junior_os.UserMemory.Stores.{IsWritable, Stored}
use junior_os.Loader.{Proghdr, fill_segment}
use junior_os.Loader.Segments.{segment_bytes, fill_segment-Stored}
use junior_os.Examples.Machines.{machine}

-- Three bytes in the file, at 0xF0102000, and eight in memory.
abbrev ph : Proghdr
ph = record { p_type = 1; p_offset = 0x2000; p_va = 4112; p_filesz = 3; p_memsz = 8 }

abbrev bytes : ℕ → ℕ
bytes i = i % 256

writable : IsWritable machine 4112 9
unfolding can_store
writable = record { allowed = refl; frame = refl; root = omega arith; table = omega arith }

fill_segment-Stored_example :
    (mem' : ℕ → ℕ → ℕ) × (fill_segment bytes 0xF0100000 ph machine
      ≡ returns tt (record machine { mem = mem' }))
    × Stored 9 16 (segment_bytes bytes 0xF0100000 ph) machine.mem mem'
fill_segment-Stored_example =
    fill_segment-Stored bytes 0xF0100000 9 ph machine (λ i. omega arith) (omega arith) (omega arith)
      (omega arith) writable
