-- ===== src/Examples/Devices.antt =====
-- Small inputs for the drivers, the boot loader and the search for processors.
use junior_os.Base.{
  ℕ, ◌+◌, ◌-◌, ◌*◌, ◌/◌, ◌%◌, ◌<◌, ◌≤◌, ◌≡◌, ◌≢◌, ◌⊎◌, ◌↔◌, inl, refl, true, false, Option, some,
  List, [], ◌∷◌, ◌++◌, ◌==◌, if◌then◌else◌, All, arith,
}
use junior_os.Strings.{Memory}
use junior_os.Readline.{readline}
use junior_os.Readline.Editing.{Done, typed, readline-Done}
use junior_os.Multiprocessor.{Cpus, mpsearch, mpconfig, mp_init}
use junior_os.Multiprocessor.Search.{IsFirst, Found, Accepted, first_area, mpsearch-mpconfig}
use junior_os.Multiprocessor.Entries.{Entry}
use junior_os.Multiprocessor.Processors.{Processors, mp_init-Processors}
use junior_os.Display.{Crt}
use junior_os.Display.Screen.{OnScreen, IsPlain, IsShown, behind, put_line, put_line-OnScreen}
use junior_os.Debug.{Stab, stab_binsearch}
use junior_os.Debug.Bracket.{stab_binsearch-IsEntry}
use junior_os.BootLoader.{Disk, read_segment}
use junior_os.BootLoader.Sectors.{image_byte, read_segment_lem}

-- "ab", a backspace and "c", with Enter and one key more.
abbrev keys : List ℕ
keys = 97 ∷ 98 ∷ 8 ∷ 99 ∷ []

readline-Done_example :
    Done (λ i. 0) (typed keys []) (120 ∷ []) [] (readline true (λ i. 0) (keys ++ (10 ∷ 120 ∷ [])))
readline-Done_example =
    readline-Done (λ i. 0) keys 10 (120 ∷ [])
      (
        (omega arith, (λ e. ground arith), (λ e. ground arith)),
        (
          (omega arith, (λ e. ground arith), (λ e. ground arith)),
          (
            (omega arith, (λ e. ground arith), (λ e. ground arith)),
            ((omega arith, (λ e. ground arith), (λ e. ground arith)), tt),
          ),
        ),
      )
      (inl refl)

-- A floating pointer structure in the last KB of base memory, and a table of a bus and a processor.
abbrev low_memory : Memory
low_memory i =
    if i == 0x413
    then 128
    else if i == 0x414
    then 2
    else if i == 0x9FC00
    then 95
    else if i == 0x9FC01
    then 77
    else if i == 0x9FC02
    then 80
    else if i == 0x9FC03
    then 95
    else if i == 0x9FC05
    then 16
    else if i == 0x9FC08
    then 1
    else if i == 0x9FC09
    then 4
    else if i == 0x9FC0A
    then 144
    else if i == 0x1000
    then 80
    else if i == 0x1001
    then 67
    else if i == 0x1002
    then 77
    else if i == 0x1003
    then 80
    else if i == 0x1004
    then 72
    else if i == 0x1006
    then 4
    else if i == 0x1007
    then 160
    else if i == 0x1022
    then 2
    else if i == 0x1026
    then 224
    else if i == 0x1027
    then 254
    else if i == 0x102C
    then 1
    else if i == 0x1037
    then 3
    else 0

low_memory-byte : (i : ℕ) → low_memory i < 256
low_memory-byte i = ground arith

mpsearch-mpconfig_example :
    (r : Option ℕ) × (mpsearch 1024 low_memory ≡ some r)
    × ((q : Option ℕ) × IsFirst low_memory (first_area low_memory) 64 q × Found low_memory q r)
    × ((mp conf : ℕ)
        → (mpconfig 1024 low_memory ≡ some (some (mp, conf)))
          ↔ ((r ≡ some mp) × Accepted 1024 low_memory mp conf))
mpsearch-mpconfig_example =
    mpsearch-mpconfig 1024 low_memory (omega arith) low_memory-byte (λ e. ground arith)
      (omega arith)

abbrev no_cpus : Cpus
no_cpus = record {
  cpus = λ i. record { cpu_id = 0; cpu_status = 0 };
  bootcpu = 0;
  ismp = false;
  ncpu = 0;
  lapicaddr = 0;
  written = [];
}

table_found : mpconfig 1024 low_memory ≡ some (some (0x9FC00, 0x1000))
unfolding mpconfig junior_os.Multiprocessor.sum
table_found = refl

mp_init-Processors_example :
    (t : Cpus) × (mp_init 1024 low_memory 0 no_cpus ≡ some t)
    × Processors low_memory 0x1000 (Entry.bus 1 ∷ []) [] t
mp_init-Processors_example =
    mp_init-Processors 1024 low_memory 0 0x9FC00 0x1000 no_cpus (Entry.bus 1 ∷ []) [] refl
      table_found refl (refl, omega arith, omega arith, (refl, refl, tt)) tt

-- The cursor is at the end of the display.
abbrev crt : Crt
crt = record {
  crt_buf = λ i. 0x0720;
  crt_pos = 1999;
  addr_6845 = 0x3D4;
  serial = [];
  printer = [];
  ports = [];
}

put_line-OnScreen_example :
    OnScreen crt (put_line (104 ∷ 105 ∷ []) crt)
    × (All IsPlain (104 ∷ 105 ∷ [])
        → IsShown [] crt.crt_pos crt.crt_buf
        → IsShown
            (behind (104 ∷ 105 ∷ []) [])
            (put_line (104 ∷ 105 ∷ []) crt).crt_pos
            (put_line (104 ∷ 105 ∷ []) crt).crt_buf)
put_line-OnScreen_example = put_line-OnScreen (104 ∷ 105 ∷ []) [] crt (omega arith)

-- A program header at 0x10034, for two bytes at 0x100000 from byte 0x1000 of the image, with one more byte.
abbrev header_memory : Memory
header_memory i =
    if i == 0x10039
    then 16
    else if i == 0x10042
    then 16
    else if i == 0x10044
    then 2
    else if i == 0x10048
    then 3
    else 0

abbrev disk : Disk
disk sector i = if sector == 9 then (if i == 0 then 85 else if i == 1 then 137 else 7) else 0

read_segment_lem_example :
    (u : Memory) × (read_segment disk 2 0x10034 header_memory ≡ some u)
    × ((k : ℕ) → k < 2 → u (0x100000 + k) ≡ image_byte disk (0x1000 + k))
    × ((k : ℕ) → 2 ≤ k → k < 3 → u (0x100000 + k) ≡ 0)
    × ((i : ℕ)
        → (i < 0x100000 - 0x100000 % 512) ⊎ ((0x100000 + 3 + 511) / 512 * 512 ≤ i)
        → u i ≡ header_memory i)
read_segment_lem_example =
    read_segment_lem disk 2 0x10034 0x100000 0x1000 2 3 header_memory
      (record { p_offset = refl; p_pa = refl; p_filesz = refl; p_memsz = refl }) (omega arith)
      (omega arith) (omega arith) (omega arith) refl (inl (omega arith))

-- Functions (N_FUN is 0x24) at 10, 30 and 50, and a line of the first one.
abbrev stabs : ℕ → Stab
stabs i =
    if i == 0
    then record { n_type = 0x24; n_value = 10 }
    else if i == 1
    then record { n_type = 0x44; n_value = 4 }
    else if i == 2
    then record { n_type = 0x24; n_value = 30 }
    else record { n_type = 0x24; n_value = 50 }

stab_binsearch-IsEntry_example :
    (e : ℕ) × (stab_binsearch stabs 6 0 4 0x24 30 ≡ some (2 + 1, e))
    × (2 < e)
    × (e ≤ 4)
    × ((k : ℕ) → 2 < k → k < e → (stabs k).n_type ≢ 0x24)
    × ((e ≡ 4) ⊎ ((stabs e).n_type ≡ 0x24))
stab_binsearch-IsEntry_example =
    stab_binsearch-IsEntry stabs 0x24 0 4 30 2 6
      (record {
        order = λ j k lo le hi one two. ground arith;
        fits = omega arith;
        gap = λ k lo hi hit e. ground arith;
      })
      (record {
        inside = (omega arith, omega arith);
        hit = refl;
        low = omega arith;
        later = λ k lo hi hit. ground arith;
      })
      (omega arith)
