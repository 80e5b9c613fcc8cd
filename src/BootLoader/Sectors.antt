-- ===== src/BootLoader/Sectors.antt =====
-- What readseg puts into memory.
use junior_os.Base.{
  ℕ, zero, suc, ◌+◌, ◌-◌, ◌*◌, ◌/◌, ◌%◌, ◌^◌, ◌<◌, ◌≤◌, ◌≡◌, ◌⊎◌, refl, true, false, ◌&&◌, some,
  ltb, leb, if◌then◌else◌, update, arith, ◌∙◌, ap, Bool-cases, inl, inr,
}
use junior_os.Machine.{word, add32}
use junior_os.Loader.{word_at}
use junior_os.Strings.{Memory}
use junior_os.BootLoader.{Disk, readsect, read_sectors, readseg, clear_rest, read_segment}

-- Byte `j` of the kernel's image, which starts in sector 1.
abbrev pub image_byte : Disk → ℕ → ℕ
image_byte disk j = disk (j / 512 + 1) (j % 512)

-- Memory after `n` sectors from `offset` on have been read to `pa`.
abbrev loaded : Disk → ℕ → ℕ → ℕ → Memory → Memory
loaded disk n pa offset mem i =
    if leb pa i && ltb i (pa + n * 512)
    then disk (offset + (i - pa) / 512) ((i - pa) % 512)
    else mem i

read_step :
    (disk : Disk) (rounds pa end offset : ℕ) (mem : Memory)
    → pa < end
    → read_sectors disk (suc rounds) pa end offset mem
      ≡ read_sectors disk rounds (add32 pa 512) end (add32 offset 1) (readsect disk pa offset mem)
unfolding read_sectors
read_step disk rounds pa end offset mem h =
    let more : ltb pa end ≡ true = ground arith in rw more refl

loaded_step :
    (disk : Disk) (n pa offset : ℕ) (mem : Memory) (i : ℕ)
    → offset < 2 ^ 28
    → loaded disk n (pa + 512) (offset + 1) (readsect disk pa offset mem) i
      ≡ loaded disk (suc n) pa offset mem i
unfolding readsect
loaded_step disk n pa offset mem i small = ground arith

read_sectors_lem :
    (disk : Disk) (n rounds pa end offset : ℕ) (mem : Memory)
    → n ≤ rounds
    → end ≤ pa + n * 512
    → (n ≡ 0) ⊎ (pa + n * 512 < end + 512)
    → pa + n * 512 < 2 ^ 32
    → offset + n ≤ 2 ^ 28
    → (i : ℕ) → read_sectors disk rounds pa end offset mem i ≡ loaded disk n pa offset mem i
unfolding read_sectors
read_sectors_lem disk zero zero pa end offset mem fuel reach tight small disks i = ground arith
read_sectors_lem disk zero (suc rounds) pa end offset mem fuel reach tight small disks i =
    let last : ltb pa end ≡ false = ground arith in rw last (ground arith)
read_sectors_lem disk (suc n) zero pa end offset mem fuel reach tight small disks i =
    absurd (omega arith)
read_sectors_lem disk (suc n) (suc rounds) pa end offset mem fuel reach tight small disks i =
    let at : (pa + 512) % 2 ^ 32 ≡ pa + 512 = omega arith in
    let next : (offset + 1) % 2 ^ 32 ≡ offset + 1 = omega arith in
    ap (λ m. m i) (read_step disk rounds pa end offset mem (ground arith))
    ∙ rw (at, next)
        (read_sectors_lem disk n rounds (pa + 512) end (offset + 1) (readsect disk pa offset mem)
            (omega arith) (omega arith) (ground arith) (omega arith) (omega arith) i
          ∙ loaded_step disk n pa offset mem i (omega arith))

-- Each byte of the range is a byte of the image, and nothing outside its sectors has changed.
readseg_lem :
    (disk : Disk) (pa count offset : ℕ) (mem : Memory)
    → pa + count + 512 < 2 ^ 32
    → offset + count + 1024 < 2 ^ 32
    → pa % 512 ≡ offset % 512
    → (i : ℕ)
    → ((pa ≤ i)
        → i < pa + count
        → readseg disk pa count offset mem i ≡ image_byte disk (offset + (i - pa)))
      × ((i < pa - pa % 512) ⊎ ((pa + count + 511) / 512 * 512 ≤ i)
          → readseg disk pa count offset mem i ≡ mem i)
unfolding readseg
readseg_lem disk pa count offset mem high far same i =
    let n = (pa % 512 + count + 511) / 512 in
    let end : (pa + count) % 2 ^ 32 ≡ pa + count = omega arith in
    let run : readseg disk pa count offset mem i
        ≡ loaded disk n (pa - pa % 512) (offset / 512 + 1) mem i =
      rw end (
        read_sectors_lem disk n (count / 512 + 2) (pa - pa % 512) (pa + count) (offset / 512 + 1)
          mem (omega arith) (omega arith) (inr (omega arith)) (omega arith) (omega arith) i) in
    (
      λ lo hi.
          let inside : (leb (pa - pa % 512) i && ltb i (pa - pa % 512 + n * 512)) ≡ true =
            ground arith in
          let sector : offset / 512 + 1 + (i - (pa - pa % 512)) / 512
              ≡ (offset + (i - pa)) / 512 + 1 =
            omega arith in
          let byte : (i - (pa - pa % 512)) % 512 ≡ (offset + (i - pa)) % 512 = omega arith in
          run ∙ rw (inside, sector, byte) refl,
      λ out.
          run
          ∙ (let outside : (leb (pa - pa % 512) i && ltb i (pa - pa % 512 + n * 512)) ≡ false =
                ground arith in
              rw outside refl),
    )

-- The program header at `ph`: where the segment goes, its bytes in the image, and its sizes there and in
-- memory.
pub record Header (m : Memory) (ph pa offset filesz memsz : ℕ) : Type 0 where
  pub p_offset : word_at m (ph + 4) ≡ offset
  pub p_pa : word_at m (ph + 12) ≡ pa
  pub p_filesz : word_at m (ph + 16) ≡ filesz
  pub p_memsz : word_at m (ph + 20) ≡ memsz

field_same :
    (m u : Memory) (a : ℕ) → ((i : ℕ) → a ≤ i → i < a + 4 → u i ≡ m i) → word_at u a ≡ word_at m a
field_same m u a same =
    rw
      (
        same a (omega arith) (omega arith),
        same (a + 1) (omega arith) (omega arith),
        same (a + 2) (omega arith) (omega arith),
        same (a + 3) (omega arith) (omega arith),
      )
      refl

Header-same :
    (m u : Memory) (ph pa offset filesz memsz : ℕ)
    → ((i : ℕ) → ph ≤ i → i < ph + 32 → u i ≡ m i)
    → Header m ph pa offset filesz memsz
    → Header u ph pa offset filesz memsz
Header-same m u ph pa offset filesz memsz same h = record {
  p_offset = field_same m u (ph + 4) (λ i lo hi. same i (omega arith) (omega arith)) ∙ h.p_offset;
  p_pa = field_same m u (ph + 12) (λ i lo hi. same i (omega arith) (omega arith)) ∙ h.p_pa;
  p_filesz = field_same m u (ph + 16) (λ i lo hi. same i (omega arith) (omega arith)) ∙ h.p_filesz;
  p_memsz = field_same m u (ph + 20) (λ i lo hi. same i (omega arith) (omega arith)) ∙ h.p_memsz;
}

clear_step :
    (fuel ph pa offset filesz memsz i : ℕ) (m : Memory)
    → Header m ph pa offset filesz memsz
    → filesz ≤ memsz
    → pa + memsz < 2 ^ 32
    → clear_rest (suc fuel) ph i m ≡ (
        if ltb i (memsz - filesz)
        then clear_rest fuel ph (i + 1) (update m (pa + filesz + i) 0)
        else some m)
unfolding clear_rest
clear_step fuel ph pa offset filesz memsz i m h fits small =
    let size : (memsz + (2 ^ 32 - filesz)) % 2 ^ 32 ≡ memsz - filesz = omega arith in
    rw (h.p_memsz, h.p_filesz, h.p_pa, size)
      (elim (Bool-cases (ltb i (memsz - filesz)))
        as (λ _.
          (if ltb i (memsz - filesz)
            then clear_rest fuel ph (i + 1) (update m ((pa + filesz + i) % word) 0)
            else some m)
          ≡ (if ltb i (memsz - filesz)
              then clear_rest fuel ph (i + 1) (update m (pa + filesz + i) 0)
              else some m)) [
                | inl more ↦
                    let at : (pa + filesz + i) % word ≡ pa + filesz + i = ground arith in rw at refl
                | inr last ↦ rw last refl
              ])

clear_rest_lem :
    (rounds fuel ph pa offset filesz memsz i : ℕ) (m : Memory)
    → rounds < fuel
    → i + rounds ≡ memsz - filesz
    → filesz ≤ memsz
    → pa + memsz < 2 ^ 32
    → Header m ph pa offset filesz memsz
    → (ph + 32 ≤ pa) ⊎ (pa + memsz ≤ ph)
    → (u : Memory) × (clear_rest fuel ph i m ≡ some u)
      × ((j : ℕ) → u j ≡ (if leb (pa + filesz + i) j && ltb j (pa + memsz) then 0 else m j))
clear_rest_lem rounds zero ph pa offset filesz memsz i m enough left fits small h apart =
    absurd (omega arith)
clear_rest_lem zero (suc fuel) ph pa offset filesz memsz i m enough left fits small h apart =
    let last : ltb i (memsz - filesz) ≡ false = ground arith in
    (
      m,
      clear_step fuel ph pa offset filesz memsz i m h fits small ∙ rw last refl,
      λ j. ground arith,
    )
clear_rest_lem (suc rounds) (suc fuel) ph pa offset filesz memsz i m enough left fits small h
      apart =
    let more : ltb i (memsz - filesz) ≡ true = ground arith in
    let kept =
      Header-same m (update m (pa + filesz + i) 0) ph pa offset filesz memsz
        (λ j lo hi. ground arith) h in
    let (u, run, bytes) =
      clear_rest_lem rounds fuel ph pa offset filesz memsz (i + 1) (update m (pa + filesz + i) 0)
        (omega arith) (omega arith) fits small kept apart in
    (
      u,
      clear_step fuel ph pa offset filesz memsz i m h fits small ∙ rw more run,
      λ j. bytes j ∙ ground arith,
    )

-- For a program header that its segment's sectors do not overlap, with an address and an offset in
-- the image that agree modulo 512, no wrap-around of 2 ^ 32, and a fuel above the number of bytes
-- to clear, bootmain's work on the segment ends: the file's bytes of the image are at its address,
-- zeros are behind them up to its size in memory, and no byte outside the sectors of 512 bytes that
-- the segment's address range touches has changed.
pub read_segment_lem :
    (disk : Disk) (fuel ph pa offset filesz memsz : ℕ) (m : Memory)
    → Header m ph pa offset filesz memsz
    → filesz ≤ memsz
    → memsz - filesz < fuel
    → pa + memsz + 512 < 2 ^ 32
    → offset + memsz + 1024 < 2 ^ 32
    → pa % 512 ≡ offset % 512
    → (ph + 32 ≤ pa - pa % 512) ⊎ ((pa + memsz + 511) / 512 * 512 ≤ ph)
    → (u : Memory) × (read_segment disk fuel ph m ≡ some u)
      × ((k : ℕ) → k < filesz → u (pa + k) ≡ image_byte disk (offset + k))
      × ((k : ℕ) → filesz ≤ k → k < memsz → u (pa + k) ≡ 0)
      × ((i : ℕ) → (i < pa - pa % 512) ⊎ ((pa + memsz + 511) / 512 * 512 ≤ i) → u i ≡ m i)
unfolding read_segment
read_segment_lem disk fuel ph pa offset filesz memsz m h fits enough high far aligned apart =
    let at = readseg_lem disk pa memsz offset m high far aligned in
    let read = readseg disk pa memsz offset m in
    let kept =
      Header-same m read ph pa offset filesz memsz (λ j lo hi. (at j).1 (ground arith)) h in
    let (u, run, bytes) =
      clear_rest_lem (memsz - filesz) fuel ph pa offset filesz memsz 0 read enough (omega arith)
        fits (omega arith) kept (ground arith) in
    (
      u,
      rw (h.p_pa, h.p_memsz, h.p_offset) run,
      λ k small.
          bytes (pa + k)
          ∙ (let before : (leb (pa + filesz + 0) (pa + k) && ltb (pa + k) (pa + memsz)) ≡ false =
                ground arith in
              let e : offset + (pa + k - pa) ≡ offset + k = omega arith in
              rw before ((at (pa + k)).0 (omega arith) (omega arith) ∙ ap (image_byte disk) e)),
      λ k lo hi. bytes (pa + k) ∙ ground arith,
      λ i out.
          bytes i
          ∙ (let before : (leb (pa + filesz + 0) i && ltb i (pa + memsz)) ≡ false = ground arith in
              rw before ((at i).1 out)),
    )
