-- ===== src/Loader/Segments.antt =====
-- A segment on one page: what load_icode leaves there.
use junior_os.Base.{
  ℕ, zero, suc, ◌+◌, ◌-◌, ◌%◌, ◌^◌, ◌<◌, ◌≤◌, ◌≡◌, refl, List, [], ◌∷◌, ◌++◌, ltb, length, arith,
  length-append, ◌∙◌, ap, Bool-cases, inl, inr, sym,
}
use mathlib.Core.List.{append-nil}
use junior_os.Machine.{add32}
use junior_os.Kernel.{Kernel, Run, returns, leaves, and_then}
use junior_os.UserMemory.{store_byte, store_bytes}
use junior_os.UserMemory.Stores.{IsWritable, AreBytes, Stored, store_bytes-Stored}
use junior_os.Loader.{Proghdr, slice, zeros, fill_segment}

after_store :
    (r : Run (Unit {0})) (all first second : Kernel → Run (Unit {0}))
    → ((t : Kernel) → all t ≡ and_then (first t) (λ _. second))
    → and_then r (λ _. all) ≡ and_then (and_then r (λ _. first)) (λ _. second)
after_store (returns u t) all first second same = same t
after_store (leaves x t) all first second same = refl

and_then_nothing : (r : Run (Unit {0})) → and_then r (λ _ t. returns tt t) ≡ r
and_then_nothing (returns u t) = refl
and_then_nothing (leaves x t) = refl

-- Two runs of stores, one behind the other, are one.
store_bytes-append :
    (xs ys : List ℕ) (va : ℕ) (s : Kernel)
    → va < 2 ^ 32
    → store_bytes va (xs ++ ys) s
      ≡ and_then (store_bytes va xs s) (λ _. store_bytes (add32 va (length xs)) ys)
unfolding store_bytes
store_bytes-append [] ys va s small =
    let e : va ≡ add32 va 0 = omega arith in ap (λ a. store_bytes a ys s) e
store_bytes-append (x ∷ xs) ys va s small =
    let e : add32 (add32 va 1) (length xs) ≡ add32 va (suc (length xs)) = omega arith in
    after_store (store_byte va x s) (store_bytes (add32 va 1) (xs ++ ys))
      (store_bytes (add32 va 1) xs) (store_bytes (add32 (add32 va 1) (length xs)) ys)
      (λ t. store_bytes-append xs ys (add32 va 1) t (omega arith))
    ∙ ap (λ a. and_then (store_bytes va (x ∷ xs) s) (λ _. store_bytes a ys)) e

length-slice : (image : ℕ → ℕ) (a n : ℕ) → length (slice image a n) ≡ n
unfolding slice
length-slice image a zero = refl
length-slice image a (suc n) = omega (arith, length-slice image (a + 1) n)

length-zeros : (n : ℕ) → length (zeros n) ≡ n
unfolding zeros
length-zeros zero = refl
length-zeros (suc n) = omega (arith, length-zeros n)

slice-AreBytes :
    (image : ℕ → ℕ) (a n : ℕ) (ys : List ℕ)
    → ((i : ℕ) → image i < 256)
    → AreBytes ys
    → AreBytes (slice image a n ++ ys)
unfolding slice
slice-AreBytes image a zero ys bytes rest = rest
slice-AreBytes image a (suc n) ys bytes rest =
    (bytes a, slice-AreBytes image (a + 1) n ys bytes rest)

zeros-AreBytes : (n : ℕ) → AreBytes (zeros n)
unfolding zeros
zeros-AreBytes zero = tt
zeros-AreBytes (suc n) = (omega arith, zeros-AreBytes n)

-- The bytes that a segment gets.
pub segment_bytes : (ℕ → ℕ) → ℕ → Proghdr → List ℕ
segment_bytes image binary ph =
    slice image (add32 binary ph.p_offset) ph.p_filesz ++ zeros (ph.p_memsz - ph.p_filesz)

fill_segment_eq :
    (image : ℕ → ℕ) (binary : ℕ) (ph : Proghdr) (s : Kernel)
    → ph.p_filesz ≤ ph.p_memsz
    → ph.p_va < 2 ^ 32
    → fill_segment image binary ph s ≡ store_bytes ph.p_va (segment_bytes image binary ph) s
unfolding fill_segment segment_bytes store_bytes zeros
fill_segment_eq image binary ph s le small = elim (Bool-cases (ltb ph.p_filesz ph.p_memsz)) [
  | inl more ↦
      let n = length-slice image (add32 binary ph.p_offset) ph.p_filesz in
      rw more (
        sym (
          store_bytes-append (slice image (add32 binary ph.p_offset) ph.p_filesz)
            (zeros (ph.p_memsz - ph.p_filesz)) ph.p_va s small
          ∙ ap
              (λ k.
                and_then
                  (store_bytes ph.p_va (slice image (add32 binary ph.p_offset) ph.p_filesz) s)
                  (λ _. store_bytes (add32 ph.p_va k) (zeros (ph.p_memsz - ph.p_filesz))))
              n))
  | inr all ↦
      let xs = slice image (add32 binary ph.p_offset) ph.p_filesz in
      let e : ph.p_memsz - ph.p_filesz ≡ 0 = ground arith in
      rw (all, e, append-nil xs) (and_then_nothing (store_bytes ph.p_va xs s))
]

-- For a segment whose part in the file is not longer than the segment, on one page that is mapped
-- writable and is neither the directory nor the page table: load_icode's memcpy and memset store
-- the file's bytes on that page, and zeros behind them up to the size in memory, and change no
-- other byte.
pub fill_segment-Stored :
    (image : ℕ → ℕ) (binary f : ℕ) (ph : Proghdr) (s : Kernel)
    → ((i : ℕ) → image i < 256)
    → ph.p_filesz ≤ ph.p_memsz
    → ph.p_va < 2 ^ 32
    → ph.p_va % 4096 + ph.p_memsz ≤ 4096
    → IsWritable s ph.p_va f
    → (mem' : ℕ → ℕ → ℕ) × (fill_segment image binary ph s ≡ returns tt (record s { mem = mem' }))
      × Stored f (ph.p_va % 4096) (segment_bytes image binary ph) s.mem mem'
unfolding segment_bytes
fill_segment-Stored image binary f ph s bytes le small fits w =
    let xs = slice image (add32 binary ph.p_offset) ph.p_filesz in
    let ys = zeros (ph.p_memsz - ph.p_filesz) in
    let len : length (xs ++ ys) ≡ ph.p_memsz = omega (
      arith,
      length-append xs ys,
      length-slice image (add32 binary ph.p_offset) ph.p_filesz,
      length-zeros (ph.p_memsz - ph.p_filesz),
    ) in
    let (mem', run, stored) =
      store_bytes-Stored s ph.p_va f (ph.p_va % 4096) (xs ++ ys) (omega (arith, len)) small
        (slice-AreBytes image (add32 binary ph.p_offset) ph.p_filesz ys bytes
          (zeros-AreBytes (ph.p_memsz - ph.p_filesz)))
        (λ more. (w, refl)) in
    (mem', fill_segment_eq image binary ph s le small ∙ run, stored)
