-- ===== src/Examples/Text.antt =====
-- Strings and blocks of bytes in a small memory: "hi" at 100, "ho" at 200, and NULs elsewhere.
use junior_os.Base.{ℕ, ◌<◌, ◌≡◌, ◌↔◌, refl, some, List, [], ◌∷◌, ◌==◌, if◌then◌else◌, arith}
use junior_os.Strings.{Memory, memmove, strcmp, strncmp}
use junior_os.Strings.Blocks.{moved, memmove_lem}
use junior_os.Strings.Terminated.{IsString}
use junior_os.Strings.Comparing.{first_bytes, take, difference, strcmp-first_bytes}

abbrev pub text_memory : Memory
text_memory i =
    if i == 100
    then 104
    else if i == 101
    then 105
    else if i == 200
    then 104
    else if i == 201
    then 111
    else 0

abbrev pub hi : List ℕ
hi = 104 ∷ 105 ∷ []

abbrev pub ho : List ℕ
ho = 104 ∷ 111 ∷ []

text_memory-IsString : IsString text_memory 100 hi
text_memory-IsString = (refl, omega arith, (refl, omega arith, refl))

other-IsString : IsString text_memory 200 ho
other-IsString = (refl, omega arith, (refl, omega arith, refl))

text_bytes : (i : ℕ) → text_memory i < 256
text_bytes i = ground arith

-- The block and its copy overlap.
memmove_lem_example : memmove 101 100 3 text_memory 103 ≡ moved 101 100 3 text_memory 103
memmove_lem_example = memmove_lem 101 100 3 text_memory 103

strcmp-first_bytes_example :
    (strcmp 3 text_memory 100 200 ≡ some (difference (first_bytes hi ho)))
    × ((strcmp 3 text_memory 100 200 ≡ some 0) ↔ (hi ≡ ho))
    × ((n : ℕ) → strncmp text_memory 100 200 n ≡ difference (first_bytes (take n hi) (take n ho)))
strcmp-first_bytes_example =
    strcmp-first_bytes 3 text_memory 100 200 hi ho text_bytes text_memory-IsString other-IsString
      (omega arith)
