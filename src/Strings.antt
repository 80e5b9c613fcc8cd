-- ===== src/Strings.antt =====
-- C strings and blocks of bytes: jos-lab4/lib/string.c, as it is compiled (ASM is 1). Memory is a
-- function from addresses to bytes. A loop that only a NUL ends takes fuel, and is `none` when the
-- fuel runs out; an object does not wrap around the address space.
pub mod Terminated
pub mod Copying
pub mod Comparing
pub mod Blocks
use junior_os.Base.{
  ℕ, zero, suc, ◌+◌, ◌-◌, ◌*◌, ◌/◌, ◌%◌, ◌^◌, Bool, true, false, not, ◌&&◌, ◌||◌, Option, none,
  some, ◌==◌, ltb, if◌then◌else◌, update, bit_or,
}
use junior_os.Machine.{word, sub32}

abbrev pub Memory : Type 0
Memory = ℕ → ℕ

strlen_loop : ℕ → Memory → ℕ → ℕ → Option ℕ
strlen_loop zero mem s n = none
strlen_loop (suc fuel) mem s n =
    let rest = strlen_loop fuel mem (s + 1) (n + 1) in if mem s == 0 then some n else rest

unfoldable pub strlen : ℕ → Memory → ℕ → Option ℕ
unfolding strlen_loop
strlen fuel mem s = strlen_loop fuel mem s 0

strnlen_loop : Memory → ℕ → ℕ → ℕ → ℕ
strnlen_loop mem s zero n = n
strnlen_loop mem s (suc size) n =
    let rest = strnlen_loop mem (s + 1) size (n + 1) in if mem s == 0 then n else rest

unfoldable pub strnlen : Memory → ℕ → ℕ → ℕ
unfolding strnlen_loop
strnlen mem s size = strnlen_loop mem s size 0

-- `while ((*dst++ = *src++) != '\0')`.
unfoldable pub strcpy : ℕ → ℕ → ℕ → Memory → Option Memory
strcpy zero dst src mem = none
strcpy (suc fuel) dst src mem =
    let rest = strcpy fuel (dst + 1) (src + 1) (update mem dst (mem src)) in
    if mem src == 0 then some (update mem dst (mem src)) else rest

append_at : ℕ → ℕ → ℕ → Memory → Option ℕ → Option Memory
append_at fuel dst src mem none = none
append_at fuel dst src mem (some len) = strcpy fuel (dst + len) src mem

unfoldable pub strcat : ℕ → ℕ → ℕ → Memory → Option Memory
unfolding append_at
strcat fuel dst src mem = append_at fuel dst src mem (strlen fuel mem dst)

-- `rounds` of `size` are left.
unfoldable pub strncpy : ℕ → ℕ → ℕ → Memory → Memory
strncpy zero dst src mem = mem
strncpy (suc rounds) dst src mem =
    strncpy rounds (dst + 1) (if mem src == 0 then src else src + 1) (update mem dst (mem src))

-- `rounds` is `size` after `--size`; the count of bytes copied so far is `n`.
strlcpy_loop : ℕ → ℕ → ℕ → ℕ → Memory → Memory × ℕ
strlcpy_loop zero dst src n mem = (update mem dst 0, n)
strlcpy_loop (suc rounds) dst src n mem =
    let rest = strlcpy_loop rounds (dst + 1) (src + 1) (n + 1) (update mem dst (mem src)) in
    if mem src == 0 then (update mem dst 0, n) else rest

-- The memory, and `dst - dst_in`.
unfoldable pub strlcpy : ℕ → ℕ → ℕ → Memory → Memory × ℕ
unfolding strlcpy_loop
strlcpy dst src zero mem = (mem, 0)
strlcpy dst src (suc size) mem = strlcpy_loop size dst src 0 mem

-- The difference of two unsigned bytes, an int.
unfoldable pub strcmp : ℕ → Memory → ℕ → ℕ → Option ℕ
strcmp zero mem p q = none
strcmp (suc fuel) mem p q =
    let rest = strcmp fuel mem (p + 1) (q + 1) in
    if not (mem p == 0) && mem p == mem q then rest else some (sub32 (mem p) (mem q))

unfoldable pub strncmp : Memory → ℕ → ℕ → ℕ → ℕ
strncmp mem p q zero = 0
strncmp mem p q (suc n) =
    let rest = strncmp mem (p + 1) (q + 1) n in
    if not (mem p == 0) && mem p == mem q then rest else sub32 (mem p) (mem q)

-- The address of the first `c`; a NUL pointer, here `some none`, where the string ends first.
unfoldable pub strchr : ℕ → Memory → ℕ → ℕ → Option (Option ℕ)
strchr zero mem s c = none
strchr (suc fuel) mem s c =
    let rest = strchr fuel mem (s + 1) c in
    if mem s == 0 then some none else if mem s == c then some (some s) else rest

-- The address of the first `c`, or of the NUL.
unfoldable pub strfind : ℕ → Memory → ℕ → ℕ → Option ℕ
strfind zero mem s c = none
strfind (suc fuel) mem s c =
    let rest = strfind fuel mem (s + 1) c in if mem s == 0 || mem s == c then some s else rest

-- `rep stosb` and `rep stosl` with the direction flag clear: `rounds` are left in %ecx.
stosb : ℕ → ℕ → ℕ → Memory → Memory
stosb zero di eax mem = mem
stosb (suc rounds) di eax mem = stosb rounds (di + 1) eax (update mem di (eax % 256))

-- The four bytes of a word, the lowest first.
abbrev pub store_word : ℕ → ℕ → Memory → Memory
store_word di w mem =
    update
      (update (update (update mem di (w % 256)) (di + 1) (w / 256 % 256)) (di + 2)
        (w / 65536 % 256))
      (di + 3) (w / 16777216 % 256)

stosl : ℕ → ℕ → ℕ → Memory → Memory
stosl zero di eax mem = mem
stosl (suc rounds) di eax mem = stosl rounds (di + 4) eax (store_word di eax mem)

-- `c &= 0xFF; c = (c<<24)|(c<<16)|(c<<8)|c`
abbrev pub four_times : ℕ → ℕ
four_times c =
    bit_or (bit_or (bit_or (c % 256 * 16777216) (c % 256 * 65536)) (c % 256 * 256)) (c % 256)

unfoldable pub memset : ℕ → ℕ → ℕ → Memory → Memory
unfolding stosb stosl
memset v c n mem =
    if n == 0
    then mem
    else if v % 4 == 0 && n % 4 == 0
    then stosl (n / 4) v (four_times c) mem
    else stosb n v c mem

-- `rep movsb` and `rep movsl`, upwards, and downwards with the direction flag set.
movsb_up : ℕ → ℕ → ℕ → Memory → Memory
movsb_up zero di si mem = mem
movsb_up (suc rounds) di si mem = movsb_up rounds (di + 1) (si + 1) (update mem di (mem si))

movsb_down : ℕ → ℕ → ℕ → Memory → Memory
movsb_down zero di si mem = mem
movsb_down (suc rounds) di si mem = movsb_down rounds (di - 1) (si - 1) (update mem di (mem si))

-- A word is read whole before it is written.
abbrev pub move_word : ℕ → ℕ → Memory → Memory
move_word di si mem =
    update
      (update (update (update mem di (mem si)) (di + 1) (mem (si + 1))) (di + 2) (mem (si + 2)))
      (di + 3) (mem (si + 3))

movsl_up : ℕ → ℕ → ℕ → Memory → Memory
movsl_up zero di si mem = mem
movsl_up (suc rounds) di si mem = movsl_up rounds (di + 4) (si + 4) (move_word di si mem)

movsl_down : ℕ → ℕ → ℕ → Memory → Memory
movsl_down zero di si mem = mem
movsl_down (suc rounds) di si mem = movsl_down rounds (di - 4) (si - 4) (move_word di si mem)

unfoldable pub memmove : ℕ → ℕ → ℕ → Memory → Memory
unfolding movsb_up movsb_down movsl_up movsl_down
memmove dst src n mem =
    if ltb src dst && ltb dst (src + n)
    then (if ((src + n) % 4 == 0 && (dst + n) % 4 == 0) && n % 4 == 0
        then movsl_down (n / 4) (dst + n - 4) (src + n - 4) mem
        else movsb_down n (dst + n - 1) (src + n - 1) mem)
    else if (src % 4 == 0 && dst % 4 == 0) && n % 4 == 0
    then movsl_up (n / 4) dst src mem
    else movsb_up n dst src mem

unfoldable pub memcpy : ℕ → ℕ → ℕ → Memory → Memory
memcpy dst src n mem = memmove dst src n mem

unfoldable pub memcmp : Memory → ℕ → ℕ → ℕ → ℕ
memcmp mem s1 s2 zero = 0
memcmp mem s1 s2 (suc n) =
    let rest = memcmp mem (s1 + 1) (s2 + 1) n in
    if mem s1 == mem s2 then rest else sub32 (mem s1) (mem s2)

unfoldable pub memfind : Memory → ℕ → ℕ → ℕ → ℕ
memfind mem s c zero = s
memfind mem s c (suc n) = let rest = memfind mem (s + 1) c n in if mem s == c % 256 then s else rest
