-- ===== src/Multiprocessor.antt =====
-- The search for the processors: jos-lab4/kern/mpconfig.c. Physical memory is a family of bytes and `npages`
-- its size; what is printed is left out. A result of none is a panic of KADDR.
pub mod Search
pub mod Entries
pub mod Processors
use junior_os.Base.{
  ℕ, zero, suc, ◌+◌, ◌-◌, ◌*◌, ◌/◌, ◌%◌, Bool, true, false, not, ◌&&◌, ◌||◌, Option, none, some,
  List, [], ◌∷◌, ◌==◌, ltb, leb, if◌then◌else◌, update, bit_or,
}
use junior_os.Machine.{word, pgnum, test, add32}
use junior_os.Strings.{Memory}
use junior_os.Loader.{word_at, half_at}

infixl 5 ◌>>=◌
abbrev pub ◌>>=◌ {ℓ κ} : {A : Type ℓ} {B : Type κ} → Option A → (A → Option B) → Option B
none >>= f = none
some a >>= f = f a

-- Physical addresses below 2 ^ 28 keep their order above KERNBASE.
abbrev pub kaddr_of : ℕ → ℕ → Option ℕ
kaddr_of npages pa = if leb npages (pgnum pa) then none else some pa

add_bytes : Memory → ℕ → ℕ → ℕ → ℕ
add_bytes mem addr zero total = total
add_bytes mem addr (suc len) total = add_bytes mem (addr + 1) len (total + mem addr)

-- A uint8_t.
unfoldable pub sum : Memory → ℕ → ℕ → ℕ
unfolding add_bytes
sum mem addr len = add_bytes mem addr len 0 % 256

-- memcmp with four characters finds no difference.
abbrev pub has_signature : Memory → ℕ → (c d e f : ℕ) → Bool
has_signature mem a c d e f =
    (mem a == c && mem (a + 1) == d) && (mem (a + 2) == e && mem (a + 3) == f)

-- "_MP_", and a sum of 0.
abbrev pub is_mp : Memory → ℕ → Bool
is_mp mem mp = has_signature mem mp 95 77 80 95 && sum mem mp 16 == 0

unfoldable pub search : Memory → (rounds mp end : ℕ) → Option ℕ
search mem zero mp end = none
search mem (suc rounds) mp end =
    let rest = search mem rounds (mp + 16) end in
    if ltb mp end then (if is_mp mem mp then some mp else rest) else none

unfoldable pub mpsearch1 : ℕ → Memory → ℕ → ℕ → Option (Option ℕ)
unfolding search
mpsearch1 npages mem a len = do
  mp ← kaddr_of npages a
  end ← kaddr_of npages (add32 a len)
  some (search mem (len / 16 + 1) mp end)

-- What the first search finds, or else the last one does.
or_search : ℕ → Memory → Option ℕ → Option (Option ℕ)
unfolding mpsearch1
or_search npages mem (some mp) = some (some mp)
or_search npages mem none = mpsearch1 npages mem 0xF0000 0x10000

-- The extended BIOS data area, or the last KB of base memory.
first_search : ℕ → Memory → ℕ → Option (Option ℕ)
unfolding mpsearch1
first_search npages mem bda =
    if not (half_at mem (bda + 0x0E) == 0)
    then mpsearch1 npages mem (half_at mem (bda + 0x0E) * 16) 1024
    else mpsearch1 npages mem ((half_at mem (bda + 0x13) * 1024 + (word - 1024)) % word) 1024

unfoldable pub mpsearch : ℕ → Memory → Option (Option ℕ)
unfolding or_search first_search
mpsearch npages mem = do
  bda ← kaddr_of npages 0x400
  first ← first_search npages mem bda
  or_search npages mem first

-- A table whose signature, checksums and version are right.
table_of : Memory → ℕ → ℕ → Option (ℕ × ℕ)
table_of mem mp conf =
    if not (has_signature mem conf 80 67 77 80)
    then none
    else if not (sum mem conf (half_at mem (conf + 4)) == 0)
    then none
    else if not (mem (conf + 6) == 1) && not (mem (conf + 6) == 4)
    then none
    else if not (
        (sum mem (conf + half_at mem (conf + 4)) (half_at mem (conf + 40)) + mem (conf + 42)) % 256
        == 0)
    then none
    else some (mp, conf)

-- The floating pointer structure and the configuration table, or NULL.
config_of : ℕ → Memory → Option ℕ → Option (Option (ℕ × ℕ))
unfolding table_of
config_of npages mem none = some none
config_of npages mem (some mp) =
    if word_at mem (mp + 4) == 0 || not (mem (mp + 11) == 0)
    then some none
    else kaddr_of npages (word_at mem (mp + 4)) >>= λ conf. some (table_of mem mp conf)

unfoldable pub mpconfig : ℕ → Memory → Option (Option (ℕ × ℕ))
unfolding config_of mpsearch
mpconfig npages mem = do mp ← mpsearch npages mem; config_of npages mem mp

pub record CpuInfo : Type 0 where
  pub cpu_id : ℕ
  pub cpu_status : ℕ

-- The globals, with `bootcpu` as an index, and what is written to ports. Indices from 8 on stand for the
-- memory behind the array.
pub record Cpus : Type 0 where
  pub cpus : ℕ → CpuInfo
  pub bootcpu : ℕ
  pub ismp : Bool
  pub ncpu : ℕ
  pub lapicaddr : ℕ
  pub written : List (ℕ × ℕ)

-- A processor's entry, with its MPPROC_BOOT flag.
unfoldable pub processor : Bool → Cpus → Cpus
processor boot s =
    let named = if boot then record s { bootcpu = s.ncpu } else s in
    if ltb s.ncpu 8
    then record named {
      cpus = update s.cpus s.ncpu (record (s.cpus s.ncpu) { cpu_id = s.ncpu });
      ncpu = s.ncpu + 1;
    }
    else named

-- `rounds` entries are left, from `p` on.
unfoldable pub read_entries : Memory → ℕ → ℕ → Cpus → Cpus
unfolding processor
read_entries mem zero p s = s
read_entries mem (suc rounds) p s =
    if mem p == 0
    then read_entries mem rounds (p + 20) (processor (test (mem (p + 3)) 2) s)
    else if leb (mem p) 4
    then read_entries mem rounds (p + 8) s
    else record s { ismp = false }

-- The end of mp_init; `imcr` is what port 0x23 holds.
unfoldable pub settle : Memory → ℕ → ℕ → Cpus → Cpus
settle mem imcr mp s =
    let started = record s {
      cpus = update s.cpus s.bootcpu (record (s.cpus s.bootcpu) { cpu_status = 1 });
    } in
    if not s.ismp
    then record started { ncpu = 1; lapicaddr = 0 }
    else if not (mem (mp + 12) == 0)
    then record started { written = (0x22, 0x70) ∷ (0x23, bit_or imcr 1) ∷ [] }
    else started

init_from : Memory → ℕ → Cpus → Option (ℕ × ℕ) → Cpus
unfolding read_entries settle
init_from mem imcr s none = s
init_from mem imcr s (some (mp, conf)) = settle mem imcr mp (
    read_entries mem (half_at mem (conf + 34)) (conf + 44)
      (record s { ismp = true; lapicaddr = word_at mem (conf + 36) }))

unfoldable pub mp_init : ℕ → Memory → ℕ → Cpus → Option Cpus
unfolding mpconfig init_from
mp_init npages mem imcr s = do
  found ← mpconfig npages mem
  some (init_from mem imcr (record s { bootcpu = 0 }) found)
