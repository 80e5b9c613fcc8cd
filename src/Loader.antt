-- ===== src/Loader.antt =====
-- Programs: jos-lab4/kern/env.c, load_icode and env_create, and the headers of inc/elf.h. The binary is
-- part of the kernel's image, whose bytes are a function of their address.
pub mod Segments
use junior_os.Base.{
  ℕ, zero, suc, ◌+◌, ◌-◌, ◌*◌, ◌/◌, ◌%◌, ◌^◌, Bool, none, some, Option, List, [], ◌∷◌, ◌==◌, ltb,
  if◌then◌else◌,
}
use junior_os.Machine.{add32, sub32, ustacktop}
use junior_os.Kernel.{
  Kernel, Cmd, Status, ok, fails, pure, ◌>>=◌, ◌>>◌, get, put, panic, null_dereference, leave,
  deref, set_env,
}
use junior_os.Envs.{env_alloc, region_alloc}
use junior_os.UserMemory.{store_bytes}

-- A 32-bit and a 16-bit field.
abbrev pub word_at : (ℕ → ℕ) → ℕ → ℕ
word_at image a = image a + image (a + 1) * 256 + image (a + 2) * 65536 + image (a + 3) * 16777216

abbrev pub half_at : (ℕ → ℕ) → ℕ → ℕ
half_at image a = image a + image (a + 1) * 256

-- The fields of struct Elf and struct Proghdr, by their offsets.
pub record Elf : Type 0 where
  pub e_magic : ℕ
  pub e_entry : ℕ
  pub e_phoff : ℕ
  pub e_phnum : ℕ

pub record Proghdr : Type 0 where
  pub p_type : ℕ
  pub p_offset : ℕ
  pub p_va : ℕ
  pub p_filesz : ℕ
  pub p_memsz : ℕ

abbrev pub elf_at : (ℕ → ℕ) → ℕ → Elf
elf_at image a = record {
  e_magic = word_at image a;
  e_entry = word_at image (a + 24);
  e_phoff = word_at image (a + 28);
  e_phnum = half_at image (a + 44);
}

abbrev pub proghdr_at : (ℕ → ℕ) → ℕ → Proghdr
proghdr_at image a = record {
  p_type = word_at image a;
  p_offset = word_at image (a + 4);
  p_va = word_at image (a + 8);
  p_filesz = word_at image (a + 16);
  p_memsz = word_at image (a + 20);
}

-- The bytes that memcpy reads, and those that memset writes.
pub slice : (ℕ → ℕ) → ℕ → ℕ → List ℕ
slice image a zero = []
slice image a (suc n) = image a ∷ slice image (a + 1) n

pub zeros : ℕ → List ℕ
zeros zero = []
zeros (suc n) = 0 ∷ zeros n

-- The file's part of a segment, and the zeros behind it.
unfoldable pub fill_segment : (ℕ → ℕ) → ℕ → Proghdr → Cmd (Unit {0})
unfolding slice zeros
fill_segment image binary ph = do
  store_bytes ph.p_va (slice image (add32 binary ph.p_offset) ph.p_filesz)
  if ltb ph.p_filesz ph.p_memsz
      then store_bytes (add32 ph.p_va ph.p_filesz) (zeros (ph.p_memsz - ph.p_filesz))
      else pure tt

load_segment : (ℕ → ℕ) → ℕ → ℕ → Proghdr → Cmd (Unit {0})
unfolding fill_segment
load_segment image binary e ph =
    if ph.p_type == 1
    then region_alloc e ph.p_va ph.p_memsz >> fill_segment image binary ph
    else pure tt

-- `rounds` program headers are left, from `ph` on.
load_segments : (ℕ → ℕ) → ℕ → ℕ → ℕ → ℕ → Cmd (Unit {0})
unfolding load_segment
load_segments image binary e zero ph = pure tt
load_segments image binary e (suc rounds) ph =
    load_segment image binary e (proghdr_at image ph)
    >> load_segments image binary e rounds (ph + 32)

abbrev pub elf_magic : ℕ
elf_magic = 0x464C457F

unfoldable pub load_icode : (ℕ → ℕ) → ℕ → ℕ → Cmd (Unit {0})
unfolding load_segments
load_icode image e binary = do
  s ← get
  pgdir ← deref (s.envs e).env_pgdir
  put (record s { cr3 = pgdir })
  if (elf_at image binary).e_magic == elf_magic then pure tt else panic
  load_segments image binary e (elf_at image binary).e_phnum
      (add32 binary (elf_at image binary).e_phoff)
  t ← get
  set_env e (record (t.envs e) {
    env_tf = record ((t.envs e).env_tf) { tf_eip = (elf_at image binary).e_entry };
  })
  u ← get
  put (record u { cr3 = s.cr3 })
  region_alloc e (sub32 ustacktop 4096) 4096

create_from : (ℕ → ℕ) → ℕ → ℕ → Status × Option ℕ → Cmd (Unit {0})
create_from image binary type (ok, some e) = do
  load_icode image e binary
  s ← get
  set_env e (record (s.envs e) { env_type = type })
create_from image binary type (ok, none) = leave null_dereference
create_from image binary type (fails r, e) = panic

pub env_create : (ℕ → ℕ) → ℕ → ℕ → Cmd (Unit {0})
unfolding create_from
env_create image binary type = env_alloc 0 >>= create_from image binary type
