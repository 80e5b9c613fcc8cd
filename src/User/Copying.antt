-- ===== src/User/Copying.antt =====
-- memcpy from one page of a program to another.
use junior_os.Base.{
  ℕ, zero, suc, ◌+◌, ◌/◌, ◌%◌, ◌^◌, ◌<◌, ◌≤◌, ◌≡◌, ◌≢◌, refl, true, false, ◌&&◌, ◌==◌, leb, ltb,
  if◌then◌else◌, arith, ◌∙◌, ap, eqb_refl, eqb_ne,
}
use junior_os.Machine.{pdx, ptx, pte_p, pte_w, pte_u, test}
use junior_os.Kernel.{Kernel, returns, put, leave, faulted}
use junior_os.UserMemory.{byte_at, poke, entry_at, can_store}
use junior_os.UserMemory.Stores.{byte_at-poke}
use junior_os.User.{user_can_read, copy_byte, copy_bytes}

-- The page at `dst` is page `n` and may be read and written, that at `src` is page `f` and may be read;
-- neither the directory nor the page tables of the two stand on page `n`.
pub record CanCopy (s : Kernel) (dst src n f : ℕ) : Type 0 where
  pub aligned : (dst % 4096 ≡ 0) × (src % 4096 ≡ 0)
  pub bounded : (dst < 2 ^ 32) × (src < 2 ^ 32)
  pub reads : user_can_read s src ≡ true
  pub owns : user_can_read s dst ≡ true
  pub writes : can_store s dst ≡ true
  pub to : entry_at s dst / 4096 ≡ n
  pub from : entry_at s src / 4096 ≡ f
  pub other : n ≢ f
  pub root : n ≢ s.cr3
  pub dst_table : n ≢ s.mem s.cr3 (pdx dst) / 4096
  pub src_table : n ≢ s.mem s.cr3 (pdx src) / 4096

CanCopy-poke :
    (s : Kernel) (dst src n f j b : ℕ) → CanCopy s dst src n f → CanCopy (poke n j b s) dst src n f
unfolding can_store
CanCopy-poke s dst src n f j b can = record {
  aligned = can.aligned;
  bounded = can.bounded;
  reads = ground (arith, can.reads, can.root, can.src_table);
  owns = ground (arith, can.owns, can.root, can.dst_table);
  writes = ground (arith, can.writes, can.root, can.dst_table);
  to = ground (arith, can.to, can.root, can.dst_table);
  from = ground (arith, can.from, can.root, can.src_table);
  other = can.other;
  root = can.root;
  dst_table = ground (arith, can.dst_table, can.root);
  src_table = ground (arith, can.src_table, can.root);
}

-- What hangs on the two indices of an address is the same within a page.
within {ℓ} :
    {A : Type ℓ} (g : ℕ → ℕ → A) (va j : ℕ)
    → va % 4096 ≡ 0
    → j < 4096
    → g (pdx (va + j)) (ptx (va + j)) ≡ g (pdx va) (ptx va)
within g va j aligned small =
    let d : pdx (va + j) ≡ pdx va = omega arith in
    let t : ptx (va + j) ≡ ptx va = omega arith in
    ap (λ x. g x (ptx (va + j))) d ∙ ap (g (pdx va)) t

abbrev entry_in : Kernel → ℕ → ℕ → ℕ
entry_in s d t = s.mem (s.mem s.cr3 d / 4096) t

can_store_within :
    (s : Kernel) (va j : ℕ) → va % 4096 ≡ 0 → j < 4096 → can_store s (va + j) ≡ can_store s va
unfolding can_store
can_store_within s = within λ d t.
    test (s.mem s.cr3 d) pte_p
    && test (s.mem s.cr3 d) pte_w
    && test (entry_in s d t) pte_p
    && test (entry_in s d t) pte_w

can_read_within :
    (s : Kernel) (va j : ℕ)
    → va % 4096 ≡ 0
    → j < 4096
    → user_can_read s (va + j) ≡ user_can_read s va
can_read_within s = within λ d t.
    (test (s.mem s.cr3 d) pte_p && test (s.mem s.cr3 d) pte_u)
    && (test (entry_in s d t) pte_p && test (entry_in s d t) pte_u)

entry_within :
    (s : Kernel) (va j : ℕ) → va % 4096 ≡ 0 → j < 4096 → entry_at s (va + j) ≡ entry_at s va
entry_within s = within (entry_in s)

allowed_eq :
    (s : Kernel) (dst src : ℕ)
    → user_can_read s src ≡ true
    → user_can_read s dst ≡ true
    → can_store s dst ≡ true
    → copy_byte dst src s
      ≡ returns tt (
          poke
            (entry_at s dst / 4096)
            (dst % 4096)
            (byte_at s.mem (entry_at s src / 4096) (src % 4096))
            s)
unfolding copy_byte
allowed_eq s dst src reads owns writes =
    let all : (user_can_read s src && (user_can_read s dst && can_store s dst)) ≡ true =
      ap (λ b. b && (user_can_read s dst && can_store s dst)) reads
      ∙ ap (λ b. b && can_store s dst) owns
      ∙ writes in
    ap
      (λ b.
        (if◌then◌else◌ b
            (put (
              poke (entry_at s dst / 4096) (dst % 4096)
                (byte_at s.mem (entry_at s src / 4096) (src % 4096)) s))
            (leave faulted))
          s)
      all

copy_byte_eq :
    (s : Kernel) (dst src n f j : ℕ)
    → CanCopy s dst src n f
    → j < 4096
    → copy_byte (dst + j) (src + j) s ≡ returns tt (poke n j (byte_at s.mem f j) s)
copy_byte_eq s dst src n f j can small =
    let k : (dst + j) % 4096 ≡ j = omega (arith, can.aligned) in
    let k' : (src + j) % 4096 ≡ j = omega (arith, can.aligned) in
    let to : entry_at s (dst + j) / 4096 ≡ n =
      ap (λ e. e / 4096) (entry_within s dst j can.aligned.0 small) ∙ can.to in
    let from : entry_at s (src + j) / 4096 ≡ f =
      ap (λ e. e / 4096) (entry_within s src j can.aligned.1 small) ∙ can.from in
    allowed_eq s (dst + j) (src + j) (can_read_within s src j can.aligned.1 small ∙ can.reads)
      (can_read_within s dst j can.aligned.0 small ∙ can.owns)
      (can_store_within s dst j can.aligned.0 small ∙ can.writes)
    ∙ ap
        (λ x. returns tt (
          poke x ((dst + j) % 4096) (byte_at s.mem (entry_at s (src + j) / 4096) ((src + j) % 4096))
            s))
        to
    ∙ ap (λ x. returns tt (poke n ((dst + j) % 4096) (byte_at s.mem x ((src + j) % 4096)) s)) from
    ∙ ap (λ x. returns tt (poke n x (byte_at s.mem f ((src + j) % 4096)) s)) k
    ∙ ap (λ x. returns tt (poke n j (byte_at s.mem f x) s)) k'

-- One byte more in front of those that have been copied.
merged :
    (new old : ℕ → ℕ) (i j m x p q : ℕ)
    → x ≡ (if leb (j + 1) i && ltb i (j + 1 + m) then p else q)
    → p ≡ new i
    → q ≡ (if j == i then new j else old i)
    → x ≡ (if leb j i && ltb i (j + suc m) then new i else old i)
merged new old i j m x p q hx hp hq = ground arith

-- The first `m` bytes from byte `j` on have been copied.
pub record Copied (n f j m : ℕ) (mem mem' : ℕ → ℕ → ℕ) : Type 0 where
  pub bytes :
      (i : ℕ)
      → byte_at mem' n i ≡ (if leb j i && ltb i (j + m) then byte_at mem f i else byte_at mem n i)
  pub elsewhere : (k : ℕ) → k ≢ n → mem' k ≡ mem k

pub copy_bytes-Copied :
    (m : ℕ) (s : Kernel) (dst src n f j : ℕ)
    → CanCopy s dst src n f
    → j + m ≤ 4096
    → (mem' : ℕ → ℕ → ℕ) × (copy_bytes m (dst + j) (src + j) s
        ≡ returns tt (record s { mem = mem' }))
      × Copied n f j m s.mem mem'
unfolding copy_bytes
copy_bytes-Copied zero s dst src n f j can fits =
    (s.mem, refl, record { bytes = λ i. ground arith; elsewhere = λ k ne. refl })
copy_bytes-Copied (suc m) s dst src n f j can fits =
    let s' = poke n j (byte_at s.mem f j) s in
    let small : byte_at s.mem f j < 256 = omega arith in
    let not_n : (n == f) ≡ false = eqb_ne n f can.other in
    let off : (i : ℕ) → byte_at s'.mem f i ≡ byte_at s.mem f i =
      λ i. byte_at-poke s n j (byte_at s.mem f j) f i small ∙ rw not_n refl in
    let d : dst + j + 1 ≡ dst + (j + 1) = omega arith in
    let r : src + j + 1 ≡ src + (j + 1) = omega arith in
    let (mem', run, rest) =
      copy_bytes-Copied m s' dst src n f (j + 1)
        (CanCopy-poke s dst src n f j (byte_at s.mem f j) can) (omega arith) in
    (
      mem',
      rw (copy_byte_eq s dst src n f j can (omega arith), d, r) run,
      record {
        bytes = λ i.
            merged (byte_at s.mem f) (byte_at s.mem n) i j m (byte_at mem' n i) (byte_at s'.mem f i)
              (byte_at s'.mem n i) (rest.bytes i) (off i)
              (byte_at-poke s n j (byte_at s.mem f j) n i small ∙ rw (eqb_refl n) refl);
        elsewhere = λ k ne. rest.elsewhere k ne ∙ ground arith;
      },
    )
