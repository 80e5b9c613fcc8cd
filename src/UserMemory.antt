-- ===== src/UserMemory.antt =====
-- Memory as the kernel reaches it through user addresses: a store goes through the page directory in
-- cr3, and page n holds 4096 bytes, four to a word, the lowest first.
pub mod Stores
use junior_os.Base.{
  ℕ, ◌+◌, ◌-◌, ◌*◌, ◌/◌, ◌%◌, ◌^◌, Bool, ◌&&◌, List, [], ◌∷◌, if◌then◌else◌, update,
}
use junior_os.Machine.{word, pdx, ptx, pte_p, pte_w, test, add32}
use junior_os.Kernel.{Kernel, Cmd, pure, ◌>>=◌, ◌>>◌, get, put, panic}

-- Byte `j` of physical page `n`.
abbrev pub byte_at : (ℕ → ℕ → ℕ) → ℕ → ℕ → ℕ
byte_at mem n j = mem n (j / 4) / 256 ^ (j % 4) % 256

-- A word with its byte `k` replaced.
abbrev pub with_byte : ℕ → ℕ → ℕ → ℕ
with_byte w k b = w - w / 256 ^ k % 256 * 256 ^ k + b * 256 ^ k

abbrev pub poke : ℕ → ℕ → ℕ → Kernel → Kernel
poke n j b s = record s {
  mem = update s.mem n (update (s.mem n) (j / 4) (with_byte (s.mem n (j / 4)) (j % 4) b));
}

abbrev pub entry_at : Kernel → ℕ → ℕ
entry_at s va = s.mem (s.mem s.cr3 (pdx va) / 4096) (ptx va)

-- The processor stores a byte where both entries are present and writable (CR0_WP is set); where
-- they are not, the fault is one of the kernel's own, which panics.
unfoldable pub can_store : Kernel → ℕ → Bool
can_store s va =
    test (s.mem s.cr3 (pdx va)) pte_p
    && test (s.mem s.cr3 (pdx va)) pte_w
    && test (entry_at s va) pte_p
    && test (entry_at s va) pte_w

unfoldable pub store_byte : ℕ → ℕ → Cmd (Unit {0})
store_byte va b = do
  s ← get
  if can_store s va then put (poke (entry_at s va / 4096) (va % 4096) b s) else panic

unfoldable pub store_bytes : ℕ → List ℕ → Cmd (Unit {0})
store_bytes va [] = pure tt
store_bytes va (b ∷ bs) = store_byte va b >> store_bytes (add32 va 1) bs

-- The four bytes of a word, the lowest first.
abbrev pub bytes_of : ℕ → List ℕ → List ℕ
bytes_of w rest = w % 256 ∷ w / 256 % 256 ∷ w / 65536 % 256 ∷ w / 16777216 % 256 ∷ rest

unfoldable pub words_of : List ℕ → List ℕ
words_of [] = []
words_of (w ∷ ws) = bytes_of w (words_of ws)
