-- ===== src/UserMemory/Stores.antt =====
-- What a run of stores leaves on a page.
use junior_os.Base.{
  ℕ, zero, suc, ◌+◌, ◌/◌, ◌%◌, ◌^◌, ◌<◌, ◌≤◌, ◌≡◌, ◌≢◌, refl, true, ◌&&◌, List, [], ◌∷◌, ◌==◌,
  if◌then◌else◌, length, arith, ◌∙◌, ◌⊎◌, inl,
}
use junior_os.Machine.{pdx, ptx, add32}
use junior_os.Kernel.{Kernel, returns}
use junior_os.UserMemory.{byte_at, with_byte, poke, entry_at, can_store, store_byte, store_bytes}

-- A byte of a word after a byte of it has been replaced.
byte-with_byte :
    (w k j b : ℕ)
    → k < 4
    → j < 4
    → b < 256
    → with_byte w k b / 256 ^ j % 256 ≡ (if k == j then b else w / 256 ^ j % 256)
byte-with_byte w zero zero b hk hj hb = ground arith
byte-with_byte w zero (suc zero) b hk hj hb = ground arith
byte-with_byte w zero (suc (suc zero)) b hk hj hb = ground arith
byte-with_byte w zero (suc (suc (suc zero))) b hk hj hb = ground arith
byte-with_byte w (suc zero) zero b hk hj hb = ground arith
byte-with_byte w (suc zero) (suc zero) b hk hj hb = ground arith
byte-with_byte w (suc zero) (suc (suc zero)) b hk hj hb = ground arith
byte-with_byte w (suc zero) (suc (suc (suc zero))) b hk hj hb = ground arith
byte-with_byte w (suc (suc zero)) zero b hk hj hb = ground arith
byte-with_byte w (suc (suc zero)) (suc zero) b hk hj hb = ground arith
byte-with_byte w (suc (suc zero)) (suc (suc zero)) b hk hj hb = ground arith
byte-with_byte w (suc (suc zero)) (suc (suc (suc zero))) b hk hj hb = ground arith
byte-with_byte w (suc (suc (suc zero))) zero b hk hj hb = ground arith
byte-with_byte w (suc (suc (suc zero))) (suc zero) b hk hj hb = ground arith
byte-with_byte w (suc (suc (suc zero))) (suc (suc zero)) b hk hj hb = ground arith
byte-with_byte w (suc (suc (suc zero))) (suc (suc (suc zero))) b hk hj hb = ground arith
byte-with_byte w (suc (suc (suc (suc k)))) j b hk hj hb = absurd (omega arith)
byte-with_byte w k (suc (suc (suc (suc j)))) b hk hj hb = absurd (omega arith)

pub byte_at-poke :
    (s : Kernel) (n j b n' j' : ℕ)
    → b < 256
    → byte_at (poke n j b s).mem n' j' ≡ (if (n == n') && (j == j') then b else byte_at s.mem n' j')
byte_at-poke s n j b n' j' small =
    ground (arith, byte-with_byte (s.mem n (j / 4)) (j % 4) (j' % 4) b)

-- From byte `j` of the page on stand the bytes `bs`.
abbrev pub Holds : (ℕ → ℕ → ℕ) → ℕ → ℕ → List ℕ → Type 0
Holds mem n j [] = Unit
Holds mem n j (b ∷ bs) = (byte_at mem n j ≡ b) × Holds mem n (j + 1) bs

abbrev pub AreBytes : List ℕ → Type 0
AreBytes [] = Unit
AreBytes (b ∷ bs) = (b < 256) × AreBytes bs

-- Page `f` is mapped writable at `va`, and is neither the directory nor the page table that maps it.
pub record IsWritable (s : Kernel) (va f : ℕ) : Type 0 where
  pub allowed : can_store s va ≡ true
  pub frame : entry_at s va / 4096 ≡ f
  pub root : f ≢ s.cr3
  pub table : f ≢ s.mem s.cr3 (pdx va) / 4096

IsWritable-poke :
    (s : Kernel) (va f j b : ℕ)
    → IsWritable s va f
    → (va % 4096) + 1 < 4096
    → va < 2 ^ 32
    → IsWritable (poke f j b s) (add32 va 1) f
unfolding can_store
IsWritable-poke s va f j b w inside small =
    let d : pdx (add32 va 1) ≡ pdx va = omega arith in
    let t : ptx (add32 va 1) ≡ ptx va = omega arith in
    record {
      allowed = rw (d, t) (ground (arith, w.allowed, w.root, w.table));
      frame = rw (d, t) (ground (arith, w.frame, w.root, w.table));
      root = w.root;
      table = rw d (ground (arith, w.root, w.table));
    }

-- The state after the stores: the bytes stand on the page, the rest of memory is as before.
pub record Stored (f j : ℕ) (bs : List ℕ) (mem mem' : ℕ → ℕ → ℕ) : Type 0 where
  pub holds : Holds mem' f j bs
  pub beside : (i : ℕ) → (i < j) ⊎ (j + length bs ≤ i) → byte_at mem' f i ≡ byte_at mem f i
  pub elsewhere : (n : ℕ) → n ≢ f → mem' n ≡ mem n

store_byte_eq :
    (s : Kernel) (va f j b : ℕ)
    → IsWritable s va f
    → va % 4096 ≡ j
    → store_byte va b s ≡ returns tt (poke f j b s)
unfolding store_byte
store_byte_eq s va f j b w at = rw (w.allowed, w.frame, at) refl

nonempty : (j : ℕ) (bs : List ℕ) → bs ≢ [] → j + suc (length bs) ≤ 4096 → j + 1 < 4096
nonempty j [] more fits = absurd (more refl)
nonempty j (c ∷ cs) more fits = omega arith

-- A run of bytes from byte `j` of a page that is mapped writable, up to its end at most, is stored
-- there.
pub store_bytes-Stored :
    (s : Kernel) (va f j : ℕ) (bs : List ℕ)
    → j + length bs ≤ 4096
    → va < 2 ^ 32
    → AreBytes bs
    → (bs ≢ [] → IsWritable s va f × (va % 4096 ≡ j))
    → (mem' : ℕ → ℕ → ℕ) × (store_bytes va bs s ≡ returns tt (record s { mem = mem' }))
      × Stored f j bs s.mem mem'
unfolding store_bytes
store_bytes-Stored s va f j [] fits small bytes w =
    (s.mem, refl, record { holds = tt; beside = λ i out. refl; elsewhere = λ n ne. refl })
store_bytes-Stored s va f j (b ∷ bs) fits small (hb, bytes) w =
    let (here, at) = w (cc) in
    let s' = poke f j b s in
    let next : bs ≢ [] → IsWritable s' (add32 va 1) f × (add32 va 1 % 4096 ≡ j + 1) = λ more.
      let room = nonempty j bs more fits in
      (IsWritable-poke s va f j b here (omega arith) small, omega arith) in
    let (mem', run, rest) =
      store_bytes-Stored s' (add32 va 1) f (j + 1) bs (omega arith) (omega arith) bytes next in
    let kept : byte_at mem' f j ≡ byte_at s'.mem f j = rest.beside j (inl (omega arith)) in
    (
      mem',
      rw (store_byte_eq s va f j b here at) run,
      record {
        holds = (kept ∙ (byte_at-poke s f j b f j hb ∙ ground arith), rest.holds);
        beside = λ i out. ground (arith, rest.beside i, byte_at-poke s f j b f i hb);
        elsewhere = λ n ne. ground (arith, rest.elsewhere n);
      },
    )
