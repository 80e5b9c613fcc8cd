-- ===== src/Vm/Tables.antt =====
-- How many page tables a range of pages needs.
use junior_os.Base.{
  ℕ, zero, suc, ◌+◌, ◌-◌, ◌/◌, ◌%◌, ◌<◌, ◌≤◌, ◌≡◌, ◌≢◌, ◌⊎◌, inl, inr, refl, Bool, true, false,
  arith,
}

-- The page tables that `rounds` pages from the `o`th of a slot on can need; the first is there
-- already unless `fresh`.
abbrev pub tables : Bool → ℕ → ℕ → ℕ
tables fresh o zero = 0
tables true o (suc rounds) = (o + suc rounds + 1023) / 1024
tables false o (suc rounds) = (o + suc rounds + 1023) / 1024 - 1

-- Slot positions of two pages that follow one another.
abbrev pub IsNext : Bool → ℕ → ℕ → Type 0
IsNext false o o' = o' ≡ o + 1
IsNext true o o' = (o ≡ 1023) × (o' ≡ 0)

-- A round costs a page table at most, and none if the table is there.
pub tables_step :
    (fresh next : Bool) (o o' rounds before after : ℕ)
    → o < 1024
    → IsNext next o o'
    → before ≤ after + 1
    → (fresh ≡ false → before ≡ after)
    → tables fresh o (suc rounds) ≤ before
    → (tables next o' rounds ≤ after)
      × ((left : ℕ)
          → after ≤ left + tables next o' rounds
          → before ≤ left + tables fresh o (suc rounds))
tables_step true true o o' zero before after small adj cost free room =
    (omega arith, λ left h. omega arith)
tables_step true true o o' (suc r) before after small adj cost free room =
    (omega arith, λ left h. omega arith)
tables_step true false o o' zero before after small adj cost free room =
    (omega arith, λ left h. omega arith)
tables_step true false o o' (suc r) before after small adj cost free room =
    (omega arith, λ left h. omega arith)
tables_step false true o o' zero before after small adj cost free room =
    let same = free refl in (omega arith, λ left h. omega arith)
tables_step false true o o' (suc r) before after small adj cost free room =
    let same = free refl in (omega arith, λ left h. omega arith)
tables_step false false o o' zero before after small adj cost free room =
    let same = free refl in (omega arith, λ left h. omega arith)
tables_step false false o o' (suc r) before after small adj cost free room =
    let same = free refl in (omega arith, λ left h. omega arith)

-- A page table is there, or a page is left for it.
pub walkable :
    (fresh : Bool) (o rounds entry available : ℕ)
    → tables fresh o (suc rounds) ≤ available
    → (fresh ≡ false → entry % 2 ≡ 1)
    → (entry ≢ 0) ⊎ (0 < available)
walkable true o rounds entry available room there = inr (omega arith)
walkable false o rounds entry available room there = let p = there refl in inl (omega arith)
