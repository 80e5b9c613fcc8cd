-- ===== src/Envs/Ids.antt =====
-- Environment ids: the slot in the low digits, a generation above it.
use junior_os.Base.{ℕ, ◌+◌, ◌*◌, ◌/◌, ◌%◌, ◌^◌, ◌<◌, ◌≡◌, ◌≢◌, arith, bit_or, ap, subst, sym}
use junior_os.Base.Bits.{bit_or_field, zero-bit_or}
use junior_os.Machine.{envx}
use junior_os.Envs.{generation}

-- A generation is a positive int32_t with room for the slot, and not the one before.
generation_range :
    (old : ℕ) → (0 < generation old) × (generation old < 2 ^ 31) × (generation old % 1024 ≡ 0)
generation_range old = (ground arith, ground arith, ground arith)

generation_new : (old : ℕ) → old < 2 ^ 31 → generation old ≢ old / 1024 * 1024
generation_new old h = ground arith

or_slot : (g e : ℕ) → g % 1024 ≡ 0 → e < 1024 → bit_or g e ≡ g + e
or_slot g e whole h =
    let at : g ≡ g / 1024 * 1024 + 0 = omega arith in
    omega (
      arith,
      ap (λ x. bit_or x e) at,
      bit_or_field 10 (g / 1024) 0 e (omega arith) h,
      zero-bit_or e,
    )

abbrev IsNew : ℕ → ℕ → ℕ → Type 0
IsNew old e id = (0 < id) × (id < 2 ^ 31) × (envx id ≡ e) × (id ≢ old)

IsNew-add :
    (g e old : ℕ)
    → (0 < g) × (g < 2 ^ 31) × (g % 1024 ≡ 0)
    → g ≢ old / 1024 * 1024
    → e < 1024
    → IsNew old e (g + e)
IsNew-add g e old range fresh small =
    (omega arith, omega arith, omega arith, λ same. fresh (omega arith))

-- For an old id below 2 ^ 31 and a slot below NENV, the id that env_alloc gives to the slot is a
-- positive int32_t, names the slot, and differs from the id that the slot had before.
pub new_id :
    (old e : ℕ)
    → old < 2 ^ 31
    → e < 1024
    → (0 < bit_or (generation old) e)
      × (bit_or (generation old) e < 2 ^ 31)
      × (envx (bit_or (generation old) e) ≡ e)
      × (bit_or (generation old) e ≢ old)
new_id old e h small =
    let range = generation_range old in
    subst (IsNew old e) (sym (or_slot (generation old) e range.2 small))
      (IsNew-add (generation old) e old range (generation_new old h) small)
