-- ===== src/Sched/Probe.antt =====
-- The search of sched_yield goes by steps of 0, 1, 2, 3 and so on. Modulo 1024, a power of two, the
-- triangular numbers reach every residue, so the search looks at every slot.
use junior_os.Base.{
  ℕ, zero, suc, ◌+◌, ◌-◌, ◌*◌, ◌/◌, ◌%◌, ◌^◌, ◌<◌, ◌≡◌, refl, Bool, true, false, ◌&&◌, none, some,
  ◌==◌, ltb, if◌then◌else◌, arith, subst,
}
use native.Mathlib.Decide.{dec_lt}
use junior_os.Machine.{nenv}
use junior_os.Kernel.{Env}
use junior_os.Envs.{is_runnable}
use junior_os.Sched.{probe}

-- 0 + 1 + … + k.
triangle : ℕ → ℕ
triangle k = k * (k + 1) / 2

-- The number of the round at which the search from 0 is at `d`, modulo `2 ^ k`: if the round for
-- `2 ^ (k - 1)` is half a turn off, its mirror image is not.
round_of : ℕ → ℕ → ℕ
round_of zero d = 0
round_of (suc k) d =
    let r = round_of k d in if triangle r % 2 ^ suc k == d % 2 ^ suc k then r else 2 ^ suc k - 1 - r

-- Does the test hold of every number below the bound?
every : (ℕ → Bool) → ℕ → Bool
every pass zero = true
every pass (suc bound) = every pass bound && pass bound

every_at : (pass : ℕ → Bool) (bound d : ℕ) → d < bound → every pass bound ≡ true → pass d ≡ true
unfolding every
every_at pass zero d inside all = absurd (omega arith)
every_at pass (suc bound) d inside all = elim (dec_lt d bound) [
  | yes lower ↦ every_at pass bound d lower (ground arith)
  | no top ↦ let same : d ≡ bound = omega arith in ground arith
]

abbrev is_reached : ℕ → Bool
is_reached d = triangle (round_of 10 d) % 1024 == d && ltb (round_of 10 d) 1024

reached_table : every is_reached 1024 ≡ true
unfolding every triangle round_of
reached_table = refl

reached : (d : ℕ) → d < 1024 → (triangle (round_of 10 d) % 1024 ≡ d) × (round_of 10 d < 1024)
reached d h = ground (arith, every_at is_reached 1024 d h reached_table)

-- The slot of the `k`th round that follows.
slot : ℕ → ℕ → ℕ → ℕ
slot i idx zero = (idx + i) % 1024
slot i idx (suc k) = slot (i + 1) ((idx + i) % 1024) k

triangle-suc : (k : ℕ) → triangle (suc k) ≡ triangle k + suc k
unfolding triangle
triangle-suc k = omega arith

slot_closed : (k i idx : ℕ) → slot i idx k ≡ (idx + suc k * i + triangle k) % 1024
unfolding slot triangle
slot_closed zero i idx = omega arith
slot_closed (suc k) i idx = omega (arith, triangle-suc k, slot_closed k (i + 1) ((idx + i) % 1024))

-- A search that finds nothing has looked at the slot of every round.
probe-none :
    (envs : ℕ → Env) (rounds i idx k : ℕ)
    → probe envs rounds i idx ≡ none
    → k < rounds
    → is_runnable (envs (slot i idx k)).env_status ≡ false
unfolding probe slot
probe-none envs zero i idx k h lt = absurd (omega arith)
probe-none envs (suc rounds) i idx zero h lt = ground arith
probe-none envs (suc rounds) i idx (suc k) h lt =
    ground (arith, probe-none envs rounds (i + 1) ((idx + i) % 1024) k)

pub probe-some :
    (envs : ℕ → Env) (rounds i idx e : ℕ)
    → probe envs rounds i idx ≡ some e
    → (e < 1024) × (is_runnable (envs e).env_status ≡ true)
unfolding probe
probe-some envs zero i idx e h = cc
probe-some envs (suc rounds) i idx e h =
    ground (arith, probe-some envs rounds (i + 1) ((idx + i) % 1024) e)

-- From any start, a search of NENV rounds that finds nothing has looked at every environment: none
-- of them is runnable.
pub probe_complete :
    (envs : ℕ → Env) (start e : ℕ)
    → probe envs nenv 0 start ≡ none
    → e < 1024
    → is_runnable (envs e).env_status ≡ false
probe_complete envs start e h lt =
    let d = (e + 1024 - start % 1024) % 1024 in
    let (turn, small) = reached d (omega arith) in
    let at : slot 0 start (round_of 10 d) ≡ e =
      omega (arith, slot_closed (round_of 10 d) 0 start) in
    subst (λ n. is_runnable (envs n).env_status ≡ false) at
      (probe-none envs 1024 0 start (round_of 10 d) h small)
