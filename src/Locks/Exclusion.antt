-- ===== src/Locks/Exclusion.antt =====
-- Mutual exclusion: on every schedule one CPU at most is between spin_lock and spin_unlock.
use junior_os.Base.{
  ℕ, zero, suc, ◌+◌, ◌≤◌, ◌≡◌, ◌≢◌, refl, Bool, true, false, some, List, [], ◌∷◌, ◌++◌, arith, ◌∙◌,
  ap, Bool-cases, inl, inr, ◌⊎◌,
}
use junior_os.Locks.{
  Stage, System, advance, step, initial, run, outside, entry_locked, entry_cpu, spinning, acquired,
  inside, exit_locked, exit_cpu, clearing, releasing, broken,
}

-- From the xchg that takes the lock to the one that gives it back.
abbrev pub is_critical : Stage → Bool
is_critical outside = false
is_critical entry_locked = false
is_critical entry_cpu = false
is_critical spinning = false
is_critical broken = false
is_critical _ = true

-- While lk->cpu is this CPU.
abbrev is_owner : Stage → Bool
is_owner inside = true
is_owner exit_locked = true
is_owner exit_cpu = true
is_owner clearing = true
is_owner _ = false

abbrev pub is_broken : Stage → Bool
is_broken broken = true
is_broken _ = false

pub record IsExclusive (s : System) : Type 0 where
  pub alone : (i j : ℕ) → is_critical (s.stage i) ≡ true → is_critical (s.stage j) ≡ true → i ≡ j
  pub held : (i : ℕ) → is_critical (s.stage i) ≡ true → s.lock.held ≡ true
  pub owner : (i : ℕ) → is_owner (s.stage i) ≡ true → s.lock.cpu ≡ some i
  pub owned : (i : ℕ) → s.lock.cpu ≡ some i → is_owner (s.stage i) ≡ true
  pub holder : s.lock.held ≡ true → (k : ℕ) × (is_critical (s.stage k) ≡ true)
  pub sane : (i : ℕ) → is_broken (s.stage i) ≡ false

initial-IsExclusive : IsExclusive initial
initial-IsExclusive = record {
  alone = λ i j hi hj. cc;
  held = λ i h. cc;
  owner = λ i h. cc;
  owned = λ i h. cc;
  holder = λ h. absurd (ground arith);
  sane = λ i. refl;
}

module _ (s : System) (k : ℕ) (v : IsExclusive s) where
  advance-holder :
      (st : Stage)
      → s.stage k ≡ st
      → (advance k st s).lock.held ≡ true
      → (i : ℕ) × (is_critical ((advance k st s).stage i) ≡ true)
  unfolding advance
  advance-holder st at taken = elim (Bool-cases s.lock.held) [
    | inl before ↦
        let (i, crit) = v.holder before in
        (i, ground (arith, v.held i, v.held k, v.owner k, v.sane k))
    | inr free ↦ (k, ground (arith, v.held k))
  ]

  advance-IsExclusive : (st : Stage) → s.stage k ≡ st → IsExclusive (advance k st s)
  unfolding advance
  advance-IsExclusive st at = record {
    alone = λ i j hi hj. ground (arith, v.alone i j, v.alone i k, v.alone k j, v.held i, v.held j);
    held = λ i h. ground (arith, v.held i, v.held k, v.alone i k);
    owner = λ i h. ground (arith, v.owner i, v.owner k, v.alone i k, v.held i);
    owned = λ i h. ground (arith, v.owned i, v.owned k, v.owner k, v.held k);
    holder = advance-holder st at;
    sane = λ i. ground (arith, v.sane i, v.owned k, v.owner k, v.held k);
  }

pub step-IsExclusive : (k : ℕ) (s : System) → IsExclusive s → IsExclusive (step k s)
step-IsExclusive k s v = advance-IsExclusive s k v (s.stage k) refl

run-IsExclusive : (is : List ℕ) (s : System) → IsExclusive s → IsExclusive (run is s)
unfolding run
run-IsExclusive [] s v = v
run-IsExclusive (i ∷ is) s v = run-IsExclusive is (step i s) (step-IsExclusive i s v)

-- Whatever the order in which the CPUs take their steps, from the lock's initial state one of them
-- at most is between the xchg that takes the lock and the one that gives it back, and no call of
-- spin_lock or spin_unlock that is made in turn panics.
pub run-initial-IsExclusive : (is : List ℕ) → IsExclusive (run is initial)
run-initial-IsExclusive is = run-IsExclusive is initial initial-IsExclusive

-- The steps that a CPU still takes in its critical section.
steps_left : Stage → ℕ
steps_left acquired = 6
steps_left inside = 5
steps_left exit_locked = 4
steps_left exit_cpu = 3
steps_left clearing = 2
steps_left releasing = 1
steps_left _ = 0

turns : ℕ → ℕ → List ℕ
turns zero k = []
turns (suc n) k = k ∷ turns n k

-- A CPU in its critical section, left alone, gives the lock back; no other CPU moves.
record Freed (k : ℕ) (s t : System) : Type 0 where
  free : t.lock.held ≡ false
  out : t.stage k ≡ outside
  others : (i : ℕ) → i ≢ k → t.stage i ≡ s.stage i

module _ (k : ℕ) where
  leave_one :
      (s : System)
      → IsExclusive s
      → is_critical (s.stage k) ≡ true
      → Freed k s (step k s)
        ⊎ ((steps_left ((step k s).stage k) + 1 ≡ steps_left (s.stage k))
            × (is_critical ((step k s).stage k) ≡ true)
            × ((i : ℕ) → i ≢ k → (step k s).stage i ≡ s.stage i))
  unfolding advance steps_left
  leave_one s v crit = go (s.stage k) refl
    where
      go :
          (st : Stage)
          → s.stage k ≡ st
          → Freed k s (advance k st s)
            ⊎ ((steps_left ((advance k st s).stage k) + 1 ≡ steps_left st)
                × (is_critical ((advance k st s).stage k) ≡ true)
                × ((i : ℕ) → i ≢ k → (advance k st s).stage i ≡ s.stage i))
      go releasing at =
          inl (record { free = refl; out = ground arith; others = λ i ne. ground arith })
      go acquired at = inr (ground arith, ground arith, λ i ne. ground arith)
      go inside at = inr (ground arith, ground arith, λ i ne. ground arith)
      go exit_locked at =
          inr (ground (arith, v.held k), ground (arith, v.held k), λ i ne. ground arith)
      go exit_cpu at =
          inr (ground (arith, v.owner k), ground (arith, v.owner k), λ i ne. ground arith)
      go clearing at = inr (ground arith, ground arith, λ i ne. ground arith)
      go other at = absurd (ground arith)

  leave_all :
      (n : ℕ) (s : System)
      → IsExclusive s
      → is_critical (s.stage k) ≡ true
      → steps_left (s.stage k) ≤ n
      → (m : ℕ) × Freed k s (run (turns m k) s)
  unfolding run turns steps_left
  leave_all zero s v crit small = absurd (ground (arith, none_left (s.stage k)))
    where
      none_left : (st : Stage) → is_critical st ≡ true → steps_left st ≢ 0
      none_left st c = ground arith
  leave_all (suc n) s v crit small = elim (leave_one s v crit) [
    | inl freed ↦ (1, freed)
    | inr (fewer, still, same) ↦
        let (m, freed) = leave_all n (step k s) (step-IsExclusive k s v) still (omega arith) in
        (
          suc m,
          record {
            free = freed.free;
            out = freed.out;
            others = λ i ne. freed.others i ne ∙ same i ne;
          },
        )
  ]

run-append : (is js : List ℕ) (s : System) → run (is ++ js) s ≡ run js (run is s)
unfolding run
run-append [] js s = refl
run-append (i ∷ is) js s = run-append is js (step i s)

take_free :
    (s : System) (i : ℕ)
    → s.stage i ≡ spinning
    → s.lock.held ≡ false
    → (run (i ∷ i ∷ []) s).stage i ≡ inside
unfolding run
take_free s i waits free = ground arith

-- In every state that the lock can reach, a CPU that spins can get the lock: there is a way to go
-- on, on which it does.
pub run_acquires :
    (is : List ℕ) (i : ℕ)
    → (run is initial).stage i ≡ spinning
    → (js : List ℕ) × ((run (is ++ js) initial).stage i ≡ inside)
unfolding steps_left
run_acquires is i waits =
    let s = run is initial in
    let v = run-initial-IsExclusive is in
    elim (Bool-cases s.lock.held) [
      | inr free ↦ (
        i ∷ i ∷ [],
        ap (λ (t : System). t.stage i) (run-append is (i ∷ i ∷ []) initial)
            ∙ take_free s i waits free,
      )
      | inl taken ↦
          let (k, crit) = v.holder taken in
          let (m, freed) = leave_all k 6 s v crit (most (s.stage k)) in
          let other : i ≢ k = λ same. ground arith in
          let t = run (turns m k) s in
          (
            turns m k ++ i ∷ i ∷ [],
            ap (λ (t : System). t.stage i)
                  (run-append is (turns m k ++ i ∷ i ∷ []) initial
                    ∙ run-append (turns m k) (i ∷ i ∷ []) s)
                ∙ take_free t i (freed.others i other ∙ waits) freed.free,
          )
    ]
  where
    most : (st : Stage) → steps_left st ≤ 6
    most st = ground arith
