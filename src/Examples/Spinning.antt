-- ===== src/Examples/Spinning.antt =====
-- Schedules of two CPUs that take the kernel lock.
use junior_os.Base.{ℕ, ◌≡◌, refl, List, [], ◌∷◌, ◌++◌}
use junior_os.Locks.{initial, run, inside}
use junior_os.Locks.Exclusion.{IsExclusive, run-initial-IsExclusive, run_acquires}

-- CPU 0 takes the lock, while CPU 1 looks at it and spins.
abbrev contended : List ℕ
contended = 0 ∷ 1 ∷ 0 ∷ 1 ∷ 0 ∷ 1 ∷ 0 ∷ 1 ∷ []

run-initial-IsExclusive_example : IsExclusive (run contended initial)
run-initial-IsExclusive_example = run-initial-IsExclusive contended

run_acquires_example : (js : List ℕ) × ((run (contended ++ js) initial).stage 1 ≡ inside)
unfolding run
run_acquires_example = run_acquires contended 1 refl
