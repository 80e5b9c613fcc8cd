-- ===== src/Locks.antt =====
-- The kernel lock as several CPUs use it: jos-lab4/kern/spinlock.c, spin_lock, spin_unlock and
-- holding, with DEBUG_SPINLOCK. Each step is one access to the lock by one CPU; `xchg` is one access.
pub mod Exclusion
use junior_os.Base.{
  ℕ, Bool, true, false, Option, none, some, List, [], ◌∷◌, ◌==◌, if◌then◌else◌, update,
}
use junior_os.Vm.{points_to}

pub record Spinlock : Type 0 where
  pub held : Bool  -- `locked`
  pub cpu : Option ℕ

-- What a CPU does next.
pub data Stage : Type 0 where
  outside : Stage  -- it may call spin_lock
  entry_locked : Stage  -- spin_lock: `holding` reads `locked`
  entry_cpu : Stage  -- and then `cpu`
  spinning : Stage  -- xchg(&lk->locked, 1)
  acquired : Stage  -- lk->cpu = thiscpu
  inside : Stage  -- it may call spin_unlock
  exit_locked : Stage  -- spin_unlock: `holding` reads `locked`
  exit_cpu : Stage  -- and then `cpu`
  clearing : Stage  -- lk->cpu = 0
  releasing : Stage  -- xchg(&lk->locked, 0)
  broken : Stage  -- panic

pub record System : Type 0 where
  pub lock : Spinlock
  pub stage : ℕ → Stage

abbrev pub go : ℕ → Stage → System → System
go i next s = record s { stage = update s.stage i next }

-- The next access of CPU `i`.
pub advance : ℕ → Stage → System → System
advance i outside s = go i entry_locked s
advance i entry_locked s = go i (if s.lock.held then entry_cpu else spinning) s
advance i entry_cpu s = go i (if points_to s.lock.cpu i then broken else spinning) s
advance i spinning s =
    go i (if s.lock.held then spinning else acquired)
      (record s { lock = record (s.lock) { held = true } })
advance i acquired s = go i inside (record s { lock = record (s.lock) { cpu = some i } })
advance i inside s = go i exit_locked s
advance i exit_locked s = go i (if s.lock.held then exit_cpu else broken) s
advance i exit_cpu s = go i (if points_to s.lock.cpu i then clearing else broken) s
advance i clearing s = go i releasing (record s { lock = record (s.lock) { cpu = none } })
advance i releasing s = go i outside (record s { lock = record (s.lock) { held = false } })
advance i broken s = s

abbrev pub step : ℕ → System → System
step i s = advance i (s.stage i) s

-- __spin_initlock, before any CPU takes the lock.
abbrev pub initial : System
initial = record { lock = record { held = false; cpu = none }; stage = λ _. outside }

-- The CPUs take their steps in the order of the schedule.
unfoldable pub run : List ℕ → System → System
unfolding advance
run [] s = s
run (i ∷ is) s = run is (step i s)
