-- ===== src/Examples/Scheduling.antt =====
-- The properties of the scheduler on the machine of sixteen pages.
use junior_os.Base.{ℕ, ◌<◌, ◌≡◌, refl, arith}
use junior_os.Kernel.{Kernel, EnvStatus, leaves, entered}
use junior_os.Sched.{sched_yield}
use junior_os.Sched.Yield.{Runs, sched_yield-Runs}
use junior_os.Examples.Machines.{machine}

sched_yield-Runs_example :
    (e : ℕ) × (t : Kernel) × (sched_yield {A = Unit {0}} machine ≡ leaves (entered e) t)
    × (e < 1024)
    × ((machine.envs e).env_status ≡ EnvStatus.runnable)
    × Runs e machine t
sched_yield-Runs_example =
    sched_yield-Runs {A = Unit {0}} machine 1 (omega arith) refl (λ e ready. ground arith)
