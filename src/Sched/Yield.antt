-- ===== src/Sched/Yield.antt =====
-- env_run, sched_halt, sched_yield and env_destroy: where control goes, and in which state.
use junior_os.Base.{
  ℕ, zero, suc, ◌+◌, ◌%◌, ◌<◌, ◌≡◌, ◌≢◌, refl, inl, inr, true, false, none, some, Option,
  if◌then◌else◌, arith, update, Bool-cases, Option-cases, ◌∙◌,
}
use native.Mathlib.Decide.{dec_lt}
use junior_os.Machine.{nenv, word}
use junior_os.Kernel.{
  Kernel, Env, EnvStatus, returns, leaves, entered, halted, in_monitor, cpu_halted,
}
use junior_os.Envs.{is_runnable, is_running}
use junior_os.Sched.{
  retire, resume, env_run, sched_halt, sched_yield, any_live, is_live, probe, first_idx,
}
use junior_os.Sched.Probe.{probe-some, probe_complete}

-- The environments after `env_run e`: the one that was running is runnable, `e` is running.
abbrev retired : Option ℕ → (ℕ → Env) → ℕ → Env
retired none envs = envs
retired (some c) envs =
    if is_running (envs c).env_status
    then update envs c (record (envs c) { env_status = EnvStatus.runnable })
    else envs

-- Control is in environment `e`: it is current and running on this CPU, on its own page directory,
-- with one run more, and the kernel lock is released.
pub record Runs (e : ℕ) (s t : Kernel) : Type 0 where
  pub current : t.curenv ≡ some e
  pub running : (t.envs e).env_status ≡ EnvStatus.running
  pub directory : (s.envs e).env_pgdir ≡ some t.cr3
  pub counted : (t.envs e).env_runs ≡ ((s.envs e).env_runs + 1) % word
  pub placed : (t.envs e).env_cpunum ≡ s.cpunum
  pub unlocked : t.locked ≡ false
  pub frame : (t.envs e).env_tf ≡ (s.envs e).env_tf
  -- The environment that this CPU ran before is runnable again; any other keeps its status.
  pub retired_one :
      (c : ℕ)
      → s.curenv ≡ some c
      → c ≢ e
      → (s.envs c).env_status ≡ EnvStatus.running
      → (t.envs c).env_status ≡ EnvStatus.runnable
  pub others : (i : ℕ) → i ≢ e → s.curenv ≢ some i → t.envs i ≡ s.envs i
  pub frames : (i : ℕ) → (t.envs i).env_tf ≡ (s.envs i).env_tf
  pub memory : (t.mem ≡ s.mem) × (t.page ≡ s.page)

abbrev started : (ℕ → Env) → ℕ → ℕ → Env
started envs e =
    update envs e (record (envs e) {
      env_status = EnvStatus.running;
      env_runs = ((envs e).env_runs + 1) % word;
    })

abbrev placed_on : ℕ → (ℕ → Env) → ℕ → ℕ → Env
placed_on cpunum envs e = update envs e (record (envs e) { env_cpunum = cpunum })

abbrev ran : Kernel → ℕ → ℕ → Kernel
ran s e pgdir = record s {
  curenv = some e;
  envs = placed_on s.cpunum (started (retired s.curenv s.envs) e) e;
  cr3 = pgdir;
  locked = false;
}

retired-pgdir :
    (c : Option ℕ) (envs : ℕ → Env) (e : ℕ) → (retired c envs e).env_pgdir ≡ (envs e).env_pgdir
retired-pgdir none envs e = refl
retired-pgdir (some c) envs e = ground arith

retire_eq :
    (c : Option ℕ) (s : Kernel) → retire c s ≡ returns tt (record s { envs = retired c s.envs })
unfolding env_run
retire_eq none s = refl
retire_eq (some c) s = elim (Bool-cases (is_running (s.envs c).env_status)) [
  | inl r ↦ rw r refl
  | inr r ↦ rw r refl
]

module _ (s : Kernel) (e pgdir : ℕ) (has : (s.envs e).env_pgdir ≡ some pgdir) where
  ran-Runs : (c : Option ℕ) → s.curenv ≡ c → Runs e s (ran s e pgdir)
  ran-Runs none from = record {
    current = refl;
    running = ground arith;
    directory = has;
    counted = rw from (ground arith);
    placed = ground arith;
    unlocked = refl;
    frame = rw from (ground arith);
    retired_one = λ d cur. ground arith;
    others = λ i ne off. rw from (ground arith);
    frames = λ i. rw from (ground arith);
    memory = (refl, refl);
  }
  ran-Runs (some c) from = record {
    current = refl;
    running = ground arith;
    directory = has;
    counted = rw from (ground arith);
    placed = ground arith;
    unlocked = refl;
    frame = rw from (ground arith);
    retired_one = λ d cur. rw from (ground arith);
    others = λ i ne off. rw from (ground arith);
    frames = λ i. rw from (ground arith);
    memory = (refl, refl);
  }

module _ {A : Type 0} (s : Kernel) (e pgdir : ℕ) (has : (s.envs e).env_pgdir ≡ some pgdir) where
  env_run_eq : env_run {A = A} e s ≡ leaves (entered e) (ran s e pgdir)
  unfolding env_run
  env_run_eq = rw (retire_eq s.curenv s, retired-pgdir s.curenv s.envs e ∙ has) refl

  -- env_run of an environment with a page directory enters it: it is current and running on this
  -- CPU with one run more and the frame it had, its directory is in cr3, the lock is released, the
  -- environment that was running on this CPU is runnable, and the others are as before.
  pub env_run-Runs : (t : Kernel) × (env_run {A = A} e s ≡ leaves (entered e) t) × Runs e s t
  env_run-Runs = (ran s e pgdir, env_run_eq, ran-Runs s e pgdir has s.curenv refl)

any_live-true :
    (envs : ℕ → Env) (n i : ℕ) → i < n → is_live (envs i).env_status ≡ true → any_live envs n ≡ true
unfolding sched_halt
any_live-true envs zero i lt h = absurd (omega arith)
any_live-true envs (suc n) i lt h = elim (dec_lt i n) [
  | yes below ↦ ground (arith, any_live-true envs n i)
  | no top ↦ let same : i ≡ n = omega arith in ground arith
]

any_live-false :
    (envs : ℕ → Env) (n : ℕ)
    → ((i : ℕ) → i < n → is_live (envs i).env_status ≡ false)
    → any_live envs n ≡ false
unfolding sched_halt
any_live-false envs zero h = refl
any_live-false envs (suc n) h =
    rw (h n (omega arith)) (any_live-false envs n (λ i lt. h i (omega arith)))

status_of : (st : EnvStatus) → is_runnable st ≡ true → st ≡ EnvStatus.runnable
status_of st h = ground arith

probe-idle :
    (s : Kernel) (start : ℕ)
    → ((e : ℕ) → e < 1024 → is_runnable (s.envs e).env_status ≡ false)
    → probe s.envs nenv 0 start ≡ none
probe-idle s start idle = elim (Option-cases (probe s.envs nenv 0 start)) [
  | inl e ↦ e
  | inr (e, found) ↦
      let (small, runnable) = probe-some s.envs 1024 0 start e found in
      absurd (ground (arith, idle e small))
]

resume_eq :
    {A : Type 0} (s : Kernel) (o : Option ℕ) (c : ℕ)
    → o ≡ some c
    → (s.envs c).env_status ≡ EnvStatus.running
    → resume {A = A} o s ≡ env_run c s
unfolding sched_yield
resume_eq s o c e running = rw (e, running) refl

-- With nobody to run, sched_yield comes to sched_halt.
idle_halts :
    {A : Type 0} (s : Kernel)
    → ((e : ℕ) → e < 1024 → is_runnable (s.envs e).env_status ≡ false)
    → ((c : ℕ) → s.curenv ≡ some c → is_running (s.envs c).env_status ≡ false)
    → sched_yield {A = A} s ≡ sched_halt s
unfolding sched_yield
idle_halts {A} s idle over =
    rw (probe-idle s (first_idx s.envs s.curenv) idle)
      (elim (Option-cases s.curenv) [ inl e ↦ rw e refl | inr (c, e) ↦ rw (e, over c e) refl ])

module _ {A : Type 0} (s : Kernel) where
  -- If some environment is runnable, and every runnable one has a page directory, sched_yield
  -- enters a runnable environment: it is current and running on its own page directory with one run
  -- more, the lock is released, and the environment that was running is runnable.
  pub sched_yield-Runs :
      (r : ℕ)
      → r < 1024
      → (s.envs r).env_status ≡ EnvStatus.runnable
      → ((e : ℕ) → (s.envs e).env_status ≡ EnvStatus.runnable → (s.envs e).env_pgdir ≢ none)
      → (e : ℕ) × (t : Kernel) × (sched_yield {A = A} s ≡ leaves (entered e) t)
        × (e < 1024)
        × ((s.envs e).env_status ≡ EnvStatus.runnable)
        × Runs e s t
  unfolding sched_yield
  sched_yield-Runs r lt ready has =
      elim (Option-cases (probe s.envs nenv 0 (first_idx s.envs s.curenv))) [
        | inl missed ↦
            absurd (ground (arith, probe_complete s.envs (first_idx s.envs s.curenv) r missed lt))
        | inr (e, found) ↦
            let (small, runnable) = probe-some s.envs 1024 0 (first_idx s.envs s.curenv) e found in
            let status : (s.envs e).env_status ≡ EnvStatus.runnable =
              status_of (s.envs e).env_status runnable in
            elim (Option-cases (s.envs e).env_pgdir) [
              | inl nothing ↦ absurd (has e status nothing)
              | inr (pgdir, some_pgdir) ↦
                  let (t, run, runs) = env_run-Runs {A = A} s e pgdir some_pgdir in
                  (e, t, rw found run, small, status, runs)
            ]
      ]

  module _ (idle : (e : ℕ) → e < 1024 → is_runnable (s.envs e).env_status ≡ false) where
    -- If none is runnable and the current one is still running and has a page directory,
    -- sched_yield enters it again.
    pub sched_yield_resumes :
        (c pgdir : ℕ)
        → s.curenv ≡ some c
        → (s.envs c).env_status ≡ EnvStatus.running
        → (s.envs c).env_pgdir ≡ some pgdir
        → (t : Kernel) × (sched_yield {A = A} s ≡ leaves (entered c) t) × Runs c s t
    unfolding sched_yield
    sched_yield_resumes c pgdir from running has =
        let (t, run, runs) = env_run-Runs {A = A} s c pgdir has in
        (
          t,
          rw (probe-idle s (first_idx s.envs s.curenv) idle)
              (resume_eq {A = A} s s.curenv c from running ∙ run),
          runs,
        )

    -- If none is runnable and the current one is not running, but some environment is running or
    -- dying, sched_yield halts the CPU without a current environment, on the kernel's page
    -- directory, with the lock released.
    pub sched_yield_halts :
        ((c : ℕ) → s.curenv ≡ some c → is_running (s.envs c).env_status ≡ false)
        → (i : ℕ) → i < 1024
        → is_live (s.envs i).env_status ≡ true
        → sched_yield {A = A} s
          ≡ leaves halted (record s {
            curenv = none;
            cr3 = s.kern_pgdir;
            cpu_status = cpu_halted;
            locked = false;
          })
    unfolding sched_halt
    sched_yield_halts over i lt live =
        idle_halts s idle over ∙ rw (any_live-true s.envs 1024 i lt live) refl

    -- If no environment is runnable, running or dying, sched_yield enters the kernel monitor and
    -- leaves the state as it is.
    pub sched_yield_monitors :
        ((i : ℕ) → i < 1024 → is_live (s.envs i).env_status ≡ false)
        → ((c : ℕ) → s.curenv ≡ some c → is_running (s.envs c).env_status ≡ false)
        → sched_yield {A = A} s ≡ leaves in_monitor s
    unfolding sched_halt
    sched_yield_monitors dead over =
        idle_halts s idle over ∙ rw (any_live-false s.envs 1024 dead) refl
