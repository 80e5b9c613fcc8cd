-- ===== src/Examples/Environments.antt =====
-- The properties of environments on the machine of sixteen pages.
use junior_os.Base.{◌≡◌, ◌↔◌, refl, true, none, some, [], ◌∷◌, arith}
use junior_os.Kernel.{Kernel, returns, ok, fails, e_bad_env}
use junior_os.Envs.{env_alloc, envid2env}
use junior_os.Envs.Lookup.{Names, MayActOn, envid2env_iff}
use junior_os.Envs.Create.{FreshSpace, Born, env_alloc-Born}
use junior_os.Examples.Machines.{machine, machine-Free}

envid2env_iff_example :
    ((envid2env 4097 true machine ≡ returns (ok, some 1) machine)
      ↔ (Names machine 4097 1 × MayActOn machine 0 1))
    × (¬ (Names machine 4097 1 × MayActOn machine 0 1)
        → envid2env 4097 true machine ≡ returns (fails e_bad_env, none) machine)
envid2env_iff_example = envid2env_iff machine 0 4097 refl (omega arith) 1

env_alloc-Born_example :
    (t : Kernel) × (env_alloc 4096 machine ≡ returns (ok, some 2) t)
    × Born 2 4096 machine t
    × FreshSpace 2 7 (8 ∷ []) machine t
env_alloc-Born_example =
    env_alloc-Born machine 2 7 4096 (8 ∷ []) machine-Free (omega arith) (omega arith) refl
      (omega arith) (omega arith)
