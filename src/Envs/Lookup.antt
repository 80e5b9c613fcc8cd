-- ===== src/Envs/Lookup.antt =====
-- envid2env: which ids it accepts.
use junior_os.Base.{
  ℕ, ◌≡◌, ◌≢◌, ◌↔◌, ◌⊎◌, refl, inl, inr, Bool, true, false, not, ◌&&◌, ◌||◌, none, some, Option,
  arith, ◌==◌, if◌then◌else◌, Bool-cases, eqb_ne, if_apply,
}
use junior_os.Machine.{envx}
use junior_os.Kernel.{Kernel, EnvStatus, returns, ok, fails, e_bad_env}
use junior_os.Envs.{check_caller, envid2env, is_free}

-- The id names a live environment, in slot `e`.
abbrev pub Names : Kernel → ℕ → ℕ → Type 0
Names s envid e =
    (e ≡ envx envid) × ((s.envs e).env_status ≢ EnvStatus.free) × ((s.envs e).env_id ≡ envid)

-- The caller `c` may act on `e`: it is `e` or its parent.
abbrev pub MayActOn : Kernel → ℕ → ℕ → Type 0
MayActOn s c e = (e ≡ c) ⊎ ((s.envs e).env_parent_id ≡ (s.envs c).env_id)

check_eq :
    (s : Kernel) (checkperm : Bool) (e c : ℕ) (o : Option ℕ)
    → o ≡ some c
    → check_caller checkperm e o s
      ≡ returns
          (if checkperm && (not (e == c) && not ((s.envs e).env_parent_id == (s.envs c).env_id))
            then (fails e_bad_env, none)
            else (ok, some e))
          s
unfolding envid2env
check_eq s checkperm e c o is = rw (is, if_apply _ _ _ s) (ground arith)

module _ (s : Kernel) (c envid : ℕ) (caller : s.curenv ≡ some c) (given : envid ≢ 0) where
  stale : Bool
  stale = is_free (s.envs (envx envid)).env_status || not ((s.envs (envx envid)).env_id == envid)

  foreign : Bool
  foreign = not (envx envid == c) && not ((s.envs (envx envid)).env_parent_id == (s.envs c).env_id)

  envid2env_eq :
      (checkperm : Bool)
      → envid2env envid checkperm s
        ≡ returns
            (if stale || (checkperm && foreign)
              then (fails e_bad_env, none)
              else (ok, some (envx envid)))
            s
  unfolding envid2env stale foreign
  envid2env_eq checkperm = rw (eqb_ne envid 0 given) (elim (Bool-cases stale) [
    | inl old ↦ rw old refl
    | inr live ↦ rw live (check_eq s checkperm (envx envid) c s.curenv caller)
  ])

  -- With a current environment and the permission check, envid2env accepts an id other than 0
  -- exactly when it is the id of the live environment in its slot and that environment is the
  -- caller or a child of the caller; it answers -E_BAD_ENV and NULL to any other, and changes
  -- nothing.
  pub envid2env_iff :
      (e : ℕ)
      → ((envid2env envid true s ≡ returns (ok, some e) s) ↔ (Names s envid e × MayActOn s c e))
        × (¬ (Names s envid (envx envid) × MayActOn s c (envx envid))
            → envid2env envid true s ≡ returns (fails e_bad_env, none) s)
  unfolding stale foreign
  envid2env_iff e = (
    (λ h. ground (arith, envid2env_eq true), λ h. ground (arith, envid2env_eq true)),
    λ bad. ground (arith, envid2env_eq true),
  )

-- Without the check, the id of a live environment leads to its slot.
pub envid2env-Names :
    (s : Kernel) (c envid e : ℕ)
    → s.curenv ≡ some c
    → envid ≢ 0
    → Names s envid e
    → envid2env envid false s ≡ returns (ok, some e) s
unfolding stale
envid2env-Names s c envid e caller given names =
    ground (arith, envid2env_eq s c envid caller given false)

-- With the check, the id of a live environment leads to its slot if the caller may act on it.
pub envid2env_allowed :
    (s : Kernel) (c envid e : ℕ)
    → s.curenv ≡ some c
    → envid ≢ 0
    → Names s envid e
    → MayActOn s c e
    → envid2env envid true s ≡ returns (ok, some e) s
envid2env_allowed s c envid e caller given names may =
    (envid2env_iff s c envid caller given e).0.1 (names, may)

pub envid2env_refused :
    (s : Kernel) (c envid : ℕ)
    → s.curenv ≡ some c
    → envid ≢ 0
    → ¬ (Names s envid (envx envid) × MayActOn s c (envx envid))
    → envid2env envid true s ≡ returns (fails e_bad_env, none) s
envid2env_refused s c envid caller given bad = (envid2env_iff s c envid caller given 0).1 bad

-- The id 0 stands for the caller; any other must name an environment that the caller may act on.
abbrev pub Reaches : Kernel → ℕ → ℕ → ℕ → Type 0
Reaches s c envid e = ((envid ≡ 0) × (e ≡ c)) ⊎ ((envid ≢ 0) × Names s envid e × MayActOn s c e)

pub envid2env-Reaches :
    (s : Kernel) (c envid e : ℕ)
    → s.curenv ≡ some c
    → Reaches s c envid e
    → envid2env envid true s ≡ returns (ok, some e) s
unfolding envid2env
envid2env-Reaches s c envid e caller (inl (zero, same)) = rw (zero, caller, same) refl
envid2env-Reaches s c envid e caller (inr (given, names, may)) =
    envid2env_allowed s c envid e caller given names may
