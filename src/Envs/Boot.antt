-- ===== src/Envs/Boot.antt =====
-- env_init: the free list of environments after boot.
use junior_os.Base.{
  ℕ, zero, suc, ◌+◌, ◌<◌, ◌≤◌, ◌≡◌, refl, none, some, Option, ◌==◌, if◌then◌else◌, update, arith,
}
use junior_os.Machine.{nenv}
use junior_os.Kernel.{Kernel, EnvStatus, returns}
use junior_os.Envs.{init_envs, env_init}

-- The environments below `n` are free, without an id, and linked upwards; the last of them is
-- linked to `l`, and the others are as before.
record Linked (n : ℕ) (l : Option ℕ) (s t : Kernel) : Type 0 where
  head : t.env_free_list ≡ (if n == 0 then l else some 0)
  free : (i : ℕ) → i < n → ((t.envs i).env_status ≡ EnvStatus.free) × ((t.envs i).env_id ≡ 0)
  links : (i : ℕ) → i < n → (t.envs i).env_link ≡ (if i + 1 == n then l else some (i + 1))
  others : (i : ℕ) → n ≤ i → t.envs i ≡ s.envs i

init_envs-Linked :
    (n : ℕ) (s : Kernel)
    → (t : Kernel) × (init_envs n s ≡ returns tt t) × Linked n s.env_free_list s t
unfolding init_envs
init_envs-Linked zero s = (
  s,
  refl,
  record {
    head = refl;
    free = λ i h. absurd (omega arith);
    links = λ i h. absurd (omega arith);
    others = λ i h. refl;
  },
)
init_envs-Linked (suc n) s =
    let first = record s {
      envs = update s.envs n (record (s.envs n) {
        env_status = EnvStatus.free;
        env_id = 0;
        env_link = s.env_free_list;
      });
      env_free_list = some n;
    } in
    let (t, run, linked) = init_envs-Linked n first in
    (
      t,
      run,
      record {
        head = ground (arith, linked.head);
        free = λ i h. ground (arith, linked.free i, linked.others i);
        links = λ i h. ground (arith, linked.links i, linked.others i);
        others = λ i h. ground (arith, linked.others i);
      },
    )

-- With no free list yet, env_init returns; then every environment is free and has id 0, and the
-- free list runs through all slots in order, so that the first env_alloc takes slot 0.
pub env_init-in_order :
    (s : Kernel)
    → s.env_free_list ≡ none
    → (t : Kernel) × (env_init s ≡ returns tt t)
      × (t.env_free_list ≡ some 0)
      × ((i : ℕ)
          → i < nenv
          → ((t.envs i).env_status ≡ EnvStatus.free)
            × ((t.envs i).env_id ≡ 0)
            × ((t.envs i).env_link ≡ (if i + 1 == nenv then none else some (i + 1))))
unfolding env_init
env_init-in_order s empty =
    let (t, run, linked) = init_envs-Linked 1024 s in
    (
      t,
      run,
      linked.head,
      λ i h. ((linked.free i h).0, (linked.free i h).1, ground (arith, linked.links i)),
    )
