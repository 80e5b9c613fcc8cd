-- ===== src/Debug/Search.antt =====
-- The loop of stab_binsearch: what each round keeps.
use junior_os.Base.{
  ℕ, zero, suc, ◌+◌, ◌-◌, ◌<◌, ◌≤◌, ◌≡◌, ◌≢◌, ◌⊎◌, inl, inr, refl, true, false, Option, none, some,
  ◌==◌, ltb, if◌then◌else◌, arith, sym, subst, Bool-cases, eqb→eq, neb→ne,
}
use junior_os.Machine.{word, add32}
use junior_os.Debug.{Stab, earliest, SearchState}

-- What `earliest` finds: the last match from `l` to `m`, or none.
abbrev pub IsLast : (ℕ → Stab) → ℕ → ℕ → ℕ → Option ℕ → Type 0
IsLast stabs type l m none = (k : ℕ) → l ≤ k → k < m → (stabs k).n_type ≢ type
IsLast stabs type l m (some j) =
    (l ≤ j)
    × (j < m)
    × ((stabs j).n_type ≡ type)
    × ((k : ℕ) → j < k → k < m → (stabs k).n_type ≢ type)

step-IsLast :
    (stabs : ℕ → Stab) (type l m : ℕ)
    → l < m
    → (r : Option ℕ) → IsLast stabs type l (m - 1) r
    → IsLast stabs type l m (if (stabs (m - 1)).n_type == type then some (m - 1) else r)
step-IsLast stabs type l m lt r last =
    elim (Bool-cases ((stabs (m - 1)).n_type == type))
      as (λ _. IsLast stabs type l m (if (stabs (m - 1)).n_type == type then some (m - 1) else r)) [
        | inl hit ↦
            rw hit (omega arith, omega arith, eqb→eq _ _ hit, λ k lo hi. absurd (omega arith))
        | inr miss ↦ rw miss (further r last miss)
      ]
  where
    not_top : (k : ℕ) → k < m → k ≢ m - 1 → k < m - 1
    not_top k hi ne = omega arith

    not_hit :
        (k : ℕ) → ((stabs (m - 1)).n_type == type) ≡ false → k ≡ m - 1 → (stabs k).n_type ≢ type
    not_hit k miss top = subst (λ i. (stabs i).n_type ≢ type) (sym top) (neb→ne _ _ miss)

    further :
        (r : Option ℕ)
        → IsLast stabs type l (m - 1) r
        → ((stabs (m - 1)).n_type == type) ≡ false
        → IsLast stabs type l m r
    further none last miss = λ k lo hi.
        elim (Bool-cases (k == m - 1)) as (λ _. (stabs k).n_type ≢ type) [
          | inl top ↦ not_hit k miss (eqb→eq k (m - 1) top)
          | inr below ↦ last k lo (not_top k hi (neb→ne _ _ below))
        ]
    further (some j) last miss = (
      last.0,
      omega (arith, last.1),
      last.2,
      λ k lo hi. elim (Bool-cases (k == m - 1)) as (λ _. (stabs k).n_type ≢ type) [
        | inl top ↦ not_hit k miss (eqb→eq k (m - 1) top)
        | inr below ↦ last.3 k lo (not_top k hi (neb→ne _ _ below))
      ],
    )

pub earliest-IsLast :
    (stabs : ℕ → Stab) (type rounds l m : ℕ)
    → l + rounds ≡ m
    → IsLast stabs type l m (earliest stabs type rounds m)
unfolding earliest
earliest-IsLast stabs type zero l m e = λ k lo hi. absurd (omega arith)
earliest-IsLast stabs type (suc rounds) l m e =
    step-IsLast stabs type l m (omega arith) (earliest stabs type rounds (m - 1))
      (earliest-IsLast stabs type rounds l (m - 1) (omega arith))

pub split : (k b : ℕ) → (k < b) ⊎ (b ≤ k)
split k b = elim (Bool-cases (ltb k b)) as (λ _. (k < b) ⊎ (b ≤ k)) [
  | inl lt ↦ inl (ground arith)
  | inr ge ↦ inr (ground arith)
]

-- The entries of the type from `from` to `to` are in the order of their values, and none has the value
-- that is one above `a`, which is not the last word.
pub record IsSorted (stabs : ℕ → Stab) (type from to a : ℕ) : Type 0 where
  pub order :
      (j k : ℕ)
      → from ≤ j
      → j ≤ k
      → k < to
      → (stabs j).n_type ≡ type
      → (stabs k).n_type ≡ type
      → (stabs j).n_value ≤ (stabs k).n_value
  pub fits : a + 1 < word
  pub gap : (k : ℕ) → from ≤ k → k < to → (stabs k).n_type ≡ type → (stabs k).n_value ≢ a + 1

module _ (stabs : ℕ → Stab) (type from to a : ℕ) (sorted : IsSorted stabs type from to a) where
  -- What holds of the loop's variables before each round.
  pub record Narrowed (s : SearchState) : Type 0 where
    pub lower : from ≤ s.l
    pub upper : s.r ≤ to
    pub same : s.right ≡ s.r
    pub addr : (s.addr ≡ a) ⊎ (s.addr ≡ a + 1)
    pub below : (k : ℕ) → from ≤ k → k < s.l → (stabs k).n_type ≡ type → (stabs k).n_value ≤ a
    pub above : (k : ℕ) → s.r ≤ k → k < to → (stabs k).n_type ≡ type → a < (stabs k).n_value
    pub start :
        (s.left ≡ from)
        ⊎ ((from ≤ s.left)
            × (s.left < to)
            × ((stabs s.left).n_type ≡ type)
            × ((stabs s.left).n_value ≤ a))
    pub next : (s.r ≡ to) ⊎ ((stabs s.r).n_type ≡ type)
    pub unseen :
        s.any_matches ≡ false
        → (s.r ≡ to) × (s.left ≡ from) × ((k : ℕ) → from ≤ k → k < s.l → (stabs k).n_type ≢ type)

  abbrev pub measure : SearchState → ℕ
  measure s = s.r - s.l + (if s.addr == a then 1 else 0)

  pub miss :
      (s : SearchState) (true_m : ℕ)
      → Narrowed s
      → s.l ≤ true_m
      → true_m < s.r
      → IsLast stabs type s.l (true_m + 1) none
      → Narrowed (record s { l = true_m + 1 })
  miss s true_m h lo hi last = record {
    lower = omega (arith, h.lower);
    upper = h.upper;
    same = h.same;
    addr = h.addr;
    below = λ k lo' hi' hit. elim (split k s.l) as (λ _. (stabs k).n_value ≤ a) [
      | inl old ↦ h.below k lo' old hit
      | inr new ↦ absurd (last k new hi' hit)
    ];
    above = h.above;
    start = h.start;
    next = h.next;
    unseen = λ none_yet.
        let (r, left, none_below) = h.unseen none_yet in
        (
          r,
          left,
          λ k lo' hi'. elim (split k s.l) as (λ _. (stabs k).n_type ≢ type) [
            | inl old ↦ none_below k lo' old
            | inr new ↦ last k new hi'
          ],
        );
  }

  -- The three outcomes of the comparison at a match `m`.
  module _ (s : SearchState) (true_m m : ℕ) (h : Narrowed s) (lo : s.l ≤ true_m) (hi : true_m < s.r)
      (last : IsLast stabs type s.l (true_m + 1) (some m)) where
    before_match :
        (k : ℕ) → from ≤ k → k ≤ m → (stabs k).n_type ≡ type → (stabs k).n_value ≤ (stabs m).n_value
    before_match k lo' hi' hit =
        sorted.order k m lo' hi' (omega (arith, last.1, h.upper)) hit last.2

    pub less :
        (stabs m).n_value < s.addr
        → Narrowed (record s { any_matches = true; left = m; l = true_m + 1 })
    less lt = record {
      lower = omega (arith, h.lower);
      upper = h.upper;
      same = h.same;
      addr = h.addr;
      below = λ k lo' hi' hit. elim (split m k) as (λ _. (stabs k).n_value ≤ a) [
        | inl behind ↦ absurd (last.3 k behind hi' hit)
        | inr upto ↦ at_most (stabs k).n_value (before_match k lo' upto hit)
      ];
      above = h.above;
      start = inr (
        omega (arith, h.lower, last.0),
        omega (arith, last.1, h.upper),
        last.2,
        at_most (stabs m).n_value (omega arith),
      );
      next = h.next;
      unseen = λ e. absurd (ground (arith, e));
    }
      where
        at_most : (v : ℕ) → v ≤ (stabs m).n_value → v ≤ a
        at_most v le = ground (arith, h.addr)

    pub greater :
        s.addr < (stabs m).n_value → Narrowed (record s { any_matches = true; right = m; r = m })
    greater gt = record {
      lower = h.lower;
      upper = omega (arith, last.1, h.upper);
      same = refl;
      addr = h.addr;
      below = h.below;
      above = λ k lo' hi' hit.
          behind_addr (stabs k).n_value
            (sorted.order m k (omega (arith, h.lower, last.0)) lo' hi' last.2 hit);
      start = h.start;
      next = inr last.2;
      unseen = λ e. absurd (ground (arith, e));
    }
      where
        behind_addr : (v : ℕ) → (stabs m).n_value ≤ v → a < v
        behind_addr v le = ground (arith, h.addr)

    pub exact :
        (stabs m).n_value ≡ s.addr
        → (s.addr ≡ a)
          × Narrowed (record s { any_matches = true; left = m; l = m; addr = add32 s.addr 1 })
    exact eq =
        let found : s.addr ≡ a =
          ground (arith, h.addr, sorted.gap m, h.lower, last.0, last.1, last.2, h.upper) in
        let next_addr : add32 s.addr 1 ≡ a + 1 = omega (arith, found, sorted.fits) in
        (
          found,
          record {
            lower = omega (arith, h.lower, last.0);
            upper = h.upper;
            same = h.same;
            addr = inr next_addr;
            below = λ k lo' hi' hit.
                at_most (stabs k).n_value found (before_match k lo' (omega arith) hit);
            above = h.above;
            start = inr (
              omega (arith, h.lower, last.0),
              omega (arith, last.1, h.upper),
              last.2,
              omega (arith, found),
            );
            next = h.next;
            unseen = λ e. absurd (ground (arith, e));
          },
        )
      where
        at_most : (v : ℕ) → s.addr ≡ a → v ≤ (stabs m).n_value → v ≤ a
        at_most v found le = omega arith
