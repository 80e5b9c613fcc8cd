-- ===== src/Debug/Bracket.antt =====
-- What stab_binsearch finds.
use junior_os.Base.{
  ℕ, zero, suc, ◌+◌, ◌-◌, ◌/◌, ◌<◌, ◌≤◌, ◌≡◌, ◌≢◌, ◌⊎◌, inl, inr, refl, true, false, not, ◌&&◌,
  Option, none, some, ◌==◌, ltb, if◌then◌else◌, arith, Bool-cases, eqb_ne, eqb_refl,
}
use junior_os.Machine.{add32}
use junior_os.Debug.{
  Stab, earliest, SearchState, narrow, round, bisect, rightmost, bracket, stab_binsearch,
}
use junior_os.Debug.Search.{
  IsLast, earliest-IsLast, IsSorted, Narrowed, measure, split, miss, less, greater, exact,
}

module _ (stabs : ℕ → Stab) (type from to a : ℕ) (sorted : IsSorted stabs type from to a) where
  -- A round keeps the loop's invariant and comes closer to the end.
  abbrev Closer : SearchState → SearchState → Type 0
  Closer s t =
      Narrowed stabs type from to a sorted t
      × (measure stabs type from to a sorted t < measure stabs type from to a sorted s)

  narrow-Closer :
      (s : SearchState) (true_m : ℕ) (r : Option ℕ)
      → Narrowed stabs type from to a sorted s
      → s.l ≤ true_m
      → true_m < s.r
      → IsLast stabs type s.l (true_m + 1) r
      → Closer s (narrow stabs true_m r s)
  unfolding narrow
  narrow-Closer s true_m none h lo hi last =
      (miss stabs type from to a sorted s true_m h lo hi last, omega arith)
  narrow-Closer s true_m (some m) h lo hi last =
      elim (Bool-cases (ltb (stabs m).n_value s.addr))
        as (λ _. Closer s (narrow stabs true_m (some m) s)) [
          | inl lt ↦
              rw lt (
                less stabs type from to a sorted s true_m m h lo hi last (ground arith),
                omega arith,
              )
          | inr not_less ↦
              rw not_less
                (elim (Bool-cases (ltb s.addr (stabs m).n_value))
                  as (λ _. Closer s (
                    if ltb s.addr (stabs m).n_value
                    then record s { any_matches = true; right = m; r = m }
                    else record s { any_matches = true; left = m; l = m; addr = add32 s.addr 1 })) [
                      | inl gt ↦ rw gt (
                        greater stabs type from to a sorted s true_m m h lo hi last (ground arith),
                        omega (arith, last.0, last.1),
                      )
                      | inr not_more ↦
                          let eq : (stabs m).n_value ≡ s.addr = ground arith in
                          let (found, next) =
                            exact stabs type from to a sorted s true_m m h lo hi last eq in
                          rw not_more (next, ground (arith, found, last.0, last.1))
                    ])
        ]

  round-Closer :
      (s : SearchState)
      → Narrowed stabs type from to a sorted s
      → s.l < s.r
      → Closer s (round stabs type s)
  unfolding round
  round-Closer s h lt =
      narrow-Closer s ((s.l + s.r - 1) / 2)
        (earliest stabs type ((s.l + s.r - 1) / 2 + 1 - s.l) ((s.l + s.r - 1) / 2 + 1)) h
        (omega arith) (omega arith) (earliest-IsLast stabs type _ s.l _ (omega arith))

  bisect-Narrowed :
      (fuel : ℕ) (s : SearchState)
      → Narrowed stabs type from to a sorted s
      → measure stabs type from to a sorted s < fuel
      → (t : SearchState) × (bisect stabs type fuel s ≡ some t)
        × Narrowed stabs type from to a sorted t
        × (t.r ≤ t.l)
  unfolding bisect
  bisect-Narrowed zero s h enough = absurd (omega arith)
  bisect-Narrowed (suc fuel) s h enough = elim (split s.l s.r) [
    | inl lt ↦
        let more : ltb s.l s.r ≡ true = ground arith in
        let (kept, closer) = round-Closer s h lt in
        let (t, run, narrowed, end) =
          bisect-Narrowed fuel (round stabs type s) kept (omega arith) in
        (t, rw more run, narrowed, end)
    | inr ge ↦ let last : ltb s.l s.r ≡ false = ground arith in (s, rw last refl, h, ge)
  ]

-- Going down from `l`, the first match is the one at `j`.
rightmost_lem :
    (stabs : ℕ → Stab) (type left rounds l j : ℕ)
    → left ≤ j
    → j < l
    → l ≤ rounds + j + 1
    → (stabs j).n_type ≡ type
    → ((k : ℕ) → j < k → k < l → (stabs k).n_type ≢ type)
    → rightmost stabs type left rounds l ≡ j + 1
unfolding rightmost
rightmost_lem stabs type left zero l j lo hi enough hit later = omega arith
rightmost_lem stabs type left (suc rounds) l j lo hi enough hit later =
    elim (split (j + 1) l) as (λ _. rightmost stabs type left (suc rounds) l ≡ j + 1) [
      | inl above ↦
          let go_on : (ltb (left + 1) l && not ((stabs (l - 1)).n_type == type)) ≡ true =
            rw (eqb_ne (stabs (l - 1)).n_type type (later (l - 1) (omega arith) (omega arith)))
              (ground arith) in
          rw go_on (
            rightmost_lem stabs type left rounds (l - 1) j lo (omega arith) (omega arith) hit
              (λ k lo' hi'. later k lo' (omega arith)))
      | inr top ↦
          let at : l ≡ j + 1 = omega arith in
          let here : l - 1 ≡ j = omega arith in
          let stop : (ltb (left + 1) l && not ((stabs (l - 1)).n_type == type)) ≡ false =
            rw (here, hit, eqb_refl type) (ground arith) in
          rw stop at
    ]

-- The entry for an address: the last one of the type whose value is at most the address.
pub record IsEntry (stabs : ℕ → Stab) (type from to a j : ℕ) : Type 0 where
  pub inside : (from ≤ j) × (j < to)
  pub hit : (stabs j).n_type ≡ type
  pub low : (stabs j).n_value ≤ a
  pub later : (k : ℕ) → j < k → k < to → (stabs k).n_type ≡ type → a < (stabs k).n_value

-- The end of the loop, in terms of that entry.
module _ (stabs : ℕ → Stab) (type from to a : ℕ) (sorted : IsSorted stabs type from to a)
    (t : SearchState) (n : Narrowed stabs type from to a sorted t) (j : ℕ)
    (entry : IsEntry stabs type from to a j) (end : t.r ≤ t.l) where
  entry_below : j < t.r
  entry_below = elim (split j t.r) as (λ _. j < t.r) [
    | inl lt ↦ lt
    | inr ge ↦ absurd (omega (arith, n.above j ge entry.inside.1 entry.hit, entry.low))
  ]

  later : (k : ℕ) → j < k → k < t.r → (stabs k).n_type ≢ type
  later k lo hi hit = omega (
    arith,
    entry.later k lo (omega (arith, n.upper)) hit,
    n.below k (omega (arith, entry.inside.0)) (omega (arith, end)) hit,
  )

  seen : t.any_matches ≡ true
  seen = elim (Bool-cases t.any_matches) as (λ _. t.any_matches ≡ true) [
    | inl yes_seen ↦ yes_seen
    | inr unseen ↦
        absurd ((n.unseen unseen).2 j entry.inside.0 (omega (arith, end, entry_below)) entry.hit)
  ]

  left_start : t.left ≤ j
  left_start = go n.start
    where
      go :
          (t.left ≡ from)
            ⊎ ((from ≤ t.left)
                × (t.left < to)
                × ((stabs t.left).n_type ≡ type)
                × ((stabs t.left).n_value ≤ a))
          → t.left ≤ j
      go (inl start) = omega (arith, entry.inside.0)
      go (inr (lo, hi, hit, low)) = elim (split j t.left) as (λ _. t.left ≤ j) [
        | inl behind ↦ absurd (omega (arith, entry.later t.left behind hi hit))
        | inr before ↦ before
      ]

  bracket_eq : bracket stabs type (some t) ≡ some (j + 1, t.r)
  unfolding bracket
  bracket_eq =
      let last =
        rightmost_lem stabs type t.left t.r t.r j left_start entry_below (omega arith) entry.hit
          later in
      rw (seen, n.same, last) refl

-- Where the entries of a type in the region are in the order of their values, none has the value
-- one above the address, which is not the last word, and `j` is the last of them whose value is at
-- most the address: with fuel of more than one above the region's length, stab_binsearch ends, sets
-- its left end to `j` and its right end behind it or to it, with no entry of the type in between,
-- and its right end is the region's or is just before an entry of the type.
pub stab_binsearch-IsEntry :
    (stabs : ℕ → Stab) (type from to a j fuel : ℕ)
    → IsSorted stabs type from to a
    → IsEntry stabs type from to a j
    → to - from + 1 < fuel
    → (e : ℕ) × (stab_binsearch stabs fuel from to type a ≡ some (j + 1, e))
      × (j < e)
      × (e ≤ to)
      × ((k : ℕ) → j < k → k < e → (stabs k).n_type ≢ type)
      × ((e ≡ to) ⊎ ((stabs e).n_type ≡ type))
unfolding stab_binsearch
stab_binsearch-IsEntry stabs type from to a j fuel sorted entry enough =
    let s : SearchState = record {
      l = from;
      r = to;
      left = from;
      right = to;
      any_matches = false;
      addr = a;
    } in
    let h : Narrowed stabs type from to a sorted s = record {
      lower = omega arith;
      upper = omega arith;
      same = refl;
      addr = inl refl;
      below = λ k lo hi. absurd (omega arith);
      above = λ k lo hi. absurd (omega arith);
      start = inl refl;
      next = inl refl;
      unseen = λ e. (refl, refl, λ k lo hi. absurd (omega arith));
    } in
    let enough_rounds : to - from + (if a == a then 1 else 0) < fuel = rw (eqb_refl a) enough in
    let (t, run, n, end) = bisect-Narrowed stabs type from to a sorted fuel s h enough_rounds in
    (
      t.r,
      rw run (bracket_eq stabs type from to a sorted t n j entry end),
      entry_below stabs type from to a sorted t n j entry end,
      n.upper,
      later stabs type from to a sorted t n j entry end,
      n.next,
    )
