-- ===== src/Debug.antt =====
-- The search in the debugging tables: jos-lab4/kern/kdebug.c, stab_binsearch. The ints of the code can be
-- -1; here `right` and the result's `left` are one more than they are in the code. The sums of two ends
-- are not wrapped: the tables have fewer than 2 ^ 30 entries.
pub mod Search
pub mod Bracket
use junior_os.Base.{
  ℕ, zero, suc, ◌+◌, ◌-◌, ◌/◌, Bool, true, false, not, ◌&&◌, Option, none, some, ◌==◌, ltb, leb,
  if◌then◌else◌,
}
use junior_os.Machine.{add32}

-- The fields of struct Stab that are searched.
pub record Stab : Type 0 where
  pub n_type : ℕ
  pub n_value : ℕ

-- The last entry below `m` and from `l` on that has the type, if there is one; `rounds` is `m - l`.
unfoldable pub earliest : (ℕ → Stab) → ℕ → (rounds m : ℕ) → Option ℕ
earliest stabs type zero m = none
earliest stabs type (suc rounds) m =
    let rest = earliest stabs type rounds (m - 1) in
    if (stabs (m - 1)).n_type == type then some (m - 1) else rest

-- The variables of the loop.
pub record SearchState : Type 0 where
  pub l : ℕ
  pub r : ℕ
  pub left : ℕ
  pub right : ℕ
  pub any_matches : Bool
  pub addr : ℕ

narrow : (ℕ → Stab) → ℕ → Option ℕ → SearchState → SearchState
narrow stabs true_m none s = record s { l = true_m + 1 }
narrow stabs true_m (some m) s =
    if ltb (stabs m).n_value s.addr
    then record s { any_matches = true; left = m; l = true_m + 1 }
    else if ltb s.addr (stabs m).n_value
    then record s { any_matches = true; right = m; r = m }
    else record s { any_matches = true; left = m; l = m; addr = add32 s.addr 1 }

-- One round of the loop.
unfoldable pub round : (ℕ → Stab) → ℕ → SearchState → SearchState
unfolding earliest narrow
round stabs type s =
    let true_m = (s.l + s.r - 1) / 2 in
    narrow stabs true_m (earliest stabs type (true_m + 1 - s.l) (true_m + 1)) s

unfoldable pub bisect : (ℕ → Stab) → ℕ → ℕ → SearchState → Option SearchState
unfolding round
bisect stabs type zero s = none
bisect stabs type (suc fuel) s =
    if ltb s.l s.r then bisect stabs type fuel (round stabs type s) else some s

-- `l` goes down from *region_right; `rounds` bounds it.
unfoldable pub rightmost : (ℕ → Stab) → ℕ → ℕ → (rounds l : ℕ) → ℕ
rightmost stabs type left zero l = l
rightmost stabs type left (suc rounds) l =
    let rest = rightmost stabs type left rounds (l - 1) in
    if ltb (left + 1) l && not ((stabs (l - 1)).n_type == type) then rest else l

bracket : (ℕ → Stab) → ℕ → Option SearchState → Option (ℕ × ℕ)
unfolding rightmost
bracket stabs type none = none
bracket stabs type (some s) =
    if s.any_matches
    then some (rightmost stabs type s.left s.right s.right, s.right)
    else some (s.left + 1, s.left)

-- The two ends of the region, each one more than the code's.
unfoldable pub stab_binsearch : (ℕ → Stab) → ℕ → (left right type addr : ℕ) → Option (ℕ × ℕ)
unfolding bisect bracket
stab_binsearch stabs fuel left right type addr = bracket stabs type (
    bisect stabs type fuel (record {
      l = left;
      r = right;
      left = left;
      right = right;
      any_matches = false;
      addr = addr;
    }))
