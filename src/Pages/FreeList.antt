-- ===== src/Pages/FreeList.antt =====
-- What the free list is: the chain of `pp_link` from `page_free_list` runs through distinct pages,
-- all unreferenced and in range, and no other page has a link.
use junior_os.Base.{
  ℕ, ◌<◌, ◌≡◌, true, false, Option, none, some, List, [], ◌∷◌, has, update, arith, Distinct,
}
use junior_os.Kernel.{Kernel, PageInfo}

-- From pointer `l` the links of `page` lead through the pages `xs` to NULL.
abbrev pub Chain : (ℕ → PageInfo) → Option ℕ → List ℕ → Type 0
Chain page l [] = l ≡ none
Chain page l (x ∷ xs) = (l ≡ some x) × Chain page (page x).pp_link xs

abbrev pub Unreferenced : ℕ → (ℕ → PageInfo) → List ℕ → Type 0
Unreferenced npages page [] = Unit
Unreferenced npages page (x ∷ xs) =
    (x < npages) × ((page x).pp_ref ≡ 0) × Unreferenced npages page xs

pub record FreeList (npages : ℕ) (page : ℕ → PageInfo) (l : Option ℕ) (xs : List ℕ) : Type 0 where
  pub chain : Chain page l xs
  pub distinct : Distinct xs
  pub free : Unreferenced npages page xs
  pub detached : (i : ℕ) → has i xs ≡ false → (page i).pp_link ≡ none

-- The kernel's free list holds the pages `xs`, in that order.
abbrev pub Free : Kernel → List ℕ → Type 0
Free s xs = FreeList s.npages s.page s.page_free_list xs

-- A write to a page that is not on the list leaves chain and counts as they are.
pub Chain-update :
    (page : ℕ → PageInfo) (x : ℕ) (info : PageInfo) (l : Option ℕ) (xs : List ℕ)
    → has x xs ≡ false
    → Chain page l xs
    → Chain (update page x info) l xs
Chain-update page x info l [] out c = c
Chain-update page x info l (y ∷ ys) out c =
    (c.0, ground (arith, Chain-update page x info (page y).pp_link ys))

pub Unreferenced-update :
    (npages : ℕ) (page : ℕ → PageInfo) (x : ℕ) (info : PageInfo) (xs : List ℕ)
    → has x xs ≡ false
    → Unreferenced npages page xs
    → Unreferenced npages (update page x info) xs
Unreferenced-update npages page x info [] out u = u
Unreferenced-update npages page x info (y ∷ ys) out u =
    (u.0, ground arith, Unreferenced-update npages page x info ys (ground arith) u.2)

-- A page with references is on no free list.
pub Unreferenced-has :
    (npages : ℕ) (page : ℕ → PageInfo) (x : ℕ) (xs : List ℕ)
    → Unreferenced npages page xs
    → has x xs ≡ true
    → (x < npages) × ((page x).pp_ref ≡ 0)
Unreferenced-has npages page x [] u h = absurd (ground arith)
Unreferenced-has npages page x (y ∷ ys) u h = ground (arith, Unreferenced-has npages page x ys u.2)
