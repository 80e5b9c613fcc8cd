-- ===== src/Vm/Contents.antt =====
-- A write to a page that is neither a page directory nor one of its page tables.
use junior_os.Base.{ℕ, ◌/◌, ◌≡◌, ◌≢◌, List, arith, ap, sym}
use junior_os.Machine.{pdx}
use junior_os.Kernel.{Kernel}
use junior_os.Vm.Space.{self_map, Space, entry_of, IsForeign}

module _ (s : Kernel) (p n : ℕ) (xs : List ℕ) (mem' : ℕ → ℕ → ℕ) (space : Space p xs s)
    (f : IsForeign s p n) (same : (k : ℕ) → k ≢ n → mem' k ≡ s.mem k) where
  abbrev pub written : Kernel
  written = record s { mem = mem' }

  pub slot_same : (d : ℕ) → mem' p d ≡ s.mem p d
  slot_same d = ap (λ (g : ℕ → ℕ). g d) (same p (λ e. f.root (sym e)))

  pub written-entry_of : (va : ℕ) → pdx va ≢ self_map → entry_of written p va ≡ entry_of s p va
  unfolding entry_of
  written-entry_of va h =
      rw (slot_same (pdx va)) (ground (arith, f.leaf (pdx va) h, same (s.mem p (pdx va) / 4096)))

  pub written-Space : Space p xs written
  written-Space = record {
    small = space.small;
    free = space.free;
    root = space.root;
    slots = λ d h. rw (slot_same d) (space.slots d h);
    apart = λ d e hd he ne. rw (slot_same d, slot_same e) (space.apart d e hd he ne);
  }
