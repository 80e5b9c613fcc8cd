-- ===== src/User/Private.antt =====
-- pgfault: from the copy of the page to its last system call.
use junior_os.Base.{
  ℕ, ◌+◌, ◌/◌, ◌%◌, ◌^◌, ◌<◌, ◌≡◌, ◌≢◌, inl, refl, Bool, true, false, ◌&&◌, List, ◌∷◌, ◌==◌, leb,
  ltb, if◌then◌else◌, has, arith, ◌∙◌, ap, sym,
}
use junior_os.Machine.{pdx}
use junior_os.Kernel.{Kernel, PageInfo, returns}
use junior_os.Pages.Alloc.{allocated}
use junior_os.Vm.{new_entry}
use junior_os.Vm.Space.{self_map, Space, entry_of, same_page, IsForeign}
use junior_os.Vm.Insert.{Mapped}
use junior_os.Vm.Unmap.{IsUsed, Unmapped}
use junior_os.Vm.Replace.{Replaced}
use junior_os.Vm.Contents.{slot_same, written-entry_of, written-Space}
use junior_os.UserMemory.{byte_at}
use junior_os.Syscalls.{value, sys_page_map, sys_page_unmap}
use junior_os.Syscalls.Memory.{sys_page_unmap-Unmapped}
use junior_os.Syscalls.Mapping.{CanShare, sys_page_map_over}
use junior_os.User.{pftemp, private_perm}
use junior_os.User.Copying.{Copied}
use junior_os.User.Fault.{
  private_entry, CanFault, old, user_va, other_pages, new-old, entries_u, new-IsForeign,
  old-IsForeign, old_bytes,
}

IsForeign-same :
    (a b : Kernel) (p k : ℕ)
    → ((d : ℕ) → d ≢ self_map → b.mem p d ≡ a.mem p d)
    → IsForeign a p k
    → IsForeign b p k
IsForeign-same a b p k same f = record {
  root = f.root;
  leaf = λ d h present. rw (same d h) (f.leaf d h (rw (same d h) at present));
}

-- In `v` the page at `va` is a private copy, page `n`, of the page that it was in `s`.
pub record Private (p o n va : ℕ) (s v : Kernel) : Type 0 where
  pub mapped :
      (va' : ℕ)
      → pdx va' ≢ self_map
      → entry_of v p va' ≡ (if same_page va va' then new_entry n private_perm else entry_of s p va')
  pub copied : (i : ℕ) → i < 4096 → byte_at v.mem n i ≡ byte_at s.mem o i
  pub kept : v.mem o ≡ s.mem o
  pub new_count : (v.page n).pp_ref ≡ 1
  pub old_count : (v.page o).pp_ref + 1 ≡ (s.page o).pp_ref
  pub left : List ℕ
  pub space : Space p left v

merged :
    (a b : Bool) (e k : ℕ)
    → (b ≡ true → a ≡ false)
    → (b ≡ true → k ≡ 0)
    → (if b then 0 else if a then e else if b then e else k) ≡ (if a then e else k)
merged true true e k apart empty = absurd (ground (arith, apart refl))
merged true false e k apart empty = refl
merged false true e k apart empty = sym (empty refl)
merged false false e k apart empty = refl

module _ (s : Kernel) (c p va n : ℕ) (xs : List ℕ) (can : CanFault s c p va n xs) (u : Kernel)
    (m : Mapped p n pftemp private_perm xs (allocated 1 n s) u) (one : (u.page n).pp_ref ≡ 1)
    (mem' : ℕ → ℕ → ℕ) (cop : Copied n (old s c p va n xs can) 0 4096 u.mem mem') where
  abbrev pub o : ℕ
  o = entry_of s p va / 4096

  abbrev foreign : IsForeign u p n
  foreign = new-IsForeign s c p va n xs can u m

  abbrev pub w : Kernel
  w = record u { mem = mem' }

  slots_w : (d : ℕ) → w.mem p d ≡ u.mem p d
  slots_w = slot_same u p n m.left mem' m.space foreign cop.elsewhere

  space_w : Space p m.left w
  space_w = written-Space u p n m.left mem' m.space foreign cop.elsewhere

  entries_w :
      (va' : ℕ)
      → pdx va' ≢ self_map
      → entry_of w p va'
        ≡ (if same_page pftemp va' then new_entry n private_perm else entry_of s p va')
  entries_w va' h =
      written-entry_of u p n m.left mem' m.space foreign cop.elsewhere va' h
      ∙ entries_u s c p va n xs can u m va' h

  entry_kept : entry_of w p va ≡ entry_of s p va
  entry_kept = entries_w va (user_va s c p va n xs can) ∙ rw (other_pages s c p va n xs can) refl

  w_temp : entry_of w p pftemp ≡ new_entry n private_perm
  w_temp = entries_w pftemp (λ same. ground arith)

  small_n : n < 2 ^ 20
  small_n = ground (arith, can.space.small, can.space.free.free.0)

  frame : entry_of w p pftemp / 4096 ≡ n
  frame = rw w_temp (private_entry n small_n).0

  out_n : has n m.left ≡ false
  out_n = m.shrunk n can.space.free.distinct.0

  out_o : has o m.left ≡ false
  out_o = m.shrunk o (ground (arith, can.used.taken))

  page_o : w.page o ≡ s.page o
  page_o =
      m.others o (λ e. new-old s c p va n xs can (sym e)) (ground (arith, can.used.taken))
      ∙ ground (arith, new-old s c p va n xs can)

  share : CanShare w c c c p p 0 pftemp 0 va private_perm m.left
  share = record {
    caller = m.kept.2 ∙ can.caller;
    from = inl (refl, refl);
    to = inl (refl, refl);
    source = rw (m.kept.1) can.pgdir;
    target = rw (m.kept.1) can.pgdir;
    good = ground (arith, can.below, can.aligned);
    space = space_w;
    present = rw w_temp (private_entry n small_n).1;
    in_range = rw (frame, m.kept.0) can.space.free.free.0;
    allowed = rw (w_temp, (private_entry n small_n).2) refl;
  }

  old-IsUsed : IsUsed o m.left w
  old-IsUsed = record {
    in_range = rw (m.kept.0) can.used.in_range;
    counted = rw page_o can.used.counted;
    bounded = rw page_o can.used.bounded;
    unlinked = rw page_o can.used.unlinked;
    taken = out_o;
  }

  old_w : IsForeign w p o
  old_w = IsForeign-same u w p o (λ d h. slots_w d) (old-IsForeign s c p va n xs can u m)

  new_w : IsForeign w p n
  new_w = IsForeign-same u w p n (λ d h. slots_w d) foreign

  -- sys_page_map puts the copy in the place of the old page.
  pub map_copy :
      (x : Kernel) × (sys_page_map 0 pftemp 0 va private_perm w ≡ returns (value 0) x)
      × Replaced p o n va private_perm m.left w x
  map_copy =
      let (x, run, rep) =
        sys_page_map_over w c c c p p 0 pftemp 0 va private_perm m.left share space_w
          (rw entry_kept can.present) (rw frame out_n)
          (rw (entry_kept, frame) (λ e. new-old s c p va n xs can (sym e)))
          (rw entry_kept old-IsUsed) (rw entry_kept (old_w.root, old_w.leaf)) in
      (x, run, rw (entry_kept, frame) at rep)

  -- The last call takes the mapping at PFTEMP away.
  module _ (x : Kernel) (rep : Replaced p o n va private_perm m.left w x) where
    abbrev pub left : List ℕ
    left = if (w.page o).pp_ref == 1 then o ∷ m.left else m.left

    entries_x :
        (va' : ℕ)
        → pdx va' ≢ self_map
        → entry_of x p va' ≡ (
            if same_page va va'
            then new_entry n private_perm
            else if same_page pftemp va'
            then new_entry n private_perm
            else entry_of s p va')
    entries_x va' h =
        rep.mapped va' h
        ∙ ap (λ e. if same_page va va' then new_entry n private_perm else e) (entries_w va' h)

    x_temp : entry_of x p pftemp ≡ new_entry n private_perm
    x_temp =
        let other : same_page va pftemp ≡ false = ground (arith, other_pages s c p va n xs can) in
        entries_x pftemp (λ same. ground arith) ∙ rw other refl

    out_left : has n left ≡ false
    out_left = ground (arith, out_n, new-old s c p va n xs can)

    new_x : IsForeign x p n
    new_x = IsForeign-same w x p n rep.tables new_w

    old_x : IsForeign x p o
    old_x = IsForeign-same w x p o rep.tables old_w

    two : (x.page n).pp_ref ≡ 2
    two = rep.new_count ∙ rw one refl

    fresh-IsUsed : IsUsed n left x
    fresh-IsUsed = record {
      in_range = rw (rep.kept.0, m.kept.0) can.space.free.free.0;
      counted = rw two (omega arith);
      bounded = rw two (omega arith);
      unlinked = rep.space.free.detached n out_left;
      taken = out_left;
    }

    x_frame : entry_of x p pftemp / 4096 ≡ n
    x_frame = rw x_temp (private_entry n small_n).0

    pub unmap_temp :
        (v : Kernel) × (sys_page_unmap 0 pftemp x ≡ returns (value 0) v)
        × Unmapped p pftemp n left x v
    unmap_temp =
        let (v, run, un) =
          sys_page_unmap-Unmapped x c c 0 p pftemp left (rep.kept.2 ∙ m.kept.2 ∙ can.caller)
            (inl (refl, refl)) (rw (rep.kept.1, m.kept.1) can.pgdir) refl (omega arith) rep.space
            (rw x_temp (private_entry n small_n).1) (rw x_frame fresh-IsUsed)
            (rw x_frame (new_x.root, new_x.leaf)) in
        (v, run, rw x_frame at un)

    -- Nothing was mapped at PFTEMP.
    temp_empty : (va' : ℕ) → same_page pftemp va' ≡ true → entry_of s p va' ≡ 0
    unfolding entry_of
    temp_empty va' same = ground (arith, can.empty)

    apart_three :
        (va' : ℕ)
        → same_page pftemp va ≡ false
        → same_page pftemp va' ≡ true
        → same_page va va' ≡ false
    apart_three va' apart same = ground arith

    entries_v :
        (v : Kernel) (un : Unmapped p pftemp n left x v) (va' : ℕ)
        → pdx va' ≢ self_map
        → entry_of v p va'
          ≡ (if same_page va va' then new_entry n private_perm else entry_of s p va')
    entries_v v un va' h =
        un.unmapped va' h
        ∙ ap (λ e. if same_page pftemp va' then 0 else e) (entries_x va' h)
        ∙ merged (same_page va va') (same_page pftemp va') (new_entry n private_perm)
            (entry_of s p va') (apart_three va' (other_pages s c p va n xs can)) (temp_empty va')

    pub result-Private : (v : Kernel) → Unmapped p pftemp n left x v → Private p o n va s v
    result-Private v un = record {
      mapped = entries_v v un;
      copied = λ i small.
          ap (λ (f : ℕ → ℕ). f (i / 4) / 256 ^ (i % 4) % 256)
            (un.memory n new_x ∙ rep.memory n new_w)
          ∙ cop.bytes i
          ∙ (let inside : (leb 0 i && ltb i (0 + 4096)) ≡ true = ground arith in rw inside refl)
          ∙ ap (λ (f : ℕ → ℕ). f (i / 4) / 256 ^ (i % 4) % 256) (old_bytes s c p va n xs can u m);
      kept =
          un.memory o old_x
          ∙ rep.memory o old_w
          ∙ cop.elsewhere o (λ e. new-old s c p va n xs can (sym e))
          ∙ old_bytes s c p va n xs can u m;
      new_count = ground (arith, un.count, two);
      old_count =
          ap (λ (q : PageInfo). q.pp_ref + 1) (un.others o (λ e. new-old s c p va n xs can (sym e)))
          ∙ rep.old_count
          ∙ ap (λ (q : PageInfo). q.pp_ref) page_o;
      left = _;
      space = un.space;
    }
