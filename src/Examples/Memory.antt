-- ===== src/Examples/Memory.antt =====
-- The properties of address spaces on the machine of sixteen pages.
use junior_os.Base.{List, ℕ, ◌≡◌, refl, inl, inr, some, ◌∷◌, arith}
use junior_os.Kernel.{Kernel, returns, ok, fails, e_fault}
use junior_os.Pages.FreeList.{Free}
use junior_os.Vm.{page_insert, page_remove, boot_map_region, user_mem_check}
use junior_os.Vm.Space.{entry_of}
use junior_os.Vm.Insert.{Mapped}
use junior_os.Vm.Mapping.{Finds, page_insert_fresh, page_insert_again}
use junior_os.Vm.Replace.{Replaced, page_insert_over}
use junior_os.Vm.Unmap.{Unmapped, page_remove-Unmapped, page_remove-frees_page_zero}
use junior_os.Vm.Regions.{Mapping, boot_map_region-Region}
use junior_os.Vm.Access.{denied, user_mem_check_below_ulim}
use junior_os.Examples.Machines.{machine, machine-Space, free_pages}

page_insert_fresh_example :
    (u : Kernel) × (page_insert 5 9 8192 7 machine ≡ returns ok u)
    × Mapped 5 9 8192 7 free_pages machine u
    × Finds machine 5 9 8192 7 free_pages machine-Space (omega arith) (omega arith) u
    × ((u.page 9).pp_ref ≡ 2)
unfolding entry_of
page_insert_fresh_example =
    page_insert_fresh machine 5 9 8192 7 free_pages machine-Space (omega arith) (omega arith) refl
      (inl (omega arith)) refl (omega arith)

page_insert_again_example :
    (u : Kernel) × (page_insert 5 9 4096 5 machine ≡ returns ok u)
    × Mapped 5 9 4096 5 free_pages machine u
    × Finds machine 5 9 4096 5 free_pages machine-Space (omega arith) (omega arith) u
    × (u.page ≡ machine.page)
    × (u.page_free_list ≡ some 7)
unfolding entry_of
page_insert_again_example =
    page_insert_again machine 5 9 4096 5 free_pages machine-Space (omega arith) (omega arith) refl
      refl

-- Page 9 gives way to page 11, and is free then.
page_insert_over_example :
    (u : Kernel) × (page_insert 5 11 4096 7 machine ≡ returns ok u)
    × Replaced 5 9 11 4096 7 free_pages machine u
unfolding entry_of
page_insert_over_example =
    page_insert_over machine 5 11 4096 7 free_pages machine-Space (omega arith) refl (omega arith)
      refl (omega arith)
      (record {
        in_range = omega arith;
        counted = omega arith;
        bounded = omega arith;
        unlinked = refl;
        taken = refl;
      })
      (omega arith, λ d h present. ground arith)

page_remove-Unmapped_example :
    (u : Kernel) × (page_remove 5 4096 machine ≡ returns tt u)
    × Unmapped 5 4096 9 free_pages machine u
unfolding entry_of
page_remove-Unmapped_example =
    page_remove-Unmapped machine 5 4096 free_pages machine-Space (omega arith) refl
      (record {
        in_range = omega arith;
        counted = omega arith;
        bounded = omega arith;
        unlinked = refl;
        taken = refl;
      })
      (omega arith, λ d h present. ground arith)

page_remove-frees_page_zero_example :
    (u : Kernel) × (page_remove 5 8192 machine ≡ returns tt u)
    × Free u (0 ∷ free_pages)
    × ((u.page 0).pp_ref ≡ 0)
unfolding entry_of
page_remove-frees_page_zero_example =
    page_remove-frees_page_zero machine 5 8192 free_pages machine-Space (omega arith) refl refl
      (omega arith) refl refl

boot_map_region-Region_example :
    (t : Kernel) × (ys : List ℕ) × (boot_map_region 5 0x400000 8192 0x3000 2 machine ≡ returns tt t)
    × Mapping 5 0x400000 0x3000 2 2 free_pages ys machine t
boot_map_region-Region_example =
    boot_map_region-Region 5 0x400000 0x3000 2 2 (λ k h. omega arith) (omega arith) 8192 machine
      free_pages refl machine-Space (omega arith)

user_mem_check_below_ulim_example :
    user_mem_check 0 4096 16 5 machine ≡ returns (fails e_fault) (denied 4096 machine)
user_mem_check_below_ulim_example =
    user_mem_check_below_ulim machine 0 5 5 refl 4096 16 (inr (refl, omega arith))
      (inr (refl, omega arith)) (omega arith) (omega arith)
