-- ===== src/Examples/Frames.antt =====
-- The properties of physical page management on the machine of sixteen pages.
use junior_os.Base.{◌≡◌, refl, none, arith}
use junior_os.Kernel.{Kernel, returns}
use junior_os.Pages.{page_init}
use junior_os.Pages.Init.{Booted, page_init_lem}
use junior_os.Examples.Machines.{machine}

-- Before page_init: no page has a link or a count.
abbrev before_boot : Kernel
before_boot = record machine {
  page = λ _. record { pp_link = none; pp_ref = 0 };
  page_free_list = none;
}

page_init_lem_example :
    (t : Kernel) × (page_init 0xf0200000 before_boot ≡ returns tt t)
    × Booted 0xf0200000 before_boot t
page_init_lem_example =
    page_init_lem 0xf0200000 before_boot (λ i. refl) (omega arith) (omega arith) (omega arith)
