-- ===== src/Multiprocessor/Processors.antt =====
-- What mp_init makes of a configuration table.
use junior_os.Base.{
  ℕ, suc, ◌+◌, ◌-◌, ◌<◌, ◌≤◌, ◌≡◌, refl, true, false, some, List, ◌∷◌, ◌++◌, ◌==◌, ltb, leb, arith,
  ◌∙◌, ap, subst, Bool-cases, inl, inr,
}
use junior_os.Strings.{Memory}
use junior_os.Loader.{word_at, half_at}
use junior_os.Multiprocessor.{
  CpuInfo, Cpus, processor, read_entries, settle, init_from, mpconfig, mp_init,
}
use junior_os.Multiprocessor.Entries.{
  Entry, Table, end_of, processors, entries, IsUnmarked, at_most_8, Added, processor-Added,
  Added-then, read_cpu, read_entries-Added, processors-append, entries-append, Table-append,
}

processor-boot : (s : Cpus) → (processor true s).bootcpu ≡ s.ncpu
unfolding processor
processor-boot s = ground arith

-- The end of mp_init, where all entries are known and where one is not.
settle-ismp :
    (mem : Memory) (imcr mp : ℕ) (s : Cpus)
    → s.ismp ≡ true
    → let t = settle mem imcr mp s in
      (t.ncpu ≡ s.ncpu)
      × ((j : ℕ) → (t.cpus j).cpu_id ≡ (s.cpus j).cpu_id)
      × (t.bootcpu ≡ s.bootcpu)
      × ((t.cpus s.bootcpu).cpu_status ≡ 1)
      × (t.ismp ≡ true)
      × (t.lapicaddr ≡ s.lapicaddr)
unfolding settle
settle-ismp mem imcr mp s on = (
  ground (arith, on),
  λ j. ground (arith, on),
  ground (arith, on),
  ground (arith, on),
  ground (arith, on),
  ground (arith, on),
)

-- The ids of the processors of two lists of entries, one behind the other.
id_of :
    (xs zs : List Entry) (s a u : Cpus)
    → s.ncpu ≡ 0
    → Added xs s a
    → Added zs a u
    → (j : ℕ) → j < u.ncpu
    → (u.cpus j).cpu_id ≡ j
id_of xs zs s a u empty first tail j h =
    elim (Bool-cases (ltb j a.ncpu)) as (λ _. (u.cpus j).cpu_id ≡ j) [
      | inl early ↦
          ap (λ (c : CpuInfo). c.cpu_id) (tail.before j (ground arith))
          ∙ first.ids j (omega (arith, empty)) (ground arith)
      | inr late ↦ tail.ids j (ground arith) h
    ]

-- What mp_init leaves where `xs`, a processor with the boot flag and `ys` are the table's entries.
pub record Processors (mem : Memory) (conf : ℕ) (xs ys : List Entry) (t : Cpus) : Type 0 where
  pub count : t.ncpu ≡ at_most_8 (processors (xs ++ Entry.cpu true ∷ ys))
  pub ids : (j : ℕ) → j < t.ncpu → (t.cpus j).cpu_id ≡ j
  pub boot : t.bootcpu ≡ at_most_8 (processors xs)
  pub started : (t.cpus t.bootcpu).cpu_status ≡ 1
  pub on : t.ismp ≡ true
  pub lapic : t.lapicaddr ≡ word_at mem (conf + 36)

module _ (mem : Memory) (conf : ℕ) (xs ys : List Entry) (s : Cpus) (empty : s.ncpu ≡ 0)
    (on : s.ismp ≡ true) (known : s.lapicaddr ≡ word_at mem (conf + 36))
    (table : Table mem (conf + 44) (xs ++ Entry.cpu true ∷ ys)) (unmarked : IsUnmarked ys) where
  settled :
      (a u : Cpus)
      → Added xs s a
      → Added (Entry.cpu true ∷ ys) a u
      → u.bootcpu ≡ a.ncpu
      → (imcr mp : ℕ) → Processors mem conf xs ys (settle mem imcr mp u)
  settled a u first tail named imcr mp =
      let (ncpu, id, boot, status, ismp, lapic) =
        settle-ismp mem imcr mp u (tail.others.0 ∙ first.others.0 ∙ on) in
      let total : processors (xs ++ Entry.cpu true ∷ ys) ≡ processors xs + suc (processors ys) =
        processors-append xs (Entry.cpu true ∷ ys) in
      record {
        count = ncpu ∙ ground (arith, tail.count, first.count, total);
        ids = λ j h.
            id j
            ∙ id_of xs (Entry.cpu true ∷ ys) s a u empty first tail j (subst (λ n. j < n) ncpu h);
        boot = boot ∙ named ∙ ground (arith, first.count);
        started = ap (λ b. ((settle mem imcr mp u).cpus b).cpu_status) boot ∙ status;
        on = ismp;
        lapic = lapic ∙ tail.others.1 ∙ first.others.1 ∙ known;
      }

  read_table :
      (u : Cpus) × (read_entries mem (entries (xs ++ Entry.cpu true ∷ ys)) (conf + 44) s ≡ u)
      × ((imcr mp : ℕ) → Processors mem conf xs ys (settle mem imcr mp u))
  unfolding read_entries
  read_table =
      let (left, right) = Table-append mem (conf + 44) xs (Entry.cpu true ∷ ys) table in
      let (a, run, first) = read_entries-Added xs mem (conf + 44) s (omega (arith, empty)) left in
      let small : a.ncpu ≤ 8 = ground (arith, first.count) in
      let one = processor-Added true a small in
      let (u, go, rest) =
        read_entries-Added ys mem (end_of (conf + 44) xs + 20) (processor true a)
          (ground (arith, one.count)) right.2 in
      let tail = Added-then true ys a (processor true a) u small one rest in
      let size : entries (xs ++ Entry.cpu true ∷ ys) ≡ entries xs + suc (entries ys) =
        entries-append xs (Entry.cpu true ∷ ys) in
      (
        u,
        ap (λ k. read_entries mem k (conf + 44) s) size
            ∙ run (suc (entries ys))
            ∙ read_cpu mem (entries ys) (end_of (conf + 44) xs) a true right.0 right.1
            ∙ ap (λ k. read_entries mem k (end_of (conf + 44) xs + 20) (processor true a))
                (omega arith)
            ∙ go 0,
        settled a u first tail (rest.boot unmarked ∙ processor-boot a),
      )

settle_off :
    (mem : Memory) (imcr mp : ℕ) (s : Cpus)
    → s.ismp ≡ false
    → let t = settle mem imcr mp s in (t.ncpu ≡ 1) × (t.ismp ≡ false) × (t.lapicaddr ≡ 0)
unfolding settle
settle_off mem imcr mp s off = (ground (arith, off), ground (arith, off), ground (arith, off))

read_unknown :
    (mem : Memory) (n p : ℕ) (s : Cpus)
    → 4 < mem p
    → read_entries mem (suc n) p s ≡ record s { ismp = false }
unfolding read_entries
read_unknown mem n p s unknown =
    let other : (mem p == 0) ≡ false = ground arith in
    let above : leb (mem p) 4 ≡ false = ground arith in rw (other, above) refl

-- Where mpconfig finds a table whose entries are `xs`, a processor with the boot flag, and `ys`
-- without such a flag, and no processor is known yet, mp_init counts the processors of the table,
-- but at most 8; each that is counted has its index as its id; the local APIC's address is that of
-- the table; and `bootcpu`, whose status is CPU_STARTED, is the number of processors in `xs`, but
-- at most 8: with eight before it, it is behind the end of `cpus`.
pub mp_init-Processors :
    (npages : ℕ) (mem : Memory) (imcr mp conf : ℕ) (s : Cpus) (xs ys : List Entry)
    → s.ncpu ≡ 0
    → mpconfig npages mem ≡ some (some (mp, conf))
    → half_at mem (conf + 34) ≡ entries (xs ++ Entry.cpu true ∷ ys)
    → Table mem (conf + 44) (xs ++ Entry.cpu true ∷ ys)
    → IsUnmarked ys
    → (t : Cpus) × (mp_init npages mem imcr s ≡ some t) × Processors mem conf xs ys t
unfolding mp_init init_from
mp_init-Processors npages mem imcr mp conf s xs ys empty found size table unmarked =
    let (u, run, all) =
      read_table mem conf xs ys
        (record s { bootcpu = 0; ismp = true; lapicaddr = word_at mem (conf + 36) }) empty refl refl
        table unmarked in
    (settle mem imcr mp u, rw (found, size, run) refl, all imcr mp)

-- An entry of a type that mp_init does not know ends the table: it gives up on several processors.
pub mp_init_unknown :
    (npages : ℕ) (mem : Memory) (imcr mp conf : ℕ) (s : Cpus) (xs : List Entry)
    → s.ncpu ≡ 0
    → mpconfig npages mem ≡ some (some (mp, conf))
    → entries xs < half_at mem (conf + 34)
    → Table mem (conf + 44) xs
    → 4 < mem (end_of (conf + 44) xs)
    → (t : Cpus) × (mp_init npages mem imcr s ≡ some t)
      × (t.ncpu ≡ 1)
      × (t.ismp ≡ false)
      × (t.lapicaddr ≡ 0)
unfolding mp_init init_from
mp_init_unknown npages mem imcr mp conf s xs empty found more table unknown =
    let start : Cpus = record s { bootcpu = 0; ismp = true; lapicaddr = word_at mem (conf + 36) } in
    let (a, run, added) =
      read_entries-Added xs mem (conf + 44) start (omega (arith, empty)) table in
    let size : half_at mem (conf + 34)
        ≡ entries xs + suc (half_at mem (conf + 34) - entries xs - 1) =
      omega arith in
    let stop =
      ap (λ k. read_entries mem k (conf + 44) start) size
      ∙ run (suc (half_at mem (conf + 34) - entries xs - 1))
      ∙ read_unknown mem (half_at mem (conf + 34) - entries xs - 1) (end_of (conf + 44) xs) a
          unknown in
    let (ncpu, ismp, lapic) = settle_off mem imcr mp (record a { ismp = false }) refl in
    (settle mem imcr mp (record a { ismp = false }), rw (found, stop) refl, ncpu, ismp, lapic)
