-- ===== src/Multiprocessor/Entries.antt =====
-- The entries of a configuration table, and the processors that they add.
use junior_os.Base.{
  ℕ, suc, ◌+◌, ◌<◌, ◌≤◌, ◌≡◌, refl, Bool, true, false, List, [], ◌∷◌, ◌++◌, ◌==◌, ltb, leb,
  if◌then◌else◌, arith, ◌∙◌, ap,
}
use junior_os.Machine.{test}
use junior_os.Strings.{Memory}
use junior_os.Multiprocessor.{Cpus, processor, read_entries}

-- An entry of the table: a processor, with its boot flag, or a bus, I/O APIC or interrupt source.
pub data Entry : Type 0 where
  cpu : (boot : Bool) → Entry
  bus : (kind : ℕ) → Entry

-- The entries that are in memory from `p` on.
abbrev pub Table : Memory → ℕ → List Entry → Type 0
Table mem p [] = Unit
Table mem p (Entry.cpu boot ∷ es) =
    (mem p ≡ 0) × (test (mem (p + 3)) 2 ≡ boot) × Table mem (p + 20) es
Table mem p (Entry.bus kind ∷ es) = (mem p ≡ kind) × (0 < kind) × (kind ≤ 4) × Table mem (p + 8) es

abbrev pub end_of : ℕ → List Entry → ℕ
end_of p [] = p
end_of p (Entry.cpu boot ∷ es) = end_of (p + 20) es
end_of p (Entry.bus kind ∷ es) = end_of (p + 8) es

abbrev pub processors : List Entry → ℕ
processors [] = 0
processors (Entry.cpu boot ∷ es) = suc (processors es)
processors (Entry.bus kind ∷ es) = processors es

abbrev pub entries : List Entry → ℕ
entries [] = 0
entries (e ∷ es) = suc (entries es)

abbrev pub IsUnmarked : List Entry → Type 0
IsUnmarked [] = Unit
IsUnmarked (Entry.cpu boot ∷ es) = (boot ≡ false) × IsUnmarked es
IsUnmarked (Entry.bus kind ∷ es) = IsUnmarked es

abbrev pub at_most_8 : ℕ → ℕ
at_most_8 n = if ltb 8 n then 8 else n

-- The processors of the entries have been added.
pub record Added (es : List Entry) (s t : Cpus) : Type 0 where
  pub count : t.ncpu ≡ at_most_8 (s.ncpu + processors es)
  pub ids : (j : ℕ) → s.ncpu ≤ j → j < t.ncpu → (t.cpus j).cpu_id ≡ j
  pub before : (j : ℕ) → j < s.ncpu → t.cpus j ≡ s.cpus j
  pub boot : IsUnmarked es → t.bootcpu ≡ s.bootcpu
  pub others : (t.ismp ≡ s.ismp) × (t.lapicaddr ≡ s.lapicaddr) × (t.written ≡ s.written)

pub processor-Added :
    (b : Bool) (s : Cpus) → s.ncpu ≤ 8 → Added (Entry.cpu b ∷ []) s (processor b s)
unfolding processor
processor-Added b s small = record {
  count = ground arith;
  ids = λ j from to. ground arith;
  before = λ j h. ground arith;
  boot = λ unmarked. ground (arith, unmarked.0);
  others = (ground arith, ground arith, ground arith);
}

pub Added-then :
    (b : Bool) (es : List Entry) (s u t : Cpus)
    → s.ncpu ≤ 8
    → Added (Entry.cpu b ∷ []) s u
    → Added es u t
    → Added (Entry.cpu b ∷ es) s t
Added-then b es s u t small one rest = record {
  count = ground (arith, one.count, rest.count);
  ids = λ j from to. ground (arith, one.ids j, one.count, rest.ids j, rest.before j);
  before = λ j h. rest.before j (ground (arith, one.count)) ∙ one.before j h;
  boot = λ unmarked. rest.boot unmarked.1 ∙ one.boot (unmarked.0, tt);
  others =
      (rest.others.0 ∙ one.others.0, rest.others.1 ∙ one.others.1, rest.others.2 ∙ one.others.2);
}

-- Reading the entries, and `n` more behind them.
abbrev Reads : Memory → List Entry → ℕ → Cpus → Type 0
Reads mem es p s =
    (t : Cpus) × ((n : ℕ)
      → read_entries mem (entries es + n) p s ≡ read_entries mem n (end_of p es) t)
    × Added es s t

pub read_cpu :
    (mem : Memory) (n p : ℕ) (s : Cpus) (b : Bool)
    → mem p ≡ 0
    → test (mem (p + 3)) 2 ≡ b
    → read_entries mem (suc n) p s ≡ read_entries mem n (p + 20) (processor b s)
unfolding read_entries
read_cpu mem n p s b kind flag = rw (kind, flag) refl

read_bus :
    (mem : Memory) (n p kind : ℕ) (s : Cpus)
    → mem p ≡ kind
    → 0 < kind
    → kind ≤ 4
    → read_entries mem (suc n) p s ≡ read_entries mem n (p + 8) s
unfolding read_entries
read_bus mem n p kind s at pos small =
    let other : (kind == 0) ≡ false = ground arith in
    let known : leb kind 4 ≡ true = ground arith in rw (at, other, known) refl

pub read_entries-Added :
    (es : List Entry) (mem : Memory) (p : ℕ) (s : Cpus)
    → s.ncpu ≤ 8
    → Table mem p es
    → Reads mem es p s
read_entries-Added [] mem p s small table = (
  s,
  λ n. ap (λ k. read_entries mem k p s) (omega arith),
  record {
    count = ground arith;
    ids = λ j from to. absurd (omega arith);
    before = λ j h. refl;
    boot = λ u. refl;
    others = (refl, refl, refl);
  },
)
read_entries-Added (Entry.cpu b ∷ es) mem p s small table =
    let more : (n : ℕ)
        → read_entries mem (suc (entries es) + n) p s
          ≡ read_entries mem (suc (entries es + n)) p s =
      λ n. ap (λ k. read_entries mem k p s) (omega arith) in
    let one = processor-Added b s small in
    let (t, run, rest) =
      read_entries-Added es mem (p + 20) (processor b s) (ground (arith, one.count)) table.2 in
    (
      t,
      λ n. more n ∙ read_cpu mem (entries es + n) p s b table.0 table.1 ∙ run n,
      Added-then b es s (processor b s) t small one rest,
    )
read_entries-Added (Entry.bus kind ∷ es) mem p s small table =
    let more : (n : ℕ)
        → read_entries mem (suc (entries es) + n) p s
          ≡ read_entries mem (suc (entries es + n)) p s =
      λ n. ap (λ k. read_entries mem k p s) (omega arith) in
    let (t, run, rest) = read_entries-Added es mem (p + 8) s small table.3 in
    (
      t,
      λ n. more n ∙ read_bus mem (entries es + n) p kind s table.0 table.1 table.2 ∙ run n,
      record {
        count = rest.count;
        ids = rest.ids;
        before = rest.before;
        boot = rest.boot;
        others = rest.others;
      },
    )

pub processors-append : (xs ys : List Entry) → processors (xs ++ ys) ≡ processors xs + processors ys
processors-append [] ys = omega arith
processors-append (Entry.cpu b ∷ xs) ys = omega (arith, processors-append xs ys)
processors-append (Entry.bus kind ∷ xs) ys = processors-append xs ys

pub entries-append : (xs ys : List Entry) → entries (xs ++ ys) ≡ entries xs + entries ys
entries-append [] ys = omega arith
entries-append (x ∷ xs) ys = omega (arith, entries-append xs ys)

pub Table-append :
    (mem : Memory) (p : ℕ) (xs ys : List Entry)
    → Table mem p (xs ++ ys)
    → Table mem p xs × Table mem (end_of p xs) ys
Table-append mem p [] ys table = (tt, table)
Table-append mem p (Entry.cpu b ∷ xs) ys table =
    let (left, right) = Table-append mem (p + 20) xs ys table.2 in ((table.0, table.1, left), right)
Table-append mem p (Entry.bus kind ∷ xs) ys table =
    let (left, right) = Table-append mem (p + 8) xs ys table.3 in
    ((table.0, table.1, table.2, left), right)
