-- ===== src/Multiprocessor/Search.antt =====
-- What the search finds, and which tables it accepts.
use junior_os.Base.{
  ℕ, zero, suc, ◌+◌, ◌-◌, ◌*◌, ◌/◌, ◌%◌, ◌^◌, ◌<◌, ◌≡◌, ◌≢◌, ◌⊎◌, ◌↔◌, inl, inr, refl, Bool, true,
  false, not, ◌&&◌, ◌||◌, Option, none, some, ◌==◌, ltb, leb, if◌then◌else◌, arith, gt→leb, eqb→eq,
  ◌∙◌, ap, sym, subst, Bool-cases,
}
use junior_os.Machine.{word}
use junior_os.Strings.{Memory}
use junior_os.Loader.{word_at, half_at}
use junior_os.Multiprocessor.{
  ◌>>=◌, kaddr_of, has_signature, sum, is_mp, search, mpsearch1, mpsearch, mpconfig, or_search,
  first_search, table_of, config_of,
}

-- The first of `n` structures of 16 bytes from `a` on that is a floating pointer structure.
abbrev pub IsFirst : Memory → ℕ → ℕ → Option ℕ → Type 0
IsFirst mem a n none = (k : ℕ) → k < n → is_mp mem (a + k * 16) ≡ false
IsFirst mem a n (some mp) =
    (k : ℕ) × (k < n)
    × (mp ≡ a + k * 16)
    × (is_mp mem mp ≡ true)
    × ((j : ℕ) → j < k → is_mp mem (a + j * 16) ≡ false)

-- One more place in front.
none_before :
    (P : ℕ → Bool) (a n : ℕ)
    → P a ≡ false
    → ((k : ℕ) → k < n → P (a + 16 + k * 16) ≡ false)
    → (k : ℕ) → k < suc n
    → P (a + k * 16) ≡ false
none_before P a n bad rest zero small = subst (λ x. P x ≡ false) (omega arith) bad
none_before P a n bad rest (suc k) small =
    subst (λ x. P x ≡ false) (omega arith) (rest k (omega arith))

IsFirst-next :
    (mem : Memory) (a n : ℕ) (r : Option ℕ)
    → is_mp mem a ≡ false
    → IsFirst mem (a + 16) n r
    → IsFirst mem a (suc n) r
IsFirst-next mem a n none bad first = none_before (is_mp mem) a n bad first
IsFirst-next mem a n (some mp) bad first = (
  suc first.0,
  omega (arith, first.1),
  omega (arith, first.2),
  first.3,
  none_before (is_mp mem) a first.0 bad first.4,
)

here-or_next :
    (mem : Memory) (a n : ℕ) (r : Option ℕ)
    → (is_mp mem a ≡ true) ⊎ (is_mp mem a ≡ false)
    → IsFirst mem (a + 16) n r
    → IsFirst mem a (suc n) (if is_mp mem a then some a else r)
here-or_next mem a n r (inl here) first =
    subst (λ b. IsFirst mem a (suc n) (if b then some a else r)) (sym here)
      (0, omega arith, omega arith, here, λ j h. absurd (omega arith))
here-or_next mem a n r (inr bad) first =
    subst (λ b. IsFirst mem a (suc n) (if b then some a else r)) (sym bad)
      (IsFirst-next mem a n r bad first)

search_step :
    (mem : Memory) (rounds mp end : ℕ)
    → search mem (suc rounds) mp end ≡ (
        if ltb mp end
        then (if is_mp mem mp then some mp else search mem rounds (mp + 16) end)
        else none)
unfolding search
search_step mem rounds mp end = refl

search-IsFirst : (mem : Memory) (n a : ℕ) → IsFirst mem a n (search mem (suc n) a (a + n * 16))
search-IsFirst mem zero a =
    let past : ltb a (a + 0) ≡ false = ground arith in
    subst (IsFirst mem a 0)
      (sym (
        search_step mem 0 a (a + 0)
        ∙ ap
            (λ b.
              if b then (if is_mp mem a then some a else search mem 0 (a + 16) (a + 0)) else none)
            past))
      (λ k h. absurd (omega arith))
search-IsFirst mem (suc n) a =
    let before : ltb a (a + suc n * 16) ≡ true = ground arith in
    let e : a + suc n * 16 ≡ a + 16 + n * 16 = omega arith in
    subst (IsFirst mem a (suc n))
      (sym (
        search_step mem (suc n) a (a + suc n * 16)
        ∙ ap
            (λ b.
              if b
              then (if is_mp mem a then some a else search mem (suc n) (a + 16) (a + suc n * 16))
              else none)
            before
        ∙ ap (λ end. if is_mp mem a then some a else search mem (suc n) (a + 16) end) e))
      (here-or_next mem a n (search mem (suc n) (a + 16) (a + 16 + n * 16))
        (Bool-cases (is_mp mem a)) (search-IsFirst mem n (a + 16)))

mpsearch1-IsFirst :
    (npages : ℕ) (mem : Memory) (a n : ℕ)
    → a + n * 16 < 2 ^ 32
    → (a + n * 16) / 4096 < npages
    → (r : Option ℕ) × (mpsearch1 npages mem a (n * 16) ≡ some r) × IsFirst mem a n r
unfolding mpsearch1
mpsearch1-IsFirst npages mem a n small inside =
    let rounds : n * 16 / 16 + 1 ≡ suc n = omega arith in
    let end : (a + n * 16) % 2 ^ 32 ≡ a + n * 16 = omega arith in
    let first : leb npages (a / 4096) ≡ false = ground arith in
    let last : leb npages ((a + n * 16) / 4096) ≡ false = ground arith in
    (search mem (suc n) a (a + n * 16), rw (first, end, last, rounds) refl, search-IsFirst mem n a)

-- The area that is searched first: the extended BIOS data area, or the last KB of base memory.
abbrev pub first_area : Memory → ℕ
first_area mem =
    if half_at mem 0x40E == 0 then half_at mem 0x413 * 1024 - 1024 else half_at mem 0x40E * 16

-- What mpsearch finds: the first structure in that area, or else in the BIOS ROM.
abbrev pub Found : Memory → Option ℕ → Option ℕ → Type 0
Found mem (some mp) r = r ≡ some mp
Found mem none r = IsFirst mem 0xF0000 4096 r

first_search_lem :
    (npages : ℕ) (mem : Memory)
    → 256 < npages
    → ((i : ℕ) → mem i < 256)
    → half_at mem 0x413 ≢ 0
    → half_at mem 0x413 * 1024 / 4096 < npages
    → (q : Option ℕ) × (first_search npages mem 0x400 ≡ some q) × IsFirst mem (first_area mem) 64 q
unfolding first_search
first_search_lem npages mem enough bytes base inside =
    elim (Bool-cases (half_at mem 0x40E == 0))
      as (λ _.
        (q : Option ℕ) × (first_search npages mem 0x400 ≡ some q)
        × IsFirst mem (first_area mem) 64 q) [
          | inl missing ↦
              let back : (half_at mem 0x413 * 1024 + (word - 1024)) % word
                  ≡ half_at mem 0x413 * 1024 - 1024 =
                omega (arith, bytes 0x413, bytes 0x414) in
              rw (missing, back)
                (mpsearch1-IsFirst npages mem (half_at mem 0x413 * 1024 - 1024) 64
                  (omega (arith, bytes 0x413, bytes 0x414)) (omega arith))
          | inr there ↦ rw there (
              mpsearch1-IsFirst npages mem (half_at mem 0x40E * 16) 64
                (omega (arith, bytes 0x40E, bytes 0x40F)) (omega (arith, bytes 0x40E, bytes 0x40F)))
        ]

or_search_lem :
    (npages : ℕ) (mem : Memory) (q : Option ℕ)
    → 256 < npages
    → (r : Option ℕ) × (or_search npages mem q ≡ some r) × Found mem q r
unfolding or_search
or_search_lem npages mem none enough =
    mpsearch1-IsFirst npages mem 0xF0000 4096 (omega arith) (omega arith)
or_search_lem npages mem (some mp) enough = (some mp, refl, refl)

mpsearch_lem :
    (npages : ℕ) (mem : Memory)
    → 256 < npages
    → ((i : ℕ) → mem i < 256)
    → half_at mem 0x413 ≢ 0
    → half_at mem 0x413 * 1024 / 4096 < npages
    → (r : Option ℕ) × (mpsearch npages mem ≡ some r)
      × ((q : Option ℕ) × IsFirst mem (first_area mem) 64 q × Found mem q r)
unfolding mpsearch
mpsearch_lem npages mem enough bytes base inside =
    let (q, one, first) = first_search_lem npages mem enough bytes base inside in
    let (r, two, found) = or_search_lem npages mem q enough in
    let area : leb npages 0 ≡ false = gt→leb npages 0 (omega arith) in
    (r, rw (area, one) two, (q, first, found))

-- A table that mpconfig accepts.
pub record Accepted (npages : ℕ) (mem : Memory) (mp conf : ℕ) : Type 0 where
  pub start : conf ≡ word_at mem (mp + 4)
  pub given : conf ≢ 0
  pub default : mem (mp + 11) ≡ 0
  pub inside : conf / 4096 < npages
  pub signature : has_signature mem conf 80 67 77 80 ≡ true
  pub checksum : sum mem conf (half_at mem (conf + 4)) ≡ 0
  pub version : (mem (conf + 6) ≡ 1) ⊎ (mem (conf + 6) ≡ 4)
  pub extended :
      (sum mem (conf + half_at mem (conf + 4)) (half_at mem (conf + 40)) + mem (conf + 42)) % 256
      ≡ 0

config_of-Accepted :
    (npages : ℕ) (mem : Memory) (mp conf : ℕ)
    → Accepted npages mem mp conf
    → config_of npages mem (some mp) ≡ some (some (mp, conf))
unfolding config_of table_of
config_of-Accepted npages mem mp conf a =
    let head : (word_at mem (mp + 4) == 0 || not (mem (mp + 11) == 0)) ≡ false =
      ground (arith, a.start, a.given, a.default) in
    let inside : leb npages (conf / 4096) ≡ false = ground (arith, a.inside) in
    let version : (not (mem (conf + 6) == 1) && not (mem (conf + 6) == 4)) ≡ false =
      ground (arith, a.version) in
    rw (head, ← a.start, inside, a.signature, a.checksum, version, a.extended) refl

-- A guard in front of a result.
passed :
    {A : Type 0} (b : Bool) (x : Option A) (y : A)
    → (if b then none else x) ≡ some y
    → (b ≡ false) × (x ≡ some y)
passed true x y run = absurd (ground (arith, run))
passed false x y run = (refl, run)

passed_null :
    {A : Type 0} (b : Bool) (x : Option (Option A)) (y : A)
    → (if b then some none else x) ≡ some (some y)
    → (b ≡ false) × (x ≡ some (some y))
passed_null true x y run = absurd (ground (arith, run))
passed_null false x y run = (refl, run)

some_inj : {A : Type 0} (x y : A) → some x ≡ some y → x ≡ y
some_inj x y e = ground (arith, e)

table_iff :
    (mem : Memory) (mp conf q c : ℕ)
    → table_of mem mp conf ≡ some (q, c)
    → (q ≡ mp)
      × (c ≡ conf)
      × (has_signature mem conf 80 67 77 80 ≡ true)
      × (sum mem conf (half_at mem (conf + 4)) ≡ 0)
      × ((mem (conf + 6) ≡ 1) ⊎ (mem (conf + 6) ≡ 4))
      × ((sum mem (conf + half_at mem (conf + 4)) (half_at mem (conf + 40)) + mem (conf + 42)) % 256
          ≡ 0)
unfolding table_of
table_iff mem mp conf q c run =
    let (signature, one) = passed _ _ _ run in
    let (checksum, two) = passed _ _ _ one in
    let (version, three) = passed _ _ _ two in
    let (extended, four) = passed _ _ _ three in
    let pair = some_inj _ _ four in
    (
      sym (ap (λ (r : ℕ × ℕ). r.0) pair),
      sym (ap (λ (r : ℕ × ℕ). r.1) pair),
      of_not _ signature,
      eqb→eq _ _ (of_not _ checksum),
      either _ _ version,
      eqb→eq _ _ (of_not _ extended),
    )
  where
    of_not : (b : Bool) → not b ≡ false → b ≡ true
    of_not true e = refl
    of_not false e = sym e

    either : (a b : ℕ) → (not (a == 1) && not (b == 4)) ≡ false → (a ≡ 1) ⊎ (b ≡ 4)
    either a b e = ground arith

passed_bind :
    {A : Type 0} (b : Bool) (pa : ℕ) (t : ℕ → Option A) (y : A)
    → ((if b then none else some pa) >>= λ c. some (t c)) ≡ some (some y)
    → (b ≡ false) × (t pa ≡ some y)
passed_bind true pa t y run = absurd (ground (arith, run))
passed_bind false pa t y run = (refl, some_inj (t pa) (some y) run)

config_of_accepts :
    (npages : ℕ) (mem : Memory) (mp q conf : ℕ)
    → config_of npages mem (some mp) ≡ some (some (q, conf))
    → (q ≡ mp) × Accepted npages mem mp conf
unfolding config_of
config_of_accepts npages mem mp q conf run =
    let (head, body) =
      passed_null (word_at mem (mp + 4) == 0 || not (mem (mp + 11) == 0))
        (kaddr_of npages (word_at mem (mp + 4)) >>= λ c. some (table_of mem mp c)) (q, conf) run in
    let (inside, table) =
      passed_bind (leb npages (word_at mem (mp + 4) / 4096)) (word_at mem (mp + 4))
        (table_of mem mp) (q, conf) body in
    let (same, at, signature, checksum, version, extended) =
      table_iff mem mp (word_at mem (mp + 4)) q conf table in
    (
      same,
      record {
        start = at;
        given = ground (arith, head, at);
        default = ground (arith, head);
        inside = ground (arith, inside, at);
        signature = rw at signature;
        checksum = rw at checksum;
        version = rw at version;
        extended = rw at extended;
      },
    )

no_table : (npages : ℕ) (mem : Memory) (y : ℕ × ℕ) → ¬ (config_of npages mem none ≡ some (some y))
unfolding config_of
no_table npages mem y e = ground (arith, e)

-- With more than 256 pages, memory that holds bytes, and base memory of at least 1 KB that is in
-- range, mpsearch returns the first floating pointer structure of the first KB of the EBDA, or of
-- the last KB of base memory if there is no EBDA, or else the first one from 0xF0000 to 0xFFFFF, or
-- NULL where there is none; and mpconfig returns a configuration table exactly when that structure
-- points to it and its signature, version and both checksums are right.
pub mpsearch-mpconfig :
    (npages : ℕ) (mem : Memory)
    → 256 < npages
    → ((i : ℕ) → mem i < 256)
    → half_at mem 0x413 ≢ 0
    → half_at mem 0x413 * 1024 / 4096 < npages
    → (r : Option ℕ) × (mpsearch npages mem ≡ some r)
      × ((q : Option ℕ) × IsFirst mem (first_area mem) 64 q × Found mem q r)
      × ((mp conf : ℕ)
          → (mpconfig npages mem ≡ some (some (mp, conf)))
            ↔ ((r ≡ some mp) × Accepted npages mem mp conf))
unfolding mpconfig
mpsearch-mpconfig npages mem enough bytes base inside =
    let (r, run, found) = mpsearch_lem npages mem enough bytes base inside in
    (
      r,
      run,
      found,
      λ mp conf. (
        rw run (accepts r mp conf),
        λ a.
            ap (λ m. ◌>>=◌ m (config_of npages mem)) (run ∙ ap some a.0)
            ∙ config_of-Accepted npages mem mp conf a.1,
      ),
    )
  where
    accepts :
        (r : Option ℕ) (mp conf : ℕ)
        → config_of npages mem r ≡ some (some (mp, conf))
        → (r ≡ some mp) × Accepted npages mem mp conf
    accepts none mp conf e = absurd (no_table npages mem (mp, conf) e)
    accepts (some m) mp conf e =
        let (same, a) = config_of_accepts npages mem m mp conf e in (ap some (sym same), rw same a)
