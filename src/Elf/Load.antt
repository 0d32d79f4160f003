-- ===== src/Elf/Load.antt =====
-- The extent that `elf32_load` computes over the program headers.
use treeos.Base.{
  ℕ, zero, suc, ◌+◌, ◌-◌, ◌^◌, ◌≤◌, ◌<◌, ◌≡◌, ◌≢◌, ◌⊎◌, refl, arith, true, ◌==◌, ltb, ok, subst,
  add32, sub32, inl, inr, Bool-cases, ltb→lt, ltb-false, ne→==_false, ==_false→ne,
}
use treeos.Str.{Bytes}
use treeos.Elf.{ehdr_at, prog_hdr, load_base, load_size, load_extent, elf32_load, pt_load}

module _ (m : Bytes) (hdr : ℕ) where
  -- Program header `i` is that of a segment to load.
  abbrev pub Loads : ℕ → Type 0
  Loads i = (prog_hdr m hdr i).p_type ≡ 1

  -- `best` is the least of `start` and of the values of the segments from `i` to below `n`.
  pub record Least (value : ℕ → ℕ) (start i n best : ℕ) : Type 0 where
    pub to_start : best ≤ start
    pub to_each : (j : ℕ) → i ≤ j → j < n → Loads j → best ≤ value j
    pub taken : (best ≡ start) ⊎ ((j : ℕ) × (i ≤ j) × (j < n) × Loads j × (best ≡ value j))

  -- And the greatest.
  pub record Greatest (value : ℕ → ℕ) (start i n best : ℕ) : Type 0 where
    pub to_start : start ≤ best
    pub to_each : (j : ℕ) → i ≤ j → j < n → Loads j → value j ≤ best
    pub taken : (best ≡ start) ⊎ ((j : ℕ) × (i ≤ j) × (j < n) × Loads j × (best ≡ value j))

  module _ (value : ℕ → ℕ) (start i n best : ℕ) where
    Taken : ℕ → ℕ → Type 0
    Taken start i = (best ≡ start) ⊎ ((j : ℕ) × (i ≤ j) × (j < n) × Loads j × (best ≡ value j))

    later : Taken start (i + 1) → Taken start i
    unfolding Taken
    later (inl e) = inl e
    later (inr (j, p, q, l, e)) = inr (j, omega arith, q, l, e)

    at_i : i < n → Loads i → Taken (value i) (i + 1) → Taken start i
    unfolding Taken
    at_i h l (inl e) = inr (i, omega arith, h, l, e)
    at_i h l (inr (j, p, q, l', e)) = inr (j, omega arith, q, l', e)

    -- A property of the values holds at `i` and behind it.
    each : (P : ℕ → Type 0) → P i → ((j : ℕ) → i + 1 ≤ j → P j) → (j : ℕ) → i ≤ j → P j
    each P here rest j h = elim (Bool-cases (i == j)) [
      | inl t ↦ subst P (same t) here
      | inr f ↦ rest j (ground (arith, f, h))
    ]
      where
        same : (i == j) ≡ true → i ≡ j
        same t = ground arith

    Least-keep :
        (Loads i → start ≤ value i) → Least value start (i + 1) n best → Least value start i n best
    unfolding Taken
    Least-keep small l = record {
      to_start = l.to_start;
      to_each =
          each (λ j. j < n → Loads j → best ≤ value j) (λ q ld. omega (arith, small ld, l.to_start))
            l.to_each;
      taken = later l.taken;
    }

    Least-take :
        i < n
        → Loads i
        → value i < start
        → Least value (value i) (i + 1) n best
        → Least value start i n best
    unfolding Taken
    Least-take h ld less l = record {
      to_start = omega (arith, less, l.to_start);
      to_each = each (λ j. j < n → Loads j → best ≤ value j) (λ q ld'. l.to_start) l.to_each;
      taken = at_i h ld l.taken;
    }

    Greatest-keep :
        (Loads i → value i ≤ start)
        → Greatest value start (i + 1) n best
        → Greatest value start i n best
    unfolding Taken
    Greatest-keep small l = record {
      to_start = l.to_start;
      to_each =
          each (λ j. j < n → Loads j → value j ≤ best) (λ q ld. omega (arith, small ld, l.to_start))
            l.to_each;
      taken = later l.taken;
    }

    Greatest-take :
        i < n
        → Loads i
        → start < value i
        → Greatest value (value i) (i + 1) n best
        → Greatest value start i n best
    unfolding Taken
    Greatest-take h ld less l = record {
      to_start = omega (arith, less, l.to_start);
      to_each = each (λ j. j < n → Loads j → value j ≤ best) (λ q ld'. l.to_start) l.to_each;
      taken = at_i h ld l.taken;
    }

  abbrev pub vaddr : ℕ → ℕ
  vaddr j = (prog_hdr m hdr j).p_vaddr

  abbrev pub end_from : ℕ → ℕ → ℕ
  end_from base j = add32 (sub32 (prog_hdr m hdr j).p_paddr base) (prog_hdr m hdr j).p_memsz

  is_load : (i : ℕ) → ((prog_hdr m hdr i).p_type == pt_load) ≡ true → Loads i
  is_load i t = ground arith

  load_base-Least :
      (left i start n : ℕ) → left + i ≡ n → Least vaddr start i n (load_base m hdr left i start)
  unfolding load_base
  load_base-Least zero i start n e = record {
    to_start = omega arith;
    to_each = λ j p q. absurd (omega arith);
    taken = inl refl;
  }
  load_base-Least (suc left) i start n e =
      elim (Bool-cases ((prog_hdr m hdr i).p_type == pt_load)) [
        | inr f ↦ rw f (
            Least-keep vaddr start i n _ (λ l. absurd (==_false→ne _ 1 f l))
              (load_base-Least left (i + 1) start n (omega arith)))
        | inl t ↦ elim (Bool-cases (ltb (vaddr i) start)) [
          | inr f ↦
              rw (t, f)
                (Least-keep vaddr start i n _ (λ l. ltb-false (vaddr i) start f)
                  (load_base-Least left (i + 1) start n (omega arith)))
          | inl u ↦
              rw (t, u)
                (Least-take vaddr start i n _ (omega arith) (is_load i t) (ltb→lt (vaddr i) start u)
                  (load_base-Least left (i + 1) (vaddr i) n (omega arith)))
        ]
      ]

  load_size-Greatest :
      (base left i start n : ℕ)
      → left + i ≡ n
      → Greatest (end_from base) start i n (load_size m hdr base left i start)
  unfolding load_size
  load_size-Greatest base zero i start n e = record {
    to_start = omega arith;
    to_each = λ j p q. absurd (omega arith);
    taken = inl refl;
  }
  load_size-Greatest base (suc left) i start n e =
      elim (Bool-cases ((prog_hdr m hdr i).p_type == pt_load)) [
        | inr f ↦ rw f (
            Greatest-keep (end_from base) start i n _ (λ l. absurd (==_false→ne _ 1 f l))
              (load_size-Greatest base left (i + 1) start n (omega arith)))
        | inl t ↦ elim (Bool-cases (ltb start (end_from base i))) [
          | inr f ↦
              rw (t, f)
                (Greatest-keep (end_from base) start i n _
                  (λ l. ltb-false start (end_from base i) f)
                  (load_size-Greatest base left (i + 1) start n (omega arith)))
          | inl u ↦
              rw (t, u)
                (Greatest-take (end_from base) start i n _ (omega arith) (is_load i t)
                  (ltb→lt start (end_from base i) u)
                  (load_size-Greatest base left (i + 1) (end_from base i) n (omega arith)))
        ]
      ]

  -- `elf32_load` of a process with a page directory returns true. The base that it computes is the
  -- least virtual address of the segments to load, 2 ^ 32 - 1 if there is none, and the size is the
  -- greatest of their ends as the code counts them, which is from the base to the physical address
  -- and the size in memory, on 32 bits.
  pub elf32_load_lem :
      (proc pgdir : ℕ)
      → hdr ≢ 0
      → proc ≢ 0
      → pgdir ≢ 0
      → (base : ℕ) × (size : ℕ) × (elf32_load hdr proc pgdir m ≡ ok (true, (base, size)))
        × Least vaddr (2 ^ 32 - 1) 0 (ehdr_at m hdr).e_phnum base
        × Greatest (end_from base) 0 0 (ehdr_at m hdr).e_phnum size
  unfolding elf32_load load_extent
  elf32_load_lem proc pgdir p q r =
      let n : ℕ = (ehdr_at m hdr).e_phnum in
      let base : ℕ = load_base m hdr n 0 (2 ^ 32 - 1) in
      (
        base,
        load_size m hdr base n 0 0,
        rw (ne→==_false hdr 0 p, ne→==_false proc 0 q, ne→==_false pgdir 0 r) refl,
        load_base-Least n 0 (2 ^ 32 - 1) n (omega arith),
        load_size-Greatest base n 0 0 n (omega arith),
      )
