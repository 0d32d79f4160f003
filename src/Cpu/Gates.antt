-- ===== src/Cpu/Gates.antt =====
-- The descriptors read back: what the processor makes of the stored fields.
use treeos.Base.{
  ℕ, zero, suc, ◌+◌, ◌*◌, ◌/◌, ◌^◌, ◌≤◌, ◌<◌, ◌≡◌, refl, arith, Bool, true, not, some, bit_and,
  List, Result, ok, panicked, ◌==◌, if◌then◌else◌, ltb, length, get_elem?, set, length-set,
  get_elem?-set_self, get_elem?-set_ne, get_elem?_in_range, lt→ltb, le→ltb_false, ne→==_false, ◌∙◌,
}
use native.Mathlib.Decide.{dec_lt}
use treeos.Bits.{bit_and_low, high_mask, each_below, each_below_sound}
use treeos.Cpu.{
  GdtEntry, IdtEntry, gdt_gate, idt_gate, fill_kernel, fill_idt, set_idt_gate, kern_code_selector,
  idt_kern_int, idt_user_int,
}

abbrev pub gdt_base : GdtEntry → ℕ
gdt_base e = e.base_low + e.base_high * 2 ^ 24

abbrev pub gdt_limit : GdtEntry → ℕ
gdt_limit e = e.limit_low + e.limit_high * 2 ^ 16

-- The outcomes of `set_gdt_gate`, by whether the limit fits 20 bits and the granularity 4.
pub data Encodes (base limit access gran : ℕ) : Result GdtEntry → Type 0 where
  encoded :
      {result : Result GdtEntry} (e : GdtEntry)
      → limit < 2 ^ 20
      → gran < 2 ^ 4
      → result ≡ ok e
      → gdt_base e ≡ base
      → gdt_limit e ≡ limit
      → e.access ≡ access
      → e.granularity ≡ gran
      → Encodes base limit access gran result
  bad_limit :
      {result : Result GdtEntry}
      → 2 ^ 20 ≤ limit
      → result ≡ panicked "limit out of range"
      → Encodes base limit access gran result
  bad_granularity :
      {result : Result GdtEntry}
      → limit < 2 ^ 20
      → 2 ^ 4 ≤ gran
      → result ≡ panicked "granularity out of range"
      → Encodes base limit access gran result

same_bool : (a b : Bool) → (if a then b else not b) ≡ true → a ≡ b
same_bool a b h = ground arith

gran_table :
    each_below 256 (λ g. if bit_and g 0xf0 == 0 then ltb g (2 ^ 4) else not (ltb g (2 ^ 4))) ≡ true
unfolding each_below
gran_table = refl

module _ (base limit access gran : ℕ) (hb : base < 2 ^ 32) (hl : limit < 2 ^ 32)
    (hg : gran < 2 ^ 8) where
  limit_test : (bit_and limit 0xfff00000 == 0) ≡ ltb limit (2 ^ 20)
  limit_test = high_mask 20 (omega arith) limit hl

  gran_test : (bit_and gran 0xf0 == 0) ≡ ltb gran (2 ^ 4)
  gran_test = same_bool _ _ (each_below_sound 256 _ gran gran_table hg)

  stored : GdtEntry
  stored = record {
    limit_low = bit_and limit 0xffff;
    base_low = bit_and base 0xffffff;
    access = access;
    limit_high = bit_and (limit / 2 ^ 16) 0x0f;
    granularity = bit_and gran 0x0f;
    base_high = bit_and (base / 2 ^ 24) 0xff;
  }

  -- Every base and every limit of 20 bits can be read back from the descriptor; a larger limit or
  -- granularity panics.
  pub gdt_gate_lem : Encodes base limit access gran (gdt_gate base limit access gran)
  unfolding gdt_gate stored
  gdt_gate_lem = elim (dec_lt limit (2 ^ 20)) [
    | no p ↦
        bad_limit (omega arith) (rw (limit_test, le→ltb_false limit (2 ^ 20) (omega arith)) refl)
    | yes p ↦ elim (dec_lt gran (2 ^ 4)) [
      | no q ↦
          bad_granularity p (omega arith)
            (rw (limit_test, lt→ltb _ _ p, gran_test, le→ltb_false gran (2 ^ 4) (omega arith)) refl)
      | yes q ↦
          encoded stored p q (rw (limit_test, lt→ltb _ _ p, gran_test, lt→ltb _ _ q) refl)
            (omega (arith, bit_and_low 24 base, bit_and_low 8 (base / 2 ^ 24)))
            (omega (arith, bit_and_low 16 limit, bit_and_low 4 (limit / 2 ^ 16))) refl
            (omega (arith, bit_and_low 4 gran))
    ]
  ]

abbrev pub idt_base : IdtEntry → ℕ
idt_base e = e.base_low + e.base_high * 2 ^ 16

idt_gate-base :
    (base selector access : ℕ) → base < 2 ^ 32 → idt_base (idt_gate base selector access) ≡ base
unfolding idt_gate
idt_gate-base base selector access h =
    omega (arith, bit_and_low 16 base, bit_and_low 16 (base / 2 ^ 16))

-- `result` is the table `t` with the gates of `change` in it.
record Filled (t : List IdtEntry) (lo hi : ℕ) (gate : ℕ → IdtEntry)
    (result : Result (List IdtEntry)) : Type 0 where
  out : List IdtEntry
  returns : result ≡ ok out
  same_length : length out ≡ length t
  inside : (j : ℕ) → lo ≤ j → j < hi → get_elem? out j ≡ some (gate j)
  outside : (j : ℕ) → hi ≤ j → get_elem? out j ≡ get_elem? t j
  before : (j : ℕ) → j < lo → get_elem? out j ≡ get_elem? t j

module _ (isr : ℕ → ℕ) where
  abbrev kern_gate : ℕ → IdtEntry
  kern_gate j = idt_gate (isr j) kern_code_selector idt_kern_int

  fill_kernel-Filled :
      (left i hi : ℕ) (t : List IdtEntry)
      → left + i ≡ hi
      → hi ≤ length t
      → Filled t i hi kern_gate (fill_kernel isr left i t)
  unfolding fill_kernel
  fill_kernel-Filled zero i hi t e h = record {
    out = t;
    returns = refl;
    same_length = refl;
    inside = λ j p q. absurd (omega arith);
    outside = λ j p. refl;
    before = λ j p. refl;
  }
  fill_kernel-Filled (suc left) i hi t e h =
      let (old, at) = get_elem?_in_range t i (omega arith) in
      let t' : List IdtEntry = set t i (kern_gate i) in
      let rest =
        fill_kernel-Filled left (i + 1) hi t' (omega arith)
          (omega (arith, length-set t i (kern_gate i), h)) in
      record {
        out = rest.out;
        returns = rw at rest.returns;
        same_length = rest.same_length ∙ length-set t i (kern_gate i);
        inside = λ j p q.
            ground (arith, rest.inside j, rest.before j, get_elem?-set_self t i (kern_gate i));
        outside = λ j p. rest.outside j p ∙ get_elem?-set_ne t i j (kern_gate i) (omega arith);
        before =
            λ j p. rest.before j (omega arith) ∙ get_elem?-set_ne t i j (kern_gate i) (omega arith);
      }

  -- The gate that `fill_idt` makes for interrupt `j`.
  abbrev pub gate_of : ℕ → IdtEntry
  gate_of j = idt_gate (isr j) kern_code_selector (if j == 48 then idt_user_int else idt_kern_int)

  fill_idt-gates :
      (t : List IdtEntry)
      → length t ≡ 49
      → (out : List IdtEntry) × (fill_idt isr t ≡ ok out)
        × (length out ≡ 49)
        × ((j : ℕ) → j < 49 → get_elem? out j ≡ some (gate_of j))
  unfolding fill_idt set_idt_gate
  fill_idt-gates t size =
      let k = fill_kernel-Filled 48 0 48 t (omega arith) (omega arith) in
      let (old, at) = get_elem?_in_range k.out 48 (omega (arith, k.same_length)) in
      let last : IdtEntry = idt_gate (isr 48) kern_code_selector idt_user_int in
      (
        set k.out 48 last,
        rw (k.returns, at) refl,
        length-set k.out 48 last ∙ k.same_length ∙ size,
        λ j p. elim (dec_lt j 48) [
          | yes q ↦
              rw
                (
                  get_elem?-set_ne k.out 48 j last (omega arith),
                  k.inside j (omega arith) q,
                  ne→==_false j 48 (omega arith),
                )
                refl
          | no q ↦
              let e : j ≡ 48 = omega arith in
              rw (e, get_elem?-set_self k.out 48 last (omega (arith, k.same_length))) refl
        ],
      )

  -- What the processor reads in the gate of interrupt `j`.
  pub record Leads (out : List IdtEntry) (j : ℕ) : Type 0 where
    pub gate : IdtEntry
    pub here : get_elem? out j ≡ some gate
    pub base : idt_base gate ≡ isr j
    pub selector : gate.selector ≡ kern_code_selector
    pub access : gate.access ≡ (if j == 48 then 0xee else 0x8e)

  -- `fill_idt` on a table of 49 entries returns, and entry `j` leads to stub `j` in the kernel's
  -- code segment, with ring 3 allowed (access 0xee) for the system call 48 alone.
  pub fill_idt_lem :
      (t : List IdtEntry)
      → length t ≡ 49
      → ((j : ℕ) → isr j < 2 ^ 32)
      → (out : List IdtEntry) × (fill_idt isr t ≡ ok out)
        × (length out ≡ 49)
        × ((j : ℕ) → j < 49 → Leads out j)
  fill_idt_lem t size fits =
      let (out, returns, same, gates) = fill_idt-gates t size in
      (
        out,
        returns,
        same,
        λ j p. record {
          gate = gate_of j;
          here = gates j p;
          base = idt_gate-base (isr j) kern_code_selector _ (fits j);
          selector = unfold idt_gate in refl;
          access = unfold idt_gate in refl;
        },
      )
