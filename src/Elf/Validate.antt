-- ===== src/Elf/Validate.antt =====
-- The checks of `elf32_validate` against what an executable's header must hold.
use treeos.Base.{
  ℕ, zero, suc, ◌+◌, ◌≤◌, ◌<◌, ◌⊎◌, ap, ◌∙◌, ◌≡◌, ◌≢◌, refl, arith, Bool, true, false, List, [],
  ◌∷◌, ◌++◌, Result, ok, ◌==◌, sym, ne→==_false, ==_false→ne, inl, inr, Bool-cases, sub32,
}
use Prim.Native.String.{String}
use mathlib.Core.List.{append_assoc}
use treeos.Str.{Bytes, memcmp}
use treeos.Str.Blocks.{Compared, same, differ, memcmp_lem}
use treeos.Elf.{with_magic, ehdr_at, elf32_validate, validate_magic}

-- The header of an executable for this machine: 0x7f and "ELF", 32 bits, little endian, current version.
pub record IsExecutable (m : Bytes) (hdr : ℕ) : Type 0 where
  pub magic : (m hdr ≡ 0x7f) × (m (hdr + 1) ≡ 0x45) × (m (hdr + 2) ≡ 0x4c) × (m (hdr + 3) ≡ 0x46)
  pub class : m (hdr + 4) ≡ 1
  pub byte_order : m (hdr + 5) ≡ 1
  pub machine : (ehdr_at m hdr).e_machine ≡ 3
  pub version : m (hdr + 6) ≡ 1
  pub kind : (ehdr_at m hdr).e_type ≡ 2

-- The outcomes of `elf32_validate`.
pub data Validates (m : Bytes) (hdr : ℕ) (worries : List String)
    : Result (Bool × List String) → Type 0 where
  accepted :
      {result : Result (Bool × List String)}
      → IsExecutable m hdr
      → result ≡ ok (true, worries)
      → Validates m hdr worries result
  rejected :
      {result : Result (Bool × List String)} (first : String) (rest : List String)
      → (IsExecutable m hdr → ⊥)
      → result ≡ ok (false, worries ++ first ∷ rest)
      → Validates m hdr worries result

module _ (m : Bytes) (bytes : (a : ℕ) → m a < 256) (elf_magic hdr : ℕ) (there : hdr ≢ 0)
    (apart : (hdr + 4 ≤ elf_magic) ⊎ (elf_magic + 4 ≤ hdr)) (worries : List String) where
  abbrev w : Bytes
  w = with_magic elf_magic m

  abbrev Magic : Type 0
  Magic = (m hdr ≡ 0x7f) × (m (hdr + 1) ≡ 0x45) × (m (hdr + 2) ≡ 0x4c) × (m (hdr + 3) ≡ 0x46)

  w-small : (a : ℕ) → w a < 256
  unfolding with_magic
  w-small a = ground (arith, bytes a)

  header : (j a : ℕ) → hdr + j ≡ a → j < 4 → w a ≡ m a
  unfolding with_magic
  header j a e h = elim apart [
    | inl below ↦ ground (arith, e, h, below)
    | inr above ↦ ground (arith, e, h, above)
  ]

  array :
      (w elf_magic ≡ 0x7f)
      × (w (elf_magic + 1) ≡ 0x45)
      × (w (elf_magic + 2) ≡ 0x4c)
      × (w (elf_magic + 3) ≡ 0x46)
  unfolding with_magic
  array = (ground arith, ground arith, ground arith, ground arith)

  -- The first four bytes are those of the array.
  same_bytes : ((j : ℕ) → j < 4 → w (elf_magic + j) ≡ w (hdr + j)) → Magic
  same_bytes eqs = (
    byte 0 hdr elf_magic (omega arith) (omega arith) (omega arith) array.0,
    byte 1 (hdr + 1) (elf_magic + 1) refl refl (omega arith) array.1,
    byte 2 (hdr + 2) (elf_magic + 2) refl refl (omega arith) array.2,
    byte 3 (hdr + 3) (elf_magic + 3) refl refl (omega arith) array.3,
  )
    where
      byte : {v : ℕ} (j a c : ℕ) → hdr + j ≡ a → elf_magic + j ≡ c → j < 4 → w c ≡ v → m a ≡ v
      byte {v} j a c e f h is = sym (header j a e h) ∙ sym (ap w e) ∙ sym (eqs j h) ∙ ap w f ∙ is

  other_byte : (k : ℕ) → k < 4 → w (elf_magic + k) ≢ w (hdr + k) → Magic → ⊥
  other_byte k h ne (m0, m1, m2, m3) = ne (pick k h)
    where
      at :
          (j a c : ℕ)
          → elf_magic + j ≡ a
          → hdr + j ≡ c
          → j < 4
          → w a ≡ m c
          → w (elf_magic + j) ≡ w (hdr + j)
      at j a c e f h eq = ap w e ∙ eq ∙ sym (header j c f h) ∙ sym (ap w f)

      pick : (k : ℕ) → k < 4 → w (elf_magic + k) ≡ w (hdr + k)
      pick zero h = at 0 elf_magic hdr (omega arith) (omega arith) h (array.0 ∙ sym m0)
      pick (suc zero) h = at 1 (elf_magic + 1) (hdr + 1) refl refl h (array.1 ∙ sym m1)
      pick (suc (suc zero)) h = at 2 (elf_magic + 2) (hdr + 2) refl refl h (array.2 ∙ sym m2)
      pick (suc (suc (suc zero))) h = at 3 (elf_magic + 3) (hdr + 3) refl refl h (array.3 ∙ sym m3)
      pick (suc (suc (suc (suc k)))) h = absurd (omega arith)

  compared : {r : ℕ} → Compared w elf_magic hdr 4 r → (r ≡ 0 → Magic) × (r ≢ 0 → Magic → ⊥)
  compared (same eqs) = (λ z. same_bytes eqs, λ ne eq. ne refl)
  compared (differ k h eqs ne) = (
    λ z. absurd (
        ne (
          no_difference (w (elf_magic + k)) (w (hdr + k)) (w-small (elf_magic + k))
            (w-small (hdr + k)) z)),
    λ nz. other_byte k h ne,
  )
    where
      no_difference : (x y : ℕ) → x < 256 → y < 256 → sub32 x y ≡ 0 → x ≡ y
      no_difference x y p q z = omega arith

  magic_test : (memcmp hdr elf_magic 4 w ≡ 0 → Magic) × (memcmp hdr elf_magic 4 w ≢ 0 → Magic → ⊥)
  magic_test = compared (memcmp_lem w hdr elf_magic 4)

  -- A file that does not lie over the array of the magic number is accepted without a warning exactly if
  -- its header is that of an executable for this machine, and otherwise rejected with a warning.
  pub elf32_validate_lem : Validates m hdr worries (elf32_validate elf_magic hdr m worries)
  unfolding elf32_validate validate_magic
  elf32_validate_lem =
      rw (ne→==_false hdr 0 there) (elim (Bool-cases (memcmp hdr elf_magic 4 w == 0)) [
        | inr f ↦
            rejected "invalid ELF magic for file" ("invalid ELF32 file" ∷ [])
              (λ e. magic_test.1 (==_false→ne _ 0 f) e.magic) (rw (f, append_assoc) refl)
        | inl t ↦ elim (Bool-cases (m (hdr + 4) == 1)) [
          | inr f ↦
              rejected "unsupported ELF file class" [] (λ e. ==_false→ne _ 1 f e.class)
                (rw (t, f) refl)
          | inl t1 ↦ elim (Bool-cases (m (hdr + 5) == 1)) [
            | inr f ↦
                rejected "unsupported ELF file byte order" [] (λ e. ==_false→ne _ 1 f e.byte_order)
                  (rw (t, t1, f) refl)
            | inl t2 ↦ elim (Bool-cases ((ehdr_at m hdr).e_machine == 3)) [
              | inr f ↦
                  rejected "unsupported ELF file target" [] (λ e. ==_false→ne _ 3 f e.machine)
                    (rw (t, t1, t2, f) refl)
              | inl t3 ↦ elim (Bool-cases (m (hdr + 6) == 1)) [
                | inr f ↦
                    rejected "unsupported ELF file version" [] (λ e. ==_false→ne _ 1 f e.version)
                      (rw (t, t1, t2, t3, f) refl)
                | inl t4 ↦ elim (Bool-cases ((ehdr_at m hdr).e_type == 2)) [
                  | inr f ↦
                      rejected "unsupported ELF file type" [] (λ e. ==_false→ne _ 2 f e.kind)
                        (rw (t, t1, t2, t3, t4, f) refl)
                  | inl t5 ↦
                      accepted
                        record {
                          magic = magic_test.0 (eq _ 0 t);
                          class = eq _ 1 t1;
                          byte_order = eq _ 1 t2;
                          machine = eq _ 3 t3;
                          version = eq _ 1 t4;
                          kind = eq _ 2 t5;
                        }
                        (rw (t, t1, t2, t3, t4, t5) refl)
                ]
              ]
            ]
          ]
        ]
      ])
    where
      eq : (p q : ℕ) → (p == q) ≡ true → p ≡ q
      eq p q h = ground arith
