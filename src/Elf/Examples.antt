-- ===== src/Elf/Examples.antt =====
-- The ELF functions on a file in memory, and their theorems there.
use treeos.Base.{
  inr, ℕ, ◌-◌, ◌^◌, ◌<◌, ◌≡◌, refl, arith, true, false, [], ◌∷◌, ok, ◌==◌, if◌then◌else◌,
}
use treeos.Str.{Bytes, memcmp, compare_bytes}
use treeos.Elf.{
  ehdr_at, elf32_validate, validate_magic, with_magic, elf32_load, load_extent, load_base,
  load_size,
}
use treeos.Elf.Validate.{Validates, elf32_validate_lem}
use treeos.Elf.Load.{Least, Greatest, vaddr, end_from, elf32_load_lem}

-- A file at 4096 with one segment, which is loaded at 0x1000.
abbrev file : Bytes
file a =
    if a == 4096
    then 0x7f
    else if a == 4097
    then 69
    else if a == 4098
    then 76
    else if a == 4099
    then 70
    else if a == 4100
    then 1
    else if a == 4101
    then 1
    else if a == 4102
    then 1
    else if a == 4112
    then 2
    else if a == 4114
    then 3
    else if a == 4124
    then 52
    else if a == 4138
    then 32
    else if a == 4140
    then 1
    else if a == 4148
    then 1
    else if a == 4157
    then 16
    else if a == 4161
    then 16
    else if a == 4168
    then 99
    else 0

file-bytes : (a : ℕ) → file a < 256
file-bytes a = ground arith

is_valid : elf32_validate 16 4096 file [] ≡ ok (true, [])
unfolding elf32_validate validate_magic with_magic memcmp compare_bytes
is_valid = refl

not_valid :
    elf32_validate 16 4097 file []
    ≡ ok (false, "invalid ELF magic for file" ∷ "invalid ELF32 file" ∷ [])
unfolding elf32_validate validate_magic with_magic memcmp compare_bytes
not_valid = refl

is_loaded : elf32_load 4096 1 1 file ≡ ok (true, (0x1000, 99))
unfolding elf32_load load_extent load_base load_size
is_loaded = refl

elf32_validate_lem_example : Validates file 4096 [] (elf32_validate 16 4096 file [])
elf32_validate_lem_example =
    elf32_validate_lem file file-bytes 16 4096 (λ e. omega (arith, e)) (inr (omega arith)) []

elf32_load_lem_example :
    (base : ℕ) × (size : ℕ) × (elf32_load 4096 1 1 file ≡ ok (true, (base, size)))
    × Least file 4096 (vaddr file 4096) (2 ^ 32 - 1) 0 (ehdr_at file 4096).e_phnum base
    × Greatest file 4096 (end_from file 4096 base) 0 0 (ehdr_at file 4096).e_phnum size
elf32_load_lem_example =
    elf32_load_lem file 4096 1 1 (λ e. omega (arith, e)) (λ e. omega (arith, e))
      (λ e. omega (arith, e))
