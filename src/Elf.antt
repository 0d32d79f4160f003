-- ===== src/Elf.antt =====
-- kernel/arch/i386/elf/elf32.c, kernel/include/kernel/elf/elf32.h and universal.h: the checks of an
-- ELF file and the extent of its segments. The file is in memory, which is bytes as in Str; fields
-- are little endian.
pub mod Validate
pub mod Load
mod Examples
use Prim.Native.String.{String}
use treeos.Base.{
  ℕ, zero, suc, ◌+◌, ◌-◌, ◌*◌, ◌^◌, ◌%◌, Bool, true, false, not, List, [], ◌∷◌, ◌++◌, Result, ok,
  kassert, ◌>>=◌, ◌>>◌, ◌==◌, if◌then◌else◌, ltb, u32, sub32, add32,
}
pub use treeos.Str.{half, word}
use treeos.Str.{Bytes, memcmp}

-- The values of `struct Elf32_Ehdr`, without the bytes of `e_ident`.
pub record Elf32Ehdr : Type 0 where
  pub e_type : ℕ
  pub e_machine : ℕ
  pub e_version : ℕ
  pub e_entry : ℕ
  pub e_phoff : ℕ
  pub e_shoff : ℕ
  pub e_flags : ℕ
  pub e_ehsize : ℕ
  pub e_phentsize : ℕ
  pub e_phnum : ℕ
  pub e_shentsize : ℕ
  pub e_shnum : ℕ
  pub e_shstrndx : ℕ

abbrev pub ehdr_at : Bytes → ℕ → Elf32Ehdr
ehdr_at m hdr = record {
  e_type = half m (hdr + 16);
  e_machine = half m (hdr + 18);
  e_version = word m (hdr + 20);
  e_entry = word m (hdr + 24);
  e_phoff = word m (hdr + 28);
  e_shoff = word m (hdr + 32);
  e_flags = word m (hdr + 36);
  e_ehsize = half m (hdr + 40);
  e_phentsize = half m (hdr + 42);
  e_phnum = half m (hdr + 44);
  e_shentsize = half m (hdr + 46);
  e_shnum = half m (hdr + 48);
  e_shstrndx = half m (hdr + 50);
}

-- The values of `struct Elf32_Phdr`.
pub record Elf32Phdr : Type 0 where
  pub p_type : ℕ
  pub p_offset : ℕ
  pub p_vaddr : ℕ
  pub p_paddr : ℕ
  pub p_filesz : ℕ
  pub p_memsz : ℕ
  pub p_flags : ℕ
  pub p_align : ℕ

abbrev pub phdr_at : Bytes → ℕ → Elf32Phdr
phdr_at m a = record {
  p_type = word m a;
  p_offset = word m (a + 4);
  p_vaddr = word m (a + 8);
  p_paddr = word m (a + 12);
  p_filesz = word m (a + 16);
  p_memsz = word m (a + 20);
  p_flags = word m (a + 24);
  p_align = word m (a + 28);
}

-- Indices into `e_ident`, and the values that are asked for.
abbrev pub ei_class : ℕ
ei_class = 4

abbrev pub ei_data : ℕ
ei_data = 5

abbrev pub ei_version : ℕ
ei_version = 6

abbrev pub ei_nmagic : ℕ
ei_nmagic = 4

abbrev pub elfclass32 : ℕ
elfclass32 = 1

abbrev pub elfdata2lsb : ℕ
elfdata2lsb = 1

abbrev pub ev_current : ℕ
ev_current = 1

abbrev pub et_exec : ℕ
et_exec = 2

abbrev pub em_386 : ℕ
em_386 = 3

abbrev pub pt_load : ℕ
pt_load = 1

abbrev pub elfmag0 : ℕ
elfmag0 = 0x7f

-- 'E', 'L' and 'F'.
abbrev pub elfmag1 : ℕ
elfmag1 = 69

abbrev pub elfmag2 : ℕ
elfmag2 = 76

abbrev pub elfmag3 : ℕ
elfmag3 = 70

-- The memory with the static array at `elf_magic`, which is never written.
unfoldable pub with_magic : (elf_magic : ℕ) → Bytes → Bytes
with_magic elf_magic m a =
    if a == elf_magic
    then elfmag0
    else if a == elf_magic + 1
    then elfmag1
    else if a == elf_magic + 2
    then elfmag2
    else if a == elf_magic + 3
    then elfmag3
    else m a

-- `elf_magic` is the address of the static array. The messages of `worry` are kept, oldest first.
unfoldable pub validate_magic :
    (elf_magic hdr : ℕ) → Bytes → List String → Result (Bool × List String)
validate_magic elf_magic hdr m worries = do
  kassert (not (hdr == 0)) "KASSERT failed: hdr"
  if memcmp hdr elf_magic ei_nmagic (with_magic elf_magic m) == 0
      then ok (true, worries)
      else ok (false, worries ++ "invalid ELF magic for file" ∷ [])

unfoldable pub elf32_validate :
    (elf_magic hdr : ℕ) → Bytes → List String → Result (Bool × List String)
elf32_validate elf_magic hdr m worries = do
  kassert (not (hdr == 0)) "KASSERT failed: hdr"
  (valid, worries) ← validate_magic elf_magic hdr m worries
  let reject : String → Result (Bool × List String) = λ msg. ok (false, worries ++ msg ∷ [])
  if not valid
      then reject "invalid ELF32 file"
      else if not (m (hdr + ei_class) == elfclass32)
      then reject "unsupported ELF file class"
      else if not (m (hdr + ei_data) == elfdata2lsb)
      then reject "unsupported ELF file byte order"
      else if not ((ehdr_at m hdr).e_machine == em_386)
      then reject "unsupported ELF file target"
      else if not (m (hdr + ei_version) == ev_current)
      then reject "unsupported ELF file version"
      else if not ((ehdr_at m hdr).e_type == et_exec)
      then reject "unsupported ELF file type"
      else ok (true, worries)

-- Program header `i`.
abbrev pub prog_hdr : Bytes → (hdr i : ℕ) → Elf32Phdr
prog_hdr m hdr i = phdr_at m (u32 (hdr + (ehdr_at m hdr).e_phoff + i * (ehdr_at m hdr).e_phentsize))

-- The first loop of `elf32_load`, with `left` headers to go from `i` on.
unfoldable pub load_base : Bytes → (hdr left i base : ℕ) → ℕ
load_base m hdr zero i base = base
load_base m hdr (suc left) i base =
    let p = prog_hdr m hdr i in
    load_base m hdr left (i + 1)
      (if not (p.p_type == pt_load) then base else if ltb p.p_vaddr base then p.p_vaddr else base)

-- The second loop.
unfoldable pub load_size : Bytes → (hdr base left i size : ℕ) → ℕ
load_size m hdr base zero i size = size
load_size m hdr base (suc left) i size =
    let p = prog_hdr m hdr i in
    let s = add32 (sub32 p.p_paddr base) p.p_memsz in
    load_size m hdr base left (i + 1)
      (if not (p.p_type == pt_load) then size else if ltb size s then s else size)

-- The extent that `elf32_load` computes: the base address and the size.
unfoldable pub load_extent : Bytes → (hdr : ℕ) → ℕ × ℕ
load_extent m hdr =
    let base = load_base m hdr (ehdr_at m hdr).e_phnum 0 (2 ^ 32 - 1) in
    (base, load_size m hdr base (ehdr_at m hdr).e_phnum 0 0)

-- `pgdir` is `proc->pgdir`. Nothing is done yet with the extent; here it stands beside the result.
unfoldable pub elf32_load : (hdr proc pgdir : ℕ) → Bytes → Result (Bool × (ℕ × ℕ))
elf32_load hdr proc pgdir m = do
  kassert (not (hdr == 0)) "KASSERT failed: hdr"
  kassert (not (proc == 0)) "KASSERT failed: proc"
  kassert (not (pgdir == 0)) "KASSERT failed: proc->pgdir"
  ok (true, load_extent m hdr)
