-- ===== src/Str.antt =====
-- klibc/string: the memory and string functions, on a memory of bytes. Addresses do not wrap around:
-- no block reaches the end of the address space. Loops that end at a zero byte run on fuel and fault
-- without it.
pub mod Blocks
pub mod Strings
mod Examples
use treeos.Base.{
  ℕ, zero, suc, ◌+◌, ◌-◌, ◌*◌, ◌/◌, ◌^◌, ◌%◌, Bool, Result, ok, fault, ◌>>=◌, ◌==◌, if◌then◌else◌,
  ltb, u8, sub32,
}

abbrev pub Bytes : Type 0
Bytes = ℕ → ℕ

-- A field of 16 and one of 32 bits, little endian.
abbrev pub half : Bytes → ℕ → ℕ
half m a = m a + 2 ^ 8 * m (a + 1)

abbrev pub word : Bytes → ℕ → ℕ
word m a = half m a + 2 ^ 16 * half m (a + 2)

-- `*at = v;`
abbrev pub poke : ℕ → ℕ → Bytes → Bytes
poke at v m a = if a == at then v else m a

-- A field of 32 bits is written.
unfoldable pub poke_word : ℕ → ℕ → Bytes → Bytes
poke_word at v b =
    poke (at + 3) (v / 2 ^ 24 % 2 ^ 8) (
      poke (at + 2) (v / 2 ^ 16 % 2 ^ 8)
        (poke (at + 1) (v / 2 ^ 8 % 2 ^ 8) (poke at (v % 2 ^ 8) b)))

unfoldable pub memcpy : (dest src num : ℕ) → Bytes → Bytes
memcpy dest src zero m = m
memcpy dest src (suc num) m = memcpy (dest + 1) (src + 1) num (poke dest (m src) m)

unfoldable pub memset : (dest value num : ℕ) → Bytes → Bytes
memset dest value zero m = m
memset dest value (suc num) m = memset (dest + 1) value num (poke dest (u8 value) m)

-- The first loop of `memmove`, with `left` bytes to go from `i` on.
unfoldable pub move_forward : (dest src left i : ℕ) → Bytes → Bytes
move_forward dest src zero i m = m
move_forward dest src (suc left) i m =
    move_forward dest src left (i + 1) (poke (dest + i) (m (src + i)) m)

-- The second loop starts at 0, where its condition `i != 0` is false.
unfoldable pub move_backward : (dest src size i : ℕ) → Bytes → Bytes
move_backward dest src zero i m = m
move_backward dest src (suc size) i m =
    let rest = move_backward dest src size (i + 1) (poke (dest + i - 1) (m (src + i - 1)) m) in
    if i == 0 then m else rest

unfoldable pub memmove : (dest src size : ℕ) → Bytes → Bytes
memmove dest src size m =
    if ltb dest src then move_forward dest src size 0 m else move_backward dest src size 0 m

-- The loop of `memcmp`; the `int` is its 32 bits.
unfoldable pub compare_bytes : (ptr1c ptr2c num : ℕ) → Bytes → ℕ
compare_bytes ptr1c ptr2c zero m = 0
compare_bytes ptr1c ptr2c (suc num) m =
    let rest = compare_bytes (ptr1c + 1) (ptr2c + 1) num m in
    if m ptr1c == m ptr2c then rest else sub32 (m ptr1c) (m ptr2c)

-- `memcmp` takes its second block as `ptr1c` and its first as `ptr2c`.
unfoldable pub memcmp : (ptr1 ptr2 num : ℕ) → Bytes → ℕ
memcmp ptr1 ptr2 num m = compare_bytes ptr2 ptr1 num m

-- The loop of `strlen` from `tmp` on: the address of the zero byte.
unfoldable pub find_end : (fuel tmp : ℕ) → Bytes → Result ℕ
find_end zero tmp m = fault
find_end (suc fuel) tmp m =
    let rest = find_end fuel (tmp + 1) m in if m tmp == 0 then ok tmp else rest

unfoldable pub strlen : (fuel str : ℕ) → Bytes → Result ℕ
strlen fuel str m = find_end fuel str m >>= λ tmp. ok (tmp - str)

-- The result is the address behind the zero byte that was copied.
unfoldable pub strcpy : (fuel dest src : ℕ) → Bytes → Result (ℕ × Bytes)
strcpy zero dest src m = fault
strcpy (suc fuel) dest src m =
    let m' : Bytes = poke dest (m src) m in
    let rest = strcpy fuel (dest + 1) (src + 1) m' in if m src == 0 then ok (dest + 1, m') else rest

unfoldable pub strcat : (fuel dest src : ℕ) → Bytes → Result (ℕ × Bytes)
strcat fuel dest src m = find_end fuel dest m >>= λ at. strcpy fuel (at + 1) src m

unfoldable pub strcmp : (fuel str1 str2 : ℕ) → Bytes → Result ℕ
strcmp zero str1 str2 m = fault
strcmp (suc fuel) str1 str2 m =
    let rest = strcmp fuel (str1 + 1) (str2 + 1) m in
    if m str1 == 0
    then ok (sub32 (m str1) (m str2))
    else if m str1 == m str2
    then rest
    else ok (sub32 (m str1) (m str2))

-- `strncpy` copies `num` bytes and returns the address behind them.
unfoldable pub strncpy : (dest src num : ℕ) → Bytes → ℕ × Bytes
strncpy dest src zero m = (dest, m)
strncpy dest src (suc num) m = strncpy (dest + 1) (src + 1) num (poke dest (m src) m)
