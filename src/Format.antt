-- ===== src/Format.antt =====
-- klibc/stdio/vsprintf.c: formatted printing. A string is the bytes before its zero byte, an argument
-- is a word or the string behind a pointer, and the buffer is the list of what was written to it.
pub mod Swap
pub mod Number
pub mod Pieces
pub mod Length
mod Examples
use treeos.Base.{
  ℕ, zero, suc, ◌+◌, ◌-◌, ◌*◌, ◌/◌, ◌%◌, ◌^◌, ◌≤◌, Bool, true, false, not, Option, none, some, List,
  [], ◌∷◌, ◌++◌, Result, ok, fault, or_fault, ◌>>=◌, ◌==◌, if◌then◌else◌, leb, ltb, length,
  get_elem?, set, u8,
}

-- An argument of the variable part.
pub data Arg : Type 0 where
  word : ℕ → Arg
  text : List ℕ → Arg

-- The `do` loop of `ultoa` and `ultox`: at least one digit, the lowest first. A word has no more
-- than ten decimal digits, and eight hexadecimal ones.
unfoldable pub low_digits : (fuel base : ℕ) (char : ℕ → ℕ) → ℕ → List ℕ
low_digits zero base char value = []
low_digits (suc fuel) base char value =
    let rest = low_digits fuel base char (value / base) in
    char (value % base) ∷ (if value / base == 0 then [] else rest)

-- `tmp = buf[i]; buf[i] = buf[swap]; buf[swap] = tmp;`
unfoldable pub swap : ℕ → ℕ → List ℕ → List ℕ
swap i j buf = elim (get_elem? buf i) [
  | none ↦ buf
  | some a ↦ elim (get_elem? buf j) [ none ↦ buf | some b ↦ set (set buf i b) j a ]
]

-- The `for` loop of both, with `left` swaps to go from `i` on.
unfoldable pub swaps : (num_digits left i : ℕ) → List ℕ → List ℕ
swaps num_digits zero i buf = buf
swaps num_digits (suc left) i buf =
    swaps num_digits left (i + 1) (swap i (num_digits - (i + 1)) buf)

abbrev pub in_order : List ℕ → List ℕ
in_order buf = swaps (length buf) (length buf / 2) 0 buf

unfoldable pub ultoa : ℕ → List ℕ
ultoa value = in_order (low_digits 10 10 (λ d. d + 48) value)

-- `hex_array`.
abbrev pub hex_char : ℕ → ℕ
hex_char d = if ltb d 10 then d + 48 else d + 55

unfoldable pub ultox : ℕ → List ℕ
ultox value = 48 ∷ 120 ∷ in_order (low_digits 8 16 hex_char value)

-- `value` is the `int32_t` as its 32 bits.
unfoldable pub ltoa : ℕ → List ℕ
ltoa value = if leb (2 ^ 31) value then 45 ∷ ultoa (2 ^ 32 - value) else ultoa value

abbrev pub true_text : List ℕ
true_text = 116 ∷ 114 ∷ 117 ∷ 101 ∷ []

abbrev pub false_text : List ℕ
false_text = 102 ∷ 97 ∷ 108 ∷ 115 ∷ 101 ∷ []

-- Whether the switch has a case for the letter.
abbrev pub is_directive : ℕ → Bool
is_directive c =
    if c == 115
    then true
    else if c == 99
    then true
    else if c == 100
    then true
    else if c == 105
    then true
    else if c == 117
    then true
    else if c == 120
    then true
    else if c == 112
    then true
    else c == 98

-- What a case of the switch writes of its argument; an argument of another kind faults.
unfoldable pub convert : ℕ → Arg → Result (List ℕ)
convert c (text s) = if c == 115 then ok s else fault
convert c (word w) =
    if c == 115
    then fault
    else if c == 99
    then ok (u8 w ∷ [])
    else if c == 100
    then ok (ltoa w)
    else if c == 105
    then ok (ltoa w)
    else if c == 117
    then ok (ultoa w)
    else if c == 120
    then ok (ultox w)
    else if c == 112
    then ok (ultox w)
    else ok (if w == 0 then false_text else true_text)

abbrev pub prefix : List ℕ → Result (List ℕ) → Result (List ℕ)
prefix s rest = rest >>= λ r. ok (s ++ r)

-- The loop of `vsprintf`. A `%` at the end stops it; a letter without a case stands for itself.
unfoldable pub formatted : List ℕ → List Arg → Result (List ℕ)
formatted [] args = ok []
formatted (c ∷ []) args = if c == 37 then ok [] else ok (c ∷ [])
formatted (c ∷ d ∷ format) [] =
    let plain = prefix (c ∷ []) (formatted (d ∷ format) []) in
    let literal = prefix (d ∷ []) (formatted format []) in
    if c == 37 then (if is_directive d then fault else literal) else plain
formatted (c ∷ d ∷ format) (arg ∷ args) =
    let plain = prefix (c ∷ []) (formatted (d ∷ format) (arg ∷ args)) in
    let literal = prefix (d ∷ []) (formatted format (arg ∷ args)) in
    let converted = (convert d arg >>= λ s. prefix s (formatted format args)) in
    if c == 37 then (if is_directive d then converted else literal) else plain

-- The number of bytes written, and the buffer with its zero byte.
unfoldable pub vsprintf : List ℕ → List Arg → Result (ℕ × List ℕ)
vsprintf format args = formatted format args >>= λ out. ok (length out, out ++ 0 ∷ [])
