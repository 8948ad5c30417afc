-- ===== src/Cstring.antt =====
-- The parts of the C library's string handling that the programs use: <string.h>, `fgets`,
-- `snprintf` with "%s" and "%d", and the number of a `scanf`.
pub mod Lines
pub mod Decimal
use syn_os.Common.{
  ℕ, zero, suc, ◌+◌, ◌-◌, ◌*◌, ◌/◌, ◌%◌, ◌^◌, Bool, true, false, not, ◌&&◌, ◌||◌, Option, none,
  some, List, [], ◌∷◌, ◌++◌, Bytes, take, drop, bytes_eq, ltb, leb, ◌==◌, if◌then◌else◌,
}

-- The string that a buffer holds: what stands before the first NUL.
unfoldable pub cstr : Bytes → Bytes
cstr [] = []
cstr (c ∷ b) = if c == 0 then [] else c ∷ cstr b

-- `snprintf(out, size, "%s", s)`
abbrev pub snprintf_s : ℕ → Bytes → Bytes
snprintf_s size s = take (size - 1) s

-- `strncmp(s, prefix, strlen(prefix)) == 0`
unfoldable pub starts_with : Bytes → Bytes → Bool
starts_with [] s = true
starts_with (p ∷ prefix) (c ∷ s) = p == c && starts_with prefix s
starts_with (p ∷ prefix) [] = false

-- What follows the first place of `needle` in `s`, for `strstr(s, needle) + strlen(needle)`.
unfoldable pub after : ℕ → Bytes → Bytes → Option Bytes
after n needle [] = if starts_with needle [] then some [] else none
after n needle (c ∷ s) =
    let rest = after n needle s in
    if starts_with needle (c ∷ s) then some (drop n (c ∷ s)) else rest

-- The bytes of one line: at most `room`, and up to a line end, which stays.
unfoldable pub read_line : ℕ → Bytes → Bytes × Bytes
read_line zero b = ([], b)
read_line (suc room) [] = ([], [])
read_line (suc room) (c ∷ b) =
    let more = read_line room b in if c == 10 then (c ∷ [], b) else (c ∷ more.0, more.1)

-- `fgets(line, size, f)` on a file with `b` left: the string in the buffer and what is left, `none`
-- for NULL.
unfoldable pub fgets : ℕ → Bytes → Option (Bytes × Bytes)
fgets zero b = none
fgets (suc zero) b = some ([], b)
fgets (suc (suc room)) [] = none
fgets (suc (suc room)) (c ∷ b) =
    let line = read_line (suc room) (c ∷ b) in some (cstr line.0, line.1)

abbrev pub is_eol : ℕ → Bool
is_eol c = c == 10 || c == 13

abbrev pub trim_onto : ℕ → Bytes → Bytes
trim_onto c [] = if is_eol c then [] else c ∷ []
trim_onto c (d ∷ t) = c ∷ d ∷ t

-- `while (len > 0 && (s[len - 1] == '\n' || s[len - 1] == '\r')) s[--len] = '\0';`
unfoldable pub trim_newline : Bytes → Bytes
trim_newline [] = []
trim_newline (c ∷ s) = trim_onto c (trim_newline s)

-- "%d" of an `int` that is not negative, which has at most `width` digits
unfoldable pub decimal : ℕ → ℕ → Bytes
decimal zero n = []
decimal (suc width) n =
    let higher = decimal width (n / 10) in (if ltb n 10 then [] else higher) ++ ((48 + n % 10) ∷ [])

abbrev pub is_digit : ℕ → Bool
is_digit c = leb 48 c && leb c 57

abbrev pub is_space : ℕ → Bool
is_space c = c == 32 || (leb 9 c && leb c 13)

unfoldable pub skip_space : Bytes → Bytes
skip_space [] = []
skip_space (c ∷ b) = let rest = skip_space b in if is_space c then rest else c ∷ b

-- The value of the digits at the front, after those that gave `n`, and what follows them.
unfoldable pub scan_digits : ℕ → Bytes → ℕ × Bytes
scan_digits n [] = (n, [])
scan_digits n (c ∷ b) =
    let more = scan_digits (n * 10 + (c - 48)) b in if is_digit c then more else (n, c ∷ b)

-- LONG_MAX, where the conversion saturates
abbrev pub long_max : ℕ
long_max = 2 ^ 63 - 1

-- A `long` by its sign and its size.
pub data Long : Type 0 where
  plus minus : ℕ → Long

abbrev pub saturate : ℕ → ℕ
saturate n = if leb n long_max then n else long_max

abbrev pub signed : Bool → ℕ → Long
signed false n = plus (saturate n)
signed true n = if leb n long_max then minus n else minus (2 ^ 63)

unfoldable pub scan_unsigned : Bool → Bytes → Option (Long × Bytes)
scan_unsigned negative [] = none
scan_unsigned negative (c ∷ b) =
    if is_digit c then (let r = scan_digits 0 (c ∷ b) in some (signed negative r.0, r.1)) else none

abbrev pub scan_signed : Bytes → Option (Long × Bytes)
scan_signed [] = none
scan_signed (c ∷ b) =
    if c == 45
    then scan_unsigned true b
    else if c == 43
    then scan_unsigned false b
    else scan_unsigned false (c ∷ b)

-- One "%ld" of a `scanf`: `none` where the conversion fails.
unfoldable pub scan_long : Bytes → Option (Long × Bytes)
scan_long b = scan_signed (skip_space b)
