-- ===== src/Relay/Json.antt =====
-- syn_json_extract.c: the fields that the stats client reads from a reply.
use syn_os.Common.{
  ℕ, zero, suc, ◌-◌, Bool, true, false, Option, none, some, [], ◌∷◌, ◌++◌, Bytes, codes, length,
  ◌==◌, if◌then◌else◌,
}
use syn_os.Cstring.{after, starts_with, snprintf_s}

-- `"key":` in a buffer of 128 bytes
abbrev pub needle : Bytes → Bytes
needle key = snprintf_s 128 (34 ∷ (key ++ (34 ∷ 58 ∷ [])))

-- What stands behind the first `"key":`.
unfoldable pub find_value_start : Bytes → Bytes → Option Bytes
find_value_start json key = after (length (needle key)) (needle key) json

-- The character that is copied, a backslash skipped, and what follows it.
abbrev pub unescape : ℕ → Bytes → ℕ × Bytes
unescape c [] = (c, [])
unescape c (d ∷ v) = if c == 92 then (d, v) else (c, d ∷ v)

-- At most `room` characters of a value, up to its closing quote.
unfoldable pub copy_value : ℕ → Bytes → Bytes
copy_value zero v = []
copy_value (suc room) [] = []
copy_value (suc room) (c ∷ v) =
    let next : ℕ × Bytes = unescape c v in
    let more : Bytes = copy_value room next.1 in if c == 34 then [] else next.0 ∷ more

abbrev pub string_value : ℕ → Option Bytes → Option Bytes
string_value out_size none = none
string_value out_size (some []) = none
string_value out_size (some (c ∷ v)) = if c == 34 then some (copy_value (out_size - 1) v) else none

-- `syn_json_string`: the string, `none` where it returns false. `out_size` is positive.
unfoldable pub json_string : Bytes → Bytes → ℕ → Option Bytes
json_string json key out_size = string_value out_size (find_value_start json key)

abbrev pub bool_value : Option Bytes → Option Bool
bool_value none = none
bool_value (some v) =
    if starts_with (codes "true") v
    then some true
    else if starts_with (codes "false") v
    then some false
    else none

-- `syn_json_bool`: the value, `none` where it returns false.
unfoldable pub json_bool : Bytes → Bytes → Option Bool
json_bool json key = bool_value (find_value_start json key)

-- `syn_json_number`, with the C library's `strtod`: `none` where `end == v`
abbrev pub number_value : {D : Type 0} → (Bytes → Option D) → Option Bytes → Option D
number_value strtod none = none
number_value strtod (some v) = if starts_with (codes "null") v then none else strtod v

unfoldable pub json_number : {D : Type 0} → (Bytes → Option D) → Bytes → Bytes → Option D
json_number strtod json key = number_value strtod (find_value_start json key)
