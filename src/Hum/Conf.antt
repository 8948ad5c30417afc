-- ===== src/Hum/Conf.antt =====
-- syn_hum_conf.c: the settings, the list of muted members and the reading of hum.conf.
pub mod Valid
pub mod Mute
use syn_os.Common.{
  ℕ, zero, suc, ◌+◌, ◌-◌, Bool, true, false, not, ◌&&◌, ◌||◌, Option, none, some, List, [], ◌∷◌,
  ◌++◌, Bytes, codes, length, bytes_eq, ltb, leb, ◌==◌, if◌then◌else◌,
}
use syn_os.Io.{Call, ◌>>=◌, return}
use syn_os.Cstring.{starts_with, snprintf_s, skip_space, is_space}
use syn_os.Relay.Runtime.{fopen_r}
use syn_os.Relay.Apps.{lines_of}

-- The names of SYN_HUM_STYLES, in the order of their numbers.
abbrev pub styles : List Bytes
styles =
    codes "uplink"
    ∷ codes "phreak"
    ∷ codes "hacker"
    ∷ codes "harmonic"
    ∷ codes "deep"
    ∷ codes "techno"
    ∷ codes "bytebeat"
    ∷ []

unfoldable pub index_from : ℕ → List Bytes → Bytes → Option ℕ
index_from i [] name = none
index_from i (s ∷ names) name =
    let later : Option ℕ = index_from (suc i) names name in
    if bytes_eq s name then some i else later

-- `syn_hum_style_find`, `none` for -1
unfoldable pub style_find : Bytes → Option ℕ
style_find name = index_from 0 styles name

-- `syn_hum_volume_gain(word) > 0.0`
unfoldable pub is_volume : Bytes → Bool
is_volume word =
    bytes_eq word (codes "quiet") || bytes_eq word (codes "normal") || bytes_eq word (codes "loud")

-- `syn_hum_conf`; `mute_count` is the length of `mute`.
pub record Conf : Type 0 where
  pub style : ℕ
  pub volume : Bytes
  pub crew : Bool
  pub mute : List Bytes

unfoldable pub in_list : List Bytes → Bytes → Bool
in_list [] id = false
in_list (m ∷ list) id = let later : Bool = in_list list id in bytes_eq m id || later

-- `syn_hum_conf_muted`
unfoldable pub muted : Conf → Bytes → Bool
muted c id = in_list c.mute id

-- The list without the first entry that is the id.
unfoldable pub drop_first : List Bytes → Bytes → List Bytes
drop_first [] id = []
drop_first (m ∷ list) id =
    let later : List Bytes = drop_first list id in if bytes_eq m id then list else m ∷ later

abbrev pub add_muted : Conf → Bytes → Option Conf
add_muted c id =
    if leb 16 (length c.mute)
    then none
    else some (record c { mute = c.mute ++ (snprintf_s 16 id ∷ []) })

-- `syn_hum_conf_mute`, `none` for -1: `on` brings the member back.
unfoldable pub set_mute : Conf → Bytes → Bool → Option Conf
set_mute c id true = if muted c id then some (record c { mute = drop_first c.mute id }) else some c
set_mute c id false = if muted c id then some c else add_muted c id

-- One "%15s" or "%31s" of a `scanf`.
unfoldable pub word : ℕ → Bytes → Bytes × Bytes
word zero b = ([], b)
word (suc room) [] = ([], [])
word (suc room) (c ∷ b) =
    let more : Bytes × Bytes = word room b in
    if is_space c then ([], c ∷ b) else (c ∷ more.0, more.1)

abbrev pub nonempty : Bytes → Bool
nonempty [] = false
nonempty (c ∷ b) = true

-- `sscanf(line, "%31s %15s", key, value) == 2`
unfoldable pub two_words : Bytes → Option (Bytes × Bytes)
two_words line =
    let key : Bytes × Bytes = word 31 (skip_space line) in
    let value : Bytes × Bytes = word 15 (skip_space key.1) in
    if nonempty key.0 && nonempty value.0 then some (key.0, value.0) else none

abbrev pub or_same : Conf → Option Conf → Conf
or_same c none = c
or_same c (some d) = d

abbrev pub with_style : Conf → Option ℕ → Conf
with_style c none = c
with_style c (some s) = record c { style = s }

-- The chain of tests for the key. A style or a volume that is none changes nothing.
unfoldable pub conf_key : Conf → Bytes → Bytes → Conf
conf_key c key value =
    if bytes_eq key (codes "style")
    then with_style c (style_find value)
    else if bytes_eq key (codes "volume") && is_volume value
    then record c { volume = snprintf_s 16 value }
    else if bytes_eq key (codes "crew")
    then record c { crew = not (bytes_eq value (codes "off")) }
    else if bytes_eq key (codes "mute")
    then or_same c (set_mute c value false)
    else c

abbrev pub conf_words : Conf → Option (Bytes × Bytes) → Conf
conf_words c none = c
conf_words c (some w) = conf_key c w.0 w.1

unfoldable pub conf_line : Conf → Bytes → Conf
conf_line c line = if starts_with (codes "#") line then c else conf_words c (two_words line)

unfoldable pub conf_lines : Conf → List Bytes → Conf
conf_lines c [] = c
conf_lines c (line ∷ lines) = conf_lines (conf_line c line) lines

abbrev pub defaults : Conf
defaults = record { style = 0; volume = codes "normal"; crew = true; mute = [] }

abbrev pub loaded : Option Bytes → Conf
loaded none = defaults
loaded (some file) = conf_lines defaults (lines_of 256 (length file) file)

-- `syn_hum_conf_load`, from the file at `path`
unfoldable pub load : Bytes → Call Conf
unfolding return
load path = do f ← fopen_r path; return (loaded f)
