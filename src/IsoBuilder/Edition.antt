-- ===== src/IsoBuilder/Edition.antt =====
-- syn_edition.c: the editions that can be built, in the order of the list, and how far the build of
-- each has got. `show` and `status` are what BUILD.zsh prints for an edition, `none` where it cannot
-- be run or does not exit with 0; it has no NUL.
pub mod Listed
pub mod Order
pub mod Names
pub mod Recovered
pub mod Status
pub mod Steps
mod Tests
use syn_os.Common.{
  ℕ, zero, suc, ◌+◌, ◌-◌, Bool, true, false, not, ◌&&◌, Option, none, some, List, [], ◌∷◌, ◌++◌,
  Bytes, codes, length, take, drop, get_elem?, bytes_eq, ltb, leb, ◌==◌, if◌then◌else◌,
}
use syn_os.Cstring.{starts_with, snprintf_s}

-- `syn_edition_state`
pub record EditionState : Type 0 where
  pub steps : ℕ
  pub done : ℕ
  pub next : Bytes
  pub unrecorded : Bool
  pub newest_iso : Bytes
  pub newest_when : Bytes
  pub newest_size : ℕ

-- `syn_edition`
pub record Edition : Type 0 where
  pub name : Bytes
  pub edition : Bytes
  pub summary : Bytes
  pub base : Bytes
  pub packages : Bytes
  pub kernel : Bytes
  pub layer : Bytes
  pub output : Bytes
  pub profile : Bytes
  pub work_dir : Bytes
  pub lfs_profile : Bytes
  pub state : EditionState

-- What `capture_as_real_user` leaves in a buffer of `size` bytes.
abbrev pub captured : ℕ → Option Bytes → Option Bytes
captured size none = none
captured size (some text) = some (take (size - 1) text)

-- `strtok_r(text, "\n", &saveptr)`, all of its tokens: the text up to the first line end, and the
-- lines after it that are not empty.
abbrev pub keep_line : Bytes → List Bytes → List Bytes
keep_line [] lines = lines
keep_line (c ∷ l) lines = (c ∷ l) ∷ lines

unfoldable pub split_lines : Bytes → Bytes × List Bytes
split_lines [] = ([], [])
split_lines (c ∷ b) =
    let r : Bytes × List Bytes = split_lines b in
    if c == 10 then ([], keep_line r.0 r.1) else (c ∷ r.0, r.1)

unfoldable pub text_lines : Bytes → List Bytes
text_lines b = keep_line (split_lines b).0 (split_lines b).1

-- `take`: the value of the line if it is the key's, the old one if not.
unfoldable pub take_value : Bytes → Bytes → ℕ → Bytes → Bytes
take_value line key size old =
    if starts_with (key ++ (61 ∷ [])) line
    then snprintf_s size (drop (length key + 1) line)
    else old

-- The calls of `take` for one line.
unfoldable pub show_line : Edition → Bytes → Edition
show_line e line = record e {
  edition = take_value line (codes "Edition") 64 e.edition;
  summary = take_value line (codes "Summary") 256 e.summary;
  base = take_value line (codes "BaseStrat") 16 e.base;
  packages = take_value line (codes "PackageStrat") 16 e.packages;
  kernel = take_value line (codes "KernelStrat") 16 e.kernel;
  layer = take_value line (codes "LayerStrat") 16 e.layer;
  output = take_value line (codes "OutputStrat") 16 e.output;
  profile = take_value line (codes "Profile") 256 e.profile;
  work_dir = take_value line (codes "WorkDir") 1024 e.work_dir;
  lfs_profile = take_value line (codes "LfsProfile") 16 e.lfs_profile;
}

unfoldable pub show_lines : Edition → List Bytes → Edition
show_lines e [] = e
show_lines e (line ∷ lines) = show_lines (show_line e line) lines

abbrev pub no_state : EditionState
no_state = record {
  steps = 0;
  done = 0;
  next = [];
  unrecorded = false;
  newest_iso = [];
  newest_when = [];
  newest_size = 0;
}

abbrev pub blank_edition : Bytes → Edition
blank_edition name = record {
  name = snprintf_s 64 name;
  edition = [];
  summary = [];
  base = [];
  packages = [];
  kernel = [];
  layer = [];
  output = [];
  profile = [];
  work_dir = [];
  lfs_profile = [];
  state = no_state;
}

abbrev pub cons_before : ℕ → Option (Bytes × Bytes) → Option (Bytes × Bytes)
cons_before c none = none
cons_before c (some r) = some (c ∷ r.0, r.1)

abbrev pub or_here : Bool → Bytes → Option (Bytes × Bytes) → Option (Bytes × Bytes)
or_here true s none = some ([], s)
or_here false s none = none
or_here here s (some r) = some r

-- `strrchr(s, x)`: what stands before and after the last one.
unfoldable pub strrchr : ℕ → Bytes → Option (Bytes × Bytes)
strrchr x [] = none
strrchr x (c ∷ s) = or_here (c == x) s (cons_before c (strrchr x s))

-- `strcspn(s, ")")` bytes of `s`
unfoldable pub until_paren : Bytes → Bytes
until_paren [] = []
until_paren (c ∷ s) = let more : Bytes = until_paren s in if c == 41 then [] else c ∷ more

-- `when && when > path ? when - path - 1 : strlen(path)`
abbrev pub path_len : Bytes → Option (Bytes × Bytes) → ℕ
path_len path none = length path
path_len path (some ([], after)) = length path
path_len path (some (c ∷ before, after)) = length before

abbrev pub when_text : Bytes → Option (Bytes × Bytes) → Bytes
when_text old none = old
when_text old (some r) = snprintf_s 32 (until_paren r.1)

unfoldable pub iso_line : EditionState → Bytes → EditionState
iso_line st path =
    let when : Option (Bytes × Bytes) = strrchr 40 path in
    record st {
      newest_iso = snprintf_s 1024 (take (path_len path when) path);
      newest_when = when_text st.newest_when when;
    }

-- The chain of tests for one line of `BUILD.zsh status`.
unfoldable pub state_line : EditionState → Bytes → EditionState
state_line st line =
    if starts_with (codes "  done     ") line
    then record st { steps = st.steps + 1; done = st.done + 1 }
    else if starts_with (codes "  next     ") line
    then record st { steps = st.steps + 1; next = snprintf_s 64 (drop 11 line) }
    else if starts_with (codes "  to come  ") line
    then record st { steps = st.steps + 1 }
    else if starts_with (codes "  (no build.state") line
    then record st { unrecorded = true }
    else if starts_with (codes "newest ISO: ") line
    then iso_line st (drop 12 line)
    else st

unfoldable pub state_lines : EditionState → List Bytes → EditionState
state_lines st [] = st
state_lines st (line ∷ lines) = state_lines (state_line st line) lines

-- `if (st->newest_iso[0] && stat(..) == 0)`; `size_of` is what `stat` tells of a file.
abbrev pub with_size : EditionState → Option ℕ → EditionState
with_size st none = st
with_size st (some size) = record st { newest_size = size }

abbrev pub sized : (Bytes → Option ℕ) → EditionState → Bytes → EditionState
sized size_of st [] = st
sized size_of st (c ∷ iso) = with_size st (size_of (c ∷ iso))

abbrev pub state_of : (Bytes → Option ℕ) → Option Bytes → EditionState
state_of size_of none = no_state
state_of size_of (some text) =
    let st : EditionState = state_lines no_state (text_lines text) in sized size_of st st.newest_iso

-- `syn_edition_read_state`: the state that it leaves in the edition.
unfoldable pub edition_read_state : (Bytes → Option Bytes) → (Bytes → Option ℕ) → Edition → Edition
edition_read_state status size_of e = record e {
  state = state_of size_of (captured 8192 (status e.name));
}

-- The test for a name that `readdir` gives: longer than ".conf", ends with it, and fits.
unfoldable pub is_conf : Bytes → Bool
is_conf name =
    ltb 5 (length name)
    && ltb (length name - 5) 64
    && bytes_eq (drop (length name - 5) name) (codes ".conf")

-- The names without ".conf", while there is room.
unfoldable pub conf_names : ℕ → List Bytes → List Bytes
conf_names zero names = []
conf_names (suc room) [] = []
conf_names (suc room) (name ∷ names) =
    let more : List Bytes = conf_names (if is_conf name then room else suc room) names in
    if is_conf name then take (length name - 5) name ∷ more else more

-- `strcmp(a, b) <= 0`
unfoldable pub strcmp_le : Bytes → Bytes → Bool
strcmp_le [] b = true
strcmp_le (x ∷ a) [] = false
strcmp_le (x ∷ a) (y ∷ b) = let later : Bool = strcmp_le a b in if x == y then later else ltb x y

unfoldable pub insert_name : Bytes → List Bytes → List Bytes
insert_name name [] = name ∷ []
insert_name name (n ∷ names) =
    let later : List Bytes = insert_name name names in
    if strcmp_le name n then name ∷ n ∷ names else n ∷ later

-- `qsort(names, count, sizeof(names[0]), cmp_names)`
unfoldable pub sort_names : List Bytes → List Bytes
sort_names [] = []
sort_names (name ∷ names) = insert_name name (sort_names names)

abbrev pub edition_shown : Bytes → Option Bytes → Option Edition
edition_shown name none = none
edition_shown name (some text) = some (show_lines (blank_edition name) (text_lines text))

-- The loop that reads each edition, while there is room.
unfoldable pub read_editions :
    (Bytes → Option Bytes)
    → (Bytes → Option Bytes)
    → (Bytes → Option ℕ)
    → ℕ
    → List Bytes
    → List Edition
read_editions show status size_of zero names = []
read_editions show status size_of (suc room) [] = []
read_editions show status size_of (suc room) (name ∷ names) =
    elim (edition_shown name (captured 4096 (show name))) [
      | none ↦ read_editions show status size_of (suc room) names
      | some e ↦ edition_read_state status size_of e ∷ read_editions show status size_of room names
    ]

abbrev pub is_syn : Edition → Bool
is_syn e = bytes_eq e.layer (codes "syn")

-- `e = out[i]; memmove(&out[k + 1], &out[k], i - k); out[k] = e;`
abbrev pub move_up : {A : Type 0} → ℕ → ℕ → A → List A → List A
move_up k i e out = take k out ++ (e ∷ (drop k (take i out) ++ drop (i + 1) out))

-- The loop over `i`, with `k` for `syn_count`.
unfoldable pub syn_first : {A : Type 0} → (A → Bool) → ℕ → ℕ → ℕ → List A → List A
syn_first first zero i k out = out
syn_first first (suc fuel) i k out = elim (get_elem? out i) [
  | none ↦ out
  | some e ↦
      if first e
      then syn_first first fuel (i + 1) (k + 1) (move_up k i e out)
      else syn_first first fuel (i + 1) k out
]

-- `syn_edition_list`; `listing` is what `readdir` gives for SYN-EDITIONS, `none` where it cannot be
-- opened.
unfoldable pub edition_list :
    (Bytes → Option Bytes)
    → (Bytes → Option Bytes)
    → (Bytes → Option ℕ)
    → Option (List Bytes)
    → ℕ
    → List Edition
edition_list show status size_of none max = []
edition_list show status size_of (some names) max =
    let out : List Edition =
      read_editions show status size_of max (sort_names (conf_names 64 names)) in
    syn_first is_syn (length out) 0 0 out
