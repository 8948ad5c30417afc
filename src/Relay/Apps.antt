-- ===== src/Relay/Apps.antt =====
-- syn_apps.c: the applications that the server lists and launches, from their .desktop files.
pub mod Parse
pub mod Command
pub mod Lines
use syn_os.Common.{
  ℕ, zero, suc, ◌+◌, ◌-◌, Bool, true, false, not, ◌&&◌, Option, none, some, List, [], ◌∷◌, ◌++◌,
  Bytes, codes, length, drop, bytes_eq, leb, ltb, ◌==◌, if◌then◌else◌,
}
use syn_os.Io.{Call, ◌>>=◌, ◌>>◌, return, fault, succeeds}
use syn_os.Cstring.{fgets, starts_with, snprintf_s}
use syn_os.Relay.Runtime.{fopen_r}
use syn_os.Relay.Wire.{AppEntry}

-- The characters up to the end of the line, at most `room`.
unfoldable pub value_text : ℕ → Bytes → Bytes
value_text zero v = []
value_text (suc room) [] = []
value_text (suc room) (c ∷ v) =
    let more : Bytes = value_text room v in if c == 10 then [] else if c == 13 then [] else c ∷ more

-- `extract_value(line, key, buf, buflen)`, `none` for NULL
unfoldable pub extract_value : Bytes → Bytes → ℕ → Option Bytes
extract_value line key buflen =
    if starts_with (key ++ (61 ∷ [])) line
    then some (value_text (buflen - 1) (drop (length key + 1) line))
    else none

-- The variables of the loop over the lines of a file.
pub record Desk : Type 0 where
  pub entry : AppEntry
  pub no_display : Bool
  pub hidden : Bool
  pub in_desktop_entry : Bool

unfoldable pub value : Bytes → Bytes → Option Bytes
value line key = extract_value line key 512

unfoldable pub is_true : Bytes → Bool
is_true v = bytes_eq v (codes "true")

-- The chain of tests for the values of Name, Exec, Icon, NoDisplay and Hidden: the first counts.
unfoldable pub first_key :
    Desk → Option Bytes → Option Bytes → Option Bytes → Option Bytes → Option Bytes → Desk
first_key d (some v) _ _ _ _ = record d { entry = record d.entry { name = snprintf_s 256 v } }
first_key d none (some v) _ _ _ = record d { entry = record d.entry { exec = snprintf_s 512 v } }
first_key d none none (some v) _ _ = record d { entry = record d.entry { icon = snprintf_s 256 v } }
first_key d none none none (some v) _ = record d { no_display = is_true v }
first_key d none none none none (some v) = record d { hidden = is_true v }
first_key d none none none none none = d

-- A line of the section that the loop reads.
unfoldable pub key_line : Desk → Bytes → Desk
key_line d line =
    first_key d (value line (codes "Name")) (value line (codes "Exec")) (value line (codes "Icon"))
      (value line (codes "NoDisplay")) (value line (codes "Hidden"))

unfoldable pub desk_line : Desk → Bytes → Desk
desk_line d line =
    if starts_with (codes "[") line
    then record d { in_desktop_entry = starts_with (codes "[Desktop Entry]") line }
    else if d.in_desktop_entry
    then key_line d line
    else d

unfoldable pub desk_lines : Desk → List Bytes → Desk
desk_lines d [] = d
desk_lines d (line ∷ lines) = desk_lines (desk_line d line) lines

-- `while (fgets(line, sizeof(line), f))`, at most `fuel` times
unfoldable pub lines_of : ℕ → ℕ → Bytes → List Bytes
lines_of size zero file = []
lines_of size (suc fuel) file = elim (fgets size file) [
  | none ↦ []
  | some r ↦ r.0 ∷ lines_of size fuel r.1
]

abbrev pub blank : Bytes → Desk
blank path = record {
  entry = record { id = snprintf_s 512 path; name = []; exec = []; icon = [] };
  no_display = false;
  hidden = false;
  in_desktop_entry = false;
}

abbrev pub is_empty : Bytes → Bool
is_empty [] = true
is_empty (c ∷ s) = false

-- `out->name[0] && out->exec[0] && !no_display && !hidden`
unfoldable pub listed : Desk → Bool
listed d =
    not (is_empty d.entry.name) && not (is_empty d.entry.exec) && not d.no_display && not d.hidden

abbrev pub parsed : Bytes → Option Bytes → Option AppEntry
parsed path none = none
parsed path (some file) =
    let d : Desk = desk_lines (blank path) (lines_of 1024 (length file) file) in
    if listed d then some d.entry else none

-- The entry, `none` where the function returns false.
unfoldable pub parse_desktop_file : Bytes → Call (Option AppEntry)
unfolding return
parse_desktop_file path = do f ← fopen_r path; return (parsed path f)

-- Whether the name is longer than ".desktop" and ends with it.
unfoldable pub is_desktop : Bytes → Bool
is_desktop name = leb 9 (length name) && bytes_eq (drop (length name - 8) name) (codes ".desktop")

abbrev pub optional : Option AppEntry → List AppEntry
optional none = []
optional (some a) = a ∷ []

-- The entries of a directory whose names `readdir` gives in this order, while `room` is left.
unfoldable pub scan_names : Bytes → ℕ → List Bytes → Call (List AppEntry)
unfolding return
scan_names dir zero names = return []
scan_names dir (suc room) [] = return []
scan_names dir (suc room) (name ∷ names) = elim (is_desktop name) [
  | false ↦ scan_names dir (suc room) names
  | true ↦ do
    found ← parse_desktop_file (snprintf_s 600 (dir ++ (47 ∷ name)))
    elim found [
      | none ↦ scan_names dir (suc room) names
      | some a ↦ do rest ← scan_names dir room names; return (a ∷ rest)
    ]
]

-- `opendir`, with the names that `readdir` will give; `listing` is the file system's directories.
unfoldable pub scan_dir : (Bytes → Option (List Bytes)) → Bytes → ℕ → Call (List AppEntry)
unfolding return
scan_dir listing dir room = elim (listing dir) [
  | none ↦ return []
  | some names ↦ scan_names dir room names
]

-- `home` is `getenv("HOME")`.
unfoldable pub apps_list : (Bytes → Option (List Bytes)) → Option Bytes → ℕ → Call (List AppEntry)
unfolding return
apps_list listing home max = do
  system ← scan_dir listing (codes "/usr/share/applications") max
  elim home [
    | none ↦ return system
    | some dir ↦ do
      own ←
          scan_dir listing (snprintf_s 512 (dir ++ codes "/.local/share/applications"))
            (max - length system)
      return (system ++ own)
  ]

-- The loop of `syn_apps_strip_field_codes`, with `room` left in `cleaned`; `skip` says that the
-- character at hand is the letter of a field code.
unfoldable pub strip : ℕ → Bool → Bytes → Bytes
strip zero skip exec = []
strip (suc room) skip [] = []
strip (suc room) true (c ∷ exec) = strip (suc room) false exec
strip (suc room) false (c ∷ exec) =
    let code : Bool = c == 37 && not (is_empty exec) in
    let rest : Bytes = strip (if code then suc room else room) code exec in
    if code then rest else c ∷ rest

unfoldable pub strip_field_codes : Bytes → Bytes
strip_field_codes exec = strip 511 false exec

-- The command that the child gives to the shell, `none` where the function returns false. `fork`
-- may fail.
unfoldable pub launch : Bytes → Call (Option Bytes)
unfolding return
launch id = do
  found ← parse_desktop_file id
  elim found [
    | none ↦ return none
    | some a ↦ do
      pid ← fault
      return (if succeeds pid then some (strip_field_codes a.exec) else none)
  ]
