-- ===== src/Hum/Command.antt =====
-- main.c of syn-hum: the daemon that is running, and the settings changed from the command line.
-- `exists pid` is `kill(pid, 0) == 0`, and `procs` the names that `readdir` gives for /proc, `none`
-- where it cannot be opened.
pub mod Keeps
pub mod Settings
pub mod Refines
use syn_os.Common.{
  ℕ, zero, suc, ◌^◌, Bool, true, false, not, ◌&&◌, ◌||◌, Option, none, some, List, [], ◌∷◌, ◌++◌,
  Bytes, codes, length, bytes_eq, ltb, leb, ◌==◌, if◌then◌else◌,
}
use syn_os.Io.{Call, ◌>>=◌, return}
use syn_os.Cstring.{
  snprintf_s, fgets, decimal, is_digit, scan_digits, scan_long, saturate, Long, plus, minus,
}
use syn_os.Relay.Runtime.{runtime_dir, fopen_r}
use syn_os.Relay.AgentState.{to_pid}
use syn_os.Hum.Conf.{Conf, style_find, is_volume, set_mute}
use syn_os.Hum.Save.{save, load_conf}

-- `runtime_path(name, path, PATH_MAX)`
unfoldable pub hum_runtime_path : Option Bytes → Bytes → Bytes
hum_runtime_path dir name = snprintf_s 4096 (runtime_dir dir ++ (codes "/" ++ name))

-- `comm[strcspn(comm, "\n")] = '\0'`
unfoldable pub first_word : Bytes → Bytes
first_word [] = []
first_word (c ∷ b) = let more : Bytes = first_word b in if c == 10 then [] else c ∷ more

abbrev pub comm_read : Option (Bytes × Bytes) → Bytes
comm_read none = []
comm_read (some r) = first_word r.0

-- The name of a process in its comm file, "" where it cannot be read.
unfoldable pub comm_name : Option Bytes → Bytes
comm_name none = []
comm_name (some file) = comm_read (fgets 32 file)

-- A `pid_t` that is returned, `none` for 0.
abbrev pub nonzero : ℕ → Option ℕ
nonzero pid = if pid == 0 then none else some pid

unfoldable pub if_named : ℕ → Long → Call (Option ℕ)
unfolding return
if_named n pid = do
  file ← fopen_r (snprintf_s 64 (codes "/proc/" ++ (decimal 19 n ++ codes "/comm")))
  return (if bytes_eq (comm_name file) (codes "syn-hum") then nonzero (to_pid pid) else none)

-- `pid <= 0 || kill((pid_t)pid, 0) != 0` returns 0
unfoldable pub if_alive : (ℕ → Bool) → Option (Long × Bytes) → Call (Option ℕ)
unfolding return
if_alive exists none = return none
if_alive exists (some (minus n, rest)) = return none
if_alive exists (some (plus n, rest)) =
    if ltb 0 n && exists (to_pid (plus n)) then if_named n (plus n) else return none

unfoldable pub pid_in : (ℕ → Bool) → Option Bytes → Call (Option ℕ)
unfolding return
pid_in exists none = return none
pid_in exists (some file) = if_alive exists (scan_long file)

-- `none` for 0
unfoldable pub running_pid : (ℕ → Bool) → Option Bytes → Call (Option ℕ)
running_pid exists dir = do
  file ← fopen_r (hum_runtime_path dir (codes "syn-hum.pid"))
  pid_in exists file

pub data Signal : Type 0 where
  hup refresh : ℕ → Signal

abbrev pub starts_digit : Bytes → Bool
starts_digit [] = false
starts_digit (c ∷ name) = is_digit c

abbrev pub signal_if : Bool → Bytes → List Signal → List Signal
signal_if false name rest = rest
signal_if true name rest = refresh (to_pid (plus (saturate (scan_digits 0 name).0))) ∷ rest

-- The loop over the names in /proc: the process ids that get SIGRTMIN+8.
unfoldable pub refresh_names : List Bytes → Call (List Signal)
unfolding return
refresh_names [] = return []
refresh_names (name ∷ names) = elim (starts_digit name) [
  | false ↦ refresh_names names
  | true ↦ do
    file ← fopen_r (snprintf_s 300 (codes "/proc/" ++ (name ++ codes "/comm")))
    rest ← refresh_names names
    return (signal_if (bytes_eq (comm_name file) (codes "waybar")) name rest)
]

unfoldable pub bar_refresh : Option (List Bytes) → Call (List Signal)
unfolding return
bar_refresh none = return []
bar_refresh (some names) = refresh_names names

abbrev pub is_switch : Bytes → Bool
is_switch word = bytes_eq word (codes "on") || bytes_eq word (codes "off")

abbrev pub choose_style : Conf → Option ℕ → Option Conf
choose_style c none = none
choose_style c (some s) = some (record c { style = s })

abbrev pub set_member : Conf → Bytes → Bytes → Option Conf
set_member c id switch =
    if leb 16 (length id) then none else set_mute c id (bytes_eq switch (codes "on"))

-- The two forms of `set crew`.
unfoldable pub set_crew : Conf → Bytes → List Bytes → Option Conf
set_crew c value [] =
    if is_switch value then some (record c { crew = bytes_eq value (codes "on") }) else none
set_crew c value (switch ∷ []) = if is_switch switch then set_member c value switch else none
set_crew c value (_ ∷ _ ∷ _) = none

-- The chain of tests of `cmd_set`, on argv[2] and what follows it. `none` where it returns 1.
unfoldable pub changed : Conf → Bytes → Bytes → List Bytes → Option Conf
changed c key value rest =
    if bytes_eq key (codes "style")
    then choose_style c (style_find value)
    else if bytes_eq key (codes "volume")
    then (if is_volume value then some (record c { volume = snprintf_s 16 value }) else none)
    else if bytes_eq key (codes "crew")
    then set_crew c value rest
    else none

abbrev pub hups : Option ℕ → List Signal
hups none = []
hups (some pid) = hup pid ∷ []

-- The exit status and the signals that were sent.
unfoldable pub notified : (ℕ → Bool) → Option (List Bytes) → Option Bytes → Call (ℕ × List Signal)
unfolding return
notified exists procs dir = do
  pid ← running_pid exists dir
  bars ← bar_refresh procs
  return (0, hups pid ++ bars)

unfoldable pub store_changed :
    (ℕ → Bool)
    → Option (List Bytes)
    → Option Bytes
    → Option Bytes
    → Option Bytes
    → Option Conf
    → Call (ℕ × List Signal)
unfolding return
store_changed exists procs dir config home none = return (1, [])
store_changed exists procs dir config home (some c) = do
  saved ← save config home c
  if saved then notified exists procs dir else return (1, [])

-- `words` are argv[2] and what follows it.
unfoldable pub cmd_set :
    (ℕ → Bool)
    → Option (List Bytes)
    → Option Bytes
    → Option Bytes
    → Option Bytes
    → List Bytes
    → Call (ℕ × List Signal)
unfolding return
cmd_set exists procs dir config home (key ∷ value ∷ rest) = do
  c ← load_conf config home
  store_changed exists procs dir config home (changed c key value rest)
cmd_set exists procs dir config home _ = return (1, [])
