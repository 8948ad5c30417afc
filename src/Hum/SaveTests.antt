-- ===== src/Hum/SaveTests.antt =====
-- The saving of the settings, and the commands that change them, at concrete inputs.
use syn_os.Common.{
  ◌⊎◌, ◌≡◌, ℕ, refl, arith, Bool, true, false, Option, none, some, List, [], ◌∷◌, Bytes, codes,
  bytes_eq, if◌then◌else◌,
}
use syn_os.Io.{
  World, Files, Outcome, done, return, ◌>>=◌, try, open_read, attempt, require, throw, lookup_file,
  open_write, remove,
}
use syn_os.Io.Clean.{clean}
use syn_os.Cstring.{
  scan_long, skip_space, scan_unsigned, scan_digits, decimal, fgets, read_line, cstr, starts_with,
}
use syn_os.Relay.Runtime.{fopen_r, fopen_w, runtime_dir}
use syn_os.Relay.AgentState.{to_pid}
use syn_os.Relay.Apps.{lines_of}
use syn_os.Hum.Conf.{
  Conf, defaults, load, loaded, is_volume, in_list, conf_lines, conf_line, two_words, word,
  conf_key, style_find, index_from, set_mute, muted,
}
use syn_os.Hum.Conf.Valid.{Distinct}
use syn_os.Hum.Save.{
  conf_dir, conf_path, or_empty, printed_lines, style_name, mute_lines, with_ends, save, save_at,
  write_new, flush_close, replace, load_conf,
}
use syn_os.Hum.Save.Reload.{Word, Savable}
use syn_os.Hum.Save.Atomic.{save_atomic}
use syn_os.Hum.Save.RoundTrip.{save-load, clean-save}
use syn_os.Hum.Crew.{
  Crew, crew_read, read_there, crew_path, crew_parsed, crew_lines, crew_line, talk_of, crew_of,
  state_letter, crew_changed, slots_eq,
}
use syn_os.Hum.Crew.Valid.{CrewValid, Left, crew_read-Valid}
use syn_os.Hum.Command.{
  Signal, hum_runtime_path, changed, set_crew, running_pid, pid_in, if_alive, if_named, comm_name,
  first_word,
}
use syn_os.Hum.Command.Settings.{view, Request, member_request, apply}
use syn_os.Hum.Command.Refines.{set_words, set-refines}

abbrev no_files : Files
no_files path = none

abbrev zeros : ℕ → ℕ
zeros i = 0

abbrev empty_world : World
empty_world = clean no_files zeros

abbrev home_dir : Option Bytes
home_dir = some (codes "/home/syn")

-- A disk that is full after ten bytes of the new file.
abbrev full_disk : World
full_disk = record empty_world { faults = none ∷ none ∷ some 10 ∷ [] }

save_atomic_example :
    let w' : World = (save none home_dir defaults full_disk).1 in
    (((save none home_dir defaults full_disk).0 ≡ done true)
      × (w'.files (conf_path none home_dir) ≡ some (with_ends (printed_lines defaults))))
    ⊎ (((save none home_dir defaults full_disk).0 ≡ done false)
        × (w'.files (conf_path none home_dir) ≡ full_disk.files (conf_path none home_dir)))
save_atomic_example = save_atomic none home_dir defaults full_disk

full_disk_run : (save none home_dir defaults full_disk).0 ≡ done false
unfolding save save_at fopen_w try open_write attempt require throw return ◌>>=◌ write_new
    flush_close replace conf_path conf_dir or_empty bytes_eq with_ends printed_lines style_name
    remove
full_disk_run = refl

abbrev jackal_muted : Conf
jackal_muted = record { style = 5; volume = codes "loud"; crew = false; mute = codes "jackal" ∷ [] }

jackal-Word : Word (codes "jackal")
unfolding Word
jackal-Word = (
  refl,
  (
    (refl, omega arith),
    (
      (refl, omega arith),
      (
        (refl, omega arith),
        ((refl, omega arith), ((refl, omega arith), ((refl, omega arith), tt))),
      ),
    ),
  ),
)

Savable-jackal : Savable jackal_muted
unfolding Distinct is_volume bytes_eq in_list
Savable-jackal = record {
  valid = record {
    style = omega arith;
    volume = refl;
    count = omega arith;
    fits = (omega arith, tt);
    distinct = (refl, tt);
  };
  words = (jackal-Word, tt);
}

abbrev saved_jackal : World
saved_jackal = (save none home_dir jackal_muted empty_world).1

abbrev later_world : World
later_world = record saved_jackal { faults = [] }

save-load_example : (load_conf none home_dir later_world).0 ≡ done jackal_muted
save-load_example =
    save-load none home_dir jackal_muted empty_world later_world Savable-jackal
      (clean-save none home_dir jackal_muted no_files zeros).0 refl refl

Savable-defaults : Savable defaults
unfolding Distinct is_volume bytes_eq
Savable-defaults = record {
  valid = record {
    style = omega arith;
    volume = refl;
    count = omega arith;
    fits = tt;
    distinct = tt;
  };
  words = tt;
}

no_conf : (load_conf none home_dir empty_world).0 ≡ done defaults
unfolding load_conf load fopen_r try open_read attempt require throw return ◌>>=◌ lookup_file
no_conf = refl

abbrev nobody : ℕ → Bool
nobody pid = false

abbrev mute_jackal : Request
mute_jackal = member_request (codes "jackal") false

abbrev set_end : Outcome (ℕ × List Signal) × World
set_end = set_words nobody none none none home_dir mute_jackal empty_world

set-refines_example :
    (sent : List Signal) × (d : Conf) × (set_end.0 ≡ done (0, sent))
    × ((load_conf none home_dir set_end.1).0 ≡ done d)
    × Savable d
    × (view d ≡ apply mute_jackal (view defaults))
set-refines_example =
    set-refines nobody none none none home_dir no_files zeros defaults mute_jackal no_conf
      Savable-defaults (jackal-Word, omega arith, λ off. omega arith)

-- The daemon's process id is found only where the process is a syn-hum.
abbrev pid_world : Bytes → World
pid_world comm =
    clean
      (λ path.
        if bytes_eq path (codes "/tmp/syn-hum.pid")
        then some (codes "77\n")
        else if bytes_eq path (codes "/proc/77/comm")
        then some comm
        else none)
      zeros

daemon_found : (running_pid (λ pid. true) none (pid_world (codes "syn-hum\n"))).0 ≡ done (some 77)
unfolding running_pid pid_in if_alive if_named hum_runtime_path comm_name first_word fopen_r try
    open_read attempt require throw return ◌>>=◌ lookup_file runtime_dir bytes_eq scan_long
    skip_space scan_unsigned scan_digits to_pid decimal fgets read_line cstr
daemon_found = refl

other_process : (running_pid (λ pid. true) none (pid_world (codes "zsh\n"))).0 ≡ done none
unfolding running_pid pid_in if_alive if_named hum_runtime_path comm_name first_word fopen_r try
    open_read attempt require throw return ◌>>=◌ lookup_file runtime_dir bytes_eq scan_long
    skip_space scan_unsigned scan_digits to_pid decimal fgets read_line cstr
other_process = refl

-- An id with a space in it, which `set` takes, is read back as the part before the space.
abbrev two_part : Conf
two_part = record defaults { mute = codes "red fox" ∷ [] }

two_part_run :
    loaded (some (with_ends (printed_lines two_part))) ≡ record defaults { mute = codes "red" ∷ [] }
unfolding with_ends printed_lines style_name mute_lines lines_of fgets read_line cstr conf_lines
    conf_line starts_with two_words word skip_space conf_key style_find index_from is_volume
    bytes_eq set_mute muted in_list
two_part_run = refl

two_part_taken :
    changed defaults (codes "crew") (codes "red fox") (codes "off" ∷ []) ≡ some two_part
unfolding changed set_crew bytes_eq set_mute muted in_list
two_part_taken = refl

abbrev no_crew : Crew
no_crew = record { count = 0; talk = false; slots = []; seen = (0, 0) }

abbrev crew_world : World
crew_world =
    clean
      (λ path.
        if bytes_eq path (codes "/tmp/syn-crew.state")
        then some (codes "talk 1\ncrew otter working 4\ncrew jackal waiting 9\n")
        else none)
      zeros

crew_read-Valid_example :
    (b : Bool) × (d : Crew) × ((crew_read none (some (7, 0)) 20 jackal_muted no_crew crew_world).0
      ≡ done (b, d))
    × CrewValid d
    × Left jackal_muted no_crew d
crew_read-Valid_example =
    crew_read-Valid jackal_muted none (some (7, 0)) 20 no_crew crew_world
      (record { count = omega arith; sound = tt })

abbrev crew_conf : Conf
crew_conf = record jackal_muted { crew = true }

crew_run :
    (crew_read none (some (7, 0)) 20 crew_conf no_crew crew_world).0
    ≡ done (
      true,
      record {
        count = 1;
        talk = true;
        slots = (record { id = codes "otter"; state = 119; priority = 4 }) ∷ [];
        seen = (7, 0);
      },
    )
unfolding crew_read read_there crew_path runtime_dir fopen_r try open_read attempt require throw
    return ◌>>=◌ lookup_file bytes_eq crew_parsed crew_lines crew_line talk_of crew_of state_letter
    crew_changed slots_eq lines_of fgets read_line cstr starts_with word skip_space scan_long
    scan_unsigned scan_digits to_pid muted in_list
crew_run = refl
