-- ===== src/Relay/Tests.antt =====
-- The theorems about syn-relay at concrete inputs.
use syn_os.Common.{
  ℕ, Bool, true, false, Option, none, some, [], ◌∷◌, ◌++◌, ◌≡◌, refl, arith, Bytes, codes, ◌==◌,
}
use mathlib.Core.List.{map}
use syn_os.Io.{Files, World, ◌>>=◌, done, update}
use syn_os.Io.Clean.{clean}
use syn_os.Cstring.Lines.{Line}
use syn_os.Relay.Runtime.{runtime_dir}
use syn_os.Relay.Json.{json_string}
use syn_os.Relay.NodeState.{NodeCaps, state_path, state_text, save, get_full}
use syn_os.Relay.NodeState.Laws.{Storable, stored, node_round_trip}
use syn_os.Relay.AgentState.{watch_save, watch_clear, host_save, host_get, host_clear}
use syn_os.Relay.AgentState.Laws.{Live, Short}
use syn_os.Relay.AgentState.RoundTrip.{host_round_trip}
use syn_os.Relay.AgentState.Apart.{watch_files, host_files, roles_apart}
use syn_os.Relay.Wire.{
  Measured, AppEntry, handle_stats, caps_from_stats_reply, handle_list_apps, parse_wire_reply,
  apps_text, app_text, escaped,
}
use syn_os.Relay.Wire.Stats.{stats_caps, stats_hostname}
use syn_os.Relay.Wire.Plain.{Plain, PlainEntry, apps_round_trip, exec_cut}
use syn_os.Common.{List, take, bytes_eq}
use syn_os.Cstring.{snprintf_s, starts_with}
use syn_os.Relay.Apps.{
  Desk, blank, desk_lines, desk_line, key_line, first_key, value, extract_value, value_text,
  is_true, strip, strip_field_codes,
}
use syn_os.Relay.Apps.Parse.{section_lines, last_value, desk_lines_lem}
use syn_os.Relay.Apps.Command.{NoCodes, Stripped, strip_field_codes_lem}
use syn_os.Relay.Server.{
  Host, listed_apps, handle_client, handle_launch_app, request_line, launch_command,
}
use syn_os.Relay.Server.Request.{outcome_of, started, due, launch_request, launch_told}

abbrev empty_files : Files
empty_files path = none

abbrev no_entropy : ℕ → ℕ
no_entropy i = 0

abbrev dir : Option Bytes
dir = some (codes "/run/user/1000")

abbrev linux_caps : NodeCaps
linux_caps = record {
  os = codes "linux";
  apps = true;
  watch_desktop = true;
  watch_window = false;
  host_watched = true;
}

Storable-node : Storable 256 256 (codes "10.0.0.7") (codes "box") linux_caps
unfolding Line
Storable-node = record {
  host-line = ground arith;
  host-ne = ground arith;
  host-fits = omega arith;
  host-copied = omega arith;
  ssh-line = ground arith;
  ssh-fits = omega arith;
  ssh-copied = omega arith;
  os-line = ground arith;
  os-fits = omega arith;
}

node_round_trip_example :
    (save dir (codes "10.0.0.7") (codes "box") (some linux_caps) >>= λ ok. get_full dir 256 256)
      (clean empty_files no_entropy)
    ≡ (
      done (stored (codes "10.0.0.7") (codes "box") linux_caps),
      clean
          (update empty_files
            (state_path dir)
            (some (state_text (codes "10.0.0.7") (codes "box") linux_caps)))
          no_entropy,
    )
node_round_trip_example =
    node_round_trip empty_files no_entropy dir 256 256 (codes "10.0.0.7") (codes "box") linux_caps
      Storable-node

abbrev exists : ℕ → Bool
exists pid = pid == 4711

abbrev peer : Bytes
peer = codes "10.0.0.9"

Short-dir : Short dir
unfolding Short runtime_dir
Short-dir = omega arith

Live-pid : Live exists 4711
unfolding Live
Live-pid = (omega arith, omega arith, refl)

Line-peer : Line peer
unfolding Line
Line-peer = ground arith

host_round_trip_example :
    ((host_save dir 4711 4711 peer >>= λ ok. host_get exists dir 256)
      (clean empty_files no_entropy)).0
    ≡ done (some (4711, 4711, peer))
host_round_trip_example =
    host_round_trip empty_files no_entropy exists dir 256 4711 4711 peer Short-dir Live-pid Live-pid
      Line-peer (omega arith)

-- A world in which the second and the fourth call fail.
abbrev faulty : World
faulty = record {
  files = empty_files;
  faults = none ∷ some 2 ∷ none ∷ some 0 ∷ [];
  entropy = no_entropy;
}

roles_apart_example :
    (watch_files dir (host_save dir 4711 4712 peer faulty).1 ≡ watch_files dir faulty)
    × (watch_files dir (host_clear dir faulty).1 ≡ watch_files dir faulty)
    × (host_files dir (watch_save dir 4713 peer faulty).1 ≡ host_files dir faulty)
    × (host_files dir (watch_clear dir faulty).1 ≡ host_files dir faulty)
roles_apart_example = roles_apart dir Short-dir faulty 4713 4711 4712 peer

-- A host name that tries to pass for the field "os".
abbrev measured : Measured
measured = record {
  hostname = codes "box\",\"os\":\"macos";
  cpu_pct = codes "12.5";
  mem_total = 16000;
  mem_available = 9000;
  disk_used = 100;
  disk_total = 500;
  gpu_pct = none;
  sunshine_running = true;
}

stats_caps_example : caps_from_stats_reply (handle_stats measured) ≡ linux_caps
stats_caps_example = stats_caps measured

stats_hostname_example :
    json_string (handle_stats measured) (codes "hostname") 256 ≡ some (codes "box\",\"os\":\"macos")
stats_hostname_example = stats_hostname measured 256 (ground arith) (omega arith)

abbrev foot : AppEntry
foot = record {
  id = codes "/usr/share/applications/foot.desktop";
  name = codes "Foot";
  exec = codes "foot";
  icon = codes "foot";
}

PlainEntry-foot : PlainEntry foot
unfolding Plain
PlainEntry-foot = record {
  id-ne = ground arith;
  id-plain = ground arith;
  id-fits = omega arith;
  name-plain = ground arith;
  name-fits = omega arith;
  exec-plain = ground arith;
  exec-fits = omega arith;
  icon-plain = ground arith;
  icon-fits = omega arith;
}

apps_round_trip_example : listed_apps (handle_list_apps (foot ∷ foot ∷ [])) ≡ foot ∷ foot ∷ []
unfolding handle_list_apps apps_text app_text escaped
apps_round_trip_example =
    apps_round_trip (foot ∷ foot ∷ []) (omega arith) (omega arith)
      (PlainEntry-foot, (PlainEntry-foot, tt))

abbrev quoted : AppEntry
quoted = record foot { exec = codes "sh -c \"foot\"" }

exec_cut_example :
    map (λ e. e.exec) (parse_wire_reply (handle_list_apps (quoted ∷ [])) 512)
    ≡ (codes "sh -c " ++ (92 ∷ [])) ∷ []
unfolding Plain
exec_cut_example =
    exec_cut 511 quoted (codes "sh -c ") (codes "foot\"") (ground arith) refl (ground arith)
      (omega arith)

abbrev desktop_lines : List Bytes
desktop_lines =
    codes "Name=Ignored\n"
    ∷ codes "[Desktop Entry]\n"
    ∷ codes "Name=Foot\n"
    ∷ codes "Exec=foot %U\n"
    ∷ codes "Hidden=false\n"
    ∷ codes "[Desktop Action new]\n"
    ∷ codes "Exec=foot --new\n"
    ∷ []

desk_lines_lem_example :
    let d : Desk = desk_lines (blank (codes "foot.desktop")) desktop_lines in
    let section : List Bytes = section_lines false desktop_lines in
    (d.entry.name ≡ last_value (snprintf_s 256) (codes "Name") [] section)
    × (d.entry.exec ≡ last_value (snprintf_s 512) (codes "Exec") [] section)
    × (d.entry.icon ≡ last_value (snprintf_s 256) (codes "Icon") [] section)
    × (d.no_display ≡ last_value is_true (codes "NoDisplay") false section)
    × (d.hidden ≡ last_value is_true (codes "Hidden") false section)
desk_lines_lem_example = desk_lines_lem (codes "foot.desktop") desktop_lines

desk_lines_run :
    (desk_lines (blank (codes "foot.desktop")) desktop_lines).entry.exec ≡ codes "foot %U"
unfolding desk_lines desk_line key_line value extract_value value_text first_key starts_with is_true
    bytes_eq
desk_lines_run = refl

strip_field_codes_lem_example :
    (s : Bytes) × Stripped (codes "foot %U 100%") s
    × (strip_field_codes (codes "foot %U 100%") ≡ take 511 s)
    × NoCodes (strip_field_codes (codes "foot %U 100%"))
    × (strip_field_codes (strip_field_codes (codes "foot %U 100%"))
        ≡ strip_field_codes (codes "foot %U 100%"))
strip_field_codes_lem_example = strip_field_codes_lem (codes "foot %U 100%")

strip_run : strip_field_codes (codes "foot %U 100%") ≡ codes "foot  100%"
unfolding strip_field_codes strip
strip_run = refl

abbrev host : Host
host = record { measured = measured; listing = λ dir. none; home = none }

abbrev foot_id : Bytes
foot_id = codes "/usr/share/applications/foot.desktop"

Line-foot : Line foot_id
unfolding Line
Line-foot = ground arith

launch_request_example :
    handle_client host (request_line (launch_command foot_id)) ≡ handle_launch_app foot_id
launch_request_example = launch_request host foot_id Line-foot (omega arith)

abbrev desktop : World
desktop = record faulty {
  files = update empty_files foot_id (some (codes "[Desktop Entry]\nName=Foot\nExec=foot %U\n"));
}

-- The second call, which is `fork`, fails.
launch_told_example :
    outcome_of (handle_launch_app foot_id desktop).0
    ≡ (started (due foot_id desktop), due foot_id desktop)
launch_told_example = launch_told foot_id desktop

no_fork : due foot_id desktop ≡ none
unfolding due
no_fork = refl
