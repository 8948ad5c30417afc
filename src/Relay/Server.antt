-- ===== src/Relay/Server.antt =====
-- The stats server's answer to one request (cmd_stats_server.c) and the requests that the stats
-- client sends (cmd_stats_client.c, syn_relay_conn.c).
pub mod Request
use syn_os.Common.{
  ℕ, Bool, true, false, Option, none, some, List, [], ◌∷◌, ◌++◌, Bytes, codes, drop, take, ◌-◌,
  bytes_eq, if◌then◌else◌,
}
use syn_os.Io.{Call, ◌>>=◌, return}
use syn_os.Cstring.{fgets, starts_with, snprintf_s, trim_newline}
use syn_os.Relay.Json.{json_bool}
use syn_os.Relay.Wire.{
  Measured, AppEntry, handle_stats, handle_list_apps, parse_wire_reply, or_false,
}
use syn_os.Relay.Apps.{apps_list, launch}

-- The line that goes back, and the command that was handed to the shell.
pub record Answer : Type 0 where
  pub text : Bytes
  pub launched : Option Bytes

abbrev pub says : Bytes → Answer
says text = record { text = text; launched = none }

abbrev pub launch_answer : Option Bytes → Answer
launch_answer none = says (codes "{\"ok\":false,\"error\":\"launch failed\"}\n")
launch_answer (some command) = record { text = codes "{\"ok\":true}\n"; launched = some command }

unfoldable pub handle_launch_app : Bytes → Call Answer
unfolding return
handle_launch_app [] = return (says (codes "{\"ok\":false,\"error\":\"missing id\"}\n"))
handle_launch_app (c ∷ id) = do r ← launch (c ∷ id); return (launch_answer r)

-- What the operating system gives to the server: its measures, the directories and $HOME.
pub record Host : Type 0 where
  pub measured : Measured
  pub listing : Bytes → Option (List Bytes)
  pub home : Option Bytes

unfoldable pub answer_apps : Host → Call Answer
unfolding return
answer_apps host = do
  apps ← apps_list host.listing host.home 512
  return (says (handle_list_apps apps))

unfoldable pub dispatch : Host → Bytes → Call Answer
unfolding return
dispatch host line =
    if bytes_eq line (codes "STATS")
    then return (says (handle_stats host.measured))
    else if bytes_eq line (codes "LIST_APPS")
    then answer_apps host
    else if starts_with (codes "LAUNCH_APP ") line
    then handle_launch_app (drop 11 line)
    else return (says (codes "{\"ok\":false,\"error\":\"unknown command\"}\n"))

abbrev pub answer_line : Host → Option (Bytes × Bytes) → Call Answer
answer_line host none = return (says [])
answer_line host (some line) = dispatch host (trim_newline line.0)

-- `handle_client` on the bytes that came in
unfoldable pub handle_client : Host → Bytes → Call Answer
handle_client host input = answer_line host (fgets 1024 input)

-- The line that `syn_relay_request` writes for a command.
unfoldable pub request_line : Bytes → Bytes
request_line command = snprintf_s 1024 (command ++ (10 ∷ []))

-- The command of `cmd_launch`.
unfoldable pub launch_command : Bytes → Bytes
launch_command id = snprintf_s 1024 (codes "LAUNCH_APP " ++ id)

-- `syn_relay_request` on the whole reply: the line ends are cut off.
unfoldable pub reply_text : Bytes → Bytes
reply_text text = trim_newline text

-- The reply in a buffer of `size` bytes, where it comes in one piece.
unfoldable pub received : ℕ → Bytes → Bytes
received size text = reply_text (take (size - 1) text)

-- The entries that `cmd_list_apps` lists.
unfoldable pub listed_apps : Bytes → List AppEntry
listed_apps text = parse_wire_reply (received 8192 text) 512

-- `cmd_launch`'s `ok` after a reply
unfoldable pub launch_ok : Bytes → Bool
launch_ok reply = or_false (json_bool reply (codes "ok"))
