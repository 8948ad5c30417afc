-- ===== src/Bar/Relay.antt =====
-- main.c of syn-bar-core: what the bar shows of syn-relay, from the files that its roles keep and
-- from the remote machine, and the tones that it plays when that changes. `exists pid` is
-- `kill(pid, 0) == 0`.
pub mod Tones
pub mod Agrees
use syn_os.Common.{
  ℕ, zero, suc, ◌+◌, ◌-◌, Bool, true, false, not, ◌&&◌, Option, none, some, List, [], ◌∷◌, ◌++◌,
  Bytes, codes, length, ltb, leb, if◌then◌else◌,
}
use syn_os.Io.{Call, ◌>>=◌, return}
use syn_os.Cstring.{fgets, trim_newline, snprintf_s, scan_long, after, Long, plus, minus}
use syn_os.Relay.Runtime.{runtime_path, fopen_r}
use syn_os.Relay.NodeState.{NodeState, absent, active, connected}
use syn_os.Relay.AgentState.{to_pid, first_line}
use syn_os.Relay.Wire.{until_quote}

abbrev pub named_host : ℕ → Bytes → NodeState × Bytes
named_host host_size [] = (active, [])
named_host host_size (c ∷ line) = (connected, snprintf_s host_size (c ∷ line))

abbrev pub host_line : ℕ → Option (Bytes × Bytes) → NodeState × Bytes
host_line host_size none = (active, [])
host_line host_size (some r) = named_host host_size (trim_newline r.0)

abbrev pub state_in : ℕ → Option Bytes → NodeState × Bytes
state_in host_size none = (absent, [])
state_in host_size (some file) = host_line host_size (fgets 256 file)

-- `relay_node_state_get`
unfoldable pub relay_node_state_get : Option Bytes → ℕ → Call (NodeState × Bytes)
unfolding return
relay_node_state_get env host_size = do
  f ← fopen_r (runtime_path env (codes "syn-relay.client-state"))
  return (state_in host_size f)

abbrev pub string_in : ℕ → Option Bytes → Option Bytes
string_in out_size none = none
string_in out_size (some v) = some (until_quote (out_size - 1) v)

-- `relay_json_string`, `none` where it returns 0
unfoldable pub relay_json_string : Bytes → Bytes → ℕ → Option Bytes
relay_json_string json key out_size =
    let pattern : Bytes = snprintf_s 64 (34 ∷ (key ++ (34 ∷ 58 ∷ 34 ∷ []))) in
    string_in out_size (after (length pattern) pattern json)

-- The tones that are played.
pub data Tone : Type 0 where
  connect_tone disconnect_tone fail_tone intrusion_tone watching_tone serving_tone : Tone

-- The static variables, without the numbers of the reply.
pub record Cache : Type 0 where
  pub state : NodeState
  pub was_up : Bool
  pub host : Bytes
  pub reachable : Bool
  pub hostname : Bytes

abbrev pub tone_if : Bool → Tone → Option Tone
tone_if true t = some t
tone_if false t = none

abbrev pub or_name : Bytes → Option Bytes → Bytes
or_name host none = snprintf_s 256 host
or_name host (some []) = snprintf_s 256 host
or_name host (some (c ∷ name)) = c ∷ name

abbrev pub fetched : Cache → Option Bytes → Cache × Option Tone
fetched c none = (record c { was_up = false }, tone_if c.was_up fail_tone)
fetched c (some reply) = (
  record c {
    was_up = true;
    reachable = true;
    hostname = or_name c.host (relay_json_string reply (codes "hostname") 256);
  },
  tone_if (not c.was_up) connect_tone,
)

abbrev pub refreshed : (Bytes → Option Bytes) → Cache → NodeState → Cache × Option Tone
refreshed fetch c connected = fetched c (fetch c.host)
refreshed fetch c _ = (record c { was_up = false }, tone_if c.was_up disconnect_tone)

abbrev pub seen : Cache → NodeState × Bytes → Cache
seen c s = record c { state = s.0; host = s.1; reachable = false }

-- `refresh_relay`: the variables afterwards, and the tone that is played. `fetch host` is what
-- `relay_fetch_stats` reads from the remote machine, `none` where it returns 0.
unfoldable pub refresh_relay :
    (Bytes → Option Bytes) → Option Bytes → Cache → Call (Cache × Option Tone)
unfolding return
refresh_relay fetch env c = do
  s ← relay_node_state_get env 256
  return (refreshed fetch (seen c s) s.0)

abbrev pub empty_reply : Bytes
empty_reply = codes "{\"text\": \"\", \"tooltip\": \"\"}\n"

abbrev pub waiting_reply : Bytes → Bytes
waiting_reply tooltip =
    codes "{\"text\": \" no connection to remote host\", \"tooltip\": \""
    ++ (tooltip ++ codes "\", \"class\": \"relay-waiting\"}\n")

abbrev pub connected_text : Cache → Bytes
connected_text c =
    codes "{\"text\": \" connected: "
    ++ (c.hostname
        ++ (codes "\", \"tooltip\": \"Connected to "
            ++ (c.host ++ codes "\", \"class\": \"relay-connected\"}\n")))

abbrev pub status_of : Cache → NodeState → Bytes
status_of c absent = empty_reply
status_of c active = waiting_reply (codes "Relay client active, not connected")
status_of c connected =
    if c.reachable then connected_text c else waiting_reply (codes "Lost connection to remote host")

-- `write_relay_status`
unfoldable pub write_relay_status : Cache → Bytes
write_relay_status c = snprintf_s 512 (status_of c c.state)

-- `pid_alive`, of a `long`
abbrev pub alive : (ℕ → Bool) → Long → Bool
alive exists (plus n) = ltb 0 n && exists (to_pid (plus n))
alive exists (minus n) = false

abbrev pub one_alive : (ℕ → Bool) → Option (Long × Bytes) → Bool
one_alive exists none = false
one_alive exists (some r) = alive exists r.0

abbrev pub then_alive : (ℕ → Bool) → Option (Long × Bytes) → Bool
then_alive exists none = false
then_alive exists (some r) = one_alive exists (scan_long r.1) && alive exists r.0

-- "%ld" and "%ld %ld" with the tests for live processes
abbrev pub pid_runs : (ℕ → Bool) → Option Bytes → Bool
pid_runs exists none = false
pid_runs exists (some file) = one_alive exists (scan_long file)

abbrev pub pids_run : (ℕ → Bool) → Option Bytes → Bool
pids_run exists none = false
pids_run exists (some file) = then_alive exists (scan_long file)

-- A function that answers one client: the flag that it keeps, what it writes, and the tone.
abbrev pub Answer : Type 0
Answer = Bool × Bytes × Option Tone

abbrev pub answered : Tone → Bool → Bool → Bytes → Answer
answered tone was is text = (is, snprintf_s 512 text, tone_if (is && not was) tone)

abbrev pub intrusion_text : Bytes → Bytes
intrusion_text ip =
    codes "{\"text\": \" INTRUSION: "
    ++ (ip
        ++ (codes "\", \"tooltip\": \""
            ++ (ip ++ codes " is connected to this machine\", \"class\": \"relay-intrusion\"}\n")))

abbrev pub listening_text : Bytes
listening_text =
    codes
      "{\"text\": \" LISTENING\", \"tooltip\": \"syn-relay server role running, no client connected\", \"class\": \"relay-listening\"}\n"

-- `ip[0] && (time(NULL) - mtime <= 30)`; `mtime` is 0 where the file cannot be opened.
abbrev pub is_fresh : ℕ → ℕ → Bytes → Bool
is_fresh now mtime [] = false
is_fresh now mtime (c ∷ ip) = leb now (mtime + 30)

abbrev pub serving_answer : Bool → Bool → Bytes → Answer
serving_answer was fresh ip =
    answered intrusion_tone was fresh (if fresh then intrusion_text ip else listening_text)

unfoldable pub serving_client : Option Bytes → ℕ → ℕ → Bool → Bool → Call Answer
unfolding return
serving_client env now mtime was false = return (was, empty_reply, none)
serving_client env now mtime was true = do
  f ← fopen_r (runtime_path env (codes "syn-relay.server.last-client"))
  return (serving_answer was (is_fresh now mtime (first_line 256 f)) (first_line 256 f))

-- `write_relay_serving`; `was` is `was_fresh`, `now` the time and `mtime` the client file's.
unfoldable pub write_relay_serving : (ℕ → Bool) → Option Bytes → ℕ → ℕ → Bool → Call Answer
write_relay_serving exists env now mtime was = do
  f ← fopen_r (runtime_path env (codes "syn-relay.server.pid"))
  serving_client env now mtime was (pid_runs exists f)

abbrev pub watching_text : Bytes → Bytes
watching_text host =
    codes "{\"text\": \" watching: "
    ++ (host
        ++ (codes "\", \"tooltip\": \"SYN-RELAY watching "
            ++ (host ++ codes "\", \"class\": \"agent-watching\"}\n")))

abbrev pub live_text : Bytes → Bytes
live_text viewer =
    codes "{\"text\": \" agent: live\", \"tooltip\": \"SYN-RELAY streaming to "
    ++ (viewer ++ codes "\", \"class\": \"agent-live\"}\n")

-- The second file of a role, where the role is running.
unfoldable pub role_answer :
    Option Bytes → Bytes → Tone → (Bytes → Bytes) → Bool → Bool → Call Answer
unfolding return
role_answer env name tone text was false = return (answered tone was false empty_reply)
role_answer env name tone text was true = do
  f ← fopen_r (runtime_path env name)
  return (answered tone was true (text (first_line 256 f)))

-- `write_agent_watching`; `was` is `was_watching`.
unfoldable pub write_agent_watching : (ℕ → Bool) → Option Bytes → Bool → Call Answer
write_agent_watching exists env was = do
  f ← fopen_r (runtime_path env (codes "syn-relay.watch.pid"))
  role_answer env (codes "syn-relay.watch.host") watching_tone watching_text was (pid_runs exists f)

-- `write_agent_serving`; `was` is `was_serving`.
unfoldable pub write_agent_serving : (ℕ → Bool) → Option Bytes → Bool → Call Answer
write_agent_serving exists env was = do
  f ← fopen_r (runtime_path env (codes "syn-relay.host.pid"))
  role_answer env (codes "syn-relay.host.viewer") serving_tone live_text was (pids_run exists f)
