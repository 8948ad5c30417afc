-- ===== src/Relay/NodeState.antt =====
-- syn_node_state.c: the state of the stats client, kept in one file. No file is ABSENT, a file
-- without a host ACTIVE, and a file of four lines CONNECTED.
pub mod Laws
use syn_os.Common.{
  ℕ, Bool, true, false, not, ◌&&◌, Option, none, some, List, [], ◌∷◌, ◌++◌, Bytes, codes, get_elem?,
  ◌==◌, if◌then◌else◌,
}
use syn_os.Io.{Call, ◌>>=◌, ◌>>◌, return, remove}
use syn_os.Cstring.{fgets, trim_newline, snprintf_s}
use syn_os.Relay.Runtime.{runtime_path, fopen_w, fopen_r, print_file}

-- `syn_node_state`
pub data NodeState : Type 0 where
  absent active connected : NodeState

-- `syn_node_caps`
pub record NodeCaps : Type 0 where
  pub os : Bytes
  pub apps : Bool
  pub watch_desktop : Bool
  pub watch_window : Bool
  pub host_watched : Bool

unfoldable pub state_path : Option Bytes → Bytes
state_path env = runtime_path env (codes "syn-relay.client-state")

unfoldable pub activate : Option Bytes → Call Bool
activate env = print_file (state_path env) []

abbrev pub flag : Bool → ℕ
flag true = 49
flag false = 48

abbrev pub no_caps : NodeCaps
no_caps = record {
  os = [];
  apps = false;
  watch_desktop = false;
  watch_window = false;
  host_watched = false;
}

-- `caps ? .. : ..`
abbrev pub given : Option NodeCaps → NodeCaps
given none = no_caps
given (some caps) = caps

-- "%s\n%s\n%s\n%c%c%c%c\n"
abbrev pub caps_flags : NodeCaps → Bytes
caps_flags c = flag c.apps ∷ flag c.watch_desktop ∷ flag c.watch_window ∷ flag c.host_watched ∷ []

unfoldable pub state_text : Bytes → Bytes → NodeCaps → Bytes
state_text stats_host ssh_target c =
    stats_host ++ (10 ∷ (ssh_target ++ (10 ∷ (c.os ++ (10 ∷ (caps_flags c ++ (10 ∷ [])))))))

unfoldable pub save : Option Bytes → Bytes → Bytes → Option NodeCaps → Call Bool
save env stats_host ssh_target caps =
    print_file (state_path env) (state_text stats_host ssh_target (given caps))

-- What `syn_node_state_get_full` returns and leaves in its out parameters.
pub record Reply : Type 0 where
  pub state : NodeState
  pub host : Bytes
  pub ssh_target : Bytes
  pub caps : NodeCaps

abbrev pub without_host : NodeState → Reply
without_host s = record { state = s; host = []; ssh_target = []; caps = no_caps }

abbrev pub line_of : Bytes → Option (Bytes × Bytes) → Bytes × Bytes
line_of file none = ([], file)
line_of file (some r) = (trim_newline r.0, r.1)

-- `char line[size] = {0}; if (fgets(line, sizeof(line), f)) trim_newline(line);`, with what is left
unfoldable pub next_line : ℕ → Bytes → Bytes × Bytes
next_line size file = line_of file (fgets size file)

-- `line[i] == '1'`, in a buffer that is zero after the line
unfoldable pub is_set : Bytes → ℕ → Bool
is_set line i = elim (get_elem? line i) [ none ↦ false | some c ↦ c == 49 ]

-- `ssh_line[0] ? ssh_line : host_line`
abbrev pub or_host : Bytes → Bytes → Bytes
or_host [] host_line = host_line
or_host (c ∷ ssh_line) host_line = c ∷ ssh_line

unfoldable pub connected_reply : ℕ → ℕ → Bytes → Bytes → Bytes → Bytes → Reply
connected_reply host_size ssh_size host_line ssh_line os_line caps_line = record {
  state = connected;
  host = snprintf_s host_size host_line;
  ssh_target = snprintf_s ssh_size (or_host ssh_line host_line);
  caps = record {
    os = snprintf_s 16 os_line;
    apps = is_set caps_line 0;
    watch_desktop = is_set caps_line 1;
    watch_window = is_set caps_line 2;
    host_watched = is_set caps_line 3;
  };
}

-- The lines after that of the host.
unfoldable pub read_rest : ℕ → ℕ → Bytes → Bytes → Reply
read_rest host_size ssh_size host_line file =
    let ssh : Bytes × Bytes = next_line 256 file in
    let os : Bytes × Bytes = next_line 16 ssh.1 in
    let flags : Bytes × Bytes = next_line 16 os.1 in
    connected_reply host_size ssh_size host_line ssh.0 os.0 flags.0

-- A NULL line and an empty one both are ACTIVE.
abbrev pub read_with_host : ℕ → ℕ → Bytes → Bytes → Reply
read_with_host host_size ssh_size [] file = without_host active
read_with_host host_size ssh_size (c ∷ line) file = read_rest host_size ssh_size (c ∷ line) file

unfoldable pub read_state : ℕ → ℕ → Bytes → Reply
read_state host_size ssh_size file =
    let host : Bytes × Bytes = next_line 256 file in read_with_host host_size ssh_size host.0 host.1

abbrev pub reply_of : ℕ → ℕ → Option Bytes → Reply
reply_of host_size ssh_size none = without_host absent
reply_of host_size ssh_size (some file) = read_state host_size ssh_size file

-- The out parameters that a caller passes as NULL are those that it does not look at.
unfoldable pub get_full : Option Bytes → ℕ → ℕ → Call Reply
unfolding return
get_full env host_size ssh_size = do
  f ← fopen_r (state_path env)
  return (reply_of host_size ssh_size f)

unfoldable pub get : Option Bytes → ℕ → Call (NodeState × Bytes)
unfolding return
get env host_size = do r ← get_full env host_size 0; return (r.state, r.host)

unfoldable pub clear : Option Bytes → Call (Unit {0})
clear env = remove (state_path env)
