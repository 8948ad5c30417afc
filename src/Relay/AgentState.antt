-- ===== src/Relay/AgentState.antt =====
-- syn_agent_state.c: what the two screen sharing roles are doing, each in a file of process ids and
-- a file with the address of the peer.
pub mod Laws
pub mod RoundTrip
pub mod Apart
use syn_os.Common.{
  ℕ, ◌-◌, ◌%◌, ◌^◌, Bool, true, false, ◌&&◌, Option, none, some, [], ◌∷◌, ◌++◌, Bytes, codes, ltb,
  if◌then◌else◌,
}
use syn_os.Io.{Call, ◌>>=◌, ◌>>◌, return, remove}
use syn_os.Cstring.{fgets, trim_newline, decimal, scan_long, Long, plus, minus}
use syn_os.Relay.Runtime.{runtime_path, fopen_r, print_file}

-- `(pid_t)val`, as the 32 bits of the result
unfoldable pub to_pid : Long → ℕ
to_pid (plus n) = n % 2 ^ 32
to_pid (minus n) = (2 ^ 64 - n) % 2 ^ 32

-- `pid > 0 && kill(pid, 0) == 0`
abbrev pub pid_alive : (ℕ → Bool) → ℕ → Bool
pid_alive exists pid = ltb 0 pid && ltb pid (2 ^ 31) && exists pid

-- "%d\n" of a process id
abbrev pub pid_line : ℕ → Bytes
pid_line pid = decimal 10 pid ++ (10 ∷ [])

-- `f = fopen(path, "w"); if (!f) { remove(other); return false; } ..` after `other` is written
unfoldable pub save_second : Bytes → Bytes → Bytes → Call Bool
unfolding return
save_second other path text = do
  saved ← print_file path text
  if saved then return true else (do remove other; return false)

unfoldable pub save_pair : Bytes → Bytes → Bytes → Bytes → Call Bool
unfolding return
save_pair pid_path pid_text host_path host_text = do
  saved ← print_file pid_path pid_text
  if saved then save_second pid_path host_path host_text else return false

-- `if (fgets(out, size, f)) strip_eol(out)` on a buffer that holds the empty string
abbrev pub stripped : Option (Bytes × Bytes) → Bytes
stripped none = []
stripped (some r) = trim_newline r.0

abbrev pub first_line : ℕ → Option Bytes → Bytes
first_line size none = []
first_line size (some file) = stripped (fgets size file)

-- The watch role.
unfoldable pub watch_pid_path : Option Bytes → Bytes
watch_pid_path env = runtime_path env (codes "syn-relay.watch.pid")

unfoldable pub watch_host_path : Option Bytes → Bytes
watch_host_path env = runtime_path env (codes "syn-relay.watch.host")

unfoldable pub watch_save : Option Bytes → ℕ → Bytes → Call Bool
watch_save env view_pid remote_ip =
    save_pair (watch_pid_path env) (pid_line view_pid) (watch_host_path env)
      (remote_ip ++ (10 ∷ []))

abbrev pub pid_of : (ℕ → Bool) → Option (Long × Bytes) → Option ℕ
pid_of exists none = none
pid_of exists (some r) = if pid_alive exists (to_pid r.0) then some (to_pid r.0) else none

-- "%ld" and the test for a live process
unfoldable pub read_pid : (ℕ → Bool) → Option Bytes → Option ℕ
read_pid exists none = none
read_pid exists (some file) = pid_of exists (scan_long file)

unfoldable pub watch_found : Option Bytes → ℕ → Option ℕ → Call (ℕ × Bytes)
unfolding return
watch_found env host_size none = return (0, [])
watch_found env host_size (some pid) = do
  f ← fopen_r (watch_host_path env)
  return (pid, first_line host_size f)

-- The process id, 0 where no watch is running, and the host. `exists` is `kill(pid, 0) == 0`.
unfoldable pub watch_get : (ℕ → Bool) → Option Bytes → ℕ → Call (ℕ × Bytes)
watch_get exists env host_size = do
  f ← fopen_r (watch_pid_path env)
  watch_found env host_size (read_pid exists f)

unfoldable pub watch_clear : Option Bytes → Call (Unit {0})
watch_clear env = do remove (watch_pid_path env); remove (watch_host_path env)

-- The host role.
unfoldable pub host_pid_path : Option Bytes → Bytes
host_pid_path env = runtime_path env (codes "syn-relay.host.pid")

unfoldable pub host_viewer_path : Option Bytes → Bytes
host_viewer_path env = runtime_path env (codes "syn-relay.host.viewer")

unfoldable pub host_save : Option Bytes → ℕ → ℕ → Bytes → Call Bool
host_save env video_pid input_pid viewer_ip =
    save_pair (host_pid_path env) (pid_line video_pid ++ pid_line input_pid) (host_viewer_path env)
      (viewer_ip ++ (10 ∷ []))

abbrev pub pair_of : Option ℕ → Option ℕ → Option (ℕ × ℕ)
pair_of (some video) (some input) = some (video, input)
pair_of _ _ = none

abbrev pub pids_of : (ℕ → Bool) → Option (Long × Bytes) → Option (ℕ × ℕ)
pids_of exists none = none
pids_of exists (some r) = pair_of (pid_of exists (some r)) (pid_of exists (scan_long r.1))

-- "%ld %ld" and the test for two live processes
unfoldable pub read_pids : (ℕ → Bool) → Option Bytes → Option (ℕ × ℕ)
read_pids exists none = none
read_pids exists (some file) = pids_of exists (scan_long file)

unfoldable pub host_found : Option Bytes → ℕ → Option (ℕ × ℕ) → Call (Option (ℕ × ℕ × Bytes))
unfolding return
host_found env viewer_size none = return none
host_found env viewer_size (some pids) = do
  f ← fopen_r (host_viewer_path env)
  return (some (pids.0, pids.1, first_line viewer_size f))

-- The process ids and the viewer, `none` where the function returns false.
unfoldable pub host_get : (ℕ → Bool) → Option Bytes → ℕ → Call (Option (ℕ × ℕ × Bytes))
host_get exists env viewer_size = do
  f ← fopen_r (host_pid_path env)
  host_found env viewer_size (read_pids exists f)

unfoldable pub host_clear : Option Bytes → Call (Unit {0})
host_clear env = do remove (host_pid_path env); remove (host_viewer_path env)
