-- ===== src/Bar/Relay/Agrees.antt =====
-- The bar and syn-relay read the same from the state file.
use syn_os.Common.{ℕ, ◌≡◌, refl, ap, Option, none, some, [], ◌∷◌, Bytes, codes}
use syn_os.Io.{World, done, return, try, ◌>>=◌, recover, open_read}
use syn_os.Cstring.{fgets, trim_newline}
use syn_os.Relay.Runtime.{fopen_r, runtime_path}
use syn_os.Relay.NodeState.{
  NodeState, Reply, line_of, next_line, reply_of, read_state, read_rest, read_with_host,
  connected_reply, state_path, get_full, get,
}
use syn_os.Bar.Relay.{named_host, host_line, state_in, relay_node_state_get}

abbrev two : Reply → NodeState × Bytes
two r = (r.state, r.host)

named-agrees :
    (size : ℕ) (line file : Bytes) → named_host size line ≡ two (read_with_host size 0 line file)
unfolding read_rest connected_reply
named-agrees size [] file = refl
named-agrees size (c ∷ line) file = refl

file-agrees : (size : ℕ) (file : Option Bytes) → state_in size file ≡ two (reply_of size 0 file)
unfolding read_state next_line
file-agrees size none = refl
file-agrees size (some file) = at (fgets 256 file)
  where
    at :
        (o : Option (Bytes × Bytes))
        → host_line size o ≡ two (read_with_host size 0 (line_of file o).0 (line_of file o).1)
    at none = refl
    at (some r) = named-agrees size (trim_newline r.0) r.1

-- In every world the bar reads the state and the host that syn-relay reads itself, and leaves the
-- same world behind.
pub bar-agrees :
    (env : Option Bytes) (size : ℕ) (w : World) → relay_node_state_get env size w ≡ get env size w
unfolding relay_node_state_get get get_full state_path return ◌>>=◌ fopen_r try
bar-agrees env size w =
    ap (λ s. (done s, (open_read (runtime_path env (codes "syn-relay.client-state")) w).1))
      (file-agrees size
        (recover (open_read (runtime_path env (codes "syn-relay.client-state")) w).0))
