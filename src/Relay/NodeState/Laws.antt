-- ===== src/Relay/NodeState/Laws.antt =====
-- The state file of the stats client is read back as it was written.
use syn_os.Common.{
  ℕ, ◌+◌, ◌-◌, ◌<◌, ◌≡◌, ◌≢◌, refl, ◌∙◌, ap, arith, Bool, Option, none, some, [], ◌∷◌, ◌++◌, Bytes,
  length, take_all,
}
use syn_os.Io.{Files, ◌>>=◌, done, update}
use syn_os.Io.Clean.{clean, bind-done, update_self, clean-remove}
use syn_os.Cstring.{snprintf_s, fgets}
use syn_os.Cstring.Lines.{Line, fgets_printed, trim_printed}
use syn_os.Relay.Runtime.Laws.{clean-print_file, clean-fopen_r}
use syn_os.Relay.NodeState.{
  absent, active, connected, NodeCaps, no_caps, line_of, read_with_host, caps_flags, flag,
  state_path, state_text, activate, save, Reply, next_line, is_set, or_host, connected_reply,
  read_rest, read_state, reply_of, get_full, get, clear, without_host,
}

pub next_line_printed :
    (size : ℕ) (s rest : Bytes)
    → Line s
    → length s + 1 < size
    → next_line size (s ++ (10 ∷ rest)) ≡ (s, rest)
unfolding next_line
next_line_printed size s rest line fits =
    ap (line_of (s ++ (10 ∷ rest))) (fgets_printed size s rest line fits)
    ∙ ap (λ t. (t, rest)) (trim_printed s line)

Line-flags : (c : NodeCaps) → Line (caps_flags c)
unfolding Line
Line-flags c = (off c.apps, (off c.watch_desktop, (off c.watch_window, (off c.host_watched, tt))))
  where
    off : (b : Bool) → (flag b ≢ 0) × (flag b ≢ 10) × (flag b ≢ 13)
    off b = ground arith

snprintf_fits : (size : ℕ) (s : Bytes) → length s < size → snprintf_s size s ≡ s
snprintf_fits size s h = take_all (size - 1) s (omega arith)

-- The strings that fit on their lines and in the buffers of the reader.
pub record Storable (host_size ssh_size : ℕ) (host ssh : Bytes) (caps : NodeCaps) : Type 0 where
  pub host-line : Line host
  pub host-ne : host ≢ []
  pub host-fits : length host < 255
  pub host-copied : length host < host_size
  pub ssh-line : Line ssh
  pub ssh-fits : length ssh < 255
  pub ssh-copied : length (or_host ssh host) < ssh_size
  pub os-line : Line caps.os
  pub os-fits : length caps.os < 15

abbrev pub stored : Bytes → Bytes → NodeCaps → Reply
stored host ssh c = record {
  state = connected;
  host = host;
  ssh_target = or_host ssh host;
  caps = c;
}

is_set-flags :
    (c : NodeCaps)
    → (is_set (caps_flags c) 0 ≡ c.apps)
      × (is_set (caps_flags c) 1 ≡ c.watch_desktop)
      × (is_set (caps_flags c) 2 ≡ c.watch_window)
      × (is_set (caps_flags c) 3 ≡ c.host_watched)
unfolding is_set
is_set-flags c = ground arith

connected-stored :
    (hs ss : ℕ) (host ssh : Bytes) (c : NodeCaps)
    → Storable hs ss host ssh c
    → connected_reply hs ss host ssh c.os (caps_flags c) ≡ stored host ssh c
unfolding connected_reply
connected-stored hs ss host ssh c s =
    rw
      (
        snprintf_fits hs host s.host-copied,
        snprintf_fits ss (or_host ssh host) s.ssh-copied,
        snprintf_fits 16 c.os (omega (arith, s.os-fits)),
        (is_set-flags c).0,
        (is_set-flags c).1,
        (is_set-flags c).2,
        (is_set-flags c).3,
      )
      refl

read_rest-stored :
    (hs ss : ℕ) (host ssh : Bytes) (c : NodeCaps)
    → Storable hs ss host ssh c
    → read_rest hs ss host (ssh ++ (10 ∷ (c.os ++ (10 ∷ (caps_flags c ++ (10 ∷ []))))))
      ≡ stored host ssh c
unfolding read_rest
read_rest-stored hs ss host ssh c s =
    rw
      (
        next_line_printed 256 ssh (c.os ++ (10 ∷ (caps_flags c ++ (10 ∷ [])))) s.ssh-line
            (omega (arith, s.ssh-fits)),
        next_line_printed 16 c.os (caps_flags c ++ (10 ∷ [])) s.os-line (omega (arith, s.os-fits)),
        next_line_printed 16 (caps_flags c) [] (Line-flags c) (omega arith),
      )
      (connected-stored hs ss host ssh c s)

read_state-stored :
    (hs ss : ℕ) (host ssh : Bytes) (c : NodeCaps)
    → Storable hs ss host ssh c
    → read_state hs ss (state_text host ssh c) ≡ stored host ssh c
unfolding read_state state_text
read_state-stored hs ss [] ssh c s = absurd (s.host-ne refl)
read_state-stored hs ss (h ∷ host) ssh c s =
    ap (λ r. read_with_host hs ss r.0 r.1)
      (next_line_printed 256 (h ∷ host) _ s.host-line (omega (arith, s.host-fits)))
    ∙ read_rest-stored hs ss (h ∷ host) ssh c s

-- Saving a connection makes it the state, with every string and flag as it was given.
pub node_round_trip :
    (fs : Files) (en : ℕ → ℕ) (env : Option Bytes) (hs ss : ℕ) (host ssh : Bytes) (c : NodeCaps)
    → Storable hs ss host ssh c
    → (save env host ssh (some c) >>= λ ok. get_full env hs ss) (clean fs en) ≡ (
      done (stored host ssh c),
      clean (update fs (state_path env) (some (state_text host ssh c))) en,
    )
unfolding save get_full
node_round_trip fs en env hs ss host ssh c s =
    let path : Bytes = state_path env in
    let text : Bytes = state_text host ssh c in
    bind-done _ _ (clean-print_file fs en path text)
    ∙ bind-done _ _ (clean-fopen_r (update fs path (some text)) en path)
    ∙ ap (λ r. (done r, clean (update fs path (some text)) en))
        (ap (reply_of hs ss) (update_self fs path (some text))
          ∙ read_state-stored hs ss host ssh c s)

read_state-empty : (n : ℕ) → read_state n 0 [] ≡ without_host active
unfolding read_state next_line fgets
read_state-empty n = refl

-- Activating makes the state ACTIVE and clearing makes it ABSENT, whatever it was before.
pub node_lifecycle :
    (fs : Files) (en : ℕ → ℕ) (env : Option Bytes) (size : ℕ)
    → ((activate env >>= λ ok. get env size) (clean fs en)
        ≡ (done (active, []), clean (update fs (state_path env) (some [])) en))
      × ((clear env >>= λ ok. get env size) (clean fs en)
          ≡ (done (absent, []), clean (update fs (state_path env) none) en))
unfolding activate clear get get_full
node_lifecycle fs en env size =
    let path : Bytes = state_path env in
    (
      bind-done _ _ (clean-print_file fs en path [])
          ∙ bind-done _ _ (bind-done _ _ (clean-fopen_r (update fs path (some [])) en path))
          ∙ ap (λ r. (done (r.state, r.host), clean (update fs path (some [])) en))
              (ap (reply_of size 0) (update_self fs path (some [])) ∙ read_state-empty size),
      bind-done _ _ (clean-remove fs en path)
          ∙ bind-done _ _ (bind-done _ _ (clean-fopen_r (update fs path none) en path))
          ∙ ap (λ r. (done (r.state, r.host), clean (update fs path none) en))
              (ap (reply_of size 0) (update_self fs path none)),
    )

read_rest-empty :
    (hs ss : ℕ) (host : Bytes)
    → Storable hs ss host [] no_caps
    → read_rest hs ss host [] ≡ stored host [] no_caps
unfolding read_rest next_line fgets connected_reply is_set
read_rest-empty hs ss host s =
    rw (snprintf_fits hs host s.host-copied, snprintf_fits ss host s.ssh-copied) refl

-- A file with one line and nothing else is CONNECTED to the host on it, which is also the SSH
-- target, with no capabilities.
pub node_single_line :
    (hs ss : ℕ) (host : Bytes)
    → Storable hs ss host [] no_caps
    → read_state hs ss (host ++ (10 ∷ [])) ≡ stored host [] no_caps
unfolding read_state
node_single_line hs ss [] s = absurd (s.host-ne refl)
node_single_line hs ss (h ∷ host) s =
    ap (λ r. read_with_host hs ss r.0 r.1)
      (next_line_printed 256 (h ∷ host) [] s.host-line (omega (arith, s.host-fits)))
    ∙ read_rest-empty hs ss (h ∷ host) s
