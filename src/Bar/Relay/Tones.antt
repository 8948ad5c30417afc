-- ===== src/Bar/Relay/Tones.antt =====
-- The tones for the remote machine come in turn.
use syn_os.Common.{
  ◌≡◌, refl, ◌∙◌, ap, Bool, true, false, not, Option, none, some, List, [], ◌∷◌, ◌++◌, Bytes, codes,
}
use syn_os.Io.{World, Outcome, done, fail, return, try, recover, open_read, ◌>>=◌}
use syn_os.Relay.Runtime.{fopen_r, runtime_path}
use syn_os.Relay.NodeState.{NodeState, absent, active, connected}
use syn_os.Bar.Relay.{
  Tone, connect_tone, disconnect_tone, fail_tone, Cache, tone_if, fetched, refreshed, refresh_relay,
  state_in, relay_node_state_get, seen,
}

-- One tick of the daemon's timer: the world that it finds, and what the remote machine answers.
pub record Tick : Type 0 where
  pub world : World
  pub fetch : Bytes → Option Bytes

abbrev pub result : Cache → Outcome (Cache × Option Tone) → Cache × Option Tone
result c (done r) = r
result c (fail s) = (c, none)

abbrev pub optional : Option Tone → List Tone
optional none = []
optional (some t) = t ∷ []

-- The tones of a run, each tick a `refresh_relay`.
unfoldable pub tones : Option Bytes → Cache → List Tick → List Tone
tones env c [] = []
tones env c (t ∷ ticks) =
    let r : Cache × Option Tone = result c (refresh_relay t.fetch env c t.world).0 in
    optional r.1 ++ tones env r.0 ticks

-- A tone for coming up, when down, and one for going down, when up.
unfoldable pub in_turn : Bool → List Tone → Bool
in_turn up [] = true
in_turn false (connect_tone ∷ ts) = in_turn true ts
in_turn true (disconnect_tone ∷ ts) = in_turn false ts
in_turn true (fail_tone ∷ ts) = in_turn false ts
in_turn up (t ∷ ts) = false

refresh-done :
    (fetch : Bytes → Option Bytes) (env : Option Bytes) (c : Cache) (w : World)
    → (s : NodeState × Bytes) × ((refresh_relay fetch env c w).0
        ≡ done (refreshed fetch (seen c s) s.0))
unfolding refresh_relay relay_node_state_get fopen_r try return ◌>>=◌
refresh-done fetch env c w = (
  state_in 256 (recover (open_read (runtime_path env (codes "syn-relay.client-state")) w).0),
  refl,
)

down-in_turn :
    (t : Tone) (up : Bool) (rest : List Tone)
    → in_turn true (t ∷ rest) ≡ in_turn false rest
    → in_turn false rest ≡ true
    → in_turn up (optional (tone_if up t) ++ rest) ≡ true
down-in_turn t true rest e h = e ∙ h
down-in_turn t false rest e h = h

-- What follows the tones of one tick.
tick-in_turn :
    (fetch : Bytes → Option Bytes) (c : Cache) (s : NodeState) (rest : List Tone)
    → in_turn (refreshed fetch c s).0.was_up rest ≡ true
    → in_turn c.was_up (optional (refreshed fetch c s).1 ++ rest) ≡ true
unfolding in_turn
tick-in_turn fetch c absent rest h = down-in_turn disconnect_tone c.was_up rest refl h
tick-in_turn fetch c active rest h = down-in_turn disconnect_tone c.was_up rest refl h
tick-in_turn fetch c connected rest h = reply (fetch c.host) h
  where
    heard :
        (up : Bool)
        → in_turn true rest ≡ true
        → in_turn up (optional (tone_if (not up) connect_tone) ++ rest) ≡ true
    heard true h = h
    heard false h = h

    reply :
        (o : Option Bytes)
        → in_turn (fetched c o).0.was_up rest ≡ true
        → in_turn c.was_up (optional (fetched c o).1 ++ rest) ≡ true
    reply none h = down-in_turn fail_tone c.was_up rest refl h
    reply (some r) h = heard c.was_up h

-- In every run of ticks, whatever the files hold, whatever calls fail and whatever the remote machine
-- answers, the tones come in turn: the one for a connection only after the start or after one for
-- its end, and one for its end only after that, so one for each outage and not one for each tick.
pub tones-in_turn :
    (env : Option Bytes) (ticks : List Tick) (c : Cache)
    → in_turn c.was_up (tones env c ticks) ≡ true
unfolding tones in_turn
tones-in_turn env [] c = refl
tones-in_turn env (t ∷ ticks) c =
    let r : (s : NodeState × Bytes) × ((refresh_relay t.fetch env c t.world).0
          ≡ done (refreshed t.fetch (seen c s) s.0)) =
      refresh-done t.fetch env c t.world in
    let after : Cache × Option Tone = refreshed t.fetch (seen c r.0) r.0.0 in
    ap (λ o. in_turn c.was_up (optional (result c o).1 ++ tones env (result c o).0 ticks)) r.1
    ∙ tick-in_turn t.fetch (seen c r.0) r.0.0 (tones env after.0 ticks)
        (tones-in_turn env ticks after.0)
