-- ===== src/Bar/Tests.antt =====
-- The theorems about the bar's daemon at concrete inputs.
use syn_os.Common.{
  ℕ, ◌≡◌, ◌≤◌, refl, arith, Bool, true, false, none, some, List, [], ◌∷◌, Bytes, codes, length,
  bytes_eq, if◌then◌else◌, inl, ◌==◌,
}
use syn_os.Io.{World}
use syn_os.Cstring.{decimal}
use syn_os.Hum.Save.{style_name}
use syn_os.Hum.Crew.{Member, Crew, present}
use syn_os.Hum.Crew.Valid.{Sound}
use syn_os.Hum.Line.{Steps, hum_line}
use syn_os.Relay.NodeState.{get, absent}
use syn_os.Bar.Hum.{read_line_of}
use syn_os.Bar.Hum.Values.{heard_all}
use syn_os.Bar.Hum.Sent.{Good}
use syn_os.Bar.Hum.RoundTrip.{heard, hum_line-heard}
use syn_os.Bar.Heard.{empty_ring, heard_add, heard_adds, heard_reply, visited, reply_lines}
use syn_os.Bar.Heard.Refines.{newest, lines_text, heard-refines}
use syn_os.Bar.Titles.{
  Bar, start, handle_closed, manager_toplevel, handle_state, Reach, started, stepped, opened,
  stated,
}
use syn_os.Bar.Titles.Live.{closed_safe}
use syn_os.Bar.Titles.{broadcast_title, sweep, move_last}
use syn_os.Bar.Relay.{Cache, relay_node_state_get}
use syn_os.Bar.Relay.Tones.{Tick, tones, in_turn, tones-in_turn}
use syn_os.Bar.Relay.Agrees.{bar-agrees}

abbrev busy : Steps
busy = record {
  cores = 3 ∷ 15 ∷ [];
  stall = 0;
  net = 10;
  disk = 2;
  error = true;
  inbound = false;
  spawn = 7;
  sched = 5;
  cpu_wait = 1;
  io_wait = 0;
}

abbrev otter : Member
otter = record { id = codes "otter"; state = 119; priority = 4 }

abbrev one_otter : Crew
one_otter = record { count = 1; talk = true; slots = otter ∷ []; seen = (7, 0) }

Sound-otter : Sound otter
Sound-otter = record {
  id = refl;
  fits = omega arith;
  plain = (refl, (refl, (refl, (refl, (refl, tt)))));
  letter = inl refl;
  priority = omega arith;
}

Good-busy : Good busy (codes "1.00") one_otter
Good-busy = record {
  steps = record {
    count = omega arith;
    cores = (omega arith, (omega arith, tt));
    stall = omega arith;
    net = omega arith;
    disk = omega arith;
    spawn = omega arith;
    sched = omega arith;
    cpu_wait = omega arith;
    io_wait = omega arith;
  };
  crew = record {
    valid = record { count = omega arith; sound = (Sound-otter, tt) };
    plain = (
      (
        (omega arith, omega arith),
        (
          (omega arith, omega arith),
          (
            (omega arith, omega arith),
            ((omega arith, omega arith), ((omega arith, omega arith), tt)),
          ),
        ),
      ),
      tt,
    );
  };
  short = omega arith;
}

abbrev as_text : Bytes → Bytes
as_text b = b

hum_line-heard_example :
    (line : Bytes) × (hum_line busy (style_name 5) (codes "1.00") one_otter ≡ some line)
    × (read_line_of Bytes as_text some line
        ≡ heard Bytes as_text some
            (some 5)
            (codes "1.00")
            0
            10
            2
            true
            false
            7
            5
            1
            0
            (3 ∷ 15 ∷ [])
            true
            (heard_all (otter ∷ [])))
unfolding present
hum_line-heard_example =
    hum_line-heard Bytes as_text some busy 5 (codes "1.00") one_otter (omega arith)
      (refl, (refl, (refl, (refl, tt)))) Good-busy

abbrev played : List (Bytes × Bytes)
played =
    (codes "12:00:01", codes "ping")
    ∷ (codes "12:00:02", codes "ping")
    ∷ (codes "12:00:09", codes "bell")
    ∷ []

heard-refines_example : heard_reply (heard_adds empty_ring played) ≡ lines_text (newest [] played)
heard-refines_example = heard-refines played (omega arith, (omega arith, (omega arith, tt)))

played_run :
    heard_reply (heard_adds empty_ring played) ≡ codes "12:00:09 bell\n12:00:02 ping (x2)\n"
unfolding heard_reply heard_adds heard_add visited reply_lines bytes_eq decimal
played_run = refl

abbrev opened_bar : Bar
opened_bar = manager_toplevel 64 1 start

abbrev active_bar : Bar
active_bar = handle_state 1 true opened_bar

all_take : ℕ → Bool
all_take fd = true

active_reached : Reach active_bar
active_reached = stepped (stepped started (opened 64 1 start)) (stated 1 true opened_bar)

closed_safe_example :
    (c : Bar) × (handle_closed all_take 1 active_bar ≡ some c)
    × (length active_bar.watchers ≤ 8)
    × (length c.watchers ≤ 8)
closed_safe_example = closed_safe active_bar all_take 1 active_reached

abbrev odd : ℕ → Bool
odd fd = if fd == 4 then false else true

broadcast_run : broadcast_title odd (4 ∷ 5 ∷ 6 ∷ []) ≡ 6 ∷ 5 ∷ []
unfolding broadcast_title sweep move_last
broadcast_run = refl

abbrev linked : World
linked = record {
  files = λ path.
      if bytes_eq path (codes "/tmp/syn-relay.client-state") then some (codes "node\n") else none;
  faults = [];
  entropy = λ i. 0;
}

abbrev down : Cache
down = record { state = absent; was_up = false; host = []; reachable = false; hostname = [] }

abbrev two_ticks : List Tick
two_ticks =
    record { world = linked; fetch = λ host. some (codes "{}") }
    ∷ record { world = linked; fetch = λ host. none }
    ∷ record { world = linked; fetch = λ host. none }
    ∷ []

tones-in_turn_example : in_turn false (tones none down two_ticks) ≡ true
tones-in_turn_example = tones-in_turn none two_ticks down

bar-agrees_example : relay_node_state_get none 256 linked ≡ get none 256 linked
bar-agrees_example = bar-agrees none 256 linked
