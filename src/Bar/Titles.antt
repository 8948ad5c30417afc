-- ===== src/Bar/Titles.antt =====
-- main.c of syn-bar-core: the windows that the compositor tells of, the title of the active one, and
-- the clients that watch it. A pointer to a `struct toplevel` is its address, and `none` as a result
-- says that freed memory would be read.
pub mod Live
pub mod Watchers
use syn_os.Common.{
  ℕ, zero, suc, ◌+◌, Bool, true, false, ◌&&◌, ◌≡◌, Option, none, some, List, [], ◌∷◌, ◌++◌, Bytes,
  length, bytes_eq, leb, ◌==◌, if◌then◌else◌,
}

pub record Toplevel : Type 0 where
  pub addr : ℕ
  pub handle : ℕ
  pub title : Bytes
  pub activated : Bool

-- The static variables; `current` is `current_title`, and `watchers` the descriptors.
pub record Bar : Type 0 where
  pub toplevels : List Toplevel
  pub active : Option ℕ
  pub current : Option Bytes
  pub watchers : List ℕ

-- `toplevel_find`
unfoldable pub toplevel_find : ℕ → List Toplevel → Option Toplevel
toplevel_find handle [] = none
toplevel_find handle (t ∷ ts) =
    let later : Option Toplevel = toplevel_find handle ts in
    if t.handle == handle then some t else later

-- `toplevel_remove`
unfoldable pub toplevel_remove : ℕ → List Toplevel → List Toplevel
toplevel_remove handle [] = []
toplevel_remove handle (t ∷ ts) =
    let later : List Toplevel = toplevel_remove handle ts in
    if t.handle == handle then ts else t ∷ later

-- The structure at an address, `none` where there is none any more.
unfoldable pub at_addr : ℕ → List Toplevel → Option Toplevel
at_addr addr [] = none
at_addr addr (t ∷ ts) =
    let later : Option Toplevel = at_addr addr ts in if t.addr == addr then some t else later

-- A change of the structure at an address.
unfoldable pub change : ℕ → (Toplevel → Toplevel) → List Toplevel → List Toplevel
change addr f [] = []
change addr f (t ∷ ts) =
    let later : List Toplevel = change addr f ts in if t.addr == addr then f t ∷ ts else t ∷ later

abbrev pub behind_first : ℕ → List ℕ → List ℕ
behind_first fd [] = fd ∷ []
behind_first fd (last ∷ fds) = last ∷ fd ∷ fds

-- The last one in front, as `fds[w] = fds[--count]` leaves what follows.
unfoldable pub move_last : List ℕ → List ℕ
move_last [] = []
move_last (fd ∷ []) = fd ∷ []
move_last (fd ∷ next ∷ fds) = behind_first fd (move_last (next ∷ fds))

-- The loop of `broadcast_title` over the descriptors from `w` on; `takes fd` is that the write of
-- the whole line succeeds. Each turn leaves one descriptor less to look at.
unfoldable pub sweep : (ℕ → Bool) → ℕ → List ℕ → List ℕ
sweep takes zero fds = fds
sweep takes (suc fuel) [] = []
sweep takes (suc fuel) (fd ∷ fds) =
    let kept : List ℕ = sweep takes fuel (if takes fd then fds else move_last fds) in
    if takes fd then fd ∷ kept else kept

unfoldable pub broadcast_title : (ℕ → Bool) → List ℕ → List ℕ
broadcast_title takes fds = sweep takes (length fds) fds

abbrev pub same_title : Option Bytes → Bytes → Bool
same_title none title = false
same_title (some current) title = bytes_eq current title

-- `set_current_title`
unfoldable pub set_current_title : (ℕ → Bool) → Bytes → Bar → Bar
set_current_title takes title b =
    if same_title b.current title
    then b
    else record b { current = some title; watchers = broadcast_title takes b.watchers }

-- `manager_toplevel`, with the address that `calloc` gives
unfoldable pub manager_toplevel : ℕ → ℕ → Bar → Bar
manager_toplevel addr handle b = record b {
  toplevels =
      (record { addr = addr; handle = handle; title = []; activated = false }) ∷ b.toplevels;
}

abbrev pub new_title : Bytes → Toplevel → Toplevel
new_title title t = record t { title = title }

abbrev pub set_title : Bytes → Bar → Option Toplevel → Bar
set_title title b none = b
set_title title b (some t) = record b { toplevels = change t.addr (new_title title) b.toplevels }

unfoldable pub handle_title : ℕ → Bytes → Bar → Bar
handle_title handle title b = set_title title b (toplevel_find handle b.toplevels)

abbrev pub new_state : Bool → Toplevel → Toplevel
new_state activated t = record t { activated = activated }

abbrev pub set_state : Bool → Bar → Option Toplevel → Bar
set_state activated b none = b
set_state activated b (some t) = record b {
  toplevels = change t.addr (new_state activated) b.toplevels;
  active = if activated then some t.addr else b.active;
}

-- `activated` says that the state ACTIVATED is in the array.
unfoldable pub handle_state : ℕ → Bool → Bar → Bar
handle_state handle activated b = set_state activated b (toplevel_find handle b.toplevels)

abbrev pub is_active : Option ℕ → Toplevel → Bool
is_active none t = false
is_active (some addr) t = t.addr == addr

abbrev pub show_done : (ℕ → Bool) → Bar → Option Toplevel → Bar
show_done takes b none = b
show_done takes b (some t) = if is_active b.active t then set_current_title takes t.title b else b

unfoldable pub handle_done : (ℕ → Bool) → ℕ → Bar → Bar
handle_done takes handle b = show_done takes b (toplevel_find handle b.toplevels)

abbrev pub closed_if : (ℕ → Bool) → ℕ → Bar → Bool → Bar
closed_if takes handle b was_active =
    let c : Bar = record b { toplevels = toplevel_remove handle b.toplevels } in
    if was_active then set_current_title takes [] (record c { active = none }) else c

abbrev pub close_read : (ℕ → Bool) → ℕ → Bar → Option Toplevel → Option Bar
close_read takes handle b none = none
close_read takes handle b (some t) = some (closed_if takes handle b (t.handle == handle))

abbrev pub close_active : (ℕ → Bool) → ℕ → Bar → Option ℕ → Option Bar
close_active takes handle b none = some (closed_if takes handle b false)
close_active takes handle b (some addr) = close_read takes handle b (at_addr addr b.toplevels)

-- `handle_closed`, which reads `active->handle`
unfoldable pub handle_closed : (ℕ → Bool) → ℕ → Bar → Option Bar
handle_closed takes handle b = close_active takes handle b b.active

-- The request WATCH-WINDOW-TITLE of the client at `fd`, of `handle_one_client`.
unfoldable pub watch_title : (ℕ → Bool) → ℕ → Bar → Bar
watch_title takes fd b =
    if leb 8 (length b.watchers)
    then b
    else if takes fd
    then record b { watchers = b.watchers ++ (fd ∷ []) }
    else b

abbrev pub start : Bar
start = record { toplevels = []; active = none; current = none; watchers = [] }

-- One event of the daemon's loop.
pub data Step : Bar → Bar → Type 0 where
  opened : (addr handle : ℕ) (b : Bar) → Step b (manager_toplevel addr handle b)
  titled : (handle : ℕ) (title : Bytes) (b : Bar) → Step b (handle_title handle title b)
  stated : (handle : ℕ) (activated : Bool) (b : Bar) → Step b (handle_state handle activated b)
  done : (takes : ℕ → Bool) (handle : ℕ) (b : Bar) → Step b (handle_done takes handle b)
  closed :
      (takes : ℕ → Bool) (handle : ℕ) (b c : Bar) → handle_closed takes handle b ≡ some c → Step b c
  watched : (takes : ℕ → Bool) (fd : ℕ) (b : Bar) → Step b (watch_title takes fd b)

pub data Reach : Bar → Type 0 where
  started : Reach start
  stepped : {b c : Bar} → Reach b → Step b c → Reach c
