-- ===== src/Bar/Heard.antt =====
-- syn_bar_hum.c: the last sounds that were played, which the bar's tooltip lists. A sound that is
-- played again at once is counted in its line; the count is an `int`, taken not to overflow.
pub mod Steps
pub mod Refines
use syn_os.Common.{
  ℕ, zero, suc, ◌+◌, ◌-◌, ◌%◌, Bool, true, false, ◌&&◌, List, [], ◌∷◌, ◌++◌, Bytes, codes, length,
  bytes_eq, ltb, ◌==◌, if◌then◌else◌,
}
use syn_os.Cstring.{snprintf_s, decimal}

pub record Entry : Type 0 where
  pub when : Bytes
  pub what : Bytes
  pub times : ℕ

-- The arrays `heard_when`, `heard_what` and `heard_times` of HEARD_MAX entries, with `heard_next` and
-- `heard_count`.
pub record Ring : Type 0 where
  pub slots : ℕ → Entry
  pub next : ℕ
  pub count : ℕ

abbrev pub set_slot : (ℕ → Entry) → ℕ → Entry → ℕ → Entry
set_slot slots i e j = if j == i then e else slots j

abbrev pub again : Ring → ℕ → Bytes → Ring
again r last when =
    let e : Entry = r.slots last in
    record r { slots = set_slot r.slots last (record e { when = when; times = e.times + 1 }) }

abbrev pub another : Ring → Bytes → Bytes → Ring
another r when what = record {
  slots = set_slot r.slots r.next (record { when = when; what = snprintf_s 80 what; times = 1 });
  next = (r.next + 1) % 8;
  count = if ltb r.count 8 then r.count + 1 else r.count;
}

-- `heard_add`, at the time `when`
unfoldable pub heard_add : Ring → Bytes → Bytes → Ring
heard_add r when what =
    let last : ℕ = (r.next + 7) % 8 in
    if ltb 0 r.count && bytes_eq (r.slots last).what what
    then again r last when
    else another r when what

-- The entries that the loop of `syn_bar_hum_heard` visits, from `i` on.
unfoldable pub visited : Ring → ℕ → ℕ → List Entry
visited r i zero = []
visited r i (suc n) = r.slots ((r.next + 7 - i) % 8) ∷ visited r (suc i) n

abbrev pub times_text : ℕ → Bytes
times_text times = if ltb 1 times then codes " (x" ++ (decimal 10 times ++ codes ")") else []

abbrev pub entry_line : Entry → Bytes
entry_line e = e.when ++ (32 ∷ (e.what ++ (times_text e.times ++ (10 ∷ []))))

-- `n = snprintf(reply + len, size - len, ..); if (n >= size - len) break; len += n;`
unfoldable pub reply_lines : ℕ → List Entry → Bytes
reply_lines room [] = []
reply_lines room (e ∷ es) =
    let more : Bytes = reply_lines (room - length (entry_line e)) es in
    if ltb (length (entry_line e)) room then entry_line e ++ more else []

-- `syn_bar_hum_heard`: what is written to the socket
unfoldable pub heard_reply : Ring → Bytes
heard_reply r = reply_lines 960 (visited r 0 r.count)

-- The arrays at the start.
abbrev pub empty_ring : Ring
empty_ring = record { slots = λ i. record { when = []; what = []; times = 0 }; next = 0; count = 0 }

-- The sounds of a run of the daemon, each with its time.
unfoldable pub heard_adds : Ring → List (Bytes × Bytes) → Ring
heard_adds r [] = r
heard_adds r (s ∷ sounds) = heard_adds (heard_add r s.0 s.1) sounds
