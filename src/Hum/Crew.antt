-- ===== src/Hum/Crew.antt =====
-- syn_hum_crew.c: who of the crew is doing what, read from the file that SYN-CASTER keeps.
pub mod Valid
use syn_os.Common.{
  ℕ, zero, suc, ◌+◌, ◌^◌, Bool, true, false, not, ◌&&◌, ◌||◌, Option, none, some, List, [], ◌∷◌,
  ◌++◌, Bytes, codes, length, bytes_eq, ltb, leb, ◌==◌, if◌then◌else◌,
}
use syn_os.Io.{Call, ◌>>=◌, return}
use syn_os.Cstring.{snprintf_s, starts_with, skip_space, scan_long, Long, decimal}
use syn_os.Relay.Runtime.{runtime_dir, fopen_r}
use syn_os.Relay.AgentState.{to_pid}
use syn_os.Relay.Apps.{lines_of}
use syn_os.Hum.Conf.{Conf, word, nonempty, muted}

-- `crew_path`
unfoldable pub crew_path : Option Bytes → Bytes
crew_path dir = snprintf_s 4096 (runtime_dir dir ++ codes "/syn-crew.state")

-- `state` is the letter's code.
pub record Member : Type 0 where
  pub id : Bytes
  pub state : ℕ
  pub priority : ℕ

-- `syn_hum_crew`: `slots` are the entries of `member` that were filled, which stay when `count` is
-- set to 0, and `seen` the seconds and nanoseconds of the file's time.
pub record Crew : Type 0 where
  pub count : ℕ
  pub talk : Bool
  pub slots : List Member
  pub seen : ℕ × ℕ

unfoldable pub state_letter : Bytes → ℕ
state_letter word =
    if bytes_eq word (codes "working")
    then 119
    else if bytes_eq word (codes "waiting")
    then 104
    else if bytes_eq word (codes "talking")
    then 116
    else 105

-- One "%d" of a `scanf`, as the 32 bits of the result.
abbrev pub int_of : Option (Long × Bytes) → Option ℕ
int_of none = none
int_of (some r) = some (to_pid r.0)

abbrev pub or_zero : Option ℕ → ℕ
or_zero none = 0
or_zero (some n) = n

abbrev pub positive : ℕ → Bool
positive n = ltb 0 n && ltb n (2 ^ 31)

-- `sscanf(line, "%15s %d", key, &n) == 2 && !strcmp(key, "talk")`
unfoldable pub talk_of : Bytes → Option ℕ
talk_of line =
    let key : Bytes × Bytes = word 15 (skip_space line) in
    let n : Option ℕ = int_of (scan_long key.1) in if bytes_eq key.0 (codes "talk") then n else none

-- The id, the word for the state and the priority, where `sscanf(line, "%15s %15s %15s %d", ..) >= 3`
-- and the key is "crew".
unfoldable pub crew_of : Bytes → Option (Bytes × Bytes × ℕ)
crew_of line =
    let key : Bytes × Bytes = word 15 (skip_space line) in
    let id : Bytes × Bytes = word 15 (skip_space key.1) in
    let state : Bytes × Bytes = word 15 (skip_space id.1) in
    let p : ℕ = or_zero (int_of (scan_long state.1)) in
    if bytes_eq key.0 (codes "crew") && nonempty id.0 && nonempty state.0
    then some (id.0, state.0, p)
    else none

abbrev pub member_of : Bytes → Bytes → ℕ → Member
member_of id state p = record {
  id = snprintf_s 16 id;
  state = state_letter state;
  priority = if leb p 5 then p else 0;
}

abbrev pub add_member : Crew → Member → Crew
add_member c m = record c { count = c.count + 1; slots = c.slots ++ (m ∷ []) }

abbrev pub crew_words_line : Conf → Crew → Option (Bytes × Bytes × ℕ) → Crew
crew_words_line conf c none = c
crew_words_line conf c (some w) =
    if leb 8 c.count || muted conf w.0 then c else add_member c (member_of w.0 w.1 w.2)

abbrev pub talk_line : Conf → Crew → Bytes → Option ℕ → Crew
talk_line conf c line none = crew_words_line conf c (crew_of line)
talk_line conf c line (some n) = record c { talk = positive n }

unfoldable pub crew_line : Conf → Crew → Bytes → Crew
crew_line conf c line =
    if starts_with (codes "#") line then c else talk_line conf c line (talk_of line)

unfoldable pub crew_lines : Conf → Crew → List Bytes → Crew
crew_lines conf c [] = c
crew_lines conf c (line ∷ lines) = crew_lines conf (crew_line conf c line) lines

abbrev pub blank_crew : ℕ × ℕ → Crew
blank_crew seen = record { count = 0; talk = false; slots = []; seen = seen }

unfoldable pub member_eq : Member → Member → Bool
member_eq a b = bytes_eq a.id b.id && a.state == b.state && a.priority == b.priority

-- `memcmp` of the two arrays of members is 0: both are zero past their filled entries.
unfoldable pub slots_eq : List Member → List Member → Bool
slots_eq [] [] = true
slots_eq (a ∷ x) (b ∷ y) = let later : Bool = slots_eq x y in member_eq a b && later
slots_eq _ _ = false

abbrev pub same_talk : Bool → Bool → Bool
same_talk true b = b
same_talk false b = not b

unfoldable pub crew_changed : Crew → Crew → Bool
crew_changed next c =
    not (slots_eq next.slots c.slots)
    || not (next.count == c.count)
    || not (same_talk next.talk c.talk)

-- No crew: `c->count = c->talk = 0` and the time.
abbrev pub gone : Crew → Bool × Crew
gone c = (not (c.count == 0) || c.talk, record c { count = 0; talk = false; seen = (0, 0) })

unfoldable pub crew_parsed : Conf → Crew → ℕ × ℕ → Option Bytes → Bool × Crew
crew_parsed conf c time none = (false, c)
crew_parsed conf c time (some file) =
    let next : Crew = crew_lines conf (blank_crew time) (lines_of 256 (length file) file) in
    (crew_changed next c, next)

-- `sb.st_mtim` is `c->seen`
abbrev pub same_time : ℕ × ℕ → ℕ × ℕ → Bool
same_time a b = a.0 == b.0 && a.1 == b.1

unfoldable pub read_there : Option Bytes → Conf → Crew → ℕ × ℕ → Call (Bool × Crew)
unfolding return
read_there dir conf c time =
    if same_time time c.seen
    then return (false, c)
    else (do file ← fopen_r (crew_path dir); return (crew_parsed conf c time file))

-- `syn_hum_crew_read`: whether the crew changed, and the crew. `stat` is the file's time, `none`
-- where there is no file, and `now` is `time(NULL)`.
unfoldable pub crew_read : Option Bytes → Option (ℕ × ℕ) → ℕ → Conf → Crew → Call (Bool × Crew)
unfolding return
crew_read dir none now conf c = return (gone c)
crew_read dir (some time) now conf c =
    if leb now (time.0 + 30) && conf.crew then read_there dir conf c time else return (gone c)

-- The members that count.
unfoldable pub present : ℕ → List Member → List Member
present zero slots = []
present (suc n) [] = []
present (suc n) (m ∷ slots) = m ∷ present n slots

-- `if (n < len) n += snprintf(out + n, len - n, ..)`, with all that was to be printed so far
abbrev pub put : ℕ → Bytes → Bytes → Bytes
put len out piece = if ltb (length out) len then out ++ piece else out

-- `return n >= len ? -1 : n`, with the text
abbrev pub whole : ℕ → Bytes → Option Bytes
whole len out = if leb len (length out) then none else some out

abbrev pub comma : Bool → Bytes
comma true = []
comma false = codes ","

abbrev pub member_key : Bool → Member → Bytes
member_key first m = comma first ++ (m.id ++ (58 ∷ m.state ∷ decimal 10 m.priority))

unfoldable pub put_all : ℕ → Bytes → List Bytes → Bytes
put_all len out [] = out
put_all len out (piece ∷ pieces) = put_all len (put len out piece) pieces

unfoldable pub member_keys : Bool → List Member → List Bytes
member_keys first [] = []
member_keys first (m ∷ ms) = member_key first m ∷ member_keys false ms

abbrev pub zero_one : Bool → Bytes
zero_one true = codes "1"
zero_one false = codes "0"

abbrev pub put_crew : ℕ → Bytes → ℕ → Bytes
put_crew len out zero = out
put_crew len out (suc n) = put len out (codes " crew=")

-- `syn_hum_crew_keys`: what it appends, `none` for -1
unfoldable pub crew_keys : Crew → ℕ → Option Bytes
crew_keys c len =
    let talk : Bytes = codes " talk=" ++ zero_one c.talk in
    whole len (put_all len (put_crew len talk c.count) (member_keys true (present c.count c.slots)))

abbrev pub state_word : ℕ → Bytes
state_word state =
    if state == 119
    then codes "working"
    else if state == 104
    then codes "waiting"
    else if state == 116
    then codes "talking"
    else codes "idle"

abbrev pub priority_word : ℕ → Bytes
priority_word zero = []
priority_word (suc p) = codes " P" ++ decimal 10 (suc p)

abbrev pub separator : Bytes → Bytes → Bytes
separator [] text = []
separator (c ∷ out) text = text

unfoldable pub put_words : ℕ → Bytes → List Member → Bytes
put_words len out [] = out
put_words len out (m ∷ ms) =
    put_words len
      (put len out (
        separator out (codes ", ")
        ++ (m.id ++ (32 ∷ (state_word m.state ++ priority_word m.priority)))))
      ms

-- `syn_hum_crew_words`: the text in the buffer
unfoldable pub crew_words : Crew → ℕ → Bytes
crew_words c len =
    let out : Bytes = put_words len [] (present c.count c.slots) in
    let talk : Bytes = put len out (separator out (codes "; ") ++ codes "(someone talking)") in
    snprintf_s len (if c.talk then talk else out)
