-- ===== src/Bar/Hum.antt =====
-- syn_bar_hum.c: the reading of a HUM line, and what the socket's thread hands to the voice.
pub mod Tokens
pub mod Values
pub mod Words
pub mod Lengths
pub mod Sent
pub mod RoundTrip
use syn_os.Common.{
  ℕ, zero, suc, ◌+◌, ◌-◌, ◌^◌, Bool, true, false, not, ◌&&◌, ◌||◌, Option, none, some, List, [],
  ◌∷◌, ◌++◌, Bytes, codes, length, take, bytes_eq, ltb, leb, ◌==◌, if◌then◌else◌,
}
use syn_os.Cstring.{snprintf_s, scan_long, is_digit}
use syn_os.Hum.Conf.{style_find, nonempty}
use syn_os.Hum.Crew.{int_of, or_zero, positive}

-- `strtok_r(buf, " \t\r\n", &save)`, all of its tokens: the text up to the first white space, and the
-- tokens after it.
abbrev pub is_delim : ℕ → Bool
is_delim c = c == 32 || c == 9 || c == 13 || c == 10

abbrev pub keep_token : Bytes → List Bytes → List Bytes
keep_token [] toks = toks
keep_token (c ∷ t) toks = (c ∷ t) ∷ toks

unfoldable pub split_tokens : Bytes → Bytes × List Bytes
split_tokens [] = ([], [])
split_tokens (c ∷ b) =
    let r : Bytes × List Bytes = split_tokens b in
    if is_delim c then ([], keep_token r.0 r.1) else (c ∷ r.0, r.1)

unfoldable pub tokens : Bytes → List Bytes
tokens b = keep_token (split_tokens b).0 (split_tokens b).1

abbrev pub cons_first : ℕ → Option (Bytes × Bytes) → Option (Bytes × Bytes)
cons_first c none = none
cons_first c (some r) = some (c ∷ r.0, r.1)

-- `strchr(s, c)`: what stands before and after it.
unfoldable pub strchr : ℕ → Bytes → Option (Bytes × Bytes)
strchr x [] = none
strchr x (c ∷ s) =
    let r : Option (Bytes × Bytes) = strchr x s in if c == x then some ([], s) else cons_first c r

-- `atoi`, as the 32 bits of the result
unfoldable pub atoi : Bytes → ℕ
atoi s = or_zero (int_of (scan_long s))

unfoldable pub clamp_step : ℕ → ℕ
clamp_step v = if ltb v (2 ^ 31) then (if ltb 15 v then 15 else v) else 0

pub data Activity : Type 0 where
  idle waiting working talking : Activity

pub record Voice : Type 0 where
  pub id : Bytes
  pub activity : Activity
  pub priority : ℕ

-- `hum_steps` without `error` and `inbound`, which stay 0 in it.
pub record HumSteps : Type 0 where
  pub cores : List ℕ
  pub stall : ℕ
  pub fsk : ℕ
  pub floor : ℕ
  pub spawn : ℕ
  pub sched : ℕ
  pub cpu_wait : ℕ
  pub io_wait : ℕ
  pub crew : List Voice
  pub talk : Bool

-- The places where `p` stands in the loops over a list: its start, and after each comma.
unfoldable pub after_commas : Bytes → List Bytes
after_commas [] = []
after_commas (c ∷ v) = let more : List Bytes = after_commas v in if c == 44 then v ∷ more else more

abbrev pub places : Bytes → List Bytes
places v = v ∷ after_commas v

unfoldable pub read_cores : List ℕ → List Bytes → List ℕ
read_cores cores [] = cores
read_cores cores (p ∷ ps) =
    read_cores
      (if nonempty p && ltb (length cores) 16 then cores ++ (clamp_step (atoi p) ∷ []) else cores)
      ps

abbrev pub letter_activity : ℕ → Activity
letter_activity c =
    if c == 119 then working else if c == 104 then waiting else if c == 116 then talking else idle

-- `c` is the text after the colon.
abbrev pub activity_of : Bytes → Activity
activity_of [] = idle
activity_of (c ∷ _) = letter_activity c

abbrev pub priority_of : Bytes → ℕ
priority_of (_ ∷ d ∷ _) = if is_digit d then d - 48 else 0
priority_of _ = 0

abbrev pub voice_of : Bytes × Bytes → Voice
voice_of r = record { id = take 15 r.0; activity = activity_of r.1; priority = priority_of r.1 }

unfoldable pub has : ℕ → Bytes → Bool
has x [] = false
has x (c ∷ s) = let later : Bool = has x s in c == x || later

-- `colon && colon < comma && colon > p`
abbrev pub one_voice : Option (Bytes × Bytes) → Option Voice
one_voice none = none
one_voice (some r) = if nonempty r.0 && not (has 44 r.0) then some (voice_of r) else none

abbrev pub add_voice : List Voice → Option Voice → List Voice
add_voice crew none = crew
add_voice crew (some v) = if ltb (length crew) 8 then crew ++ (v ∷ []) else crew

unfoldable pub read_crew : List Voice → List Bytes → List Voice
read_crew crew [] = crew
read_crew crew (p ∷ ps) = read_crew (add_voice crew (one_voice (strchr 58 p))) ps

-- The variables of `syn_bar_hum_line`; `none` for the style and the volume that are -1.
pub record HumLine (V : Type 0) : Type 0 where
  pub steps : HumSteps
  pub style : Option ℕ
  pub error : Bool
  pub inbound : Bool
  pub volume : Option V

-- `shared`; `last` is the time of CLOCK_MONOTONIC, and `tour` is `none` for -1.
pub record Shared (V : Type 0) : Type 0 where
  pub fresh : Bool
  pub steps : HumSteps
  pub style : ℕ
  pub volume : V
  pub error : Bool
  pub inbound : Bool
  pub last : ℕ
  pub off : Bool
  pub tour : Option ℕ

-- `volume` is a `double`: its type, the C library's `atof`, and the comparison `volume >= 0.0` with
-- the bound of 4.0 are what the definitions are over.
module _ (V : Type 0) (atof : Bytes → V) (bounded : V → Option V) where
  abbrev pub with_steps : HumLine V → HumSteps → HumLine V
  with_steps l st = record l { steps = st }

  -- The chain of tests for the key of one token.
  unfoldable pub hum_key : HumLine V → Bytes → Bytes → HumLine V
  hum_key l key v =
      let step : ℕ = clamp_step (atoi v) in
      if bytes_eq key (codes "style")
      then record l { style = style_find v }
      else if bytes_eq key (codes "volume")
      then record l { volume = some (atof v) }
      else if bytes_eq key (codes "stall")
      then with_steps l (record l.steps { stall = step })
      else if bytes_eq key (codes "net")
      then with_steps l (record l.steps { fsk = step })
      else if bytes_eq key (codes "disk")
      then with_steps l (record l.steps { floor = step })
      else if bytes_eq key (codes "error")
      then record l { error = positive (atoi v) }
      else if bytes_eq key (codes "inbound")
      then record l { inbound = positive (atoi v) }
      else if bytes_eq key (codes "spawn")
      then with_steps l (record l.steps { spawn = step })
      else if bytes_eq key (codes "sched")
      then with_steps l (record l.steps { sched = step })
      else if bytes_eq key (codes "cpuwait")
      then with_steps l (record l.steps { cpu_wait = step })
      else if bytes_eq key (codes "iowait")
      then with_steps l (record l.steps { io_wait = step })
      else if bytes_eq key (codes "talk")
      then with_steps l (record l.steps { talk = positive (atoi v) })
      else if bytes_eq key (codes "crew")
      then with_steps l (record l.steps { crew = read_crew l.steps.crew (places v) })
      else if bytes_eq key (codes "cores")
      then with_steps l (record l.steps { cores = read_cores l.steps.cores (places v) })
      else l

  abbrev pub hum_split : HumLine V → Option (Bytes × Bytes) → HumLine V
  hum_split l none = l
  hum_split l (some r) = hum_key l r.0 r.1

  unfoldable pub hum_tokens : HumLine V → List Bytes → HumLine V
  hum_tokens l [] = l
  hum_tokens l (tok ∷ toks) = hum_tokens (hum_split l (strchr 61 tok)) toks

  abbrev pub no_steps : HumSteps
  no_steps = record {
    cores = [];
    stall = 0;
    fsk = 0;
    floor = 0;
    spawn = 0;
    sched = 0;
    cpu_wait = 0;
    io_wait = 0;
    crew = [];
    talk = false;
  }

  abbrev pub no_line : HumLine V
  no_line = record { steps = no_steps; style = none; error = false; inbound = false; volume = none }

  unfoldable pub read_line_of : Bytes → HumLine V
  read_line_of line = hum_tokens no_line (tokens (snprintf_s 1024 line))

  abbrev pub or_style : ℕ → Option ℕ → ℕ
  or_style old none = old
  or_style old (some s) = s

  abbrev pub or_volume : V → Option V → V
  or_volume old none = old
  or_volume old (some v) = bound (bounded v)
    where
      bound : Option V → V
      bound none = old
      bound (some v) = v

  -- `syn_bar_hum_line`
  unfoldable pub take_line : Shared V → ℕ → Bytes → Shared V
  take_line s now line =
      let l : HumLine V = read_line_of line in
      record s {
        steps = l.steps;
        style = or_style s.style l.style;
        volume = or_volume s.volume l.volume;
        error = s.error || l.error;
        inbound = s.inbound || l.inbound;
        fresh = true;
        last = now;
      }

  -- `syn_bar_hum_off`
  unfoldable pub take_off : Shared V → Shared V
  take_off s = record s { off = true }

  unfoldable pub until_space : Bytes → Bytes
  until_space [] = []
  until_space (c ∷ b) = let more : Bytes = until_space b in if is_delim c then [] else c ∷ more

  -- `syn_bar_hum_tour`
  unfoldable pub take_tour : Shared V → Bytes → Shared V
  take_tour s style =
      let name : Bytes = until_space (snprintf_s 32 style) in
      record s { tour = some (or_style 0 (style_find name)); off = false }
