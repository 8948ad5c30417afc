-- ===== src/Hum/Crew/Valid.antt =====
-- The crew that is read is well formed, whatever the file holds.
use mathlib.Core.Path.{subst}
use mathlib.Core.Option.{some-injective}
use syn_os.Common.{
  ℕ, zero, suc, ◌+◌, ◌≤◌, ◌≡◌, ◌⊎◌, inl, inr, refl, sym, ◌∙◌, ap, arith, Bool, true, false, ◌&&◌,
  ◌||◌, Option, none, some, List, [], ◌∷◌, ◌++◌, Bytes, All, codes, length, take_all, bytes_eq, leb,
  if◌then◌else◌, Bool-cases,
}
use syn_os.Io.{World, Outcome, done, recover, open_read, try, return, ◌>>=◌}
use syn_os.Cstring.{snprintf_s, skip_space, starts_with, is_space, scan_long}
use syn_os.Relay.Runtime.{fopen_r}
use syn_os.Relay.Apps.{lines_of}
use syn_os.Hum.Conf.{Conf, word, nonempty, muted}
use syn_os.Hum.Crew.{
  Member, Crew, state_letter, talk_of, crew_of, member_of, add_member, crew_words_line, talk_line,
  crew_line, crew_lines, blank_crew, crew_parsed, read_there, crew_read, gone, crew_path, same_time,
  or_zero, int_of,
}

-- What the voice counts on in a member: an id of 1 to 15 bytes without white space, one of the four
-- letters, and a priority of at most 5.
pub record Sound (m : Member) : Type 0 where
  pub id : nonempty m.id ≡ true
  pub fits : length m.id ≤ 15
  pub plain : All (λ c. is_space c ≡ false) m.id
  pub letter : (m.state ≡ 119) ⊎ (m.state ≡ 104) ⊎ (m.state ≡ 116) ⊎ (m.state ≡ 105)
  pub priority : m.priority ≤ 5

pub record CrewValid (c : Crew) : Type 0 where
  pub count : c.count ≤ 8
  pub sound : All Sound c.slots

-- A crew that is being read from the file: as many members as it counts, none of them muted.
record Fresh (conf : Conf) (c : Crew) : Type 0 where
  valid : CrewValid c
  heard : All (λ m. muted conf m.id ≡ false) c.slots

word-fits : (room : ℕ) (b : Bytes) → length (word room b).0 ≤ room
unfolding word
word-fits zero b = omega arith
word-fits (suc room) [] = omega arith
word-fits (suc room) (c ∷ b) = ground (arith, word-fits room b)

word-plain : (room : ℕ) (b : Bytes) → All (λ c. is_space c ≡ false) (word room b).0
unfolding word
word-plain zero b = tt
word-plain (suc room) [] = tt
word-plain (suc room) (c ∷ b) = cases (is_space c) refl (word-plain room b)
  where
    picked : Bool → Bytes × Bytes
    picked t = if t then ([], c ∷ b) else (c ∷ (word room b).0, (word room b).1)

    cases :
        (t : Bool)
        → is_space c ≡ t
        → All (λ c. is_space c ≡ false) (word room b).0
        → All (λ c. is_space c ≡ false) (picked t).0
    cases true e rest = tt
    cases false e rest = (e, rest)

letter-cases :
    (w : Bytes)
    → (state_letter w ≡ 119)
      ⊎ (state_letter w ≡ 104)
      ⊎ (state_letter w ≡ 116)
      ⊎ (state_letter w ≡ 105)
unfolding state_letter
letter-cases w = ground arith

Sound-member :
    (id w : Bytes) (p : ℕ)
    → nonempty id ≡ true
    → length id ≤ 15
    → All (λ c. is_space c ≡ false) id
    → Sound (member_of id w p)
Sound-member id w p some_id fits plain =
    let same : snprintf_s 16 id ≡ id = take_all 15 id fits in
    record {
      id = ap nonempty same ∙ some_id;
      fits = rw same fits;
      plain = subst (All (λ c. is_space c ≡ false)) (sym same) plain;
      letter = letter-cases w;
      priority = ground arith;
    }

-- What the line gives, if anything, is an id that fits.
record Read (o : Option (Bytes × Bytes × ℕ)) : Type 0 where
  at :
      (w : Bytes × Bytes × ℕ)
      → o ≡ some w
      → (nonempty w.0 ≡ true) × (length w.0 ≤ 15) × All (λ c. is_space c ≡ false) w.0

Read-if :
    (b s : Bool) (id w : Bytes) (p : ℕ)
    → length id ≤ 15
    → All (λ c. is_space c ≡ false) id
    → Read (if b && nonempty id && s then some (id, w, p) else none)
Read-if b s id w p fits plain = cases (Bool-cases (nonempty id))
  where
    one : (t : Bool) → (t ≡ true → nonempty id ≡ true) → Read (if t then some (id, w, p) else none)
    one true h = record {
      at = λ v e.
          subst (λ v. (nonempty v.0 ≡ true) × (length v.0 ≤ 15) × All (λ c. is_space c ≡ false) v.0)
            (some-injective _ _ e) (h refl, fits, plain);
    }
    one false h = record { at = λ v e. absurd (ground (arith, e)) }

    cases :
        (nonempty id ≡ true) ⊎ (nonempty id ≡ false)
        → Read (if b && nonempty id && s then some (id, w, p) else none)
    cases (inl h) = one (b && nonempty id && s) (λ _. h)
    cases (inr h) = one (b && nonempty id && s) (λ e. ground (arith, h, e))

Read-crew_of : (line : Bytes) → Read (crew_of line)
unfolding crew_of
Read-crew_of line =
    let key : Bytes × Bytes = word 15 (skip_space line) in
    let id : Bytes × Bytes = word 15 (skip_space key.1) in
    let state : Bytes × Bytes = word 15 (skip_space id.1) in
    Read-if (bytes_eq key.0 (codes "crew")) (nonempty state.0) id.0 state.0
      (or_zero (int_of (scan_long state.1))) (word-fits 15 (skip_space key.1))
      (word-plain 15 (skip_space key.1))

All-snoc :
    (P : Member → Type 0) (slots : List Member) (m : Member)
    → All P slots
    → P m
    → All P (slots ++ (m ∷ []))
All-snoc P [] m h p = (p, tt)
All-snoc P (x ∷ slots) m h p = (h.0, All-snoc P slots m h.1 p)

module _ (conf : Conf) where
  Fresh-add :
      (c : Crew) (w : Bytes × Bytes × ℕ)
      → Fresh conf c
      → (nonempty w.0 ≡ true) × (length w.0 ≤ 15) × All (λ c. is_space c ≡ false) w.0
      → (leb 8 c.count || muted conf w.0) ≡ false
      → Fresh conf (add_member c (member_of w.0 w.1 w.2))
  Fresh-add c w f ok test = record {
    valid = record {
      count = ground (arith, test);
      sound = All-snoc Sound c.slots _ f.valid.sound (Sound-member w.0 w.1 w.2 ok.0 ok.1 ok.2);
    };
    heard =
        All-snoc _ c.slots _ f.heard
          (ap (muted conf) (take_all 15 w.0 ok.1) ∙ ground (arith, test));
  }

  Fresh-words :
      (c : Crew) (o : Option (Bytes × Bytes × ℕ))
      → Fresh conf c
      → Read o
      → Fresh conf (crew_words_line conf c o)
  Fresh-words c none f r = f
  Fresh-words c (some w) f r =
      cases (leb 8 c.count || muted conf w.0) (Fresh-add c w f (r.at w refl))
    where
      cases :
          (b : Bool)
          → (b ≡ false → Fresh conf (add_member c (member_of w.0 w.1 w.2)))
          → Fresh conf (if b then c else add_member c (member_of w.0 w.1 w.2))
      cases true h = f
      cases false h = h refl

  Fresh-talk :
      (c : Crew) (line : Bytes) (o : Option ℕ) → Fresh conf c → Fresh conf (talk_line conf c line o)
  Fresh-talk c line none f = Fresh-words c (crew_of line) f (Read-crew_of line)
  Fresh-talk c line (some n) f = record {
    valid = record { count = f.valid.count; sound = f.valid.sound };
    heard = f.heard;
  }

  Fresh-line : (c : Crew) (line : Bytes) → Fresh conf c → Fresh conf (crew_line conf c line)
  unfolding crew_line
  Fresh-line c line f = cases (starts_with (codes "#") line)
    where
      cases : (b : Bool) → Fresh conf (if b then c else talk_line conf c line (talk_of line))
      cases true = f
      cases false = Fresh-talk c line (talk_of line) f

  Fresh-lines :
      (lines : List Bytes) (c : Crew) → Fresh conf c → Fresh conf (crew_lines conf c lines)
  unfolding crew_lines
  Fresh-lines [] c f = f
  Fresh-lines (line ∷ lines) c f = Fresh-lines lines (crew_line conf c line) (Fresh-line c line f)

  Fresh-blank : (time : ℕ × ℕ) → Fresh conf (blank_crew time)
  Fresh-blank time = record { valid = record { count = omega arith; sound = tt }; heard = tt }

  -- What a reading leaves: nobody, the crew of before, or members of whom none is muted.
  pub data Left (c : Crew) : Crew → Type 0 where
    nobody : (d : Crew) → d.count ≡ 0 → Left c d
    unchanged : Left c c
    unmuted : (d : Crew) → All (λ m. muted conf m.id ≡ false) d.slots → Left c d

  abbrev pub Leaves : Crew → Outcome (Bool × Crew) → Type 0
  Leaves c o = (b : Bool) × (d : Crew) × (o ≡ done (b, d)) × CrewValid d × Left c d

  Leaves-gone : (c : Crew) → CrewValid c → Leaves c (done (gone c))
  Leaves-gone c v = (_, _, refl, record { count = omega arith; sound = v.sound }, nobody _ refl)

  Leaves-parsed :
      (c : Crew) (time : ℕ × ℕ) (file : Option Bytes)
      → CrewValid c
      → Leaves c (done (crew_parsed conf c time file))
  unfolding crew_parsed
  Leaves-parsed c time none v = (false, c, refl, v, unchanged)
  Leaves-parsed c time (some file) v =
      let f : Fresh conf (crew_lines conf (blank_crew time) (lines_of 256 (length file) file)) =
        Fresh-lines (lines_of 256 (length file) file) (blank_crew time) (Fresh-blank time) in
      (_, _, refl, f.valid, unmuted _ f.heard)

  Leaves-there :
      (dir : Option Bytes) (c : Crew) (time : ℕ × ℕ) (w : World)
      → CrewValid c
      → Leaves c (read_there dir conf c time w).0
  unfolding read_there fopen_r try return ◌>>=◌
  Leaves-there dir c time w v = cases (same_time time c.seen)
    where
      cases :
          (b : Bool)
          → Leaves c
              ((if b
                  then return (false, c)
                  else (do file ← fopen_r (crew_path dir); return (crew_parsed conf c time file)))
                w).0
      cases true = (false, c, refl, v, unchanged)
      cases false = Leaves-parsed c time (recover (open_read (crew_path dir) w).0) v

  -- Reading the crew gives a well formed one in every world, whatever the file holds and whatever
  -- calls fail, if the one before was: at most eight members, each with an id of 1 to 15 bytes
  -- without white space, one of the four letters and a priority of at most 5. It has nobody, or is
  -- the one before, or has no member that the settings mute.
  pub crew_read-Valid :
      (dir : Option Bytes) (stat : Option (ℕ × ℕ)) (now : ℕ) (c : Crew) (w : World)
      → CrewValid c
      → Leaves c (crew_read dir stat now conf c w).0
  unfolding crew_read return
  crew_read-Valid dir none now c w v = Leaves-gone c v
  crew_read-Valid dir (some time) now c w v = cases (leb now (time.0 + 30) && conf.crew)
    where
      cases :
          (b : Bool) → Leaves c ((if b then read_there dir conf c time else return (gone c)) w).0
      cases true = Leaves-there dir c time w v
      cases false = Leaves-gone c v
