-- ===== src/Bar/Hum/RoundTrip.antt =====
-- syn-bar-core hears in a HUM line what syn-hum said.
use syn_os.Common.{
  ℕ, zero, suc, ◌≤◌, ◌<◌, ◌≡◌, refl, ◌∙◌, ap, arith, Bool, true, false, Option, some, List, [], ◌∷◌,
  ◌++◌, Bytes, All, codes, length, take_all, bytes_eq, not, ◌&&◌,
}
use syn_os.Cstring.{decimal, snprintf_s}
use syn_os.Hum.Conf.{nonempty, style_find}
use syn_os.Hum.Save.{style_name}
use syn_os.Hum.Command.Settings.{style_found}
use syn_os.Hum.Crew.{Crew, present, zero_one, positive}
use syn_os.Hum.Line.{Steps, hum_line}
use syn_os.Bar.Hum.{
  is_delim, strchr, atoi, clamp_step, Voice, places, read_cores, read_crew, HumLine, hum_key,
  hum_tokens, no_line, read_line_of, tokens,
}
use syn_os.Bar.Hum.Tokens.{Solid, Word, tokens-spaced}
use syn_os.Bar.Hum.Values.{
  step_back, flag_back, cores_text, cores_back, crew_text, crew_back, heard_all, Solid-decimal,
  Solid-append, Solid-cores, Solid-members,
}
use syn_os.Bar.Hum.Words.{
  CrewClear, Clear-members, word, head_words, crew_words, members, last_words,
}
use syn_os.Bar.Hum.Lengths.{length-present}
use syn_os.Bar.Hum.Sent.{Good, sent, hum_line-sent, sent-short}

-- The same as a test, for literals.
is_solid : Bytes → Bool
is_solid [] = true
is_solid (c ∷ b) = let later : Bool = is_solid b in not (is_delim c) && later

Solid-test : (b : Bytes) → is_solid b ≡ true → Solid b
unfolding is_solid
Solid-test [] h = tt
Solid-test (c ∷ b) h = (ground arith, Solid-test b (ground arith))

style-test : (s : ℕ) → s < 7 → is_solid (style_name s) ≡ true
unfolding style_name is_solid
style-test s h = ground arith

style-short : (s : ℕ) → s < 7 → length (style_name s) ≤ 8
unfolding style_name
style-short s h = ground arith

flag-Solid : (b : Bool) → Solid (zero_one b)
flag-Solid true = (refl, tt)
flag-Solid false = (refl, tt)

Word-key :
    (key value : Bytes)
    → nonempty key ≡ true
    → is_solid key ≡ true
    → Solid value
    → Word (word key value)
Word-key [] value h s k = absurd (ground (arith, h))
Word-key (c ∷ key) value h s k =
    (refl, Solid-append (c ∷ key) (61 ∷ value) (Solid-test (c ∷ key) s) (refl, k))

crew_words-Word : (n : ℕ) (text : Bytes) → Solid text → All Word (crew_words n text)
unfolding is_solid
crew_words-Word zero text h = tt
crew_words-Word (suc n) text h = (Word-key (codes "crew") text refl refl h, tt)

module _ (st : Steps) (s : ℕ) (volume : Bytes) (c : Crew) (style : s < 7) (solid : Solid volume)
    (g : Good st volume c) where
  words-Word : All Word (head_words st (style_name s) volume ++ last_words st c)
  unfolding is_solid cores_text crew_text
  words-Word = (
    Word-key (codes "style") _ refl refl (Solid-test _ (style-test s style)),
    (
      Word-key (codes "volume") _ refl refl solid,
      (
        number (codes "stall") st.stall refl refl,
        (
          number (codes "net") st.net refl refl,
          (
            number (codes "disk") st.disk refl refl,
            (
              Word-key (codes "error") _ refl refl (flag-Solid st.error),
              (
                Word-key (codes "inbound") _ refl refl (flag-Solid st.inbound),
                (
                  number (codes "spawn") st.spawn refl refl,
                  (
                    number (codes "sched") st.sched refl refl,
                    (
                      number (codes "cpuwait") st.cpu_wait refl refl,
                      (
                        number (codes "iowait") st.io_wait refl refl,
                        (
                          Word-key (codes "cores") _ refl refl (Solid-cores true st.cores),
                          (
                            Word-key (codes "talk") _ refl refl (flag-Solid c.talk),
                            crew_words-Word c.count _ (
                                Solid-members true (members c)
                                  (Clear-members c.count c.slots g.crew.valid.sound g.crew.plain)),
                          ),
                        ),
                      ),
                    ),
                  ),
                ),
              ),
            ),
          ),
        ),
      ),
    ),
  )
    where
      number :
          (key : Bytes) (n : ℕ)
          → nonempty key ≡ true
          → is_solid key ≡ true
          → Word (word key (decimal 10 n))
      number key n h k = Word-key key (decimal 10 n) h k (Solid-decimal n)

  tokens-sent :
      tokens (snprintf_s 1024 (sent st (style_name s) volume c))
      ≡ codes "HUM" ∷ (head_words st (style_name s) volume ++ last_words st c)
  tokens-sent =
      ap tokens (
        take_all 1023 (sent st (style_name s) volume c)
          (sent-short st (style_name s) volume c (style-short s style) g))
      ∙ tokens-spaced (codes "HUM") (head_words st (style_name s) volume ++ last_words st c)
          (refl, (refl, (refl, (refl, tt)))) words-Word

-- What is heard, by its parts.
module _ (V : Type 0) (atof : Bytes → V) (bounded : V → Option V) where
  abbrev pub heard :
      Option ℕ
      → V
      → ℕ
      → ℕ
      → ℕ
      → Bool
      → Bool
      → ℕ
      → ℕ
      → ℕ
      → ℕ
      → List ℕ
      → Bool
      → List Voice
      → HumLine V
  heard style volume stall net disk error inbound spawn sched cpu io cores talk crew = record {
    steps = record {
      cores = cores;
      stall = stall;
      fsk = net;
      floor = disk;
      spawn = spawn;
      sched = sched;
      cpu_wait = cpu;
      io_wait = io;
      crew = crew;
      talk = talk;
    };
    style = style;
    error = error;
    inbound = inbound;
    volume = some volume;
  }

  abbrev step_of : ℕ → ℕ
  step_of n = clamp_step (atoi (decimal 10 n))

  abbrev crew_of_words : ℕ → Bytes → List Voice
  crew_of_words zero text = []
  crew_of_words (suc n) text = read_crew [] (places text)

  heard_words :
      (st : Steps) (style volume : Bytes) (c : Crew)
      → hum_tokens V atof bounded
          (no_line V atof bounded)
          (codes "HUM" ∷ (head_words st style volume ++ last_words st c))
        ≡ heard
            (style_find style)
            (atof volume)
            (step_of st.stall)
            (step_of st.net)
            (step_of st.disk)
            (positive (atoi (zero_one st.error)))
            (positive (atoi (zero_one st.inbound)))
            (step_of st.spawn)
            (step_of st.sched)
            (step_of st.cpu_wait)
            (step_of st.io_wait)
            (read_cores [] (places (cores_text st.cores)))
            (positive (atoi (zero_one c.talk)))
            (crew_of_words c.count (crew_text (members c)))
  unfolding hum_tokens strchr hum_key bytes_eq
  heard_words st style volume c = at c.count
    where
      at :
          (n : ℕ)
          → hum_tokens V atof bounded (no_line V atof bounded) (
              codes "HUM"
              ∷ (head_words st style volume
                  ++ (word (codes "cores") (cores_text st.cores)
                      ∷ word (codes "talk") (zero_one c.talk)
                      ∷ crew_words n (crew_text (members c)))))
            ≡ heard
                (style_find style)
                (atof volume)
                (step_of st.stall)
                (step_of st.net)
                (step_of st.disk)
                (positive (atoi (zero_one st.error)))
                (positive (atoi (zero_one st.inbound)))
                (step_of st.spawn)
                (step_of st.sched)
                (step_of st.cpu_wait)
                (step_of st.io_wait)
                (read_cores [] (places (cores_text st.cores)))
                (positive (atoi (zero_one c.talk)))
                (crew_of_words n (crew_text (members c)))
      at zero = refl
      at (suc n) = refl

  crew_heard :
      (c : Crew)
      → CrewClear c
      → crew_of_words c.count (crew_text (members c)) ≡ heard_all (members c)
  unfolding present
  crew_heard c h = at c.count (
      crew_back [] (members c) (omega (arith, length-present c.count c.slots, h.valid.count))
        (Clear-members c.count c.slots h.valid.sound h.plain))
    where
      at :
          (n : ℕ)
          → read_crew [] (places (crew_text (present n c.slots))) ≡ heard_all (present n c.slots)
          → crew_of_words n (crew_text (present n c.slots)) ≡ heard_all (present n c.slots)
      at zero e = refl
      at (suc n) e = e

  -- The daemon always has a line to send, and syn-bar-core reads from it the style, the volume's
  -- text, each step, each core's step, whether there was an error or a connection, whether anyone
  -- talks, and each member of the crew with what the member does and the ticket's priority, if the
  -- steps are at most 15 and of at most 16 cores, the crew is well formed and has no colon or comma
  -- in an id, and the volume is at most 8 bytes without white space.
  pub hum_line-heard :
      (st : Steps) (s : ℕ) (volume : Bytes) (c : Crew)
      → s < 7
      → Solid volume
      → Good st volume c
      → (line : Bytes) × (hum_line st (style_name s) volume c ≡ some line)
        × (read_line_of V atof bounded line
            ≡ heard
                (some s)
                (atof volume)
                st.stall
                st.net
                st.disk
                st.error
                st.inbound
                st.spawn
                st.sched
                st.cpu_wait
                st.io_wait
                st.cores
                c.talk
                (heard_all (members c)))
  unfolding read_line_of
  hum_line-heard st s volume c style solid g = (
    sent st (style_name s) volume c,
    hum_line-sent st (style_name s) volume c (style-short s style) g,
    ap (hum_tokens V atof bounded (no_line V atof bounded))
          (tokens-sent st s volume c style solid g)
        ∙ heard_words st (style_name s) volume c
        ∙ rw
            (
              style_found s style,
              step_back st.stall g.steps.stall,
              step_back st.net g.steps.net,
              step_back st.disk g.steps.disk,
              step_back st.spawn g.steps.spawn,
              step_back st.sched g.steps.sched,
              step_back st.cpu_wait g.steps.cpu_wait,
              step_back st.io_wait g.steps.io_wait,
              flag_back st.error,
              flag_back st.inbound,
              flag_back c.talk,
              cores_back [] st.cores (omega (arith, g.steps.count)) g.steps.cores,
              crew_heard c g.crew,
            )
            refl,
  )
