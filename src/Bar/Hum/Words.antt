-- ===== src/Bar/Hum/Words.antt =====
-- The words of a HUM line.
use syn_os.Common.{
  ℕ, zero, suc, ◌≤◌, ◌≡◌, refl, ◌∙◌, ap, List, [], ◌∷◌, ◌++◌, Bytes, All, codes, length,
}
use syn_os.Cstring.{decimal}
use syn_os.Hum.Crew.{Member, Crew, zero_one, present}
use syn_os.Hum.Crew.Valid.{Sound, CrewValid}
use syn_os.Hum.Line.{Steps, steps_head}
use syn_os.Bar.Hum.Tokens.{spaced, spaced-last}
use syn_os.Bar.Hum.Values.{cores_text, crew_text, Clear, Plain, Clear-Sound}

-- What syn_hum_map_signals makes: steps of at most 15, and at most 16 cores.
pub record StepsValid (st : Steps) : Type 0 where
  pub count : length st.cores ≤ 16
  pub cores : All (λ n. n ≤ 15) st.cores
  pub stall : st.stall ≤ 15
  pub net : st.net ≤ 15
  pub disk : st.disk ≤ 15
  pub spawn : st.spawn ≤ 15
  pub sched : st.sched ≤ 15
  pub cpu_wait : st.cpu_wait ≤ 15
  pub io_wait : st.io_wait ≤ 15

-- A well formed crew, as the reading of its file leaves it, with no colon and no comma in an id.
pub record CrewClear (c : Crew) : Type 0 where
  pub valid : CrewValid c
  pub plain : All Plain c.slots

pub Clear-members :
    (n : ℕ) (slots : List Member) → All Sound slots → All Plain slots → All Clear (present n slots)
unfolding present
Clear-members zero slots h p = tt
Clear-members (suc n) [] h p = tt
Clear-members (suc n) (m ∷ slots) h p = (Clear-Sound m h.0 p.0, Clear-members n slots h.1 p.1)

abbrev pub word : Bytes → Bytes → Bytes
word key value = key ++ (61 ∷ value)

abbrev pub head_words : Steps → Bytes → Bytes → List Bytes
head_words st style volume =
    word (codes "style") style
    ∷ word (codes "volume") volume
    ∷ word (codes "stall") (decimal 10 st.stall)
    ∷ word (codes "net") (decimal 10 st.net)
    ∷ word (codes "disk") (decimal 10 st.disk)
    ∷ word (codes "error") (zero_one st.error)
    ∷ word (codes "inbound") (zero_one st.inbound)
    ∷ word (codes "spawn") (decimal 10 st.spawn)
    ∷ word (codes "sched") (decimal 10 st.sched)
    ∷ word (codes "cpuwait") (decimal 10 st.cpu_wait)
    ∷ word (codes "iowait") (decimal 10 st.io_wait)
    ∷ []

abbrev pub crew_words : ℕ → Bytes → List Bytes
crew_words zero text = []
crew_words (suc n) text = word (codes "crew") text ∷ []

abbrev pub members : Crew → List Member
members c = present c.count c.slots

abbrev pub last_words : Steps → Crew → List Bytes
last_words st c =
    word (codes "cores") (cores_text st.cores)
    ∷ word (codes "talk") (zero_one c.talk)
    ∷ crew_words c.count (crew_text (members c))

pub head_spaced :
    (st : Steps) (style volume : Bytes)
    → steps_head st style volume
      ≡ codes "HUM" ++ spaced (head_words st style volume ++ (word (codes "cores") [] ∷ []))
unfolding steps_head spaced
head_spaced st style volume = refl

pub steps_text :
    (st : Steps) (style volume : Bytes)
    → steps_head st style volume ++ cores_text st.cores
      ≡ codes "HUM"
        ++ spaced (head_words st style volume ++ (word (codes "cores") (cores_text st.cores) ∷ []))
steps_text st style volume =
    ap (λ t. t ++ cores_text st.cores) (head_spaced st style volume)
    ∙ ap (λ t. codes "HUM" ++ t)
        (spaced-last (head_words st style volume) (word (codes "cores") []) (cores_text st.cores))
