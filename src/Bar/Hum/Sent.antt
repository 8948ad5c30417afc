-- ===== src/Bar/Hum/Sent.antt =====
-- The HUM line: that there is always room for it in the buffer, and its text.
use syn_os.Common.{
  ℕ, zero, suc, ◌+◌, ◌-◌, ◌*◌, ◌≤◌, ◌≡◌, refl, sym, ◌∙◌, ap, arith, Bool, true, false, some, List,
  [], ◌∷◌, ◌++◌, append-nil, Bytes, All, codes, length, length-append, lt→ltb, if◌then◌else◌,
}
use syn_os.Io.Clean.{flat}
use syn_os.Hum.Crew.{Member, Crew, zero_one, put_all, put_crew, whole, member_keys, crew_keys}
use syn_os.Hum.Line.{Steps, steps_head, core_numbers, steps_line, followed, with_crew, hum_line}
use syn_os.Bar.Hum.Tokens.{spaced, spaced-append, spaced-short, put_all-fits, whole-fits}
use syn_os.Bar.Hum.Values.{cores_text, crew_text, Clear}
use syn_os.Bar.Hum.Words.{
  StepsValid, CrewClear, Clear-members, word, head_words, crew_words, members, last_words,
  steps_text,
}
use syn_os.Bar.Hum.Lengths.{cores-short, members-short, length-present, flag-short, head-short}

-- The keys of the crew.
keys_text : Crew → Bytes
keys_text c =
    spaced (word (codes "talk") (zero_one c.talk) ∷ crew_words c.count (crew_text (members c)))

-- " talk=" and " crew=" in a buffer that has room.
abbrev talk_text : Bool → Bytes
talk_text talk = codes " talk=" ++ zero_one talk

talk-spaced : (talk : Bool) → talk_text talk ≡ spaced (word (codes "talk") (zero_one talk) ∷ [])
unfolding spaced
talk-spaced true = refl
talk-spaced false = refl

crew-spaced :
    (talk : Bool) (text : Bytes)
    → (talk_text talk ++ codes " crew=") ++ text
      ≡ spaced (word (codes "talk") (zero_one talk) ∷ word (codes "crew") text ∷ [])
unfolding spaced
crew-spaced true text = ap (λ t. codes " talk=1 crew=" ++ t) (sym (append-nil text))
crew-spaced false text = ap (λ t. codes " talk=0 crew=" ++ t) (sym (append-nil text))

length-talk : (talk : Bool) → length (talk_text talk) ≡ 7
length-talk true = refl
length-talk false = refl

length-crew : (talk : Bool) → length (talk_text talk ++ codes " crew=") ≡ 13
length-crew true = refl
length-crew false = refl

keys_of :
    (talk : Bool) (n len : ℕ) (ms : List Member)
    → length ms ≤ n
    → n ≤ 8
    → All Clear ms
    → 300 ≤ len
    → whole len (put_all len (put_crew len (talk_text talk) n) (member_keys true ms))
      ≡ some (spaced (word (codes "talk") (zero_one talk) ∷ crew_words n (crew_text ms)))
unfolding crew_text member_keys put_all
keys_of talk zero len (m ∷ ms) fewer h clear room = absurd (omega arith)
keys_of talk zero len [] fewer h clear room =
    whole-fits len (talk_text talk) (omega (arith, length-talk talk)) ∙ ap some (talk-spaced talk)
keys_of talk (suc n) len ms fewer h clear room =
    let start : Bytes = talk_text talk ++ codes " crew=" in
    let short : length (flat (member_keys true ms)) ≤ 28 * length ms =
      members-short true ms clear in
    let sum : length (start ++ flat (member_keys true ms))
        ≡ length start + length (flat (member_keys true ms)) =
      length-append start (flat (member_keys true ms)) in
    ap (λ b. whole len (put_all len (if b then start else talk_text talk) (member_keys true ms)))
      (lt→ltb (length (talk_text talk)) len (omega (arith, length-talk talk)))
    ∙ ap (whole len)
        (put_all-fits len start (member_keys true ms) (omega (arith, short, length-crew talk)))
    ∙ whole-fits len (start ++ flat (member_keys true ms))
        (omega (arith, short, sum, length-crew talk))
    ∙ ap some (crew-spaced talk (flat (member_keys true ms)))

keys-short :
    (talk : Bool) (n : ℕ) (text : Bytes)
    → length text ≤ 224
    → length (spaced (word (codes "talk") (zero_one talk) ∷ crew_words n text)) ≤ 460
keys-short talk zero text h = omega (
  arith,
  spaced-short 229 (word (codes "talk") (zero_one talk) ∷ [])
      (omega (arith, length-append (codes "talk") (61 ∷ zero_one talk), flag-short talk), tt),
)
keys-short talk (suc n) text h = omega (
  arith,
  spaced-short 229 (word (codes "talk") (zero_one talk) ∷ word (codes "crew") text ∷ []) (
    omega (arith, length-append (codes "talk") (61 ∷ zero_one talk), flag-short talk),
    (omega (arith, length-append (codes "crew") (61 ∷ text)), tt),
  ),
)

-- The line as its words.
abbrev pub sent : Steps → Bytes → Bytes → Crew → Bytes
sent st style volume c = codes "HUM" ++ spaced (head_words st style volume ++ last_words st c)

-- What both ends rely on: the steps and the crew as the other parts of syn-hum make them, and a
-- volume that is a short word.
pub record Good (st : Steps) (volume : Bytes) (c : Crew) : Type 0 where
  pub steps : StepsValid st
  pub crew : CrewClear c
  pub short : length volume ≤ 8

module _ (st : Steps) (style volume : Bytes) (c : Crew) (style_short : length style ≤ 8)
    (g : Good st volume c) where
  unfoldable start_text : Bytes
  start_text =
      codes "HUM"
      ++ spaced (head_words st style volume ++ (word (codes "cores") (cores_text st.cores) ∷ []))

  start-short : length start_text ≤ 407
  unfolding start_text cores_text
  start-short =
      let same : length (steps_head st style volume ++ flat (core_numbers true st.cores))
          ≡ length start_text =
        ap length (steps_text st style volume) in
      omega (
        arith,
        same,
        head-short st style volume style_short g.short,
        length-append (steps_head st style volume) (flat (core_numbers true st.cores)),
        cores-short true st.cores,
        g.steps.count,
      )

  steps_line-text : steps_line st style volume 1024 ≡ some start_text
  unfolding steps_line start_text cores_text
  steps_line-text =
      let head : length (steps_head st style volume) ≤ 231 =
        head-short st style volume style_short g.short in
      let tail : length (flat (core_numbers true st.cores)) ≤ 11 * length st.cores =
        cores-short true st.cores in
      ap (whole 1024) (
        put_all-fits 1024 (steps_head st style volume) (core_numbers true st.cores)
          (omega (arith, g.steps.count, head, tail)))
      ∙ whole-fits 1024 (steps_head st style volume ++ flat (core_numbers true st.cores)) (
          omega (
            arith,
            g.steps.count,
            head,
            tail,
            length-append (steps_head st style volume) (flat (core_numbers true st.cores)),
          ))
      ∙ ap some (steps_text st style volume)

  keys_text_lem : crew_keys c (1024 - length start_text) ≡ some (keys_text c)
  unfolding crew_keys keys_text
  keys_text_lem =
      keys_of c.talk c.count (1024 - length start_text) (members c) (length-present c.count c.slots)
        g.crew.valid.count (Clear-members c.count c.slots g.crew.valid.sound g.crew.plain)
        (omega (arith, start-short))

  joined : start_text ++ keys_text c ≡ sent st style volume c
  unfolding start_text keys_text
  joined =
      ap (λ t. codes "HUM" ++ t)
        (spaced-append
          (head_words st style volume ++ (word (codes "cores") (cores_text st.cores) ∷ []))
          (word (codes "talk") (zero_one c.talk) ∷ crew_words c.count (crew_text (members c))))

  pub hum_line-sent : hum_line st style volume c ≡ some (sent st style volume c)
  unfolding hum_line
  hum_line-sent =
      ap (with_crew c 1024) steps_line-text
      ∙ ap (followed start_text) keys_text_lem
      ∙ ap some joined

  pub sent-short : length (sent st style volume c) ≤ 1023
  unfolding keys_text crew_text
  sent-short =
      let short : length (flat (member_keys true (members c))) ≤ 28 * length (members c) =
        members-short true (members c)
          (Clear-members c.count c.slots g.crew.valid.sound g.crew.plain) in
      let keys : length (keys_text c) ≤ 460 =
        keys-short c.talk c.count (flat (member_keys true (members c)))
          (omega (arith, short, length-present c.count c.slots, g.crew.valid.count)) in
      let whole_length : length (start_text ++ keys_text c) ≡ length (sent st style volume c) =
        ap length joined in
      omega (arith, whole_length, keys, start-short, length-append start_text (keys_text c))
