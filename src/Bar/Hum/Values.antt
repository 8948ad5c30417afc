-- ===== src/Bar/Hum/Values.antt =====
-- The values of a HUM line are read as they were printed.
use syn_os.Common.{
  ℕ, zero, suc, ◌+◌, ◌%◌, ◌/◌, ◌^◌, ◌≤◌, ◌<◌, ◌≡◌, ◌≢◌, refl, sym, ◌∙◌, ap, arith, Bool, true,
  false, not, ◌&&◌, none, some, List, [], ◌∷◌, ◌++◌, append_assoc, append-nil, Bytes, All, length,
  length-append, take_all, ltb, lt→ltb, if◌then◌else◌,
}
use syn_os.Io.Clean.{flat}
use syn_os.Cstring.{decimal, scan_digits, scan_long, skip_space, scan_unsigned, is_space}
use syn_os.Cstring.Decimal.{scan_stops}
use syn_os.Relay.AgentState.{to_pid}
use syn_os.Hum.Conf.{nonempty}
use syn_os.Hum.Crew.{Member, member_key, member_keys, int_of, or_zero, positive, zero_one}
use syn_os.Hum.Crew.Valid.{Sound}
use syn_os.Hum.Line.{core_numbers}
use syn_os.Bar.Hum.{
  is_delim, strchr, atoi, clamp_step, Voice, after_commas, places, read_cores, letter_activity,
  one_voice, voice_of, has, add_voice, read_crew,
}
use syn_os.Bar.Hum.Tokens.{Solid}

pub atoi-decimal :
    (n : ℕ) (rest : Bytes)
    → n < 2 ^ 31
    → scan_digits n rest ≡ (n, rest)
    → atoi (decimal 10 n ++ rest) ≡ n
unfolding atoi to_pid
atoi-decimal n rest h stops = ap (λ o. or_zero (int_of o)) (scan_stops n rest h stops) ∙ omega arith

pub step_back : (n : ℕ) → n ≤ 15 → clamp_step (atoi (decimal 10 n)) ≡ n
unfolding clamp_step scan_digits
step_back n h =
    ap (λ t. clamp_step (atoi t)) (sym (append-nil (decimal 10 n)))
    ∙ ap clamp_step (atoi-decimal n [] (omega arith) refl)
    ∙ ground arith

pub flag_back : (b : Bool) → positive (atoi (zero_one b)) ≡ b
unfolding atoi scan_long skip_space scan_unsigned scan_digits to_pid
flag_back true = refl
flag_back false = refl

-- The bytes of a number are digits.
digits : (width n : ℕ) → All (λ c. (48 ≤ c) × (c ≤ 57)) (decimal width n)
unfolding decimal
digits zero n = tt
digits (suc width) n = cases (ltb n 10) (digits width (n / 10))
  where
    Digit : ℕ → Type 0
    Digit c = (48 ≤ c) × (c ≤ 57)

    snoc : (b : Bytes) → All Digit b → All Digit (b ++ ((48 + n % 10) ∷ []))
    snoc [] h = ((omega arith, omega arith), tt)
    snoc (c ∷ b) h = (h.0, snoc b h.1)

    cases :
        (b : Bool)
        → All Digit (decimal width (n / 10))
        → All Digit ((if b then [] else decimal width (n / 10)) ++ ((48 + n % 10) ∷ []))
    cases true h = snoc [] tt
    cases false h = snoc _ h

pub length-decimal : (width n : ℕ) → length (decimal width n) ≤ width
unfolding decimal
length-decimal zero n = omega arith
length-decimal (suc width) n = ground (
  arith,
  length-decimal width (n / 10),
  length-append (decimal width (n / 10)) ((48 + n % 10) ∷ []),
)

nonempty-decimal : (width n : ℕ) (rest : Bytes) → nonempty (decimal (suc width) n ++ rest) ≡ true
unfolding decimal
nonempty-decimal width n rest = cases (if ltb n 10 then [] else decimal width (n / 10))
  where
    cases : (b : Bytes) → nonempty ((b ++ ((48 + n % 10) ∷ [])) ++ rest) ≡ true
    cases [] = refl
    cases (c ∷ b) = refl

-- No comma.
abbrev pub Bare : Bytes → Type 0
Bare b = All (λ c. c ≢ 44) b

pub Bare-decimal : (n : ℕ) → Bare (decimal 10 n)
Bare-decimal n = bare _ (digits 10 n)
  where
    bare : (b : Bytes) → All (λ c. (48 ≤ c) × (c ≤ 57)) b → Bare b
    bare [] h = tt
    bare (c ∷ b) h = (omega (arith, h.0.0), bare b h.1)

after-Bare : (b v : Bytes) → Bare b → after_commas (b ++ v) ≡ after_commas v
unfolding after_commas
after-Bare [] v h = refl
after-Bare (c ∷ b) v h = ground (arith, after-Bare b v h.1, h.0)

unfoldable pub cores_text : List ℕ → Bytes
cores_text ns = flat (core_numbers true ns)

core_back :
    (acc : List ℕ) (n : ℕ) (rest : Bytes)
    → n ≤ 15
    → length acc < 16
    → scan_digits n rest ≡ (n, rest)
    → read_cores acc (places (decimal 10 n ++ rest))
      ≡ read_cores (acc ++ (n ∷ [])) (after_commas rest)
unfolding read_cores clamp_step
core_back acc n rest h room stops =
    let small : ltb (length acc) 16 ≡ true = lt→ltb (length acc) 16 room in
    let same : clamp_step n ≡ n = ground arith in
    ap
      (λ b.
        read_cores
          (if b && ltb (length acc) 16
            then acc ++ (clamp_step (atoi (decimal 10 n ++ rest)) ∷ [])
            else acc)
          (after_commas (decimal 10 n ++ rest)))
      (nonempty-decimal 9 n rest)
    ∙ ap
        (λ b.
          read_cores (if b then acc ++ (clamp_step (atoi (decimal 10 n ++ rest)) ∷ []) else acc)
            (after_commas (decimal 10 n ++ rest)))
        small
    ∙ ap (λ x. read_cores (acc ++ (clamp_step x ∷ [])) (after_commas (decimal 10 n ++ rest)))
        (atoi-decimal n rest (omega arith) stops)
    ∙ ap (λ x. read_cores (acc ++ (x ∷ [])) (after_commas (decimal 10 n ++ rest))) same
    ∙ ap (read_cores (acc ++ (n ∷ []))) (after-Bare (decimal 10 n) rest (Bare-decimal n))

pub cores_back :
    (acc ns : List ℕ)
    → length acc + length ns ≤ 16
    → All (λ n. n ≤ 15) ns
    → read_cores acc (places (cores_text ns)) ≡ acc ++ ns
unfolding cores_text core_numbers read_cores after_commas scan_digits
cores_back acc [] h small = sym (append-nil acc)
cores_back acc (n ∷ []) h small = core_back acc n [] small.0 (omega arith) refl
cores_back acc (n ∷ m ∷ ms) h small =
    core_back acc n (44 ∷ cores_text (m ∷ ms)) small.0 (omega arith) refl
    ∙ cores_back (acc ++ (n ∷ [])) (m ∷ ms) (omega (arith, length-append acc (n ∷ []))) small.1
    ∙ append_assoc acc (n ∷ []) (m ∷ ms)

-- A member as the voice hears of it.
abbrev pub heard_as : Member → Voice
heard_as m = record { id = m.id; activity = letter_activity m.state; priority = m.priority }

abbrev pub heard_all : List Member → List Voice
heard_all [] = []
heard_all (m ∷ ms) = heard_as m ∷ heard_all ms

-- A member whose key can be told from the next one's.
pub record Clear (m : Member) : Type 0 where
  pub id : nonempty m.id ≡ true
  pub fits : length m.id ≤ 15
  pub plain : All (λ c. (c ≢ 44) × (c ≢ 58)) m.id
  pub solid : Solid m.id
  pub state : m.state ≢ 44
  pub letter : is_delim m.state ≡ false
  pub priority : m.priority ≤ 5

-- No colon and no comma.
abbrev pub Plain : Member → Type 0
Plain m = All (λ c. (c ≢ 44) × (c ≢ 58)) m.id

pub Clear-Sound : (m : Member) → Sound m → Plain m → Clear m
Clear-Sound m s p = record {
  id = s.id;
  fits = s.fits;
  plain = p;
  solid = solid m.id s.plain;
  state = ground (arith, s.letter);
  letter = ground (arith, s.letter);
  priority = s.priority;
}
  where
    solid : (id : Bytes) → All (λ c. is_space c ≡ false) id → Solid id
    solid [] h = tt
    solid (c ∷ id) h = (ground (arith, h.0), solid id h.1)

strchr-plain :
    (id rest : Bytes)
    → All (λ c. (c ≢ 44) × (c ≢ 58)) id
    → strchr 58 (id ++ (58 ∷ rest)) ≡ some (id, rest)
unfolding strchr
strchr-plain [] rest h = refl
strchr-plain (c ∷ id) rest h = ground (arith, strchr-plain id rest h.1, h.0)

no_comma : (id : Bytes) → All (λ c. (c ≢ 44) × (c ≢ 58)) id → has 44 id ≡ false
unfolding has
no_comma [] h = refl
no_comma (c ∷ id) h = ground (arith, no_comma id h.1, h.0)

priority_digit : (p : ℕ) → p ≤ 5 → decimal 10 p ≡ (48 + p) ∷ []
unfolding decimal
priority_digit p h = ground arith

abbrev key_text : Member → Bytes → Bytes
key_text m rest = m.id ++ (58 ∷ m.state ∷ (48 + m.priority) ∷ rest)

abbrev entry : Member → Bytes → Voice
entry m rest = voice_of (m.id, m.state ∷ (48 + m.priority) ∷ rest)

entry_back : (m : Member) (rest : Bytes) → Clear m → entry m rest ≡ heard_as m
entry_back m rest h =
    ap
      (λ i. record {
        id = i;
        activity = letter_activity m.state;
        priority = (entry m rest).priority;
      })
      (take_all 15 m.id h.fits)
    ∙ ap (λ p. record { id = m.id; activity = letter_activity m.state; priority = p })
        (ground (arith, h.priority))

voice_found :
    (m : Member) (rest : Bytes)
    → Clear m
    → one_voice (strchr 58 (key_text m rest)) ≡ some (heard_as m)
voice_found m rest h =
    ap one_voice (strchr-plain m.id (m.state ∷ (48 + m.priority) ∷ rest) h.plain)
    ∙ ap (λ b. if b && not (has 44 m.id) then some (entry m rest) else none) h.id
    ∙ ap (λ b. if not b then some (entry m rest) else none) (no_comma m.id h.plain)
    ∙ ap some (entry_back m rest h)

after-key :
    (m : Member) (rest : Bytes) → Clear m → after_commas (key_text m rest) ≡ after_commas rest
unfolding after_commas
after-key m rest h = after-Bare m.id _ (bare m.id h.plain) ∙ ground (arith, h.state, h.priority)
  where
    bare : (id : Bytes) → All (λ c. (c ≢ 44) × (c ≢ 58)) id → Bare id
    bare [] h = tt
    bare (c ∷ id) h = (h.0.0, bare id h.1)

voice_back :
    (acc : List Voice) (m : Member) (rest : Bytes)
    → Clear m
    → length acc < 8
    → read_crew acc (places (key_text m rest))
      ≡ read_crew (acc ++ (heard_as m ∷ [])) (after_commas rest)
unfolding read_crew
voice_back acc m rest h room =
    let small : ltb (length acc) 8 ≡ true = lt→ltb (length acc) 8 room in
    ap (λ o. read_crew (add_voice acc o) (after_commas (key_text m rest))) (voice_found m rest h)
    ∙ ap
        (λ b.
          read_crew (if b then acc ++ (heard_as m ∷ []) else acc) (after_commas (key_text m rest)))
        small
    ∙ ap (read_crew (acc ++ (heard_as m ∷ []))) (after-key m rest h)

unfoldable pub crew_text : List Member → Bytes
crew_text ms = flat (member_keys true ms)

-- The keys of the members, with the digit of each priority.
key_shape : (m : Member) (rest : Bytes) → Clear m → member_key true m ++ rest ≡ key_text m rest
key_shape m rest h =
    append_assoc m.id (58 ∷ m.state ∷ decimal 10 m.priority) rest
    ∙ ap (λ d. m.id ++ (58 ∷ m.state ∷ (d ++ rest))) (priority_digit m.priority h.priority)

pub crew_back :
    (acc : List Voice) (ms : List Member)
    → length acc + length ms ≤ 8
    → All Clear ms
    → read_crew acc (places (crew_text ms)) ≡ acc ++ heard_all ms
unfolding crew_text member_keys read_crew after_commas strchr
crew_back acc [] h clear = sym (append-nil acc)
crew_back acc (m ∷ []) h clear =
    ap (λ t. read_crew acc (places t)) (key_shape m [] clear.0)
    ∙ voice_back acc m [] clear.0 (omega arith)
crew_back acc (m ∷ n ∷ ms) h clear =
    ap (λ t. read_crew acc (places t)) (key_shape m (44 ∷ crew_text (n ∷ ms)) clear.0)
    ∙ voice_back acc m (44 ∷ crew_text (n ∷ ms)) clear.0 (omega arith)
    ∙ crew_back (acc ++ (heard_as m ∷ [])) (n ∷ ms)
        (omega (arith, length-append acc (heard_as m ∷ []))) clear.1
    ∙ append_assoc acc (heard_as m ∷ []) (heard_all (n ∷ ms))

-- What is printed holds no white space.
Solid-digits : (b : Bytes) → All (λ c. (48 ≤ c) × (c ≤ 57)) b → Solid b
Solid-digits [] h = tt
Solid-digits (c ∷ b) h = (ground (arith, h.0.0), Solid-digits b h.1)

pub Solid-decimal : (n : ℕ) → Solid (decimal 10 n)
Solid-decimal n = Solid-digits (decimal 10 n) (digits 10 n)

pub Solid-append : (a b : Bytes) → Solid a → Solid b → Solid (a ++ b)
Solid-append [] b h k = k
Solid-append (c ∷ a) b h k = (h.0, Solid-append a b h.1 k)

pub Solid-cores : (first : Bool) (ns : List ℕ) → Solid (flat (core_numbers first ns))
unfolding core_numbers
Solid-cores first [] = tt
Solid-cores true (n ∷ ns) = Solid-append (decimal 10 n) _ (Solid-decimal n) (Solid-cores false ns)
Solid-cores false (n ∷ ns) =
    (refl, Solid-append (decimal 10 n) _ (Solid-decimal n) (Solid-cores false ns))

Solid-member : (m : Member) → Clear m → Solid (member_key true m)
Solid-member m h = Solid-append m.id _ h.solid (refl, (h.letter, Solid-decimal m.priority))

pub Solid-members :
    (first : Bool) (ms : List Member) → All Clear ms → Solid (flat (member_keys first ms))
unfolding member_keys
Solid-members first [] h = tt
Solid-members true (m ∷ ms) h =
    Solid-append (member_key true m) _ (Solid-member m h.0) (Solid-members false ms h.1)
Solid-members false (m ∷ ms) h =
    (refl, Solid-append (member_key true m) _ (Solid-member m h.0) (Solid-members false ms h.1))
