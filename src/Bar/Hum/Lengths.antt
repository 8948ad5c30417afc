-- ===== src/Bar/Hum/Lengths.antt =====
-- How long the pieces of a HUM line are.
use syn_os.Common.{
  ℕ, zero, suc, ◌*◌, ◌≤◌, ◌≡◌, ap, arith, Bool, true, false, List, [], ◌∷◌, ◌++◌, Bytes, All, codes,
  length, length-append,
}
use syn_os.Io.Clean.{flat}
use syn_os.Cstring.{decimal}
use syn_os.Hum.Crew.{Member, comma, zero_one, member_key, member_keys, present}
use syn_os.Hum.Line.{Steps, steps_head, core_numbers}
use syn_os.Bar.Hum.Tokens.{spaced, spaced-short}
use syn_os.Bar.Hum.Values.{length-decimal, Clear}
use syn_os.Bar.Hum.Words.{word, head_words, head_spaced}

-- The lengths of the pieces.
pub cores-short :
    (first : Bool) (ns : List ℕ) → length (flat (core_numbers first ns)) ≤ 11 * length ns
unfolding core_numbers
cores-short first [] = omega arith
cores-short first (n ∷ ns) = one first (length-decimal 10 n) (cores-short false ns)
  where
    one :
        (first : Bool)
        → length (decimal 10 n) ≤ 10
        → length (flat (core_numbers false ns)) ≤ 11 * length ns
        → length ((comma first ++ decimal 10 n) ++ flat (core_numbers false ns))
          ≤ 11 * suc (length ns)
    one true d h = omega (arith, length-append (decimal 10 n) (flat (core_numbers false ns)))
    one false d h = omega (arith, length-append (decimal 10 n) (flat (core_numbers false ns)))

pub member-short : (first : Bool) (m : Member) → Clear m → length (member_key first m) ≤ 28
member-short true m h = omega (
  arith,
  length-append m.id (58 ∷ m.state ∷ decimal 10 m.priority),
  length-decimal 10 m.priority,
  h.fits,
)
member-short false m h = omega (
  arith,
  length-append m.id (58 ∷ m.state ∷ decimal 10 m.priority),
  length-decimal 10 m.priority,
  h.fits,
)

pub members-short :
    (first : Bool) (ms : List Member)
    → All Clear ms
    → length (flat (member_keys first ms)) ≤ 28 * length ms
unfolding member_keys
members-short first [] h = omega arith
members-short first (m ∷ ms) h = omega (
  arith,
  length-append (member_key first m) (flat (member_keys false ms)),
  member-short first m h.0,
  members-short false ms h.1,
)

pub length-present : (n : ℕ) (slots : List Member) → length (present n slots) ≤ n
unfolding present
length-present zero slots = omega arith
length-present (suc n) [] = omega arith
length-present (suc n) (m ∷ slots) = omega (arith, length-present n slots)

pub flag-short : (b : Bool) → length (zero_one b) ≤ 10
flag-short true = omega arith
flag-short false = omega arith

pub word-short :
    (key value : Bytes) → length key ≤ 7 → length value ≤ 10 → length (word key value) ≤ 18
word-short key value h k = omega (arith, length-append key (61 ∷ value))

pub words-short :
    (st : Steps) (style volume : Bytes)
    → length style ≤ 8
    → length volume ≤ 8
    → All (λ w. length w ≤ 18) (head_words st style volume)
words-short st style volume hs hv = (
  word-short (codes "style") style (omega arith) (omega arith),
  (
    word-short (codes "volume") volume (omega arith) (omega arith),
    (
      number-short (codes "stall") st.stall (omega arith),
      (
        number-short (codes "net") st.net (omega arith),
        (
          number-short (codes "disk") st.disk (omega arith),
          (
            word-short (codes "error") _ (omega arith) (flag-short st.error),
            (
              word-short (codes "inbound") _ (omega arith) (flag-short st.inbound),
              (
                number-short (codes "spawn") st.spawn (omega arith),
                (
                  number-short (codes "sched") st.sched (omega arith),
                  (
                    number-short (codes "cpuwait") st.cpu_wait (omega arith),
                    (number-short (codes "iowait") st.io_wait (omega arith), tt),
                  ),
                ),
              ),
            ),
          ),
        ),
      ),
    ),
  ),
)
  where
    number-short : (key : Bytes) (n : ℕ) → length key ≤ 7 → length (word key (decimal 10 n)) ≤ 18
    number-short key n h = word-short key (decimal 10 n) h (length-decimal 10 n)

pub head-short :
    (st : Steps) (style volume : Bytes)
    → length style ≤ 8
    → length volume ≤ 8
    → length (steps_head st style volume) ≤ 231
head-short st style volume hs hv =
    let shape : length (steps_head st style volume)
        ≡ suc (
            suc (
              suc
                (length (spaced (head_words st style volume ++ (word (codes "cores") [] ∷ [])))))) =
      ap length (head_spaced st style volume) in
    let short : length (spaced (head_words st style volume ++ (word (codes "cores") [] ∷ [])))
        ≤ 228 =
      spaced-short 18 _ (snoc (words-short st style volume hs hv)) in
    omega (arith, shape, short)
  where
    snoc :
        All (λ w. length w ≤ 18) (head_words st style volume)
        → All (λ w. length w ≤ 18) (head_words st style volume ++ (word (codes "cores") [] ∷ []))
    snoc (a, (b, (c, (d, (e, (f, (g, (h, (i, (j, (k, l))))))))))) =
        (a, (b, (c, (d, (e, (f, (g, (h, (i, (j, (k, (omega arith, tt))))))))))))
