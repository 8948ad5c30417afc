-- ===== src/Hum/Line.antt =====
-- syn_hum_map.c: the line in which syn-hum tells syn-bar-core the steps, with the crew after them as
-- main.c puts it.
use syn_os.Common.{
  ℕ, ◌-◌, Bool, true, false, Option, none, some, List, [], ◌∷◌, ◌++◌, Bytes, codes, length,
}
use syn_os.Cstring.{decimal}
use syn_os.Hum.Crew.{Crew, comma, zero_one, put_all, whole, crew_keys}

-- `syn_hum_steps`: the steps are not negative, and `error` and `inbound` are 0 or 1.
pub record Steps : Type 0 where
  pub cores : List ℕ
  pub stall : ℕ
  pub net : ℕ
  pub disk : ℕ
  pub error : Bool
  pub inbound : Bool
  pub spawn : ℕ
  pub sched : ℕ
  pub cpu_wait : ℕ
  pub io_wait : ℕ

-- " key=value"
abbrev pub field : Bytes → Bytes → Bytes
field key value = 32 ∷ (key ++ (61 ∷ value))

abbrev pub number : Bytes → ℕ → Bytes
number key n = field key (decimal 10 n)

-- What the first `snprintf` prints; `volume` is the C library's "%.2f" of the gain.
unfoldable pub steps_head : Steps → Bytes → Bytes → Bytes
steps_head st style volume =
    codes "HUM"
    ++ (field (codes "style") style
        ++ (field (codes "volume") volume
            ++ (number (codes "stall") st.stall
                ++ (number (codes "net") st.net
                    ++ (number (codes "disk") st.disk
                        ++ (field (codes "error") (zero_one st.error)
                            ++ (field (codes "inbound") (zero_one st.inbound)
                                ++ (number (codes "spawn") st.spawn
                                    ++ (number (codes "sched") st.sched
                                        ++ (number (codes "cpuwait") st.cpu_wait
                                            ++ (number (codes "iowait") st.io_wait
                                                ++ field (codes "cores") [])))))))))))

unfoldable pub core_numbers : Bool → List ℕ → List Bytes
core_numbers first [] = []
core_numbers first (n ∷ cores) = (comma first ++ decimal 10 n) ∷ core_numbers false cores

-- `syn_hum_steps_line`: the text, `none` for -1
unfoldable pub steps_line : Steps → Bytes → Bytes → ℕ → Option Bytes
steps_line st style volume len =
    whole len (put_all len (steps_head st style volume) (core_numbers true st.cores))

abbrev pub followed : Bytes → Option Bytes → Option Bytes
followed line none = none
followed line (some keys) = some (line ++ keys)

abbrev pub with_crew : Crew → ℕ → Option Bytes → Option Bytes
with_crew c len none = none
with_crew c len (some line) = followed line (crew_keys c (len - length line))

-- The line that the daemon sends each time, in its buffer of 1024 bytes, `none` where it sends none.
unfoldable pub hum_line : Steps → Bytes → Bytes → Crew → Option Bytes
hum_line st style volume c = with_crew c 1024 (steps_line st style volume 1024)
