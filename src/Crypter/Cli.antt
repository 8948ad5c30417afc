-- ===== src/Crypter/Cli.antt =====
-- `syn_crypt_read_secret` and `run_cli`: the command line of syn-crypter.
pub mod Usage
use syn_os.Common.{
  ◌+◌, ◌<◌, ◌≡◌, ◌≢◌, ◌++◌, ◌∙◌, refl, ap, arith, All, ℕ, suc, zero, Bool, true, false, not, ◌||◌,
  Option, none, some, List, [], ◌∷◌, Bytes, codes, bytes_eq, length, get_elem?, ltb, ◌==◌, ◌-◌,
  if◌then◌else◌,
}
use syn_os.Io.{Call, ◌>>=◌, return}
use syn_os.Crypter.Ssl.{Ssl}
use syn_os.Crypter.Redshirt.{Variant, v1_redshirt, v2_redshrt2, v3_synx}
use syn_os.Crypter.Main.{run_operation}

-- `fgets(buf, n + 1, stdin)`: the bytes that it stores
fgets : ℕ → Bytes → Bytes
fgets n [] = []
fgets n (c ∷ cs) =
    let rest = fgets (n - 1) cs in if n == 0 then [] else if c == b'\n' then c ∷ [] else c ∷ rest

-- A buffer read as a C string: up to the first NUL.
c_string : Bytes → Bytes
c_string [] = []
c_string (c ∷ cs) = let rest = c_string cs in if c == 0 then [] else c ∷ rest

-- `if (len > 0 && buf[len - 1] == '\n') buf[len - 1] = 0;`
chop : Bytes → Bytes
chop [] = []
chop (c ∷ []) = if c == b'\n' then [] else c ∷ []
chop (c ∷ d ∷ cs) = c ∷ chop (d ∷ cs)

stored : ℕ → Bytes → Option Bytes
stored n [] = none
stored n (c ∷ cs) = some (chop (c_string (fgets n (c ∷ cs))))

-- `syn_crypt_read_secret(buf, buflen)`: `none` is its -1, at the end of stdin
unfoldable pub read_secret : ℕ → Bytes → Option Bytes
unfolding stored fgets c_string chop
read_secret buflen stdin = stored (buflen - 1) stdin

-- A password that can be given: no line end and no NUL.
abbrev pub OneLine : Bytes → Type 0
OneLine s = All (λ c. (c ≢ 0) × (c ≢ 10)) s

fgets-line :
    (n : ℕ) (s rest : Bytes)
    → OneLine s
    → length s < n
    → fgets n (s ++ (10 ∷ rest)) ≡ s ++ (10 ∷ [])
unfolding fgets
fgets-line n [] rest line fits = ground arith
fgets-line n (c ∷ s) rest line fits = ground (arith, fgets-line (n - 1) s rest line.1)

c_string-line : (s : Bytes) → OneLine s → c_string (s ++ (10 ∷ [])) ≡ s ++ (10 ∷ [])
unfolding c_string
c_string-line [] line = refl
c_string-line (c ∷ s) line = ground (arith, c_string-line s line.1)

chop-line : (s : Bytes) → OneLine s → chop (s ++ (10 ∷ [])) ≡ s
unfolding chop
chop-line [] line = refl
chop-line (c ∷ []) line = refl
chop-line (c ∷ d ∷ s) line = ap (λ t. c ∷ t) (chop-line (d ∷ s) line.1)

stored-there : (n c : ℕ) (s : Bytes) → stored n (c ∷ s) ≡ some (chop (c_string (fgets n (c ∷ s))))
unfolding stored
stored-there n c s = refl

stored-line :
    (n : ℕ) (s rest : Bytes)
    → stored n (s ++ (10 ∷ rest)) ≡ some (chop (c_string (fgets n (s ++ (10 ∷ rest)))))
stored-line n [] rest = stored-there n 10 rest
stored-line n (c ∷ s) rest = stored-there n c (s ++ (10 ∷ rest))

-- A password that fits with its line end is read as it was typed.
pub read_secret_line :
    (buflen : ℕ) (s rest : Bytes)
    → OneLine s
    → length s + 1 < buflen
    → read_secret buflen (s ++ (10 ∷ rest)) ≡ some s
unfolding read_secret
read_secret_line buflen s rest line fits =
    stored-line (buflen - 1) s rest
    ∙ ap (λ t. some (chop (c_string t))) (fgets-line (buflen - 1) s rest line (omega arith))
    ∙ ap (λ t. some (chop t)) (c_string-line s line)
    ∙ ap some (chop-line s line)

abbrev pub max_password_len : ℕ
max_password_len = 4096

-- What the program prints and plays at its end. Only `complete` is the exit status 0.
pub data Exit : Type 0 where
  usage : Exit
  no_secret : Exit
  failed : Bool → Bytes → Exit
  complete : Bool → Exit

abbrev pub arg : List Bytes → ℕ → Bytes
arg argv i = elim (get_elem? argv i) [ none ↦ [] | some a ↦ a ]

-- the end of `run_cli`, on `rc` and `err`
abbrev pub report : Bool → Option Bytes → Call Exit
report encrypt none = return (complete encrypt)
report encrypt (some err) = return (failed encrypt err)

module _ (ssl : Ssl) where
  unfoldable pub with_secret : Bool → Bytes → Bytes → Option Bytes → Call Exit
  with_secret encrypt algo file none = return no_secret
  with_secret encrypt algo file (some password) = do
    err ← run_operation ssl encrypt algo file password v3_synx
    report encrypt err

  unfoldable pub with_key : Bool → Bytes → Bytes → Bytes → Variant → Call Exit
  with_key encrypt algo file key variant = do
    err ← run_operation ssl encrypt algo file key variant
    report encrypt err

  -- `--encrypt --redshirt <variant> <file>`
  unfoldable pub redshirt_encrypt : List Bytes → Call Exit
  redshirt_encrypt argv =
      if not (length argv == 5)
      then return usage
      else if bytes_eq (arg argv 3) (codes "--redshirt")
      then with_key true (codes "redshirt") (arg argv 4) [] v1_redshirt
      else if bytes_eq (arg argv 3) (codes "--redshrt2")
      then with_key true (codes "redshirt") (arg argv 4) [] v2_redshrt2
      else if bytes_eq (arg argv 3) (codes "--synx")
      then with_key true (codes "redshirt") (arg argv 4) [] v3_synx
      else return usage

  -- the branches on `algo_flag`
  unfoldable pub run_algo : Bool → List Bytes → Bytes → Call Exit
  unfolding redshirt_encrypt
  run_algo encrypt argv stdin =
      let algo_flag = arg argv 2 in
      if bytes_eq algo_flag (codes "--aes") || bytes_eq algo_flag (codes "--blowfish")
      then (if not (length argv == 4)
          then return usage
          else with_secret encrypt
              (if bytes_eq algo_flag (codes "--aes") then codes "aes" else codes "blowfish")
              (arg argv 3) (read_secret max_password_len stdin))
      else if bytes_eq algo_flag (codes "--rsa")
      then (if not (length argv == 5)
          then return usage
          else with_key encrypt (codes "rsa") (arg argv 4) (arg argv 3) v3_synx)
      else if bytes_eq algo_flag (codes "--redshirt")
      then (if encrypt
          then redshirt_encrypt argv
          else if not (length argv == 4)
          then return usage
          else with_key encrypt (codes "redshirt") (arg argv 3) [] v3_synx)
      else return usage

  -- `run_cli`; `argv` begins with the program's name
  unfoldable pub run_cli : List Bytes → Bytes → Call Exit
  unfolding run_algo
  run_cli argv stdin =
      if ltb (length argv) 4
      then return usage
      else if bytes_eq (arg argv 1) (codes "--encrypt")
      then run_algo true argv stdin
      else if bytes_eq (arg argv 1) (codes "--decrypt")
      then run_algo false argv stdin
      else return usage
