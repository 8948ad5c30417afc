-- ===== src/Crypter/Cli/Usage.antt =====
-- The command lines of the usage text, and what each does.
use syn_os.Common.{
  ◌<◌, ◌++◌, ◌∙◌, ap, arith, length, Option, none, some, Bool, true, false, List, [], ◌∷◌, ◌≡◌,
  refl, Bytes, codes, bytes_eq,
}
use syn_os.Io.{World, Outcome, done, fail, continue, Call, ◌>>=◌, return}
use syn_os.Crypter.Main.{run_operation}
use syn_os.Crypter.Ssl.{Ssl}
use syn_os.Crypter.Redshirt.{Variant, v1_redshirt, v2_redshrt2, v3_synx}
use syn_os.Crypter.Cli.{
  Exit, complete, failed, report, OneLine, read_secret_line, read_secret, max_password_len,
  with_secret, with_key, run_cli,
}

-- What a command line asks for.
pub data Request : Type 0 where
  -- an operation of a password algorithm: encrypt or not, the algorithm, the file
  secret : Bool → Bytes → Bytes → Request
  -- encrypt or not, the file, the PEM file
  rsa : Bool → Bytes → Bytes → Request
  -- the file; the variant to write
  redshirt_to : Bytes → Variant → Request
  redshirt_from : Bytes → Request

abbrev pub direction : Bool → Bytes
direction true = codes "--encrypt"
direction false = codes "--decrypt"

abbrev pub variant_flag : Variant → Bytes
variant_flag v1_redshirt = codes "--redshirt"
variant_flag v2_redshrt2 = codes "--redshrt2"
variant_flag v3_synx = codes "--synx"

-- The forms of the usage text.
pub data Usage : List Bytes → Request → Type 0 where
  aes :
      (prog file : Bytes) (e : Bool)
      → Usage (prog ∷ direction e ∷ codes "--aes" ∷ file ∷ []) (secret e (codes "aes") file)
  blowfish :
      (prog file : Bytes) (e : Bool)
      → Usage
          (prog ∷ direction e ∷ codes "--blowfish" ∷ file ∷ [])
          (secret e (codes "blowfish") file)
  rsa :
      (prog key file : Bytes) (e : Bool)
      → Usage (prog ∷ direction e ∷ codes "--rsa" ∷ key ∷ file ∷ []) (Request.rsa e file key)
  redshirt_to :
      (prog file : Bytes) (v : Variant)
      → Usage
          (prog ∷ codes "--encrypt" ∷ codes "--redshirt" ∷ variant_flag v ∷ file ∷ [])
          (Request.redshirt_to file v)
  redshirt_from :
      (prog file : Bytes)
      → Usage
          (prog ∷ codes "--decrypt" ∷ codes "--redshirt" ∷ file ∷ [])
          (Request.redshirt_from file)

abbrev pub encrypts : Request → Bool
encrypts (secret e algo file) = e
encrypts (rsa e file key) = e
encrypts (redshirt_to file v) = true
encrypts (redshirt_from file) = false

-- How the program ends after an operation with this result.
abbrev pub ended : Bool → Outcome (Option Bytes) → Outcome Exit
ended e (done none) = done (complete e)
ended e (done (some err)) = done (failed e err)
ended e (fail s) = fail s

module _ (ssl : Ssl) where
  -- The operation that a request names, on the password that was typed.
  abbrev pub operation : Request → Bytes → Call (Option Bytes)
  operation (secret e algo file) password = run_operation ssl e algo file password v3_synx
  operation (rsa e file key) password = run_operation ssl e (codes "rsa") file key v3_synx
  operation (redshirt_to file v) password = run_operation ssl true (codes "redshirt") file [] v
  operation (redshirt_from file) password =
      run_operation ssl false (codes "redshirt") file [] v3_synx

  -- The branch that serves a request.
  serve : Request → Bytes → Call Exit
  serve (secret e algo file) stdin =
      with_secret ssl e algo file (read_secret max_password_len stdin)
  serve (rsa e file key) stdin = with_key ssl e (codes "rsa") file key v3_synx
  serve (redshirt_to file v) stdin = with_key ssl true (codes "redshirt") file [] v
  serve (redshirt_from file) stdin = with_key ssl false (codes "redshirt") file [] v3_synx

  -- The branch of a command line of the usage text.
  run_cli_serves :
      {argv : List Bytes} {r : Request} (stdin : Bytes)
      → Usage argv r
      → run_cli ssl argv stdin ≡ serve r stdin
  unfolding run_cli bytes_eq serve
  run_cli_serves stdin (aes prog file true) = refl
  run_cli_serves stdin (aes prog file false) = refl
  run_cli_serves stdin (blowfish prog file true) = refl
  run_cli_serves stdin (blowfish prog file false) = refl
  run_cli_serves stdin (rsa prog key file true) = refl
  run_cli_serves stdin (rsa prog key file false) = refl
  run_cli_serves stdin (redshirt_to prog file v1_redshirt) = refl
  run_cli_serves stdin (redshirt_to prog file v2_redshrt2) = refl
  run_cli_serves stdin (redshirt_to prog file v3_synx) = refl
  run_cli_serves stdin (redshirt_from prog file) = refl

  report_ends :
      (e : Bool) (o : Outcome (Option Bytes)) (w : World) → continue o (report e) w ≡ (ended e o, w)
  unfolding return
  report_ends e (done none) w = refl
  report_ends e (done (some err)) w = refl
  report_ends e (fail s) w = refl

  serve_ends :
      (r : Request) (password stdin : Bytes) (w : World)
      → read_secret max_password_len stdin ≡ some password
      → serve r stdin w
        ≡ (ended (encrypts r) (operation r password w).0, (operation r password w).1)
  unfolding serve with_secret with_key ◌>>=◌
  serve_ends (secret e algo file) password stdin w h =
      ap (λ s. with_secret ssl e algo file s w) h ∙ report_ends e _ _
  serve_ends (rsa e file key) password stdin w h = report_ends e _ _
  serve_ends (redshirt_to file v) password stdin w h = report_ends true _ _
  serve_ends (redshirt_from file) password stdin w h = report_ends false _ _

  -- A command line of the usage text, with a password of at most 4094 bytes without line end and NUL
  -- as the first line of stdin, runs the operation that it names on that password, in every
  -- world, and ends as the operation did: complete where it gave no error, else with its error.
  pub run_cli_runs :
      {argv : List Bytes} {r : Request} (password rest : Bytes) (w : World)
      → Usage argv r
      → OneLine password
      → length password < 4095
      → run_cli ssl argv (password ++ (10 ∷ rest)) w
        ≡ (ended (encrypts r) (operation r password w).0, (operation r password w).1)
  run_cli_runs {r = r} password rest w u line fits =
      ap (λ m. m w) (run_cli_serves (password ++ (10 ∷ rest)) u)
      ∙ serve_ends r password (password ++ (10 ∷ rest)) w
          (read_secret_line max_password_len password rest line (omega arith))
