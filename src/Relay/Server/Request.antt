-- ===== src/Relay/Server/Request.antt =====
-- A launch request reaches the application that it names, and the client learns how it went.
use syn_os.Common.{
  ℕ, ◌&&◌, if◌then◌else◌, ◌<◌, ◌≡◌, refl, ◌∙◌, ap, arith, Bool, true, false, Option, none, some, [],
  ◌∷◌, ◌++◌, Bytes, codes, length, bytes_eq, length-append, take_all,
}
use mathlib.Core.Option
use syn_os.Io.{
  World, Outcome, Call, done, fail, continue, ◌>>=◌, return, throw, require, try, attempt,
  open_read, lookup_file, fault, succeeds, head_fault, next,
}
use syn_os.Relay.Runtime.{fopen_r}
use syn_os.Cstring.{after, fgets, starts_with, snprintf_s, trim_newline}
use syn_os.Cstring.Lines.{Line, fgets_printed, trim_printed}
use syn_os.Relay.Json.{json_bool, find_value_start}
use syn_os.Relay.Apps.{launch, parse_desktop_file, parsed, strip_field_codes}
use syn_os.Relay.Server.{
  Host, Answer, launch_answer, handle_launch_app, dispatch, answer_line, handle_client,
  request_line, launch_command, launch_ok, reply_text,
}

Line-launch : (id : Bytes) → Line id → Line (codes "LAUNCH_APP " ++ id)
unfolding Line
Line-launch id line = ground arith

whole_request :
    (id : Bytes)
    → length id < 1012
    → request_line (launch_command id) ≡ codes "LAUNCH_APP " ++ (id ++ (10 ∷ []))
unfolding request_line launch_command
whole_request id fits =
    ap (λ c. snprintf_s 1024 (c ++ (10 ∷ [])))
      (take_all 1023 (codes "LAUNCH_APP " ++ id) (omega arith))
    ∙ take_all 1023 (codes "LAUNCH_APP " ++ (id ++ (10 ∷ [])))
        (omega (arith, length-append id (10 ∷ [])))

dispatch-launch :
    (host : Host) (id : Bytes) → dispatch host (codes "LAUNCH_APP " ++ id) ≡ handle_launch_app id
unfolding dispatch starts_with bytes_eq
dispatch-launch host id = refl

-- The request to launch an application makes the server launch the application with that id, if
-- the id has no line end or NUL and is shorter than 1012 bytes.
pub launch_request :
    (host : Host) (id : Bytes)
    → Line id
    → length id < 1012
    → handle_client host (request_line (launch_command id)) ≡ handle_launch_app id
unfolding handle_client
launch_request host id line fits =
    let command : Bytes = codes "LAUNCH_APP " ++ id in
    ap (λ r. answer_line host (fgets 1024 r)) (whole_request id fits)
    ∙ ap (answer_line host) (fgets_printed 1024 command [] (Line-launch id line) (omega arith))
    ∙ ap (dispatch host) (trim_printed command (Line-launch id line))
    ∙ dispatch-launch host id

abbrev pub started : Option Bytes → Bool
started none = false
started (some command) = true

-- The command that a launch of `id` is due to hand to the shell in a world: that of the entry in the
-- file, where the file can be opened, the entry can be listed and `fork` does not fail.
unfoldable pub due : Bytes → World → Option Bytes
due [] w = none
due (c ∷ id) w =
    if succeeds (head_fault w.faults) && succeeds (head_fault (next w).faults)
    then Option.map (λ a. strip_field_codes a.exec) (parsed (c ∷ id) (w.files (c ∷ id)))
    else none

parse_run :
    (path : Bytes) (w : World)
    → parse_desktop_file path w
      ≡ (done (if succeeds (head_fault w.faults) then parsed path (w.files path) else none), next w)
unfolding parse_desktop_file fopen_r try open_read attempt lookup_file require return throw ◌>>=◌
parse_run path w = ground arith

launch_run : (c : ℕ) (id : Bytes) (w : World) → (launch (c ∷ id) w).0 ≡ done (due (c ∷ id) w)
unfolding launch due return ◌>>=◌
launch_run c id w =
    ap
      (λ r.
        (continue r.0
          (λ found. elim found as (λ _. Call (Option Bytes)) [
            | none ↦ return none
            | some a ↦ do
              pid ← fault
              return (if succeeds pid then some (strip_field_codes a.exec) else none)
          ])
          r.1).0)
      (parse_run (c ∷ id) w)
    ∙ ground arith

-- What the client is told, and the command that was handed to the shell.
abbrev pub outcome_of : Outcome Answer → Bool × Option Bytes
outcome_of (done a) = (launch_ok (reply_text a.text), a.launched)
outcome_of (fail s) = (false, none)

answer-ok : (r : Option Bytes) → outcome_of (done (launch_answer r)) ≡ (started r, r)
unfolding launch_ok reply_text json_bool find_value_start after starts_with trim_newline
answer-ok none = refl
answer-ok (some command) = refl

refused : (w : World) → outcome_of (handle_launch_app [] w).0 ≡ (false, none)
unfolding handle_launch_app return launch_ok reply_text json_bool find_value_start after starts_with
    trim_newline
refused w = refl

told :
    (o : Outcome (Option Bytes)) (w : World) (r : Option Bytes)
    → o ≡ done r
    → outcome_of (continue o (λ r. return (launch_answer r)) w).0 ≡ (started r, r)
unfolding return
told o w r e = ap (λ o. outcome_of (continue o (λ r. return (launch_answer r)) w).0) e ∙ answer-ok r

-- In every world, so whatever calls fail: a command reaches the shell exactly where the id is not
-- empty, its file is there and can be opened, the file has an entry that can be listed, and `fork` does
-- not fail. It is the command of the entry without its field codes, and the client is told "ok" in
-- these cases and in no others.
pub launch_told :
    (id : Bytes) (w : World)
    → outcome_of (handle_launch_app id w).0 ≡ (started (due id w), due id w)
unfolding handle_launch_app ◌>>=◌ due
launch_told [] w = refused w
launch_told (c ∷ id) w =
    told (launch (c ∷ id) w).0 (launch (c ∷ id) w).1 (due (c ∷ id) w) (launch_run c id w)
