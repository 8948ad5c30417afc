-- ===== src/IsoBuilder/Edition/Recovered.antt =====
-- What the builder reads back from the status of an LFS edition.
use syn_os.Common.{
  ℕ, ◌≤◌, ◌≡◌, refl, sym, ap, ◌∙◌, arith, Bool, true, false, not, Option, none, some, List, [], ◌∷◌,
  ◌++◌, append_assoc, All, Bytes, codes, length, length-append, take, take_all, take-append, ◌==◌,
}
use syn_os.Cstring.{starts_with, snprintf_s}
use syn_os.IsoBuilder.Edition.{
  EditionState, Edition, state_line, state_lines, iso_line, strrchr, until_paren, path_len,
  when_text, no_state, sized, with_size, text_lines, edition_read_state, or_here, cons_before,
}
use syn_os.IsoBuilder.Edition.Order.{having}
use syn_os.IsoBuilder.Edition.Status.{
  step_lines, next_step, unrecorded_lines, iso_lines, all_done, lfs_status, print_lines, Line,
  IsoLine, DirLine, text_lines_printed, lfs_status-Line,
}
use syn_os.IsoBuilder.Edition.Steps.{
  counted, counted-same, next_left, is_some, state_lines-append, steps-read, unrecorded-read,
  all_done-read,
}

-- Text without parentheses.
abbrev pub Plain : Bytes → Type 0
Plain s = All (λ c. (c == 40 ≡ false) × (c == 41 ≡ false)) s

strrchr-Plain : (s : Bytes) → Plain s → strrchr 40 (s ++ (41 ∷ [])) ≡ none
unfolding strrchr
strrchr-Plain [] h = refl
strrchr-Plain (c ∷ s) h =
    ap (λ r. or_here (c == 40) (s ++ (41 ∷ [])) (cons_before c r)) (strrchr-Plain s h.1)
    ∙ ap (λ b. or_here b (s ++ (41 ∷ [])) none) h.0.0

strrchr-last :
    (before after : Bytes)
    → strrchr 40 after ≡ none
    → strrchr 40 (before ++ (40 ∷ after)) ≡ some (before, after)
unfolding strrchr
strrchr-last [] after h = ap (λ r. or_here true after (cons_before 40 r)) h
strrchr-last (c ∷ before) after h =
    ap (λ r. or_here (c == 40) (before ++ (40 ∷ after)) (cons_before c r))
      (strrchr-last before after h)

until_paren-Plain : (s : Bytes) → Plain s → until_paren (s ++ (41 ∷ [])) ≡ s
unfolding until_paren
until_paren-Plain [] h = refl
until_paren-Plain (c ∷ s) h = rw (h.0.1, until_paren-Plain s h.1)

path_len-space :
    (path whole after : Bytes) → path_len whole (some (path ++ (32 ∷ []), after)) ≡ length path
path_len-space [] whole after = refl
path_len-space (c ∷ path) whole after = omega (arith, length-append path (32 ∷ []))

-- The line of the newest ISO.
iso-read :
    (path when : Bytes) (st : EditionState)
    → Plain when
    → iso_line st (path ++ (codes " (" ++ (when ++ codes ")")))
      ≡ record st { newest_iso = snprintf_s 1024 path; newest_when = snprintf_s 32 when }
unfolding iso_line
iso-read path when st h =
    let text : Bytes = path ++ (32 ∷ 40 ∷ (when ++ (41 ∷ []))) in
    let found : strrchr 40 text ≡ some (path ++ (32 ∷ []), when ++ (41 ∷ [])) =
      ap (strrchr 40) (sym (append_assoc path (32 ∷ []) (40 ∷ (when ++ (41 ∷ [])))))
      ∙ strrchr-last (path ++ (32 ∷ [])) (when ++ (41 ∷ [])) (strrchr-Plain when h) in
    let whole : take (path_len text (some (path ++ (32 ∷ []), when ++ (41 ∷ [])))) text ≡ path =
      ap (λ n. take n text) (path_len-space path text (when ++ (41 ∷ [])))
      ∙ take-append (length path) path _ refl in
    ap
      (λ w. record st {
        newest_iso = snprintf_s 1024 (take (path_len text w) text);
        newest_when = when_text st.newest_when w;
      })
      found
    ∙ ap
        (λ p. record st {
          newest_iso = snprintf_s 1024 p;
          newest_when = snprintf_s 32 (until_paren (when ++ (41 ∷ [])));
        })
        whole
    ∙ ap (λ d. record st { newest_iso = snprintf_s 1024 path; newest_when = snprintf_s 32 d })
        (until_paren-Plain when h)

abbrev pub iso_name : Option (Bytes × Bytes) → Bytes
iso_name none = []
iso_name (some iso) = snprintf_s 1024 iso.0

abbrev pub iso_date : Option (Bytes × Bytes) → Bytes
iso_date none = []
iso_date (some iso) = snprintf_s 32 iso.1

abbrev pub size_or_0 : Option ℕ → ℕ
size_or_0 none = 0
size_or_0 (some size) = size

-- The size of the file where a name is recorded and the file is there, or 0.
abbrev pub iso_size : (Bytes → Option ℕ) → Bytes → ℕ
iso_size size_of [] = 0
iso_size size_of (c ∷ path) = size_or_0 (size_of (c ∷ path))

abbrev pub PlainDate : Option (Bytes × Bytes) → Type 0
PlainDate none = Unit
PlainDate (some iso) = Plain iso.1

iso_lines-read :
    (newest : Option (Bytes × Bytes)) (st : EditionState)
    → PlainDate newest
    → st.newest_iso ≡ []
    → st.newest_when ≡ []
    → state_lines st (iso_lines newest)
      ≡ record st { newest_iso = iso_name newest; newest_when = iso_date newest }
unfolding state_lines state_line starts_with
iso_lines-read none st h i w =
    ap (λ p. record st { newest_iso = p }) i
    ∙ ap (λ d. record st { newest_iso = []; newest_when = d }) w
iso_lines-read (some iso) st h i w = iso-read iso.0 iso.1 st h

-- The state that tells what was printed.
abbrev pub told :
    (Bytes → Option ℕ)
    → Option Bytes
    → (Bytes → Bool)
    → List Bytes
    → Option (Bytes × Bytes)
    → EditionState
told size_of unrecorded recorded steps newest = record {
  steps = length steps;
  done = length (having recorded steps);
  next = next_left [] (having (λ s. not (recorded s)) steps);
  unrecorded = is_some unrecorded;
  newest_iso = iso_name newest;
  newest_when = iso_date newest;
  newest_size = iso_size size_of (iso_name newest);
}

status-read :
    (size_of : Bytes → Option ℕ) (unrecorded : Option Bytes) (recorded : Bytes → Bool)
    (steps : List Bytes) (newest : Option (Bytes × Bytes))
    → All Line steps
    → PlainDate newest
    → state_lines no_state (lfs_status unrecorded recorded steps newest)
      ≡ record (told size_of unrecorded recorded steps newest) { newest_size = 0 }
unfolding lfs_status
status-read size_of unrecorded recorded steps newest h plain =
    let before : List Bytes = unrecorded_lines unrecorded in
    let middle : List Bytes = step_lines recorded [] steps in
    let done : List Bytes = all_done (next_step recorded [] steps) in
    let last : List Bytes = iso_lines newest in
    let base : EditionState = record no_state { unrecorded = is_some unrecorded } in
    let counts : EditionState =
      counted base (length steps) (length (having recorded steps))
        (next_left [] (having (λ s. not (recorded s)) steps)) in
    state_lines-append no_state before (middle ++ (done ++ last))
    ∙ ap (λ st. state_lines st (middle ++ (done ++ last))) (unrecorded-read unrecorded)
    ∙ state_lines-append base middle (done ++ last)
    ∙ ap (λ st. state_lines st (done ++ last))
        (steps-read recorded steps base h
          ∙ counted-same base (next_left [] (having (λ s. not (recorded s)) steps)) (omega arith)
              (omega arith))
    ∙ state_lines-append counts done last
    ∙ ap (λ st. state_lines st last) (all_done-read (next_step recorded [] steps) counts)
    ∙ iso_lines-read newest counts plain refl refl

with_size-none :
    (st : EditionState) (o : Option ℕ)
    → st.newest_size ≡ 0
    → with_size st o ≡ record st { newest_size = size_or_0 o }
with_size-none st none h = ap (λ n. record st { newest_size = n }) h
with_size-none st (some size) h = refl

sized-iso :
    (size_of : Bytes → Option ℕ) (st : EditionState) (name : Bytes)
    → st.newest_size ≡ 0
    → sized size_of st name ≡ record st { newest_size = iso_size size_of name }
sized-iso size_of st [] h = ap (λ n. record st { newest_size = n }) h
sized-iso size_of st (c ∷ name) h = with_size-none st (size_of (c ∷ name)) h

-- For the status of an LFS edition, printed as one text of at most 8191 bytes: where the names of the
-- steps are not empty, no line end is in them, in the path and date of the ISO or in the directory,
-- and no parenthesis in the date, the state that is read back has as many steps as there are, has done
-- those that are recorded, has as next the first 63 bytes of the first that is not, or "", tells
-- whether there is no record, and has the first 1023 bytes of the path and 31 of the date of the
-- ISO, and its size, or "" and 0.
pub status-recovered :
    (size_of : Bytes → Option ℕ) (unrecorded : Option Bytes) (recorded : Bytes → Bool)
    (steps : List Bytes) (newest : Option (Bytes × Bytes)) (e : Edition)
    → DirLine unrecorded
    → All Line steps
    → IsoLine newest
    → PlainDate newest
    → length (print_lines (lfs_status unrecorded recorded steps newest)) ≤ 8191
    → (edition_read_state
        (λ name. some (print_lines (lfs_status unrecorded recorded steps newest)))
        size_of
        e).state
      ≡ told size_of unrecorded recorded steps newest
unfolding edition_read_state
status-recovered size_of unrecorded recorded steps newest e d h i plain fits =
    let lines : List Bytes = lfs_status unrecorded recorded steps newest in
    let cut : text_lines (take 8191 (print_lines lines)) ≡ lines =
      ap text_lines (take_all 8191 (print_lines lines) fits)
      ∙ text_lines_printed lines (lfs_status-Line unrecorded recorded steps newest d h i) in
    ap (λ st. sized size_of st st.newest_iso)
      (ap (state_lines no_state) cut ∙ status-read size_of unrecorded recorded steps newest h plain)
    ∙ sized-iso size_of _ (iso_name newest) refl
