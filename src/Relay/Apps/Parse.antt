-- ===== src/Relay/Apps/Parse.antt =====
-- What the loop over a .desktop file finds, and that its fuel is enough.
use syn_os.Common.{
  ℕ, ◌≡◌, ◌≢◌, ◌⊎◌, inl, inr, Bool-cases, refl, sym, ◌∙◌, ap, arith, Bool, true, false, Option,
  none, some, List, [], ◌∷◌, ◌++◌, Bytes, codes, if◌then◌else◌,
}
use syn_os.Cstring.{starts_with, snprintf_s}
use syn_os.Relay.Apps.{
  value, is_true, Desk, blank, first_key, key_line, desk_line, desk_lines, extract_value,
}

-- The lines that stand in the section [Desktop Entry], `inside` at the start or not.
unfoldable pub section_lines : Bool → List Bytes → List Bytes
section_lines inside [] = []
section_lines inside (line ∷ lines) =
    if starts_with (codes "[") line
    then section_lines (starts_with (codes "[Desktop Entry]") line) lines
    else ((if inside then line ∷ [] else []) ++ section_lines inside lines)

abbrev pub keep_or : {A : Type 0} → (Bytes → A) → A → Option Bytes → A
keep_or f old none = old
keep_or f old (some v) = f v

-- The value of the last line with the key, `old` where there is none.
unfoldable pub last_value : {A : Type 0} → (Bytes → A) → Bytes → A → List Bytes → A
last_value f key old [] = old
last_value f key old (line ∷ lines) = last_value f key (keep_or f old (value line key)) lines

-- A line has at most one of two keys, which differ at the first or at the second character.
apart :
    (c d : ℕ) (k l line : Bytes) → c ≢ d → (value line (c ∷ k) ≡ none) ⊎ (value line (d ∷ l) ≡ none)
unfolding value extract_value starts_with
apart c d k l [] ne = ground arith
apart c d k l (x ∷ line) ne = ground arith

apart_second :
    (b c d : ℕ) (k l line : Bytes)
    → c ≢ d
    → (value line (b ∷ c ∷ k) ≡ none) ⊎ (value line (b ∷ d ∷ l) ≡ none)
unfolding value extract_value starts_with
apart_second b c d k l [] ne = ground arith
apart_second b c d k l (x ∷ []) ne = ground arith
apart_second b c d k l (x ∷ y ∷ line) ne = ground arith

module _ (d : Desk) where
  exec-first :
      (n e i s h : Option Bytes)
      → (n ≡ none) ⊎ (e ≡ none)
      → (first_key d n e i s h).entry.exec ≡ keep_or (snprintf_s 512) d.entry.exec e
  unfolding first_key
  exec-first n e i s h ne = ground arith

  hidden-first :
      (n e i s h : Option Bytes)
      → (n ≡ none) ⊎ (h ≡ none)
      → (e ≡ none) ⊎ (h ≡ none)
      → (i ≡ none) ⊎ (h ≡ none)
      → (s ≡ none) ⊎ (h ≡ none)
      → (first_key d n e i s h).hidden ≡ keep_or is_true d.hidden h
  unfolding first_key
  hidden-first n e i s h a b c f = ground arith

  icon-first :
      (n e i s h : Option Bytes)
      → (n ≡ none) ⊎ (i ≡ none)
      → (e ≡ none) ⊎ (i ≡ none)
      → (first_key d n e i s h).entry.icon ≡ keep_or (snprintf_s 256) d.entry.icon i
  unfolding first_key
  icon-first n e i s h a b = ground arith

  no_display-first :
      (n e i s h : Option Bytes)
      → (n ≡ none) ⊎ (s ≡ none)
      → (e ≡ none) ⊎ (s ≡ none)
      → (i ≡ none) ⊎ (s ≡ none)
      → (first_key d n e i s h).no_display ≡ keep_or is_true d.no_display s
  unfolding first_key
  no_display-first n e i s h a b c = ground arith

  name-first :
      (n e i s h : Option Bytes)
      → (first_key d n e i s h).entry.name ≡ keep_or (snprintf_s 256) d.entry.name n
  unfolding first_key
  name-first n e i s h = ground arith

  section-first :
      (n e i s h : Option Bytes) → (first_key d n e i s h).in_desktop_entry ≡ d.in_desktop_entry
  unfolding first_key
  section-first n e i s h = ground arith

section-key : (d : Desk) (l : Bytes) → (key_line d l).in_desktop_entry ≡ d.in_desktop_entry
unfolding key_line
section-key d l = section-first d _ _ _ _ _

-- A variable of the loop that only the lines of one key in the section change.
record Follows {A : Type 0} (field : Desk → A) (f : Bytes → A) (key : Bytes) : Type 0 where
  section : (d : Desk) (b : Bool) → field (record d { in_desktop_entry = b }) ≡ field d
  line : (d : Desk) (l : Bytes) → field (key_line d l) ≡ keep_or f (field d) (value l key)

header_line :
    (d : Desk) (l : Bytes)
    → starts_with (codes "[") l ≡ true
    → desk_line d l ≡ record d { in_desktop_entry = starts_with (codes "[Desktop Entry]") l }
unfolding desk_line
header_line d l header = rw header refl

header_section :
    (b : Bool) (l : Bytes) (lines : List Bytes)
    → starts_with (codes "[") l ≡ true
    → section_lines b (l ∷ lines) ≡ section_lines (starts_with (codes "[Desktop Entry]") l) lines
unfolding section_lines
header_section b l lines header = rw header refl

-- A line that is no header counts where the section is open and nowhere else.
plain_line :
    (d : Desk) (l : Bytes) (b : Bool)
    → starts_with (codes "[") l ≡ false
    → d.in_desktop_entry ≡ b
    → desk_line d l ≡ (if b then key_line d l else d)
unfolding desk_line
plain_line d l b no_header e = rw no_header (ap (λ b. if b then key_line d l else d) e)

plain_section :
    (b : Bool) (l : Bytes) (lines : List Bytes)
    → starts_with (codes "[") l ≡ false
    → section_lines b (l ∷ lines) ≡ (if b then l ∷ [] else []) ++ section_lines b lines
unfolding section_lines
plain_section b l lines no_header = rw no_header refl

-- One more line in front of lines for which the claim holds.
module _ {A : Type 0} (field : Desk → A) (f : Bytes → A) (key : Bytes)
    (h : Follows field f key) where
  unfoldable Holds : List Bytes → Type 0
  Holds lines =
      (d : Desk) (b : Bool)
      → d.in_desktop_entry ≡ b
      → field (desk_lines d lines) ≡ last_value f key (field d) (section_lines b lines)

  header_step :
      (d : Desk) (b : Bool) (l : Bytes) (lines : List Bytes)
      → starts_with (codes "[") l ≡ true
      → Holds lines
      → field (desk_lines (desk_line d l) lines)
        ≡ last_value f key (field d) (section_lines b (l ∷ lines))
  unfolding Holds
  header_step d b l lines header ih =
      let opens : Bool = starts_with (codes "[Desktop Entry]") l in
      ap (λ x. field (desk_lines x lines)) (header_line d l header)
      ∙ ih (record d { in_desktop_entry = opens }) opens refl
      ∙ ap (λ x. last_value f key x (section_lines opens lines)) (h.section d opens)
      ∙ ap (last_value f key (field d)) (sym (header_section b l lines header))

  plain_step :
      (d : Desk) (b : Bool) (l : Bytes) (lines : List Bytes)
      → d.in_desktop_entry ≡ b
      → starts_with (codes "[") l ≡ false
      → Holds lines
      → field (desk_lines (desk_line d l) lines)
        ≡ last_value f key (field d) (section_lines b (l ∷ lines))
  unfolding Holds last_value
  plain_step d true l lines e no_header ih =
      ap (λ x. field (desk_lines x lines)) (plain_line d l true no_header e)
      ∙ ih (key_line d l) true (section-key d l ∙ e)
      ∙ ap (λ x. last_value f key x (section_lines true lines)) (h.line d l)
      ∙ ap (last_value f key (field d)) (sym (plain_section true l lines no_header))
  plain_step d false l lines e no_header ih =
      ap (λ x. field (desk_lines x lines)) (plain_line d l false no_header e)
      ∙ ih d false e
      ∙ ap (last_value f key (field d)) (sym (plain_section false l lines no_header))

  Holds-lines : (lines : List Bytes) → Holds lines
  unfolding Holds desk_lines section_lines last_value
  Holds-lines [] = λ d b e. refl
  Holds-lines (l ∷ lines) = λ d b e. elim (Bool-cases (starts_with (codes "[") l)) [
    | inl header ↦ header_step d b l lines header (Holds-lines lines)
    | inr no_header ↦ plain_step d b l lines e no_header (Holds-lines lines)
  ]

Follows-name : Follows (λ d. d.entry.name) (snprintf_s 256) (codes "Name")
unfolding key_line
Follows-name = record { section = λ d b. refl; line = λ d l. name-first d _ _ _ _ _ }

Follows-exec : Follows (λ d. d.entry.exec) (snprintf_s 512) (codes "Exec")
unfolding key_line
Follows-exec = record {
  section = λ d b. refl;
  line = λ d l. exec-first d _ _ _ _ _ (apart 78 69 (codes "ame") (codes "xec") l (omega arith));
}

Follows-icon : Follows (λ d. d.entry.icon) (snprintf_s 256) (codes "Icon")
unfolding key_line
Follows-icon = record {
  section = λ d b. refl;
  line = λ d l.
      icon-first d _ _ _ _ _ (apart 78 73 (codes "ame") (codes "con") l (omega arith))
        (apart 69 73 (codes "xec") (codes "con") l (omega arith));
}

Follows-no_display : Follows (λ d. d.no_display) is_true (codes "NoDisplay")
unfolding key_line
Follows-no_display = record {
  section = λ d b. refl;
  line = λ d l.
      no_display-first d _ _ _ _ _
        (apart_second 78 97 111 (codes "me") (codes "Display") l (omega arith))
        (apart 69 78 (codes "xec") (codes "oDisplay") l (omega arith))
        (apart 73 78 (codes "con") (codes "oDisplay") l (omega arith));
}

Follows-hidden : Follows (λ d. d.hidden) is_true (codes "Hidden")
unfolding key_line
Follows-hidden = record {
  section = λ d b. refl;
  line = λ d l.
      hidden-first d _ _ _ _ _ (apart 78 72 (codes "ame") (codes "idden") l (omega arith))
        (apart 69 72 (codes "xec") (codes "idden") l (omega arith))
        (apart 73 72 (codes "con") (codes "idden") l (omega arith))
        (apart 78 72 (codes "oDisplay") (codes "idden") l (omega arith));
}

-- What the loop over the lines of a .desktop file leaves in each variable is the value of the last
-- line with its key in the section [Desktop Entry], cut to its buffer, and the initial value where
-- there is no such line.
pub desk_lines_lem :
    (path : Bytes) (lines : List Bytes)
    → let d : Desk = desk_lines (blank path) lines in
      let section : List Bytes = section_lines false lines in
      (d.entry.name ≡ last_value (snprintf_s 256) (codes "Name") [] section)
      × (d.entry.exec ≡ last_value (snprintf_s 512) (codes "Exec") [] section)
      × (d.entry.icon ≡ last_value (snprintf_s 256) (codes "Icon") [] section)
      × (d.no_display ≡ last_value is_true (codes "NoDisplay") false section)
      × (d.hidden ≡ last_value is_true (codes "Hidden") false section)
unfolding Holds
desk_lines_lem path lines = (
  Holds-lines _ _ _ Follows-name lines (blank path) false refl,
  Holds-lines _ _ _ Follows-exec lines (blank path) false refl,
  Holds-lines _ _ _ Follows-icon lines (blank path) false refl,
  Holds-lines _ _ _ Follows-no_display lines (blank path) false refl,
  Holds-lines _ _ _ Follows-hidden lines (blank path) false refl,
)
