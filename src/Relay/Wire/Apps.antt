-- ===== src/Relay/Wire/Apps.antt =====
-- What the client makes of the reply to LIST_APPS.
use syn_os.Common.{
  ℕ, zero, suc, ◌-◌, ◌≤◌, ◌≢◌, ◌≡◌, refl, sym, ◌∙◌, ap, arith, true, false, List, [], ◌∷◌, ◌++◌,
  Bytes, All, length, drop, codes, append_assoc,
}
use mathlib.Core.List.{map}
use syn_os.Cstring.{after, starts_with}
use syn_os.Relay.Wire.{
  AppEntry, escaped, app_text, apps_text, handle_list_apps, until_quote, extract_field, field_value,
  entry_of, entry_at, id_needle, parse_from, parse_wire_reply,
}
use syn_os.Relay.Wire.Escape.{Key, after-escaped, after-quoted, starts-escaped}

-- What the client keeps of a string in a buffer of `size` bytes: the escaped text up to its first
-- quote, with no backslash taken away.
unfoldable pub seen : ℕ → Bytes → Bytes
seen size s = until_quote (size - 1) (escaped s ++ (34 ∷ []))

unfoldable pub seen_entry : AppEntry → AppEntry
seen_entry a = record {
  id = seen 512 a.id;
  name = seen 256 a.name;
  exec = seen 512 a.exec;
  icon = seen 256 a.icon;
}

until-escaped :
    (room : ℕ) (s t : Bytes)
    → until_quote room (escaped s ++ (34 ∷ t)) ≡ until_quote room (escaped s ++ (34 ∷ []))
unfolding until_quote escaped
until-escaped zero s t = refl
until-escaped (suc room) [] t = refl
until-escaped (suc zero) (c ∷ s) t = ground arith
until-escaped (suc (suc room)) (c ∷ s) t =
    ground (arith, until-escaped room s t, until-escaped (suc room) s t)

seen-ne : (room : ℕ) (s : Bytes) → s ≢ [] → seen (suc (suc room)) s ≢ []
unfolding seen until_quote escaped
seen-ne room [] ne = absurd (ne refl)
seen-ne room (c ∷ s) ne = ground arith

entry_of-cons :
    (p s : Bytes)
    → s ≢ []
    → entry_of p s
      ≡ record {
        id = s;
        name = extract_field (drop 6 p) (codes "name") 256;
        exec = extract_field (drop 6 p) (codes "exec") 512;
        icon = extract_field (drop 6 p) (codes "icon") 256;
      }
        ∷ []
entry_of-cons p [] ne = absurd (ne refl)
entry_of-cons p (c ∷ s) ne = refl

-- The text of an entry, with what follows it.
unfoldable pub entry_text : AppEntry → Bytes → Bytes
entry_text a t =
    codes "\"id\":\""
    ++ (escaped a.id
        ++ (codes "\",\"name\":\""
            ++ (escaped a.name
                ++ (codes "\",\"icon\":\""
                    ++ (escaped a.icon
                        ++ (codes "\",\"exec\":\"" ++ (escaped a.exec ++ (34 ∷ 125 ∷ t))))))))

app_text-append : (a : AppEntry) (t : Bytes) → app_text a ++ t ≡ 123 ∷ entry_text a t
unfolding app_text entry_text
app_text-append a t =
    rw
      (
        append_assoc (escaped a.id) _ t,
        append_assoc (escaped a.name) _ t,
        append_assoc (escaped a.icon) _ t,
        append_assoc (escaped a.exec) _ t,
      )
      refl

module _ (a : AppEntry) (t : Bytes) where
  id_read : extract_field (entry_text a t) (codes "id") 512 ≡ seen 512 a.id
  unfolding extract_field entry_text after starts_with seen
  id_read = until-escaped 511 a.id _

  name_read : extract_field (drop 6 (entry_text a t)) (codes "name") 256 ≡ seen 256 a.name
  unfolding extract_field entry_text after starts_with seen Key
  name_read =
      ap (field_value 256) (after-escaped 8 (codes "name") (34 ∷ []) a.id _ (ground arith))
      ∙ until-escaped 255 a.name _

  icon_read : extract_field (drop 6 (entry_text a t)) (codes "icon") 256 ≡ seen 256 a.icon
  unfolding extract_field entry_text after starts_with seen Key
  icon_read =
      ap (field_value 256) (
        after-escaped 8 (codes "icon") (34 ∷ []) a.id _ (ground arith)
        ∙ after-quoted 8 (codes "icon") (34 ∷ []) a.name _ (ground arith))
      ∙ until-escaped 255 a.icon _

  exec_read : extract_field (drop 6 (entry_text a t)) (codes "exec") 512 ≡ seen 512 a.exec
  unfolding extract_field entry_text after starts_with seen Key
  exec_read =
      ap (field_value 512) (
        after-escaped 8 (codes "exec") (34 ∷ []) a.id _ (ground arith)
        ∙ after-quoted 8 (codes "exec") (34 ∷ []) a.name _ (ground arith)
        ∙ after-quoted 8 (codes "exec") (34 ∷ []) a.icon _ (ground arith))
      ∙ until-escaped 511 a.exec _

  starts_id : starts_with id_needle (entry_text a t) ≡ true
  unfolding entry_text starts_with
  starts_id = refl

  entry_read : a.id ≢ [] → entry_at (entry_text a t) ≡ seen_entry a ∷ []
  unfolding entry_at entry_text starts_with seen_entry
  entry_read ne =
      ap (entry_of (entry_text a t)) id_read
      ∙ entry_of-cons (entry_text a t) (seen 512 a.id) (seen-ne 510 a.id ne)
      ∙ rw (name_read, icon_read, exec_read) refl

parse-full : (skip : ℕ) (p : Bytes) → parse_from 0 skip p ≡ []
unfolding parse_from
parse-full skip [] = refl
parse-full skip (c ∷ p) = refl

-- No entry starts in an escaped string.
parse-escaped :
    (room d : ℕ) (h t : Bytes)
    → d ≢ 58
    → parse_from room 0 (escaped h ++ (34 ∷ d ∷ t)) ≡ parse_from room 0 (34 ∷ d ∷ t)
unfolding parse_from escaped entry_at starts_with Key
parse-escaped zero d h t ne = parse-full 0 _ ∙ sym (parse-full 0 (34 ∷ d ∷ t))
parse-escaped (suc room) d [] t ne = refl
parse-escaped (suc room) d (c ∷ h) t ne = ground (
  arith,
  parse-escaped (suc room) d h t ne,
  starts-escaped (codes "id") (34 ∷ []) h t d (ground arith) ne,
)

-- One step of the loop, at a place where no entry starts and at one where an entry does.
parse-miss :
    (room c : ℕ) (p : Bytes)
    → starts_with id_needle (c ∷ p) ≡ false
    → parse_from room 0 (c ∷ p) ≡ parse_from room 0 p
unfolding parse_from entry_at
parse-miss zero c p e = sym (parse-full 0 p)
parse-miss (suc room) c p e = rw e refl

parse-hit :
    (room c : ℕ) (p : Bytes) (a : AppEntry)
    → starts_with id_needle (c ∷ p) ≡ true
    → entry_at (c ∷ p) ≡ a ∷ []
    → parse_from (suc room) 0 (c ∷ p) ≡ a ∷ parse_from room 5 p
unfolding parse_from
parse-hit room c p a hit e = rw (e, hit) refl

parse-quoted :
    (room d : ℕ) (h t : Bytes)
    → d ≢ 58
    → parse_from room 0 (34 ∷ (escaped h ++ (34 ∷ d ∷ t))) ≡ parse_from room 0 (34 ∷ d ∷ t)
unfolding starts_with Key
parse-quoted room d h t ne =
    parse-miss room 34 (escaped h ++ (34 ∷ d ∷ t))
      (starts-escaped (codes "id") (34 ∷ []) h t d (ground arith) ne)
    ∙ parse-escaped room d h t ne

-- The loop passes over the fields behind the id.
parse-fields :
    (room : ℕ) (a : AppEntry) (t : Bytes)
    → parse_from room 5 (drop 1 (entry_text a t)) ≡ parse_from room 0 (125 ∷ t)
unfolding parse_from entry_text entry_at starts_with
parse-fields zero a t = refl
parse-fields (suc room) a t =
    let execs : Bytes = codes "\"exec\":\"" ++ (escaped a.exec ++ (34 ∷ 125 ∷ t)) in
    let icons : Bytes = codes "\"icon\":\"" ++ (escaped a.icon ++ (34 ∷ 44 ∷ execs)) in
    let names : Bytes = codes "\"name\":\"" ++ (escaped a.name ++ (34 ∷ 44 ∷ icons)) in
    parse-escaped (suc room) 44 a.id names (omega arith)
    ∙ parse-quoted (suc room) 44 a.name icons (omega arith)
    ∙ parse-quoted (suc room) 44 a.icon execs (omega arith)
    ∙ parse-quoted (suc room) 125 a.exec t (omega arith)

-- An entry is read, and the loop goes on behind it.
parse-entry :
    (room : ℕ) (a : AppEntry) (t : Bytes)
    → a.id ≢ []
    → parse_from (suc room) 0 (entry_text a t) ≡ seen_entry a ∷ parse_from room 0 (125 ∷ t)
unfolding entry_text
parse-entry room a t ne =
    parse-hit room 34 (drop 1 (entry_text a t)) (seen_entry a) (starts_id a t) (entry_read a t ne)
    ∙ ap (λ l. seen_entry a ∷ l) (parse-fields room a t)

parse-app :
    (room : ℕ) (a : AppEntry) (t : Bytes)
    → a.id ≢ []
    → parse_from (suc room) 0 (app_text a ++ t) ≡ seen_entry a ∷ parse_from room 0 t
unfolding starts_with
parse-app room a t ne =
    ap (parse_from (suc room) 0) (app_text-append a t)
    ∙ parse-miss (suc room) 123 (entry_text a t) refl
    ∙ parse-entry room a t ne
    ∙ ap (λ l. seen_entry a ∷ l) (parse-miss room 125 t refl)

comma : (room : ℕ) (p : Bytes) → parse_from room 0 (44 ∷ p) ≡ parse_from room 0 p
unfolding starts_with
comma room p = parse-miss room 44 p refl

-- What may stand behind the entries: text in which quiet starts.
abbrev pub Ending : Bytes → Type 0
Ending end = (room : ℕ) → parse_from room 0 end ≡ []

Ending-reply : Ending (codes "]}\n")
unfolding parse_from entry_at starts_with
Ending-reply zero = refl
Ending-reply (suc room) = refl

pub Ending-trimmed : Ending (codes "]}")
unfolding parse_from entry_at starts_with
Ending-trimmed zero = refl
Ending-trimmed (suc room) = refl

parse-entries :
    (room : ℕ) (apps : List AppEntry) (end : Bytes)
    → Ending end
    → length apps ≤ room
    → All (λ a. a.id ≢ []) apps
    → parse_from room 0 (apps_text apps ++ end) ≡ map seen_entry apps
unfolding apps_text
parse-entries room [] end quiet fits ids = quiet room
parse-entries zero (a ∷ rest) end quiet fits ids = absurd (omega arith)
parse-entries (suc room) (a ∷ []) end quiet fits ids =
    parse-app room a end ids.0 ∙ ap (λ l. seen_entry a ∷ l) (quiet room)
parse-entries (suc room) (a ∷ b ∷ rest) end quiet fits ids =
    let more : Bytes = apps_text (b ∷ rest) in
    ap (parse_from (suc room) 0) (append_assoc (app_text a) (44 ∷ more) end)
    ∙ parse-app room a (44 ∷ (more ++ end)) ids.0
    ∙ ap (λ l. seen_entry a ∷ l)
        (comma room (more ++ end) ∙ parse-entries room (b ∷ rest) end quiet (omega arith) ids.1)

opening :
    (room : ℕ) (p : Bytes) → parse_from room 0 (codes "{\"apps\":[" ++ p) ≡ parse_from room 0 p
unfolding parse_from entry_at starts_with
opening zero p = sym (parse-full 0 p)
opening (suc room) p = refl

pub apps_seen_before :
    (max : ℕ) (apps : List AppEntry) (end : Bytes)
    → Ending end
    → length apps ≤ max
    → All (λ a. a.id ≢ []) apps
    → parse_wire_reply (codes "{\"apps\":[" ++ (apps_text apps ++ end)) max ≡ map seen_entry apps
unfolding parse_wire_reply
apps_seen_before max apps end quiet fits ids =
    opening max (apps_text apps ++ end) ∙ parse-entries max apps end quiet fits ids

-- The client lists the applications of the server in their order, each with the strings that
-- `seen` gives, if every id is not empty and the client has space for them all.
pub apps_seen :
    (max : ℕ) (apps : List AppEntry)
    → length apps ≤ max
    → All (λ a. a.id ≢ []) apps
    → parse_wire_reply (handle_list_apps apps) max ≡ map seen_entry apps
unfolding handle_list_apps
apps_seen max apps fits ids = apps_seen_before max apps (codes "]}\n") Ending-reply fits ids
