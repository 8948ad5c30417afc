-- ===== src/Relay/Wire/Plain.antt =====
-- The list of applications survives the wire where no string needs escaping, and loses what stands
-- behind a quote where one does.
use syn_os.Common.{
  ℕ, zero, suc, ◌-◌, ◌<◌, ◌≤◌, ◌≢◌, ◌≡◌, refl, ◌∙◌, ap, arith, List, [], ◌∷◌, ◌++◌, Bytes, All,
  length, codes, take_all,
}
use mathlib.Core.List.{map}
use syn_os.Relay.Wire.{
  apps_text, AppEntry, escaped, handle_list_apps, until_quote, parse_wire_reply,
}
use syn_os.Relay.Wire.Apps.{seen, seen_entry, apps_seen, apps_seen_before, Ending-trimmed}
use syn_os.Cstring.{trim_newline, trim_onto}
use syn_os.Relay.Server.{received, reply_text, listed_apps}

-- A string that is escaped as it is.
unfoldable pub Plain : Bytes → Type 0
Plain s = All (λ c. (c ≢ 34) × (c ≢ 92) × (c ≢ 10)) s

until-cut :
    (room : ℕ) (s t : Bytes)
    → Plain s
    → length s < room
    → until_quote room (escaped (s ++ (34 ∷ t)) ++ (34 ∷ [])) ≡ s ++ (92 ∷ [])
unfolding until_quote escaped Plain
until-cut zero s t plain fits = absurd (omega arith)
until-cut (suc zero) [] t plain fits = refl
until-cut (suc (suc room)) [] t plain fits = refl
until-cut (suc room) (c ∷ s) t plain fits = ground (arith, until-cut room s t plain.1)

until-Plain :
    (room : ℕ) (s : Bytes)
    → Plain s
    → length s ≤ room
    → until_quote room (escaped s ++ (34 ∷ [])) ≡ s
unfolding until_quote escaped Plain
until-Plain zero [] plain fits = refl
until-Plain zero (c ∷ s) plain fits = absurd (omega arith)
until-Plain (suc room) [] plain fits = refl
until-Plain (suc room) (c ∷ s) plain fits = ground (arith, until-Plain room s plain.1)

seen-Plain : (size : ℕ) (s : Bytes) → Plain s → length s < size → seen size s ≡ s
unfolding seen
seen-Plain size s plain fits = until-Plain (size - 1) s plain (omega arith)

-- An entry whose strings have no quote, backslash or line end, and fit in the buffers.
pub record PlainEntry (a : AppEntry) : Type 0 where
  pub id-ne : a.id ≢ []
  pub id-plain : Plain a.id
  pub id-fits : length a.id < 512
  pub name-plain : Plain a.name
  pub name-fits : length a.name < 256
  pub exec-plain : Plain a.exec
  pub exec-fits : length a.exec < 512
  pub icon-plain : Plain a.icon
  pub icon-fits : length a.icon < 256

seen_entry-plain : (a : AppEntry) → PlainEntry a → seen_entry a ≡ a
unfolding seen_entry
seen_entry-plain a p =
    rw
      (
        seen-Plain 512 a.id p.id-plain p.id-fits,
        seen-Plain 256 a.name p.name-plain p.name-fits,
        seen-Plain 512 a.exec p.exec-plain p.exec-fits,
        seen-Plain 256 a.icon p.icon-plain p.icon-fits,
      )
      refl

entries-plain : (apps : List AppEntry) → All PlainEntry apps → map seen_entry apps ≡ apps
entries-plain [] p = refl
entries-plain (a ∷ rest) p = rw (seen_entry-plain a p.0, entries-plain rest p.1) refl

ids-ne : (apps : List AppEntry) → All PlainEntry apps → All (λ a. a.id ≢ []) apps
ids-ne [] p = tt
ids-ne (a ∷ rest) p = (p.0.id-ne, ids-ne rest p.1)

trim-end : (s : Bytes) → trim_newline (s ++ codes "]}\n") ≡ s ++ codes "]}"
unfolding trim_newline
trim-end [] = refl
trim-end (c ∷ []) = ap (trim_onto c) (trim-end [])
trim-end (c ∷ d ∷ s) = ap (trim_onto c) (trim-end (d ∷ s))

apps-received :
    (apps : List AppEntry)
    → length (handle_list_apps apps) ≤ 8191
    → received 8192 (handle_list_apps apps) ≡ codes "{\"apps\":[" ++ (apps_text apps ++ codes "]}")
unfolding received reply_text handle_list_apps
apps-received apps fits =
    ap trim_newline (take_all 8191 (handle_list_apps apps) fits)
    ∙ trim-end (codes "{\"apps\":[" ++ apps_text apps)

-- The client lists the applications as the server sent them, if they are at most 512, the reply has at
-- most 8191 bytes and comes in one piece, no string has a quote, a backslash or a line end, each id is
-- not empty, and every string fits in its buffer.
pub apps_round_trip :
    (apps : List AppEntry)
    → length apps ≤ 512
    → length (handle_list_apps apps) ≤ 8191
    → All PlainEntry apps
    → listed_apps (handle_list_apps apps) ≡ apps
unfolding listed_apps
apps_round_trip apps fits whole p =
    ap (λ r. parse_wire_reply r 512) (apps-received apps whole)
    ∙ apps_seen_before 512 apps (codes "]}") Ending-trimmed fits (ids-ne apps p)
    ∙ entries-plain apps p

-- A command with a quote in it reaches the client as its text before the first quote and a
-- backslash, if the text before the quote is plain and shorter than 511 bytes.
pub exec_cut :
    (max : ℕ) (a : AppEntry) (s t : Bytes)
    → a.id ≢ []
    → a.exec ≡ s ++ (34 ∷ t)
    → Plain s
    → length s < 511
    → map (λ e. e.exec) (parse_wire_reply (handle_list_apps (a ∷ [])) (suc max))
      ≡ (s ++ (92 ∷ [])) ∷ []
unfolding seen_entry seen
exec_cut max a s t ne e plain fits =
    ap (map (λ x. x.exec)) (apps_seen (suc max) (a ∷ []) (omega arith) (ne, tt))
    ∙ rw e (ap (λ x. x ∷ []) (until-cut 511 s t plain fits))
