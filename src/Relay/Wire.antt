-- ===== src/Relay/Wire.antt =====
-- The replies of the stats server (cmd_stats_server.c) and how the stats client takes them apart
-- (cmd_stats_client.c).
pub mod Escape
pub mod Stats
pub mod Apps
pub mod Plain
use syn_os.Common.{
  ℕ, zero, suc, ◌+◌, ◌-◌, ◌%◌, ◌^◌, Bool, true, false, Option, none, some, List, [], ◌∷◌, ◌++◌,
  Bytes, codes, length, bytes_eq, drop, ◌==◌, if◌then◌else◌,
}
use syn_os.Cstring.{after, starts_with, snprintf_s, decimal, trim_newline}
use syn_os.Relay.Json.{json_string, json_bool}
use syn_os.Relay.NodeState.{NodeCaps}

-- `print_json_escaped`
abbrev pub escape_char : ℕ → Bytes
escape_char c =
    if c == 34
    then 92 ∷ 34 ∷ []
    else if c == 92
    then 92 ∷ 92 ∷ []
    else if c == 10
    then 92 ∷ 110 ∷ []
    else c ∷ []

unfoldable pub escaped : Bytes → Bytes
escaped [] = []
escaped (c ∷ s) = escape_char c ++ escaped s

-- What the server measures: `cpu_pct` and `gpu_pct` are the C library's "%.1f" of them.
pub record Measured : Type 0 where
  pub hostname : Bytes
  pub cpu_pct : Bytes
  pub mem_total : ℕ
  pub mem_available : ℕ
  pub disk_used : ℕ
  pub disk_total : ℕ
  pub gpu_pct : Option Bytes
  pub sunshine_running : Bool

-- "%llu"
abbrev pub llu : ℕ → Bytes
llu n = decimal 20 n

abbrev pub gpu_text : Option Bytes → Bytes
gpu_text none = codes "null"
gpu_text (some pct) = pct

abbrev pub true_false : Bool → Bytes
true_false true = codes "true"
true_false false = codes "false"

unfoldable pub stats_numbers : Measured → Bytes
stats_numbers m =
    codes ",\"cpu_pct\":"
    ++ m.cpu_pct
    ++ codes ",\"mem_used_kb\":"
    ++ llu ((m.mem_total + 2 ^ 64 - m.mem_available) % 2 ^ 64)
    ++ codes ",\"mem_total_kb\":"
    ++ llu m.mem_total
    ++ codes ",\"disk_used_kb\":"
    ++ llu m.disk_used
    ++ codes ",\"disk_total_kb\":"
    ++ llu m.disk_total
    ++ codes ",\"gpu_pct\":"
    ++ gpu_text m.gpu_pct
    ++ codes ",\"sunshine\":{\"running\":"
    ++ true_false m.sunshine_running
    ++ codes ",\"port\":47989}}\n"

-- The line that answers STATS.
unfoldable pub handle_stats : Measured → Bytes
handle_stats m =
    codes "{\"hostname\":\""
    ++ (escaped m.hostname
        ++ (codes
              "\",\"os\":\"linux\",\"capabilities\":{\"apps\":true,\"watch_desktop\":true,\"watch_window\":false,\"host_watched\":true}"
            ++ stats_numbers m))

-- `caps->x` as `syn_json_bool` leaves it: false where the key is absent
abbrev pub or_false : Option Bool → Bool
or_false none = false
or_false (some b) = b

abbrev pub or_empty : Option Bytes → Bytes
or_empty none = []
or_empty (some s) = s

unfoldable pub caps_from_stats_reply : Bytes → NodeCaps
caps_from_stats_reply reply = record {
  os = or_empty (json_string reply (codes "os") 16);
  apps = or_false (json_bool reply (codes "apps"));
  watch_desktop = or_false (json_bool reply (codes "watch_desktop"));
  watch_window = or_false (json_bool reply (codes "watch_window"));
  host_watched = or_false (json_bool reply (codes "host_watched"));
}

-- `syn_app_entry`
pub record AppEntry : Type 0 where
  pub id : Bytes
  pub name : Bytes
  pub exec : Bytes
  pub icon : Bytes

unfoldable pub app_text : AppEntry → Bytes
app_text a =
    codes "{\"id\":\""
    ++ (escaped a.id
        ++ (codes "\",\"name\":\""
            ++ (escaped a.name
                ++ (codes "\",\"icon\":\""
                    ++ (escaped a.icon
                        ++ (codes "\",\"exec\":\"" ++ (escaped a.exec ++ codes "\"}")))))))

-- The entries after the first follow a comma.
unfoldable pub apps_text : List AppEntry → Bytes
apps_text [] = []
apps_text (a ∷ []) = app_text a
apps_text (a ∷ b ∷ rest) = app_text a ++ (44 ∷ apps_text (b ∷ rest))

-- The line that answers LIST_APPS.
unfoldable pub handle_list_apps : List AppEntry → Bytes
handle_list_apps apps = codes "{\"apps\":[" ++ (apps_text apps ++ codes "]}\n")

-- A value up to the next quote, at most `room` characters.
unfoldable pub until_quote : ℕ → Bytes → Bytes
until_quote zero v = []
until_quote (suc room) [] = []
until_quote (suc room) (c ∷ v) =
    let more : Bytes = until_quote room v in if c == 34 then [] else c ∷ more

-- `"key":"` in a buffer of 32 bytes
abbrev pub field_needle : Bytes → Bytes
field_needle key = snprintf_s 32 (34 ∷ (key ++ (34 ∷ 58 ∷ 34 ∷ [])))

abbrev pub field_value : ℕ → Option Bytes → Bytes
field_value out_size none = []
field_value out_size (some v) = until_quote (out_size - 1) v

unfoldable pub extract_field : Bytes → Bytes → ℕ → Bytes
extract_field p key out_size =
    field_value out_size (after (length (field_needle key)) (field_needle key) p)

-- The entry that is read at a place where `"id":"` stands, if its id is not empty. The other fields
-- are looked for behind those 6 characters.
abbrev pub entry_of : Bytes → Bytes → List AppEntry
entry_of p [] = []
entry_of p (c ∷ id) =
    record {
      id = c ∷ id;
      name = extract_field (drop 6 p) (codes "name") 256;
      exec = extract_field (drop 6 p) (codes "exec") 512;
      icon = extract_field (drop 6 p) (codes "icon") 256;
    }
    ∷ []

abbrev pub id_needle : Bytes
id_needle = codes "\"id\":\""

unfoldable pub entry_at : Bytes → List AppEntry
entry_at p = if starts_with id_needle p then entry_of p (extract_field p (codes "id") 512) else []

-- The entries that `room` still has space for after `found`.
abbrev pub left : List AppEntry → ℕ → ℕ
left [] room = room
left (a ∷ found) zero = zero
left (a ∷ found) (suc room) = left found room

-- The loop over the places of `"id":"`: the search goes on 6 characters behind each.
unfoldable pub parse_from : ℕ → ℕ → Bytes → List AppEntry
parse_from room skip [] = []
parse_from zero skip (c ∷ p) = []
parse_from (suc room) (suc skip) (c ∷ p) = parse_from (suc room) skip p
parse_from (suc room) zero (c ∷ p) =
    let found : List AppEntry = entry_at (c ∷ p) in
    found ++ parse_from (left found (suc room)) (if starts_with id_needle (c ∷ p) then 5 else 0) p

unfoldable pub parse_wire_reply : Bytes → ℕ → List AppEntry
parse_wire_reply reply max = parse_from max 0 reply
