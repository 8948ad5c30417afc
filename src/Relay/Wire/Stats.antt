-- ===== src/Relay/Wire/Stats.antt =====
-- What the client reads from the reply to STATS is what the server wrote.
use syn_os.Common.{
  ℕ, ◌-◌, ◌<◌, ◌≢◌, ◌≡◌, refl, ap, arith, true, false, some, [], ◌∷◌, ◌++◌, Bytes, All, length,
  codes,
}
use syn_os.Cstring.{after, starts_with}
use syn_os.Relay.Json.{
  find_value_start, copy_value, string_value, bool_value, json_string, json_bool,
}
use syn_os.Relay.Wire.{Measured, escaped, handle_stats, stats_numbers, caps_from_stats_reply}
use syn_os.Relay.Wire.Escape.{Key, after-quoted, copy-escaped}

module _ (m : Measured) where
  -- What follows the quote that ends the host name and its comma.
  abbrev behind_hostname : Bytes
  behind_hostname =
      codes
        "\"os\":\"linux\",\"capabilities\":{\"apps\":true,\"watch_desktop\":true,\"watch_window\":false,\"host_watched\":true}"
      ++ stats_numbers m

  passed :
      (n : ℕ) (k : Bytes)
      → Key k
      → after n
          (34 ∷ (k ++ (34 ∷ 58 ∷ [])))
          (34 ∷ (escaped m.hostname ++ (34 ∷ 44 ∷ behind_hostname)))
        ≡ after n (34 ∷ (k ++ (34 ∷ 58 ∷ []))) (34 ∷ 44 ∷ behind_hostname)
  passed n k key = after-quoted n k [] m.hostname behind_hostname key

  os_read : json_string (handle_stats m) (codes "os") 16 ≡ some (codes "linux")
  unfolding json_string find_value_start handle_stats after starts_with copy_value Key
  os_read = ap (string_value 16) (passed 5 (codes "os") (ground arith))

  apps_read : json_bool (handle_stats m) (codes "apps") ≡ some true
  unfolding json_bool find_value_start handle_stats after starts_with Key
  apps_read = ap bool_value (passed 7 (codes "apps") (ground arith))

  watch_desktop_read : json_bool (handle_stats m) (codes "watch_desktop") ≡ some true
  unfolding json_bool find_value_start handle_stats after starts_with Key
  watch_desktop_read = ap bool_value (passed 16 (codes "watch_desktop") (ground arith))

  watch_window_read : json_bool (handle_stats m) (codes "watch_window") ≡ some false
  unfolding json_bool find_value_start handle_stats after starts_with Key
  watch_window_read = ap bool_value (passed 15 (codes "watch_window") (ground arith))

  host_watched_read : json_bool (handle_stats m) (codes "host_watched") ≡ some true
  unfolding json_bool find_value_start handle_stats after starts_with Key
  host_watched_read = ap bool_value (passed 15 (codes "host_watched") (ground arith))

  -- The capabilities that the client reads are those of the Linux server, whatever the machine
  -- measures and whatever its host name holds: a host name cannot pass for another field.
  pub stats_caps : caps_from_stats_reply (handle_stats m) ≡ record {
    os = codes "linux";
    apps = true;
    watch_desktop = true;
    watch_window = false;
    host_watched = true;
  }
  unfolding caps_from_stats_reply
  stats_caps =
      rw (os_read, apps_read, watch_desktop_read, watch_window_read, host_watched_read) refl

  -- The client reads back the host name, with its quotes and backslashes, if it has no line end and
  -- is shorter than the buffer.
  pub stats_hostname :
      (size : ℕ)
      → All (λ c. c ≢ 10) m.hostname
      → length m.hostname < size
      → json_string (handle_stats m) (codes "hostname") size ≡ some m.hostname
  unfolding json_string find_value_start handle_stats after starts_with
  stats_hostname size lines fits =
      ap some (copy-escaped (size - 1) m.hostname (44 ∷ behind_hostname) lines (omega arith))
