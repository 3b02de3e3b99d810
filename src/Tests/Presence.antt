-- ===== src/Tests/Presence.antt =====
-- internal/presence on small inputs.
use safeswitch_router.Common.{
  ◌≡◌, ◌⊎◌, any, refl, Bool, true, Option, none, some, List, [], ◌∷◌, Bytes, bytes, length, same,
  ◌==◌, if◌then◌else◌,
}
use safeswitch_router.Common.Dict.{Dict, lookup}
use safeswitch_router.Common.Text.{to_lower, lower_byte, is_ascii}
use safeswitch_router.Presence.{ArpEntry, normalise_mac, arp_entry, arp_entries, read_arp, scan}
use safeswitch_router.Presence.Scans.{
  is_entry_of, first_seen_of, reports_of, current_of, scan-current_of,
}

abbrev unicode : Bytes → Bytes
unicode s = s

abbrev parse_mac : Bytes → Option Bytes
parse_mac s = if length s == 5 then some s else none

-- A line with an address of the kernel's table, and one of another kind.
abbrev fields : Bytes → List Bytes
fields line =
    if length line == 0
    then []
    else line ∷ bytes "0x1" ∷ bytes "0x2" ∷ bytes "AA:BB" ∷ bytes "*" ∷ []

read_arp_run :
    read_arp unicode parse_mac fields (bytes "IP address" ∷ bytes "10.0.0.9" ∷ [] ∷ [])
    ≡ record { ip = bytes "10.0.0.9"; mac = bytes "aa:bb" } ∷ []
unfolding read_arp arp_entries arp_entry normalise_mac to_lower lower_byte is_ascii same
read_arp_run = refl

-- One device with two addresses.
abbrev entries : List ArpEntry
entries =
    record { ip = bytes "10.0.0.9"; mac = bytes "aa:bb" }
    ∷ record { ip = bytes "10.0.0.8"; mac = bytes "aa:bb" }
    ∷ []

abbrev enrolled : Dict Bool
enrolled = (bytes "aa:bb", true) ∷ []

-- All statements succeed.
abbrev good : Bytes → Bool
good mac = true

scan-current_of_example :
    ((any (is_entry_of (bytes "aa:bb")) entries ≡ true)
      ⊎ (lookup (bytes "aa:bb") (scan good good [] enrolled 50 entries []).0 ≡ none))
    × (current_of (lookup (bytes "aa:bb") (scan good good [] enrolled 50 entries []).0)
        ≡ some (50, true))
    × (first_seen_of 50 (lookup (bytes "aa:bb") (scan good good [] enrolled 50 entries []).0) ≡ 50)
    × (reports_of (bytes "aa:bb") (scan good good [] enrolled 50 entries []).1 ≡ 2)
unfolding lookup same
scan-current_of_example = scan-current_of good good [] enrolled 50 (bytes "aa:bb") entries []
