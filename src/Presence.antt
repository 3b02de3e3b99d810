-- ===== src/Presence.antt =====
-- internal/presence: the devices seen on the network (arp.go, leases.go, device.go, engine.go). The
-- lines of the kernel's table and of the lease file are arguments; Go's `strings.Fields`, the text of
-- `net.ParseMAC` (`none` is its error) and Unicode's lower-casing are parameters. Times are whole
-- seconds, as in their texts. The table `device_registry` is a dictionary by MAC; which of its
-- statements succeed, by the MAC, are parameters too.
pub mod Scans
use safeswitch_router.Common.{
  ℕ, Bool, true, false, not, ◌&&◌, ◌||◌, Option, none, some, List, [], ◌∷◌, ◌++◌, Bytes, bytes,
  length, ltb, same, ◌==◌, if◌then◌else◌,
}
use safeswitch_router.Common.Dict.{Dict, lookup, insert}
use safeswitch_router.Common.Text.{to_lower}

pub record ArpEntry : Type 0 where
  pub ip : Bytes
  pub mac : Bytes

-- A row of `device_registry`.
pub record Device : Type 0 where
  pub ip : Bytes
  pub hostname : Bytes
  pub first_seen : ℕ
  pub last_seen : ℕ
  pub enrolled : Bool

-- `presence.device_seen`, with the MAC, the address and the name.
pub record DeviceSeen : Type 0 where
  pub mac : Bytes
  pub ip : Bytes
  pub hostname : Bytes

module _ (unicode_lower : Bytes → Bytes) (parse_mac : Bytes → Option Bytes) where
  unfoldable pub normalise_mac : Bytes → Bytes
  normalise_mac raw = elim (parse_mac raw) [ none ↦ [] | some hw ↦ to_lower unicode_lower hw ]

  -- The entry of a line, from its fields.
  unfoldable pub arp_entry : List Bytes → Option ArpEntry
  arp_entry (ip ∷ hw_type ∷ flags ∷ raw ∷ rest) =
      let mac = normalise_mac raw in
      if length mac == 0 || same mac (bytes "00:00:00:00:00:00")
      then none
      else some (record { ip = ip; mac = mac })
  arp_entry _ = none

  unfoldable pub arp_entries : (Bytes → List Bytes) → List Bytes → List ArpEntry
  arp_entries fields [] = []
  arp_entries fields (line ∷ lines) =
      let rest = arp_entries fields lines in
      elim (arp_entry (fields line)) [ none ↦ rest | some e ↦ e ∷ rest ]

  -- The first line is the table's head.
  unfoldable pub read_arp : (Bytes → List Bytes) → List Bytes → List ArpEntry
  read_arp fields [] = []
  read_arp fields (head ∷ lines) = arp_entries fields lines

-- A lease, from the fields of its line.
unfoldable pub lease : List Bytes → Dict Bytes → Dict Bytes
lease (expiry ∷ mac ∷ ip ∷ hostname ∷ rest) host_by_ip =
    if same hostname (bytes "*") || length hostname == 0
    then host_by_ip
    else insert ip hostname host_by_ip
lease _ host_by_ip = host_by_ip

unfoldable pub read_leases : (Bytes → List Bytes) → List Bytes → Dict Bytes → Dict Bytes
read_leases fields [] host_by_ip = host_by_ip
read_leases fields (line ∷ lines) host_by_ip =
    read_leases fields lines (lease (fields line) host_by_ip)

abbrev pub text_or_empty : Option Bytes → Bytes
text_or_empty none = []
text_or_empty (some s) = s

abbrev pub is_true : Option Bool → Bool
is_true none = false
is_true (some b) = b

-- The row behind `INSERT … ON CONFLICT(mac) DO UPDATE`.
unfoldable pub merged : Bytes → Bytes → Bool → ℕ → Option Device → Device
merged ip hostname enrolled now none = record {
  ip = ip;
  hostname = hostname;
  first_seen = now;
  last_seen = now;
  enrolled = enrolled;
}
merged ip hostname enrolled now (some d) = record {
  ip = ip;
  hostname = if length hostname == 0 then d.hostname else hostname;
  first_seen = d.first_seen;
  last_seen = now;
  enrolled = enrolled;
}

-- The registry behind, and whether the device counts as new: its two times, empty if the query for
-- them fails, are the same. An error of the write reports nothing.
unfoldable pub upsert :
    (Bytes → Bool)
    → (Bytes → Bool)
    → Bytes
    → Bytes
    → Bytes
    → Bool
    → ℕ
    → Dict Device
    → Dict Device × Bool
upsert writes reads mac ip hostname enrolled now registry =
    let d = merged ip hostname enrolled now (lookup mac registry) in
    if writes mac
    then (insert mac d registry, not (reads mac) || d.first_seen == d.last_seen)
    else (registry, false)

unfoldable pub scan :
    (Bytes → Bool)
    → (Bytes → Bool)
    → Dict Bytes
    → Dict Bool
    → ℕ
    → List ArpEntry
    → Dict Device
    → Dict Device × List DeviceSeen
scan writes reads host_by_ip enrolled now [] registry = (registry, [])
scan writes reads host_by_ip enrolled now (e ∷ entries) registry =
    let hostname = text_or_empty (lookup e.ip host_by_ip) in
    let put =
      upsert writes reads e.mac e.ip hostname (is_true (lookup e.mac enrolled)) now registry in
    let rest = scan writes reads host_by_ip enrolled now entries put.0 in
    if put.1
    then (rest.0, record { mac = e.mac; ip = e.ip; hostname = hostname } ∷ rest.1)
    else rest
