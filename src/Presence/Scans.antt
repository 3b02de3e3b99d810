-- ===== src/Presence/Scans.antt =====
-- What a scan of internal/presence/engine.go leaves in the registry, and whom it reports.
use safeswitch_router.Common.{
  ℕ, ◌+◌, ◌≡◌, refl, ap, ◌∙◌, Bool, true, false, not, ◌&&◌, ◌||◌, ◌⊎◌, Option, none, some, List, [],
  ◌∷◌, arith, any, Bytes, same, same_iff, ◌==◌, if◌then◌else◌, Bool-cases, inl, inr,
}
use safeswitch_router.Common.Dict.{Dict, lookup, lookup-insert}
use safeswitch_router.Presence.{
  ArpEntry, Device, DeviceSeen, text_or_empty, is_true, merged, upsert, scan,
}

-- The time that a device was first seen, `now` for an unknown one.
abbrev pub first_seen_of : ℕ → Option Device → ℕ
first_seen_of now none = now
first_seen_of now (some d) = d.first_seen

abbrev pub is_entry_of : Bytes → ArpEntry → Bool
is_entry_of mac e = same e.mac mac

abbrev pub entries_of : Bytes → List ArpEntry → ℕ
entries_of mac [] = 0
entries_of mac (e ∷ entries) =
    if same e.mac mac then entries_of mac entries + 1 else entries_of mac entries

abbrev pub reports_of : Bytes → List DeviceSeen → ℕ
reports_of mac [] = 0
reports_of mac (r ∷ reports) =
    if same r.mac mac then reports_of mac reports + 1 else reports_of mac reports

first_seen-merged :
    (ip hostname : Bytes) (enrolled : Bool) (now : ℕ) (o : Option Device)
    → ((merged ip hostname enrolled now o).first_seen ≡ first_seen_of now o)
      × ((merged ip hostname enrolled now o).last_seen ≡ now)
unfolding merged
first_seen-merged ip hostname enrolled now none = (refl, refl)
first_seen-merged ip hostname enrolled now (some d) = (refl, refl)

first_seen-upsert :
    (writes reads : Bytes → Bool) (id ip hostname mac : Bytes) (enrolled : Bool) (now : ℕ)
    (registry : Dict Device)
    → (first_seen_of now (lookup mac (upsert writes reads id ip hostname enrolled now registry).0)
        ≡ first_seen_of now (lookup mac registry))
      × ((upsert writes reads id ip hostname enrolled now registry).1
          ≡ (writes id && (not (reads id) || first_seen_of now (lookup id registry) == now)))
unfolding upsert
first_seen-upsert writes reads id ip hostname mac enrolled now registry =
    let d = merged ip hostname enrolled now (lookup id registry) in
    let (first, last) = first_seen-merged ip hostname enrolled now (lookup id registry) in
    let put = lookup-insert id mac d registry in
    elim (Bool-cases (writes id)) [
      | inr w ↦ (ground (arith, w), ground (arith, w))
      | inl w ↦ (
        elim (Bool-cases (same id mac)) [
          | inl m ↦
              let n : id ≡ mac = ground (arith, m, same_iff id mac) in
              ground (arith, w, m, first, ap (λ x. first_seen_of now (lookup x registry)) n, put)
          | inr m ↦ ground (arith, w, m, put)
        ],
        ground (arith, w, first, last),
      )
    ]

-- When a device was last seen, and whether it is enrolled.
abbrev pub current_of : Option Device → Option (ℕ × Bool)
current_of none = none
current_of (some d) = some (d.last_seen, d.enrolled)

current_of-merged :
    (ip hostname : Bytes) (enrolled : Bool) (now : ℕ) (o : Option Device)
    → current_of (some (merged ip hostname enrolled now o)) ≡ some (now, enrolled)
unfolding merged
current_of-merged ip hostname enrolled now none = refl
current_of-merged ip hostname enrolled now (some d) = refl

module _ (writes reads : Bytes → Bool) (host_by_ip : Dict Bytes) (enrolled : Dict Bool) (now : ℕ)
    (mac : Bytes) where
  abbrev put : ArpEntry → Dict Device → Dict Device × Bool
  put e registry =
      upsert writes reads e.mac e.ip (text_or_empty (lookup e.ip host_by_ip))
        (is_true (lookup e.mac enrolled)) now registry

  put-first_seen :
      (e : ArpEntry) (registry : Dict Device)
      → (first_seen_of now (lookup mac (put e registry).0)
          ≡ first_seen_of now (lookup mac registry))
        × ((put e registry).1 ≡ (
            writes e.mac
            && (not (reads e.mac) || first_seen_of now (lookup e.mac registry) == now)))
  put-first_seen e registry =
      first_seen-upsert writes reads e.mac e.ip (text_or_empty (lookup e.ip host_by_ip)) mac
        (is_true (lookup e.mac enrolled)) now registry

  put-current_of :
      (e : ArpEntry) (registry : Dict Device)
      → current_of (lookup mac (put e registry).0) ≡ (
          if same e.mac mac && writes mac
          then some (now, is_true (lookup mac enrolled))
          else current_of (lookup mac registry))
  unfolding upsert
  put-current_of e registry =
      let hostname = text_or_empty (lookup e.ip host_by_ip) in
      let is = is_true (lookup e.mac enrolled) in
      let d = merged e.ip hostname is now (lookup e.mac registry) in
      let row = lookup-insert e.mac mac d registry in
      elim (Bool-cases (same e.mac mac)) [
        | inl m ↦
            let n : e.mac ≡ mac = ground (arith, m, same_iff e.mac mac) in
            let writes_mac : writes e.mac ≡ writes mac = ap writes n in
            let current =
              current_of-merged e.ip hostname is now (lookup e.mac registry)
              ∙ ap (λ x. some (now, is_true (lookup x enrolled))) n in
            elim (Bool-cases (writes e.mac)) [
              | inl w ↦ ground (arith, w, m, row, current, writes_mac)
              | inr w ↦ ground (arith, w, m, writes_mac)
            ]
        | inr m ↦ elim (Bool-cases (writes e.mac)) [
          | inl w ↦ ground (arith, w, m, row)
          | inr w ↦ ground (arith, w, m)
        ]
      ]

  -- The row of a device that an entry is not of.
  put-other :
      (e : ArpEntry) (registry : Dict Device)
      → same e.mac mac ≡ false
      → lookup mac (put e registry).0 ≡ lookup mac registry
  unfolding upsert
  put-other e registry m =
      let hostname = text_or_empty (lookup e.ip host_by_ip) in
      let d = merged e.ip hostname (is_true (lookup e.mac enrolled)) now (lookup e.mac registry) in
      elim (Bool-cases (writes e.mac)) [
        | inl w ↦ ground (arith, w, m, lookup-insert e.mac mac d registry)
        | inr w ↦ ground (arith, w)
      ]

  scan-cons :
      (e : ArpEntry) (entries : List ArpEntry) (registry : Dict Device)
      → ((scan writes reads host_by_ip enrolled now (e ∷ entries) registry).0
          ≡ (scan writes reads host_by_ip enrolled now entries (put e registry).0).0)
        × (reports_of mac (scan writes reads host_by_ip enrolled now (e ∷ entries) registry).1 ≡ (
            if (put e registry).1 && same e.mac mac
            then reports_of mac
                (scan writes reads host_by_ip enrolled now entries (put e registry).0).1
              + 1
            else reports_of mac
                (scan writes reads host_by_ip enrolled now entries (put e registry).0).1))
  unfolding scan
  scan-cons e entries registry = elim (Bool-cases (put e registry).1) [
    | inl b ↦ (ground (arith, b), ground (arith, b))
    | inr b ↦ (ground (arith, b), ground (arith, b))
  ]

  scan-fields :
      (entries : List ArpEntry) (registry : Dict Device)
      → (current_of (lookup mac (scan writes reads host_by_ip enrolled now entries registry).0) ≡ (
          if any (is_entry_of mac) entries && writes mac
          then some (now, is_true (lookup mac enrolled))
          else current_of (lookup mac registry)))
        × (first_seen_of now
              (lookup mac (scan writes reads host_by_ip enrolled now entries registry).0)
            ≡ first_seen_of now (lookup mac registry))
        × (reports_of mac (scan writes reads host_by_ip enrolled now entries registry).1 ≡ (
            if writes mac && (not (reads mac) || first_seen_of now (lookup mac registry) == now)
            then entries_of mac entries
            else 0))
  scan-fields [] registry = unfold scan in (refl, refl, ground arith)
  scan-fields (e ∷ entries) registry =
      let (after, reported) = scan-cons e entries registry in
      let (current, first, reports) = scan-fields entries (put e registry).0 in
      let (kept, new) = put-first_seen e registry in
      let now_current = put-current_of e registry in
      elim (Bool-cases (same e.mac mac)) [
        | inl m ↦
            let n : e.mac ≡ mac = ground (arith, m, same_iff e.mac mac) in
            let seen = ap (λ x. first_seen_of now (lookup x registry)) n in
            let writes_mac : writes e.mac ≡ writes mac = ap writes n in
            let reads_mac : reads e.mac ≡ reads mac = ap reads n in
            (
              ap (λ x. current_of (lookup mac x)) after
                  ∙ current
                  ∙ ground (arith, m, now_current, writes_mac),
              ap (λ x. first_seen_of now (lookup mac x)) after ∙ first ∙ kept,
              ground (arith, m, reported, reports, kept, new, seen, writes_mac, reads_mac),
            )
        | inr m ↦ (
          ap (λ x. current_of (lookup mac x)) after ∙ current ∙ ground (arith, m, now_current),
          ap (λ x. first_seen_of now (lookup mac x)) after ∙ first ∙ kept,
          ground (arith, m, reported, reports, kept),
        )
      ]

  -- A device of the table, or one whose row is as before.
  scan-other :
      (entries : List ArpEntry) (registry : Dict Device)
      → (any (is_entry_of mac) entries ≡ true)
        ⊎ (lookup mac (scan writes reads host_by_ip enrolled now entries registry).0
            ≡ lookup mac registry)
  scan-other [] registry = unfold scan in inr refl
  scan-other (e ∷ entries) registry = elim (Bool-cases (same e.mac mac)) [
    | inl m ↦ inl (ground (arith, m))
    | inr m ↦ elim (scan-other entries (put e registry).0) [
      | inl h ↦ inl (ground (arith, h))
      | inr h ↦
          inr (ap (λ x. lookup mac x) (scan-cons e entries registry).0 ∙ h ∙ put-other e registry m)
    ]
  ]

  -- Behind a scan every device of the kernel's table whose write succeeds was last seen now and is
  -- enrolled as the policy says; the whole row of a device that is not in the table is as before, and
  -- where the write fails the two are. The time that a device was first seen never changes. A device
  -- whose write succeeds is reported once for each of its entries if it was not first seen before
  -- now, or if its times cannot be read back, known or not; no other device is reported.
  pub scan-current_of :
      (entries : List ArpEntry) (registry : Dict Device)
      → ((any (is_entry_of mac) entries ≡ true)
          ⊎ (lookup mac (scan writes reads host_by_ip enrolled now entries registry).0
              ≡ lookup mac registry))
        × (current_of (lookup mac (scan writes reads host_by_ip enrolled now entries registry).0)
            ≡ (if any (is_entry_of mac) entries && writes mac
                then some (now, is_true (lookup mac enrolled))
                else current_of (lookup mac registry)))
        × (first_seen_of now
              (lookup mac (scan writes reads host_by_ip enrolled now entries registry).0)
            ≡ first_seen_of now (lookup mac registry))
        × (reports_of mac (scan writes reads host_by_ip enrolled now entries registry).1 ≡ (
            if writes mac && (not (reads mac) || first_seen_of now (lookup mac registry) == now)
            then entries_of mac entries
            else 0))
  scan-current_of entries registry =
      let (current, first, reports) = scan-fields entries registry in
      (scan-other entries registry, current, first, reports)
