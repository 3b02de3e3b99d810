-- ===== src/Policy/Queries.antt =====
-- internal/dns/resolver.go over the policy runtime of internal/policy/runtime.go, as app/wiring.go
-- puts them together.
use safeswitch_router.Common.{
  ℕ, ◌+◌, ◌<◌, ◌≤◌, ◌≡◌, refl, ◌∙◌, Bool, true, false, ◌&&◌, ◌||◌, ◌⊎◌, inl, inr, Option, some,
  List, [], ◌∷◌, arith, Bytes, bytes, IsByte, All, length, any, same, if◌then◌else◌, Bool-cases,
}
use safeswitch_router.Common.Text.{join}
use safeswitch_router.Dns.Wire.{Result, ok, Question, Msg, parse_query}
use safeswitch_router.Dns.Wire.Names.{IsLabel}
use safeswitch_router.Dns.Wire.Encoding.{NoDot}
use safeswitch_router.Dns.Blocklist.{Blocklist}
use safeswitch_router.Dns.Resolver.{BlockEvent, new_resolver}
use safeswitch_router.Dns.Resolver.Answers.{Holds, Forwards, outcome, event_for, resolve-answers}
use safeswitch_router.Policy.{
  ChildEffectiveState, Runtime, children_of, clean_ip, reader, paused_for, internet_paused_for_ip,
}

-- A child has the address, up to "/32".
abbrev pub has_address : Bytes → ChildEffectiveState → Bool
has_address ip c = same (clean_ip c.wireguard_ip) (clean_ip ip)

-- A child is locked or in the mode "paused".
abbrev pub is_stopped : ChildEffectiveState → Bool
is_stopped c = c.lock_enabled || same c.mode (bytes "paused")

abbrev pub holders : Bytes → List ChildEffectiveState → ℕ
holders ip [] = 0
holders ip (c ∷ cs) = if has_address ip c then holders ip cs + 1 else holders ip cs

abbrev pub is_stopped_at : Bytes → List ChildEffectiveState → Bool
is_stopped_at ip cs = any (λ c. has_address ip c && is_stopped c) cs

is_stopped_at-nobody :
    (ip : Bytes) (cs : List ChildEffectiveState) → holders ip cs ≡ 0 → is_stopped_at ip cs ≡ false
is_stopped_at-nobody ip [] h = refl
is_stopped_at-nobody ip (c ∷ cs) h = elim (Bool-cases (has_address ip c)) [
  | inl e ↦ absurd (ground (arith, h, e))
  | inr e ↦ ground (arith, e, is_stopped_at-nobody ip cs (ground (arith, h, e)))
]

paused_for-is_stopped_at :
    (ip : Bytes) (cs : List ChildEffectiveState)
    → holders ip cs ≤ 1
    → paused_for (clean_ip ip) cs ≡ is_stopped_at ip cs
unfolding paused_for
paused_for-is_stopped_at ip [] h = refl
paused_for-is_stopped_at ip (c ∷ cs) h = elim (Bool-cases (has_address ip c)) [
  | inl e ↦ ground (arith, e, is_stopped_at-nobody ip cs (ground (arith, h, e)))
  | inr e ↦ ground (arith, e, paused_for-is_stopped_at ip cs (ground (arith, h, e)))
]

-- What the client of a device gets, and which events there are: of a stopped device every query is
-- held back with no event, and of any other a query is held back with one, or passed on.
abbrev pub Serves :
    (Bytes → Bytes → Option Bytes)
    → ℕ
    → Bytes
    → Question
    → List Bytes
    → BlockEvent
    → Bool
    → Result (Bytes × List BlockEvent)
    → Type 0
Serves forward_once fuel query q ls event stopped o =
    ((stopped ≡ true) × Holds fuel query q ls [] o)
    ⊎ ((stopped ≡ false) × (Holds fuel query q ls (event ∷ []) o ⊎ Forwards forward_once query o))

-- A query that parses with a question whose name has labels without dots, from a tunnel address that
-- at most one child of the active bundle has: if a child with that address is locked or in the mode
-- "paused", the client gets the sinkhole's address, or NXDOMAIN for a type other than A, whatever the
-- name, and no event is recorded. If not, the query is held back in the same way with one event, or
-- the client gets what an upstream answers, or SERVFAIL, with no event.
pub resolve-is_stopped_at :
    (unicode_lower : Bytes → Bytes) (forward_once : Bytes → Bytes → Option Bytes) (fuel : ℕ)
    (bl : Blocklist) (r : Runtime) (query src_ip : Bytes) (m : Msg) (q : Question)
    (qs : List Question) (ls : List Bytes)
    → All IsByte query
    → parse_query fuel query ≡ ok m
    → m.questions ≡ q ∷ qs
    → All IsLabel ls
    → All NoDot ls
    → q.name ≡ join (bytes ".") ls
    → length ls < fuel
    → holders src_ip (children_of r.active) ≤ 1
    → Serves forward_once fuel query q ls
        (event_for unicode_lower forward_once fuel bl (some (reader r)) query src_ip q)
        (is_stopped_at src_ip (children_of r.active))
        (outcome unicode_lower forward_once fuel bl (some (reader r)) query src_ip)
unfolding internet_paused_for_ip new_resolver
resolve-is_stopped_at unicode_lower forward_once fuel bl r query src_ip m q qs ls bs parsed first lv
      nd name enough apart =
    let stopped : internet_paused_for_ip r src_ip ≡ is_stopped_at src_ip (children_of r.active) =
      paused_for-is_stopped_at src_ip (children_of r.active) apart in
    let answers =
      resolve-answers unicode_lower forward_once fuel bl (some (reader r)) query src_ip m q qs ls bs
        parsed first lv nd name enough in
    elim (Bool-cases (is_stopped_at src_ip (children_of r.active))) [
      | inl e ↦
          let paused = stopped ∙ e in
          elim answers [
            | inl (h, (answer, f, how)) ↦ inl (e, (answer, f ∙ ground (arith, paused), how))
            | inr (h, sent) ↦ absurd (ground (arith, h, paused))
          ]
      | inr e ↦
          let awake = stopped ∙ e in
          elim answers [
            | inl (h, (answer, f, how)) ↦ inr (e, inl (answer, f ∙ ground (arith, awake), how))
            | inr (h, sent) ↦ inr (e, inr sent)
          ]
    ]
