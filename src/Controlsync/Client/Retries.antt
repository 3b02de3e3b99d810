-- ===== src/Controlsync/Client/Retries.antt =====
-- The retries of internal/controlsync/client.go, and whose key a request carries.
use safeswitch_router.Common.{
  ℕ, suc, ◌+◌, ◌≤◌, ◌<◌, ◌≡◌, ◌⊎◌, ◌∙◌, refl, Bool, true, false, ◌&&◌, Option, none, some, List, [],
  ◌∷◌, arith, Bytes, bytes, length, ltb, same, ◌==◌, if◌then◌else◌, Bool-cases, Option-cases, inl,
  inr,
}
use safeswitch_router.Common.Dict.{Dict, lookup, insert, lookup-insert, has}
use safeswitch_router.Controlsync.Client.{
  Client, AuthMode, auth_anon, auth_node_token, auth_service_role, ReqOpts, Request, bearer,
  auth_headers, set_all, default_headers, headers_of, request, HttpAnswer, no_answer, unreadable,
  answered, Reply, do_once, retry_delays, CallResult, attempts, do_with_retry,
}

-- A reply's status is no error, or 416.
abbrev pub IsAccepted : ℕ → Type 0
IsAccepted status = (status < 400) ⊎ (status ≡ 416)

pub do_once-IsAccepted :
    (want : Bool) (a : HttpAnswer) (r : Reply) → do_once want a ≡ some r → IsAccepted r.status
unfolding do_once
do_once-IsAccepted want no_answer r e = cc
do_once-IsAccepted want (unreadable s) r e = cc
do_once-IsAccepted want (answered s b h) r e = ground arith

module _ (send : ℕ → HttpAnswer) (ctx_done : ℕ → Bool) (want : Bool) where
  -- A reply came for the last attempt, and a failure is one of every attempt from `first` on or comes
  -- of a context that has ended, with no more requests than up to `end`; the attempts before all failed.
  abbrev pub Ends : ℕ → ℕ → CallResult → Option Reply → Type 0
  Ends first end o (some r) =
      (i : ℕ) × (first ≤ i)
      × (i < end)
      × (do_once want (send i) ≡ some r)
      × (o.sent ≡ i + 1)
      × ((j : ℕ) → first ≤ j → j < i → do_once want (send j) ≡ none)
  Ends first end o none =
      (o.sent ≤ end)
      × ((o.sent ≡ end) ⊎ (ctx_done o.sent ≡ true))
      × ((j : ℕ) → first ≤ j → j < o.sent → do_once want (send j) ≡ none)

  Ends-later :
      (first end : ℕ) (o : CallResult) (r : Option Reply)
      → do_once want (send first) ≡ none
      → Ends (suc first) end o r
      → Ends first end o r
  Ends-later first end o (some r) n (i, l, u, a, s, before) = (
    i,
    omega (arith, l),
    u,
    a,
    s,
    λ j p q. elim (Bool-cases (j == first)) [
      | inl m ↦ ground (arith, m, n)
      | inr m ↦ before j (ground (arith, m, p)) q
    ],
  )
  Ends-later first end o none n (most, why, before) = (
    most,
    why,
    λ j p q. elim (Bool-cases (j == first)) [
      | inl m ↦ ground (arith, m, n)
      | inr m ↦ before j (ground (arith, m, p)) q
    ],
  )

  attempts-Ends :
      (ds : List ℕ) (first end : ℕ)
      → first + length ds ≡ end
      → Ends first end
          (attempts send ctx_done want ds first)
          (attempts send ctx_done want ds first).reply
  unfolding attempts
  attempts-Ends [] first end e =
      (omega (arith, e), inl (omega (arith, e)), λ j p q. absurd (omega (arith, p, q)))
  attempts-Ends (d ∷ ds) first end e = elim (Bool-cases (ltb 0 d && ctx_done first)) [
    | inl b ↦
        rw b (omega (arith, e), inr (ground (arith, b)), λ j p q. absurd (omega (arith, p, q)))
    | inr b ↦ elim (Option-cases (do_once want (send first))) [
      | inl n ↦
          rw (b, n)
            (Ends-later first end (attempts send ctx_done want ds (suc first))
              (attempts send ctx_done want ds (suc first)).reply n
              (attempts-Ends ds (suc first) end (omega (arith, e))))
      | inr (r, n) ↦
          rw (b, n)
            (
              first,
              omega arith,
              omega (arith, e),
              n,
              omega arith,
              λ j p q. absurd (omega (arith, p, q)),
            )
    ]
  ]

-- At most four requests are sent. A reply is that of the last of them, and an error comes of four
-- failures or of a context that has ended; the attempts before failed, every one.
pub do_with_retry-Ends :
    (send : ℕ → Request → HttpAnswer) (ctx_done : ℕ → Bool) (c : Client) (method path : Bytes)
    (body : Option Bytes) (opts : ReqOpts)
    → Ends
        (λ i. send i (request c method path body opts))
        ctx_done
        opts.want_resp_hdrs
        0
        4
        (do_with_retry send ctx_done c method path body opts)
        (do_with_retry send ctx_done c method path body opts).reply
unfolding do_with_retry
do_with_retry-Ends send ctx_done c method path body opts =
    attempts-Ends (λ i. send i (request c method path body opts)) ctx_done opts.want_resp_hdrs
      retry_delays 0 4 refl

-- A caller sees no error status but 416.
pub do_with_retry-IsAccepted :
    (send : ℕ → Request → HttpAnswer) (ctx_done : ℕ → Bool) (c : Client) (method path : Bytes)
    (body : Option Bytes) (opts : ReqOpts) (r : Reply)
    → (do_with_retry send ctx_done c method path body opts).reply ≡ some r
    → IsAccepted r.status
do_with_retry-IsAccepted send ctx_done c method path body opts r e =
    let (i, l, u, a, s, before) =
      rw e at (do_with_retry-Ends send ctx_done c method path body opts) in
    do_once-IsAccepted opts.want_resp_hdrs (send i (request c method path body opts)) r a

lookup-set_all :
    (k : Bytes) (extra headers : Dict Bytes)
    → has k extra ≡ false
    → lookup k (set_all extra headers) ≡ lookup k headers
unfolding set_all lookup
lookup-set_all k [] headers h = refl
lookup-set_all k ((j, v) ∷ extra) headers h =
    ground (arith, h, lookup-set_all k extra (insert j v headers), lookup-insert j k v headers)

-- The key behind `Authorization`, and the one behind `apikey`.
abbrev pub key_of : Client → AuthMode → Bytes
key_of c auth_anon = c.anon_key
key_of c auth_node_token = c.node_token
key_of c auth_service_role = c.service_role_key

abbrev pub api_key_of : Client → AuthMode → Bytes
api_key_of c auth_anon = c.anon_key
api_key_of c auth_node_token = c.anon_key
api_key_of c auth_service_role =
    if length c.service_role_key == 0 then c.anon_key else c.service_role_key

-- The two headers that carry the keys.
abbrev pub Carries : Client → AuthMode → Dict Bytes → Type 0
Carries c auth headers =
    (lookup (bytes "Authorization") headers ≡ some (bearer (key_of c auth)))
    × (lookup (bytes "apikey") headers ≡ some (api_key_of c auth))

default_headers-Carries :
    (c : Client) (method : Bytes) (auth : AuthMode) → Carries c auth (default_headers c method auth)
unfolding default_headers auth_headers lookup same insert
default_headers-Carries c method auth_anon = elim (Bool-cases (same method (bytes "PATCH"))) [
  | inl m ↦ ground (arith, m)
  | inr m ↦ ground (arith, m)
]
default_headers-Carries c method auth_node_token = ground arith
default_headers-Carries c method auth_service_role = ground arith

-- A request carries the key of its own mode and no other, unless the caller sets those headers; with
-- no service-role key at hand, the anonymous one stands behind `apikey`.
pub headers_of-Carries :
    (c : Client) (method : Bytes) (opts : ReqOpts)
    → has (bytes "Authorization") opts.extra_headers ≡ false
    → has (bytes "apikey") opts.extra_headers ≡ false
    → Carries c opts.auth (headers_of c method opts)
unfolding headers_of
headers_of-Carries c method opts h k =
    let (authorization, apikey) = default_headers-Carries c method opts.auth in
    let base = default_headers c method opts.auth in
    (
      lookup-set_all (bytes "Authorization") opts.extra_headers base h ∙ authorization,
      lookup-set_all (bytes "apikey") opts.extra_headers base k ∙ apikey,
    )
