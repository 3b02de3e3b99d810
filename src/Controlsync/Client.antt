-- ===== src/Controlsync/Client.antt =====
-- internal/controlsync/client.go: the requests to the cloud and their retries. What comes back for
-- an attempt, and whether the context has ended by then, are parameters. Header names are as the
-- source writes them; a request's own headers are a dictionary by name.
pub mod Retries
use safeswitch_router.Common.{
  ℕ, zero, suc, Bool, true, false, ◌&&◌, Option, none, some, List, [], ◌∷◌, ◌++◌, Bytes, bytes,
  length, ltb, leb, take, same, ◌==◌, if◌then◌else◌,
}
use safeswitch_router.Common.Dict.{Dict, lookup, insert}

pub record Client : Type 0 where
  pub base_url : Bytes
  pub node_token : Bytes
  pub anon_key : Bytes
  pub service_role_key : Bytes

pub data AuthMode : Type 0 where
  auth_anon : AuthMode
  auth_node_token : AuthMode
  auth_service_role : AuthMode

pub record ReqOpts : Type 0 where
  pub auth : AuthMode
  pub extra_headers : Dict Bytes
  pub want_resp_hdrs : Bool

-- An option of a call.
pub data ReqOpt : Type 0 where
  with_auth : AuthMode → ReqOpt
  with_header : Bytes → Bytes → ReqOpt
  with_resp_headers : ReqOpt

unfoldable pub apply_opt : ReqOpt → ReqOpts → ReqOpts
apply_opt (with_auth a) o = record o { auth = a }
apply_opt (with_header key value) o = record o { extra_headers = insert key value o.extra_headers }
apply_opt with_resp_headers o = record o { want_resp_hdrs = true }

unfoldable pub apply_opts : List ReqOpt → ReqOpts → ReqOpts
apply_opts [] o = o
apply_opts (opt ∷ opts) o = apply_opts opts (apply_opt opt o)

unfoldable pub resolve_opts : AuthMode → List ReqOpt → ReqOpts
resolve_opts default_auth opts =
    apply_opts opts (record { auth = default_auth; extra_headers = []; want_resp_hdrs = false })

pub record Request : Type 0 where
  pub method : Bytes
  pub url : Bytes
  pub headers : Dict Bytes
  pub body : Option Bytes

-- `req.Header.Get(key)`
abbrev pub header_of : Bytes → Dict Bytes → Bytes
header_of key headers = elim (lookup key headers) [ none ↦ [] | some v ↦ v ]

abbrev pub bearer : Bytes → Bytes
bearer key = bytes "Bearer " ++ key

unfoldable pub auth_headers : Client → AuthMode → Dict Bytes
auth_headers c auth_node_token = (bytes "Authorization", bearer c.node_token) ∷ []
auth_headers c auth_service_role =
    (bytes "Authorization", bearer c.service_role_key) ∷ (bytes "apikey", c.service_role_key) ∷ []
auth_headers c auth_anon = (bytes "Authorization", bearer c.anon_key) ∷ []

unfoldable pub set_all : Dict Bytes → Dict Bytes → Dict Bytes
set_all [] headers = headers
set_all ((k, v) ∷ extra) headers = set_all extra (insert k v headers)

unfoldable pub default_headers : Client → Bytes → AuthMode → Dict Bytes
default_headers c method auth =
    let base = auth_headers c auth in
    let keyed =
      if length (header_of (bytes "apikey") base) == 0
      then insert (bytes "apikey") c.anon_key base
      else base in
    let typed = insert (bytes "Content-Type") (bytes "application/json") keyed in
    let accepting = insert (bytes "Accept") (bytes "application/json") typed in
    if same method (bytes "PATCH")
    then insert (bytes "Prefer") (bytes "return=representation") accepting
    else accepting

-- The headers of the caller go last.
unfoldable pub headers_of : Client → Bytes → ReqOpts → Dict Bytes
headers_of c method opts = set_all opts.extra_headers (default_headers c method opts.auth)

unfoldable pub request : Client → Bytes → Bytes → Option Bytes → ReqOpts → Request
request c method path body opts = record {
  method = method;
  url = c.base_url ++ path;
  headers = headers_of c method opts;
  body = body;
}

-- What `http.Client.Do` and `io.ReadAll` give: no answer, a body that cannot be read to its end, or
-- all of it.
pub data HttpAnswer : Type 0 where
  no_answer : HttpAnswer
  unreadable : ℕ → HttpAnswer
  answered : ℕ → Bytes → Dict Bytes → HttpAnswer

-- A return without an error; the headers are there on demand.
pub record Reply : Type 0 where
  pub body : Bytes
  pub status : ℕ
  pub headers : Option (Dict Bytes)

-- `none` is an error; the status beside it is not used by the caller.
unfoldable pub do_once : Bool → HttpAnswer → Option Reply
do_once want no_answer = none
do_once want (unreadable status) = none
do_once want (answered status body headers) =
    let reply : Reply = record {
      body = body;
      status = status;
      headers = if want then some headers else none;
    } in
    if leb 400 status then (if status == 416 then some reply else none) else some reply

-- The pauses before the attempts, in milliseconds.
abbrev pub retry_delays : List ℕ
retry_delays = 0 ∷ 500 ∷ 1000 ∷ 2000 ∷ []

-- The reply, `none` for an error, and the number of requests sent.
pub record CallResult : Type 0 where
  pub reply : Option Reply
  pub sent : ℕ

module _ (send : ℕ → HttpAnswer) (ctx_done : ℕ → Bool) (want : Bool) where
  unfoldable pub attempts : List ℕ → ℕ → CallResult
  attempts [] attempt = record { reply = none; sent = attempt }
  attempts (delay ∷ rest) attempt =
      let later = attempts rest (suc attempt) in
      if ltb 0 delay && ctx_done attempt
      then record { reply = none; sent = attempt }
      else elim (do_once want (send attempt)) [
        | some reply ↦ record { reply = some reply; sent = suc attempt }
        | none ↦ later
      ]

-- `send attempt req` answers the request; the result is a return with status 0 if there is no reply.
unfoldable pub do_with_retry :
    (ℕ → Request → HttpAnswer)
    → (ℕ → Bool)
    → Client
    → Bytes
    → Bytes
    → Option Bytes
    → ReqOpts
    → CallResult
do_with_retry send ctx_done c method path body opts =
    attempts (λ i. send i (request c method path body opts)) ctx_done opts.want_resp_hdrs
      retry_delays 0

-- The calls, by method and default key.
module _ (send : ℕ → Request → HttpAnswer) (ctx_done : ℕ → Bool) (c : Client) where
  unfoldable pub post : Bytes → Bytes → CallResult
  post path body =
      do_with_retry send ctx_done c (bytes "POST") path (some body)
        (resolve_opts auth_node_token [])

  unfoldable pub get : Bytes → CallResult
  get path = do_with_retry send ctx_done c (bytes "GET") path none (resolve_opts auth_node_token [])

  unfoldable pub patch : Bytes → Bytes → CallResult
  patch path body =
      do_with_retry send ctx_done c (bytes "PATCH") path (some body)
        (resolve_opts auth_node_token [])

  unfoldable pub get_rest : Bytes → List ReqOpt → CallResult
  get_rest path opts =
      do_with_retry send ctx_done c (bytes "GET") path none (resolve_opts auth_anon opts)

  unfoldable pub post_rest : Bytes → Bytes → List ReqOpt → CallResult
  post_rest path body opts =
      do_with_retry send ctx_done c (bytes "POST") path (some body) (resolve_opts auth_anon opts)

  unfoldable pub patch_rest : Bytes → Bytes → List ReqOpt → CallResult
  patch_rest path body opts =
      do_with_retry send ctx_done c (bytes "PATCH") path (some body) (resolve_opts auth_anon opts)

  unfoldable pub delete_rest : Bytes → List ReqOpt → CallResult
  delete_rest path opts =
      do_with_retry send ctx_done c (bytes "DELETE") path none (resolve_opts auth_anon opts)

  unfoldable pub get_rest_with_headers : Bytes → List ReqOpt → CallResult
  get_rest_with_headers path opts =
      do_with_retry send ctx_done c (bytes "GET") path none
        (record (resolve_opts auth_anon opts) { want_resp_hdrs = true })

-- `truncate(s, n)`
unfoldable pub truncate : Bytes → ℕ → Bytes
truncate s n = if leb (length s) n then s else take n s ++ bytes "..."
