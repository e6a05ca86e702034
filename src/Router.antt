-- ===== src/Router.antt =====
-- apps/gateway/src/router.ts: which machine a console request is relayed to, and what becomes of the
-- response. The injection of scripts into a page, and UTF-8, are arguments.
pub mod Guards
pub mod Stream
mod Tests
use deepseek_harness_gateway.Common.{
  ℕ, ◌+◌, Bool, true, false, not, ◌&&◌, ◌||◌, Option, none, some, List, [], ◌∷◌, ◌++◌, ltb, leb,
  nat_eq, if◌then◌else◌,
}
use deepseek_harness_gateway.Common.Text.{Text, text, text_eq, starts_with, Eq-text}
use deepseek_harness_gateway.Common.Lists.{length, any}
use deepseek_harness_gateway.Common.Dict.{Dict, get, set, delete, retain}
use deepseek_harness_gateway.Common.Split.{split_on, includes}
use deepseek_harness_gateway.Common.Json.{Json, str, stringify}
use deepseek_harness_gateway.Store.Domain.{User}
use deepseek_harness_gateway.Session.{Limits, Sessions, bind_machine, machine_of}
use deepseek_harness_gateway.Login.{read_session_token}
use deepseek_harness_gateway.Authz.{AuthzResult, authorize_console}
use deepseek_harness_gateway.Nodes.State.{Nodes, single_node_id}

-- ---- request headers
abbrev pub drop_headers : List Text
drop_headers =
    text "host"
    ∷ text "connection"
    ∷ text "content-length"
    ∷ text "transfer-encoding"
    ∷ text "upgrade"
    ∷ text "keep-alive"
    ∷ text "origin"
    ∷ text "referer"
    ∷ text "sec-fetch-site"
    ∷ text "sec-fetch-mode"
    ∷ text "sec-fetch-dest"
    ∷ text "sec-fetch-user"
    ∷ []

-- `toLowerCase`, on the ASCII that header names are made of
unfoldable pub to_lower : Text → Text
to_lower [] = []
to_lower (c ∷ s) = (if leb 65 c && leb c 90 then c + 32 else c) ∷ to_lower s

unfoldable pub relayed_headers : Dict Text Text → Dict Text Text
unfolding to_lower
relayed_headers headers =
    retain (λ k v. not (any (λ d. text_eq d (to_lower k)) drop_headers)) headers

abbrev first_piece : List Text → Text
first_piece [] = []
first_piece (p ∷ ps) = p

abbrev last_piece : List Text → Text
last_piece [] = []
last_piece (p ∷ []) = p
last_piece (p ∷ q ∷ ps) = last_piece (q ∷ ps)

-- a page, by its path: the last segment has no extension
unfoldable pub doc_like_get : Bool → Text → Bool
unfolding split_on includes
doc_like_get is_get path =
    is_get && not (includes 46 (last_piece (split_on 47 (first_piece (split_on 63 path)))))

unfoldable pub upstream_headers : Bool → Text → Dict Text Text → Dict Text Text
unfolding doc_like_get relayed_headers
upstream_headers is_get path headers =
    let kept = relayed_headers headers in
    if doc_like_get is_get path then delete (text "accept-encoding") kept else kept

-- `queryString`: from the first question mark on
unfoldable pub query_string : Text → Text
query_string [] = []
query_string (c ∷ url) = let rest = query_string url in if nat_eq c 63 then c ∷ url else rest

-- ---- who is relayed where
pub data Decision : Type 0 where
  relays : Text → Decision
  replies : ℕ → Decision

module _ (l : Limits) where
  abbrev machine_of_token : ℕ → Option Text → Sessions → Option Text × Sessions
  machine_of_token now none m = (none, m)
  machine_of_token now (some []) m = (none, m)
  machine_of_token now (some (c ∷ token)) m = machine_of l (c ∷ token) now m

  -- `sessionMachine`
  unfoldable pub session_machine : ℕ → Dict Text Text → Sessions → Option Text × Sessions
  unfolding read_session_token machine_of
  session_machine now cookies m = machine_of_token now (read_session_token cookies) m

  abbrev bind_token : ℕ → Text → Option Text → Sessions → Sessions
  bind_token now machine_id none m = m
  bind_token now machine_id (some []) m = m
  bind_token now machine_id (some (c ∷ token)) m = bind_machine l (c ∷ token) machine_id now m

  -- `/console/:machineId`: the guard `consoleAuthz`, then the relay
  unfoldable pub console_request :
      ℕ → Dict Text Text → Option User → Text → Nodes → Sessions → Decision × Sessions
  unfolding authorize_console read_session_token bind_machine
  console_request now cookies user machine_id g m =
      let res = authorize_console g.store user machine_id in
      if res.allowed
      then (relays machine_id, bind_token now machine_id (read_session_token cookies) m)
      else (replies res.status, m)

  -- `sessionMachine(req) ?? registry.singleNodeId()`
  abbrev or_single : Option Text → Nodes → Option Text
  or_single (some mid) g = some mid
  or_single none g = single_node_id g

  unfoldable pub passthrough_target : ℕ → Dict Text Text → Nodes → Sessions → Option Text × Sessions
  unfolding session_machine single_node_id
  passthrough_target now cookies g m =
      let (bound, m') = session_machine now cookies m in (or_single bound g, m')

  -- `singleNodeAuthz`, for its target: the status that it refuses with
  abbrev pub guard_target : Option User → Nodes → Option Text → Option ℕ
  guard_target user g none = some 503
  guard_target user g (some []) = some 503
  guard_target user g (some (c ∷ mid)) =
      let res = authorize_console g.store user (c ∷ mid) in
      if res.allowed then none else some res.status

  unfoldable pub passthrough_guard :
      ℕ → Dict Text Text → Option User → Nodes → Sessions → Option ℕ × Sessions
  passthrough_guard now cookies user g m =
      let (target, m') = passthrough_target now cookies g m in (guard_target user g target, m')

  -- the handler of `/*`, for its target
  abbrev pub relay_target : Option Text → Decision
  relay_target none = replies 503
  relay_target (some []) = replies 503
  relay_target (some (c ∷ mid)) = relays (c ∷ mid)

  unfoldable pub passthrough_handler : ℕ → Dict Text Text → Nodes → Sessions → Decision × Sessions
  passthrough_handler now cookies g m =
      let (target, m') = passthrough_target now cookies g m in (relay_target target, m')

  abbrev pub handle_passed :
      (Nodes → Sessions → Nodes × Sessions)
      → ℕ
      → Dict Text Text
      → Nodes
      → Option ℕ
      → Sessions
      → Decision × Sessions
  handle_passed meanwhile later cookies g (some status) m = (replies status, m)
  handle_passed meanwhile later cookies g none m =
      let (g', m') = meanwhile g m in passthrough_handler later cookies g' m'

  -- `/*`: the guard, then at a later time the handler, which reads the target again. What other
  -- requests and sockets do while the guard awaits its answer is `meanwhile`.
  unfoldable pub passthrough_request :
      (Nodes → Sessions → Nodes × Sessions)
      → ℕ
      → ℕ
      → Dict Text Text
      → Option User
      → Nodes
      → Sessions
      → Decision × Sessions
  unfolding passthrough_guard passthrough_handler
  passthrough_request meanwhile now later cookies user g m =
      let (refusal, m') = passthrough_guard now cookies user g m in
      handle_passed meanwhile later cookies g refusal m'

-- ---- the response of a relay
pub data Output : Type 0 where
  write_head : ℕ → Dict Text Text → Output
  write : List ℕ → Output
  end_body : List ℕ → Output

-- The variables of `relayHttp` and what it has written; no buffer is streaming mode.
pub record Relay : Type 0 where
  pub html_buf : Option Text
  pub pending_status : ℕ
  pub pending_headers : Option (Dict Text Text)
  pub headers_sent : Bool
  pub output : List Output

abbrev pub new_relay : Relay
new_relay = record {
  html_buf = none;
  pending_status = 0;
  pending_headers = none;
  headers_sent = false;
  output = [];
}

abbrev pub html_buffer_cap : ℕ
html_buffer_cap = 262144

abbrev or_empty : Option Text → Text
or_empty none = []
or_empty (some s) = s

unfoldable pub is_html_for_injection : Bool → ℕ → Dict Text Text → Bool
unfolding to_lower starts_with
is_html_for_injection is_get status headers =
    let kind = to_lower (or_empty (get (text "content-type") headers)) in
    let encoding = to_lower (or_empty (get (text "content-encoding") headers)) in
    is_get
    && starts_with kind (text "text/html")
    && (text_eq encoding [] || text_eq encoding (text "identity"))
    && leb 200 status
    && ltb status 300

abbrev pub emit : List Output → Relay → Relay
emit os r = record r { output = r.output ++ os }

unfoldable pub response_headers : Dict Text Text → Dict Text Text
response_headers headers =
    delete (text "connection")
      (delete (text "transfer-encoding") (delete (text "content-length") headers))

unfoldable pub on_response : Bool → ℕ → Dict Text Text → Relay → Relay
unfolding is_html_for_injection response_headers
on_response is_get status headers r =
    let out = response_headers headers in
    if is_html_for_injection is_get status headers
    then record r { html_buf = some []; pending_status = status; pending_headers = some out }
    else emit (write_head status out ∷ []) (record r { headers_sent = true })

-- `if (!raw.headersSent && out !== null) raw.writeHead(pendingStatus, out)`
abbrev send_pending : Option (Dict Text Text) → Relay → Relay
send_pending none r = r
send_pending (some out) r =
    if r.headers_sent
    then r
    else emit (write_head r.pending_status out ∷ []) (record r { headers_sent = true })

module _ (decode : List ℕ → Text) (encode : Text → List ℕ) where
  abbrev data_buffered : List ℕ → Relay → Option Text → Relay
  data_buffered chunk r none = emit (write chunk ∷ []) r
  data_buffered chunk r (some buf) =
      if ltb html_buffer_cap (length buf + length chunk)
      then emit (write (encode buf) ∷ write chunk ∷ [])
          (record (send_pending r.pending_headers r) { pending_headers = none; html_buf = none })
      else record r { html_buf = some (buf ++ decode chunk) }

  unfoldable pub on_data : List ℕ → Relay → Relay
  on_data chunk r = data_buffered chunk r r.html_buf

  abbrev no_store : Dict Text Text → Dict Text Text
  no_store out =
      delete (text "last-modified")
        (delete (text "etag") (set (text "cache-control") (text "no-store") out))

  abbrev no_store? : Option (Dict Text Text) → Option (Dict Text Text)
  no_store? none = none
  no_store? (some out) = some (no_store out)

  abbrev end_buffered : (Text → Text) → Relay → Option Text → Relay
  end_buffered inject r none = emit (end_body [] ∷ []) (
      if r.headers_sent
      then r
      else emit (write_head 200 ((text "content-type", text "application/json") ∷ []) ∷ [])
          (record r { headers_sent = true }))
  end_buffered inject r (some buf) =
      emit (end_body (encode (inject buf)) ∷ [])
        (record (send_pending (no_store? r.pending_headers) r) {
          pending_headers = none;
          html_buf = none;
        })

  unfoldable pub on_end : (Text → Text) → Relay → Relay
  on_end inject r = end_buffered inject r r.html_buf

  -- `fail`
  unfoldable pub on_error : Text → Relay → Relay
  on_error message r =
      if r.headers_sent
      then emit (end_body [] ∷ []) r
      else emit
          (write_head 502 ((text "content-type", text "application/json") ∷ [])
            ∷ end_body (
                encode (
                  stringify (
                    (text "error", str (text "relay failed")) ∷ (text "detail", str message) ∷ [])))
            ∷ [])
          (record r { headers_sent = true })

  unfoldable pub on_chunks : List (List ℕ) → Relay → Relay
  unfolding on_data
  on_chunks [] r = r
  on_chunks (chunk ∷ rest) r = on_chunks rest (on_data chunk r)
