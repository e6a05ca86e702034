-- ===== src/Router/Tests.antt =====
-- Concrete relays of apps/gateway/src/router.ts.
use deepseek_harness_gateway.Common.{
  ℕ, ◌≡◌, ◌≢◌, ◌⊎◌, ◌++◌, refl, true, false, none, some, List, [], ◌∷◌, map, arith, if◌then◌else◌,
}
use deepseek_harness_gateway.Common.Text.{Text, text, text_eq, starts_with, Eq-text}
use deepseek_harness_gateway.Common.Lists.{any, filter}
use deepseek_harness_gateway.Common.Dict.{Dict, get, values}
use deepseek_harness_gateway.Store.Domain.{User, user, approved, empty_store}
use deepseek_harness_gateway.DaemonControl.{new_registry}
use deepseek_harness_gateway.Session.{Limits, Sessions}
use deepseek_harness_gateway.Authz.{authorize_console}
use deepseek_harness_gateway.Nodes.State.{Nodes, console, single_node_id, single_loop}
use deepseek_harness_gateway.Router.{
  write_head, write, end_body, new_relay, is_html_for_injection, response_headers, on_response,
  on_end, on_chunks, no_store, to_lower, console_request, passthrough_request, passthrough_guard,
  passthrough_handler, passthrough_target, session_machine, relays, replies,
}
use deepseek_harness_gateway.Router.Guards.{Guarded, guarded_target, handled_target, relays-Guarded}
use deepseek_harness_gateway.Router.Stream.{is_hop, is_validator, relay-streams, relay-injects}

abbrev limits : Limits
limits = record { idle_ttl_ms = 10; absolute_ttl_ms = 20; session_max = 2 }

abbrev ann : User
ann = record { id = text "ann"; role = user; auth_hash = text "h" }

-- One connected, approved console, and its user.
abbrev one_node : Nodes
one_node = record {
  nodes =
      (
        text "m:console",
        record {
          ws = 1;
          machine_id = text "m";
          role = console;
          status = approved;
          lease_expiry = 100;
          daemon_state = [];
          daemon_action = [];
          agent_version = [];
          daemon_enabled = true;
        },
      )
      ∷ [];
  daemon_controls = new_registry;
  streams = [];
  streams_node = [];
  ws_channels = [];
  ws_channel_node = [];
  channel_seq = 0;
  store = record empty_store {
    machines =
        (
          text "m",
          record {
            id = text "m";
            name = text "node";
            node_key_hash = text "k";
            status = approved;
            dsh_version = none;
            config_rev = 0;
            last_heartbeat_at = none;
            created_at = text "t";
            daemon_state = none;
            daemon_enabled = none;
          },
        )
        ∷ [];
    assignments =
        (
          text "m:ann",
          record { machine_id = text "m"; user_id = text "ann"; created_at = text "t" },
        )
        ∷ [];
  };
  effects = [];
}

-- Between the guard and the handler, nothing happens, or the console disconnects.
abbrev nothing : Nodes → Sessions → Nodes × Sessions
nothing g m = (g, m)

abbrev disconnects : Nodes → Sessions → Nodes × Sessions
disconnects g m = (record g { nodes = [] }, m)

is_relayed :
    (passthrough_request limits nothing 1 2 [] (some ann) one_node []).0 ≡ relays (text "m")
unfolding passthrough_request passthrough_guard passthrough_handler passthrough_target
    session_machine single_node_id single_loop authorize_console text_eq get values any filter
is_relayed = refl

is_refused : (passthrough_request limits nothing 1 2 [] none one_node []).0 ≡ replies 401
unfolding passthrough_request passthrough_guard passthrough_handler passthrough_target
    session_machine single_node_id single_loop authorize_console text_eq get values any filter
is_refused = refl

is_lost : (passthrough_request limits disconnects 1 2 [] (some ann) one_node []).0 ≡ replies 503
unfolding passthrough_request passthrough_guard passthrough_handler passthrough_target
    session_machine single_node_id single_loop authorize_console text_eq get values any filter
is_lost = refl

relays-Guarded_example :
    Guarded one_node.store
      (some ann)
      (console_request limits 1 [] (some ann) (text "m") one_node []).0
    × (Guarded one_node.store
          (some ann)
          (passthrough_request limits nothing 1 2 [] (some ann) one_node []).0
        ⊎ (guarded_target limits nothing 1 2 [] (some ann) one_node []
            ≢ handled_target limits nothing 1 2 [] (some ann) one_node []))
relays-Guarded_example = relays-Guarded limits nothing 1 2 [] (some ann) (text "m") one_node []

-- bytes that are code units
abbrev same : List ℕ → List ℕ
same s = s

abbrev mark : Text → Text
mark s = 33 ∷ s

abbrev html : Dict Text Text
html = (text "content-type", text "text/html") ∷ (text "etag", text "v1") ∷ []

abbrev plain : Dict Text Text
plain = (text "content-type", text "text/css") ∷ (text "content-length", text "2") ∷ []

is_plain : is_html_for_injection true 200 plain ≡ false
unfolding is_html_for_injection to_lower starts_with get text_eq
is_plain = refl

is_page : is_html_for_injection true 200 html ≡ true
unfolding is_html_for_injection to_lower starts_with get text_eq
is_page = refl

relay-streams_example :
    ((on_end same same mark (
        on_chunks same same
          ((1 ∷ []) ∷ (2 ∷ []) ∷ [])
          (on_response true 200 plain new_relay))).output
      ≡ write_head 200 (response_headers plain) ∷ map write ((1 ∷ []) ∷ (2 ∷ []) ∷ [])
        ++ end_body [] ∷ [])
    × ((k : Text) → get k (response_headers plain) ≡ (if is_hop k then none else get k plain))
relay-streams_example =
    relay-streams same same mark true 200 plain ((1 ∷ []) ∷ (2 ∷ []) ∷ []) is_plain

relay-injects_example :
    ((on_end same same mark (
        on_chunks same same
          ((1 ∷ []) ∷ (2 ∷ []) ∷ [])
          (on_response true 200 html new_relay))).output
      ≡ write_head 200 (no_store same same (response_headers html))
        ∷ end_body (33 ∷ 1 ∷ 2 ∷ [])
        ∷ [])
    × ((k : Text)
        → get k (no_store same same (response_headers html)) ≡ (
            if is_validator k
            then none
            else if text_eq (text "cache-control") k
            then some (text "no-store")
            else if is_hop k
            then none
            else get k html))
relay-injects_example =
    relay-injects same same mark true 200 html ((1 ∷ []) ∷ (2 ∷ []) ∷ []) is_page
      (omega arith, (omega arith, tt))
