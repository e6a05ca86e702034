-- ===== src/Nodes/Tests.antt =====
-- Concrete runs of the node registry of apps/gateway/src/nodes.ts.
use deepseek_harness_gateway.Common.{
  ◌≡◌, ◌≢◌, refl, true, false, none, some, List, [], ◌∷◌, ◌++◌, Eq-nat,
}
use deepseek_harness_gateway.Common.Text.{text, text_eq, text_eq_iff, Eq-text}
use deepseek_harness_gateway.Common.Lists.{All}
use deepseek_harness_gateway.Common.Dict.{get, has, IsMap}
use deepseek_harness_gateway.Store.Domain.{empty_store, Machine, approved}
use deepseek_harness_gateway.Store.Memory.{get_pairing_code_by_hash}
use deepseek_harness_gateway.DaemonControl.{new_registry}
use deepseek_harness_gateway.Nodes.State.{Nodes, ConnectedNode, console}
use deepseek_harness_gateway.Nodes.Admin.{revoke_machine, of_machine}
use deepseek_harness_gateway.Nodes.Relay.{drop_channels_for_machine}
use deepseek_harness_gateway.Nodes.Onboard.{
  Payload, Outside, handle_onboarding, onboard_with, with_pairing_code,
}
use deepseek_harness_gateway.Nodes.Admission.{Shown, handle_onboarding-Shown}
use deepseek_harness_gateway.Nodes.Revoked.{IsRefused, IsAccepted, revoke_machine-locks_out}
use deepseek_harness_gateway.Nodes.Codes.{Later, onboards, issues, approves, do_all}
use deepseek_harness_gateway.Nodes.Pairing.{pairing_code_once}
use deepseek_harness_gateway.Nodes.Channels.{OnlyOf, drop_channels-only_machine}

abbrev machine : Machine
machine = record {
  id = text "m";
  name = text "node";
  node_key_hash = text "#k";
  status = approved;
  dsh_version = none;
  config_rev = 0;
  last_heartbeat_at = none;
  created_at = text "t";
  daemon_state = none;
  daemon_enabled = none;
}

abbrev live : ConnectedNode
live = record {
  ws = 1;
  machine_id = text "m";
  role = console;
  status = approved;
  lease_expiry = 100;
  daemon_state = [];
  daemon_action = [];
  agent_version = [];
  daemon_enabled = false;
}

abbrev registry : Nodes
registry = record {
  nodes = (text "m:console", live) ∷ [];
  daemon_controls = new_registry;
  streams = (1, true) ∷ [];
  streams_node = (1, text "m") ∷ [];
  ws_channels = (2, 7) ∷ (3, 8) ∷ [];
  ws_channel_node = (2, text "m") ∷ (3, text "other") ∷ [];
  channel_seq = 3;
  store = record empty_store {
    machines = (text "m", machine) ∷ [];
    pairing_codes =
        (
          text "#c",
          record {
            code_hash = text "#c";
            machine_id = none;
            expires_at = text "soon";
            consumed_by = none;
          },
        )
        ∷ [];
  };
  effects = [];
}

abbrev outside : Outside
outside = record {
  sha256 = λ s. text "#" ++ s;
  time_of = λ s. some 50;
  now = 10;
  ts = text "now";
  fresh_id = text "n";
  fresh_key = text "key";
}

abbrev first_time : Payload
first_time = record {
  code = some (text "c");
  machine_id = none;
  node_key = none;
  machine_name = none;
  dsh_version = none;
  role = none;
}

abbrev again : Payload
again = record first_time { code = none; machine_id = some (text "m"); node_key = some (text "k") }

handle_onboarding-Shown_example :
    Shown outside again registry (handle_onboarding outside 5 again registry).0
handle_onboarding-Shown_example = handle_onboarding-Shown outside 5 again registry

taken_on : IsAccepted (handle_onboarding outside 5 first_time registry).0
unfolding handle_onboarding onboard_with with_pairing_code get_pairing_code_by_hash get text_eq
taken_on = tt

-- A reconnection, an approval and another code come in between.
abbrev in_between : List Later
in_between =
    onboards outside 7 again
    ∷ approves (text "later") (text "n")
    ∷ issues outside.sha256 (text "d") (text "soon")
    ∷ []

not_again : outside.sha256 (text "d") ≢ text "#c"
unfolding text_eq
not_again e =
    let alike : false ≡ true = (text_eq_iff (outside.sha256 (text "d")) (text "#c")).1 e in cc

pairing_code_once_example :
    IsRefused
      (handle_onboarding outside 6 first_time
        (do_all in_between (handle_onboarding outside 5 first_time registry).1)).0
pairing_code_once_example =
    pairing_code_once outside outside 5 6 first_time first_time 99 [] registry in_between (λ e. cc)
      refl refl refl taken_on (tt, (tt, (not_again, tt)))

on_record : get (text "m") registry.store.machines ≡ some machine
unfolding get text_eq
on_record = refl

revoke_machine-locks_out_example :
    (let g' = (revoke_machine (text "now") (text "m") registry).1 in
      All (λ x. of_machine (text "m") x.1 ≡ false) g'.nodes
      × IsRefused (handle_onboarding outside 5 again g').0)
revoke_machine-locks_out_example =
    revoke_machine-locks_out (text "now") (text "m") registry machine outside 5 again on_record refl
      refl refl

channels_once : IsMap registry.ws_channel_node
unfolding has
channels_once = (refl, (refl, tt))

relays_once : IsMap registry.streams_node
unfolding has
relays_once = (refl, tt)

drop_channels-only_machine_example :
    OnlyOf (text "m") registry (drop_channels_for_machine (text "m") registry) 3
drop_channels-only_machine_example =
    drop_channels-only_machine (text "m") registry 3 channels_once relays_once
