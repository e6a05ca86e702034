-- ===== src/Startup/Tests.antt =====
-- Concrete runs of apps/gateway/src/main.ts.
use deepseek_harness_gateway.Common.{◌≡◌, refl, some, [], ◌∷◌}
use deepseek_harness_gateway.Common.Text.{text, text_eq, starts_with, Eq-text}
use deepseek_harness_gateway.Common.Dict.{get}
use deepseek_harness_gateway.Store.Domain.{empty_store}
use deepseek_harness_gateway.DaemonControl.{new_registry}
use deepseek_harness_gateway.Session.{Limits}
use deepseek_harness_gateway.Nodes.State.{Nodes}
use deepseek_harness_gateway.Startup.{
  config, cli_config, option_key, is_option, gateway_options, UpgradeRequest, user_named,
  user_id_of, token_of, handle_browser_upgrade,
}
use deepseek_harness_gateway.Startup.Options.{Setting, typed, all_set, IsSetting, cli_config-typed}
use deepseek_harness_gateway.Startup.Browsers.{Permitted, handle_browser_upgrade-Permitted}

abbrev port : Setting
port = record { flag = text "--port"; env = text "DSH_GATEWAY_PORT"; value = text "80" }

port-IsSetting : IsSetting gateway_options port
unfolding option_key is_option starts_with get text_eq
port-IsSetting = (refl, refl, refl)

cli_config-typed_example :
    cli_config gateway_options (typed (port ∷ port ∷ [])) ≡ config (all_set [] (port ∷ port ∷ []))
cli_config-typed_example =
    cli_config-typed gateway_options (port ∷ port ∷ []) (port-IsSetting, (port-IsSetting, tt))

abbrev limits : Limits
limits = record { idle_ttl_ms = 10; absolute_ttl_ms = 20; session_max = 2 }

abbrev registry : Nodes
registry = record {
  nodes = [];
  daemon_controls = new_registry;
  streams = [];
  streams_node = [];
  ws_channels = [];
  ws_channel_node = [];
  channel_seq = 0;
  store = empty_store;
  effects = [];
}

abbrev request : UpgradeRequest
request = record {
  pathname = text "/console/m/api";
  search = [];
  cookie = some (text "gw_session=abc");
}

handle_browser_upgrade-Permitted_example :
    Permitted empty_store
      (user_named limits empty_store (user_id_of limits 1 (token_of limits request) []).0)
      (handle_browser_upgrade limits 1 request registry []).0
handle_browser_upgrade-Permitted_example =
    handle_browser_upgrade-Permitted limits 1 request registry []
