-- ===== src/Startup.antt =====
-- apps/gateway/src/main.ts: the options of the command line, the switches of the environment, the list
-- of nodes, and the upgrade of a browser's request to a WebSocket.
pub mod Options
pub mod Browsers
mod Tests
use deepseek_harness_gateway.Common.{
  ℕ, Bool, true, false, not, ◌&&◌, ◌||◌, Option, none, some, List, [], ◌∷◌, ◌++◌, if◌then◌else◌,
}
use deepseek_harness_gateway.Common.Text.{Text, text, text_eq, starts_with, Eq-text}
use deepseek_harness_gateway.Common.Lists.{any, filter, drop}
use deepseek_harness_gateway.Common.Split.{split_on, trim}
use deepseek_harness_gateway.Common.Dict.{Dict, get, set}
use deepseek_harness_gateway.Store.Domain.{User, Store}
use deepseek_harness_gateway.Store.Memory.{get_user, list_assignments_for_user}
use deepseek_harness_gateway.Session.{Limits, Sessions, lookup, machine_of}
use deepseek_harness_gateway.Login.{session_cookie, session_cookie_host}
use deepseek_harness_gateway.Authz.{AuthzResult, authorize_console, get_cookie}
use deepseek_harness_gateway.Nodes.State.{Nodes, single_node_id, list_nodes}
use deepseek_harness_gateway.Control.Users.{is_admin}
use deepseek_harness_gateway.Router.{to_lower}

-- ---- the command line
pub data Cli : Type 0 where
  config : Dict Text Text → Cli
  shows_help : Cli
  missing_value : Text → Cli

-- `CLI_MAP`
abbrev pub gateway_options : Dict Text Text
gateway_options =
    (text "host", text "DSH_GATEWAY_HOST")
    ∷ (text "port", text "DSH_GATEWAY_PORT")
    ∷ (text "db", text "DSH_GATEWAY_DB_PATH")
    ∷ (text "admin-id", text "DSH_GATEWAY_ADMIN_ID")
    ∷ (text "admin-password", text "DSH_GATEWAY_ADMIN_PASSWORD")
    ∷ (text "pairing-codes", text "DSH_GATEWAY_PAIRING_CODES")
    ∷ (text "web-dist", text "DSH_GATEWAY_WEB_DIST")
    ∷ (text "trust-proxy", text "DSH_GATEWAY_TRUST_PROXY")
    ∷ (text "cookie-secure", text "DSH_GATEWAY_COOKIE_SECURE")
    ∷ (text "allow-default-admin", text "DSH_GATEWAY_ALLOW_DEFAULT_ADMIN")
    ∷ []

-- `arg.replace(/^--/, '')`
unfoldable pub option_key : Text → Text
unfolding starts_with
option_key s = if starts_with s (text "--") then drop 2 s else s

unfoldable pub is_option : Text → Bool
unfolding starts_with
is_option s = starts_with s (text "--")

abbrev pub is_help : Text → Bool
is_help s = text_eq s (text "-h") || text_eq s (text "--help")

module _ (cli_map : Dict Text Text) where
  -- The loop of `cliConfig`, with the options read so far.
  unfoldable pub cli_loop : Dict Text Text → List Text → Cli
  unfolding option_key is_option
  cli_loop out [] = config out
  cli_loop out (arg ∷ []) =
      if is_help arg
      then shows_help
      else elim (get (option_key arg) cli_map) [ none ↦ config out | some env ↦ missing_value arg ]
  cli_loop out (arg ∷ val ∷ argv) =
      let skipped = cli_loop out (val ∷ argv) in
      let stored : Text → Cli = λ env. cli_loop (set env val out) argv in
      if is_help arg then shows_help else elim (get (option_key arg) cli_map) [
        | none ↦ skipped
        | some env ↦ if is_option val then missing_value arg else stored env
      ]

  unfoldable pub cli_config : List Text → Cli
  unfolding cli_loop
  cli_config argv = cli_loop [] argv

-- ---- switches
abbrev trusted : Text → Bool
trusted s = not (text_eq s (text "false") || text_eq s (text "0"))

unfoldable pub parse_trust_proxy : Option Text → Bool
unfolding trim to_lower
parse_trust_proxy none = false
parse_trust_proxy (some []) = false
parse_trust_proxy (some (c ∷ raw)) = trusted (to_lower (trim (c ∷ raw)))

abbrev bool_of : Text → Option Bool
bool_of s =
    if any (text_eq s) (text "1" ∷ text "true" ∷ text "yes" ∷ text "on" ∷ [])
    then some true
    else if any (text_eq s) (text "0" ∷ text "false" ∷ text "no" ∷ text "off" ∷ [])
    then some false
    else none

unfoldable pub parse_bool_env : Option Text → Option Bool
unfolding trim to_lower
parse_bool_env none = none
parse_bool_env (some raw) = bool_of (to_lower (trim raw))

abbrev loopback : Text → Bool
loopback host =
    text_eq host (text "127.0.0.1") || text_eq host (text "localhost") || text_eq host (text "::1")

abbrev is_text : Text → Option Text → Bool
is_text s none = false
is_text s (some t) = text_eq t s

abbrev default_password : Option Text → Bool
default_password none = true
default_password (some p) = text_eq p (text "admin")

-- Whether the process refuses to start, for the settings of the host, the administrator's password, the
-- override, and NODE_ENV.
unfoldable pub refuses_to_start : Text → Option Text → Option Text → Option Text → Bool
refuses_to_start host admin_password allow_default node_env =
    not (is_text (text "1") allow_default)
    && (is_text (text "production") node_env || not (loopback host))
    && default_password admin_password

-- ---- `GET /nodes`
unfoldable pub get_nodes : User → Nodes → List (Text × Option Text × Option Text)
unfolding list_nodes list_assignments_for_user
get_nodes u g =
    if is_admin u
    then list_nodes g
    else filter (λ n. any (λ a. text_eq a.machine_id n.0) (list_assignments_for_user u.id g.store))
        (list_nodes g)

-- ---- WebSocket upgrades of browsers
pub record UpgradeRequest : Type 0 where
  pub pathname : Text
  pub search : Text
  pub cookie : Option Text

pub data Upgrade : Type 0 where
  destroyed : Upgrade
  upgrades : Text → Text → Upgrade

abbrev or_else : Option Text → Option Text → Option Text
or_else none b = b
or_else (some a) b = some a

abbrev nonempty : Text → Bool
nonempty [] = false
nonempty (c ∷ s) = true

abbrev join_slash : List Text → Text
join_slash [] = []
join_slash (p ∷ []) = p
join_slash (p ∷ q ∷ ps) = p ++ (47 ∷ join_slash (q ∷ ps))

module _ (l : Limits) where
  abbrev pub token_of : UpgradeRequest → Option Text
  token_of req =
      or_else (get_cookie req.cookie session_cookie_host) (get_cookie req.cookie session_cookie)

  abbrev bound_machine : ℕ → Option Text → Sessions → Option Text × Sessions
  bound_machine now none m = (none, m)
  bound_machine now (some []) m = (none, m)
  bound_machine now (some (c ∷ token)) m = machine_of l (c ∷ token) now m

  abbrev pub user_id_of : ℕ → Option Text → Sessions → Option Text × Sessions
  user_id_of now none m = (none, m)
  user_id_of now (some []) m = (none, m)
  user_id_of now (some (c ∷ token)) m = lookup l (c ∷ token) now m

  abbrev pub user_named : Store → Option Text → Option User
  user_named s none = none
  user_named s (some id) = get_user id s

  -- from the machine and the path on
  abbrev authorized :
      ℕ → UpgradeRequest → Nodes → Option Text → Text → Sessions → Upgrade × Sessions
  authorized now req g none path m = (destroyed, m)
  authorized now req g (some []) path m = (destroyed, m)
  authorized now req g (some (c ∷ mid)) path m =
      let (user_id, m') = user_id_of now (token_of req) m in
      (
        if (authorize_console g.store (user_named g.store user_id) (c ∷ mid)).allowed
            then upgrades (c ∷ mid) path
            else destroyed,
        m',
      )

  abbrev console_path : ℕ → UpgradeRequest → Nodes → Sessions → List Text → Upgrade × Sessions
  console_path now req g m (first ∷ mid ∷ rest) =
      authorized now req g (some mid) (47 ∷ (join_slash rest ++ req.search)) m
  console_path now req g m _ = (destroyed, m)

  unfoldable pub handle_browser_upgrade : ℕ → UpgradeRequest → Nodes → Sessions → Upgrade × Sessions
  unfolding get_cookie machine_of lookup get_user authorize_console single_node_id split_on
      starts_with
  handle_browser_upgrade now req g m =
      if starts_with req.pathname (text "/console/")
      then console_path now req g m (filter nonempty (split_on 47 req.pathname))
      else let (bound, m') = bound_machine now (token_of req) m in
        authorized now req g (or_else bound (single_node_id g)) (req.pathname ++ req.search) m'
