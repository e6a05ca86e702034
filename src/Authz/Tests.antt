-- ===== src/Authz/Tests.antt =====
-- Concrete runs of apps/gateway/src/authz.ts.
use deepseek_harness_gateway.Common.{◌≡◌, refl, ◌∙◌, ◌↔◌, none, some, true, false, [], ◌∷◌}
use deepseek_harness_gateway.Common.Text.{Text, text, text_eq, Eq-text}
use deepseek_harness_gateway.Common.Dict.{Dict, get}
use deepseek_harness_gateway.Common.Split.{includes, trim, trim_start}
use deepseek_harness_gateway.Store.Domain.{Store, User, user, approved, empty_store}
use deepseek_harness_gateway.Authz.{authorize_console, get_cookie}
use deepseek_harness_gateway.Authz.Cookie.{CookieOk, header_text, get_cookie-header}
use deepseek_harness_gateway.Authz.Access.{MayUse, authorize_console-allowed_iff}

abbrev ann : User
ann = record { id = text "ann"; role = user; auth_hash = text "h" }

abbrev one_machine : Store
one_machine = record empty_store {
  machines =
      (
        text "m",
        record {
          id = text "m";
          name = text "node";
          node_key_hash = text "k";
          status = approved;
          dsh_version = none;
          config_rev = 0;
          last_heartbeat_at = none;
          created_at = text "t";
          daemon_state = none;
          daemon_enabled = none;
        },
      )
      ∷ [];
  assignments =
      (text "m:ann", record { machine_id = text "m"; user_id = text "ann"; created_at = text "t" })
      ∷ [];
}

authorize_console-allowed_iff_example :
    ((authorize_console one_machine none (text "m")).allowed ≡ false)
    × (((authorize_console one_machine (some ann) (text "m")).allowed ≡ true)
        ↔ MayUse one_machine ann (text "m") (get (text "m") one_machine.machines))
authorize_console-allowed_iff_example = authorize_console-allowed_iff one_machine ann (text "m")

abbrev two_cookies : Dict Text Text
two_cookies = (text "lang", text "en") ∷ (text "gw_session", text "abc") ∷ []

lang_ok : CookieOk (text "lang", text "en")
unfolding includes trim trim_start
lang_ok = record {
  name_part = refl;
  name_cut = refl;
  value_part = refl;
  name_trimmed = refl;
  value_trimmed = refl;
}

session_ok : CookieOk (text "gw_session", text "abc")
unfolding includes trim trim_start
session_ok = record {
  name_part = refl;
  name_cut = refl;
  value_part = refl;
  name_trimmed = refl;
  value_trimmed = refl;
}

-- `lang=en; gw_session=abc`
found_session : get (text "gw_session") two_cookies ≡ some (text "abc")
unfolding get text_eq
found_session = refl

reads_session : get_cookie (header_text two_cookies) (text "gw_session") ≡ some (text "abc")
reads_session =
    get_cookie-header (text "gw_session") two_cookies (lang_ok, (session_ok, tt)) ∙ found_session
