-- ===== src/Session/Tests.antt =====
-- Concrete runs of the sessions of apps/gateway/src/auth.ts.
use deepseek_harness_gateway.Common.{◌≡◌, ◌≤◌, refl, List, [], ◌∷◌, none}
use deepseek_harness_gateway.Common.Text.{Text, text, text_eq, Eq-text}
use deepseek_harness_gateway.Common.Lists.{length}
use deepseek_harness_gateway.Common.Dict.{IsMap, get}
use deepseek_harness_gateway.Session.{
  Limits, Op, creates, looks_up, SessionRecord, create, run, lookup,
}
use deepseek_harness_gateway.Session.Bound.{sessions_bounded}
use deepseek_harness_gateway.Session.Expiry.{session_lifetime, Stands}

abbrev two_at_most : Limits
two_at_most = record { idle_ttl_ms = 10; absolute_ttl_ms = 25; session_max = 2 }

abbrev three_logins : List Op
three_logins =
    creates (text "a") 1 (text "ann")
    ∷ creates (text "b") 2 (text "bob")
    ∷ creates (text "c") 3 (text "cid")
    ∷ []

sessions_bounded_example :
    (length (run two_at_most three_logins []) ≤ 2) × IsMap (run two_at_most three_logins [])
sessions_bounded_example = sessions_bounded two_at_most three_logins

session_lifetime_example :
    Stands 26
      (text "ann")
      30
      (lookup two_at_most (text "a") 30 (
        run two_at_most
          (looks_up (text "a") 9 ∷ looks_up (text "a") 18 ∷ [])
          (create two_at_most (text "a") 1 (text "ann") []))).0
session_lifetime_example =
    session_lifetime two_at_most 1 30 (text "a") (text "ann")
      (looks_up (text "a") 9 ∷ looks_up (text "a") 18 ∷ []) [] tt (tt, (tt, tt))

abbrev full : List (Text × SessionRecord)
full =
    (text "a", record { user_id = text "ann"; issued_at = 1; expires_at = 30; machine_id = none })
    ∷ (text "b", record { user_id = text "bob"; issued_at = 2; expires_at = 30; machine_id = none })
    ∷ []

fresh_c : get (text "c") full ≡ none
unfolding get text_eq
fresh_c = refl
