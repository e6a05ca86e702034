-- ===== src/Startup/Browsers.antt =====
-- Who gets a WebSocket to a machine's console (`handleBrowserUpgrade` of apps/gateway/src/main.ts).
use deepseek_harness_gateway.Common.{
  ℕ, ◌≡◌, refl, subst, Bool, true, false, Option, none, some, List, [], ◌∷◌, ◌++◌, if◌then◌else◌,
  arith, Bool-cases, inl, inr, beq_self,
}
use deepseek_harness_gateway.Common.Text.{Text, text, starts_with, Eq-text}
use deepseek_harness_gateway.Common.Lists.{filter}
use deepseek_harness_gateway.Common.Dict.{get, get-delete}
use deepseek_harness_gateway.Common.Split.{split_on}
use deepseek_harness_gateway.Store.Domain.{User, Store}
use deepseek_harness_gateway.Session.{Limits, SessionRecord, Sessions, expired, lookup, machine_of}
use deepseek_harness_gateway.Authz.{authorize_console}
use deepseek_harness_gateway.Nodes.State.{Nodes, single_node_id}
use deepseek_harness_gateway.Startup.{
  UpgradeRequest, Upgrade, destroyed, upgrades, token_of, user_id_of, user_named, bound_machine,
  authorized, console_path, handle_browser_upgrade, or_else, nonempty, join_slash,
}

-- A socket is upgraded only to a machine that the user may use.
abbrev pub Permitted : Store → Option User → Upgrade → Type 0
Permitted s u destroyed = Unit
Permitted s u (upgrades mid path) = (authorize_console s u mid).allowed ≡ true

module _ (l : Limits) where
  -- Asking for the machine of a session does not change whose it is.
  asked_first :
      (token : Text) (now : ℕ) (m : Sessions)
      → (lookup l token now (machine_of l token now m).1).0 ≡ (lookup l token now m).0
  unfolding lookup machine_of
  asked_first token now m = by_record (get token m) refl
    where
      by_record :
          (r : Option SessionRecord)
          → get token m ≡ r
          → (lookup l token now (machine_of l token now m).1).0 ≡ (lookup l token now m).0
      by_record none e = ground (arith, e)
      by_record (some s) e = elim (Bool-cases (expired l s now)) [
        | inl late ↦ ground (arith, e, late, get-delete token token m, beq_self token)
        | inr live ↦ ground (arith, e, live)
      ]

  same_user :
      (t : Option Text) (now : ℕ) (m : Sessions)
      → (user_id_of l now t (bound_machine l now t m).1).0 ≡ (user_id_of l now t m).0
  same_user none now m = refl
  same_user (some []) now m = refl
  same_user (some (c ∷ token)) now m = asked_first (c ∷ token) now m

  authorized-Permitted :
      (now : ℕ) (req : UpgradeRequest) (g : Nodes) (r : Option Text) (path : Text) (m : Sessions)
      → Permitted g.store
          (user_named l g.store (user_id_of l now (token_of l req) m).0)
          (authorized l now req g r path m).0
  authorized-Permitted now req g none path m = tt
  authorized-Permitted now req g (some []) path m = tt
  authorized-Permitted now req g (some (c ∷ mid)) path m =
      decide
        ((authorize_console g.store (user_named l g.store (user_id_of l now (token_of l req) m).0)
          (c ∷ mid)).allowed)
        refl
    where
      decide :
          (b : Bool)
          → (authorize_console g.store
              (user_named l g.store (user_id_of l now (token_of l req) m).0)
              (c ∷ mid)).allowed
            ≡ b
          → Permitted g.store (user_named l g.store (user_id_of l now (token_of l req) m).0) (
              if (authorize_console g.store
                (user_named l g.store (user_id_of l now (token_of l req) m).0)
                (c ∷ mid)).allowed
              then upgrades (c ∷ mid) path
              else destroyed)
      decide true h = rw h h
      decide false h = rw h tt

  console-Permitted :
      (now : ℕ) (req : UpgradeRequest) (g : Nodes) (m : Sessions) (segs : List Text)
      → Permitted g.store
          (user_named l g.store (user_id_of l now (token_of l req) m).0)
          (console_path l now req g m segs).0
  console-Permitted now req g m [] = tt
  console-Permitted now req g m (first ∷ []) = tt
  console-Permitted now req g m (first ∷ mid ∷ rest) =
      authorized-Permitted now req g (some mid) (47 ∷ (join_slash rest ++ req.search)) m

  -- A browser's request becomes a WebSocket to a machine's console only if the user whose session its
  -- cookie names may use that machine; it is destroyed otherwise, whichever way the machine was chosen.
  pub handle_browser_upgrade-Permitted :
      (now : ℕ) (req : UpgradeRequest) (g : Nodes) (m : Sessions)
      → Permitted g.store
          (user_named l g.store (user_id_of l now (token_of l req) m).0)
          (handle_browser_upgrade l now req g m).0
  unfolding handle_browser_upgrade
  handle_browser_upgrade-Permitted now req g m =
      elim (Bool-cases (starts_with req.pathname (text "/console/"))) [
        | inl own ↦
            rw own (console-Permitted now req g m (filter nonempty (split_on 47 req.pathname)))
        | inr other ↦
            let b = bound_machine l now (token_of l req) m in
            rw other (
              subst
                (λ u.
                  Permitted g.store (user_named l g.store u)
                    (authorized l now req g (or_else b.0 (single_node_id g))
                      (req.pathname ++ req.search) b.1).0)
                (same_user (token_of l req) now m)
                (authorized-Permitted now req g (or_else b.0 (single_node_id g))
                  (req.pathname ++ req.search) b.1))
      ]
