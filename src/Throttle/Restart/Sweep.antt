-- ===== src/Throttle/Restart/Sweep.antt =====
-- `prune` (apps/gateway/src/login-throttle.ts) keeps the rows in step.
use mathlib.Core.Path.{ap₂}
use deepseek_harness_gateway.Common.{
  ℕ, ◌≤◌, ◌≡◌, refl, sym, subst, ap, ◌∙◌, Bool, not, ◌||◌, Option, none, List, [], ◌∷◌, arith,
  Option-cases, inl, inr, if◌then◌else◌,
}
use deepseek_harness_gateway.Common.Text.{Text, text_eq, Eq-text}
use deepseek_harness_gateway.Common.Lists.{any}
use deepseek_harness_gateway.Common.Dict.{
  Dict, keys, retain, map_values, get-retain, get-map_values, retain-IsMap, map_values-IsMap, get,
  get-delete, has, has-get, IsMap, delete-IsMap,
}
use deepseek_harness_gateway.Store.Domain.{Store, ThrottleAccount, ThrottleIp}
use deepseek_harness_gateway.Store.Memory.{delete_throttle_account, delete_throttle_ip}
use deepseek_harness_gateway.Throttle.{
  prune, trim_account, trim_ip, ip_live, account_live, delete_accounts, delete_ips, Config,
  AccountState, IpState, World,
}
use deepseek_harness_gateway.Throttle.Restart.Rows.{
  load_account?, load_ip?, AccountKeys, IpKeys, trim_account?, trim_ip?, filter_later,
}
use deepseek_harness_gateway.Throttle.Restart.Verdict.{Synced, account_later, ip_later}
use deepseek_harness_gateway.Throttle.Restart.Writes.{delete-AccountKeys, delete-IpKeys, Own}
use deepseek_harness_gateway.Throttle.Restart.Calls.{if_persist}

any-keys : {V : Type 0} (k : Text) (m : Dict Text V) → any (λ j. text_eq j k) (keys m) ≡ has k m
unfolding any keys has
any-keys k [] = refl
any-keys k ((j, v) ∷ m) = ap (λ b. text_eq j k || b) (any-keys k m)

delete_accounts-rows :
    (ks : List Text) (k : Text) (s : Store)
    → get k (delete_accounts ks s).throttle_accounts
      ≡ (if any (λ j. text_eq j k) ks then none else get k s.throttle_accounts)
unfolding any delete_throttle_account
delete_accounts-rows [] k s = refl
delete_accounts-rows (j ∷ ks) k s = ground (
  arith,
  delete_accounts-rows ks k (delete_throttle_account j s),
  get-delete j k s.throttle_accounts,
)

delete_accounts-ips :
    (ks : List Text) (s : Store) → (delete_accounts ks s).throttle_ips ≡ s.throttle_ips
unfolding delete_throttle_account
delete_accounts-ips [] s = refl
delete_accounts-ips (j ∷ ks) s = delete_accounts-ips ks (delete_throttle_account j s)

delete_accounts-keys :
    (ks : List Text) (s : Store)
    → IsMap s.throttle_accounts × AccountKeys s.throttle_accounts
    → IsMap (delete_accounts ks s).throttle_accounts
      × AccountKeys (delete_accounts ks s).throttle_accounts
unfolding delete_throttle_account
delete_accounts-keys [] s h = h
delete_accounts-keys (j ∷ ks) s h =
    delete_accounts-keys ks (delete_throttle_account j s)
      (delete-IsMap j s.throttle_accounts h.0, delete-AccountKeys j s.throttle_accounts h.1)

delete_ips-rows :
    (ks : List Text) (k : Text) (s : Store)
    → get k (delete_ips ks s).throttle_ips
      ≡ (if any (λ j. text_eq j k) ks then none else get k s.throttle_ips)
unfolding any delete_throttle_ip
delete_ips-rows [] k s = refl
delete_ips-rows (j ∷ ks) k s =
    ground (arith, delete_ips-rows ks k (delete_throttle_ip j s), get-delete j k s.throttle_ips)

delete_ips-accounts :
    (ks : List Text) (s : Store) → (delete_ips ks s).throttle_accounts ≡ s.throttle_accounts
unfolding delete_throttle_ip
delete_ips-accounts [] s = refl
delete_ips-accounts (j ∷ ks) s = delete_ips-accounts ks (delete_throttle_ip j s)

delete_ips-keys :
    (ks : List Text) (s : Store)
    → IsMap s.throttle_ips × IpKeys s.throttle_ips
    → IsMap (delete_ips ks s).throttle_ips × IpKeys (delete_ips ks s).throttle_ips
unfolding delete_throttle_ip
delete_ips-keys [] s h = h
delete_ips-keys (j ∷ ks) s h =
    delete_ips-keys ks (delete_throttle_ip j s)
      (delete-IsMap j s.throttle_ips h.0, delete-IpKeys j s.throttle_ips h.1)

swept_accounts :
    (cfg : Config) (t : ℕ) (k : Text) (m : Dict Text AccountState)
    (rows rows' : Option ThrottleAccount)
    → IsMap m
    → rows' ≡ (
        if has k (retain (λ j acc. not (account_live cfg.account_window_ms t acc)) m)
        then none
        else rows)
    → trim_account? cfg t (get k m) ≡ load_account? cfg t rows
    → trim_account? cfg t (
        get k (
          map_values
            (trim_account cfg.account_window_ms t)
            (retain (λ j acc. account_live cfg.account_window_ms t acc) m)))
      ≡ load_account? cfg t rows'
swept_accounts cfg t k m rows rows' u e h =
    let p : Text → AccountState → Bool = λ j acc. account_live cfg.account_window_ms t acc in
    rw
      (
        e,
        has-get k (retain (λ j acc. not (account_live cfg.account_window_ms t acc)) m),
        get-retain (λ j acc. not (account_live cfg.account_window_ms t acc)) k m u,
        get-map_values k (trim_account cfg.account_window_ms t) (retain p m),
        get-retain p k m u,
      )
      (elim (Option-cases (get k m)) [
        | inl z ↦ rw z (rw z at h)
        | inr (acc, z) ↦
            rw z (ground (arith, rw z at h, filter_later cfg.account_window_ms t t acc.fails))
      ])

swept_ips :
    (cfg : Config) (t : ℕ) (k : Text) (m : Dict Text IpState) (rows rows' : Option ThrottleIp)
    → IsMap m
    → rows'
      ≡ (if has k (retain (λ j st. not (ip_live cfg.ip_window_ms t st)) m) then none else rows)
    → trim_ip? cfg t (get k m) ≡ load_ip? cfg t rows
    → trim_ip? cfg t (
        get k (
          map_values
            (trim_ip cfg.ip_window_ms t)
            (retain (λ j st. ip_live cfg.ip_window_ms t st) m)))
      ≡ load_ip? cfg t rows'
swept_ips cfg t k m rows rows' u e h =
    let p : Text → IpState → Bool = λ j st. ip_live cfg.ip_window_ms t st in
    rw
      (
        e,
        has-get k (retain (λ j st. not (ip_live cfg.ip_window_ms t st)) m),
        get-retain (λ j st. not (ip_live cfg.ip_window_ms t st)) k m u,
        get-map_values k (trim_ip cfg.ip_window_ms t) (retain p m),
        get-retain p k m u,
      )
      (elim (Option-cases (get k m)) [
        | inl z ↦ rw z (rw z at h)
        | inr (st, z) ↦
            rw z (ground (arith, rw z at h, filter_later cfg.ip_window_ms t t st.attempts))
      ])

pub prune-Own : (t now : ℕ) (w : World) → now ≤ t → Own now w → Own t (prune t w)
unfolding prune Own
prune-Own t now w h s =
    let cfg = w.throttle.cfg in
    let gone_ips = keys (retain (λ k st. not (ip_live cfg.ip_window_ms t st)) w.throttle.ips) in
    let gone =
      keys (retain (λ k acc. not (account_live cfg.account_window_ms t acc)) w.throttle.accounts) in
    let trimmed = delete_ips gone_ips w.store in
    if_persist (λ v. Synced v.throttle.cfg t v) w.throttle.persist _ _ s.persistent
      (record {
        on_accounts = λ k.
            swept_accounts cfg t k w.throttle.accounts (get k w.store.throttle_accounts)
              (get k (delete_accounts gone trimmed).throttle_accounts) s.accounts_map
              (delete_accounts-rows gone k trimmed
                ∙ ap₂ (λ (b : Bool) (m : Dict Text ThrottleAccount). if b then none else get k m)
                    (any-keys k (
                      retain (λ j acc. not (account_live cfg.account_window_ms t acc))
                        w.throttle.accounts))
                    (delete_ips-accounts gone_ips w.store))
              (account_later cfg now t (get k w.throttle.accounts) (get k w.store.throttle_accounts)
                h (s.on_accounts k));
        on_ips = λ k.
            swept_ips cfg t k w.throttle.ips (get k w.store.throttle_ips)
              (get k (delete_accounts gone trimmed).throttle_ips) s.ips_map
              (ap (λ (m : Dict Text ThrottleIp). get k m) (delete_accounts-ips gone trimmed)
                ∙ delete_ips-rows gone_ips k w.store
                ∙ ap (λ (b : Bool). if b then none else get k w.store.throttle_ips)
                    (any-keys k
                      (retain (λ j st. not (ip_live cfg.ip_window_ms t st)) w.throttle.ips)))
              (ip_later cfg now t (get k w.throttle.ips) (get k w.store.throttle_ips) h
                (s.on_ips k));
        config = refl;
        persistent = s.persistent;
        accounts_map = map_values-IsMap _ _ (retain-IsMap _ w.throttle.accounts s.accounts_map);
        ips_map = map_values-IsMap _ _ (retain-IsMap _ w.throttle.ips s.ips_map);
        account_rows = delete_accounts-keys gone trimmed (
            subst (λ (m : Dict Text ThrottleAccount). IsMap m × AccountKeys m)
              (sym (delete_ips-accounts gone_ips w.store)) s.account_rows);
        ip_rows =
            subst (λ (m : Dict Text ThrottleIp). IsMap m × IpKeys m)
              (sym (delete_accounts-ips gone trimmed)) (delete_ips-keys gone_ips w.store s.ip_rows);
      })
