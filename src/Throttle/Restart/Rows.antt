-- ===== src/Throttle/Restart/Rows.antt =====
-- What the rows of apps/gateway/src/login-throttle.ts hold, read back, and what age does to them.
use deepseek_harness_gateway.Common.{
  ℕ, ◌≤◌, ◌≡◌, refl, false, Option, none, some, List, [], ◌∷◌, arith,
}
use deepseek_harness_gateway.Common.Text.{Text, text_eq_iff, Eq-text}
use deepseek_harness_gateway.Common.Lists.{filter, filter-filter}
use deepseek_harness_gateway.Common.Dict.{Dict, get, set, values, get-set, has, has-get, IsMap}
use deepseek_harness_gateway.Store.Domain.{ThrottleAccount, ThrottleIp}
use deepseek_harness_gateway.Throttle.{
  trim_account, trim_ip, Config, AccountState, IpState, within, hydrate_accounts, hydrate_ips,
}

-- What a hydrated throttle holds for an account row.
abbrev load_account : Config → ℕ → ThrottleAccount → AccountState
load_account cfg now a = record {
  fails = filter (within cfg.account_window_ms now) a.fails;
  lock_until = a.lock_until;
  lock_count = a.lock_count;
}

abbrev pub load_account? : Config → ℕ → Option ThrottleAccount → Option AccountState
load_account? cfg now none = none
load_account? cfg now (some a) = some (load_account cfg now a)

abbrev pub load_ip? : Config → ℕ → Option ThrottleIp → Option IpState
load_ip? cfg now none = none
load_ip? cfg now (some r) =
    some (record { attempts = filter (within cfg.ip_window_ms now) r.attempts })

-- Every row stands under its own key.
abbrev pub AccountKeys : Dict Text ThrottleAccount → Type 0
AccountKeys [] = Unit
AccountKeys ((k, a) ∷ m) = (a.account ≡ k) × AccountKeys m

abbrev pub IpKeys : Dict Text ThrottleIp → Type 0
IpKeys [] = Unit
IpKeys ((k, r) ∷ m) = (r.ip ≡ k) × IpKeys m

abbrev pub or_else {ℓ} : {A : Type ℓ} → Option A → Option A → Option A
or_else none o = o
or_else (some a) o = some a

absent : {V : Type 0} (k : Text) (m : Dict Text V) → has k m ≡ false → get k m ≡ none
absent k m h = ground (arith, has-get k m)

pub hydrate_accounts-get :
    (cfg : Config) (now : ℕ) (k : Text) (table : Dict Text ThrottleAccount)
    (m : Dict Text AccountState)
    → IsMap table
    → AccountKeys table
    → get k (hydrate_accounts cfg now (values table) m)
      ≡ or_else (load_account? cfg now (get k table)) (get k m)
unfolding hydrate_accounts values get
hydrate_accounts-get cfg now k [] m u r = refl
hydrate_accounts-get cfg now k ((j, a) ∷ table) m u r = ground (
  arith,
  hydrate_accounts-get cfg now k table (set a.account (load_account cfg now a) m) u.1 r.1,
  get-set a.account k (load_account cfg now a) m,
  text_eq_iff a.account k,
  text_eq_iff j k,
  absent j table u.0,
)

pub hydrate_ips-get :
    (cfg : Config) (now : ℕ) (k : Text) (table : Dict Text ThrottleIp) (m : Dict Text IpState)
    → IsMap table
    → IpKeys table
    → get k (hydrate_ips cfg now (values table) m)
      ≡ or_else (load_ip? cfg now (get k table)) (get k m)
unfolding hydrate_ips values get
hydrate_ips-get cfg now k [] m u r = refl
hydrate_ips-get cfg now k ((j, a) ∷ table) m u r = ground (
  arith,
  hydrate_ips-get cfg now k table
      (set a.ip (record { attempts = filter (within cfg.ip_window_ms now) a.attempts }) m) u.1 r.1,
  get-set a.ip k (record { attempts = filter (within cfg.ip_window_ms now) a.attempts }) m,
  text_eq_iff a.ip k,
  text_eq_iff j k,
  absent j table u.0,
)

abbrev pub trim_account? : Config → ℕ → Option AccountState → Option AccountState
trim_account? cfg now none = none
trim_account? cfg now (some acc) = some (trim_account cfg.account_window_ms now acc)

abbrev pub trim_ip? : Config → ℕ → Option IpState → Option IpState
trim_ip? cfg now none = none
trim_ip? cfg now (some st) = some (trim_ip cfg.ip_window_ms now st)

pub filter_later :
    (window now later : ℕ) (xs : List ℕ)
    → now ≤ later
    → filter (within window later) (filter (within window now) xs) ≡ filter (within window later) xs
filter_later window now later xs h =
    filter-filter (within window later) (within window now) (λ t k. ground arith) xs

pub trim_account_later :
    (cfg : Config) (now later : ℕ) (o : Option AccountState)
    → now ≤ later
    → trim_account? cfg later (trim_account? cfg now o) ≡ trim_account? cfg later o
trim_account_later cfg now later none h = refl
trim_account_later cfg now later (some acc) h =
    ground (arith, filter_later cfg.account_window_ms now later acc.fails)

pub load_account_later :
    (cfg : Config) (now later : ℕ) (o : Option ThrottleAccount)
    → now ≤ later
    → trim_account? cfg later (load_account? cfg now o) ≡ load_account? cfg later o
load_account_later cfg now later none h = refl
load_account_later cfg now later (some a) h =
    ground (arith, filter_later cfg.account_window_ms now later a.fails)

pub trim_ip_later :
    (cfg : Config) (now later : ℕ) (o : Option IpState)
    → now ≤ later
    → trim_ip? cfg later (trim_ip? cfg now o) ≡ trim_ip? cfg later o
trim_ip_later cfg now later none h = refl
trim_ip_later cfg now later (some st) h =
    ground (arith, filter_later cfg.ip_window_ms now later st.attempts)

pub load_ip_later :
    (cfg : Config) (now later : ℕ) (o : Option ThrottleIp)
    → now ≤ later
    → trim_ip? cfg later (load_ip? cfg now o) ≡ load_ip? cfg later o
load_ip_later cfg now later none h = refl
load_ip_later cfg now later (some r) h =
    ground (arith, filter_later cfg.ip_window_ms now later r.attempts)
