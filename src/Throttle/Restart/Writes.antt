-- ===== src/Throttle/Restart/Writes.antt =====
-- The writes of apps/gateway/src/login-throttle.ts keep the rows in step with the throttle.
use deepseek_harness_gateway.Common.{ℕ, ◌≤◌, ◌≡◌, refl, true, some, List, [], ◌∷◌, arith}
use deepseek_harness_gateway.Common.Text.{Text, text_eq_iff, Eq-text}
use deepseek_harness_gateway.Common.Lists.{filter}
use deepseek_harness_gateway.Common.Dict.{Dict, get, set, get-set, set-IsMap, delete}
use deepseek_harness_gateway.Store.Domain.{ThrottleAccount, ThrottleIp}
use deepseek_harness_gateway.Store.Memory.{save_throttle_account, save_throttle_ip}
use deepseek_harness_gateway.Throttle.{
  save_account, save_ip, put_ip, trim_account, trim_ip, AccountState, IpState, World, within,
}
use deepseek_harness_gateway.Throttle.Restart.Rows.{AccountKeys, IpKeys, filter_later}
use deepseek_harness_gateway.Throttle.Restart.Verdict.{Synced, account_later, ip_later}

set-AccountKeys :
    (k : Text) (a : ThrottleAccount) (m : Dict Text ThrottleAccount)
    → a.account ≡ k
    → AccountKeys m
    → AccountKeys (set k a m)
unfolding set
set-AccountKeys k a [] e h = (e, tt)
set-AccountKeys k a ((j, b) ∷ m) e h = ground (arith, text_eq_iff j k, set-AccountKeys k a m e h.1)

set-IpKeys :
    (k : Text) (a : ThrottleIp) (m : Dict Text ThrottleIp)
    → a.ip ≡ k
    → IpKeys m
    → IpKeys (set k a m)
unfolding set
set-IpKeys k a [] e h = (e, tt)
set-IpKeys k a ((j, b) ∷ m) e h = ground (arith, text_eq_iff j k, set-IpKeys k a m e h.1)

pub delete-AccountKeys :
    (k : Text) (m : Dict Text ThrottleAccount) → AccountKeys m → AccountKeys (delete k m)
unfolding delete
delete-AccountKeys k [] h = tt
delete-AccountKeys k ((j, b) ∷ m) h = ground (arith, delete-AccountKeys k m h.1)

pub delete-IpKeys : (k : Text) (m : Dict Text ThrottleIp) → IpKeys m → IpKeys (delete k m)
unfolding delete
delete-IpKeys k [] h = tt
delete-IpKeys k ((j, b) ∷ m) h = ground (arith, delete-IpKeys k m h.1)

-- The invariant over the throttle's own configuration.
unfoldable pub Own : ℕ → World → Type 0
Own now w = Synced w.throttle.cfg now w

-- The same state is written to the throttle and to its row.
pub write_account :
    (t : ℕ) (name : Text) (st : AccountState) (now : ℕ) (w : World)
    → now ≤ t
    → Own now w
    → Own t (record w {
      throttle = record (w.throttle) { accounts = set name st w.throttle.accounts };
      store = save_account name st t w.store;
    })
unfolding Own save_throttle_account
write_account t name st now w h s =
    let row : ThrottleAccount = record {
      account = name;
      lock_until = st.lock_until;
      lock_count = st.lock_count;
      fails = st.fails;
      updated_at = t;
    } in
    record {
      on_accounts = λ k. ground (
        arith,
        get-set name k st w.throttle.accounts,
        get-set name k row w.store.throttle_accounts,
        account_later w.throttle.cfg now t (get k w.throttle.accounts)
            (get k w.store.throttle_accounts) h (s.on_accounts k),
      );
      on_ips = λ k.
          ip_later w.throttle.cfg now t (get k w.throttle.ips) (get k w.store.throttle_ips) h
            (s.on_ips k);
      config = refl;
      persistent = s.persistent;
      accounts_map = set-IsMap name st w.throttle.accounts s.accounts_map;
      ips_map = s.ips_map;
      account_rows = (
        set-IsMap name row w.store.throttle_accounts s.account_rows.0,
        set-AccountKeys name row w.store.throttle_accounts refl s.account_rows.1,
      );
      ip_rows = s.ip_rows;
    }

pub write_ip :
    (t : ℕ) (addr : Text) (attempts : List ℕ) (now : ℕ) (w : World)
    → now ≤ t
    → Own now w
    → Own t (record w {
      throttle = record (w.throttle) {
        ips = set addr (record { attempts = attempts }) w.throttle.ips;
      };
      store = save_ip addr attempts t w.store;
    })
unfolding Own save_throttle_ip
write_ip t addr attempts now w h s =
    let row : ThrottleIp = record { ip = addr; attempts = attempts; updated_at = t } in
    record {
      on_ips = λ k. ground (
        arith,
        get-set addr k (record { attempts = attempts }) w.throttle.ips,
        get-set addr k row w.store.throttle_ips,
        ip_later w.throttle.cfg now t (get k w.throttle.ips) (get k w.store.throttle_ips) h
            (s.on_ips k),
      );
      on_accounts = λ k.
          account_later w.throttle.cfg now t (get k w.throttle.accounts)
            (get k w.store.throttle_accounts) h (s.on_accounts k);
      config = refl;
      persistent = s.persistent;
      accounts_map = s.accounts_map;
      ips_map = set-IsMap addr (record { attempts = attempts }) w.throttle.ips s.ips_map;
      account_rows = s.account_rows;
      ip_rows = (
        set-IsMap addr row w.store.throttle_ips s.ip_rows.0,
        set-IpKeys addr row w.store.throttle_ips refl s.ip_rows.1,
      );
    }

-- Trimming in place writes nothing to the rows.
pub trim_one_account :
    (t : ℕ) (name : Text) (acc : AccountState) (now : ℕ) (w : World)
    → now ≤ t
    → get name w.throttle.accounts ≡ some acc
    → Own now w
    → Own t (record w {
      throttle = record (w.throttle) {
        accounts =
            set name (trim_account w.throttle.cfg.account_window_ms t acc) w.throttle.accounts;
      };
    })
unfolding Own
trim_one_account t name acc now w h e s = record {
  on_accounts = λ k. ground (
    arith,
    text_eq_iff name k,
    get-set name k (trim_account w.throttle.cfg.account_window_ms t acc) w.throttle.accounts,
    filter_later w.throttle.cfg.account_window_ms t t acc.fails,
    account_later w.throttle.cfg now t (get k w.throttle.accounts) (get k w.store.throttle_accounts)
        h (s.on_accounts k),
  );
  on_ips = λ k.
      ip_later w.throttle.cfg now t (get k w.throttle.ips) (get k w.store.throttle_ips) h
        (s.on_ips k);
  config = refl;
  persistent = s.persistent;
  accounts_map = set-IsMap name _ w.throttle.accounts s.accounts_map;
  ips_map = s.ips_map;
  account_rows = s.account_rows;
  ip_rows = s.ip_rows;
}

pub trim_one_ip :
    (t : ℕ) (addr : Text) (st : IpState) (now : ℕ) (w : World)
    → now ≤ t
    → get addr w.throttle.ips ≡ some st
    → Own now w
    → Own t (put_ip addr (filter (within w.throttle.cfg.ip_window_ms t) st.attempts) w)
unfolding Own
trim_one_ip t addr st now w h e s = record {
  on_ips = λ k. ground (
    arith,
    text_eq_iff addr k,
    get-set addr k (trim_ip w.throttle.cfg.ip_window_ms t st) w.throttle.ips,
    filter_later w.throttle.cfg.ip_window_ms t t st.attempts,
    ip_later w.throttle.cfg now t (get k w.throttle.ips) (get k w.store.throttle_ips) h
        (s.on_ips k),
  );
  on_accounts = λ k.
      account_later w.throttle.cfg now t (get k w.throttle.accounts)
        (get k w.store.throttle_accounts) h (s.on_accounts k);
  config = refl;
  persistent = s.persistent;
  accounts_map = s.accounts_map;
  ips_map = set-IsMap addr _ w.throttle.ips s.ips_map;
  account_rows = s.account_rows;
  ip_rows = s.ip_rows;
}

pub Own-persistent : (now : ℕ) (w : World) → Own now w → w.throttle.persist ≡ true
unfolding Own
Own-persistent now w s = s.persistent

pub Own-later : (t now : ℕ) (w : World) → now ≤ t → Own now w → Own t w
unfolding Own
Own-later t now w h s = record {
  on_ips = λ k.
      ip_later w.throttle.cfg now t (get k w.throttle.ips) (get k w.store.throttle_ips) h
        (s.on_ips k);
  on_accounts = λ k.
      account_later w.throttle.cfg now t (get k w.throttle.accounts)
        (get k w.store.throttle_accounts) h (s.on_accounts k);
  config = refl;
  persistent = s.persistent;
  accounts_map = s.accounts_map;
  ips_map = s.ips_map;
  account_rows = s.account_rows;
  ip_rows = s.ip_rows;
}
