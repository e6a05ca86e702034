-- ===== src/Sqlite/Writes.antt =====
-- Each writing call of packages/store/src/sqlite.ts against the same call of memory.ts.
use deepseek_harness_gateway.Common.{
  ◌≡◌, refl, ap, subst, ◌∙◌, none, some, arith, Option-cases, inl, inr,
}
use deepseek_harness_gateway.Common.Text.{Text, text_eq_iff, Eq-text}
use deepseek_harness_gateway.Common.Dict.{get, set, get-set}
use deepseek_harness_gateway.Store.Domain.{
  User, Machine, PairingCode, ThrottleAccount, ThrottleIp, Store,
}
use deepseek_harness_gateway.Store.Memory
use deepseek_harness_gateway.Sqlite
use deepseek_harness_gateway.Sqlite.Rows.{Engine, Db, machine_row, account_row, ip_row, Eq-pair}
use deepseek_harness_gateway.Sqlite.Lists.{Indexed, set-Indexed, delete-Indexed}
use deepseek_harness_gateway.Sqlite.Tables.{key-get, upsert-Holds, delete-Holds}
use deepseek_harness_gateway.Sqlite.Refines.{
  Represents, with_users, with_machines, with_codes, with_accounts, with_ips,
}

-- Users, machines, pairing codes and throttle rows.
module _ (g : Engine) {db : Db g} {s : Store} (r : Represents g db s) where
  pub upsert_user-Represents :
      (u : User) → Represents g (Sqlite.upsert_user g u db) (Memory.upsert_user u s)
  unfolding Sqlite.upsert_user Memory.upsert_user
  upsert_user-Represents u =
      with_users g r _ _
        (upsert-Holds g.users (λ (x : User). x.id) (λ v. v) (λ v. refl) db.users s.users r.users
          r.users_listed u _ (λ old. refl) (λ old e. ap (λ k. record u { id = k }) e))
        (set-Indexed (λ x. x.id) u s.users r.users_listed)

  pub upsert_machine-Represents :
      (m : Machine) → Represents g (Sqlite.upsert_machine g m db) (Memory.upsert_machine m s)
  unfolding Sqlite.upsert_machine Memory.upsert_machine machine_row
  upsert_machine-Represents m =
      with_machines g r _ _
        (upsert-Holds g.machines (λ (x : Machine). x.id) machine_row (λ v. refl) db.machines
          s.machines r.machines r.machines_listed m _ (λ old. refl)
          (λ old e. ap (λ k. record (machine_row m) { id = k }) e))
        (set-Indexed (λ x. x.id) m s.machines r.machines_listed)

  pub upsert_pairing_code-Represents :
      (c : PairingCode)
      → Represents g (Sqlite.upsert_pairing_code g c db) (Memory.upsert_pairing_code c s)
  unfolding Sqlite.upsert_pairing_code Memory.upsert_pairing_code
  upsert_pairing_code-Represents c =
      with_codes g r _ _
        (upsert-Holds g.pairing_codes (λ (x : PairingCode). x.code_hash) (λ v. v) (λ v. refl)
          db.pairing_codes s.pairing_codes r.pairing_codes r.codes_listed c _ (λ old. refl)
          (λ old e. ap (λ k. record c { code_hash = k }) e))
        (set-Indexed (λ x. x.code_hash) c s.pairing_codes r.codes_listed)

  pub save_throttle_account-Represents :
      (a : ThrottleAccount)
      → Represents g (Sqlite.save_throttle_account g a db) (Memory.save_throttle_account a s)
  unfolding Sqlite.save_throttle_account Memory.save_throttle_account account_row
  save_throttle_account-Represents a =
      with_accounts g r _ _
        (upsert-Holds g.throttle_accounts (λ (x : ThrottleAccount). x.account) account_row
          (λ v. refl) db.throttle_accounts s.throttle_accounts r.accounts r.accounts_listed a _
          (λ old. refl) (λ old e. ap (λ k. record (account_row a) { account = k }) e))
        (set-Indexed (λ x. x.account) a s.throttle_accounts r.accounts_listed)

  pub save_throttle_ip-Represents :
      (row : ThrottleIp)
      → Represents g (Sqlite.save_throttle_ip g row db) (Memory.save_throttle_ip row s)
  unfolding Sqlite.save_throttle_ip Memory.save_throttle_ip ip_row
  save_throttle_ip-Represents row =
      with_ips g r _ _
        (upsert-Holds g.throttle_ips (λ (x : ThrottleIp). x.ip) ip_row (λ v. refl) db.throttle_ips
          s.throttle_ips r.ips r.ips_listed row _ (λ old. refl)
          (λ old e. ap (λ k. record (ip_row row) { ip = k }) e))
        (set-Indexed (λ x. x.ip) row s.throttle_ips r.ips_listed)

  pub delete_throttle_account-Represents :
      (k : Text)
      → Represents g (Sqlite.delete_throttle_account g k db) (Memory.delete_throttle_account k s)
  unfolding Sqlite.delete_throttle_account Memory.delete_throttle_account account_row
  delete_throttle_account-Represents k =
      with_accounts g r _ _
        (delete-Holds g.throttle_accounts (λ (x : ThrottleAccount). x.account) account_row
          (λ v. refl) db.throttle_accounts s.throttle_accounts r.accounts r.accounts_listed k)
        (delete-Indexed (λ x. x.account) k s.throttle_accounts r.accounts_listed)

  pub delete_throttle_ip-Represents :
      (k : Text) → Represents g (Sqlite.delete_throttle_ip g k db) (Memory.delete_throttle_ip k s)
  unfolding Sqlite.delete_throttle_ip Memory.delete_throttle_ip ip_row
  delete_throttle_ip-Represents k =
      with_ips g r _ _
        (delete-Holds g.throttle_ips (λ (x : ThrottleIp). x.ip) ip_row (λ v. refl) db.throttle_ips
          s.throttle_ips r.ips r.ips_listed k)
        (delete-Indexed (λ x. x.ip) k s.throttle_ips r.ips_listed)

  consume_found :
      (h m : Text) (c : PairingCode)
      → get h s.pairing_codes ≡ some c
      → Represents g (Sqlite.consume_pairing_code g h m db) (record s {
        pairing_codes =
            set h (record c { consumed_by = some m; machine_id = some m }) s.pairing_codes;
      })
  unfolding Sqlite.consume_pairing_code
  consume_found h m c z =
      let c' : PairingCode = record c { consumed_by = some m; machine_id = some m } in
      let own : c.code_hash ≡ h =
        key-get (λ (x : PairingCode). x.code_hash) h c s.pairing_codes r.codes_listed z in
      with_codes g r _ _
        (λ k.
          g.pairing_codes.find-update h
            (λ row. record row { machine_id = some m; consumed_by = some m }) (λ row. refl) k
            db.pairing_codes
          ∙ rw (r.pairing_codes k, get-set h k c' s.pairing_codes)
              (ground (arith, z, text_eq_iff h k)))
        (subst (λ i. Indexed (λ (x : PairingCode). x.code_hash) (set i c' s.pairing_codes)) own
          (set-Indexed (λ (x : PairingCode). x.code_hash) c' s.pairing_codes r.codes_listed))

  consume_missing :
      (h m : Text)
      → get h s.pairing_codes ≡ none
      → Represents g (Sqlite.consume_pairing_code g h m db) s
  unfolding Sqlite.consume_pairing_code
  consume_missing h m z =
      with_codes g r _ s.pairing_codes
        (λ k.
          g.pairing_codes.find-update h
            (λ row. record row { machine_id = some m; consumed_by = some m }) (λ row. refl) k
            db.pairing_codes
          ∙ rw (r.pairing_codes k) (ground (arith, z, text_eq_iff h k)))
        r.codes_listed

  pub consume_pairing_code-Represents :
      (h m : Text)
      → Represents g (Sqlite.consume_pairing_code g h m db) (Memory.consume_pairing_code h m s)
  unfolding Memory.consume_pairing_code
  consume_pairing_code-Represents h m = elim (Option-cases (get h s.pairing_codes)) [
    | inl z ↦ rw (z, Memory.consume_pairing_code) (consume_missing h m z)
    | inr (c, z) ↦ rw (z, Memory.consume_pairing_code) (consume_found h m c z)
  ]
