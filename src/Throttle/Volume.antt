-- ===== src/Throttle/Volume.antt =====
-- The per-address cap of apps/gateway/src/login-throttle.ts, over failing logins made one by one.
use mathlib.Core.List.{append-nil, append_assoc}
use deepseek_harness_gateway.Common.{
  ℕ, suc, ◌≤◌, ◌<◌, ◌≡◌, refl, sym, subst, ◌∙◌, Bool, List, [], ◌∷◌, ◌++◌, arith, Bool-cases, inl,
  inr, ap,
}
use deepseek_harness_gateway.Common.Text.{Text, text_eq, text_eq_iff, Eq-text}
use deepseek_harness_gateway.Common.Lists.{
  length, count, length-append, count-append, count-le-length,
}
use deepseek_harness_gateway.Common.Dict.{
  get, IsMap, Dict, set-IsMap, retain-IsMap, map_values-IsMap,
}
use deepseek_harness_gateway.Store.Domain.{Store}
use deepseek_harness_gateway.Throttle.{
  fresh, IpState, Config, World, ThrottleCheck, pass, blocked, within, attempts_of, check,
  record_failure, record_success, prune,
}
use deepseek_harness_gateway.Throttle.Attempts.{
  attempts_at, cfg-check, IsMap-check, attempts-check, attempts-record_failure, ips-prune,
  attempts-prune,
}
use deepseek_harness_gateway.Throttle.Events.{
  Event, tries, succeeds, prunes, failing, play, Ordered, last_time, recent,
}
use deepseek_harness_gateway.Throttle.Covers.{
  Covers, Trimmed, Covers-trim, cfg-prune, ips-success, ips-failure, room-check,
}

module _ (cfg : Config) (some_room : 0 < cfg.ip_max) where
  prune-Covers :
      (now t : ℕ) (addr : Text) (made : List (ℕ × Text)) (w : World)
      → now ≤ t
      → Covers cfg now addr made w
      → Covers cfg t addr made (prune t w)
  unfolding Trimmed
  prune-Covers now t addr made w h c =
      Covers-trim cfg now t addr made w (prune t w) h c
        (inl (simp c.config at (attempts-prune t addr w c.unique))) (cfg-prune t w ∙ c.config)
        (subst IsMap (sym (ips-prune t w)) (map_values-IsMap _ _ (retain-IsMap _ _ c.unique)))

  success-Covers :
      (now : ℕ) (addr name : Text) (made : List (ℕ × Text)) (w : World)
      → Covers cfg now addr made w
      → Covers cfg now addr made (record_success name w)
  unfolding Trimmed attempts_at
  success-Covers now addr name made w c =
      Covers-trim cfg now now addr made w (record_success name w) (omega arith) c
        (inr (ap (λ (m : Dict Text IpState). attempts_of (get addr m)) (ips-success name w).0))
        ((ips-success name w).1 ∙ c.config) (subst IsMap (sym (ips-success name w).0) c.unique)

  check-Covers :
      (now t : ℕ) (addr from name : Text) (made : List (ℕ × Text)) (w : World)
      → now ≤ t
      → Covers cfg now addr made w
      → Covers cfg t addr made (check t from name w).1
  unfolding Trimmed
  check-Covers now t addr from name made w h c =
      Covers-trim cfg now t addr made w (check t from name w).1 h c
        (elim (Bool-cases (text_eq from addr)) [
          | inl e ↦ inl (simp (e, c.config) at (attempts-check t addr from name w))
          | inr e ↦ inr (rw e at (attempts-check t addr from name w))
        ])
        (cfg-check t from name w ∙ c.config) (IsMap-check t from name w c.unique)

  failure-Covers :
      (t : ℕ) (addr from name : Text) (made : List (ℕ × Text)) (w : World)
      → (from ≡ addr → suc (length (attempts_at addr w)) ≤ cfg.ip_max)
      → Covers cfg t addr made w
      → Covers cfg t addr (made ++ (t, from) ∷ []) (record_failure t from name w)
  unfolding count
  failure-Covers t addr from name made w fits c = record {
    covers = λ later k. ground (
      arith,
      c.covers later k,
      attempts-record_failure t addr from name w,
      count-append (recent cfg.ip_window_ms later addr) made ((t, from) ∷ []),
      count-append (within cfg.ip_window_ms later) (attempts_at addr w) (t ∷ []),
    );
    capped = ground (
      arith,
      text_eq_iff from addr,
      fits,
      attempts-record_failure t addr from name w,
      length-append (attempts_at addr w) (t ∷ []),
      c.capped,
    );
    config = (ips-failure t from name w).1 ∙ c.config;
    unique = subst IsMap (sym (ips-failure t from name w).0) (set-IsMap from _ _ c.unique);
  }

  try-cases :
      (t : ℕ) (addr from name : Text) (made : List (ℕ × Text)) (r : ThrottleCheck) (w : World)
      → (r ≡ pass → from ≡ addr → suc (length (attempts_at addr w)) ≤ cfg.ip_max)
      → Covers cfg t addr made w
      → Covers cfg t addr (made ++ (failing t from name (r, w)).0) (failing t from name (r, w)).1
  try-cases t addr from name made pass w fits c =
      failure-Covers t addr from name made w (fits refl) c
  try-cases t addr from name made (blocked s r) w fits c = rw append-nil c

  try-Covers :
      (now t : ℕ) (addr from name : Text) (made : List (ℕ × Text)) (w : World)
      → now ≤ t
      → Covers cfg now addr made w
      → Covers cfg t addr
          (made ++ (failing t from name (check t from name w)).0)
          (failing t from name (check t from name w)).1
  try-Covers now t addr from name made w h c =
      try-cases t addr from name made (check t from name w).0 (check t from name w).1
        (λ passed e. ground (arith, c.config, room-check t from name w))
        (check-Covers now t addr from name made w h c)

  play-Covers :
      (now : ℕ) (addr : Text) (made : List (ℕ × Text)) (evs : List Event) (w : World)
      → Ordered now evs
      → Covers cfg now addr made w
      → Covers cfg (last_time now evs) addr (made ++ (play evs w).0) (play evs w).1
  unfolding play
  play-Covers now addr made [] w o c = rw append-nil c
  play-Covers now addr made (tries t from name ∷ rest) w o c =
      rw
        (← append_assoc made (failing t from name (check t from name w)).0
          (play rest (failing t from name (check t from name w)).1).0)
        (play-Covers t addr (made ++ (failing t from name (check t from name w)).0) rest
          (failing t from name (check t from name w)).1 o.1
          (try-Covers now t addr from name made w o.0 c))
  play-Covers now addr made (succeeds name ∷ rest) w o c =
      play-Covers now addr made rest (record_success name w) o
        (success-Covers now addr name made w c)
  play-Covers now addr made (prunes t ∷ rest) w o c =
      play-Covers t addr made rest (prune t w) o.1 (prune-Covers now t addr made w o.0 c)

-- Failing logins made one after another: in any window that ends at or after the last of them, no
-- address gets more credential checks than the cap, whatever accounts it tries and whatever
-- successes and sweeps happen in between; provided that the cap is not 0, that the throttle has begun
-- empty, and that the clock never runs backwards.
pub failed_logins-le-cap :
    (cfg : Config) (persist : Bool) (s : Store) (evs : List Event) (addr : Text) (later : ℕ)
    → 0 < cfg.ip_max
    → Ordered 0 evs
    → last_time 0 evs ≤ later
    → count
        (recent cfg.ip_window_ms later addr)
        (play evs (record { throttle = fresh cfg persist; store = s })).0
      ≤ cfg.ip_max
unfolding attempts_at get count
failed_logins-le-cap cfg persist s evs addr later some_room o h =
    let start : World = record { throttle = fresh cfg persist; store = s } in
    let before : Covers cfg 0 addr [] start = record {
      covers = λ l k. omega arith;
      capped = omega arith;
      config = refl;
      unique = tt;
    } in
    let after = play-Covers cfg some_room 0 addr [] evs start o before in
    omega (
      arith,
      after.covers later h,
      after.capped,
      count-le-length (within cfg.ip_window_ms later) (attempts_at addr (play evs start).1),
    )
