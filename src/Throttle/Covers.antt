-- ===== src/Throttle/Covers.antt =====
-- The attempts on record in apps/gateway/src/login-throttle.ts, against the checks made so far.
use deepseek_harness_gateway.Common.{
  ℕ, suc, ◌≤◌, ◌<◌, ◌≡◌, refl, true, List, [], ◌∷◌, ◌++◌, arith, Option-cases, inl, inr, ◌⊎◌,
}
use deepseek_harness_gateway.Common.Text.{Text, text_eq_iff, Eq-text}
use deepseek_harness_gateway.Common.Lists.{
  length, filter, count, count-filter, length-filter, count-le-length,
}
use deepseek_harness_gateway.Common.Dict.{get, IsMap, set}
use deepseek_harness_gateway.Throttle.Check.{check-pass_iff}
use deepseek_harness_gateway.Throttle.{
  Config, World, pass, within, attempts_of, check, record_failure, record_success, prune,
}
use deepseek_harness_gateway.Throttle.Attempts.{attempts_at, attempts-check}
use deepseek_harness_gateway.Throttle.Events.{recent}

-- From time `now` on, the recent checks are among the attempts on record, which the cap bounds.
pub record Covers (cfg : Config) (now : ℕ) (addr : Text) (made : List (ℕ × Text)) (w : World)
    : Type 0 where
  pub covers :
      (later : ℕ)
      → now ≤ later
      → count (recent cfg.ip_window_ms later addr) made
        ≤ count (within cfg.ip_window_ms later) (attempts_at addr w)
  pub capped : length (attempts_at addr w) ≤ cfg.ip_max
  pub config : w.throttle.cfg ≡ cfg
  pub unique : IsMap w.throttle.ips

later_within :
    (window now later t : ℕ)
    → now ≤ later
    → within window later t ≡ true
    → within window now t ≡ true
later_within window now later t h k = ground arith

count-later :
    (window now later : ℕ) (xs : List ℕ)
    → now ≤ later
    → count (within window later) (filter (within window now) xs) ≡ count (within window later) xs
count-later window now later xs h =
    count-filter (within window later) (within window now) (λ t. later_within window now later t h)
      xs

unfoldable pub Trimmed : ℕ → ℕ → List ℕ → List ℕ → Type 0
Trimmed window now xs ys = (ys ≡ filter (within window now) xs) ⊎ (ys ≡ xs)

length-trim : (window now : ℕ) (xs : List ℕ) → length (filter (within window now) xs) ≤ length xs
length-trim window now xs =
    rw (length-filter (within window now) xs) (count-le-length (within window now) xs)

module _ (cfg : Config) (now t : ℕ) (addr : Text) (made : List (ℕ × Text)) (w w' : World)
    (h : now ≤ t) (c : Covers cfg now addr made w) where
  trim-covers :
      Trimmed cfg.ip_window_ms t (attempts_at addr w) (attempts_at addr w')
      → (later : ℕ) → t ≤ later
      → count (within cfg.ip_window_ms later) (attempts_at addr w')
        ≡ count (within cfg.ip_window_ms later) (attempts_at addr w)
  unfolding Trimmed
  trim-covers (inl e) later k = rw e (count-later cfg.ip_window_ms t later (attempts_at addr w) k)
  trim-covers (inr e) later k = rw e

  trim-capped :
      Trimmed cfg.ip_window_ms t (attempts_at addr w) (attempts_at addr w')
      → length (attempts_at addr w') ≤ cfg.ip_max
  unfolding Trimmed
  trim-capped (inl e) =
      rw e (omega (arith, length-trim cfg.ip_window_ms t (attempts_at addr w), c.capped))
  trim-capped (inr e) = rw e c.capped

  pub Covers-trim :
      Trimmed cfg.ip_window_ms t (attempts_at addr w) (attempts_at addr w')
      → w'.throttle.cfg ≡ cfg
      → IsMap w'.throttle.ips
      → Covers cfg t addr made w'
  Covers-trim r e m = record {
    covers = λ later k. omega (arith, c.covers later (omega arith), trim-covers r later k);
    capped = trim-capped r;
    config = e;
    unique = m;
  }

pub cfg-prune : (now : ℕ) (w : World) → (prune now w).throttle.cfg ≡ w.throttle.cfg
unfolding prune
cfg-prune now w = ground arith

pub ips-success :
    (name : Text) (w : World)
    → ((record_success name w).throttle.ips ≡ w.throttle.ips)
      × ((record_success name w).throttle.cfg ≡ w.throttle.cfg)
unfolding record_success
ips-success name w = ground arith

pub ips-failure :
    (now : ℕ) (from name : Text) (w : World)
    → ((record_failure now from name w).throttle.ips
        ≡ set from
            (record { attempts = attempts_of (get from w.throttle.ips) ++ now ∷ [] })
            w.throttle.ips)
      × ((record_failure now from name w).throttle.cfg ≡ w.throttle.cfg)
unfolding record_failure
ips-failure now from name w = ground arith

-- An attempt that has passed leaves room for one more.
pub room-check :
    (now : ℕ) (addr name : Text) (w : World)
    → 0 < w.throttle.cfg.ip_max
    → (check now addr name w).0 ≡ pass
    → suc (length (attempts_at addr (check now addr name w).1)) ≤ w.throttle.cfg.ip_max
unfolding attempts_at filter
room-check now addr name w some_room passed =
    let open_now = (check-pass_iff now addr name w).0 passed in
    rw (attempts-check now addr addr name w, (text_eq_iff addr addr).1 refl)
      (elim (Option-cases (get addr w.throttle.ips)) [
        | inl z ↦ rw z some_room
        | inr (st, z) ↦
            rw z (
              ground (arith, z, length-filter (within w.throttle.cfg.ip_window_ms now) st.attempts))
      ])
