-- ===== src/Session.antt =====
-- `SessionStore` of apps/gateway/src/auth.ts. The random session id and the clock's reading are
-- arguments; the three limits of the environment are a record.
pub mod Expiry
pub mod Evict
pub mod Unique
pub mod Bound
pub mod Live
mod Tests
use deepseek_harness_gateway.Common.{
  ℕ, zero, suc, ◌+◌, ◌-◌, Bool, true, false, not, ◌||◌, Option, none, some, List, [], ◌∷◌, ltb, leb,
  if◌then◌else◌,
}
use deepseek_harness_gateway.Common.Text.{Text, Eq-text}
use deepseek_harness_gateway.Common.Lists.{length, take}
use deepseek_harness_gateway.Common.Sort.{sort}
use deepseek_harness_gateway.Common.Dict.{Dict, get, set, delete, retain}

pub record Limits : Type 0 where
  pub idle_ttl_ms : ℕ
  pub absolute_ttl_ms : ℕ
  pub session_max : ℕ

pub record SessionRecord : Type 0 where
  pub user_id : Text
  pub issued_at : ℕ
  pub expires_at : ℕ
  pub machine_id : Option Text

abbrev pub Sessions : Type 0
Sessions = Dict Text SessionRecord

-- What happens to the map, call by call; `sweeps` is the timer of `startPrune`.
pub data Op : Type 0 where
  creates : Text → ℕ → Text → Op
  looks_up : Text → ℕ → Op
  binds : Text → Text → ℕ → Op
  asks_machine : Text → ℕ → Op
  destroys : Text → Op
  sweeps : ℕ → Op

module _ (l : Limits) where
  unfoldable pub expired : SessionRecord → ℕ → Bool
  expired s now = ltb s.expires_at now || ltb (s.issued_at + l.absolute_ttl_ms) now

  -- `(a, b) => a[1].issuedAt - b[1].issuedAt`, as the order that it stands for
  abbrev pub issued_before : Text × SessionRecord → Text × SessionRecord → Bool
  issued_before (i, a) (j, b) = ltb a.issued_at b.issued_at

  unfoldable pub delete_all : List (Text × SessionRecord) → Sessions → Sessions
  delete_all [] m = m
  delete_all ((id, s) ∷ rest) m = delete_all rest (delete id m)

  unfoldable pub drop_oldest : Sessions → Sessions
  unfolding delete_all
  drop_oldest m =
      if ltb l.session_max (length m)
      then delete_all (take (length m - l.session_max) (sort issued_before m)) m
      else m

  unfoldable pub sweep : ℕ → Sessions → Sessions
  unfolding expired
  sweep now m = retain (λ id s. not (expired s now)) m

  unfoldable pub evict : ℕ → Sessions → Sessions
  unfolding sweep drop_oldest
  evict now m = if leb (length m) l.session_max then m else drop_oldest (sweep now m)

  unfoldable pub create : Text → ℕ → Text → Sessions → Sessions
  create id now user_id m = evict now (
      set id
        (record {
          user_id = user_id;
          issued_at = now;
          expires_at = now + l.idle_ttl_ms;
          machine_id = none;
        })
        m)

  abbrev lookup_found : Text → ℕ → Sessions → Option SessionRecord → Option Text × Sessions
  lookup_found id now m none = (none, m)
  lookup_found id now m (some s) =
      if expired s now
      then (none, delete id m)
      else (some s.user_id, set id (record s { expires_at = now + l.idle_ttl_ms }) m)

  -- `get`
  unfoldable pub lookup : Text → ℕ → Sessions → Option Text × Sessions
  unfolding expired
  lookup id now m = lookup_found id now m (get id m)

  abbrev bind_found : Text → Text → ℕ → Sessions → Option SessionRecord → Sessions
  bind_found id machine_id now m none = m
  bind_found id machine_id now m (some s) =
      set id (record s { machine_id = some machine_id; expires_at = now + l.idle_ttl_ms }) m

  unfoldable pub bind_machine : Text → Text → ℕ → Sessions → Sessions
  bind_machine id machine_id now m = bind_found id machine_id now m (get id m)

  abbrev machine_found : Text → ℕ → Sessions → Option SessionRecord → Option Text × Sessions
  machine_found id now m none = (none, m)
  machine_found id now m (some s) = if expired s now then (none, delete id m) else (s.machine_id, m)

  unfoldable pub machine_of : Text → ℕ → Sessions → Option Text × Sessions
  unfolding expired
  machine_of id now m = machine_found id now m (get id m)

  unfoldable pub destroy : Text → Sessions → Sessions
  destroy id m = delete id m

  unfoldable pub step : Op → Sessions → Sessions
  step (creates id now user_id) m = create id now user_id m
  step (looks_up id now) m = (lookup id now m).1
  step (binds id machine_id now) m = bind_machine id machine_id now m
  step (asks_machine id now) m = (machine_of id now m).1
  step (destroys id) m = destroy id m
  step (sweeps now) m = sweep now m

  unfoldable pub run : List Op → Sessions → Sessions
  run [] m = m
  run (op ∷ ops) m = run ops (step op m)
