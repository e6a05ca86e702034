-- ===== src/DaemonControl.antt =====
-- apps/gateway/src/daemon-control.ts: the requests to supervisors that are waiting for an answer.
-- A promise is what its request has come to; the log of the registry lists what settled, in order.
pub mod Once
mod Tests
use deepseek_harness_gateway.Common.{
  ℕ, ◌+◌, Bool, true, false, Option, none, some, List, [], ◌∷◌, ◌++◌, map, if◌then◌else◌,
}
use deepseek_harness_gateway.Common.Text.{Text, text, Eq-text}
use deepseek_harness_gateway.Common.Lists.{length}
use deepseek_harness_gateway.Common.Split.{decimal}
use deepseek_harness_gateway.Common.Dict.{Dict, get, set, delete}

pub record DaemonControlResult : Type 0 where
  pub ok : Bool
  pub state : Option Text
  pub error : Option Text

pub data Settlement : Type 0 where
  resolved : DaemonControlResult → Settlement
  rejected : Text → Settlement

-- An entry of the map: the action; its resolver and its timer are known by the request's number.
pub record PendingControl : Type 0 where
  pub action : Text
  pub promise : ℕ

-- `settled` is outside the class: the promises that its calls have settled, each with the outcome.
pub record Registry : Type 0 where
  pub pending : Dict Text PendingControl
  pub seq : ℕ
  pub settled : List (ℕ × Settlement)

abbrev pub new_registry : Registry
new_registry = record { pending = []; seq = 0; settled = [] }

unfoldable pub size : Registry → ℕ
size r = length r.pending

-- `d${seq}-${Date.now().toString(36)}`; the clock's numeral is an argument
unfoldable pub request_id : ℕ → Text → Text
unfolding decimal
request_id seq stamp = text "d" ++ (decimal seq ++ (text "-" ++ stamp))

unfoldable pub register : Text → Text → Registry → Text × Registry
register action stamp r =
    let seq = r.seq + 1 in
    let id = request_id seq stamp in
    (
      id,
      record r {
        seq = seq;
        pending = set id (record { action = action; promise = seq }) r.pending;
      },
    )

abbrev conclude : Text → Settlement → Registry → Option PendingControl → Bool × Registry
conclude id out r none = (false, r)
conclude id out r (some entry) = (
  true,
  record r { pending = delete id r.pending; settled = r.settled ++ (entry.promise, out) ∷ [] },
)

abbrev timeout_text : Option PendingControl → Text
timeout_text none = []
timeout_text (some entry) =
    text "daemon " ++ entry.action ++ text " timed out (supervisor did not answer)"

-- The timer of a request. A timer that was cleared does not run, and it is cleared wherever an entry
-- leaves the map, so a timer without an entry is none.
unfoldable pub time_out : Text → Registry → Registry
time_out id r = (conclude id (rejected (timeout_text (get id r.pending))) r (get id r.pending)).1

unfoldable pub settle : Text → DaemonControlResult → Registry → Bool × Registry
settle id result r = conclude id (resolved result) r (get id r.pending)

abbrev fail_entry : Text → Text × PendingControl → ℕ × Settlement
fail_entry reason (id, entry) =
    (entry.promise, resolved (record { ok = false; state = none; error = some reason }))

unfoldable pub fail_all : Text → Registry → Registry
fail_all reason r = record r {
  pending = [];
  settled = r.settled ++ map (fail_entry reason) r.pending;
}

pub data Op : Type 0 where
  registers : Text → Text → Op
  settles : Text → DaemonControlResult → Op
  times_out : Text → Op
  fails_all : Text → Op

unfoldable pub step : Op → Registry → Registry
unfolding register time_out settle fail_all
step (registers action stamp) r = (register action stamp r).1
step (settles id result) r = (settle id result r).1
step (times_out id) r = time_out id r
step (fails_all reason) r = fail_all reason r

unfoldable pub run : List Op → Registry → Registry
run [] r = r
run (op ∷ ops) r = run ops (step op r)
