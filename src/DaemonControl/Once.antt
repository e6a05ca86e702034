-- ===== src/DaemonControl/Once.antt =====
-- Each request of apps/gateway/src/daemon-control.ts settles once.
use deepseek_harness_gateway.Common.{
  ℕ, ◌+◌, ◌≤◌, ◌≡◌, refl, ap, ◌∙◌, false, ◌&&◌, Option, none, some, List, [], ◌∷◌, map, nat_eq, leb,
  if◌then◌else◌, arith, Bool-cases, inl, inr,
}
use deepseek_harness_gateway.Common.Text.{Text, text_eq, text_eq_iff, Eq-text}
use deepseek_harness_gateway.Common.Lists.{count, count-append, drop}
use deepseek_harness_gateway.Common.Split.{
  decimal, cut_at, cut_at-append, digits_value, digits_value-decimal, includes-decimal,
}
use deepseek_harness_gateway.Common.Dict.{
  Dict, get, set, delete, has, IsMap, set-IsMap, delete-IsMap,
}
use deepseek_harness_gateway.DaemonControl.{
  Settlement, resolved, PendingControl, Registry, new_registry, request_id, register, conclude,
  fail_entry, time_out, settle, fail_all, Op, registers, settles, times_out, fails_all, step, run,
}

abbrev number_of : Option (Text × Text) → Option ℕ
number_of none = none
number_of (some (digits, rest)) = some (digits_value 0 digits)

-- The number in a request's id.
abbrev seq_of : Text → Option ℕ
seq_of id = number_of (cut_at 45 (drop 1 id))

seq_of-request_id : (seq : ℕ) (stamp : Text) → seq_of (request_id seq stamp) ≡ some seq
unfolding request_id
seq_of-request_id seq stamp =
    ap number_of (cut_at-append 45 (decimal seq) stamp (includes-decimal 45 seq (omega arith)))
    ∙ ap some (digits_value-decimal seq)

abbrev waiting : ℕ → Dict Text PendingControl → ℕ
unfolding count
waiting p m = count (λ x. nat_eq x.1.promise p) m

abbrev done : ℕ → List (ℕ × Settlement) → ℕ
unfolding count
done p xs = count (λ x. nat_eq x.0 p) xs

-- Every entry stands under the id of its own request, which was made already.
abbrev Tagged : ℕ → Dict Text PendingControl → Type 0
Tagged seq [] = Unit
Tagged seq ((id, entry) ∷ m) =
    ((seq_of id ≡ some entry.promise) × (entry.promise ≤ seq)) × Tagged seq m

Tagged-suc : (seq : ℕ) (m : Dict Text PendingControl) → Tagged seq m → Tagged (seq + 1) m
Tagged-suc seq [] h = tt
Tagged-suc seq ((id, entry) ∷ m) h = ((h.0.0, omega (arith, h.0.1)), Tagged-suc seq m h.1)

Tagged-delete :
    (seq : ℕ) (id : Text) (m : Dict Text PendingControl) → Tagged seq m → Tagged seq (delete id m)
unfolding delete
Tagged-delete seq id [] h = tt
Tagged-delete seq id ((i, entry) ∷ m) h = ground (arith, h.0.0, h.0.1, Tagged-delete seq id m h.1)

-- The next request's id is new.
next_free :
    (seq : ℕ) (id : Text) (m : Dict Text PendingControl)
    → Tagged seq m
    → seq_of id ≡ some (seq + 1)
    → has id m ≡ false
unfolding has
next_free seq id [] h e = refl
next_free seq id ((i, entry) ∷ m) h e = elim (Bool-cases (text_eq i id)) [
  | inl same ↦ absurd (clash ((text_eq_iff i id).0 same))
  | inr differs ↦ rw differs (next_free seq id m h.1 e)
]
  where
    clash : i ≡ id → ⊥
    clash p = ground (arith, ap seq_of p, h.0.0, h.0.1, e)

waiting-set :
    (p : ℕ) (id : Text) (entry : PendingControl) (m : Dict Text PendingControl)
    → has id m ≡ false
    → waiting p (set id entry m) ≡ waiting p m + (if nat_eq entry.promise p then 1 else 0)
unfolding set has waiting count
waiting-set p id entry [] h = ground arith
waiting-set p id entry ((i, r) ∷ m) h = ground (arith, waiting-set p id entry m)

waiting-absent :
    (p : ℕ) (id : Text) (m : Dict Text PendingControl) → has id m ≡ false → delete id m ≡ m
unfolding delete has
waiting-absent p id [] h = refl
waiting-absent p id ((i, r) ∷ m) h = ground (arith, waiting-absent p id m)

waiting-delete :
    (p : ℕ) (id : Text) (entry : PendingControl) (m : Dict Text PendingControl)
    → IsMap m
    → get id m ≡ some entry
    → waiting p m ≡ waiting p (delete id m) + (if nat_eq entry.promise p then 1 else 0)
unfolding delete get has waiting count
waiting-delete p id entry [] v h = cc
waiting-delete p id entry ((i, r) ∷ m) v h =
    ground (arith, text_eq_iff i id, waiting-delete p id entry m v.1, waiting-absent p id m, v.0)

done-fail_all :
    (p : ℕ) (reason : Text) (m : Dict Text PendingControl)
    → done p (map (fail_entry reason) m) ≡ waiting p m
unfolding waiting done count
done-fail_all p reason [] = refl
done-fail_all p reason ((i, r) ∷ m) = ground (arith, done-fail_all p reason m)

set_absent-Tagged :
    (seq : ℕ) (id : Text) (entry : PendingControl) (m : Dict Text PendingControl)
    → Tagged seq m
    → seq_of id ≡ some entry.promise
    → entry.promise ≤ seq
    → has id m ≡ false
    → Tagged seq (set id entry m)
unfolding set has
set_absent-Tagged seq id entry [] h e b f = ((e, b), tt)
set_absent-Tagged seq id entry ((i, r) ∷ m) h e b f =
    ground (arith, h.0.0, h.0.1, set_absent-Tagged seq id entry m h.1)

-- Between two calls: no id stands twice, every entry is tagged, and a request that was made is
-- waiting or done, one time in all; no other number is either.
record Sound (r : Registry) : Type 0 where
  keyed : IsMap r.pending
  tagged : Tagged r.seq r.pending
  once :
      (p : ℕ) → done p r.settled + waiting p r.pending ≡ (if leb 1 p && leb p r.seq then 1 else 0)

register-Sound : (action stamp : Text) (r : Registry) → Sound r → Sound (register action stamp r).1
unfolding register waiting done
register-Sound action stamp r h =
    let id = request_id (r.seq + 1) stamp in
    let entry : PendingControl = record { action = action; promise = r.seq + 1 } in
    let tag = seq_of-request_id (r.seq + 1) stamp in
    let free = next_free r.seq id r.pending h.tagged tag in
    record {
      keyed = set-IsMap id entry r.pending h.keyed;
      tagged =
          set_absent-Tagged (r.seq + 1) id entry r.pending (Tagged-suc r.seq r.pending h.tagged) tag
            (omega arith) free;
      once = λ p. ground (arith, h.once p, waiting-set p id entry r.pending free);
    }

conclude-Sound :
    (id : Text) (out : Settlement) (r : Registry)
    → Sound r
    → (found : Option PendingControl) → get id r.pending ≡ found
    → Sound (conclude id out r found).1
unfolding waiting done count
conclude-Sound id out r h none e = h
conclude-Sound id out r h (some entry) e = record {
  keyed = delete-IsMap id r.pending h.keyed;
  tagged = Tagged-delete r.seq id r.pending h.tagged;
  once = λ p. ground (
    arith,
    h.once p,
    waiting-delete p id entry r.pending h.keyed e,
    count-append (λ x. nat_eq x.0 p) r.settled ((entry.promise, out) ∷ []),
  );
}

fail_all-Sound : (reason : Text) (r : Registry) → Sound r → Sound (fail_all reason r)
unfolding fail_all waiting done count
fail_all-Sound reason r h = record {
  keyed = tt;
  tagged = tt;
  once = λ p. ground (
    arith,
    h.once p,
    count-append (λ x. nat_eq x.0 p) r.settled (map (fail_entry reason) r.pending),
    done-fail_all p reason r.pending,
  );
}

step-Sound : (op : Op) (r : Registry) → Sound r → Sound (step op r)
unfolding step settle time_out
step-Sound (registers action stamp) r h = register-Sound action stamp r h
step-Sound (settles id result) r h = conclude-Sound id (resolved result) r h (get id r.pending) refl
step-Sound (times_out id) r h = conclude-Sound id _ r h (get id r.pending) refl
step-Sound (fails_all reason) r h = fail_all-Sound reason r h

run-Sound : (ops : List Op) (r : Registry) → Sound r → Sound (run ops r)
unfolding run
run-Sound [] r h = h
run-Sound (op ∷ ops) r h = run-Sound ops (step op r) (step-Sound op r h)

new-Sound : Sound new_registry
unfolding waiting done count
new-Sound = record { keyed = tt; tagged = tt; once = λ p. ground arith }

-- Whatever calls are made, in whatever order, by answers, timers, unknown ids and dropped sockets: of
-- the requests that were made, each either waits or has settled, and none has settled twice; nothing
-- settles that was not requested.
pub settled_once :
    (ops : List Op) (p : ℕ)
    → (let r = run ops new_registry in
        count (λ x. nat_eq x.0 p) r.settled + count (λ x. nat_eq x.1.promise p) r.pending
        ≡ (if leb 1 p && leb p r.seq then 1 else 0))
unfolding waiting done
settled_once ops p = (run-Sound ops new_registry new-Sound).once p
