-- ===== src/Nodes/Revoked.antt =====
-- What stays closed in apps/gateway/src/nodes.ts: a used pairing code, a revoked machine.
use deepseek_harness_gateway.Common.{
  ℕ, ◌≡◌, ◌≢◌, refl, sym, ap, subst, ◌∙◌, true, false, not, Option, none, some, [], ◌∷◌, arith,
  Bool-cases, inl, inr,
}
use deepseek_harness_gateway.Common.Text.{Text, text_eq, Eq-text}
use deepseek_harness_gateway.Common.Lists.{All}
use deepseek_harness_gateway.Common.Dict.{Dict, get, set, get-set_self, retain}
use deepseek_harness_gateway.Store.Domain.{Store, Machine, revoked, PairingCode}
use deepseek_harness_gateway.Store.Memory.{
  get_machine, upsert_machine, append_audit, consume_pairing_code,
}
use deepseek_harness_gateway.Nodes.State.{Nodes, ConnectedNode}
use deepseek_harness_gateway.Nodes.Admin.{revoke_machine, of_machine}
use deepseek_harness_gateway.Nodes.Onboard.{
  Payload, Outside, Onboarding, accepted, refused, handle_onboarding, onboard_with, reconnect,
  with_pairing_code, with_node_key, register_machine, is_past, is_set,
}

abbrev pub IsRefused : Onboarding → Type 0
IsRefused (refused code reason) = Unit
IsRefused (accepted id status role) = ⊥

abbrev pub IsAccepted : Onboarding → Type 0
IsAccepted (refused code reason) = ⊥
IsAccepted (accepted id status role) = Unit

pub used-IsRefused :
    (o : Outside) (ws : ℕ) (p : Payload) (hash : Text) (g : Nodes) (pc : PairingCode)
    → is_set pc.consumed_by ≡ true
    → IsRefused (with_pairing_code o ws p hash g (some pc)).0
unfolding with_pairing_code
used-IsRefused o ws p hash g pc used = elim (Bool-cases (is_past o.now (o.time_of pc.expires_at))) [
  | inl late ↦ rw late tt
  | inr live ↦ rw live (rw used tt)
]

-- After a registration the code of it is on record as used by the new machine.
pub consumed :
    (o : Outside) (hash : Text) (p : Payload) (s : Store) (pc : PairingCode)
    → get hash s.pairing_codes ≡ some pc
    → get hash (register_machine o hash p s).pairing_codes
      ≡ some (record pc { consumed_by = some o.fresh_id; machine_id = some o.fresh_id })
unfolding register_machine append_audit consume_pairing_code upsert_machine
consumed o hash p s pc found =
    rw (found, register_machine, consume_pairing_code, append_audit, upsert_machine)
      (get-set_self hash _ s.pairing_codes)

pub set_nonempty : (t : Text) → t ≢ [] → is_set (some t) ≡ true
set_nonempty [] n = absurd (n refl)
set_nonempty (c ∷ t) n = refl

-- ---- revocation
revoked_key :
    (o : Outside) (ws : ℕ) (p : Payload) (key : Text) (g : Nodes) (m : Machine)
    → m.status ≡ revoked
    → IsRefused (with_node_key o ws p key g (some m)).0
unfolding with_node_key
revoked_key o ws p key g m h = elim (Bool-cases (text_eq (o.sha256 key) m.node_key_hash)) [
  | inr bad ↦ rw bad tt
  | inl good ↦ rw good (rw h tt)
]

reconnect-IsRefused :
    (o : Outside) (ws : ℕ) (p : Payload) (id : Text) (key : Option Text) (g : Nodes) (m : Machine)
    → get id g.store.machines ≡ some m
    → m.status ≡ revoked
    → IsRefused (reconnect o ws p (some id) key g).0
unfolding reconnect get_machine
reconnect-IsRefused o ws p [] key g m found h = tt
reconnect-IsRefused o ws p (c ∷ id) none g m found h = tt
reconnect-IsRefused o ws p (c ∷ id) (some []) g m found h = tt
reconnect-IsRefused o ws p (c ∷ id) (some (d ∷ key)) g m found h =
    subst (λ r. IsRefused (with_node_key o ws p (d ∷ key) g r).0) (sym found)
      (revoked_key o ws p (d ∷ key) g m h)

dropped :
    (machine_id : Text) (m : Dict Text ConnectedNode)
    → All
        (λ x. of_machine machine_id x.1 ≡ false)
        (retain (λ key n. not (of_machine machine_id n)) m)
unfolding retain
dropped machine_id [] = tt
dropped machine_id ((key, n) ∷ m) = ground (arith, dropped machine_id m)

-- Revoking a machine that is on record under its id leaves none of its sockets in the registry, and its
-- node key gets it in no more: a reconnection in its name is refused whatever key it shows.
pub revoke_machine-locks_out :
    (ts machine_id : Text) (g : Nodes) (m : Machine) (o : Outside) (ws : ℕ) (p : Payload)
    → get machine_id g.store.machines ≡ some m
    → m.id ≡ machine_id
    → p.code ≡ none
    → p.machine_id ≡ some machine_id
    → (let g' = (revoke_machine ts machine_id g).1 in
        All (λ x. of_machine machine_id x.1 ≡ false) g'.nodes
        × IsRefused (handle_onboarding o ws p g').0)
unfolding handle_onboarding onboard_with revoke_machine get_machine upsert_machine append_audit
revoke_machine-locks_out ts machine_id g m o ws p found own no_code asked =
    let gone : Machine = record m { status = revoked } in
    let on_record : get machine_id (set m.id gone g.store.machines) ≡ some gone =
      ap (λ k. get machine_id (set k gone g.store.machines)) own
      ∙ get-set_self machine_id gone g.store.machines in
    rw found (
      dropped machine_id g.nodes,
      rw no_code
          (rw asked (reconnect-IsRefused o ws p machine_id p.node_key _ gone on_record refl)),
    )
