-- ===== src/Nodes/Admission.antt =====
-- Who gets past `handleOnboarding` of apps/gateway/src/nodes.ts.
use deepseek_harness_gateway.Common.{
  ℕ, ◌≡◌, ◌≢◌, ◌⊎◌, refl, false, Option, none, some, [], ◌∷◌, arith, Bool-cases, inl, inr,
}
use deepseek_harness_gateway.Common.Text.{Text, text_eq, text_eq_iff, Eq-text}
use deepseek_harness_gateway.Common.Dict.{get}
use deepseek_harness_gateway.Store.Domain.{
  Machine, MachineStatus, pending, approved, revoked, status_eq, PairingCode,
}
use deepseek_harness_gateway.Store.Memory.{get_machine, get_pairing_code_by_hash}
use deepseek_harness_gateway.Nodes.State.{Nodes}
use deepseek_harness_gateway.Nodes.Onboard.{
  Payload, Outside, Onboarding, accepted, refused, handle_onboarding, onboard_with, reconnect,
  with_pairing_code, with_node_key, is_past, is_set,
}

-- A code that is on record, is not past its end, and has not been used.
pub record GoodCode (o : Outside) (code : Text) (g : Nodes) : Type 0 where
  pub on_record : PairingCode
  pub found : get (o.sha256 code) g.store.pairing_codes ≡ some on_record
  pub in_time : is_past o.now (o.time_of on_record.expires_at) ≡ false
  pub unused : is_set on_record.consumed_by ≡ false

-- The key of a machine on record that is not revoked; `approved` only when the record says so.
pub record GoodKey (o : Outside) (id key : Text) (status : MachineStatus) (g : Nodes) : Type 0 where
  pub machine : Machine
  pub found : get id g.store.machines ≡ some machine
  pub matches : o.sha256 key ≡ machine.node_key_hash
  pub not_revoked : machine.status ≢ revoked
  pub truthful : status ≡ approved → machine.status ≡ approved

-- What a socket must have shown for the reply that it got.
abbrev pub Shown : Outside → Payload → Nodes → Onboarding → Type 0
Shown o p g (refused code reason) = Unit
Shown o p g (accepted id status role) =
    ((code : Text) × (p.code ≡ some code) × (status ≡ pending) × GoodCode o code g)
    ⊎ ((asked : Text) × (key : Text) × (p.machine_id ≡ some asked)
        × (p.node_key ≡ some key)
        × GoodKey o asked key status g)

code-Shown :
    (o : Outside) (ws : ℕ) (p : Payload) (code : Text) (g : Nodes) (r : Option PairingCode)
    → p.code ≡ some code
    → get (o.sha256 code) g.store.pairing_codes ≡ r
    → Shown o p g (with_pairing_code o ws p (o.sha256 code) g r).0
unfolding with_pairing_code
code-Shown o ws p code g none given found = tt
code-Shown o ws p code g (some pc) given found =
    elim (Bool-cases (is_past o.now (o.time_of pc.expires_at))) [
      | inl late ↦ rw late tt
      | inr live ↦ rw live (elim (Bool-cases (is_set pc.consumed_by)) [
        | inl used ↦ rw used tt
        | inr free ↦ rw free (
            inl (
              code,
              given,
              refl,
              record { on_record = pc; found = found; in_time = live; unused = free },
            ))
      ])
    ]

key-Shown :
    (o : Outside) (ws : ℕ) (p : Payload) (id key : Text) (g : Nodes) (r : Option Machine)
    → p.machine_id ≡ some id
    → p.node_key ≡ some key
    → get id g.store.machines ≡ r
    → Shown o p g (with_node_key o ws p key g r).0
unfolding with_node_key
key-Shown o ws p id key g none asked given found = tt
key-Shown o ws p id key g (some m) asked given found =
    elim (Bool-cases (text_eq (o.sha256 key) m.node_key_hash)) [
      | inr bad ↦ rw bad tt
      | inl good ↦ rw good (elim (Bool-cases (status_eq m.status revoked)) [
        | inl out ↦ rw out tt
        | inr fine ↦ rw fine (
            inr (
              id,
              key,
              asked,
              given,
              record {
                machine = m;
                found = found;
                matches = (text_eq_iff (o.sha256 key) m.node_key_hash).0 good;
                not_revoked = λ e. ground (arith, e, fine);
                truthful = λ e. ground (arith, e);
              },
            ))
      ])
    ]

reconnect-Shown :
    (o : Outside) (ws : ℕ) (p : Payload) (g : Nodes) (a b : Option Text)
    → p.machine_id ≡ a
    → p.node_key ≡ b
    → Shown o p g (reconnect o ws p a b g).0
unfolding reconnect get_machine
reconnect-Shown o ws p g none b ha hb = tt
reconnect-Shown o ws p g (some []) b ha hb = tt
reconnect-Shown o ws p g (some (c ∷ id)) none ha hb = tt
reconnect-Shown o ws p g (some (c ∷ id)) (some []) ha hb = tt
reconnect-Shown o ws p g (some (c ∷ id)) (some (d ∷ key)) ha hb =
    key-Shown o ws p (c ∷ id) (d ∷ key) g (get (c ∷ id) g.store.machines) ha hb refl

-- A socket is taken on only for a pairing code that is on record, in time and unused, and then as
-- pending; or for the key of a machine that is on record and not revoked, and then as approved only if
-- the record says approved.
pub handle_onboarding-Shown :
    (o : Outside) (ws : ℕ) (p : Payload) (g : Nodes) → Shown o p g (handle_onboarding o ws p g).0
unfolding handle_onboarding onboard_with get_pairing_code_by_hash
handle_onboarding-Shown o ws p g = by_code p.code refl
  where
    by_code : (c : Option Text) → p.code ≡ c → Shown o p g (onboard_with o ws p c g).0
    by_code none h = reconnect-Shown o ws p g p.machine_id p.node_key refl refl
    by_code (some []) h = reconnect-Shown o ws p g p.machine_id p.node_key refl refl
    by_code (some (c ∷ code)) h =
        code-Shown o ws p (c ∷ code) g (get (o.sha256 (c ∷ code)) g.store.pairing_codes) h refl
