-- ===== src/Nodes/Codes.antt =====
-- The use of a pairing code is not undone by what happens later in apps/gateway/src/nodes.ts.
use deepseek_harness_gateway.Common.{
  ℕ, ◌≡◌, ◌≢◌, refl, sym, ap, ◌∙◌, Bool, true, false, Option, none, some, List, [], ◌∷◌, arith,
  Eq-nat, if◌then◌else◌, Bool-cases, inl, inr,
}
use deepseek_harness_gateway.Common.Text.{Text, text_eq, text_eq_iff, Eq-text}
use deepseek_harness_gateway.Common.Lists.{All}
use deepseek_harness_gateway.Common.Dict.{get, set, delete, has, get-set}
use deepseek_harness_gateway.Store.Domain.{Store, Machine, PairingCode}
use deepseek_harness_gateway.Store.Memory.{
  get_machine, upsert_machine, delete_machine, append_audit, get_pairing_code_by_hash,
  consume_pairing_code, upsert_pairing_code,
}
use deepseek_harness_gateway.Nodes.State.{Nodes, supervisor, node_key}
use deepseek_harness_gateway.Nodes.Admin.{
  seed_pairing_code, issue_pairing_code, approve_machine, revoke_machine, remove_machine,
}
use deepseek_harness_gateway.Nodes.Relay.{drop_ws, drop_streams, drop_channels_for_machine, owned}
use deepseek_harness_gateway.Nodes.Onboard.{
  Payload, Outside, handle_onboarding, onboard_with, reconnect, with_pairing_code, with_node_key,
  register_machine, is_past, is_set,
}
use deepseek_harness_gateway.Nodes.Messages.{
  Socket, Heartbeat, on_heartbeat, on_close, closed_of, holds, record_heartbeat,
  persist_daemon_state,
}

-- What may happen in the registry: the first message of a socket, a heartbeat, the close of a socket,
-- and what an admin does to pairing codes and to machines.
pub data Later : Type 0 where
  onboards : Outside → ℕ → Payload → Later
  beats : ℕ → Text → Heartbeat → Socket → Later
  disconnects : Socket → Later
  issues : (Text → Text) → Text → Text → Later
  approves : Text → Text → Later
  revokes : Text → Text → Later
  removes : Text → Text → Later

abbrev pub do_later : Later → Nodes → Nodes
do_later (onboards o ws p) g = (handle_onboarding o ws p g).1
do_later (beats now ts h s) g = on_heartbeat now ts h s g
do_later (disconnects s) g = on_close s g
do_later (issues sha256 code expires_at) g = (issue_pairing_code sha256 code expires_at g).1
do_later (approves ts machine_id) g = (approve_machine ts machine_id g).1
do_later (revokes ts machine_id) g = (revoke_machine ts machine_id g).1
do_later (removes ts machine_id) g = (remove_machine ts machine_id g).1

abbrev pub do_all : List Later → Nodes → Nodes
do_all [] g = g
do_all (op ∷ ops) g = do_all ops (do_later op g)

-- The code of this hash is not issued again.
abbrev pub IsNotReissue : Text → Later → Type 0
IsNotReissue hash (issues sha256 code expires_at) = sha256 code ≢ hash
IsNotReissue hash _ = Unit

abbrev pub used : Option PairingCode → Bool
used none = false
used (some pc) = is_set pc.consumed_by

abbrev pub Spent : Text → Nodes → Type 0
Spent hash g = used (get hash g.store.pairing_codes) ≡ true

same-Spent :
    (hash : Text) (g g' : Nodes)
    → g'.store.pairing_codes ≡ g.store.pairing_codes
    → Spent hash g
    → Spent hash g'
same-Spent hash g g' e h = ap (λ m. used (get hash m)) e ∙ h

registered-codes :
    (o : Outside) (hash : Text) (p : Payload) (s : Store) (pc : PairingCode)
    → get hash s.pairing_codes ≡ some pc
    → (register_machine o hash p s).pairing_codes
      ≡ set hash
          (record pc { consumed_by = some o.fresh_id; machine_id = some o.fresh_id })
          s.pairing_codes
unfolding register_machine append_audit consume_pairing_code upsert_machine
registered-codes o hash p s pc found =
    rw (found, register_machine, consume_pairing_code, append_audit, upsert_machine) refl

-- A code that is used is not used again, so the registration has another code.
other-Spent :
    (o : Outside) (p : Payload) (other hash : Text) (s : Store) (pc : PairingCode)
    → get other s.pairing_codes ≡ some pc
    → is_set pc.consumed_by ≡ false
    → used (get hash s.pairing_codes) ≡ true
    → used (get hash (register_machine o other p s).pairing_codes) ≡ true
other-Spent o p other hash s pc found free h =
    let taken : PairingCode = record pc {
      consumed_by = some o.fresh_id;
      machine_id = some o.fresh_id;
    } in
    ap (λ m. used (get hash m)) (registered-codes o other p s pc found)
    ∙ ap used (get-set other hash taken s.pairing_codes)
    ∙ elim (Bool-cases (text_eq other hash)) [
      | inl same ↦ absurd (
          true_false (
            sym h
            ∙ ap (λ k. used (get k s.pairing_codes)) (sym ((text_eq_iff other hash).0 same))
            ∙ ap used found
            ∙ free))
      | inr distinct ↦ rw distinct h
    ]
  where
    true_false : true ≡ false → ⊥
    true_false e = cc

register-Spent :
    (o : Outside) (ws : ℕ) (p : Payload) (other hash : Text) (g : Nodes) (r : Option PairingCode)
    → get other g.store.pairing_codes ≡ r
    → Spent hash g
    → Spent hash (with_pairing_code o ws p other g r).1
unfolding with_pairing_code
register-Spent o ws p other hash g none found h = h
register-Spent o ws p other hash g (some pc) found h =
    elim (Bool-cases (is_past o.now (o.time_of pc.expires_at))) [
      | inl late ↦ rw late h
      | inr live ↦ rw live (elim (Bool-cases (is_set pc.consumed_by)) [
        | inl twice ↦ rw twice h
        | inr free ↦ rw free (other-Spent o p other hash g.store pc found free h)
      ])
    ]

node_key-codes :
    (o : Outside) (ws : ℕ) (p : Payload) (key : Text) (g : Nodes) (r : Option Machine)
    → (with_node_key o ws p key g r).1.store.pairing_codes ≡ g.store.pairing_codes
unfolding with_node_key upsert_machine
node_key-codes o ws p key g none = refl
node_key-codes o ws p key g (some m) = ground arith

reconnect-codes :
    (o : Outside) (ws : ℕ) (p : Payload) (id key : Option Text) (g : Nodes)
    → (reconnect o ws p id key g).1.store.pairing_codes ≡ g.store.pairing_codes
unfolding reconnect get_machine
reconnect-codes o ws p none key g = refl
reconnect-codes o ws p (some []) key g = refl
reconnect-codes o ws p (some (c ∷ id)) none g = refl
reconnect-codes o ws p (some (c ∷ id)) (some []) g = refl
reconnect-codes o ws p (some (c ∷ id)) (some (d ∷ key)) g =
    node_key-codes o ws p (d ∷ key) g (get (c ∷ id) g.store.machines)

onboard-Spent :
    (o : Outside) (ws : ℕ) (p : Payload) (code : Option Text) (hash : Text) (g : Nodes)
    → Spent hash g
    → Spent hash (onboard_with o ws p code g).1
unfolding onboard_with get_pairing_code_by_hash
onboard-Spent o ws p none hash g h =
    same-Spent hash g (reconnect o ws p p.machine_id p.node_key g).1
      (reconnect-codes o ws p p.machine_id p.node_key g) h
onboard-Spent o ws p (some []) hash g h =
    same-Spent hash g (reconnect o ws p p.machine_id p.node_key g).1
      (reconnect-codes o ws p p.machine_id p.node_key g) h
onboard-Spent o ws p (some (c ∷ code)) hash g h =
    register-Spent o ws p (o.sha256 (c ∷ code)) hash g
      (get (o.sha256 (c ∷ code)) g.store.pairing_codes) refl h

drop_ws-store : (xs : List ℕ) (g : Nodes) → (drop_ws xs g).store ≡ g.store
unfolding drop_ws
drop_ws-store [] g = refl
drop_ws-store (x ∷ xs) g = elim (Bool-cases (has x g.ws_channels)) [
  | inl h ↦ rw (h, drop_ws) (drop_ws-store xs _)
  | inr h ↦ rw (h, drop_ws) (drop_ws-store xs _)
]

drop_streams-store : (xs : List ℕ) (g : Nodes) → (drop_streams xs g).store ≡ g.store
unfolding drop_streams
drop_streams-store [] g = refl
drop_streams-store (x ∷ xs) g = elim (Bool-cases (has x g.streams)) [
  | inl h ↦ rw (h, drop_streams) (drop_streams-store xs _)
  | inr h ↦ rw (h, drop_streams) (drop_streams-store xs _)
]

drop_channels-store :
    (machine_id : Text) (g : Nodes) → (drop_channels_for_machine machine_id g).store ≡ g.store
unfolding drop_channels_for_machine
drop_channels-store machine_id g =
    let ws = owned machine_id g.ws_channel_node in
    let g' = drop_ws ws g in
    drop_streams-store (owned machine_id g'.streams_node) g' ∙ drop_ws-store ws g

persist-codes :
    (machine_id : Text) (s : Store)
    → (persist_daemon_state machine_id s).pairing_codes ≡ s.pairing_codes
unfolding persist_daemon_state get_machine upsert_machine
persist-codes machine_id s = ground arith

on_close-codes :
    (s : Socket) (g : Nodes) → (on_close s g).store.pairing_codes ≡ g.store.pairing_codes
unfolding on_close
on_close-codes s g = closed_codes s.machine_id
  where
    forgotten : Nodes
    forgotten =
        let key = node_key s.machine_id s.role in
        if holds s.ws (get key g.nodes) then record g { nodes = delete key g.nodes } else g

    left :
        (drop_channels_for_machine s.machine_id forgotten).store.pairing_codes
        ≡ g.store.pairing_codes
    left =
        ap (λ (x : Store). x.pairing_codes) (drop_channels-store s.machine_id forgotten)
        ∙ ground arith

    closed_codes : (id : Text) → (closed_of id s g).store.pairing_codes ≡ g.store.pairing_codes
    closed_codes [] = refl
    closed_codes (c ∷ id) = elim (Bool-cases (text_eq s.role supervisor)) [
      | inl z ↦ rw z (
          persist-codes s.machine_id (drop_channels_for_machine s.machine_id forgotten).store
          ∙ left)
      | inr z ↦ rw z left
    ]

on_heartbeat-codes :
    (now : ℕ) (ts : Text) (h : Heartbeat) (s : Socket) (g : Nodes)
    → (on_heartbeat now ts h s g).store.pairing_codes ≡ g.store.pairing_codes
unfolding on_heartbeat record_heartbeat get_machine upsert_machine
on_heartbeat-codes now ts h s g = ground arith

later-Spent :
    (hash : Text) (op : Later) (g : Nodes)
    → IsNotReissue hash op
    → Spent hash g
    → Spent hash (do_later op g)
unfolding handle_onboarding issue_pairing_code seed_pairing_code upsert_pairing_code approve_machine
    revoke_machine remove_machine get_machine upsert_machine delete_machine append_audit
later-Spent hash (onboards o ws p) g n h = onboard-Spent o ws p p.code hash g h
later-Spent hash (beats now ts b s) g n h =
    same-Spent hash g (on_heartbeat now ts b s g) (on_heartbeat-codes now ts b s g) h
later-Spent hash (disconnects s) g n h = same-Spent hash g (on_close s g) (on_close-codes s g) h
later-Spent hash (issues sha256 code expires_at) g n h = ground (
  arith,
  h,
  other_text (sha256 code) hash n,
  get-set (sha256 code) hash
      (record {
        code_hash = sha256 code;
        machine_id = none;
        expires_at = expires_at;
        consumed_by = none;
      })
      g.store.pairing_codes,
)
  where
    other_text : (a b : Text) → a ≢ b → text_eq a b ≡ false
    other_text a b d = elim (Bool-cases (text_eq a b)) [
      | inl z ↦ absurd (d ((text_eq_iff a b).0 z))
      | inr z ↦ z
    ]
later-Spent hash (approves ts machine_id) g n h = ground (arith, h)
later-Spent hash (revokes ts machine_id) g n h = ground (arith, h)
later-Spent hash (removes ts machine_id) g n h = ground (arith, h)

pub do_all-Spent :
    (hash : Text) (ops : List Later) (g : Nodes)
    → All (IsNotReissue hash) ops
    → Spent hash g
    → Spent hash (do_all ops g)
do_all-Spent hash [] g n h = h
do_all-Spent hash (op ∷ ops) g n h =
    do_all-Spent hash ops (do_later op g) n.1 (later-Spent hash op g n.0 h)
