-- ===== src/Nodes/Channels.antt =====
-- The passthrough choice and the clean-up of a dropped machine (apps/gateway/src/nodes.ts).
use mathlib.Core.Path.{ap₂}
use deepseek_harness_gateway.Common.{
  ℕ, ◌≡◌, refl, ap, ◌∙◌, Bool, false, ◌&&◌, Option, none, some, List, [], ◌∷◌, nat_eq, Eq-nat,
  if◌then◌else◌, arith, Bool-cases, inl, inr,
}
use deepseek_harness_gateway.Common.Text.{Text, text_eq}
use deepseek_harness_gateway.Common.Lists.{filter, any}
use deepseek_harness_gateway.Common.Dict.{
  Dict, get, has, has-get, keys, values, retain, IsMap, get-delete, get-retain,
}
use deepseek_harness_gateway.Store.Domain.{approved, status_eq}
use deepseek_harness_gateway.Nodes.State.{
  Nodes, ConnectedNode, console, single_loop, single_node_id,
}
use deepseek_harness_gateway.Nodes.Relay.{drop_ws, drop_streams, drop_channels_for_machine, owned}

abbrev pub ready : ConnectedNode → Bool
ready n = text_eq n.role console && status_eq n.status approved

-- The machine of a list of one node.
abbrev pub only_one : List ConnectedNode → Option Text
only_one [] = none
only_one (n ∷ []) = some n.machine_id
only_one (n ∷ n' ∷ ns) = none

abbrev none_else : Text → List ConnectedNode → Option Text
none_else id [] = some id
none_else id (n ∷ ns) = none

single_found :
    (id : Text) (ns : List ConnectedNode)
    → single_loop (some id) ns ≡ none_else id (filter ready ns)
unfolding single_loop filter
single_found id [] = refl
single_found id (n ∷ ns) = ground (arith, single_found id ns)

only_cons :
    (n : ConnectedNode) (ns : List ConnectedNode) → none_else n.machine_id ns ≡ only_one (n ∷ ns)
only_cons n [] = refl
only_cons n (m ∷ ns) = refl

single_none : (ns : List ConnectedNode) → single_loop none ns ≡ only_one (filter ready ns)
unfolding single_loop filter
single_none [] = refl
single_none (n ∷ ns) = elim (Bool-cases (text_eq n.role console && status_eq n.status approved)) [
  | inl yes_ready ↦ rw yes_ready (single_found n.machine_id ns ∙ only_cons n (filter ready ns))
  | inr not_ready ↦ rw not_ready (single_none ns)
]

-- The passthrough without a bound machine has a target exactly when one approved console, and no more,
-- is connected, and then it is that one.
pub single_node_id-only_one :
    (g : Nodes) → single_node_id g ≡ only_one (filter ready (values g.nodes))
unfolding single_node_id
single_node_id-only_one g = single_none (values g.nodes)

any-keys : (c : ℕ) (m : Dict ℕ Text) → any (λ k. nat_eq k c) (keys m) ≡ has c m
unfolding any keys has
any-keys c [] = refl
any-keys c ((k, v) ∷ m) = ground (arith, any-keys c m)

get-drop_ws :
    (xs : List ℕ) (g : Nodes) (c : ℕ)
    → get c (drop_ws xs g).ws_channel_node
      ≡ (if any (λ k. nat_eq k c) xs then none else get c g.ws_channel_node)
unfolding drop_ws any
get-drop_ws [] g c = refl
get-drop_ws (x ∷ xs) g c = elim (Bool-cases (has x g.ws_channels)) [
  | inl h ↦ rw (h, drop_ws) (get-drop_ws xs _ c ∙ ground (arith, get-delete x c g.ws_channel_node))
  | inr h ↦ rw (h, drop_ws) (get-drop_ws xs _ c ∙ ground (arith, get-delete x c g.ws_channel_node))
]

get-drop_streams :
    (xs : List ℕ) (g : Nodes) (c : ℕ)
    → get c (drop_streams xs g).streams_node
      ≡ (if any (λ k. nat_eq k c) xs then none else get c g.streams_node)
unfolding drop_streams any
get-drop_streams [] g c = refl
get-drop_streams (x ∷ xs) g c = elim (Bool-cases (has x g.streams)) [
  | inl h ↦
      rw (h, drop_streams) (get-drop_streams xs _ c ∙ ground (arith, get-delete x c g.streams_node))
  | inr h ↦
      rw (h, drop_streams) (get-drop_streams xs _ c ∙ ground (arith, get-delete x c g.streams_node))
]

drop_ws-streams_node : (xs : List ℕ) (g : Nodes) → (drop_ws xs g).streams_node ≡ g.streams_node
unfolding drop_ws
drop_ws-streams_node [] g = refl
drop_ws-streams_node (x ∷ xs) g = elim (Bool-cases (has x g.ws_channels)) [
  | inl h ↦ rw (h, drop_ws) (drop_ws-streams_node xs _)
  | inr h ↦ rw (h, drop_ws) (drop_ws-streams_node xs _)
]

drop_streams-channels :
    (xs : List ℕ) (g : Nodes) → (drop_streams xs g).ws_channel_node ≡ g.ws_channel_node
unfolding drop_streams
drop_streams-channels [] g = refl
drop_streams-channels (x ∷ xs) g = elim (Bool-cases (has x g.streams)) [
  | inl h ↦ rw (h, drop_streams) (drop_streams-channels xs _)
  | inr h ↦ rw (h, drop_streams) (drop_streams-channels xs _)
]

get-drop_ws_handler :
    (xs : List ℕ) (g : Nodes) (c : ℕ)
    → get c (drop_ws xs g).ws_channels
      ≡ (if any (λ k. nat_eq k c) xs then none else get c g.ws_channels)
unfolding drop_ws any
get-drop_ws_handler [] g c = refl
get-drop_ws_handler (x ∷ xs) g c = elim (Bool-cases (has x g.ws_channels)) [
  | inl h ↦
      rw (h, drop_ws) (get-drop_ws_handler xs _ c ∙ ground (arith, get-delete x c g.ws_channels))
  | inr h ↦
      rw (h, drop_ws) (get-drop_ws_handler xs _ c ∙ ground (arith, get-delete x c g.ws_channels))
]

get-drop_streams_handler :
    (xs : List ℕ) (g : Nodes) (c : ℕ)
    → get c (drop_streams xs g).streams
      ≡ (if any (λ k. nat_eq k c) xs then none else get c g.streams)
unfolding drop_streams any
get-drop_streams_handler [] g c = refl
get-drop_streams_handler (x ∷ xs) g c = elim (Bool-cases (has x g.streams)) [
  | inl h ↦
      rw (h, drop_streams)
        (get-drop_streams_handler xs _ c ∙ ground (arith, get-delete x c g.streams))
  | inr h ↦
      rw (h, drop_streams)
        (get-drop_streams_handler xs _ c
          ∙ ground (arith, get-delete x c g.streams, has-get x g.streams))
]

drop_ws-streams : (xs : List ℕ) (g : Nodes) → (drop_ws xs g).streams ≡ g.streams
unfolding drop_ws
drop_ws-streams [] g = refl
drop_ws-streams (x ∷ xs) g = elim (Bool-cases (has x g.ws_channels)) [
  | inl h ↦ rw (h, drop_ws) (drop_ws-streams xs _)
  | inr h ↦ rw (h, drop_ws) (drop_ws-streams xs _)
]

drop_streams-ws_channels :
    (xs : List ℕ) (g : Nodes) → (drop_streams xs g).ws_channels ≡ g.ws_channels
unfolding drop_streams
drop_streams-ws_channels [] g = refl
drop_streams-ws_channels (x ∷ xs) g = elim (Bool-cases (has x g.streams)) [
  | inl h ↦ rw (h, drop_streams) (drop_streams-ws_channels xs _)
  | inr h ↦ rw (h, drop_streams) (drop_streams-ws_channels xs _)
]

abbrev pub belongs : Text → Option Text → Bool
belongs machine_id none = false
belongs machine_id (some mid) = text_eq mid machine_id

any-owned :
    (machine_id : Text) (c : ℕ) (m : Dict ℕ Text)
    → IsMap m
    → any (λ k. nat_eq k c) (owned machine_id m) ≡ belongs machine_id (get c m)
any-owned machine_id c m v =
    let p : ℕ → Text → Bool = λ channel mid. text_eq mid machine_id in
    any-keys c (retain p m) ∙ ground (arith, has-get c (retain p m), get-retain p c m v)

-- The handler and the owner of every number, channel or relay, after a machine's socket has dropped.
pub record OnlyOf (machine_id : Text) (g after : Nodes) (c : ℕ) : Type 0 where
  pub channel_owner :
      get c after.ws_channel_node
      ≡ (if belongs machine_id (get c g.ws_channel_node) then none else get c g.ws_channel_node)
  pub channel :
      get c after.ws_channels
      ≡ (if belongs machine_id (get c g.ws_channel_node) then none else get c g.ws_channels)
  pub stream_owner :
      get c after.streams_node
      ≡ (if belongs machine_id (get c g.streams_node) then none else get c g.streams_node)
  pub stream :
      get c after.streams
      ≡ (if belongs machine_id (get c g.streams_node) then none else get c g.streams)

-- When a machine's socket drops, exactly the channels and the relays of that machine are forgotten,
-- with their handlers, and those of every other machine stay with it, with theirs.
pub drop_channels-only_machine :
    (machine_id : Text) (g : Nodes) (c : ℕ)
    → IsMap g.ws_channel_node
    → IsMap g.streams_node
    → OnlyOf machine_id g (drop_channels_for_machine machine_id g) c
unfolding drop_channels_for_machine
drop_channels-only_machine machine_id g c v w =
    let ws = owned machine_id g.ws_channel_node in
    let g' = drop_ws ws g in
    let kept : g'.streams_node ≡ g.streams_node = drop_ws-streams_node ws g in
    record {
      channel_owner =
          ap (get c) (drop_streams-channels (owned machine_id g'.streams_node) g')
          ∙ get-drop_ws ws g c
          ∙ ap (λ b. if b then none else get c g.ws_channel_node)
              (any-owned machine_id c g.ws_channel_node v);
      channel =
          ap (get c) (drop_streams-ws_channels (owned machine_id g'.streams_node) g')
          ∙ get-drop_ws_handler ws g c
          ∙ ap (λ b. if b then none else get c g.ws_channels)
              (any-owned machine_id c g.ws_channel_node v);
      stream_owner =
          get-drop_streams (owned machine_id g'.streams_node) g' c
          ∙ ap (λ m. if any (λ k. nat_eq k c) (owned machine_id m) then none else get c m) kept
          ∙ ap (λ b. if b then none else get c g.streams_node)
              (any-owned machine_id c g.streams_node w);
      stream =
          get-drop_streams_handler (owned machine_id g'.streams_node) g' c
          ∙ ap₂ (λ m o. if any (λ k. nat_eq k c) (owned machine_id m) then none else get c o) kept
              (drop_ws-streams ws g)
          ∙ ap (λ b. if b then none else get c g.streams) (any-owned machine_id c g.streams_node w);
    }
