-- ===== src/Nodes/Relay.antt =====
-- apps/gateway/src/nodes.ts, the data plane: HTTP relays (`streams`) and the channels of browser
-- WebSockets (`wsChannels`), opened towards a machine's console socket and failed when it drops.
use deepseek_harness_gateway.Common.{
  ℕ, ◌+◌, true, Option, none, some, List, [], ◌∷◌, Eq-nat, if◌then◌else◌,
}
use deepseek_harness_gateway.Common.Text.{Text, text, text_eq}
use deepseek_harness_gateway.Common.Lists.{length}
use deepseek_harness_gateway.Common.Dict.{Dict, get, set, delete, has, keys, retain}
use deepseek_harness_gateway.Store.Domain.{approved, status_eq}
use deepseek_harness_gateway.Nodes.State.{
  Nodes, ConnectedNode, relay_request, binary_frame, relay_ws_open, relay_ws_close, Effect, sends,
  stream_response, stream_data, stream_end, stream_error, ws_opened, ws_data, ws_closed, tell,
  console_node,
}

pub record RelayRequest : Type 0 where
  pub method : Text
  pub path : Text
  pub body : List ℕ

abbrev body_frames : ℕ → ℕ → List ℕ → List Effect
body_frames ws channel [] = []
body_frames ws channel (b ∷ body) = sends ws (binary_frame 0 channel (b ∷ body)) ∷ []

-- A refused relay fails before it has a channel: its error is told to channel 0, which none has.
abbrev relay_found : Text → RelayRequest → Nodes → Option ConnectedNode → Nodes
relay_found machine_id req g none = tell (stream_error 0 (text "node not connected") ∷ []) g
relay_found machine_id req g (some node) =
    if status_eq node.status approved
    then (let channel = g.channel_seq + 1 in
        tell
          (sends node.ws (relay_request channel req.method req.path (length req.body))
            ∷ body_frames node.ws channel req.body)
          (record g {
            channel_seq = channel;
            streams = set channel true g.streams;
            streams_node = set channel machine_id g.streams_node;
          }))
    else tell (stream_error 0 (text "node not approved") ∷ []) g

unfoldable pub relay_stream : Text → RelayRequest → Nodes → Nodes
unfolding console_node
relay_stream machine_id req g = relay_found machine_id req g (console_node machine_id g)

abbrev forget_stream : ℕ → Nodes → Nodes
forget_stream channel g = record g {
  streams = delete channel g.streams;
  streams_node = delete channel g.streams_node;
}

-- The idle timer of a stream; one that was cleared does not run.
unfoldable pub stream_timeout : ℕ → Nodes → Nodes
stream_timeout channel g =
    tell (stream_error channel (text "relay timeout") ∷ []) (forget_stream channel g)

-- `handleDataFrame`, and `RELAY_RESPONSE` and `RELAY_END` frames
unfoldable pub handle_data_frame : ℕ → List ℕ → Nodes → Nodes
handle_data_frame channel chunk g =
    if has channel g.streams
    then tell (stream_data channel chunk ∷ []) (record g { streams = set channel true g.streams })
    else g

abbrev or_bad_gateway : Option ℕ → ℕ
or_bad_gateway none = 502
or_bad_gateway (some status) = status

unfoldable pub relay_response : ℕ → Option ℕ → Nodes → Nodes
relay_response channel status g =
    if has channel g.streams
    then tell (stream_response channel (or_bad_gateway status) ∷ [])
        (record g { streams = set channel true g.streams })
    else g

unfoldable pub relay_end : ℕ → Nodes → Nodes
relay_end channel g =
    if has channel g.streams then tell (stream_end channel ∷ []) (forget_stream channel g) else g

-- `relayWsOpen` for the browser socket `browser`: the channel, or the error that it throws
abbrev ws_open_found : Text → Text → ℕ → Nodes → Option ConnectedNode → Option ℕ × Nodes
ws_open_found machine_id path browser g none = (none, g)
ws_open_found machine_id path browser g (some node) =
    if status_eq node.status approved
    then (let channel = g.channel_seq + 1 in
        (
          some channel,
          tell (sends node.ws (relay_ws_open channel path) ∷ []) (record g {
            channel_seq = channel;
            ws_channels = set channel browser g.ws_channels;
            ws_channel_node = set channel machine_id g.ws_channel_node;
          }),
        ))
    else (none, g)

unfoldable pub open_channel : Text → Text → ℕ → Nodes → Option ℕ × Nodes
unfolding console_node
open_channel machine_id path browser g =
    ws_open_found machine_id path browser g (console_node machine_id g)

unfoldable pub node_of_channel : ℕ → Nodes → Option ConnectedNode
unfolding console_node
node_of_channel channel g = elim (get channel g.ws_channel_node) [
  | none ↦ none
  | some machine_id ↦ console_node machine_id g
]

abbrev send_found : ℕ → ℕ → List ℕ → Nodes → Option ConnectedNode → Nodes
send_found channel kind chunk g none = g
send_found channel kind chunk g (some node) =
    tell (sends node.ws (binary_frame kind channel chunk) ∷ []) g

unfoldable pub send_ws : ℕ → ℕ → List ℕ → Nodes → Nodes
unfolding node_of_channel
send_ws channel kind chunk g = send_found channel kind chunk g (node_of_channel channel g)

abbrev forget_channel : ℕ → Nodes → Nodes
forget_channel channel g = record g {
  ws_channels = delete channel g.ws_channels;
  ws_channel_node = delete channel g.ws_channel_node;
}

abbrev close_found : ℕ → Nodes → Option ConnectedNode → Nodes
close_found channel g none = g
close_found channel g (some node) = tell (sends node.ws (relay_ws_close channel) ∷ []) g

-- The browser closes its socket.
unfoldable pub close_ws_channel : ℕ → Nodes → Nodes
unfolding node_of_channel
close_ws_channel channel g =
    forget_channel channel (close_found channel g (node_of_channel channel g))

-- `RELAY_WS_OPEN_OK` and `RELAY_WS_CLOSE` frames, and binary frames of a channel
unfoldable pub ws_open_ok : ℕ → Nodes → Nodes
ws_open_ok channel g = if has channel g.ws_channels then tell (ws_opened channel ∷ []) g else g

abbrev or_normal : Option ℕ → ℕ
or_normal none = 1000
or_normal (some code) = code

unfoldable pub ws_close_frame : ℕ → Option ℕ → Nodes → Nodes
ws_close_frame channel code g =
    forget_channel channel
      (if has channel g.ws_channels then tell (ws_closed channel (or_normal code) ∷ []) g else g)

unfoldable pub binary_message : ℕ → ℕ → List ℕ → Nodes → Nodes
unfolding handle_data_frame
binary_message channel kind chunk g =
    if has channel g.ws_channels
    then tell (ws_data channel kind chunk ∷ []) g
    else handle_data_frame channel chunk g

-- The loops of `dropChannelsForMachine`, over the channels that were collected.
unfoldable pub drop_ws : List ℕ → Nodes → Nodes
drop_ws [] g = g
drop_ws (channel ∷ rest) g = drop_ws rest (
    forget_channel channel
      (if has channel g.ws_channels then tell (ws_closed channel 1011 ∷ []) g else g))

unfoldable pub drop_streams : List ℕ → Nodes → Nodes
drop_streams [] g = g
drop_streams (channel ∷ rest) g = drop_streams rest (
    forget_stream channel (
      if has channel g.streams
      then tell (stream_error channel (text "node disconnected") ∷ []) g
      else g))

abbrev pub owned : Text → Dict ℕ Text → List ℕ
owned machine_id m = keys (retain (λ channel mid. text_eq mid machine_id) m)

unfoldable pub drop_channels_for_machine : Text → Nodes → Nodes
unfolding drop_ws drop_streams
drop_channels_for_machine machine_id g =
    let g' = drop_ws (owned machine_id g.ws_channel_node) g in
    drop_streams (owned machine_id g'.streams_node) g'
