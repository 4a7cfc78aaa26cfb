-- ===== src/Node.antt =====
-- core/src/mesh.rs: the state of a node, what it tells the outside, and its accessors. `State`,
-- `Node` and the clock are one record; `out` is the log of what the node did to the outside, in
-- order. Links, listeners and streams are numbers, and a link's peer is reached through `Env`.
pub mod Events
pub mod TransferState
pub mod Quiet
pub mod Payloads
use mesh_chat.Prelude.{
  ℕ, suc, Text, Bytes, text, Option, none, some, List, [], ◌∷◌, ◌++◌, map, length, ltb, Bool, true,
  false, if◌then◌else◌,
}
use mesh_chat.Prelude.Assoc.{Assoc, lookup, values}
use mesh_chat.Error.{Error, protocol, config, Result, ok, err}
use mesh_chat.Transport.{TransportKind, as_str}
use mesh_chat.Protocol.{ℤ, PeerId, PeerInfo, Control, Json, encode_control}
use mesh_chat.RateLimit.{RateLimiter, default_policy}
use mesh_chat.History.{ChatRecord, Exporter, export}
use mesh_chat.Names.{sanitize_name}
use mesh_chat.Node.Events.{Event, PeerState, connected}
use mesh_chat.Node.TransferState.{Transfers, no_transfers, Decision}

pub data Role : Type 0 where
  host joiner : Role

abbrev pub is_host_role : Option Role → Bool
is_host_role none = false
is_host_role (some host) = true
is_host_role (some joiner) = false

abbrev pub Link : Type 0
Link = ℕ

pub record Peer : Type 0 where
  pub info : PeerInfo
  pub link : Link
  pub state : PeerState

pub record Pending : Type 0 where
  pub info : PeerInfo
  pub link : Link

-- The threads that the node starts.
pub data Task : Type 0 where
  accepts : (listener : ℕ) → Task
  awaits_welcome : Link → Task
  dials : PeerInfo → Task
  reads : Peer → Task
  answers_call : Link → Task
  sends_file : (peer : Peer) (path name : Text) (size : ℕ) (sha : Text) → Task

-- What a node does to the outside: an event for the interface, a payload handed to a link, a link,
-- stream or listener closed, a thread started, a peer's handle marked, a decision sent to the thread
-- that waits for it, a file closed.
pub data Effect : Type 0 where
  tells : Event → Effect
  sends : (link : Link) (payload : Bytes) → Effect
  closes : (link : Link) → Effect
  closes_listener : (listener : ℕ) → Effect
  spawns : Task → Effect
  marks : (link : Link) (state : PeerState) → Effect
  decides : (transfer : Bytes) (decision : Decision) → Effect
  saves : (path : Text) (content : Bytes) → Effect

pub record Node : Type 0 where
  pub running : Bool
  pub role : Option Role
  pub kind : Option TransportKind
  pub room : Text
  pub me : PeerInfo
  pub listener : Option ℕ
  pub peers : Assoc Peer
  pub roster : Assoc PeerInfo
  pub pending : Assoc Pending
  pub history : List ChatRecord
  pub open_until : Option ℕ
  pub limiter : RateLimiter
  pub req_seq : ℕ
  pub transfers : Transfers
  pub clock : ℕ
  pub wall : ℤ
  pub out : List Effect

-- The outside: the JSON library, what a link answers to a payload after what was done before, the
-- fingerprint of a link's other end, the digest of the bytes fed to a hasher, the answer of the
-- disk to a write (path, content so far, data), and the display of a size.
pub record Env : Type 0 where
  pub json : Json
  pub deliver : List Effect → Link → Bytes → Result Error (Unit {0})
  pub fingerprint : Link → Text
  pub sha256 : Bytes → Bytes
  pub disk : Text → Bytes → Bytes → Result Text (Unit {0})
  pub human_size : ℕ → Text

unfoldable pub new : PeerId → Text → Text → Node
new id display_name fingerprint = record {
  running = false;
  role = none;
  kind = none;
  room = [];
  me = record { id = id; name = sanitize_name display_name; addr = []; fingerprint = fingerprint };
  listener = none;
  peers = [];
  roster = [];
  pending = [];
  history = [];
  open_until = none;
  limiter = default_policy;
  req_seq = 1;
  transfers = no_transfers;
  clock = 0;
  wall = ℤ.pos 0;
  out = [];
}

abbrev pub say : Effect → Node → Node
say e n = record n { out = n.out ++ e ∷ [] }

abbrev pub emit : Event → Node → Node
emit e = say (tells e)

-- `Node::record`
abbrev pub push_record : ChatRecord → Node → Node
push_record r n = record n { history = n.history ++ r ∷ [] }

unfoldable pub is_host : Node → Bool
is_host n = is_host_role n.role

unfoldable pub set_display_name : Text → Node → Node
set_display_name name n = record n { me = record n.me { name = sanitize_name name } }

unfoldable pub connected_peers : Node → List Peer
connected_peers n = values n.peers

unfoldable pub peer_names : Node → List Text
peer_names n = map (λ p. p.info.name) (values n.peers)

unfoldable pub peer_by_id : PeerId → Node → Option Peer
peer_by_id id n = lookup id n.peers

abbrev kind_name : Option TransportKind → Text
kind_name none = text "-"
kind_name (some k) = as_str k

-- `self.kind().map(|k| k.as_str()).unwrap_or("-")`
abbrev pub transport_name : Node → Text
transport_name n = kind_name n.kind

unfoldable pub ensure_idle : Node → Result Error (Unit {0})
ensure_idle n =
    if n.running then err (config (text "you are already in a room - leave it first")) else ok tt

-- `Node::export_history`; an ok carries what the file holds then.
unfoldable pub export_history : Exporter → Text → Option Text → Node → Result Error Bytes
export_history x path file_name n =
    export x n.wall path file_name n.room (transport_name n) n.history

abbrev pub max_plaintext : ℕ
max_plaintext = 65_519

-- `SecureLink::send`, whose cipher and stream are the outside's.
unfoldable pub link_send : Env → Link → Bytes → Node → Result Error (Unit {0}) × Node
link_send env link payload n =
    if ltb max_plaintext (length payload)
    then (err (protocol (text "message too large for one frame")), n)
    else (env.deliver n.out link payload, say (sends link payload) n)

pub send_encoded : Env → Link → Result Error Bytes → Node → Result Error (Unit {0}) × Node
send_encoded env link (ok bytes) n = link_send env link bytes n
send_encoded env link (err e) n = (err e, n)

-- `link.send(&encode_control(c)?)`
unfoldable pub send : Env → Link → Control → Node → Result Error (Unit {0}) × Node
unfolding send_encoded
send env link c n = send_encoded env link (encode_control env.json c) n
