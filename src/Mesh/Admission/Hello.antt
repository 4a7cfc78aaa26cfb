-- ===== src/Mesh/Admission/Hello.antt =====
-- core/src/mesh.rs: whom `on_hello` asks the operator about.
use mesh_chat.Prelude.{
  ℕ, ◌+◌, ◌≡◌, ◌≢◌, ◌↔◌, Text, Option, none, some, List, [], ◌∷◌, ◌++◌, true, false, Option-cases,
  ◌⊎◌, inl, inr, refl, ap, if◌then◌else◌, ==_iff, key_eq_iff, key_eq_refl, arith,
}
use mesh_chat.Prelude.Assoc.{lookup, lookup-insert}
use mesh_chat.Error.{protocol_version}
use mesh_chat.Text.Decimal.{decimal}
use mesh_chat.Protocol.{PeerInfo, rejected}
use mesh_chat.Names.{normalize_code, sanitize_name}
use mesh_chat.Node.{Node, Env, Link, Role, host, joiner, is_host_role, Effect, closes, tells, say}
use mesh_chat.Node.Quiet.{send-Quiet}
use mesh_chat.Mesh.Admission.{
  expired, known, hello_problem, on_hello, reject_or_park, park, reject, addr_or,
}
use mesh_chat.Text.{is_empty}
use mesh_chat.Node.Events.{join_request}

-- What the source asks of a joiner: our protocol, to the host, with this room's code up to case and
-- punctuation, in time, and an id that nobody in the room has.
abbrev pub Admits : ℕ → Text → PeerInfo → Node → Type 0
Admits version room peer n =
    (version ≡ protocol_version)
    × (n.role ≡ some host)
    × (normalize_code room ≡ normalize_code n.room)
    × (expired n.clock n.open_until ≡ false)
    × (lookup peer.id n.roster ≡ none)
    × (n.me.id ≢ peer.id)

is_host_role_iff : (r : Option Role) → (is_host_role r ≡ true) ↔ (r ≡ some host)
is_host_role_iff none = (λ e. cc e, λ e. cc e)
is_host_role_iff (some host) = (λ e. refl, λ e. refl)
is_host_role_iff (some joiner) = (λ e. cc e, λ e. cc e)

unknown_iff :
    (id : Text) (n : Node) → (known id n ≡ false) ↔ ((lookup id n.roster ≡ none) × (n.me.id ≢ id))
unknown_iff id n = ground (arith, key_eq_iff n.me.id id)

hello_problem-none :
    (version : ℕ) (room : Text) (peer : PeerInfo) (n : Node)
    → hello_problem version room peer n ≡ none
    → Admits version room peer n
unfolding hello_problem
hello_problem-none version room peer n h = ground (
  arith,
  h,
  ==_iff version protocol_version,
  is_host_role_iff n.role,
  key_eq_iff (normalize_code room) (normalize_code n.room),
  unknown_iff peer.id n,
)

hello_problem_admitted :
    (version : ℕ) (room : Text) (peer : PeerInfo) (n : Node)
    → Admits version room peer n
    → hello_problem version room peer n ≡ none
unfolding hello_problem
hello_problem_admitted version room peer n (v, r, c, e, k, m) = ground (
  arith,
  v,
  r,
  c,
  e,
  ==_iff version protocol_version,
  is_host_role_iff n.role,
  key_eq_iff (normalize_code room) (normalize_code n.room),
  unknown_iff peer.id n,
  k,
  m,
)

-- The node that asked its operator: the request is shown with the name that was cleaned, the
-- address that the joiner gave, or else where the call came from, and the fingerprint of the link.
abbrev pub Parked : Env → Link → PeerInfo → Text → Node → Node → Type 0
Parked env link peer source n m =
    (lookup (decimal n.req_seq) m.pending
      ≡ some (record { info = record peer { name = sanitize_name peer.name }; link = link }))
    × (m.req_seq ≡ n.req_seq + 1)
    × (m.out
        ≡ n.out
          ++ tells (
              join_request (decimal n.req_seq) (sanitize_name peer.name)
                (if is_empty peer.addr then source else peer.addr) (env.fingerprint link))
            ∷ [])
    × (m.peers ≡ n.peers)
    × (m.roster ≡ n.roster)

-- The node that refused: its own state is as it was, and the last it did was to close the link.
abbrev pub TurnedAway : Link → Node → Node → Type 0
TurnedAway link n m =
    (es : List Effect) × (m ≡ record n { out = (n.out ++ es) ++ closes link ∷ [] })

reject-TurnedAway :
    (env : Env) (link : Link) (reason : Text) (n : Node)
    → TurnedAway link n (reject env link reason n)
unfolding reject
reject-TurnedAway env link reason n =
    let q = send-Quiet env link (rejected reason) n in
    (q.0, ap (λ (m : Node). say (closes link) m) q.1)

addr_or_lem : (addr source : Text) → addr_or addr source ≡ (if is_empty addr then source else addr)
unfolding addr_or
addr_or_lem [] source = refl
addr_or_lem (c ∷ addr) source = refl

park-Parked :
    (env : Env) (link : Link) (peer : PeerInfo) (source : Text) (n : Node)
    → Parked env link peer source n (park env link peer source n)
unfolding park
park-Parked env link peer source n = (
  rw (lookup-insert, key_eq_refl) refl,
  refl,
  ap
      (λ (addr : Text).
        n.out
        ++ tells
            (join_request (decimal n.req_seq) (sanitize_name peer.name) addr (env.fingerprint link))
          ∷ [])
      (addr_or_lem peer.addr source),
  refl,
  refl,
)

-- A hello is either one that the room admits, and then the request is kept with its link under the
-- next request number, the operator is asked about it by the one event that is told, and peers and
-- roster stay as they were, or it is not, and then nothing of
-- the node's state changes and its link is closed.
pub on_hello_verdict :
    (env : Env) (link : Link) (version : ℕ) (room : Text) (peer : PeerInfo) (source : Text)
    (n : Node)
    → (Admits version room peer n
        × Parked env link peer source n (on_hello env link version room peer source n))
      ⊎ ((Admits version room peer n → ⊥)
          × TurnedAway link n (on_hello env link version room peer source n))
unfolding on_hello reject_or_park
on_hello_verdict env link version room peer source n =
    elim (Option-cases (hello_problem version room peer n)) [
      | inl e ↦
          inl (hello_problem-none version room peer n e, rw e (park-Parked env link peer source n))
      | inr (reason, e) ↦ inr (
        λ a. cc (e, hello_problem_admitted version room peer n a),
        rw e (reject-TurnedAway env link reason n),
      )
    ]
