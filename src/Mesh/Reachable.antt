-- ===== src/Mesh/Reachable.antt =====
-- core/src/mesh.rs and core/src/files.rs: everything that can happen to a node, in any order. A
-- handler that waits carries what the other threads do meanwhile, which is a run itself.
use mesh_chat.Prelude.{
  ℕ, ◌+◌, Text, Bytes, Option, List, [], ◌∷◌, map, Bool, true, false, All, refl,
}
use mesh_chat.Error.{Error, IoError, Result, ok, err}
use mesh_chat.Transport.{TransportKind}
use mesh_chat.Protocol.{ℤ, PeerInfo, Checked, returns, panics}
use mesh_chat.Node.{Node, Env, Peer, Link, new, set_display_name}
use mesh_chat.Mesh.Accepting.{accept_step, took, stopped}
use mesh_chat.Node.TransferState.{Decision}
use mesh_chat.Files.Answering.{respond_offer}
use mesh_chat.Files.Integrity.{After}
use mesh_chat.Files.Outgoing.{Metadata, Read, send_file}
use mesh_chat.Files.Streaming.{Sending, Turn, send_file_to}
use mesh_chat.Mesh.{reader_step, send_chat, leave}
use mesh_chat.Mesh.Linked.{AreLinked, AreLinked-SameLinks, SameLinks}
use mesh_chat.Mesh.Teardown.{leave-AreLinked}
use mesh_chat.Mesh.FileLinks.{after_call, respond_offer-SameLinks}
use mesh_chat.Mesh.Admission.{handle_incoming}
use mesh_chat.Mesh.Admission.Answering.{approve}
use mesh_chat.Mesh.Admission.Linked.{Keeps}
use mesh_chat.Mesh.Admission.Incoming.{handle_incoming-Keeps, approve-Keeps}
use mesh_chat.Mesh.Rooms.{Listening, host_room, reopen_joining, join, await_welcome}
use mesh_chat.Mesh.Rooms.Attempts.{Attempt, dial_peer}
use mesh_chat.Mesh.Rooms.Linked.{
  host_room-Keeps, reopen_joining-Keeps, join-Keeps, await_welcome-Keeps,
}
use mesh_chat.Mesh.Offering.{send_file-Keeps}
use mesh_chat.Mesh.Rooms.Dialling.{dial_peer-Keeps}
use mesh_chat.Mesh.Sessions.{reader_step-AreLinked, send_chat-Keeps}
use mesh_chat.Mesh.Streaming.{send_file_to-Keeps, OpenedKeeps, TurnKeeps}

-- A panic ends the program, so the node stays as it was.
abbrev pub settled : Checked Node → Node → Node
settled (returns m) n = m
settled panics n = n

-- What happens while an opened file is read.
abbrev pub interludes : Result IoError (List Turn) → List (Node → Node)
interludes (err e) = []
interludes (ok turns) = map (λ t. t.meanwhile) turns

mutual
  pub data Runs (env : Env) : (Node → Node) → Type 0 where
    idles : Runs env (λ n. n)
    goes_on : (f g : Node → Node) → Runs env f → Runs env g → Runs env (λ n. g (f n))
    ticks : (ms : ℕ) (wall : ℤ) → Runs env (λ n. record n { clock = n.clock + ms; wall = wall })
    renames : (name : Text) → Runs env (set_display_name name)
    hosts :
        (is_v6 : Text → Bool) (kind : TransportKind) (ttl : ℕ) (l : Result Error Listening)
        → Runs env (λ n. (host_room is_v6 kind ttl l n).1)
    reopens : (ttl : ℕ) → Runs env (λ n. (reopen_joining ttl n).1)
    joins :
        (kind : TransportKind) (code : Text) (l : Result Error Listening)
        (connect : Text → Result Error Link)
        → Runs env (λ n. (join env kind code l connect n).1)
    hears_host :
        (link : Link) (reply : Result Error Bytes) → Runs env (await_welcome env link reply)
    dials :
        (info : PeerInfo) (x y z : Attempt)
        → RunsEach env
            (x.before ∷ x.meanwhile ∷ y.before ∷ y.meanwhile ∷ z.before ∷ z.meanwhile ∷ [])
        → Runs env (dial_peer env info x y z)
    takes_call :
        (link : Link) (label : Text) (rounds : List (Node → Node))
        (handshake : Result Error (Unit {0})) (first : Result Error Bytes)
        → RunsEach env rounds
        → Runs env (handle_incoming env link label rounds handshake first)
    accepts_one : (stream : Result IoError Link) → Runs env (λ n. (accept_step stream n).1)
    answers : (req : Text) (accepted : Bool) → Runs env (λ n. (approve env req accepted n).1)
    receives :
        (p : Peer) (received : Result Error Bytes)
        → Runs env (λ n. settled (after_call (reader_step env p received n)) n)
    chats : (id body : Text) → Runs env (λ n. (send_chat env id body n).1)
    replies :
        (transfer : Text) (save_to : Option (Text × Result IoError (Unit {0})))
        → Runs env (λ n. settled (after_call (respond_offer env transfer save_to n)) n)
    sends_file :
        (s : Sending) (meanwhile : Node → Node) (d : Option Decision)
        (opened : Result IoError (List Turn))
        → Runs env meanwhile
        → RunsEach env (interludes opened)
        → Runs env (send_file_to env s meanwhile d opened)
    offers_file :
        (path : Text) (file_name : Option Text) (metadata : Result IoError Metadata)
        (opened : Result IoError (List Read))
        → Runs env (λ n. (send_file env path file_name metadata opened n).1)
    leaves : Runs env (leave env)

  pub data RunsEach (env : Env) : List (Node → Node) → Type 0 where
    none_left : RunsEach env []
    one_more :
        (f : Node → Node) (fs : List (Node → Node))
        → Runs env f
        → RunsEach env fs
        → RunsEach env (f ∷ fs)

settled-AreLinked :
    (r : Checked Node) (n : Node)
    → AreLinked n
    → After (λ m. AreLinked m) r
    → AreLinked (settled r n)
settled-AreLinked (returns m) n h k = k
settled-AreLinked panics n h k = h

replied :
    (n : Node) (r : Checked Node)
    → After (λ m. SameLinks n m) r
    → AreLinked n
    → AreLinked (settled r n)
replied n (returns m) s h = AreLinked-SameLinks n m s h
replied n panics s h = h

opened_each :
    (opened : Result IoError (List Turn))
    → All (λ f. Keeps f) (interludes opened)
    → OpenedKeeps opened
opened_each (err e) k = tt
opened_each (ok turns) k = each turns k
  where
    each :
        (ts : List Turn)
        → All (λ f. Keeps f) (map (λ t. t.meanwhile) ts)
        → All (λ t. TurnKeeps t) ts
    each [] k = tt
    each (t ∷ ts) k = (k.0, each ts k.1)

accept_step-Keeps :
    (stream : Result IoError Link) (n : Node) → AreLinked n → AreLinked (accept_step stream n).1
unfolding accept_step
accept_step-Keeps (ok stream) n h = go n.running
  where
    go : (b : Bool) → AreLinked (took b stream n).1
    go true = h
    go false = h
accept_step-Keeps (err e) n h = go n.running
  where
    go : (b : Bool) → AreLinked (stopped b n).1
    go true = h
    go false = h

mutual
  unfolding set_display_name

  pub Runs-Keeps : (env : Env) (f : Node → Node) → Runs env f → Keeps f
  Runs-Keeps env _ idles n h = h
  Runs-Keeps env _ (goes_on f g x y) n h = Runs-Keeps env g y (f n) (Runs-Keeps env f x n h)
  Runs-Keeps env _ (ticks ms wall) n h = h
  Runs-Keeps env _ (renames name) n h = h
  Runs-Keeps env _ (hosts is_v6 kind ttl l) n h = host_room-Keeps is_v6 kind ttl l n h
  Runs-Keeps env _ (reopens ttl) n h = reopen_joining-Keeps ttl n h
  Runs-Keeps env _ (joins kind code l connect) n h = join-Keeps env kind code l connect n h
  Runs-Keeps env _ (hears_host link reply) n h = await_welcome-Keeps env link reply n h
  Runs-Keeps env _ (dials info x y z w) n h =
      let k =
        RunsEach-Keeps env
          (x.before ∷ x.meanwhile ∷ y.before ∷ y.meanwhile ∷ z.before ∷ z.meanwhile ∷ []) w in
      dial_peer-Keeps env info x y z
        ((k.0, k.1.0), ((k.1.1.0, k.1.1.1.0), ((k.1.1.1.1.0, k.1.1.1.1.1.0), tt))) n h
  Runs-Keeps env _ (takes_call link label rounds handshake first w) n h =
      handle_incoming-Keeps env link label rounds handshake first (RunsEach-Keeps env rounds w) n h
  Runs-Keeps env _ (accepts_one stream) n h = accept_step-Keeps stream n h
  Runs-Keeps env _ (answers req accepted) n h = approve-Keeps env req accepted n h
  Runs-Keeps env _ (receives p received) n h =
      settled-AreLinked (after_call (reader_step env p received n)) n h
        (reader_step-AreLinked env p received n h)
  Runs-Keeps env _ (chats id body) n h = send_chat-Keeps env id body n h
  Runs-Keeps env _ (replies transfer save_to) n h =
      replied n (after_call (respond_offer env transfer save_to n))
        (respond_offer-SameLinks env transfer save_to n) h
  Runs-Keeps env _ (sends_file s meanwhile d opened x w) n h =
      send_file_to-Keeps env s meanwhile d opened (Runs-Keeps env meanwhile x)
        (opened_each opened (RunsEach-Keeps env (interludes opened) w)) n h
  Runs-Keeps env _ (offers_file path file_name metadata opened) n h =
      send_file-Keeps env path file_name metadata opened n h
  Runs-Keeps env _ leaves n h = leave-AreLinked env n h

  RunsEach-Keeps : (env : Env) (fs : List (Node → Node)) → RunsEach env fs → All (λ f. Keeps f) fs
  RunsEach-Keeps env [] none_left = tt
  RunsEach-Keeps env (f ∷ fs) (one_more _ _ x w) = (Runs-Keeps env f x, RunsEach-Keeps env fs w)

new-AreLinked : (id name fingerprint : Text) → AreLinked (new id name fingerprint)
unfolding new
new-AreLinked id name fingerprint = (tt, tt, λ down. refl)

-- Whatever happens to a new node, and in whatever order (hosting, joining, calls, approvals, messages
-- of peers, chat, transfers, leaving, with what other threads do while a handler waits): each peer in
-- its map stands there once, under its own id, and a node that is in no room has no peer left.
pub Runs-AreLinked :
    (env : Env) (id name fingerprint : Text) (f : Node → Node)
    → Runs env f
    → AreLinked (f (new id name fingerprint))
Runs-AreLinked env id name fingerprint f x =
    Runs-Keeps env f x (new id name fingerprint) (new-AreLinked id name fingerprint)
