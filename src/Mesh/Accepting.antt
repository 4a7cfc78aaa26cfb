-- ===== src/Mesh/Accepting.antt =====
-- core/src/mesh.rs: the thread that accepts calls.
use mesh_chat.Prelude.{text, List, [], ◌∷◌, Bool, true, false}
use mesh_chat.Error.{IoError, Result, ok, err}
use mesh_chat.Node.{Node, Link, closes, spawns, answers_call, say, emit}
use mesh_chat.Node.Events.{status}

abbrev pub took : (running : Bool) → Link → Node → Bool × Node
took true stream n = (true, say (spawns (answers_call stream)) n)
took false stream n = (false, say (closes stream) n)

abbrev pub stopped : (running : Bool) → Node → Bool × Node
stopped true n = (false, emit (status (text "stopped listening for new connections")) n)
stopped false n = (false, n)

-- One turn of the loop of `spawn_accept_loop`; true when it goes on.
unfoldable pub accept_step : Result IoError Link → Node → Bool × Node
accept_step (ok stream) n = took n.running stream n
accept_step (err e) n = stopped n.running n

-- What is accepted, with what other threads do before each answer.
abbrev accept_next : (Node → Node) → Bool × Node → Node
accept_next loop (true, n) = loop n
accept_next loop (false, n) = n

unfoldable pub accept_loop : List ((Node → Node) × Result IoError Link) → Node → Node
accept_loop [] n = n
accept_loop ((meanwhile, r) ∷ rest) n = accept_next (accept_loop rest) (accept_step r (meanwhile n))
