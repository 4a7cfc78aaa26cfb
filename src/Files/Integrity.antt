-- ===== src/Files/Integrity.antt =====
-- core/src/files.rs: what every download keeps, whatever the chunks and their order.
use mesh_chat.Prelude.{
  ℕ, ◌+◌, ◌%◌, ◌^◌, ◌≤◌, ◌≡◌, Text, Bytes, Option, none, some, length, length-append, Bool-cases,
  Option-cases, key_eq, refl, sym, subst, inl, inr, arith, All,
}
use mesh_chat.Prelude.Assoc.{lookup, remove, All-remove, All-insert, All-lookup}
use mesh_chat.Protocol.{hex, file_abort, Checked, returns, panics}
use mesh_chat.Node.{Node, Env, Peer, send}
use mesh_chat.Node.Quiet.{Quiet, send-Quiet}
use mesh_chat.Node.TransferState.{ActiveIn}
use mesh_chat.Files.{
  add_u64, chunk_problem, take_chunk, set_active, settle_chunk, chunk_for, handle_chunk,
  progress_due,
}

-- The counter is the length of the file, the hasher was fed what was written, and no more was
-- written than was offered. The counter wraps as the source's does.
abbrev pub Sound : ActiveIn → Type 0
Sound a = (a.got ≡ length a.written % 2 ^ 64) × (a.hashed ≡ a.written) × (a.got ≤ a.size)

-- What holds of the node that a handler returns; a panic ends the program.
abbrev pub After : (Node → Type 0) → Checked Node → Type 0
After P (returns n) = P n
After P panics = Unit

abbrev pub AreSound : Node → Type 0
AreSound n = All (λ h. Sound h.1) n.transfers.active

add_u64-length : (m n : ℕ) → (m % 2 ^ 64 + n) % 2 ^ 64 ≡ (m + n) % 2 ^ 64
add_u64-length m n = omega arith

-- A chunk that is not refused is within the offer.
no_problem :
    (env : Env) (a : ActiveIn) (seq : ℕ) (bytes : Bytes)
    → chunk_problem env a seq bytes ≡ none
    → add_u64 a.got (length bytes) ≤ a.size
unfolding chunk_problem
no_problem env a seq bytes h = ground (arith, h)

take_chunk-Sound :
    (bytes : Bytes) (a : ActiveIn)
    → Sound a
    → add_u64 a.got (length bytes) ≤ a.size
    → Sound (take_chunk bytes a)
unfolding take_chunk
take_chunk-Sound bytes a (g, h, l) fits = (rw (g, length-append, add_u64-length), rw h, fits)

AreSound-Quiet : (n m : Node) → Quiet n m → AreSound n → AreSound m
AreSound-Quiet n m (es, e) h = subst (λ (k : Node). AreSound k) (sym e) h

settle_chunk-AreSound :
    (env : Env) (peer : Peer) (id bytes : Bytes) (a : ActiveIn) (problem : Option Text) (n : Node)
    → AreSound n
    → Sound a
    → (problem ≡ none → add_u64 a.got (length bytes) ≤ a.size)
    → AreSound (settle_chunk env peer id bytes a problem n)
unfolding settle_chunk
settle_chunk-AreSound env peer id bytes a (some reason) n h s fits =
    let m = set_active (remove id n.transfers.active) n in
    AreSound-Quiet m (send env peer.link (file_abort (hex id) reason) m).1
      (send-Quiet env peer.link (file_abort (hex id) reason) m)
      (All-remove (λ e. Sound e.1) id n.transfers.active h)
settle_chunk-AreSound env peer id bytes a none n h s fits =
    elim (Bool-cases (progress_due n.clock (take_chunk bytes a))) [
      | inl due ↦ rw due (
          All-insert (λ e. Sound e.1) id (record (take_chunk bytes a) { next_emit = n.clock + 150 })
            n.transfers.active (take_chunk-Sound bytes a s (fits refl)) h)
      | inr due ↦ rw due (
          All-insert (λ e. Sound e.1) id (take_chunk bytes a) n.transfers.active
            (take_chunk-Sound bytes a s (fits refl)) h)
    ]

-- Whatever peer a chunk is from, whatever number it has and however long it is: every download's
-- counter, hasher and file stay in step, and within what was offered.
pub handle_chunk-AreSound :
    (env : Env) (peer : Peer) (id : Bytes) (seq : ℕ) (bytes : Bytes) (n : Node)
    → AreSound n
    → AreSound (handle_chunk env peer id seq bytes n)
unfolding handle_chunk chunk_for
handle_chunk-AreSound env peer id seq bytes n h =
    elim (Option-cases (lookup id n.transfers.active)) [
      | inl e ↦ rw e h
      | inr (a, e) ↦ elim (Bool-cases (key_eq a.peer_id peer.info.id)) [
        | inl mine ↦
            rw (e, mine)
              (settle_chunk-AreSound env peer id bytes a (chunk_problem env a seq bytes) n h
                (All-lookup (λ x. Sound x.1) id a n.transfers.active h e)
                (no_problem env a seq bytes))
        | inr other ↦ rw (e, other) h
      ]
    ]
