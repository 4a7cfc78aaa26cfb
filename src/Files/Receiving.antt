-- ===== src/Files/Receiving.antt =====
-- core/src/files.rs: the chunks of a whole file, in order, and the message that ends it.
use mesh_chat.Prelude.{
  ℕ, ◌+◌, ◌^◌, ◌≤◌, ◌<◌, ◌≡◌, Text, Bytes, text, cat, none, some, List, [], ◌∷◌, ◌++◌, append_assoc,
  append-nil, length, length-append, ◌==◌, ==_iff, not, ◌&&◌, if◌then◌else◌, Bool, true, Bool-cases,
  key_eq, key_eq_refl, refl, sym, ◌∙◌, subst, ap, inl, inr, arith,
}
use mesh_chat.Prelude.Assoc.{lookup, lookup-insert}
use mesh_chat.Error.{ok}
use mesh_chat.Protocol.{hex}
use mesh_chat.Node.{Node, Env, Peer, Effect, saves, tells}
use mesh_chat.Node.Events.{file_finished}
use mesh_chat.Node.TransferState.{ActiveIn}
use mesh_chat.Files.{
  add_u64, next_u32, chunk_problem, take_chunk, settle_chunk, chunk_for, handle_chunk, progress_due,
  progress_interval, complete_active, complete_incoming, is_complete, completion_detail,
  record_received,
}

abbrev pub concat : List Bytes → Bytes
concat [] = []
concat (b ∷ bs) = b ++ concat bs

-- The chunks in order, from the sequence number `seq` on.
unfoldable pub receive_all : Env → Peer → Bytes → ℕ → List Bytes → Node → Node
receive_all env peer id seq [] n = n
receive_all env peer id seq (b ∷ bs) n =
    receive_all env peer id (next_u32 seq) bs (handle_chunk env peer id seq b n)

unfoldable pub take_all : List Bytes → ActiveIn → ActiveIn
take_all [] a = a
take_all (b ∷ bs) a = take_all bs (take_chunk b a)

-- The disk takes whatever is written to `path`.
abbrev pub Writable : Env → Text → Type 0
Writable env path = (content bytes : Bytes) → env.disk path content bytes ≡ ok tt

chunk_accepted :
    (env : Env) (a : ActiveIn) (bytes : Bytes)
    → Writable env a.path
    → add_u64 a.got (length bytes) ≤ a.size
    → chunk_problem env a a.next_seq bytes ≡ none
unfolding chunk_problem
chunk_accepted env a bytes w fits = rw w (ground (arith, ==_iff a.next_seq a.next_seq, fits))

settle_none :
    (env : Env) (peer : Peer) (id bytes : Bytes) (a : ActiveIn) (n : Node)
    → (due : ℕ) × (lookup id (settle_chunk env peer id bytes a none n).transfers.active
        ≡ some (record (take_chunk bytes a) { next_emit = due }))
unfolding settle_chunk take_chunk
settle_none env peer id bytes a n = elim (Bool-cases (progress_due n.clock (take_chunk bytes a))) [
  | inl due ↦ (n.clock + progress_interval, rw (due, lookup-insert, key_eq_refl))
  | inr due ↦ (a.next_emit, rw (due, lookup-insert, key_eq_refl))
]

-- A chunk that is next in order and within the offer is taken.
pub handle_chunk_next :
    (env : Env) (peer : Peer) (id bytes : Bytes) (a : ActiveIn) (n : Node)
    → Writable env a.path
    → key_eq a.peer_id peer.info.id ≡ true
    → lookup id n.transfers.active ≡ some a
    → add_u64 a.got (length bytes) ≤ a.size
    → (due : ℕ) × (lookup id (handle_chunk env peer id a.next_seq bytes n).transfers.active
        ≡ some (record (take_chunk bytes a) { next_emit = due }))
unfolding handle_chunk chunk_for
handle_chunk_next env peer id bytes a n w mine found fits =
    rw (found, mine, chunk_accepted env a bytes w fits) (settle_none env peer id bytes a n)

length-concat-le : (b : Bytes) (bs : List Bytes) → length b ≤ length (concat (b ∷ bs))
length-concat-le b bs = omega (arith, length-append b (concat bs))

-- What the counter adds up to, when the whole fits.
add_fits : (got m total size : ℕ) → got + m + total ≤ size → size < 2 ^ 64 → add_u64 got m ≡ got + m
add_fits got m total size fits small = omega arith

rest_fits :
    (a : ActiveIn) (b : Bytes) (bs : List Bytes)
    → a.got + length (concat (b ∷ bs)) ≤ a.size
    → a.size < 2 ^ 64
    → (take_chunk b a).got + length (concat bs) ≤ a.size
unfolding take_chunk
rest_fits a b bs fits small = omega (arith, length-append b (concat bs), fits, small)

first_fits :
    (a : ActiveIn) (b : Bytes) (bs : List Bytes)
    → a.got + length (concat (b ∷ bs)) ≤ a.size
    → a.size < 2 ^ 64
    → add_u64 a.got (length b) ≤ a.size
first_fits a b bs fits small = omega (arith, length-append b (concat bs), fits, small)

-- The time of the next progress does not matter to what is taken.
take_all_emit :
    (bs : List Bytes) (a : ActiveIn) (due : ℕ)
    → take_all bs (record a { next_emit = due }) ≡ record (take_all bs a) { next_emit = due }
unfolding take_all take_chunk
take_all_emit [] a due = refl
take_all_emit (b ∷ bs) a due = take_all_emit bs (take_chunk b a) due

-- All of a file's chunks in order are taken.
receive_all-take_all :
    (env : Env) (peer : Peer) (id : Bytes) (bs : List Bytes) (a : ActiveIn) (n : Node)
    → Writable env a.path
    → key_eq a.peer_id peer.info.id ≡ true
    → lookup id n.transfers.active ≡ some a
    → a.got + length (concat bs) ≤ a.size
    → a.size < 2 ^ 64
    → (due : ℕ) × (lookup id (receive_all env peer id a.next_seq bs n).transfers.active
        ≡ some (record (take_all bs a) { next_emit = due }))
unfolding receive_all take_all take_chunk
receive_all-take_all env peer id [] a n w mine found fits small = (a.next_emit, found)
receive_all-take_all env peer id (b ∷ bs) a n w mine found fits small =
    let step = handle_chunk_next env peer id b a n w mine found (first_fits a b bs fits small) in
    let rest =
      receive_all-take_all env peer id bs (record (take_chunk b a) { next_emit = step.0 })
        (handle_chunk env peer id a.next_seq b n) w mine step.1 (rest_fits a b bs fits small)
        small in
    (
      rest.0,
      rest.1
          ∙ ap (λ (x : ActiveIn). some (record x { next_emit = rest.0 }))
              (take_all_emit bs (take_chunk b a) step.0),
    )

-- What a download is after its chunks.
take_all_fields :
    (bs : List Bytes) (a : ActiveIn)
    → a.got + length (concat bs) < 2 ^ 64
    → ((take_all bs a).written ≡ a.written ++ concat bs)
      × ((take_all bs a).hashed ≡ a.hashed ++ concat bs)
      × ((take_all bs a).got ≡ a.got + length (concat bs))
unfolding take_all take_chunk
take_all_fields [] a small = (sym (append-nil a.written), sym (append-nil a.hashed), omega arith)
take_all_fields (b ∷ bs) a small =
    let rest =
      take_all_fields bs (take_chunk b a) (omega (arith, length-append b (concat bs), small)) in
    (
      rest.0 ∙ append_assoc a.written b (concat bs),
      rest.1 ∙ append_assoc a.hashed b (concat bs),
      omega (arith, rest.2, length-append b (concat bs), small),
    )

take_all_same :
    (bs : List Bytes) (a : ActiveIn)
    → ((take_all bs a).path ≡ a.path)
      × ((take_all bs a).name ≡ a.name)
      × ((take_all bs a).size ≡ a.size)
      × ((take_all bs a).expect_sha ≡ a.expect_sha)
unfolding take_all take_chunk
take_all_same [] a = (refl, refl, refl, refl)
take_all_same (b ∷ bs) a = take_all_same bs (take_chunk b a)

-- A download that starts, of an offer from a peer.
abbrev pub IsFresh : ActiveIn → Type 0
IsFresh a = (a.written ≡ []) × (a.hashed ≡ []) × (a.got ≡ 0) × (a.next_seq ≡ 0)

-- Whether a download of `size` bytes with the digest `expect_sha` is whole, when `got` bytes were
-- counted and `fed` was hashed, and what is told of it.
abbrev pub whole : Env → ActiveIn → ℕ → Bytes → Bool
whole env a got fed = got == a.size && key_eq (hex (env.sha256 fed)) a.expect_sha

abbrev pub whole_detail : Env → ActiveIn → ℕ → Bytes → Text
whole_detail env a got fed =
    if whole env a got fed
    then cat (text "saved to " ∷ a.path ∷ [])
    else if not (got == a.size)
    then cat
        (text "incomplete: got " ∷ env.human_size got ∷ text " of " ∷ env.human_size a.size ∷ [])
    else text "the checksum did not match - the file may be corrupt"

-- The last two effects of a download: its file is closed, and its end is told.
abbrev pub finish : Env → Text → ActiveIn → ℕ → Bytes → Bytes → List Effect
finish env transfer a got fed content =
    saves a.path content
    ∷ tells (file_finished transfer a.name true (whole env a got fed) (whole_detail env a got fed))
    ∷ []

complete_found :
    (env : Env) (id : Bytes) (transfer : Text) (a : ActiveIn) (n : Node)
    → lookup id n.transfers.active ≡ some a
    → (complete_incoming env id transfer n).out
      ≡ n.out ++ finish env transfer a a.got a.hashed a.written
unfolding complete_incoming complete_active record_received is_complete completion_detail
complete_found env id transfer a n found = elim (Bool-cases (whole env a a.got a.hashed)) [
  | inl c ↦ rw (found, c, append_assoc)
  | inr c ↦ rw (found, c, append_assoc)
]

zero_plus : (m : ℕ) → 0 + m ≡ m
zero_plus m = omega arith

take_all-finish :
    (env : Env) (transfer : Text) (bs : List Bytes) (a : ActiveIn) (due : ℕ)
    → IsFresh a
    → length (concat bs) < 2 ^ 64
    → (let b = record (take_all bs a) { next_emit = due } in
        finish env transfer b b.got b.hashed b.written)
      ≡ finish env transfer a (length (concat bs)) (concat bs) (concat bs)
take_all-finish env transfer bs a due (w, h, g, s) small =
    let fields = take_all_fields bs a (omega (arith, g, small)) in
    let same = take_all_same bs a in
    rw (fields.0, fields.1, fields.2, same.0, same.1, same.2, same.3, w, h, g, zero_plus)

-- Chunks of a download that arrive in order and within the offer, on a disk that takes them, then
-- the message that ends it: the file has exactly their bytes, and its end is told a success just if
-- they are as many as offered and have the offered digest.
pub receive_all-finish :
    (env : Env) (peer : Peer) (id : Bytes) (transfer : Text) (bs : List Bytes) (a : ActiveIn)
    (n : Node)
    → Writable env a.path
    → a.peer_id ≡ peer.info.id
    → lookup id n.transfers.active ≡ some a
    → IsFresh a
    → length (concat bs) ≤ a.size
    → a.size < 2 ^ 64
    → (before : List Effect) × ((complete_incoming env id transfer
          (receive_all env peer id 0 bs n)).out
        ≡ before ++ finish env transfer a (length (concat bs)) (concat bs) (concat bs))
receive_all-finish env peer id transfer bs a n w mine found fresh fits small =
    let taken = received 0 (sym fresh.3) in
    (
      (receive_all env peer id 0 bs n).out,
      complete_found env id transfer (record (take_all bs a) { next_emit = taken.0 })
            (receive_all env peer id 0 bs n) taken.1
          ∙ ap (λ (es : List Effect). (receive_all env peer id 0 bs n).out ++ es)
              (take_all-finish env transfer bs a taken.0 fresh (omega (arith, fits, small))),
    )
  where
    received :
        (seq : ℕ)
        → seq ≡ a.next_seq
        → (due : ℕ) × (lookup id (receive_all env peer id seq bs n).transfers.active
            ≡ some (record (take_all bs a) { next_emit = due }))
    received seq e =
        subst
          (λ (q : ℕ).
            (due : ℕ) × (lookup id (receive_all env peer id q bs n).transfers.active
              ≡ some (record (take_all bs a) { next_emit = due })))
          (sym e)
          (receive_all-take_all env peer id bs a n w (rw mine (key_eq_refl peer.info.id)) found
            (omega (arith, fresh.2, fits)) small)
