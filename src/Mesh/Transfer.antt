-- ===== src/Mesh/Transfer.antt =====
-- core/src/files.rs and core/src/mesh.rs: a file from the sender's thread through the link and the
-- recipient's reader into the recipient's file.
mod Runs
use mesh_chat.Prelude.{
  ℕ, suc, ◌+◌, ◌≤◌, ◌<◌, ◌^◌, ◌≡◌, refl, sym, ap, ◌∙◌, subst, inl, inr, Text, Bytes, text, cat,
  List, [], ◌∷◌, ◌++◌, map, length, ltb, leb, ◌||◌, ◌==◌, ==_iff, All, Bool, true, false,
  if◌then◌else◌, if_true, if_false, Bool-cases, append_assoc, append-nil, length-append, IsByte,
  arith, Option, some,
}
use mesh_chat.Prelude.Assoc.{lookup}
use mesh_chat.Error.{Error, Result, ok, err}
use mesh_chat.Codec.{to_be_bytes}
use mesh_chat.Protocol.{
  Control, Frame, file_done, encode_chunk, encode_control, decode, hex, unhex16, Checked, returns,
  panics,
}
use mesh_chat.Protocol.Frames.{decode-encode_chunk, decode-encode_control}
use mesh_chat.Protocol.Ids.{unhex16-hex}
use mesh_chat.Node.{
  Node, Env, Peer, Link, Effect, sends, tells, say, emit, link_send, send, max_plaintext,
}
use mesh_chat.Node.Events.{Event, file_progress, file_finished}
use mesh_chat.Node.TransferState.{ActiveIn}
use mesh_chat.Node.Payloads.{payloads, payloads-append, payloads_quiet, Encodes, send-payloads}
use mesh_chat.Files.{
  progress_interval, add_u64, next_u32, complete_incoming, handle_chunk, handle_file_control,
  with_id,
}
use mesh_chat.Files.Outgoing.{finish_out}
use mesh_chat.Files.Streaming.{
  Turn, Sending, send_done, report, stream_chunk, stream_read, stream_loop,
}
use mesh_chat.Files.Receiving.{concat, receive_all, Writable, IsFresh, finish, receive_all-finish}
use mesh_chat.Mesh.{handle_control, handle_frame, reader_step, go_on}

-- The payloads that a link was handed, in order.
abbrev of_link : Link → List (Link × Bytes) → List Bytes
of_link l [] = []
of_link l ((k, p) ∷ ps) = if k == l then p ∷ of_link l ps else of_link l ps

abbrev pub to_link : Link → List Effect → List Bytes
to_link l es = of_link l (payloads es)

of_link-append :
    (l : Link) (ps qs : List (Link × Bytes)) → of_link l (ps ++ qs) ≡ of_link l ps ++ of_link l qs
of_link-append l [] qs = refl
of_link-append l ((k, p) ∷ ps) qs = ground (arith, of_link-append l ps qs)

to_link-sends :
    (l : Link) (p : Bytes) (n : Node)
    → to_link l (say (sends l p) n).out ≡ to_link l n.out ++ p ∷ []
to_link-sends l p n =
    ap (λ (ps : List (Link × Bytes)). of_link l ps) (payloads-append n.out (sends l p ∷ []))
    ∙ of_link-append l (payloads n.out) ((l, p) ∷ [])
    ∙ ap (λ (ps : List Bytes). to_link l n.out ++ ps)
        (if_true (l == l) (p ∷ []) [] (ground (arith, ==_iff l l)))

-- A piece of the file as it is read, and what other threads do before the read.
pub record Piece : Type 0 where
  pub meanwhile : Node → Node
  pub first : ℕ
  pub rest : Bytes

abbrev pub bytes_of : Piece → Bytes
bytes_of p = p.first ∷ p.rest

abbrev pub turn_of : Piece → Turn
turn_of p = record { meanwhile = p.meanwhile; read = ok (p.first ∷ p.rest) }

-- Other threads stay in the room and hand nothing to the link of the transfer.
abbrev pub StaysAside : Link → (Node → Node) → Type 0
StaysAside l f =
    (n : Node) → n.running ≡ true → ((f n).running ≡ true) × (to_link l (f n).out ≡ to_link l n.out)

abbrev pub IsPiece : Link → Piece → Type 0
IsPiece l p = StaysAside l p.meanwhile × (21 + length (bytes_of p) ≤ max_plaintext)

-- The link takes whatever it is handed.
abbrev pub Carries : Env → Link → Type 0
Carries env l = (log : List Effect) (bytes : Bytes) → env.deliver log l bytes ≡ ok tt

abbrev pub chunks : Bytes → ℕ → List Bytes → List Bytes
chunks id seq [] = []
chunks id seq (b ∷ bs) = encode_chunk id seq b ∷ chunks id (next_u32 seq) bs

length-encode_chunk :
    (id : Bytes) (seq : ℕ) (bytes : Bytes)
    → length id ≡ 16
    → length (encode_chunk id seq bytes) ≡ 21 + length bytes
unfolding encode_chunk to_be_bytes
length-encode_chunk id seq bytes h = omega (arith, length-append id (to_be_bytes seq ++ bytes), h)

-- A progress that is told hands nothing to a link.
report_aside :
    (s : Sending) (sent due : ℕ) (n : Node)
    → ((report s sent due n).1.running ≡ n.running)
      × (to_link s.peer.link (report s sent due n).1.out ≡ to_link s.peer.link n.out)
unfolding report
report_aside s sent due n = go (leb due n.clock || sent == s.size)
  where
    progress : Event
    progress = file_progress (hex s.id) s.name s.peer.info.name sent s.size false

    go :
        (b : Bool)
        → let r : ℕ × Node =
            if b then (n.clock + progress_interval, emit progress n) else (due, n) in
          (r.1.running ≡ n.running) × (to_link s.peer.link r.1.out ≡ to_link s.peer.link n.out)
    go true = (refl, ap (λ ps. of_link s.peer.link ps) (payloads_quiet (tells progress) n refl))
    go false = (refl, refl)

module _ (env : Env) (s : Sending) (done : Bytes) (carries : Carries env s.peer.link)
    (ends : Encodes env (file_done (hex s.id)) done) where
  send_done-to_link :
      (n : Node)
      → to_link s.peer.link (send_done env s n).out ≡ to_link s.peer.link n.out ++ done ∷ []
  unfolding send_done finish_out
  send_done-to_link n =
      ap (λ ps. of_link s.peer.link ps)
        (payloads_quiet
          (tells (
            file_finished (hex s.id) s.name false true
              (cat (text "sent to " ∷ s.peer.info.name ∷ []))))
          (send env s.peer.link (file_done (hex s.id)) n).1 refl)
      ∙ ap (λ (r : Result Error (Unit {0}) × Node). to_link s.peer.link r.1.out)
          (send-payloads env s.peer.link (file_done (hex s.id)) done n ends)
      ∙ to_link-sends s.peer.link done n

  link_send_fits :
      (payload : Bytes) (n : Node)
      → length payload ≤ max_plaintext
      → link_send env s.peer.link payload n ≡ (ok tt, say (sends s.peer.link payload) n)
  unfolding link_send
  link_send_fits payload n h =
      if_false (ltb max_plaintext (length payload)) _ _ (ground (arith, h))
      ∙ ap (λ r. (r, say (sends s.peer.link payload) n)) (carries n.out payload)

  -- The thread hands its link the chunks in order and then the end of the file.
  stream_loop-to_link :
      (ps : List Piece) (seq sent due : ℕ) (n : Node)
      → length s.id ≡ 16
      → All (IsPiece s.peer.link) ps
      → n.running ≡ true
      → to_link s.peer.link (stream_loop env s (map turn_of ps) seq sent due n).out
        ≡ to_link s.peer.link n.out ++ (chunks s.id seq (map bytes_of ps) ++ done ∷ [])
  unfolding stream_loop stream_read stream_chunk
  stream_loop-to_link [] seq sent due n id_ok h up =
      ap (λ (k : Node). to_link s.peer.link k.out) (if_true n.running (send_done env s n) n up)
      ∙ send_done-to_link n
  stream_loop-to_link (p ∷ ps) seq sent due n id_ok h up =
      let m : Node = p.meanwhile n in
      let aside = h.0.0 n up in
      let c : Bytes = encode_chunk s.id seq (bytes_of p) in
      let m' : Node = say (sends s.peer.link c) m in
      let next = stream_loop env s (map turn_of ps) in
      let total = add_u64 sent (length (bytes_of p)) in
      let told = report_aside s total due m' in
      ap (λ (k : Node). to_link s.peer.link k.out)
        (if_true m.running (stream_read env s seq sent due (ok (bytes_of p)) next m) m aside.0)
      ∙ ap
          (λ (r : Result Error (Unit {0}) × Node).
            to_link s.peer.link (stream_chunk env s seq sent due (bytes_of p) next r).out)
          (link_send_fits c m
            (omega (arith, length-encode_chunk s.id seq (bytes_of p) id_ok, h.0.1)))
      ∙ stream_loop-to_link ps (next_u32 seq) total (report s total due m').0
          (report s total due m').1 id_ok h.1 (told.0 ∙ aside.0)
      ∙ ap (λ (x : List Bytes). x ++ (chunks s.id (next_u32 seq) (map bytes_of ps) ++ done ∷ []))
          (told.1 ∙ to_link-sends s.peer.link c m ∙ ap (λ (x : List Bytes). x ++ c ∷ []) aside.1)
      ∙ append_assoc (to_link s.peer.link n.out) (c ∷ [])
          (chunks s.id (next_u32 seq) (map bytes_of ps) ++ done ∷ [])

-- The reader of the recipient on the payloads of the link.
abbrev read_on : (Node → Checked Node) → Checked (Bool × Node) → Checked Node
read_on next (returns (true, n)) = next n
read_on next (returns (false, n)) = returns n
read_on next panics = panics

unfoldable pub read_frames : Env → Peer → List Bytes → Node → Checked Node
read_frames env p [] n = returns n
read_frames env p (b ∷ bs) n = read_on (read_frames env p bs) (reader_step env p (ok b) n)

chunk_read :
    (env : Env) (p : Peer) (id : Bytes) (seq : ℕ) (b : Bytes) (n : Node)
    → length id ≡ 16
    → seq < 2 ^ 32
    → reader_step env p (ok (encode_chunk id seq b)) n
      ≡ returns (true, handle_chunk env p id seq b n)
unfolding reader_step handle_frame go_on
chunk_read env p id seq b n h small =
    ap (λ (f : Result Error Frame). go_on (handle_frame env p f n))
      (decode-encode_chunk env.json id seq b h small)

end_read :
    (env : Env) (p : Peer) (id done : Bytes) (n : Node)
    → length id ≡ 16
    → All IsByte id
    → encode_control env.json (file_done (hex id)) ≡ ok done
    → reader_step env p (ok done) n ≡ returns (true, complete_incoming env id (hex id) n)
unfolding reader_step handle_frame go_on handle_control handle_file_control with_id
end_read env p id done n h bytes e =
    ap (λ (f : Result Error Frame). go_on (handle_frame env p f n))
      (decode-encode_control env.json (file_done (hex id)) done e)
    ∙ ap
        (λ (i : Checked (Result Error Bytes)).
          go_on (with_id i (λ k m. complete_incoming env k (hex id) m) n))
        (unhex16-hex id bytes h)

read_frames-chunks :
    (env : Env) (p : Peer) (id done : Bytes) (bs : List Bytes) (seq : ℕ) (n : Node)
    → length id ≡ 16
    → All IsByte id
    → encode_control env.json (file_done (hex id)) ≡ ok done
    → seq < 2 ^ 32
    → read_frames env p (chunks id seq bs ++ done ∷ []) n
      ≡ returns (complete_incoming env id (hex id) (receive_all env p id seq bs n))
unfolding read_frames receive_all
read_frames-chunks env p id done [] seq n h bytes e small =
    ap (λ r. read_on (λ m. returns m) r) (end_read env p id done n h bytes e)
read_frames-chunks env p id done (b ∷ bs) seq n h bytes e small =
    ap (λ r. read_on (read_frames env p (chunks id (next_u32 seq) bs ++ done ∷ [])) r)
      (chunk_read env p id seq b n h small)
    ∙ read_frames-chunks env p id done bs (next_u32 seq) (handle_chunk env p id seq b n) h bytes e
        (omega arith)

-- A file that is sent is received. The sender's thread reads the file in pieces that fit a frame,
-- its link takes what it is handed, and other threads stay in the room and use other links. Then it
-- hands its link some payloads, and a recipient who accepted the file, whose disk takes what is
-- written and who reads these payloads, ends with a file of exactly the pieces, in order, and is
-- told a success just if they are as many bytes as were offered and have the offered digest, if
-- they are no more than that.
pub stream_loop-read_frames :
    (env env' : Env) (s : Sending) (ps : List Piece) (due : ℕ) (n : Node) (done : Bytes)
    (peer : Peer) (a : ActiveIn) (r : Node)
    → n.running ≡ true
    → Carries env s.peer.link
    → length s.id ≡ 16
    → All IsByte s.id
    → All (IsPiece s.peer.link) ps
    → Encodes env (file_done (hex s.id)) done
    → encode_control env'.json (file_done (hex s.id)) ≡ ok done
    → Writable env' a.path
    → a.peer_id ≡ peer.info.id
    → lookup s.id r.transfers.active ≡ some a
    → IsFresh a
    → length (concat (map bytes_of ps)) ≤ a.size
    → a.size < 2 ^ 64
    → (payloads : List Bytes) × (m : Node) × (before : List Effect) × (to_link s.peer.link
          (stream_loop env s (map turn_of ps) 0 0 due n).out
        ≡ to_link s.peer.link n.out ++ payloads)
      × (read_frames env' peer payloads r ≡ returns m)
      × (let file = concat (map bytes_of ps) in
          m.out ≡ before ++ finish env' (hex s.id) a (length file) file file)
stream_loop-read_frames env env' s ps due n done peer a r up carries id_ok bytes pieces ends ends'
      disk mine found fresh fits small =
    let received =
      receive_all-finish env' peer s.id (hex s.id) (map bytes_of ps) a r disk mine found fresh fits
        small in
    (
      chunks s.id 0 (map bytes_of ps) ++ done ∷ [],
      complete_incoming env' s.id (hex s.id) (receive_all env' peer s.id 0 (map bytes_of ps) r),
      received.0,
      stream_loop-to_link env s done carries ends ps 0 0 due n id_ok pieces up,
      read_frames-chunks env' peer s.id done (map bytes_of ps) 0 r id_ok bytes ends' (omega arith),
      received.1,
    )
