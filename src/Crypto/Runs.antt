-- ===== src/Crypto/Runs.antt =====
-- Runs of the link with a toy cipher, which writes a counter before each payload, and a toy
-- handshake, in which each side sends its key as it is.
use mesh_chat.Prelude.{
  ℕ, suc, ◌≡◌, refl, sym, ap, ◌∙◌, subst, Bytes, text, some, List, [], ◌∷◌, ◌++◌, length, ◌==◌,
  if◌then◌else◌, arith,
}
use mesh_chat.Error.{Result, ok, err}
use mesh_chat.Text.Hex.{upper_byte, upper_digit}
use mesh_chat.Codec.{write_frame, read_frame, to_be_bytes, read_exact, from_be_bytes}
use mesh_chat.Codec.Stream.{InStream, OutStream, arrives, accepts}
use mesh_chat.Codec.Reading.{content}
use mesh_chat.Crypto.{
  Noise, Identity, SecureLink, handshake_initiator, handshake_responder, send, send_all, recv_all,
  fingerprint,
}
use mesh_chat.Crypto.Link.{Paired, recv_all-send_all}
use mesh_chat.Crypto.Agreement.{Agrees, handshake_initiator-handshake_responder}

abbrev Toy : Type 0
Toy = Bytes × Bytes

abbrev unseal : Bytes → ℕ → Result Bytes (Bytes × ℕ)
unseal [] c = err (text "empty")
unseal (x ∷ p) c = if x == c then ok (p, suc c) else err (text "out of order")

abbrev toy : Noise Toy ℕ
toy = record {
  pattern = ok tt;
  generate_keypair = ok (1 ∷ [], 1 ∷ []);
  initiator = λ key. ok (key, []);
  responder = λ key. ok (key, []);
  write_message = λ h. ok (h.0, h);
  read_message = λ m h. ok (h.0, m);
  remote_static = λ h. some h.1;
  into_transport = λ h. ok 0;
  encrypt = λ p c. ok (c ∷ p, suc c);
  decrypt = unseal;
}

abbrev ok_or_nothing : Result Bytes (Bytes × ℕ) → Bytes × ℕ
ok_or_nothing (ok x) = x
ok_or_nothing (err e) = ([], 0)

abbrev SameCounter : ℕ → ℕ → Type 0
SameCounter c d = c ≡ d

unseal_lem : (p : Bytes) (c d : ℕ) → c ≡ d → unseal (c ∷ p) d ≡ ok (p, suc d)
unseal_lem p c d e = ground arith

toy-Paired : Paired toy SameCounter
toy-Paired = record {
  decrypt-encrypt = λ p ct s s' r h e.
      let same = ap ok_or_nothing e in
      (
        suc r,
        subst (λ (z : Bytes × ℕ). unseal z.0 r ≡ ok (p, suc r)) same (unseal_lem p s r h),
        sym (ap (λ (z : Bytes × ℕ). z.1) same) ∙ ap (λ n. suc n) h,
      );
}

toy-Agrees : Agrees toy SameCounter (λ key. key)
toy-Agrees = record {
  agree = λ a b m1 m2 m3 i ia ib ic r ra rb rc c d e0 e1 e2 e3 e4 e5 e6 e7 e8 e9. (cc, cc, cc, cc);
}

abbrev ann : Identity
ann = record { private = 1 ∷ []; public = 1 ∷ [] }

abbrev ben : Identity
ben = record { private = 2 ∷ 2 ∷ []; public = 2 ∷ 2 ∷ [] }

abbrev payloads : List Bytes
payloads = (10 ∷ []) ∷ (11 ∷ 12 ∷ []) ∷ []

abbrev link : SecureLink ℕ
link = record { cipher = 0; remote_static = [] }

abbrev link_after : SecureLink ℕ
link_after = record { cipher = 2; remote_static = [] }

abbrev roomy : OutStream
roomy = record { rooms = accepts 3 ∷ accepts 100 ∷ accepts 100 ∷ []; sent = [] }

abbrev on_the_wire : Bytes
on_the_wire = 0 ∷ 0 ∷ 0 ∷ 2 ∷ 0 ∷ 10 ∷ 0 ∷ 0 ∷ 0 ∷ 3 ∷ 1 ∷ 11 ∷ 12 ∷ []

abbrev sent_all : OutStream
sent_all = record { rooms = []; sent = on_the_wire }

abbrev in_pieces : InStream
in_pieces =
    arrives (0 ∷ 0 ∷ [])
    ∷ arrives (0 ∷ 2 ∷ 0 ∷ 10 ∷ 0 ∷ [])
    ∷ arrives (0 ∷ 0 ∷ 3 ∷ 1 ∷ 11 ∷ 12 ∷ 9 ∷ [])
    ∷ []

send_all_lem : send_all toy payloads link roomy ≡ (some (ok tt), link_after, sent_all)
unfolding send_all send write_frame to_be_bytes
send_all_lem = refl

pieces_lem : roomy.sent ++ content in_pieces ≡ sent_all.sent ++ 9 ∷ []
unfolding content
pieces_lem = refl

recv_all-send_all_example :
    (r' : SecureLink ℕ) × (s' : InStream) × (recv_all toy (length payloads) link in_pieces
      ≡ some (ok (payloads, (r', s'))))
    × (content s' ≡ 9 ∷ [])
    × SameCounter link_after.cipher r'.cipher
recv_all-send_all_example =
    recv_all-send_all toy SameCounter toy-Paired payloads (9 ∷ []) link link_after link roomy
      sent_all in_pieces send_all_lem refl pieces_lem

abbrev roomier : OutStream
roomier = record { rooms = accepts 100 ∷ accepts 100 ∷ []; sent = [] }

abbrev ann_sent : OutStream
ann_sent = record { rooms = []; sent = 0 ∷ 0 ∷ 0 ∷ 1 ∷ 1 ∷ 0 ∷ 0 ∷ 0 ∷ 1 ∷ 1 ∷ [] }

abbrev ben_sent : OutStream
ben_sent = record { rooms = accepts 100 ∷ []; sent = 0 ∷ 0 ∷ 0 ∷ 2 ∷ 2 ∷ 2 ∷ [] }

abbrev to_ann : InStream
to_ann = arrives (0 ∷ 0 ∷ 0 ∷ []) ∷ arrives (2 ∷ 2 ∷ 2 ∷ []) ∷ []

abbrev to_ben : InStream
to_ben = arrives (0 ∷ 0 ∷ 0 ∷ 1 ∷ 1 ∷ 0 ∷ []) ∷ arrives (0 ∷ 0 ∷ 1 ∷ 1 ∷ []) ∷ []

abbrev ann_link : SecureLink ℕ
ann_link = record { cipher = 0; remote_static = 2 ∷ 2 ∷ [] }

abbrev ben_link : SecureLink ℕ
ben_link = record { cipher = 0; remote_static = 1 ∷ [] }

ann_lem : handshake_initiator toy ann to_ann roomier ≡ some (ok (ann_link, [], ann_sent))
unfolding handshake_initiator write_frame to_be_bytes read_frame read_exact from_be_bytes
ann_lem = refl

ben_lem : handshake_responder toy ben to_ben roomier ≡ some (ok (ben_link, [], ben_sent))
unfolding handshake_responder write_frame to_be_bytes read_frame read_exact from_be_bytes
ben_lem = refl

to_ben_lem : roomier.sent ++ content to_ben ≡ ann_sent.sent ++ []
unfolding content
to_ben_lem = refl

to_ann_lem : roomier.sent ++ content to_ann ≡ ben_sent.sent ++ []
unfolding content
to_ann_lem = refl

handshake_initiator-handshake_responder_example :
    SameCounter ann_link.cipher ben_link.cipher
    × SameCounter ben_link.cipher ann_link.cipher
    × (ann_link.remote_static ≡ ben.private)
    × (ben_link.remote_static ≡ ann.private)
    × (content [] ≡ [])
    × (content [] ≡ [])
handshake_initiator-handshake_responder_example =
    handshake_initiator-handshake_responder toy SameCounter (λ key. key) toy-Agrees ann ben to_ann
      [] to_ben [] roomier ann_sent roomier ben_sent ann_link ben_link [] [] ann_lem ben_lem
      to_ben_lem to_ann_lem

fingerprint_lem :
    fingerprint (λ bytes. bytes) (0 ∷ 1 ∷ 171 ∷ 16 ∷ 255 ∷ 5 ∷ 7 ∷ []) ≡ text "00:01:AB:10:FF:05"
unfolding fingerprint text upper_byte upper_digit
fingerprint_lem = refl
