-- ===== src/Crypto/Agreement.antt =====
-- core/src/crypto.rs: the two sides of a handshake that both completed.
use mesh_chat.Prelude.{◌≡◌, sym, ap, ◌∙◌, subst, Bytes, Option, some, ◌++◌, append_assoc}
use mesh_chat.Error.{ok}
use mesh_chat.Codec.{Outcome, done, read_frame, write_frame}
use mesh_chat.Codec.Stream.{InStream, OutStream}
use mesh_chat.Codec.Reading.{content}
use mesh_chat.Codec.Frames.{write_frame-sent, read_frame-write_frame, wire}
use mesh_chat.Crypto.{
  Noise, Identity, SecureLink, lift_crypto, lift_pattern, lift_read, lift_write, key_or, finish,
  handshake_initiator, handshake_responder,
}
use mesh_chat.Crypto.Link.{>>=-succeeds, lift_crypto-ok, lift_read-ok, lift_write-ok, some_ok_inj}

done_inj : {A : Type 0} (x y : Outcome A) (a b : A) → x ≡ done a → x ≡ done b → a ≡ b
done_inj x y a b e f = cc

module _ {Handshake Cipher : Type 0} (noise : Noise Handshake Cipher) where
  -- The three messages of the pattern XX, exchanged as they are, give two ciphers of which each
  -- follows the other, and each end the other's public key.
  pub record Agrees (Follows : Cipher → Cipher → Type 0) (public : Bytes → Bytes) : Type 0 where
    pub agree :
        (a b m1 m2 m3 : Bytes) (i ia ib ic r ra rb rc : Handshake) (c d : Cipher)
        → noise.initiator a ≡ ok i
        → noise.responder b ≡ ok r
        → noise.write_message i ≡ ok (m1, ia)
        → noise.read_message m1 r ≡ ok ra
        → noise.write_message ra ≡ ok (m2, rb)
        → noise.read_message m2 ia ≡ ok ib
        → noise.write_message ib ≡ ok (m3, ic)
        → noise.read_message m3 rb ≡ ok rc
        → noise.into_transport ic ≡ ok c
        → noise.into_transport rc ≡ ok d
        → Follows c d
          × Follows d c
          × (noise.remote_static ic ≡ some (public b))
          × (noise.remote_static rc ≡ some (public a))

  record Finished (hs : Handshake) (link : SecureLink Cipher) : Type 0 where
    pub transport : noise.into_transport hs ≡ ok link.cipher
    pub remote : link.remote_static ≡ key_or (noise.remote_static hs)

  finish-Finished :
      (hs : Handshake) (link : SecureLink Cipher)
      → finish noise hs ≡ some (ok link)
      → Finished hs link
  finish-Finished hs link e =
      let (c, x, f) = >>=-succeeds (lift_crypto (noise.into_transport hs)) _ e in
      let same =
        some_ok_inj (record { cipher = c; remote_static = key_or (noise.remote_static hs) }) link
          f in
      record {
        transport =
            lift_crypto-ok (noise.into_transport hs) x
            ∙ ap (λ (l : SecureLink Cipher). ok l.cipher) same;
        remote = ap (λ (l : SecureLink Cipher). l.remote_static) (sym same);
      }

  -- The steps of the dialling side.
  record Dialled (me : Identity) (s s' : InStream) (o o' : OutStream) (link : SecureLink Cipher)
      : Type 0 where
    pub i : Handshake
    pub ia : Handshake
    pub ib : Handshake
    pub ic : Handshake
    pub m1 : Bytes
    pub m2 : Bytes
    pub m3 : Bytes
    pub o1 : OutStream
    pub starts : noise.initiator me.private ≡ ok i
    pub writes1 : noise.write_message i ≡ ok (m1, ia)
    pub sends1 : write_frame m1 o ≡ (done tt, o1)
    pub reads2 : read_frame s ≡ done (m2, s')
    pub takes2 : noise.read_message m2 ia ≡ ok ib
    pub writes3 : noise.write_message ib ≡ ok (m3, ic)
    pub sends3 : write_frame m3 o1 ≡ (done tt, o')
    pub finished : Finished ic link

  handshake_initiator-Dialled :
      (me : Identity) (s s' : InStream) (o o' : OutStream) (link : SecureLink Cipher)
      → handshake_initiator noise me s o ≡ some (ok (link, s', o'))
      → Dialled me s s' o o' link
  unfolding handshake_initiator
  handshake_initiator-Dialled me s s' o o' link e =
      let (u, _, e1) = >>=-succeeds (lift_pattern noise.pattern) _ e in
      let (i, x1, e2) = >>=-succeeds (lift_crypto (noise.initiator me.private)) _ e1 in
      let ((m1, ia), x2, e3) = >>=-succeeds (lift_crypto (noise.write_message i)) _ e2 in
      let (o1, x3, e4) = >>=-succeeds (lift_write (write_frame m1 o)) _ e3 in
      let ((m2, s1), x4, e5) = >>=-succeeds (lift_read (read_frame s)) _ e4 in
      let (ib, x5, e6) = >>=-succeeds (lift_crypto (noise.read_message m2 ia)) _ e5 in
      let ((m3, ic), x6, e7) = >>=-succeeds (lift_crypto (noise.write_message ib)) _ e6 in
      let (o2, x7, e8) = >>=-succeeds (lift_write (write_frame m3 o1)) _ e7 in
      let (l, x8, e9) = >>=-succeeds (finish noise ic) _ e8 in
      let same = some_ok_inj (l, s1, o2) (link, s', o') e9 in
      record {
        i = i;
        ia = ia;
        ib = ib;
        ic = ic;
        m1 = m1;
        m2 = m2;
        m3 = m3;
        o1 = o1;
        starts = lift_crypto-ok (noise.initiator me.private) x1;
        writes1 = lift_crypto-ok (noise.write_message i) x2;
        sends1 = lift_write-ok (write_frame m1 o) x3;
        reads2 =
            lift_read-ok (read_frame s) x4
            ∙ ap (λ (z : SecureLink Cipher × InStream × OutStream). done (m2, z.1)) same;
        takes2 = lift_crypto-ok (noise.read_message m2 ia) x5;
        writes3 = lift_crypto-ok (noise.write_message ib) x6;
        sends3 =
            lift_write-ok (write_frame m3 o1) x7
            ∙ ap (λ (z : SecureLink Cipher × InStream × OutStream). (done tt, z.2)) same;
        finished =
            subst (λ (z : SecureLink Cipher × InStream × OutStream). Finished ic z.0) same
              (finish-Finished ic l x8);
      }

  -- The steps of the listening side.
  record Answered (me : Identity) (s s' : InStream) (o o' : OutStream) (link : SecureLink Cipher)
      : Type 0 where
    pub r : Handshake
    pub ra : Handshake
    pub rb : Handshake
    pub rc : Handshake
    pub m1 : Bytes
    pub m2 : Bytes
    pub m3 : Bytes
    pub s1 : InStream
    pub starts : noise.responder me.private ≡ ok r
    pub reads1 : read_frame s ≡ done (m1, s1)
    pub takes1 : noise.read_message m1 r ≡ ok ra
    pub writes2 : noise.write_message ra ≡ ok (m2, rb)
    pub sends2 : write_frame m2 o ≡ (done tt, o')
    pub reads3 : read_frame s1 ≡ done (m3, s')
    pub takes3 : noise.read_message m3 rb ≡ ok rc
    pub finished : Finished rc link

  handshake_responder-Answered :
      (me : Identity) (s s' : InStream) (o o' : OutStream) (link : SecureLink Cipher)
      → handshake_responder noise me s o ≡ some (ok (link, s', o'))
      → Answered me s s' o o' link
  unfolding handshake_responder
  handshake_responder-Answered me s s' o o' link e =
      let (u, _, e1) = >>=-succeeds (lift_pattern noise.pattern) _ e in
      let (r, x1, e2) = >>=-succeeds (lift_crypto (noise.responder me.private)) _ e1 in
      let ((m1, s1), x2, e3) = >>=-succeeds (lift_read (read_frame s)) _ e2 in
      let (ra, x3, e4) = >>=-succeeds (lift_crypto (noise.read_message m1 r)) _ e3 in
      let ((m2, rb), x4, e5) = >>=-succeeds (lift_crypto (noise.write_message ra)) _ e4 in
      let (o1, x5, e6) = >>=-succeeds (lift_write (write_frame m2 o)) _ e5 in
      let ((m3, s2), x6, e7) = >>=-succeeds (lift_read (read_frame s1)) _ e6 in
      let (rc, x7, e8) = >>=-succeeds (lift_crypto (noise.read_message m3 rb)) _ e7 in
      let (l, x8, e9) = >>=-succeeds (finish noise rc) _ e8 in
      let same = some_ok_inj (l, s2, o1) (link, s', o') e9 in
      record {
        r = r;
        ra = ra;
        rb = rb;
        rc = rc;
        m1 = m1;
        m2 = m2;
        m3 = m3;
        s1 = s1;
        starts = lift_crypto-ok (noise.responder me.private) x1;
        reads1 = lift_read-ok (read_frame s) x2;
        takes1 = lift_crypto-ok (noise.read_message m1 r) x3;
        writes2 = lift_crypto-ok (noise.write_message ra) x4;
        sends2 =
            lift_write-ok (write_frame m2 o) x5
            ∙ ap (λ (z : SecureLink Cipher × InStream × OutStream). (done tt, z.2)) same;
        reads3 =
            lift_read-ok (read_frame s1) x6
            ∙ ap (λ (z : SecureLink Cipher × InStream × OutStream). done (m3, z.1)) same;
        takes3 = lift_crypto-ok (noise.read_message m3 rb) x7;
        finished =
            subst (λ (z : SecureLink Cipher × InStream × OutStream). Finished rc z.0) same
              (finish-Finished rc l x8);
      }

  -- A frame that was sent, met at the other end.
  met :
      (m n rest : Bytes) (o o' : OutStream) (s s' : InStream)
      → write_frame m o ≡ (done tt, o')
      → read_frame s ≡ done (n, s')
      → o.sent ++ content s ≡ o'.sent ++ rest
      → (n ≡ m) × (content s' ≡ rest)
  met m n rest o o' s s' w r e =
      let (t, f, c) = read_frame-write_frame m rest o o' s w e in
      let same = done_inj (read_frame s) (read_frame s) (n, s') (m, t) r f in
      (ap (λ (z : Bytes × InStream). z.0) same, ap (λ (z : Bytes × InStream). content z.1) same ∙ c)

  module _ (Follows : Cipher → Cipher → Type 0) (public : Bytes → Bytes)
      (law : Agrees Follows public) where
    -- When both sides of a handshake completed, and each read what the other sent and left a rest,
    -- their ciphers are paired in both directions, each link holds the public key of the other side,
    -- and the rests are left to read.
    pub handshake_initiator-handshake_responder :
        (a b : Identity) (sa sa' sb sb' : InStream) (oa oa' ob ob' : OutStream)
        (la lb : SecureLink Cipher) (rest_a rest_b : Bytes)
        → handshake_initiator noise a sa oa ≡ some (ok (la, sa', oa'))
        → handshake_responder noise b sb ob ≡ some (ok (lb, sb', ob'))
        → oa.sent ++ content sb ≡ oa'.sent ++ rest_b
        → ob.sent ++ content sa ≡ ob'.sent ++ rest_a
        → Follows la.cipher lb.cipher
          × Follows lb.cipher la.cipher
          × (la.remote_static ≡ public b.private)
          × (lb.remote_static ≡ public a.private)
          × (content sa' ≡ rest_a)
          × (content sb' ≡ rest_b)
    handshake_initiator-handshake_responder a b sa sa' sb sb' oa oa' ob ob' la lb rest_a rest_b e f
          wb wa =
        let d = handshake_initiator-Dialled a sa sa' oa oa' la e in
        let n = handshake_responder-Answered b sb sb' ob ob' lb f in
        let third = (write_frame-sent d.m3 d.o1 oa' d.sends3).1 in
        let (p1, c1) = met d.m1 n.m1 (wire d.m3 ++ rest_b) oa d.o1 sb n.s1 d.sends1 n.reads1 (
          wb ∙ ap (λ (z : Bytes). z ++ rest_b) third ∙ append_assoc d.o1.sent (wire d.m3) rest_b) in
        let (p2, c2) = met n.m2 d.m2 rest_a ob ob' sa sa' n.sends2 d.reads2 wa in
        let (p3, c3) = met d.m3 n.m3 rest_b d.o1 oa' n.s1 sb' d.sends3 n.reads3 (
          ap (λ (z : Bytes). d.o1.sent ++ z) c1
          ∙ sym (append_assoc d.o1.sent (wire d.m3) rest_b)
          ∙ ap (λ (z : Bytes). z ++ rest_b) (sym third)) in
        let (x, y, ka, kb) =
          law.agree a.private b.private d.m1 n.m2 d.m3 d.i d.ia d.ib d.ic n.r n.ra n.rb n.rc
            la.cipher lb.cipher d.starts n.starts d.writes1
            (subst (λ (z : Bytes). noise.read_message z n.r ≡ ok n.ra) p1 n.takes1) n.writes2
            (subst (λ (z : Bytes). noise.read_message z d.ia ≡ ok d.ib) p2 d.takes2) d.writes3
            (subst (λ (z : Bytes). noise.read_message z n.rb ≡ ok n.rc) p3 n.takes3)
            d.finished.transport n.finished.transport in
        (
          x,
          y,
          d.finished.remote ∙ ap (λ (z : Option Bytes). key_or z) ka,
          n.finished.remote ∙ ap (λ (z : Option Bytes). key_or z) kb,
          c2,
          c3,
        )
