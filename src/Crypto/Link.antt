-- ===== src/Crypto/Link.antt =====
-- core/src/crypto.rs: what one end of a link sends, the other receives.
use mesh_chat.Prelude.{
  ℕ, ◌≡◌, refl, sym, ap, ◌∙◌, subst, inl, inr, Bytes, some, none, List, [], ◌∷◌, ◌++◌, length, ltb,
  Bool-cases, append_assoc, append-nil, append_cancel,
}
use mesh_chat.Error.{Result, ok, err}
use mesh_chat.Codec.{Outcome, done, failed, stuck, write_frame}
use mesh_chat.Codec.Stream.{InStream, OutStream}
use mesh_chat.Codec.Reading.{content}
use mesh_chat.Codec.Frames.{write_frame-sent, read_frame-write_frame, wire}
use mesh_chat.Node.{max_plaintext}
use mesh_chat.Crypto.{
  Noise, SecureLink, Attempt, ◌>>=◌, lift_crypto, lift_read, lift_write, send, send_sealed,
  send_written, send_next, Sending, recv, send_all, recv_all,
}

-- The steps of a chain that succeeded.
pub >>=-succeeds :
    {A B : Type 0} (x : Attempt A) (f : A → Attempt B) {b : B}
    → (x >>= f) ≡ some (ok b)
    → (a : A) × (x ≡ some (ok a)) × (f a ≡ some (ok b))
>>=-succeeds none f e = cc
>>=-succeeds (some (err x)) f e = cc
>>=-succeeds (some (ok a)) f e = (a, refl, e)

pub lift_crypto-ok :
    {A : Type 0} (r : Result (List ℕ) A) {a : A} → lift_crypto r ≡ some (ok a) → r ≡ ok a
lift_crypto-ok (ok x) e = cc
lift_crypto-ok (err x) e = cc

pub lift_read-ok : {A : Type 0} (r : Outcome A) {a : A} → lift_read r ≡ some (ok a) → r ≡ done a
lift_read-ok (done x) e = cc
lift_read-ok (failed x) e = cc
lift_read-ok stuck e = cc

-- A success, spelled out since a constructor alone does not name its types.
abbrev pub succeeded : {A : Type 0} → A → Attempt A
succeeded a = some (ok a)

pub some_ok_inj : {A : Type 0} (x y : A) → succeeded x ≡ succeeded y → x ≡ y
some_ok_inj x y e = cc

pub lift_write-ok :
    (r : Outcome (Unit {0}) × OutStream) {o : OutStream}
    → lift_write r ≡ some (ok o)
    → r ≡ (done tt, o)
lift_write-ok (done u, x) e = ap (λ (y : OutStream). (done tt, y)) (some_ok_inj x _ e)
lift_write-ok (failed x, o) e = cc
lift_write-ok (stuck, o) e = cc

module _ {Handshake Cipher : Type 0} (noise : Noise Handshake Cipher) where
  -- The cipher of a sender and that of its reader count the same messages.
  pub record Paired (Follows : Cipher → Cipher → Type 0) : Type 0 where
    pub decrypt-encrypt :
        (p ct : Bytes) (s s' r : Cipher)
        → Follows s r
        → noise.encrypt p s ≡ ok (ct, s')
        → (r' : Cipher) × (noise.decrypt ct r ≡ ok (p, r')) × Follows s' r'

  -- What a call of `send` that succeeded did.
  pub record Sent (p : Bytes) (l l' : SecureLink Cipher) (o o' : OutStream) : Type 0 where
    pub ct : Bytes
    pub sealed : noise.encrypt p l.cipher ≡ ok (ct, l'.cipher)
    pub framed : write_frame ct o ≡ (done tt, o')

  module _ (p : Bytes) (l l' : SecureLink Cipher) (o o' : OutStream) where
    written-Sent :
        (ct : Bytes) (c : Cipher) (w : Outcome (Unit {0}) × OutStream)
        → noise.encrypt p l.cipher ≡ ok (ct, c)
        → write_frame ct o ≡ w
        → send_written noise (record l { cipher = c }) w ≡ (some (ok tt), l', o')
        → Sent p l l' o o'
    written-Sent ct c (done u, x) q f e = record {
      ct = ct;
      sealed = q ∙ ap (λ (z : Sending noise). ok (ct, z.1.cipher)) e;
      framed = f ∙ ap (λ (z : Sending noise). (done tt, z.2)) e;
    }
    written-Sent ct c (failed x, y) q f e = cc e
    written-Sent ct c (stuck, y) q f e = cc e

    sealed-Sent :
        (r : Result (List ℕ) (Bytes × Cipher))
        → noise.encrypt p l.cipher ≡ r
        → send_sealed noise r l o ≡ (some (ok tt), l', o')
        → Sent p l l' o o'
    sealed-Sent (err x) q e = cc e
    sealed-Sent (ok (ct, c)) q e = written-Sent ct c (write_frame ct o) q refl e

    pub send-Sent : send noise p l o ≡ (some (ok tt), l', o') → Sent p l l' o o'
    unfolding send
    send-Sent e = elim (Bool-cases (ltb max_plaintext (length p))) [
      | inl large ↦ absurd (cc (rw large at e))
      | inr fits ↦ sealed-Sent (noise.encrypt p l.cipher) refl (rw fits at e)
    ]

  -- The first call of a chain that succeeded, and the rest.
  send_next-succeeds :
      (next : SecureLink Cipher → OutStream → Sending noise) (r : Sending noise)
      (l' : SecureLink Cipher) (o' : OutStream)
      → send_next noise next r ≡ (some (ok tt), l', o')
      → (l : SecureLink Cipher) × (o : OutStream) × (r ≡ (some (ok tt), l, o))
        × (next l o ≡ (some (ok tt), l', o'))
  send_next-succeeds next (some (ok u), l, o) l' o' e = (l, o, refl, e)
  send_next-succeeds next (some (err x), l, o) l' o' e = cc e
  send_next-succeeds next (none, l, o) l' o' e = cc e

  send_all-sent :
      (ps : List Bytes) (l l' : SecureLink Cipher) (o o' : OutStream)
      → send_all noise ps l o ≡ (some (ok tt), l', o')
      → (more : Bytes) × (o'.sent ≡ o.sent ++ more)
  unfolding send_all
  send_all-sent [] l l' o o' e =
      ([], ap (λ (z : Sending noise). z.2.sent) (sym e) ∙ sym (append-nil o.sent))
  send_all-sent (p ∷ ps) l l' o o' e =
      let (l1, o1, x, f) = send_next-succeeds (send_all noise ps) (send noise p l o) l' o' e in
      let s = send-Sent p l l1 o o1 x in
      let (more, g) = send_all-sent ps l1 l' o1 o' f in
      (
        wire s.ct ++ more,
        g
            ∙ ap (λ (z : Bytes). z ++ more) (write_frame-sent s.ct o o1 s.framed).1
            ∙ append_assoc o.sent (wire s.ct) more,
      )

  module _ (Follows : Cipher → Cipher → Type 0) (laws : Paired Follows) where
    recv-send :
        (p rest : Bytes) (l l' r : SecureLink Cipher) (o o' : OutStream) (s : InStream)
        → send noise p l o ≡ (some (ok tt), l', o')
        → Follows l.cipher r.cipher
        → o.sent ++ content s ≡ o'.sent ++ rest
        → (r' : SecureLink Cipher) × (s' : InStream) × (recv noise r s ≡ some (ok (p, (r', s'))))
          × (content s' ≡ rest)
          × Follows l'.cipher r'.cipher
    unfolding recv
    recv-send p rest l l' r o o' s e h w =
        let t = send-Sent p l l' o o' e in
        let (s', f, c) = read_frame-write_frame t.ct rest o o' s t.framed w in
        let (k, d, g) = laws.decrypt-encrypt p t.ct l.cipher l'.cipher r.cipher h t.sealed in
        (record r { cipher = k }, s', rw (f, d), c, g)

    -- Whatever one end of a link sent without an error, in how many calls ever and whatever the
    -- network did to the pieces, as many calls at the other end receive: the same payloads in the
    -- same order, when the ciphers of the two ends are paired and what is left to read is what was
    -- sent and a rest; the rest is left to read.
    pub recv_all-send_all :
        (ps : List Bytes) (rest : Bytes) (l l' r : SecureLink Cipher) (o o' : OutStream)
        (s : InStream)
        → send_all noise ps l o ≡ (some (ok tt), l', o')
        → Follows l.cipher r.cipher
        → o.sent ++ content s ≡ o'.sent ++ rest
        → (r' : SecureLink Cipher) × (s' : InStream) × (recv_all noise (length ps) r s
            ≡ some (ok (ps, (r', s'))))
          × (content s' ≡ rest)
          × Follows l'.cipher r'.cipher
    unfolding send_all recv_all
    recv_all-send_all [] rest l l' r o o' s e h w = (
      r,
      s,
      refl,
      append_cancel o.sent (content s) rest
          (w ∙ ap (λ (z : Sending noise). z.2.sent ++ rest) (sym e)),
      subst (λ (z : Sending noise). Follows z.1.cipher r.cipher) e h,
    )
    recv_all-send_all (p ∷ ps) rest l l' r o o' s e h w =
        let (l1, o1, x, f) = send_next-succeeds (send_all noise ps) (send noise p l o) l' o' e in
        let (more, g) = send_all-sent ps l1 l' o1 o' f in
        let (r1, s1, a, b, c) =
          recv-send p (more ++ rest) l l1 r o o1 s x h
            (w ∙ ap (λ (z : Bytes). z ++ rest) g ∙ append_assoc o1.sent more rest) in
        let (r2, s2, i, j, k) = recv_all-send_all ps rest l1 l' r1 o1 o' s1 f c (
          ap (λ (z : Bytes). o1.sent ++ z) b
          ∙ sym (append_assoc o1.sent more rest)
          ∙ ap (λ (z : Bytes). z ++ rest) (sym g)) in
        (r2, s2, rw (a, i) refl, j, k)
