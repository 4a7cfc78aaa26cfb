-- ===== src/Codec/Writing.antt =====
-- `write_all` sends its buffer in order, whatever pieces the transport takes, and says when it
-- could not.
use mesh_chat.Prelude.{
  ℕ, zero, suc, ◌+◌, ◌≤◌, ◌<◌, ◌≡◌, ◌≢◌, refl, sym, ◌∙◌, ap, subst, inl, inr, Bytes, List, [], ◌∷◌,
  ◌++◌, append_assoc, append-nil, arith, length, take, drop, length-take, length-drop,
  take-append-drop_taken, if◌then◌else◌, Bool-cases, true, false,
}
use mesh_chat.Codec.Stream.{OutStream, Room, accepts, refuses}
use mesh_chat.Codec.{Outcome, done, failed, stuck, write_loop, write_all, is_interrupted}

-- `buf` was cut into a part that is sent and a part that is not; nothing is left if it is `done`.
pub record Sends (buf before : Bytes) (r : Outcome (Unit {0}) × OutStream) : Type 0 where
  pub part : Bytes
  pub left : Bytes
  pub whole : part ++ left ≡ buf
  pub sent : r.1.sent ≡ before ++ part
  pub complete : r.0 ≡ done tt → left ≡ []

none_sent :
    (b : ℕ) (buf t : Bytes) (o : Outcome (Unit {0})) (rs : List Room)
    → o ≢ done tt
    → Sends (b ∷ buf) t (o, record { rooms = rs; sent = t })
none_sent b buf t o rs h = record {
  part = [];
  left = b ∷ buf;
  whole = refl;
  sent = sym (append-nil t);
  complete = λ e. absurd (h e);
}

write_loop-Sends :
    (fuel : ℕ) (buf : Bytes) (rs : List Room) (t : Bytes)
    → Sends buf t (write_loop fuel buf (record { rooms = rs; sent = t }))
unfolding write_loop
write_loop-Sends zero buf rs t = record {
  part = [];
  left = buf;
  whole = refl;
  sent = sym (append-nil t);
  complete = λ e. cc;
}
write_loop-Sends (suc fuel) [] rs t = record {
  part = [];
  left = [];
  whole = refl;
  sent = sym (append-nil t);
  complete = λ e. refl;
}
write_loop-Sends (suc fuel) (b ∷ buf) [] t = none_sent b buf t _ [] (λ e. cc)
write_loop-Sends (suc fuel) (b ∷ buf) (accepts zero ∷ rs) t = record {
  part = [];
  left = b ∷ buf;
  whole = refl;
  sent = refl;
  complete = λ e. cc;
}
write_loop-Sends (suc fuel) (b ∷ buf) (accepts (suc k) ∷ rs) t =
    let ih = write_loop-Sends fuel (drop (length (take k buf)) buf) rs (t ++ (b ∷ take k buf)) in
    record {
      part = b ∷ (take k buf ++ ih.part);
      left = ih.left;
      whole = ap (◌∷◌ b) (
          append_assoc (take k buf) ih.part ih.left
          ∙ ap (◌++◌ (take k buf)) ih.whole
          ∙ take-append-drop_taken k buf);
      sent = ih.sent ∙ append_assoc t (b ∷ take k buf) ih.part;
      complete = ih.complete;
    }
write_loop-Sends (suc fuel) (b ∷ buf) (refuses e ∷ rs) t =
    elim (Bool-cases (is_interrupted e.kind)) [
      | inl again ↦
          subst (Sends (b ∷ buf) t) (sym (again_step again)) (write_loop-Sends fuel (b ∷ buf) rs t)
      | inr lasting ↦
          subst (Sends (b ∷ buf) t) (sym (lasting_step lasting)) (none_sent b buf t _ rs (λ e. cc))
    ]
  where
    again_step :
        is_interrupted e.kind ≡ true
        → write_loop (suc fuel) (b ∷ buf) (record { rooms = refuses e ∷ rs; sent = t })
          ≡ write_loop fuel (b ∷ buf) (record { rooms = rs; sent = t })
    again_step h = ground arith

    lasting_step :
        is_interrupted e.kind ≡ false
        → write_loop (suc fuel) (b ∷ buf) (record { rooms = refuses e ∷ rs; sent = t })
          ≡ (failed e, record { rooms = rs; sent = t })
    lasting_step h = ground arith

write_loop-ne-stuck :
    (fuel : ℕ) (buf : Bytes) (rs : List Room) (t : Bytes)
    → length rs < fuel
    → (write_loop fuel buf (record { rooms = rs; sent = t })).0 ≢ stuck
unfolding write_loop
write_loop-ne-stuck zero buf rs t h = absurd (omega arith)
write_loop-ne-stuck (suc fuel) [] rs t h = λ e. cc
write_loop-ne-stuck (suc fuel) (b ∷ buf) [] t h = λ e. cc
write_loop-ne-stuck (suc fuel) (b ∷ buf) (accepts zero ∷ rs) t h = λ e. cc
write_loop-ne-stuck (suc fuel) (b ∷ buf) (accepts (suc k) ∷ rs) t h =
    write_loop-ne-stuck fuel (drop (length (take k buf)) buf) rs (t ++ (b ∷ take k buf))
      (omega arith)
write_loop-ne-stuck (suc fuel) (b ∷ buf) (refuses e ∷ rs) t h =
    ground (arith, write_loop-ne-stuck fuel (b ∷ buf) rs t)

-- The bytes that the transport takes before it stops or fails for good.
unfoldable pub total_room : List Room → ℕ
total_room [] = 0
total_room (accepts zero ∷ rs) = 0
total_room (accepts (suc k) ∷ rs) = suc k + total_room rs
total_room (refuses e ∷ rs) = if is_interrupted e.kind then total_room rs else 0

write_loop-done :
    (fuel : ℕ) (buf : Bytes) (rs : List Room) (t : Bytes)
    → length rs < fuel
    → length buf ≤ total_room rs
    → (write_loop fuel buf (record { rooms = rs; sent = t })).0 ≡ done tt
unfolding write_loop total_room
write_loop-done zero buf rs t h r = absurd (omega arith)
write_loop-done (suc fuel) [] rs t h r = refl
write_loop-done (suc fuel) (b ∷ buf) [] t h r = absurd (omega arith)
write_loop-done (suc fuel) (b ∷ buf) (accepts zero ∷ rs) t h r = absurd (omega arith)
write_loop-done (suc fuel) (b ∷ buf) (accepts (suc k) ∷ rs) t h r =
    write_loop-done fuel (drop (length (take k buf)) buf) rs (t ++ (b ∷ take k buf)) (omega arith)
      (omega (arith, length-drop (length (take k buf)) buf, length-take k buf))
write_loop-done (suc fuel) (b ∷ buf) (refuses e ∷ rs) t h r =
    ground (arith, write_loop-done fuel (b ∷ buf) rs t)

-- `write_all` never runs out of fuel. What it sent is the front of its buffer, in order, and the
-- whole of it if it answers `done`; it does so whenever the transport has the room.
pub write_all_correct :
    (buf : Bytes) (o : OutStream)
    → Sends buf o.sent (write_all buf o)
      × ((write_all buf o).0 ≢ stuck)
      × (length buf ≤ total_room o.rooms → (write_all buf o).0 ≡ done tt)
unfolding write_all
write_all_correct buf o = (
  write_loop-Sends (suc (length o.rooms)) buf o.rooms o.sent,
  write_loop-ne-stuck (suc (length o.rooms)) buf o.rooms o.sent (omega arith),
  write_loop-done (suc (length o.rooms)) buf o.rooms o.sent (omega arith),
)

pub write_all-sent :
    (buf : Bytes) (o o' : OutStream) → write_all buf o ≡ (done tt, o') → o'.sent ≡ o.sent ++ buf
write_all-sent buf o o' e =
    let s = (write_all_correct buf o).0 in
    ap (λ (r : Outcome (Unit {0}) × OutStream). r.1.sent) (sym e)
    ∙ s.sent
    ∙ ap (◌++◌ o.sent) (
        sym (append-nil s.part)
        ∙ ap (◌++◌ s.part) (sym (s.complete (ap (λ (r : Outcome (Unit {0}) × OutStream). r.0) e)))
        ∙ s.whole)
