-- ===== src/Ui/Session/WellFormed.antt =====
-- ui/src/main.rs: what holds of the rows, the prompt and the nodes between any two happenings, for
-- the events and the timer.
use mesh_chat.Prelude.{
  ℕ, zero, suc, ◌≤◌, ◌≡◌, refl, sym, subst, Text, Option, none, some, List, [], ◌∷◌, length, All,
  All-append, Bool, true, false, ◌&&◌, not, is_some, if◌then◌else◌, key_eq, arith,
}
use mesh_chat.Text.{is_empty}
use mesh_chat.Node.{Node, Env}
use mesh_chat.Node.Events.{Event}
use mesh_chat.Mesh.{leave}
use mesh_chat.Mesh.Departures.{leave_down}
use mesh_chat.Ui.{
  Ui, UiMsg, start_failed, note, Models, Desk, max_visible_messages, show_next_offer, reset_models,
  set_error, no_rows,
}
use mesh_chat.Ui.Rows.{upsert_peer, upsert_transfer, push_system}
use mesh_chat.Ui.Rows.Unique.{HaveOneKey, upsert-HaveOneKey}
use mesh_chat.Ui.Rows.Transcript.{length-push_message}
use mesh_chat.Ui.Events.{handle_event, on_room_opened, on_joined, is_failed, show_fingerprint}
use mesh_chat.Ui.Pump.{
  left_node, drop_node, handle_notice, handle_notices, handle_events, turn, scrolled, update_expiry,
  pump, expiry_text, set_rx,
}

-- The prompt shows the oldest offer, or nothing when there is none.
abbrev pub ShowsHead : List (Text × Text) → Text → Text → Type 0
ShowsHead [] id t = (id ≡ []) × (t ≡ [])
ShowsHead ((i, s) ∷ offers) id t = (id ≡ i) × (t ≡ s)

pub record Well (m : Models) (has_node has_queue : Bool) (id t : Text) (nodes : List Node)
    : Type 0 where
  pub bounded : length m.messages ≤ max_visible_messages
  pub peers : HaveOneKey (λ r. r.id) m.peers
  pub transfers : HaveOneKey (λ r. r.id) m.transfers
  pub coupled : has_node ≡ has_queue
  pub prompted : has_queue ≡ true → ShowsHead m.offers id t
  pub left : All (λ n. n.running ≡ false) nodes

-- At most 2000 lines, one row for each peer and transfer, a node just with its queue, then the prompt
-- at the oldest offer, and no node that was let go in a room.
abbrev pub IsWell : Ui → Type 0
IsWell u =
    Well u.models (is_some u.node) (is_some u.rx) u.window.offer_id u.window.offer_text u.let_go

fingerprint-IsWell : (n : Option Node) (u : Ui) → IsWell u → IsWell (show_fingerprint n u)
fingerprint-IsWell none u h = h
fingerprint-IsWell (some n) u h = h

error-IsWell : (b : Bool) (t : Text) (u : Ui) → IsWell u → IsWell (if b then set_error t u else u)
error-IsWell true t u h = h
error-IsWell false t u h = h

-- Another prompt, other offers, or other nodes for the same rows.
prompted_by :
    {m : Models} {a b : Bool} {id t : Text} {nodes : List Node} (offers : List (Text × Text))
    (i s : Text)
    → Well m a b id t nodes
    → ShowsHead offers i s
    → Well (record m { offers = offers }) a b i s nodes
prompted_by offers i s h p = record {
  bounded = h.bounded;
  peers = h.peers;
  transfers = h.transfers;
  coupled = h.coupled;
  prompted = λ some_. p;
  left = h.left;
}

-- Whatever the prompt was, it is at the oldest offer then.
pub show_next_offer-IsWell :
    (offers : List (Text × Text)) (u : Ui)
    → IsWell u
    → IsWell (show_next_offer (record u { models = record u.models { offers = offers } }))
unfolding show_next_offer
show_next_offer-IsWell [] u h = prompted_by [] [] [] h (refl, refl)
show_next_offer-IsWell ((i, s) ∷ offers) u h = prompted_by ((i, s) ∷ offers) i s h (refl, refl)

-- Other lines, peers and transfers with the same offers.
with_rows :
    {m : Models} {a b : Bool} {id t : Text} {nodes : List Node} (n : Models)
    → Well m a b id t nodes
    → n.offers ≡ m.offers
    → length n.messages ≤ max_visible_messages
    → HaveOneKey (λ r. r.id) n.peers
    → HaveOneKey (λ r. r.id) n.transfers
    → Well n a b id t nodes
with_rows {id = id} {t = t} n h o l p x = record {
  bounded = l;
  peers = p;
  transfers = x;
  coupled = h.coupled;
  prompted = λ q. subst (λ (os : List (Text × Text)). ShowsHead os id t) (sym o) (h.prompted q);
  left = h.left;
}

pub handle_event-IsWell :
    (desk : Desk) (e : Event) (u : Ui) → IsWell u → IsWell (handle_event desk e u).1
unfolding handle_event on_room_opened on_joined push_system upsert_peer upsert_transfer
handle_event-IsWell desk (Event.status t) u h = h
handle_event-IsWell desk (Event.system t) u h =
    with_rows _ h refl (length-push_message _ u.models.messages h.bounded) h.peers h.transfers
handle_event-IsWell desk (Event.room_opened code transport dial expires_secs) u h =
    fingerprint-IsWell u.node _ h
handle_event-IsWell desk (Event.joined room transport) u h = fingerprint-IsWell u.node _ h
handle_event-IsWell desk (Event.join_request req name addr fingerprint) u h =
    with_rows _ h refl h.bounded h.peers h.transfers
handle_event-IsWell desk (Event.join_resolved req accepted) u h =
    with_rows _ h refl h.bounded h.peers h.transfers
handle_event-IsWell desk (Event.peer id name state detail) u h =
    error-IsWell (is_failed state && not (is_empty detail)) _ _
      (with_rows _ h refl h.bounded (upsert-HaveOneKey _ _ u.models.peers h.peers) h.transfers)
handle_event-IsWell desk (Event.chat from name ts body mine) u h =
    with_rows _ h refl (length-push_message _ u.models.messages h.bounded) h.peers h.transfers
handle_event-IsWell desk (Event.file_offer transfer from name size) u h =
    show_next_offer-IsWell _ u h
handle_event-IsWell desk (Event.file_progress transfer name peer done total incoming) u h =
    with_rows _ h refl h.bounded h.peers (upsert-HaveOneKey _ _ u.models.transfers h.transfers)
handle_event-IsWell desk (Event.file_finished transfer name incoming ok detail) u h =
    with_rows _ h refl (length-push_message _ u.models.messages h.bounded) h.peers
      (upsert-HaveOneKey _ _ u.models.transfers h.transfers)
handle_event-IsWell desk (Event.error t) u h = h
handle_event-IsWell desk (Event.room_closed reason) u h =
    with_rows _ h refl (length-push_message _ u.models.messages h.bounded) tt h.transfers

-- Another queue, as long as there is one just when there was one.
queue-IsWell :
    (u : Ui) (q : Option (List Event)) → is_some q ≡ is_some u.rx → IsWell u → IsWell (set_rx q u)
queue-IsWell u q e h =
    subst (λ b. Well u.models (is_some u.node) b u.window.offer_id u.window.offer_text u.let_go)
      (sym e) h

handle_events-IsWell :
    (desk : Desk) (k : ℕ) (gained : Bool) (u : Ui)
    → IsWell u
    → IsWell (handle_events desk k gained u).1
unfolding handle_events
handle_events-IsWell desk zero gained u h = h
handle_events-IsWell desk (suc k) gained u h = go (handle_events-IsWell desk k) u.rx refl
  where
    go :
        ((b : Bool) (w : Ui) → IsWell w → IsWell (handle_events desk k b w).1)
        → (q : Option (List Event)) → is_some q ≡ is_some u.rx
        → IsWell (turn desk (handle_events desk k) gained q u).1
    go again none e = h
    go again (some []) e = h
    go again (some (x ∷ xs)) e =
        again _ _ (handle_event-IsWell desk x (set_rx (some xs) u) (queue-IsWell u (some xs) e h))

left_node-running :
    (env : Env) (o : Option Node) (nodes : List Node)
    → All (λ n. n.running ≡ false) nodes
    → All (λ n. n.running ≡ false) (left_node env o nodes)
left_node-running env none nodes h = h
left_node-running env (some n) nodes h =
    All-append _ nodes (leave env n ∷ []) h (leave_down env n, tt)

-- Nothing is left of the room, whatever the prompt still shows.
pub dropped-Well :
    (env : Env) (u : Ui) (id t : Text)
    → IsWell u
    → Well no_rows false false id t (left_node env u.node u.let_go)
dropped-Well env u id t h = record {
  bounded = omega arith;
  peers = tt;
  transfers = tt;
  coupled = refl;
  prompted = λ q. cc q;
  left = left_node-running env u.node u.let_go h.left;
}

handle_notice-IsWell : (env : Env) (m : UiMsg) (u : Ui) → IsWell u → IsWell (handle_notice env m u)
unfolding handle_notice drop_node reset_models
handle_notice-IsWell env (start_failed reason) u h = dropped-Well env u _ _ h
handle_notice-IsWell env (note t) u h = h

handle_notices-IsWell :
    (env : Env) (ms : List UiMsg) (u : Ui) → IsWell u → IsWell (handle_notices env ms u)
unfolding handle_notices
handle_notices-IsWell env [] u h = h
handle_notices-IsWell env (m ∷ ms) u h =
    handle_notices-IsWell env ms (handle_notice env m u) (handle_notice-IsWell env m u h)

update_expiry-IsWell : (u : Ui) → IsWell u → IsWell (update_expiry u)
unfolding update_expiry
update_expiry-IsWell u h = go (key_eq u.last_expiry (expiry_text u.expires_at u.now))
  where
    go :
        (b : Bool)
        → IsWell (
            if b then u else record u {
              last_expiry = expiry_text u.expires_at u.now;
              window = record u.window { expiry_note = expiry_text u.expires_at u.now };
            })
    go true = h
    go false = h

scrolled-IsWell : (r : Bool × Ui) → IsWell r.1 → IsWell (scrolled r)
scrolled-IsWell (true, u) h = h
scrolled-IsWell (false, u) h = h

pub pump-IsWell : (env : Env) (desk : Desk) (u : Ui) → IsWell u → IsWell (pump env desk u)
unfolding pump
pump-IsWell env desk u h = update_expiry-IsWell _ (
    scrolled-IsWell _ (
      handle_events-IsWell desk _ false _
        (handle_notices-IsWell env u.ui_rx (record u { ui_rx = [] }) h)))
