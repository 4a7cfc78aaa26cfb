-- ===== src/Ui/Pump/Busy.antt =====
-- ui/src/main.rs: what a tick makes of the flag that keeps the buttons "Host a Room" and "Request to
-- Join" off.
use mesh_chat.Prelude.{
  ℕ, zero, suc, ◌≡◌, refl, ap, ◌∙◌, Text, Option, none, some, List, [], ◌∷◌, take, Bool, true,
  false, ◌&&◌, ◌||◌, not, key_eq, if◌then◌else◌,
}
use mesh_chat.Text.{is_empty}
use mesh_chat.Node.{Node, Env}
use mesh_chat.Node.Events.{Event}
use mesh_chat.Ui.{
  Ui, UiMsg, start_failed, note, Desk, set_error, show_next_offer, prompt_head, reset_models,
  max_events_per_tick,
}
use mesh_chat.Ui.Events.{handle_event, is_failed, on_room_opened, on_joined, show_fingerprint}
use mesh_chat.Ui.Pump.{
  drop_node, handle_notice, handle_notices, handle_events, set_rx, scrolled, update_expiry,
  expiry_text, pump,
}
use mesh_chat.Ui.Pump.Handling.{handled, handle_events_lem}

-- The events that show the room.
abbrev pub shows_room : Event → Bool
shows_room (Event.room_opened code transport dial expires_secs) = true
shows_room (Event.joined room transport) = true
shows_room _ = false

abbrev pub queue_of : Option (List Event) → List Event
queue_of none = []
queue_of (some es) = es

abbrev pub any_shows : List Event → Bool
any_shows [] = false
any_shows (e ∷ es) = shows_room e || any_shows es

-- The notices of a start that failed.
abbrev pub any_fails : List UiMsg → Bool
any_fails [] = false
any_fails (start_failed reason ∷ ms) = true
any_fails (note t ∷ ms) = any_fails ms

busy-fingerprint : (n : Option Node) (u : Ui) → (show_fingerprint n u).window.busy ≡ u.window.busy
busy-fingerprint none u = refl
busy-fingerprint (some n) u = refl

busy-error :
    (b : Bool) (t : Text) (u : Ui) → (if b then set_error t u else u).window.busy ≡ u.window.busy
busy-error true t u = refl
busy-error false t u = refl

pub busy-show_next_offer : (u : Ui) → (show_next_offer u).window.busy ≡ u.window.busy
unfolding show_next_offer
busy-show_next_offer u = go u.models.offers
  where
    go : (offers : List (Text × Text)) → (prompt_head offers u).window.busy ≡ u.window.busy
    go [] = refl
    go ((id, t) ∷ offers) = refl

busy-handle_event :
    (desk : Desk) (e : Event) (u : Ui)
    → (handle_event desk e u).1.window.busy ≡ (if shows_room e then false else u.window.busy)
unfolding handle_event on_room_opened on_joined
busy-handle_event desk (Event.status t) u = refl
busy-handle_event desk (Event.system t) u = refl
busy-handle_event desk (Event.room_opened code transport dial expires_secs) u =
    busy-fingerprint u.node _
busy-handle_event desk (Event.joined room transport) u = busy-fingerprint u.node _
busy-handle_event desk (Event.join_request req name addr fingerprint) u = refl
busy-handle_event desk (Event.join_resolved req accepted) u = refl
busy-handle_event desk (Event.peer id name state detail) u =
    busy-error (is_failed state && not (is_empty detail)) _ _
busy-handle_event desk (Event.chat from name ts body mine) u = refl
busy-handle_event desk (Event.file_offer transfer from name size) u = busy-show_next_offer _
busy-handle_event desk (Event.file_progress transfer name peer done total incoming) u = refl
busy-handle_event desk (Event.file_finished transfer name incoming ok detail) u = refl
busy-handle_event desk (Event.error t) u = refl
busy-handle_event desk (Event.room_closed reason) u = refl

off_or :
    (a b c : Bool) → (if b then false else if a then false else c) ≡ (if a || b then false else c)
off_or true true c = refl
off_or true false c = refl
off_or false true c = refl
off_or false false c = refl

busy-handled :
    (desk : Desk) (es : List Event) (u : Ui)
    → (handled desk es u).window.busy ≡ (if any_shows es then false else u.window.busy)
busy-handled desk [] u = refl
busy-handled desk (e ∷ es) u =
    busy-handled desk es (handle_event desk e u).1
    ∙ ap (λ b. if any_shows es then false else b) (busy-handle_event desk e u)
    ∙ off_or (shows_room e) (any_shows es) u.window.busy

busy-handle_events :
    (desk : Desk) (k : ℕ) (gained : Bool) (u : Ui)
    → (handle_events desk k gained u).1.window.busy
      ≡ (if any_shows (take k (queue_of u.rx)) then false else u.window.busy)
busy-handle_events desk k gained u = go u.rx
  where
    idle :
        (j : ℕ)
        → (handle_events desk j gained (set_rx none u)).1.window.busy
          ≡ (if any_shows (take j []) then false else u.window.busy)
    idle zero = unfold handle_events in refl
    idle (suc j) = unfold handle_events in refl

    go :
        (q : Option (List Event))
        → (handle_events desk k gained (set_rx q u)).1.window.busy
          ≡ (if any_shows (take k (queue_of q)) then false else u.window.busy)
    go none = idle k
    go (some es) =
        ap (λ (h : Bool × Ui). h.1.window.busy) (handle_events_lem desk k gained es u)
        ∙ busy-handled desk (take k es) u

-- A start that failed leaves no queue and the flag off.
handled_notices :
    (env : Env) (ms : List UiMsg) (u : Ui)
    → ((handle_notices env ms u).window.busy ≡ (if any_fails ms then false else u.window.busy))
      × ((handle_notices env ms u).rx ≡ (if any_fails ms then none else u.rx))
unfolding handle_notices handle_notice drop_node reset_models
handled_notices env [] u = (refl, refl)
handled_notices env (start_failed reason ∷ ms) u =
    let h = handled_notices env ms (handle_notice env (start_failed reason) u) in
    (h.0 ∙ off (any_fails ms), h.1 ∙ nothing (any_fails ms))
  where
    off : (b : Bool) → (if b then false else false) ≡ false
    off true = refl
    off false = refl

    nothing : (b : Bool) → ◌≡◌ {A = Option (List Event)} (if b then none else none) none
    nothing true = refl
    nothing false = refl
handled_notices env (note t ∷ ms) u = handled_notices env ms (handle_notice env (note t) u)

busy-scrolled : (r : Bool × Ui) → (scrolled r).window.busy ≡ r.1.window.busy
busy-scrolled (true, u) = refl
busy-scrolled (false, u) = refl

busy-update_expiry : (u : Ui) → (update_expiry u).window.busy ≡ u.window.busy
unfolding update_expiry
busy-update_expiry u = go (key_eq u.last_expiry (expiry_text u.expires_at u.now))
  where
    go :
        (b : Bool)
        → (if b then u else record u {
          last_expiry = expiry_text u.expires_at u.now;
          window = record u.window { expiry_note = expiry_text u.expires_at u.now };
        }).window.busy
          ≡ u.window.busy
    go true = refl
    go false = refl

-- What a tick takes up clears the flag: a notice that a start failed, after which there is no queue,
-- or one of the first 256 events that shows the room.
abbrev pub clears_flag : Ui → Bool
clears_flag u = any_fails u.ui_rx || any_shows (take max_events_per_tick (queue_of u.rx))

pub busy-pump :
    (env : Env) (desk : Desk) (u : Ui)
    → (pump env desk u).window.busy ≡ (if clears_flag u then false else u.window.busy)
unfolding pump
busy-pump env desk u =
    let v : Ui = handle_notices env u.ui_rx (record u { ui_rx = [] }) in
    let h = handled_notices env u.ui_rx (record u { ui_rx = [] }) in
    busy-update_expiry _
    ∙ busy-scrolled (handle_events desk max_events_per_tick false v)
    ∙ busy-handle_events desk max_events_per_tick false v
    ∙ ap (λ b. if any_shows (take max_events_per_tick (queue_of v.rx)) then false else b) h.0
    ∙ ap
        (λ q.
          if any_shows (take max_events_per_tick (queue_of q))
          then false
          else if any_fails u.ui_rx
          then false
          else u.window.busy)
        h.1
    ∙ joined (any_fails u.ui_rx)
  where
    off : (b : Bool) → (if b then false else false) ≡ false
    off true = refl
    off false = refl

    joined :
        (b : Bool)
        → (if any_shows (take max_events_per_tick (queue_of (if b then none else u.rx)))
            then false
            else if b
            then false
            else u.window.busy)
          ≡ (if b || any_shows (take max_events_per_tick (queue_of u.rx))
              then false
              else u.window.busy)
    joined true = off (any_shows (take max_events_per_tick []))
    joined false = refl
