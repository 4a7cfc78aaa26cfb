-- ===== src/Ui/Pump/Handling.antt =====
-- ui/src/main.rs: what a queue of events makes of the rows.
use mesh_chat.Prelude.{
  ℕ, zero, suc, ◌≤◌, ◌≡◌, refl, sym, ap, ◌∙◌, subst, some, List, [], ◌∷◌, ◌++◌, take, drop, length,
  Bool, true, false, ◌||◌, append_assoc, append-nil,
}
use mesh_chat.Protocol.{ℤ}
use mesh_chat.Node.Events.{Event}
use mesh_chat.Ui.{Ui, Models, MessageRow, Desk, max_visible_messages}
use mesh_chat.Ui.Events.{handle_event}
use mesh_chat.Ui.Events.Queue.{handle_event-set_queue}
use mesh_chat.Ui.Events.Engine.{handle_event-SameEngine, SameEngine, same_engine, SameEngine-trans}
use mesh_chat.Ui.Events.Spec.{
  lines, all_lines, gains, shown, flag-handle_event, models-handle_event, shown-bounded,
}
use mesh_chat.Ui.Rows.Transcript.{latest, latest-latest, latest_all}
use mesh_chat.Ui.Pump.{handle_events, set_rx}

-- Events handled one after another, with no queue between.
abbrev pub handled : Desk → List Event → Ui → Ui
handled desk [] u = u
handled desk (e ∷ es) u = handled desk es (handle_event desk e u).1

abbrev pub any_line : Desk → ℤ → List Event → Bool
any_line desk wall [] = false
any_line desk wall (e ∷ es) = gains (lines desk wall e) || any_line desk wall es

or_assoc : (a b c : Bool) → ((a || b) || c) ≡ (b || (a || c))
or_assoc true true c = refl
or_assoc true false c = refl
or_assoc false true c = refl
or_assoc false false c = refl

or_false : (a : Bool) → a ≡ (a || false)
or_false true = refl
or_false false = refl

-- A tick handles the front of the queue, in its order, and leaves the rest.
pub handle_events_lem :
    (desk : Desk) (k : ℕ) (gained : Bool) (es : List Event) (u : Ui)
    → handle_events desk k gained (set_rx (some es) u) ≡ (
      gained || any_line desk u.wall (take k es),
      set_rx (some (drop k es)) (handled desk (take k es) u),
    )
unfolding handle_events
handle_events_lem desk zero gained es u = ap (λ b. (b, set_rx (some es) u)) (or_false gained)
handle_events_lem desk (suc k) gained [] u = ap (λ b. (b, set_rx (some []) u)) (or_false gained)
handle_events_lem desk (suc k) gained (e ∷ es) u =
    let w : Ui = (handle_event desk e u).1 in
    ap (λ (h : Bool × Ui). handle_events desk k (h.0 || gained) h.1)
      (handle_event-set_queue (some es) desk e u)
    ∙ handle_events_lem desk k ((handle_event desk e u).0 || gained) es w
    ∙ ap (λ b. (b, set_rx (some (drop k es)) (handled desk (take k es) w)))
        (ap (λ t. ((handle_event desk e u).0 || gained) || any_line desk t (take k es))
            (handle_event-SameEngine desk e u).wall
          ∙ ap (λ b. (b || gained) || any_line desk u.wall (take k es)) (flag-handle_event desk e u)
          ∙ or_assoc (gains (lines desk u.wall e)) gained (any_line desk u.wall (take k es)))

pub handled-SameEngine : (desk : Desk) (es : List Event) (u : Ui) → SameEngine u (handled desk es u)
handled-SameEngine desk [] u = same_engine u
handled-SameEngine desk (e ∷ es) u =
    let w : Ui = (handle_event desk e u).1 in
    SameEngine-trans u w (handled desk es w) (handle_event-SameEngine desk e u)
      (handled-SameEngine desk es w)

-- What a queue of events makes of the rows.
abbrev pub all_shown : Desk → ℤ → List Event → Models → Models
all_shown desk wall [] m = m
all_shown desk wall (e ∷ es) m = all_shown desk wall es (shown desk wall e m)

pub all_shown-append :
    (desk : Desk) (wall : ℤ) (ds es : List Event) (m : Models)
    → all_shown desk wall (ds ++ es) m ≡ all_shown desk wall es (all_shown desk wall ds m)
all_shown-append desk wall [] es m = refl
all_shown-append desk wall (d ∷ ds) es m = all_shown-append desk wall ds es (shown desk wall d m)

pub all_shown-bounded :
    (desk : Desk) (wall : ℤ) (es : List Event) (m : Models)
    → length m.messages ≤ max_visible_messages
    → length (all_shown desk wall es m).messages ≤ max_visible_messages
all_shown-bounded desk wall [] m h = h
all_shown-bounded desk wall (e ∷ es) m h =
    all_shown-bounded desk wall es (shown desk wall e m) (shown-bounded desk wall e m)

pub models-handled :
    (desk : Desk) (es : List Event) (u : Ui)
    → length u.models.messages ≤ max_visible_messages
    → (handled desk es u).models ≡ all_shown desk u.wall es u.models
models-handled desk [] u h = refl
models-handled desk (e ∷ es) u h =
    let w : Ui = (handle_event desk e u).1 in
    let m : Models = shown desk u.wall e u.models in
    let shows : w.models ≡ m = models-handle_event desk e u h in
    models-handled desk es w (
      subst (λ (n : Models). length n.messages ≤ max_visible_messages) (sym shows)
        (shown-bounded desk u.wall e u.models))
    ∙ ap (λ t. all_shown desk t es w.models) (handle_event-SameEngine desk e u).wall
    ∙ ap (λ (n : Models). all_shown desk u.wall es n) shows

-- The view is the end of the transcript.
messages-all_shown :
    (desk : Desk) (wall : ℤ) (es : List Event) (m : Models)
    → length m.messages ≤ max_visible_messages
    → (all_shown desk wall es m).messages
      ≡ latest max_visible_messages (m.messages ++ all_lines desk wall es)
messages-all_shown desk wall [] m h = sym (
    ap (λ (rows : List MessageRow). latest max_visible_messages rows) (append-nil m.messages)
    ∙ latest_all max_visible_messages m.messages h)
messages-all_shown desk wall (e ∷ es) m h =
    messages-all_shown desk wall es (shown desk wall e m) (shown-bounded desk wall e m)
    ∙ latest-latest max_visible_messages (m.messages ++ lines desk wall e) (all_lines desk wall es)
    ∙ ap (λ (rows : List MessageRow). latest max_visible_messages rows)
        (append_assoc m.messages (lines desk wall e) (all_lines desk wall es))

-- When at most 2000 lines were on screen and a queue of events is handled, the lines on screen are
-- the last 2000 of the lines that were there and the lines of the events, in their order: the
-- line of each chat message and note of the engine, of each finished transfer, and of the end of
-- the room.
pub messages-handled :
    (desk : Desk) (es : List Event) (u : Ui)
    → length u.models.messages ≤ max_visible_messages
    → (handled desk es u).models.messages
      ≡ latest max_visible_messages (u.models.messages ++ all_lines desk u.wall es)
messages-handled desk es u h =
    ap (λ (m : Models). m.messages) (models-handled desk es u h)
    ∙ messages-all_shown desk u.wall es u.models h
