-- ===== src/Ui/Pump/Draining.antt =====
-- ui/src/main.rs: what the ticks of the timer make of the queue of events.
use mesh_chat.Prelude.{
  ℕ, zero, suc, ◌*◌, ◌≤◌, ◌≡◌, refl, sym, ap, ◌∙◌, subst, some, List, [], ◌∷◌, take, drop, length,
  Bool, true, false, key_eq, if◌then◌else◌, arith, take-append-drop, length-drop, if_true, if_false,
}
use mesh_chat.Protocol.{ℤ}
use mesh_chat.Node.{Env}
use mesh_chat.Node.Events.{Event}
use mesh_chat.Ui.{Ui, Models, Desk, max_events_per_tick, max_visible_messages}
use mesh_chat.Ui.Pump.{
  handle_notices, set_rx, pump, scrolled, update_expiry, next_tick, expiry_text,
}
use mesh_chat.Ui.Pump.Handling.{
  handled, any_line, handle_events_lem, handled-SameEngine, all_shown, all_shown-append,
  all_shown-bounded, models-handled,
}

-- What a tick leaves, when no notice waits.
record Ticked (desk : Desk) (es : List Event) (u w : Ui) : Type 0 where
  pub models : w.models ≡ all_shown desk u.wall (take max_events_per_tick es) u.models
  pub rx : w.rx ≡ some (drop max_events_per_tick es)
  pub ui_rx : w.ui_rx ≡ []
  pub wall : w.wall ≡ u.wall
  pub scroll : w.window.scroll_tick ≡ (
      if any_line desk u.wall (take max_events_per_tick es)
      then next_tick u.window.scroll_tick
      else u.window.scroll_tick)

-- The countdown is apart from the rest.
update_expiry-Ticked :
    (desk : Desk) (es : List Event) (u w : Ui)
    → Ticked desk es u w
    → Ticked desk es u (update_expiry w)
unfolding update_expiry
update_expiry-Ticked desk es u w t = go (key_eq w.last_expiry (expiry_text w.expires_at w.now))
  where
    go :
        (b : Bool)
        → Ticked desk es u (
            if b then w else record w {
              last_expiry = expiry_text w.expires_at w.now;
              window = record w.window { expiry_note = expiry_text w.expires_at w.now };
            })
    go true = t
    go false = record {
      models = t.models;
      rx = t.rx;
      ui_rx = t.ui_rx;
      wall = t.wall;
      scroll = t.scroll;
    }

scrolled-Ticked :
    (desk : Desk) (es : List Event) (u : Ui) (b : Bool)
    → u.ui_rx ≡ []
    → length u.models.messages ≤ max_visible_messages
    → any_line desk u.wall (take max_events_per_tick es) ≡ b
    → Ticked desk es u (
        scrolled (
          b,
          set_rx
              (some (drop max_events_per_tick es))
              (handled desk (take max_events_per_tick es) u),
        ))
scrolled-Ticked desk es u true e h f =
    let s = handled-SameEngine desk (take max_events_per_tick es) u in
    record {
      models = models-handled desk (take max_events_per_tick es) u h;
      rx = refl;
      ui_rx = s.ui_rx ∙ e;
      wall = s.wall;
      scroll = ap (λ t. next_tick t) s.scroll ∙ sym (if_true _ _ _ f);
    }
scrolled-Ticked desk es u false e h f =
    let s = handled-SameEngine desk (take max_events_per_tick es) u in
    record {
      models = models-handled desk (take max_events_per_tick es) u h;
      rx = refl;
      ui_rx = s.ui_rx ∙ e;
      wall = s.wall;
      scroll = s.scroll ∙ sym (if_false _ _ _ f);
    }

-- The queue and the notices written into the record.
written :
    (u : Ui) (es : List Event)
    → u.ui_rx ≡ []
    → u.rx ≡ some es
    → u ≡ set_rx (some es) (record u { ui_rx = [] })
written u es e f =
    ap (λ q. record u { rx = q }) f ∙ ap (λ q. record u { rx = some es; ui_rx = q }) e

pump-Ticked :
    (env : Env) (desk : Desk) (es : List Event) (u : Ui)
    → u.ui_rx ≡ []
    → u.rx ≡ some es
    → length u.models.messages ≤ max_visible_messages
    → Ticked desk es u (pump env desk u)
unfolding pump handle_notices
pump-Ticked env desk es u e f h =
    let v : Ui = record u { ui_rx = [] } in
    subst (λ (x : Ui). Ticked desk es x (pump env desk x)) (sym (written u es e f))
      (update_expiry-Ticked desk es (set_rx (some es) v) _ (
        subst (λ (x : Bool × Ui). Ticked desk es (set_rx (some es) v) (scrolled x))
          (sym (handle_events_lem desk max_events_per_tick false es v))
          (again (
            scrolled-Ticked desk es v (any_line desk v.wall (take max_events_per_tick es)) refl h
              refl))))
  where
    again :
        {w : Ui}
        → Ticked desk es (record u { ui_rx = [] }) w
        → Ticked desk es (set_rx (some es) (record u { ui_rx = [] })) w
    again t = record {
      models = t.models;
      rx = t.rx;
      ui_rx = t.ui_rx;
      wall = t.wall;
      scroll = t.scroll;
    }

abbrev pub pumps : Env → Desk → ℕ → Ui → Ui
pumps env desk zero u = u
pumps env desk (suc k) u = pumps env desk k (pump env desk u)

-- A queue of events that no notice of the worker threads precedes is empty after as many ticks as
-- there are 256 events in it, rounded up, and then the rows are what the events make of them one
-- after another, each once and in the order of the queue, if at most 2000 lines were on screen.
pub pumps-drained :
    (env : Env) (desk : Desk) (k : ℕ) (es : List Event) (u : Ui)
    → u.ui_rx ≡ []
    → u.rx ≡ some es
    → length u.models.messages ≤ max_visible_messages
    → length es ≤ k * max_events_per_tick
    → ((pumps env desk k u).rx ≡ some [])
      × ((pumps env desk k u).models ≡ all_shown desk u.wall es u.models)
pumps-drained env desk zero [] u e f h n = (f, refl)
pumps-drained env desk zero (x ∷ es) u e f h n = absurd (omega arith)
pumps-drained env desk (suc k) es u e f h n =
    let t = pump-Ticked env desk es u e f h in
    let w : Ui = pump env desk u in
    let front : List Event = take max_events_per_tick es in
    let back : List Event = drop max_events_per_tick es in
    let r =
      pumps-drained env desk k back w t.ui_rx t.rx
        (subst (λ (m : Models). length m.messages ≤ max_visible_messages) (sym t.models)
          (all_shown-bounded desk u.wall front u.models h))
        (omega (arith, length-drop max_events_per_tick es)) in
    (
      r.0,
      r.1
          ∙ ap (λ (z : ℤ). all_shown desk z back w.models) t.wall
          ∙ ap (λ (m : Models). all_shown desk u.wall back m) t.models
          ∙ sym (all_shown-append desk u.wall front back u.models)
          ∙ ap (λ (xs : List Event). all_shown desk u.wall xs u.models)
              (take-append-drop max_events_per_tick es),
    )
