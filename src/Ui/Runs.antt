-- ===== src/Ui/Runs.antt =====
-- Runs of the interface on small sessions.
use mesh_chat.Prelude.{
  ◌≡◌, not, refl, text, cat, key_eq, some, List, [], ◌∷◌, ◌++◌, true, false, arith,
}
use mesh_chat.Error.{ok}
use mesh_chat.Text.Decimal.{decimal}
use mesh_chat.Protocol.{ℤ}
use mesh_chat.Node.{new}
use mesh_chat.Node.Events.{Event}
use mesh_chat.Samples.{sample_env}
use mesh_chat.Ui.{Ui, Desk, UiMsg, max_visible_messages, start_failed}
use mesh_chat.Ui
use mesh_chat.Ui.Rows.Transcript.{latest}
use mesh_chat.Ui.Events.{handle_event}
use mesh_chat.Ui.Events.Spec.{all_lines}
use mesh_chat.Ui.Pump.{expiry_text}
use mesh_chat.Ui.Pump.Handling.{handled, messages-handled, all_shown}
use mesh_chat.Ui.Pump.Draining.{pumps, pumps-drained}
use mesh_chat.Ui.Session.Busy.{clears, busy-happen}
use mesh_chat.Ui.Callbacks.{suggested_name, save_name, before_last}
use mesh_chat.Ui.Callbacks.Names.{save_name-handle_event}
use mesh_chat.Ui.Session.{
  Happening, ticks, passes, notifies, works, edits, clicks_join, clicks_leave, happen, session,
}
use mesh_chat.Ui.Session.WellFormed.{IsWell}
use mesh_chat.Ui.Session.Reachable.{session-IsWell}

abbrev desk : Desk
desk = record { fmt_clock = λ ts. text "12:00"; human_size = λ n. decimal n ++ text " B" }

abbrev events : List Event
events =
    Event.system (text "hello")
    ∷ Event.file_offer (text "00") (text "B") (text "a (1).txt") 7
    ∷ Event.chat (text "B") (text "Ben") (ℤ.pos 0) (text "hi") false
    ∷ []

-- A joiner who asked to be let in, with the events in the queue.
abbrev asking : Ui
asking = record (Ui.new 0 (ℤ.pos 0)) {
  node = some (new (text "A") (text "Ann") []);
  rx = some events;
  window = record Ui.first_window { busy = true };
}

abbrev declined : List Event
declined = Event.status (text "waiting") ∷ Event.room_closed (text "the host declined") ∷ []

messages-handled_example :
    (handled desk events asking).models.messages
    ≡ latest max_visible_messages (asking.models.messages ++ all_lines desk asking.wall events)
unfolding Ui.new
messages-handled_example = messages-handled desk events asking (omega arith)

pumps-drained_example :
    ((pumps sample_env desk 1 asking).rx ≡ some [])
    × ((pumps sample_env desk 1 asking).models ≡ all_shown desk asking.wall events asking.models)
unfolding Ui.new
pumps-drained_example =
    pumps-drained sample_env desk 1 events asking refl refl (omega arith) (omega arith)

-- A tick that tells Ann of her admission, and one that tells her that she was declined.
abbrev admitted : List Event
admitted = Event.status (text "waiting") ∷ Event.joined (text "L-AAAAA") (text "LAN") ∷ []

busy-happen_example :
    (happen sample_env desk ticks (record asking { rx = some admitted })).window.busy
    ≡ not (clears ticks (record asking { rx = some admitted }))
busy-happen_example = busy-happen sample_env desk ticks (record asking { rx = some admitted }) refl

admission_seen : clears ticks (record asking { rx = some admitted }) ≡ true
unfolding Ui.new
admission_seen = refl

refusal_ignored : clears ticks (record asking { rx = some declined }) ≡ false
unfolding Ui.new
refusal_ignored = refl

save_name-handle_event_example :
    save_name
      (text "00")
      (handle_event desk
        (Event.file_offer (text "00") (text "B") (text "a (1).txt") 7)
        asking).1.models.offers
    ≡ text "a (1).txt"
unfolding Ui.new decimal text
save_name-handle_event_example =
    save_name-handle_event desk (text "00") (text "B") (text "a (1).txt") 7 asking
      (refl, (refl, (refl, tt))) tt

-- Ann asks to join, is declined, and leaves.
abbrev declined_session : List Happening
declined_session =
    edits (text "Ann") (text "LAN") (text "L-AAAAA") []
    ∷ clicks_join (ok (text "A", text "FP"))
    ∷ works (λ n. record n { out = n.out })
    ∷ notifies (start_failed (text "no route"))
    ∷ passes 50 (ℤ.pos 1)
    ∷ ticks
    ∷ clicks_leave
    ∷ []

session-IsWell_example : IsWell (session sample_env desk declined_session (Ui.new 0 (ℤ.pos 0)))
session-IsWell_example = session-IsWell sample_env desk 0 (ℤ.pos 0) declined_session

-- A name with parentheses and spaces in it is cut at the last " (".
suggested_lem : suggested_name (text "report (final).pdf (1.2 MB)") ≡ text "report (final).pdf"
unfolding suggested_name text before_last key_eq
suggested_lem = refl

-- The minutes of the countdown are rounded up, and the last minute is in seconds.
minutes_lem : expiry_text (some 599_500) 0 ≡ text "Code accepts joiners for another 10 min"
unfolding expiry_text text decimal cat
minutes_lem = refl

seconds_lem : expiry_text (some 60_500) 1_000 ≡ text "Code accepts joiners for another 59s"
unfolding expiry_text text decimal cat
seconds_lem = refl
