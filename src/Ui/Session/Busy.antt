-- ===== src/Ui/Session/Busy.antt =====
-- ui/src/main.rs: which happenings clear the flag that keeps the buttons "Host a Room" and "Request
-- to Join" off.
use mesh_chat.Prelude.{
  ◌≡◌, refl, ◌∙◌, ℕ, Text, text, Option, none, some, List, Bool, true, false, not, if◌then◌else◌,
}
use mesh_chat.Error.{Error, IoError, Result, ok, err}
use mesh_chat.Text.{is_empty}
use mesh_chat.Text.Trim.{trim}
use mesh_chat.Protocol.{Checked, returns, panics}
use mesh_chat.History.{Exporter}
use mesh_chat.Transport.{TransportKind, parse}
use mesh_chat.Node.{Node, Env}
use mesh_chat.Mesh.{send_chat}
use mesh_chat.Ui.{Ui, Desk, Started, set_error, reset_models}
use mesh_chat.Ui.Pump.{drop_node}
use mesh_chat.Ui.Pump.Busy.{clears_flag, busy-pump, busy-show_next_offer}
use mesh_chat.Ui.Callbacks.{
  Picked, SaveDialog, advance, with_node, mode_of, no_mode, install, start_node, waiting, host_kind,
  host_room, join_kind, join_room, approve, chat_sent, send_message, shown_error, file_picked,
  send_file, offer_answered, accepted, respond, respond_offer, exported, export_to, export_history,
  copied, copy_code, reopened, reopen, without_offer, leave_room,
}
use mesh_chat.Ui.Session.{
  Happening, ticks, passes, notifies, works, edits, clicks_host, clicks_join, clicks_approve,
  clicks_send, clicks_send_file, clicks_respond, clicks_export, clicks_copy, clicks_reopen,
  clicks_leave, happen, settled,
}

abbrev IsBusy : Ui → Type 0
IsBusy u = u.window.busy ≡ true

with_node-IsBusy :
    (f : Node → Ui → Ui) (o : Option Node) (u : Ui)
    → ((n : Node) → IsBusy (f n u))
    → IsBusy u
    → IsBusy (with_node o f u)
with_node-IsBusy f none u k h = h
with_node-IsBusy f (some n) u k h = k n

mode_of-IsBusy : (u : Ui) → IsBusy u → IsBusy (mode_of u).1
unfolding mode_of
mode_of-IsBusy u h = go (parse u.window.mode)
  where
    go : (kind : Option TransportKind) → IsBusy (no_mode kind u)
    go none = h
    go (some kind) = h

start_node-IsBusy :
    (env : Env) (r : Result Error (Text × Text)) (u : Ui) → IsBusy u → IsBusy (start_node env r u).1
unfolding start_node drop_node reset_models
start_node-IsBusy env r u h = go (is_empty (trim u.window.display_name)) r
  where
    go :
        (b : Bool) (q : Result Error (Text × Text))
        → IsBusy
            (if b
              then (false, set_error (text "Enter a display name first.") u)
              else install env (trim u.window.display_name) q u).1
    go true q = h
    go false (ok (id, fingerprint)) = h
    go false (err e) = h

waiting-IsBusy : (t : Text) (s : Started) (r : Bool × Ui) → IsBusy r.1 → IsBusy (waiting t s r)
waiting-IsBusy t s (true, u) h = refl
waiting-IsBusy t s (false, u) h = h

host_room-IsBusy :
    (env : Env) (r : Result Error (Text × Text)) (u : Ui) → IsBusy u → IsBusy (host_room env r u)
unfolding host_room
host_room-IsBusy env r u h = go (mode_of u) (mode_of-IsBusy u h)
  where
    go : (k : Option TransportKind × Ui) → IsBusy k.1 → IsBusy (host_kind env r k)
    go (none, w) g = g
    go (some kind, w) g = waiting-IsBusy _ _ (start_node env r w) (start_node-IsBusy env r w g)

join_room-IsBusy :
    (env : Env) (r : Result Error (Text × Text)) (u : Ui) → IsBusy u → IsBusy (join_room env r u)
unfolding join_room
join_room-IsBusy env r u h = go (mode_of u) (mode_of-IsBusy u h)
  where
    code_given :
        (kind : TransportKind) (b : Bool) (w : Ui)
        → IsBusy w
        → IsBusy (
            if b
            then set_error (text "Enter the room code the host gave you.") w
            else waiting
                (text "Contacting the host...")
                (Started.joins kind (trim w.window.join_code))
                (start_node env r w))
    code_given kind true w g = g
    code_given kind false w g =
        waiting-IsBusy _ _ (start_node env r w) (start_node-IsBusy env r w g)

    go : (k : Option TransportKind × Ui) → IsBusy k.1 → IsBusy (join_kind env r k)
    go (none, w) g = g
    go (some kind, w) g = code_given kind (is_empty (trim w.window.join_code)) w g

send_message-IsBusy : (env : Env) (id : Text) (u : Ui) → IsBusy u → IsBusy (send_message env id u)
unfolding send_message advance
send_message-IsBusy env id u h = go (is_empty (trim u.window.draft))
  where
    sent : (r : Result Error (Unit {0})) (w : Ui) → IsBusy w → IsBusy (chat_sent r w)
    sent (ok _) w g = g
    sent (err e) w g = g

    go :
        (b : Bool)
        → IsBusy (
            if b
            then u
            else with_node u.node
                (λ n w.
                  let (r, m) = send_chat env id (trim u.window.draft) n in
                  chat_sent r (advance n m w))
                u)
    go true = h
    go false = with_node-IsBusy _ u.node u (λ n. sent _ _ h) h

send_file-IsBusy : (env : Env) (p : Option Picked) (u : Ui) → IsBusy u → IsBusy (send_file env p u)
unfolding send_file advance
send_file-IsBusy env p u h = with_node-IsBusy _ u.node u (λ n. picked p n) h
  where
    shown : (r : Result Error (Unit {0})) (w : Ui) → IsBusy w → IsBusy (shown_error r w)
    shown (ok _) w g = g
    shown (err e) w g = g

    picked : (q : Option Picked) (n : Node) → IsBusy (file_picked env q n u)
    picked none n = h
    picked (some q) n = shown _ _ h

respond_offer-IsBusy :
    (env : Env) (transfer : Text) (accept : Bool) (save : SaveDialog) (u : Ui)
    → IsBusy u
    → IsBusy (settled (respond_offer env transfer accept save u) u)
unfolding respond_offer advance
respond_offer-IsBusy env transfer accept save u h = go accept u.node
  where
    answered :
        (n : Node) (r : Checked (Result Error (Unit {0}) × Node))
        → IsBusy (settled (offer_answered n (without_offer transfer u) r) u)
    answered n panics = h
    answered n (returns (ok _, m)) = busy-show_next_offer _ ∙ h
    answered n (returns (err x, m)) = busy-show_next_offer _ ∙ h

    chosen :
        (f : Option (Text × Result IoError (Unit {0}))) (n : Node)
        → IsBusy (settled (accepted env transfer f n u) u)
    chosen none n = h
    chosen (some file) n = answered n _

    go : (a : Bool) (o : Option Node) → IsBusy (settled (respond env transfer a save o u) u)
    go a none = h
    go true (some n) = chosen _ n
    go false (some n) = answered n _

export_history-IsBusy :
    (x : Exporter) (picked : Option (Text × Option Text)) (u : Ui)
    → IsBusy u
    → IsBusy (export_history x picked u)
unfolding export_history
export_history-IsBusy x picked u h = with_node-IsBusy _ u.node u (λ n. to picked n) h
  where
    written : (path : Text) (r : Result Error (List ℕ)) → IsBusy (exported path r u)
    written path (ok _) = h
    written path (err e) = h

    to : (p : Option (Text × Option Text)) (n : Node) → IsBusy (export_to x p n u)
    to none n = h
    to (some (path, file_name)) n = written path _

copy_code-IsBusy :
    (clipboard : Text → Result Text (Unit {0})) (u : Ui) → IsBusy u → IsBusy (copy_code clipboard u)
unfolding copy_code
copy_code-IsBusy clipboard u h = go (is_empty u.window.room_code)
  where
    put : (r : Result Text (Unit {0})) → IsBusy (copied r u)
    put (ok _) = h
    put (err e) = h

    go : (b : Bool) → IsBusy (if b then u else copied (clipboard u.window.room_code) u)
    go true = h
    go false = put _

reopen-IsBusy : (u : Ui) → IsBusy u → IsBusy (reopen u)
unfolding reopen advance
reopen-IsBusy u h = with_node-IsBusy _ u.node u (λ n. said _ _ h) h
  where
    said : (r : Result Error (Unit {0})) (w : Ui) → IsBusy w → IsBusy (reopened r w)
    said (ok _) w g = g
    said (err e) w g = g

-- The happenings that clear the flag.
abbrev pub clears : Happening → Ui → Bool
clears ticks u = clears_flag u
clears clicks_leave u = true
clears _ u = false

off_if : (b c : Bool) → c ≡ true → (if b then false else c) ≡ not b
off_if true c h = refl
off_if false c h = h

-- While the flag is on, whatever happens leaves it on, but for two things: a tick clears it exactly
-- when it takes up the notice of a start that failed, or one of the first 256 events of the queue
-- opens a room or tells of the admission to one, and leaving the room clears it. So it stays on
-- after the host declined the joiner, or was lost before the admission.
pub busy-happen :
    (env : Env) (desk : Desk) (x : Happening) (u : Ui)
    → u.window.busy ≡ true
    → (happen env desk x u).window.busy ≡ not (clears x u)
unfolding happen approve leave_room advance
busy-happen env desk ticks u h = busy-pump env desk u ∙ off_if (clears_flag u) u.window.busy h
busy-happen env desk (passes ms wall) u h = h
busy-happen env desk (notifies m) u h = h
busy-happen env desk (works f) u h = with_node-IsBusy _ u.node u (λ n. h) h
busy-happen env desk (edits display_name mode join_code draft) u h = h
busy-happen env desk (clicks_host identity) u h = host_room-IsBusy env identity u h
busy-happen env desk (clicks_join identity) u h = join_room-IsBusy env identity u h
busy-happen env desk (clicks_approve req accept) u h = with_node-IsBusy _ u.node u (λ n. h) h
busy-happen env desk (clicks_send id) u h = send_message-IsBusy env id u h
busy-happen env desk (clicks_send_file picked) u h = send_file-IsBusy env picked u h
busy-happen env desk (clicks_respond transfer accept save) u h =
    respond_offer-IsBusy env transfer accept save u h
busy-happen env desk (clicks_export x picked) u h = export_history-IsBusy x picked u h
busy-happen env desk (clicks_copy clipboard) u h = copy_code-IsBusy clipboard u h
busy-happen env desk clicks_reopen u h = reopen-IsBusy u h
busy-happen env desk clicks_leave u h = refl
