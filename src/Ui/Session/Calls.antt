-- ===== src/Ui/Session/Calls.antt =====
-- ui/src/main.rs: the callbacks that call the node.
use mesh_chat.Prelude.{
  ℕ, ◌≡◌, refl, sym, ap, ◌∙◌, subst, Text, Option, none, some, List, Bool, true, false, is_some,
  if◌then◌else◌,
}
use mesh_chat.Error.{Error, IoError, Result, ok, err}
use mesh_chat.Text.{is_empty}
use mesh_chat.Text.Trim.{trim}
use mesh_chat.Protocol.{Checked, returns, panics}
use mesh_chat.History.{Exporter}
use mesh_chat.Node.{Node, Env}
use mesh_chat.Node.Events.{Event}
use mesh_chat.Ui.{Ui}
use mesh_chat.Mesh.{send_chat}
use mesh_chat.Ui.Events.Engine.{show_next_offer-SameRows}
use mesh_chat.Ui.Callbacks.{
  Picked, SaveDialog, advance, told, queued, with_node, chat_sent, send_message, shown_error,
  file_picked, send_file, offer_answered, answer, accepted, respond, respond_offer, exported,
  export_to, export_history, copied, copy_code, reopened, reopen, without_offer,
}
use mesh_chat.Ui.Session.{settled}
use mesh_chat.Ui.Session.WellFormed.{IsWell, Well, show_next_offer-IsWell}

is_some-queued : (q : Option (List Event)) (es : List Event) → is_some (queued q es) ≡ is_some q
is_some-queued none es = refl
is_some-queued (some q) es = refl

-- The node goes on, with its queue.
pub advance-IsWell :
    (n m : Node) (u : Ui) → is_some u.node ≡ true → IsWell u → IsWell (advance n m u)
unfolding advance
advance-IsWell n m u e h =
    subst
      (λ (b : Bool × Bool). Well u.models b.0 b.1 u.window.offer_id u.window.offer_text u.let_go)
      (ap (λ a. (a, is_some u.rx)) e ∙ ap (λ b. (true, b)) (sym (is_some-queued u.rx (told n m)))) h

-- A callback that needs a node does nothing without one.
pub with_node-IsWell :
    (f : Node → Ui → Ui) (u : Ui)
    → ((n : Node) → is_some u.node ≡ true → IsWell (f n u))
    → IsWell u
    → IsWell (with_node u.node f u)
with_node-IsWell f u k h = go u.node refl
  where
    go : (o : Option Node) → is_some u.node ≡ is_some o → IsWell (with_node o f u)
    go none e = h
    go (some n) e = k n e

chat_sent-IsWell : (r : Result Error (Unit {0})) (u : Ui) → IsWell u → IsWell (chat_sent r u)
chat_sent-IsWell (ok _) u h = h
chat_sent-IsWell (err e) u h = h

shown_error-IsWell : (r : Result Error (Unit {0})) (u : Ui) → IsWell u → IsWell (shown_error r u)
shown_error-IsWell (ok _) u h = h
shown_error-IsWell (err e) u h = h

pub send_message-IsWell :
    (env : Env) (id : Text) (u : Ui) → IsWell u → IsWell (send_message env id u)
unfolding send_message
send_message-IsWell env id u h = go (is_empty (trim u.window.draft))
  where
    go :
        (b : Bool)
        → IsWell (
            if b
            then u
            else with_node u.node
                (λ n w.
                  let (r, m) = send_chat env id (trim u.window.draft) n in
                  chat_sent r (advance n m w))
                u)
    go true = h
    go false = with_node-IsWell _ u (λ n e. chat_sent-IsWell _ _ (advance-IsWell n _ u e h)) h

file_picked-IsWell :
    (env : Env) (p : Option Picked) (n : Node) (u : Ui)
    → is_some u.node ≡ true
    → IsWell u
    → IsWell (file_picked env p n u)
file_picked-IsWell env none n u e h = h
file_picked-IsWell env (some p) n u e h = shown_error-IsWell _ _ (advance-IsWell n _ u e h)

pub send_file-IsWell :
    (env : Env) (p : Option Picked) (u : Ui) → IsWell u → IsWell (send_file env p u)
unfolding send_file
send_file-IsWell env p u h = with_node-IsWell _ u (λ n e. file_picked-IsWell env p n u e h) h

offer_answered-IsWell :
    (n : Node) (u : Ui) (r : Checked (Result Error (Unit {0}) × Node)) (before : Ui)
    → is_some u.node ≡ true
    → IsWell u
    → IsWell before
    → IsWell (settled (offer_answered n u r) before)
offer_answered-IsWell n u panics before e h b = b
offer_answered-IsWell n u (returns (ok _, m)) before e h b = advance-IsWell n m u e h
offer_answered-IsWell n u (returns (err x, m)) before e h b = advance-IsWell n m u e h

answer-IsWell :
    (env : Env) (transfer : Text) (save_to : Option (Text × Result IoError (Unit {0}))) (n : Node)
    (u : Ui)
    → is_some u.node ≡ true
    → IsWell u
    → IsWell (settled (answer env transfer save_to n u) u)
answer-IsWell env transfer save_to n u e h =
    offer_answered-IsWell n (without_offer transfer u) _ u
      (ap (λ o. is_some o) (show_next_offer-SameRows _).node ∙ e) (show_next_offer-IsWell _ u h) h

pub respond_offer-IsWell :
    (env : Env) (transfer : Text) (accept : Bool) (save : SaveDialog) (u : Ui)
    → IsWell u
    → IsWell (settled (respond_offer env transfer accept save u) u)
unfolding respond_offer
respond_offer-IsWell env transfer accept save u h = go accept u.node refl
  where
    chosen :
        (f : Option (Text × Result IoError (Unit {0}))) (n : Node)
        → is_some u.node ≡ true
        → IsWell (settled (accepted env transfer f n u) u)
    chosen none n e = h
    chosen (some file) n e = answer-IsWell env transfer (some file) n u e h

    go :
        (a : Bool) (o : Option Node)
        → is_some u.node ≡ is_some o
        → IsWell (settled (respond env transfer a save o u) u)
    go a none e = h
    go true (some n) e = chosen _ n e
    go false (some n) e = answer-IsWell env transfer none n u e h

pub export_history-IsWell :
    (x : Exporter) (picked : Option (Text × Option Text)) (u : Ui)
    → IsWell u
    → IsWell (export_history x picked u)
unfolding export_history
export_history-IsWell x picked u h = with_node-IsWell _ u (λ n e. to picked n) h
  where
    written : (path : Text) (r : Result Error (List ℕ)) → IsWell (exported path r u)
    written path (ok _) = h
    written path (err e) = h

    to : (p : Option (Text × Option Text)) (n : Node) → IsWell (export_to x p n u)
    to none n = h
    to (some (path, file_name)) n = written path _

pub copy_code-IsWell :
    (clipboard : Text → Result Text (Unit {0})) (u : Ui) → IsWell u → IsWell (copy_code clipboard u)
unfolding copy_code
copy_code-IsWell clipboard u h = go (is_empty u.window.room_code)
  where
    put : (r : Result Text (Unit {0})) → IsWell (copied r u)
    put (ok _) = h
    put (err e) = h

    go : (b : Bool) → IsWell (if b then u else copied (clipboard u.window.room_code) u)
    go true = h
    go false = put _

pub reopen-IsWell : (u : Ui) → IsWell u → IsWell (reopen u)
unfolding reopen
reopen-IsWell u h = with_node-IsWell _ u (λ n e. said _ _ (advance-IsWell n _ u e h)) h
  where
    said : (r : Result Error (Unit {0})) (w : Ui) → IsWell w → IsWell (reopened r w)
    said (ok _) w g = g
    said (err e) w g = g
