-- ===== src/Ui/Session/Reachable.antt =====
-- ui/src/main.rs: what holds of the interface whatever happens, and in whatever order.
use mesh_chat.Prelude.{ℕ, refl, List, [], ◌∷◌, arith}
use mesh_chat.Protocol.{ℤ}
use mesh_chat.Node.{Env}
use mesh_chat.Ui.{Ui, Desk, new, reset_models}
use mesh_chat.Ui.Pump.{drop_node}
use mesh_chat.Ui.Callbacks.{approve, leave_room}
use mesh_chat.Ui.Session.{
  Happening, ticks, passes, notifies, works, edits, clicks_host, clicks_join, clicks_approve,
  clicks_send, clicks_send_file, clicks_respond, clicks_export, clicks_copy, clicks_reopen,
  clicks_leave, happen, session,
}
use mesh_chat.Ui.Session.WellFormed.{IsWell, dropped-Well, pump-IsWell}
use mesh_chat.Ui.Session.Starting.{host_room-IsWell, join_room-IsWell}
use mesh_chat.Ui.Session.Calls.{
  advance-IsWell, with_node-IsWell, send_message-IsWell, send_file-IsWell, respond_offer-IsWell,
  export_history-IsWell, copy_code-IsWell, reopen-IsWell,
}

-- One happening keeps what holds.
happen-IsWell :
    (env : Env) (desk : Desk) (x : Happening) (u : Ui) → IsWell u → IsWell (happen env desk x u)
unfolding happen approve leave_room drop_node reset_models
happen-IsWell env desk ticks u h = pump-IsWell env desk u h
happen-IsWell env desk (passes ms wall) u h = h
happen-IsWell env desk (notifies m) u h = h
happen-IsWell env desk (works f) u h = with_node-IsWell _ u (λ n e. advance-IsWell n (f n) u e h) h
happen-IsWell env desk (edits display_name mode join_code draft) u h = h
happen-IsWell env desk (clicks_host identity) u h = host_room-IsWell env identity u h
happen-IsWell env desk (clicks_join identity) u h = join_room-IsWell env identity u h
happen-IsWell env desk (clicks_approve req accept) u h =
    with_node-IsWell _ u
      (λ n e. record {
        bounded = h.bounded;
        peers = h.peers;
        transfers = h.transfers;
        coupled = h.coupled;
        prompted = h.prompted;
        left = h.left;
      })
      h
happen-IsWell env desk (clicks_send id) u h = send_message-IsWell env id u h
happen-IsWell env desk (clicks_send_file picked) u h = send_file-IsWell env picked u h
happen-IsWell env desk (clicks_respond transfer accept save) u h =
    respond_offer-IsWell env transfer accept save u h
happen-IsWell env desk (clicks_export x picked) u h = export_history-IsWell x picked u h
happen-IsWell env desk (clicks_copy clipboard) u h = copy_code-IsWell clipboard u h
happen-IsWell env desk clicks_reopen u h = reopen-IsWell u h
happen-IsWell env desk clicks_leave u h = dropped-Well env u [] [] h

session_keeps :
    (env : Env) (desk : Desk) (xs : List Happening) (u : Ui)
    → IsWell u
    → IsWell (session env desk xs u)
unfolding session
session_keeps env desk [] u h = h
session_keeps env desk (x ∷ xs) u h =
    session_keeps env desk xs (happen env desk x u) (happen-IsWell env desk x u h)

-- Whatever happens to a new interface and in whatever order (callbacks, edits, ticks, notices, any
-- work of the engine's threads): at most 2000 lines are on screen, each peer and each transfer has
-- one row, there is a queue of events just when there is a node, then the prompt shows the oldest
-- offer that waits or nothing when none does, and every node that was let go had left its room.
pub session-IsWell :
    (env : Env) (desk : Desk) (now : ℕ) (wall : ℤ) (xs : List Happening)
    → IsWell (session env desk xs (new now wall))
unfolding new
session-IsWell env desk now wall xs = session_keeps env desk xs _ (record {
  bounded = omega arith;
  peers = tt;
  transfers = tt;
  coupled = refl;
  prompted = λ q. cc q;
  left = tt;
})
