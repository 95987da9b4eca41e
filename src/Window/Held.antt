-- ===== src/Window/Held.antt =====
-- The session that the window shows and the client of its worker.
use edge_scpoe.Base.{Bool, true, ◌≡◌, subst}
use mathlib.Core.Bool.{false≢true}
use edge_scpoe.Text.{Bytes}
use edge_scpoe.Worker.Simulates.{is_open}
use edge_scpoe.Worker.Actions.{perform}
use edge_scpoe.Worker.Refines.{perform-Simulates}
use edge_scpoe.Window.{Qt}
use edge_scpoe.Window.Handlers.{is_connected, set_connected}
use edge_scpoe.Window.Actions.{main_window}
use edge_scpoe.Window.System.{
  System, linked, linked_after, Reachable, starts, clicks, handles, works,
}
use edge_scpoe.Window.Linked.{linked_after-monotone, linked_after-append, Moves-linked_after}
use edge_scpoe.Window.Shown.{Fades, handle-linked_by, click-Fades}

starts-linked : (D : Type 0) {l : Bool} → linked (main_window {D = D}) ≡ true → l ≡ true
unfolding linked main_window is_connected set_connected
starts-linked D e = absurd (false≢true e)

module _ {D : Type 0} {q : Qt D} {from_std_string : Bytes → Bytes} where
  -- In any state of the window and its worker that comes about, whatever the user clicks, the calls give
  -- and the delivery of signals waits for: a session that the window shows, and that the signals on
  -- their way leave, is one whose client the worker has. A session is shown when the label says Connected
  -- and no box of a failed connect is open.
  pub linked-is_open :
      {s : System D}
      → Reachable q from_std_string s
      → linked_after s.signals (linked s.window) ≡ true
      → is_open s.worker.client ≡ true
  unfolding linked_after Fades
  linked-is_open starts e = starts-linked D e
  linked-is_open (clicks {s = s} c r) e =
      linked-is_open r (linked_after-monotone s.signals (click-Fades q c s.window) e)
  linked-is_open (handles {w = w} {x = x} {rest = rest} r) e =
      linked-is_open r (linked_after-monotone rest (handle-linked_by q x w) e)
  linked-is_open (works {s = s} a r) e =
      let emitted = (perform from_std_string a s.worker).1 in
      Moves-linked_after (perform-Simulates from_std_string a s.worker) (linked-is_open r)
        (subst (λ l. l ≡ true) (linked_after-append s.signals emitted (linked s.window)) e)
