-- ===== src/Window/Consistency.antt =====
-- client/src/MainWindow.cpp: how the label, the buttons and the timers belong together.
use edge_scpoe.Base.{
  if◌then◌else◌, Bool, true, false, not, List, [], ◌∷◌, ◌≡◌, refl, sym, ◌∙◌, if_intro,
}
use mathlib.Core.Bool.{false≢true}
use edge_scpoe.Text.{Bytes}
use edge_scpoe.Window.{
  ConnectionStatus, disconnected_text, connecting_text, Controls, MainWindow, Dialog,
  confirm_process, confirm_service, save_diagnostic, failed, Handled,
}
use edge_scpoe.Window.Handlers.{
  is_connected, with_timers, set_connected, log_stopped, enable_create_for,
}
use edge_scpoe.Window.Buttons.{Answer, when_enabled, closed, answered, saved_at}

-- The buttons to disconnect (`session`), to reconnect and to refresh the network, the logs and the
-- services are enabled together, and the address is editable exactly when they are not. The button
-- that creates a bundle is not among them.
pub record AreLinked (session reconnect network log service host port : Bool) : Type 0 where
  reconnect_agrees : reconnect ≡ session
  network_agrees : network ≡ session
  log_agrees : log ≡ session
  service_agrees : service ≡ session
  host_agrees : host ≡ not session
  port_agrees : port ≡ not session

-- A connect is offered only without a session, a log can be started or stopped only with one, and
-- never both.
pub record AreOffered (session connect start stop : Bool) : Type 0 where
  no_second : connect ≡ true → session ≡ false
  start_needs : start ≡ true → session ≡ true
  stop_needs : stop ≡ true → session ≡ true
  one_of_both : start ≡ true → stop ≡ false

-- The label says Connected only with a session, and the timers run together and only under that label.
pub record AreTimed (session : Bool) (status : ConnectionStatus) (metrics processes : Bool)
    : Type 0 where
  pub label_true : is_connected status ≡ true → session ≡ true
  together : metrics ≡ processes
  timer_needs : metrics ≡ true → is_connected status ≡ true

abbrev pub IsConsistent : Controls → Type 0
IsConsistent c =
    AreLinked c.disconnect_button c.reconnect_button c.network_refresh_button c.log_refresh_button
      c.service_refresh_button c.host_edit c.port_spin
    × AreOffered c.disconnect_button c.connect_button c.log_stream_start_button
        c.log_stream_stop_button
    × AreTimed c.disconnect_button c.connection_status c.metrics_timer c.processes_timer

pub all-AreLinked : (up : Bool) → AreLinked up up up up up (not up) (not up)
all-AreLinked up = record {
  reconnect_agrees = refl;
  network_agrees = refl;
  log_agrees = refl;
  service_agrees = refl;
  host_agrees = refl;
  port_agrees = refl;
}

-- Without timers the label may say anything that it said of the session.
pub idle-AreTimed :
    {session : Bool} (status : ConnectionStatus)
    → (is_connected status ≡ true → session ≡ true)
    → AreTimed session status false false
idle-AreTimed status h = record {
  label_true = h;
  together = refl;
  timer_needs = λ e. absurd (false≢true e);
}

pub set-AreOffered : (up : Bool) → AreOffered up (not up) up false
set-AreOffered true = record {
  no_second = λ e. sym e;
  start_needs = λ e. refl;
  stop_needs = λ e. refl;
  one_of_both = λ e. refl;
}
set-AreOffered false = record {
  no_second = λ e. refl;
  start_needs = λ e. e;
  stop_needs = λ e. e;
  one_of_both = λ e. refl;
}

pub connected-IsConsistent : (c : Controls) → IsConsistent (with_timers true (set_connected true c))
unfolding with_timers set_connected is_connected
connected-IsConsistent c = (
  all-AreLinked true,
  set-AreOffered true,
  record { label_true = λ h. refl; together = refl; timer_needs = λ h. refl },
)

pub disconnected-IsConsistent : (c : Controls) → IsConsistent (set_connected false c)
unfolding with_timers set_connected is_connected
disconnected-IsConsistent c =
    (all-AreLinked false, set-AreOffered false, idle-AreTimed disconnected_text λ h. h)

pub stopped-IsConsistent : (c : Controls) → IsConsistent c → IsConsistent (log_stopped c)
unfolding log_stopped
stopped-IsConsistent c (linked, offered, timed) = (
  linked,
  record {
    no_second = offered.no_second;
    start_needs = timed.label_true;
    stop_needs = λ e. absurd (false≢true e);
    one_of_both = λ e. refl;
  },
  timed,
)

pub created-IsConsistent :
    (operation : Bytes) (c : Controls)
    → IsConsistent c
    → IsConsistent (enable_create_for operation c)
unfolding enable_create_for
created-IsConsistent operation c h = if_intro IsConsistent _ _ _ (λ t. h) λ t. h

unfoldable pub AfterConsistent : {D : Type 0} → Handled D → Type 0
AfterConsistent handled = IsConsistent handled.0.controls

pub if-AfterConsistent :
    {D : Type 0} (b : Bool) (x y : Handled D)
    → AfterConsistent x
    → AfterConsistent y
    → AfterConsistent (if b then x else y)
if-AfterConsistent b x y h k = if_intro AfterConsistent b x y (λ t. h) λ t. k

-- A handler behind a button may take it that the button is enabled.
pub enabled-AfterConsistent :
    {D : Type 0} (b : Bool) (x : Handled D) (w : MainWindow D)
    → IsConsistent w.controls
    → (b ≡ true → AfterConsistent x)
    → AfterConsistent (when_enabled b x w)
unfolding when_enabled AfterConsistent
enabled-AfterConsistent true x w h k = k refl
enabled-AfterConsistent false x w h k = h

-- The timers stop, under the same label or another one that is not Connected.
pub quiet-IsConsistent :
    {status : ConnectionStatus} (c : Controls)
    → IsConsistent c
    → (is_connected status ≡ true → c.disconnect_button ≡ true)
    → IsConsistent (record (with_timers false c) { connection_status = status })
unfolding with_timers
quiet-IsConsistent {status = status} c (linked, offered, timed) h =
    (linked, offered, idle-AreTimed status h)

pub streaming-IsConsistent :
    (c : Controls)
    → IsConsistent c
    → c.log_stream_start_button ≡ true
    → IsConsistent (record c { log_stream_start_button = false; log_stream_stop_button = true })
streaming-IsConsistent c (linked, offered, timed) h = (
  linked,
  record {
    no_second = offered.no_second;
    start_needs = λ e. absurd (false≢true e);
    stop_needs = λ e. offered.start_needs h;
    one_of_both = λ e. absurd (false≢true e);
  },
  timed,
)

-- A session that is asked for: no connect is offered, and no session is there.
pub connecting-IsConsistent :
    (c : Controls)
    → IsConsistent c
    → c.connect_button ≡ true
    → IsConsistent (record c { connection_status = connecting_text; connect_button = false })
unfolding is_connected
connecting-IsConsistent c (linked, offered, timed) h = (
  linked,
  record {
    no_second = λ e. absurd (false≢true e);
    start_needs = offered.start_needs;
    stop_needs = offered.stop_needs;
    one_of_both = offered.one_of_both;
  },
  record {
    label_true = λ e. absurd (false≢true e);
    together = timed.together;
    timer_needs = λ e.
        absurd (false≢true (sym (offered.no_second h) ∙ timed.label_true (timed.timer_needs e)));
  },
)

module _ {D : Type 0} where
  pub answered-AfterConsistent :
      (dialog : Dialog) (a : Answer) (w : MainWindow D)
      → IsConsistent w.controls
      → AfterConsistent (answered dialog a w)
  unfolding AfterConsistent answered saved_at
  answered-AfterConsistent (confirm_process pid action) a w h = if-AfterConsistent _ _ _ h h
  answered-AfterConsistent (confirm_service name action) a w h = if-AfterConsistent _ _ _ h h
  answered-AfterConsistent save_diagnostic a w h = if-AfterConsistent _ _ _ h h
  answered-AfterConsistent (failed operation) a w h =
      if-AfterConsistent _ _ _ (disconnected-IsConsistent w.controls) h

  pub closed-AfterConsistent :
      (dialogs : List Dialog) (a : Answer) (w : MainWindow D)
      → IsConsistent w.controls
      → AfterConsistent (closed dialogs a w)
  unfolding closed AfterConsistent
  closed-AfterConsistent [] a w h = h
  closed-AfterConsistent (dialog ∷ rest) a w h =
      answered-AfterConsistent dialog a (record w { dialogs = rest }) h
