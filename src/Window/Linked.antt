-- ===== src/Window/Linked.antt =====
-- client/src/RpcWorker.cpp: the session that a row of signals tells of.
use edge_scpoe.Base.{Bool, true, false, List, [], ◌∷◌, ◌++◌, ◌≡◌, refl}
use mathlib.Core.Bool.{false≢true}
use edge_scpoe.Text.{equal}
use edge_scpoe.Worker.{
  Signal, connected, disconnected, log_stream_stopped, metrics_ready, processes_ready,
  process_details_ready, network_ready, logs_ready, log_content_ready, log_line_ready,
  services_ready, diagnostic_progress, diagnostic_ready, operation_succeeded, rpc_error,
}
use edge_scpoe.Worker.Session.{
  Move, Moves, accepts, fails, closes, result, refused, loses, line, breaks, stops, done, next,
  begins,
}
use edge_scpoe.Window.System.{linked_by, linked_after}

linked_by-monotone :
    {D : Type 0} (s : Signal D) {l l' : Bool}
    → (l ≡ true → l' ≡ true)
    → linked_by s l ≡ true
    → linked_by s l' ≡ true
unfolding linked_by
linked_by-monotone (connected info) h e = refl
linked_by-monotone disconnected h e = e
linked_by-monotone (rpc_error operation message true) h e = e
linked_by-monotone (rpc_error operation message false) {l = true} {l' = true} h e = e
linked_by-monotone (rpc_error operation message false) {l = true} {l' = false} h e =
    absurd (false≢true (h refl))
linked_by-monotone (rpc_error operation message false) {l = false} h e = absurd (false≢true e)
linked_by-monotone log_stream_stopped h e = h e
linked_by-monotone (metrics_ready metrics) h e = h e
linked_by-monotone (processes_ready processes) h e = h e
linked_by-monotone (process_details_ready process) h e = h e
linked_by-monotone (network_ready interfaces connections) h e = h e
linked_by-monotone (logs_ready logs) h e = h e
linked_by-monotone (log_content_ready lines truncated) h e = h e
linked_by-monotone (log_line_ready text) h e = h e
linked_by-monotone (services_ready services) h e = h e
linked_by-monotone (diagnostic_progress received total) h e = h e
linked_by-monotone (diagnostic_ready path size) h e = h e
linked_by-monotone (operation_succeeded message) h e = h e

pub linked_after-monotone :
    {D : Type 0} (signals : List (Signal D)) {l l' : Bool}
    → (l ≡ true → l' ≡ true)
    → linked_after signals l ≡ true
    → linked_after signals l' ≡ true
unfolding linked_after
linked_after-monotone [] h e = h e
linked_after-monotone (s ∷ rest) h e = linked_after-monotone rest (linked_by-monotone s h) e

pub linked_after-append :
    {D : Type 0} (xs ys : List (Signal D)) (l : Bool)
    → linked_after (xs ++ ys) l ≡ linked_after ys (linked_after xs l)
unfolding linked_after
linked_after-append [] ys l = refl
linked_after-append (s ∷ rest) ys l = linked_after-append rest ys (linked_by s l)

Move-linked_by :
    {D : Type 0} {o f o' f' : Bool} {s : Signal D} {l : Bool}
    → Move D o f s o' f'
    → (l ≡ true → o ≡ true)
    → linked_by s l ≡ true
    → o' ≡ true
unfolding linked_by equal
Move-linked_by (accepts info) h e = refl
Move-linked_by (fails message true) h e = absurd (false≢true e)
Move-linked_by {l = true} (fails message false) h e = absurd (false≢true e)
Move-linked_by {l = false} (fails message false) h e = absurd (false≢true e)
Move-linked_by closes h e = absurd (false≢true e)
Move-linked_by (result s r) h e = refl
Move-linked_by (refused operation message call) h e = refl
Move-linked_by (loses operation message call) h e = absurd (false≢true e)
Move-linked_by (line text) h e = h e
Move-linked_by (breaks message true) h e = absurd (false≢true e)
Move-linked_by {l = true} (breaks message false) h e = h refl
Move-linked_by {l = false} (breaks message false) h e = absurd (false≢true e)
Move-linked_by stops h e = h e

pub Moves-linked_after :
    {D : Type 0} {o f o' f' : Bool} {signals : List (Signal D)} {l : Bool}
    → Moves D o f signals o' f'
    → (l ≡ true → o ≡ true)
    → linked_after signals l ≡ true
    → o' ≡ true
unfolding linked_after
Moves-linked_after done h e = h e
Moves-linked_after (next m rest) h e = Moves-linked_after rest (Move-linked_by m h) e
Moves-linked_after (begins rest) h e = Moves-linked_after rest (λ t. refl) e
