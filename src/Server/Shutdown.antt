-- ===== src/Server/Shutdown.antt =====
-- A server of Server/src/server.cpp once its queue was closed.
use osborne_x.Base.{◌≡◌, ap, subst, ◌∙◌, inl, inr, true, List, [], ◌∷◌, some, arith, Option-cases}
use mathlib.Core.List.{append-nil}
use osborne_x.Messages.{OrderMessage}
use osborne_x.Queue.MpscQueue.{MpscQueue, push, pop_blocking, take_front, close}
use osborne_x.Server.{
  Server, stop, stop_consumers, receive_order, pump_once, Call, starts, stops, receives, pumps,
  perform, perform_all,
}
use osborne_x.Server.Lifecycle.{IsCoherent, stop-Returns}
use osborne_x.Server.Calls.{
  taken_in, stop_consumers-after, IsLike, StartsLike, starts-after, stop-after,
}

-- A queue that stays closed and empty, with what was submitted until then.
pub record IsSpent (ms : List OrderMessage) (s : Server) : Type 0 where
  pub closed : s.inbound_queue.closed ≡ true
  pub emptied : s.inbound_queue.items ≡ []
  pub submitted : s.pump.submitted ≡ ms

IsSpent-after :
    (ms : List OrderMessage) (s s' : Server)
    → IsSpent ms s
    → stop_consumers s ≡ some s'
    → IsSpent ms s'
unfolding close
IsSpent-after ms s s' h e = record {
  closed = ground (arith, stop_consumers-after s s' e, h.closed);
  emptied = ground (arith, stop_consumers-after s s' e, h.emptied);
  submitted =
      ground
        (arith, stop_consumers-after s s' e, h.emptied, h.submitted, append-nil s.pump.submitted);
}

IsSpent-like : (ms : List OrderMessage) (s s' : Server) → IsSpent ms s → IsLike s s' → IsSpent ms s'
IsSpent-like ms s s' h (q, p) = record {
  closed = ap (λ (l : MpscQueue OrderMessage). l.closed) q ∙ h.closed;
  emptied = ap (λ (l : MpscQueue OrderMessage). l.items) q ∙ h.emptied;
  submitted = p ∙ h.submitted;
}

IsSpent-starts :
    (ms : List OrderMessage) (s s' : Server) → IsSpent ms s → StartsLike s s' → IsSpent ms s'
IsSpent-starts ms s s' h (inl l) = IsSpent-like ms s s' h l
IsSpent-starts ms s s' h (inr (t, l, e)) = IsSpent-after ms t s' (IsSpent-like ms s t h l) e

perform-IsSpent :
    (ms : List OrderMessage) (c : Call) (s s' : Server)
    → IsSpent ms s
    → perform c s ≡ some s'
    → IsSpent ms s'
unfolding perform receive_order pump_once push pop_blocking take_front
perform-IsSpent ms (starts a) s s' h e = IsSpent-starts ms s s' h (starts-after a s s' e)
perform-IsSpent ms stops s s' h e = IsSpent-starts ms s s' h (stop-after s s' e)
perform-IsSpent ms (receives m) s s' h e =
    IsSpent-like ms s s' h (ground (arith, h.closed, h.emptied))
perform-IsSpent ms pumps s s' h e = IsSpent-like ms s s' h (ground (arith, h.closed, h.emptied))

perform_all-IsSpent :
    (ms : List OrderMessage) (cs : List Call) (s s' : Server)
    → IsSpent ms s
    → perform_all cs s ≡ some s'
    → IsSpent ms s'
unfolding perform_all
perform_all-IsSpent ms [] s s' h e = IsSpent-like ms s s' h (ground arith)
perform_all-IsSpent ms (c ∷ cs) s s' h e = elim (Option-cases (perform c s)) [
  | inl n ↦ absurd (ground arith)
  | inr (t, n) ↦ perform_all-IsSpent ms cs t s' (perform-IsSpent ms c s t h n) (ground arith)
]

-- Once a server was stopped, it never submits an order again, whatever calls follow: not even after a
-- `start` that returns true, since the queue stays closed. All that waited at the stop was submitted by
-- then. The server ran before the stop, and its parts agree.
pub stop-drops :
    (cs : List Call) (s s' t : Server)
    → IsCoherent s
    → s.running ≡ true
    → stop s ≡ some s'
    → perform_all cs s' ≡ some t
    → (s'.pump.submitted ≡ taken_in s) × (t.pump.submitted ≡ taken_in s)
stop-drops cs s s' t c e h run =
    let (u, returned, _, _, queue, submitted) = stop-Returns s c e in
    let same : u ≡ s' = ground (arith, returned) in
    let spent : IsSpent (taken_in s) u = record {
      closed = ap (λ (q : MpscQueue OrderMessage). q.closed) queue;
      emptied = ap (λ (q : MpscQueue OrderMessage). q.items) queue;
      submitted = submitted;
    } in
    let spent' : IsSpent (taken_in s) s' = subst (IsSpent (taken_in s)) same spent in
    (spent'.submitted, (perform_all-IsSpent (taken_in s) cs s' t spent' run).submitted)
