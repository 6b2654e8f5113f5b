-- ===== src/WsServer/Events.antt =====
-- websocket/server_ws.hpp: how the callbacks that a connection makes tell whether its endpoint
-- holds it, over every operation on a connection.
use juce_simpleweb.Prelude.{
  ℕ, ◌≡◌, refl, sym, ◌∙◌, inl, inr, Bool, true, false, Option, none, some, List, [], ◌∷◌, ◌++◌,
  append-nil, append_assoc, Bytes, Option-cases, ◌>>=◌, if◌then◌else◌,
}
use juce_simpleweb.WsServer.{
  Event, opened, closes, fails, ErrorCode, Timer, no_timer, cancelled, armed, Connection, send,
  send_close, close, on_written, on_timer, connection_open, connection_close, connection_error,
  set_timeout, notify,
}
use juce_simpleweb.SendQueue
use juce_simpleweb.WsServer.Limits.{frame_for, send-queues}
use juce_simpleweb.SendQueue.Total.{enqueue-total}

-- Whether the endpoint holds the connection after a callback, and after several.
abbrev pub held_after : Event → Bool → Bool
held_after opened held = true
held_after (closes status reason) held = false
held_after (fails ec) held = false
held_after e held = held

abbrev pub held_after_all : List Event → Bool → Bool
held_after_all [] held = held
held_after_all (e ∷ events) held = held_after_all events (held_after e held)

pub held_after_all-append :
    (xs ys : List Event) (held : Bool)
    → held_after_all (xs ++ ys) held ≡ held_after_all ys (held_after_all xs held)
held_after_all-append [] ys held = refl
held_after_all-append (e ∷ xs) ys held = held_after_all-append xs ys (held_after e held)

-- on_open, on_close and on_error are set.
pub record IsHeard (c : Connection) : Type 0 where
  pub opens : c.handlers.on_open ≡ true
  pub closed : c.handlers.on_close ≡ true
  pub failed : c.handlers.on_error ≡ true

-- One connection state comes after another, and the callbacks between them tell whether the
-- endpoint holds it.
pub record Tells (c d : Connection) : Type 0 where
  pub events : List Event
  pub logged : d.log ≡ c.log ++ events
  pub held : d.joined ≡ held_after_all events c.joined
  pub same_handlers : d.handlers ≡ c.handlers

-- The same of an operation that may have no result.
unfoldable pub Ends : Connection → Option Connection → Type 0
Ends c none = Unit
Ends c (some d) = Tells c d

pub Tells-refl : (c : Connection) → Tells c c
Tells-refl c = record {
  events = [];
  logged = sym (append-nil c.log);
  held = refl;
  same_handlers = refl;
}

pub Tells-trans : (b c d : Connection) → Tells b c → Tells c d → Tells b d
Tells-trans b c d s t = record {
  events = s.events ++ t.events;
  logged = rw (t.logged, s.logged) (append_assoc b.log s.events t.events);
  held = rw (t.held, s.held) (sym (held_after_all-append s.events t.events b.joined));
  same_handlers = t.same_handlers ∙ s.same_handlers;
}

pub Ends-trans : (b c : Connection) (o : Option Connection) → Tells b c → Ends c o → Ends b o
unfolding Ends
Ends-trans b c none s t = tt
Ends-trans b c (some d) s t = Tells-trans b c d s t

pub goes : (c d : Connection) → Tells c d → Ends c (some d)
unfolding Ends
goes c d s = s

pub Ends-some : {c d : Connection} → Ends c (some d) → Tells c d
unfolding Ends
Ends-some s = s

pub Ends-if :
    (c : Connection) (b : Bool) (x y : Option Connection)
    → Ends c x
    → Ends c y
    → Ends c (if b then x else y)
Ends-if c true x y s t = s
Ends-if c false x y s t = t

-- A step that makes no callback.
pub silent :
    (c d : Connection) → d.log ≡ c.log → d.joined ≡ c.joined → d.handlers ≡ c.handlers → Tells c d
silent c d e f g = record {
  events = [];
  logged = e ∙ sym (append-nil c.log);
  held = f;
  same_handlers = g;
}

pub Tells-IsHeard : (c d : Connection) → Tells c d → IsHeard c → IsHeard d
Tells-IsHeard c d s h = record {
  opens = rw s.same_handlers h.opens;
  closed = rw s.same_handlers h.closed;
  failed = rw s.same_handlers h.failed;
}

pub Ends-bind :
    (c : Connection) (o : Option Connection) (f : Connection → Option Connection)
    → IsHeard c
    → Ends c o
    → ((d : Connection) → IsHeard d → Ends d (f d))
    → Ends c (o >>= f)
unfolding Ends
Ends-bind c none f h s t = tt
Ends-bind c (some d) f h s t = Ends-trans c d (f d) s (t d (Tells-IsHeard c d s h))

-- The callbacks of the endpoint itself.
pub connection_open-Tells : (c : Connection) → IsHeard c → Tells c (connection_open c)
unfolding connection_open
connection_open-Tells c h = record {
  events = opened ∷ [];
  logged = rw h.opens refl;
  held = refl;
  same_handlers = refl;
}

pub connection_close-Tells :
    (status : ℕ) (reason : Bytes) (c : Connection)
    → IsHeard c
    → Tells c (connection_close status reason c)
unfolding connection_close
connection_close-Tells status reason c h = record {
  events = closes status reason ∷ [];
  logged = rw h.closed refl;
  held = refl;
  same_handlers = refl;
}

pub connection_error-Tells :
    (ec : ErrorCode) (c : Connection) → IsHeard c → Tells c (connection_error ec c)
unfolding connection_error
connection_error-Tells ec c h = record {
  events = fails ec ∷ [];
  logged = rw h.failed refl;
  held = refl;
  same_handlers = refl;
}

-- A callback that leaves the endpoint's set alone, told if it is set.
pub notify-Tells :
    (is_set : Bool) (e : Event) (c : Connection)
    → held_after e c.joined ≡ c.joined
    → Tells c (notify is_set e c)
notify-Tells true e c h = record {
  events = e ∷ [];
  logged = refl;
  held = sym h;
  same_handlers = refl;
}
notify-Tells false e c h = record { events = []; logged = refl; held = refl; same_handlers = refl }

-- A send is silent.
pub send-Ends :
    (message : Bytes) (callback : Option ℕ) (op : ℕ) (c : Connection)
    → Ends c (send message callback op c)
unfolding Ends
send-Ends message callback op c =
    let (q, e) = enqueue-total (frame_for op message) callback c.queue in
    rw (send-queues message callback op c q e)
      (record { events = []; logged = sym (append-nil c.log); held = refl; same_handlers = refl })

pub send_close-Ends :
    (status : ℕ) (reason : Bytes) (callback : Option ℕ) (c : Connection)
    → Ends c (send_close status reason callback c)
unfolding send_close
send_close-Ends status reason callback c = Ends-if c c.closed (some c) _ (goes c c (Tells-refl c)) (
    Ends-trans c (record c { closed = true }) _ (silent c _ refl refl refl)
      (send-Ends _ callback 136 (record c { closed = true })))

-- The other operations on a connection make no callback: the handlers of a write and of a timer.
pub on_written-Ends : (lock failed : Bool) (c : Connection) → Ends c (on_written lock failed c)
unfolding on_written Ends set_timeout
on_written-Ends lock failed c = elim (Option-cases (SendQueue.on_written lock failed c.queue)) [
  | inl e ↦ rw e tt
  | inr (q, e) ↦ rw e (silent c _ refl refl refl)
]

pub on_timer-Tells : (c : Connection) → Tells c (on_timer c)
unfolding on_timer close
on_timer-Tells c = go c.timer
  where
    go :
        (timer : Timer)
        → Tells c (elim timer [ armed _ ↦ record c { socket_open = false } | _ ↦ c ])
    go no_timer = Tells-refl c
    go cancelled = Tells-refl c
    go (armed seconds) = silent c _ refl refl refl
