-- ===== src/Dashboard/Socket/Single.antt =====
-- How many sockets the dashboard holds.
use nexus_queue.Prelude.{
  ℕ, ◌+◌, ◌*◌, ◌-◌, ◌≤◌, ◌<◌, ◌≡◌, ◌≢◌, refl, ap, subst, min, Bool, true, false, ◌⊎◌, inl, inr,
  none, some, List, [], ◌∷◌, arith,
}
use nexus_queue.Prelude.Tests.{◌==◌, ==_refl, if◌then◌else◌, or_else}
use nexus_queue.Dashboard.Socket.{
  WebSocketManager, initial, Opening, returns, throws, Event, disconnected, subscribed, timer,
  opened, closed, failed, is_open, drop_socket, on_close, connect, disconnect, step, steps,
}

-- The states after the first subscription, as long as nobody disconnects.
pub data Reach : WebSocketManager → Type 0 where
  first : (o : Opening) → Reach (connect o initial)
  next :
      {m m' : WebSocketManager} (e : Event)
      → Reach m
      → e ≢ disconnected
      → step m e ≡ some m'
      → Reach m'

-- One socket, or none and a timer that will make one.
abbrev pub Kept : WebSocketManager → Type 0
Kept m =
    ((n : ℕ) × (m.ws ≡ some n) × (m.sockets ≡ n ∷ []))
    ⊎ ((m.ws ≡ none) × (m.sockets ≡ []) × (1 ≤ m.timers))

abbrev Sound : WebSocketManager → Type 0
Sound m =
    (m.should_reconnect ≡ true) × (1000 ≤ m.reconnect_delay) × (m.reconnect_delay ≤ 30000) × Kept m

-- The same, but for the timer.
abbrev Ready : WebSocketManager → Type 0
Ready m =
    (m.should_reconnect ≡ true)
    × (1000 ≤ m.reconnect_delay)
    × (m.reconnect_delay ≤ 30000)
    × (((n : ℕ) × (m.ws ≡ some n) × (m.sockets ≡ n ∷ [])) ⊎ ((m.ws ≡ none) × (m.sockets ≡ [])))

connect-Ready : (o : Opening) (m : WebSocketManager) → Ready m → Sound (connect o m)
unfolding connect
connect-Ready o m (r, l, u, inl (n, w, e)) = rw w (r, l, u, inl (n, refl, e))
connect-Ready returns m (r, l, u, inr (w, e)) =
    rw w (refl, l, u, inl (m.made, refl, ap (λ ns. m.made ∷ ns) e))
connect-Ready throws m (r, l, u, inr (w, e)) =
    rw w (refl, ground arith, ground arith, inr (refl, e, ground arith))

Sound-Ready : (m : WebSocketManager) → Sound m → Ready m
Sound-Ready m (r, l, u, inl k) = (r, l, u, inl k)
Sound-Ready m (r, l, u, inr (w, e, t)) = (r, l, u, inr (w, e))

some-Sound : (x m' : WebSocketManager) → Sound x → some x ≡ some m' → Sound m'
some-Sound x m' s h = subst Sound (ap (λ o. or_else o x) h) s

when-Sound :
    (c : Bool) (x m' : WebSocketManager)
    → (c ≡ true → Sound x)
    → (if c then some x else none) ≡ some m'
    → Sound m'
when-Sound true x m' s h = some-Sound x m' (s refl) h
when-Sound false x m' s h = cc

unless-Sound :
    (c : Bool) (x m' : WebSocketManager)
    → Sound x
    → (if c then none else some x) ≡ some m'
    → Sound m'
unless-Sound true x m' s h = cc
unless-Sound false x m' s h = some-Sound x m' s h

-- The only socket is dropped.
drop-Kept :
    (m : WebSocketManager) (n : ℕ)
    → Kept m
    → is_open n m.sockets ≡ true
    → drop_socket n m.sockets ≡ []
drop-Kept m n (inl (p, w, e)) h = ground arith
drop-Kept m n (inr (w, e, t)) h = ground arith

close-Sound :
    (m : WebSocketManager) (n : ℕ) → Sound m → is_open n m.sockets ≡ true → Sound (on_close n m)
close-Sound m n (r, l, u, k) h =
    rw r (refl, ground arith, ground arith, inr (refl, drop-Kept m n k h, ground arith))

step-Sound :
    (m m' : WebSocketManager) (e : Event)
    → e ≢ disconnected
    → Sound m
    → step m e ≡ some m'
    → Sound m'
unfolding step
step-Sound m m' disconnected ne s h = absurd (ne refl)
step-Sound m m' (subscribed o) ne s h =
    some-Sound (connect o m) m' (connect-Ready o m (Sound-Ready m s)) h
step-Sound m m' (timer o) ne s h =
    unless-Sound (m.timers == 0) _ m'
      (connect-Ready o (record m { timers = m.timers - 1 }) (Sound-Ready m s)) h
step-Sound m m' (opened n) ne (r, l, u, k) h =
    when-Sound (is_open n m.sockets) _ m' (λ o. (r, ground arith, ground arith, k)) h
step-Sound m m' (closed n) ne s h = when-Sound (is_open n m.sockets) _ m' (close-Sound m n s) h
step-Sound m m' (failed n) ne s h = when-Sound (is_open n m.sockets) _ m' (λ o. s) h

Reach-Sound : {m : WebSocketManager} → Reach m → Sound m
unfolding connect
Reach-Sound (first returns) = (refl, omega arith, omega arith, inl (0, refl, refl))
Reach-Sound (first throws) = (refl, omega arith, omega arith, inr (refl, refl, omega arith))
Reach-Sound {m} (next {m = l} e r ne h) = step-Sound l m e ne (Reach-Sound r) h

-- Whatever happens after the first subscription, in whatever order, if nobody disconnects: the
-- dashboard holds exactly one socket, which it knows, or none while a reconnect is due; and the next
-- reconnect waits between 1 and 30 seconds.
pub one_socket :
    {m : WebSocketManager}
    → Reach m
    → Kept m × (1000 ≤ m.reconnect_delay) × (m.reconnect_delay ≤ 30000)
one_socket r = let (same_wish, low, high, kept) = Reach-Sound r in (kept, low, high)

abbrev pub doubling : ℕ → List Event
doubling n = disconnected ∷ subscribed returns ∷ closed n ∷ timer returns ∷ []

-- A state with one socket, and what it becomes.
abbrev pub single : ℕ → ℕ → ℕ → ℕ → Bool → WebSocketManager
single n made delay timers wish = record {
  ws = some n;
  reconnect_delay = delay;
  should_reconnect = wish;
  made = made;
  sockets = n ∷ [];
  timers = timers;
}

-- A disconnect and a subscription before the old socket has closed double the socket: from any state
-- with one socket, its late close makes the manager forget the new one, and the reconnect that
-- it asks for opens another beside it.
pub late_close_doubles :
    (n made delay timers : ℕ) (wish : Bool)
    → n < made
    → (m : WebSocketManager) × (steps (doubling n) (single n made delay timers wish) ≡ some m)
      × (m.sockets ≡ (made + 1) ∷ made ∷ [])
      × (m.ws ≡ some (made + 1))
unfolding step connect disconnect
late_close_doubles n made delay timers wish lt = (
  record {
    ws = some (made + 1);
    reconnect_delay = min (delay * 2) 30000;
    should_reconnect = true;
    made = made + 1 + 1;
    sockets = (made + 1) ∷ made ∷ [];
    timers = timers + 1 - 1;
  },
  ground (arith, apart n made lt, ==_refl n),
  refl,
  refl,
)
  where
    apart : (n made : ℕ) → n < made → (made == n) ≡ false
    apart n made lt = ground arith
