-- ===== src/Server/Wakeup/Progress.antt =====
-- No wake-up is lost between `onComplete` and `waitForInflight` of src/RpcServer.h, and what the return of
-- `waitForInflight` does not say.
use rpcpp.Base.{ℕ, zero, suc, ◌+◌, ◌≡◌, refl, ap, ◌≢◌, ◌<◌, ◌⊎◌, inl, inr, arith}
use rpcpp.Server.Wakeup.{
  Waiter, entering, testing, dozing, asleep, woken, returned, Lock, unlocked, by_waiter,
  by_notifier, Waiting, wake_up, Step, complete, complete_last, lock_to_notify, notify,
  lock_to_wait, leave, doze, sleep, relock, Steps, here, next, Reach, at_start, step, start, stir,
  begins,
}

-- Whoever tests or is about to sleep has the lock; and a sleeper that has nothing to wait for, or who is about
-- to be one, will be notified.
pub record Safe (s : Waiting) : Type 0 where
  pub testing_locks : s.waiter ≡ testing → s.lock ≡ by_waiter
  pub dozing_locks : s.waiter ≡ dozing → s.lock ≡ by_waiter
  pub locks_waiter : s.lock ≡ by_waiter → (s.waiter ≡ testing) ⊎ (s.waiter ≡ dozing)
  pub counted_down : s.waiter ≡ dozing → s.inflight ≡ 0 → 0 < s.pending
  pub no_lost_wakeup : s.waiter ≡ asleep → s.inflight ≡ 0 → (0 < s.pending) ⊎ (s.lock ≡ by_notifier)

Step-Safe : {s t : Waiting} → Step s t → Safe s → Safe t
unfolding wake_up
Step-Safe (complete s n e) v = ground arith
Step-Safe (complete_last s e) v = ground arith
Step-Safe (lock_to_notify s n e l) v = ground arith
Step-Safe (notify s l) v = notified s.waiter refl
  where
    notified :
        (w : Waiter) → s.waiter ≡ w → Safe (record s { lock = unlocked; waiter = wake_up s.waiter })
    notified entering e = rw e (ground arith)
    notified testing e = rw e (ground (arith, v.testing_locks e))
    notified dozing e = rw e (ground (arith, v.dozing_locks e))
    notified asleep e = rw e (ground arith)
    notified woken e = rw e (ground arith)
    notified returned e = rw e (ground arith)
Step-Safe (lock_to_wait s w l) v = ground arith
Step-Safe (leave s w e) v = ground arith
Step-Safe (doze s w e) v = ground arith
Step-Safe (sleep s w) v = ground arith
Step-Safe (relock s w l) v = ground arith

start-Safe : (s : Waiting) → Safe s → Safe (record s { inflight = s.inflight + 1 })
start-Safe s v = ground arith

stir-Safe : (s : Waiting) → s.waiter ≡ asleep → Safe s → Safe (record s { waiter = woken })
stir-Safe s e v = ground arith

pub Reach-Safe : {s t : Waiting} → Safe s → Reach s t → Safe t
Reach-Safe v at_start = v
Reach-Safe v (step r st) = Step-Safe st (Reach-Safe v r)
Reach-Safe v (start t r) = start-Safe t (Reach-Safe v r)
Reach-Safe v (stir t r e) = stir-Safe t e (Reach-Safe v r)

begins-Safe : (n : ℕ) → Safe (begins n)
begins-Safe n = ground arith

-- The wait can come to its return.
abbrev pub Ends : Waiting → Type 0
Ends s = (t : Waiting) × Steps s t × (t.waiter ≡ returned)

from_testing : (s t : Waiting) → Steps s t → t.waiter ≡ testing → t.inflight ≡ 0 → Ends s
from_testing s t path w e =
    (record t { lock = unlocked; waiter = returned }, next path (leave t w e), refl)

from_entering :
    (s t : Waiting) → Steps s t → t.waiter ≡ entering → t.lock ≡ unlocked → t.inflight ≡ 0 → Ends s
from_entering s t path w l e =
    from_testing s (record t { lock = by_waiter; waiter = testing })
      (next path (lock_to_wait t w l)) refl e

from_woken :
    (s t : Waiting) → Steps s t → t.waiter ≡ woken → t.lock ≡ unlocked → t.inflight ≡ 0 → Ends s
from_woken s t path w l e =
    from_testing s (record t { lock = by_waiter; waiter = testing }) (next path (relock t w l)) refl
      e

-- The notification wakes a sleeper, and leaves the lock to others.
after_notify :
    (s t : Waiting)
    → Steps s t
    → t.lock ≡ by_notifier
    → t.inflight ≡ 0
    → (t.waiter ≢ testing)
    → (t.waiter ≢ dozing)
    → Ends s
unfolding wake_up
after_notify s t path l e free awake = by_waiter_state t.waiter refl
  where
    t' : Waiting
    t' = record t { lock = unlocked; waiter = wake_up t.waiter }

    by_waiter_state : (w : Waiter) → t.waiter ≡ w → Ends s
    by_waiter_state entering w = from_entering s t' (next path (notify t l)) (ap wake_up w) refl e
    by_waiter_state testing w = absurd (free w)
    by_waiter_state dozing w = absurd (awake w)
    by_waiter_state asleep w = from_woken s t' (next path (notify t l)) (ap wake_up w) refl e
    by_waiter_state woken w = from_woken s t' (next path (notify t l)) (ap wake_up w) refl e
    by_waiter_state returned w = (t', next path (notify t l), ap wake_up w)

suc-pos : (n : ℕ) → 0 < n → (m : ℕ) × (n ≡ suc m)
suc-pos zero h = absurd (omega arith)
suc-pos (suc m) h = (m, refl)

from_asleep :
    (s t : Waiting)
    → Steps s t
    → t.waiter ≡ asleep
    → t.lock ≡ unlocked
    → t.inflight ≡ 0
    → 0 < t.pending
    → Ends s
from_asleep s t path w l e some_pending =
    let (m, p) = suc-pos t.pending some_pending in
    after_notify s (record t { pending = m; lock = by_notifier })
      (next path (lock_to_notify t m p l)) refl e (λ now. cc) (λ now. cc)

from_dozing : (s : Waiting) → s.waiter ≡ dozing → s.inflight ≡ 0 → 0 < s.pending → Ends s
from_dozing s w e some_pending =
    from_asleep s (record s { lock = unlocked; waiter = asleep }) (next here (sleep s w)) refl refl
      e some_pending

by_lock :
    (s : Waiting) (l : Lock) (w : Waiter)
    → Safe s
    → s.lock ≡ l
    → s.waiter ≡ w
    → s.inflight ≡ 0
    → Ends s
by_lock s by_notifier w v l e zero_left =
    after_notify s s here l zero_left (λ t. cc (v.testing_locks t)) (λ t. cc (v.dozing_locks t))
by_lock s by_waiter w v l e zero_left = elim (v.locks_waiter l) [
  | inl tests ↦ from_testing s s here tests zero_left
  | inr dozes ↦ from_dozing s dozes zero_left (v.counted_down dozes zero_left)
]
by_lock s unlocked entering v l e zero_left = from_entering s s here e l zero_left
by_lock s unlocked testing v l e zero_left = cc (v.testing_locks e)
by_lock s unlocked dozing v l e zero_left = cc (v.dozing_locks e)
by_lock s unlocked asleep v l e zero_left = elim (v.no_lost_wakeup e zero_left) [
  | inl some_pending ↦ from_asleep s s here e l zero_left some_pending
  | inr notifying ↦ cc
]
by_lock s unlocked woken v l e zero_left = from_woken s s here e l zero_left
by_lock s unlocked returned v l e zero_left = (s, here, e)

-- A thread that is in `waitForInflight`, with requests starting and completing in any order and with any
-- spurious wake-ups: whenever nothing is in flight, there are steps of the threads that are there, with no
-- new dispatch and no spurious wake-up among them, after which it has returned. So no notification is lost,
-- also if the last request completes between the load of the counter and the sleep.
pub wait-Ends : (n : ℕ) (s : Waiting) → Reach (begins n) s → s.inflight ≡ 0 → Ends s
wait-Ends n s r e = by_lock s s.lock s.waiter (Reach-Safe (begins-Safe n) r) refl refl e

-- While `waitForInflight` has returned, nothing says that `onComplete` has: if a thread is before the lock
-- in `waitForInflight`, the lock is free and one request is in flight, then there are steps after which
-- it has returned and a thread is still to lock the mutex of the server and to notify.
pub returns_before_notify :
    (s : Waiting)
    → s.waiter ≡ entering
    → s.lock ≡ unlocked
    → s.inflight ≡ 1
    → (t : Waiting) × Steps s t × (t.waiter ≡ returned) × (0 < t.pending) × (t.lock ≡ unlocked)
returns_before_notify s w l e =
    let counted : Waiting = record s { inflight = 0; pending = s.pending + 1 } in
    let locked : Waiting = record counted { lock = by_waiter; waiter = testing } in
    (
      record locked { lock = unlocked; waiter = returned },
      next (next (next here (complete_last s e)) (lock_to_wait counted w l))
          (leave locked refl refl),
      refl,
      omega arith,
      refl,
    )
