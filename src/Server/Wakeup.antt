-- ===== src/Server/Wakeup.antt =====
-- `waitForInflight` and `onComplete` of src/RpcServer.h, with the mutex and the condition variable between
-- them: the steps of one waiting thread and of any number of threads that complete requests.
--
-- A thread that takes the last request off the counter locks `_inflight_mtx`, notifies and unlocks it. The
-- waiting thread locks it, loads the counter, and returns or decides to sleep; to unlock and to sleep is one
-- later step, as the condition variable has it, so the counter can change between the load and the sleep. A
-- sleeper may wake with no reason.
pub mod Progress
use rpcpp.Base.{ℕ, zero, suc, ◌+◌, ◌≡◌, ◌≢◌, ◌<◌}

pub data Waiter : Type 0 where
  -- before the lock, with the lock, with the lock after a load that was not 0, in the wait, woken but
  -- without the lock, and after the return
  entering testing dozing asleep woken returned : Waiter

pub data Lock : Type 0 where
  unlocked by_waiter by_notifier : Lock

pub record Waiting : Type 0 where
  -- `_inflight`
  pub inflight : ℕ
  -- how many threads have counted down to zero and are before the lock in `onComplete`
  pub pending : ℕ
  pub lock : Lock
  pub waiter : Waiter

-- `notify_all`
pub wake_up : Waiter → Waiter
wake_up asleep = woken
wake_up entering = entering
wake_up testing = testing
wake_up dozing = dozing
wake_up woken = woken
wake_up returned = returned

pub data Step : Waiting → Waiting → Type 0 where
  -- `_inflight.fetch_sub(1)`, when it was not 1
  complete :
      (s : Waiting) (n : ℕ) → s.inflight ≡ suc (suc n) → Step s (record s { inflight = suc n })
  -- the same when it was 1
  complete_last :
      (s : Waiting) → s.inflight ≡ 1 → Step s (record s { inflight = 0; pending = s.pending + 1 })
  -- the lock of `onComplete`
  lock_to_notify :
      (s : Waiting) (n : ℕ)
      → s.pending ≡ suc n
      → s.lock ≡ unlocked
      → Step s (record s { pending = n; lock = by_notifier })
  -- `notify_all`, and the unlock
  notify :
      (s : Waiting)
      → s.lock ≡ by_notifier
      → Step s (record s { lock = unlocked; waiter = wake_up s.waiter })
  -- the lock of `waitForInflight`
  lock_to_wait :
      (s : Waiting)
      → s.waiter ≡ entering
      → s.lock ≡ unlocked
      → Step s (record s { lock = by_waiter; waiter = testing })
  -- the predicate holds: return, and unlock
  leave :
      (s : Waiting)
      → s.waiter ≡ testing
      → s.inflight ≡ 0
      → Step s (record s { lock = unlocked; waiter = returned })
  -- the predicate does not hold: the lock is still held
  doze : (s : Waiting) → s.waiter ≡ testing → s.inflight ≢ 0 → Step s (record s { waiter = dozing })
  -- unlock, and sleep
  sleep : (s : Waiting) → s.waiter ≡ dozing → Step s (record s { lock = unlocked; waiter = asleep })
  -- the lock of `wait` after a wake-up
  relock :
      (s : Waiting)
      → s.waiter ≡ woken
      → s.lock ≡ unlocked
      → Step s (record s { lock = by_waiter; waiter = testing })

-- Steps without a new dispatch and without a spurious wake-up.
pub data Steps (s : Waiting) : Waiting → Type 0 where
  here : Steps s s
  next : {t u : Waiting} → Steps s t → Step t u → Steps s u

-- What can happen, new dispatches and spurious wake-ups included.
pub data Reach (s : Waiting) : Waiting → Type 0 where
  at_start : Reach s s
  step : {t u : Waiting} → Reach s t → Step t u → Reach s u
  -- `_inflight.fetch_add(1)` of a dispatch
  start : (t : Waiting) → Reach s t → Reach s (record t { inflight = t.inflight + 1 })
  stir : (t : Waiting) → Reach s t → t.waiter ≡ asleep → Reach s (record t { waiter = woken })

-- The thread is about to wait, and nobody holds the lock.
abbrev pub begins : ℕ → Waiting
begins n = record { inflight = n; pending = 0; lock = unlocked; waiter = entering }
