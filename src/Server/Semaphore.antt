-- ===== src/Server/Semaphore.antt =====
-- bins/secgit-server/src/ratelimit.rs: the counting semaphore, as steps of threads.
-- Every step is one critical section under the lock. A thread that found no permit sleeps on the
-- condition variable until it is notified or wakes for no reason; it then looks again.
pub mod Bounds
pub mod Tests
use secgit.Prelude.{ℕ, ◌+◌, ◌-◌, max, Bool, Option, none, some, if◌then◌else◌, ◌==◌, ◌≡◌}

-- The permits that are free, and how many threads hold one, sleep, or have been woken.
pub record Semaphore : Type 0 where
  pub permits : ℕ
  pub holding : ℕ
  pub sleeping : ℕ
  pub woken : ℕ

unfoldable pub new_semaphore : ℕ → Semaphore
new_semaphore permits = record { permits = max permits 1; holding = 0; sleeping = 0; woken = 0 }

-- The test of `while *n == 0`: the thread takes a permit or sleeps.
unfoldable pub look : Semaphore → Semaphore
look s =
    if s.permits == 0
    then record s { sleeping = s.sleeping + 1 }
    else record s { permits = s.permits - 1; holding = s.holding + 1 }

-- `acquire` of a new thread, up to its first test.
unfoldable pub acquire : Semaphore → Semaphore
unfolding look
acquire s = look s

-- A thread that the condition variable woke has the lock again.
unfoldable pub resume : Semaphore → Option Semaphore
unfolding look
resume s = if s.woken == 0 then none else some (look (record s { woken = s.woken - 1 }))

-- One sleeping thread, if any, is woken.
unfoldable pub notify_one : Semaphore → Semaphore
notify_one s =
    if s.sleeping == 0 then s else record s { sleeping = s.sleeping - 1; woken = s.woken + 1 }

-- A guard is dropped.
unfoldable pub release : Semaphore → Option Semaphore
unfolding notify_one
release s =
    if s.holding == 0
    then none
    else some (notify_one (record s { permits = s.permits + 1; holding = s.holding - 1 }))

-- What may happen next.
pub data Step : Semaphore → Semaphore → Type 0 where
  acquires : (s : Semaphore) → Step s (acquire s)
  resumes : (s t : Semaphore) → resume s ≡ some t → Step s t
  wakes : (s : Semaphore) → Step s (notify_one s)
  releases : (s t : Semaphore) → release s ≡ some t → Step s t

pub data Reachable (permits : ℕ) : Semaphore → Type 0 where
  start : Reachable permits (new_semaphore permits)
  then_step : (s t : Semaphore) → Reachable permits s → Step s t → Reachable permits t
