-- ===== src/Server/Semaphore/Tests.antt =====
-- A run of the semaphore, and its theorem at a concrete state.
use secgit.Prelude.{ℕ, ◌+◌, ◌≤◌, max, ◌⊎◌, ◌≡◌, refl}
use secgit.Server.Semaphore.{
  Semaphore, new_semaphore, acquire, release, acquires, releases, Reachable, start, then_step,
}
use secgit.Server.Semaphore.Bounds.{permits_shared}

abbrev state : ℕ → ℕ → ℕ → ℕ → Semaphore
state permits holding sleeping woken = record {
  permits = permits;
  holding = holding;
  sleeping = sleeping;
  woken = woken;
}

-- One permit: the second thread sleeps, and is woken when the first is done.
reached : Reachable 1 (state 1 0 0 1)
unfolding acquire release new_semaphore
reached =
    then_step (state 0 1 1 0) _
      (then_step (state 0 1 0 0) _ (then_step (state 1 0 0 0) _ start (acquires _)) (acquires _))
      (releases _ _ refl)

permits_shared_example :
    ((state 1 0 0 1).permits + (state 1 0 0 1).holding ≡ max 1 1)
    × ((state 1 0 0 1).sleeping ≡ 0 ⊎ (state 1 0 0 1).permits ≤ (state 1 0 0 1).woken)
permits_shared_example = permits_shared 1 (state 1 0 0 1) reached
