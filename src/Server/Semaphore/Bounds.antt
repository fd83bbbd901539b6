-- ===== src/Server/Semaphore/Bounds.antt =====
-- ratelimit.rs: how many threads hold a permit, and that no free permit is overlooked.
use secgit.Prelude.{ℕ, ◌+◌, ◌-◌, ◌≤◌, ◌<◌, max, ◌⊎◌, Bool-cases, inl, inr, ◌==◌, ◌≡◌, arith}
use secgit.Server.Semaphore.{
  Semaphore, new_semaphore, look, acquire, resume, notify_one, release, Step, acquires, resumes,
  wakes, releases, Reachable, start, then_step,
}

-- The permits are shared out between the free ones and the holders, and while a thread sleeps, a
-- woken thread is on its way for each free permit.
record IsSound (capacity : ℕ) (s : Semaphore) : Type 0 where
  pub shared : s.permits + s.holding ≡ capacity
  pub expected : 0 < s.sleeping → s.permits ≤ s.woken

look-IsSound :
    (capacity : ℕ) (s : Semaphore)
    → s.permits + s.holding ≡ capacity
    → (0 < s.sleeping → s.permits ≤ s.woken + 1)
    → IsSound capacity (look s)
unfolding look
look-IsSound capacity s shared expected = record {
  shared = ground (arith, shared);
  expected = ground (arith, expected);
}

notify_one-IsSound :
    (capacity : ℕ) (s : Semaphore)
    → s.permits + s.holding ≡ capacity
    → (0 < s.sleeping → s.permits ≤ s.woken + 1)
    → IsSound capacity (notify_one s)
unfolding notify_one
notify_one-IsSound capacity s shared expected = record {
  shared = ground (arith, shared);
  expected = ground (arith, expected);
}

Step-IsSound : (capacity : ℕ) (s t : Semaphore) → Step s t → IsSound capacity s → IsSound capacity t
unfolding acquire resume release
Step-IsSound capacity s t (acquires _) h =
    look-IsSound capacity s h.shared (λ q. omega (arith, h.expected q))
Step-IsSound capacity s t (resumes _ _ e) h = elim (Bool-cases (s.woken == 0)) [
  | inl nobody ↦ absurd (cc (rw nobody at e))
  | inr woken ↦
      let taken : look (record s { woken = s.woken - 1 }) ≡ t = cc (rw woken at e) in
      rw (← taken) (
        look-IsSound capacity (record s { woken = s.woken - 1 }) h.shared
          (λ q. ground (arith, h.expected q, woken)))
]
Step-IsSound capacity s t (wakes _) h =
    notify_one-IsSound capacity s h.shared (λ q. omega (arith, h.expected q))
Step-IsSound capacity s t (releases _ _ e) h = elim (Bool-cases (s.holding == 0)) [
  | inl nobody ↦ absurd (cc (rw nobody at e))
  | inr held ↦
      let r = record s { permits = s.permits + 1; holding = s.holding - 1 } in
      let given : notify_one r ≡ t = cc (rw held at e) in
      rw (← given) (
        notify_one-IsSound capacity r (ground (arith, h.shared, held))
          (λ q. omega (arith, h.expected q)))
]

Reachable-IsSound : (permits : ℕ) (s : Semaphore) → Reachable permits s → IsSound (max permits 1) s
unfolding new_semaphore
Reachable-IsSound permits s start = record {
  shared = omega arith;
  expected = λ q. absurd (omega arith);
}
Reachable-IsSound permits s (then_step r _ reached step) =
    Step-IsSound (max permits 1) r s step (Reachable-IsSound permits r reached)

-- However calls of `acquire`, wake-ups and drops interleave, the threads that hold a permit and the
-- free permits add up to the capacity, which is at least one, so no more threads than that hold one;
-- and while a thread sleeps, there is for each free permit a woken thread on its way to take it.
pub permits_shared :
    (permits : ℕ) (s : Semaphore)
    → Reachable permits s
    → (s.permits + s.holding ≡ max permits 1) × (s.sleeping ≡ 0 ⊎ s.permits ≤ s.woken)
permits_shared permits s reached =
    let h = Reachable-IsSound permits s reached in
    (
      h.shared,
      elim (Bool-cases (s.sleeping == 0)) [
        | inl none_asleep ↦ inl (ground (arith, none_asleep))
        | inr asleep ↦ inr (h.expected (ground (arith, asleep)))
      ],
    )
