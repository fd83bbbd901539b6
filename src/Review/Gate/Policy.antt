-- ===== src/Review/Gate/Policy.antt =====
-- lib.rs of secgit-review: what a mergeable pull request satisfies.
use secgit.Prelude.{
  ℕ, suc, ◌⊎◌, subst, ◌≤◌, ◌%◌, ◌^◌, String, ◌≡◌, ◌≢◌, refl, ap, ◌↔◌, inl, inr, Bool, true, false,
  not, some, List, [], ◌∷◌, ◌++◌, any, arith, str_eq, eq_iff, eq_refl, if◌then◌else◌, Bool-cases,
  le→ltb, &&-split,
}
use secgit.Prelude.Maps.{Map, lookup, values, IsMap, contains_key-lookup}
use secgit.Review.Model.{
  PullRequest, PrState, opened, merged, closed, Review, ReviewState, approved, changes_requested,
  commented, StatusCheck, CheckState, success, pending, failure, BranchProtection,
}
use secgit.Review.Gate.{
  Reason, gate, latest_loop, when, is_empty, is_open, requests_changes, is_success, is_green,
  failing_checks, count_approved, is_approved,
}
use secgit.Review.Gate.Latest.{In, latest_loop-IsMap}

module _ {A : Type 0} where
  any_iff : (p : A → Bool) (xs : List A) → (any p xs ≡ true) ↔ ((x : A) × In x xs × (p x ≡ true))
  any_iff p [] = (λ h. absurd (cc), λ (x, i, h). absurd i)
  any_iff p (x ∷ xs) = (
    λ h. elim (Bool-cases (p x)) [
      | inl holds ↦ (x, inl refl, holds)
      | inr fails ↦ let (y, i, k) = (any_iff p xs).0 (ground (arith, fails)) in (y, inr i, k)
    ],
    λ (y, i, h). elim i [
      | inl e ↦ ground (arith, ap p e, h)
      | inr later ↦ let rest = (any_iff p xs).1 (y, later, h) in ground (arith, rest)
    ],
  )

module _ {V : Type 0} where
  any-values :
      (p : V → Bool) (m : Map V)
      → IsMap m
      → (any p (values m) ≡ false) ↔ ((k : String) (v : V) → lookup k m ≡ some v → p v ≡ false)
  unfolding values lookup
  any-values p [] h = (λ e k v n. cc, λ f. refl)
  any-values p ((j, w) ∷ m) h = (
    λ none_of k v found. elim (Bool-cases (str_eq j k)) [
      | inl here ↦ ground (arith, here)
      | inr other ↦ (any-values p m h.1).0 (ground arith) k v (ground (arith, other))
    ],
    λ each.
        let head : p w ≡ false = each j w (rw (eq_refl j) refl) in
        let rest = (any-values p m h.1).1 (λ k v found. each k v (tail k v found)) in
        rw (head, rest) refl,
  )
    where
      tail :
          (k : String) (v : V)
          → lookup k m ≡ some v
          → (if str_eq j k then some w else lookup k m) ≡ some v
      tail k v found = ground (arith, eq_iff j k, contains_key-lookup j m, h.0)

failing_iff :
    (head_sha : String) (checks : List StatusCheck) (contexts : List String)
    → (is_empty (failing_checks head_sha checks contexts) ≡ true)
      ↔ ((c : String) → In c contexts → any (is_green head_sha c) checks ≡ true)
unfolding failing_checks is_empty
failing_iff head_sha checks [] = (λ h c i. absurd i, λ f. refl)
failing_iff head_sha checks (c ∷ cs) = elim (Bool-cases (any (is_green head_sha c) checks)) [
  | inl green ↦ rw green (
    λ h d i. elim i [
      | inl e ↦ rw e green
      | inr later ↦ (failing_iff head_sha checks cs).0 h d later
    ],
    λ f. (failing_iff head_sha checks cs).1 (λ d i. f d (inr i)),
  )
  | inr not_green ↦ rw not_green (λ h. absurd (cc), λ f. absurd (cc (f c (inl refl), not_green)))
]

no_reasons :
    (a b c d : Bool) (x y z w : Reason)
    → (is_empty (when a x ++ (when b y ++ (when c z ++ when d w))) ≡ true)
      ↔ ((a ≡ false) × (b ≡ false) × (c ≡ false) × (d ≡ false))
unfolding is_empty when
no_reasons true b c d x y z w = (λ h. absurd (cc), λ h. absurd (cc (h.0)))
no_reasons false true c d x y z w = (λ h. absurd (cc), λ h. absurd (cc (h.1)))
no_reasons false false true d x y z w = (λ h. absurd (cc), λ h. absurd (cc (h.2)))
no_reasons false false false true x y z w = (λ h. absurd (cc), λ h. absurd (cc (h.3)))
no_reasons false false false false x y z w = (λ h. (refl, refl, refl, refl), λ h. refl)

-- A check with this context that succeeded at this head.
abbrev pub GreenAt : String → String → StatusCheck → Type 0
GreenAt head_sha context c = (c.context ≡ context) × (c.state ≡ success) × (c.head_sha ≡ head_sha)

is_success_iff : (s : CheckState) → (is_success s ≡ true) ↔ (s ≡ success)
unfolding is_success
is_success_iff pending = (λ h. absurd (cc), λ h. absurd (cc))
is_success_iff success = (λ h. refl, λ h. refl)
is_success_iff failure = (λ h. absurd (cc), λ h. absurd (cc))

is_green_iff :
    (head_sha context : String) (c : StatusCheck)
    → (is_green head_sha context c ≡ true) ↔ GreenAt head_sha context c
unfolding is_green is_success
is_green_iff head_sha context c = (
  λ h.
      let (rest, head) = &&-split _ _ h in
      let (this, won) = &&-split _ _ rest in
      (
        (eq_iff c.context context).0 this,
        (is_success_iff c.state).0 won,
        (eq_iff c.head_sha head_sha).0 head,
      ),
  λ (this, won, head).
      rw
        (
          (eq_iff c.context context).1 this,
          (is_success_iff c.state).1 won,
          (eq_iff c.head_sha head_sha).1 head,
        )
        refl,
)

is_open_iff : (s : PrState) → (not (is_open s) ≡ false) ↔ (s ≡ opened)
unfolding is_open
is_open_iff opened = (λ h. refl, λ h. refl)
is_open_iff merged = (λ h. absurd (cc), λ h. absurd (cc))
is_open_iff closed = (λ h. absurd (cc), λ h. absurd (cc))

requests_changes_iff : (s : ReviewState) → (requests_changes s ≡ false) ↔ (s ≢ changes_requested)
unfolding requests_changes
requests_changes_iff approved = (λ h e. cc, λ h. refl)
requests_changes_iff changes_requested = (λ h. absurd (cc), λ h. absurd (h refl))
requests_changes_iff commented = (λ h e. cc, λ h. refl)

-- How many of some reviews approve.
pub data Approvals : List Review → ℕ → Type 0 where
  nobody : Approvals [] 0
  one_more :
      {r : Review} {rs : List Review} {n : ℕ}
      → r.state ≡ approved
      → Approvals rs n
      → Approvals (r ∷ rs) (suc n)
  passed :
      {r : Review} {rs : List Review} {n : ℕ}
      → r.state ≢ approved
      → Approvals rs n
      → Approvals (r ∷ rs) n

is_approved-cases :
    (s : ReviewState)
    → ((s ≡ approved) × (is_approved s ≡ true)) ⊎ ((s ≢ approved) × (is_approved s ≡ false))
unfolding is_approved
is_approved-cases approved = inl (refl, refl)
is_approved-cases changes_requested = inr ((λ e. cc), refl)
is_approved-cases commented = inr ((λ e. cc), refl)

Approvals-count_approved : (rs : List Review) → Approvals rs (count_approved rs)
unfolding count_approved
Approvals-count_approved [] = nobody
Approvals-count_approved (r ∷ rs) = elim (is_approved-cases r.state) [
  | inl (here, e) ↦
      subst (Approvals (r ∷ rs)) (rw e (omega arith)) (one_more here (Approvals-count_approved rs))
  | inr (other, e) ↦
      subst (Approvals (r ∷ rs)) (rw e (omega arith)) (passed other (Approvals-count_approved rs))
]

count_approved-Approvals : (rs : List Review) (n : ℕ) → Approvals rs n → count_approved rs ≡ n
unfolding count_approved
count_approved-Approvals [] _ nobody = refl
count_approved-Approvals (r ∷ rs) _ (one_more {n = n} agreed more) =
    elim (is_approved-cases r.state) [
      | inl (here, e) ↦ rw e (omega (arith, count_approved-Approvals rs n more))
      | inr (other, e) ↦ absurd (other agreed)
    ]
count_approved-Approvals (r ∷ rs) n (passed not_it more) = elim (is_approved-cases r.state) [
  | inl (here, e) ↦ absurd (not_it here)
  | inr (other, e) ↦ rw e (omega (arith, count_approved-Approvals rs n more))
]

-- A pull request is mergeable exactly when it is open, no reviewer's latest review that counts asks
-- for changes, the number of those that approve, modulo 2 ^ 32, reaches the required number, and each
-- required check has succeeded at its head.
pub mergeable_iff :
    (p : BranchProtection) (reviews : List Review) (checks : List StatusCheck) (pr : PullRequest)
    → let latest = latest_loop p.dismiss_stale_approvals pr.head_sha reviews [] in
      ((gate p reviews checks pr).mergeable ≡ true) ↔ (
        (pr.state ≡ opened)
        × ((u : String) (r : Review) → lookup u latest ≡ some r → r.state ≢ changes_requested)
        × ((n : ℕ) × Approvals (values latest) n × (p.required_approvals ≤ n % 2 ^ 32))
        × ((context : String)
            → In context p.required_checks
            → (c : StatusCheck) × In c checks × GreenAt pr.head_sha context c))
unfolding gate
mergeable_iff p reviews checks pr =
    let latest = latest_loop p.dismiss_stale_approvals pr.head_sha reviews [] in
    let keyed : IsMap latest =
      latest_loop-IsMap p.dismiss_stale_approvals pr.head_sha reviews [] tt in
    let verdicts = any-values (λ r. requests_changes r.state) latest keyed in
    let all_green = failing_iff pr.head_sha checks p.required_checks in
    let none_left = no_reasons _ _ _ _ _ _ _ _ in
    (
      λ h.
          let (open_now, no_changes, enough, green) = none_left.0 h in
          (
            (is_open_iff pr.state).0 open_now,
            λ u r e. (requests_changes_iff r.state).0 (verdicts.0 no_changes u r e),
            (
              count_approved (values latest),
              Approvals-count_approved (values latest),
              ground (arith, enough),
            ),
            λ context i.
                let (c, j, g) =
                  (any_iff _ checks).0 (all_green.0 (ground (arith, green)) context i) in
                (c, j, (is_green_iff pr.head_sha context c).0 g),
          ),
      λ (open_now, no_changes, (n, counted, enough), green). none_left.1 (
        (is_open_iff pr.state).1 open_now,
        verdicts.1 (λ u r e. (requests_changes_iff r.state).1 (no_changes u r e)),
        le→ltb _ _ (rw (count_approved-Approvals (values latest) n counted) enough),
        ap not (
            all_green.1 (λ context i.
              let (c, j, g) = green context i in
              (any_iff _ checks).1 (c, j, (is_green_iff pr.head_sha context c).1 g))),
      ),
    )
