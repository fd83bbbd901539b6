-- ===== src/Review/Gate.antt =====
-- crates/secgit-review/src/lib.rs: `merge_status`, the policy that gates a merge, and
-- `direct_push_allowed`. What the store returned for the protection, the reviews and the checks is an
-- argument; a reason stands for the sentence that the source writes.

pub mod Latest
pub mod Policy
pub mod Tests
use secgit.Prelude.{
  ℕ, ◌+◌, ◌%◌, ◌^◌, String, Bool, true, false, not, ◌&&◌, Option, none, some, List, [], ◌∷◌, ◌++◌,
  any, str_eq, ltb, leb, if◌then◌else◌,
}
use secgit.Prelude.Maps.{Map, lookup, insert, values}
use secgit.Review.Model.{
  PrState, PullRequest, Review, ReviewState, StatusCheck, CheckState, BranchProtection, unprotected,
}
use secgit.Review.Model

pub data ReviewError : Type 0 where
  storage serde not_found : String → ReviewError

pub data Result {ℓ} (A : Type ℓ) : Type ℓ where
  ok : A → Result A
  err : ReviewError → Result A

infixl 5 ◌>>=◌
abbrev pub ◌>>=◌ : {A B : Type 0} → Result A → (A → Result B) → Result B
◌>>=◌ (ok value) next = next value
◌>>=◌ (err e) next = err e

pub data Reason : Type 0 where
  not_open changes_requested_by_reviewer : Reason
  needs_approvals : (required has : ℕ) → Reason
  checks_not_green : List String → Reason

pub record MergeStatus : Type 0 where
  pub mergeable : Bool
  pub approvals : ℕ
  pub required_approvals : ℕ
  pub changes_requested : Bool
  pub failing_or_missing_checks : List String
  pub reasons : List Reason

pub is_open : PrState → Bool
is_open Model.opened = true
is_open Model.merged = false
is_open Model.closed = false

pub is_approved : ReviewState → Bool
is_approved Model.approved = true
is_approved Model.changes_requested = false
is_approved Model.commented = false

pub requests_changes : ReviewState → Bool
requests_changes Model.changes_requested = true
requests_changes Model.approved = false
requests_changes Model.commented = false

pub is_success : CheckState → Bool
is_success Model.success = true
is_success Model.pending = false
is_success Model.failure = false

pub newer : Option Review → Review → Review
newer none r = r
newer (some cur) r = if leb cur.created_at r.created_at then r else cur

-- A review that the loop passes over.
pub dismissed : Bool → String → Review → Bool
dismissed dismiss head_sha r = dismiss && not (str_eq r.head_sha head_sha)

pub latest_loop : Bool → String → List Review → Map Review → Map Review
unfolding dismissed newer
latest_loop dismiss head_sha [] latest = latest
latest_loop dismiss head_sha (r ∷ rs) latest = latest_loop dismiss head_sha rs (
    if dismissed dismiss head_sha r
    then latest
    else insert r.reviewer_id (newer (lookup r.reviewer_id latest) r) latest)

pub count_approved : List Review → ℕ
unfolding is_approved
count_approved [] = 0
count_approved (r ∷ rs) = (if is_approved r.state then 1 else 0) + count_approved rs

pub is_green : String → String → StatusCheck → Bool
unfolding is_success
is_green head_sha context c =
    str_eq c.context context && is_success c.state && str_eq c.head_sha head_sha

pub failing_checks : String → List StatusCheck → List String → List String
unfolding is_green
failing_checks head_sha checks [] = []
failing_checks head_sha checks (context ∷ rest) =
    if any (is_green head_sha context) checks
    then failing_checks head_sha checks rest
    else context ∷ failing_checks head_sha checks rest

pub when : Bool → Reason → List Reason
when b r = if b then r ∷ [] else []

pub is_empty {ℓ} : {A : Type ℓ} → List A → Bool
is_empty [] = true
is_empty (x ∷ xs) = false

-- The status under a protection, from the reviews and the checks that were listed.
pub gate : BranchProtection → List Review → List StatusCheck → PullRequest → MergeStatus
unfolding latest_loop count_approved failing_checks when is_empty is_open requests_changes
gate protection reviews checks pr =
    let latest = values (latest_loop protection.dismiss_stale_approvals pr.head_sha reviews []) in
    let approvals = count_approved latest % 2 ^ 32 in
    let changes = any (λ r. requests_changes r.state) latest in
    let failing = failing_checks pr.head_sha checks protection.required_checks in
    let reasons =
      when (not (is_open pr.state)) not_open
      ++ (when changes changes_requested_by_reviewer
          ++ (when (ltb approvals protection.required_approvals)
                (needs_approvals protection.required_approvals approvals)
              ++ when (not (is_empty failing)) (checks_not_green failing))) in
    record {
      mergeable = is_empty reasons;
      approvals = approvals;
      required_approvals = protection.required_approvals;
      changes_requested = changes;
      failing_or_missing_checks = failing;
      reasons = reasons;
    }

or_unprotected : PullRequest → Option BranchProtection → BranchProtection
or_unprotected pr none = unprotected pr.repo_id pr.target_branch
or_unprotected pr (some p) = p

pub merge_status :
    Result (Option BranchProtection)
    → Result (List Review)
    → Result (List StatusCheck)
    → PullRequest
    → Result MergeStatus
unfolding gate or_unprotected
merge_status get_protection list_reviews list_checks pr = do
  protection ← get_protection
  reviews ← list_reviews
  checks ← list_checks
  ok (gate (or_unprotected pr protection) reviews checks pr)

pub direct_push_allowed : Result (Option BranchProtection) → Result Bool
direct_push_allowed (err e) = err e
direct_push_allowed (ok none) = ok true
direct_push_allowed (ok (some p)) = ok (not p.block_direct_push)
