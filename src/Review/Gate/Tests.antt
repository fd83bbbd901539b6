-- ===== src/Review/Gate/Tests.antt =====
-- Runs of the model of `merge_status`, and the theorems about it at concrete inputs.
use secgit.Prelude.{
  ℕ, ◌≤◌, ◌%◌, ◌^◌, String, ◌≡◌, ◌≢◌, ◌↔◌, refl, some, none, true, false, [], ◌∷◌, List, Bool,
}
use secgit.Prelude.Maps.{lookup, values, insert}
use secgit.Review.Model.{
  PullRequest, opened, Review, approved, changes_requested, ReviewState, StatusCheck, success,
  BranchProtection,
}
use secgit.Review.Gate.{ok, err, storage, gate, merge_status, latest_loop, direct_push_allowed}
use secgit.Review.Gate.Latest.{In, IsLatest, CountsFor, latest_loop-IsLatest}
use secgit.Review.Gate.Policy.{Approvals, GreenAt, mergeable_iff}

abbrev pr : PullRequest
pr = record {
  id = "pr_core_1";
  repo_id = "core";
  number = 1;
  title = "Fix";
  description = "";
  author_id = "ann";
  source_branch = "fix";
  target_branch = "main";
  head_sha = "b2";
  state = opened;
  created_at = 10;
  updated_at = 20;
}

abbrev verdict : String → ReviewState → String → ℕ → Review
verdict reviewer state head_sha created_at = record {
  id = "r";
  pr_id = "pr_core_1";
  reviewer_id = reviewer;
  state = state;
  head_sha = head_sha;
  created_at = created_at;
}

abbrev protection : Bool → BranchProtection
protection dismiss = record {
  repo_id = "core";
  branch = "main";
  required_approvals = 1;
  required_checks = "ci" ∷ [];
  block_direct_push = true;
  dismiss_stale_approvals = dismiss;
}

abbrev ci : StatusCheck
ci = record {
  pr_id = "pr_core_1";
  context = "ci";
  state = success;
  description = "";
  head_sha = "b2";
}

-- Bob first asks for changes, then approves.
abbrev reviews : List Review
reviews = verdict "bob" changes_requested "b2" 11 ∷ (verdict "bob" approved "b2" 12 ∷ [])

mergeable_run : (gate (protection true) reviews (ci ∷ []) pr).mergeable ≡ true
unfolding gate values insert lookup
mergeable_run = refl

-- Eve's request for changes at an older head blocks the merge, unless stale reviews are dismissed.
abbrev with_request : List Review
with_request = verdict "eve" changes_requested "a1" 9 ∷ reviews

blocked_run : (gate (protection false) with_request (ci ∷ []) pr).mergeable ≡ false
unfolding gate values insert lookup
blocked_run = refl

dismissed_request_run : (gate (protection true) with_request (ci ∷ []) pr).mergeable ≡ true
unfolding gate values insert lookup
dismissed_request_run = refl

failed_read_run : merge_status (ok none) (err (storage "disk")) (ok []) pr ≡ err (storage "disk")
unfolding merge_status
failed_read_run = refl

push_run : direct_push_allowed (ok (some (protection true))) ≡ ok false
unfolding direct_push_allowed
push_run = refl

latest_loop-IsLatest_example :
    IsLatest
      (λ r. In r reviews × CountsFor true "b2" "bob" r)
      (lookup "bob" (latest_loop true "b2" reviews []))
latest_loop-IsLatest_example = latest_loop-IsLatest true "b2" "bob" reviews

mergeable_iff_example : ((gate (protection true) reviews (ci ∷ []) pr).mergeable ≡ true) ↔ (
    (pr.state ≡ opened)
    × ((u : String) (r : Review)
        → lookup u (latest_loop true "b2" reviews []) ≡ some r
        → r.state ≢ changes_requested)
    × ((n : ℕ) × Approvals (values (latest_loop true "b2" reviews [])) n × (1 ≤ n % 2 ^ 32))
    × ((context : String)
        → In context ("ci" ∷ [])
        → (c : StatusCheck) × In c (ci ∷ []) × GreenAt "b2" context c))
mergeable_iff_example = mergeable_iff (protection true) reviews (ci ∷ []) pr
