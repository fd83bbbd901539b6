-- ===== src/Review/Reviews/Threads.antt =====
-- review/src/lib.rs: issues, threads, reviews, status checks and branch protection.
use Prim.Native.String.{◌++◌ as ◌<>◌}
use secgit.Prelude.{String, Bool, Option, List, [], ◌∷◌, ◌++◌}
use secgit.Review.Gate.{Result, ok, ◌>>=◌, MergeStatus, merge_status, direct_push_allowed}
use secgit.Review.Model.{PullRequest, Review, StatusCheck, BranchProtection}
use secgit.Review.Issue.{Issue, Comment, ReviewThread}
use secgit.Review.Reviews.{
  ObjectStore, Json, Step, okey, check_key, sort_by_number, put, get, index, collect, put_indexed,
  update,
}

module _ {Disk Blob : Type 0} (store : ObjectStore Disk Blob) (ids_json : Json Blob (List String))
    (issue_json : Json Blob Issue) (thread_json : Json Blob ReviewThread)
    (review_json : Json Blob Review) (check_json : Json Blob StatusCheck)
    (protection_json : Json Blob BranchProtection) where
  put_issue : Issue → Step store Unit
  unfolding put_indexed
  put_issue issue =
      put_indexed store ids_json issue_json issue.repo_id (okey "issue" issue.id) "issue/index"
        issue.id issue

  get_issue : String → String → Disk → Result (Option Issue)
  get_issue repo_id issue_id d = get store issue_json repo_id (okey "issue" issue_id) d

  list_issues : String → Disk → Result (List Issue)
  unfolding collect get_issue sort_by_number
  list_issues repo_id d = do
    ids ← index store ids_json repo_id "issue/index" d
    out ← collect store ids_json (λ id. get_issue repo_id id d) ids
    ok (sort_by_number (λ issue. issue.number) out)

  add_thread : String → ReviewThread → Step store Unit
  unfolding put_indexed
  add_thread repo_id thread =
      put_indexed store ids_json thread_json repo_id (okey "thread" thread.id)
        ("thread/index/" <> thread.pr_id) thread.id thread

  add_comment : String → String → Comment → Step store Unit
  unfolding update
  add_comment repo_id thread_id comment =
      update store ids_json thread_json repo_id (okey "thread" thread_id) thread_id
        (λ thread. record thread { comments = thread.comments ++ comment ∷ [] })

  resolve_thread : String → String → Bool → Step store Unit
  unfolding update
  resolve_thread repo_id thread_id resolved =
      update store ids_json thread_json repo_id (okey "thread" thread_id) thread_id
        (λ thread. record thread { resolved = resolved })

  list_threads : String → String → Disk → Result (List ReviewThread)
  unfolding collect
  list_threads repo_id pr_id d = do
    ids ← index store ids_json repo_id ("thread/index/" <> pr_id) d
    collect store ids_json (λ id. get store thread_json repo_id (okey "thread" id) d) ids

  submit_review : String → Review → Step store Unit
  unfolding put_indexed
  submit_review repo_id review =
      put_indexed store ids_json review_json repo_id (okey "review" review.id)
        ("review/index/" <> review.pr_id) review.id review

  list_reviews : String → String → Disk → Result (List Review)
  unfolding collect
  list_reviews repo_id pr_id d = do
    ids ← index store ids_json repo_id ("review/index/" <> pr_id) d
    collect store ids_json (λ id. get store review_json repo_id (okey "review" id) d) ids

  report_check : String → StatusCheck → Step store Unit
  unfolding put_indexed check_key
  report_check repo_id check =
      put_indexed store ids_json check_json repo_id (check_key check.pr_id check.context)
        ("check/index/" <> check.pr_id) check.context check

  list_checks : String → String → Disk → Result (List StatusCheck)
  unfolding collect check_key
  list_checks repo_id pr_id d = do
    ids ← index store ids_json repo_id ("check/index/" <> pr_id) d
    collect store ids_json (λ context. get store check_json repo_id (check_key pr_id context) d) ids

  set_protection : BranchProtection → Step store Unit
  set_protection p = put store protection_json p.repo_id ("protection/" <> p.branch) p

  get_protection : String → String → Disk → Result (Option BranchProtection)
  get_protection repo_id branch d = get store protection_json repo_id ("protection/" <> branch) d

  -- The gate over what the store holds.
  stored_merge_status : PullRequest → Disk → Result MergeStatus
  unfolding get_protection list_reviews list_checks
  stored_merge_status pr d =
      merge_status (get_protection pr.repo_id pr.target_branch d) (list_reviews pr.repo_id pr.id d)
        (list_checks pr.repo_id pr.id d) pr

  stored_push_allowed : String → String → Disk → Result Bool
  unfolding get_protection
  stored_push_allowed repo_id branch d = direct_push_allowed (get_protection repo_id branch d)
