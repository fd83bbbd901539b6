-- ===== src/Review/Reviews/Pulls.antt =====
-- review/src/lib.rs: pull requests.
pub mod Numbers
pub mod Tests
pub mod Encrypted
use secgit.Prelude.{ℕ, String, Option, none, some, List}
use secgit.Review.Gate.{Result, ok, err, ◌>>=◌}
use secgit.Review.Model.{PrState, PullRequest}
use secgit.Review.Model
use secgit.Review.Reviews.{
  ObjectStore, Json, Step, ◌>>>=◌, lift, pr_id_of, okey, sort_by_number, put, get, index, collect,
  put_indexed, update, next_number,
}

pub new_pr :
    (repo_id author_id title description source_branch target_branch head_sha : String) (now : ℕ)
    → ℕ
    → PullRequest
new_pr repo_id author_id title description source_branch target_branch head_sha now number =
    record {
      id = pr_id_of repo_id number;
      repo_id = repo_id;
      number = number;
      title = title;
      description = description;
      author_id = author_id;
      source_branch = source_branch;
      target_branch = target_branch;
      head_sha = head_sha;
      state = Model.opened;
      created_at = now;
      updated_at = now;
    }

module _ {Disk Blob : Type 0} (store : ObjectStore Disk Blob) (ids_json : Json Blob (List String))
    (number_json : Json Blob ℕ) (pr_json : Json Blob PullRequest) where
  pub put_new : PullRequest → Step store Unit
  unfolding put_indexed
  put_new pr = put_indexed store ids_json pr_json pr.repo_id (okey "pr" pr.id) "pr/index" pr.id pr

  pub open_pr :
      (repo_id author_id title description source_branch target_branch head_sha : String) (now : ℕ)
      → Step store PullRequest
  unfolding new_pr
  open_pr repo_id author_id title description source_branch target_branch head_sha now d =
      ◌>>>=◌ store (next_number store ids_json number_json repo_id)
        (λ number.
          let pr =
            new_pr repo_id author_id title description source_branch target_branch head_sha now
              number in
          ◌>>>=◌ store (put_new pr) (λ _. lift store (ok pr)))
        d

  pub get_pr : String → String → Disk → Result (Option PullRequest)
  get_pr repo_id pr_id d = get store pr_json repo_id (okey "pr" pr_id) d

  pub put_pr : PullRequest → Step store Unit
  unfolding put_new
  put_pr pr = put_new pr

  list_prs : String → Disk → Result (List PullRequest)
  unfolding collect get_pr sort_by_number
  list_prs repo_id d = do
    ids ← index store ids_json repo_id "pr/index" d
    out ← collect store ids_json (λ id. get_pr repo_id id d) ids
    ok (sort_by_number (λ pr. pr.number) out)

  pub update_head : String → String → String → ℕ → Step store Unit
  unfolding update
  update_head repo_id pr_id head_sha now =
      update store ids_json pr_json repo_id (okey "pr" pr_id) pr_id
        (λ pr. record pr { head_sha = head_sha; updated_at = now })

  pub set_pr_state : String → String → PrState → ℕ → Step store Unit
  unfolding update
  set_pr_state repo_id pr_id state now =
      update store ids_json pr_json repo_id (okey "pr" pr_id) pr_id
        (λ pr. record pr { state = state; updated_at = now })
