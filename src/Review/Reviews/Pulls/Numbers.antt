-- ===== src/Review/Reviews/Pulls/Numbers.antt =====
-- review/src/lib.rs: what a pull request that was opened is stored as, and its number.
use secgit.Prelude.{
  ℕ, ◌+◌, ◌%◌, ◌^◌, Option, some, List, ◌≡◌, ◌≢◌, ap, subst, sym, ◌∙◌, String, refl,
}
use secgit.Review.Gate.{Result, ok}
use secgit.Review.Model.{PullRequest}
use secgit.Review.Reviews.{
  ObjectStore, Json, pr_id_of, okey, or_zero, put, get, put_indexed, next_number,
}
use secgit.Review.Reviews.Index.{step_ok, get-put, get-put_ne, put-Usable, get-index_add, ok_same}
use secgit.Review.Reviews.Pulls.{new_pr, put_new, open_pr, get_pr, put_pr}

-- The files of the counter, of the index and of a pull request have three names.
pub record FilesApart (name : String → String) (id : String) : Type 0 where
  pub record_index : name (okey "pr" id) ≢ name "pr/index"
  pub record_counter : name (okey "pr" id) ≢ name "pr/counter"
  pub index_counter : name "pr/index" ≢ name "pr/counter"

module _ {Disk Blob : Type 0} (store : ObjectStore Disk Blob) (ids_json : Json Blob (List String))
    (number_json : Json Blob ℕ) (pr_json : Json Blob PullRequest) where
  unfoldable pub counter : String → Disk → Result (Option ℕ)
  counter repo_id d = get store number_json repo_id "pr/counter" d

  next_number_counted :
      (repo_id : String) (n : ℕ) (d d' : Disk)
      → next_number store ids_json number_json repo_id d ≡ (ok n, d')
      → (cur : Option ℕ) × (counter repo_id d ≡ ok cur)
        × (n ≡ (or_zero cur + 1) % 2 ^ 64)
        × (put store number_json repo_id "pr/counter" n d ≡ (ok tt, d'))
  unfolding next_number counter
  next_number_counted repo_id n d d' h =
      let (cur, mid, read, h1) =
        step_ok store (λ d. (get store number_json repo_id "pr/counter" d, d)) _ d h in
      let (u, last, wrote, h2) =
        step_ok store (put store number_json repo_id "pr/counter" ((or_zero cur + 1) % 2 ^ 64)) _
          mid h1 in
      let same : d ≡ mid = ap (λ r. r.1) read in
      let ended : last ≡ d' = ap (λ r. r.1) h2 in
      let number : (or_zero cur + 1) % 2 ^ 64 ≡ n = ok_same (ap (λ r. r.0) h2) in
      (
        cur,
        ap (λ r. r.0) read,
        sym number,
        subst (λ m. put store number_json repo_id "pr/counter" m d ≡ (ok tt, d')) number
            (rw same (wrote ∙ ap (λ e. (ok tt, e)) ended)),
      )

  -- A stored pull request is read back; the counter is left alone.
  put_new-stored :
      (pr : PullRequest) (d d' : Disk)
      → store.Usable pr.repo_id d
      → FilesApart store.name pr.id
      → put_new store ids_json number_json pr_json pr d ≡ (ok tt, d')
      → (get_pr store ids_json number_json pr_json pr.repo_id pr.id d' ≡ ok (some pr))
        × (counter pr.repo_id d' ≡ counter pr.repo_id d)
  unfolding put_new put_indexed get_pr counter
  put_new-stored pr d d' usable apart h =
      let (u, mid, wrote, indexed) =
        step_ok store (put store pr_json pr.repo_id (okey "pr" pr.id) pr) _ d h in
      let usable' = put-Usable store pr_json pr.repo_id (okey "pr" pr.id) pr d mid wrote in
      (
        get-index_add store ids_json pr_json pr.repo_id "pr/index" (okey "pr" pr.id) pr.id mid d'
              usable' (λ e. apart.record_index (sym e)) indexed
            ∙ get-put store pr_json pr.repo_id (okey "pr" pr.id) pr d mid wrote,
        get-index_add store ids_json number_json pr.repo_id "pr/index" "pr/counter" pr.id mid d'
              usable' apart.index_counter indexed
            ∙ get-put_ne store pr_json number_json pr.repo_id (okey "pr" pr.id) "pr/counter" pr d
                mid usable apart.record_counter wrote,
      )

  module _ (repo_id author_id title description source_branch target_branch head_sha : String)
      (now : ℕ) where
    opened-made :
        (pr : PullRequest) (d d' : Disk)
        → open_pr store ids_json number_json pr_json repo_id author_id title description
            source_branch target_branch head_sha now d
          ≡ (ok pr, d')
        → (cur : Option ℕ) × (mid : Disk) × (counter repo_id d ≡ ok cur)
          × (pr.number ≡ (or_zero cur + 1) % 2 ^ 64)
          × (pr.id ≡ pr_id_of repo_id pr.number)
          × (pr.repo_id ≡ repo_id)
          × (put store number_json repo_id "pr/counter" pr.number d ≡ (ok tt, mid))
          × (put_new store ids_json number_json pr_json pr mid ≡ (ok tt, d'))
    unfolding open_pr new_pr
    opened-made pr d d' h =
        let (n, mid, numbered, h1) =
          step_ok store (next_number store ids_json number_json repo_id) _ d h in
        let (cur, counted, next, wrote) = next_number_counted repo_id n d mid numbered in
        let made =
          new_pr repo_id author_id title description source_branch target_branch head_sha now n in
        let (u, last, stored, h2) =
          step_ok store (put_new store ids_json number_json pr_json made) _ mid h1 in
        let same : made ≡ pr = ok_same (ap (λ r. r.0) h2) in
        let ended : last ≡ d' = ap (λ r. r.1) h2 in
        rw (← same, ← ended) (cur, mid, counted, next, refl, refl, wrote, stored)

    -- Where the store's names of the three files differ, a pull request that was opened has the
    -- successor of the counter as its number, by which its id is made; afterwards it is read back
    -- under its id, and the counter is its number.
    pub get_pr-open_pr :
        (pr : PullRequest) (d d' : Disk)
        → FilesApart store.name pr.id
        → open_pr store ids_json number_json pr_json repo_id author_id title description
            source_branch target_branch head_sha now d
          ≡ (ok pr, d')
        → (cur : Option ℕ) × (counter repo_id d ≡ ok cur)
          × (pr.number ≡ (or_zero cur + 1) % 2 ^ 64)
          × (pr.id ≡ pr_id_of repo_id pr.number)
          × (get_pr store ids_json number_json pr_json repo_id pr.id d' ≡ ok (some pr))
          × (counter repo_id d' ≡ ok (some pr.number))
    unfolding counter
    get_pr-open_pr pr d d' apart h =
        let (cur, mid, counted, number, id, same_repo, wrote, stored) = opened-made pr d d' h in
        let usable = put-Usable store number_json repo_id "pr/counter" pr.number d mid wrote in
        let (held, kept) =
          put_new-stored pr mid d' (subst (λ r. store.Usable r mid) (sym same_repo) usable) apart
            stored in
        (
          cur,
          counted,
          number,
          id,
          subst (λ r. get_pr store ids_json number_json pr_json r pr.id d' ≡ ok (some pr)) same_repo
              held,
          subst (λ r. counter r d' ≡ counter r mid) same_repo kept
              ∙ get-put store number_json repo_id "pr/counter" pr.number d mid wrote,
        )

    -- Where an imported pull request of a usable repository has the id of the next number and was
    -- stored, and the store's names of the three files differ, it is read back, and when the next one
    -- has been opened, that is read back under its id instead.
    pub open_pr-put_pr :
        (old pr : PullRequest) (cur : Option ℕ) (d d' d'' : Disk)
        → store.Usable repo_id d
        → FilesApart store.name old.id
        → counter repo_id d ≡ ok cur
        → old.repo_id ≡ repo_id
        → old.id ≡ pr_id_of repo_id ((or_zero cur + 1) % 2 ^ 64)
        → put_pr store ids_json number_json pr_json old d ≡ (ok tt, d')
        → open_pr store ids_json number_json pr_json repo_id author_id title description
            source_branch target_branch head_sha now d'
          ≡ (ok pr, d'')
        → (get_pr store ids_json number_json pr_json repo_id old.id d' ≡ ok (some old))
          × (get_pr store ids_json number_json pr_json repo_id old.id d'' ≡ ok (some pr))
    unfolding put_pr counter
    open_pr-put_pr old pr cur d d' d'' usable apart counted same_repo named put opened =
        let (held, kept) =
          put_new-stored old d d' (subst (λ r. store.Usable r d) (sym same_repo) usable) apart
            put in
        let (cur', mid, counted', number, id, rest, wrote, stored) = opened-made pr d' d'' opened in
        let counted_again : ok cur' ≡ ok cur =
          sym counted' ∙ subst (λ r. counter r d' ≡ counter r d) same_repo kept ∙ counted in
        let same_id : pr.id ≡ old.id =
          id
          ∙ ap (pr_id_of repo_id)
              (number ∙ ap (λ c. (or_zero c + 1) % 2 ^ 64) (ok_same counted_again))
          ∙ sym named in
        let (c, e1, e2, e3, now_held, e4) =
          get_pr-open_pr pr d' d'' (subst (FilesApart store.name) (sym same_id) apart) opened in
        (
          subst (λ r. get_pr store ids_json number_json pr_json r old.id d' ≡ ok (some old))
              same_repo held,
          subst (λ i. get_pr store ids_json number_json pr_json repo_id i d'' ≡ ok (some pr))
              same_id now_held,
        )
