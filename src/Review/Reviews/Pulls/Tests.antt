-- ===== src/Review/Reviews/Pulls/Tests.antt =====
-- Runs of the operations on a store in memory, and their theorems at concrete inputs.
use secgit.Prelude.{
  sym, ◌≢◌, eq_iff, ◌∙◌, ℕ, ◌+◌, ◌%◌, ◌^◌, ◌≡◌, refl, ap, subst, String, true, Option, none, some,
  List, [], ◌∷◌, any, str_eq,
}
use secgit.Prelude.Maps.{Map, lookup, insert, lookup-insert, lookup-insert_self}
use secgit.Review.Model.{PullRequest}
use secgit.Review.Model
use secgit.Review.Gate.{ok}
use secgit.Review.Reviews.{
  Outcome, done, failed, ObjectStore, Json, index, index_add, or_zero, pr_id_of, okey, put, get,
  put_bytes, parsed, storage_err, serde_err, some_ok, or_empty, add_id, decimal, decimal_loop,
  digit, next_number, put_indexed,
}
use secgit.Review.Reviews.Index.{Unique, index-index_add, str_eq_ne}
use secgit.Review.Reviews.Pulls.{open_pr, get_pr, put_pr, put_new, new_pr}
use mathlib.Core.Bool.{true≢false, false}
use secgit.Review.Reviews.Pulls.Numbers.{FilesApart, get_pr-open_pr, open_pr-put_pr, counter}

-- What the store in memory keeps under a key, in place of its text.
data Doc : Type 0 where
  ids : List String → Doc
  number : ℕ → Doc
  pull : PullRequest → Doc

abbrev memory : ObjectStore (Map Doc) Doc
memory = record {
  put = λ repo_id key doc d. (done tt, insert key doc d);
  get = λ repo_id key d. done (lookup key d);
  get-put = λ repo_id key doc d d' h.
      subst (λ m. done (lookup key m) ≡ done (some doc)) (ap (λ r. r.1) h)
        (ap done (lookup-insert_self key doc d));
  name = λ key. key;
  Usable = λ repo_id d. Unit;
  put-Usable = λ repo_id key doc d d' h. tt;
  get-put_ne = λ repo_id key other doc d d' usable ne h.
      subst (λ m. done (lookup other m) ≡ done (lookup other d)) (ap (λ r. r.1) h)
        (rw (lookup-insert key other doc d) (rw (str_eq_ne key other ne) refl));
}

abbrev to_ids : Doc → Outcome (List String)
to_ids (ids xs) = done xs
to_ids _ = failed "not a list"

abbrev to_number : Doc → Outcome ℕ
to_number (number n) = done n
to_number _ = failed "not a number"

abbrev to_pull : Doc → Outcome PullRequest
to_pull (pull pr) = done pr
to_pull _ = failed "not a pull request"

done_same : {A : Type 0} {a b : A} → done a ≡ done b → a ≡ b
done_same h = cc

abbrev ids_json : Json Doc (List String)
ids_json = record {
  to_vec = λ xs. done (ids xs);
  from_slice = to_ids;
  from_slice-to_vec = λ xs doc h. subst (λ x. to_ids x ≡ done xs) (done_same h) refl;
}

abbrev number_json : Json Doc ℕ
number_json = record {
  to_vec = λ n. done (number n);
  from_slice = to_number;
  from_slice-to_vec = λ n doc h. subst (λ x. to_number x ≡ done n) (done_same h) refl;
}

abbrev pr_json : Json Doc PullRequest
pr_json = record {
  to_vec = λ pr. done (pull pr);
  from_slice = to_pull;
  from_slice-to_vec = λ pr doc h. subst (λ x. to_pull x ≡ done pr) (done_same h) refl;
}

abbrev numbered : ℕ → String → PullRequest
numbered n title = record {
  id = pr_id_of "r" n;
  repo_id = "r";
  number = n;
  title = title;
  description = "";
  author_id = "u";
  source_branch = "feat";
  target_branch = "main";
  head_sha = "sha1";
  state = Model.opened;
  created_at = 7;
  updated_at = 7;
}

abbrev first_disk : Map Doc
first_disk =
    ("pr/counter", number 1)
    ∷ ("pr/pr_r_1", pull (numbered 1 "t"))
    ∷ ("pr/index", ids ("pr_r_1" ∷ []))
    ∷ []

open_first :
    open_pr memory ids_json number_json pr_json "r" "u" "t" "" "feat" "main" "sha1" 7 []
    ≡ (ok (numbered 1 "t"), first_disk)
unfolding open_pr next_number put_new put_indexed index_add index add_id put get put_bytes parsed
    storage_err serde_err some_ok or_empty or_zero new_pr okey pr_id_of decimal decimal_loop digit
    lookup insert
open_first = refl

differ : (a b : String) → str_eq a b ≡ false → a ≢ b
differ a b h e = true≢false (sym ((eq_iff a b).1 e) ∙ h)

files_apart : FilesApart (λ key. key) (pr_id_of "r" 1)
unfolding okey pr_id_of decimal decimal_loop digit
files_apart = record {
  record_index = differ "pr/pr_r_1" "pr/index" refl;
  record_counter = differ "pr/pr_r_1" "pr/counter" refl;
  index_counter = differ "pr/index" "pr/counter" refl;
}

get_pr-open_pr-sample :
    (cur : Option ℕ) × (counter memory ids_json number_json pr_json "r" [] ≡ ok cur)
    × (1 ≡ (or_zero cur + 1) % 2 ^ 64)
    × (pr_id_of "r" 1 ≡ pr_id_of "r" 1)
    × (get_pr memory ids_json number_json pr_json "r" (pr_id_of "r" 1) first_disk
        ≡ ok (some (numbered 1 "t")))
    × (counter memory ids_json number_json pr_json "r" first_disk ≡ ok (some 1))
get_pr-open_pr-sample =
    get_pr-open_pr memory ids_json number_json pr_json "r" "u" "t" "" "feat" "main" "sha1" 7
      (numbered 1 "t") [] first_disk files_apart open_first

abbrev imported : Map Doc
imported = ("pr/pr_r_1", pull (numbered 1 "old")) ∷ ("pr/index", ids ("pr_r_1" ∷ [])) ∷ []

import_first : put_pr memory ids_json number_json pr_json (numbered 1 "old") [] ≡ (ok tt, imported)
unfolding open_pr next_number put_new put_indexed index_add index add_id put get put_bytes parsed
    storage_err serde_err some_ok or_empty or_zero new_pr okey pr_id_of decimal decimal_loop digit
    lookup insert put_pr
import_first = refl

counter-none : counter memory ids_json number_json pr_json "r" [] ≡ ok none
unfolding counter open_pr next_number put_new put_indexed index_add index add_id put get put_bytes
    parsed storage_err serde_err some_ok or_empty or_zero new_pr okey pr_id_of decimal decimal_loop
    digit lookup insert put_pr
counter-none = refl

abbrev replaced : Map Doc
replaced =
    ("pr/pr_r_1", pull (numbered 1 "t"))
    ∷ ("pr/index", ids ("pr_r_1" ∷ []))
    ∷ ("pr/counter", number 1)
    ∷ []

open_imported :
    open_pr memory ids_json number_json pr_json "r" "u" "t" "" "feat" "main" "sha1" 7 imported
    ≡ (ok (numbered 1 "t"), replaced)
unfolding open_pr next_number put_new put_indexed index_add index add_id put get put_bytes parsed
    storage_err serde_err some_ok or_empty or_zero new_pr okey pr_id_of decimal decimal_loop digit
    lookup insert put_pr
open_imported = refl

same_first : pr_id_of "r" 1 ≡ pr_id_of "r" ((or_zero none + 1) % 2 ^ 64)
unfolding or_zero
same_first = refl

open_pr-put_pr-sample :
    (get_pr memory ids_json number_json pr_json "r" (pr_id_of "r" 1) imported
      ≡ ok (some (numbered 1 "old")))
    × (get_pr memory ids_json number_json pr_json "r" (pr_id_of "r" 1) replaced
        ≡ ok (some (numbered 1 "t")))
open_pr-put_pr-sample =
    open_pr-put_pr memory ids_json number_json pr_json "r" "u" "t" "" "feat" "main" "sha1" 7
      (numbered 1 "old") (numbered 1 "t") none [] imported replaced tt files_apart counter-none refl
      same_first import_first open_imported

index-none : index memory ids_json "r" "pr/index" [] ≡ ok []
unfolding open_pr next_number put_new put_indexed index_add index add_id put get put_bytes parsed
    storage_err serde_err some_ok or_empty or_zero new_pr okey pr_id_of decimal decimal_loop digit
    lookup insert put_pr
index-none = refl

abbrev listed : Map Doc
listed = ("pr/index", ids ("a" ∷ [])) ∷ []

add_first : index_add memory ids_json "r" "pr/index" "a" [] ≡ (ok tt, listed)
unfolding open_pr next_number put_new put_indexed index_add index add_id put get put_bytes parsed
    storage_err serde_err some_ok or_empty or_zero new_pr okey pr_id_of decimal decimal_loop digit
    lookup insert put_pr
add_first = refl

index-index_add-sample :
    (ids' : List String) × (index memory ids_json "r" "pr/index" listed ≡ ok ids')
    × (any (λ x. str_eq x "a") ids' ≡ true)
    × Unique ids'
unfolding Unique
index-index_add-sample =
    index-index_add memory ids_json "r" "pr/index" "a" [] [] listed index-none tt add_first
