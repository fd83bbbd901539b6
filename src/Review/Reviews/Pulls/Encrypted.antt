-- ===== src/Review/Reviews/Pulls/Encrypted.antt =====
-- Pull requests kept in the modelled encrypted store, and the theorems on them at concrete inputs.
use mathlib.Core.Bool.{true≢false}
use secgit.Prelude.{
  ℕ, ◌+◌, ◌%◌, ◌^◌, ◌≡◌, ◌≢◌, refl, sym, ◌∙◌, String, Bool, true, false, ◌&&◌, Option, none, some,
  [], ◌∷◌, Bytes, str_eq, eq_iff, bytes_eq, ◌==◌, ==_iff, if◌then◌else◌, Bool-cases, inl, inr,
  &&-split,
}
use secgit.Prelude.Maps.{lookup, insert}
use secgit.Crypto.Aead.{wrap_key, seal, open_sealed, unwrap_key}
use secgit.Crypto.Tests.{toy_cipher}
use secgit.Crypto.Envelope.{decode, encode}
use secgit.Prelude.Words.{le_bytes, from_le}
use secgit.Crypto.Error.{kind_from_u8, kind_byte, scheme_from_u16, scheme_u16}
use secgit.Crypto.Framing.{read as framing_read, new_reader, rest}
use secgit.Store.{put as store_put, get as store_get}
use secgit.Store.Tests.{plain_name, draws, draws-IsSized, store, keyed, keyed-Unlocks, dek}
use secgit.Review.Model.{PrState, PullRequest}
use secgit.Review.Model
use secgit.Review.Gate.{ok}
use secgit.Review.Reviews.{
  Outcome, done, failed, Json, index, index_add, add_id, put, get, put_bytes, parsed, storage_err,
  serde_err, some_ok, or_empty, or_zero, next_number, put_indexed, okey, pr_id_of, decimal,
  decimal_loop, digit,
}
use secgit.Review.Reviews.Stored.{Calls, stored, write, read, outcome}
use secgit.Review.Reviews.Stored.Tests.{ids_json, describe, encrypted, to_text, from_text}
use secgit.Review.Reviews.Pulls.{open_pr, get_pr, put_pr, put_new, new_pr}
use secgit.Review.Reviews.Pulls.Numbers.{FilesApart, counter, get_pr-open_pr, open_pr-put_pr}

abbrev At : Type 0
At = Calls toy_cipher plain_name describe store (λ n. draws) (λ n. draws-IsSized)

to_number : Bytes → Outcome ℕ
to_number (n ∷ []) = done n
to_number _ = failed "not a number"

number_lem : (n : ℕ) (bytes : Bytes) → done (n ∷ []) ≡ done bytes → to_number bytes ≡ done n
unfolding to_number
number_lem n bytes h = let e : n ∷ [] ≡ bytes = cc in rw (← e) refl

abbrev number_json : Json Bytes ℕ
number_json = record {
  to_vec = λ n. done (n ∷ []);
  from_slice = to_number;
  from_slice-to_vec = number_lem;
}

abbrev titled : String → PullRequest
titled title = record {
  id = pr_id_of "acme" 1;
  repo_id = "acme";
  number = 1;
  title = title;
  description = "";
  author_id = "u";
  source_branch = "feat";
  target_branch = "main";
  head_sha = "sha1";
  state = Model.opened;
  created_at = 7;
  updated_at = 7;
}

same_state : PrState → PrState → Bool
same_state Model.opened Model.opened = true
same_state _ _ = false

same_state_sound : (a b : PrState) → same_state a b ≡ true → a ≡ b
unfolding same_state
same_state_sound Model.opened Model.opened h = refl
same_state_sound Model.opened Model.merged h = cc
same_state_sound Model.opened Model.closed h = cc
same_state_sound Model.merged b h = cc
same_state_sound Model.closed b h = cc

same_pr : PullRequest → PullRequest → Bool
unfolding same_state
same_pr a b =
    str_eq a.id b.id
    && (str_eq a.repo_id b.repo_id
        && (a.number == b.number
            && (str_eq a.title b.title
                && (str_eq a.description b.description
                    && (str_eq a.author_id b.author_id
                        && (str_eq a.source_branch b.source_branch
                            && (str_eq a.target_branch b.target_branch
                                && (str_eq a.head_sha b.head_sha
                                    && (same_state a.state b.state
                                        && (a.created_at == b.created_at
                                            && a.updated_at == b.updated_at))))))))))

same_pr_sound : (a b : PullRequest) → same_pr a b ≡ true → a ≡ b
unfolding same_pr
same_pr_sound a b h0 =
    let (e0, h1) = &&-split (str_eq a.id b.id) _ h0 in
    let (e1, h2) = &&-split (str_eq a.repo_id b.repo_id) _ h1 in
    let (e2, h3) = &&-split (a.number == b.number) _ h2 in
    let (e3, h4) = &&-split (str_eq a.title b.title) _ h3 in
    let (e4, h5) = &&-split (str_eq a.description b.description) _ h4 in
    let (e5, h6) = &&-split (str_eq a.author_id b.author_id) _ h5 in
    let (e6, h7) = &&-split (str_eq a.source_branch b.source_branch) _ h6 in
    let (e7, h8) = &&-split (str_eq a.target_branch b.target_branch) _ h7 in
    let (e8, h9) = &&-split (str_eq a.head_sha b.head_sha) _ h8 in
    let (e9, h10) = &&-split (same_state a.state b.state) _ h9 in
    let (e10, e11) = &&-split (a.created_at == b.created_at) _ h10 in
    λ i. record {
      id = (eq_iff a.id b.id).0 e0 i;
      repo_id = (eq_iff a.repo_id b.repo_id).0 e1 i;
      number = (==_iff a.number b.number).0 e2 i;
      title = (eq_iff a.title b.title).0 e3 i;
      description = (eq_iff a.description b.description).0 e4 i;
      author_id = (eq_iff a.author_id b.author_id).0 e5 i;
      source_branch = (eq_iff a.source_branch b.source_branch).0 e6 i;
      target_branch = (eq_iff a.target_branch b.target_branch).0 e7 i;
      head_sha = (eq_iff a.head_sha b.head_sha).0 e8 i;
      state = same_state_sound a.state b.state e9 i;
      created_at = (==_iff a.created_at b.created_at).0 e10 i;
      updated_at = (==_iff a.updated_at b.updated_at).0 e11 i;
    }

-- A stand-in for JSON that knows two pull requests.
pr_text : PullRequest → Outcome Bytes
unfolding same_pr
pr_text pr =
    if same_pr pr (titled "t")
    then done (2 ∷ [])
    else if same_pr pr (titled "old")
    then done (3 ∷ [])
    else failed "unknown"

text_pr : Bytes → Outcome PullRequest
text_pr bytes =
    if bytes_eq bytes (2 ∷ [])
    then done (titled "t")
    else if bytes_eq bytes (3 ∷ [])
    then done (titled "old")
    else failed "unknown"

text_pr-pr_text :
    (pr : PullRequest) (bytes : Bytes) → pr_text pr ≡ done bytes → text_pr bytes ≡ done pr
unfolding pr_text text_pr bytes_eq
text_pr-pr_text pr bytes h = elim (Bool-cases (same_pr pr (titled "t"))) [
  | inl first ↦
      let e : 2 ∷ [] ≡ bytes = cc (rw first at h) in
      rw (← e, same_pr_sound pr (titled "t") first) refl
  | inr other ↦ elim (Bool-cases (same_pr pr (titled "old"))) [
    | inl second ↦
        let e : 3 ∷ [] ≡ bytes = cc (rw (other, second) at h) in
        rw (← e, same_pr_sound pr (titled "old") second) refl
    | inr unknown ↦ absurd (cc (rw (other, unknown) at h))
  ]
]

abbrev pr_json : Json Bytes PullRequest
pr_json = record { to_vec = pr_text; from_slice = text_pr; from_slice-to_vec = text_pr-pr_text }

abbrev first_disk : At
first_disk =
    (open_pr encrypted ids_json number_json pr_json "acme" "u" "t" "" "feat" "main" "sha1" 7
      ([], 0)).1

opened_first :
    open_pr encrypted ids_json number_json pr_json "acme" "u" "t" "" "feat" "main" "sha1" 7 ([], 0)
    ≡ (ok (titled "t"), first_disk)
unfolding open_pr next_number put_new put_indexed index_add index add_id put get put_bytes parsed
    storage_err serde_err some_ok or_empty or_zero new_pr okey pr_id_of decimal decimal_loop digit
    lookup insert put_pr stored write read outcome store_put store_get toy_cipher wrap_key seal
    open_sealed unwrap_key to_text from_text to_number pr_text text_pr same_pr same_state bytes_eq
    decode encode le_bytes kind_from_u8 kind_byte scheme_from_u16 from_le scheme_u16 framing_read
    new_reader rest
opened_first = refl

differ : (a b : String) → str_eq a b ≡ false → a ≢ b
differ a b h e = true≢false (sym ((eq_iff a b).1 e) ∙ h)

files_apart : FilesApart plain_name (pr_id_of "acme" 1)
unfolding okey pr_id_of decimal decimal_loop digit
files_apart = record {
  record_index = differ "pr/pr_acme_1" "pr/index" refl;
  record_counter = differ "pr/pr_acme_1" "pr/counter" refl;
  index_counter = differ "pr/index" "pr/counter" refl;
}

get_pr-open_pr_example :
    (cur : Option ℕ) × (counter encrypted ids_json number_json pr_json "acme" ([], 0) ≡ ok cur)
    × (1 ≡ (or_zero cur + 1) % 2 ^ 64)
    × (pr_id_of "acme" 1 ≡ pr_id_of "acme" 1)
    × (get_pr encrypted ids_json number_json pr_json "acme" (pr_id_of "acme" 1) first_disk
        ≡ ok (some (titled "t")))
    × (counter encrypted ids_json number_json pr_json "acme" first_disk ≡ ok (some 1))
unfolding stored
get_pr-open_pr_example =
    get_pr-open_pr encrypted ids_json number_json pr_json "acme" "u" "t" "" "feat" "main" "sha1" 7
      (titled "t") ([], 0) first_disk files_apart opened_first

abbrev imported : At
imported = (put_pr encrypted ids_json number_json pr_json (titled "old") (keyed, 0)).1

imported_run :
    put_pr encrypted ids_json number_json pr_json (titled "old") (keyed, 0) ≡ (ok tt, imported)
unfolding open_pr next_number put_new put_indexed index_add index add_id put get put_bytes parsed
    storage_err serde_err some_ok or_empty or_zero new_pr okey pr_id_of decimal decimal_loop digit
    lookup insert put_pr stored write read outcome store_put store_get toy_cipher wrap_key seal
    open_sealed unwrap_key to_text from_text to_number pr_text text_pr same_pr same_state bytes_eq
    decode encode le_bytes kind_from_u8 kind_byte scheme_from_u16 from_le scheme_u16 framing_read
    new_reader rest
imported_run = refl

counter-none : counter encrypted ids_json number_json pr_json "acme" (keyed, 0) ≡ ok none
unfolding counter open_pr next_number put_new put_indexed index_add index add_id put get put_bytes
    parsed storage_err serde_err some_ok or_empty or_zero new_pr okey pr_id_of decimal decimal_loop
    digit lookup insert put_pr stored write read outcome store_put store_get toy_cipher wrap_key
    seal open_sealed unwrap_key to_text from_text to_number pr_text text_pr same_pr same_state
    bytes_eq decode encode le_bytes kind_from_u8 kind_byte scheme_from_u16 from_le scheme_u16
    framing_read new_reader rest
counter-none = refl

abbrev replaced : At
replaced =
    (open_pr encrypted ids_json number_json pr_json "acme" "u" "t" "" "feat" "main" "sha1" 7
      imported).1

opened_imported :
    open_pr encrypted ids_json number_json pr_json "acme" "u" "t" "" "feat" "main" "sha1" 7 imported
    ≡ (ok (titled "t"), replaced)
unfolding open_pr next_number put_new put_indexed index_add index add_id put get put_bytes parsed
    storage_err serde_err some_ok or_empty or_zero new_pr okey pr_id_of decimal decimal_loop digit
    lookup insert put_pr stored write read outcome store_put store_get toy_cipher wrap_key seal
    open_sealed unwrap_key to_text from_text to_number pr_text text_pr same_pr same_state bytes_eq
    decode encode le_bytes kind_from_u8 kind_byte scheme_from_u16 from_le scheme_u16 framing_read
    new_reader rest
opened_imported = refl

same_first : pr_id_of "acme" 1 ≡ pr_id_of "acme" ((or_zero none + 1) % 2 ^ 64)
unfolding or_zero
same_first = refl

open_pr-put_pr_example :
    (get_pr encrypted ids_json number_json pr_json "acme" (pr_id_of "acme" 1) imported
      ≡ ok (some (titled "old")))
    × (get_pr encrypted ids_json number_json pr_json "acme" (pr_id_of "acme" 1) replaced
        ≡ ok (some (titled "t")))
unfolding stored
open_pr-put_pr_example =
    open_pr-put_pr encrypted ids_json number_json pr_json "acme" "u" "t" "" "feat" "main" "sha1" 7
      (titled "old") (titled "t") none (keyed, 0) imported replaced (dek, keyed-Unlocks) files_apart
      counter-none refl same_first imported_run opened_imported
