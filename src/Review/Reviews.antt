-- ===== src/Review/Reviews.antt =====
-- crates/secgit-review/src/lib.rs: the operations of `Reviews`, which keep each record under its own
-- key and the ids of a kind in an index. The encrypted store and serde_json are interfaces; the store
-- draws its nonces from the state that stands for the disk.
pub mod Pulls
pub mod Threads
pub mod Index
pub mod Stored
use Prim.Native.String.{◌++◌ as ◌<>◌}
use secgit.Prelude.{
  ℕ, zero, suc, ◌+◌, ◌/◌, ◌%◌, ◌^◌, ◌≡◌, ◌≢◌, String, Bool, true, false, not, Option, none, some,
  List, [], ◌∷◌, ◌++◌, any, str_eq, ltb, leb, if◌then◌else◌, ◌==◌,
}
use secgit.Review.Gate.{ReviewError, storage, serde, not_found, Result, ok, err, ◌>>=◌}
use secgit.Review.Model.{PrState, PullRequest, Review, StatusCheck, BranchProtection}
use secgit.Review.Model
use secgit.Review.Issue.{Issue, Comment, ReviewThread}

-- How an outside call ends: with a value or with its error's text.
pub data Outcome (A : Type 0) : Type 0 where
  done : A → Outcome A
  failed : String → Outcome A

-- What the reviews rely on in the encrypted store, which Stored shows of the modelled one: `name` is
-- the name of an object's file, and a usable repository has a data key that opens.
pub record ObjectStore (Disk Blob : Type 0) : Type 1 where
  pub put : String → String → Blob → Disk → Outcome Unit × Disk
  pub get : String → String → Disk → Outcome (Option Blob)
  pub name : String → String
  pub Usable : String → Disk → Type 0
  pub get-put :
      (repo_id key : String) (bytes : Blob) (d d' : Disk)
      → put repo_id key bytes d ≡ (done tt, d')
      → get repo_id key d' ≡ done (some bytes)
  pub put-Usable :
      (repo_id key : String) (bytes : Blob) (d d' : Disk)
      → put repo_id key bytes d ≡ (done tt, d')
      → Usable repo_id d'
  pub get-put_ne :
      (repo_id key other : String) (bytes : Blob) (d d' : Disk)
      → Usable repo_id d
      → name key ≢ name other
      → put repo_id key bytes d ≡ (done tt, d')
      → get repo_id other d' ≡ get repo_id other d

-- serde_json at one type: what was written is read back.
pub record Json (Blob A : Type 0) : Type 0 where
  pub to_vec : A → Outcome Blob
  pub from_slice : Blob → Outcome A
  pub from_slice-to_vec : (a : A) (bytes : Blob) → to_vec a ≡ done bytes → from_slice bytes ≡ done a

digit : ℕ → String
digit n =
    if n == 0
    then "0"
    else if n == 1
    then "1"
    else if n == 2
    then "2"
    else if n == 3
    then "3"
    else if n == 4
    then "4"
    else if n == 5
    then "5"
    else if n == 6
    then "6"
    else if n == 7
    then "7"
    else if n == 8
    then "8"
    else "9"

-- A number's decimal digits; a number has at most as many as it counts, one for zero.
decimal_loop : ℕ → ℕ → String
unfolding digit
decimal_loop zero n = digit n
decimal_loop (suc fuel) n =
    let rest = decimal_loop fuel (n / 10) in if ltb n 10 then digit n else rest <> digit (n % 10)

pub decimal : ℕ → String
unfolding decimal_loop
decimal n = decimal_loop n n

pub pr_id_of : String → ℕ → String
unfolding decimal
pr_id_of repo_id number = "pr_" <> (repo_id <> ("_" <> decimal number))

pub okey : String → String → String
okey kind id = kind <> ("/" <> id)

check_key : String → String → String
check_key pr_id context = "check/" <> (pr_id <> ("/" <> context))

pub or_zero : Option ℕ → ℕ
or_zero none = 0
or_zero (some n) = n

or_empty : Option (List String) → List String
or_empty none = []
or_empty (some ids) = ids

or_not_found : {A : Type 0} → String → Option A → Result A
or_not_found id none = err (not_found id)
or_not_found id (some a) = ok a

storage_err : {A : Type 0} → Outcome A → Result A
storage_err (done a) = ok a
storage_err (failed e) = err (storage e)

serde_err : {A : Type 0} → Outcome A → Result A
serde_err (done a) = ok a
serde_err (failed e) = err (serde e)

some_ok : {A : Type 0} → Result A → Result (Option A)
some_ok (ok a) = ok (some a)
some_ok (err e) = err e

-- `sort_by(|a, b| b.number.cmp(&a.number))`: the highest number first, and stable.
insert_by : {A : Type 0} → (A → ℕ) → A → List A → List A
insert_by number a [] = a ∷ []
insert_by number a (b ∷ bs) =
    let rest = b ∷ insert_by number a bs in if leb (number b) (number a) then a ∷ (b ∷ bs) else rest

sort_by_number : {A : Type 0} → (A → ℕ) → List A → List A
unfolding insert_by
sort_by_number number [] = []
sort_by_number number (a ∷ as') = insert_by number a (sort_by_number number as')

module _ {Disk Blob : Type 0} (store : ObjectStore Disk Blob) where
  abbrev pub Step : Type 0 → Type 0
  Step A = Disk → Result A × Disk

  abbrev pub after : {A B : Type 0} → Result A → Disk → (A → Step B) → Result B × Disk
  after (ok a) d next = next a d
  after (err e) d next = (err e, d)

  infixl 5 ◌>>>=◌
  abbrev ◌>>>=◌ : {A B : Type 0} → Step A → (A → Step B) → Step B
  (step >>>= next) d = after (step d).0 (step d).1 next

  abbrev lift : {A : Type 0} → Result A → Step A
  lift r d = (r, d)

  put_bytes : String → String → Blob → Step Unit
  unfolding storage_err
  put_bytes repo_id key bytes d = let (r, d') = store.put repo_id key bytes d in (storage_err r, d')

  pub put : {A : Type 0} → Json Blob A → String → String → A → Step Unit
  unfolding serde_err put_bytes
  put json repo_id key v = lift (serde_err (json.to_vec v)) >>>= put_bytes repo_id key

  parsed : {A : Type 0} → Json Blob A → Option Blob → Result (Option A)
  unfolding serde_err some_ok
  parsed json none = ok none
  parsed json (some bytes) = some_ok (serde_err (json.from_slice bytes))

  pub get : {A : Type 0} → Json Blob A → String → String → Disk → Result (Option A)
  unfolding storage_err parsed
  get json repo_id key d = storage_err (store.get repo_id key d) >>= parsed json

  module _ (ids_json : Json Blob (List String)) where
    pub index : String → String → Disk → Result (List String)
    unfolding or_empty
    index repo_id key d = do found ← get ids_json repo_id key d; ok (or_empty found)

    pub add_id : String → String → String → List String → Step Unit
    add_id repo_id key id ids =
        if not (any (λ x. str_eq x id) ids)
        then put ids_json repo_id key (ids ++ id ∷ [])
        else lift (ok tt)

    pub index_add : String → String → String → Step Unit
    unfolding add_id
    index_add repo_id key id d = (lift (index repo_id key d) >>>= add_id repo_id key id) d

    -- The loop of every listing: an id whose record is gone is passed over.
    collect : {A : Type 0} → (String → Result (Option A)) → List String → Result (List A)
    collect read [] = ok []
    collect read (id ∷ ids) = do found ← read id; rest ← collect read ids; ok (kept found rest)
      where
        kept : {A : Type 0} → Option A → List A → List A
        kept none rest = rest
        kept (some a) rest = a ∷ rest

    put_indexed : {A : Type 0} → Json Blob A → String → String → String → String → A → Step Unit
    put_indexed json repo_id key index_key id v d =
        (put json repo_id key v >>>= λ _. index_add repo_id index_key id) d

    update : {A : Type 0} → Json Blob A → String → String → String → (A → A) → Step Unit
    unfolding or_not_found
    update json repo_id key id change d =
        (lift (get json repo_id key d >>= or_not_found id) >>>= λ v.
        put json repo_id key (change v))
          d

    pub next_number : Json Blob ℕ → String → Step ℕ
    unfolding or_zero
    next_number json repo_id d =
        (lift (get json repo_id "pr/counter" d) >>>= λ cur.
        let next = (or_zero cur + 1) % 2 ^ 64 in
        put json repo_id "pr/counter" next >>>= λ _. lift (ok next))
          d
