-- ===== src/Review/Reviews/Index.antt =====
-- review/src/lib.rs: what `put`, `get` and `index_add` keep.
use secgit.Prelude.{
  ◌≡◌, ◌≢◌, ◌⊎◌, refl, ap, ap₂, subst, sym, ◌∙◌, String, Bool, true, false, not, some, List, [],
  ◌∷◌, ◌++◌, any, str_eq, eq_iff, eq_refl, if◌then◌else◌, Bool-cases, inl, inr, arith,
}
use mathlib.Core.Bool.{◌||◌, true≢false}
use secgit.Review.Gate.{Result, ok, err}
use secgit.Review.Reviews.{
  Outcome, done, failed, ObjectStore, Json, Step, after, storage_err, serde_err, put_bytes, put,
  parsed, get, or_empty, index, add_id, index_add, some_ok,
}

-- No id stands twice.
unfoldable pub Unique : List String → Type 0
Unique [] = Unit
Unique (id ∷ ids) = (any (λ x. str_eq x id) ids ≡ false) × Unique ids

pub str_eq_ne : (a b : String) → a ≢ b → str_eq a b ≡ false
str_eq_ne a b ne = elim (Bool-cases (str_eq a b)) [
  | inl h ↦ elim (ne ((eq_iff a b).0 h)) [ ]
  | inr h ↦ h
]

any-snoc :
    (id y : String) (ids : List String)
    → any (λ x. str_eq x id) ids ≡ false
    → str_eq y id ≡ false
    → any (λ x. str_eq x id) (ids ++ y ∷ []) ≡ false
any-snoc id y [] h g = ground arith
any-snoc id y (x ∷ ids) h g = ground (arith, any-snoc id y ids)

any_last : (id : String) (ids : List String) → any (λ x. str_eq x id) (ids ++ id ∷ []) ≡ true
any_last id [] = rw (eq_refl id) refl
any_last id (x ∷ ids) = ground (arith, any_last id ids)

pub ok_same : {A : Type 0} {a b : A} → ok a ≡ ok b → a ≡ b
ok_same h = cc

serde_ok : {A : Type 0} (o : Outcome A) (a : A) → serde_err o ≡ ok a → o ≡ done a
unfolding serde_err
serde_ok (done b) a h = ap done (ok_same h)
serde_ok (failed e) a h = cc

storage_ok : {A : Type 0} (o : Outcome A) (a : A) → storage_err o ≡ ok a → o ≡ done a
unfolding storage_err
storage_ok (done b) a h = ap done (ok_same h)
storage_ok (failed e) a h = cc

module _ {Disk Blob : Type 0} (store : ObjectStore Disk Blob) where
  pub step_ok :
      {A B : Type 0} (first : Step store A) (next : A → Step store B) (d : Disk) {last : B}
      {d' : Disk}
      → after store (first d).0 (first d).1 next ≡ (ok last, d')
      → (x : A) × (mid : Disk) × (first d ≡ (ok x, mid)) × (next x mid ≡ (ok last, d'))
  step_ok {A = A} first next d {last = last} {d' = d'} h = go (first d).0 refl h
    where
      go :
          (r : Result A)
          → (first d).0 ≡ r
          → after store r (first d).1 next ≡ (ok last, d')
          → (x : A) × (mid : Disk) × (first d ≡ (ok x, mid)) × (next x mid ≡ (ok last, d'))
      go (ok a) e h = (a, (first d).1, ap (λ r. (r, (first d).1)) e, h)
      go (err e') e h = cc

  -- A put that succeeded wrote the text of its value.
  put_written :
      {A : Type 0} (json : Json Blob A) (repo_id key : String) (v : A) (d d' : Disk)
      → put store json repo_id key v d ≡ (ok tt, d')
      → (bytes : Blob) × (json.to_vec v ≡ done bytes)
        × (store.put repo_id key bytes d ≡ (done tt, d'))
  unfolding put put_bytes
  put_written json repo_id key v d d' h =
      let (bytes, mid, written, stored) =
        step_ok (λ d. (serde_err (json.to_vec v), d)) (put_bytes store repo_id key) d h in
      let same : d ≡ mid = ap (λ r. r.1) written in
      (
        bytes,
        serde_ok (json.to_vec v) bytes (ap (λ r. r.0) written),
        rw same (
            ap₂ (λ x y. (x, y))
              (storage_ok (store.put repo_id key bytes mid).0 tt (ap (λ r. r.0) stored))
              (ap (λ r. r.1) stored)),
      )

  pub get-put :
      {A : Type 0} (json : Json Blob A) (repo_id key : String) (v : A) (d d' : Disk)
      → put store json repo_id key v d ≡ (ok tt, d')
      → get store json repo_id key d' ≡ ok (some v)
  unfolding get parsed storage_err serde_err some_ok
  get-put json repo_id key v d d' h =
      let (bytes, written, stored) = put_written json repo_id key v d d' h in
      rw (store.get-put repo_id key bytes d d' stored)
        (rw (json.from_slice-to_vec v bytes written) refl)

  pub put-Usable :
      {A : Type 0} (json : Json Blob A) (repo_id key : String) (v : A) (d d' : Disk)
      → put store json repo_id key v d ≡ (ok tt, d')
      → store.Usable repo_id d'
  put-Usable json repo_id key v d d' h =
      let (bytes, written, stored) = put_written json repo_id key v d d' h in
      store.put-Usable repo_id key bytes d d' stored

  pub get-put_ne :
      {A B : Type 0} (json : Json Blob A) (other_json : Json Blob B) (repo_id key other : String)
      (v : A) (d d' : Disk)
      → store.Usable repo_id d
      → store.name key ≢ store.name other
      → put store json repo_id key v d ≡ (ok tt, d')
      → get store other_json repo_id other d' ≡ get store other_json repo_id other d
  unfolding get
  get-put_ne json other_json repo_id key other v d d' usable ne h =
      let (bytes, written, stored) = put_written json repo_id key v d d' h in
      rw (store.get-put_ne repo_id key other bytes d d' usable ne stored) refl

  Unique-snoc :
      (y : String) (ids : List String)
      → any (λ x. str_eq x y) ids ≡ false
      → Unique ids
      → Unique (ids ++ y ∷ [])
  unfolding Unique
  Unique-snoc y [] h u = (refl, tt)
  Unique-snoc y (x ∷ ids) h (p, u) =
      let (here, later) = or_false (str_eq x y) (any (λ z. str_eq z y) ids) h in
      (any-snoc x y ids p (swapped here), Unique-snoc y ids later u)
    where
      or_false : (a b : Bool) → (a || b) ≡ false → (a ≡ false) × (b ≡ false)
      or_false false b h = (refl, h)
      or_false true b h = cc

      swapped : str_eq x y ≡ false → str_eq y x ≡ false
      swapped h =
          str_eq_ne y x (λ e. true≢false (sym (eq_refl x) ∙ ap (λ z. str_eq x z) (sym e) ∙ h))

  module _ (ids_json : Json Blob (List String)) where
    -- Either the id was listed and nothing changed, or the longer index was put.
    add_id_cases :
        (repo_id key id : String) (ids : List String) (d d' : Disk)
        → add_id store ids_json repo_id key id ids d ≡ (ok tt, d')
        → ((any (λ x. str_eq x id) ids ≡ true) × (d ≡ d'))
          ⊎ ((any (λ x. str_eq x id) ids ≡ false)
              × (put store ids_json repo_id key (ids ++ id ∷ []) d ≡ (ok tt, d')))
    unfolding add_id
    add_id_cases repo_id key id ids d d' h = go (any (λ x. str_eq x id) ids) refl h
      where
        longer : Step store Unit
        longer = put store ids_json repo_id key (ids ++ id ∷ [])

        go :
            (b : Bool)
            → any (λ x. str_eq x id) ids ≡ b
            → (if not b then longer else (λ d. (ok tt, d))) d ≡ (ok tt, d')
            → ((any (λ x. str_eq x id) ids ≡ true) × (d ≡ d'))
              ⊎ ((any (λ x. str_eq x id) ids ≡ false) × (longer d ≡ (ok tt, d')))
        go true e h = inl (e, ap (λ r. r.1) h)
        go false e h = inr (e, h)

    add_id_written :
        (repo_id key id : String) (ids : List String) (d d' : Disk)
        → index store ids_json repo_id key d ≡ ok ids
        → Unique ids
        → add_id store ids_json repo_id key id ids d ≡ (ok tt, d')
        → (ids' : List String) × (index store ids_json repo_id key d' ≡ ok ids')
          × (any (λ x. str_eq x id) ids' ≡ true)
          × Unique ids'
    unfolding index or_empty
    add_id_written repo_id key id ids d d' held u h =
        elim (add_id_cases repo_id key id ids d d' h) [
          | inl (there, same) ↦
              (ids, subst (λ s. index store ids_json repo_id key s ≡ ok ids) same held, there, u)
          | inr (new, wrote) ↦ (
            ids ++ id ∷ [],
            rw (get-put ids_json repo_id key (ids ++ id ∷ []) d d' wrote) refl,
            any_last id ids,
            Unique-snoc id ids new u,
          )
        ]

    pub index-index_add :
        (repo_id key id : String) (ids : List String) (d d' : Disk)
        → index store ids_json repo_id key d ≡ ok ids
        → Unique ids
        → index_add store ids_json repo_id key id d ≡ (ok tt, d')
        → (ids' : List String) × (index store ids_json repo_id key d' ≡ ok ids')
          × (any (λ x. str_eq x id) ids' ≡ true)
          × Unique ids'
    unfolding index_add
    index-index_add repo_id key id ids d d' held u h =
        add_id_written repo_id key id ids d d' held u
          (subst (λ r. after store r d (add_id store ids_json repo_id key id) ≡ (ok tt, d')) held h)

    add_id-get_ne :
        {B : Type 0} (json : Json Blob B) (repo_id key other id : String) (ids : List String)
        (d d' : Disk)
        → store.Usable repo_id d
        → store.name key ≢ store.name other
        → add_id store ids_json repo_id key id ids d ≡ (ok tt, d')
        → get store json repo_id other d' ≡ get store json repo_id other d
    add_id-get_ne json repo_id key other id ids d d' usable ne h =
        elim (add_id_cases repo_id key id ids d d' h) [
          | inl (there, same) ↦ ap (get store json repo_id other) (sym same)
          | inr (new, wrote) ↦
              get-put_ne ids_json json repo_id key other (ids ++ id ∷ []) d d' usable ne wrote
        ]

    pub get-index_add :
        {B : Type 0} (json : Json Blob B) (repo_id key other id : String) (d d' : Disk)
        → store.Usable repo_id d
        → store.name key ≢ store.name other
        → index_add store ids_json repo_id key id d ≡ (ok tt, d')
        → get store json repo_id other d' ≡ get store json repo_id other d
    unfolding index_add
    get-index_add json repo_id key other id d d' usable ne h =
        let (ids, mid, held, added) =
          step_ok (λ d. (index store ids_json repo_id key d, d))
            (add_id store ids_json repo_id key id) d h in
        let same : d ≡ mid = ap (λ r. r.1) held in
        rw same (add_id-get_ne json repo_id key other id ids mid d' (rw same at usable) ne added)
