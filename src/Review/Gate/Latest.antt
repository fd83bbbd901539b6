-- ===== src/Review/Gate/Latest.antt =====
-- lib.rs of secgit-review: the loop of `merge_status` keeps each reviewer's latest review.
use secgit.Prelude.{
  ◌≤◌, String, ◌≡◌, refl, sym, ap, ◌∙◌, ◌⊎◌, inl, inr, Bool, true, false, Option, none, some, List,
  [], ◌∷◌, arith, str_eq, eq_iff, leb, if◌then◌else◌, Bool-cases, leb→le,
}
use secgit.Prelude.Maps.{Map, lookup, insert, IsMap, lookup-insert, insert-IsMap}
use secgit.Review.Model.{Review}
use secgit.Review.Gate.{newer, dismissed, latest_loop}

-- Membership that computes to a sum.
abbrev pub In : {A : Type 0} → A → List A → Type 0
In a [] = ⊥
In a (x ∷ xs) = (a ≡ x) ⊎ In a xs

-- The latest review among those a predicate holds of, if any.
abbrev pub IsLatest : (Review → Type 0) → Option Review → Type 0
IsLatest G none = (r : Review) → ¬ G r
IsLatest G (some b) = G b × ((r : Review) → G r → r.created_at ≤ b.created_at)

IsLatest-iff :
    (G H : Review → Type 0) (best : Option Review)
    → ((r : Review) → G r → H r)
    → ((r : Review) → H r → G r)
    → IsLatest G best
    → IsLatest H best
IsLatest-iff G H none to from h = λ r k. h r (from r k)
IsLatest-iff G H (some b) to from h = (to b h.0, λ r k. h.1 r (from r k))

newer-IsLatest :
    (G : Review → Type 0) (r : Review) (best : Option Review)
    → IsLatest G best
    → IsLatest (λ x. G x ⊎ (x ≡ r)) (some (newer best r))
unfolding newer
newer-IsLatest G r none h =
    (inr refl, λ x g. elim g [ inl a ↦ absurd (h x a) | inr e ↦ rw e (omega arith) ])
newer-IsLatest G r (some b) h = elim (Bool-cases (leb b.created_at r.created_at)) [
  | inl later ↦ rw later (
    inr refl,
    λ x g. elim g [ inl a ↦ omega (arith, h.1 x a, leb→le _ _ later) | inr e ↦ rw e (omega arith) ],
  )
  | inr earlier ↦
      rw earlier
        (inl h.0, λ x g. elim g [ inl a ↦ h.1 x a | inr e ↦ rw e (ground (arith, earlier)) ])
]

module _ (dismiss : Bool) (head_sha : String) where
  -- The loop for one reviewer alone.
  latest_by : String → List Review → Option Review → Option Review
  latest_by u [] best = best
  latest_by u (r ∷ rs) best = latest_by u rs (
      if dismissed dismiss head_sha r
      then best
      else if str_eq r.reviewer_id u
      then some (newer best r)
      else best)

  lookup_step :
      (u : String) (r : Review) (m : Map Review)
      → lookup u (
          if dismissed dismiss head_sha r
          then m
          else insert r.reviewer_id (newer (lookup r.reviewer_id m) r) m)
        ≡ (if dismissed dismiss head_sha r
            then lookup u m
            else if str_eq r.reviewer_id u
            then some (newer (lookup u m) r)
            else lookup u m)
  lookup_step u r m = ground (
    arith,
    lookup-insert r.reviewer_id u (newer (lookup r.reviewer_id m) r) m,
    eq_iff r.reviewer_id u,
  )

  lookup-latest_loop :
      (u : String) (rs : List Review) (m : Map Review)
      → lookup u (latest_loop dismiss head_sha rs m) ≡ latest_by u rs (lookup u m)
  unfolding latest_loop latest_by
  lookup-latest_loop u [] m = refl
  lookup-latest_loop u (r ∷ rs) m =
      lookup-latest_loop u rs _ ∙ ap (latest_by u rs) (lookup_step u r m)

  pub latest_loop-IsMap :
      (rs : List Review) (m : Map Review) → IsMap m → IsMap (latest_loop dismiss head_sha rs m)
  unfolding latest_loop
  latest_loop-IsMap [] m h = h
  latest_loop-IsMap (r ∷ rs) m h = latest_loop-IsMap rs _ (go (dismissed dismiss head_sha r))
    where
      go :
          (b : Bool)
          → IsMap (if b then m else insert r.reviewer_id (newer (lookup r.reviewer_id m) r) m)
      go true = h
      go false = insert-IsMap r.reviewer_id _ m h

  -- A reviewer's review that counts.
  abbrev pub CountsFor : String → Review → Type 0
  CountsFor u r = (dismissed dismiss head_sha r ≡ false) × (r.reviewer_id ≡ u)

  step-IsLatest :
      (G : Review → Type 0) (u : String) (r : Review) (best : Option Review)
      → IsLatest G best
      → IsLatest
          (λ x. G x ⊎ ((x ≡ r) × CountsFor u x))
          (if dismissed dismiss head_sha r
            then best
            else if str_eq r.reviewer_id u
            then some (newer best r)
            else best)
  step-IsLatest G u r best h = elim (Bool-cases (dismissed dismiss head_sha r)) [
    | inl skip ↦ rw skip (
        IsLatest-iff G _ best (λ x g. inl g)
          (λ x g. elim g [
            | inl a ↦ a
            | inr (e, (c, n)) ↦ absurd (cc (ap (dismissed dismiss head_sha) e, c, skip))
          ])
          h)
    | inr counts ↦ rw counts (elim (Bool-cases (str_eq r.reviewer_id u)) [
      | inl mine ↦ rw mine (
          IsLatest-iff (λ x. G x ⊎ (x ≡ r)) _ (some (newer best r))
            (λ x g. elim g [
              | inl a ↦ inl a
              | inr e ↦ inr (e, (rw e counts, rw e ((eq_iff r.reviewer_id u).0 mine)))
            ])
            (λ x g. elim g [ inl a ↦ inl a | inr (e, (c, n)) ↦ inr e ]) (newer-IsLatest G r best h))
      | inr other ↦ rw other (
          IsLatest-iff G _ best (λ x g. inl g)
            (λ x g. elim g [
              | inl a ↦ a
              | inr (e, (c, n)) ↦
                  absurd
                    (cc (other, (eq_iff r.reviewer_id u).1 (sym (ap (λ y. y.reviewer_id) e) ∙ n)))
            ])
            h)
    ])
  ]

  latest_by-IsLatest :
      (G : Review → Type 0) (u : String) (rs : List Review) (best : Option Review)
      → IsLatest G best
      → IsLatest (λ x. G x ⊎ (In x rs × CountsFor u x)) (latest_by u rs best)
  unfolding latest_by
  latest_by-IsLatest G u [] best h =
      IsLatest-iff G _ best (λ x g. inl g) (λ x g. elim g [ inl a ↦ a | inr (i, c) ↦ absurd i ]) h
  latest_by-IsLatest G u (r ∷ rs) best h =
      IsLatest-iff (λ x. (G x ⊎ ((x ≡ r) × CountsFor u x)) ⊎ (In x rs × CountsFor u x)) _ _
        (λ x g. elim g [
          | inl (inl a) ↦ inl a
          | inl (inr (e, c)) ↦ inr (inl e, c)
          | inr (i, c) ↦ inr (inr i, c)
        ])
        (λ x g. elim g [
          | inl a ↦ inl (inl a)
          | inr (inl e, c) ↦ inl (inr (e, c))
          | inr (inr i, c) ↦ inr (i, c)
        ])
        (latest_by-IsLatest (λ x. G x ⊎ ((x ≡ r) × CountsFor u x)) u rs _
          (step-IsLatest G u r best h))

  -- For each reviewer the table holds a review that counts and that none of the reviewer's others
  -- that count is later than; it holds none exactly when the reviewer has none that counts.
  pub latest_loop-IsLatest :
      (u : String) (reviews : List Review)
      → IsLatest
          (λ r. In r reviews × CountsFor u r)
          (lookup u (latest_loop dismiss head_sha reviews []))
  unfolding lookup
  latest_loop-IsLatest u reviews = rw (lookup-latest_loop u reviews []) (
      IsLatest-iff (λ x. ⊥ ⊎ (In x reviews × CountsFor u x)) _ _
        (λ x g. elim g [ inl a ↦ absurd a | inr k ↦ k ]) (λ x k. inr k)
        (latest_by-IsLatest (λ x. ⊥) u reviews none (λ r g. g)))
