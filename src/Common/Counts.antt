-- ===== src/Common/Counts.antt =====
-- How many rows a query selects, before and after an update.
use Prim.Native.Nat.{◌≤◌, ◌<◌}
use mathlib.Core.Path.{◌≡◌, refl}
use mathlib.Core.Bool.{Bool, true, false, ◌&&◌}
use mathlib.Core.Option.{some}
use mathlib.Core.List.{List, [], ◌∷◌}
use native.Mathlib.Omega.{arith}
use smart_platform_services.Common.Table.{find_where, exists_where, update_where, count_where, All}

module _ {ℓ} {A : Type ℓ} where
  pub count_where_pos :
      (p : A → Bool) (xs : List A) (x : A) → find_where p xs ≡ some x → 0 < count_where p xs
  unfolding find_where count_where
  count_where_pos p [] x e = absurd (cc)
  count_where_pos p (y ∷ xs) x e = ground (arith, count_where_pos p xs x)

  pub count_where_none :
      (p : A → Bool) (xs : List A) → exists_where p xs ≡ false → count_where p xs ≡ 0
  unfolding exists_where count_where
  count_where_none p [] e = refl
  count_where_none p (y ∷ xs) e = ground (arith, count_where_none p xs)

  -- A stronger test selects no more rows.
  pub count_where_mono :
      (p q : A → Bool) (xs : List A)
      → ((x : A) → p x ≡ true → q x ≡ true)
      → count_where p xs ≤ count_where q xs
  unfolding count_where
  count_where_mono p q [] h = omega arith
  count_where_mono p q (x ∷ xs) h = ground (arith, h x, count_where_mono p q xs h)

  -- A row that the update does not bring into `p` leaves the count no larger.
  pub count_where-update_where-le :
      (p q : A → Bool) (f : A → A) (xs : List A)
      → ((x : A) → q x ≡ true → p (f x) ≡ true → p x ≡ true)
      → count_where p (update_where q f xs) ≤ count_where p xs
  unfolding count_where update_where
  count_where-update_where-le p q f [] h = omega arith
  count_where-update_where-le p q f (x ∷ xs) h =
      ground (arith, h x, count_where-update_where-le p q f xs h)

  -- An update that takes rows out of `p`, one at least, makes the count smaller.
  pub count_where-update_where-lt :
      (p q : A → Bool) (f : A → A) (xs : List A)
      → ((y : A) → q y ≡ true → p (f y) ≡ false)
      → exists_where (λ x. q x && p x) xs ≡ true
      → count_where p (update_where q f xs) < count_where p xs
  unfolding count_where update_where exists_where
  count_where-update_where-lt p q f [] h e = absurd (cc)
  count_where-update_where-lt p q f (y ∷ xs) h e = ground (
    arith,
    h y,
    count_where-update_where-le p q f xs (λ z hz ez. absurd (cc (h z hz))),
    count_where-update_where-lt p q f xs h,
  )

  -- Where `p` implies `r`, and `r` selects no more rows, every row of `r` is one of `p`.
  pub All-count_where :
      (p r : A → Bool) (xs : List A)
      → ((x : A) → p x ≡ true → r x ≡ true)
      → count_where r xs ≤ count_where p xs
      → All (λ x. r x ≡ true → p x ≡ true) xs
  unfolding count_where
  All-count_where p r [] h c = tt
  All-count_where p r (x ∷ xs) h c = (
    λ e. ground (arith, count_where_mono p r xs h),
    All-count_where p r xs h (ground (arith, h x, count_where_mono p r xs h)),
  )

  pub count_where-All_none {κ} :
      (P : A → Type κ) (p : A → Bool) (xs : List A)
      → ((x : A) → P x → p x ≡ false)
      → All P xs
      → count_where p xs ≡ 0
  unfolding count_where
  count_where-All_none P p [] h a = refl
  count_where-All_none P p (x ∷ xs) h a = rw (h x a.0) (count_where-All_none P p xs h a.1)

  pub exists_where_of_count :
      (p : A → Bool) (xs : List A) → 0 < count_where p xs → exists_where p xs ≡ true
  unfolding count_where exists_where
  exists_where_of_count p [] h = absurd (omega arith)
  exists_where_of_count p (x ∷ xs) h = ground (arith, exists_where_of_count p xs)

  pub exists_where_of_zero :
      (p : A → Bool) (xs : List A) → count_where p xs ≡ 0 → exists_where p xs ≡ false
  unfolding count_where exists_where
  exists_where_of_zero p [] e = refl
  exists_where_of_zero p (x ∷ xs) e = ground (arith, exists_where_of_zero p xs)

  -- Of the one row that a test selects, a stronger test finds the same.
  pub find_where_unique :
      (p q : A → Bool) (xs : List A) (x : A)
      → ((y : A) → p y ≡ true → q y ≡ true)
      → count_where q xs ≤ 1
      → find_where p xs ≡ some x
      → find_where q xs ≡ some x
  unfolding find_where count_where
  find_where_unique p q [] x h c e = cc
  find_where_unique p q (y ∷ xs) x h c e =
      ground (
        arith,
        h y,
        find_where_unique p q xs x h,
        count_where_pos p xs x,
        count_where_mono p q xs h,
      )

  count_where_of_find :
      (p q : A → Bool) (xs : List A) (x : A)
      → find_where p xs ≡ some x
      → q x ≡ true
      → 0 < count_where q xs
  unfolding find_where count_where
  count_where_of_find p q [] x e t = absurd (cc)
  count_where_of_find p q (y ∷ xs) x e t = ground (arith, t, count_where_of_find p q xs x)

  -- A row that one query finds is the one that another finds, when that selects it and no other.
  pub find_where_other :
      (p q : A → Bool) (xs : List A) (x : A)
      → find_where p xs ≡ some x
      → q x ≡ true
      → count_where q xs ≤ 1
      → find_where q xs ≡ some x
  unfolding find_where count_where
  find_where_other p q [] x e t c = cc
  find_where_other p q (y ∷ xs) x e t c =
      ground (arith, t, find_where_other p q xs x, count_where_of_find p q xs x)

  -- What an update brings into a query: the rows that it selects, when those are all of them.
  pub count_where-update_where_into :
      (p q : A → Bool) (f : A → A) (xs : List A)
      → ((x : A) → q x ≡ true → p (f x) ≡ true)
      → ((x : A) → q x ≡ false → p x ≡ false)
      → count_where p (update_where q f xs) ≡ count_where q xs
  unfolding count_where update_where
  count_where-update_where_into p q f [] h k = refl
  count_where-update_where_into p q f (x ∷ xs) h k =
      ground (arith, h x, k x, count_where-update_where_into p q f xs h k)
