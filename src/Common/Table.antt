-- ===== src/Common/Table.antt =====
-- A database table as a list of rows, with the statements that the repositories issue. A WHERE
-- clause is a Boolean test of a row.
use Prim.Native.Nat.{ℕ, suc}
use mathlib.Core.Path.{◌≡◌, refl, sym, subst}
use mathlib.Core.Logic.{inl, inr}
use mathlib.Core.Bool.{Bool, true, false}
use mathlib.Core.Option
use mathlib.Core.Option.{Option, none, some}
use mathlib.Core.List.{List, [], ◌∷◌}
use native.Mathlib.Omega.{arith}
use smart_platform_services.Common.Tests.{if◌then◌else◌, is_some, Bool-cases}

module _ {ℓ} {A : Type ℓ} where
  abbrev pub length : List A → ℕ
  length [] = 0
  length (x ∷ xs) = suc (length xs)

  -- `const [row] = SELECT … WHERE p`
  unfoldable pub find_where : (A → Bool) → List A → Option A
  find_where p [] = none
  find_where p (x ∷ xs) = if p x then some x else find_where p xs

  -- `SELECT EXISTS(… WHERE p)`
  unfoldable pub exists_where : (A → Bool) → List A → Bool
  exists_where p [] = false
  exists_where p (x ∷ xs) = if p x then true else exists_where p xs

  -- `UPDATE … SET f WHERE p`
  unfoldable pub update_where : (A → Bool) → (A → A) → List A → List A
  update_where p f [] = []
  update_where p f (x ∷ xs) = (if p x then f x else x) ∷ update_where p f xs

  -- `DELETE … WHERE p`
  unfoldable pub delete_where : (A → Bool) → List A → List A
  delete_where p [] = []
  delete_where p (x ∷ xs) = let rest = delete_where p xs in if p x then rest else x ∷ rest

  -- How many rows `p` selects: the length of `RETURNING id`.
  unfoldable pub count_where : (A → Bool) → List A → ℕ
  count_where p [] = 0
  count_where p (x ∷ xs) = if p x then suc (count_where p xs) else count_where p xs

  -- Every row has the property.
  abbrev pub All {κ} : (A → Type κ) → List A → Type κ
  All P [] = Unit
  All P (x ∷ xs) = P x × All P xs

  pub All-map {κ} : (P Q : A → Type κ) (xs : List A) → ((x : A) → P x → Q x) → All P xs → All Q xs
  All-map P Q [] f h = tt
  All-map P Q (x ∷ xs) f h = (f x h.0, All-map P Q xs f h.1)

  pub All-update_where {κ} :
      (P : A → Type κ) (p : A → Bool) (f : A → A) (xs : List A)
      → ((x : A) → p x ≡ true → P x → P (f x))
      → All P xs
      → All P (update_where p f xs)
  unfolding update_where
  All-update_where P p f [] step h = tt
  All-update_where P p f (x ∷ xs) step h = elim (Bool-cases (p x)) [
    | inl e ↦ rw e (step x e h.0, All-update_where P p f xs step h.1)
    | inr e ↦ rw e (h.0, All-update_where P p f xs step h.1)
  ]

  -- What a query returns satisfies its WHERE clause.
  pub find_where_sound :
      (p : A → Bool) (xs : List A) (x : A) → find_where p xs ≡ some x → p x ≡ true
  unfolding find_where
  find_where_sound p [] x e = cc
  find_where_sound p (y ∷ xs) x e = ground (arith, find_where_sound p xs x)

  pub find_where-All {κ} :
      (P : A → Type κ) (p : A → Bool) (xs : List A) (x : A)
      → All P xs
      → find_where p xs ≡ some x
      → P x
  unfolding find_where
  find_where-All P p [] x h e = absurd (cc)
  find_where-All P p (y ∷ xs) x h e = elim (Bool-cases (p y)) [
    | inl t ↦ subst P (ground arith) h.0
    | inr t ↦ find_where-All P p xs x h.1 (ground arith)
  ]

  -- An update that keeps the query's test commutes with the query.
  pub find_where-update_where :
      (p q : A → Bool) (f : A → A) (xs : List A)
      → ((x : A) → q x ≡ true → p (f x) ≡ p x)
      → find_where p (update_where q f xs)
        ≡ Option.map (λ x. if q x then f x else x) (find_where p xs)
  unfolding find_where update_where
  find_where-update_where p q f [] h = refl
  find_where-update_where p q f (x ∷ xs) h = ground (arith, h x, find_where-update_where p q f xs h)

  -- An update that only writes rows outside the query, to rows outside it.
  pub find_where-update_where_other :
      (p q : A → Bool) (f : A → A) (xs : List A)
      → ((x : A) → q x ≡ true → p x ≡ false)
      → ((x : A) → q x ≡ true → p (f x) ≡ false)
      → find_where p (update_where q f xs) ≡ find_where p xs
  unfolding find_where update_where
  find_where-update_where_other p q f [] h k = refl
  find_where-update_where_other p q f (x ∷ xs) h k =
      ground (arith, h x, k x, find_where-update_where_other p q f xs h k)

  pub exists_where-update_where :
      (p q : A → Bool) (f : A → A) (xs : List A)
      → ((x : A) → q x ≡ true → p (f x) ≡ p x)
      → exists_where p (update_where q f xs) ≡ exists_where p xs
  unfolding exists_where update_where
  exists_where-update_where p q f [] h = refl
  exists_where-update_where p q f (x ∷ xs) h =
      ground (arith, h x, exists_where-update_where p q f xs h)

  -- An update of all that the query selects, to rows that it does not.
  pub exists_where-update_where_none :
      (p q : A → Bool) (f : A → A) (xs : List A)
      → ((x : A) → p x ≡ true → q x ≡ true)
      → ((x : A) → q x ≡ true → p (f x) ≡ false)
      → exists_where p (update_where q f xs) ≡ false
  unfolding exists_where update_where
  exists_where-update_where_none p q f [] h k = refl
  exists_where-update_where_none p q f (x ∷ xs) h k =
      ground (arith, h x, k x, exists_where-update_where_none p q f xs h k)

  pub find_where-exists_where :
      (p : A → Bool) (xs : List A) → exists_where p xs ≡ is_some (find_where p xs)
  unfolding find_where exists_where
  find_where-exists_where p [] = refl
  find_where-exists_where p (x ∷ xs) = ground (arith, find_where-exists_where p xs)

  pub exists_where_of_find :
      (p q : A → Bool) (xs : List A) (x : A)
      → find_where p xs ≡ some x
      → q x ≡ true
      → exists_where q xs ≡ true
  unfolding find_where exists_where
  exists_where_of_find p q [] x e k = absurd (cc)
  exists_where_of_find p q (y ∷ xs) x e k = elim (Bool-cases (p y)) [
    | inl t ↦ rw (subst (λ z. q z ≡ true) (sym (some_inj (rw t at e))) k) refl
    | inr t ↦ elim (Bool-cases (q y)) [
      | inl u ↦ rw u refl
      | inr u ↦ rw u (exists_where_of_find p q xs x (rw t at e) k)
    ]
  ]
    where
      some_inj : {a b : A} → some a ≡ some b → a ≡ b
      some_inj e = cc

  pub find_where-delete_where_self :
      (p : A → Bool) (xs : List A) → find_where p (delete_where p xs) ≡ none
  unfolding find_where delete_where
  find_where-delete_where_self p [] = refl
  find_where-delete_where_self p (x ∷ xs) = ground (arith, find_where-delete_where_self p xs)

  pub find_where-delete_where-none :
      (p q : A → Bool) (xs : List A)
      → find_where p xs ≡ none
      → find_where p (delete_where q xs) ≡ none
  unfolding find_where delete_where
  find_where-delete_where-none p q [] e = refl
  find_where-delete_where-none p q (x ∷ xs) e = ground (arith, find_where-delete_where-none p q xs)

  -- A deletion outside the query.
  pub find_where-delete_where_other :
      (p q : A → Bool) (xs : List A)
      → ((x : A) → q x ≡ true → p x ≡ false)
      → find_where p (delete_where q xs) ≡ find_where p xs
  unfolding find_where delete_where
  find_where-delete_where_other p q [] h = refl
  find_where-delete_where_other p q (x ∷ xs) h =
      ground (arith, h x, find_where-delete_where_other p q xs h)

  pub All-update_where_to {κ} :
      (P Q : A → Type κ) (p : A → Bool) (f : A → A) (xs : List A)
      → ((x : A) → p x ≡ true → P x → Q (f x))
      → ((x : A) → p x ≡ false → P x → Q x)
      → All P xs
      → All Q (update_where p f xs)
  unfolding update_where
  All-update_where_to P Q p f [] hit miss h = tt
  All-update_where_to P Q p f (x ∷ xs) hit miss h = elim (Bool-cases (p x)) [
    | inl e ↦ rw e (hit x e h.0, All-update_where_to P Q p f xs hit miss h.1)
    | inr e ↦ rw e (miss x e h.0, All-update_where_to P Q p f xs hit miss h.1)
  ]

  pub exists_where_mono :
      (p q : A → Bool) (xs : List A)
      → ((x : A) → p x ≡ true → q x ≡ true)
      → exists_where p xs ≡ true
      → exists_where q xs ≡ true
  unfolding exists_where
  exists_where_mono p q [] h e = cc
  exists_where_mono p q (x ∷ xs) h e = ground (arith, h x, exists_where_mono p q xs h)

  pub exists_where-none :
      (p : A → Bool) (xs : List A) → ((x : A) → p x ≡ false) → exists_where p xs ≡ false
  unfolding exists_where
  exists_where-none p [] h = refl
  exists_where-none p (x ∷ xs) h = rw (h x) (exists_where-none p xs h)

  -- A weaker test that selects nothing leaves a stronger one with nothing.
  pub exists_where-anti :
      (p q : A → Bool) (xs : List A)
      → ((x : A) → p x ≡ true → q x ≡ true)
      → exists_where q xs ≡ false
      → exists_where p xs ≡ false
  unfolding exists_where
  exists_where-anti p q [] h e = refl
  exists_where-anti p q (x ∷ xs) h e = ground (arith, h x, exists_where-anti p q xs h)

  pub All-update_where_any {κ} :
      (Q : A → Type κ) (p : A → Bool) (f : A → A) (xs : List A)
      → ((x : A) → p x ≡ true → Q (f x))
      → ((x : A) → p x ≡ false → Q x)
      → All Q (update_where p f xs)
  unfolding update_where
  All-update_where_any Q p f [] hit miss = tt
  All-update_where_any Q p f (x ∷ xs) hit miss = elim (Bool-cases (p x)) [
    | inl e ↦ rw e (hit x e, All-update_where_any Q p f xs hit miss)
    | inr e ↦ rw e (miss x e, All-update_where_any Q p f xs hit miss)
  ]

  -- An update that selects nothing.
  pub update_where_none :
      (p : A → Bool) (f : A → A) (xs : List A)
      → exists_where p xs ≡ false
      → update_where p f xs ≡ xs
  unfolding exists_where update_where
  update_where_none p f [] e = refl
  update_where_none p f (x ∷ xs) e = ground (arith, update_where_none p f xs)
