-- ===== src/Identity/Exec.antt =====
-- Methods of the services and repositories: they read and write the database and may throw. What
-- was written before a throw stays written, but for a transaction, which is undone.
use smart_platform_services.Common.{◌≡◌, refl, ◌⊎◌, inl, inr, Bool, true, false}
use smart_platform_services.Identity.Contracts.{Error}

pub data Result {ℓ} (A : Type ℓ) : Type ℓ where
  ok : A → Result A
  err : Error → Result A

pub Result-cases {ℓ} :
    {A : Type ℓ} (v : Result A) → ((a : A) × (v ≡ ok a)) ⊎ ((e : Error) × (v ≡ err e))
Result-cases (ok a) = inl (a, refl)
Result-cases (err e) = inr (e, refl)

abbrev pub Exec {ℓ} : Type ℓ → Type ℓ → Type ℓ
Exec S A = S → Result A × S

module _ {ℓ} {S A : Type ℓ} where
  abbrev pub pure : A → Exec S A
  pure a s = (ok a, s)

  abbrev pub throw : Error → Exec S A
  throw e s = (err e, s)

  abbrev pub lift : Result A → Exec S A
  lift r s = (r, s)

  abbrev pub gets : (S → A) → Exec S A
  gets f s = (ok (f s), s)

  -- `dataSource.transaction(…)`: a throw undoes the writes.
  abbrev pub keep_or_undo : Result A × S → S → Result A × S
  keep_or_undo (ok a, t) s = (ok a, t)
  keep_or_undo (err e, t) s = (err e, s)

  abbrev pub transaction : Exec S A → Exec S A
  transaction m s = keep_or_undo (m s) s

  -- `try { m } catch (error) { handler(error) }`
  abbrev pub catch_result : Result A × S → (Error → Exec S A) → Result A × S
  catch_result (ok a, t) handler = (ok a, t)
  catch_result (err e, t) handler = handler e t

  abbrev pub catching : Exec S A → (Error → Exec S A) → Exec S A
  catching m handler s = catch_result (m s) handler

abbrev pub modify {ℓ} : {S : Type ℓ} → (S → S) → Exec S Unit
modify f s = (ok tt, f s)

-- `if (!test) throw error`
abbrev pub require {ℓ} : {S : Type ℓ} → Bool → Error → Exec S Unit
require true e s = (ok tt, s)
require false e s = (err e, s)

module _ {ℓ} {S A B : Type ℓ} where
  abbrev pub continue : Result A × S → (A → Exec S B) → Result B × S
  continue (ok a, t) f = f a t
  continue (err e, t) f = (err e, t)

  infixl 10 ◌>>=◌ ◌>>◌
  abbrev pub ◌>>=◌ : Exec S A → (A → Exec S B) → Exec S B
  ◌>>=◌ m f s = continue (m s) f

  abbrev pub ◌>>◌ : Exec S A → Exec S B → Exec S B
  m >> n = m >>= λ _. n

-- A property of the state that each part keeps is kept by the whole.
module _ {ℓ κ} {S A : Type ℓ} (P : S → Type κ) where
  pub transaction_keeps : (m : Exec S A) (s : S) → P s → P (m s).1 → P (transaction m s).1
  transaction_keeps m s h k = go (m s) k
    where
      go : (r : Result A × S) → P r.1 → P (keep_or_undo r s).1
      go (ok a, t) p = p
      go (err e, t) p = h

  pub catching_keeps :
      (m : Exec S A) (handler : Error → Exec S A) (s : S)
      → P (m s).1
      → ((e : Error) (t : S) → P t → P (handler e t).1)
      → P (catching m handler s).1
  catching_keeps m handler s h k = go (m s) h
    where
      go : (r : Result A × S) → P r.1 → P (catch_result r handler).1
      go (ok a, t) p = p
      go (err e, t) p = k e t p

module _ {ℓ κ} {S A B : Type ℓ} (P : S → Type κ) where
  pub bind_keeps :
      (m : Exec S A) (f : A → Exec S B) (s : S)
      → P (m s).1
      → ((a : A) (t : S) → P t → P (f a t).1)
      → P (continue (m s) f).1
  bind_keeps m f s h k = go (m s) h
    where
      go : (r : Result A × S) → P r.1 → P (continue r f).1
      go (ok a, t) p = k a t p
      go (err e, t) p = p
