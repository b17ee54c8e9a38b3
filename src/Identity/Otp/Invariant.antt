-- ===== src/Identity/Otp/Invariant.antt =====
-- What the challenges table keeps: the unique indexes and the attempt budget.
use native.Mathlib.Nat.{le_trans}
use smart_platform_services.Common.{
  ℕ, ◌≤◌, ◌<◌, ◌≡◌, Bool, true, false, Option, none, some, List, ◌∷◌, Text, arith, nat_Eq, text_Eq,
  same_text_iff, holds, exists_where, update_where, count_where, All, All-update_where,
  count_where-update_where-le, count_where_mono, count_where_none, Bool-cases, ◌⊎◌, inl, inr,
}
use smart_platform_services.Identity.Contracts.{OtpPurpose, purpose_Eq, same_purpose_iff}
use smart_platform_services.Identity.Store.{OtpChallenge}
use smart_platform_services.Identity.Otp.{
  Recipient, by_email, by_phone, is_active, holds_parameter, is_current, NewChallenge,
  challenge_row, has_id, meets_email, meets_phone,
}

-- An unconsumed challenge has an attempt left.
abbrev pub IsOpen : OtpChallenge → Type 0
IsOpen c = is_active c ≡ true → c.attempt_count < c.max_attempts

-- Ids are distinct, a recipient has one unconsumed challenge for a purpose at most, and each
-- unconsumed challenge has an attempt left.
pub record IsValid (cs : List OtpChallenge) : Type 0 where
  pub ids : (i : ℕ) → count_where (has_id i) cs ≤ 1
  pub current : (to : Recipient) (p : OtpPurpose) → count_where (is_current to p) cs ≤ 1
  pub budget : All IsOpen cs

-- A statement that writes neither the keys of a row nor NULL into `consumed_at`.
abbrev pub Moves : OtpChallenge → OtpChallenge → Type 0
Moves c d =
    (d.id ≡ c.id)
    × (d.email ≡ c.email)
    × (d.phone ≡ c.phone)
    × (d.purpose ≡ c.purpose)
    × (is_active d ≡ true → is_active c ≡ true)
    × (IsOpen c → IsOpen d)

Moves-has_id : (c d : OtpChallenge) (i : ℕ) → Moves c d → has_id i d ≡ true → has_id i c ≡ true
Moves-has_id c d i m h = ground (arith, m.0)

Moves-is_current :
    (c d : OtpChallenge) (to : Recipient) (p : OtpPurpose)
    → Moves c d
    → is_current to p d ≡ true
    → is_current to p c ≡ true
Moves-is_current c d (by_email e) p m h = ground arith
Moves-is_current c d (by_phone e) p m h = ground arith

pub update_where-IsValid :
    (q : OtpChallenge → Bool) (f : OtpChallenge → OtpChallenge) (cs : List OtpChallenge)
    → ((c : OtpChallenge) → q c ≡ true → Moves c (f c))
    → IsValid cs
    → IsValid (update_where q f cs)
update_where-IsValid q f cs m v = record {
  ids = λ i.
      le_trans
        (count_where-update_where-le (has_id i) q f cs (λ c h. Moves-has_id c (f c) i (m c h)))
        (v.ids i);
  current = λ to p.
      le_trans
        (count_where-update_where-le (is_current to p) q f cs
          (λ c h. Moves-is_current c (f c) to p (m c h)))
        (v.current to p);
  budget = All-update_where IsOpen q f cs (λ c h. (m c h).5) v.budget;
}

holds-holds_parameter :
    (a b : Option Text) (e : Text)
    → holds a e ≡ true
    → holds b e ≡ true
    → holds_parameter a b ≡ true
holds-holds_parameter none b e h k = cc
holds-holds_parameter (some x) none e h k = cc
holds-holds_parameter (some x) (some y) e h k =
    ground (arith, same_text_iff x e, same_text_iff y e, same_text_iff x y)

meets_email_of :
    (input : NewChallenge) (e : Text) (p : OtpPurpose) (now : ℕ) (c : OtpChallenge)
    → is_current (by_email e) p (challenge_row input now) ≡ true
    → is_current (by_email e) p c ≡ true
    → meets_email input c ≡ true
meets_email_of input e p now c h k =
    ground (arith, holds-holds_parameter c.email input.email e, same_purpose_iff input.purpose p)

meets_phone_of :
    (input : NewChallenge) (e : Text) (p : OtpPurpose) (now : ℕ) (c : OtpChallenge)
    → is_current (by_phone e) p (challenge_row input now) ≡ true
    → is_current (by_phone e) p c ≡ true
    → meets_phone input c ≡ true
meets_phone_of input e p now c h k =
    ground (arith, holds-holds_parameter c.phone input.phone e, same_purpose_iff input.purpose p)

-- No unconsumed challenge stands where the new one goes.
no_current :
    (input : NewChallenge) (cs : List OtpChallenge) (to : Recipient) (p : OtpPurpose) (now : ℕ)
    → exists_where (meets_phone input) cs ≡ false
    → exists_where (meets_email input) cs ≡ false
    → is_current to p (challenge_row input now) ≡ true
    → count_where (is_current to p) cs ≡ 0
no_current input cs (by_email e) p now hp he h = omega (
  arith,
  count_where_mono (is_current (by_email e) p) (meets_email input) cs
      (λ c k. meets_email_of input e p now c h k),
  count_where_none (meets_email input) cs he,
)
no_current input cs (by_phone e) p now hp he h = omega (
  arith,
  count_where_mono (is_current (by_phone e) p) (meets_phone input) cs
      (λ c k. meets_phone_of input e p now c h k),
  count_where_none (meets_phone input) cs hp,
)

pub challenge_row-IsValid :
    (input : NewChallenge) (cs : List OtpChallenge) (now : ℕ)
    → 0 < input.max_attempts
    → exists_where (has_id input.id) cs ≡ false
    → exists_where (meets_phone input) cs ≡ false
    → exists_where (meets_email input) cs ≡ false
    → IsValid cs
    → IsValid (challenge_row input now ∷ cs)
unfolding count_where
challenge_row-IsValid input cs now m hi hp he v = record {
  ids = λ i. ids i (Bool-cases (has_id i (challenge_row input now)));
  current = λ to p. current to p (Bool-cases (is_current to p (challenge_row input now)));
  budget = (λ _. m, v.budget);
}
  where
    ids :
        (i : ℕ)
        → (has_id i (challenge_row input now) ≡ true) ⊎ (has_id i (challenge_row input now) ≡ false)
        → count_where (has_id i) (challenge_row input now ∷ cs) ≤ 1
    ids i (inl e) = ground (arith, count_where_none (has_id i) cs, v.ids i)
    ids i (inr e) = ground (arith, v.ids i)

    current :
        (to : Recipient) (p : OtpPurpose)
        → (is_current to p (challenge_row input now) ≡ true)
          ⊎ (is_current to p (challenge_row input now) ≡ false)
        → count_where (is_current to p) (challenge_row input now ∷ cs) ≤ 1
    current to p (inl e) = rw e (omega (arith, no_current input cs to p now hp he e))
    current to p (inr e) = rw e (v.current to p)
