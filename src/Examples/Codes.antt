-- ===== src/Examples/Codes.antt =====
-- One-time codes: tests, and the theorems at a store with one code.
use smart_platform_services.Common.{
  ℕ, ◌≡◌, refl, true, false, none, some, List, [], ◌∷◌, text, arith, All, exists_where,
  update_where, count_where, same_text,
}
use smart_platform_services.Identity.Contracts.{password_reset}
use smart_platform_services.Identity.Otp.{
  by_email, challenge_row, has_id, consume_otp, consume_where, mark_otp_verified, cancel_otp,
  find_otp_challenge, latest_where,
}
use smart_platform_services.Identity.Otp.Invariant.{IsValid, challenge_row-IsValid}
use smart_platform_services.Identity.Otp.Statements.{
  Statement, verify, redeem, exchange, replace_recovery, HasBudget, run, execute_at, uses_up,
  accepts,
}
use smart_platform_services.Identity.Otp.History.{run-IsValid}
use smart_platform_services.Identity.Otp.SingleUse.{
  used_up_refused, fail_times, fail_times_cancels, AtMost,
}
use smart_platform_services.Examples.Resets.{
  exchange as bought, exchange_again as bought_again, exchanges,
}
use smart_platform_services.Examples.{coded_store, recovery_code}

empty-IsValid : IsValid []
unfolding count_where
empty-IsValid = record { ids = λ i. omega arith; current = λ to p. omega arith; budget = tt }

coded-IsValid : IsValid coded_store.challenges
unfolding exists_where
coded-IsValid =
    challenge_row-IsValid recovery_code [] 100 (omega arith) refl refl refl empty-IsValid

-- A second request, and attempts to verify and redeem the old code.
abbrev later_on : List (ℕ × Statement)
later_on =
    (300, verify 10 300)
    ∷ (400, replace_recovery (record recovery_code { id = 11 }) none)
    ∷ (500, redeem 10 500)
    ∷ (550, exchange bought_again)
    ∷ []

later_on-HasBudget : All HasBudget later_on
later_on-HasBudget = (tt, (omega arith, (tt, (tt, tt))))

-- Tests: a code is accepted before it expires and not after, and a verified one only once.
consume_test :
    ((consume_otp 10 200 coded_store).0 ≡ true) × ((consume_otp 10 1000 coded_store).0 ≡ false)
unfolding consume_otp count_where
consume_test = (refl, refl)

verify_test :
    let after = mark_otp_verified 10 200 coded_store in
    (after.0 ≡ true) × ((mark_otp_verified 10 201 after.1).0 ≡ false)
unfolding mark_otp_verified count_where update_where
verify_test = (refl, refl)

cancel_test : (consume_otp 10 200 (cancel_otp 10 150 coded_store)).0 ≡ false
unfolding cancel_otp consume_otp consume_where count_where update_where
cancel_test = refl

find_test :
    find_otp_challenge (by_email (text "ann@site.vn")) password_reset coded_store
    ≡ some (challenge_row recovery_code 100)
unfolding find_otp_challenge latest_where same_text
find_test = refl

run-IsValid_example : IsValid (run later_on coded_store).challenges
run-IsValid_example = run-IsValid later_on coded_store later_on-HasBudget coded-IsValid

used_up : uses_up 10 (exchange bought) coded_store ≡ true
unfolding uses_up
used_up = rw exchanges refl

used_up_refused_example :
    accepts 10 (exchange bought_again) (run later_on (execute_at (exchange bought) coded_store))
    ≡ false
used_up_refused_example =
    used_up_refused 10 (exchange bought) coded_store later_on (exchange bought_again) coded-IsValid
      used_up later_on-HasBudget

is_stored : exists_where (has_id 10) coded_store.challenges ≡ true
unfolding exists_where
is_stored = refl

three_left : All (AtMost 3 10) coded_store.challenges
three_left = (λ e. omega arith, tt)

fail_times_cancels_example :
    accepts 10 (exchange bought_again) (run later_on (fail_times 3 10 coded_store)) ≡ false
fail_times_cancels_example =
    fail_times_cancels 3 10 coded_store later_on (exchange bought_again) coded-IsValid is_stored
      three_left later_on-HasBudget
