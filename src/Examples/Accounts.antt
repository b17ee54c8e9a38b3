-- ===== src/Examples/Accounts.antt =====
-- Histories of statements on accounts, at a store with one account.
use smart_platform_services.Common.{refl, some, List, [], ◌∷◌, text, exists_where}
use smart_platform_services.Identity.Users.Create.{NewPhoneUser}
use smart_platform_services.Identity.Users.Create.Unique.{AreDistinct}
use smart_platform_services.Identity.Users.Create.Histories.{
  AccountStatement, create_phone, sign_in, rename, set_password_hash, execute_all,
  execute_all-AreDistinct,
}
use smart_platform_services.Identity.Contracts.{renter}
use smart_platform_services.Examples.{empty_store}

abbrev newcomer : NewPhoneUser
newcomer = record {
  display_name = text "Binh";
  password_hash = text "h";
  phone = text "0902";
  role = renter;
}

-- The second statement draws an id that is taken.
abbrev statements : List AccountStatement
statements =
    create_phone 2 newcomer
    ∷ create_phone 1 newcomer
    ∷ rename 1 (text "Anna") (some (text "0902"))
    ∷ set_password_hash 2 (text "k")
    ∷ sign_in 2 500
    ∷ []

ann-AreDistinct : AreDistinct empty_store.users
unfolding exists_where
ann-AreDistinct = (refl, refl, tt)

execute_all-AreDistinct_example : AreDistinct (execute_all statements empty_store).users
execute_all-AreDistinct_example = execute_all-AreDistinct statements empty_store ann-AreDistinct
