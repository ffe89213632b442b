-- ===== src/Identity.antt =====
-- The ids of users: DomainUserId and DomainUserType (src/main/identity/DomainUserId.ts). A name is a
-- list of UTF-16 code units.
pub mod Guid
pub mod Tests
use convergence_client_javas.Base.{
  ℕ, suc, Bool, true, false, Option, none, some, List, [], ◌∷◌, ◌++◌, take, drop, length, ◌==◌,
  same_text, if◌then◌else◌, Result, ok, throws, invalid_guid, ◌>>=◌,
}

pub data DomainUserType : Type 0 where
  normal convergence anonymous : DomainUserType

pub record DomainUserId : Type 0 where
  pub user_type : DomainUserType
  pub username : List ℕ

-- The text of an enum value: "normal", "convergence" and "anonymous".
unfoldable pub type_text : DomainUserType → List ℕ
type_text normal = b'n' ∷ b'o' ∷ b'r' ∷ b'm' ∷ b'a' ∷ b'l' ∷ []
type_text convergence =
    b'c' ∷ b'o' ∷ b'n' ∷ b'v' ∷ b'e' ∷ b'r' ∷ b'g' ∷ b'e' ∷ b'n' ∷ b'c' ∷ b'e' ∷ []
type_text anonymous = b'a' ∷ b'n' ∷ b'o' ∷ b'n' ∷ b'y' ∷ b'm' ∷ b'o' ∷ b'u' ∷ b's' ∷ []

unfoldable pub guid : DomainUserType → List ℕ → List ℕ
guid user_type username = type_text user_type ++ (b':' ∷ username)

unfoldable pub to_guid : DomainUserId → List ℕ
to_guid id = guid id.user_type id.username

-- `indexOf`, of one code unit.
unfoldable pub after_first : Option ℕ → Option ℕ
after_first none = none
after_first (some i) = some (suc i)

unfoldable pub index_of : ℕ → List ℕ → Option ℕ
index_of c [] = none
index_of c (x ∷ xs) = let rest = index_of c xs in if x == c then some 0 else after_first rest

unfoldable pub to_domain_user_type : List ℕ → Result DomainUserType
to_domain_user_type type_str =
    if same_text type_str (type_text normal)
    then ok normal
    else if same_text type_str (type_text convergence)
    then ok convergence
    else if same_text type_str (type_text anonymous)
    then ok anonymous
    else throws invalid_guid

-- The two parts around the separator.
unfoldable pub split_guid : List ℕ → Option ℕ → Result DomainUserId
split_guid text none = throws invalid_guid
split_guid text (some index) = do
  user_type ← to_domain_user_type (take index text)
  ok (record { user_type = user_type; username = drop (suc index) text })

unfoldable pub from_guid : List ℕ → Result DomainUserId
from_guid [] = throws invalid_guid
from_guid (x ∷ xs) = split_guid (x ∷ xs) (index_of b':' (x ∷ xs))
