-- ===== src/Server/Credentials.antt =====
-- conduit/auth/credentials.py: `UserProfile` and `CredentialsManager`. A set is a list of its
-- elements; SHA-256 and UTF-8 are parameters.
use net_conduit.Base.{Bool, false, Option, none, some, List, [], ◌∷◌, String, str_eq}
use net_conduit.Base.Dict.{Dict, lookup, insert}
use net_conduit.Connection.Pool.{is_among}
use net_conduit.Transport.Auth.{Crypto}

pub record UserProfile : Type 0 where
  pub username : String
  pub roles : List String
  pub permissions : List String

abbrev pub has_role : String → UserProfile → Bool
has_role role p = is_among role p.roles

abbrev pub has_permission : String → UserProfile → Bool
has_permission permission p = is_among permission p.permissions

pub record CredentialsManager : Type 0 where
  pub users : Dict String
  pub profiles : Dict UserProfile

abbrev pub new_manager : CredentialsManager
new_manager = record { users = []; profiles = [] }

-- given or default, where an empty list counts as not given
abbrev pub or_default : Option (List String) → List String → List String
or_default none default = default
or_default (some []) default = default
or_default (some (x ∷ xs)) default = x ∷ xs

unfoldable pub add_user :
    Crypto
    → String
    → String
    → Option (List String)
    → Option (List String)
    → CredentialsManager
    → CredentialsManager
add_user k username password roles permissions m = record m {
  users = insert username (k.sha256_hex (k.encode password)) m.users;
  profiles =
      insert username
        (record {
          username = username;
          roles = or_default roles ("user" ∷ []);
          permissions = or_default permissions [];
        })
        m.profiles;
}

unfoldable pub verify : String → String → CredentialsManager → Bool
verify username password_hash m = elim (lookup username m.users) [
  | none ↦ false
  | some h ↦ str_eq h password_hash
]

abbrev pub get_profile : String → CredentialsManager → Option UserProfile
get_profile username m = lookup username m.profiles
