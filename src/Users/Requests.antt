-- ===== src/Users/Requests.antt =====
-- The requests and the answer of src/modules/users/dto. A property is absent or has a value; `keys`
-- is what `Object.keys` answers for the request.
use mediavault_backend.Prelude.{ℕ, String, Bool, Option, List}
use mediavault_backend.Backend.{User}

-- Its zone and its quadrant are never read.
pub record CreateUserDto : Type 0 where
  pub email : Option String
  pub password : String
  pub first_name : String
  pub last_name : String
  pub role : String
  pub is_active : Option Bool
  pub id_type : Option String
  pub id_number : Option String
  pub cargo : Option String

pub record UpdateUserDto : Type 0 where
  pub first_name : Option String
  pub last_name : Option String
  pub role : Option String
  pub is_active : Option Bool
  pub id_type : Option String
  pub id_number : Option String
  pub cargo : Option String
  pub zone_id : Option String
  pub quadrant_id : Option String
  pub keys : List String

pub record ChangePasswordDto : Type 0 where
  pub current_password : Option String
  pub new_password : String
  pub confirm_password : Option String

pub record UpdateProfileDto : Type 0 where
  pub first_name : Option String
  pub last_name : Option String

-- The role in an answer has no permissions.
pub record RoleView : Type 0 where
  pub id : String
  pub name : String
  pub description : Option String

pub record UserResponse : Type 0 where
  pub id : String
  pub email : String
  pub first_name : String
  pub last_name : String
  pub id_type : Option String
  pub id_number : Option String
  pub cargo : Option String
  pub zone_id : Option String
  pub quadrant_id : Option String
  pub role : RoleView
  pub is_active : Bool
  pub created_at : ℕ
  pub updated_at : ℕ
  pub active_sessions_count : ℕ
  pub last_login_at : Option ℕ

-- `toDto`: the answer has no password hash.
unfoldable pub to_dto : User → ℕ → Option ℕ → UserResponse
to_dto u sessions last = record {
  id = u.id;
  email = u.email;
  first_name = u.first_name;
  last_name = u.last_name;
  id_type = u.id_type;
  id_number = u.id_number;
  cargo = u.cargo;
  zone_id = u.zone_id;
  quadrant_id = u.quadrant_id;
  role = record { id = u.role.id; name = u.role.name; description = u.role.description };
  is_active = u.is_active;
  created_at = u.created_at;
  updated_at = u.updated_at;
  active_sessions_count = sessions;
  last_login_at = last;
}
