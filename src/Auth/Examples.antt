-- ===== src/Auth/Examples.antt =====
-- A household of two accounts.
use goflix.Base.{
  text_key, ℕ, ◌+◌, ◌/◌, Bool, true, false, [], ◌∷◌, ◌++◌, none, some, Text, codes, text_eq, ◌≡◌,
  ◌≢◌, ◌⊎◌, not, ◌&&◌, refl, arith,
}
use goflix.Base.Strings.{to_lower, trim_space, cut_prefix}
use goflix.Auth.Credentials.{
  Hashing, hash_token, verify_password, valid_username, password_length_ok,
}
use goflix.Auth.Store.{
  User, Login, AuthStore, Statement, Call, answered, second, auth_ttl, same_name, has_id, find_by,
  find_login_row, prune_sessions,
}
use goflix.Auth.Register.{
  register, register_refusal, form_refusal, email_refusal, name_refusal, create_account,
  insert_account, clashes,
}
use goflix.Auth.Login.{login, handle_login, session_for, logout}
use goflix.Auth.Rows.{UniqueBy, managed_by_someone, IsManaged}
use goflix.Auth.Requests.{serve, serve-IsManaged, remove_other}
use goflix.Auth.Access.{session_for-logout, session_for-handle_login}
use goflix.Auth.Handlers.{
  Site, done, forbidden, delete_user_state, admin_user_delete, admin_guard, user_is_admin, cleared,
  reply_of,
}
use goflix.Auth.Manage.{find_account, delete_account, delete_checked, delete_user_locked}
use goflix.Auth.Deletion.{IsRemoved, IsSpared, admin_user_delete_lem}
use goflix.Auth.Signup.{login-register}

-- Hash functions that mark their argument
abbrev toy_hashing : Hashing
toy_hashing = record {
  sha256 = λ t. b'#' ∷ t;
  hex = λ t. t;
  bcrypt = λ p. some (codes "$2" ++ p);
  compare_hash = λ h p. text_eq h (codes "$2" ++ p);
}

abbrev no_faults : Statement → Bool
no_faults x = false

abbrev at_time : ℕ → Call
at_time t = record {
  now = t;
  fresh_id = codes "id9";
  fresh_salt = codes "s";
  hashing = toy_hashing;
  faults = no_faults;
}

abbrev a_user : Text → Text → Bool → User
a_user i n boss = record {
  id = i;
  username = n;
  email = none;
  salt = [];
  hash = codes "$2pass";
  created_at = 1;
  is_admin = boss;
}

abbrev ann : User
ann = a_user (codes "a") (codes "Ann") true

abbrev ben : User
ben = a_user (codes "b") (codes "Ben") false

abbrev bens_login : Login
bens_login = record { token_hash = codes "#old"; user_id = codes "b"; expires_at = 5000000 }

abbrev household : AuthStore
household = record { users = ann ∷ ben ∷ []; logins = bens_login ∷ []; invite = [] }

household-IsManaged : IsManaged household
unfolding UniqueBy managed_by_someone has_id text_eq to_lower
household-IsManaged = record {
  ids = (refl, (refl, tt));
  names = (refl, (refl, tt));
  managed = refl;
  owned = (refl, tt);
}

-- Ann deletes the account of Ben, who is signed in.
serve-IsManaged_example :
    IsManaged (serve (at_time 7) (remove_other (codes "a") (codes "b")) household)
serve-IsManaged_example =
    serve-IsManaged (at_time 7) (remove_other (codes "a") (codes "b")) household household-IsManaged

session_for-logout_example :
    ((session_for (at_time 8) (codes "old") (logout (at_time 7) (codes "old") household)).1 ≡ none)
    × (find_login_row (codes "#new") (logout (at_time 7) (codes "old") household).logins
        ≡ find_login_row (codes "#new") household.logins)
session_for-logout_example =
    session_for-logout (at_time 7) (at_time 8) (codes "old") (codes "#new") household refl refl
      (unfold hash_token text_eq in refl)

session_for-handle_login_example :
    (session_for
      (at_time 900)
      (codes "new")
      (handle_login (at_time 7) (codes "new") (codes " ben") (codes "pass") household).0).1
    ≡ some (codes "b")
session_for-handle_login_example =
    session_for-handle_login (at_time 7) (at_time 900) (codes "new") (codes " ben") (codes "pass")
      household ben refl (unfold find_by same_name trim_space to_lower text_eq in refl)
      (unfold verify_password cut_prefix text_eq in refl) refl
      (unfold find_login_row hash_token text_eq in refl) refl refl (omega arith)

abbrev cleo : User
cleo = record {
  id = codes "id9";
  username = codes "Cleo";
  email = none;
  salt = codes "s";
  hash = codes "$2secret";
  created_at = 0;
  is_admin = false;
}

cleo_registers :
    (register (at_time 7) (codes "Cleo ") (codes "secret") [] [] household).1 ≡ answered cleo
unfolding register trim_space to_lower text_eq register_refusal form_refusal valid_username
    password_length_ok email_refusal name_refusal same_name create_account insert_account
    prune_sessions clashes has_id
cleo_registers = refl

login-register_example :
    (login
      (at_time 9)
      (codes "cleo")
      (codes "secret")
      (register (at_time 7) (codes "Cleo ") (codes "secret") [] [] household).0).1
    ≡ answered
        (record { token_hash = []; user_id = codes "id9"; expires_at = (9 + auth_ttl) / second })
login-register_example =
    login-register (at_time 7) (at_time 9) (codes "Cleo ") (codes "cleo") (codes "secret") [] []
      household cleo cleo_registers refl (unfold to_lower trim_space in refl)
      (unfold cut_prefix in refl) (unfold text_eq in refl)

abbrev site : Site
site = record { accounts = household; userdata = some ((codes "b", codes "{}") ∷ []) }

ben_deleted : (admin_user_delete (at_time 7) (codes "a") (codes "b") site).1 ≡ done
unfolding admin_user_delete admin_guard user_is_admin find_account find_by has_id cleared
    delete_user_state reply_of delete_account delete_checked delete_user_locked text_eq
ben_deleted = refl

admin_user_delete_lem_example :
    ((not (text_eq (codes "a") []) && user_is_admin (at_time 7) (codes "a") household ≡ false)
      × (admin_user_delete (at_time 7) (codes "a") (codes "b") site ≡ (site, forbidden)))
    ⊎ ((not (text_eq (codes "a") []) && user_is_admin (at_time 7) (codes "a") household ≡ true)
        × ((((admin_user_delete (at_time 7) (codes "a") (codes "b") site).1 ≡ done)
              × IsRemoved
                  (at_time 7)
                  (codes "a")
                  (codes "b")
                  site
                  (admin_user_delete (at_time 7) (codes "a") (codes "b") site).0)
            ⊎ (((admin_user_delete (at_time 7) (codes "a") (codes "b") site).1 ≢ done)
                × IsSpared site (admin_user_delete (at_time 7) (codes "a") (codes "b") site).0)))
admin_user_delete_lem_example = admin_user_delete_lem (at_time 7) (codes "a") (codes "b") site
