-- ===== src/Auth/Credentials.antt =====
-- What internal/server/auth.go accepts as a user name, an e-mail address and a password.
-- The hash functions are those of the standard library and of golang.org/x/crypto.
use goflix.Base.{
  ℕ, zero, suc, Bool, true, false, not, ◌&&◌, ◌||◌, [], ◌∷◌, ◌++◌, Option, none, some, Text, codes,
  text_eq, ltb, leb, ◌==◌, if◌then◌else◌, any, length,
}
use goflix.Base.Strings.{cut, has_prefix, cut_prefix}

-- `sha256.Sum256`, `hex.EncodeToString`, `bcrypt.GenerateFromPassword` as it answers in one call,
-- and `bcrypt.CompareHashAndPassword` of a stored hash and a password.
pub record Hashing : Type 0 where
  pub sha256 : Text → Text
  pub hex : Text → Text
  pub bcrypt : Text → Option Text
  pub compare_hash : Text → Text → Bool

abbrev pub min_password_len : ℕ
min_password_len = 4

abbrev pub max_username_len : ℕ
max_username_len = 32

abbrev pub max_password_len : ℕ
max_password_len = 128

abbrev pub max_email_len : ℕ
max_email_len = 254

-- `hashToken`
unfoldable pub hash_token : Hashing → Text → Text
hash_token h token = h.hex (h.sha256 token)

unfoldable pub iterate : ℕ → (Text → Text) → Text → Text
iterate zero f t = t
iterate (suc n) f t = iterate n f (f t)

-- `legacyHash`
unfoldable pub legacy_hash : Hashing → Text → Text → Text
unfolding iterate
legacy_hash h password salt = h.hex (iterate 4096 h.sha256 (salt ++ b'|' ∷ password))

abbrev pub upgrade_of : Option Text → Text
upgrade_of none = []
upgrade_of (some hash) = hash

-- `verifyPassword`: whether the password is right, and a new hash to store, if it is not empty.
unfoldable pub verify_password : Hashing → Text → Text → Text → Bool × Text
unfolding cut_prefix
verify_password h password salt stored =
    if has_prefix (codes "$2") stored
    then (h.compare_hash stored password, [])
    else if text_eq (legacy_hash h password salt) stored
    then (true, upgrade_of (h.bcrypt password))
    else (false, [])

abbrev name_char : ℕ → Bool
name_char c =
    (leb b'a' c && leb c b'z')
    || (leb b'A' c && leb c b'Z')
    || (leb b'0' c && leb c b'9')
    || c == b'_'
    || c == b'-'

-- `validUsername`
unfoldable pub valid_username : Text → Bool
valid_username u =
    not (ltb (length u) 3 || ltb max_username_len (length u))
    && not (any (λ c. not (name_char c)) u)

abbrev blank : ℕ → Bool
blank c = c == 32 || c == 9 || c == 13 || c == 10

-- The domain has a first dot, neither at its start nor at its end.
abbrev dotted : Option (Text × Text) → Bool
dotted none = false
dotted (some (before, after)) = not (text_eq before []) && not (text_eq after [])

abbrev addressed : Option (Text × Text) → Bool
addressed none = false
addressed (some (local, domain)) =
    not (text_eq local []) && not (text_eq domain []) && dotted (cut b'.' domain)

-- `validEmail`
unfoldable pub valid_email : Text → Bool
unfolding cut
valid_email e =
    not (ltb (length e) 3 || ltb max_email_len (length e))
    && not (any blank e)
    && addressed (cut b'@' e)

unfoldable pub password_length_ok : Text → Bool
password_length_ok p = not (ltb (length p) min_password_len || ltb max_password_len (length p))
