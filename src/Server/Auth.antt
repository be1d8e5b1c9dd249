-- ===== src/Server/Auth.antt =====
-- server/src/auth.ts. A text is its bytes, so that `Buffer.from` does nothing; white space is that
-- of ASCII. A header or variable that is not set is `none`.
pub mod Access
use nexus_queue.Prelude.{
  ℕ, ◌+◌, ◌≤◌, ◌<◌, ◌≡◌, Bool, true, false, ◌&&◌, ◌||◌, not, Option, none, some, List, [], ◌∷◌, map,
}
use nexus_queue.Prelude.Tests.{◌==◌, leb, if◌then◌else◌}
use nexus_queue.Prelude.Texts.{Text, text, same, is_empty}
use nexus_queue.Prelude.Lists.{length}

-- What a middleware does: go on, or answer with a status, an error and a message.
pub data Outcome : Type 0 where
  next : Outcome
  reject : ℕ → Text → Text → Outcome

pub record Headers : Type 0 where
  pub authorization : Option Text
  pub x_api_key : Option Text

unfoldable pub timing_safe_equal : Text → Text → Bool
timing_safe_equal a b = if not (length a == length b) then false else same a b

-- `split(',')`
abbrev attach : ℕ → List Text → List Text
attach c [] = (c ∷ []) ∷ []
attach c (t ∷ ts) = (c ∷ t) ∷ ts

abbrev pub split_commas : Text → List Text
split_commas [] = [] ∷ []
split_commas (c ∷ cs) = let rest = split_commas cs in if c == b',' then [] ∷ rest else attach c rest

abbrev is_space : ℕ → Bool
is_space c = (c == 32) || (leb 9 c && leb c 13)

abbrev trim_start : Text → Text
trim_start [] = []
trim_start (c ∷ cs) = let rest = trim_start cs in if is_space c then rest else c ∷ cs

abbrev trim_end : Text → Text
trim_end [] = []
trim_end (c ∷ cs) = let rest = trim_end cs in if is_space c && is_empty rest then [] else c ∷ rest

abbrev pub trim : Text → Text
trim t = trim_end (trim_start t)

-- `filter(Boolean)`
abbrev pub non_empty : List Text → List Text
non_empty [] = []
non_empty (t ∷ ts) = let rest = non_empty ts in if is_empty t then rest else t ∷ rest

abbrev pub valid_keys : Text → List Text
valid_keys raw = non_empty (map trim (split_commas raw))

-- The text after a prefix, for a text that starts with it.
abbrev pub after_prefix : Text → Text → Option Text
after_prefix [] t = some t
after_prefix (c ∷ cs) [] = none
after_prefix (c ∷ cs) (d ∷ ds) = let rest = after_prefix cs ds in if c == d then rest else none

abbrev pub bearer : Option Text → Option Text
bearer none = none
bearer (some t) = after_prefix (text "Bearer ") t

abbrev pub set_text : Option Text → Option Text
set_text none = none
set_text (some t) = if is_empty t then none else some t

-- The key of the request: the bearer token before the header X-API-Key, an empty one as none.
abbrev pub presented : Headers → Option Text
presented h = set_text (elim (bearer h.authorization) [ some k ↦ some k | none ↦ h.x_api_key ])

-- The loop compares with every key.
unfoldable pub matches : Text → List Text → Bool → Bool
unfolding timing_safe_equal
matches key [] matched = matched
matches key (k ∷ ks) matched = matches key ks (if timing_safe_equal key k then true else matched)

abbrev pub bad_key : Outcome
bad_key = reject 401 (text "unauthorized") (text "Invalid or missing API key")

abbrev pub check_key : List Text → Option Text → Outcome
check_key keys none = bad_key
check_key keys (some key) = if not (matches key keys false) then bad_key else next

abbrev pub check_keys : List Text → Headers → Outcome
check_keys [] h = next
check_keys (k ∷ ks) h = check_key (k ∷ ks) (presented h)

-- Its first argument is the environment's API_KEYS.
unfoldable pub api_key_middleware : Option Text → Headers → Outcome
unfolding matches
api_key_middleware raw h = elim (set_text raw) [
  | none ↦ next
  | some t ↦ check_keys (valid_keys t) h
]

-- jsonwebtoken: tokens for 24 hours, in seconds since the epoch.
pub record Jwt : Type 0 where
  pub sign : Text → Text → ℕ → Text
  pub verify : Text → Text → ℕ → Bool
  pub verify-sign :
      (secret sub : Text) (issued time : ℕ)
      → is_empty secret ≡ false
      → issued ≤ time
      → time < issued + 86400
      → verify secret (sign secret sub issued) time ≡ true

pub record LoginEnv : Type 0 where
  pub jwt_secret : Option Text
  pub dashboard_user : Option Text
  pub dashboard_password : Option Text

pub record Credentials : Type 0 where
  pub username : Option Text
  pub password : Option Text

pub data Login : Type 0 where
  token : Text → Login
  refused : ℕ → Text → Text → Login

module _ (jwt : Jwt) where
  abbrev pub check_token : Text → Option Text → ℕ → Outcome
  check_token secret none time = reject 401 (text "unauthorized") (text "Missing or invalid token")
  check_token secret (some t) time =
      if jwt.verify secret t time
      then next
      else reject 401 (text "unauthorized") (text "Invalid token")

  -- Its first argument is the environment's JWT_SECRET.
  unfoldable pub jwt_middleware : Option Text → Headers → ℕ → Outcome
  jwt_middleware secret h time = elim (set_text secret) [
    | none ↦ next
    | some s ↦ check_token s (bearer h.authorization) time
  ]

  abbrev pub check_credentials : Text → Text → Text → Option Text → Option Text → ℕ → Login
  check_credentials secret user pass (some name) (some word) time =
      if not (timing_safe_equal name user) || not (timing_safe_equal word pass)
      then refused 401 (text "unauthorized") (text "Invalid credentials")
      else token (jwt.sign secret name time)
  check_credentials secret user pass _ _ time =
      refused 400 (text "invalid_request") (text "username and password required")

  abbrev check_env : Option Text → Option Text → Option Text → Credentials → ℕ → Login
  check_env (some secret) (some user) (some pass) body time =
      check_credentials secret user pass (set_text body.username) (set_text body.password) time
  check_env _ _ _ body time = refused 501 (text "not_configured") (text "Auth is not configured")

  unfoldable pub login_handler : LoginEnv → Credentials → ℕ → Login
  unfolding timing_safe_equal
  login_handler env body time =
      check_env (set_text env.jwt_secret) (set_text env.dashboard_user)
        (set_text env.dashboard_password) body time
