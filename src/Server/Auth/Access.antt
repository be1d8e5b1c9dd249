-- ===== src/Server/Auth/Access.antt =====
-- Whom the guards of server/src/auth.ts let in.
use nexus_queue.Prelude.{
  ℕ, ◌+◌, ◌≤◌, ◌<◌, ◌≡◌, refl, sym, ap, ap₂, ◌∙◌, Bool, true, false, ◌||◌, Option, none, some, List,
  [], ◌∷◌, ◌++◌, map, arith,
}
use nexus_queue.Prelude.Tests.{◌==◌, if◌then◌else◌}
use nexus_queue.Prelude.Texts.{Text, text, same, same_refl, same→eq, is_empty}
use nexus_queue.Prelude.Lists.{All, has}
use nexus_queue.Server.Auth.{
  Outcome, next, reject, Headers, timing_safe_equal, split_commas, trim, non_empty, valid_keys,
  set_text, presented, matches, check_keys, check_credentials, check_token, api_key_middleware, Jwt,
  LoginEnv, Credentials, token, jwt_middleware, login_handler,
}

abbrev pub has_comma : Text → Bool
has_comma [] = false
has_comma (c ∷ cs) = (c == b',') || has_comma cs

-- A key that can stand in API_KEYS: not empty, no comma, no white space at its ends.
abbrev pub Clean : Text → Type 0
Clean k = (has_comma k ≡ false) × (trim k ≡ k) × (is_empty k ≡ false)

abbrev pub join_commas : List Text → Text
join_commas [] = []
join_commas (k ∷ []) = k
join_commas (k ∷ j ∷ ks) = k ++ (b',' ∷ join_commas (j ∷ ks))

split_last_key : (k : Text) → has_comma k ≡ false → split_commas k ≡ k ∷ []
split_last_key [] h = refl
split_last_key (c ∷ cs) h = ground (arith, split_last_key cs)

split_first_key :
    (k rest : Text)
    → has_comma k ≡ false
    → split_commas (k ++ (b',' ∷ rest)) ≡ k ∷ split_commas rest
split_first_key [] rest h = refl
split_first_key (c ∷ cs) rest h = ground (arith, split_first_key cs rest)

split-join :
    (k : Text) (ks : List Text) → All Clean (k ∷ ks) → split_commas (join_commas (k ∷ ks)) ≡ k ∷ ks
split-join k [] c = split_last_key k c.0.0
split-join k (j ∷ ks) c = split_first_key k _ c.0.0 ∙ ap (λ xs. k ∷ xs) (split-join j ks c.1)

kept : (ks : List Text) → All Clean ks → non_empty (map trim ks) ≡ ks
kept [] c = refl
kept (k ∷ ks) c = rw (c.0.1, c.0.2, kept ks c.1) refl

same_length : (a b : Text) → timing_safe_equal a b ≡ same a b
unfolding timing_safe_equal
same_length a b = ground (arith, same→eq a b)

matches-has :
    (key : Text) (ks : List Text) (m : Bool) → matches key ks m ≡ (if m then true else has key ks)
unfolding matches
matches-has key [] m = ground arith
matches-has key (k ∷ ks) m =
    matches-has key ks (if timing_safe_equal key k then true else m)
    ∙ rw (same_length key k) (ground (arith, same→eq key k, same→eq k key, same_refl k))

abbrev pub lets_in : Outcome → Bool
lets_in next = true
lets_in (reject status error message) = false

abbrev pub one_of : List Text → Option Text → Bool
one_of ks none = false
one_of ks (some k) = has k ks

check_key-one_of :
    (k : Text) (ks : List Text) (p : Option Text) (h : Headers)
    → presented h ≡ p
    → lets_in (check_keys (k ∷ ks) h) ≡ one_of (k ∷ ks) p
check_key-one_of k ks none h e = rw e refl
check_key-one_of k ks (some key) h e = rw (e, matches-has key (k ∷ ks) false) (ground arith)

set_text-given : (t : Text) → is_empty t ≡ false → set_text (some t) ≡ some t
set_text-given t h = rw h refl

join-not_empty :
    (k : Text) (ks : List Text) → is_empty k ≡ false → is_empty (join_commas (k ∷ ks)) ≡ false
join-not_empty k [] h = h
join-not_empty [] (j ∷ ks) h = cc
join-not_empty (c ∷ cs) (j ∷ ks) h = refl

-- With API_KEYS set to one or more keys that are not empty, have no comma and no white space at
-- their ends, joined by commas, a request goes on exactly when the key that it presents is one of
-- them: its bearer token, or X-API-Key if it has no bearer token.
pub api_key_decides :
    (k : Text) (ks : List Text) (h : Headers)
    → All Clean (k ∷ ks)
    → lets_in (api_key_middleware (some (join_commas (k ∷ ks))) h) ≡ one_of (k ∷ ks) (presented h)
unfolding api_key_middleware
api_key_decides k ks h c =
    ap (λ o. lets_in (elim o [ none ↦ next | some t ↦ check_keys (valid_keys t) h ]))
      (set_text-given (join_commas (k ∷ ks)) (join-not_empty k ks c.0.2))
    ∙ ap (λ xs. lets_in (check_keys (non_empty (map trim xs)) h)) (split-join k ks c)
    ∙ ap (λ xs. lets_in (check_keys xs h)) (kept (k ∷ ks) c)
    ∙ check_key-one_of k ks (presented h) h refl

set_text-some : (o : Option Text) (t : Text) → set_text o ≡ some t → o ≡ some t
set_text-some none t e = cc
set_text-some (some u) t e = ground arith

module _ (jwt : Jwt) (secret user pass : Text) where
  abbrev pub configured : LoginEnv
  configured = record {
    jwt_secret = some secret;
    dashboard_user = some user;
    dashboard_password = some pass;
  }

  login_checked :
      (body : Credentials) (time : ℕ)
      → is_empty secret ≡ false
      → is_empty user ≡ false
      → is_empty pass ≡ false
      → login_handler jwt configured body time
        ≡ check_credentials jwt secret user pass
            (set_text body.username)
            (set_text body.password)
            time
  unfolding login_handler
  login_checked body time hs hu hp = rw (hs, hu, hp) refl

  granted :
      (time : ℕ)
      → check_credentials jwt secret user pass (some user) (some pass) time
        ≡ token (jwt.sign secret user time)
  granted time =
      rw (same_length user user, same_length pass pass, same_refl user, same_refl pass) refl

  -- With the three variables set: whoever logs in with the dashboard's name and password gets a
  -- token that opens the guarded routes, as a bearer token and whatever else the request has,
  -- for the next 24 hours.
  pub login_opens :
      (issued time : ℕ) (x_api_key : Option Text)
      → is_empty secret ≡ false
      → is_empty user ≡ false
      → is_empty pass ≡ false
      → issued ≤ time
      → time < issued + 86400
      → (t : Text) × (login_handler jwt configured
            (record { username = some user; password = some pass })
            issued
          ≡ token t)
        × (jwt_middleware jwt
              (some secret)
              (record { authorization = some (text "Bearer " ++ t); x_api_key = x_api_key })
              time
            ≡ next)
  unfolding login_handler jwt_middleware
  login_opens issued time x_api_key hs hu hp le lt = (
    jwt.sign secret user issued,
    login_checked (record { username = some user; password = some pass }) issued hs hu hp
        ∙ ap₂ (λ a b. check_credentials jwt secret user pass a b issued) (set_text-given user hu)
            (set_text-given pass hp)
        ∙ granted issued,
    ap
          (λ o. elim o [
            | none ↦ next
            | some s ↦ check_token jwt s (some (jwt.sign secret user issued)) time
          ])
          (set_text-given secret hs)
        ∙ ap (λ b. if b then next else reject 401 (text "unauthorized") (text "Invalid token"))
            (jwt.verify-sign secret user issued time hs le lt),
  )

  checked_credentials :
      (name word : Option Text) (time : ℕ) (t : Text)
      → check_credentials jwt secret user pass name word time ≡ token t
      → (name ≡ some user) × (word ≡ some pass)
  checked_credentials none word time t e = cc
  checked_credentials (some n) none time t e = cc
  checked_credentials (some n) (some w) time t e =
      ground (arith, same_length n user, same_length w pass, same→eq n user, same→eq w pass)

  -- With the three variables set, a login that gives a token had the dashboard's name and its
  -- password.
  pub login_guards :
      (body : Credentials) (time : ℕ) (t : Text)
      → is_empty secret ≡ false
      → is_empty user ≡ false
      → is_empty pass ≡ false
      → login_handler jwt configured body time ≡ token t
      → (body.username ≡ some user) × (body.password ≡ some pass)
  login_guards body time t hs hu hp e =
      let (n, w) =
        checked_credentials (set_text body.username) (set_text body.password) time t
          (sym (login_checked body time hs hu hp) ∙ e) in
      (set_text-some body.username user n, set_text-some body.password pass w)
