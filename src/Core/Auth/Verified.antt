-- ===== src/Core/Auth/Verified.antt =====
-- Which callers are let in (apps/api/app/core/auth.py).
use hamicloud.Session.Written.{bind_ok}
use hamicloud.Schemas.{Caller}
use hamicloud.Session.{raise, pure, ◌>>=◌, text, M, ok, found, Detail, Tx}
use hamicloud.Core.Auth.Tokens.{
  caller_from, get_caller, dev_caller, caller_of, decode_options, DecodeOptions, decode_oidc_token,
  caller_of_header, refused, is_development, options_for, got, Claims, non_blank, checked, Jwt,
  bearer_token, Reply,
}
use hamicloud.Prelude.{
  if◌then◌else◌, refl, inr, Option-cases, Bool-cases, subst, ap, inl, ◌∙◌, true, arith, ◌⊎◌, false,
  none, is_blank, some, ◌≡◌, String, ℕ, strip, Option,
}
use hamicloud.Env.{Settings, Env}
use mathlib.Core.Option

-- A caller by a Bearer token that PyJWT verified with the configured issuer and algorithms, and with
-- the given audience.
abbrev pub ByToken : Env → Jwt → Option String → Option String → Caller → Type 0
ByToken env jwt authorization audience c =
    (header : String) × (token : String) × (key : String) × (claims : Claims) × (authorization
      ≡ some header)
    × (bearer_token env.lower header ≡ some token)
    × (jwt.get_signing_key token ≡ got key)
    × (jwt.decode token key (options_for env.settings audience) ≡ got claims)
    × (claims.sub ≡ some c.subject)

-- A caller who is let in: outside development by a token for the configured audience; in development
-- also where no audience is configured, or by the X-Dev-Subject header where no Authorization is sent.
abbrev pub LetIn : Env → Jwt → Option String → Option String → Caller → Type 0
LetIn env jwt authorization x_dev_subject c =
    ((audience : String) × (env.settings.oidc_audience ≡ some audience)
      × (is_blank audience ≡ false)
      × ByToken env jwt authorization (some audience) c)
    ⊎ ((is_development env.settings ≡ true)
        × (ByToken env jwt authorization none c
            ⊎ ((non_blank authorization ≡ none)
                × (non_blank (Option.map strip x_dev_subject) ≡ some c.subject))))

non_blank-some :
    (o : Option String) (s : String) → non_blank o ≡ some s → (o ≡ some s) × (is_blank s ≡ false)
non_blank-some none s h = absurd (cc)
non_blank-some (some a) s h = ground arith

checked_ok : {A : Type 0} (r : Reply A) (a : A) (t : Tx) → (checked r t).0 ≡ ok a → r ≡ got a
checked_ok (got b) a t h = cc
checked_ok (refused e) a t h = absurd (cc)

found_ok :
    {A : Type 0} (o : Option A) (n : ℕ) (e : Detail) (a : A) (t : Tx)
    → (found o n e t).0 ≡ ok a
    → o ≡ some a
found_ok none n e a t h = absurd (cc)
found_ok (some b) n e a t h = cc

options_given :
    (s : Settings) (o : Option String) (t : Tx) (options : DecodeOptions)
    → (decode_options s o t).0 ≡ ok options
    → ((audience : String) × (o ≡ some audience) × (options ≡ options_for s (some audience)))
      ⊎ ((is_development s ≡ true) × (options ≡ options_for s none))
options_given s (some audience) t options h = inl (audience, refl, cc)
options_given s none t options h = elim (Bool-cases (is_development s)) [
  | inl dev ↦ inr (dev, ground arith)
  | inr not_dev ↦ absurd (ground arith)
]

-- What a token that let a caller in was.
by_token :
    (env : Env) (jwt : Jwt) (header : String) (c : Caller) (t : Tx)
    → (caller_of_header env jwt header t).0 ≡ ok c
    → (s : Tx) × (options : DecodeOptions) × (token : String) × (key : String) × (claims : Claims)
      × ((decode_options env.settings (non_blank env.settings.oidc_audience) s).0 ≡ ok options)
      × (bearer_token env.lower header ≡ some token)
      × (jwt.get_signing_key token ≡ got key)
      × (jwt.decode token key options ≡ got claims)
      × (claims.sub ≡ some c.subject)
unfolding caller_of_header decode_oidc_token
by_token env jwt header c t h =
    let (token, h1, k1) = bind_ok (found (bearer_token env.lower header) 401 _) _ t c h in
    let (claims, h2, k2) = bind_ok (decode_oidc_token env.settings jwt token) caller_of _ c k1 in
    let (sub, h3, k3) = bind_ok (found (non_blank claims.sub) 401 _) _ _ c k2 in
    let (key, h4, k4) = bind_ok (checked (jwt.get_signing_key token)) _ _ claims h2 in
    let (options, h5, k5) =
      bind_ok (decode_options env.settings (non_blank env.settings.oidc_audience)) _ _ claims k4 in
    let named : sub ≡ c.subject = cc in
    let (has_sub, _) = non_blank-some claims.sub sub (found_ok _ 401 _ sub _ h3) in
    (
      _,
      options,
      token,
      key,
      claims,
      h5,
      found_ok _ 401 _ token t h1,
      checked_ok _ key _ h4,
      checked_ok _ claims _ k5,
      has_sub ∙ ap some named,
    )

by_header :
    (env : Env) (jwt : Jwt) (authorization x_dev_subject : Option String) (header : String)
    (c : Caller) (t : Tx)
    → authorization ≡ some header
    → (caller_of_header env jwt header t).0 ≡ ok c
    → LetIn env jwt authorization x_dev_subject c
by_header env jwt authorization x_dev_subject header c t given h =
    let (s, options, token, key, claims, decided, bearer, signed, decoded, sub) =
      by_token env jwt header c t h in
    elim (options_given env.settings (non_blank env.settings.oidc_audience) s options decided) [
      | inl (audience, configured, same) ↦
          let (is_set, full) = non_blank-some env.settings.oidc_audience audience configured in
          inl (
            audience,
            is_set,
            full,
            (
              header,
              token,
              key,
              claims,
              given,
              bearer,
              signed,
              subst (λ o. jwt.decode token key o ≡ got claims) same decoded,
              sub,
            ),
          )
      | inr (dev, same) ↦ inr (
        dev,
        inl (
          header,
          token,
          key,
          claims,
          given,
          bearer,
          signed,
          subst (λ o. jwt.decode token key o ≡ got claims) same decoded,
          sub,
        ),
      )
    ]

by_dev_subject :
    (env : Env) (jwt : Jwt) (authorization x_dev_subject : Option String) (c : Caller) (t : Tx)
    → non_blank authorization ≡ none
    → (dev_caller env.settings x_dev_subject t).0 ≡ ok c
    → LetIn env jwt authorization x_dev_subject c
unfolding dev_caller
by_dev_subject env jwt authorization x_dev_subject c t no_header h =
    elim (Bool-cases (is_development env.settings)) [
      | inl dev ↦
          let chosen : M Caller =
            (found (non_blank (Option.map strip x_dev_subject)) 401 (text "Authentication required")
              >>= (λ subject. pure (record { subject = subject }))) in
          let passed : (chosen t).0 ≡ ok c =
            subst
              (λ b. ((if b then chosen else raise 401 (text "Authentication required")) t).0 ≡ ok c)
              dev h in
          let (subject, h1, k1) =
            bind_ok (found (non_blank (Option.map strip x_dev_subject)) 401 _) _ t c passed in
          let named : subject ≡ c.subject = cc in
          inr (dev, inr (no_header, found_ok _ 401 _ subject t h1 ∙ ap some named))
      | inr not_dev ↦ absurd (ground arith)
    ]

-- A caller is let in only with a non-empty Bearer token that the JWT library decodes, with the
-- configured issuer and algorithms, to claims that name the caller as their subject: for the
-- configured audience, or, in development alone, with no audience; or, in development alone and
-- where no Authorization header is sent, under a non-blank X-Dev-Subject header that names the
-- caller.
pub caller-LetIn :
    (env : Env) (jwt : Jwt) (authorization x_dev_subject : Option String) (c : Caller) (t : Tx)
    → (get_caller env jwt authorization x_dev_subject t).0 ≡ ok c
    → LetIn env jwt authorization x_dev_subject c
unfolding get_caller caller_from
caller-LetIn env jwt authorization x_dev_subject c t h =
    elim (Option-cases (non_blank authorization)) [
      | inl no_header ↦
          by_dev_subject env jwt authorization x_dev_subject c t no_header
            (subst (λ o. (caller_from env jwt o x_dev_subject t).0 ≡ ok c) no_header h)
      | inr (header, sent) ↦
          by_header env jwt authorization x_dev_subject header c t
            ((non_blank-some authorization header sent).0)
            (subst (λ o. (caller_from env jwt o x_dev_subject t).0 ≡ ok c) sent h)
    ]
