-- ===== src/Api/Repositories/Urls.antt =====
-- `extract_repo_host` and `validate_repo_url` of apps/api/app/api/v1/repositories.py.
use hamicloud.Session.{pure, text, ◌>>=◌, raise_if, found, ◌>>◌, M}
use hamicloud.Prelude.{
  none, is_blank, ◌&&◌, ◌==◌, ◌=s=◌, not, or_default, some, drop_text, if◌then◌else◌, any,
  after_char, false, ◌||◌, before_char, is_space, Bool, contains_text, starts_with, String, strip,
  Option, any_char,
}
use hamicloud.Env.{Env}

-- `urllib.parse.urlsplit`, as far as it is read; it gives none where it raises ValueError.
pub record SplitResult : Type 0 where
  pub hostname : Option String
  pub username : Option String
  pub password : Option String
  pub netloc : String

-- `if value` of an optional text.
abbrev pub is_given : Option String → Bool
is_given none = false
is_given (some s) = not (is_blank s)

-- An exception that no handler catches.
abbrev pub split_url : (String → Option SplitResult) → String → M SplitResult
split_url urlsplit url =
    found (urlsplit url) 500 (text "An unexpected internal platform error occurred.")

-- The host of `user@host:path`.
unfoldable pub scp_host : String → String
unfolding contains_text before_char after_char
scp_host url =
    let after_user = if contains_text "@" url then or_default (after_char b'@' url) "" else url in
    before_char b'/' (before_char b':' after_user)

unfoldable pub extract_repo_host : Env → (String → Option SplitResult) → String → M String
unfolding strip contains_text scp_host
extract_repo_host env urlsplit repo_url =
    let url = strip repo_url in
    if not (contains_text "://" url) && contains_text ":" url
    then pure (env.lower (scp_host url))
    else (do
      parsed ← split_url urlsplit url
      raise_if (not (is_given parsed.hostname)) 422
          (text "Invalid repository URL: unable to extract hostname")
      pure (env.lower (or_default parsed.hostname "")))

abbrev pub has_scheme : String → Bool
has_scheme url = starts_with url "https://" || (starts_with url "git@" || starts_with url "ssh://")

-- Whether an https URL carries userinfo.
unfoldable pub has_userinfo : SplitResult → String → Bool
unfolding contains_text before_char drop_text
has_userinfo parsed url =
    is_given parsed.username
    || is_given parsed.password
    || contains_text "@" parsed.netloc
    || contains_text "@" (before_char b'/' (drop_text 8 url))

unfoldable pub reject_userinfo : (String → Option SplitResult) → String → M (Unit {0})
unfolding has_userinfo starts_with
reject_userinfo urlsplit url =
    if starts_with url "https://"
    then (do
      parsed ← split_url urlsplit url
      raise_if (has_userinfo parsed url) 422
          (text "Invalid repository URL: userinfo is not allowed on https"))
    else pure tt

-- `host in {h.strip().lower() for h in settings.APPROVED_REPOSITORY_HOSTS}`
unfoldable pub is_approved : Env → String → Bool
unfolding strip
is_approved env host =
    any (λ h. host =s= env.lower (strip h)) env.settings.approved_repository_hosts

unfoldable pub validate_repo_url : Env → (String → Option SplitResult) → String → M String
unfolding any_char is_space strip reject_userinfo extract_repo_host is_approved
validate_repo_url env urlsplit repo_url = do
  raise_if (any_char (λ c. c == 0x5c) repo_url) 422
      (text "Invalid repository URL: backslash is not allowed")
  raise_if (any_char is_space repo_url) 422
      (text "Invalid repository URL: whitespace is not allowed")
  let url = strip repo_url
  raise_if (not (has_scheme url)) 422
      (text "Invalid repository URL: must start with https://, git@, or ssh://")
  reject_userinfo urlsplit url
  host ← extract_repo_host env urlsplit url
  raise_if (not (is_approved env host)) 422 (
      text
        "REPOSITORY_POLICY_VIOLATION: Repository host is not in the approved repository allowlist")
  pure url
