-- ===== src/Api/Repositories/Approved.antt =====
-- The policy of repository URLs (apps/api/app/api/v1/repositories.py).
use hamicloud.Core.Auth.Access.{authorize-Neutral}
use hamicloud.Core.Auth.{authorize_workspace_access}
use hamicloud.Session.Atomic.{quiet_rules, Quiet}
use hamicloud.Schemas.{Caller}
use hamicloud.Models.Db.{
  write, insert_repository, same_repository, uq_repository_workspace_name, Db, Constraint,
}
use hamicloud.Api.Repositories.{
  name_taken, new_repository, RepositoryResponse, after_insert, CreateRepositoryRequest,
  create_repository,
}
use hamicloud.Models.Apps.{Repository}
use hamicloud.Models.Tenancy.{developer, Uuid}
use hamicloud.Session.Written.{written_end, written_step, guard_ok, passed, bind_ok}
use hamicloud.Session.Effect.{
  commit-Ends, stage-Ends, raise_if-Neutral, query-Ends, bind_ok-Ends, bind-Ends, serve-Ends,
  neutral_rules, Neutral,
}
use hamicloud.Session.{query, ◌>>=◌, commit, ◌>>◌, stage, M, alone, serve, raise_if, ok, Tx}
use hamicloud.Api.Repositories.Urls.{
  validate_repo_url, is_approved, has_scheme, has_userinfo, is_given, reject_userinfo,
  extract_repo_host, scp_host, SplitResult,
}
use hamicloud.Prelude.Spliced.{strip_lem}
use hamicloud.Prelude.{
  inr, [], inl, is_some, first, ◌∷◌, ◌⊎◌, not-not, sym, subst, drop_text, before_char, ◌∙◌, refl,
  true, ap, none, arith, starts_with, or_default, false, ◌&&◌, not, ◌≡◌, ◌==◌, if◌then◌else◌, some,
  is_space, any_char, contains_text, Option, String, strip,
}
use hamicloud.Env.{Env}

-- The host that a URL names, if it names one.
abbrev given_host : Env → Option SplitResult → Option String
given_host env none = none
given_host env (some parsed) =
    if is_given parsed.hostname then some (env.lower (or_default parsed.hostname "")) else none

abbrev pub host_of : Env → (String → Option SplitResult) → String → Option String
unfolding contains_text scp_host
host_of env urlsplit url =
    if not (contains_text "://" url) && contains_text ":" url
    then some (env.lower (scp_host url))
    else given_host env (urlsplit url)

-- What the policy asks of a URL: no backslash and no space, one of three schemes, no userinfo before
-- an https host, and an approved host.
abbrev pub Accepted : Env → (String → Option SplitResult) → String → Type 0
Accepted env urlsplit url =
    (any_char (λ c. c == 0x5c) url ≡ false)
    × (any_char is_space url ≡ false)
    × (has_scheme url ≡ true)
    × ((starts_with url "https://" && contains_text "@" (before_char b'/' (drop_text 8 url)))
        ≡ false)
    × ((host : String) × (host_of env urlsplit url ≡ some host) × (is_approved env host ≡ true))

module _ (env : Env) (urlsplit : String → Option SplitResult) where
  extract_gives :
      (url host : String) (t : Tx)
      → (extract_repo_host env urlsplit url t).0 ≡ ok host
      → host_of env urlsplit (strip url) ≡ some host
  unfolding extract_repo_host
  extract_gives url host t h = ground arith

  reject_gives :
      (url : String) (t : Tx)
      → (reject_userinfo urlsplit url t).0 ≡ ok tt
      → (starts_with url "https://" && contains_text "@" (before_char b'/' (drop_text 8 url)))
        ≡ false
  unfolding reject_userinfo has_userinfo
  reject_gives url t h = ground arith

  -- A URL that passes is given back as it came, and is one that the policy accepts.
  validated :
      (given url : String) (t : Tx)
      → (validate_repo_url env urlsplit given t).0 ≡ ok url
      → (url ≡ given) × Accepted env urlsplit given
  unfolding validate_repo_url
  validated given url t h =
      let (slashes, h1) = guard_ok (any_char (λ c. c == 0x5c) given) 422 _ _ t url h in
      let (spaces, h2) = guard_ok (any_char is_space given) 422 _ _ t url h1 in
      let (scheme, h3) = guard_ok (not (has_scheme (strip given))) 422 _ _ t url h2 in
      let (_, users, h4) = bind_ok (reject_userinfo urlsplit (strip given)) _ t url h3 in
      let (host, named, h5) = bind_ok (extract_repo_host env urlsplit (strip given)) _ _ url h4 in
      let (approved, h6) = guard_ok (not (is_approved env host)) 422 _ _ _ url h5 in
      let same = strip_lem given spaces in
      let stripped = ap strip same ∙ same in
      let given_back : strip given ≡ url = cc in
      (
        sym given_back ∙ same,
        (
          slashes,
          spaces,
          subst (λ u. has_scheme u ≡ true) same (not-not _ scheme),
          subst
              (λ u.
                (starts_with u "https://" && contains_text "@" (before_char b'/' (drop_text 8 u)))
                ≡ false)
              same (reject_gives (strip given) t users),
          (
            host,
            subst (λ u. host_of env urlsplit u ≡ some host) stripped
                (extract_gives (strip given) host _ named),
            not-not _ approved,
          ),
        ),
      )

  validate-Neutral : (given : String) → Neutral (validate_repo_url env urlsplit given)
  unfolding validate_repo_url reject_userinfo extract_repo_host
  validate-Neutral given = search neutral_rules depth 20

-- What a request adds to the repositories: nothing, or one of the workspace with the request's name,
-- which none of the workspace's had, and the request's URL, which is one that the policy accepts.
abbrev pub OneApproved :
    Env → (String → Option SplitResult) → Uuid → CreateRepositoryRequest → Db → Db → Type 0
OneApproved env urlsplit ws p d x =
    (x ≡ d)
    ⊎ ((r : Repository) × (x.repositories ≡ r ∷ d.repositories)
        × (r.workspace_id ≡ ws)
        × (r.name ≡ p.name)
        × (r.repo_url ≡ p.repo_url)
        × Accepted env urlsplit r.repo_url
        × (first (same_repository ws p.name) d.repositories ≡ none))

after_insert-Quiet : (r : Repository) (c : Constraint) → Quiet (after_insert r (some c))
after_insert-Quiet r uq_repository_workspace_name = search quiet_rules
after_insert-Quiet r other = search quiet_rules

free : {A : Type 0} (o : Option A) → is_some o ≡ false → o ≡ none
free none h = refl
free (some a) h = absurd (cc)

-- A request for a new repository that no other transaction runs beside either changes nothing, or
-- adds one repository to the workspace, whose name no repository there had and whose URL is the
-- request's, unchanged: it has no backslash and no space, begins with https://, git@ or ssh://, has
-- no userinfo in an https authority, and names an approved host.
pub repository_approved :
    (env : Env) (urlsplit : String → Option SplitResult) (caller : Caller) (ws : Uuid)
    (p : CreateRepositoryRequest) (d : Db)
    → OneApproved env urlsplit ws p d (serve alone (create_repository env urlsplit caller ws p) d).1
unfolding create_repository write
repository_approved env urlsplit caller ws p d =
    let P = OneApproved env urlsplit ws p d in
    let find : Db → Option Repository = λ x. first (same_repository ws p.name) x.repositories in
    let add : String → M RepositoryResponse = λ url.
      (stage (insert_repository (new_repository env ws p url))
        >> (commit >>= after_insert (new_repository env ws p url))) in
    let check : String → Option Repository → M RepositoryResponse =
      λ url o. (raise_if (is_some o) 409 (name_taken p.name) >> add url) in
    let named : String → M RepositoryResponse = λ url. (query find >>= check url) in
    serve-Ends d P _ (
      bind-Ends d P (authorize_workspace_access caller ws developer "Workspace not found")
        (λ _. validate_repo_url env urlsplit p.repo_url >>= named) (inl refl)
        (authorize-Neutral caller ws developer _)
        (λ m.
          bind_ok-Ends d P (validate_repo_url env urlsplit p.repo_url) named (inl refl)
            (validate-Neutral env urlsplit p.repo_url)
            (λ url t e r. query-Ends d [] P find (check url) (
              bind_ok-Ends d P (raise_if (is_some (find d)) 409 (name_taken p.name)) (λ _. add url)
                (inl refl) (raise_if-Neutral _ 409 _)
                (λ u t2 e2 r2.
                  stage-Ends d [] P (insert_repository (new_repository env ws p url)) _ (
                    commit-Ends d _ P (after_insert (new_repository env ws p url)) _ refl
                      (after_insert-Quiet (new_repository env ws p url)) (inl refl)
                      (λ d' x beside h.
                        let (fits, w) =
                          written_step (insert_repository (new_repository env ws p url)) [] d' x
                            h in
                        let (same, accepted) = validated env urlsplit p.repo_url url t r in
                        let rows : x.repositories ≡ new_repository env ws p url ∷ d'.repositories =
                          ap (λ y. y.repositories) (written_end _ x w) in
                        inr (
                          new_repository env ws p url,
                          rows ∙ ap (λ l. new_repository env ws p url ∷ l) beside.5,
                          refl,
                          refl,
                          same,
                          subst (Accepted env urlsplit) (sym same) accepted,
                          free (find d) (passed _ 409 _ t2 r2),
                        ))))))))
