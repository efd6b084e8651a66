-- ===== src/Routes/Authorized.antt =====
-- The endpoints from the Authorization header to the response: who gets a certificate, and for what.
use secure_sshlinux_client.Base.{
  ◌≡◌, ◌≢◌, refl, ap, true, Option, none, some, List, [], Text, codes, contains,
}
use secure_sshlinux_client.Environment.{Library}
use secure_sshlinux_client.Errors.{
  Result, ok, raised, ◌>>=◌, require-eq-ok, require, Ensures, Ensures-bind, Ensures-ok,
}
use secure_sshlinux_client.Settings.{Settings}
use secure_sshlinux_client.Auth.{
  AuthContext, bearer_token, require_auth, user_sign_roles, host_sign_roles, require_user_sign_role,
  require_host_sign_role, forbidden,
}
use secure_sshlinux_client.Auth.Laws.{configured, require_auth_sound}
use secure_sshlinux_client.Store.{HashPayload}
use secure_sshlinux_client.Signing.{World, SignArguments, sign_certificate}
use secure_sshlinux_client.Schemas.{SignUserRequest, SignHostRequest, SignResponse}
use secure_sshlinux_client.Routes.{
  Broker, authorized, sign_user_with, sign_user, sign_host_with, sign_host, post_sign_user,
  post_sign_host,
}
use secure_sshlinux_client.Routes.Prepare.{
  IsUserGrant, IsHostGrant, user_arguments-IsUserGrant, host_arguments-IsHostGrant,
}
use secure_sshlinux_client.Routes.Audit.{IsAnswer, finish-IsAnswer}

-- The header carries the token that the settings give to the role of the caller.
abbrev pub IsCaller : Option Text → Settings → AuthContext → Type 0
IsCaller authorization settings auth =
    (token : Text) × (bearer_token authorization ≡ ok token)
    × (configured settings auth.role ≡ some token)
    × (token ≢ [])

-- The dependency of an endpoint let a caller pass that is who it claims and has one of the roles.
abbrev IsLetIn : List Text → Option Text → Settings → Result AuthContext → Type 0
IsLetIn roles authorization settings =
    Ensures (λ auth. IsCaller authorization settings auth × (contains roles auth.role ≡ true))

user-IsLetIn :
    (authorization : Option Text) (settings : Settings)
    → IsLetIn user_sign_roles authorization settings
        (require_auth authorization settings >>= require_user_sign_role)
unfolding require_user_sign_role
user-IsLetIn authorization settings = Ensures-bind (require_auth authorization settings) λ auth a.
    Ensures-bind
      (require (contains user_sign_roles auth.role)
        (forbidden (codes "Role cannot sign user certs")))
      λ _ r. Ensures-ok (require_auth_sound authorization settings auth a, require-eq-ok _ _ r)

host-IsLetIn :
    (authorization : Option Text) (settings : Settings)
    → IsLetIn host_sign_roles authorization settings
        (require_auth authorization settings >>= require_host_sign_role)
unfolding require_host_sign_role
host-IsLetIn authorization settings = Ensures-bind (require_auth authorization settings) λ auth a.
    Ensures-bind
      (require (contains host_sign_roles auth.role)
        (forbidden (codes "Role cannot sign host certs")))
      λ _ r. Ensures-ok (require_auth_sound authorization settings auth a, require-eq-ok _ _ r)

authorized-ok :
    (caller : Result AuthContext) (body : AuthContext → Broker → Result SignResponse × Broker)
    (before after : Broker) (response : SignResponse)
    → authorized caller body before ≡ (ok response, after)
    → (auth : AuthContext) × (caller ≡ ok auth) × (body auth before ≡ (ok response, after))
unfolding authorized
authorized-ok (raised e) body before after response h = cc (ap (λ p. p.0) h)
authorized-ok (ok auth) body before after response h = (auth, refl, h)

module _ (lib : Library) (build_hash : HashPayload → Text) (world : World)
    (settings : Settings) where
  -- The arguments that were checked are signed, and the response tells so.
  abbrev pub IsSigned : SignArguments → Option Text → Broker → SignResponse → Broker → Type 0
  IsSigned args profile before response after =
      IsAnswer args profile (sign_certificate build_hash world settings args before.store) response
        after.store

  -- What a successful call of `/v1/sign/user` shows.
  pub record IsUserIssue (authorization : Option Text) (payload : SignUserRequest) (before : Broker)
      (response : SignResponse) (after : Broker) : Type 0 where
    pub auth : AuthContext
    pub args : SignArguments
    pub profile : Text
    pub caller : IsCaller authorization settings auth
    pub may_sign : contains user_sign_roles auth.role ≡ true
    pub grant : IsUserGrant settings auth.role profile args
    pub signed : IsSigned args (some profile) before response after

  pub record IsHostIssue (authorization : Option Text) (payload : SignHostRequest) (before : Broker)
      (response : SignResponse) (after : Broker) : Type 0 where
    pub auth : AuthContext
    pub args : SignArguments
    pub caller : IsCaller authorization settings auth
    pub may_sign : contains host_sign_roles auth.role ≡ true
    pub grant : IsHostGrant lib settings args
    pub signed : IsSigned args none before response after

  sign_user_with-ok :
      (payload : SignUserRequest) (auth : AuthContext) (before after : Broker)
      (checked : Result (SignArguments × Text)) (response : SignResponse)
      → sign_user_with lib build_hash world settings payload auth before checked
        ≡ (ok response, after)
      → (args : SignArguments) × (profile : Text) × (checked ≡ ok (args, profile))
        × IsSigned args (some profile) before response after
  unfolding sign_user_with
  sign_user_with-ok payload auth before after (raised e) response h = cc (ap (λ p. p.0) h)
  sign_user_with-ok payload auth before after (ok (args, profile)) response h = (
    args,
    profile,
    refl,
    finish-IsAnswer auth args _ (some profile) before.audit_log _ response after h,
  )

  sign_host_with-ok :
      (payload : SignHostRequest) (auth : AuthContext) (before after : Broker)
      (checked : Result SignArguments) (response : SignResponse)
      → sign_host_with lib build_hash world settings payload auth before checked
        ≡ (ok response, after)
      → (args : SignArguments) × (checked ≡ ok args) × IsSigned args none before response after
  unfolding sign_host_with
  sign_host_with-ok payload auth before after (raised e) response h = cc (ap (λ p. p.0) h)
  sign_host_with-ok payload auth before after (ok args) response h =
      (args, refl, finish-IsAnswer auth args _ none before.audit_log _ response after h)

  -- A call of `/v1/sign/user` that succeeds was made with the token of a role that may sign user
  -- certificates; what was signed grants this role no more than the settings and the documented
  -- matrix give it (allowed principals, the lifetime limit, known permissions, the profile); and the
  -- response carries the certificate of the signing service and the arguments that were signed.
  pub post_sign_user_sound :
      (authorization : Option Text) (payload : SignUserRequest) (before after : Broker)
      (response : SignResponse)
      → post_sign_user lib build_hash world settings authorization payload before
        ≡ (ok response, after)
      → IsUserIssue authorization payload before response after
  unfolding post_sign_user sign_user
  post_sign_user_sound authorization payload before after response h =
      let (auth, a, b) =
        authorized-ok _ (sign_user lib build_hash world settings payload) before after response h in
      let (caller, may_sign) = (user-IsLetIn authorization settings).holds auth a in
      let (args, profile, c, signed) = sign_user_with-ok payload auth before after _ response b in
      record {
        auth = auth;
        args = args;
        profile = profile;
        caller = caller;
        may_sign = may_sign;
        grant = user_arguments-IsUserGrant lib settings payload auth args profile c;
        signed = signed;
      }

  -- A call of `/v1/sign/host` that succeeds was made with the token of a role that may sign host
  -- certificates; each principal in the arguments of the signing is an address for `ipaddress` or a
  -- hostname in lower case, the lifetime is within the limit for hosts, and there are no permissions;
  -- and the response carries the certificate of the signing service and the arguments that were signed.
  pub post_sign_host_sound :
      (authorization : Option Text) (payload : SignHostRequest) (before after : Broker)
      (response : SignResponse)
      → post_sign_host lib build_hash world settings authorization payload before
        ≡ (ok response, after)
      → IsHostIssue authorization payload before response after
  unfolding post_sign_host sign_host
  post_sign_host_sound authorization payload before after response h =
      let (auth, a, b) =
        authorized-ok _ (sign_host lib build_hash world settings payload) before after response h in
      let (caller, may_sign) = (host-IsLetIn authorization settings).holds auth a in
      let (args, c, signed) = sign_host_with-ok payload auth before after _ response b in
      record {
        auth = auth;
        args = args;
        caller = caller;
        may_sign = may_sign;
        grant = host_arguments-IsHostGrant lib settings payload args c;
        signed = signed;
      }
