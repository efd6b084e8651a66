-- ===== src/Routes/Prepare.antt =====
-- What the checks of the two endpoints establish about the arguments of the signing service.
use secure_sshlinux_client.Base.{
  ◌≡◌, ◌≢◌, refl, subst, true, Option, none, some, List, [], ◌∷◌, All, Text, Distinct, Dict, keys,
}
use secure_sshlinux_client.Environment.{Library}
use secure_sshlinux_client.Errors.{
  user, host, ok, >>=-eq-ok, ok-injective, Ensures, Ensures-ok, Ensures-bind,
}
use secure_sshlinux_client.Settings.{Settings}
use secure_sshlinux_client.Profiles.{
  CertificatePermissions, or_else, or_nil, resolve_profile, check_role_profile_access,
}
use secure_sshlinux_client.Profiles.Access.{documented, documented_of_check}
use secure_sshlinux_client.Profiles.Resolve.{
  IsKnown, IsKnownExtension, IsKnownKey, resolve_profile-IsKnown,
}
use secure_sshlinux_client.Validators.Keys.{validate_key_id, validate_ssh_public_key}
use secure_sshlinux_client.Validators.Ttl.{normalize_ttl}
use secure_sshlinux_client.Validators.Ttl.Spelled.{IsLifetime}
use secure_sshlinux_client.Validators.Ttl.Bounds.{normalize_ttl_iff}
use secure_sshlinux_client.Validators.Principals.{
  validate_user_principals, validate_host_principals,
}
use secure_sshlinux_client.Validators.Principals.User.{
  IsAllowed, allowed_list, validate_user_principals_sound,
}
use secure_sshlinux_client.Validators.Principals.Host.{IsHost, validate_host_principals_sound}
use secure_sshlinux_client.Validators.Options.{validate_extensions, validate_critical_options}
use secure_sshlinux_client.Validators.Options.Laws.{
  validate_extensions_sound, validate_critical_options-IsKnownKey,
}
use secure_sshlinux_client.Auth.{AuthContext}
use secure_sshlinux_client.Signing.{SignArguments}
use secure_sshlinux_client.Schemas.{CertPermissionOverrides, SignUserRequest, SignHostRequest}
use secure_sshlinux_client.Routes.{
  override_extensions, override_options, ext_override_of, crit_override_of, check_given_address,
  user_arguments, host_arguments,
}

-- What a user certificate is signed for: allowed principals, none twice, a lifetime within the limit,
-- known permissions only, and a profile that the documented matrix gives to the role.
pub record IsUserGrant (settings : Settings) (role profile : Text) (args : SignArguments)
    : Type 0 where
  pub cert_type : args.cert_type ≡ user
  pub some_principals : args.principals ≢ []
  pub distinct : Distinct args.principals
  pub allowed : All (IsAllowed (allowed_list none settings)) args.principals
  pub lifetime : IsLifetime settings.user_max_ttl_hours args.ttl
  pub known : (p : CertificatePermissions) × (args.permissions ≡ some p) × IsKnown p
  pub permitted : documented role profile ≡ true

-- What a host certificate is signed for.
pub record IsHostGrant (lib : Library) (settings : Settings) (args : SignArguments) : Type 0 where
  pub cert_type : args.cert_type ≡ host
  pub some_principals : args.principals ≢ []
  pub distinct : Distinct args.principals
  pub hosts : All (IsHost lib) args.principals
  pub lifetime : IsLifetime settings.host_max_ttl_hours args.ttl
  pub no_permissions : args.permissions ≡ none

override_extensions-known :
    (o r : Option (List Text)) → override_extensions o ≡ ok r → All IsKnownExtension (or_nil r)
unfolding override_extensions
override_extensions-known none r e =
    subst (λ o. All IsKnownExtension (or_nil o)) (ok-injective e) tt
override_extensions-known (some []) r e =
    subst (λ o. All IsKnownExtension (or_nil o)) (ok-injective e) tt
override_extensions-known (some (x ∷ xs)) r e =
    let (exts, v, e') = >>=-eq-ok (validate_extensions (x ∷ xs)) _ e in
    subst (λ o. All IsKnownExtension (or_nil o)) (ok-injective e')
      (validate_extensions_sound (x ∷ xs) exts v).0

ext_override_of-known :
    (o : Option CertPermissionOverrides) (r : Option (List Text))
    → ext_override_of o ≡ ok r
    → All IsKnownExtension (or_nil r)
unfolding ext_override_of
ext_override_of-known none r e = subst (λ o. All IsKnownExtension (or_nil o)) (ok-injective e) tt
ext_override_of-known (some p) r e = override_extensions-known p.extensions r e

module _ (lib : Library) where
  override_options-known :
      (o r : Option (Dict Text)) → override_options lib o ≡ ok r → All IsKnownKey (keys (or_nil r))
  unfolding override_options
  override_options-known none r e =
      subst (λ o. All IsKnownKey (keys (or_nil o))) (ok-injective e) tt
  override_options-known (some []) r e =
      subst (λ o. All IsKnownKey (keys (or_nil o))) (ok-injective e) tt
  override_options-known (some (x ∷ xs)) r e =
      let (options, v, e') = >>=-eq-ok (validate_critical_options lib (x ∷ xs)) _ e in
      subst (λ o. All IsKnownKey (keys (or_nil o))) (ok-injective e')
        (validate_critical_options-IsKnownKey lib (x ∷ xs) options v)

  crit_override_of-known :
      (o : Option CertPermissionOverrides) (r : Option (Dict Text))
      → crit_override_of lib o ≡ ok r
      → All IsKnownKey (keys (or_nil r))
  unfolding crit_override_of
  crit_override_of-known none r e =
      subst (λ o. All IsKnownKey (keys (or_nil o))) (ok-injective e) tt
  crit_override_of-known (some p) r e = override_options-known p.critical_options r e

  user_arguments-Ensures :
      (settings : Settings) (payload : SignUserRequest) (auth : AuthContext)
      → Ensures
          (λ r. IsUserGrant settings auth.role r.1 r.0)
          (user_arguments lib settings payload auth)
  unfolding user_arguments
  user_arguments-Ensures settings payload auth =
      Ensures-bind (validate_key_id payload.key_id) λ _ _.
        Ensures-bind (validate_ssh_public_key lib payload.public_key) λ public_key _.
          Ensures-bind (validate_user_principals payload.requested_principals settings)
            λ principals p.
              Ensures-bind
                (normalize_ttl payload.ttl settings.user_default_ttl_hours
                  settings.user_max_ttl_hours user)
                λ ttl t. Ensures-bind (ext_override_of payload.permissions) λ exts x.
                  Ensures-bind (crit_override_of lib payload.permissions) λ crits c.
                    Ensures-bind (check_given_address lib payload.source_address) λ _ _.
                      Ensures-bind
                        (resolve_profile
                          (some (or_else payload.profile settings.default_user_profile))
                          settings.default_user_profile exts crits payload.source_address
                          payload.force_command)
                        λ permissions r.
                          Ensures-bind
                            (check_role_profile_access auth.role
                              (or_else payload.profile settings.default_user_profile))
                            λ _ m.
                              let (nonempty, distinct, allowed, _) =
                                validate_user_principals_sound payload.requested_principals settings
                                  principals p in
                              Ensures-ok (record {
                                cert_type = refl;
                                some_principals = nonempty;
                                distinct = distinct;
                                allowed = allowed;
                                lifetime = ((normalize_ttl_iff payload.ttl _ _ user ttl).0 t).1;
                                known = (
                                  permissions,
                                  refl,
                                  resolve_profile-IsKnown _ _ exts crits payload.source_address
                                      payload.force_command permissions
                                      (
                                        ext_override_of-known payload.permissions exts x,
                                        crit_override_of-known payload.permissions crits c,
                                      )
                                      r,
                                );
                                permitted = documented_of_check auth.role _ m;
                              })

  -- The arguments that `sign_user` hands to the signing service grant what the caller may have: allowed
  -- principals, none twice, a positive lifetime within the limit for users, known extensions and
  -- critical options only, and a profile that the documented matrix gives to the caller's role.
  pub user_arguments-IsUserGrant :
      (settings : Settings) (payload : SignUserRequest) (auth : AuthContext) (args : SignArguments)
      (profile_name : Text)
      → user_arguments lib settings payload auth ≡ ok (args, profile_name)
      → IsUserGrant settings auth.role profile_name args
  user_arguments-IsUserGrant settings payload auth args profile_name e =
      (user_arguments-Ensures settings payload auth).holds (args, profile_name) e

  host_arguments-Ensures :
      (settings : Settings) (payload : SignHostRequest)
      → Ensures (IsHostGrant lib settings) (host_arguments lib settings payload)
  unfolding host_arguments
  host_arguments-Ensures settings payload = Ensures-bind (validate_key_id payload.key_id) λ _ _.
      Ensures-bind (validate_ssh_public_key lib payload.public_key) λ public_key _.
        Ensures-bind (validate_host_principals lib payload.requested_principals) λ principals p.
          Ensures-bind
            (normalize_ttl payload.ttl settings.host_default_ttl_hours settings.host_max_ttl_hours
              host)
            λ ttl t.
              let (nonempty, distinct, hosts, _, _) =
                validate_host_principals_sound lib payload.requested_principals principals p in
              Ensures-ok (record {
                cert_type = refl;
                some_principals = nonempty;
                distinct = distinct;
                hosts = hosts;
                lifetime = ((normalize_ttl_iff payload.ttl _ _ host ttl).0 t).1;
                no_permissions = refl;
              })

  -- The arguments that `sign_host` hands to the signing service: addresses and hostnames in lower case,
  -- none twice, a positive lifetime within the limit for hosts, and no permissions.
  pub host_arguments-IsHostGrant :
      (settings : Settings) (payload : SignHostRequest) (args : SignArguments)
      → host_arguments lib settings payload ≡ ok args
      → IsHostGrant lib settings args
  host_arguments-IsHostGrant settings payload args e =
      (host_arguments-Ensures settings payload).holds args e
