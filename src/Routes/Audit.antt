-- ===== src/Routes/Audit.antt =====
-- The audit log and the response of the two endpoints: which line each outcome of app/api/routes.py
-- `sign_user` and `sign_host` appends.
use secure_sshlinux_client.Base.{
  ◌≡◌, refl, sym, ap, ◌∙◌, inl, inr, Bool, true, false, Option, none, some, List, [], ◌∷◌, ◌++◌,
  Text, Option-cases, ◌⊎◌,
}
use secure_sshlinux_client.Environment.{Library}
use secure_sshlinux_client.Errors.{
  ErrorCode, Result, ok, raised, ok-injective, Exception, http_exception, value_error,
  overflow_error, key_error, os_error,
}
use secure_sshlinux_client.Settings.{Settings}
use secure_sshlinux_client.Auth.{AuthContext}
use secure_sshlinux_client.Store.{IdempotencyStore, HashPayload}
use secure_sshlinux_client.Signing.{
  World, SignArguments, run_ssh_keygen, store_certificate, sign_certificate,
}
use secure_sshlinux_client.Signing.Idempotent.{
  sign_certificate_reused, sign_certificate_new, stored,
}
use secure_sshlinux_client.Schemas.{SignUserRequest, SignHostRequest, SignResponse}
use secure_sshlinux_client.Routes.{
  AuditEntry, Broker, user_arguments, host_arguments, audit_entry, sign_response, finish,
  sign_user_with, sign_user, sign_host_with, sign_host,
}

-- The call returned, or raised an `HTTPException`.
abbrev pub IsHandled {ℓ} : {A : Type ℓ} → Result A → Type 0
IsHandled (ok a) = Unit
IsHandled (raised (http_exception e)) = Unit
IsHandled (raised value_error) = ⊥
IsHandled (raised overflow_error) = ⊥
IsHandled (raised os_error) = ⊥
IsHandled (raised key_error) = ⊥

-- No endpoint catches it.
abbrev IsUncaught : Exception → Type 0
IsUncaught (http_exception e) = ⊥
IsUncaught value_error = Unit
IsUncaught overflow_error = Unit
IsUncaught os_error = Unit
IsUncaught key_error = Unit

-- What a line of the audit log says of the outcome.
abbrev pub has_succeeded {ℓ} : {A : Type ℓ} → Result A → Bool
has_succeeded (ok a) = true
has_succeeded (raised e) = false

abbrev pub error_code_of {ℓ} : {A : Type ℓ} → Result A → Option ErrorCode
error_code_of (ok a) = none
error_code_of (raised (http_exception e)) = some e.error_code
error_code_of (raised value_error) = none
error_code_of (raised overflow_error) = none
error_code_of (raised os_error) = none
error_code_of (raised key_error) = none

-- The log before, and one line that tells the outcome.
abbrev pub log_with :
    AuthContext
    → SignArguments
    → Text
    → Option Text
    → List AuditEntry
    → Result SignResponse
    → List AuditEntry
log_with auth args requester profile log outcome =
    log
    ++ audit_entry auth args requester profile (has_succeeded outcome) (error_code_of outcome) ∷ []

-- What the call did after its checks: it returned or raised an `HTTPException` and appended one line
-- that tells which, or it raised another exception and changed nothing.
abbrev pub IsLogged :
    AuthContext
    → SignArguments
    → Text
    → Option Text
    → Broker
    → Result SignResponse × Broker
    → Type 0
IsLogged auth args requester profile before outcome =
    (IsHandled outcome.0
      × (outcome.1.audit_log ≡ log_with auth args requester profile before.audit_log outcome.0))
    ⊎ ((e : Exception) × IsUncaught e × (outcome ≡ (raised e, before)))

finish-IsLogged :
    (auth : AuthContext) (args : SignArguments) (requester : Text) (profile : Option Text)
    (before : Broker) (signed : Result (Text × Bool) × IdempotencyStore)
    → ((e : Exception) → signed.0 ≡ raised e → signed.1 ≡ before.store)
    → IsLogged auth args requester profile before
        (finish auth args requester profile before.audit_log signed)
unfolding finish
finish-IsLogged auth args requester profile before (ok (c, reused), store) h = inl (tt, refl)
finish-IsLogged auth args requester profile before (raised (http_exception e), store) h =
    inl (tt, refl)
finish-IsLogged auth args requester profile before (raised value_error, store) h =
    inr (value_error, tt, rw (h value_error refl) refl)
finish-IsLogged auth args requester profile before (raised overflow_error, store) h =
    inr (overflow_error, tt, rw (h overflow_error refl) refl)
finish-IsLogged auth args requester profile before (raised os_error, store) h =
    inr (os_error, tt, rw (h os_error refl) refl)
finish-IsLogged auth args requester profile before (raised key_error, store) h =
    inr (key_error, tt, rw (h key_error refl) refl)

-- The answer is made of the arguments and of the certificate that the signing service returned.
abbrev pub IsAnswer :
    SignArguments
    → Option Text
    → Result (Text × Bool) × IdempotencyStore
    → SignResponse
    → IdempotencyStore
    → Type 0
IsAnswer args profile signed response store =
    (c : Text) × (reused : Bool) × (signed ≡ (ok (c, reused), store))
    × (response ≡ sign_response args profile c reused)

pub finish-IsAnswer :
    (auth : AuthContext) (args : SignArguments) (requester : Text) (profile : Option Text)
    (log : List AuditEntry) (signed : Result (Text × Bool) × IdempotencyStore)
    (response : SignResponse) (broker : Broker)
    → finish auth args requester profile log signed ≡ (ok response, broker)
    → IsAnswer args profile signed response broker.store
unfolding finish
finish-IsAnswer auth args requester profile log (ok (c, reused), store) response broker e =
    (c, reused, rw (← ap (λ p. p.1) e) refl, sym (ok-injective (ap (λ p. p.0) e)))
finish-IsAnswer auth args requester profile log (raised (http_exception x), store) response broker
      e =
    cc (ap (λ p. p.0) e)
finish-IsAnswer auth args requester profile log (raised value_error, store) response broker e =
    cc (ap (λ p. p.0) e)
finish-IsAnswer auth args requester profile log (raised overflow_error, store) response broker e =
    cc (ap (λ p. p.0) e)
finish-IsAnswer auth args requester profile log (raised os_error, store) response broker e =
    cc (ap (λ p. p.0) e)
finish-IsAnswer auth args requester profile log (raised key_error, store) response broker e =
    cc (ap (λ p. p.0) e)

finish-store :
    (auth : AuthContext) (args : SignArguments) (requester : Text) (profile : Option Text)
    (log : List AuditEntry) (signed : Result (Text × Bool) × IdempotencyStore)
    → (finish auth args requester profile log signed).1.store ≡ signed.1
unfolding finish
finish-store auth args requester profile log (ok (c, reused), store) = refl
finish-store auth args requester profile log (raised (http_exception e), store) = refl
finish-store auth args requester profile log (raised value_error, store) = refl
finish-store auth args requester profile log (raised overflow_error, store) = refl
finish-store auth args requester profile log (raised os_error, store) = refl
finish-store auth args requester profile log (raised key_error, store) = refl

module _ (build_hash : HashPayload → Text) (world : World) (settings : Settings) where
  store_certificate-raised :
      (args : SignArguments) (store : IdempotencyStore) (run : Result Text) (e : Exception)
      → (store_certificate build_hash world args store run).0 ≡ raised e
      → (store_certificate build_hash world args store run).1 ≡ store
  unfolding store_certificate
  store_certificate-raised args store (ok c) e h = cc h
  store_certificate-raised args store (raised x) e h = refl

  sign_certificate-raised :
      (args : SignArguments) (store : IdempotencyStore) (e : Exception)
      → (sign_certificate build_hash world settings args store).0 ≡ raised e
      → (sign_certificate build_hash world settings args store).1 ≡ store
  sign_certificate-raised args store e h = elim (Option-cases (stored build_hash args store)) [
    | inl n ↦
        let new = sign_certificate_new build_hash world settings args store n in
        ap (λ r. r.1) new
        ∙ store_certificate-raised args store (run_ssh_keygen world settings args) e
            (sym (ap (λ r. r.0) new) ∙ h)
    | inr (row, n) ↦
        ap (λ r. r.1) (sign_certificate_reused build_hash world settings args store row n)
  ]

  signed-IsLogged :
      (auth : AuthContext) (args : SignArguments) (requester : Text) (profile : Option Text)
      (broker : Broker)
      → IsLogged auth args requester profile broker (
          finish auth args requester profile broker.audit_log
            (sign_certificate build_hash world settings args broker.store))
  signed-IsLogged auth args requester profile broker =
      finish-IsLogged auth args requester profile broker _
        (sign_certificate-raised args broker.store)

  module _ (lib : Library) where
    -- What a call of `sign_user` did: a failed check changed nothing; otherwise one line was
    -- appended to the audit log, with the caller, what was asked for, and how it ended, unless an
    -- exception that is not caught ended the call.
    abbrev pub IsUserAudit :
        SignUserRequest → AuthContext → Broker → Result SignResponse × Broker → Type 0
    IsUserAudit payload auth before outcome =
        ((e : Exception) × (user_arguments lib settings payload auth ≡ raised e)
          × (outcome ≡ (raised e, before)))
        ⊎ ((args : SignArguments) × (profile : Text) × (user_arguments lib settings payload auth
              ≡ ok (args, profile))
            × IsLogged auth args payload.caller.requester (some profile) before outcome)

    sign_user_with-IsUserAudit :
        (payload : SignUserRequest) (auth : AuthContext) (broker : Broker)
        (checked : Result (SignArguments × Text))
        → user_arguments lib settings payload auth ≡ checked
        → IsUserAudit payload auth broker
            (sign_user_with lib build_hash world settings payload auth broker checked)
    unfolding sign_user_with
    sign_user_with-IsUserAudit payload auth broker (raised e) h = inl (e, h, refl)
    sign_user_with-IsUserAudit payload auth broker (ok (args, profile)) h =
        inr (
          args,
          profile,
          h,
          signed-IsLogged auth args payload.caller.requester (some profile) broker,
        )

    -- A call of `sign_user` whose checks fail raises and leaves the store and the audit log alone. A call
    -- whose checks pass either returns or raises an `HTTPException`, and appends exactly one line to the
    -- log, which names the caller, the role, the principals and the profile, and says whether the call
    -- succeeded and, if not, with which error code; or it raises another exception and leaves the store
    -- and the log alone.
    pub sign_user_audited :
        (payload : SignUserRequest) (auth : AuthContext) (broker : Broker)
        → IsUserAudit payload auth broker
            (sign_user lib build_hash world settings payload auth broker)
    unfolding sign_user
    sign_user_audited payload auth broker = sign_user_with-IsUserAudit payload auth broker _ refl

    -- What a call of `sign_host` did, in the same way; there is no profile.
    abbrev pub IsHostAudit :
        SignHostRequest → AuthContext → Broker → Result SignResponse × Broker → Type 0
    IsHostAudit payload auth before outcome =
        ((e : Exception) × (host_arguments lib settings payload ≡ raised e)
          × (outcome ≡ (raised e, before)))
        ⊎ ((args : SignArguments) × (host_arguments lib settings payload ≡ ok args)
            × IsLogged auth args payload.caller.requester none before outcome)

    sign_host_with-IsHostAudit :
        (payload : SignHostRequest) (auth : AuthContext) (broker : Broker)
        (checked : Result SignArguments)
        → host_arguments lib settings payload ≡ checked
        → IsHostAudit payload auth broker
            (sign_host_with lib build_hash world settings payload auth broker checked)
    unfolding sign_host_with
    sign_host_with-IsHostAudit payload auth broker (raised e) h = inl (e, h, refl)
    sign_host_with-IsHostAudit payload auth broker (ok args) h =
        inr (args, h, signed-IsLogged auth args payload.caller.requester none broker)

    -- A call of `sign_host` whose checks fail raises and leaves the store and the audit log alone. A call
    -- whose checks pass either returns or raises an `HTTPException`, and appends exactly one line to the
    -- log, which names the caller, the role and the principals, and says whether the call succeeded and,
    -- if not, with which error code; or it raises another exception and leaves the store and the log alone.
    pub sign_host_audited :
        (payload : SignHostRequest) (auth : AuthContext) (broker : Broker)
        → IsHostAudit payload auth broker
            (sign_host lib build_hash world settings payload auth broker)
    unfolding sign_host
    sign_host_audited payload auth broker = sign_host_with-IsHostAudit payload auth broker _ refl
