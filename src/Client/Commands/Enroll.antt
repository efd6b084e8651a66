-- ===== src/Client/Commands/Enroll.antt =====
-- What an enrolment that fails leaves of the client's files.
use secure_sshlinux_client.Base.{◌≡◌, refl, ap, ◌⊎◌, Option, none, List, Text, dict_get}
use secure_sshlinux_client.Client.Errors.{ClientError, Answer, failed, returned}
use secure_sshlinux_client.Client.Files.{Files, ClientPaths}
use secure_sshlinux_client.Client.Files.Laws.{}
use secure_sshlinux_client.Client.Bundle.{InstalledBundle, Codec}
use secure_sshlinux_client.Client.Machine.Frame.{
  Keeps, KeepsOnFailure, >>=-Keeps, >>=-KeepsOnFailure, on_files-Keeps,
}
use secure_sshlinux_client.Json.{Json}
use secure_sshlinux_client.Client.Machine.{
  Machine, ◌>>=◌, ◌>>◌, continue, keep_files, on_files, print,
}
use secure_sshlinux_client.Client.Broker.{
  Network, SslContext, text_or, broker_client, get_host_ca_public_key, request_user_certificate,
  request_json, send,
}
use secure_sshlinux_client.Client.Keys.{
  Tools, ensure_user_key, trust_host_ca, install_user_certificate,
}
use secure_sshlinux_client.Client.Commands.{enroll}
use secure_sshlinux_client.Client.Keys.Untouched.{
  IsOther, WritesKeyOnly, BreaksCertificate, ensure_user_key-dict_get, trust_host_ca-dict_get,
  install-failed,
}

not_raised : {u : Unit {0}} {e : ClientError} → returned u ≡ failed e → ⊥
not_raised h = cc

print-KeepsOnFailure :
    {S : Type 0} (k : Text) (excepted : ClientError → Type 0) (line : Text)
    → KeepsOnFailure {S = S} k excepted (print line)
print-KeepsOnFailure k excepted line m e raised = absurd (not_raised raised)

keep_files-failed :
    {S : Type 0} (k : Text) (excepted : ClientError → Type 0) (line : Text) (m : Machine S)
    (r : Answer (Unit {0}) × Files) (e : ClientError)
    → (r.0 ≡ failed e → (dict_get r.1 k ≡ dict_get m.files k) ⊎ excepted e)
    → (continue (λ _. print line) (keep_files m r)).0 ≡ failed e
    → (dict_get (continue (λ _. print line) (keep_files m r)).1.files k ≡ dict_get m.files k)
      ⊎ excepted e
keep_files-failed k excepted line m (failed e2, files) e h raised =
    let same : e2 ≡ e = cc in h (ap failed same)
keep_files-failed k excepted line m (returned u, files) e h raised = absurd (not_raised raised)

installed-KeepsOnFailure :
    {S : Type 0} (tools : Tools) (paths : ClientPaths) (certificate k line : Text)
    → KeepsOnFailure {S = S} k
        (BreaksCertificate tools paths k)
        (on_files (install_user_certificate tools paths certificate) >> print line)
unfolding ◌>>=◌
installed-KeepsOnFailure tools paths certificate k line m e raised =
    keep_files-failed k (BreaksCertificate tools paths k) line m
      (install_user_certificate tools paths certificate m.files) e
      (install-failed tools paths certificate k m.files e) raised

module _ {S : Type 0} (network : Network S) where
  request_json-Keeps :
      (k : Text) (bundle : InstalledBundle) (context : SslContext) (method path : Text)
      (payload : Option Json)
      → Keeps k (request_json network bundle context method path payload)
  unfolding request_json send
  request_json-Keeps k bundle context method path payload m = refl

  broker_client-Keeps :
      (k : Text) (bundle : InstalledBundle) → Keeps k (broker_client network bundle)
  unfolding broker_client
  broker_client-Keeps k bundle =
      >>=-Keeps k _ _ (λ m. refl) (λ context. >>=-Keeps k _ _ (λ m. refl) (λ u. λ m. refl))

  get_host_ca_public_key-Keeps :
      (k : Text) (bundle : InstalledBundle) (context : SslContext)
      → Keeps k (get_host_ca_public_key network bundle context)
  unfolding get_host_ca_public_key
  get_host_ca_public_key-Keeps k bundle context =
      >>=-Keeps k _ _ (request_json-Keeps k bundle context _ _ none) (λ response. λ m. refl)

  request_user_certificate-Keeps :
      (k : Text) (bundle : InstalledBundle) (context : SslContext) (public_key key_id : Text)
      (principals : List Text) (profile : Text) (ttl : Option Text)
      → Keeps k
          (request_user_certificate network bundle context public_key key_id principals profile ttl)
  unfolding request_user_certificate
  request_user_certificate-Keeps k bundle context public_key key_id principals profile ttl =
      >>=-Keeps k _ _ (request_json-Keeps k bundle context _ _ _) (λ response. λ m. refl)

  module _ (codec : Codec) (tools : Tools) (paths : ClientPaths) where
    enroll-KeepsOnFailure :
        (profile : Option Text) (principals : Option (List Text)) (ttl : Option Text) (k : Text)
        → WritesKeyOnly tools paths
        → IsOther paths k
        → KeepsOnFailure k
            (BreaksCertificate tools paths k)
            (enroll network codec tools paths profile principals ttl)
    unfolding enroll
    enroll-KeepsOnFailure profile principals ttl k w h =
        >>=-KeepsOnFailure k _ _ (λ m. refl)
          (λ bundle.
            >>=-KeepsOnFailure k _ _ (λ m. refl)
              (λ u.
                >>=-KeepsOnFailure k _ _ (λ m. refl)
                  (λ u.
                    >>=-KeepsOnFailure k _ _
                      (on_files-Keeps k (ensure_user_key tools paths bundle.key_id)
                        (λ files. ensure_user_key-dict_get tools paths bundle.key_id files k w h))
                      (λ u. >>=-KeepsOnFailure k _ _ (broker_client-Keeps k bundle) (λ context.
                        >>=-KeepsOnFailure k _ _ (get_host_ca_public_key-Keeps k bundle context)
                          (λ host_ca.
                            >>=-KeepsOnFailure k _ _
                              (on_files-Keeps k
                                (trust_host_ca tools paths bundle.host_patterns host_ca)
                                (trust_host_ca-dict_get tools paths bundle.host_patterns host_ca k
                                  h.no_host_ca h.no_known_hosts))
                              (λ u.
                                >>=-KeepsOnFailure k _ _ (λ m. refl)
                                  (λ public_key.
                                    >>=-KeepsOnFailure k _ _
                                      (request_user_certificate-Keeps k bundle context public_key
                                        bundle.key_id _ (text_or profile bundle.default_profile)
                                        ttl)
                                      (λ certificate.
                                        installed-KeepsOnFailure tools paths certificate k
                                          _)))))))))

    -- An enrolment that fails, at whatever step, changes no file but the key pair, the file of the host CA
    -- and known_hosts, unless the file is the one of the certificate and the error is the one with which
    -- the system broke off writing the new certificate into it. ssh-keygen must write the key pair only.
    pub enroll-failed :
        (profile : Option Text) (principals : Option (List Text)) (ttl : Option Text) (k : Text)
        (m : Machine S) (e : ClientError)
        → WritesKeyOnly tools paths
        → IsOther paths k
        → (enroll network codec tools paths profile principals ttl m).0 ≡ failed e
        → (dict_get (enroll network codec tools paths profile principals ttl m).1.files k
            ≡ dict_get m.files k)
          ⊎ BreaksCertificate tools paths k e
    enroll-failed profile principals ttl k m e w h =
        enroll-KeepsOnFailure profile principals ttl k w h m e
