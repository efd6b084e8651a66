-- ===== src/Client/Commands/Renewed.antt =====
-- `renew --if-needed`, from the listing of the installed certificate to the decision.
use secure_sshlinux_client.Base.{
  ℕ, ◌≡◌, refl, ◌+◌, ◌-◌, ◌*◌, ltb, ◌&&◌, arith, ◌∙◌, true, false, Bool, Option, none, some, List,
  [], ◌∷◌, ◌++◌, All, Text, codes, text_eq, strip, not, dict_get, ℤ, pos,
}
use secure_sshlinux_client.Inspection.{finished}
use secure_sshlinux_client.Inspection.Listing.{Listed, listing}
use secure_sshlinux_client.Inspection.RoundTrip.{IsListing}
use secure_sshlinux_client.Client.Errors.{Answer, returned}
use secure_sshlinux_client.Client.Files.{File, Files, ClientPaths}
use secure_sshlinux_client.Client.Bundle.{Codec}
use secure_sshlinux_client.Client.Certificates.{
  CertificateInfo, quarter_hour, renewal_window, is_due, needs_renewal,
}
use secure_sshlinux_client.Client.Certificates.Lines.{IsListedPrincipal}
use secure_sshlinux_client.Client.Certificates.Misread.{misread, parse_inspection_output-listing}
use secure_sshlinux_client.Client.Certificates.Renewal.{needs_renewal_dated}
use secure_sshlinux_client.Client.Machine.{Machine, ◌>>=◌, ◌>>◌, lift}
use secure_sshlinux_client.Client.Broker.{Network}
use secure_sshlinux_client.Client.Keys.{
  Tools, inspected_of_run, installed_certificate, inspect_installed_certificate,
}
use secure_sshlinux_client.Client.Commands.{enroll, is_current, renew_unless, renew}

-- What the client's parser finds in a listing.
abbrev found : Listed → CertificateInfo
found l = record {
  valid_after = l.valid_after;
  valid_before = l.valid_before;
  principals = l.principals ++ misread l;
  raw_output = strip (listing l);
}

inspect_installed_certificate-listing :
    (tools : Tools) (paths : ClientPaths) (files : Files) (f : File) (l : Listed) (error : Text)
    → dict_get files paths.user_cert_path ≡ some f
    → tools.list_file f.content ≡ finished true (listing l) error
    → IsListing l
    → All IsListedPrincipal l.principals
    → inspect_installed_certificate tools paths files ≡ returned (some (found l))
unfolding inspect_installed_certificate installed_certificate inspected_of_run
inspect_installed_certificate-listing tools paths files f l error there listed h g =
    rw (there, listed, parse_inspection_output-listing l h g) refl

-- More than 15 minutes and more than a quarter of the lifetime remain; dates are in seconds, the time of
-- the call in microseconds.
abbrev pub is_early : ℕ → ℕ → ℕ → Bool
is_early after before now =
    ltb (now + quarter_hour) (before * 1000000)
    && ltb (now * 4 + (before - after) * 1000000) (before * 4000000)

is_due-is_early : (after before now : ℕ) → is_due after before now ≡ not (is_early after before now)
unfolding is_due renewal_window
is_due-is_early after before now = ground arith

module _ {S : Type 0} (network : Network S) (codec : Codec) (tools : Tools) (paths : ClientPaths)
    (strptime : Text → Option ℕ) (now : ℕ) where
  renew_decided :
      (profile : Option Text) (principals : Option (List Text)) (certificate : CertificateInfo)
      (due : Bool) (m : Machine S)
      → inspect_installed_certificate tools paths m.files ≡ returned (some certificate)
      → needs_renewal strptime (some certificate) now ≡ returned due
      → renew network codec tools paths strptime now false true profile principals m
        ≡ renew_unless network codec tools paths strptime now profile principals (not due) m
  unfolding renew is_current ◌>>=◌
  renew_decided profile principals certificate due m read decided = rw (read, decided) refl

  -- What the command does where the certificate is early, and where it is not.
  abbrev pub outcome : Option Text → Option (List Text) → Bool → Machine S → Answer ℤ × Machine S
  outcome profile principals true m = (
    returned (pos 0),
    record m {
      printed = m.printed ++ codes "Certificate is still outside the renewal window" ∷ [];
    },
  )
  outcome profile principals false m =
      (enroll network codec tools paths profile principals none >> lift (returned (pos 0))) m

  renew_unless-outcome :
      (profile : Option Text) (principals : Option (List Text)) (due early : Bool) (m : Machine S)
      → due ≡ not early
      → renew_unless network codec tools paths strptime now profile principals (not due) m
        ≡ outcome profile principals early m
  unfolding renew_unless ◌>>=◌
  renew_unless-outcome profile principals due true m e = rw e refl
  renew_unless-outcome profile principals due false m e = rw e refl

  -- `renew --if-needed`, where ssh-keygen lists the installed certificate with two readable dates: as long
  -- as more than 15 minutes and more than a quarter of the lifetime remain, it only prints that the
  -- certificate is outside the renewal window; from then on it enrolls.
  pub renew_if_needed :
      (profile : Option Text) (principals : Option (List Text)) (l : Listed) (f : File)
      (error : Text) (after before : ℕ) (m : Machine S)
      → dict_get m.files paths.user_cert_path ≡ some f
      → tools.list_file f.content ≡ finished true (listing l) error
      → IsListing l
      → All IsListedPrincipal l.principals
      → text_eq l.valid_before (codes "forever") ≡ false
      → strptime l.valid_after ≡ some after
      → strptime l.valid_before ≡ some before
      → renew network codec tools paths strptime now false true profile principals m
        ≡ outcome profile principals (is_early after before now) m
  renew_if_needed profile principals l f error after before m there listed h g dated a b =
      let due = is_due after before now in
      renew_decided profile principals (found l) due m
        (inspect_installed_certificate-listing tools paths m.files f l error there listed h g)
        (needs_renewal_dated strptime (found l) after before now dated a b)
      ∙ renew_unless-outcome profile principals due (is_early after before now) m
          (is_due-is_early after before now)
