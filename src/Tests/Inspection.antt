-- ===== src/Tests/Inspection.antt =====
-- The theorems on the listings of ssh-keygen.
use secure_sshlinux_client.Base.{
  All, if◌then◌else◌, ◌≡◌, refl, some, [], ◌∷◌, ◌++◌, arith, Text, codes, text_eq, strip, lstrip,
  rstrip, is_space, is_line_break, contains, ends_with, starts_with, ℕ, Option,
}
use secure_sshlinux_client.Errors.{ok}
use secure_sshlinux_client.Inspection.{parse_certificate_inspection, classify}
use secure_sshlinux_client.Inspection.Listing.{Listed, listing, section_lines, option_line}
use secure_sshlinux_client.Inspection.RoundTrip.{
  IsListing, shown, parse_certificate_inspection-listing,
}
use secure_sshlinux_client.Client.Errors.{returned}
use secure_sshlinux_client.Client.Certificates.{parse_inspection_output}
use secure_sshlinux_client.Client.Certificates.Lines.{IsListedPrincipal}
use secure_sshlinux_client.Client.Certificates.Misread.{misread, parse_inspection_output-listing}

-- A listing with a forced command.
abbrev forced : Listed
forced = record {
  file = codes "/tmp/user-cert.pub";
  cert_type = codes "ssh-ed25519-cert-v01@openssh.com user certificate";
  public_key = codes "ED25519-CERT SHA256:AAAA";
  signing_ca = codes "ED25519 SHA256:BBBB (using ssh-ed25519)";
  key_id = codes "pc-7";
  serial = codes "42";
  valid_after = codes "2024";
  valid_before = codes "2025";
  principals = codes "root" ∷ codes "lc:eol" ∷ [];
  critical_options = (codes "force-command", codes "/bin/id -u") ∷ [];
  extensions = codes "permit-pty" ∷ [];
}

-- A listing without critical options and extensions.
abbrev pub plain : Listed
plain = record forced { critical_options = []; extensions = [] }

forced-IsListing : IsListing forced
unfolding classify starts_with text_eq lstrip rstrip is_space is_line_break section_lines
    option_line contains
forced-IsListing = record {
  lines = assumption refl;
  file = ((refl, (refl, λ e. cc)), refl);
  cert_type = (refl, λ e. cc);
  public_key = (refl, λ e. cc);
  signing_ca = (refl, λ e. cc);
  serial = (refl, λ e. cc);
  valid_after = (
    (λ e. omega (arith, e)),
    ((λ e. omega (arith, e)), ((λ e. omega (arith, e)), ((λ e. omega (arith, e)), tt))),
  );
  valid_before = (refl, λ e. cc);
  principals = (((refl, (refl, λ e. cc)), refl), (((refl, (refl, λ e. cc)), refl), tt));
  critical_options = ((assumption refl, refl, ((refl, (refl, λ e. cc)), refl)), tt);
  distinct = (refl, tt);
  extensions = (((refl, (refl, λ e. cc)), refl), tt);
}

pub plain-IsListing : IsListing plain
unfolding classify starts_with text_eq lstrip rstrip is_space is_line_break section_lines
    option_line contains
plain-IsListing = record {
  lines = assumption refl;
  file = ((refl, (refl, λ e. cc)), refl);
  cert_type = (refl, λ e. cc);
  public_key = (refl, λ e. cc);
  signing_ca = (refl, λ e. cc);
  serial = (refl, λ e. cc);
  valid_after = (
    (λ e. omega (arith, e)),
    ((λ e. omega (arith, e)), ((λ e. omega (arith, e)), ((λ e. omega (arith, e)), tt))),
  );
  valid_before = (refl, λ e. cc);
  principals = (((refl, (refl, λ e. cc)), refl), (((refl, (refl, λ e. cc)), refl), tt));
  critical_options = tt;
  distinct = tt;
  extensions = tt;
}

parse_certificate_inspection-listing_example :
    parse_certificate_inspection (listing forced) ≡ ok (shown forced)
parse_certificate_inspection-listing_example =
    parse_certificate_inspection-listing forced forced-IsListing

pub plain-AreListed : All IsListedPrincipal plain.principals
unfolding classify starts_with text_eq lstrip rstrip is_space ends_with
plain-AreListed =
    ((((refl, (refl, λ e. cc)), refl), refl), ((((refl, (refl, λ e. cc)), refl), refl), tt))

parse_inspection_output-listing_example :
    parse_inspection_output (listing plain)
    ≡ returned (record {
      valid_after = codes "2024";
      valid_before = codes "2025";
      principals = plain.principals ++ misread plain;
      raw_output = strip (listing plain);
    })
parse_inspection_output-listing_example =
    parse_inspection_output-listing plain plain-IsListing plain-AreListed

-- This reader of times knows two dates.
abbrev pub strptime : Text → Option ℕ
strptime s = if text_eq s (codes "2024") then some 0 else some 28800
