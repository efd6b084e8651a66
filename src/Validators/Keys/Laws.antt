-- ===== src/Validators/Keys/Laws.antt =====
-- What the public key check returns.
use secure_sshlinux_client.Base.{◌≡◌, refl, Text, strip, strip-strip, words}
use secure_sshlinux_client.Environment.{Library}
use secure_sshlinux_client.Errors.{ok, >>=-eq-ok}
use secure_sshlinux_client.Validators.Keys.{check_key_line, validate_ssh_public_key}

module _ (lib : Library) where
  -- A result of `validate_ssh_public_key` is the stripped input, and is accepted again unchanged.
  validate_ssh_public_key_again :
      (public_key r : Text)
      → validate_ssh_public_key lib public_key ≡ ok r
      → (r ≡ strip public_key) × (validate_ssh_public_key lib r ≡ ok r)
  unfolding validate_ssh_public_key
  validate_ssh_public_key_again public_key r e =
      let (u, checked, same) = >>=-eq-ok (check_key_line lib (words (strip public_key))) _ e in
      let same' : r ≡ strip public_key = cc in (same', rw (same', strip-strip, checked) refl)
