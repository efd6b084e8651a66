-- ===== src/Client/Certificates/Renewal.antt =====
-- When `needs_renewal` asks for a new certificate.
use secure_sshlinux_client.Base.{
  ℕ, ◌+◌, ◌-◌, ◌*◌, ◌≤◌, ◌<◌, ◌≡◌, ◌↔◌, refl, ap, sym, ◌∙◌, Bool, true, false, Option, some, arith,
  Text, codes, text_eq,
}
use secure_sshlinux_client.Client.Errors.{returned}
use secure_sshlinux_client.Client.Certificates.{
  CertificateInfo, quarter_hour, renewal_window, is_due, ssh_time, needs_renewal,
}

-- More than 15 minutes and more than a quarter of the lifetime remain.
abbrev pub IsEarly : ℕ → ℕ → ℕ → Type 0
IsEarly after before now =
    (now + quarter_hour < before * 1000000)
    × (now * 4 + (before - after) * 1000000 < before * 4000000)

is_due-IsEarly :
    (after before now : ℕ) → (is_due after before now ≡ false) ↔ IsEarly after before now
unfolding is_due renewal_window
is_due-IsEarly after before now = ground arith

returned-injective : {a b : Bool} → returned a ≡ returned b → a ≡ b
returned-injective h = cc

module _ (strptime : Text → Option ℕ) (certificate : CertificateInfo) (after before : ℕ) where
  pub needs_renewal_dated :
      (now : ℕ)
      → text_eq certificate.valid_before (codes "forever") ≡ false
      → strptime certificate.valid_after ≡ some after
      → strptime certificate.valid_before ≡ some before
      → needs_renewal strptime (some certificate) now ≡ returned (is_due after before now)
  unfolding needs_renewal ssh_time
  needs_renewal_dated now f a b = rw (f, a, b) refl

  -- The renewal of a certificate with readable dates is put off exactly as long as more than 15 minutes
  -- and more than a quarter of its lifetime remain.
  needs_renewal_iff :
      (now : ℕ)
      → text_eq certificate.valid_before (codes "forever") ≡ false
      → strptime certificate.valid_after ≡ some after
      → strptime certificate.valid_before ≡ some before
      → (needs_renewal strptime (some certificate) now ≡ returned false) ↔ IsEarly after before now
  needs_renewal_iff now f a b =
      let dated = needs_renewal_dated now f a b in
      let (early, late) = is_due-IsEarly after before now in
      ((λ h. early (returned-injective (sym dated ∙ h))), (λ h. dated ∙ ap returned (late h)))

  -- Once a certificate is due, it stays due.
  needs_renewal_later :
      (now later : ℕ)
      → text_eq certificate.valid_before (codes "forever") ≡ false
      → strptime certificate.valid_after ≡ some after
      → strptime certificate.valid_before ≡ some before
      → now ≤ later
      → needs_renewal strptime (some certificate) now ≡ returned true
      → needs_renewal strptime (some certificate) later ≡ returned true
  unfolding is_due
  needs_renewal_later now later f a b h due =
      let due_now : is_due after before now ≡ true =
        returned-injective (sym (needs_renewal_dated now f a b) ∙ due) in
      needs_renewal_dated later f a b ∙ ap returned (ground arith)
