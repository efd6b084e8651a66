-- ===== src/Validators/Principals/Host.antt =====
-- The host principals that a certificate can be signed for.
use secure_sshlinux_client.Base.{
  ◌≡◌, ◌≢◌, ◌⊎◌, refl, ◌∙◌, inl, inr, true, ◌||◌, List, [], ◌∷◌, ◌++◌, arith, is_empty, All,
  All-append, Bool-cases, Text, contains, from_keys, append-nil, append_assoc, if◌then◌else◌,
  from_keys-Distinct, from_keys-ne-nil, All-from_keys, contains-from_keys, Distinct, strip, lower,
}
use secure_sshlinux_client.Environment.{Library}
use secure_sshlinux_client.Errors.{ok, >>=-eq-ok}
use secure_sshlinux_client.Validators.Principals.Nonempty.{nonempty_principals-eq-ok}
use secure_sshlinux_client.Validators.Principals.Hostnames.{lower-lower, matches_hostname-lower}
use secure_sshlinux_client.Validators.Principals.{
  matches_hostname, keep_hosts, nonempty_principals, validate_host_principals,
}

module _ (lib : Library) where
  -- An IP address, or a hostname in lower case.
  abbrev pub IsHost : Text → Type 0
  IsHost p = (lib.is_ip_address p ≡ true) ⊎ ((matches_hostname p ≡ true) × (lower p ≡ p))

  -- What the validator keeps of one requested principal: nothing of an empty one, an address as it
  -- stands, a hostname in lower case.
  pub host_values : Text → List Text
  host_values p =
      let value = strip p in
      if is_empty value
      then []
      else if lib.is_ip_address value
      then value ∷ []
      else lower value ∷ []

  pub all_values : List Text → List Text
  all_values [] = []
  all_values (p ∷ ps) = host_values p ++ all_values ps

  -- The requested principal is empty, an address or a hostname.
  abbrev pub IsAcceptable : Text → Type 0
  IsAcceptable p =
      (is_empty (strip p) || lib.is_ip_address (strip p) || matches_hostname (strip p)) ≡ true

  keep_hosts-cons :
      (normalized : List Text) (p : Text) (ps r : List Text)
      → keep_hosts lib normalized (p ∷ ps) ≡ ok r
      → IsAcceptable p × (keep_hosts lib (normalized ++ host_values p) ps ≡ ok r)
  unfolding keep_hosts host_values
  keep_hosts-cons normalized p ps r e = ground (arith, append-nil normalized)

  keep_hosts_sound :
      (normalized ps r : List Text)
      → keep_hosts lib normalized ps ≡ ok r
      → All IsAcceptable ps × (r ≡ normalized ++ all_values ps)
  unfolding all_values
  keep_hosts_sound normalized [] r e = (tt, rw append-nil (unfold keep_hosts in cc))
  keep_hosts_sound normalized (p ∷ ps) r e =
      let (good, e') = keep_hosts-cons normalized p ps r e in
      let (goods, same) = keep_hosts_sound (normalized ++ host_values p) ps r e' in
      ((good, goods), same ∙ append_assoc normalized (host_values p) (all_values ps))

  host_values-All : (p : Text) → IsAcceptable p → All IsHost (host_values p)
  unfolding host_values
  host_values-All p good = elim (Bool-cases (is_empty (strip p))) [
    | inl e ↦ rw e tt
    | inr e ↦ elim (Bool-cases (lib.is_ip_address (strip p))) [
      | inl a ↦ rw (e, a) (inl a, tt)
      | inr a ↦
          let name : matches_hostname (strip p) ≡ true = rw (e, a) at good in
          rw (e, a) (inr (rw (matches_hostname-lower, name) refl, lower-lower (strip p)), tt)
    ]
  ]

  all_values-All : (ps : List Text) → All IsAcceptable ps → All IsHost (all_values ps)
  unfolding all_values
  all_values-All [] h = tt
  all_values-All (p ∷ ps) (good, goods) =
      All-append IsHost (host_values p) (all_values ps) (host_values-All p good)
        (all_values-All ps goods)

  -- The principals of a host certificate are not none, none stands twice, each is an IP address or a
  -- hostname in lower case, and they are what the requested ones become when empty ones are dropped and
  -- hostnames are put into lower case; each requested one is empty, an address or a hostname.
  pub validate_host_principals_sound :
      (requested r : List Text)
      → validate_host_principals lib requested ≡ ok r
      → (r ≢ [])
        × Distinct r
        × All IsHost r
        × All IsAcceptable requested
        × ((x : Text) → contains r x ≡ contains (all_values requested) x)
  unfolding validate_host_principals
  validate_host_principals_sound requested r e =
      let (first, _, e') = >>=-eq-ok (nonempty_principals _ requested) _ e in
      let (kept, k, e'') = >>=-eq-ok (keep_hosts lib [] requested) _ e' in
      let (kept', n, e''') = >>=-eq-ok (nonempty_principals _ kept) _ e'' in
      let (goods, values) = keep_hosts_sound [] requested kept k in
      let (again, nonempty) = nonempty_principals-eq-ok _ kept kept' n in
      let kept_some : kept ≢ [] = λ h. nonempty (again ∙ h) in
      let keys : r ≡ from_keys [] kept = cc in
      let hosts : All IsHost kept = rw values (all_values-All requested goods) in
      (
        rw keys (from_keys-ne-nil [] kept kept_some),
        rw keys (from_keys-Distinct [] kept tt),
        rw keys (All-from_keys IsHost [] kept tt hosts),
        goods,
        λ x. rw (keys, contains-from_keys, values) (unfold contains in refl),
      )
