-- ===== src/Validators/Options/Laws.antt =====
-- What the validators of extensions, source addresses and critical options accept and return.
use secure_sshlinux_client.Base.{
  ◌≡◌, ◌≢◌, ◌↔◌, refl, subst, true, ◌||◌, List, [], ◌∷◌, map, arith, is_empty, All, All-map, Text,
  contains, append_new, from_keys, from_keys-Distinct, All-from_keys, contains-from_keys, Distinct,
  strip, split_on, Dict, dict_set, keys, All-dict_set, All-keys-entries,
}
use secure_sshlinux_client.Environment.{Library}
use secure_sshlinux_client.Errors.{ok}
use secure_sshlinux_client.Profiles.Resolve.{IsKnownExtension, IsKnownKey}
use secure_sshlinux_client.Validators.Options.{
  keep_extensions, validate_extensions, is_address_part, check_address_parts, check_source_address,
  check_option, keep_options, validate_critical_options,
}

keep_extensions-cons :
    (normalized : List Text) (item : Text) (items r : List Text)
    → (keep_extensions normalized (item ∷ items) ≡ ok r) ↔ (
        IsKnownExtension (strip item)
        × (keep_extensions (append_new normalized (strip item)) items ≡ ok r))
unfolding keep_extensions
keep_extensions-cons normalized item items r = ground arith

keep_extensions_iff :
    (normalized items r : List Text)
    → (keep_extensions normalized items ≡ ok r)
      ↔ (All IsKnownExtension (map strip items) × (r ≡ from_keys normalized (map strip items)))
unfolding keep_extensions from_keys
keep_extensions_iff normalized [] r = ground arith
keep_extensions_iff normalized (item ∷ items) r = ground (
  arith,
  keep_extensions-cons normalized item items r,
  keep_extensions_iff (append_new normalized (strip item)) items r,
)

-- The extensions that `validate_extensions` returns are known ones, none stands twice, and they are
-- exactly the requested ones without white space at their ends.
pub validate_extensions_sound :
    (extensions r : List Text)
    → validate_extensions extensions ≡ ok r
    → All IsKnownExtension r
      × Distinct r
      × ((x : Text) → contains r x ≡ contains (map strip extensions) x)
unfolding validate_extensions
validate_extensions_sound extensions r e =
    let (known, keys) = (keep_extensions_iff [] extensions r).0 e in
    (
      rw keys (All-from_keys IsKnownExtension [] _ tt known),
      rw keys (from_keys-Distinct [] _ tt),
      λ x. rw (keys, contains-from_keys) (unfold contains in refl),
    )

module _ (lib : Library) where
  -- One part of a source address: nothing but white space, an address, or a network.
  abbrev pub IsAddressPart : Text → Type 0
  IsAddressPart item = (is_empty (strip item) || is_address_part lib (strip item)) ≡ true

  check_address_parts_iff :
      (items : List Text) → (check_address_parts lib items ≡ ok tt) ↔ All IsAddressPart items
  unfolding check_address_parts
  check_address_parts_iff [] = ((λ _. tt), (λ _. refl))
  check_address_parts_iff (item ∷ items) = ground (arith, check_address_parts_iff items)

  -- A source address is accepted exactly where it is not blank and each of its parts between commas
  -- is blank, an address or a network. (So a text of commas alone is accepted.)
  pub check_source_address_iff :
      (value : Text)
      → (check_source_address lib value ≡ ok tt)
        ↔ ((strip value ≢ []) × All IsAddressPart (split_on b',' value))
  unfolding check_source_address
  check_source_address_iff value = ground (arith, check_address_parts_iff (split_on b',' value))

  -- A validated critical option: a known key, and the stripped form of a value that passed the check
  -- for that key.
  abbrev pub IsValidOption : Text → Text → Type 0
  IsValidOption key value =
      IsKnownKey key × ((raw : Text) × (value ≡ strip raw) × (check_option lib key raw ≡ ok tt))

  keep_options-cons :
      (validated : Dict Text) (k v : Text) (options r : Dict Text)
      → keep_options lib validated ((k, v) ∷ options) ≡ ok r
      → IsKnownKey (strip k)
        × (check_option lib (strip k) v ≡ ok tt)
        × (keep_options lib (dict_set validated (strip k) (strip v)) options ≡ ok r)
  unfolding keep_options
  keep_options-cons validated k v options r e = ground arith

  keep_options-nil :
      (validated r : Dict Text) → keep_options lib validated [] ≡ ok r → validated ≡ r
  unfolding keep_options
  keep_options-nil validated r e = cc

  keep_options_sound :
      (validated options r : Dict Text)
      → All (λ e. IsValidOption e.0 e.1) validated
      → keep_options lib validated options ≡ ok r
      → All (λ e. IsValidOption e.0 e.1) r
  keep_options_sound validated [] r h e =
      subst (All (λ e'. IsValidOption e'.0 e'.1)) (keep_options-nil validated r e) h
  keep_options_sound validated ((k, v) ∷ options) r h e =
      let (known, checked, e') = keep_options-cons validated k v options r e in
      keep_options_sound (dict_set validated (strip k) (strip v)) options r
        (All-dict_set IsValidOption validated (strip k) (strip v) h (known, (v, refl, checked))) e'

  -- Every critical option that `validate_critical_options` returns has a known key, and a value that
  -- passed the check for that key before it was stripped.
  pub validate_critical_options_sound :
      (options r : Dict Text)
      → validate_critical_options lib options ≡ ok r
      → All (λ e. IsValidOption e.0 e.1) r
  unfolding validate_critical_options
  validate_critical_options_sound options r e = keep_options_sound [] options r tt e

  pub validate_critical_options-IsKnownKey :
      (options r : Dict Text)
      → validate_critical_options lib options ≡ ok r
      → All IsKnownKey (keys r)
  validate_critical_options-IsKnownKey options r e =
      All-keys-entries IsKnownKey r
        (All-map (λ a h. h.0) r (validate_critical_options_sound options r e))
