-- ===== src/Signing/Command.antt =====
-- Reading the command line of `_run_ssh_keygen` back, as ssh-keygen's option parser would.
use secure_sshlinux_client.Base.{
  ◌≡◌, ◌≢◌, refl, inl, inr, Bool-cases, Option, none, some, List, [], ◌∷◌, ◌++◌, if◌then◌else◌,
  is_empty, drop, All, All-contains, Text, codes, text_eq, split_on, strip, join, show_ℕ, Lacks,
  split_on-All, split_on-join, strip-Lacks,
}
use secure_sshlinux_client.Settings.{Settings, strip_items, user_allowed_principal_list}
use secure_sshlinux_client.Validators.Principals.User.{IsAllowed}
use secure_sshlinux_client.Signing.{World, SignArguments, ca_private_key, keygen_command}

-- The argument of an option, where every option before it takes one argument.
unfoldable pub option_value : Text → List Text → Option Text
option_value name [] = none
option_value name (o ∷ []) = none
option_value name (o ∷ value ∷ rest) =
    let later = option_value name rest in if text_eq o name then some value else later

-- The names in the argument of `-n`.
unfoldable pub certified_principals : List Text → Option (List Text)
certified_principals command = elim (option_value (codes "-n") (drop 1 command)) [
  | none ↦ none
  | some names ↦ some (split_on b',' names)
]

strip_items-Lacks :
    (items : List Text) → All (Lacks b',') items → All (Lacks b',') (strip_items items)
unfolding strip_items
strip_items-Lacks [] h = tt
strip_items-Lacks (item ∷ items) (h, hs) = elim (Bool-cases (is_empty (strip item))) [
  | inl e ↦ rw e (strip_items-Lacks items hs)
  | inr e ↦ rw e (strip-Lacks b',' item h, strip_items-Lacks items hs)
]

allowed-Lacks : (settings : Settings) → All (Lacks b',') (user_allowed_principal_list settings)
unfolding user_allowed_principal_list
allowed-Lacks settings = strip_items-Lacks _ (split_on-All b',' settings.user_allowed_principals)

all_allowed-Lacks :
    (settings : Settings) (ps : List Text)
    → All (IsAllowed (user_allowed_principal_list settings)) ps
    → All (Lacks b',') ps
all_allowed-Lacks settings [] h = tt
all_allowed-Lacks settings (p ∷ ps) (h, hs) =
    (All-contains (Lacks b',') _ p (allowed-Lacks settings) h, all_allowed-Lacks settings ps hs)

-- The options that a command line carries.
abbrev pub Carries : World → Settings → SignArguments → List Text → Type 0
Carries world settings args command =
    (option_value (codes "-s") (drop 1 command) ≡ some (ca_private_key args.cert_type settings))
    × (option_value (codes "-I") (drop 1 command) ≡ some args.key_id)
    × (option_value (codes "-V") (drop 1 command) ≡ some (codes "+" ++ args.ttl))
    × (option_value (codes "-z") (drop 1 command) ≡ some (show_ℕ world.serial))

-- The command line for principals that the settings allow names exactly these principals, in their
-- order: no principal can smuggle in another one through the list that ssh-keygen splits at commas.
-- It signs with the CA key of the kind of certificate, for the given key id, lifetime and serial.
pub keygen_command_certifies :
    (world : World) (settings : Settings) (args : SignArguments)
    → All (IsAllowed (user_allowed_principal_list settings)) args.principals
    → args.principals ≢ []
    → (certified_principals (keygen_command world settings args) ≡ some args.principals)
      × Carries world settings args (keygen_command world settings args)
unfolding keygen_command certified_principals option_value text_eq
keygen_command_certifies world settings args h nonempty = (
  rw (names args.principals (all_allowed-Lacks settings args.principals h) nonempty) refl,
  (refl, refl, refl, refl),
)
  where
    names :
        (ps : List Text) → All (Lacks b',') ps → ps ≢ [] → split_on b',' (join (codes ",") ps) ≡ ps
    names [] g e = absurd (e refl)
    names (p ∷ ps) g e = split_on-join b',' p ps g
