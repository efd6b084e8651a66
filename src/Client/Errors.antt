-- ===== src/Client/Errors.antt =====
-- What a call of the client comes back with: a value, or an exception. The first four are those that
-- `main` of src/zfcssh_client/cli.py reports; the others end in a traceback.
use secure_sshlinux_client.Base.{◌≡◌, refl, Text}

pub data ClientError : Type 0 where
  bundle_error broker_error certificate_error : (message : Text) → ClientError
  file_not_found : (path : Text) → ClientError
  -- `json.loads` on a file, `strptime`, `bytes.decode` or `urlparse`.
  json_error time_error unicode_error url_error : ClientError
  -- TLS material that the library does not take, and a connection that breaks while it is read.
  ssl_error connection_error : ClientError
  -- Another `ValueError` or `OSError`, of a file that cannot be written or of a command.
  value_error os_error : ClientError
  -- A missing key of a dictionary.
  missing_key : (key : Text) → ClientError
  -- A value of another JSON type than the code takes it for.
  type_error : ClientError

pub data Answer {ℓ} (A : Type ℓ) : Type ℓ where
  failed : ClientError → Answer A
  returned : A → Answer A

-- Whatever comes back satisfies a predicate.
abbrev pub Gives {ℓ} : {Y : Type ℓ} → (Y → Type 0) → Answer Y → Type 0
Gives P (failed e) = Unit
Gives P (returned y) = P y

module _ {ℓ κ} {X : Type ℓ} {Y : Type κ} where
  infixl 5 ◌>>=◌
  abbrev pub ◌>>=◌ : Answer X → (X → Answer Y) → Answer Y
  failed e >>= next = failed e
  returned x >>= next = next x

  pub >>=-eq-returned :
      (first : Answer X) (next : X → Answer Y) {y : Y}
      → (first >>= next) ≡ returned y
      → (x : X) × (first ≡ returned x) × (next x ≡ returned y)
  >>=-eq-returned (failed e) next h = cc
  >>=-eq-returned (returned x) next h = (x, refl, h)

  pub >>=-Gives :
      (P : Y → Type 0) (first : Answer X) (next : X → Answer Y)
      → ((x : X) → Gives P (next x))
      → Gives P (first >>= next)
  >>=-Gives P (failed e) next h = tt
  >>=-Gives P (returned x) next h = h x
