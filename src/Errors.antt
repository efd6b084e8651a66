-- ===== src/Errors.antt =====
-- The exceptions of the broker (app/utils/validators.py `api_error`, and the `HTTPException`s that
-- app/security/auth.py raises itself) as values, and functions that may raise.
use secure_sshlinux_client.Base.{ℕ, ◌≡◌, refl, subst, Bool, true, false, Text}

pub data CertType : Type 0 where
  user host : CertType

-- The values of `error_code`.
pub data ErrorCode : Type 0 where
  auth_required auth_invalid auth_forbidden : ErrorCode
  key_id_invalid public_key_invalid ttl_invalid ttl_too_large : ErrorCode
  principal_not_allowed principal_required principal_invalid : ErrorCode
  extension_unknown critical_option_unknown critical_option_invalid : ErrorCode
  profile_unknown profile_forbidden : ErrorCode
  ssh_keygen_not_found signing_failed certificate_missing cert_parse_failed : ErrorCode
  demo_keygen_failed : ErrorCode

-- The entry `details` of an error: missing, `None`, or the standard error of a command.
pub data Details : Type 0 where
  absent null : Details
  stderr : Text → Details

pub record HttpException : Type 0 where
  pub status_code : ℕ
  pub error_code : ErrorCode
  pub message : Text
  pub details : Details

-- What a function of the broker can raise: besides `HTTPException`, the errors of `int` on a text of
-- too many digits, of a division whose result no float can hold, of a missing key, and of a file
-- or a command that the system does not take.
pub data Exception : Type 0 where
  http_exception : HttpException → Exception
  value_error overflow_error key_error os_error : Exception

abbrev pub api_error : ℕ → ErrorCode → Text → Details → Exception
api_error status_code error_code message details = http_exception (record {
  status_code = status_code;
  error_code = error_code;
  message = message;
  details = details;
})

-- What a call of the program comes back with.
pub data Result {ℓ} (A : Type ℓ) : Type ℓ where
  raised : Exception → Result A
  ok : A → Result A

-- `if not test: raise e`
abbrev pub require : Bool → Exception → Result (Unit {0})
require false e = raised e
require true e = ok tt

module _ {ℓ κ} {X : Type ℓ} {Y : Type κ} where
  infixl 5 ◌>>=◌ ◌>>◌
  -- The statements after a call run unless it has raised.
  abbrev pub ◌>>=◌ : Result X → (X → Result Y) → Result Y
  raised e >>= next = raised e
  ok x >>= next = next x

  abbrev pub ◌>>◌ : Result X → Result Y → Result Y
  first >> second = first >>= λ _. second

  -- A chain that did not raise has a first call that returned, and a rest that did.
  pub >>=-eq-ok :
      (first : Result X) (next : X → Result Y) {y : Y}
      → (first >>= next) ≡ ok y
      → (x : X) × (first ≡ ok x) × (next x ≡ ok y)
  >>=-eq-ok (raised e) next h = cc
  >>=-eq-ok (ok x) next h = (x, refl, h)

pub require-eq-ok : (b : Bool) (e : Exception) {u : Unit {0}} → require b e ≡ ok u → b ≡ true
require-eq-ok true e h = refl
require-eq-ok false e h = cc

-- The call raised an `HTTPException` with this `error_code`.
abbrev pub Raises {ℓ} : {A : Type ℓ} → ErrorCode → Result A → Type 0
Raises code (ok a) = ⊥
Raises code (raised (http_exception e)) = e.error_code ≡ code
Raises code (raised value_error) = ⊥
Raises code (raised overflow_error) = ⊥
Raises code (raised os_error) = ⊥
Raises code (raised key_error) = ⊥

-- An error passes through the rest of a chain.
pub Raises->>= {ℓ κ} :
    {A : Type ℓ} {B : Type κ} (code : ErrorCode) (m : Result A) (f : A → Result B)
    → Raises code m
    → Raises code (m >>= f)
Raises->>= code (raised (http_exception e)) f h = h
Raises->>= code (raised value_error) f h = h
Raises->>= code (raised overflow_error) f h = h
Raises->>= code (raised os_error) f h = h
Raises->>= code (raised key_error) f h = h
Raises->>= code (ok a) f h = absurd h

pub ok-injective {ℓ} : {A : Type ℓ} {a b : A} → ok a ≡ ok b → a ≡ b
ok-injective h = cc

-- Whatever the call returns has the property. A record, so that the rules below find their arguments.
pub record Ensures {ℓ κ} {A : Type ℓ} (P : A → Type κ) (r : Result A) : Type (ℓ ⊔ κ) where
  pub holds : (a : A) → r ≡ ok a → P a

pub Ensures-ok {ℓ κ} : {A : Type ℓ} {P : A → Type κ} {a : A} → P a → Ensures P (ok a)
Ensures-ok {P} h = record { holds = λ b e. subst P (ok-injective e) h }

pub Ensures-bind {ℓ κ μ} :
    {A : Type ℓ} {B : Type κ} {P : B → Type μ} (m : Result A) {f : A → Result B}
    → ((a : A) → m ≡ ok a → Ensures P (f a))
    → Ensures P (m >>= f)
Ensures-bind m {f} h = record {
  holds = λ b e. let (a, g, e') = >>=-eq-ok m f e in (h a g).holds b e';
}
