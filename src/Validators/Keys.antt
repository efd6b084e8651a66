-- ===== src/Validators/Keys.antt =====
-- `validate_key_id` and `validate_ssh_public_key`.
pub mod Laws
use secure_sshlinux_client.Base.{
  ℕ, Bool, ◌&&◌, ◌||◌, List, [], ◌∷◌, ◌++◌, leb, ltb, ◌==◌, all, length, Text, codes, contains,
  strip, words, text_eq,
}
use secure_sshlinux_client.Environment.{Library}
use secure_sshlinux_client.Errors.{
  Result, ok, raised, ◌>>=◌, ◌>>◌, require, Exception, api_error, null, key_id_invalid,
  public_key_invalid,
}

abbrev pub is_alphanumeric : ℕ → Bool
is_alphanumeric c =
    (leb b'A' c && leb c b'Z') || (leb b'a' c && leb c b'z') || (leb b'0' c && leb c b'9')

-- `[A-Za-z0-9._:@/-]`
unfoldable pub is_key_id_char : ℕ → Bool
is_key_id_char c =
    is_alphanumeric c
    || (c == b'.')
    || (c == b'_')
    || (c == b':')
    || (c == b'@')
    || (c == b'/')
    || (c == b'-')

-- `KEY_ID_PATTERN.fullmatch`
unfoldable pub matches_key_id : Text → Bool
matches_key_id s = leb 1 (length s) && leb (length s) 128 && all is_key_id_char s

unfoldable pub validate_key_id : Text → Result Text
validate_key_id key_id = do
  require (matches_key_id key_id)
      (api_error 422 key_id_invalid (codes "key_id contains unsupported characters") null)
  ok key_id

abbrev pub ssh_key_types : List Text
ssh_key_types =
    codes "ssh-ed25519"
    ∷ codes "ssh-rsa"
    ∷ codes "ecdsa-sha2-nistp256"
    ∷ codes "ecdsa-sha2-nistp384"
    ∷ codes "ecdsa-sha2-nistp521"
    ∷ []

abbrev pub public_key_error : Text → Exception
public_key_error message = api_error 422 public_key_invalid message null

-- `s.encode("ascii")` does not raise.
abbrev pub is_ascii : Text → Bool
is_ascii = all (λ c. ltb c 128)

module _ (lib : Library) where
  -- The checks on the key type and on the base64 payload.
  unfoldable pub check_key_parts : Text → Text → Result (Unit {0})
  check_key_parts key_type key_material = do
    require (contains ssh_key_types key_type)
        (public_key_error (codes "Unsupported key type: " ++ key_type))
    require (is_ascii key_material && lib.is_base64 key_material)
        (public_key_error (codes "public_key base64 payload is invalid"))

  -- Two or three parts are wanted.
  unfoldable pub check_key_line : List Text → Result (Unit {0})
  check_key_line (key_type ∷ key_material ∷ []) = check_key_parts key_type key_material
  check_key_line (key_type ∷ key_material ∷ comment ∷ []) = check_key_parts key_type key_material
  check_key_line _ =
      raised (public_key_error (codes "public_key must be a valid OpenSSH public key line"))

  unfoldable pub validate_ssh_public_key : Text → Result Text
  validate_ssh_public_key public_key = do
    check_key_line (words (strip public_key))
    ok (strip public_key)
