-- ===== src/Environment.antt =====
-- What the program calls and does not implement: the parsers of Python's `ipaddress`, `base64` and
-- `urllib.parse`, as an argument of the definitions that use them. No theorem needs a law of them
-- beyond those that it names.
use secure_sshlinux_client.Base.{ℕ, Bool, Option, Text}

-- The parts of `urlparse(url)` that the program reads; `hostname` may be `None`.
pub record ParsedUrl : Type 0 where
  pub scheme : Text
  pub netloc : Text
  pub hostname : Option Text

pub record Library : Type 0 where
  -- `ipaddress.ip_address(s)` returns rather than raises.
  pub is_ip_address : Text → Bool
  -- `ipaddress.ip_network(s, strict=False)` returns rather than raises.
  pub is_ip_network : Text → Bool
  -- `base64.b64decode(s, validate=True)` of an ASCII text returns rather than raises.
  pub is_base64 : Text → Bool
  -- `none` where `urlparse(url)` or the reading of its `hostname` raises `ValueError`.
  pub urlparse : Text → Option ParsedUrl
  -- `c.isdigit()` of one code point.
  pub is_digit : ℕ → Bool
