-- ===== src/Endpoints/Refused.antt =====
-- The replies of the endpoints to a request without an accepted token.
use secure_sshlinux_client.Base.{◌≡◌, refl, Option, Text}
use secure_sshlinux_client.Environment.{Library}
use secure_sshlinux_client.Errors.{Exception, raised}
use secure_sshlinux_client.Settings.{Settings}
use secure_sshlinux_client.Auth.{require_auth}
use secure_sshlinux_client.Store.{HashPayload}
use secure_sshlinux_client.Signing.{World}
use secure_sshlinux_client.Routes.{Broker, authorized, post_sign_user, post_sign_host}
use secure_sshlinux_client.Replies.{error_response, reply}
use secure_sshlinux_client.Endpoints.{
  Surroundings, Call, healthz, get_version, get_bootstrap, get_user_ca, get_host_ca, demo_user,
  demo_host, sign_user_call, sign_host_call, inspect_call, respond,
}

-- The endpoint depends on `require_auth`.
abbrev pub NeedsToken : Call → Type 0
NeedsToken healthz = ⊥
NeedsToken get_version = Unit
NeedsToken get_bootstrap = Unit
NeedsToken get_user_ca = Unit
NeedsToken get_host_ca = Unit
NeedsToken demo_user = Unit
NeedsToken demo_host = Unit
NeedsToken (sign_user_call payload) = Unit
NeedsToken (sign_host_call payload) = Unit
NeedsToken (inspect_call payload) = Unit

module _ (lib : Library) (build_hash : HashPayload → Text) (world : World) (around : Surroundings)
    (settings : Settings) where
  -- A header that `require_auth` rejects gets the error's reply from every endpoint but `/healthz`, and
  -- neither the table of signed requests nor the audit log changes.
  pub respond-rejected :
      (authorization : Option Text) (call : Call) (broker : Broker) (e : Exception)
      → NeedsToken call
      → require_auth authorization settings ≡ raised e
      → respond lib build_hash world around settings authorization call broker
        ≡ (error_response e, broker)
  unfolding respond reply post_sign_user post_sign_host authorized
  respond-rejected authorization healthz broker e n h = absurd n
  respond-rejected authorization get_version broker e n h = rw h refl
  respond-rejected authorization get_bootstrap broker e n h = rw h refl
  respond-rejected authorization get_user_ca broker e n h = rw h refl
  respond-rejected authorization get_host_ca broker e n h = rw h refl
  respond-rejected authorization demo_user broker e n h = rw h refl
  respond-rejected authorization demo_host broker e n h = rw h refl
  respond-rejected authorization (sign_user_call payload) broker e n h = rw h refl
  respond-rejected authorization (sign_host_call payload) broker e n h = rw h refl
  respond-rejected authorization (inspect_call payload) broker e n h = rw h refl
