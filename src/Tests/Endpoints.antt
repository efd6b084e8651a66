-- ===== src/Tests/Endpoints.antt =====
-- The theorems on the replies of the endpoints.
use secure_sshlinux_client.Base.{◌≡◌, refl, true, none, some, [], codes}
use secure_sshlinux_client.Errors.{auth_required}
use secure_sshlinux_client.Auth.{unauthorized, require_auth, bearer_token}
use secure_sshlinux_client.Signing.{exited}
use secure_sshlinux_client.Inspection.{finished}
use secure_sshlinux_client.Routes.{Broker}
use secure_sshlinux_client.Replies.{error_response}
use secure_sshlinux_client.Endpoints.{Surroundings, get_host_ca, respond}
use secure_sshlinux_client.Endpoints.Refused.{respond-rejected}
use secure_sshlinux_client.Tests.Data.{lib, settings, key_hash, world}

-- Every file holds a key, and ssh-keygen makes one.
abbrev pub around : Surroundings
around = record {
  now = codes "2024";
  read_text = λ path. some (codes "ssh-ed25519 AAAA\n");
  demo_keygen = λ command. exited true [] (some (codes "ssh-ed25519 BBBB\n"));
  demo_dir = codes "/tmp/y";
  list_file = λ text. finished true [] [];
}

abbrev pub broker : Broker
broker = record { store = []; audit_log = [] }

respond-rejected_example :
    respond lib key_hash world around settings none get_host_ca broker
    ≡ (error_response (unauthorized auth_required (codes "Missing Authorization header")), broker)
unfolding require_auth bearer_token
respond-rejected_example =
    respond-rejected lib key_hash world around settings none get_host_ca broker
      (unauthorized auth_required (codes "Missing Authorization header")) tt refl
