-- ===== src/Tests/Auth.antt =====
-- The theorems on authentication.
use secure_sshlinux_client.Base.{dict_get}
use secure_sshlinux_client.Auth.{find_role}
use secure_sshlinux_client.Settings.{token_map}
use secure_sshlinux_client.Auth.{token_of_header}
use secure_sshlinux_client.Base.{text_eq}
use secure_sshlinux_client.Settings.{drop_empty}
use secure_sshlinux_client.Base.{starts_with}
use secure_sshlinux_client.Base.{◌≡◌, ◌≢◌, refl, Option, some, [], Text, codes, strip}
use secure_sshlinux_client.Errors.{ok}
use secure_sshlinux_client.Auth.{AuthContext, bearer_token, require_auth}
use secure_sshlinux_client.Auth.Laws.{configured, require_auth_sound, require_auth-configured}
use secure_sshlinux_client.Tests.Data.{settings}

abbrev header : Option Text
header = some (codes "Bearer  tokdev ")

abbrev developer : AuthContext
developer = record { role = codes "dev"; token_hint = codes "dev:tokdev" }

developer_ok : require_auth header settings ≡ ok developer
unfolding require_auth bearer_token token_of_header starts_with strip find_role token_map drop_empty
    text_eq
developer_ok = refl

require_auth_sound_example :
    (token : Text) × (bearer_token header ≡ ok token)
    × (configured settings developer.role ≡ some token)
    × (token ≢ [])
require_auth_sound_example = require_auth_sound header settings developer developer_ok

abbrev oem : AuthContext
oem = record { role = codes "OEMprod"; token_hint = codes "OEMprod:tok" }

oem_configured : configured settings oem.role ≡ some (codes " tok")
unfolding text_eq dict_get
oem_configured = refl

oem_token-strip : strip (codes " tok") ≡ codes "tok"
unfolding strip
oem_token-strip = refl

require_auth-configured_example : require_auth (some (codes "Bearer  tok")) settings ≢ ok oem
require_auth-configured_example =
    require_auth-configured (some (codes "Bearer  tok")) settings oem (codes " tok") oem_configured
      (λ h. cc (h, oem_token-strip))
