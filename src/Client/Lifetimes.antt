-- ===== src/Client/Lifetimes.antt =====
-- src/zfcssh_client/profiles.py: the lifetime that the client asks for under a profile.
pub mod Accepted
use secure_sshlinux_client.Base.{Option, List, [], ◌∷◌, Text, codes, Dict, dict_get}

abbrev pub profile_ttls : Dict Text
profile_ttls =
    (codes "development", codes "12h")
    ∷ (codes "zf_production", codes "4h")
    ∷ (codes "oem_production", codes "4h")
    ∷ (codes "field_operation", codes "8h")
    ∷ (codes "claims_warranty", codes "2h")
    ∷ (codes "end_of_life", codes "1h")
    ∷ []

unfoldable pub default_ttl_for_profile : Text → Option Text
default_ttl_for_profile profile = dict_get profile_ttls profile
