-- ===== src/Tests/Renewed.antt =====
-- The theorems on enrolments that go through and on renewals.
use secure_sshlinux_client.Base.{◌≡◌, refl, true, false, none, [], text_eq, dict_get}
use secure_sshlinux_client.Inspection.{finished}
use secure_sshlinux_client.Inspection.Listing.{listing}
use secure_sshlinux_client.Client.Keys.{Tools, public_key_path}
use secure_sshlinux_client.Client.Commands.{renew}
use secure_sshlinux_client.Client.Commands.Renewed.{outcome, is_early, renew_if_needed}
use secure_sshlinux_client.Tests.Inspection.{plain, plain-IsListing, plain-AreListed, strptime}
use secure_sshlinux_client.Tests.Bundle.{codec}
use secure_sshlinux_client.Tests.Commands.{paths, tools, offline, machine, old}

-- ssh-keygen lists the certificate.
abbrev listing_tools : Tools
listing_tools = record tools { list_file = λ text. finished true (listing plain) [] }

renew_if_needed_example :
    renew offline codec listing_tools paths strptime 7200000000 false true none none machine
    ≡ outcome offline codec listing_tools paths strptime 7200000000 none none
        (is_early 0 28800 7200000000)
        machine
unfolding dict_get text_eq public_key_path
renew_if_needed_example =
    renew_if_needed offline codec listing_tools paths strptime 7200000000 none none plain old [] 0
      28800 machine refl refl plain-IsListing plain-AreListed refl refl refl
