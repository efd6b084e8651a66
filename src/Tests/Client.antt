-- ===== src/Tests/Client.antt =====
-- The theorems on the client.
use secure_sshlinux_client.Profiles.{builtin_profiles}
use secure_sshlinux_client.Client.Lifetimes.Accepted.{IsServed, default_ttl_for_profile-accepted}
use secure_sshlinux_client.Base.{contains, text_eq, keys, pos, arith, true}
use secure_sshlinux_client.Base.{
  ◌≡◌, refl, Option, some, List, [], ◌∷◌, ◌++◌, ◌⊎◌, map, All, Text, codes, strip, splitlines,
  IsLine, is_line_break,
}
use secure_sshlinux_client.Client.KnownHosts.{
  managed_known_hosts_begin, managed_known_hosts_end, authority_line, lines_of, install_host_ca,
}
use secure_sshlinux_client.Client.KnownHosts.Laws.{IsUnmanaged}
use secure_sshlinux_client.Client.KnownHosts.Layout.{file_lines, free_lines}
use secure_sshlinux_client.Client.KnownHosts.Install.{install_host_ca_keeps, install_host_ca_twice}

abbrev patterns : List Text
patterns = codes "*.example" ∷ codes "10.*" ∷ []

abbrev key : Text
key = codes "ssh-ed25519 AAAA\n"

-- A line of the user, and an old managed part.
abbrev file : Option Text
file = some (
    codes
      "web ssh-rsa BBBB\n# >>> zfcssh managed host ca >>>\n@cert-authority * old\n# <<< zfcssh managed host ca <<<\n")

patterns-IsLine : All IsLine patterns
unfolding is_line_break
patterns-IsLine = (assumption refl, (assumption refl, tt))

key-IsLine : IsLine (strip key)
unfolding strip is_line_break
key-IsLine = assumption refl

abbrev own : List Text
own = codes "web ssh-rsa BBBB" ∷ []

abbrev old : List Text
old = codes "@cert-authority * old" ∷ []

own-IsUnmanaged : All IsUnmanaged own
unfolding text_eq
own-IsUnmanaged = ((refl, refl), tt)

old-IsUnmanaged : All IsUnmanaged old
unfolding text_eq
old-IsUnmanaged = ((refl, refl), tt)

file-laid_out : lines_of file ≡ file_lines ((own, old) ∷ []) []
unfolding lines_of file_lines splitlines
file-laid_out = refl

install_host_ca_keeps_example :
    (blank : List Text) × ((blank ≡ []) ⊎ (blank ≡ [] ∷ []))
    × (splitlines (install_host_ca patterns key file).1
        ≡ free_lines ((own, old) ∷ []) []
          ++ (blank
              ++ (managed_known_hosts_begin
                  ∷ (map (authority_line key) patterns ++ managed_known_hosts_end ∷ []))))
install_host_ca_keeps_example =
    install_host_ca_keeps patterns key file ((own, old) ∷ []) [] file-laid_out
      ((own-IsUnmanaged, old-IsUnmanaged), tt) tt patterns-IsLine key-IsLine

install_host_ca_twice_example :
    install_host_ca patterns key (some (install_host_ca patterns key file).1)
    ≡ install_host_ca patterns key file
install_host_ca_twice_example = install_host_ca_twice patterns key file patterns-IsLine key-IsLine

development_listed : contains (keys builtin_profiles) (codes "development") ≡ true
unfolding contains text_eq
development_listed = refl

default_ttl_for_profile-accepted_example : IsServed (pos 8) 24 (codes "development")
default_ttl_for_profile-accepted_example =
    default_ttl_for_profile-accepted (pos 8) 24 (codes "development") (omega arith)
      development_listed
