-- ===== src/Client/KnownHosts.antt =====
-- `install_host_ca` of src/zfcssh_client/certificates.py: the managed part of the file known_hosts.
pub mod Laws
pub mod Layout
pub mod Install
use secure_sshlinux_client.Base.{
  Bool, true, false, not, Option, none, some, List, [], ◌∷◌, ◌++◌, map, is_empty, if◌then◌else◌,
  Text, codes, text_eq, strip, rstrip, join, splitlines,
}

abbrev pub managed_known_hosts_begin : Text
managed_known_hosts_begin = codes "# >>> zfcssh managed host ca >>>"

abbrev pub managed_known_hosts_end : Text
managed_known_hosts_end = codes "# <<< zfcssh managed host ca <<<"

-- `f"@cert-authority {pattern} {public_key.strip()}"`
unfoldable pub authority_line : Text → Text → Text
authority_line public_key pattern =
    codes "@cert-authority " ++ (pattern ++ (codes " " ++ strip public_key))

unfoldable pub managed_lines : List Text → Text → List Text
managed_lines host_patterns public_key =
    managed_known_hosts_begin
    ∷ (map (authority_line public_key) host_patterns ++ managed_known_hosts_end ∷ [])

-- `read_text(...).splitlines()`, where the file is there.
unfoldable pub lines_of : Option Text → List Text
lines_of none = []
lines_of (some text) = splitlines text

-- The loop over the existing lines; the flag is `skip`.
unfoldable pub unmanaged : Bool → List Text → List Text
unmanaged skip [] = []
unmanaged skip (line ∷ lines) =
    let skipped = unmanaged true lines in
    let resumed = unmanaged false lines in
    let same = unmanaged skip lines in
    if text_eq line managed_known_hosts_begin
    then skipped
    else if text_eq line managed_known_hosts_end
    then resumed
    else if skip
    then same
    else line ∷ same

-- `output_lines and output_lines[-1] != ""`
unfoldable pub ends_nonblank : List Text → Bool
ends_nonblank [] = false
ends_nonblank (line ∷ []) = not (is_empty line)
ends_nonblank (line ∷ next ∷ lines) = ends_nonblank (next ∷ lines)

-- `if ...: output_lines.append("")`
unfoldable pub with_blank : List Text → List Text
with_blank lines = if ends_nonblank lines then lines ++ [] ∷ [] else lines

unfoldable pub output_lines : List Text → Text → List Text → List Text
output_lines host_patterns public_key existing =
    with_blank (unmanaged false existing) ++ managed_lines host_patterns public_key

-- What the call writes to the file of the host CA and to known_hosts.
unfoldable pub install_host_ca : List Text → Text → Option Text → Text × Text
install_host_ca host_patterns public_key known_hosts = (
  strip public_key ++ codes "\n",
  rstrip (join (codes "\n") (output_lines host_patterns public_key (lines_of known_hosts)))
      ++ codes "\n",
)
