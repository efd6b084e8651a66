-- ===== src/Client/Files.antt =====
-- The files of the client, and its paths (src/zfcssh_client/paths.py). A path is its text.
pub mod Laws
use secure_sshlinux_client.Base.{
  ℕ, ◌+◌, ◌*◌, ◌==◌, Bool, true, false, Option, none, some, List, [], ◌∷◌, ◌++◌, if◌then◌else◌,
  Text, codes, text_eq, Dict, dict_get, dict_set,
}
use secure_sshlinux_client.Client.Errors.{
  ClientError, Answer, failed, returned, file_not_found, unicode_error,
}

-- A file: its text, the mode that `chmod` last gave it, `none` for the mode of a new file, and
-- whether its bytes are UTF-8.
pub record File : Type 0 where
  pub content : Text
  pub mode : Option ℕ
  pub is_utf8 : Bool

-- How the system carries out a write: in full, or with an exception, which leaves the file as it was
-- (`none`) or cut short.
pub data WriteEnd : Type 0 where
  written : WriteEnd
  broken : ClientError → Option File → WriteEnd

-- The regular files by their paths.
abbrev pub Files : Type 0
Files = Dict File

-- `path.is_file()`
abbrev pub has_file : Option File → Bool
has_file none = false
has_file (some f) = true

abbrev pub is_file : Files → Text → Bool
is_file files path = has_file (dict_get files path)

starts_line_feed : Text → Bool
starts_line_feed [] = false
starts_line_feed (c ∷ s) = c == 10

-- What reading in text mode makes of the line ends: CR LF and CR become LF.
unfoldable pub universal_newlines : Text → Text
unfolding starts_line_feed
universal_newlines [] = []
universal_newlines (c ∷ s) =
    let rest = universal_newlines s in
    if c == 13 then (if starts_line_feed s then rest else 10 ∷ rest) else c ∷ rest

unfoldable pub text_of : File → Answer Text
text_of f = if f.is_utf8 then returned (universal_newlines f.content) else failed unicode_error

unfoldable pub content_of : Text → Option File → Answer Text
content_of path none = failed (file_not_found path)
content_of path (some f) = text_of f

-- `path.read_text(encoding="utf-8")`
unfoldable pub read_text : Files → Text → Answer Text
read_text files path = content_of path (dict_get files path)

abbrev mode_of : Option File → Option ℕ
mode_of none = none
mode_of (some f) = f.mode

unfoldable pub end_write : Text → Text → Files → WriteEnd → Answer (Unit {0}) × Files
end_write path content files written = (
  returned tt,
  dict_set files path
      (record { content = content; mode = mode_of (dict_get files path); is_utf8 = true }),
)
end_write path content files (broken e none) = (failed e, files)
end_write path content files (broken e (some left)) = (failed e, dict_set files path left)

-- `path.write_text(content, encoding="utf-8")`, as the system carries it out: the mode of an old file
-- stays.
unfoldable pub write_text :
    (Text → Text → WriteEnd) → Text → Text → Files → Answer (Unit {0}) × Files
write_text write path content files = end_write path content files (write path content)

-- The next statement runs unless the one before it has raised.
unfoldable pub next_step :
    (Files → Answer (Unit {0}) × Files) → Answer (Unit {0}) × Files → Answer (Unit {0}) × Files
next_step step (failed e, files) = (failed e, files)
next_step step (returned u, files) = step files

unfoldable pub set_mode : Text → ℕ → Option File → Files → Files
set_mode path mode none files = files
set_mode path mode (some f) files =
    dict_set files path (record { content = f.content; mode = some mode; is_utf8 = f.is_utf8 })

-- `path.chmod(mode)` of a file that is there.
unfoldable pub chmod : Text → ℕ → Files → Files
chmod path mode files = set_mode path mode (dict_get files path) files

-- `path.unlink()`
unfoldable pub unlink : Text → Files → Files
unlink path [] = []
unlink path ((p, f) ∷ files) =
    let rest = unlink path files in if text_eq p path then rest else (p, f) ∷ rest

-- `0o600` and `0o644`
abbrev pub owner_only : ℕ
owner_only = 6 * 64

abbrev pub world_readable : ℕ
world_readable = 6 * 64 + (4 * 8 + 4)

-- `path.write_text(content, encoding="utf-8")` and `path.chmod(mode)`
unfoldable pub write_with_mode :
    (Text → Text → WriteEnd) → Text → Text → ℕ → Files → Answer (Unit {0}) × Files
write_with_mode write path content mode files =
    next_step (λ now. (returned tt, chmod path mode now)) (write_text write path content files)

pub record ClientPaths : Type 0 where
  pub config_dir : Text
  pub mtls_dir : Text
  pub state_dir : Text
  pub ssh_dir : Text
  pub bundle_metadata_path : Text
  pub client_certificate_path : Text
  pub client_key_path : Text
  pub ca_certificate_path : Text
  pub user_key_path : Text
  pub user_cert_path : Text
  pub host_ca_path : Text
  pub known_hosts_path : Text
  pub log_path : Text

-- `default_paths`; the home directory is not the root.
abbrev pub default_paths : Text → ClientPaths
default_paths home = record {
  config_dir = home ++ codes "/.config/zfcssh";
  mtls_dir = home ++ codes "/.config/zfcssh/mtls";
  state_dir = home ++ codes "/.local/state/zfcssh";
  ssh_dir = home ++ codes "/.ssh";
  bundle_metadata_path = home ++ codes "/.config/zfcssh/bundle.json";
  client_certificate_path = home ++ codes "/.config/zfcssh/mtls/client.crt";
  client_key_path = home ++ codes "/.config/zfcssh/mtls/client.key";
  ca_certificate_path = home ++ codes "/.config/zfcssh/mtls/ca.crt";
  user_key_path = home ++ codes "/.ssh/zfcssh_id_ed25519";
  user_cert_path = home ++ codes "/.ssh/zfcssh_id_ed25519-cert.pub";
  host_ca_path = home ++ codes "/.ssh/zfcssh_host_ca.pub";
  known_hosts_path = home ++ codes "/.ssh/known_hosts";
  log_path = home ++ codes "/.local/state/zfcssh/client.log";
}
