-- ===== src/Lib.antt =====
-- A model of the certificate broker of the repository: a service that signs short-lived SSH
-- certificates for users and hosts with `ssh-keygen`, under lifecycle profiles and role tokens.
--
-- The parts and the files that model them (paths from the repository's root):
--   * app/utils/validators.py: Errors (api_error, HTTPException as a value), Validators/Keys,
--     Validators/Ttl, Validators/Principals, Validators/Options. Each validator is a function into
--     `Result` that raises what the source raises, in its order; the loops are structural recursion.
--     Validators/Ttl/Spelled says in plain arithmetic which texts are lifetimes.
--   * app/services/extension_profiles.py: Profiles (tables, resolve_profile,
--     check_role_profile_access, build_keygen_options), with proofs in Profiles/Access,
--     Profiles/Resolve and Profiles/Flags.
--   * app/security/auth.py: Auth, with proofs in Auth/Laws.
--   * app/config.py: Settings (the fields, the allowed principals, the token map), and Startup
--     (startup_validation, ensure_startup_ready), with proofs in Startup/Ready.
--   * app/services/idempotency.py: Store (the table by its primary key, get, put).
--   * app/services/signing.py: Signing (sign_certificate, _run_ssh_keygen), with proofs in
--     Signing/Command and Signing/Idempotent; Signing/Demo (the demo keys); Inspection
--     (inspect_certificate and its parser), with a description of the listings of ssh-keygen in
--     Inspection/Listing and proofs in Inspection/Entries, Inspection/Loops and Inspection/RoundTrip.
--   * app/models/schemas.py: Schemas.
--   * app/api/routes.py: Routes (sign_user, sign_host, audit, and the role dependencies in front of
--     them), with proofs in Routes/Prepare, Routes/Audit and Routes/Authorized; Replies (the
--     exception handlers) and Endpoints (the other endpoints), with proofs in Endpoints/Refused.
--   * src/zfcssh_client/certificates.py: Client/KnownHosts (install_host_ca as a function of the contents
--     of known_hosts), with proofs in Client/KnownHosts/Laws, Layout and Install;
--     Client/Certificates (parse_inspection_output, needs_renewal), with proofs in
--     Client/Certificates/Lines, Headings, Misread and Renewal; Client/Keys (the calls that reach
--     for ssh-keygen and files), with proofs in Client/Keys/Untouched.
--   * src/zfcssh_client/profiles.py: Client/Lifetimes, with proofs in Client/Lifetimes/Accepted.
--   * src/zfcssh_client/paths.py and models.py: Client/Files (files with their modes, the paths),
--     Client/Bundle, Client/Certificates.
--   * src/zfcssh_client/bundle.py: Client/Bundle (the checks of single values), Client/Bundle/Values (the
--     import), Client/Bundle/Load, with proofs in Client/Bundle/RoundTrip and Client/Bundle/Refused.
--   * src/zfcssh_client/broker.py: Client/Broker, with proofs in Client/Broker/Bounds and Answered.
--   * src/zfcssh_client/cli.py and ssh.py: Client/Machine (calls that change files, server and output, or
--     raise; frame lemmas in Client/Machine/Frame) and Client/Commands, with proofs in
--     Client/Commands/Enroll, Refusal, Outcome, Complete and Renewed; Client/Main (the commands and how
--     main ends), with the two programs together in Client/Main/Unauthorized.
--
-- A request enters at `post_sign_user` or `post_sign_host`: the dependency yields the caller's role,
-- `user_arguments` and `host_arguments` run the checks of the handler in their order, and
-- `sign_certificate` looks the request up in the store or runs ssh-keygen; `finish` writes the audit
-- line and the response. The state is the record `Broker`, which each function takes and returns.
-- `respond` dispatches a call to its endpoint and turns results and exceptions into replies. The client
-- is a second program: its state is the record `Client.Machine.Machine`, of its files, the other side
-- of the network and what is printed. `Client.Commands.Refusal.to_broker` puts the broker on that side.
-- JSON values, of the replies and of the bundle, are in Json.
-- Texts are lists of code points (Base/Strings), with Python's strip, split, join and comparison.
--
-- Parameters: `Library` (Environment) holds the parsers of Python's ipaddress, base64 and
-- urllib.parse; `build_hash` stands for json.dumps and sha256; `World` (Signing) holds what one call
-- finds outside: ssh-keygen as a function, with the exceptions
-- that nothing catches, the clock, the serial, the temporary directory;
-- `Machine` (Startup) holds the tests on paths; `Surroundings` (Endpoints) what the other endpoints find
-- outside. On the client `Codec` (Client/Bundle) holds json and paths, `Network` (Client/Broker) urllib,
-- ssl, json and the decoding of bytes, `Tools` (Client/Keys) the commands of the system, and `strptime`
-- the reader of times. Where a theorem needs a law of them, it is a hypothesis of the theorem.
--
-- Bounds. `int` reads at most 4300 digits; a longer text raises ValueError, which is modelled.
-- `ttl_hours` is kept exactly, in minutes: Python divides minutes into a float, and the comparison of
-- the rounded quotient with `max_hours` agrees with the exact one for every `max_hours` below 2 ^ 46;
-- the overflow of the division is modelled. `digit_value` knows the decimal digits of Unicode 14, as
-- `\d` and `int` do. `lower` treats ASCII letters only: of other code points only U+0130 and U+212A
-- have ASCII letters in their lower case; neither can be part of a hostname that matched, and a header
-- of latin-1 text holds neither. Printing a number in decimal uses the number itself as fuel, which is
-- enough since every step divides by ten. The tables that Python keeps as sets are lists, since the
-- program only asks for membership or sorts them.
--
-- On the client times are microseconds and dates seconds, from a date that is left open. A path is its
-- text; the home directory is not the root. A file that is not UTF-8 raises when it is read, and reading
-- turns CR LF and CR into LF. The system decides how each write ends (the field `write` of `Codec` and
-- of `Tools`): in full, or with an exception, which leaves the file as it was or cut short; a change of
-- mode and a removal of a file that is there succeed. A missing file is reported by its path. The
-- fields of bundle.json are texts and lists of texts; where they are not, the load raises a type error,
-- while the source fails later.
--
-- Not modelled: the checks that pydantic and FastAPI make on a request, the SQLite file, the log's
-- text format, temporary files and their modes, concurrent requests, other
-- exceptions than a missing command where the client starts ssh; the page /ui and the start of the
-- server (app/main.py); directories and their modes, argparse and the log of the client; deployment
-- scripts.
pub mod Base
pub mod Errors
pub mod Environment
pub mod Settings
pub mod Profiles
pub mod Validators
pub mod Auth
pub mod Store
pub mod Signing
pub mod Inspection
pub mod Json
pub mod Schemas
pub mod Routes
pub mod Replies
pub mod Endpoints
pub mod Startup
pub mod Client
pub mod Tests
