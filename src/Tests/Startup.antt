-- ===== src/Tests/Startup.antt =====
-- The theorems on start-up.
use secure_sshlinux_client.Startup.{validation_of}
use secure_sshlinux_client.Startup.{user_token_errors}
use secure_sshlinux_client.Startup.{url_warnings}
use secure_sshlinux_client.Startup.{url_errors}
use secure_sshlinux_client.Startup.{ttl_errors}
use secure_sshlinux_client.Startup.{temp_dir_errors}
use secure_sshlinux_client.Startup.{startup_validation}
use secure_sshlinux_client.Startup.{startup_errors}
use secure_sshlinux_client.Startup.{server_token_errors}
use secure_sshlinux_client.Startup.{profile_errors}
use secure_sshlinux_client.Startup.{principal_errors}
use secure_sshlinux_client.Startup.{placeholder_tokens}
use secure_sshlinux_client.Startup.{placeholder_errors}
use secure_sshlinux_client.Startup.{outcome_of}
use secure_sshlinux_client.Startup.{missing_files}
use secure_sshlinux_client.Startup.{is_placeholder_token}
use secure_sshlinux_client.Startup.{is_ip_literal}
use secure_sshlinux_client.Startup.{file_errors}
use secure_sshlinux_client.Startup.{command_errors}
use secure_sshlinux_client.Settings.{user_allowed_principal_list}
use secure_sshlinux_client.Settings.{strip_items}
use secure_sshlinux_client.Base.{text_eq}
use secure_sshlinux_client.Base.{strip}
use secure_sshlinux_client.Base.{starts_with}
use secure_sshlinux_client.Base.{split_on}
use secure_sshlinux_client.Base.{sorted}
use secure_sshlinux_client.Base.{rstrip_cons}
use secure_sshlinux_client.Base.{rstrip}
use secure_sshlinux_client.Base.{lstrip}
use secure_sshlinux_client.Base.{join}
use secure_sshlinux_client.Base.{is_space}
use secure_sshlinux_client.Base.{contains}
use secure_sshlinux_client.Base.{◌≡◌, refl, true, [], ◌^◌, ◌<◌, arith}
use secure_sshlinux_client.Validators.Ttl.{max_int_digits}
use secure_sshlinux_client.Startup.{Machine, StartupValidationResult, ready, ensure_startup_ready}
use secure_sshlinux_client.Startup.Ready.{
  IsReady, ensure_startup_ready-IsReady, ServesDefaults, ensure_startup_ready-ServesDefaults,
}
use secure_sshlinux_client.Tests.Data.{lib, settings}

abbrev machine : Machine
machine = record {
  exists = λ p. true;
  is_dir = λ p. true;
  is_file = λ p. true;
  path_text = λ p. p;
  has_ssh_keygen = true;
}

abbrev no_findings : StartupValidationResult
no_findings = record { errors = []; warnings = [] }

settings_start : ensure_startup_ready lib machine true true settings ≡ ready no_findings
unfolding ensure_startup_ready outcome_of startup_validation validation_of startup_errors
    profile_errors contains text_eq principal_errors user_allowed_principal_list ttl_errors
    url_errors placeholder_errors placeholder_tokens is_placeholder_token starts_with
    server_token_errors user_token_errors is_space lstrip rstrip rstrip_cons strip sorted join
    split_on strip_items command_errors file_errors is_ip_literal missing_files temp_dir_errors
    url_warnings
settings_start = refl

ensure_startup_ready-IsReady_example : IsReady settings
ensure_startup_ready-IsReady_example =
    ensure_startup_ready-IsReady lib machine true true settings no_findings settings_start

ensure_startup_ready-ServesDefaults_example : ServesDefaults settings
ensure_startup_ready-ServesDefaults_example =
    ensure_startup_ready-ServesDefaults lib machine true true settings no_findings settings_start
      eight twenty_four
  where
    eight : 8 < 10 ^ max_int_digits
    eight = omega arith

    twenty_four : 24 < 10 ^ max_int_digits
    twenty_four = omega arith
