-- ===== src/Core/Constants.antt =====
-- crates/liaozhai-core/src/constants.rs. Texts stay shut until `codes` is unfolded.
use liaozhai.Common.{Bytes, Text, [], codes, ℕ, ◌*◌, ◌++◌, ◌∷◌}

-- The version of Cargo.toml.
abbrev pub version : Text
version = codes "0.1.0"

abbrev pub banner : Text
banner = codes "\r\n  Liaozhai MUX 聊齋 — v" ++ (version ++ codes "\r\n  Multi-User eXegesis\r\n\r\n")

abbrev pub default_port : ℕ
default_port = 4444

abbrev pub default_bind_address : Text
default_bind_address = codes "127.0.0.1"

abbrev pub default_max_connections : ℕ
default_max_connections = 100

abbrev pub default_log_filter : Text
default_log_filter = codes "info"

abbrev pub max_line_length : ℕ
max_line_length = 4096

abbrev pub max_buffer_size : ℕ
max_buffer_size = 10 * 1024 * 1024

abbrev pub line_too_long_msg : Text
line_too_long_msg = codes "Line too long; ignored.\r\n"

abbrev pub buffer_overflow_msg : Text
buffer_overflow_msg = codes "Buffer overflow; disconnecting.\r\n"

abbrev pub goodbye_msg : Text
goodbye_msg = codes "Until the next strange tale.\r\n"

abbrev pub username_prompt : Text
username_prompt = codes "Username: "

abbrev pub password_prompt : Text
password_prompt = codes "Password: "

abbrev pub worlds_header : Text
worlds_header = codes "Available worlds:"

abbrev pub empty_username_msg : Text
empty_username_msg = codes "Username cannot be empty.\r\n"

abbrev pub empty_password_msg : Text
empty_password_msg = codes "Password cannot be empty.\r\n"

abbrev pub world_selection_non_numeric_msg : Text
world_selection_non_numeric_msg = codes "Please enter a number.\r\n"

abbrev pub world_selection_out_of_range_msg : Text
world_selection_out_of_range_msg = codes "Please enter a number between 1 and {n}.\r\n"

abbrev pub welcome_template : Text
welcome_template = codes "Welcome, {username}.\r\n\r\n"

abbrev pub world_selected_template : Text
world_selected_template = codes "In v0.1, you would now be in {world}. Disconnecting.\r\n"

abbrev pub world_select_prompt_template : Text
world_select_prompt_template = codes "Select a world (1-{n}, or 'quit'): "

abbrev pub auth_failed_msg : Text
auth_failed_msg = codes "Authentication failed.\r\n"

abbrev pub auth_max_retries_msg : Text
auth_max_retries_msg = codes "Too many failed attempts. Disconnecting.\r\n"

abbrev pub auth_rate_limited_msg : Text
auth_rate_limited_msg = codes "Too many failed attempts from your IP. Try again later.\r\n"

abbrev pub auth_internal_error_msg : Text
auth_internal_error_msg = codes "Authentication error. Please try again later.\r\n"

abbrev pub iac_will_echo : Bytes
iac_will_echo = 0xFF ∷ 0xFB ∷ 0x01 ∷ []

abbrev pub iac_wont_echo : Bytes
iac_wont_echo = 0xFF ∷ 0xFC ∷ 0x01 ∷ []

abbrev pub default_max_login_attempts : ℕ
default_max_login_attempts = 3

abbrev pub default_argon2_memory_cost : ℕ
default_argon2_memory_cost = 19456

abbrev pub default_argon2_time_cost : ℕ
default_argon2_time_cost = 2

abbrev pub default_argon2_parallelism : ℕ
default_argon2_parallelism = 1

abbrev pub default_rate_limit_window_secs : ℕ
default_rate_limit_window_secs = 60

abbrev pub default_rate_limit_max_failures : ℕ
default_rate_limit_max_failures = 10

abbrev pub server_full_msg : Text
server_full_msg = codes "Server is full. Try again later.\r\n"

abbrev pub shutdown_msg : Text
shutdown_msg = codes "The studio closes for now. Until the next strange tale.\r\n"

abbrev pub default_shutdown_drain_secs : ℕ
default_shutdown_drain_secs = 10

abbrev pub default_rate_limiter_max_entries : ℕ
default_rate_limiter_max_entries = 10000
