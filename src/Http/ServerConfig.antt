-- ===== src/Http/ServerConfig.antt =====
-- library/http/http_server_config.h. The builder's state is the configuration that it builds.
use ccnet_utilities.Common.{ℕ, Bool, true}
use ccnet_utilities.Utils.BytesCount.{of_kb, of_mb}

pub record ServerConfig : Type 0 where
  pub max_header_bytes : ℕ
  pub max_header_lines : ℕ
  pub max_start_line : ℕ
  pub max_body_bytes : ℕ
  pub read_block : ℕ
  pub default_keep_alive_http11 : Bool

abbrev pub default : ServerConfig
default = record {
  max_header_bytes = of_kb 64;
  max_header_lines = 200;
  max_start_line = 4096;
  max_body_bytes = of_mb 16;
  read_block = 4096;
  default_keep_alive_http11 = true;
}

abbrev pub set_max_header_bytes : ServerConfig → ℕ → ServerConfig
set_max_header_bytes c max_bytes = record c { max_header_bytes = max_bytes }

abbrev pub set_max_header_lines : ServerConfig → ℕ → ServerConfig
set_max_header_lines c max_lines = record c { max_header_lines = max_lines }

abbrev pub set_max_start_line : ServerConfig → ℕ → ServerConfig
set_max_start_line c max_line_len = record c { max_start_line = max_line_len }

abbrev pub set_max_body_bytes : ServerConfig → ℕ → ServerConfig
set_max_body_bytes c max_bytes = record c { max_body_bytes = max_bytes }

abbrev pub set_read_block : ServerConfig → ℕ → ServerConfig
set_read_block c block_size = record c { read_block = block_size }

abbrev pub set_default_keep_alive_http11 : ServerConfig → Bool → ServerConfig
set_default_keep_alive_http11 c keep_alive = record c { default_keep_alive_http11 = keep_alive }
