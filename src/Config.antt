-- ===== src/Config.antt =====
-- include/jp_config.h.in: the static configuration.
use jpipe.Common.{ℕ, Bytes, codes}

abbrev pub bytes_in_kb : ℕ
bytes_in_kb = 1024

abbrev pub jp_path_max : ℕ
jp_path_max = 4096

abbrev pub conf_chunk_size_min : ℕ
conf_chunk_size_min = 1024

abbrev pub conf_chunk_size_def : ℕ
conf_chunk_size_def = 16384

abbrev pub conf_chunk_size_max : ℕ
conf_chunk_size_max = 131072

abbrev pub conf_buffer_size_min : ℕ
conf_buffer_size_min = 1

abbrev pub conf_buffer_size_def : ℕ
conf_buffer_size_def = 64

abbrev pub conf_buffer_size_max : ℕ
conf_buffer_size_max = 1024

abbrev pub conf_outdir_def : Bytes
conf_outdir_def = codes "."

abbrev pub conf_fields_max : ℕ
conf_fields_max = 32

abbrev pub conf_field_max_key : ℕ
conf_field_max_key = 32

abbrev pub conf_field_max_val : ℕ
conf_field_max_val = 512
