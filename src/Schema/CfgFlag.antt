-- ===== src/Schema/CfgFlag.antt =====
-- `cyaml_cfg_flags_t` of include/cyaml/cyaml.h.
use libcyaml.Base.{ℕ}

abbrev pub ignore_unknown_keys : ℕ
ignore_unknown_keys = 1

abbrev pub style_block : ℕ
style_block = 2

abbrev pub style_flow : ℕ
style_flow = 4

abbrev pub document_delim : ℕ
document_delim = 8

abbrev pub case_insensitive : ℕ
case_insensitive = 16

abbrev pub no_alias : ℕ
no_alias = 32

abbrev pub ignored_key_warning : ℕ
ignored_key_warning = 64
