-- ===== src/Schema/Flag.antt =====
-- `cyaml_flag_e` of include/cyaml/cyaml.h.
use libcyaml.Base.{ℕ}

abbrev pub optional : ℕ
optional = 1

abbrev pub pointer : ℕ
pointer = 2

abbrev pub pointer_null : ℕ
pointer_null = 6

abbrev pub pointer_null_str : ℕ
pointer_null_str = 14

abbrev pub strict : ℕ
strict = 16

abbrev pub block : ℕ
block = 32

abbrev pub flow : ℕ
flow = 64

abbrev pub case_sensitive : ℕ
case_sensitive = 128

abbrev pub case_insensitive : ℕ
case_insensitive = 256

abbrev pub scalar_plain : ℕ
scalar_plain = 512

abbrev pub scalar_folded : ℕ
scalar_folded = 1024

abbrev pub scalar_literal : ℕ
scalar_literal = 2048

abbrev pub scalar_quote_single : ℕ
scalar_quote_single = 4096

abbrev pub scalar_quote_double : ℕ
scalar_quote_double = 8192
