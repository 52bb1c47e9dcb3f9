-- ===== src/Lib.antt =====
-- libcyaml
--
-- LibCYAML loads YAML documents into C data structures that a schema describes, and saves such
-- structures as YAML. libyaml parses the text into events and writes events as text; LibCYAML
-- checks the events against the schema and moves scalar values in and out of the client's data.
--
-- How the parts of the program correspond to the files here:
--
--   Schema, Schema.Flag, Schema.CfgFlag: include/cyaml/cyaml.h. The structures that the client fills
--     in (cyaml_schema_value_t, cyaml_schema_field_t, cyaml_strval_t, cyaml_bitdef_t) are records,
--     their enumerations data types, the flag words natural numbers with the flags as constants. The
--     anonymous union of a schema value is a record with all members, of which each function reads
--     the one of the value's type.
--   Errors, Outcome: cyaml_err_t, and the outcome of a function that returns an error code. Outcome
--     adds the state that the function leaves, and `fault` for an access out of range.
--   Memory, Data: the client's data as memory by address, and src/data.h over it (cyaml_data_write,
--     cyaml_data_read and the pointers); the order of the host's bytes is the parameter Host. Every
--     address can be read and written: an access outside of a block of the client is no fault here.
--   Utf8: src/utf8.c. A pointer into a string is the rest of its bytes, terminator included. The
--     comparison runs on fuel, one round more than the bytes of the first string; since every round
--     consumes a byte, that is enough.
--   Strings: cyaml__strcmp, cyaml__is_case_sensitive and the names of states and types in src/util.h,
--     cyaml_strerror in src/util.c.
--   Load.Store: cyaml__store_int, cyaml__store_uint, cyaml__store_bool, cyaml__store_float and
--     cyaml__store_string in src/load.c, which check a scalar and write it through Data. Doubles are
--     64 bits; the floating-point unit is the parameter FloatUnit.
--   Number: sprintf of 64-bit integers, strtoll and strtoull with base 0, which the sources call, as
--     the C standard describes them.
--   Load.Scalar: cyaml__read_int to cyaml__read_scalar_value and cyaml__set_flag in src/load.c, from the
--     text of a scalar to Load.Store. strtod is a parameter.
--   Load.Values: cyaml__read_flags_value, cyaml__read_bitfield_value and
--     cyaml__consume_ignored_value in src/load.c, over Load.Events. Their loops run on fuel, which is
--     enough when it is more than the events that they read.
--   Load.Stack, Load.Machine: the state stack, cyaml__data_handle_pointer, cyaml__read_value, the
--     handlers of the states and cyaml__load in src/load.c. What they only read is the record Loader: the
--     configuration, the schemas, libyaml's parser, and the allocator. The variables `data` and
--     `ctx.seq_count` have addresses in the client's memory. The loops run on fuel, those over the events
--     of one value on an amount of their own; the Boolean that is returned says whether it was enough.
--   Load.Events: the event context in src/load.c, from cyaml__get_yaml_event_anchor to
--     cyaml_get_next_event. It delivers the next event of libyaml or of the replay of an anchor, and
--     records events while an anchor is open. Its arrays are lists. libyaml's parser, the allocator
--     and the size of an event are parameters.
--   Load.Fields: the search for a mapping's key, the bit field of found fields, the defaults of
--     scalar fields and cyaml__validate_event_type_for_schema in src/load.c. They use Strings to
--     compare keys and Load.Store to write defaults.
--   Save.Sign, Save.Style, Save.Buffer: cyaml_sign_pad, the choice of the emission style, and
--     cyaml__buffer_handler in src/save.c. The allocator of the buffer is an instance of the record
--     Realloc, whose laws are those of the C library's realloc.
--   Save.Emitter, Save.Scalar: cyaml__emit_event_helper, and the cyaml__write_* functions of scalars,
--     flags and bit fields in src/save.c. What they only read is the record Saver: the configuration, the
--     client's memory and schemas, and the operations of libyaml's emitter and of the allocator. The
--     printing of floats is a parameter. A C string in the memory ends within 2 ^ 64 bytes, otherwise
--     reading it is a fault, and so is a shift by 64 bits or more.
--   Save.Stack, Save.Machine: the state stack, the handlers of the states, cyaml__write_value and
--     cyaml__save in src/save.c. The loop runs on fuel, and a theorem says that there is enough for data
--     that are a document. Frames that the code keeps in an array are a list, with the size of the array
--     beside it.
--   Free: src/free.c, as the list of the addresses that are freed, in order. The memory is read as it is
--     before the call. The recursion runs on fuel, for which the levels of the data are enough.
--   Copy.Stack, Copy.Clone, Copy.Machine, Copy.Call: the state stack, cyaml__data_handle_pointer, the
--     handlers of the states and cyaml_copy in src/copy.c, over the client's memory and allocator. The
--     variables whose addresses the code takes have addresses in the memory. The loop runs on fuel; the
--     Boolean that is returned says whether it was enough. copy_to is the call of cyaml_copy from loading,
--     on the rounds that the Loader has for it; if they are not enough, it is a fault.
--   Params: the checks of the parameters of loading, saving and copying (cyaml__validate_load_params,
--     cyaml__validate_save_params in src/save.c, cyaml__validate_copy_params in src/copy.c), the table
--     of cyaml__load_event and cyaml__string_is_null_ptr in src/load.c.
--   Tests: runs on concrete inputs, and each theorem with hypotheses applied to one.
--
-- The children of a component hold its proofs: an invariant or a specification, and the theorems.
-- Integers of the program are the native natural numbers with their wrap-around written out, and
-- int64_t is Base.Int. The 32-bit counts of the event context are unbounded here; a document that
-- wraps them has over four thousand million events.
--
-- Not modelled: the entry points, which set up libyaml, files and buffers; cyaml__free_recording and
-- the release of the state stacks; log messages, cyaml__backtrace, and the lines and columns that it
-- prints; the schema-building macros; libyaml itself.
pub mod Base
pub mod Errors
pub mod Outcome
pub mod Schema
pub mod Memory
pub mod Data
pub mod Utf8
pub mod Strings
pub mod Free
pub mod Copy
pub mod Load
pub mod Save
pub mod Number
pub mod Params
pub mod Tests
