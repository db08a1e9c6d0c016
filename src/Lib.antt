-- ===== src/Lib.antt =====
-- A model of wake_sol, the Python testing harness for Solana programs (python/wake_sol).
--
-- The program's core is a Borsh codec (python/wake_sol/_codec): annotations are compiled once into
-- nodes, each with `read`, `write` and `min_wire_size`; the entry points `decode` and `encode` run a
-- node over a cursor or a bytearray. The builder (_codec/builder.py) encodes instruction data,
-- accounts and events with it; the interfaces (_interface.py) choose a definition by the
-- discriminator that starts the data and run its decoder; _labels.py names addresses.
--
-- Files:
--   Prelude: shared names, lists over the native numbers, association lists, integers.
--   Codec/Result: `BorshError` and Python's own exceptions as values.
--   Codec/Bytes, Codec/Utf8: int.to_bytes, int.from_bytes and strict UTF-8.
--   Codec/Value: the Python values that the codec meets; Codec/Node: the nodes of _codec/ir.py, in
--     which a defined type is the number of its class, and the table of compiled classes.
--   Codec/Cursor: Cursor.take and Cursor.descend; Codec/MinSize, Codec/Read, Codec/Write: the
--     methods of the nodes; Codec/Entry: decode and encode of _codec/codec.py.
--   Codec/Safety: what every read keeps; Codec/RoundTrip: what is written is read back.
--   Codec/Aliases, Codec/AliasRange, Codec/Carriers, Codec/EnumTags: the widths of _codec/aliases.py
--     and what they take; the tags of data-carrying enums of _codec/carriers.py.
--   Builder/Args, Builder/Structs, Builder/Metas, Builder/Names: encode_ix_layout with both argument
--     decoders, BorshStruct, build_metas and mangle of _codec/builder.py. Builder/ArgsRoundTrip,
--     Builder/StructsRoundTrip, Builder/MetasAligned and Builder/NamesBack: their proofs.
--   Interface/Defs, Interface/Registry: the interfaces and the registry of _interface.py.
--     Interface/Match, Interface/Slots, Interface/Dispatch, Interface/Returns: which definition is
--     chosen, the names of the account slots, and decoding of what a builder encodes and of return
--     values.
--   Precompiles/Claims, Precompiles/Placement, Precompiles/Assembly: _precompiles.py, up to
--     materialize; Precompiles/Find and Precompiles/Order: what a reference finds, and the order of
--     the materialized instructions.
--   Interface/Reflect, Interface/Overridden: build_interface_from_module of _codec/builder.py.
--   Programs: the built-in programs of _programs. Programs/Pack: what they use of `struct`;
--     Programs/Token, Programs/System and Programs/Ata: the decode closures, the builders and the
--     registration; Programs/Made, Programs/PackRoundTrip and the RoundTrip modules: what a builder
--     makes is decoded.
--   Labels, Labels/Resolve: the label table of _labels.py and its resolution.
--   Fuzzing/Stats, Fuzzing/Run, Fuzzing/Engine: _run of fuzzing.py with its hooks and exceptions, and
--     the statistics; Fuzzing/Choice, Fuzzing/Caps, Fuzzing/Merging, Fuzzing/Ending: what a step may
--     choose, the cap of a flow, sums of statistics, and what a run leaves; Fuzzing/Keeps: triples for actions that may raise.
--   Runner/Assign, Runner/Server, Runner/Worker: how _mp_server.py deals the tests out, its event loop,
--     and what a worker of _mp_worker.py sends; Runner/Partition: the lists that are dealt;
--     Runner/Drained, Runner/Ends, Runner/Workers: the loop over all messages of all workers. A message
--     is a value with the index of its worker, and an interleaving is a list of messages.
--   Errors/Classes, Errors/Catalog, Errors/Resolve, Errors/Expect: the error classes, the catalogs, the
--     resolution of a failure to a class, must_fail and may_fail, of _errors_base.py, _errors_catalog
--     and _errors.py; Errors/Subclasses, Errors/Scoping, Errors/Coded, Errors/Accepting: subclasses
--     and equality, which registration a code is resolved by, its code, and what is accepted.
--   Coverage/Text, Coverage/Dict, Coverage/Lcov, Coverage/Reports, Coverage/Builds: the merging of
--     coverage.py, with the text methods and the dicts that it uses; Coverage/TextBack,
--     Coverage/LinesBack, Coverage/RoundTrip, Coverage/Parsed: LCOV text that is written and parsed;
--     Coverage/Sums, Coverage/Merging, Coverage/ReportView, Coverage/SameBuild: sums of hits, merged
--     files and reports, and builds that differ.
--   Tests: runs and the theorems at concrete inputs.
--
-- State and errors: a cursor or a bytearray is passed along; a raised exception is the constructor
-- `err` of Result. Fuel: `read` and `write` spend a unit at each composite node. For `read` 65 units
-- are enough, since the depth guard refuses the 65th level; for `write`, which has no guard, the
-- depth of the value is enough.
--
-- Parameters (fields of `Env`): the base58 parse of the native Pubkey constructor, the conversions
-- between binary32 and binary64 and from integers to floats, and int() of a value that is no integer.
--
-- The fuzzing engine takes the test's class as an argument (FuzzTest): its flows, invariants and hooks
-- act on a world `W`, and `draw` is the random source. Sequences and steps are counted down. In
-- coverage.py `decimal n` has fuel for `n + 1` digits.
--
-- Not modelled: the other files of python/wake_sol; of the test runner, processes, pipes, signals,
-- serialization, the progress display and the redirection of output; in the modelled files, the lowering of
-- annotations to nodes and encode_ix, which read live classes, the search of a test class for its
-- methods, the table of statistics, preconditions that raise or change the world, weights that are
-- not natural numbers, and attributes of builtin values other than those that the codec relies on, negative
-- lengths in annotations, the limit of Python's own stack; messages and headlines of errors; digits
-- outside ASCII, the summary, the live export and the search for crates of coverage.py.
pub mod Prelude
pub mod Codec
pub mod Builder
pub mod Labels
pub mod Precompiles
pub mod Programs
pub mod Fuzzing
pub mod Errors
pub mod Coverage
pub mod Runner
pub mod Interface
mod Tests
