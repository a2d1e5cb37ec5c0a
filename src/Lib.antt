-- ===== src/Lib.antt =====
-- The Python client of Pyre: what it reads, how it configures itself, and its language server; its API for
-- queries, and two of the tools beside it, the upgrade tool and the incremental test.
--
-- The client finds the directories that hold configuration files, reads and merges the files, and
-- runs commands with what they add up to. The language server stands between an editor, to which
-- it talks in JSON-RPC, and a Pyre server, which sends it type errors.
--
--   * Json, JsonRpc (client/json_rpc.py). Json is what json.loads returns: a dict is a list of keys
--     and values in the order of their first writing. Request and Response are the dataclasses,
--     request_json and response_json their json methods, request_from_json, response_from_json,
--     success_from_json and error_from_json the from_json methods. An exception is a value, and
--     `attribute_error` is what calling `get` on something that is no dict raises.
--   * FindDirectories (client/find_directories.py). A directory is the list of its names, the
--     innermost first. The upward search, the pair of roots, and the search paths of typeshed.
--   * PathLib and Filesystem: what the client uses of pathlib's pure paths, written over native
--     strings, and expand_relative_path (client/filesystem.py).
--   * Configuration (client/configuration.py). Elements has the elements of search paths; Partial the
--     record PartialConfiguration and from_command_arguments; Parse from_string, in which popping a
--     key gives the dict without it to the rest of the code; Relative expand_relative_paths; Merge
--     merge_partial_configurations; Resolved the record Configuration and its queries; Create
--     create_configuration; Nested check_nested_local_configuration.
--   * Persistent (client/commands/v2/persistent.py, language_server_protocol.py and
--     async_server_connection.py, client/error.py). Diagnostics turns type errors into diagnostics;
--     Server has the state of Server and PyreServerHandler, their handlers, and the steps of the
--     background task; Requests the loops _run and wait_for_exit over a list of events, each a
--     message of the editor, a message that cannot be read, or a step of the background task.
--     Initialize has try_initialize and run_persistent.
--   * Transport (client/commands/v2/language_server_protocol.py and async_server_connection.py): the
--     framing of messages by headers. A message is bytes, as numbers.
--   * Upgrade (tools/upgrade/errors.py): the comments that suppress type errors, and how a file is
--     rewritten with them, and what becomes of the files of a run. A text is the codes of its characters.
--   * Errors (client/error.py, client/commands/v2/incremental.py): type errors and model errors to and
--     from JSON, and the answers of a Pyre server that carry type errors.
--   * ServerEvent (client/commands/v2/server_event.py): what a server that starts says on its channel,
--     line by line, and the waiter for it.
--   * Start (client/commands/v2/start.py): the arguments of a server, made of a configuration and the
--     command line, and their JSON.
--   * RecentlyUsed (client/recently_used_configurations.py, acquire_lock of client/filesystem.py): the
--     cache of local roots, whose state is its two files and whether another process holds the lock.
--   * Specification (tools/incremental_test/specification.py): the repository states and updates of an
--     incremental test, to and from JSON.
--   * AnalysisDirectory (client/analysis_directory.py): the symbolic links of a shared analysis
--     directory and their update when files change. Surroundings has the directories and the answers of
--     the disk and of buck.
--   * UpgradeConfiguration (tools/upgrade/configuration.py): the configurations that the upgrade tool
--     rewrites. Contents is about what is written, Deduplicated has the removal of targets that others
--     expand to.
--   * SourceDatabase (client/source_database_buck_builder.py): what is asked of buck, and the links that
--     the source databases of its targets are merged into.
--   * Query (api/query.py, api/connection.py): the queries of the API. Answers has what Python's
--     operations on a JSON value return or raise; Parsed what is made of the values of an answer;
--     Defines the queries in batches; Hierarchy the class hierarchy.
--   * Profile (client/commands/profile.py): the events of a log and the views of them.
--   * Stubs (client/commands/infer.py): the stubs of inferred annotations. Groups and Joined are about
--     join_stubs, Files has the stub files, and Printed the texts.
--   * Texts has what Transport, Upgrade, SourceDatabase and others use of Python's texts, on ASCII.
--   * Base holds what these share, and Examples concrete inputs.
--
-- Parameters. The environment is an argument of the definitions that ask it: the home directories,
-- the files of a disk (Disk, Sources), glob, shutil.which and the like (Machine), json.loads,
-- json.dumps, int of a text, Path.resolve, hashlib.sha1, and, in Persistent, the decoding of parameters
-- and the parsing of a URI or its ValueError, which dataclasses_json and urllib do; in Upgrade what libcst makes of a
-- statement, the dump of a syntax tree, and the order of a Python set; in AnalysisDirectory,
-- SourceDatabase and UpgradeConfiguration what buck answers; in Query what the server answers; in
-- Profile the decoding of a line; in Stubs what libcst does with an annotation. A hypothesis about one
-- of them says what it needs.
--
-- Fuel. Four loops are on fuel. A round of check_nested_local_configuration moves to the parent of the
-- local root that was found, so that as many rounds as there are directories above the checked root (one for
-- "/") are enough unless the search stays in "/". A round of run_persistent reads a message, and one of
-- _read_headers a byte, so that one more round than there are messages, or bytes, is enough. A
-- slice of `chunks` takes a module at least, so that as many slices as there are modules are enough.
-- `decimal` has as many rounds as its number counts, which are more than its digits. Every other loop is
-- structural recursion, over the ancestors of a directory, the keys of a dict, the bytes or the lines of
-- a text, or the events of a session.
--
-- Interleaving. The coroutines of the language server interleave at events: a handler runs to its
-- end before the next event, and what it writes is written at once.
--
-- Where the model stops. A search path element whose root, subdirectory or package name is no text is
-- stored as it is by from_string, and fails where it is used; the model gives `untyped_value` for the
-- document, and no theorem follows it further. A reader is the server's for negative counts, and
-- otherwise what MemoryBytesReader does.
--
-- Not modelled: the texts of exceptions and logging; the processes that commands start; file
-- watching and client/buck.py; find_typeshed, find_taint_models_directory and get_binary_version, which
-- ask for installed packages and programs; the type checker under source/, and the tools under tools/ but for
-- Specification, Upgrade and UpgradeConfiguration.
pub mod Base
pub mod Json
pub mod JsonRpc
pub mod PathLib
pub mod Filesystem
pub mod Configuration
pub mod FindDirectories
pub mod Persistent
pub mod Errors
pub mod ServerEvent
pub mod Specification
pub mod Start
pub mod Texts
pub mod Transport
pub mod Upgrade
pub mod SourceDatabase
pub mod Query
pub mod Profile
pub mod UpgradeConfiguration
pub mod Stubs
pub mod AnalysisDirectory
pub mod RecentlyUsed
pub mod Examples
