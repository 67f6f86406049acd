-- ===== src/Lib.antt =====
-- Ziliu, an input method for Windows: its broker's protocol and sessions, and the queue of its text
-- service.
--
-- The text service (src/tsf) turns keys into requests, sends each as a message over a named pipe
-- (src/ipc) to the broker (src/broker), and shows what comes back. The broker decodes a request, answers
-- it itself (settings, theme files, menus) or passes it to the session host (src/core), which keeps one
-- engine for each session.
--
-- The parts and their files, with the paths of the repository:
--   Ipc: src/core/src/ipc_protocol.cpp and src/core/include/ziliu/core/ipc_protocol.h. Ipc/Types has the
--     message types, Ipc/Utf the conversions between UTF-16 and UTF-8 (Writer::AppendCodePoint,
--     Writer::ToUtf8, Reader::FromUtf8), Ipc/Writer and Ipc/Reader the two classes, Ipc/Requests and
--     Ipc/Responses EncodeRequest, DecodeRequest, EncodeResponse and DecodeResponse.
--   Engine: src/core/include/ziliu/core/engine.h (Engine/Interface), src/core/src/candidate_filter.cpp
--     (Engine/Han) and src/core/src/stub_engine.cpp (Engine/Stub).
--   Session: src/core/src/session_host.cpp, over any engine. Session/Serving compares the host with one
--     engine per session, Session/Creating and Session/Fresh are about CreateSession, Session/Errors
--     about responses, Session/Lifting and Session/Stubs about invariants of engines.
--   Server: PipeServer::ServeClient of src/ipc/src/pipe_server.cpp.
--   Startup: src/tsf/src/startup_key_queue.h, the keys that are typed before the broker answers.
--   Settings: src/core/src/settings.cpp. Settings/Types has the record, Settings/Parse and
--     Settings/Serialize ParseSettings and SerializeSettings, Settings/Values and Settings/Colors what
--     they call, Settings/Paging the pages of the candidate list; Settings/Lines, Settings/ValueLaws and
--     Settings/RoundTrip are about reading what was written.
--   Json: the JSON reader of src/core/src/theme_manifest.cpp. Json/Types has JsonValue and the parsers,
--     Json/Utf IsValidUtf8 and AppendUtf8, Json/Strings, Json/Numbers and Json/Values the class
--     JsonParser, Json/Writer EscapeJsonString. Json/Outcomes, Json/StringOutcomes,
--     Json/NumberOutcomes, Json/Invariant and Json/ValueOutcomes say what a parser may give back,
--     Json/UtfLaws compares the text functions with those of Ipc, Json/Escapes is about escapes.
--   Theme: the theme manifest, in src/core/include/ziliu/core/theme_manifest.h (Theme/Types) and
--     src/core/src/theme_manifest.cpp: Theme/Fields, Theme/Sections and Theme/Reader have the class
--     ManifestReader, Theme/Manifest its Read and ParseThemeManifest, Theme/Paths and Theme/Validate
--     ValidateThemeManifest and what it calls, Theme/Colors SerializeColor, Theme/Writer the class
--     JsonWriter and Theme/Serialize SerializeThemeManifest. Theme/Assets, Theme/Bounds and
--     Theme/ManifestLaws are about manifests that were accepted, Theme/ImageNames and
--     Theme/PathLaws about the names of files. Theme/Destination says where a path leads on Windows:
--     both slashes separate components, a first separator stands for the root, and a colon belongs to
--     a drive or a stream. Names that the file system changes, such as one with a dot at
--     its end, are taken as they are.
--   Privacy: the classification of input scopes in src/tsf/src/input_privacy.h. The values of the
--     scopes are those of a header of Windows, and parameters.
--   Base and Examples: what the parts share, and tests.
--
-- How the code is modelled. Numbers are natural numbers, with the wrap-around of a machine word written
-- out; a wchar_t has two bytes, as on Windows. A function that returns false is an Option that is none,
-- and state is passed on. An engine is a record of operations on a state of its own, the map of sessions
-- is a list of pairs, and the callbacks of the server are arguments. iswalpha and towlower are
-- parameters; isdigit, isalnum and tolower are those of the C locale, and char is compared as it stands
-- in bytes from 0 to 255. A parser of JSON is given the text from its position on, and a failure keeps
-- the message and the text left at the first Fail. A reader of a manifest's property is given what its
-- output holds before and gives what it holds after with the issues that it adds. Where it
-- matters it is assumed that towlower makes no apostrophe of a letter.
--
-- Loops that are not structural have fuel. Reader::FromUtf8 has as much as there are bytes, and takes one
-- at least in a round. The search for a session id has two more than there are sessions, and the ids
-- that are not allowed are 0 and those of the sessions. IsValidUtf8 and IsSafeThemeAssetPath have as
-- many rounds as there are characters, the loops of JsonParser one more, and take one at least in a
-- round; JsonParser::ParseValue is structural in the 33 levels that its depth may have. The decimal
-- digits of a std::size_t are at most 20.
--
-- Not modelled: drawing, the settings application, the COM objects of the text service, librime, the
-- pipe and the registry, which are calls of Windows or of third-party code; the blending of colors in
-- settings.cpp, which is floating-point; and, so far, the theme catalog, the import of Sogou themes and
-- the calls that find the scopes of a field.
pub mod Base
pub mod Ipc
pub mod Json
pub mod Engine
pub mod Startup
pub mod Session
pub mod Server
pub mod Settings
pub mod Theme
pub mod Privacy
pub mod Examples
