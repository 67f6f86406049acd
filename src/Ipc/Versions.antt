-- ===== src/Ipc/Versions.antt =====
-- The protocol versions: IsSupportedProtocolVersion of core/src/ipc_protocol.cpp, and the conditions on
-- commands that EncodeRequest and DecodeRequest share; the bounds of both encoders.
use mathlib.Core.Option.{some-injective}
use ziliu_ime.Base.{
  ℕ, ◌≡◌, ap, arith, false, Bool, not, ◌&&◌, ◌||◌, Option, none, some, List, ltb, leb, ◌==◌,
  if◌then◌else◌, length,
}
use ziliu_ime.Ipc.Types.{
  Command, get_settings, get_theme_resource, open_quick_menu, run_menu_action, create_session,
  command_code, protocol_version, oldest_compatible_protocol_version, maximum_message_bytes,
}

abbrev pub request_magic : ℕ
request_magic = 0x31514C5A

abbrev pub response_magic : ℕ
response_magic = 0x31524C5A

abbrev pub is_supported_protocol_version : ℕ → Bool
is_supported_protocol_version version =
    leb oldest_compatible_protocol_version version && leb version protocol_version

-- Equality of enum values.
abbrev pub is_command : Command → Command → Bool
is_command c d = command_code c == command_code d

abbrev pub is_empty : List ℕ → Bool
is_empty bytes = length bytes == 0

-- The commands and values that an older protocol version does not have, as both functions list them.
unfoldable pub needs_newer_version : ℕ → Command → ℕ → Bool
needs_newer_version version command value =
    (is_command command get_settings && ltb version 6)
    || (is_command command get_theme_resource && ltb version 8)
    || (is_command command open_quick_menu && ltb version 8)
    || (is_command command run_menu_action && ltb version 8)
    || (is_command command create_session && not (value == 0) && ltb version 7)

-- A message is refused if it is longer than the maximum.
abbrev pub bounded : List ℕ → Option (List ℕ)
bounded bytes = if leb (length bytes) maximum_message_bytes then some bytes else none

-- What a reader that has finished gives.
abbrev pub result_of {ℓ} : {A : Type ℓ} → Option (A × List ℕ) → Option A
result_of none = none
result_of (some (a, rest)) = some a

pub bounded-eq-some :
    (bytes : List ℕ) {sent : List ℕ}
    → bounded bytes ≡ some sent
    → (ltb maximum_message_bytes (length bytes) ≡ false) × (sent ≡ bytes)
bounded-eq-some bytes h = ground arith

pub result_of-eq-some {ℓ} :
    {A : Type ℓ} (o : Option (A × List ℕ)) {a : A}
    → result_of o ≡ some a
    → (rest : List ℕ) × (o ≡ some (a, rest))
result_of-eq-some none h = cc
result_of-eq-some (some (a, rest)) h = (rest, ap (λ x. some (x, rest)) (some-injective _ _ h))
