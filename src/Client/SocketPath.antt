-- ===== src/Client/SocketPath.antt =====
-- `default_socket_path` of dinit-client/src/dinit_client/client.py, with the environment and the
-- effective user as arguments.
use dinix.Shared.{
  ℕ, ◌≡◌, ◌≢◌, ◌↔◌, arith, Bool, false, Option, none, some, List, [], ◌∷◌, ◌++◌, ◌==◌,
  if◌then◌else◌,
}
use dinix.Shared.Dict.{lookup}
use dinix.Exceptions.{Result, ok, err, dinit_error}
use dinix.Utf8.{Str}

abbrev pub Environ : Type 0
Environ = List (Str × Str)

abbrev pub dinit_socket_path : Str
dinit_socket_path =
    b'D' ∷ b'I' ∷ b'N' ∷ b'I' ∷ b'T' ∷ b'_' ∷ b'S' ∷ b'O' ∷ b'C' ∷ b'K' ∷ b'E' ∷ b'T' ∷ b'_' ∷ b'P'
    ∷ b'A' ∷ b'T' ∷ b'H' ∷ []

abbrev pub xdg_runtime_dir : Str
xdg_runtime_dir =
    b'X' ∷ b'D' ∷ b'G' ∷ b'_' ∷ b'R' ∷ b'U' ∷ b'N' ∷ b'T' ∷ b'I' ∷ b'M' ∷ b'E' ∷ b'_' ∷ b'D' ∷ b'I'
    ∷ b'R' ∷ []

abbrev pub home : Str
home = b'H' ∷ b'O' ∷ b'M' ∷ b'E' ∷ []

-- `_SYSTEM_SOCKET`
abbrev pub system_socket : Str
system_socket =
    b'/' ∷ b'r' ∷ b'u' ∷ b'n' ∷ b'/' ∷ b'd' ∷ b'i' ∷ b'n' ∷ b'i' ∷ b't' ∷ b'c' ∷ b't' ∷ b'l' ∷ []

abbrev pub dinitctl : Str
dinitctl = b'd' ∷ b'i' ∷ b'n' ∷ b'i' ∷ b't' ∷ b'c' ∷ b't' ∷ b'l' ∷ []

-- `os.path.join(a, b)` for a `b` that is not absolute.
abbrev pub ends_with_slash : Str → Bool
ends_with_slash [] = false
ends_with_slash (c ∷ []) = c == b'/'
ends_with_slash (c ∷ d ∷ s) = ends_with_slash (d ∷ s)

unfoldable pub join : Str → Str → Str
join a b = if ends_with_slash a then a ++ b else a ++ (b'/' ∷ b)

-- A variable that is set, and not to the empty text.
abbrev nonempty : Option Str → Option Str
nonempty none = none
nonempty (some []) = none
nonempty (some (c ∷ s)) = some (c ∷ s)

unfoldable pub getenv : Environ → Str → Option Str
getenv environ name = nonempty (lookup name environ)

unfoldable pub default_socket_path : Environ → ℕ → Result Str
default_socket_path environ uid = elim (getenv environ dinit_socket_path) [
  | some override ↦ ok override
  | none ↦ if uid == 0 then ok system_socket else elim (getenv environ xdg_runtime_dir) [
    | some runtime_dir ↦ ok (join runtime_dir dinitctl)
    | none ↦ elim (getenv environ home) [
      | some home ↦ ok (join home (b'.' ∷ dinitctl))
      | none ↦ err dinit_error
    ]
  ]
]

-- `default_socket_path` raises `DinitError` exactly if the user is not root and none of
-- `DINIT_SOCKET_PATH`, `XDG_RUNTIME_DIR` and `HOME` is set to a text that is not empty.
pub default_socket_path-raises :
    (environ : Environ) (uid : ℕ)
    → (default_socket_path environ uid ≡ err dinit_error) ↔ (
        (getenv environ dinit_socket_path ≡ none)
        × (uid ≢ 0)
        × (getenv environ xdg_runtime_dir ≡ none)
        × (getenv environ home ≡ none))
unfolding default_socket_path
default_socket_path-raises environ uid = ground arith
