-- ===== src/Ports.antt =====
-- `fcc-extension/go/internal/config/config.go`, `fcc-extension/go/cmd/docker/main.go`, `fcc-extension/go/cmd/start-tee/main.go` and
-- `fcc-extension/tools/cmd/start-proxy/main.go`: what the entry points take from their environment.
pub mod Decimal
pub mod Laws
use Prim.Native.Char.{code}
use Prim.Native.String.{[] as nil, ◌∷◌ as ◌▸◌}
use aurelith.Base.{
  ℕ, zero, suc, String, Bool, Option, none, some, Error, Result, ok, err, ◌==◌, nat_eq, string_eq,
  ltb, leb, if◌then◌else◌,
}
use aurelith.Base.Text.{◌<>◌, decimal_from, show_ℕ}
use aurelith.World.{World, Address, Reply, failed, reply, missing, unreadable, contents}
use aurelith.Chain.Support.{Library, prv_with_funds, trim_key_prefix}

-- An `int`: `negsuc n` is −(n + 1).
pub data ℤ : Type 0 where
  pos negsuc : ℕ → ℤ

-- The digits after the sign.
abbrev pub digits : String → Option ℕ
digits nil = none
digits s = decimal_from 0 s

abbrev pub positive : Option ℕ → Option ℤ
positive none = none
positive (some v) = if ltb v 9223372036854775808 then some (pos v) else none

abbrev pub negate : ℕ → ℤ
negate zero = pos 0
negate (suc n) = negsuc n

abbrev pub negative : Option ℕ → Option ℤ
negative none = none
negative (some v) = if leb v 9223372036854775808 then some (negate v) else none

-- `strconv.Atoi`: `none` for its error, also out of range.
unfoldable pub atoi : String → Option ℤ
unfolding decimal_from
atoi nil = none
atoi (c ▸ s) =
    if code c == b'-'
    then negative (digits s)
    else if code c == b'+'
    then positive (digits s)
    else positive (digits (c ▸ s))

abbrev pub default_extension_port : ℤ
default_extension_port = pos 8080

abbrev pub default_sign_port : ℤ
default_sign_port = pos 9090

-- The value of a variable, if it is an integer, or else the default.
abbrev pub or_default : ℤ → Option ℤ → ℤ
or_default fallback none = fallback
or_default fallback (some v) = v

-- One of the two variables in `init` of the package `config`.
unfoldable pub port_of : String → ℤ → ℤ
unfolding atoi
port_of text fallback = if text == "" then fallback else or_default fallback (atoi text)

-- `ExtensionPort` and `SignPort` after `init`.
unfoldable pub config_init : World → ℤ × ℤ
unfolding port_of
config_init w = (
  port_of (w.getenv "EXTENSION_PORT") default_extension_port,
  port_of (w.getenv "SIGN_PORT") default_sign_port,
)

-- `intEnv`
unfoldable pub int_env : World → String → ℤ → ℤ
unfolding atoi
int_env w key fallback = or_default fallback (atoi (w.getenv key))

-- The ports of the Docker entry point: of the configuration, for signing, and of the extension.
unfoldable pub docker_ports : World → ℤ × ℤ × ℤ
unfolding int_env config_init
docker_ports w =
    let (extension_port, sign_port) = config_init w in
    (int_env w "CONFIG_PORT" (pos 5501), sign_port, extension_port)

-- `os.Setenv`
unfoldable pub setenv : String → String → World → World
setenv name value w = record w { getenv = λ other. if other == name then value else w.getenv other }

-- The key of `setOwnerAddress`.
unfoldable pub owner_private_key : Library → World → Result ℕ
unfolding trim_key_prefix
owner_private_key lib w =
    let raw = w.getenv "DEPLOYMENT_PRIVATE_KEY" in
    if raw == "" then ok prv_with_funds else lib.hex_to_ecdsa (trim_key_prefix raw)

-- `setOwnerAddress` of start-tee: the environment after it and what it returns, which is made of
-- the variable as it was. `Address.String` is the same text as `Address.Hex`.
unfoldable pub set_owner_address : Library → World → World × Result Address
unfolding owner_private_key setenv
set_owner_address lib w =
    let owner = w.getenv "INITIAL_OWNER" in
    if owner == ""
    then (elim (owner_private_key lib w) [
      | err e ↦ (w, err e)
      | ok key ↦ (
        setenv "INITIAL_OWNER" (w.address_hex (w.pubkey_to_address key)) w,
        ok (w.hex_to_address owner),
      )
    ])
    else (w, ok (w.hex_to_address owner))

-- The environment in which start-tee runs the extension, with its flag `-extensionID`.
unfoldable pub start_tee_env : Library → World → String → World
unfolding set_owner_address setenv
start_tee_env lib w extension_id =
    let (w₁, owner) = set_owner_address lib w in
    if extension_id == "" then w₁ else setenv "EXTENSION_ID" extension_id w₁

-- `setProxyURL` of start-tee and `SetProxyUrl` of the tools, where `marshal` is the JSON of the
-- request, and `post` sends it to a URL.
unfoldable pub set_proxy_url : (String → Result String) → (String → String → Reply) → ℕ → ℕ → Error
unfolding show_ℕ
set_proxy_url marshal post configuration_port proxy_port =
    elim (marshal ("http://localhost:" <> show_ℕ proxy_port)) [
      | err e ↦ some e
      | ok body ↦ elim (post ("http://localhost:" <> show_ℕ configuration_port <> "/proxy") body) [
        | failed e ↦ some e
        | reply status answer ↦
            if status == 200 then none else some ("unexpected status code: " <> show_ℕ status)
      ]
    ]

-- `findProxyConfig` of start-proxy, for the root of the project.
unfoldable pub find_proxy_config : World → String → String
find_proxy_config w root =
    let candidate = root <> "/config/proxy/extension_proxy.toml" in
    let chosen : String = elim (w.file candidate) [
      | missing ↦ "./config/proxy/extension_proxy.toml"
      | unreadable ↦ candidate
      | contents text ↦ candidate
    ] in
    if w.getenv "PROXY_CONFIG" == "" then chosen else w.getenv "PROXY_CONFIG"
