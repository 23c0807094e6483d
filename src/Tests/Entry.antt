-- ===== src/Tests/Entry.antt =====
-- The entry points in small environments, and the diagnosis of a revert.
use aurelith.Base.{
  ◌≡◌, ◌≢◌, ◌≤◌, refl, ap, false, none, some, List, [], ◌∷◌, ok, length, arith, ℕ_discrete,
  string_eq, if◌then◌else◌, ◌==◌,
}
use aurelith.Base.Text.{len}
use aurelith.World.{World}
use aurelith.Revert.{four, bytes_equal}
use aurelith.Chain.Support.{prv_with_funds}
use aurelith.Ports.{pos, default_extension_port, default_sign_port, docker_ports, owner_private_key}
use aurelith.Ports.Laws.{IsPort, docker_ports-IsPort}
use aurelith.Diagnosis.{
  Source, Decoders, RpcError, byte_data, error_string, extract_revert_data, diagnose,
}
use aurelith.Diagnosis.Laws.{IsDiagnosis, diagnose-IsDiagnosis}
use aurelith.Tests.{test_world}
use aurelith.Tests.Chains.{test_library}

abbrev port_world : World
port_world = record test_world { getenv = λ name. if name == "SIGN_PORT" then "7701" else "" }

docker_ports-IsPort_example :
    let (config_port, sign_port, extension_port) = docker_ports port_world in
    IsPort (port_world.getenv "CONFIG_PORT") (pos 5501) config_port
    × IsPort (port_world.getenv "SIGN_PORT") default_sign_port sign_port
    × IsPort (port_world.getenv "EXTENSION_PORT") default_extension_port extension_port
docker_ports-IsPort_example = docker_ports-IsPort port_world

default_key : owner_private_key test_library test_world ≡ ok prv_with_funds
unfolding owner_private_key string_eq
default_key = refl

address_some : test_world.address_hex 5 ≢ ""
address_some h = absurd (omega (arith, ap len h))

abbrev test_decoders : Decoders
test_decoders = record { from_hex = λ text. []; unpack_revert = λ bytes. none }

abbrev two_sources : List Source
two_sources =
    ("Verification", none)
    ∷ (
      "MachineManager",
      some (
          record { name = "ChallengeExpired"; selector = 1 ∷ 2 ∷ 3 ∷ 4 ∷ []; arguments = λ p. none }
          ∷ []),
    )
    ∷ []

abbrev expired : RpcError
expired = record {
  message = "execution reverted";
  data_ = some (byte_data (1 ∷ 2 ∷ 3 ∷ 4 ∷ 9 ∷ []));
}

expired_data : extract_revert_data test_decoders (some expired) ≡ 1 ∷ 2 ∷ 3 ∷ 4 ∷ 9 ∷ []
unfolding extract_revert_data
expired_data = refl

expired_long : 4 ≤ length (extract_revert_data test_decoders (some expired))
unfolding extract_revert_data
expired_long = omega arith

expired_custom :
    bytes_equal (four (extract_revert_data test_decoders (some expired))) error_string ≡ false
unfolding extract_revert_data ℕ_discrete
expired_custom = refl

diagnose-IsDiagnosis_example :
    IsDiagnosis two_sources
      (extract_revert_data test_decoders (some expired))
      (diagnose test_decoders two_sources (some expired))
diagnose-IsDiagnosis_example =
    diagnose-IsDiagnosis test_decoders two_sources expired expired_long expired_custom
