-- ===== src/Ports/Laws.antt =====
-- What the entry points have in hand.
use aurelith.Base.{ℕ, ◌≡◌, ◌<◌, sym, ap, ◌∙◌, String, none, arith, string_eq}
use aurelith.Base.Text.{show_ℕ}
use aurelith.World.{World}
use aurelith.Ports.{
  ℤ, pos, atoi, or_default, port_of, config_init, int_env, docker_ports, default_extension_port,
  default_sign_port,
}
use aurelith.Ports.Decimal.{atoi-show_ℕ, show_ℕ-some}

-- The port that a variable asks for: the number that it prints, or the default if it is no
-- integer.
abbrev pub IsPort : String → ℤ → ℤ → Type 0
IsPort text fallback port =
    ((n : ℕ) → text ≡ show_ℕ n → n < 9223372036854775808 → port ≡ pos n)
    × (atoi text ≡ none → port ≡ fallback)

or_default-IsPort :
    (text : String) (fallback : ℤ) → IsPort text fallback (or_default fallback (atoi text))
or_default-IsPort text fallback = (
  λ n printed small. ap (or_default fallback) (ap atoi printed ∙ atoi-show_ℕ n small),
  λ unread. ap (or_default fallback) unread,
)

port_of-IsPort : (text : String) (fallback : ℤ) → IsPort text fallback (port_of text fallback)
unfolding port_of
port_of-IsPort text fallback = elim (string_eq.dec text "") [
  | yes empty ↦
      (λ n printed small. absurd (show_ℕ-some n (sym printed ∙ empty)), λ unread. ground arith)
  | no some_text ↦
      let (reads, defaults) = or_default-IsPort text fallback in
      (
        λ n printed small. ground (arith, some_text, reads n printed small),
        λ unread. ground (arith, some_text, defaults unread),
      )
]

-- The Docker entry point uses the ports that the variables CONFIG_PORT, SIGN_PORT and
-- EXTENSION_PORT print as numbers below 2^63, and 5501, 9090 and 8080 where they are no integers.
pub docker_ports-IsPort :
    (w : World)
    → let (config_port, sign_port, extension_port) = docker_ports w in
      IsPort (w.getenv "CONFIG_PORT") (pos 5501) config_port
      × IsPort (w.getenv "SIGN_PORT") default_sign_port sign_port
      × IsPort (w.getenv "EXTENSION_PORT") default_extension_port extension_port
unfolding docker_ports config_init int_env
docker_ports-IsPort w = (
  or_default-IsPort (w.getenv "CONFIG_PORT") (pos 5501),
  port_of-IsPort (w.getenv "SIGN_PORT") default_sign_port,
  port_of-IsPort (w.getenv "EXTENSION_PORT") default_extension_port,
)
