-- ===== src/Engine/Build/Built.antt =====
-- The engine that `buildEngine` (daemon.go) returns.
use mathlib.Core.List.{Mem}
use yachtsense_link_emulator.Common.{false, List, ◌∷◌, All, ◌≡◌, ◌⊎◌}
use yachtsense_link_emulator.Common.Bytes.{Bytes}
use yachtsense_link_emulator.Dns.Types.{Env}
use yachtsense_link_emulator.Dns.Message.Build.{Configuration}
use yachtsense_link_emulator.Engine.Build.{Net}
use yachtsense_link_emulator.Engine.Loop.{Endpoint, Engine}
use yachtsense_link_emulator.Engine.Build.Named.{names_of}
use yachtsense_link_emulator.Engine.Build.Made.{IsEndpoint, Distinct}

-- What `buildEngine` promises
pub record IsBuilt (env : Env) (net : Net) (c : Configuration) (g : Engine) : Type 0 where
  pub endpoints : All (IsEndpoint env net c g.local_ips) g.endpoints
  pub distinct : Distinct g.endpoints
  pub complete : All (λ n. Mem n (names_of g.endpoints)) (c.axiom_interface ∷ c.remote_interfaces)
  pub known : All (λ ep. Mem ep.name (c.axiom_interface ∷ c.remote_interfaces)) g.endpoints
  pub mfd_first : g.axiom_endpoint.name ≡ c.axiom_interface
  pub others : List Endpoint
  pub order : g.endpoints ≡ g.axiom_endpoint ∷ others
  pub single : (c.existing_reflector ≡ false) ⊎ All (λ ep. ep.publish ≡ false) others
