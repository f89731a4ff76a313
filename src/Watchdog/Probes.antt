-- ===== src/Watchdog/Probes.antt =====
-- services/watchdog/src/watchdog/main.py: the probes of the hosts in `CYCLER_HOSTS`.
use battery_lab_sim.Prelude.{ℕ, Bool, Option, List, map}
use battery_lab_sim.Prelude.Int.{ℤ}
use battery_lab_sim.Hosts.{Text, parse_cycler_hosts as parse_hosts, enumerate_from}

pub record ChassisProbe : Type 0 where
  pub host : Text
  pub port : ℤ
  pub chassis_id : ℕ

-- `_parse_cycler_hosts`, the same code as the orchestrator's
unfoldable pub parse_cycler_hosts : (ℕ → Bool) → (Text → Option ℤ) → Text → Option (List (Text × ℤ))
unfolding parse_hosts
parse_cycler_hosts is_space int env_value = parse_hosts is_space int env_value

-- `[ChassisProbe(host=h, port=p, chassis_id=i + 1) for i, (h, p) in enumerate(cycler_hosts)]`
unfoldable pub probes_of : List (Text × ℤ) → List ChassisProbe
unfolding enumerate_from
probes_of hosts =
    map {A = ℕ × (Text × ℤ)} (λ e. record { host = e.1.0; port = e.1.1; chassis_id = e.0 })
      (enumerate_from 1 hosts)
