-- ===== src/Examples/HostsRuns.antt =====
-- The parser of hosts at a concrete input.
use battery_lab_sim.Prelude.{
  ℕ, ◌+◌, ◌-◌, ◌*◌, ◌≡◌, refl, Bool, ◌&&◌, Option, none, some, List, [], ◌∷◌, map, arith, ◌==◌, leb,
  if◌then◌else◌,
}
use battery_lab_sim.Prelude.Int.{ℤ, pos}
use battery_lab_sim.Hosts.{Text, parse_cycler_hosts}
use battery_lab_sim.Hosts.Texts.{join}
use battery_lab_sim.Hosts.Written.{Token, blank, host, as_written, parse_cycler_hosts-as_written}

-- A text of decimal digits as a number.
abbrev pub digits : ℕ → Text → Option ℤ
digits n [] = some (pos n)
digits n (c ∷ s) = if leb b'0' c && leb c b'9' then digits (n * 10 + (c - b'0')) s else none

abbrev pub decimal : Text → Option ℤ
decimal s = digits 0 s

abbrev is_space : ℕ → Bool
is_space c = c == 32

-- "c1:1502, c2, "
abbrev tokens : List Token
tokens =
    host [] (b'c' ∷ b'1' ∷ []) (some (b'1' ∷ b'5' ∷ b'0' ∷ b'2' ∷ [], pos 1502)) []
    ∷ host (32 ∷ []) (b'c' ∷ b'2' ∷ []) none []
    ∷ blank (32 ∷ [])
    ∷ []

parse_cycler_hosts-as_written_example :
    parse_cycler_hosts is_space decimal (join b',' (map as_written tokens))
    ≡ some ((b'c' ∷ b'1' ∷ [], pos 1502) ∷ (b'c' ∷ b'2' ∷ [], pos 502) ∷ [])
parse_cycler_hosts-as_written_example =
    parse_cycler_hosts-as_written is_space decimal refl refl tokens (ground arith)
