-- ===== src/Hosts.antt =====
-- services/orchestrator/src/orchestrator/main.py and services/watchdog/src/watchdog/main.py: the parser of
-- `CYCLER_HOSTS`, and the chassis ids of the hosts. A text is the list of its code points; a `ValueError`
-- is `none`. What Python calls a space, and its `int`, are parameters.
pub mod Texts
pub mod Written
use battery_lab_sim.Prelude.{
  ℕ, suc, ◌+◌, Bool, true, false, ◌&&◌, Option, none, some, List, [], ◌∷◌, ◌==◌, if◌then◌else◌,
}
use battery_lab_sim.Prelude.Int.{ℤ, pos}

abbrev pub Text : Type 0
Text = List ℕ

abbrev pub is_empty : Text → Bool
is_empty [] = true
is_empty (c ∷ s) = false

abbrev pub onto_first : ℕ → List Text → List Text
onto_first c [] = (c ∷ []) ∷ []
onto_first c (p ∷ ps) = (c ∷ p) ∷ ps

-- `s.split(sep)`
unfoldable pub split : ℕ → Text → List Text
split sep [] = [] ∷ []
split sep (c ∷ s) = let parts = split sep s in if c == sep then [] ∷ parts else onto_first c parts

-- `s.partition(sep)`, without the separator
unfoldable pub partition : ℕ → Text → Text × Text
partition sep [] = ([], [])
partition sep (c ∷ s) =
    let (before, after) = partition sep s in if c == sep then ([], s) else (c ∷ before, after)

module _ (is_space : ℕ → Bool) where
  unfoldable pub lstrip : Text → Text
  lstrip [] = []
  lstrip (c ∷ s) = let rest = lstrip s in if is_space c then rest else c ∷ s

  unfoldable pub rstrip : Text → Text
  rstrip [] = []
  rstrip (c ∷ s) = let rest = rstrip s in if is_empty rest && is_space c then [] else c ∷ rest

  -- `s.strip()`
  unfoldable pub strip : Text → Text
  unfolding lstrip rstrip
  strip s = rstrip (lstrip s)

  module _ (int : Text → Option ℤ) where
    -- `int(port or 502)`
    unfoldable pub port_of : Text → Option ℤ
    port_of [] = some (pos 502)
    port_of (c ∷ s) = int (c ∷ s)

    abbrev pub append_host : Text → Option ℤ → Option (List (Text × ℤ)) → Option (List (Text × ℤ))
    append_host host none rest = none
    append_host host (some port) none = none
    append_host host (some port) (some hosts) = some ((host, port) ∷ hosts)

    abbrev pub parse_token : Text × Text → Option (List (Text × ℤ)) → Option (List (Text × ℤ))
    parse_token (host, port) rest = append_host host (port_of port) rest

    unfoldable pub parse_tokens : List Text → Option (List (Text × ℤ))
    unfolding strip partition
    parse_tokens [] = some []
    parse_tokens (token ∷ tokens) =
        let rest = parse_tokens tokens in
        if is_empty (strip token) then rest else parse_token (partition b':' (strip token)) rest

    -- `_parse_cycler_hosts`
    unfoldable pub parse_cycler_hosts : Text → Option (List (Text × ℤ))
    unfolding split parse_tokens
    parse_cycler_hosts env_value = parse_tokens (split b',' env_value)

-- `{i + 1: c for i, c in enumerate(cyclers)}`, from the number that comes next.
unfoldable pub enumerate_from : {A : Type 0} → ℕ → List A → List (ℕ × A)
enumerate_from i [] = []
enumerate_from i (a ∷ as') = (i, a) ∷ enumerate_from (i + 1) as'

unfoldable pub cyclers_by_id : {A : Type 0} → List A → List (ℕ × A)
unfolding enumerate_from
cyclers_by_id cyclers = enumerate_from 1 cyclers
