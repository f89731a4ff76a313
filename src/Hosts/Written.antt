-- ===== src/Hosts/Written.antt =====
-- The parser of `CYCLER_HOSTS` reads back a list of hosts that was written out.
use battery_lab_sim.Prelude.{
  ℕ, ◌≡◌, refl, ap, ◌∙◌, Bool, false, Option, none, some, List, [], ◌∷◌, ◌++◌, ◌==◌, All,
  All-append, map,
}
use battery_lab_sim.Prelude.Int.{ℤ, pos}
use battery_lab_sim.Hosts.{
  Text, is_empty, split, partition, lstrip, rstrip, strip, port_of, parse_token, parse_tokens,
  parse_cycler_hosts,
}
use battery_lab_sim.Hosts.Texts.{
  Lacks, join, split-join, partition_at, partition_none, Blank, Solid, strip_padded, strip-Blank,
  Blank-Lacks,
}

-- A part of the list as it is written: spaces, or a host with spaces round it and perhaps a port, whose
-- number stands beside its text.
pub data Token : Type 0 where
  blank : Text → Token
  host : (left name : Text) (port : Option (Text × ℤ)) (right : Text) → Token

abbrev pub address : Text → Option (Text × ℤ) → Text
address name none = name
address name (some (port, n)) = name ++ b':' ∷ port

abbrev pub as_written : Token → Text
as_written (blank s) = s
as_written (host left name port right) = left ++ (address name port ++ right)

abbrev pub hosts_of : List Token → List (Text × ℤ)
hosts_of [] = []
hosts_of (blank s ∷ tokens) = hosts_of tokens
hosts_of (host left name none right ∷ tokens) = (name, pos 502) ∷ hosts_of tokens
hosts_of (host left name (some (port, n)) right ∷ tokens) = (name, n) ∷ hosts_of tokens

module _ (is_space : ℕ → Bool) (int : Text → Option ℤ) where
  -- A text of no space and no comma, and not empty.
  abbrev pub IsName : Text → Type 0
  IsName s = Solid is_space s × Lacks b',' s × (is_empty s ≡ false)

  abbrev pub IsPort : Option (Text × ℤ) → Type 0
  IsPort none = Unit
  IsPort (some (port, n)) = IsName port × (int port ≡ some n)

  abbrev pub IsToken : Token → Type 0
  IsToken (blank s) = Blank is_space s
  IsToken (host left name port right) =
      Blank is_space left × IsName name × Lacks b':' name × IsPort port × Blank is_space right

  module _ (comma : is_space b',' ≡ false) (colon : is_space b':' ≡ false) where
    address-IsName :
        (name : Text) (port : Option (Text × ℤ))
        → IsName name
        → IsPort port
        → IsName (address name port)
    address-IsName name none h k = h
    address-IsName (c ∷ name) (some (port, n)) h k = (
      All-append (λ c. is_space c ≡ false) (c ∷ name) (b':' ∷ port) h.0 (colon, k.0.0),
      All-append (λ c. (c == b',') ≡ false) (c ∷ name) (b':' ∷ port) h.1 (refl, k.0.1),
      refl,
    )
    address-IsName [] (some (port, n)) h k = absurd (cc)

    as_written-Lacks : (t : Token) → IsToken t → Lacks b',' (as_written t)
    as_written-Lacks (blank s) h = Blank-Lacks is_space b',' comma s h
    as_written-Lacks (host left name port right) h =
        All-append (λ c. (c == b',') ≡ false) left (address name port ++ right)
          (Blank-Lacks is_space b',' comma left h.0)
          (All-append (λ c. (c == b',') ≡ false) (address name port) right
            (address-IsName name port h.1 h.3).1 (Blank-Lacks is_space b',' comma right h.4))

    All-Lacks : (ts : List Token) → All IsToken ts → All (Lacks b',') (map as_written ts)
    All-Lacks [] h = tt
    All-Lacks (t ∷ ts) h = (as_written-Lacks t h.0, All-Lacks ts h.1)

    parse-Blank :
        (s : Text) (tokens : List Text)
        → Blank is_space s
        → parse_tokens is_space int (s ∷ tokens) ≡ parse_tokens is_space int tokens
    unfolding parse_tokens
    parse-Blank s tokens h = rw (strip-Blank is_space s h) refl

    parse_host :
        (left name : Text) (port : Option (Text × ℤ)) (right : Text) (tokens : List Text)
        → IsToken (host left name port right)
        → parse_tokens is_space int (as_written (host left name port right) ∷ tokens)
          ≡ parse_token is_space int
              (partition b':' (address name port))
              (parse_tokens is_space int tokens)
    unfolding parse_tokens
    parse_host left name port right tokens h =
        let full = address-IsName name port h.1 h.3 in
        rw (strip_padded is_space left (address name port) right h.0 full.0 full.2 h.4, full.2) refl

    parse_address :
        (name : Text) (port : Option (Text × ℤ)) (left right : Text) (ts : List Token)
        → Lacks b':' name
        → IsPort port
        → parse_token is_space int (partition b':' (address name port)) (some (hosts_of ts))
          ≡ some (hosts_of (host left name port right ∷ ts))
    unfolding port_of
    parse_address name none left right ts h k = rw (partition_none b':' name h) refl
    parse_address name (some (c ∷ port, n)) left right ts h k =
        rw (partition_at b':' name (c ∷ port) h, k.1) refl
    parse_address name (some ([], n)) left right ts h k = absurd (cc)

    parse_tokens-as_written :
        (ts : List Token)
        → All IsToken ts
        → parse_tokens is_space int (map as_written ts) ≡ some (hosts_of ts)
    parse_tokens-as_written [] h = unfold parse_tokens in refl
    parse_tokens-as_written (blank s ∷ ts) h =
        parse-Blank s (map as_written ts) h.0 ∙ parse_tokens-as_written ts h.1
    parse_tokens-as_written (host left name port right ∷ ts) h =
        parse_host left name port right (map as_written ts) h.0
        ∙ ap (parse_token is_space int (partition b':' (address name port)))
            (parse_tokens-as_written ts h.1)
        ∙ parse_address name port left right ts h.0.2 h.0.3

    -- A list of hosts that is written with a comma between two, with spaces anywhere around them, with
    -- or without ports, and with parts left blank, is read as these hosts in order, with port 502 where
    -- none is written, if a comma and a colon are no spaces and `int` reads the ports that are written.
    pub parse_cycler_hosts-as_written :
        (ts : List Token)
        → All IsToken ts
        → parse_cycler_hosts is_space int (join b',' (map as_written ts)) ≡ some (hosts_of ts)
    unfolding parse_cycler_hosts split
    parse_cycler_hosts-as_written [] h = unfold parse_tokens strip lstrip rstrip in refl
    parse_cycler_hosts-as_written (t ∷ ts) h =
        ap (parse_tokens is_space int)
          (split-join b',' (as_written t) (map as_written ts) (All-Lacks (t ∷ ts) h))
        ∙ parse_tokens-as_written (t ∷ ts) h
