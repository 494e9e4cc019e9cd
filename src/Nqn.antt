-- ===== src/Nqn.antt =====
-- The NVMe qualified names that the bridge accepts: the pattern in nvme_subsystem_validate.go.
use opi_nvidia_bridge.Base.{String, Bool, [], ◌∷◌, codes}
use opi_nvidia_bridge.Regexp.{Ranges, Regex, class, seq, plus, repeat, literal, match_string}

-- `[0-9]`
abbrev pub digit : Ranges
digit = (b'0', b'9') ∷ []

-- `[a-zA-Z0-9]`
abbrev pub alphanumeric : Ranges
alphanumeric = (b'a', b'z') ∷ (b'A', b'Z') ∷ (b'0', b'9') ∷ []

-- `[a-zA-Z0-9-.]`
abbrev pub host_character : Ranges
host_character = (b'a', b'z') ∷ (b'A', b'Z') ∷ (b'0', b'9') ∷ (b'-', b'-') ∷ (b'.', b'.') ∷ []

-- `(\.[a-zA-Z0-9]+)+`
abbrev pub domain : Regex
domain = plus (seq (class ((b'.', b'.') ∷ [])) (plus (class alphanumeric)))

-- `(:[a-zA-Z0-9-.]+)+`
abbrev pub hosts : Regex
hosts = plus (seq (class ((b':', b':') ∷ [])) (plus (class host_character)))

-- `^nqn\.[0-9]{4}-[0-9]{2}(\.[a-zA-Z0-9]+)+(:[a-zA-Z0-9-.]+)+$`
abbrev pub nqn_pattern : Regex
nqn_pattern = seq (literal (codes "nqn.")) (
    seq (repeat 4 (class digit))
      (seq (literal (codes "-")) (seq (repeat 2 (class digit)) (seq domain hosts))))

unfoldable pub is_nqn : String → Bool
unfolding match_string
is_nqn nqn = match_string nqn_pattern nqn
