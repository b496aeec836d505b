-- ===== src/Tests.antt =====
-- Values for the tests, which are in the children.
mod Services
mod Strategies
mod Routes
mod Selections
mod Servers
mod Stores
mod Clients
mod Connections
mod Exchanges
mod Reports
mod Starts
mod Echoes
use Prim.Native.Char.{code}
use yapr.Prelude.{ℕ, ◌+◌, ◌*◌, ◌%◌, String, true, List, [], ◌∷◌, Option, none, some}
use yapr.Prelude.Dict.{Dict}
use yapr.Endpoint.{Endpoint}
use yapr.Types.{Attribute, AttributeInSelector, MatchTarget, Selector, buffer_none}
use yapr.Strategy.{Candidates}

abbrev pub alpha : Endpoint
alpha = record { ip = "10.0.0.1"; pod = "pod-a"; port = 8080 }

abbrev pub beta : Endpoint
beta = record { ip = "10.0.0.2"; pod = "pod-b"; port = 0 }

abbrev pub weighing : ℕ → Attribute
weighing w = record {
  common = record { available = true };
  in_selector = some (record { weight = some w; rps = some 10; deadline = none });
}

abbrev pub two : Candidates
two = (alpha, weighing 2) ∷ (beta, weighing 1) ∷ []

abbrev pub request : MatchTarget
request = record { uri = "/echo"; port = 9090; headers = ("user", "42") ∷ [] }

-- A hash for the tests.
abbrev pub sum_hash : String → ℕ
sum_hash String.[] = 7
sum_hash (String.◌∷◌ c s) = (code c + 31 * sum_hash s) % 1009

abbrev pub settings : Selector
settings = record {
  name = "echo-all";
  service = "echo";
  port = 7070;
  headers = ("kind", "test") ∷ [];
  strategy = "random";
  max_requests = some 100;
  key = "";
  cache_type = buffer_none;
  cache_size = none;
  script = "";
}
