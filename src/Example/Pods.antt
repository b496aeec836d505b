-- ===== src/Example/Pods.antt =====
-- The start of the server programs of cmd/example: the ports that a server listens on, the endpoints that it
-- registers, and `setWeight`. The flags `id` and `endpointCnt` are numbers.
pub mod Apart
pub mod Weights
use yapr.Prelude.{ℕ, zero, suc, ◌+◌, ◌-◌, ◌*◌, ◌%◌, ◌^◌, String, List, [], ◌∷◌, some, none, map}
use yapr.Endpoint.{Endpoint}
use yapr.Types.{AttributeInSelector}
use yapr.Store.Attributes.{Hashes}
use yapr.Store.Attributes.Reported.{SdkReport, attribute, report_all, weight_attribute}

-- `for port := first; port < last; port++`, by the rounds that are left
unfoldable pub ports_from : ℕ → ℕ → List ℕ
ports_from first zero = []
ports_from first (suc left) = first ∷ ports_from (first + 1) left

abbrev pub first_port : ℕ → ℕ → ℕ
first_port id count = (23333 + (id - 1) * count) % 2 ^ 32

abbrev pub last_port : ℕ → ℕ → ℕ
last_port id count = (23333 + id * count) % 2 ^ 32

-- The loop of `main`: no round if the first port is not below the last.
unfoldable pub ports : ℕ → ℕ → List ℕ
ports id count = ports_from (first_port id count) (last_port id count - first_port id count)

-- `sdk.NewEndpointWithPort`
abbrev pub new_endpoint_with_port : String → String → ℕ → Endpoint
new_endpoint_with_port pod ip port = record { ip = ip; pod = pod; port = port }

-- `sdk.NewEndpoint`
abbrev pub new_endpoint : String → String → Endpoint
new_endpoint pod ip = record { ip = ip; pod = pod; port = 0 }

unfoldable pub endpoints_of : String → String → ℕ → ℕ → List Endpoint
endpoints_of pod ip id count = map (new_endpoint_with_port pod ip) (ports id count)

-- the calls of `setWeight`
unfoldable pub weight_reports : ℕ → List Endpoint → List SdkReport
weight_reports w [] = []
weight_reports w (e ∷ es) =
    attribute e "echo-weighted" (weight_attribute (w % 2 ^ 32)) ∷ weight_reports w es

-- `setWeight`, where the store returns no error
unfoldable pub set_weight : Hashes → ℕ → List Endpoint → Hashes
set_weight h w es = report_all h (weight_reports w es)
