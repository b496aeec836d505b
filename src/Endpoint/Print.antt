-- ===== src/Endpoint/Print.antt =====
-- The text form of an endpoint is read back.
use Prim.Native.Char.{Char}
use yapr.Prelude.{
  ◌^◌, ◌<◌, String, ◌≡◌, refl, ap, ◌∙◌, Option, none, List, [], ◌∷◌, Option, none, some, arith,
}
use yapr.Text.{concat, concat-singleton}
use yapr.Text.Split.{split, Lacks, split_lacking, split-concat}
use yapr.Text.Decimal.{ℤ, pos, negsuc, format, atoi, atoi-format, format-Lacks}
use yapr.Endpoint.{Endpoint, with_port, from_parts, to_string, endpoint_from_string}

abbrev hash : Char
hash = "#"

split-to_string :
    (e : Endpoint)
    → Lacks b'#' e.ip
    → Lacks b'#' e.pod
    → split b'#' (to_string e) ≡ e.ip ∷ e.pod ∷ format e.port ∷ []
unfolding to_string
split-to_string e ip pod =
    ap (λ t. split b'#' (concat e.ip t))
      (concat-singleton hash (concat e.pod (concat "#" (format e.port))))
    ∙ split-concat hash e.ip _ ip
    ∙ ap (◌∷◌ e.ip) (
        ap (λ t. split b'#' (concat e.pod t)) (concat-singleton hash (format e.port))
        ∙ split-concat hash e.pod _ pod
        ∙ ap (◌∷◌ e.pod) (split_lacking b'#' _ (format-Lacks b'#' e.port refl)))

-- An endpoint without `#` in its IP and pod, and with a port of 32 bits, is read back from its text.
pub endpoint_from_string-to_string :
    (e : Endpoint)
    → Lacks b'#' e.ip
    → Lacks b'#' e.pod
    → e.port < 2 ^ 32
    → endpoint_from_string (to_string e) ≡ some e
unfolding endpoint_from_string
endpoint_from_string-to_string e ip pod port =
    rw (split-to_string e ip pod) (rw (atoi-format e.port (omega arith)) (ground arith))

with_port_lt :
    (ip pod : String) (i : Option ℤ) {e : Endpoint} → with_port ip pod i ≡ some e → e.port < 2 ^ 32
with_port_lt ip pod none h = cc
with_port_lt ip pod (some (pos n)) h = ground arith
with_port_lt ip pod (some (negsuc n)) h = ground arith

from_parts_port : (l : List String) {e : Endpoint} → from_parts l ≡ some e → e.port < 2 ^ 32
from_parts_port (ip ∷ pod ∷ port ∷ []) h = with_port_lt ip pod (atoi port) h
from_parts_port _ h = cc

-- Whatever text is read, the port is a 32-bit number.
pub endpoint_from_string_port :
    (s : String) {e : Endpoint} → endpoint_from_string s ≡ some e → e.port < 2 ^ 32
unfolding endpoint_from_string
endpoint_from_string_port s h = from_parts_port (split b'#' s) h
