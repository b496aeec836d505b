-- ===== src/Grpc/Resolver/Watcher.antt =====
-- `Build`, `ResolveNow`, `Close` and the loop `watcher` of pkg/yapr/core/grpc/resolver.go. A round of the
-- loop starts by a request in the channel `rn` or by the ticker; what the process finds then is the
-- round's argument.
use mathlib.Core.Path.{subst}
use yapr.Prelude.{
  ℕ, ◌+◌, ◌≤◌, String, Bool, true, false, not, ◌&&◌, List, [], ◌∷◌, ◌++◌, Option, none, some,
  length, length-append, if◌then◌else◌, ◌≡◌, refl, sym, inl, inr, Bool-cases, arith,
}
use yapr.Endpoint.{Endpoint}
use yapr.Errcode.{Result}
use yapr.Types.{Router, Selector}
use yapr.Router.Target.{parse_target}
use yapr.Grpc.Resolver.{ResolverState, resolver_state}

-- `rn` holds one request at most. `cancelled` is the context's, and the watcher has `stopped` when it
-- has seen it. The updates are the states sent to gRPC.
pub record YaprResolver : Type 0 where
  pub router_name : String
  pub port : ℕ
  pub rn : Bool
  pub cancelled : Bool
  pub stopped : Bool
  pub updates : List ResolverState

-- `GetRouter`, `GetSelector` and `Endpoints` of the services, at the time of a round
pub record Found : Type 0 where
  pub router : String → Result Router
  pub selector : String → Result Selector
  pub services : String → Option (List Endpoint)

abbrev pub resolve_now : YaprResolver → YaprResolver
resolve_now y = record y { rn = true }

abbrev pub close : YaprResolver → YaprResolver
close y = record y { cancelled = true }

abbrev pub resolver_at : Option (String × ℕ) → Option YaprResolver
resolver_at none = none
resolver_at (some (host, port)) = some (
    resolve_now (record {
      router_name = host;
      port = port;
      rn = false;
      cancelled = false;
      stopped = false;
      updates = [];
    }))

-- `Build`, for the endpoint of a target
unfoldable pub build_resolver : String → Option YaprResolver
build_resolver target = resolver_at (parse_target target)

-- What happens: a call of `ResolveNow` or `Close`, or the `select` of the loop goes on by the channel,
-- by the ticker or by the context that is done.
pub data Event : Type 0 where
  resolves closes finishes : Event
  wakes ticks : Found → Event

abbrev pub update_sent : YaprResolver → Option ResolverState → YaprResolver
update_sent y none = y
update_sent y (some state) = record y { updates = y.updates ++ state ∷ [] }

-- The rest of a round. A router that is not found sends nothing.
abbrev pub watch_round : YaprResolver → Found → YaprResolver
watch_round y f =
    update_sent y (resolver_state f.selector f.services y.port (f.router y.router_name))

unfoldable pub watch_step : YaprResolver → Event → YaprResolver
watch_step y Event.resolves = resolve_now y
watch_step y Event.closes = close y
watch_step y Event.finishes = if y.cancelled then record y { stopped = true } else y
watch_step y (Event.wakes f) =
    if y.rn && not y.stopped then watch_round (record y { rn = false }) f else y
watch_step y (Event.ticks f) = if not y.stopped then watch_round y f else y

unfoldable pub watch : YaprResolver → List Event → YaprResolver
watch y [] = y
watch y (e ∷ es) = watch (watch_step y e) es

-- the calls of `ResolveNow` and the ticks among the events
unfoldable pub causes : List Event → ℕ
causes [] = 0
causes (Event.resolves ∷ es) = causes es + 1
causes (Event.ticks f ∷ es) = causes es + 1
causes (Event.closes ∷ es) = causes es
causes (Event.finishes ∷ es) = causes es
causes (Event.wakes f ∷ es) = causes es

-- A request that waits counts as an update.
abbrev due : YaprResolver → ℕ
due y = length y.updates + (if y.rn then 1 else 0)

length-watch_round :
    (y : YaprResolver) (f : Found)
    → (length (watch_round y f).updates ≤ length y.updates + 1) × ((watch_round y f).rn ≡ y.rn)
length-watch_round y f =
    by_state (resolver_state f.selector f.services y.port (f.router y.router_name))
  where
    by_state :
        (o : Option ResolverState)
        → (length (update_sent y o).updates ≤ length y.updates + 1) × ((update_sent y o).rn ≡ y.rn)
    by_state none = (omega arith, refl)
    by_state (some s) = (omega (arith, length-append y.updates (s ∷ [])), refl)

due-watch_step : (y : YaprResolver) (e : Event) → due (watch_step y e) ≤ due y + causes (e ∷ [])
unfolding watch_step causes
due-watch_step y Event.resolves = ground arith
due-watch_step y Event.closes = ground arith
due-watch_step y Event.finishes = ground arith
due-watch_step y (Event.wakes f) = elim (Bool-cases (y.rn && not y.stopped)) [
  | inl goes ↦ rw goes (ground (arith, goes, length-watch_round (record y { rn = false }) f))
  | inr stays ↦ rw stays (omega arith)
]
due-watch_step y (Event.ticks f) = elim (Bool-cases (not y.stopped)) [
  | inl goes ↦ rw goes (ground (arith, length-watch_round y f))
  | inr stays ↦ rw stays (omega arith)
]

due-watch : (y : YaprResolver) (es : List Event) → due (watch y es) ≤ due y + causes es
unfolding watch causes
due-watch y [] = omega arith
due-watch y (Event.resolves ∷ es) =
    omega (arith, due-watch_step y Event.resolves, due-watch (watch_step y Event.resolves) es)
due-watch y (Event.closes ∷ es) =
    omega (arith, due-watch_step y Event.closes, due-watch (watch_step y Event.closes) es)
due-watch y (Event.finishes ∷ es) =
    omega (arith, due-watch_step y Event.finishes, due-watch (watch_step y Event.finishes) es)
due-watch y (Event.wakes f ∷ es) =
    omega (arith, due-watch_step y (Event.wakes f), due-watch (watch_step y (Event.wakes f)) es)
due-watch y (Event.ticks f ∷ es) =
    omega (arith, due-watch_step y (Event.ticks f), due-watch (watch_step y (Event.ticks f)) es)

-- Whatever happens to a resolver that `Build` returned, in whichever order, it sends no more updates
-- than one, and one for each tick and each call of `ResolveNow`.
pub watch-updates_le :
    (target : String) (y : YaprResolver) (es : List Event)
    → build_resolver target ≡ some y
    → length (watch y es).updates ≤ 1 + causes es
unfolding build_resolver
watch-updates_le target y es is =
    let start : due y ≡ 1 = by_target (parse_target target) is in
    omega (arith, start, due-watch y es)
  where
    by_target : (o : Option (String × ℕ)) → resolver_at o ≡ some y → due y ≡ 1
    by_target none h = cc
    by_target (some (host, port)) h = ground arith

-- When the watcher has stopped, nothing that happens sends an update.
pub watch-stopped :
    (y : YaprResolver) (es : List Event) → y.stopped ≡ true → (watch y es).updates ≡ y.updates
unfolding watch watch_step
watch-stopped y [] over = refl
watch-stopped y (Event.resolves ∷ es) over = watch-stopped (resolve_now y) es over
watch-stopped y (Event.closes ∷ es) over = watch-stopped (close y) es over
watch-stopped y (Event.finishes ∷ es) over =
    elim y.cancelled
      as (λ c. (watch (if c then record y { stopped = true } else y) es).updates ≡ y.updates) [
        | true ↦ watch-stopped (record y { stopped = true }) es refl
        | false ↦ watch-stopped y es over
      ]
watch-stopped y (Event.wakes f ∷ es) over =
    let stays : (y.rn && not y.stopped) ≡ false = ground (arith, over) in
    subst
      (λ b.
        (watch (if b then watch_round (record y { rn = false }) f else y) es).updates ≡ y.updates)
      (sym stays) (watch-stopped y es over)
watch-stopped y (Event.ticks f ∷ es) over =
    subst (λ b. (watch (if not b then watch_round y f else y) es).updates ≡ y.updates) (sym over)
      (watch-stopped y es over)
