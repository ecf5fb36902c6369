-- ===== src/LogicServer/Link/Place.antt =====
-- The one process that keeps the connection to the center server, and where it can be.
use dserver_framework.Prelude.{
  ℕ, ◌+◌, ◌≤◌, ◌≡◌, ◌≢◌, ◌↔◌, refl, sym, ap, ◌∙◌, Option, none, some, [], ◌∷◌, arith, length,
  lookup, update, insert, erase,
}
use dserver_framework.LogicServer.Link.{Phase, made, entered, closed, Link, destroy, add_ping_timer}

-- Where the one process is that keeps the connection.
pub data Place : Type 0 where
  at_connect : Place
  at_sleep : Place
  at_timer : Place
  at_object : ℕ → Phase → Place

abbrev pub client_of : ℕ → Phase → Option ℕ
client_of k made = none
client_of k entered = some k
client_of k closed = none

-- The pending timers of ping, while the connection at k is the one there is.
abbrev pub IsTimed : Link → ℕ → Phase → Type 0
IsTimed s k made = (s.pings ≡ []) × (s.ping_timer k ≡ none)
IsTimed s k entered = (t : ℕ) × (s.pings ≡ (t, k) ∷ []) × (s.ping_timer k ≡ some t)
IsTimed s k closed = (t : ℕ) × (s.pings ≡ (t, k) ∷ []) × (s.ping_timer k ≡ some t)

abbrev pub Counts : Link → ℕ → ℕ → ℕ → Type 0
Counts s connecting sleeping restarts =
    (s.connecting ≡ connecting) × (s.sleeping ≡ sleeping) × (s.restarts ≡ restarts)

abbrev pub IsBare : Link → Type 0
IsBare s = (s.objects ≡ []) × (s.host.center_client ≡ none) × (s.pings ≡ [])

abbrev pub IsAt : Link → Place → Type 0
IsAt s at_connect = Counts s 1 0 0 × IsBare s
IsAt s at_sleep = Counts s 0 1 0 × IsBare s
IsAt s at_timer = Counts s 0 0 1 × IsBare s
IsAt s (at_object k phase) =
    Counts s 0 0 0
    × ((s.objects ≡ (k, phase) ∷ [])
        × (s.host.center_client ≡ client_of k phase)
        × IsTimed s k phase)

-- Where the process is, by what a step finds.
pub connecting-place : (s : Link) (w : Place) → IsAt s w → 1 ≤ s.connecting → IsAt s at_connect
connecting-place s at_connect at h = at
connecting-place s at_sleep at h = absurd (omega (arith, at.0.0))
connecting-place s at_timer at h = absurd (omega (arith, at.0.0))
connecting-place s (at_object k phase) at h = absurd (omega (arith, at.0.0))

pub sleeping-place : (s : Link) (w : Place) → IsAt s w → 1 ≤ s.sleeping → IsAt s at_sleep
sleeping-place s at_sleep at h = at
sleeping-place s at_connect at h = absurd (omega (arith, at.0.1))
sleeping-place s at_timer at h = absurd (omega (arith, at.0.1))
sleeping-place s (at_object k phase) at h = absurd (omega (arith, at.0.1))

pub restarts-place : (s : Link) (w : Place) → IsAt s w → 1 ≤ s.restarts → IsAt s at_timer
restarts-place s at_timer at h = at
restarts-place s at_connect at h = absurd (omega (arith, at.0.2))
restarts-place s at_sleep at h = absurd (omega (arith, at.0.2))
restarts-place s (at_object k phase) at h = absurd (omega (arith, at.0.2))

one-entry {ℓ} :
    {V : Type ℓ} (k j : ℕ) (v w : V) → lookup k ((j, w) ∷ []) ≡ some v → (j ≡ k) × (w ≡ v)
one-entry k j v w h = (ground arith, ground arith)

-- The entries of the one key.
pub insert-one : (k : ℕ) (q phase : Phase) → insert k phase ((k, q) ∷ []) ≡ (k, phase) ∷ []
unfolding insert
insert-one k q phase = ground arith

pub erase-one {ℓ} : {V : Type ℓ} (k : ℕ) (v : V) → erase k ((k, v) ∷ []) ≡ []
unfolding erase
erase-one k v = ground arith

pub object-place :
    (s : Link) (w : Place) (k : ℕ) (phase : Phase)
    → IsAt s w
    → lookup k s.objects ≡ some phase
    → IsAt s (at_object k phase)
object-place s at_connect k phase at h = absurd (ground (arith, at.1.0))
object-place s at_sleep k phase at h = absurd (ground (arith, at.1.0))
object-place s at_timer k phase at h = absurd (ground (arith, at.1.0))
object-place s (at_object j q) k phase at h =
    let one = one-entry k j phase q (sym (ap (lookup k) at.1.0) ∙ h) in rw (sym one.0, sym one.1) at

pub ping-place :
    (s : Link) (w : Place) (t k : ℕ)
    → IsAt s w
    → lookup t s.pings ≡ some k
    → (phase : Phase) × (phase ≢ made) × (erase t s.pings ≡ []) × IsAt s (at_object k phase)
ping-place s at_connect t k at h = absurd (ground (arith, at.1.2))
ping-place s at_sleep t k at h = absurd (ground (arith, at.1.2))
ping-place s at_timer t k at h = absurd (ground (arith, at.1.2))
ping-place s (at_object j made) t k at h = absurd (ground (arith, at.1.2.0))
ping-place s (at_object j entered) t k at h =
    let timer = at.1.2 in
    let one = one-entry t timer.0 k j (sym (ap (lookup t) timer.1) ∙ h) in
    let no_pings : erase t s.pings ≡ [] =
      ap (erase t) timer.1 ∙ ap (λ i. erase t ((i, j) ∷ [])) one.0 ∙ erase-one t j in
    (entered, λ e. absurd (ground (arith, e)), no_pings, rw (sym one.1) at)
ping-place s (at_object j closed) t k at h =
    let timer = at.1.2 in
    let one = one-entry t timer.0 k j (sym (ap (lookup t) timer.1) ∙ h) in
    let no_pings : erase t s.pings ≡ [] =
      ap (erase t) timer.1 ∙ ap (λ i. erase t ((i, j) ∷ [])) one.0 ∙ erase-one t j in
    (closed, λ e. absurd (ground (arith, e)), no_pings, rw (sym one.1) at)

pub client-gone : (k : ℕ) (phase : Phase) → phase ≢ entered → client_of k phase ≡ none
client-gone k made h = refl
client-gone k entered h = absurd (h refl)
client-gone k closed h = refl

pub cancelled : (s : Link) (k : ℕ) (phase : Phase) → IsTimed s k phase → (destroy k s).pings ≡ []
unfolding destroy
cancelled s k made timed = rw (timed.1, destroy) timed.0
cancelled s k entered (t, pings, timer) = rw (timer, destroy) (ap (erase t) pings ∙ erase-one t k)
cancelled s k closed (t, pings, timer) = rw (timer, destroy) (ap (erase t) pings ∙ erase-one t k)

pub added-IsTimed :
    (s : Link) (k : ℕ) (phase : Phase)
    → phase ≢ made
    → s.pings ≡ []
    → IsTimed (add_ping_timer k s) k phase
unfolding update
added-IsTimed s k made real no_pings = absurd (real refl)
added-IsTimed s k entered real no_pings = (s.next_timer, ground arith, ground arith)
added-IsTimed s k closed real no_pings = (s.next_timer, ground arith, ground arith)

-- What there is, by the place.
pub place-one :
    (s : Link) (w : Place)
    → IsAt s w
    → s.connecting + s.sleeping + s.restarts + length s.objects ≡ 1
place-one s at_connect ((c, d, t), (objects, client, pings)) = rw objects (ground arith)
place-one s at_sleep ((c, d, t), (objects, client, pings)) = rw objects (ground arith)
place-one s at_timer ((c, d, t), (objects, client, pings)) = rw objects (ground arith)
place-one s (at_object k phase) ((c, d, t), (objects, client, timed)) = rw objects (ground arith)

pub place-client :
    (s : Link) (w : Place) (k : ℕ)
    → IsAt s w
    → (s.host.center_client ≡ some k) ↔ (lookup k s.objects ≡ some entered)
place-client s at_connect k at = (ground (arith, at.1), ground (arith, at.1))
place-client s at_sleep k at = (ground (arith, at.1), ground (arith, at.1))
place-client s at_timer k at = (ground (arith, at.1), ground (arith, at.1))
place-client s (at_object j made) k at = (ground (arith, at.1), ground (arith, at.1))
place-client s (at_object j entered) k at =
    (ground (arith, at.1.0, at.1.1), ground (arith, at.1.0, at.1.1))
place-client s (at_object j closed) k at =
    (ground (arith, at.1.0, at.1.1), ground (arith, at.1.0, at.1.1))

pub place-pings :
    (s : Link) (w : Place) (t k : ℕ)
    → IsAt s w
    → lookup t s.pings ≡ some k
    → lookup k s.objects ≢ none
place-pings s w t k at there gone =
    let (phase, not_made, none_left, (counts, (objects, client, timed))) =
      ping-place s w t k at there in
    absurd (ground (arith, objects))
