-- ===== src/ConnectionServer/Ids.antt =====
-- The ids that the connection servers give to their clients: CLIENT_RUNTIME_ID of
-- ConnectionServer/ClientSession.cpp and of WSConnectionServer/ClientSession.cpp, a union of an
-- int64_t with { int16_t serverID; int16_t incID; int32_t time }, laid out from the lowest bits up;
-- and COMMON_UID of Common/MakeUID.h, a union of an int64_t with { int32_t incID; int32_t time }.
use dserver_framework.Prelude.{ℕ, ◌+◌, ◌-◌, ◌*◌, ◌%◌, ◌^◌, ◌<◌, ◌≡◌, ◌≢◌, ◌↔◌, arith, minus_one64}

unfoldable pub make_runtime_id : ℕ → ℕ → ℕ → ℕ
make_runtime_id server_id inc_id time =
    server_id % 2 ^ 16 + 2 ^ 16 * (inc_id % 2 ^ 16) + 2 ^ 32 * (time % 2 ^ 32)

-- std::atomic_fetch_add(&incRuntimeID, 1), on an int32_t that wraps
abbrev pub next_inc : ℕ → ℕ
next_inc inc = (inc + 1) % 2 ^ 32

-- CommonMakeUID: the counter steps first; the new counter and the id.
unfoldable pub common_make_uid : ℕ → ℕ → ℕ × ℕ
common_make_uid inc_id time =
    let inc' = (inc_id + 1) % 2 ^ 32 in (inc', inc' + 2 ^ 32 * (time % 2 ^ 32))

-- Two ids of clients are equal exactly if they have the same server, the same counter and the same
-- second, each in the bits that the id keeps of it: 16 of the server's id, 16 of the counter's 32, and
-- 32 of the time.
pub make_runtime_id_fields :
    (s i t s' i' t' : ℕ)
    → (make_runtime_id s i t ≡ make_runtime_id s' i' t')
      ↔ ((s % 2 ^ 16 ≡ s' % 2 ^ 16) × (i % 2 ^ 16 ≡ i' % 2 ^ 16) × (t % 2 ^ 32 ≡ t' % 2 ^ 32))
unfolding make_runtime_id
make_runtime_id_fields s i t s' i' t' = (λ e. omega (arith, e), λ e. omega (arith, e))

make_runtime_id-lt : (s i t : ℕ) → make_runtime_id s i t < 2 ^ 64
unfolding make_runtime_id
make_runtime_id-lt s i t = omega arith

-- Before the clock reaches 2 ^ 32 - 1 no id is the -1 that stands for "no id".
pub make_runtime_id-ne-minus_one :
    (s i t : ℕ) → t < 2 ^ 32 - 1 → make_runtime_id s i t ≢ minus_one64
unfolding make_runtime_id
make_runtime_id-ne-minus_one s i t h = omega arith

-- Two ids that CommonMakeUID makes one after the other differ, whatever the clock says, and the
-- counter that it keeps is the id's low half.
common_make_uid_ne :
    (i t t' : ℕ)
    → let (i', a) = common_make_uid i t in (a ≢ (common_make_uid i' t').1) × (i' ≡ a % 2 ^ 32)
unfolding common_make_uid
common_make_uid_ne i t t' = (λ e. omega arith, omega arith)
