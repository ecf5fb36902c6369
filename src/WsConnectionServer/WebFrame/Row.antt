-- ===== src/WsConnectionServer/WebFrame/Row.antt =====
-- What onMsg makes of a row of web socket frames.
use dserver_framework.Prelude.{
  ℕ, zero, suc, ◌+◌, ◌-◌, ◌%◌, ◌≤◌, ◌<◌, ◌≡◌, refl, sym, ap, ◌∙◌, true, false, ◌&&◌, none, some,
  List, [], ◌∷◌, ◌++◌, map, flatten, append-nil, append_assoc, arith, length, drop, All, leb,
  if◌then◌else◌, length-append, take-length, take-length-append, drop-length-append,
}
use native.Mathlib.Nat.{mod-eq_of_lt, add-mod_right}
use dserver_framework.Framing.{Frame}
use dserver_framework.WsConnectionServer.WebFrame.{
  Extracted, WebLib, WebSession, is_data, is_continuation, proc_frame, next_frame, less, frame_loop,
  web_on_msg, after_frames,
}

-- A frame's bytes, and what is extracted from them.
abbrev pub Sent : Type 0
Sent = List ℕ × Extracted

-- The bytes are one frame, whatever stands behind them, and not a shorter one than the code waits for.
pub record IsFrame (lib : WebLib) (m : Sent) : Type 0 where
  pub extracted : (rest : List ℕ) → lib.ws_frame_extract (m.0 ++ rest) ≡ some m.1
  pub sized : m.1.frame_size ≡ length m.0
  pub long : 14 ≤ length m.0

-- No frame can be taken from these bytes yet.
abbrev pub IsWaiting : WebLib → List ℕ → Type 0
IsWaiting lib tail = next_frame lib (length tail) tail ≡ none

abbrev pub bytes_of : List Sent → List ℕ
bytes_of row = flatten (map (λ (m : Sent). m.0) row)

-- The frames one after the other.
unfoldable pub proc_frames : WebLib → List Sent → List ℕ → List Frame × List ℕ
proc_frames lib [] cache = ([], cache)
proc_frames lib (m ∷ row) cache =
    let (calls, cache') = proc_frame lib m.1 cache in
    let (calls', cache'') = proc_frames lib row cache' in (calls ++ calls', cache'')

next_frame-IsFrame :
    (lib : WebLib) (m : Sent) (rest more : List ℕ)
    → IsFrame lib m
    → next_frame lib (length (m.0 ++ rest)) ((m.0 ++ rest) ++ more) ≡ some m.1
next_frame-IsFrame lib m rest more h =
    ground (
      arith,
      length-append m.0 rest,
      h.long,
      take-length-append (m.0 ++ rest) more,
      h.extracted rest,
    )

subtracted : (a r m : ℕ) → a + r < m → (a + r + m - a % m) % m ≡ r
subtracted a r m h =
    let same : a % m ≡ a = mod-eq_of_lt (omega arith) in
    let sum : a + r + m - a ≡ r + m = omega arith in
    rw (same, sum) (add-mod_right r m ∙ mod-eq_of_lt (omega arith))

less-length :
    (lib : WebLib) (m : Sent) (rest : List ℕ)
    → IsFrame lib m
    → length (m.0 ++ rest) < lib.len_mod
    → less lib (length (m.0 ++ rest)) m.1.frame_size ≡ length rest
less-length lib m rest h small =
    let both = length-append m.0 rest in
    rw (h.sized, both) (subtracted (length m.0) (length rest) lib.len_mod (omega arith))

loop_stops :
    (lib : WebLib) (parse_str : List ℕ) (fuel total left : ℕ) (cache : List ℕ)
    → next_frame lib left parse_str ≡ none
    → frame_loop lib (suc fuel) parse_str total left cache ≡ ([], total, cache)
unfolding frame_loop
loop_stops lib parse_str fuel total left cache e = rw (e, frame_loop) refl

loop_goes :
    (lib : WebLib) (parse_str : List ℕ) (fuel total left : ℕ) (cache : List ℕ) (f : Extracted)
    → next_frame lib left parse_str ≡ some f
    → let done = proc_frame lib f cache in
      let rest =
        frame_loop lib fuel
          (drop f.frame_size parse_str)
          (total + f.frame_size)
          (less lib left f.frame_size)
          done.1 in
      frame_loop lib (suc fuel) parse_str total left cache ≡ (done.0 ++ rest.0, rest.1, rest.2)
unfolding frame_loop
loop_goes lib parse_str fuel total left cache f e = rw (e, frame_loop) refl

waiting :
    (lib : WebLib) (tail more : List ℕ)
    → IsWaiting lib tail
    → next_frame lib (length tail) (tail ++ more) ≡ none
waiting lib tail more w =
    ap (λ bs. if leb 14 (length tail) then lib.ws_frame_extract bs else none)
      (take-length-append tail more ∙ sym (take-length (length tail) tail (omega arith)))
    ∙ w

-- The loop takes the frames of the row, and then waits.
frame_loop_lem :
    (lib : WebLib) (row : List Sent) (tail more : List ℕ) (fuel total : ℕ) (cache : List ℕ)
    → All (IsFrame lib) row
    → IsWaiting lib tail
    → length (bytes_of row ++ tail) < lib.len_mod
    → length (bytes_of row ++ tail) < fuel
    → let done = proc_frames lib row cache in
      frame_loop lib fuel
        ((bytes_of row ++ tail) ++ more)
        total
        (length (bytes_of row ++ tail))
        cache
      ≡ (done.0, total + length (bytes_of row), done.1)
unfolding proc_frames flatten
frame_loop_lem lib row tail more zero total cache h w small enough = absurd (omega arith)
frame_loop_lem lib [] tail more (suc fuel) total cache h w small enough =
    loop_stops lib (tail ++ more) fuel total (length tail) cache (waiting lib tail more w)
    ∙ ap (λ n. ([], n, cache)) (omega arith)
frame_loop_lem lib (m ∷ row) tail more (suc fuel) total cache h w small enough =
    let rest = bytes_of row ++ tail in
    let whole : (m.0 ++ bytes_of row) ++ tail ≡ m.0 ++ rest =
      append_assoc m.0 (bytes_of row) tail in
    let size = length-append m.0 rest in
    let size' = length-append m.0 (bytes_of row) in
    let small' : length (m.0 ++ rest) < lib.len_mod = rw (← whole) small in
    let enough' : length (m.0 ++ rest) < suc fuel = rw (← whole) enough in
    let behind : drop m.1.frame_size ((m.0 ++ rest) ++ more) ≡ rest ++ more =
      rw (h.0.sized, append_assoc m.0 rest more) (drop-length-append m.0 (rest ++ more)) in
    let done = proc_frame lib m.1 cache in
    let then_calls : List Frame × ℕ × List ℕ → List Frame × ℕ × List ℕ =
      λ r. (done.0 ++ r.0, r.1, r.2) in
    let start = total + m.1.frame_size in
    ap (λ bs. frame_loop lib (suc fuel) (bs ++ more) total (length bs) cache) whole
    ∙ loop_goes lib ((m.0 ++ rest) ++ more) fuel total (length (m.0 ++ rest)) cache m.1
        (next_frame-IsFrame lib m rest more h.0)
    ∙ ap
        (λ bs.
          then_calls
            (frame_loop lib fuel bs start (less lib (length (m.0 ++ rest)) m.1.frame_size) done.1))
        behind
    ∙ ap (λ n. then_calls (frame_loop lib fuel (rest ++ more) start n done.1))
        (less-length lib m rest h.0 small')
    ∙ ap then_calls (
        frame_loop_lem lib row tail more fuel start done.1 h.1 w (omega arith)
          (omega (arith, h.0.long)))
    ∙ ap (λ n. then_calls ((proc_frames lib row done.1).0, n, (proc_frames lib row done.1).1))
        (omega (arith, h.0.sized))

-- A session that has shaken hands.
abbrev pub shaken : List ℕ → WebSession
shaken cache = record { shakehanded = true; cache_frame = cache }

-- onMsg on a row of frames with a part of one more behind it, less than PACKET_LEN_TYPE can hold.
pub web_on_msg_row :
    (lib : WebLib) (row : List Sent) (tail more cache : List ℕ)
    → All (IsFrame lib) row
    → IsWaiting lib tail
    → length (bytes_of row ++ tail) < lib.len_mod
    → let done = proc_frames lib row cache in
      web_on_msg lib ((bytes_of row ++ tail) ++ more) (length (bytes_of row ++ tail)) (shaken cache)
      ≡ record {
        calls = done.0;
        proc_len = length (bytes_of row);
        session = shaken done.1;
        sent = [];
      }
unfolding web_on_msg
web_on_msg_row lib row tail more cache h w small =
    let n = length (bytes_of row ++ tail) in
    rw (mod-eq_of_lt small) (
      ap (after_frames (shaken cache)) (
        frame_loop_lem lib row tail more (n + 1) 0 cache h w small (omega arith)
        ∙ ap (λ k. ((proc_frames lib row cache).0, k, (proc_frames lib row cache).1))
            (omega arith)))

-- Not the last frame of a message of text or bytes.
abbrev pub IsUnfinished : Sent → Type 0
IsUnfinished m = (m.1.is_fin && is_data m.1.opcode) ≡ false

-- The payloads of the continuation frames.
unfoldable pub continued : List Sent → List ℕ
continued [] = []
continued (m ∷ row) =
    let more = continued row in if is_continuation m.1.opcode then m.1.payload ++ more else more

proc_frames-continued :
    (lib : WebLib) (row : List Sent) (cache : List ℕ)
    → All IsUnfinished row
    → proc_frames lib row cache ≡ ([], cache ++ continued row)
unfolding proc_frames proc_frame continued
proc_frames-continued lib [] cache h = ap (λ c. ([], c)) (sym (append-nil cache))
proc_frames-continued lib (m ∷ row) cache h = ground (
  arith,
  proc_frames-continued lib row cache h.1,
  proc_frames-continued lib row (cache ++ m.1.payload) h.1,
  append_assoc cache m.1.payload (continued row),
)

-- A message that a client sends in several frames is never handed over: where no frame of the row is
-- both final and of text or bytes, as the first, middle and last frames of a split message are not,
-- onMsg calls nothing, however many frames come, and keeps the payloads of the continuation frames.
-- Each frame has 14 bytes at least, the session has shaken hands, a part of one more frame may stand
-- behind the row, and PACKET_LEN_TYPE can hold the length.
pub unfinished_silent :
    (lib : WebLib) (row : List Sent) (tail more cache : List ℕ)
    → All (IsFrame lib) row
    → All IsUnfinished row
    → IsWaiting lib tail
    → length (bytes_of row ++ tail) < lib.len_mod
    → web_on_msg lib ((bytes_of row ++ tail) ++ more) (length (bytes_of row ++ tail)) (shaken cache)
      ≡ record {
        calls = [];
        proc_len = length (bytes_of row);
        session = shaken (cache ++ continued row);
        sent = [];
      }
unfinished_silent lib row tail more cache h u w small =
    web_on_msg_row lib row tail more cache h w small
    ∙ rw (proc_frames-continued lib row cache u) refl
