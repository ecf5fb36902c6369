-- ===== src/WsConnectionServer/Kick.antt =====
-- Whom the closing of a primary server's session disconnects.
use mathlib.Core.List.{reverse, reverse-cons}
use dserver_framework.Prelude.{
  ℕ, ◌≡◌, ◌≢◌, refl, sym, ap, ◌∙◌, true, inl, inr, some, List, [], ◌∷◌, ◌++◌, append_assoc, arith,
  ◌==◌, if◌then◌else◌, Bool-cases, false, lookup, erase, minus_one32, Found, IsMap-Found,
}
use dserver_framework.WsConnectionServer.{WsEffect, WsWorld, post_close, notify_later, emit}
use dserver_framework.WsConnectionServer.Tables.{
  remove_primary_logic_server, get_primary_server_id, kick_client, kick_loop,
  kick_client_of_primary,
}
use dserver_framework.WsConnectionServer.Logic
use dserver_framework.WsConnectionServer.Logic.{put_server}
use dserver_framework.WsConnectionServer.Registry.{IsWsRegistry}

-- The clients of a table whose primary server's session has the id, in the table's order.
unfoldable pub served_by : ℕ → List (ℕ × ℕ) → WsWorld → List ℕ
served_by id [] w = []
served_by id ((k, c) ∷ rest) w =
    let more = served_by id rest w in if get_primary_server_id c w == id then c ∷ more else more

-- For each client, postClose and then the notification of its servers.
unfoldable pub kicks : List ℕ → List WsEffect
kicks [] = []
kicks (c ∷ cs) = post_close c ∷ notify_later c ∷ kicks cs

abbrev pub with_kicks : List ℕ → WsWorld → WsWorld
with_kicks cs w = record w { effects = reverse (kicks cs) ++ w.effects }

kick_found :
    (k c : ℕ) (w : WsWorld)
    → IsWsRegistry w
    → lookup k w.all_clients ≡ some c
    → kick_client (w.clients c).runtime_id w ≡ emit (emit w (post_close c)) (notify_later c)
unfolding kick_client
kick_found k c w h e = ground (arith, h.ids k c e)

effects-kicks :
    (c : ℕ) (cs : List ℕ) (l : List WsEffect)
    → reverse (kicks cs) ++ (notify_later c ∷ post_close c ∷ l) ≡ reverse (kicks (c ∷ cs)) ++ l
unfolding kicks
effects-kicks c cs l =
    let ks = kicks cs in
    sym (append_assoc (reverse ks) (notify_later c ∷ []) (post_close c ∷ l))
    ∙ sym (append_assoc (reverse ks ++ (notify_later c ∷ [])) (post_close c ∷ []) l)
    ∙ ap (λ r. (r ++ (post_close c ∷ [])) ++ l) (sym (reverse-cons (notify_later c) ks))
    ∙ ap (λ r. r ++ l) (sym (reverse-cons (post_close c) (notify_later c ∷ ks)))

served_by-emit :
    (id : ℕ) (rest : List (ℕ × ℕ)) (l : List WsEffect) (w : WsWorld)
    → served_by id rest (record w { effects = l }) ≡ served_by id rest w
unfolding served_by
served_by-emit id [] l w = refl
served_by-emit id ((k, c) ∷ rest) l w = rw (served_by-emit id rest l w) refl

kick_loop_lem :
    (id : ℕ) (rest : List (ℕ × ℕ)) (w : WsWorld)
    → IsWsRegistry w
    → Found w.all_clients rest
    → kick_loop id rest w ≡ with_kicks (served_by id rest w) w
unfolding kick_loop served_by kicks
kick_loop_lem id [] w h f = refl
kick_loop_lem id ((k, c) ∷ rest) w h f = elim (Bool-cases (get_primary_server_id c w == id)) [
  | inr miss ↦ rw miss (kick_loop_lem id rest w h f.1)
  | inl hit ↦
      let v = emit (emit w (post_close c)) (notify_later c) in
      rw (hit, kick_found k c w h f.0)
        (kick_loop_lem id rest v (record { ids = h.ids; keys = h.keys; real = h.real }) f.1
          ∙ ap (λ cs. with_kicks cs v) (served_by-emit id rest v.effects w)
          ∙ ap (λ l. record w { effects = l }) (effects-kicks c (served_by id rest w) w.effects))
]

kick_client_of_primary_ws :
    (id : ℕ) (w : WsWorld)
    → IsWsRegistry w
    → kick_client_of_primary id w ≡ with_kicks (served_by id w.all_clients w) w
unfolding kick_client_of_primary
kick_client_of_primary_ws id w h =
    kick_loop_lem id w.all_clients w h (IsMap-Found w.all_clients h.keys)

-- Where the table of the clients is right: when the session of a primary server closes, exactly the
-- registered clients whose primary server's session has its id are closed and announced to their
-- servers, each once, in the order of the table; the server leaves the table of primary servers, its
-- session forgets its id, and nothing else changes.
pub on_close-with_kicks :
    (p : ℕ) (w : WsWorld)
    → IsWsRegistry w
    → (w.servers p).id ≢ minus_one32
    → (w.servers p).is_primary ≡ true
    → let id = (w.servers p).id in
      Logic.on_close p w
      ≡ put_server p
          (record { is_primary = false; id = minus_one32 })
          (record (with_kicks (served_by id w.all_clients w) w) {
            primary_servers = erase id w.primary_servers;
          })
unfolding Logic.on_close remove_primary_logic_server
on_close-with_kicks p w h real primary =
    ground (arith, kick_client_of_primary_ws (w.servers p).id w h)
