-- ===== src/WsConnectionServer/Downstream.antt =====
-- What a logic server's login and its packets to the clients do.
use mathlib.Core.List.{reverse, reverse-cons}
use dserver_framework.Prelude.{
  ℕ, Bool, true, false, not, ◌≡◌, refl, sym, ap, ◌∙◌, inl, inr, Option, none, some, List, [], ◌∷◌,
  ◌++◌, map, append_assoc, arith, if◌then◌else◌, is_some, Option-cases, lookup, insert,
  lookup-insert, subscript, update,
}
use dserver_framework.ConnectionServer.Servers.{ServerTable}
use dserver_framework.WsConnectionServer.{WsEffect, WsWorld, login_reply, reply, emit}
use dserver_framework.WsConnectionServer.Tables.{
  find_primary_logic_server, add_primary_logic_server, find_slave_logic_server,
  add_slave_logic_server,
}
use dserver_framework.WsConnectionServer.Messages.{LogicServerLogin, DownstreamAck, PbLib}
use dserver_framework.WsConnectionServer.Logic.{
  register, log_in, on_logic_server_login, downstream_loop, on_packet2client_by_runtime_id,
}

-- The sessions of those of the ids that are registered, in the order of the ids.
unfoldable pub present : List ℕ → List (ℕ × ℕ) → List ℕ
present [] table = []
present (v ∷ vs) table =
    let more = present vs table in elim (lookup v table) [ none ↦ more | some c ↦ c ∷ more ]

abbrev pub replies : ℕ → List ℕ → List ℕ → List WsEffect
replies op bytes clients = map (λ c. reply c op bytes) clients

downstream_loop_lem :
    (op : ℕ) (bytes vs : List ℕ) (w : WsWorld)
    → downstream_loop op bytes vs w
      ≡ record w { effects = reverse (replies op bytes (present vs w.all_clients)) ++ w.effects }
unfolding downstream_loop present
downstream_loop_lem op bytes [] w = refl
downstream_loop_lem op bytes (v ∷ vs) w = elim (Option-cases (lookup v w.all_clients)) [
  | inl e ↦ rw (e, present) (downstream_loop_lem op bytes vs w)
  | inr (c, e) ↦
      let more = replies op bytes (present vs w.all_clients) in
      rw (e, present)
        (downstream_loop_lem op bytes vs (emit w (reply c op bytes))
          ∙ ap (λ l. record w { effects = l })
              (sym (append_assoc (reverse more) (reply c op bytes ∷ []) w.effects)
                ∙ ap (λ l. l ++ w.effects) (sym (reverse-cons (reply c op bytes) more))))
]

-- A packet of a logic server for a list of clients goes to exactly the registered ones, each as often
-- as its id is listed and in the order of the list, and changes nothing else.
pub on_packet2client-replies :
    (pb : PbLib) (rp : List ℕ) (m : DownstreamAck) (w : WsWorld)
    → pb.parse_downstream rp ≡ some m
    → on_packet2client_by_runtime_id pb rp w ≡ record w {
      effects = reverse (replies m.msg_id m.bytes (present m.client_id w.all_clients)) ++ w.effects;
    }
unfolding on_packet2client_by_runtime_id
on_packet2client-replies pb rp m w e =
    rw (e, on_packet2client_by_runtime_id) (downstream_loop_lem m.msg_id m.bytes m.client_id w)

-- The table that a login looks into.
abbrev pub table_of : Bool → WsWorld → ServerTable
table_of true w = w.primary_servers
table_of false w = w.slave_servers

-- The session that a table has for an id; an entry with a null pointer is as good as none.
abbrev pub session_of : ℕ → ServerTable → Option ℕ
session_of id m = elim (lookup id m) [ none ↦ none | some p ↦ p ]

session_of-log_in :
    (p id : ℕ) (b : Bool) (w : WsWorld)
    → let m : LogicServerLogin = record { id = id; is_primary = b } in
      let holder = session_of id (table_of b w) in
      session_of id (table_of b (log_in p m (register p m w)))
      ≡ (if is_some holder then holder else some p)
unfolding register log_in find_primary_logic_server find_slave_logic_server add_primary_logic_server
    add_slave_logic_server subscript
session_of-log_in p id true w = ground (
  arith,
  lookup-insert id id (some p) w.primary_servers,
  lookup-insert id id (some p) (insert id none w.primary_servers),
)
session_of-log_in p id false w = ground (
  arith,
  lookup-insert id id (some p) w.slave_servers,
  lookup-insert id id (some p) (insert id none w.slave_servers),
)

-- A login succeeds exactly if no session holds the id in the table of primary or of slave servers that
-- the message names, whoever sends it: the session then stands in the table under the id and has the
-- id and the kind. Otherwise the holder and the session stay as they are. Either way the reply says
-- which, and the other table is untouched.
login-session_of :
    (pb : PbLib) (p : ℕ) (rp : List ℕ) (m : LogicServerLogin) (w : WsWorld)
    → pb.parse_login rp ≡ some m
    → let v = on_logic_server_login pb p rp w in
      let holder = session_of m.id (table_of m.is_primary w) in
      (v.effects ≡ login_reply p (not (is_some holder)) w.config_id ∷ w.effects)
      × (session_of m.id (table_of m.is_primary v) ≡ (if is_some holder then holder else some p))
      × (v.servers p ≡ (
          if is_some holder then w.servers p else record { is_primary = m.is_primary; id = m.id }))
      × (table_of (not m.is_primary) v ≡ table_of (not m.is_primary) w)
unfolding on_logic_server_login register log_in find_primary_logic_server find_slave_logic_server
    add_primary_logic_server add_slave_logic_server subscript update
login-session_of pb p rp m w e = (
  ground arith,
  rw (e, on_logic_server_login) (session_of-log_in p m.id m.is_primary w),
  ground arith,
  ground arith,
)
