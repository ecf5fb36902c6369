-- ===== src/ConnectionServer/Servers.antt =====
-- ConnectionServer/LogicServerSessionMgr.cpp: the tables of the logic servers' sessions. Each method
-- runs under the table's mutex and is one step.
use dserver_framework.Prelude.{
  ℕ, ◌+◌, ◌%◌, Option, some, List, [], ◌∷◌, length, insert, erase, subscript, ◌==◌, if◌then◌else◌,
  minus_one32,
}
use dserver_framework.ConnectionServer.{World}

abbrev pub ServerTable : Type 0
ServerTable = List (ℕ × Option ℕ)

-- FindPrimaryLogicServer
unfoldable pub find_primary_logic_server : ℕ → World → Option ℕ × World
find_primary_logic_server id w =
    let (p, m) = subscript id w.primary_servers in (p, record w { primary_servers = m })

-- AddPrimaryLogicServer
unfoldable pub add_primary_logic_server : ℕ → ℕ → World → World
add_primary_logic_server id p w = record w {
  primary_servers = insert id (some p) w.primary_servers;
}

-- RemovePrimaryLogicServer
unfoldable pub remove_primary_logic_server : ℕ → World → World
remove_primary_logic_server id w = record w { primary_servers = erase id w.primary_servers }

-- FindSlaveLogicServer
unfoldable pub find_slave_logic_server : ℕ → World → Option ℕ × World
find_slave_logic_server id w =
    let (p, m) = subscript id w.slave_servers in (p, record w { slave_servers = m })

-- AddSlaveLogicServer
unfoldable pub add_slave_logic_server : ℕ → ℕ → World → World
add_slave_logic_server id p w = record w { slave_servers = insert id (some p) w.slave_servers }

-- RemoveSlaveLogicServer
unfoldable pub remove_slave_logic_server : ℕ → World → World
remove_slave_logic_server id w = record w { slave_servers = erase id w.slave_servers }

-- The loop of ClaimPrimaryLogicServer: `if (i++ == randnum)`.
unfoldable pub claim_loop : ℕ → ℕ → ServerTable → ℕ
claim_loop i randnum [] = minus_one32
claim_loop i randnum ((id, p) ∷ m) = if i == randnum then id else claim_loop (i + 1) randnum m

-- ClaimPrimaryLogicServer, with the value of rand().
unfoldable pub claim_primary_logic_server : ℕ → ServerTable → ℕ
claim_primary_logic_server rand [] = minus_one32
claim_primary_logic_server rand (e ∷ m) = claim_loop 0 (rand % length (e ∷ m)) (e ∷ m)
