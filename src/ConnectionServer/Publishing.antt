-- ===== src/ConnectionServer/Publishing.antt =====
-- ConnectionServer/ConnectionServer.cpp: the loop of main, which keeps the server's entry in etcd. HTTP
-- is a parameter. Times are in milliseconds. Its copy in WSConnectionServer/ConnectionServer.cpp is the
-- same text.
pub mod Lease
use dserver_framework.Prelude.{
  ℕ, ◌+◌, ◌*◌, ◌≤◌, Bool, false, Option, none, some, List, [], ◌∷◌, length, bytes_eq, ◌==◌,
  if◌then◌else◌,
}

-- What etcdSet sends: the id in the key ConnectionServerList/<id>, and the fields of etcdKV, the text
-- of the configuration and the seconds that the entry lives.
pub record Entry : Type 0 where
  pub server_id : ℕ
  pub value : List ℕ
  pub ttl : ℕ

-- etcdSet to an etcd server at a time, with its timeout: the body of the answer, empty if there is
-- none, how long the call took, and how long after its start the entry was set, if the body is not
-- empty.
pub record Answer : Type 0 where
  pub body : List ℕ
  pub took : ℕ
  pub set_after : ℕ

pub record EtcdSetLib : Type 0 where
  pub etcd_set : ℕ → ℕ → ℕ → Entry → Answer

-- The call ends by its timeout, and the entry is not set later than that.
pub record EtcdSetLaws (lib : EtcdSetLib) : Type 0 where
  pub in_time :
      (etcd now timeout : ℕ) (e : Entry) → (lib.etcd_set etcd now timeout e).took ≤ timeout
  pub set_in_time :
      (etcd now timeout : ℕ) (e : Entry)
      → (lib.etcd_set etcd now timeout e).set_after ≤ (lib.etcd_set etcd now timeout e).took

-- A round of main: the console's line, `none` where no key was hit, how long the console took, which
-- waits for the end of the line, and how long sleep_for(5000 ms) slept, which may be longer.
pub record Round : Type 0 where
  pub line : Option (List ℕ)
  pub console_took : ℕ
  pub slept : ℕ

-- The clock, when the entry was set, newest first, and the console lines that were logged.
pub record Publisher : Type 0 where
  pub now : ℕ
  pub sets : List ℕ
  pub logged : List (List ℕ)

abbrev pub new_publisher : ℕ → Publisher
new_publisher now = record { now = now; sets = []; logged = [] }

abbrev pub quit : List ℕ
quit = 113 ∷ 117 ∷ 105 ∷ 116 ∷ []

-- etcdKV, of connectionServerConfig.id() and the text of the file
abbrev pub entry_of : ℕ → List ℕ → Entry
entry_of id text = record { server_id = id; value = text; ttl = 15 }

-- if (app_kbhit())
unfoldable pub console : Round → Publisher → Publisher
console r w = record w {
  now = w.now + r.console_took;
  logged = elim r.line [ none ↦ w.logged | some line ↦ line ∷ w.logged ];
}

abbrev pub is_quit : Option (List ℕ) → Bool
is_quit none = false
is_quit (some line) = bytes_eq line quit

module _ (lib : EtcdSetLib) (entry : Entry) where
  -- The loop over the etcd servers, up to the first one that answers.
  unfoldable pub publish : List ℕ → Publisher → Publisher
  publish [] w = w
  publish (etcd ∷ etcds) w =
      let a = lib.etcd_set etcd w.now 5000 entry in
      let later = record w { now = w.now + a.took } in
      let rest = publish etcds later in
      if length a.body == 0 then rest else record later { sets = (w.now + a.set_after) ∷ w.sets }

  -- The rest of a round, after the console.
  unfoldable pub publish_round : List ℕ → Round → Publisher → Publisher
  publish_round etcds r w = let w' = publish etcds w in record w' { now = w'.now + r.slept }

  -- The loop of main, until "quit"; where the list of rounds ends, it goes on.
  unfoldable pub publish_loop : List ℕ → List Round → Publisher → Publisher
  unfolding console
  publish_loop etcds [] w = w
  publish_loop etcds (r ∷ rounds) w =
      let w' = console r w in
      let rest = publish_loop etcds rounds (publish_round etcds r w') in
      if is_quit r.line then w' else rest
