-- ===== src/MsgQueue.antt =====
-- dodo::MsgQueue of the networking library, which is not in the repository: what the network threads'
-- messages and the log use of it, as a parameter of the model.
pub mod Sample
use dserver_framework.Prelude.{ℕ, ◌≡◌, Option, none, some, List, [], ◌∷◌, ◌++◌, length}

-- What the queue offers; `contents` are the messages pushed and not yet popped, the oldest first, and
-- `read_list` those of them that can be popped before the next syncRead.
pub record MsgQueue (A Q : Type 0) : Type 0 where
  pub push : A → Q → Q
  pub force_sync_write : Q → Q
  pub sync_read : Q → Q
  pub pop_front : Q → Option (A × Q)
  pub read_list_size : Q → ℕ
  pub contents : Q → List A
  pub read_list : Q → List A

-- The queue loses nothing, and pops the oldest message of the read list if that has any.
pub record QueueLaws {A Q : Type 0} (queue : MsgQueue A Q) : Type 0 where
  pub contents-push :
      (m : A) (q : Q) → queue.contents (queue.push m q) ≡ queue.contents q ++ (m ∷ [])
  pub contents-force_sync_write :
      (q : Q) → queue.contents (queue.force_sync_write q) ≡ queue.contents q
  pub contents-sync_read : (q : Q) → queue.contents (queue.sync_read q) ≡ queue.contents q
  pub contents-pop_front :
      (q q' : Q) (m : A)
      → queue.pop_front q ≡ some (m, q')
      → queue.contents q ≡ m ∷ queue.contents q'
  pub read_list-pop_front :
      (q q' : Q) (m : A)
      → queue.pop_front q ≡ some (m, q')
      → queue.read_list q ≡ m ∷ queue.read_list q'
  pub read_list-empty : (q : Q) → queue.pop_front q ≡ none → queue.read_list q ≡ []
  pub read_list_size_lem : (q : Q) → queue.read_list_size q ≡ length (queue.read_list q)
