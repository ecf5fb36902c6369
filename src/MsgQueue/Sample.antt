-- ===== src/MsgQueue/Sample.antt =====
-- A queue that meets the laws, for the theorems' examples: one list, which needs no sync.
use dserver_framework.Prelude.{◌≡◌, refl, Option, none, some, List, [], ◌∷◌, ◌++◌, arith, length}
use dserver_framework.MsgQueue.{MsgQueue, QueueLaws}

module _ (A : Type 0) where
  front_of : List A → Option (A × List A)
  front_of [] = none
  front_of (m ∷ ms) = some (m, ms)

  unfoldable pub plain_queue : MsgQueue A (List A)
  unfolding front_of
  plain_queue = record {
    push = λ m q. q ++ (m ∷ []);
    force_sync_write = λ q. q;
    sync_read = λ q. q;
    pop_front = front_of;
    read_list_size = length;
    contents = λ q. q;
    read_list = λ q. q;
  }

  front_of-some : (q q' : List A) (m : A) → front_of q ≡ some (m, q') → q ≡ m ∷ q'
  unfolding front_of
  front_of-some [] q' m e = absurd (ground arith)
  front_of-some (n ∷ q) q' m e = ground arith

  front_of-none : (q : List A) → front_of q ≡ none → q ≡ []
  unfolding front_of
  front_of-none [] e = refl
  front_of-none (n ∷ q) e = absurd (ground arith)

  pub plain_queue-QueueLaws : QueueLaws plain_queue
  unfolding plain_queue
  plain_queue-QueueLaws = record {
    contents-push = λ m q. refl;
    contents-force_sync_write = λ q. refl;
    contents-sync_read = λ q. refl;
    contents-pop_front = front_of-some;
    read_list-pop_front = front_of-some;
    read_list-empty = front_of-none;
    read_list_size_lem = λ q. refl;
  }
